-- ===== src/Risk/Closed.antt =====
-- A remote risk manager fails closed.
use toss_trader.Prelude.{
  ◌≡◌, ◌↔◌, refl, Bool, true, false, List, [], ◌∷◌, Option, some, arith, Option-cases, inl, inr,
}
use toss_trader.Models.Signal.{TradeSignal}
use toss_trader.Client.Http.{Json, null, boolean, number, text, list, object, Items, nil, item, get}
use toss_trader.Risk.{RiskContext, Violation, remote}
use toss_trader.Risk.Remote.{
  Printer, N8nRiskManager, violations_of, decided, decision_of, remote_decision, or_unavailable,
  answer_decision, request_body, trade_payload, call, evaluate_remote,
}

-- Every item of a list is a text.
abbrev pub AreTexts : Items → Type 0
AreTexts nil = Unit
AreTexts (item (text t) rest) = AreTexts rest
AreTexts (item null rest) = ⊥
AreTexts (item (boolean b) rest) = ⊥
AreTexts (item (number n) rest) = ⊥
AreTexts (item (list l) rest) = ⊥
AreTexts (item (object o) rest) = ⊥

-- A member that is the boolean true, and one that is a list of texts.
abbrev pub IsTrue : Option Json → Type 0
IsTrue (some (boolean true)) = Unit
IsTrue _ = ⊥

abbrev pub IsTextList : Option Json → Type 0
IsTextList (some (list items)) = AreTexts items
IsTextList _ = ⊥

-- An answer that approves.
abbrev pub Approves : Option Json → Type 0
Approves (some (object payload)) =
    IsTrue (get "approved" payload) × IsTextList (get "violations" payload)
Approves _ = ⊥

violations_of-texts :
    (items : Items) → AreTexts items → (vs : List Violation) × (violations_of items ≡ some vs)
violations_of-texts nil h = ([], refl)
violations_of-texts (item (text t) rest) h =
    let (vs, e) = violations_of-texts rest h in (remote t ∷ vs, ground arith)
violations_of-texts (item null rest) h = absurd h
violations_of-texts (item (boolean b) rest) h = absurd h
violations_of-texts (item (number n) rest) h = absurd h
violations_of-texts (item (list l) rest) h = absurd h
violations_of-texts (item (object o) rest) h = absurd h

texts-violations_of :
    (items : Items) (vs : List Violation) → violations_of items ≡ some vs → AreTexts items
texts-violations_of nil vs h = tt
texts-violations_of (item (text t) rest) vs h = elim (Option-cases (violations_of rest)) [
  | inl e ↦ ground arith
  | inr (ws, e) ↦ texts-violations_of rest ws e
]
texts-violations_of (item null rest) vs h = cc
texts-violations_of (item (boolean b) rest) vs h = cc
texts-violations_of (item (number n) rest) vs h = cc
texts-violations_of (item (list l) rest) vs h = cc
texts-violations_of (item (object o) rest) vs h = cc

decided-true :
    (b : Bool) (items : Items)
    → (or_unavailable (decided b (violations_of items))).approved ≡ true
    → IsTrue (some (boolean b)) × AreTexts items
decided-true b items h = elim (Option-cases (violations_of items)) [
  | inl e ↦ ground arith
  | inr (vs, e) ↦ (approved-true b vs (ground arith), texts-violations_of items vs e)
]
  where
    approved-true : (b : Bool) (vs : List Violation) → b ≡ true → IsTrue (some (boolean b))
    approved-true true vs k = tt
    approved-true false vs k = cc

decision_of-true :
    (a v : Option Json)
    → (or_unavailable (decision_of a v)).approved ≡ true
    → IsTrue a × IsTextList v
decision_of-true (some (boolean b)) (some (list items)) h = decided-true b items h
decision_of-true a v h = cc

true-decision_of :
    (a v : Option Json)
    → IsTrue a
    → IsTextList v
    → (or_unavailable (decision_of a v)).approved ≡ true
true-decision_of (some (boolean true)) (some (list items)) h k =
    let (vs, e) = violations_of-texts items k in rw e refl
true-decision_of a v h k = ground arith

answer-approved :
    (answer : Option Json) → (answer_decision answer).approved ≡ true → Approves answer
unfolding remote_decision
answer-approved (some (object payload)) h =
    decision_of-true (get "approved" payload) (get "violations" payload) h
answer-approved answer h = cc

approved-answer :
    (answer : Option Json) → Approves answer → (answer_decision answer).approved ≡ true
unfolding remote_decision
approved-answer (some (object payload)) h =
    true-decision_of (get "approved" payload) (get "violations" payload) h.0 h.1
approved-answer answer h = ground arith

-- A remote risk manager approves a signal exactly when the webhook answers the signal's request with an object whose
-- "approved" is the boolean true and whose "violations" is a list of texts; no answer, an exception and any other
-- shape refuse it.
pub evaluate_remote-approved_iff :
    (webhook : Json → Option Json) (p : Printer) (m : N8nRiskManager) (s : TradeSignal)
    (c : RiskContext)
    → ((evaluate_remote webhook p m s c).approved ≡ true)
      ↔ Approves (webhook (request_body p m (trade_payload p s c) 1))
unfolding evaluate_remote call
evaluate_remote-approved_iff webhook p m s c = (answer-approved _, approved-answer _)
