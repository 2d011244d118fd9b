-- ===== src/Execution/Audit.antt =====
-- The audit trail of `PaperTradingService.submit` in src/toss_trader/execution.py: what submissions add to the ledger.
use mathlib.Core.List.{append_assoc, append-nil}
use toss_trader.Prelude.{
  ℕ, ◌+◌, ◌*◌, ◌≤◌, ◌≡◌, inl, inr, refl, sym, ap, ◌∙◌, true, String, List, [], ◌∷◌, ◌++◌, All, Some,
  Some-left, Some-right, All-map, All-append, length, length-append, arith, Bool-cases,
  if◌then◌else◌,
}
use toss_trader.Models.Time.{is_naive}
use toss_trader.Models.Signal.{TradeSignal}
use toss_trader.Ledger.{FillRow, DecisionRow, Ledger, violates_unique}
use toss_trader.Ledger.Cash.{row_of}
use toss_trader.Execution.{Service, Request, context_of, decide, submit, submit_all}
use toss_trader.Execution.Steps.{
  decision_row, submit_naive, submit_refused, submit_filled, submit_clash,
}

-- A decision on record that approves what a fill has done, for the same portfolio and at the same time.
pub record Audits (r : FillRow) (d : DecisionRow) : Type 0 where
  pub approved : d.decision.approved ≡ true
  pub portfolio : r.portfolio_id ≡ d.portfolio_id
  pub signal_id : r.fill.signal_id ≡ d.signal.signal_id
  pub symbol : r.fill.symbol ≡ d.signal.symbol
  pub side : r.fill.side ≡ d.signal.side
  pub quantity : r.fill.quantity ≡ d.signal.quantity
  pub price : r.fill.price ≡ d.signal.reference_price
  pub amount : r.fill.notional ≡ r.fill.price * r.fill.quantity
  pub time : r.fill.executed_at ≡ d.evaluated_at

-- A ledger after submissions: rows added at its end, a decision for each submission on record, and no fill but those
-- that one of the added decisions approves.
pub record Extends (portfolio : String) (n : ℕ) (l l' : Ledger) : Type 0 where
  pub fills_added : List FillRow
  pub decisions_added : List DecisionRow
  pub fills : l'.fills ≡ l.fills ++ fills_added
  pub decisions : l'.decisions ≡ l.decisions ++ decisions_added
  pub one_each : length decisions_added ≡ n
  pub at_most : length fills_added ≤ n
  pub own : All (λ (d : DecisionRow). d.portfolio_id ≡ portfolio) decisions_added
  pub audited : All (λ (r : FillRow). Some (Audits r) decisions_added) fills_added
  pub same_baselines : l'.baselines ≡ l.baselines
  pub same_plans : l'.plans ≡ l.plans

-- The submissions at a time with an offset.
abbrev pub on_record : List (Request × TradeSignal) → ℕ
on_record [] = 0
on_record ((q, s) ∷ orders) = (if is_naive q.now then 0 else 1) + on_record orders

Extends-none : (portfolio : String) (l : Ledger) → Extends portfolio 0 l l
Extends-none portfolio l = record {
  fills_added = [];
  decisions_added = [];
  fills = sym (append-nil l.fills);
  decisions = sym (append-nil l.decisions);
  one_each = refl;
  at_most = omega arith;
  own = tt;
  audited = tt;
  same_baselines = refl;
  same_plans = refl;
}

Extends-trans :
    (portfolio : String) (n k : ℕ) (l m o : Ledger)
    → Extends portfolio n l m
    → Extends portfolio k m o
    → Extends portfolio (n + k) l o
Extends-trans portfolio n k l m o a b = record {
  fills_added = a.fills_added ++ b.fills_added;
  decisions_added = a.decisions_added ++ b.decisions_added;
  fills =
      b.fills
      ∙ ap (λ xs. xs ++ b.fills_added) a.fills
      ∙ append_assoc l.fills a.fills_added b.fills_added;
  decisions =
      b.decisions
      ∙ ap (λ xs. xs ++ b.decisions_added) a.decisions
      ∙ append_assoc l.decisions a.decisions_added b.decisions_added;
  one_each =
      omega (arith, length-append a.decisions_added b.decisions_added, a.one_each, b.one_each);
  at_most = omega (arith, length-append a.fills_added b.fills_added, a.at_most, b.at_most);
  own = All-append _ a.decisions_added b.decisions_added a.own b.own;
  audited =
      All-append _ a.fills_added b.fills_added
        (All-map (λ r. Some-left (Audits r) a.decisions_added b.decisions_added) a.fills_added
          a.audited)
        (All-map (λ r. Some-right (Audits r) a.decisions_added b.decisions_added) b.fills_added
          b.audited);
  same_baselines = b.same_baselines ∙ a.same_baselines;
  same_plans = b.same_plans ∙ a.same_plans;
}

module _ (v : Service) (q : Request) (s : TradeSignal) (l : Ledger) where
  unfilled-Extends :
      Extends v.portfolio 1 l (record l { decisions = l.decisions ++ decision_row v q s l ∷ [] })
  unfilled-Extends = record {
    fills_added = [];
    decisions_added = decision_row v q s l ∷ [];
    fills = sym (append-nil l.fills);
    decisions = refl;
    one_each = refl;
    at_most = omega arith;
    own = (refl, tt);
    audited = tt;
    same_baselines = refl;
    same_plans = refl;
  }

  filled-Extends :
      (decide v s (context_of v q s l)).0.approved ≡ true
      → Extends v.portfolio 1 l (record l {
        decisions = l.decisions ++ decision_row v q s l ∷ [];
        fills = l.fills ++ row_of v.cent v.portfolio q.fill_id s q.now ∷ [];
      })
  filled-Extends approval = record {
    fills_added = row_of v.cent v.portfolio q.fill_id s q.now ∷ [];
    decisions_added = decision_row v q s l ∷ [];
    fills = refl;
    decisions = refl;
    one_each = refl;
    at_most = omega arith;
    own = (refl, tt);
    audited = (
      Some.here (record {
        approved = approval;
        portfolio = refl;
        signal_id = refl;
        symbol = refl;
        side = refl;
        quantity = refl;
        price = refl;
        amount = refl;
        time = refl;
      }),
      tt,
    );
    same_baselines = refl;
    same_plans = refl;
  }

  submit-Extends : Extends v.portfolio (if is_naive q.now then 0 else 1) l (submit v q s l).1
  submit-Extends = elim (Bool-cases (is_naive q.now)) [
    | inl e ↦ rw (e, submit_naive v q s l e) (Extends-none v.portfolio l)
    | inr e ↦ elim (Bool-cases (decide v s (context_of v q s l)).0.approved) [
      | inr refusal ↦ rw (e, submit_refused v q s l e refusal) unfilled-Extends
      | inl approval ↦ elim (Bool-cases (violates_unique q.fill_id s.signal_id l.fills)) [
        | inl clash ↦ rw (e, submit_clash v q s l e approval clash) unfilled-Extends
        | inr new ↦ rw (e, submit_filled v q s l e approval new) (filled-Extends approval)
      ]
    ]
  ]

-- Submissions only add rows at the ends of the ledger's tables of decisions and of fills: one decision of the service's
-- portfolio for each submission at a time with an offset, and no more fills than that, each of which an added decision
-- approves, with that decision's portfolio, time, signal, symbol, side, quantity and reference price.
pub submit_all-Extends :
    (v : Service) (orders : List (Request × TradeSignal)) (l : Ledger)
    → Extends v.portfolio (on_record orders) l (submit_all v orders l)
unfolding submit_all
submit_all-Extends v [] l = Extends-none v.portfolio l
submit_all-Extends v ((q, s) ∷ orders) l =
    Extends-trans v.portfolio (if is_naive q.now then 0 else 1) (on_record orders) l
      (submit v q s l).1 (submit_all v orders (submit v q s l).1) (submit-Extends v q s l)
      (submit_all-Extends v orders (submit v q s l).1)
