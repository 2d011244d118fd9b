-- ===== src/Execution/Once.antt =====
-- A signal is filled once.
use toss_trader.Prelude.{ℕ, ◌≡◌, refl, true, any, str_eq, Bool-cases, inl, inr}
use toss_trader.Models.Time.{is_naive}
use toss_trader.Models.Signal.{TradeSignal}
use toss_trader.Ledger.{Ledger, seen_signal_ids}
use toss_trader.Execution.{Service, Request, context_of, decide, submit}
use toss_trader.Execution.Decision.{IsGuarded, decide-Covers}
use toss_trader.Execution.Steps.{submit_naive, submit_refused}

-- A signal that the portfolio of a guarded service has filled leaves no further fill, whatever the submission.
pub submit_once :
    {n : ℕ} (v : Service) (q : Request) (s : TradeSignal) (l : Ledger)
    → IsGuarded n v
    → any (str_eq s.signal_id) (seen_signal_ids v.portfolio l) ≡ true
    → (submit v q s l).1.fills ≡ l.fills
submit_once v q s l g seen = elim (Bool-cases (is_naive q.now)) [
  | inl e ↦ rw (submit_naive v q s l e) refl
  | inr e ↦ elim (Bool-cases (decide v s (context_of v q s l)).0.approved) [
    | inl approval ↦ absurd (cc (seen, (decide-Covers v s (context_of v q s l) g approval).fresh))
    | inr refused ↦ rw (submit_refused v q s l e refused) refl
  ]
]
