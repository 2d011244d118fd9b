-- ===== src/Execution/Solvency.antt =====
-- The ledger of a guarded service: cash and positions never go below zero, and the buys of a day are
-- bounded, over every sequence of submissions.
use toss_trader.Prelude.{
  ℕ, ◌+◌, ◌≤◌, ◌≡◌, ◌⊎◌, inl, inr, refl, true, String, List, [], ◌∷◌, str_eq, eq_refl, eq_iff,
  subst, arith, Bool-cases, if◌then◌else◌, Result, ok, err,
}
use toss_trader.Prelude.Int.{ℤ, pos, ◌+ℤ◌, ◌-ℤ◌, ◌≤ℤ◌, int_laws}
use toss_trader.Models.Time.{is_naive}
use toss_trader.Models.Signal.{Side, buy, sell, TradeSignal, PaperFill}
use toss_trader.Costs.Bounds.{total-le-notional}
use toss_trader.Risk.{RiskDecision}
use toss_trader.Ledger.{
  DecisionRow, LedgerError, Ledger, execute, violates_unique, cash_balance, position_quantity,
  position_quantities, daily_buy_count, seen_signal_ids, cash_change, signed_quantity,
}
use toss_trader.Ledger.Cash.{row_of, execute_clash, cash-execute, position-execute, buys-execute}
use toss_trader.Execution.{filled, Service, Request, context_of, settle, submit, submit_all}
use toss_trader.Execution.Steps.{recorded, submit_naive, submit-recorded}
use toss_trader.Execution.Decision.{Covers, IsGuarded, decide-Covers}

-- The own portfolio of a service has no negative cash, no short position and at most `max_buys` buys a day.
pub record IsSound (max_buys : ℕ) (v : Service) (l : Ledger) : Type 0 where
  pub cash : pos 0 ≤ℤ cash_balance v.portfolio v.initial_cash l
  pub long : (symbol : String) → pos 0 ≤ℤ position_quantity v.portfolio symbol l
  pub buys : (day : ℕ) → daily_buy_count v.portfolio day l ≤ max_buys

Side-cases : (side : Side) → (side ≡ buy) ⊎ (side ≡ sell)
Side-cases buy = inl refl
Side-cases sell = inr refl

buy_covered :
    (cash : ℤ) (n c t : ℕ)
    → pos n ≤ℤ cash -ℤ pos (c + t)
    → pos 0 ≤ℤ cash +ℤ (pos 0 -ℤ pos n -ℤ pos c -ℤ pos t)
buy_covered cash n c t h = omega int_laws

sell_covered :
    (cash : ℤ) (n c t : ℕ) → pos 0 ≤ℤ cash → c + t ≤ n → pos 0 ≤ℤ cash +ℤ (pos n -ℤ pos c -ℤ pos t)
sell_covered cash n c t h k = omega int_laws

module _ {n : ℕ} (v : Service) (q : Request) (s : TradeSignal) (l : Ledger) (h : IsSound n v l)
    (g : Covers n s (context_of v q s l)) where
  cash_covered :
      pos 0
      ≤ℤ cash_balance v.portfolio v.initial_cash l
        +ℤ cash_change (row_of v.cent v.portfolio q.fill_id s q.now)
  cash_covered = elim (Side-cases s.side) [
    | inl e ↦ simp e (buy_covered _ _ _ _ (simp e at (g.cash_covers e _ refl)))
    | inr e ↦ simp e (sell_covered _ _ _ _ h.cash (total-le-notional v.cent s))
  ]

  long_covered :
      pos 0
      ≤ℤ position_quantity v.portfolio s.symbol l
        +ℤ signed_quantity (row_of v.cent v.portfolio q.fill_id s q.now)
  long_covered = elim (Side-cases s.side) [
    | inl e ↦ simp e (omega (int_laws, h.long s.symbol))
    | inr e ↦ simp e (omega (int_laws, g.held e))
  ]

  long_symbol :
      (symbol : String)
      → pos 0
        ≤ℤ position_quantity v.portfolio symbol l
          +ℤ (if str_eq s.symbol symbol
              then signed_quantity (row_of v.cent v.portfolio q.fill_id s q.now)
              else pos 0)
  long_symbol symbol = elim (Bool-cases (str_eq s.symbol symbol)) [
    | inl e ↦ rw e (
        subst
          (λ t.
            pos 0
            ≤ℤ position_quantity v.portfolio t l
              +ℤ signed_quantity (row_of v.cent v.portfolio q.fill_id s q.now))
          ((eq_iff s.symbol symbol).0 e) long_covered)
    | inr e ↦ rw e (omega (int_laws, h.long symbol))
  ]

  execute-IsSound : IsSound n v (execute v.cent v.portfolio q.fill_id s q.now l).1
  execute-IsSound = elim (Bool-cases (violates_unique q.fill_id s.signal_id l.fills)) [
    | inl clash ↦ rw (execute_clash v.cent v.portfolio q.fill_id s q.now l clash) h
    | inr new ↦ record {
      cash =
          rw (cash-execute v.cent v.portfolio v.portfolio q.fill_id s q.now l new, eq_refl)
            cash_covered;
      long = λ symbol.
          rw
            (
              position-execute v.cent v.portfolio v.portfolio q.fill_id s q.now l new symbol,
              eq_refl,
            )
            (long_symbol symbol);
      buys = λ day.
          rw (buys-execute v.cent v.portfolio v.portfolio q.fill_id s q.now l new day, eq_refl)
            (ground (arith, h.buys day, g.buys_left));
    }
  ]

-- The audit rows are no part of what the ledger's queries read.
decisions-IsSound :
    {n : ℕ} (v : Service) (l : Ledger) (rows : List DecisionRow)
    → IsSound n v l
    → IsSound n v (record l { decisions = rows })
unfolding cash_balance position_quantity daily_buy_count
decisions-IsSound v l rows h = record { cash = h.cash; long = h.long; buys = h.buys }

context_of-decisions :
    (v : Service) (q : Request) (s : TradeSignal) (l : Ledger) (rows : List DecisionRow)
    → context_of v q s l ≡ context_of v q s (record l { decisions = rows })
unfolding cash_balance position_quantity position_quantities daily_buy_count seen_signal_ids
context_of-decisions v q s l rows = refl

filled-ledger :
    (q : Request) (d : RiskDecision) (r : Result LedgerError PaperFill × Ledger)
    → r.1 ≡ (filled q d r).1
filled-ledger q d (ok fill, l) = refl
filled-ledger q d (err e, l) = refl

settle-IsSound :
    {n : ℕ} (v : Service) (q : Request) (s : TradeSignal) (d : RiskDecision) (l : Ledger)
    → IsSound n v l
    → (d.approved ≡ true → Covers n s (context_of v q s l))
    → IsSound n v (settle v q s d l).1
unfolding settle
settle-IsSound {n} v q s d l h g = elim (Bool-cases d.approved) [
  | inl e ↦ simp e (
      subst (IsSound n v) (filled-ledger q d (execute v.cent v.portfolio q.fill_id s q.now l))
        (execute-IsSound v q s l h (g e)))
  | inr e ↦ simp e h
]

-- A submission to a guarded service keeps its portfolio sound, whatever it answers or raises.
pub submit-IsSound :
    {n : ℕ} (v : Service) (q : Request) (s : TradeSignal) (l : Ledger)
    → IsGuarded n v
    → IsSound n v l
    → IsSound n v (submit v q s l).1
submit-IsSound {n} v q s l g h = elim (Bool-cases (is_naive q.now)) [
  | inl e ↦ rw (submit_naive v q s l e) h
  | inr e ↦ rw (submit-recorded v q s l e) (
      settle-IsSound v q s _ (recorded v q s l) (decisions-IsSound v l _ h) (λ approval.
        subst (Covers n s) (context_of-decisions v q s l _)
          (decide-Covers v s (context_of v q s l) g approval)))
]

-- Over every sequence of submissions a guarded service keeps its portfolio sound: the cash is never negative, no
-- position is short, and no day has more buys than the limit that guards it.
pub submit_all-IsSound :
    {n : ℕ} (v : Service) (orders : List (Request × TradeSignal)) (l : Ledger)
    → IsGuarded n v
    → IsSound n v l
    → IsSound n v (submit_all v orders l)
unfolding submit_all
submit_all-IsSound v [] l g h = h
submit_all-IsSound v ((q, s) ∷ rest) l g h =
    submit_all-IsSound v rest (submit v q s l).1 g (submit-IsSound v q s l g h)
