-- ===== src/Performance/Equity.antt =====
-- The figures of `PortfolioPerformance.daily` (src/toss_trader/portfolio.py) balance, and are stored.
use mathlib.Core.List.{Perm}
use toss_trader.Prelude.{
  ℕ, ◌≡◌, refl, sym, subst, ap, ◌∙◌, true, String, List, [], ◌∷◌, All, Option, none, some, arith,
  Bool-cases, inl, inr, Result, ok, err, eq_refl, ok-injective, >>=-ok, raise_if-ok, choice-P,
}
use toss_trader.Prelude.Int.{ℤ, ◌+ℤ◌, ◌-ℤ◌, eqb_ℤ, int_laws}
use toss_trader.Prelude.Dict.{Dict, sum_by}
use toss_trader.Models.Time.{DateTime, is_naive, instant}
use toss_trader.Ledger.{Ledger, FillRow, own, cash_balance, position_quantities}
use toss_trader.Ledger.Accounting.{PositionAccounting, AccountingError}
use toss_trader.Ledger.Accounting.Balance.{Undoes, HasQuantity, cash_balance-accounting}
use toss_trader.Ledger.Baselines.{
  BaselineError, record_daily_equity_baseline, daily_equity_baseline,
}
use toss_trader.Ledger.Snapshots.{
  SnapshotError, naive_snapshot, SnapshotRow, Figures, is_at, upsert_snapshot,
  record_portfolio_snapshot, stored_figures,
}
use toss_trader.Performance.Valuation.{
  Surroundings, Valued, PerformanceError, accountings, raised_accounting, previous_not_positive,
  value_positions, nothing_valued,
}
use toss_trader.Performance.{
  Books, DailyPerformance, Daily, figures_of, with_lookup, measured, daily_figures, one_currency,
  first_baseline, after_snapshot, after_baseline, finish_daily, with_baseline, daily,
}

eqb_ℤ-refl : (a : ℤ) → eqb_ℤ a a ≡ true
eqb_ℤ-refl a = ground arith

-- What was stored last for a portfolio and a time is read back.
stored_figures-upsert :
    (new : SnapshotRow) (rows : List SnapshotRow)
    → stored_figures new.portfolio_id new.captured_at (upsert_snapshot new rows) ≡ some new.figures
stored_figures-upsert new [] = rw (eq_refl new.portfolio_id, eqb_ℤ-refl new.captured_at) refl
stored_figures-upsert new (r ∷ rows) =
    elim (Bool-cases (is_at new.portfolio_id new.captured_at r)) [
      | inl e ↦ rw (e, e) refl
      | inr e ↦ rw (e, e) (stored_figures-upsert new rows)
    ]

module _ (o : Surroundings) (p : String) (initial_cash : ℤ) where
  raised_accounting-ok :
      {A : Type 0} (m : Result AccountingError A) {a : A} → raised_accounting m ≡ ok a → m ≡ ok a
  raised_accounting-ok (ok a) h = cc
  raised_accounting-ok (err e) h = cc

  abbrev Balances : Figures → Type 0
  Balances x = x.equity ≡ initial_cash +ℤ x.realized_pnl +ℤ x.unrealized_pnl

  abbrev IsEven : Daily → Type 0
  IsEven f = Balances f.figures

  balanced :
      (l : Ledger) (valued : Valued) (d : Dict PositionAccounting)
      → cash_balance p initial_cash l
        ≡ initial_cash +ℤ (sum_by (λ a. a.realized_pnl) d -ℤ sum_by (λ a. a.cost_basis) d)
      → IsEven (figures_of o p initial_cash l valued d)
  balanced l valued d e = rw e (omega int_laws)

  -- The figures balance where the accounting does.
  daily_figures-IsBalanced :
      Undoes o.divide
      → (l : Ledger) → Perm (o.by_time (own p l.fills)) (own p l.fills)
      → All HasQuantity (o.by_time (own p l.fills))
      → (f : Daily) → daily_figures o p initial_cash l ≡ ok f
      → f.figures.equity ≡ initial_cash +ℤ f.figures.realized_pnl +ℤ f.figures.unrealized_pnl
  unfolding daily_figures accountings
  daily_figures-IsBalanced undoes l perm h f e =
      let (valued, _, e1) =
        >>=-ok (value_positions o p l (position_quantities p l) nothing_valued) _ e in
      let (_, e2) = raise_if-ok _ previous_not_positive _ e1 in
      let (d, e3, e4) = >>=-ok (accountings o p l) _ e2 in
      subst IsEven (ok-injective e4) (
        balanced l valued d (
          cash_balance-accounting o.divide undoes p initial_cash l (o.by_time (own p l.fills)) d
            perm h (raised_accounting-ok _ e3)))

module _ (o : Surroundings) (p : String) (initial_cash : ℤ) (snapshot_id : ℕ) (at : DateTime) where
  abbrev row : Figures → SnapshotRow
  row figures = record {
    snapshot_id = snapshot_id;
    portfolio_id = p;
    captured_at = instant at;
    figures = figures;
  }

  -- What a run of `daily` that returns has reported and stored.
  abbrev Reports : Daily → List FillRow → Result PerformanceError DailyPerformance × Books → Type 0
  Reports f fills (ok perf, b) =
      (perf.figures ≡ f.figures)
      × (stored_figures p (instant at) b.snapshots ≡ some f.figures)
      × (b.ledger.fills ≡ fills)
  Reports f fills (err e, b) = Unit

  finish_daily-Reports :
      (f : Daily) (baseline : Option ℤ) (b : Books)
      → Reports f b.ledger.fills (finish_daily o p initial_cash snapshot_id at f baseline b)
  unfolding record_portfolio_snapshot
  finish_daily-Reports f baseline b =
      choice-P
        (λ (r : Result SnapshotError ℕ × List SnapshotRow).
          Reports f b.ledger.fills (after_snapshot o p initial_cash f baseline b r))
        (is_naive at) (err naive_snapshot, b.snapshots)
        (ok snapshot_id, upsert_snapshot (row f.figures) b.snapshots) (λ _. tt)
        (λ _. (refl, stored_figures-upsert (row f.figures) b.snapshots, refl))

  with_baseline-Reports :
      (f : Daily) (baseline : Option ℤ) (b : Books)
      → Reports f b.ledger.fills (with_baseline o p initial_cash snapshot_id at f baseline b)
  unfolding record_daily_equity_baseline
  with_baseline-Reports f (some baseline) b = finish_daily-Reports f (some baseline) b
  with_baseline-Reports f none b =
      choice-P (Reports f b.ledger.fills) (one_currency o p initial_cash f) _ _
        (λ _.
          choice-P
            (λ (r : Result BaselineError (Unit {0}) × Ledger).
              Reports f b.ledger.fills (after_baseline o p initial_cash snapshot_id at f b r))
            (is_naive at) _ _ (λ _. tt)
            (λ _. finish_daily-Reports f (some (first_baseline o p initial_cash f)) _))
        (λ _. finish_daily-Reports f none b)

  with_lookup-Reports :
      (f : Daily) (b : Books) (baseline : Result BaselineError (Option ℤ))
      → Reports f b.ledger.fills (with_lookup o p initial_cash snapshot_id at f b baseline)
  with_lookup-Reports f b (ok baseline) = with_baseline-Reports f baseline b
  with_lookup-Reports f b (err e) = tt

  -- What `daily` did, if it returns.
  abbrev HasReported : Books → Result PerformanceError DailyPerformance × Books → Type 0
  HasReported b (ok perf, b') =
      (perf.figures.equity
        ≡ initial_cash +ℤ perf.figures.realized_pnl +ℤ perf.figures.unrealized_pnl)
      × (stored_figures p (instant at) b'.snapshots ≡ some perf.figures)
      × (b'.ledger.fills ≡ b.ledger.fills)
  HasReported b (err e, b') = Unit

  even_report :
      (f : Daily) (b : Books) (r : Result PerformanceError DailyPerformance × Books)
      → IsEven o p initial_cash f
      → Reports f b.ledger.fills r
      → HasReported b r
  even_report f b (ok perf, b') even (same, stored, fills) =
      (subst (Balances o p initial_cash) (sym same) even, stored ∙ ap some (sym same), fills)
  even_report f b (err e, b') even _ = tt

  measured-HasReported :
      (b : Books) (m : Result PerformanceError Daily)
      → ((f : Daily) → m ≡ ok f → IsEven o p initial_cash f)
      → HasReported b (measured o p initial_cash snapshot_id at b m)
  measured-HasReported b (ok f) even =
      even_report f b _ (even f refl)
        (with_lookup-Reports f b (daily_equity_baseline p at b.ledger))
  measured-HasReported b (err e) even = tt

-- Where division undoes multiplication and the fills of a portfolio, sorted by their time, are its fills in some order,
-- each of a positive quantity: if `daily` returns, then the equity it reports is the initial cash plus the realized and
-- the unrealized profit, its figures are what is stored for the portfolio and that time, and the fills are unchanged.
pub daily-balance :
    (o : Surroundings) (p : String) (initial_cash : ℤ) (snapshot_id : ℕ) (at : DateTime)
    → Undoes o.divide
    → (b b' : Books) (perf : DailyPerformance)
    → Perm (o.by_time (own p b.ledger.fills)) (own p b.ledger.fills)
    → All HasQuantity (o.by_time (own p b.ledger.fills))
    → daily o p initial_cash snapshot_id at b ≡ (ok perf, b')
    → (perf.figures.equity
        ≡ initial_cash +ℤ perf.figures.realized_pnl +ℤ perf.figures.unrealized_pnl)
      × (stored_figures p (instant at) b'.snapshots ≡ some perf.figures)
      × (b'.ledger.fills ≡ b.ledger.fills)
unfolding daily
daily-balance o p initial_cash snapshot_id at undoes b b' perf perm h e =
    subst (HasReported o p initial_cash snapshot_id at b) e (
      measured-HasReported o p initial_cash snapshot_id at b
        (daily_figures o p initial_cash b.ledger)
        (daily_figures-IsBalanced o p initial_cash undoes b.ledger perm h))
