-- ===== src/Performance.antt =====
-- `PortfolioPerformance` of src/toss_trader/portfolio.py: the daily figures of a portfolio from its ledger and the
-- latest candles. `Surroundings` holds what the code calls but does not define: the market repository, `str.upper`,
-- the order that SQLite gives the fills, and the division of `Decimal`: `divide` for amounts of money, `quotient` for
-- rates, of which `one` units make 1.
pub mod Valuation
pub mod Equity
mod Tests
use toss_trader.Prelude.{
  ℕ, ◌≡◌, Bool, true, false, not, ◌&&◌, String, List, [], ◌∷◌, map, Option, none, some, length, ltb,
  leb, ◌==◌, is_some, raise_if, ◌>>◌, ◌>>=◌, Result, ok, err, if◌then◌else◌,
}
use toss_trader.Prelude.Int.{ℤ, pos, ◌+ℤ◌, ◌-ℤ◌, ltb_ℤ, leb_ℤ, min_ℤ, sum}
use toss_trader.Prelude.Dict.{Dict, sum_by}
use toss_trader.Models.Time.{DateTime}
use toss_trader.Ledger.{Ledger, position_quantities, cash_balance}
use toss_trader.Ledger.Accounting.{PositionAccounting}
use toss_trader.Ledger.Baselines.{
  BaselineError, daily_equity_baseline, record_daily_equity_baseline,
}
use toss_trader.Ledger.Snapshots.{SnapshotError, SnapshotRow, Figures, record_portfolio_snapshot}
use toss_trader.Performance.Valuation.{
  Surroundings, Totals, Valued, PerformanceError, previous_not_positive, bad_baseline, bad_snapshot,
  nothing_valued, value_positions, accountings, raised_accounting,
}

-- `DailyPortfolioPerformance`
pub record DailyPerformance : Type 0 where
  pub daily_return_rate : ℤ
  pub currency_returns : Dict ℤ
  pub figures : Figures

-- The ledger's tables with those of its snapshots.
pub record Books : Type 0 where
  pub ledger : Ledger
  pub snapshots : List SnapshotRow

-- `PositionAccounting.total_costs`
abbrev pub costs_of : PositionAccounting → ℤ
costs_of a = a.commission +ℤ a.tax

module _ (o : Surroundings) where
  -- `currency_returns`
  unfoldable pub currency_rates : Dict Totals → Dict ℤ
  currency_rates [] = []
  currency_rates ((currency, t) ∷ values) =
      let rest = currency_rates values in
      if ltb_ℤ (pos 0) t.previous
      then (currency, o.quotient t.current t.previous -ℤ o.one) ∷ rest
      else rest

-- `min(rates.values(), default=Decimal(0))`
abbrev pub smallest_rate : Dict ℤ → ℤ
smallest_rate [] = pos 0
smallest_rate ((k, x) ∷ []) = x
smallest_rate ((k, x) ∷ (j, y) ∷ rates) = min_ℤ x (smallest_rate ((j, y) ∷ rates))

-- What `daily` has computed when it asks for the baseline.
pub record Daily : Type 0 where
  pub valued : Valued
  pub returns : Dict ℤ
  pub cash : ℤ
  pub figures : Figures

module _ (o : Surroundings) (p : String) (initial_cash : ℤ) where
  abbrev pub figures_of : Ledger → Valued → Dict PositionAccounting → Daily
  figures_of l valued d =
      let market_value = sum_by (λ x. x) valued.market_values in
      record {
        valued = valued;
        returns = currency_rates o valued.values;
        cash = cash_balance p initial_cash l;
        figures = record {
          equity = cash_balance p initial_cash l +ℤ market_value;
          realized_pnl = sum_by (λ a. a.realized_pnl) d;
          unrealized_pnl = market_value -ℤ sum_by (λ a. a.cost_basis) d;
          total_costs = sum_by costs_of d;
        };
      }

  -- `daily`, up to the baseline
  unfoldable pub daily_figures : Ledger → Result PerformanceError Daily
  daily_figures l = value_positions o p l (position_quantities p l) nothing_valued >>= λ valued.
      raise_if (not (length (currency_rates o valued.values) == length valued.values))
        previous_not_positive
      >> (accountings o p l >>= λ d. ok (figures_of l valued d))

  abbrev pub one_currency : Daily → Bool
  one_currency f = leb (length f.valued.values) 1

  -- the baseline that is recorded when none is stored
  abbrev pub first_baseline : Daily → ℤ
  first_baseline f = f.cash +ℤ sum_by (λ (t : Totals). t.previous) f.valued.values

  -- `daily_return_rate`
  abbrev pub return_rate : Daily → Option ℤ → ℤ
  return_rate f none = smallest_rate f.returns
  return_rate f (some baseline) =
      if ltb_ℤ (pos 0) baseline && one_currency f
      then o.quotient f.figures.equity baseline -ℤ o.one
      else smallest_rate f.returns

  -- `daily`, after its snapshot
  abbrev pub after_snapshot :
      Daily
      → Option ℤ
      → Books
      → Result SnapshotError ℕ × List SnapshotRow
      → Result PerformanceError DailyPerformance × Books
  after_snapshot f baseline b (ok _, rows) = (
    ok (record {
      daily_return_rate = return_rate f baseline;
      currency_returns = f.returns;
      figures = f.figures;
    }),
    record b { snapshots = rows },
  )
  after_snapshot f baseline b (err e, rows) = (err (bad_snapshot e), record b { snapshots = rows })

  -- `daily`, from its snapshot on
  abbrev pub finish_daily :
      ℕ → DateTime → Daily → Option ℤ → Books → Result PerformanceError DailyPerformance × Books
  finish_daily snapshot_id at f baseline b =
      after_snapshot f baseline b (record_portfolio_snapshot p snapshot_id at f.figures b.snapshots)

  -- `daily`, after it has recorded its first baseline
  abbrev pub after_baseline :
      ℕ
      → DateTime
      → Daily
      → Books
      → Result BaselineError (Unit {0}) × Ledger
      → Result PerformanceError DailyPerformance × Books
  after_baseline snapshot_id at f b (ok _, l) =
      finish_daily snapshot_id at f (some (first_baseline f)) (record b { ledger = l })
  after_baseline snapshot_id at f b (err e, l) = (err (bad_baseline e), record b { ledger = l })

  -- `daily`, from the baseline on
  abbrev pub with_baseline :
      ℕ → DateTime → Daily → Option ℤ → Books → Result PerformanceError DailyPerformance × Books
  with_baseline snapshot_id at f (some baseline) b = finish_daily snapshot_id at f (some baseline) b
  with_baseline snapshot_id at f none b =
      if one_currency f
      then after_baseline snapshot_id at f b
          (record_daily_equity_baseline p at (first_baseline f) b.ledger)
      else finish_daily snapshot_id at f none b

  -- `daily`, after it has asked for the baseline
  abbrev pub with_lookup :
      ℕ
      → DateTime
      → Daily
      → Books
      → Result BaselineError (Option ℤ)
      → Result PerformanceError DailyPerformance × Books
  with_lookup snapshot_id at f b (ok baseline) = with_baseline snapshot_id at f baseline b
  with_lookup snapshot_id at f b (err e) = (err (bad_baseline e), b)

  -- `daily`, after its figures
  abbrev pub measured :
      ℕ
      → DateTime
      → Books
      → Result PerformanceError Daily
      → Result PerformanceError DailyPerformance × Books
  measured snapshot_id at b (ok f) =
      with_lookup snapshot_id at f b (daily_equity_baseline p at b.ledger)
  measured snapshot_id at b (err e) = (err e, b)

  -- `daily`, at the resolved time and the id of its snapshot
  unfoldable pub daily : ℕ → DateTime → Books → Result PerformanceError DailyPerformance × Books
  daily snapshot_id at b = measured snapshot_id at b (daily_figures b.ledger)
