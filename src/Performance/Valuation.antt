-- ===== src/Performance/Valuation.antt =====
-- The loop of `PortfolioPerformance.daily` in src/toss_trader/portfolio.py that values the positions.
use toss_trader.Prelude.{
  ℕ, Bool, true, not, String, List, [], ◌∷◌, str_eq, Result, ok, err, ◌>>=◌, if◌then◌else◌,
}
use toss_trader.Prelude.Int.{ℤ, pos, ◌+ℤ◌, ◌*ℤ◌, ltb_ℤ, leb_ℤ}
use toss_trader.Prelude.Dict.{Dict, put, get_or}
use toss_trader.Models.Candle.{Candle, Interval, one_day, one_minute}
use toss_trader.Ledger.{Ledger, FillRow, own}
use toss_trader.Ledger.Accounting.{PositionAccounting, AccountingError, flat, position_accountings}
use toss_trader.Ledger.Baselines.{BaselineError}
use toss_trader.Ledger.Snapshots.{SnapshotError}

pub record Surroundings : Type 0 where
  -- `MarketRepository.latest_candles`
  pub latest_candles : String → Interval → ℕ → List Candle
  pub upper : String → String
  -- ORDER BY executed_at, rowid
  pub by_time : List FillRow → List FillRow
  pub divide : ℤ → ℤ → ℤ
  pub quotient : ℤ → ℤ → ℤ
  pub one : ℤ

-- What the positions of one currency were worth before and are now.
pub record Totals : Type 0 where
  pub previous : ℤ
  pub current : ℤ

abbrev pub no_totals : Totals
no_totals = record { previous = pos 0; current = pos 0 }

pub record Valued : Type 0 where
  pub values : Dict Totals
  pub market_values : Dict ℤ

abbrev pub nothing_valued : Valued
nothing_valued = record { values = []; market_values = [] }

pub data PerformanceError : Type 0 where
  negative_position mark_required market_currency_changed : String → PerformanceError
  basis_not_positive two_candles_required daily_currency_changed : String → PerformanceError
  previous_not_positive : PerformanceError
  bad_accounting : AccountingError → PerformanceError
  bad_baseline : BaselineError → PerformanceError
  bad_snapshot : SnapshotError → PerformanceError

-- An error of the accounting, raised through.
abbrev pub raised_accounting {ℓ} :
    {A : Type ℓ} → Result AccountingError A → Result PerformanceError A
raised_accounting (ok a) = ok a
raised_accounting (err e) = err (bad_accounting e)

module _ (o : Surroundings) (p : String) (l : Ledger) where
  -- `PaperLedger.position_accountings`
  unfoldable pub accountings : Result PerformanceError (Dict PositionAccounting)
  accountings = raised_accounting (position_accountings o.divide [] (o.by_time (own p l.fills)))

  -- `PaperLedger.position_notional` without a mark price
  unfoldable pub cost_notional : String → Result PerformanceError ℤ
  cost_notional symbol = accountings >>= λ d. ok ((get_or flat symbol d).cost_basis)

  abbrev pub same_currency : Candle → Candle → Bool
  same_currency a b = str_eq (o.upper a.currency) (o.upper b.currency)

  -- a single daily candle must have the currency of the mark
  abbrev pub keeps_currency : List Candle → Candle → Bool
  keeps_currency [] current = true
  keeps_currency (c ∷ _) current = same_currency c current

  -- the value by a minute's mark, where there are not two daily candles
  unfoldable pub value_mark :
      String → ℤ → List Candle → List Candle → Result PerformanceError (String × Totals)
  value_mark symbol quantity candles (current ∷ []) =
      if not (keeps_currency candles current)
      then err (market_currency_changed symbol)
      else cost_notional symbol >>= λ previous.
          (if leb_ℤ previous (pos 0)
            then err (basis_not_positive symbol)
            else ok (
              o.upper current.currency,
              record { previous = previous; current = quantity *ℤ current.close_price },
            ))
  value_mark symbol quantity candles _ = err (mark_required symbol)

  -- the value by the daily candles
  unfoldable pub value_candles :
      String → ℤ → List Candle → Result PerformanceError (String × Totals)
  value_candles symbol quantity (previous ∷ current ∷ []) =
      if not (same_currency previous current)
      then err (daily_currency_changed symbol)
      else ok (
        o.upper current.currency,
        record {
          previous = quantity *ℤ previous.close_price;
          current = quantity *ℤ current.close_price;
        },
      )
  value_candles symbol quantity (a ∷ b ∷ c ∷ _) = err (two_candles_required symbol)
  value_candles symbol quantity candles =
      value_mark symbol quantity candles (o.latest_candles symbol one_minute 1)

  abbrev pub value_position : String → ℤ → Result PerformanceError (String × Totals)
  value_position symbol quantity =
      if ltb_ℤ quantity (pos 0)
      then err (negative_position symbol)
      else value_candles symbol quantity (o.latest_candles symbol one_day 2)

  -- the totals of the currency and the market value of the symbol
  abbrev pub add_value : String → String × Totals → Valued → Valued
  add_value symbol (currency, t) v =
      let held = get_or no_totals currency v.values in
      record {
        values =
            put currency
              (record {
                previous = held.previous +ℤ t.previous;
                current = held.current +ℤ t.current;
              })
              v.values;
        market_values = put symbol t.current v.market_values;
      }

  unfoldable pub value_positions : Dict ℤ → Valued → Result PerformanceError Valued
  value_positions [] v = ok v
  value_positions ((symbol, quantity) ∷ positions) v = value_position symbol quantity >>= λ value.
      value_positions positions (add_value symbol value v)
