-- ===== src/Performance/Tests.antt =====
-- The daily figures of a concrete portfolio.
use mathlib.Core.List.Perm
use toss_trader.Prelude.{◌≡◌, refl, [], ◌∷◌, some, ok, arith}
use toss_trader.Prelude.Int.{pos, ◌+ℤ◌, ◌-ℤ◌, ◌*ℤ◌}
use toss_trader.Models.Time.{DateTime, instant}
use toss_trader.Models.Signal.{buy}
use toss_trader.Models.Candle.{Candle, one_day}
use toss_trader.Ledger.{own, position_quantities, tally, cash_balance}
use toss_trader.Ledger.Accounting.{position_accountings, account}
use toss_trader.Ledger.Accounting.Truncation.{truncated, truncated-Undoes}
use toss_trader.Ledger.Baselines.{
  daily_equity_baseline, record_daily_equity_baseline, utc_trading_day,
}
use toss_trader.Ledger.Snapshots.{record_portfolio_snapshot, stored_figures}
use toss_trader.Performance.Valuation.{
  Surroundings, accountings, cost_notional, value_mark, value_candles, value_positions,
}
use toss_trader.Performance.{Books, DailyPerformance, currency_rates, daily_figures, daily}
use toss_trader.Performance.Equity.{daily-balance}

abbrev noon : DateTime
noon = record { local = 1_000; utcoffset = some (pos 0) }

abbrev evening : DateTime
evening = record { local = 9_000; utcoffset = some (pos 0) }

abbrev mark : Candle
mark = record {
  symbol = "005930";
  interval = one_day;
  timestamp = noon;
  open_price = pos 7_000_000;
  high_price = pos 8_000_000;
  low_price = pos 7_000_000;
  close_price = pos 8_000_000;
  volume = pos 1;
  currency = "KRW";
}

-- A repository with one day and one minute of candles.
abbrev outside : Surroundings
outside = record {
  latest_candles = λ _ _ _. mark ∷ [];
  upper = λ text. text;
  by_time = λ rows. rows;
  divide = truncated;
  quotient = λ a b. truncated (a *ℤ pos 1_000) b;
  one = pos 1_000;
}

abbrev books : Books
books = record {
  ledger = record {
    fills =
        record {
          portfolio_id = "paper";
          fill = record {
            fill_id = 1;
            signal_id = "s1";
            symbol = "005930";
            side = buy;
            quantity = 2;
            price = 7_000_000;
            notional = 14_000_000;
            commission = 2_100;
            tax = 0;
            reason = "crossing";
            executed_at = noon;
          };
        }
        ∷ [];
    decisions = [];
    baselines = [];
    plans = [];
  };
  snapshots = [];
}

abbrev reported : DailyPerformance
reported = record {
  daily_return_rate = pos 19;
  currency_returns = ("KRW", pos 142) ∷ [];
  figures = record {
    equity = pos 101_997_900;
    realized_pnl = pos 0;
    unrealized_pnl = pos 1_997_900;
    total_costs = pos 2_100;
  };
}

abbrev booked : Books
booked = record {
  ledger = record books.ledger {
    baselines = record { portfolio_id = "paper"; trading_day = 0; equity = pos 100_000_000 } ∷ [];
  };
  snapshots =
      record {
        snapshot_id = 5;
        portfolio_id = "paper";
        captured_at = pos 9_000;
        figures = reported.figures;
      }
      ∷ [];
}

-- The first figures of a day record its baseline and a snapshot.
first_figures : daily outside "paper" (pos 100_000_000) 5 evening books ≡ (ok reported, booked)
unfolding daily daily_figures value_positions value_candles value_mark cost_notional accountings
    position_quantities tally cash_balance currency_rates position_accountings account
    daily_equity_baseline record_daily_equity_baseline utc_trading_day instant
    record_portfolio_snapshot ◌+ℤ◌ ◌-ℤ◌ ◌*ℤ◌
first_figures = refl

daily-balance_example :
    (reported.figures.equity
      ≡ pos 100_000_000 +ℤ reported.figures.realized_pnl +ℤ reported.figures.unrealized_pnl)
    × (stored_figures "paper" (instant evening) booked.snapshots ≡ some reported.figures)
    × (booked.ledger.fills ≡ books.ledger.fills)
daily-balance_example =
    daily-balance outside "paper" (pos 100_000_000) 5 evening truncated-Undoes books booked reported
      (Perm.refl (own "paper" books.ledger.fills)) (omega arith, tt) first_figures
