-- ===== src/PortfolioBacktest/Tests.antt =====
-- A portfolio of two symbols that cross above together, with room for one position.
use toss_trader.Prelude.{ℕ, ◌/◌, ◌≡◌, refl, List, [], ◌∷◌, none, some, ok, String}
use toss_trader.Prelude.Int.{pos, ◌+ℤ◌, ◌-ℤ◌}
use toss_trader.Prelude.Dict.{Dict}
use toss_trader.Models.Time.{instant}
use toss_trader.Models.Signal.{buy, trade_signal}
use toss_trader.Models.Candle.{one_day}
use toss_trader.Costs.{toss_trade_costs, round_down}
use toss_trader.Strategy.{Wording, evaluate_ma_crossover, evaluate_closes, crossing}
use toss_trader.PortfolioBacktest.{
  Quote, no_position, PortfolioSettings, Portfolio, run_ma_portfolio_backtest, validate_portfolio,
  replay_events, replay_group, meet_all, meet_pending, watch_all, watch, execute_portfolio_pending,
  risk_rejections,
}
use toss_trader.PortfolioBacktest.Sound.{IsSound}
use toss_trader.PortfolioBacktest.Run.{run_ma_portfolio_backtest-IsSound}

abbrev words : Wording
words = record {
  signal_id = λ short long symbol key. key;
  reason = λ short long label. "cross";
  continuation_reason = λ short long. "trend";
  continuation_id = λ short long symbol key. key;
}

abbrev quote : String → ℕ → ℕ → Quote
quote symbol day price = record {
  bar = record {
    symbol = symbol;
    interval = one_day;
    timestamp = record { local = day; utcoffset = some (pos 0) };
    as_of = "day";
    open_price = price;
    close_price = price;
  };
  currency = "USD";
}

abbrev quotes : String → List Quote
quotes symbol =
    quote symbol 1 100 ∷ (quote symbol 2 90 ∷ (quote symbol 3 120 ∷ (quote symbol 4 125 ∷ [])))

abbrev candles : Dict (List Quote)
candles = ("MSFT", quotes "MSFT") ∷ (("AAPL", quotes "AAPL") ∷ [])

abbrev settings : PortfolioSettings
settings = record {
  quantity = pos 2;
  initial_cash = pos 10_000;
  short_window = pos 1;
  long_window = pos 2;
  slippage_rate = pos 0;
  max_open_positions = some (pos 1);
  max_daily_buys = some (pos 3);
  max_position_notional = none;
  max_order_notional = none;
}

abbrev at_end : Portfolio
at_end = record {
  cash = pos 9_750;
  states =
      ("AAPL", record no_position { quantity = 2; cost_basis = 250; trade_count = 1 })
      ∷ (("MSFT", record no_position { max_open_position_rejections = 1 }) ∷ []);
  pending = [];
  last_prices = ("AAPL", 125) ∷ (("MSFT", 125) ∷ []);
  trades =
      record {
        symbol = "AAPL";
        side = buy;
        executed_at = record { local = 4; utcoffset = some (pos 0) };
        price = 125;
        quantity = 2;
        commission = 0;
        tax = 0;
        realized_pnl = pos 0;
      }
      ∷ [];
  daily_buy_counts = (0, 1) ∷ [];
  peak_equity = pos 10_000;
}

replayed : run_ma_portfolio_backtest (λ x n. x / n) 1000 1 words settings candles ≡ ok at_end
unfolding run_ma_portfolio_backtest validate_portfolio replay_events replay_group meet_all
    meet_pending watch_all watch execute_portfolio_pending risk_rejections evaluate_ma_crossover
    evaluate_closes crossing trade_signal toss_trade_costs round_down instant ◌+ℤ◌ ◌-ℤ◌
replayed = refl

run_ma_portfolio_backtest-IsSound_example :
    IsSound settings (pos 10_000) (pos 9_750) at_end.states at_end.trades
run_ma_portfolio_backtest-IsSound_example =
    run_ma_portfolio_backtest-IsSound (λ x n. x / n) 1000 1 words settings candles at_end replayed
