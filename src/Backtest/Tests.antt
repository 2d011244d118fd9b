-- ===== src/Backtest/Tests.antt =====
-- A replay of concrete candles: a crossover above, bought at the next open.
use toss_trader.Prelude.{ℕ, ◌/◌, ◌≡◌, refl, List, [], ◌∷◌, none, some, ok}
use toss_trader.Prelude.Int.{pos, ◌+ℤ◌, ◌-ℤ◌}
use toss_trader.Models.Time.{instant}
use toss_trader.Models.Signal.{buy, trade_signal}
use toss_trader.Models.Candle.{one_day}
use toss_trader.Costs.{toss_trade_costs, round_down}
use toss_trader.Strategy.{Wording, evaluate_ma_crossover, evaluate_closes, crossing}
use toss_trader.Backtest.{
  Bar, Replay, Settings, run_ma_backtest, validate_inputs, replay_bars, replay_bar, execute_pending,
  look, follow,
}
use toss_trader.Backtest.Cash.{IsBalanced, run_ma_backtest-IsBalanced}

abbrev words : Wording
words = record {
  signal_id = λ short long symbol key. key;
  reason = λ short long label. "cross";
  continuation_reason = λ short long. "trend";
  continuation_id = λ short long symbol key. key;
}

abbrev bar : ℕ → ℕ → Bar
bar day price = record {
  symbol = "AAPL";
  interval = one_day;
  timestamp = record { local = day; utcoffset = some (pos 0) };
  as_of = "day";
  open_price = price;
  close_price = price;
}

abbrev bars : List Bar
bars = bar 1 100 ∷ (bar 2 90 ∷ (bar 3 120 ∷ (bar 4 125 ∷ [])))

abbrev settings : Settings
settings = record {
  quantity = pos 2;
  initial_cash = pos 10_000;
  short_window = pos 1;
  long_window = pos 2;
  slippage_rate = pos 0;
}

abbrev at_end : Replay
at_end = record {
  cash = pos 9_750;
  position = 2;
  cost_basis = 250;
  realized_pnl = pos 0;
  total_costs = 0;
  winning_trades = 0;
  completed_trades = 0;
  trades =
      record {
        side = buy;
        executed_at = record { local = 4; utcoffset = some (pos 0) };
        price = 125;
        quantity = 2;
        commission = 0;
        tax = 0;
        realized_pnl = pos 0;
      }
      ∷ [];
  pending_signal = none;
}

replayed : run_ma_backtest (λ x n. x / n) 1000 1 words settings bars ≡ ok at_end
unfolding run_ma_backtest validate_inputs replay_bars replay_bar execute_pending look follow
    evaluate_ma_crossover evaluate_closes crossing trade_signal toss_trade_costs round_down instant
    ◌+ℤ◌ ◌-ℤ◌
replayed = refl

run_ma_backtest-IsBalanced_example : IsBalanced (pos 10_000) at_end
run_ma_backtest-IsBalanced_example =
    run_ma_backtest-IsBalanced (λ x n. x / n) 1000 1 words settings bars at_end replayed
