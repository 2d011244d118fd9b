-- ===== src/ExitCounterfactual/Tests.antt =====
-- Simulated candles: a cross above, a cross below two bars later.
use toss_trader.Prelude.{ℕ, ◌/◌, ◌≡◌, refl, All, List, [], ◌∷◌, some, ok, arith}
use toss_trader.Prelude.Int.{ℤ, pos, ◌+ℤ◌, ◌-ℤ◌, ◌*ℤ◌}
use toss_trader.Models.Signal.{trade_signal}
use toss_trader.Models.Candle.{Candle, one_minute}
use toss_trader.Costs.{toss_trade_costs, round_down}
use toss_trader.ExitCounterfactual.{
  dead_cross, ExitVariant, dead_crossed, ExitCounterfactualTrade, Setting, Indicators, indicators,
  relations, running_relations, average_ranges, simulate_symbol, simulate_from, simulate_candle,
  meet, stop_out, watch_trade, judge, open_at, close_trade, mark_open_trade, trade_costs, look_up,
  relation_at,
}
use toss_trader.ExitCounterfactual.Fair.{IsFair}
use toss_trader.ExitCounterfactual.Policy.{simulate_symbol-IsFair}
use toss_trader.ExitCounterfactual.Windows.{window_sums, relations-window_sums}

abbrev candle : ℕ → ℕ → Candle
candle minute price = record {
  symbol = "AAPL";
  interval = one_minute;
  timestamp = record { local = minute; utcoffset = some (pos 0) };
  open_price = pos price;
  high_price = pos price;
  low_price = pos price;
  close_price = pos price;
  volume = pos 1;
  currency = "USD";
}

abbrev candles : List Candle
candles =
    candle 1 100
    ∷ (candle 2 90 ∷ (candle 3 120 ∷ (candle 4 125 ∷ (candle 5 80 ∷ (candle 6 85 ∷ [])))))

abbrev setting : Setting
setting = record { divide = λ n d. n / d; one = 1000; cent = 1; quantity = 2; slippage_rate = 0 }

abbrev crosses : ExitVariant
crosses = record {
  name = "dead-cross";
  policy = dead_cross;
  min_hold_bars = pos 0;
  atr_period = pos 14;
  atr_multiple = pos 2000;
}

abbrev one_trade : ExitCounterfactualTrade
one_trade = record {
  symbol = "AAPL";
  variant = "dead-cross";
  entered_at = record { local = 4; utcoffset = some (pos 0) };
  exited_at = some (record { local = 6; utcoffset = some (pos 0) });
  entry_price = 125;
  exit_price = some 85;
  held_bars = 2;
  exit_reason = some dead_crossed;
  realized_pnl = pos 0 -ℤ pos 80;
  marked_pnl = pos 0 -ℤ pos 80;
  actual_costs = 0;
  favorable_excursion = pos 0;
  adverse_excursion = pos 45;
}

abbrev readings : Indicators
readings = indicators setting.divide candles 1 2 14

simulated : simulate_symbol setting candles readings crosses ≡ ok (one_trade ∷ [])
unfolding simulate_symbol simulate_from simulate_candle meet stop_out watch_trade judge open_at
    close_trade mark_open_trade trade_costs indicators relations running_relations average_ranges
    trade_signal toss_trade_costs round_down ◌+ℤ◌ ◌-ℤ◌ ◌*ℤ◌
simulated = refl

simulate_symbol-IsFair_example : All (IsFair setting crosses) (one_trade ∷ [])
simulate_symbol-IsFair_example =
    simulate_symbol-IsFair setting crosses candles readings (one_trade ∷ []) simulated

abbrev closes : List ℤ
closes = pos 100 ∷ (pos 90 ∷ (pos 120 ∷ (pos 125 ∷ [])))

relations-window_sums_example :
    look_up 2 (relations closes 1 2) ≡ some (relation_at closes 1 2 (window_sums closes 1 2 2))
relations-window_sums_example =
    relations-window_sums closes 1 2 2 (omega arith) (omega arith) (omega arith)
