-- ===== src/Models/Tests.antt =====
-- Concrete signals, candles and plans.
use toss_trader.Prelude.{◌≡◌, ◌<◌, refl, [], ◌∷◌, none, some, ok, false, not}
use toss_trader.Prelude.Int.{pos}
use toss_trader.Models.Time.{DateTime}
use toss_trader.Models.Signal.{buy, TradeSignal, trade_signal, is_blank, symbol_matches, is_digit}
use toss_trader.Models.Candle.{Candle, one_day, candle_post_init}
use toss_trader.Models.Plan.{V2PositionPlan, plan_post_init}
use toss_trader.Models.Accepted.{
  trade_signal-accepted, IsCandle, candle_post_init-IsCandle, IsPlan, plan_post_init-IsPlan,
}

abbrev order : TradeSignal
order = record {
  signal_id = "s1";
  symbol = "005930";
  side = buy;
  reference_price = 70_000;
  quantity = 2;
  reason = "cross";
}

order_made : trade_signal "s1" "005930" buy (pos 70_000) (pos 2) "cross" ≡ ok order
unfolding trade_signal
order_made = refl

trade_signal-accepted_example :
    (order.signal_id ≡ "s1")
    × (order.reason ≡ "cross")
    × (order.side ≡ buy)
    × (order.symbol ≡ "005930")
    × (pos 70_000 ≡ pos 70_000)
    × (pos 2 ≡ pos 2)
    × (0 < 70_000)
    × (0 < 2)
    × (is_blank "s1" ≡ false)
    × (not (symbol_matches "005930") ≡ false)
    × (is_blank "cross" ≡ false)
trade_signal-accepted_example =
    trade_signal-accepted "s1" "005930" buy (pos 70_000) (pos 2) "cross" order order_made

abbrev noon : DateTime
noon = record { local = 1_000; utcoffset = some (pos 0) }

abbrev candle : Candle
candle = record {
  symbol = "005930";
  interval = one_day;
  timestamp = noon;
  open_price = pos 100;
  high_price = pos 110;
  low_price = pos 95;
  close_price = pos 105;
  volume = pos 7;
  currency = "KRW";
}

candle_made : candle_post_init (λ c. not (is_digit c)) candle ≡ ok candle
unfolding candle_post_init
candle_made = refl

candle_post_init-IsCandle_example : (candle ≡ candle) × IsCandle candle
candle_post_init-IsCandle_example =
    candle_post_init-IsCandle (λ c. not (is_digit c)) candle candle candle_made

abbrev plan : V2PositionPlan
plan = record {
  symbol = "005930";
  cluster_id = "semiconductors";
  setup_session = 20_000;
  setups = "pullback" ∷ [];
  quantity = pos 9;
  entry_price = pos 10_005;
  stop_price = pos 9_500;
  planned_heat = pos 4_696;
  ma50 = pos 9_800;
  signal_close = pos 10_000;
  opened_at = noon;
  exit_pending_reason = none;
  exit_triggered_at = none;
}

plan_made : plan_post_init plan ≡ ok plan
unfolding plan_post_init
plan_made = refl

plan_post_init-IsPlan_example : (plan ≡ plan) × IsPlan plan
plan_post_init-IsPlan_example = plan_post_init-IsPlan plan plan plan_made
