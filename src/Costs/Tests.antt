-- ===== src/Costs/Tests.antt =====
-- The costs of concrete orders.
use toss_trader.Prelude.{◌≡◌, ◌≤◌, refl}
use toss_trader.Models.Signal.{sell, TradeSignal, notional}
use toss_trader.Costs.{total, toss_trade_costs, round_down}
use toss_trader.Costs.Bounds.{total-le-notional}

abbrev sale : TradeSignal
sale = record {
  signal_id = "s1";
  symbol = "005930";
  side = sell;
  reference_price = 7_000_000;
  quantity = 10;
  reason = "cross";
}

total-le-notional_example : total (toss_trade_costs 1 sale) ≤ notional sale
total-le-notional_example = total-le-notional 1 sale

-- 700,000 won: a commission of 105 won and a tax of 1,400 won
sale_costs : toss_trade_costs 1 sale ≡ record { commission = 10_500; tax = 140_000 }
unfolding toss_trade_costs round_down
sale_costs = refl
