-- ===== src/Costs/Bounds.antt =====
-- Bounds of the trading costs.
use native.Mathlib.Nat.{div-add-mod}
use toss_trader.Prelude.{ℕ, ◌*◌, ◌≤◌, arith}
use toss_trader.Models.Signal.{TradeSignal, notional}
use toss_trader.Costs.{total, round_down, toss_trade_costs}

-- A rounded product is at most the product.
pub round_down-le : (v num den unit : ℕ) → den * round_down v num den unit ≤ v * num
unfolding round_down
round_down-le v num den unit = omega (arith, div-add-mod (v * num) (den * unit))

-- The costs of an order, commission and tax together, never exceed its notional, so a sale never costs more than it
-- brings.
pub total-le-notional : (cent : ℕ) (s : TradeSignal) → total (toss_trade_costs cent s) ≤ notional s
unfolding toss_trade_costs
total-le-notional cent s = ground (
  arith,
  round_down-le (notional s) 15 100_000 (100 * cent),
  round_down-le (notional s) 2 1000 (100 * cent),
  round_down-le (notional s) 1 1000 cent,
)
