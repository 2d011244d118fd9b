-- ===== src/Costs.antt =====
-- `toss_trade_costs` of src/toss_trader/paper.py. Money counts `cent`ths of 0.01: the argument `cent` is the
-- number of units in 0.01, so 1 is `100 * cent` units, and every rate and rounding is exact.
pub mod Bounds
mod Tests
use toss_trader.Prelude.{ℕ, ◌+◌, ◌*◌, ◌/◌, Bool, ◌&&◌, ◌==◌, leb, text_length, if◌then◌else◌}
use toss_trader.Models.Signal.{Side, buy, sell, is_sell, TradeSignal, notional, isdigit}

pub record TradeCosts : Type 0 where
  pub commission : ℕ
  pub tax : ℕ

abbrev pub total : TradeCosts → ℕ
total c = c.commission + c.tax

-- `_round_down(value * rate, unit)` at the rate num / den
unfoldable pub round_down : ℕ → ℕ → ℕ → ℕ → ℕ
round_down value num den unit = value * num / (den * unit) * unit

-- TOSS_KRX_COMMISSION_RATE is 15 / 100000, KOREAN_STOCK_SELL_TAX_RATE_2026 is 2 / 1000 and
-- TOSS_US_COMMISSION_RATE is 1 / 1000.
unfoldable pub toss_trade_costs : ℕ → TradeSignal → TradeCosts
toss_trade_costs cent s =
    if text_length s.symbol == 6 && isdigit s.symbol
    then record {
      commission = round_down (notional s) 15 100_000 (100 * cent);
      tax = if is_sell s.side then round_down (notional s) 2 1000 (100 * cent) else 0;
    }
    else record {
      commission =
          if leb (notional s) (10 * (100 * cent)) then 0 else round_down (notional s) 1 1000 cent;
      tax = 0;
    }
