-- ===== src/Backtest/Inputs.antt =====
-- The candles, the settings and the state of `run_ma_backtest` of src/toss_trader/backtest.py, and its checks.
use toss_trader.Prelude.{
  ℕ, ◌+◌, Bool, true, false, not, ◌||◌, String, List, [], ◌∷◌, Option, length, any, ltb, Result, ok,
  err, raise_if, ◌>>◌, str_eq,
}
use toss_trader.Prelude.Int.{ℤ, pos, pos_part, leb_ℤ, ltb_ℤ}
use toss_trader.Models.Time.{DateTime, instant}
use toss_trader.Models.Signal.{Side, SignalError, TradeSignal}
use toss_trader.Models.Candle.{Interval, one_minute, one_day, unknown}
use toss_trader.Strategy.{StrategyError, bad_signal}

-- A candle that its own checks have passed: its prices are positive.
pub record Bar : Type 0 where
  pub symbol : String
  pub interval : Interval
  pub timestamp : DateTime
  pub as_of : String
  pub open_price : ℕ
  pub close_price : ℕ

pub record BacktestTrade : Type 0 where
  pub side : Side
  pub executed_at : DateTime
  pub price : ℕ
  pub quantity : ℕ
  pub commission : ℕ
  pub tax : ℕ
  pub realized_pnl : ℤ

-- The local variables of the loop.
pub record Replay : Type 0 where
  pub cash : ℤ
  pub position : ℕ
  pub cost_basis : ℕ
  pub realized_pnl : ℤ
  pub total_costs : ℕ
  pub winning_trades : ℕ
  pub completed_trades : ℕ
  pub trades : List BacktestTrade
  pub pending_signal : Option TradeSignal

-- The keyword arguments, without the candles.
pub record Settings : Type 0 where
  pub quantity : ℤ
  pub initial_cash : ℤ
  pub short_window : ℤ
  pub long_window : ℤ
  pub slippage_rate : ℤ

pub data BacktestError : Type 0 where
  bad_windows too_few_candles quantity_not_positive cash_not_positive bad_slippage : BacktestError
  mixed_candles unordered_candles : BacktestError
  strategy : StrategyError → BacktestError

abbrev pub as_backtest {ℓ} : {A : Type ℓ} → Result StrategyError A → Result BacktestError A
as_backtest (ok a) = ok a
as_backtest (err e) = err (strategy e)

abbrev pub as_signal {ℓ} : {A : Type ℓ} → Result SignalError A → Result BacktestError A
as_signal (ok a) = ok a
as_signal (err e) = err (strategy (bad_signal e))

abbrev pub same_interval : Interval → Interval → Bool
same_interval one_minute one_minute = true
same_interval one_minute one_day = false
same_interval one_minute (unknown _) = false
same_interval one_day one_minute = false
same_interval one_day one_day = true
same_interval one_day (unknown _) = false
same_interval (unknown _) one_minute = false
same_interval (unknown _) one_day = false
same_interval (unknown a) (unknown b) = str_eq a b

abbrev pub is_mixed : List Bar → Bool
is_mixed [] = false
is_mixed (first ∷ bars) =
    any (λ b. not (str_eq b.symbol first.symbol) || not (same_interval b.interval first.interval))
      bars

-- some candle is not later than the one before it
abbrev pub is_unordered : List Bar → Bool
is_unordered [] = false
is_unordered (a ∷ []) = false
is_unordered (a ∷ (b ∷ bars)) =
    leb_ℤ (instant b.timestamp) (instant a.timestamp) || is_unordered (b ∷ bars)

-- `_validate_inputs`
unfoldable pub validate_inputs : ℕ → Settings → List Bar → Result BacktestError (Unit {0})
validate_inputs one s bars = do
  raise_if (leb_ℤ s.short_window (pos 0) || leb_ℤ s.long_window s.short_window) bad_windows
  raise_if (ltb (length bars) (pos_part s.long_window + 1)) too_few_candles
  raise_if (leb_ℤ s.quantity (pos 0)) quantity_not_positive
  raise_if (leb_ℤ s.initial_cash (pos 0)) cash_not_positive
  raise_if (ltb_ℤ s.slippage_rate (pos 0) || leb_ℤ (pos one) s.slippage_rate) bad_slippage
  raise_if (is_mixed bars) mixed_candles
  raise_if (is_unordered bars) unordered_candles
  ok tt
