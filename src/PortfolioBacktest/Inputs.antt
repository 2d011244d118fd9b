-- ===== src/PortfolioBacktest/Inputs.antt =====
-- The inputs and the state of `run_ma_portfolio_backtest` of src/toss_trader/portfolio_backtest.py, and its checks.
use toss_trader.Prelude.{
  ℕ, ◌+◌, Bool, true, false, not, ◌||◌, String, List, [], ◌∷◌, Option, none, some, length, any, ltb,
  Result, ok, raise_if, ◌>>◌, str_eq, text_ltb, same_ignoring_case, map, if◌then◌else◌,
}
use toss_trader.Prelude.Int.{ℤ, pos, pos_part, leb_ℤ, ltb_ℤ}
use toss_trader.Prelude.Dict.{Dict, get_or}
use toss_trader.Models.Time.{DateTime}
use toss_trader.Models.Signal.{Side}
use toss_trader.Backtest.{Bar, same_interval, is_unordered}
use toss_trader.Strategy.{StrategyError}

-- A candle with its currency.
pub record Quote : Type 0 where
  pub bar : Bar
  pub currency : String

pub record PortfolioBacktestTrade : Type 0 where
  pub symbol : String
  pub side : Side
  pub executed_at : DateTime
  pub price : ℕ
  pub quantity : ℕ
  pub commission : ℕ
  pub tax : ℕ
  pub realized_pnl : ℤ

-- `_PositionState`
pub record PositionState : Type 0 where
  pub quantity : ℕ
  pub cost_basis : ℕ
  pub realized_pnl : ℤ
  pub total_costs : ℕ
  pub trade_count : ℕ
  pub completed_trades : ℕ
  pub winning_trades : ℕ
  pub insufficient_cash_buys : ℕ
  pub max_open_position_rejections : ℕ
  pub max_daily_buy_rejections : ℕ
  pub max_position_notional_rejections : ℕ
  pub max_order_notional_rejections : ℕ

abbrev pub no_position : PositionState
no_position = record {
  quantity = 0;
  cost_basis = 0;
  realized_pnl = pos 0;
  total_costs = 0;
  trade_count = 0;
  completed_trades = 0;
  winning_trades = 0;
  insufficient_cash_buys = 0;
  max_open_position_rejections = 0;
  max_daily_buy_rejections = 0;
  max_position_notional_rejections = 0;
  max_order_notional_rejections = 0;
}

-- The keyword arguments, without the candles.
pub record PortfolioSettings : Type 0 where
  pub quantity : ℤ
  pub initial_cash : ℤ
  pub short_window : ℤ
  pub long_window : ℤ
  pub slippage_rate : ℤ
  pub max_open_positions : Option ℤ
  pub max_daily_buys : Option ℤ
  pub max_position_notional : Option ℤ
  pub max_order_notional : Option ℤ

pub data PortfolioError : Type 0 where
  no_candles bad_windows quantity_not_positive cash_not_positive bad_slippage : PortfolioError
  bad_max_open_positions bad_max_daily_buys bad_max_position_notional bad_max_order_notional :
      PortfolioError
  too_few_candles wrong_symbol unordered_candles mixed_intervals mixed_currencies : PortfolioError
  strategy : StrategyError → PortfolioError

-- `limit is not None and limit <= 0`
abbrev pub bad_limit : Option ℤ → Bool
bad_limit none = false
bad_limit (some limit) = leb_ℤ limit (pos 0)

abbrev insert_symbol : String → List String → List String
insert_symbol s [] = s ∷ []
insert_symbol s (t ∷ rest) = if text_ltb t s then t ∷ insert_symbol s rest else s ∷ (t ∷ rest)

-- `tuple(sorted(candles_by_symbol))`
abbrev pub sorted_symbols {ℓ} : {V : Type ℓ} → Dict V → List String
sorted_symbols [] = []
sorted_symbols ((symbol, _) ∷ d) = insert_symbol symbol (sorted_symbols d)

abbrev pub bars_of : List Quote → List Bar
bars_of quotes = map (λ (q : Quote). q.bar) quotes

-- the checks of one symbol
abbrev pub check_symbol : PortfolioSettings → String → List Quote → Result PortfolioError (Unit {0})
check_symbol s symbol quotes = do
  raise_if (ltb (length quotes) (pos_part s.long_window + 1)) too_few_candles
  raise_if (any (λ (q : Quote). not (str_eq q.bar.symbol symbol)) quotes) wrong_symbol
  raise_if (is_unordered (bars_of quotes)) unordered_candles
  ok tt

abbrev pub check_symbols :
    PortfolioSettings → Dict (List Quote) → List String → Result PortfolioError (Unit {0})
check_symbols s candles [] = ok tt
check_symbols s candles (symbol ∷ symbols) = do
  check_symbol s symbol (get_or [] symbol candles)
  check_symbols s candles symbols

abbrev pub differs : Quote → Dict (List Quote) → (Quote → Quote → Bool) → Bool
differs first candles same =
    any (λ (e : String × List Quote). any (λ q. not (same q first)) e.1) candles

-- `len(values) != 1` for the set of what the candles have: some two of them differ. No symbol is without candles.
abbrev pub is_varied : (Quote → Quote → Bool) → Dict (List Quote) → Bool
is_varied same [] = true
is_varied same ((symbol, []) ∷ rest) = true
is_varied same ((symbol, first ∷ quotes) ∷ rest) = differs first ((symbol, quotes) ∷ rest) same

abbrev pub is_empty_dict {ℓ} : {V : Type ℓ} → Dict V → Bool
is_empty_dict [] = true
is_empty_dict (e ∷ d) = false

-- `_validate_inputs`, which answers the sorted symbols. `upper` of a currency is that of ASCII texts.
unfoldable pub validate_portfolio :
    ℕ → PortfolioSettings → Dict (List Quote) → Result PortfolioError (List String)
validate_portfolio one s candles = do
  raise_if (is_empty_dict candles) no_candles
  raise_if (leb_ℤ s.short_window (pos 0) || leb_ℤ s.long_window s.short_window) bad_windows
  raise_if (leb_ℤ s.quantity (pos 0)) quantity_not_positive
  raise_if (leb_ℤ s.initial_cash (pos 0)) cash_not_positive
  raise_if (ltb_ℤ s.slippage_rate (pos 0) || leb_ℤ (pos one) s.slippage_rate) bad_slippage
  raise_if (bad_limit s.max_open_positions) bad_max_open_positions
  raise_if (bad_limit s.max_daily_buys) bad_max_daily_buys
  raise_if (bad_limit s.max_position_notional) bad_max_position_notional
  raise_if (bad_limit s.max_order_notional) bad_max_order_notional
  check_symbols s candles (sorted_symbols candles)
  raise_if (is_varied (λ p q. same_interval p.bar.interval q.bar.interval) candles) mixed_intervals
  raise_if (is_varied (λ p q. same_ignoring_case p.currency q.currency) candles) mixed_currencies
  ok (sorted_symbols candles)
