-- ===== src/Backtest.antt =====
-- src/toss_trader/backtest.py: `run_ma_backtest`, the replay of one symbol's candles. Prices, quantities and
-- money count units; a slippage rate counts `one`ths of 1, and an execution price is taken to the unit
-- by `divide`, Python's division of Decimals. Drawdown and return rates, quotients for the report, are left out.
mod Inputs
pub mod Cash
mod Tests
unfoldable pub use Inputs.*
use toss_trader.Prelude.{
  ℕ, suc, ◌+◌, ◌-◌, ◌*◌, Bool, true, false, not, ◌&&◌, ◌||◌, String, List, [], ◌∷◌, ◌++◌, Option,
  none, some, length, take, any, map, leb, ltb, ◌==◌, Result, ok, err, raise_if, ◌>>=◌, ◌>>◌,
  if◌then◌else◌, str_eq,
}
use toss_trader.Prelude.Int.{ℤ, pos, pos_part, leb_ℤ, ltb_ℤ, ◌+ℤ◌, ◌-ℤ◌}
use toss_trader.Models.Time.{DateTime, instant}
use toss_trader.Models.Signal.{
  Side, buy, sell, is_buy, SignalError, TradeSignal, trade_signal, notional,
}
use toss_trader.Models.Candle.{Interval, one_minute, one_day, unknown}
use toss_trader.Costs.{total, TradeCosts, toss_trade_costs}
use toss_trader.Strategy.{
  Wording, StrategyError, bad_signal, evaluate_ma_crossover, MaCrossoverEvaluation, CrossoverInputs,
  last,
}

-- `_execution_price`
abbrev pub execution_price : (ℕ → ℕ → ℕ) → ℕ → ℕ → Side → ℕ → ℕ
execution_price divide one open_price buy slippage = divide (open_price * (one + slippage)) one
execution_price divide one open_price sell slippage = divide (open_price * (one - slippage)) one

-- `_trade`
abbrev pub trade : TradeSignal → DateTime → TradeCosts → ℤ → BacktestTrade
trade s at costs pnl = record {
  side = s.side;
  executed_at = at;
  price = s.reference_price;
  quantity = s.quantity;
  commission = costs.commission;
  tax = costs.tax;
  realized_pnl = pnl;
}

-- the branch that buys
abbrev pub replay_buy : ℕ → TradeSignal → DateTime → Replay → Replay
replay_buy cent s at r =
    let costs = toss_trade_costs cent s in
    let required_cash = notional s + total costs in
    if leb_ℤ (pos required_cash) r.cash
    then record r {
      cash = r.cash -ℤ pos required_cash;
      position = s.quantity;
      cost_basis = required_cash;
      total_costs = r.total_costs + total costs;
      trades = r.trades ++ trade s at costs (pos 0) ∷ [];
    }
    else r

-- the branch that sells
abbrev pub replay_sell : ℕ → TradeSignal → DateTime → Replay → Replay
replay_sell cent s at r =
    let costs = toss_trade_costs cent s in
    let proceeds = pos (notional s) -ℤ pos (total costs) in
    let trade_pnl = proceeds -ℤ pos r.cost_basis in
    record r {
      cash = r.cash +ℤ proceeds;
      position = 0;
      cost_basis = 0;
      realized_pnl = r.realized_pnl +ℤ trade_pnl;
      total_costs = r.total_costs + total costs;
      completed_trades = suc r.completed_trades;
      winning_trades = if ltb_ℤ (pos 0) trade_pnl then suc r.winning_trades else r.winning_trades;
      trades = r.trades ++ trade s at costs trade_pnl ∷ [];
    }

-- an execution signal, met by the position
abbrev pub execute_signal : ℕ → TradeSignal → DateTime → Replay → Replay
execute_signal cent s at r = elim s.side [
  | buy ↦ if r.position == 0 then replay_buy cent s at r else r
  | sell ↦ if ltb 0 r.position then replay_sell cent s at r else r
]

abbrev pub order_quantity : Side → ℕ → ℕ → ℕ
order_quantity buy quantity position = quantity
order_quantity sell quantity position = position

abbrev pub slippage : Settings → ℕ
slippage s = pos_part s.slippage_rate

-- `if pending_signal is not None`: the order of the last candle, executed at this one's open
unfoldable pub execute_pending :
    (ℕ → ℕ → ℕ) → ℕ → ℕ → Settings → Bar → Option TradeSignal → Replay → Result BacktestError Replay
execute_pending divide one cent s bar none r = ok r
execute_pending divide one cent s bar (some p) r = do
  order ← as_signal (
      trade_signal p.signal_id p.symbol p.side
        (pos (execution_price divide one bar.open_price p.side (slippage s)))
        (pos (order_quantity p.side (pos_part s.quantity) r.position)) p.reason)
  ok (record (execute_signal cent order bar.timestamp r) { pending_signal = none })

abbrev pub closes_of : List Bar → List ℤ
closes_of bars = map (λ (b : Bar). pos b.close_price) bars

abbrev pub crossover_inputs : String → Settings → Bar → List Bar → CrossoverInputs
crossover_inputs symbol s bar window = record {
  symbol = symbol;
  closes = closes_of window;
  as_of = bar.as_of;
  quantity = s.quantity;
  short_window = s.short_window;
  long_window = s.long_window;
  allow_trend_entry = false;
  entry_key = none;
}

-- a signal that the position can follow
abbrev pub is_followed : TradeSignal → ℕ → Bool
is_followed signal position = if is_buy signal.side then position == 0 else ltb 0 position

abbrev pub hold : Option TradeSignal → Replay → Replay
hold none r = r
hold (some signal) r =
    if is_followed signal r.position then record r { pending_signal = some signal } else r

-- the close's signal, on the last long_window + 1 candles
unfoldable pub follow :
    Wording → String → Settings → List Bar → Bar → Replay → Result BacktestError Replay
follow w symbol s seen bar r = do
  e ← as_backtest (
      evaluate_ma_crossover w
        (crossover_inputs symbol s bar (last (pos_part s.long_window + 1) (seen ++ bar ∷ []))))
  ok (hold e.signal r)

-- the end of the loop's body
unfoldable pub look :
    Wording → String → Settings → List Bar → Bar → Replay → Result BacktestError Replay
look w symbol s seen bar r =
    if leb (pos_part s.long_window) (length seen) then follow w symbol s seen bar r else ok r

-- one pass of the loop
unfoldable pub replay_bar :
    (ℕ → ℕ → ℕ)
    → ℕ
    → ℕ
    → Wording
    → String
    → Settings
    → List Bar
    → Bar
    → Replay
    → Result BacktestError Replay
replay_bar divide one cent w symbol s seen bar r = do
  executed ← execute_pending divide one cent s bar r.pending_signal r
  look w symbol s seen bar executed

unfoldable pub replay_bars :
    (ℕ → ℕ → ℕ)
    → ℕ
    → ℕ
    → Wording
    → String
    → Settings
    → List Bar
    → List Bar
    → Replay
    → Result BacktestError Replay
replay_bars divide one cent w symbol s seen [] r = ok r
replay_bars divide one cent w symbol s seen (bar ∷ bars) r = do
  next ← replay_bar divide one cent w symbol s seen bar r
  replay_bars divide one cent w symbol s (seen ++ bar ∷ []) bars next

abbrev pub first_replay : ℤ → Replay
first_replay cash = record {
  cash = cash;
  position = 0;
  cost_basis = 0;
  realized_pnl = pos 0;
  total_costs = 0;
  winning_trades = 0;
  completed_trades = 0;
  trades = [];
  pending_signal = none;
}

abbrev pub symbol_of : List Bar → String
symbol_of [] = ""
symbol_of (b ∷ bars) = b.symbol

-- `run_ma_backtest`, up to the report
unfoldable pub run_ma_backtest :
    (ℕ → ℕ → ℕ) → ℕ → ℕ → Wording → Settings → List Bar → Result BacktestError Replay
run_ma_backtest divide one cent w s bars = do
  validate_inputs one s bars
  replay_bars divide one cent w (symbol_of bars) s [] bars (first_replay s.initial_cash)
