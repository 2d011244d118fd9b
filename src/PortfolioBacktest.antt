-- ===== src/PortfolioBacktest.antt =====
-- `run_ma_portfolio_backtest` of src/toss_trader/portfolio_backtest.py: the replay of many symbols against one cash
-- balance, on the units and with the division of Backtest.antt. The snapshots' rates and the report's, which are
-- quotients, are left out, with the snapshots that only copy the state.
mod Inputs
mod Orders
pub mod Sound
pub mod Run
mod Tests
unfoldable pub use Inputs.*
unfoldable pub use Orders.*
use toss_trader.Prelude.{
  ℕ, suc, ◌+◌, ◌-◌, ◌*◌, Bool, true, false, ◌&&◌, String, List, [], ◌∷◌, ◌++◌, Option, none, some,
  take, drop, leb, ltb, ◌==◌, str_eq, Result, ok, err, ◌>>=◌, map, if◌then◌else◌,
}
use toss_trader.Prelude.Int.{ℤ, pos, pos_part, ltb_ℤ, eqb_ℤ, max_ℤ, ◌+ℤ◌}
use toss_trader.Prelude.Dict.{Dict, put, get_or, lookup}
use toss_trader.Models.Time.{DateTime, instant, day_of}
use toss_trader.Models.Signal.{is_buy, TradeSignal}
use toss_trader.Strategy.{
  Wording, StrategyError, CrossoverInputs, MaCrossoverEvaluation, evaluate_ma_crossover,
}
use toss_trader.Backtest.{Bar, closes_of}
use toss_trader.PortfolioBacktest.Inputs.{
  Quote, PositionState, no_position, PortfolioSettings, PortfolioError, strategy, bars_of,
  validate_portfolio,
}
use toss_trader.PortfolioBacktest.Orders.{
  Portfolio, state_of, with_state, risk_rejections, count_rejections, Rejection,
  execute_portfolio_pending,
}

-- `(symbol, index, candle)`
pub record QuoteEvent : Type 0 where
  pub symbol : String
  pub index : ℕ
  pub bar : Bar

-- `events.setdefault(candle.timestamp, []).append(…)`, the keys kept in the order of `sorted(events)`. The symbols
-- come in their order, so each group is sorted by symbol.
abbrev pub add_event : ℤ → QuoteEvent → List (ℤ × List QuoteEvent) → List (ℤ × List QuoteEvent)
add_event at e [] = (at, e ∷ []) ∷ []
add_event at e ((t, group) ∷ rest) =
    if eqb_ℤ at t
    then (t, group ++ e ∷ []) ∷ rest
    else if ltb_ℤ at t
    then (at, e ∷ []) ∷ ((t, group) ∷ rest)
    else (t, group) ∷ add_event at e rest

abbrev pub add_candles :
    String → ℕ → List Bar → List (ℤ × List QuoteEvent) → List (ℤ × List QuoteEvent)
add_candles symbol index [] events = events
add_candles symbol index (bar ∷ bars) events = add_candles symbol (suc index) bars (
    add_event (instant bar.timestamp) (record { symbol = symbol; index = index; bar = bar }) events)

abbrev pub events_of :
    Dict (List Quote) → List String → List (ℤ × List QuoteEvent) → List (ℤ × List QuoteEvent)
events_of candles [] events = events
events_of candles (symbol ∷ symbols) events =
    events_of candles symbols (add_candles symbol 0 (bars_of (get_or [] symbol candles)) events)

-- `daily_buy_counts.get(day, 0)`, and one more
abbrev pub buys_on : ℕ → List (ℕ × ℕ) → ℕ
buys_on day [] = 0
buys_on day ((d, n) ∷ rest) = if d == day then n else buys_on day rest

abbrev pub one_more_buy : ℕ → List (ℕ × ℕ) → List (ℕ × ℕ)
one_more_buy day [] = (day, 1) ∷ []
one_more_buy day ((d, n) ∷ rest) =
    if d == day then (d, suc n) ∷ rest else (d, n) ∷ one_more_buy day rest

-- `sum(state.quantity > 0 for state in states.values())`
abbrev pub open_positions : Dict PositionState → ℕ
open_positions [] = 0
open_positions ((symbol, s) ∷ d) =
    if ltb 0 s.quantity then suc (open_positions d) else open_positions d

-- the rest of `pending.pop(symbol, None)`
abbrev pub without : String → Dict TradeSignal → Dict TradeSignal
without symbol [] = []
without symbol ((k, v) ∷ d) = if str_eq k symbol then d else (k, v) ∷ without symbol d

-- `if executed and signal.side is Side.BUY`
abbrev pub note_buy : Bool → TradeSignal → ℕ → Portfolio → Portfolio
note_buy executed signal day p =
    if executed && is_buy signal.side
    then record p { daily_buy_counts = one_more_buy day p.daily_buy_counts }
    else p

module _ (divide : ℕ → ℕ → ℕ) (one cent : ℕ) (s : PortfolioSettings) where
  abbrev pub rejected_or_executed :
      QuoteEvent → TradeSignal → List Rejection → Portfolio → Result PortfolioError Portfolio
  rejected_or_executed e signal (r ∷ rs) p =
      ok (with_state e.symbol (count_rejections (r ∷ rs) (state_of e.symbol p)) p)
  rejected_or_executed e signal [] p = do
    filled ← execute_portfolio_pending divide one cent s e.symbol signal e.bar p
    ok (note_buy filled.1 signal (day_of e.bar.timestamp) filled.0)

  abbrev pub meet_signal :
      QuoteEvent → Option TradeSignal → Portfolio → Result PortfolioError Portfolio
  meet_signal e none p = ok p
  meet_signal e (some signal) p =
      rejected_or_executed e signal
        (risk_rejections s signal (state_of e.symbol p) (open_positions p.states)
          (buys_on (day_of e.bar.timestamp) p.daily_buy_counts))
        p

  -- the first loop over the events of a timestamp
  unfoldable pub meet_pending : QuoteEvent → Portfolio → Result PortfolioError Portfolio
  meet_pending e p =
      meet_signal e (lookup e.symbol p.pending) (record p { pending = without e.symbol p.pending })

  unfoldable pub meet_all : List QuoteEvent → Portfolio → Result PortfolioError Portfolio
  meet_all [] p = ok p
  meet_all (e ∷ events) p = do next ← meet_pending e p; meet_all events next

-- the second loop
abbrev pub note_prices : List QuoteEvent → Dict ℕ → Dict ℕ
note_prices [] prices = prices
note_prices (e ∷ events) prices = note_prices events (put e.symbol e.bar.close_price prices)

abbrev pub as_strategy_error {ℓ} : {A : Type ℓ} → Result StrategyError A → Result PortfolioError A
as_strategy_error (ok a) = ok a
as_strategy_error (err e) = err (strategy e)

abbrev pub portfolio_inputs : PortfolioSettings → QuoteEvent → List Bar → CrossoverInputs
portfolio_inputs s e window = record {
  symbol = e.symbol;
  closes = closes_of window;
  as_of = e.bar.as_of;
  quantity = s.quantity;
  short_window = s.short_window;
  long_window = s.long_window;
  allow_trend_entry = false;
  entry_key = none;
}

-- `symbol_candles[index - long_window : index + 1]`
abbrev pub window_at : ℕ → ℕ → List Bar → List Bar
window_at long_window index bars = drop (index - long_window) (take (suc index) bars)

-- a signal that the position can follow is pending
abbrev pub queue_signal : String → Option TradeSignal → Portfolio → Portfolio
queue_signal symbol none p = p
queue_signal symbol (some signal) p =
    if if is_buy signal.side
      then (state_of symbol p).quantity == 0
      else ltb 0 (state_of symbol p).quantity
    then record p { pending = put symbol signal p.pending }
    else p

module _ (w : Wording) (s : PortfolioSettings) (candles : Dict (List Quote)) where
  abbrev pub signal_at : QuoteEvent → Portfolio → Result PortfolioError Portfolio
  signal_at e p = do
    evaluation ← as_strategy_error (
        evaluate_ma_crossover w (
          portfolio_inputs s e
            (window_at (pos_part s.long_window) e.index (bars_of (get_or [] e.symbol candles)))))
    ok (queue_signal e.symbol evaluation.signal p)

  -- the third loop
  unfoldable pub watch : QuoteEvent → Portfolio → Result PortfolioError Portfolio
  watch e p = if ltb e.index (pos_part s.long_window) then ok p else signal_at e p

  unfoldable pub watch_all : List QuoteEvent → Portfolio → Result PortfolioError Portfolio
  watch_all [] p = ok p
  watch_all (e ∷ events) p = do next ← watch e p; watch_all events next

abbrev pub value_of : Dict PositionState → Dict ℕ → ℕ
value_of states [] = 0
value_of states ((symbol, price) ∷ prices) =
    (get_or no_position symbol states).quantity * price + value_of states prices

-- `peak_equity = max(peak_equity, equity)`
abbrev pub note_peak : Portfolio → Portfolio
note_peak p = record p {
  peak_equity = max_ℤ p.peak_equity (p.cash +ℤ pos (value_of p.states p.last_prices));
}

-- one timestamp
unfoldable pub replay_group :
    (ℕ → ℕ → ℕ)
    → ℕ
    → ℕ
    → Wording
    → PortfolioSettings
    → Dict (List Quote)
    → List QuoteEvent
    → Portfolio
    → Result PortfolioError Portfolio
replay_group divide one cent w s candles group p = do
  executed ← meet_all divide one cent s group p
  watched ←
      watch_all w s candles group
        (record executed { last_prices = note_prices group executed.last_prices })
  ok (note_peak watched)

unfoldable pub replay_events :
    (ℕ → ℕ → ℕ)
    → ℕ
    → ℕ
    → Wording
    → PortfolioSettings
    → Dict (List Quote)
    → List (ℤ × List QuoteEvent)
    → Portfolio
    → Result PortfolioError Portfolio
replay_events divide one cent w s candles [] p = ok p
replay_events divide one cent w s candles ((_, group) ∷ rest) p = do
  next ← replay_group divide one cent w s candles group p
  replay_events divide one cent w s candles rest next

-- `{symbol: _PositionState() for symbol in symbols}`
abbrev pub first_states : List String → Dict PositionState
first_states [] = []
first_states (symbol ∷ symbols) = (symbol, no_position) ∷ first_states symbols

abbrev pub first_portfolio : PortfolioSettings → List String → Portfolio
first_portfolio s symbols = record {
  cash = s.initial_cash;
  states = first_states symbols;
  pending = [];
  last_prices = [];
  trades = [];
  daily_buy_counts = [];
  peak_equity = s.initial_cash;
}

-- `run_ma_portfolio_backtest`, up to the report
unfoldable pub run_ma_portfolio_backtest :
    (ℕ → ℕ → ℕ)
    → ℕ
    → ℕ
    → Wording
    → PortfolioSettings
    → Dict (List Quote)
    → Result PortfolioError Portfolio
run_ma_portfolio_backtest divide one cent w s candles = do
  symbols ← validate_portfolio one s candles
  replay_events divide one cent w s candles (events_of candles symbols [])
      (first_portfolio s symbols)
