-- ===== src/ExitCounterfactual.antt =====
-- `run_exit_counterfactual_matrix` of src/toss_trader/exit_counterfactual.py: exit policies on the same entries. Prices
-- and money count units; a slippage rate and a multiple of the range count `one`ths of 1, and a price that they give
-- is taken to the unit by `divide`.
mod Trades
mod Inputs
pub mod Fair
pub mod Meeting
pub mod Policy
pub mod Windows
mod Averages
mod Summary
mod Tests
unfoldable pub use Inputs.*
unfoldable pub use Averages.*
unfoldable pub use Summary.*
unfoldable pub use Trades.*
use toss_trader.Prelude.{
  ℕ, zero, suc, ◌+◌, ◌-◌, ◌*◌, Bool, true, false, ◌&&◌, String, List, [], ◌∷◌, ◌++◌, Option, none,
  some, length, leb, ltb, is_some, map, Result, ok, err, ◌>>=◌, ◌>>◌, if◌then◌else◌,
}
use toss_trader.Prelude.Int.{ℤ, pos, pos_part, ltb_ℤ, leb_ℤ, max_ℤ, min_ℤ, ◌+ℤ◌, ◌-ℤ◌}
use toss_trader.Prelude.Dict.{Dict, get_or}
use toss_trader.Models.Time.{DateTime}
use toss_trader.Models.Signal.{Side, buy, sell, SignalError, TradeSignal, trade_signal}
use toss_trader.Models.Candle.{Candle}
use toss_trader.Costs.{total, toss_trade_costs}
use toss_trader.Strategy.{Relation, above, below, equal}
use toss_trader.PortfolioBacktest.{sorted_symbols}
use toss_trader.ExitCounterfactual.Inputs.{
  ExitPolicy, dead_cross, min_hold, atr_trailing, ExitVariant, Reason, entry, dead_crossed,
  min_hold_dead_crossed, atr_stop, ExitCounterfactualTrade, OpenTrade, ExitError, bad_signal,
  is_atr, validate_matrix_inputs,
}
use toss_trader.ExitCounterfactual.Summary.{ExitCounterfactualResult, summarize}
use toss_trader.ExitCounterfactual.Trades.{
  Setting, Run, close_trade, mark_open_trade, open_at, trade_costs,
}
use toss_trader.ExitCounterfactual.Averages.{Indicators, indicators}

-- a trade closed at a raw price
abbrev pub closed :
    Setting → ExitVariant → Candle → ℕ → OpenTrade → ℤ → Reason → Run → Result ExitError Run
closed g v c index t raw_exit_price reason r = do
  trade ← close_trade g c.symbol v t c.timestamp raw_exit_price reason index
  ok (record r { trades = r.trades ++ trade ∷ []; open_trade = none })

abbrev pub entered : Setting → Candle → ℕ → Run → Result ExitError Run
entered g c index r = do t ← open_at g c index; ok (record r { open_trade = some t })

-- the branches on `pending` and `open_trade`
unfoldable pub meet :
    Setting
    → ExitVariant
    → Candle
    → ℕ
    → Option Reason
    → Option OpenTrade
    → Run
    → Result ExitError Run
meet g v c index (some entry) none r = entered g c index r
meet g v c index (some dead_crossed) none r = ok r
meet g v c index (some min_hold_dead_crossed) none r = ok r
meet g v c index (some atr_stop) none r = ok r
meet g v c index (some reason) (some t) r = closed g v c index t c.open_price reason r
meet g v c index none t r = ok r

-- `raw_stop_exit`
abbrev pub stop_exit : ℤ → Candle → Option ℤ
stop_exit stop c =
    if ltb_ℤ c.open_price stop
    then some c.open_price
    else if leb_ℤ c.low_price stop && leb_ℤ stop c.open_price
    then some stop
    else none

abbrev pub stopped_at :
    Setting → ExitVariant → Candle → ℕ → OpenTrade → Option ℤ → Run → Result ExitError Run
stopped_at g v c index t none r = ok r
stopped_at g v c index t (some raw) r = closed g v c index t raw atr_stop r

abbrev pub stopped_by :
    Setting → ExitVariant → Candle → ℕ → OpenTrade → Option ℤ → Run → Result ExitError Run
stopped_by g v c index t none r = ok r
stopped_by g v c index t (some stop) r = stopped_at g v c index t (stop_exit stop c) r

-- the trailing stop, met by the candle
unfoldable pub stop_out :
    Setting → ExitVariant → Candle → ℕ → Option OpenTrade → Run → Result ExitError Run
stop_out g v c index none r = ok r
stop_out g v c index (some t) r =
    if is_atr v.policy then stopped_by g v c index t t.trailing_stop r else ok r

abbrev pub crosses_above : Option Relation → Option Relation → Bool
crosses_above (some above) (some below) = true
crosses_above (some above) (some equal) = true
crosses_above (some above) (some above) = false
crosses_above (some above) none = false
crosses_above (some below) previous = false
crosses_above (some equal) previous = false
crosses_above none previous = false

abbrev pub crosses_below : Option Relation → Option Relation → Bool
crosses_below (some below) (some above) = true
crosses_below (some below) (some equal) = true
crosses_below (some below) (some below) = false
crosses_below (some below) none = false
crosses_below (some above) previous = false
crosses_below (some equal) previous = false
crosses_below none previous = false

abbrev pub is_below : Option Relation → Bool
is_below (some below) = true
is_below (some above) = false
is_below (some equal) = false
is_below none = false

-- the trailing stop after a candle with a range: it is raised and never lowered
abbrev pub raise_stop : Option ℤ → ℤ → Option ℤ
raise_stop none candidate = some candidate
raise_stop (some stop) candidate = some (max_ℤ stop candidate)

abbrev pub trail : Setting → ExitVariant → Option ℕ → OpenTrade → OpenTrade
trail g v none t = t
trail g v (some atr) t = record t {
  trailing_stop =
      raise_stop t.trailing_stop
        (t.high_water -ℤ pos (g.divide (pos_part v.atr_multiple * atr) g.one));
}

-- What the loop reads of the indicators at one index.
pub record Reading : Type 0 where
  pub relation : Option Relation
  pub previous_relation : Option Relation
  pub atr : Option ℕ

-- `high_water` and `low_water` with a candle
abbrev pub watermarks : Candle → OpenTrade → OpenTrade
watermarks c t = record t {
  high_water = max_ℤ t.high_water c.high_price;
  low_water = min_ℤ t.low_water c.low_price;
}

abbrev pub hold_on : OpenTrade → Run → Run
hold_on t r = record r { open_trade = some t }

abbrev pub leave : Reason → OpenTrade → Run → Run
leave reason t r = record r { open_trade = some t; pending = some reason }

-- the branches on the policy
unfoldable pub judge : Setting → ExitVariant → ℕ → Reading → OpenTrade → ExitPolicy → Run → Run
judge g v index i t dead_cross r =
    if crosses_below i.relation i.previous_relation then leave dead_crossed t r else hold_on t r
judge g v index i t min_hold r =
    if leb_ℤ v.min_hold_bars (pos (index - t.entry_index + 1)) && is_below i.relation
    then leave min_hold_dead_crossed t r
    else hold_on t r
judge g v index i t atr_trailing r = hold_on (trail g v i.atr t) r

-- the end of the loop's body; `later` tells whether a candle follows
unfoldable pub watch_trade :
    Setting → ExitVariant → Candle → ℕ → Bool → Reading → Option OpenTrade → Run → Run
watch_trade g v c index later i none r =
    if crosses_above i.relation i.previous_relation && later
    then record r { pending = some entry }
    else r
watch_trade g v c index later i (some t) r = judge g v index i (watermarks c t) v.policy r

-- one candle
unfoldable pub simulate_candle :
    Setting → ExitVariant → Candle → ℕ → Bool → Reading → Run → Result ExitError Run
simulate_candle g v c index later i r = do
  met ← meet g v c index r.pending r.open_trade r
  stopped ← stop_out g v c index met.open_trade (record met { pending = none })
  ok (watch_trade g v c index later i stopped.open_trade stopped)

abbrev pub look_up {ℓ} : {A : Type ℓ} → ℕ → List (Option A) → Option A
look_up i [] = none
look_up zero (x ∷ xs) = x
look_up (suc i) (x ∷ xs) = look_up i xs

abbrev pub previous_of {ℓ} : {A : Type ℓ} → ℕ → List (Option A) → Option A
previous_of zero xs = none
previous_of (suc i) xs = look_up i xs

abbrev pub reading_at : Indicators → ℕ → Reading
reading_at i index = record {
  relation = look_up index i.relations;
  previous_relation = previous_of index i.relations;
  atr = look_up index i.atr;
}

abbrev pub follows : List Candle → Bool
follows [] = false
follows (c ∷ rest) = true

unfoldable pub simulate_from :
    Setting → ExitVariant → Indicators → ℕ → List Candle → Run → Result ExitError Run
simulate_from g v i index [] r = ok r
simulate_from g v i index (c ∷ rest) r = do
  next ← simulate_candle g v c index (follows rest) (reading_at i index) r
  simulate_from g v i (suc index) rest next

abbrev pub last_of : List Candle → Option Candle
last_of [] = none
last_of (c ∷ []) = some c
last_of (c ∷ (d ∷ rest)) = last_of (d ∷ rest)

abbrev pub marked :
    Setting → ExitVariant → ℕ → Option Candle → Option OpenTrade → List ExitCounterfactualTrade
marked g v n none t = []
marked g v n (some c) none = []
marked g v n (some c) (some t) = mark_open_trade g v t c (n - 1) ∷ []

-- `_simulate_symbol`
unfoldable pub simulate_symbol :
    Setting
    → List Candle
    → Indicators
    → ExitVariant
    → Result ExitError (List ExitCounterfactualTrade)
simulate_symbol g candles i v = do
  r ← simulate_from g v i 0 candles (record { trades = []; open_trade = none; pending = none })
  ok (r.trades ++ marked g v (length candles) (last_of candles) r.open_trade)

-- the period of the first ATR variant, or 14
abbrev pub shared_period : List ExitVariant → ℕ
shared_period [] = 14
shared_period (v ∷ vs) = if is_atr v.policy then pos_part v.atr_period else shared_period vs

-- `collected[variant.name]`: the trades of a variant over the symbols
unfoldable pub collect_trades :
    Setting
    → ℕ
    → ℕ
    → ℕ
    → Dict (List Candle)
    → ExitVariant
    → List String
    → Result ExitError (List ExitCounterfactualTrade)
collect_trades g short_window long_window period candles v [] = ok []
collect_trades g short_window long_window period candles v (symbol ∷ symbols) = do
  trades ←
      simulate_symbol g (get_or [] symbol candles)
        (indicators g.divide (get_or [] symbol candles) short_window long_window period) v
  rest ← collect_trades g short_window long_window period candles v symbols
  ok (trades ++ rest)

abbrev pub matrix_rows :
    Setting
    → ℕ
    → ℕ
    → ℕ
    → Dict (List Candle)
    → List ExitVariant
    → Result ExitError (List ExitCounterfactualResult)
matrix_rows g short_window long_window period candles [] = ok []
matrix_rows g short_window long_window period candles (v ∷ vs) = do
  trades ← collect_trades g short_window long_window period candles v (sorted_symbols candles)
  rest ← matrix_rows g short_window long_window period candles vs
  ok (summarize v (length candles) trades ∷ rest)

-- `run_exit_counterfactual_matrix`. The source runs the variants of one symbol before the next symbol; a variant's
-- trades are the same, and so is the result where no order is refused.
unfoldable pub run_exit_counterfactual_matrix :
    (ℕ → ℕ → ℕ)
    → ℕ
    → ℕ
    → Dict (List Candle)
    → List ExitVariant
    → ℤ
    → ℤ
    → ℤ
    → ℤ
    → Result ExitError (List ExitCounterfactualResult)
run_exit_counterfactual_matrix divide one cent candles variants quantity short_window long_window
      slippage_rate =
    do
      validate_matrix_inputs one candles variants quantity short_window long_window slippage_rate
      matrix_rows
          (record {
            divide = divide;
            one = one;
            cent = cent;
            quantity = pos_part quantity;
            slippage_rate = pos_part slippage_rate;
          })
          (pos_part short_window) (pos_part long_window) (shared_period variants) candles variants
