-- ===== src/ExitCounterfactual/Trades.antt =====
-- The trades of src/toss_trader/exit_counterfactual.py: opened, closed and marked, with their costs.
use toss_trader.Prelude.{ℕ, ◌+◌, ◌-◌, ◌*◌, String, List, Option, none, some, Result, ok, err, ◌>>=◌}
use toss_trader.Prelude.Int.{ℤ, pos, pos_part, max_ℤ, min_ℤ, ◌-ℤ◌}
use toss_trader.Models.Time.{DateTime}
use toss_trader.Models.Signal.{Side, buy, sell, SignalError, TradeSignal, trade_signal}
use toss_trader.Models.Candle.{Candle}
use toss_trader.Costs.{total, toss_trade_costs}
use toss_trader.ExitCounterfactual.Inputs.{
  ExitVariant, Reason, ExitCounterfactualTrade, OpenTrade, ExitError, bad_signal,
}

-- What stays the same in one simulation.
pub record Setting : Type 0 where
  pub divide : ℕ → ℕ → ℕ
  pub one : ℕ
  pub cent : ℕ
  pub quantity : ℕ
  pub slippage_rate : ℕ

-- The text of an id, f"exit-counterfactual-{side}-{symbol}", is not blank.
abbrev pub cost_id : Side → String
cost_id buy = "exit-counterfactual-buy"
cost_id sell = "exit-counterfactual-sell"

abbrev pub cost_of : ℕ → Result SignalError TradeSignal → Result ExitError ℕ
cost_of cent (ok s) = ok (total (toss_trade_costs cent s))
cost_of cent (err e) = err (bad_signal e)

-- `_trade_costs`
unfoldable pub trade_costs : Setting → String → Side → ℕ → Result ExitError ℕ
trade_costs g symbol side price =
    cost_of g.cent
      (trade_signal (cost_id side) symbol side (pos price) (pos g.quantity) "exit counterfactual")

-- The local variables of `_simulate_symbol`.
pub record Run : Type 0 where
  pub trades : List ExitCounterfactualTrade
  pub open_trade : Option OpenTrade
  pub pending : Option Reason

-- `_close_trade`
unfoldable pub close_trade :
    Setting
    → String
    → ExitVariant
    → OpenTrade
    → DateTime
    → ℤ
    → Reason
    → ℕ
    → Result ExitError ExitCounterfactualTrade
close_trade g symbol v t exited_at raw_exit_price reason exit_index =
    let exit_price = g.divide (pos_part raw_exit_price * (g.one - g.slippage_rate)) g.one in
    (do
      sell_costs ← trade_costs g symbol sell exit_price
      ok (record {
        symbol = symbol;
        variant = v.name;
        entered_at = t.entered_at;
        exited_at = some exited_at;
        entry_price = t.entry_price;
        exit_price = some exit_price;
        held_bars = exit_index - t.entry_index;
        exit_reason = some reason;
        realized_pnl = pos (exit_price * g.quantity) -ℤ pos sell_costs -ℤ pos t.cost_basis;
        marked_pnl = pos (exit_price * g.quantity) -ℤ pos sell_costs -ℤ pos t.cost_basis;
        actual_costs = t.buy_costs + sell_costs;
        favorable_excursion = max_ℤ t.high_water raw_exit_price -ℤ pos t.entry_price;
        adverse_excursion = pos t.entry_price -ℤ min_ℤ t.low_water raw_exit_price;
      }))

-- `_mark_open_trade`
unfoldable pub mark_open_trade :
    Setting → ExitVariant → OpenTrade → Candle → ℕ → ExitCounterfactualTrade
mark_open_trade g v t last_candle last_index = record {
  symbol = last_candle.symbol;
  variant = v.name;
  entered_at = t.entered_at;
  exited_at = none;
  entry_price = t.entry_price;
  exit_price = none;
  held_bars = last_index - t.entry_index + 1;
  exit_reason = none;
  realized_pnl = pos 0;
  marked_pnl = pos (pos_part last_candle.close_price * g.quantity) -ℤ pos t.cost_basis;
  actual_costs = t.buy_costs;
  favorable_excursion = t.high_water -ℤ pos t.entry_price;
  adverse_excursion = pos t.entry_price -ℤ t.low_water;
}

-- the trade that a pending buy opens
unfoldable pub open_at : Setting → Candle → ℕ → Result ExitError OpenTrade
open_at g c index =
    let entry_price = g.divide (pos_part c.open_price * (g.one + g.slippage_rate)) g.one in
    (do
      buy_costs ← trade_costs g c.symbol buy entry_price
      ok (record {
        entered_at = c.timestamp;
        entry_index = index;
        entry_price = entry_price;
        cost_basis = entry_price * g.quantity + buy_costs;
        buy_costs = buy_costs;
        high_water = pos entry_price;
        low_water = pos entry_price;
        trailing_stop = none;
      }))
