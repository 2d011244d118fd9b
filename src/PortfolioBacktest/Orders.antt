-- ===== src/PortfolioBacktest/Orders.antt =====
-- The orders of src/toss_trader/portfolio_backtest.py: `_risk_rejections` and `_execute_pending` on the shared cash.
use toss_trader.Prelude.{
  ℕ, suc, ◌+◌, ◌-◌, ◌*◌, Bool, true, false, ◌&&◌, String, List, [], ◌∷◌, ◌++◌, Option, none, some,
  ltb, ◌==◌, Result, ok, err, ◌>>=◌, if◌then◌else◌,
}
use toss_trader.Prelude.Int.{ℤ, pos, pos_part, leb_ℤ, ltb_ℤ, ◌+ℤ◌, ◌-ℤ◌}
use toss_trader.Prelude.Dict.{Dict, put, get_or}
use toss_trader.Models.Time.{DateTime}
use toss_trader.Models.Signal.{
  Side, buy, sell, is_buy, SignalError, TradeSignal, trade_signal, notional,
}
use toss_trader.Costs.{total, TradeCosts, toss_trade_costs}
use toss_trader.Strategy.{bad_signal}
use toss_trader.Backtest.{Bar}
use toss_trader.PortfolioBacktest.Inputs.{
  PortfolioBacktestTrade, PositionState, no_position, PortfolioSettings, PortfolioError, strategy,
}

-- The local variables of the loop.
pub record Portfolio : Type 0 where
  pub cash : ℤ
  pub states : Dict PositionState
  pub pending : Dict TradeSignal
  pub last_prices : Dict ℕ
  pub trades : List PortfolioBacktestTrade
  -- the counts of buys by day
  pub daily_buy_counts : List (ℕ × ℕ)
  pub peak_equity : ℤ

-- `states[symbol]`
abbrev pub state_of : String → Portfolio → PositionState
state_of symbol p = get_or no_position symbol p.states

abbrev pub with_state : String → PositionState → Portfolio → Portfolio
with_state symbol state p = record p { states = put symbol state p.states }

-- The names of the counters that `_risk_rejections` answers.
pub data Rejection : Type 0 where
  max_order_notional_rejections max_position_notional_rejections : Rejection
  max_daily_buy_rejections max_open_position_rejections : Rejection

-- `limit is not None and value > limit`, and with >=
abbrev pub is_above : Option ℤ → ℤ → Bool
is_above none value = false
is_above (some limit) value = ltb_ℤ limit value

abbrev pub is_reached : Option ℤ → ℤ → Bool
is_reached none value = false
is_reached (some limit) value = leb_ℤ limit value

abbrev pub when : Bool → Rejection → List Rejection → List Rejection
when test r rest = if test then r ∷ rest else rest

-- `_risk_rejections`
unfoldable pub risk_rejections :
    PortfolioSettings → TradeSignal → PositionState → ℕ → ℕ → List Rejection
risk_rejections s signal state open_position_count daily_buy_count =
    when (is_above s.max_order_notional (pos (notional signal))) max_order_notional_rejections (
      if is_buy signal.side
      then when
          (is_above s.max_position_notional
            (pos (state.quantity * signal.reference_price + notional signal)))
          max_position_notional_rejections
          (when (is_reached s.max_daily_buys (pos daily_buy_count)) max_daily_buy_rejections (
            when (state.quantity == 0 && is_reached s.max_open_positions (pos open_position_count))
              max_open_position_rejections []))
      else [])

-- `setattr(states[symbol], rejection, getattr(states[symbol], rejection) + 1)`
abbrev pub count_rejection : Rejection → PositionState → PositionState
count_rejection max_order_notional_rejections s = record s {
  max_order_notional_rejections = suc s.max_order_notional_rejections;
}
count_rejection max_position_notional_rejections s = record s {
  max_position_notional_rejections = suc s.max_position_notional_rejections;
}
count_rejection max_daily_buy_rejections s = record s {
  max_daily_buy_rejections = suc s.max_daily_buy_rejections;
}
count_rejection max_open_position_rejections s = record s {
  max_open_position_rejections = suc s.max_open_position_rejections;
}

abbrev pub count_rejections : List Rejection → PositionState → PositionState
count_rejections [] s = s
count_rejections (r ∷ rs) s = count_rejections rs (count_rejection r s)

-- the price of an execution at an open
abbrev pub slipped : (ℕ → ℕ → ℕ) → ℕ → ℕ → Side → ℕ → ℕ
slipped divide one open_price buy slippage = divide (open_price * (one + slippage)) one
slipped divide one open_price sell slippage = divide (open_price * (one - slippage)) one

abbrev pub order_size : Side → ℕ → ℕ → ℕ
order_size buy quantity held = quantity
order_size sell quantity held = held

abbrev pub as_portfolio {ℓ} : {A : Type ℓ} → Result SignalError A → Result PortfolioError A
as_portfolio (ok a) = ok a
as_portfolio (err e) = err (strategy (bad_signal e))

abbrev pub portfolio_trade : TradeSignal → DateTime → TradeCosts → ℤ → PortfolioBacktestTrade
portfolio_trade order at costs pnl = record {
  symbol = order.symbol;
  side = order.side;
  executed_at = at;
  price = order.reference_price;
  quantity = order.quantity;
  commission = costs.commission;
  tax = costs.tax;
  realized_pnl = pnl;
}

abbrev pub required_cash : ℕ → TradeSignal → ℕ
required_cash cent order = notional order + total (toss_trade_costs cent order)

abbrev pub opened : ℕ → TradeSignal → PositionState → PositionState
opened cent order s = record s {
  quantity = order.quantity;
  cost_basis = required_cash cent order;
  total_costs = s.total_costs + total (toss_trade_costs cent order);
  trade_count = suc s.trade_count;
}

-- the branch that buys
abbrev pub buy_order : ℕ → String → TradeSignal → DateTime → Portfolio → Portfolio × Bool
buy_order cent symbol order at p =
    let s = state_of symbol p in
    if ltb_ℤ p.cash (pos (required_cash cent order))
    then (
      with_state symbol (record s { insufficient_cash_buys = suc s.insufficient_cash_buys }) p,
      false,
    )
    else (
      record p {
        cash = p.cash -ℤ pos (required_cash cent order);
        states = put symbol (opened cent order s) p.states;
        trades = p.trades ++ portfolio_trade order at (toss_trade_costs cent order) (pos 0) ∷ [];
      },
      true,
    )

abbrev pub proceeds_of : ℕ → TradeSignal → ℤ
proceeds_of cent order = pos (notional order) -ℤ pos (total (toss_trade_costs cent order))

abbrev pub closed_out : ℕ → TradeSignal → PositionState → PositionState
closed_out cent order s =
    let pnl = proceeds_of cent order -ℤ pos s.cost_basis in
    record s {
      quantity = 0;
      cost_basis = 0;
      realized_pnl = s.realized_pnl +ℤ pnl;
      completed_trades = suc s.completed_trades;
      winning_trades = if ltb_ℤ (pos 0) pnl then suc s.winning_trades else s.winning_trades;
      total_costs = s.total_costs + total (toss_trade_costs cent order);
      trade_count = suc s.trade_count;
    }

-- the branch that sells
abbrev pub sell_order : ℕ → String → TradeSignal → DateTime → Portfolio → Portfolio × Bool
sell_order cent symbol order at p =
    let s = state_of symbol p in
    (
      record p {
        cash = p.cash +ℤ proceeds_of cent order;
        states = put symbol (closed_out cent order s) p.states;
        trades =
            p.trades
            ++ portfolio_trade order at (toss_trade_costs cent order)
                (proceeds_of cent order -ℤ pos s.cost_basis)
              ∷ [];
      },
      true,
    )

-- the chain of branches, by the side of the order
abbrev pub place_order : ℕ → String → TradeSignal → DateTime → Portfolio → Portfolio × Bool
place_order cent symbol order at p = elim order.side [
  | buy ↦ if (state_of symbol p).quantity == 0 then buy_order cent symbol order at p else (p, false)
  | sell ↦
      if ltb 0 (state_of symbol p).quantity then sell_order cent symbol order at p else (p, false)
]

-- `_execute_pending`
unfoldable pub execute_portfolio_pending :
    (ℕ → ℕ → ℕ)
    → ℕ
    → ℕ
    → PortfolioSettings
    → String
    → TradeSignal
    → Bar
    → Portfolio
    → Result PortfolioError (Portfolio × Bool)
execute_portfolio_pending divide one cent s symbol signal bar p = do
  order ← as_portfolio (
      trade_signal signal.signal_id signal.symbol signal.side
        (pos (slipped divide one bar.open_price signal.side (pos_part s.slippage_rate)))
        (pos (order_size signal.side (pos_part s.quantity) (state_of symbol p).quantity))
        signal.reason)
  ok (place_order cent symbol order bar.timestamp p)
