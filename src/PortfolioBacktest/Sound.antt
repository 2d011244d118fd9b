-- ===== src/PortfolioBacktest/Sound.antt =====
-- What the shared state of a portfolio backtest keeps: the cash, the positions and the limits of one order.
use toss_trader.Prelude.{
  choice-P, ℕ, suc, ◌+◌, ◌≤◌, ◌<◌, ◌≡◌, refl, Bool, true, false, ◌&&◌, List, [], ◌∷◌, ◌++◌, Option,
  none, some, ltb, ◌==◌, ==_iff, String, str_eq, arith, if◌then◌else◌,
}
use toss_trader.Prelude.Int.{ℤ, pos, ltb_ℤ, ◌+ℤ◌, ◌-ℤ◌, ◌≤ℤ◌, int_laws, parts_of_eq}
use toss_trader.Prelude.Dict.{Dict, put, get_or, lookup-put, sum_by, sum_by-put}
use toss_trader.Models.Time.{DateTime, day_of}
use toss_trader.Models.Signal.{Side, buy, sell, is_buy, TradeSignal}
use toss_trader.Costs.{toss_trade_costs}
use toss_trader.Costs.Bounds.{total-le-notional}
use toss_trader.PortfolioBacktest.{
  PortfolioBacktestTrade, portfolio_trade, proceeds_of, PositionState, no_position,
  PortfolioSettings, Portfolio, state_of, Rejection, count_rejections,
  max_order_notional_rejections, max_position_notional_rejections, max_daily_buy_rejections,
  max_open_position_rejections, is_reached, risk_rejections, required_cash, opened, closed_out,
  buy_order, sell_order, place_order, open_positions, buys_on, one_more_buy,
}

abbrev pub basis_of : PositionState → ℤ
basis_of s = pos s.cost_basis

abbrev pub realized : PositionState → ℤ
realized s = s.realized_pnl

-- A limit that is set is kept.
abbrev pub Keeps : Option ℤ → ℕ → Type 0
Keeps none n = Unit
Keeps (some limit) n = pos n ≤ℤ limit

-- The trades that bought on a day.
abbrev pub buys_made : ℕ → List PortfolioBacktestTrade → ℕ
buys_made day [] = 0
buys_made day (t ∷ trades) =
    if is_buy t.side && day_of t.executed_at == day
    then suc (buys_made day trades)
    else buys_made day trades

-- The cash is not negative; the cash and the bases of the positions are the start and the realized profits; a flat
-- position has no basis; no more positions are open, and on no day more trades bought, than the limits allow.
pub record IsSound (s : PortfolioSettings) (initial cash : ℤ) (states : Dict PositionState)
    (trades : List PortfolioBacktestTrade) : Type 0 where
  pub solvent : pos 0 ≤ℤ cash
  pub balance : cash +ℤ sum_by basis_of states ≡ initial +ℤ sum_by realized states
  pub flat :
      (symbol : String)
      → (get_or no_position symbol states).quantity ≡ 0
      → (get_or no_position symbol states).cost_basis ≡ 0
  pub open_within : Keeps s.max_open_positions (open_positions states)
  pub daily_within : (day : ℕ) → Keeps s.max_daily_buys (buys_made day trades)

get_or-put :
    (k j : String) (v : PositionState) (d : Dict PositionState)
    → get_or no_position j (put k v d) ≡ (if str_eq k j then v else get_or no_position j d)
get_or-put k j v d = ground (arith, lookup-put k j v d)

abbrev open_count_of : PositionState → ℕ
open_count_of s = if ltb 0 s.quantity then 1 else 0

open_positions-put :
    (k : String) (v : PositionState) (d : Dict PositionState)
    → open_positions (put k v d) + open_count_of (get_or no_position k d)
      ≡ open_positions d + open_count_of v
open_positions-put k v [] = ground arith
open_positions-put k v ((j, w) ∷ d) = ground (arith, open_positions-put k v d)

pub buys_on-one_more_buy :
    (day other : ℕ) (l : List (ℕ × ℕ))
    → buys_on other (one_more_buy day l)
      ≡ (if day == other then suc (buys_on other l) else buys_on other l)
buys_on-one_more_buy day other [] = ground arith
buys_on-one_more_buy day other ((d, n) ∷ l) = ground (arith, buys_on-one_more_buy day other l)

buys_made-append :
    (day : ℕ) (t : PortfolioBacktestTrade) (trades : List PortfolioBacktestTrade)
    → buys_made day (trades ++ t ∷ []) ≡ (
        if is_buy t.side && day_of t.executed_at == day
        then suc (buys_made day trades)
        else buys_made day trades)
buys_made-append day t [] = ground arith
buys_made-append day t (x ∷ trades) = ground (arith, buys_made-append day t trades)

pub count_rejections-same :
    (rs : List Rejection) (s : PositionState)
    → ((count_rejections rs s).quantity ≡ s.quantity)
      × ((count_rejections rs s).cost_basis ≡ s.cost_basis)
      × ((count_rejections rs s).realized_pnl ≡ s.realized_pnl)
count_rejections-same [] s = (refl, refl, refl)
count_rejections-same (max_order_notional_rejections ∷ rs) s = count_rejections-same rs _
count_rejections-same (max_position_notional_rejections ∷ rs) s = count_rejections-same rs _
count_rejections-same (max_daily_buy_rejections ∷ rs) s = count_rejections-same rs _
count_rejections-same (max_open_position_rejections ∷ rs) s = count_rejections-same rs _

-- No rejection of a buy says that its limits are not reached.
pub no_rejections :
    (s : PortfolioSettings) (signal : TradeSignal) (state : PositionState) (open_count daily : ℕ)
    → risk_rejections s signal state open_count daily ≡ []
    → is_buy signal.side ≡ true
    → (is_reached s.max_daily_buys (pos daily) ≡ false)
      × ((state.quantity == 0) && is_reached s.max_open_positions (pos open_count) ≡ false)
unfolding risk_rejections
no_rejections s signal state open_count daily h b = (ground arith, ground arith)

-- Another state of one symbol, against another cash.
put-IsSound :
    (s : PortfolioSettings) (initial cash cash' : ℤ) (states : Dict PositionState)
    (trades : List PortfolioBacktestTrade) (k : String) (v : PositionState)
    → IsSound s initial cash states trades
    → pos 0 ≤ℤ cash'
    → cash' +ℤ basis_of v +ℤ realized (get_or no_position k states)
      ≡ cash +ℤ basis_of (get_or no_position k states) +ℤ realized v
    → (v.quantity ≡ 0 → v.cost_basis ≡ 0)
    → Keeps s.max_open_positions (open_positions (put k v states))
    → IsSound s initial cash' (put k v states) trades
put-IsSound s initial cash cash' states trades k v b solvent moved flat within =
    let balance = parts_of_eq _ _ b.balance in
    let change = parts_of_eq _ _ moved in
    let bases = parts_of_eq _ _ (sum_by-put basis_of k v no_position refl states) in
    let profits = parts_of_eq _ _ (sum_by-put realized k v no_position refl states) in
    record {
      solvent = solvent;
      balance = omega (int_laws, balance, change, bases, profits);
      flat = λ j e. ground (arith, get_or-put k j v states, b.flat j);
      open_within = within;
      daily_within = b.daily_within;
    }

Keeps-le : (o : Option ℤ) (n m : ℕ) → m ≤ n → Keeps o n → Keeps o m
Keeps-le none n m h k = tt
Keeps-le (some limit) n m h k = omega (arith, k)

pub Keeps-suc : (o : Option ℤ) (n : ℕ) → is_reached o (pos n) ≡ false → Keeps o (suc n)
Keeps-suc none n h = tt
Keeps-suc (some limit) n h = ground arith

-- A state with the old quantity, basis and profit.
pub same-IsSound :
    (s : PortfolioSettings) (initial cash : ℤ) (states : Dict PositionState)
    (trades : List PortfolioBacktestTrade) (k : String) (v : PositionState)
    → IsSound s initial cash states trades
    → v.quantity ≡ (get_or no_position k states).quantity
    → v.cost_basis ≡ (get_or no_position k states).cost_basis
    → v.realized_pnl ≡ (get_or no_position k states).realized_pnl
    → IsSound s initial cash (put k v states) trades
same-IsSound s initial cash states trades k v b q c r =
    put-IsSound s initial cash cash states trades k v b b.solvent (rw (c, r) (omega int_laws))
      (λ e. ground (arith, b.flat k))
      (Keeps-le s.max_open_positions (open_positions states) _
        (ground (arith, open_positions-put k v states)) b.open_within)

-- What a day has bought after an order of a side, by whether it was filled.
abbrev pub grown : Bool → Side → DateTime → ℕ → ℕ → ℕ
grown filled side at day n = if filled && is_buy side && day_of at == day then suc n else n

-- The state after an order, and whether it was filled.
abbrev pub IsFilled :
    PortfolioSettings → ℤ → Side → DateTime → Portfolio → Portfolio × Bool → Type 0
IsFilled s initial side at old (p, filled) =
    IsSound s initial p.cash p.states old.trades
    × (p.daily_buy_counts ≡ old.daily_buy_counts)
    × ((day : ℕ) → buys_made day p.trades ≡ grown filled side at day (buys_made day old.trades))

leb_iff : (a b : ℕ) → ltb b a ≡ false → a ≤ b
leb_iff a b h = ground arith

buy_order-IsFilled :
    (s : PortfolioSettings) (initial : ℤ) (cent : ℕ) (k : String) (order : TradeSignal)
    (at : DateTime) (p : Portfolio)
    → IsSound s initial p.cash p.states p.trades
    → 0 < order.quantity
    → (state_of k p).quantity ≡ 0
    → is_reached s.max_open_positions (pos (open_positions p.states)) ≡ false
    → IsFilled s initial order.side at p (buy_order cent k order at p)
buy_order-IsFilled s initial cent k order at p b positive empty room =
    choice-P (IsFilled s initial order.side at p) (ltb_ℤ p.cash (pos (required_cash cent order))) _
      _
      (λ _.
        (same-IsSound s initial p.cash p.states p.trades k _ b refl refl refl, refl, λ day. refl))
      (λ covered.
        let paid = leb_iff _ _ covered in
        let none_held = b.flat k empty in
        (
          put-IsSound s initial p.cash _ p.states p.trades k (opened cent order (state_of k p)) b
              (omega (int_laws, paid)) (omega (int_laws, none_held)) (λ e. ground arith)
              (Keeps-le s.max_open_positions (suc (open_positions p.states)) _
                (ground (arith, open_positions-put k (opened cent order (state_of k p)) p.states))
                (Keeps-suc s.max_open_positions (open_positions p.states) room)),
          refl,
          λ day.
              buys_made-append day (portfolio_trade order at (toss_trade_costs cent order) (pos 0))
                p.trades,
        ))

sell_order-IsFilled :
    (s : PortfolioSettings) (initial : ℤ) (cent : ℕ) (k : String) (order : TradeSignal)
    (at : DateTime) (p : Portfolio)
    → IsSound s initial p.cash p.states p.trades
    → IsFilled s initial order.side at p (sell_order cent k order at p)
sell_order-IsFilled s initial cent k order at p b = (
  put-IsSound s initial p.cash _ p.states p.trades k (closed_out cent order (state_of k p)) b
      (omega (int_laws, b.solvent, total-le-notional cent order)) (omega int_laws) (λ _. refl)
      (Keeps-le s.max_open_positions (open_positions p.states) _
        (ground (arith, open_positions-put k (closed_out cent order (state_of k p)) p.states))
        b.open_within),
  refl,
  λ day.
      buys_made-append day
        (portfolio_trade order at (toss_trade_costs cent order)
          (proceeds_of cent order -ℤ pos (state_of k p).cost_basis))
        p.trades,
)

-- An order for a positive quantity, with room for another position if it buys where nothing is held.
pub place_order-IsFilled :
    (s : PortfolioSettings) (initial : ℤ) (cent : ℕ) (k : String) (order : TradeSignal)
    (at : DateTime) (p : Portfolio)
    → IsSound s initial p.cash p.states p.trades
    → 0 < order.quantity
    → (is_buy order.side ≡ true
        → ((state_of k p).quantity == 0)
            && is_reached s.max_open_positions (pos (open_positions p.states))
          ≡ false)
    → IsFilled s initial order.side at p (place_order cent k order at p)
place_order-IsFilled s initial cent k order at p b positive room = by_side order.side room
  where
    by_side :
        (side : Side)
        → (is_buy side ≡ true
            → ((state_of k p).quantity == 0)
                && is_reached s.max_open_positions (pos (open_positions p.states))
              ≡ false)
        → IsFilled s initial order.side at p (elim side [
          | buy ↦ if (state_of k p).quantity == 0 then buy_order cent k order at p else (p, false)
          | sell ↦
              if ltb 0 (state_of k p).quantity then sell_order cent k order at p else (p, false)
        ])
    by_side buy free =
        choice-P (IsFilled s initial order.side at p) ((state_of k p).quantity == 0) _ _
          (λ e.
            buy_order-IsFilled s initial cent k order at p b positive
              ((==_iff (state_of k p).quantity 0).0 e) (ground (arith, free refl)))
          (λ _. (b, refl, λ day. refl))
    by_side sell free =
        choice-P (IsFilled s initial order.side at p) (ltb 0 (state_of k p).quantity) _ _
          (λ _. sell_order-IsFilled s initial cent k order at p b) (λ _. (b, refl, λ day. refl))
