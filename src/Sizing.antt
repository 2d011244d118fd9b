-- ===== src/Sizing.antt =====
-- Position sizing of src/toss_trader/setup_screening.py: `position_size_reference` and its helpers.
-- A rate counts `one`ths of 1. Money and prices come in coarse units; after the checks a computation runs
-- on fine units, `one * one` to a coarse one, on which every product with two rates is exact. A quotient is
-- taken exactly before it is rounded down to a lot.
mod Inputs
pub mod Sound
pub mod Loop
mod Tests
unfoldable pub use Inputs.*
use toss_trader.Prelude.{
  ℕ, zero, suc, ◌+◌, ◌-◌, ◌*◌, ◌/◌, Bool, true, false, not, ◌&&◌, ◌||◌, String, List, [], ◌∷◌, ltb,
  leb, ◌==◌, any, Result, ok, err, raise_if, ◌>>=◌, ◌>>◌, if◌then◌else◌,
}
use toss_trader.Prelude.Int.{ℤ, pos, pos_part, leb_ℤ, ltb_ℤ, min_ℤ}
use toss_trader.Models.Signal.{Side, buy, sell, SignalError, TradeSignal, trade_signal, notional}
use toss_trader.Costs.{total, toss_trade_costs}

-- `_floor_lot(value / price, lot_size) / lot_size`, the number of whole lots a sum pays for.
abbrev pub floor_lot : ℕ → ℕ → ℕ → ℕ
floor_lot value price lot_size = value / price / lot_size

abbrev pub as_sizing {ℓ} : {A : Type ℓ} → Result SignalError A → Result SizingError A
as_sizing (ok a) = ok a
as_sizing (err e) = err (bad_signal e)

-- `_round_trip_risk`: the planned heat and the required cash, at `cent` fine units to 0.01
unfoldable pub round_trip_risk : ℕ → String → ℕ → ℕ → ℕ → Result SizingError (ℕ × ℕ)
round_trip_risk cent symbol quantity entry_price exit_price = do
  entry ←
      as_sizing
        (trade_signal "setup-size-buy" symbol buy (pos entry_price) (pos quantity) "setup sizing")
  exit ←
      as_sizing
        (trade_signal "setup-size-sell" symbol sell (pos exit_price) (pos quantity) "setup sizing")
  ok (
    (entry_price - exit_price) * quantity
        + total (toss_trade_costs cent entry)
        + total (toss_trade_costs cent exit),
    notional entry + total (toss_trade_costs cent entry),
  )

-- Python's `min` of two.
abbrev pub smaller : ℕ → ℕ → ℕ
smaller a b = if ltb b a then b else a

abbrev pub larger : ℕ → ℕ → ℕ
larger a b = if ltb a b then b else a

-- The local variables of `position_size_reference`, up to the loop, in fine units.
pub record Basis : Type 0 where
  pub per_trade_budget : ℕ
  pub remaining_open : ℕ
  pub remaining_cluster : ℕ
  pub available_cash : ℕ
  pub max_order_notional : ℕ
  pub structural_distance : ℕ
  pub atr_floor : ℕ
  pub reference_price : ℕ
  pub entry_rate : ℕ
  pub exit_rate : ℕ
  pub lot_size : ℕ

abbrev pub basis : ℕ → SizingInputs → Basis
basis one i = record {
  per_trade_budget = pos_part i.equity * pos_part i.policy.per_trade_risk_rate * one;
  remaining_open =
      pos_part i.equity * pos_part i.policy.max_open_heat_rate * one
      - pos_part i.current_open_heat * one * one;
  remaining_cluster =
      pos_part i.equity * pos_part i.policy.max_cluster_heat_rate * one
      - pos_part i.current_cluster_heat * one * one;
  available_cash = pos_part i.available_cash * one * one;
  max_order_notional = pos_part i.policy.max_order_notional * one * one;
  structural_distance = (pos_part i.reference_price - pos_part i.stop_price) * one;
  atr_floor = pos_part i.atr * pos_part i.policy.atr_stop_multiple;
  reference_price = pos_part i.reference_price * one;
  entry_rate = pos_part i.slippage.entry_rate;
  exit_rate = pos_part i.slippage.exit_rate;
  lot_size = pos_part i.policy.lot_size;
}

abbrev pub usable : Basis → ℕ
usable b = smaller (smaller b.per_trade_budget b.remaining_open) b.remaining_cluster

-- These two prices count `one`ths of a coarse unit.
abbrev pub effective_distance : Basis → ℕ
effective_distance b = larger b.structural_distance b.atr_floor

abbrev pub exit_reference : Basis → ℕ
exit_reference b = b.reference_price - effective_distance b

abbrev pub entry_price : ℕ → Basis → ℕ
entry_price one b = b.reference_price * (one + b.entry_rate)

abbrev pub exit_price : ℕ → Basis → ℕ
exit_price one b = exit_reference b * (one - b.exit_rate)

abbrev pub risk_lots : ℕ → Basis → ℕ
risk_lots one b = floor_lot (usable b) (entry_price one b - exit_price one b) b.lot_size

abbrev pub order_lots : ℕ → Basis → ℕ
order_lots one b = floor_lot b.max_order_notional (entry_price one b) b.lot_size

abbrev pub cash_lots : ℕ → Basis → ℕ
cash_lots one b = floor_lot b.available_cash (entry_price one b) b.lot_size

-- Whether the loop has reduced the quantity for the risk, and for the cash.
pub record Reduced : Type 0 where
  pub for_risk : Bool
  pub for_cash : Bool

abbrev pub within : ℕ → ℕ → ℕ × ℕ → Bool
within budget cash (heat, required) = leb heat budget && leb required cash

abbrev pub reduce : ℕ → ℕ → ℕ × ℕ → Reduced → Reduced
reduce budget cash (heat, required) r = record {
  for_risk = r.for_risk || ltb budget heat;
  for_cash = r.for_cash || ltb cash required;
}

-- The `while` loop, in lots; `risk` is the round trip of a number of lots.
unfoldable pub shrink :
    (ℕ → Result SizingError (ℕ × ℕ)) → ℕ → ℕ → ℕ → Reduced → Result SizingError (ℕ × Reduced)
shrink risk budget cash zero r = ok (0, r)
shrink risk budget cash (suc n) r = do
  costs ← risk (suc n)
  elim (within budget cash costs) [
    | true ↦ ok (suc n, r)
    | false ↦ shrink risk budget cash n (reduce budget cash costs r)
  ]

-- the `if quantity <= 0` after the loop
unfoldable pub final_costs : (ℕ → Result SizingError (ℕ × ℕ)) → ℕ → Result SizingError (ℕ × ℕ)
final_costs risk zero = ok (0, 0)
final_costs risk (suc n) = risk (suc n)

-- the tests that hold, by their names
abbrev pub named : List (Bool × LimitingFactor) → List LimitingFactor
named [] = []
named ((true, f) ∷ fs) = f ∷ named fs
named ((false, f) ∷ fs) = named fs

-- `_limiting_factors`; quantities in lots
unfoldable pub limiting_factors : ℕ → Basis → ℕ → Reduced → List LimitingFactor
limiting_factors one b lots r = named (
    (usable b == b.per_trade_budget, per_trade_risk)
    ∷ (usable b == b.remaining_open, open_heat)
    ∷ (usable b == b.remaining_cluster, cluster_heat)
    ∷ (lots == order_lots one b, max_order)
    ∷ (lots == cash_lots one b || r.for_cash, available_cash)
    ∷ (r.for_risk, round_trip_costs)
    ∷ (lots == 0, below_one_lot)
    ∷ [])

pub record PositionSizeReference : Type 0 where
  pub approved : Bool
  pub quantity : ℕ
  pub executable_notional : ℕ
  pub basis : Basis
  pub planned_heat : ℕ
  pub required_cash : ℕ
  pub limiting_factors : List LimitingFactor

abbrev pub quantity_of : Basis → ℕ → ℕ
quantity_of b lots = lots * b.lot_size

abbrev pub risk_of : ℕ → ℕ → SizingInputs → ℕ → Result SizingError (ℕ × ℕ)
risk_of cent one i lots =
    let b = basis one i in
    round_trip_risk cent i.symbol (quantity_of b lots) (entry_price one b) (exit_price one b)

-- the reference for a quantity that the loop has left
abbrev pub sized : ℕ → ℕ → SizingInputs → ℕ × Reduced → Result SizingError PositionSizeReference
sized cent one i (lots, r) = do
  costs ← final_costs (risk_of cent one i) lots
  ok (record {
    approved = ltb 0 lots;
    quantity = quantity_of (basis one i) lots;
    executable_notional = quantity_of (basis one i) lots * pos_part i.reference_price;
    basis = basis one i;
    planned_heat = costs.0;
    required_cash = costs.1;
    limiting_factors = limiting_factors one (basis one i) lots r;
  })

-- the lots that the loop starts from
abbrev pub first_lots : ℕ → Basis → ℕ
first_lots one b = smaller (smaller (risk_lots one b) (order_lots one b)) (cash_lots one b)

-- `position_size_reference`, at `cent` fine units to 0.01
unfoldable pub position_size_reference :
    ℕ → ℕ → SizingInputs → Result SizingError PositionSizeReference
position_size_reference cent one i = do
  validate_sizing_inputs one i
  raise_if (leb (basis one i).reference_price (effective_distance (basis one i)))
      stop_distance_too_large
  left ←
      shrink (risk_of cent one i) (usable (basis one i)) (basis one i).available_cash
        (first_lots one (basis one i)) (record { for_risk = false; for_cash = false })
  sized cent one i left
