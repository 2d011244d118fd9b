-- ===== src/Sizing/Tests.antt =====
-- Sizing at concrete inputs: won are counted one by one, rates in 10000ths.
use toss_trader.Prelude.{◌≡◌, ◌≤◌, ◌*◌, refl, true, false, [], ◌∷◌, ok, arith}
use toss_trader.Prelude.Int.{pos}
use toss_trader.Models.Signal.{trade_signal}
use toss_trader.Costs.{toss_trade_costs, round_down}
use toss_trader.Sizing.{
  SizingInputs, PositionSizingPolicy, PositionSizeReference, per_trade_risk, round_trip_costs,
  basis, usable, entry_price, position_size_reference, validate_sizing_inputs, round_trip_risk,
  shrink, final_costs, limiting_factors, risk_of, within,
}
use toss_trader.Sizing.Sound.{position_size_reference-bounds, position_size_reference-largest}

-- DEFAULT_POSITION_SIZING_POLICY
abbrev policy : PositionSizingPolicy
policy = record {
  per_trade_risk_rate = pos 50;
  max_open_heat_rate = pos 200;
  max_cluster_heat_rate = pos 100;
  max_order_notional = pos 700_000;
  atr_stop_multiple = pos 15_000;
  lot_size = pos 1;
}

abbrev inputs : SizingInputs
inputs = record {
  symbol = "005930";
  equity = pos 1_000_000;
  reference_price = pos 10_000;
  stop_price = pos 9_500;
  atr = pos 300;
  available_cash = pos 500_000;
  current_open_heat = pos 0;
  current_cluster_heat = pos 0;
  policy = policy;
  slippage = record { entry_rate = pos 0; exit_rate = pos 0 };
}

-- Ten lots would risk the budget exactly without the costs, so nine are left.
abbrev nine_lots : PositionSizeReference
nine_lots = record {
  approved = true;
  quantity = 9;
  executable_notional = 90_000;
  basis = basis 10_000 inputs;
  planned_heat = 469_600_000_000;
  required_cash = 9_001_300_000_000;
  limiting_factors = per_trade_risk ∷ (round_trip_costs ∷ []);
}

sized_nine : position_size_reference 1_000_000 10_000 inputs ≡ ok nine_lots
unfolding position_size_reference validate_sizing_inputs round_trip_risk shrink final_costs
    limiting_factors trade_signal toss_trade_costs round_down
sized_nine = refl

position_size_reference-bounds_example :
    (469_600_000_000 ≤ usable (basis 10_000 inputs))
    × (9_001_300_000_000 ≤ 50_000_000_000_000)
    × (9 * entry_price 10_000 (basis 10_000 inputs) ≤ 70_000_000_000_000)
    × (basis 10_000 inputs ≡ basis 10_000 inputs)
position_size_reference-bounds_example =
    position_size_reference-bounds 1_000_000 10_000 inputs nine_lots sized_nine

ten_lots_risk : risk_of 1_000_000 10_000 inputs 10 ≡ ok (521_900_000_000, 10_001_500_000_000)
unfolding round_trip_risk trade_signal toss_trade_costs round_down
ten_lots_risk = refl

position_size_reference-largest_example :
    within (usable (basis 10_000 inputs)) 50_000_000_000_000 (521_900_000_000, 10_001_500_000_000)
    ≡ false
position_size_reference-largest_example =
    position_size_reference-largest 1_000_000 10_000 inputs nine_lots sized_nine 10 (omega arith)
      (omega arith) (521_900_000_000, 10_001_500_000_000) ten_lots_risk
