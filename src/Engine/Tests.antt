-- ===== src/Engine/Tests.antt =====
-- Concrete candidates: won are counted one by one.
use toss_trader.Prelude.{ℕ, ◌+◌, ◌/◌, ◌≡◌, refl, true, [], ◌∷◌, some, ok, arith}
use native.Mathlib.Nat.{le-div_iff_mul-le, div-le_of_le-mul, mul_comm}
use toss_trader.Prelude.Int.{pos, ◌+ℤ◌, ◌-ℤ◌, ◌*ℤ◌}
use toss_trader.Models.Time.{DateTime, instant, day_of}
use toss_trader.Models.Signal.{trade_signal}
use toss_trader.Models.Candle.{Candle, one_minute, one_day}
use toss_trader.Costs.{toss_trade_costs, round_down}
use toss_trader.Sizing.{
  PositionSizingPolicy, position_size_reference, validate_sizing_inputs, round_trip_risk, shrink,
  final_costs, limiting_factors,
}
use toss_trader.Engine.{
  DailySetupCandidate, ArmedTradePlan, ArmContext, armed, CandidateDecision, pullback,
  arm_candidate, refusal, require_session_open_bar, require_execution_bar, wilder_atr, smooth,
}
use toss_trader.Engine.Armed.{IsArmed, arm_candidate-IsArmed}
use toss_trader.Engine.Atr.{KeepsBounds, Within, wilder_atr-Within}

abbrev policy : PositionSizingPolicy
policy = record {
  per_trade_risk_rate = pos 50;
  max_open_heat_rate = pos 200;
  max_cluster_heat_rate = pos 100;
  max_order_notional = pos 700_000;
  atr_stop_multiple = pos 15_000;
  lot_size = pos 1;
}

abbrev candidate : DailySetupCandidate
candidate = record {
  symbol = "005930";
  signal_session = 0;
  close_price = pos 10_000;
  setup_low = pos 9_500;
  ma50 = pos 9_800;
  atr14 = pos 300;
  decision = record {
    approved = true;
    setups = pullback ∷ [];
    missing_checks = [];
    violations = [];
  };
}

abbrev at : ℕ → DateTime
at n = record { local = 86_400_000_000 + n; utcoffset = some (pos 0) }

abbrev bar : ℕ → Candle
bar n = record {
  symbol = "005930";
  interval = one_minute;
  timestamp = at n;
  open_price = pos 10_000;
  high_price = pos 10_050;
  low_price = pos 9_950;
  close_price = pos 10_000;
  volume = pos 1;
  currency = "KRW";
}

abbrev context : ArmContext
context = record {
  session_open_at = at 0;
  equity = pos 1_000_000;
  available_cash = pos 500_000;
  current_open_heat = pos 0;
  current_cluster_heat = pos 0;
  sizing_policy = policy;
}

abbrev plan : ArmedTradePlan
plan = record {
  symbol = "005930";
  quantity = 9;
  execution_reference = 10_000;
  entry_price = 1_000_500_000_000;
  stop_price = 950_000_000_000;
  planned_heat = 478_275_000_000;
  setups = pullback ∷ [];
  setup_session = 0;
  ma50 = pos 9_800;
  signal_close = pos 10_000;
}

abbrev decision : CandidateDecision
decision = record { reason = armed; plan = some plan }

candidate_armed :
    arm_candidate day_of 1_000_000 candidate (bar 60_000_000) (bar 60_000_000) context ≡ ok decision
unfolding arm_candidate require_session_open_bar require_execution_bar refusal instant ◌+ℤ◌ ◌-ℤ◌
    ◌*ℤ◌ position_size_reference validate_sizing_inputs round_trip_risk shrink final_costs
    limiting_factors trade_signal toss_trade_costs round_down
candidate_armed = refl

arm_candidate-IsArmed_example : IsArmed candidate (bar 60_000_000) (bar 60_000_000) context plan
arm_candidate-IsArmed_example =
    arm_candidate-IsArmed day_of 1_000_000 candidate (bar 60_000_000) (bar 60_000_000) context
      decision plan candidate_armed refl

-- The division of naturals keeps to the bounds.
floor-KeepsBounds : KeepsBounds (λ x n. x / n)
floor-KeepsBounds x n low high p lower upper =
    ((le-div_iff_mul-le p).1 lower, div-le_of_le-mul n (rw mul_comm upper))

abbrev day_candle : ℕ → ℕ → Candle
day_candle low high = record (bar 0) {
  interval = one_day;
  low_price = pos low;
  high_price = pos high;
  close_price = pos low;
}

three_days_atr :
    wilder_atr
      (λ x n. x / n)
      (day_candle 100 110 ∷ (day_candle 100 108 ∷ (day_candle 100 104 ∷ [])))
      (pos 1)
    ≡ ok 4
unfolding wilder_atr smooth ◌-ℤ◌
three_days_atr = refl

wilder_atr-Within_example : Within 4 8 4
unfolding ◌-ℤ◌
wilder_atr-Within_example =
    wilder_atr-Within (λ x n. x / n)
      (day_candle 100 110 ∷ (day_candle 100 108 ∷ (day_candle 100 104 ∷ []))) (pos 1) 4 4 8
      floor-KeepsBounds three_days_atr
      ((omega arith, omega arith), ((omega arith, omega arith), tt))
