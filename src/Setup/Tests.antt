-- ===== src/Setup/Tests.antt =====
-- Concrete setups.
use toss_trader.Prelude.{
  ℕ, ◌≡◌, ◌↔◌, refl, true, false, List, [], ◌∷◌, Option, none, some, is_some, ok,
}
use toss_trader.Prelude.Int.{ℤ, pos, negsuc, ◌+ℤ◌, ◌-ℤ◌}
use toss_trader.Models.Time.{instant}
use toss_trader.Engine.{pullback}
use toss_trader.Setup.{
  PriceFacts, FlowFacts, SetupContext, near_stop, evaluate_setup, hermes_experimental_can_arm,
}
use toss_trader.Setup.Approval.{
  IsSetup, evaluate_setup-approved_iff, hermes_experimental_can_arm-reviewed,
}
use toss_trader.Setup.Flow.{FlowObservation, FlowSummary, summarize_flow}
use toss_trader.Setup.Known.{IsFlow, summarize_flow-IsFlow}

abbrev price : PriceFacts
price = record { setups = pullback ∷ []; rsi14 = 450_000; current = 101; previous_close = 100 }

abbrev flow : Option FlowFacts
flow = some (record { foreign_reversal = false; institutional_confirmed = false })

abbrev context : SetupContext
context = record {
  valuation = none;
  stop_price = none;
  averaging_down = false;
  event_imminent = some false;
  gap_up_chase = some false;
}

evaluate_setup-approved_iff_example :
    ((evaluate_setup price flow context).approved ≡ true) ↔ IsSetup price flow context
evaluate_setup-approved_iff_example = evaluate_setup-approved_iff price flow context

-- A high RSI forbids the setup, and not its arming for reference.
abbrev hot : PriceFacts
hot = record price { rsi14 = 750_000 }

hot_arms : hermes_experimental_can_arm (evaluate_setup hot flow context) ≡ true
unfolding hermes_experimental_can_arm evaluate_setup
hot_arms = refl

hermes_experimental_can_arm-reviewed_example :
    (some false ≡ some false)
    × (some false ≡ some false)
    × (false ≡ false)
    × (near_stop 101 none ≡ false)
    × (is_some flow ≡ true)
hermes_experimental_can_arm-reviewed_example =
    hermes_experimental_can_arm-reviewed hot flow context hot_arms

-- Six sessions: foreign selling until the last, then a purchase that turns the sum.
abbrev session : ℕ → ℤ → FlowObservation
session n bought = record {
  symbol = "005930";
  session_index = pos n;
  session_date = n;
  available_at = record { local = n; utcoffset = some (pos 0) };
  foreign_net_buy = bought;
  institutional_net_buy = pos 1;
  trading_value = pos 100;
}

abbrev sessions : List FlowObservation
sessions =
    session 1 (negsuc 4)
    ∷ (session 2 (negsuc 0)
        ∷ (session 3 (negsuc 0)
            ∷ (session 4 (negsuc 0) ∷ (session 5 (negsuc 0) ∷ (session 6 (pos 9) ∷ [])))))

abbrev summary : FlowSummary
summary = record {
  latest_session = 6;
  previous_5d_ratio = record { numerator = negsuc 8; denominator = pos 500 };
  current_5d_ratio = record { numerator = pos 5; denominator = pos 500 };
  institutional_5d_ratio = record { numerator = pos 5; denominator = pos 500 };
  foreign_reversal = true;
  institutional_confirmed = true;
}

summarized :
    summarize_flow "005930" 6 (record { local = 9; utcoffset = some (pos 0) }) sessions
    ≡ ok (some summary)
unfolding summarize_flow instant ◌+ℤ◌ ◌-ℤ◌
summarized = refl

summarize_flow-IsFlow_example :
    IsFlow 6 (record { local = 9; utcoffset = some (pos 0) }) sessions summary
summarize_flow-IsFlow_example =
    summarize_flow-IsFlow "005930" 6 (record { local = 9; utcoffset = some (pos 0) }) sessions
      summary summarized
