-- ===== src/Setup.antt =====
-- src/toss_trader/setup_screening.py: the judgement of a daily setup, `evaluate_setup`. What it reads of
-- the prices is an argument, and what it reads of the flows comes from a summary
-- (Setup/Flow.antt); a ratio is the exact fraction, a Decimal division before its rounding.
pub mod Approval
pub mod Flow
pub mod Known
mod Tests
use toss_trader.Prelude.{
  ℕ, ◌+◌, ◌-◌, ◌*◌, Bool, true, false, not, ◌&&◌, ◌||◌, String, List, [], ◌∷◌, ◌++◌, Option, none,
  some, any, leb, is_some, Result, ok, err, raise_if, ◌>>=◌, ◌>>◌, if◌then◌else◌,
}
use toss_trader.Prelude.Int.{ℤ, pos, leb_ℤ, ◌*ℤ◌}
use toss_trader.Models.Time.{DateTime, is_naive}
use toss_trader.Engine.{SetupType, pullback, oversold_reversal, flow_reversal, hermes_experimental}

pub data ValuationTier : Type 0 where
  tier_a tier_b tier_c : ValuationTier

-- Rates count 10000ths.
pub record ValuationEvidence : Type 0 where
  pub forward_eps_growth : Option ℤ
  pub sector_per_percentile : Option ℤ
  pub sector_relative_overvalued : Bool
  pub pure_technical_rebound : Bool

abbrev pub at_least : ℤ → Option ℤ → Bool
at_least bound none = false
at_least bound (some x) = leb_ℤ bound x

abbrev pub at_most : ℤ → Option ℤ → Bool
at_most bound none = false
at_most bound (some x) = leb_ℤ x bound

unfoldable pub valuation_tier : Option ValuationEvidence → ValuationTier
valuation_tier none = tier_b
valuation_tier (some v) =
    if v.sector_relative_overvalued || v.pure_technical_rebound
    then tier_c
    else if at_least (pos 2500) v.forward_eps_growth && at_most (pos 3000) v.sector_per_percentile
    then tier_a
    else tier_b

-- `proposed_multiplier`, in tenths
abbrev pub proposed_multiplier : ValuationTier → ℕ
proposed_multiplier tier_a = 15
proposed_multiplier tier_b = 10
proposed_multiplier tier_c = 6

pub data SetupViolation : Type 0 where
  missing_price_setup rsi_chase falling_knife stop_line_proximity : SetupViolation
  averaging_down event_imminent gap_up_chase : SetupViolation

pub data MissingCheck : Type 0 where
  flow_history event_calendar gap_up_review : MissingCheck

-- What `evaluate_setup` reads of its candles: the price evidence and the last two closes. The RSI
-- counts 10000ths, to which it has been rounded.
pub record PriceFacts : Type 0 where
  pub setups : List SetupType
  pub rsi14 : ℕ
  pub current : ℕ
  pub previous_close : ℕ

-- What it reads of the flows, when there are enough of them.
pub record FlowFacts : Type 0 where
  pub foreign_reversal : Bool
  pub institutional_confirmed : Bool

-- The rest of `SetupContext`.
pub record SetupContext : Type 0 where
  pub valuation : Option ValuationEvidence
  pub stop_price : Option ℤ
  pub averaging_down : Bool
  pub event_imminent : Option Bool
  pub gap_up_chase : Option Bool

pub record Judgement : Type 0 where
  pub approved : Bool
  pub setups : List SetupType
  pub violations : List SetupViolation
  pub missing_checks : List MissingCheck
  pub flow_stars : ℕ
  pub valuation_tier : ValuationTier
  pub proposed_confidence_multiplier : ℕ

abbrev pub is_price_setup : SetupType → Bool
is_price_setup pullback = true
is_price_setup oversold_reversal = true
is_price_setup flow_reversal = false
is_price_setup hermes_experimental = false

-- `current / previous - 1 <= -0.03`, with the positive previous close multiplied out
abbrev pub falls : ℕ → ℕ → Bool
falls current previous = leb (100 * current) (97 * previous)

-- `stop_price is not None and current <= stop_price * 1.05`
abbrev pub near_stop : ℕ → Option ℤ → Bool
near_stop current none = false
near_stop current (some stop) = leb_ℤ (pos (100 * current)) (pos 105 *ℤ stop)

abbrev pub is_true : Option Bool → Bool
is_true none = false
is_true (some b) = b

abbrev pub kept {ℓ} : {A : Type ℓ} → List (Bool × A) → List A
kept [] = []
kept ((true, a) ∷ rest) = a ∷ kept rest
kept ((false, a) ∷ rest) = kept rest

abbrev pub reverses : Option FlowFacts → Bool
reverses none = false
reverses (some f) = f.foreign_reversal

abbrev pub all_setups : PriceFacts → Option FlowFacts → List SetupType
all_setups price flow = price.setups ++ (if reverses flow then flow_reversal ∷ [] else [])

abbrev pub flow_stars : Option FlowFacts → ℕ
flow_stars none = 0
flow_stars (some f) = if f.foreign_reversal then (if f.institutional_confirmed then 2 else 1) else 0

abbrev pub violation_tests :
    PriceFacts → Option FlowFacts → SetupContext → List (Bool × SetupViolation)
violation_tests price flow c =
    (not (any is_price_setup (all_setups price flow)), missing_price_setup)
    ∷ (leb 700_000 price.rsi14, rsi_chase)
    ∷ (falls price.current price.previous_close, falling_knife)
    ∷ (near_stop price.current c.stop_price, stop_line_proximity)
    ∷ (c.averaging_down, averaging_down)
    ∷ (is_true c.event_imminent, event_imminent)
    ∷ (is_true c.gap_up_chase, gap_up_chase)
    ∷ []

abbrev pub violations : PriceFacts → Option FlowFacts → SetupContext → List SetupViolation
violations price flow c = kept (violation_tests price flow c)

abbrev pub missing_tests : Option FlowFacts → SetupContext → List (Bool × MissingCheck)
missing_tests flow c =
    (not (is_some flow), flow_history)
    ∷ (not (is_some c.event_imminent), event_calendar)
    ∷ (not (is_some c.gap_up_chase), gap_up_review)
    ∷ []

abbrev pub missing_checks : Option FlowFacts → SetupContext → List MissingCheck
missing_checks flow c = kept (missing_tests flow c)

abbrev pub is_empty {ℓ} : {A : Type ℓ} → List A → Bool
is_empty [] = true
is_empty (x ∷ xs) = false

-- `evaluate_setup` on the facts that it reads
unfoldable pub evaluate_setup : PriceFacts → Option FlowFacts → SetupContext → Judgement
evaluate_setup price flow c =
    let broken = violations price flow c in
    let missing = missing_checks flow c in
    record {
      approved = is_empty broken && is_empty missing;
      setups = all_setups price flow;
      violations = broken;
      missing_checks = missing;
      flow_stars = flow_stars flow;
      valuation_tier = valuation_tier c.valuation;
      proposed_confidence_multiplier = proposed_multiplier (valuation_tier c.valuation);
    }

-- HERMES_EXPERIMENTAL_REFERENCE_VIOLATIONS
abbrev pub is_reference_violation : SetupViolation → Bool
is_reference_violation missing_price_setup = true
is_reference_violation rsi_chase = true
is_reference_violation falling_knife = true
is_reference_violation stop_line_proximity = false
is_reference_violation averaging_down = false
is_reference_violation event_imminent = false
is_reference_violation gap_up_chase = false

unfoldable pub hermes_experimental_can_arm : Judgement → Bool
hermes_experimental_can_arm j =
    if j.approved
    then true
    else if not (is_empty j.missing_checks)
    then false
    else not (any (λ v. not (is_reference_violation v)) j.violations)
