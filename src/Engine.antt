-- ===== src/Engine.antt =====
-- src/toss_trader/v2_engine.py: arming a setup for the next session, the stop and the pullback tests, and
-- Wilder's average true range. Prices count units; SEOUL's calendar day of a time is a parameter, `seoul_day`.
mod Range
pub mod Armed
pub mod Atr
mod Tests
unfoldable pub use Range.*
use toss_trader.Prelude.{
  ℕ, suc, zero, ◌+◌, ◌-◌, ◌*◌, Bool, true, false, not, ◌&&◌, ◌||◌, String, List, [], ◌∷◌, Option,
  none, some, length, take, drop, any, leb, ltb, ◌==◌, Result, ok, err, raise_if, ◌>>=◌, ◌>>◌,
  if◌then◌else◌, str_eq,
}
use toss_trader.Prelude.Int.{
  ℤ, pos, pos_part, leb_ℤ, ltb_ℤ, min_ℤ, max_ℤ, eqb_ℤ, ◌+ℤ◌, ◌-ℤ◌, ◌*ℤ◌, neg_part,
}
use toss_trader.Models.Time.{DateTime, is_naive, instant}
use toss_trader.Models.Candle.{Interval, one_minute, one_day, unknown, Candle}
use toss_trader.Sizing.{
  SizingError, SizingInputs, PositionSizeReference, PositionSizingPolicy, SlippageAssumption, Basis,
  effective_distance, entry_price, position_size_reference,
}

pub data SetupType : Type 0 where
  pullback oversold_reversal flow_reversal hermes_experimental : SetupType

-- The part of `SetupDecision` that arming reads.
pub record SetupDecision : Type 0 where
  pub approved : Bool
  pub setups : List SetupType
  pub missing_checks : List String
  pub violations : List String

pub record DailySetupCandidate : Type 0 where
  pub symbol : String
  pub signal_session : ℕ
  pub close_price : ℤ
  pub setup_low : ℤ
  pub ma50 : ℤ
  pub atr14 : ℤ
  pub decision : SetupDecision

-- The prices of an armed plan are on the fine units of Sizing.antt.
pub record ArmedTradePlan : Type 0 where
  pub symbol : String
  pub quantity : ℕ
  pub execution_reference : ℕ
  pub entry_price : ℕ
  pub stop_price : ℕ
  pub planned_heat : ℕ
  pub setups : List SetupType
  pub setup_session : ℕ
  pub ma50 : ℤ
  pub signal_close : ℤ

-- The reason of a `CandidateDecision`.
pub data ArmReason : Type 0 where
  setup_rejected : List String → List String → ArmReason
  gap_up_chase invalid_stop below_one_lot armed : ArmReason

pub record CandidateDecision : Type 0 where
  pub reason : ArmReason
  pub plan : Option ArmedTradePlan

pub data ArmError : Type 0 where
  bar_interval bar_symbol naive_open bar_time bar_session : ArmError
  execution_interval execution_symbol execution_early execution_session : ArmError
  sizing : SizingError → ArmError

abbrev pub is_one_minute : Interval → Bool
is_one_minute one_minute = true
is_one_minute one_day = false
is_one_minute (unknown _) = false

-- COMPLETED_ONE_MINUTE_OFFSET, in microseconds
abbrev pub one_minute_offset : ℕ
one_minute_offset = 60_000_000

-- `_require_session_open_bar`
unfoldable pub require_session_open_bar :
    (DateTime → ℕ) → Candle → DateTime → ℕ → String → Result ArmError (Unit {0})
require_session_open_bar seoul_day bar session_open_at signal_session symbol = do
  raise_if (not (is_one_minute bar.interval)) bar_interval
  raise_if (not (str_eq bar.symbol symbol)) bar_symbol
  raise_if (is_naive session_open_at) naive_open
  raise_if (not (eqb_ℤ (instant bar.timestamp) (instant session_open_at +ℤ pos one_minute_offset)))
      bar_time
  raise_if (leb (seoul_day bar.timestamp) signal_session) bar_session
  ok tt

-- `_require_execution_bar`
unfoldable pub require_execution_bar :
    (DateTime → ℕ) → Candle → Candle → DateTime → String → Result ArmError (Unit {0})
require_execution_bar seoul_day bar first_completed_bar session_open_at symbol = do
  raise_if (not (is_one_minute bar.interval)) execution_interval
  raise_if (not (str_eq bar.symbol symbol)) execution_symbol
  raise_if (ltb_ℤ (instant bar.timestamp) (instant first_completed_bar.timestamp)) execution_early
  raise_if (not (seoul_day bar.timestamp == seoul_day session_open_at)) execution_session
  ok tt

-- The arguments of `arm_candidate` beside the candidate and the two bars.
pub record ArmContext : Type 0 where
  pub session_open_at : DateTime
  pub equity : ℤ
  pub available_cash : ℤ
  pub current_open_heat : ℤ
  pub current_cluster_heat : ℤ
  pub sizing_policy : PositionSizingPolicy

abbrev pub unarmed : ArmReason → CandidateDecision
unarmed reason = record { reason = reason; plan = none }

-- `session_open_price / close_price - 1 >= GAP_UP_THRESHOLD`, with the positive close multiplied out
abbrev pub gaps_up : ℤ → ℤ → Bool
gaps_up open_price close_price = leb_ℤ (pos 103 *ℤ close_price) (pos 100 *ℤ open_price)

-- `not 0 < setup_low < min(session_open_price, execution_reference)`
abbrev pub bad_stop : ℤ → ℤ → ℤ → Bool
bad_stop setup_low open_price reference =
    leb_ℤ setup_low (pos 0) || leb_ℤ (min_ℤ open_price reference) setup_low

-- ADVERSE_SLIPPAGE, 0.0005 on both sides; a rate counts 10000ths
abbrev pub one : ℕ
one = 10_000

abbrev pub adverse_slippage : SlippageAssumption
adverse_slippage = record { entry_rate = pos 5; exit_rate = pos 5 }

abbrev pub sizing_inputs : DailySetupCandidate → Candle → ArmContext → SizingInputs
sizing_inputs candidate bar c = record {
  symbol = candidate.symbol;
  equity = c.equity;
  reference_price = bar.close_price;
  stop_price = candidate.setup_low;
  atr = candidate.atr14;
  available_cash = c.available_cash;
  current_open_heat = c.current_open_heat;
  current_cluster_heat = c.current_cluster_heat;
  policy = c.sizing_policy;
  slippage = adverse_slippage;
}

abbrev pub as_arm {ℓ} : {A : Type ℓ} → Result SizingError A → Result ArmError A
as_arm (ok a) = ok a
as_arm (err e) = err (sizing e)

-- the decision on a size
abbrev pub arm_sized : DailySetupCandidate → Candle → PositionSizeReference → CandidateDecision
arm_sized candidate bar size = if size.quantity == 0 then unarmed below_one_lot else record {
  reason = armed;
  plan = some (record {
    symbol = candidate.symbol;
    quantity = size.quantity;
    execution_reference = pos_part bar.close_price;
    entry_price = entry_price one size.basis;
    stop_price = (size.basis.reference_price - effective_distance size.basis) * one;
    planned_heat = size.planned_heat;
    setups = candidate.decision.setups;
    setup_session = candidate.signal_session;
    ma50 = candidate.ma50;
    signal_close = candidate.close_price;
  });
}

-- the checks of the candidate, in their order
unfoldable pub refusal : DailySetupCandidate → Candle → Candle → Option ArmReason
refusal candidate first_completed_bar execution_bar =
    if not candidate.decision.approved
    then some (setup_rejected candidate.decision.missing_checks candidate.decision.violations)
    else if gaps_up first_completed_bar.open_price candidate.close_price
    then some gap_up_chase
    else if bad_stop candidate.setup_low first_completed_bar.open_price execution_bar.close_price
    then some invalid_stop
    else none

abbrev pub arm_checked :
    ℕ
    → DailySetupCandidate
    → Candle
    → ArmContext
    → Option ArmReason
    → Result ArmError CandidateDecision
arm_checked cent candidate bar c (some reason) = ok (unarmed reason)
arm_checked cent candidate bar c none = do
  size ← as_arm (position_size_reference cent one (sizing_inputs candidate bar c))
  ok (arm_sized candidate bar size)

-- `arm_candidate`, at `cent` fine money units to 0.01
unfoldable pub arm_candidate :
    (DateTime → ℕ)
    → ℕ
    → DailySetupCandidate
    → Candle
    → Candle
    → ArmContext
    → Result ArmError CandidateDecision
arm_candidate seoul_day cent candidate first_completed_bar execution_bar c = do
  require_session_open_bar seoul_day first_completed_bar c.session_open_at candidate.signal_session
      candidate.symbol
  require_execution_bar seoul_day execution_bar first_completed_bar c.session_open_at
      candidate.symbol
  arm_checked cent candidate execution_bar c (refusal candidate first_completed_bar execution_bar)

-- `stop_touched` and `pullback_invalidated`; none is the ValueError on a price that is not positive.
unfoldable pub stop_touched : ℤ → ℤ → Option Bool
stop_touched bar_low stop_price =
    if leb_ℤ (min_ℤ bar_low stop_price) (pos 0) then none else some (leb_ℤ bar_low stop_price)

abbrev pub is_pullback : SetupType → Bool
is_pullback pullback = true
is_pullback oversold_reversal = false
is_pullback flow_reversal = false
is_pullback hermes_experimental = false

unfoldable pub pullback_invalidated : ArmedTradePlan → ℤ → Option Bool
pullback_invalidated plan close_price =
    if leb_ℤ close_price (pos 0)
    then none
    else if not (any is_pullback plan.setups)
    then some false
    else some (ltb_ℤ close_price plan.ma50)
