-- ===== src/Engine/Armed.antt =====
-- What an armed plan promises.
use toss_trader.Prelude.{
  ◌+◌, ◌-◌, ℕ, ◌*◌, ◌≤◌, ◌<◌, ◌≡◌, refl, true, false, Option, none, some, arith, subst, sym, Result,
  ok, err, >>=-ok, ok-injective,
}
use toss_trader.Prelude.Int.{pos, pos_part, ◌<ℤ◌}
use toss_trader.Models.Time.{DateTime}
use toss_trader.Models.Candle.{Candle}
use toss_trader.Sizing.{
  larger, effective_distance, SizingError, PositionSizeReference, basis, usable, entry_price,
  position_size_reference,
}
use toss_trader.Sizing.Sound.{position_size_reference-bounds, position_size_reference-stop}
use toss_trader.Engine.{
  DailySetupCandidate, ArmedTradePlan, ArmContext, ArmReason, CandidateDecision, arm_candidate,
  arm_checked, arm_sized, refusal, sizing_inputs, one, as_arm, gaps_up, bad_stop,
  require_session_open_bar, require_execution_bar,
}

-- A plan that the candidate and the bars allow.
pub record IsArmed (candidate : DailySetupCandidate) (first_bar bar : Candle) (c : ArmContext)
    (p : ArmedTradePlan) : Type 0 where
  pub approved : candidate.decision.approved ≡ true
  pub no_chase : gaps_up first_bar.open_price candidate.close_price ≡ false
  pub low_positive : pos 0 <ℤ candidate.setup_low
  pub low_below_open : candidate.setup_low <ℤ first_bar.open_price
  pub low_below_reference : candidate.setup_low <ℤ bar.close_price
  pub quantity : 0 < p.quantity
  pub heat : p.planned_heat ≤ usable (basis one (sizing_inputs candidate bar c))
  pub order_size :
      p.quantity * p.entry_price ≤ (basis one (sizing_inputs candidate bar c)).max_order_notional
  pub stop_positive : 0 < p.stop_price
  pub stop_below_low : p.stop_price ≤ pos_part candidate.setup_low * one * one
  pub stop_below_entry : p.stop_price < p.entry_price
  pub symbol : p.symbol ≡ candidate.symbol

refusal-none :
    (candidate : DailySetupCandidate) (first_bar bar : Candle)
    → refusal candidate first_bar bar ≡ none
    → (candidate.decision.approved ≡ true)
      × (gaps_up first_bar.open_price candidate.close_price ≡ false)
      × (bad_stop candidate.setup_low first_bar.open_price bar.close_price ≡ false)
unfolding refusal
refusal-none candidate first_bar bar h = ground arith

arm_sized-some :
    (candidate : DailySetupCandidate) (bar : Candle) (size : PositionSizeReference)
    (p : ArmedTradePlan)
    → (arm_sized candidate bar size).plan ≡ some p
    → (0 < p.quantity)
      × (p.quantity ≡ size.quantity)
      × (p.planned_heat ≡ size.planned_heat)
      × (p.entry_price ≡ entry_price one size.basis)
      × (p.symbol ≡ candidate.symbol)
      × (p.stop_price ≡ (size.basis.reference_price - effective_distance size.basis) * one)
arm_sized-some candidate bar size p h = ground arith

-- A stop at a distance from the price lies between 0 and the setup's low, and below the entry.
stop_holds :
    (price low distance : ℕ)
    → low < price
    → (price - low) * one ≤ distance
    → distance < price * one
    → (0 < (price * one - distance) * one)
      × ((price * one - distance) * one ≤ low * one * one)
      × ((price * one - distance) * one < price * one * (one + 5))
stop_holds price low distance b s d = (omega (arith, d), omega (arith, b, s), omega (arith, b))

larger-left : (a b : ℕ) → a ≤ larger a b
larger-left a b = ground arith

arm_sized-IsArmed :
    (cent : ℕ) (candidate : DailySetupCandidate) (first_bar bar : Candle) (c : ArmContext)
    (size : PositionSizeReference) (p : ArmedTradePlan)
    → refusal candidate first_bar bar ≡ none
    → position_size_reference cent one (sizing_inputs candidate bar c) ≡ ok size
    → (arm_sized candidate bar size).plan ≡ some p
    → IsArmed candidate first_bar bar c p
arm_sized-IsArmed cent candidate first_bar bar c size p r s h =
    let (approved, no_chase, stop) = refusal-none candidate first_bar bar r in
    let (positive, quantity, heat, entry, symbol, stop_at) =
      arm_sized-some candidate bar size p h in
    let (heat_le, _, order_le, at) =
      position_size_reference-bounds cent one (sizing_inputs candidate bar c) size s in
    let far = position_size_reference-stop cent one (sizing_inputs candidate bar c) size s in
    let (stop₀, stop₁, stop₂) =
      stop_holds (pos_part bar.close_price) (pos_part candidate.setup_low) _ (ground (arith, stop))
        (larger-left (basis one (sizing_inputs candidate bar c)).structural_distance
          (basis one (sizing_inputs candidate bar c)).atr_floor)
        far in
    record {
      approved = approved;
      no_chase = no_chase;
      low_positive = ground (arith, stop);
      low_below_open = ground (arith, stop);
      low_below_reference = ground (arith, stop);
      quantity = positive;
      heat = rw heat heat_le;
      order_size = rw (quantity, entry, at) order_le;
      stop_positive = rw (stop_at, at) stop₀;
      stop_below_low = rw (stop_at, at) stop₁;
      stop_below_entry = rw (stop_at, entry, at) stop₂;
      symbol = symbol;
    }

as_arm-ok {ℓ} : {A : Type ℓ} (m : Result SizingError A) (a : A) → as_arm m ≡ ok a → m ≡ ok a
as_arm-ok (ok b) a h = cc h
as_arm-ok (err e) a h = cc h

arm_checked-IsArmed :
    (cent : ℕ) (candidate : DailySetupCandidate) (first_bar bar : Candle) (c : ArmContext)
    (o : Option ArmReason) (d : CandidateDecision) (p : ArmedTradePlan)
    → refusal candidate first_bar bar ≡ o
    → arm_checked cent candidate bar c o ≡ ok d
    → d.plan ≡ some p
    → IsArmed candidate first_bar bar c p
arm_checked-IsArmed cent candidate first_bar bar c (some reason) d p r h e =
    absurd
      (none_some p (subst (λ (x : CandidateDecision). x.plan ≡ some p) (sym (ok-injective h)) e))
  where
    none_some : (p : ArmedTradePlan) → ◌≡◌ {A = Option ArmedTradePlan} none (some p) → ⊥
    none_some p k = cc k
arm_checked-IsArmed cent candidate first_bar bar c none d p r h e =
    let made = position_size_reference cent one (sizing_inputs candidate bar c) in
    let (size, s, k) =
      >>=-ok (as_arm made) (λ (size : PositionSizeReference). ok (arm_sized candidate bar size))
        h in
    arm_sized-IsArmed cent candidate first_bar bar c size p r (as_arm-ok made size s)
      (subst (λ (x : CandidateDecision). x.plan ≡ some p) (sym (ok-injective k)) e)

-- A candidate is armed only if its setup was approved, the session did not open 3% up on its close, and its setup's low
-- is positive and below both the opening price and the price it is bought at; its plan has a positive
-- quantity of the candidate's symbol, plans no more heat than the sizing's usable budget, is no
-- larger than an order may be, and has a stop that is positive, not above that low, and below its entry.
pub arm_candidate-IsArmed :
    (seoul_day : DateTime → ℕ) (cent : ℕ) (candidate : DailySetupCandidate) (first_bar bar : Candle)
    (c : ArmContext) (d : CandidateDecision) (p : ArmedTradePlan)
    → arm_candidate seoul_day cent candidate first_bar bar c ≡ ok d
    → d.plan ≡ some p
    → IsArmed candidate first_bar bar c p
unfolding arm_candidate
arm_candidate-IsArmed seoul_day cent candidate first_bar bar c d p h e =
    let (_, _, h₁) =
      >>=-ok
        (require_session_open_bar seoul_day first_bar c.session_open_at candidate.signal_session
          candidate.symbol)
        _ h in
    let (_, _, h₂) =
      >>=-ok (require_execution_bar seoul_day bar first_bar c.session_open_at candidate.symbol) _
        h₁ in
    arm_checked-IsArmed cent candidate first_bar bar c (refusal candidate first_bar bar) d p refl h₂
      e
