-- ===== src/Setup/Approval.antt =====
-- What an approved setup, and one that is armed for reference only, have passed.
use toss_trader.Prelude.{
  ◌*◌, ◌<◌, ◌≡◌, ◌↔◌, refl, Bool, true, false, not, ◌&&◌, List, [], ◌∷◌, Option, none, some, any,
  is_some, All, arith, if◌then◌else◌, Bool-cases, ◌⊎◌, inl, inr,
}
use toss_trader.Setup.{
  PriceFacts, FlowFacts, SetupContext, Judgement, SetupViolation, kept, violations, missing_checks,
  violation_tests, missing_tests, is_true, is_empty, evaluate_setup, hermes_experimental_can_arm,
  all_setups, is_price_setup, near_stop, is_reference_violation,
}

-- A setup without a violation and with every check made.
pub record IsSetup (price : PriceFacts) (flow : Option FlowFacts) (c : SetupContext) : Type 0 where
  pub price_setup : any is_price_setup (all_setups price flow) ≡ true
  pub calm : price.rsi14 < 700_000
  pub steady : 97 * price.previous_close < 100 * price.current
  pub above_stop : near_stop price.current c.stop_price ≡ false
  pub single : c.averaging_down ≡ false
  pub flow_known : is_some flow ≡ true
  pub no_event : c.event_imminent ≡ some false
  pub no_gap : c.gap_up_chase ≡ some false

abbrev Silent {ℓ} : {A : Type ℓ} → Bool × A → Type 0
Silent (test, a) = test ≡ false

kept-empty {ℓ} :
    {A : Type ℓ} (tests : List (Bool × A)) → is_empty (kept tests) ≡ true → All Silent tests
kept-empty [] h = tt
kept-empty ((true, a) ∷ tests) h = cc h
kept-empty ((false, a) ∷ tests) h = (refl, kept-empty tests h)

kept-Silent {ℓ} :
    {A : Type ℓ} (tests : List (Bool × A)) → All Silent tests → is_empty (kept tests) ≡ true
kept-Silent [] h = refl
kept-Silent ((true, a) ∷ tests) h = cc h.0
kept-Silent ((false, a) ∷ tests) h = kept-Silent tests h.1

both : (a b : Bool) → (a && b) ≡ true → (a ≡ true) × (b ≡ true)
both true b h = (refl, h)
both false b h = cc h

and_both : (a b : Bool) → a ≡ true → b ≡ true → (a && b) ≡ true
and_both a b h k = rw h k

is_false : (o : Option Bool) → is_true o ≡ false → not (is_some o) ≡ false → o ≡ some false
is_false none h k = cc
is_false (some true) h k = cc
is_false (some false) h k = refl

not-false : (b : Bool) → not b ≡ false → b ≡ true
not-false true h = refl
not-false false h = cc

not-true : (b : Bool) → b ≡ true → not b ≡ false
not-true true h = refl
not-true false h = cc

reviewed : (o : Option Bool) → o ≡ some false → is_true o ≡ false
reviewed o h = rw h refl

made : (o : Option Bool) → o ≡ some false → not (is_some o) ≡ false
made o h = rw h refl

-- A setup is approved exactly when it has a price setup, its RSI is below 70, its close fell by less than 3%, it is clear of
-- its stop, it does not average down, its flows are known, and the event and gap reviews were made and found nothing.
pub evaluate_setup-approved_iff :
    (price : PriceFacts) (flow : Option FlowFacts) (c : SetupContext)
    → ((evaluate_setup price flow c).approved ≡ true) ↔ IsSetup price flow c
unfolding evaluate_setup
evaluate_setup-approved_iff price flow c = (there, back)
  where
    there : (evaluate_setup price flow c).approved ≡ true → IsSetup price flow c
    there h =
        let (v, m) =
          both (is_empty (violations price flow c)) (is_empty (missing_checks flow c)) h in
        let (v₀, (v₁, (v₂, (v₃, (v₄, (v₅, (v₆, _))))))) =
          kept-empty (violation_tests price flow c) v in
        let (m₀, (m₁, (m₂, _))) = kept-empty (missing_tests flow c) m in
        record {
          price_setup = not-false (any is_price_setup (all_setups price flow)) v₀;
          calm = ground (arith, v₁);
          steady = ground (arith, v₂);
          above_stop = v₃;
          single = v₄;
          flow_known = not-false (is_some flow) m₀;
          no_event = is_false c.event_imminent v₅ m₁;
          no_gap = is_false c.gap_up_chase v₆ m₂;
        }

    back : IsSetup price flow c → (evaluate_setup price flow c).approved ≡ true
    back s =
        and_both (is_empty (violations price flow c)) (is_empty (missing_checks flow c))
          (kept-Silent (violation_tests price flow c) (
            not-true (any is_price_setup (all_setups price flow)) s.price_setup,
            (
              ground (arith, s.calm),
              (
                ground (arith, s.steady),
                (
                  s.above_stop,
                  (
                    s.single,
                    (reviewed c.event_imminent s.no_event, (reviewed c.gap_up_chase s.no_gap, tt)),
                  ),
                ),
              ),
            ),
          ))
          (kept-Silent (missing_tests flow c) (
            not-true (is_some flow) s.flow_known,
            (made c.event_imminent s.no_event, (made c.gap_up_chase s.no_gap, tt)),
          ))

-- A test for a violation that is no reference violation, when all that were kept are.
kept-reference :
    (tests : List (Bool × SetupViolation))
    → any (λ v. not (is_reference_violation v)) (kept tests) ≡ false
    → All (λ t. is_reference_violation t.1 ≡ false → t.0 ≡ false) tests
kept-reference [] h = tt
kept-reference ((true, v) ∷ tests) h = elim (Bool-cases (is_reference_violation v)) [
  | inl reference ↦ (λ e. cc (reference, e), kept-reference tests (ground (arith, reference, h)))
  | inr other ↦ absurd (ground (arith, other, h))
]
kept-reference ((false, v) ∷ tests) h = (λ _. refl, kept-reference tests h)

-- What an arming for reference never passes over.
abbrev IsReviewed : PriceFacts → Option FlowFacts → SetupContext → Type 0
IsReviewed price flow c =
    (c.event_imminent ≡ some false)
    × (c.gap_up_chase ≡ some false)
    × (c.averaging_down ≡ false)
    × (near_stop price.current c.stop_price ≡ false)
    × (is_some flow ≡ true)

reference-IsReviewed :
    (price : PriceFacts) (flow : Option FlowFacts) (c : SetupContext)
    → is_empty (missing_checks flow c) ≡ true
    → any (λ v. not (is_reference_violation v)) (violations price flow c) ≡ false
    → IsReviewed price flow c
reference-IsReviewed price flow c m v =
    let (_, (_, (_, (v₃, (v₄, (v₅, (v₆, _))))))) =
      kept-reference (violation_tests price flow c) v in
    let (m₀, (m₁, (m₂, _))) = kept-empty (missing_tests flow c) m in
    (
      is_false c.event_imminent (v₅ refl) m₁,
      is_false c.gap_up_chase (v₆ refl) m₂,
      v₄ refl,
      v₃ refl,
      not-false (is_some flow) m₀,
    )

arm_tests :
    (approved complete broken : Bool)
    → (if approved then true else if not complete then false else not broken) ≡ true
    → (approved ≡ true) ⊎ ((complete ≡ true) × (broken ≡ false))
arm_tests true complete broken h = inl refl
arm_tests false true true h = cc h
arm_tests false true false h = inr (refl, refl)
arm_tests false false broken h = cc h

can_arm-cases :
    (j : Judgement)
    → hermes_experimental_can_arm j ≡ true
    → (j.approved ≡ true)
      ⊎ ((is_empty j.missing_checks ≡ true)
          × (any (λ v. not (is_reference_violation v)) j.violations ≡ false))
unfolding hermes_experimental_can_arm
can_arm-cases j h =
    arm_tests j.approved (is_empty j.missing_checks)
      (any (λ v. not (is_reference_violation v)) j.violations) h

-- A setup that may be armed for reference has its flows known and its event and gap reviews made, and they found nothing; it
-- does not average down and is clear of its stop. Only the price setup, the RSI and the fall of the close may be passed over.
pub hermes_experimental_can_arm-reviewed :
    (price : PriceFacts) (flow : Option FlowFacts) (c : SetupContext)
    → hermes_experimental_can_arm (evaluate_setup price flow c) ≡ true
    → (c.event_imminent ≡ some false)
      × (c.gap_up_chase ≡ some false)
      × (c.averaging_down ≡ false)
      × (near_stop price.current c.stop_price ≡ false)
      × (is_some flow ≡ true)
unfolding evaluate_setup
hermes_experimental_can_arm-reviewed price flow c h =
    elim (can_arm-cases (evaluate_setup price flow c) h) [
      | inl approved ↦
          let s = (evaluate_setup-approved_iff price flow c).0 approved in
          (s.no_event, s.no_gap, s.single, s.above_stop, s.flow_known)
      | inr reference ↦ reference-IsReviewed price flow c reference.0 reference.1
    ]
