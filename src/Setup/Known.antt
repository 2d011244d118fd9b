-- ===== src/Setup/Known.antt =====
-- What a flow summary of src/toss_trader/setup_screening.py has looked at, what it sums, and what its marks mean.
use mathlib.Core.Option.{some-injective}
use toss_trader.Prelude.{
  ℕ, zero, suc, ◌-◌, ◌≤◌, ◌≡◌, ◌↔◌, refl, ap, Bool, true, false, not, ◌||◌, String, List, [], ◌∷◌,
  ◌++◌, none, some, length, take, drop, any, keep, Picks, keep-Picks, ltb, ok, raise_if-ok,
  ok-injective, if◌then◌else◌, str_eq, arith, subst,
}
use toss_trader.Prelude.Int.{ℤ, pos, ◌+ℤ◌, ◌≤ℤ◌, ◌<ℤ◌, leb_ℤ, int_laws}
use toss_trader.Models.Time.{DateTime, is_naive, instant}
use toss_trader.Setup.Flow.{
  FlowObservation, FlowRatio, FlowSummary, any_pair, skips, is_broken, is_eligible, window_summary,
  summarize_window, summarize_eligible, summarize_flow,
}

-- An observation that was known at the decision, of a session up to the signal's.
abbrev pub IsKnown : ℕ → DateTime → FlowObservation → Type 0
IsKnown signal_session decision_at o =
    (o.session_date ≤ signal_session) × (instant o.available_at ≤ℤ instant decision_at)

eligible-IsKnown :
    (signal_session : ℕ) (decision_at : DateTime) (o : FlowObservation)
    → is_eligible signal_session decision_at o ≡ true
    → IsKnown signal_session decision_at o
eligible-IsKnown signal_session decision_at o h = (ground arith, ground arith)

eligible-not-IsKnown :
    (signal_session : ℕ) (decision_at : DateTime) (o : FlowObservation)
    → is_eligible signal_session decision_at o ≡ false
    → ¬ IsKnown signal_session decision_at o
eligible-not-IsKnown signal_session decision_at o h k = ground (arith, k)

-- The sum of a field over five observations.
abbrev pub five_sum :
    (FlowObservation → ℤ)
    → FlowObservation
    → FlowObservation
    → FlowObservation
    → FlowObservation
    → FlowObservation
    → ℤ
five_sum field a b c d e = field a +ℤ field b +ℤ field c +ℤ field d +ℤ field e

-- A ratio of the sums of a field and of the trading values.
abbrev pub IsRatio :
    FlowRatio
    → (FlowObservation → ℤ)
    → FlowObservation
    → FlowObservation
    → FlowObservation
    → FlowObservation
    → FlowObservation
    → Type 0
IsRatio r field a b c d e =
    (r.numerator ≡ five_sum field a b c d e)
    × (r.denominator ≡ five_sum (λ (o : FlowObservation). o.trading_value) a b c d e)

-- One observation is of the session after another's.
abbrev pub IsNext : FlowObservation → FlowObservation → Type 0
IsNext a b = b.session_index ≡ a.session_index +ℤ pos 1

-- The summary of the last six of the observations that were known at the decision.
pub record IsFlow (signal_session : ℕ) (decision_at : DateTime)
    (observations : List FlowObservation) (s : FlowSummary) : Type 0 where
  pub known : List FlowObservation
  pub earlier : List FlowObservation
  pub first : FlowObservation
  pub second : FlowObservation
  pub third : FlowObservation
  pub fourth : FlowObservation
  pub fifth : FlowObservation
  pub sixth : FlowObservation
  pub picked : Picks (IsKnown signal_session decision_at) observations known
  pub last_six : known ≡ earlier ++ first ∷ second ∷ third ∷ fourth ∷ fifth ∷ sixth ∷ []
  pub consecutive :
      IsNext first second
      × IsNext second third
      × IsNext third fourth
      × IsNext fourth fifth
      × IsNext fifth sixth
  pub previous :
      IsRatio s.previous_5d_ratio
        (λ (o : FlowObservation). o.foreign_net_buy)
        first
        second
        third
        fourth
        fifth
  pub current :
      IsRatio s.current_5d_ratio
        (λ (o : FlowObservation). o.foreign_net_buy)
        second
        third
        fourth
        fifth
        sixth
  pub institutional :
      IsRatio s.institutional_5d_ratio
        (λ (o : FlowObservation). o.institutional_net_buy)
        second
        third
        fourth
        fifth
        sixth
  pub latest : s.latest_session ≡ sixth.session_date
  pub reversal : (s.foreign_reversal ≡ true) ↔ (
      (s.previous_5d_ratio.numerator <ℤ pos 0)
      × (pos 0 <ℤ s.current_5d_ratio.numerator)
      × (pos 0 <ℤ sixth.foreign_net_buy))
  pub confirmed :
      (s.institutional_confirmed ≡ true)
      ↔ ((pos 0 <ℤ s.institutional_5d_ratio.numerator) × (pos 0 <ℤ sixth.institutional_net_buy))

either-false : (a b : Bool) → (a || b) ≡ false → (a ≡ false) × (b ≡ false)
either-false true b h = cc
either-false false b h = (refl, h)

skips-IsNext : (a b : FlowObservation) → skips a b ≡ false → IsNext a b
skips-IsNext a b h = grind (int_laws)

take-drop : (n : ℕ) (xs : List FlowObservation) → xs ≡ take n xs ++ drop n xs
take-drop zero xs = refl
take-drop (suc n) [] = refl
take-drop (suc n) (x ∷ xs) = ap (λ rest. x ∷ rest) (take-drop n xs)

length-drop : (n : ℕ) (xs : List FlowObservation) → length (drop n xs) ≡ length xs - n
length-drop zero xs = omega arith
length-drop (suc n) [] = omega arith
length-drop (suc n) (x ∷ xs) = omega (arith, length-drop n xs)

module _ (bound : ℕ) (at : DateTime) (observations known : List FlowObservation)
    (picked : Picks (IsKnown bound at) observations known) where
  six-IsFlow :
      (earlier window : List FlowObservation) (s : FlowSummary)
      → known ≡ earlier ++ window
      → length window ≡ 6
      → summarize_window window ≡ some s
      → IsFlow bound at observations s
  six-IsFlow earlier [] s e n h = absurd (omega (arith, n))
  six-IsFlow earlier (a ∷ []) s e n h = absurd (omega (arith, n))
  six-IsFlow earlier (a ∷ b ∷ []) s e n h = absurd (omega (arith, n))
  six-IsFlow earlier (a ∷ b ∷ c ∷ []) s e n h = absurd (omega (arith, n))
  six-IsFlow earlier (a ∷ b ∷ c ∷ d ∷ []) s e n h = absurd (omega (arith, n))
  six-IsFlow earlier (a ∷ b ∷ c ∷ d ∷ f ∷ []) s e n h = absurd (omega (arith, n))
  six-IsFlow earlier (a ∷ b ∷ c ∷ d ∷ f ∷ g ∷ x ∷ rest) s e n h = absurd (omega (arith, n))
  six-IsFlow earlier (a ∷ b ∷ c ∷ d ∷ f ∷ g ∷ []) s e n h =
      given (any_pair skips (a ∷ b ∷ c ∷ d ∷ f ∷ g ∷ [])) refl h
    where
      given :
          (skipped : Bool)
          → any_pair skips (a ∷ b ∷ c ∷ d ∷ f ∷ g ∷ []) ≡ skipped
          → (if skipped then none else some (window_summary a (b ∷ c ∷ d ∷ f ∷ g ∷ []))) ≡ some s
          → IsFlow bound at observations s
      given true q k = absurd (cc k)
      given false q k =
          let (ab, q₁) = either-false (skips a b) _ q in
          let (bc, q₂) = either-false (skips b c) _ q₁ in
          let (cd, q₃) = either-false (skips c d) _ q₂ in
          let (df, q₄) = either-false (skips d f) _ q₃ in
          let (fg, _) = either-false (skips f g) _ q₄ in
          subst (IsFlow bound at observations) (some-injective _ _ k) (record {
            known = known;
            earlier = earlier;
            first = a;
            second = b;
            third = c;
            fourth = d;
            fifth = f;
            sixth = g;
            picked = picked;
            last_six = e;
            consecutive = (
              skips-IsNext a b ab,
              skips-IsNext b c bc,
              skips-IsNext c d cd,
              skips-IsNext d f df,
              skips-IsNext f g fg,
            );
            previous = (omega int_laws, omega int_laws);
            current = (omega int_laws, omega int_laws);
            institutional = (omega int_laws, omega int_laws);
            latest = refl;
            reversal = ground arith;
            confirmed = ground arith;
          })

  summarize_eligible-IsFlow :
      (s : FlowSummary) → summarize_eligible known ≡ some s → IsFlow bound at observations s
  summarize_eligible-IsFlow s = given (ltb (length known) 6) refl
    where
      given :
          (few : Bool)
          → ltb (length known) 6 ≡ few
          → (if few then none else summarize_window (drop (length known - 6) known)) ≡ some s
          → IsFlow bound at observations s
      given true q k = absurd (cc k)
      given false q k =
          six-IsFlow (take (length known - 6) known) (drop (length known - 6) known) s
            (take-drop (length known - 6) known)
            (ground (arith, length-drop (length known - 6) known, q)) k

-- A flow summary is made of the last six of the observations that were known at the decision and are of a session up to
-- the signal's, which are of consecutive sessions: its ratios are those of the foreign net buying of the first five and
-- of the last five, and of the institutions' of the last five, to the trading values of the same sessions, and its
-- latest session is that of the sixth; a foreign reversal is marked exactly when foreigners sold on balance over the
-- first five, bought over the last five, and bought in the sixth, and a confirmation exactly when the institutions
-- bought on balance over the last five and in the sixth.
pub summarize_flow-IsFlow :
    (symbol : String) (signal_session : ℕ) (decision_at : DateTime)
    (observations : List FlowObservation) (s : FlowSummary)
    → summarize_flow symbol signal_session decision_at observations ≡ ok (some s)
    → IsFlow signal_session decision_at observations s
unfolding summarize_flow
summarize_flow-IsFlow symbol signal_session decision_at observations s h₀ =
    let (_, h₁) = raise_if-ok (is_naive decision_at) _ _ h₀ in
    let (_, h₂) = raise_if-ok (any (λ o. not (str_eq o.symbol symbol)) observations) _ _ h₁ in
    let (_, h₃) = raise_if-ok (any (λ o. is_naive o.available_at) observations) _ _ h₂ in
    let (_, h₄) = raise_if-ok (any (λ o. leb_ℤ o.trading_value (pos 0)) observations) _ _ h₃ in
    let (_, h₅) = raise_if-ok (any_pair is_broken observations) _ _ h₄ in
    summarize_eligible-IsFlow signal_session decision_at observations
      (keep (is_eligible signal_session decision_at) observations)
      (keep-Picks (IsKnown signal_session decision_at) (is_eligible signal_session decision_at)
        (eligible-IsKnown signal_session decision_at)
        (eligible-not-IsKnown signal_session decision_at) observations)
      s (ok-injective h₅)
