-- ===== src/Sizing/Loop.antt =====
-- The `while` loop of `position_size_reference`: what it stops at.
use toss_trader.Prelude.{
  ℕ, zero, suc, ◌≤◌, ◌<◌, ◌≡◌, ◌⊎◌, inl, inr, refl, Bool, true, false, if◌then◌else◌, ◌==◌, ==_iff,
  arith, sym, ap, subst, ◌∙◌, Bool-cases, Result, ok, >>=-ok, ok-injective,
}
use toss_trader.Sizing.{SizingError, shrink, final_costs, within, reduce, Reduced}

abbrev pub Fits : ℕ → ℕ → ℕ × ℕ → Type 0
Fits budget cash c = (c.0 ≤ budget) × (c.1 ≤ cash)

within_iff : (budget cash : ℕ) (c : ℕ × ℕ) → within budget cash c ≡ true → Fits budget cash c
within_iff budget cash (heat, required) h = (ground arith, ground arith)

abbrev StepCases : (ℕ → Result SizingError (ℕ × ℕ)) → ℕ → ℕ → ℕ → Reduced → ℕ × Reduced → Type 0
StepCases risk budget cash n r left =
    (c : ℕ × ℕ) × (risk (suc n) ≡ ok c)
    × (((within budget cash c ≡ true) × ((suc n, r) ≡ left))
        ⊎ ((within budget cash c ≡ false)
            × (shrink risk budget cash n (reduce budget cash c r) ≡ ok left)))

elim_if {ℓ} :
    {A : Type ℓ} (b : Bool) (x y : A)
    → (elim b as (λ _. A) [ true ↦ x | false ↦ y ]) ≡ (if b then x else y)
elim_if true x y = refl
elim_if false x y = refl

shrink-suc :
    (risk : ℕ → Result SizingError (ℕ × ℕ)) (budget cash n : ℕ) (r : Reduced) (c : ℕ × ℕ)
    → risk (suc n) ≡ ok c
    → shrink risk budget cash (suc n) r ≡ (
        if within budget cash c
        then ok (suc n, r)
        else shrink risk budget cash n (reduce budget cash c r))
unfolding shrink
shrink-suc risk budget cash n r c e = rw e (
    elim_if (within budget cash c) (ok (suc n, r))
      (shrink risk budget cash n (reduce budget cash c r)))

if-cases {ℓ} :
    {A : Type ℓ} (b : Bool) (x y z : A)
    → (if b then x else y) ≡ z
    → ((b ≡ true) × (x ≡ z)) ⊎ ((b ≡ false) × (y ≡ z))
if-cases true x y z h = inl (refl, h)
if-cases false x y z h = inr (refl, h)

first_risk :
    (risk : ℕ → Result SizingError (ℕ × ℕ)) (budget cash n : ℕ) (r : Reduced) (left : ℕ × Reduced)
    → shrink risk budget cash (suc n) r ≡ ok left
    → (c : ℕ × ℕ) × (risk (suc n) ≡ ok c)
unfolding shrink
first_risk risk budget cash n r left h = let (c, e, k) = >>=-ok (risk (suc n)) _ h in (c, e)

step_cases :
    (risk : ℕ → Result SizingError (ℕ × ℕ)) (budget cash n : ℕ) (r : Reduced) (left : ℕ × Reduced)
    (c : ℕ × ℕ)
    → (((within budget cash c ≡ true)
          × (◌≡◌ {A = Result SizingError (ℕ × Reduced)} (ok (suc n, r)) (ok left)))
        ⊎ ((within budget cash c ≡ false)
            × (shrink risk budget cash n (reduce budget cash c r) ≡ ok left)))
    → ((within budget cash c ≡ true) × ((suc n, r) ≡ left))
      ⊎ ((within budget cash c ≡ false)
          × (shrink risk budget cash n (reduce budget cash c r) ≡ ok left))
step_cases risk budget cash n r left c (inl (w, k)) = inl (w, ok-injective k)
step_cases risk budget cash n r left c (inr k) = inr k

shrink-cases :
    (risk : ℕ → Result SizingError (ℕ × ℕ)) (budget cash n : ℕ) (r : Reduced) (left : ℕ × Reduced)
    → shrink risk budget cash (suc n) r ≡ ok left
    → StepCases risk budget cash n r left
shrink-cases risk budget cash n r left h =
    let (c, e) = first_risk risk budget cash n r left h in
    (
      c,
      e,
      step_cases risk budget cash n r left c
          (if-cases (within budget cash c) _ _ _ (sym (shrink-suc risk budget cash n r c e) ∙ h)),
    )

final-Fits :
    (risk : ℕ → Result SizingError (ℕ × ℕ)) (budget cash n : ℕ) (c d : ℕ × ℕ)
    → risk (suc n) ≡ ok c
    → within budget cash c ≡ true
    → final_costs risk (suc n) ≡ ok d
    → Fits budget cash d
unfolding final_costs
final-Fits risk budget cash n c d e w h =
    subst (Fits budget cash) (ok-injective (sym e ∙ h)) (within_iff budget cash c w)

abbrev Fitting : (ℕ → Result SizingError (ℕ × ℕ)) → ℕ → ℕ → ℕ → ℕ × Reduced → Type 0
Fitting risk budget cash n left =
    (left.0 ≤ n) × ((c : ℕ × ℕ) → final_costs risk left.0 ≡ ok c → Fits budget cash c)

fitting :
    (risk : ℕ → Result SizingError (ℕ × ℕ)) (budget cash n : ℕ) (r : Reduced) (left : ℕ × Reduced)
    → ((r : Reduced) → shrink risk budget cash n r ≡ ok left → Fitting risk budget cash n left)
    → StepCases risk budget cash n r left
    → Fitting risk budget cash (suc n) left
fitting risk budget cash n r left rec (c, e, inl (w, l)) =
    subst (Fitting risk budget cash (suc n)) l
      (omega arith, λ d k. final-Fits risk budget cash n c d e w k)
fitting risk budget cash n r left rec (c, e, inr (w, k)) =
    let (le, fits) = rec (reduce budget cash c r) k in (omega (arith, le), fits)

-- What the loop leaves is at most what it started from, and it fits.
pub shrink-Fits :
    (risk : ℕ → Result SizingError (ℕ × ℕ)) (budget cash n : ℕ) (r : Reduced) (left : ℕ × Reduced)
    → shrink risk budget cash n r ≡ ok left
    → (left.0 ≤ n) × ((c : ℕ × ℕ) → final_costs risk left.0 ≡ ok c → Fits budget cash c)
unfolding shrink final_costs
shrink-Fits risk budget cash zero r left h =
    subst (Fitting risk budget cash 0) (ok-injective h)
      (omega arith, λ c e. subst (Fits budget cash) (ok-injective e) (omega arith, omega arith))
shrink-Fits risk budget cash (suc n) r left h =
    fitting risk budget cash n r left (λ q. shrink-Fits risk budget cash n q left)
      (shrink-cases risk budget cash n r left h)

abbrev Failing : (ℕ → Result SizingError (ℕ × ℕ)) → ℕ → ℕ → ℕ → ℕ × Reduced → Type 0
Failing risk budget cash n left =
    (k : ℕ) → left.0 < k → k ≤ n → (c : ℕ × ℕ) → risk k ≡ ok c → within budget cash c ≡ false

failing :
    (risk : ℕ → Result SizingError (ℕ × ℕ)) (budget cash n : ℕ) (r : Reduced) (left : ℕ × Reduced)
    → ((r : Reduced) → shrink risk budget cash n r ≡ ok left → Failing risk budget cash n left)
    → StepCases risk budget cash n r left
    → Failing risk budget cash (suc n) left
failing risk budget cash n r left rec (d, f, inl (w, l)) k lt le c e =
    absurd (omega (arith, lt, le, ap (λ (x : ℕ × Reduced). x.0) l))
failing risk budget cash n r left rec (d, f, inr (w, s)) k lt le c e =
    elim (Bool-cases (k == suc n)) [
      | inl same ↦
          subst (λ x. within budget cash x ≡ false)
            (ok-injective (sym f ∙ sym (ap risk ((==_iff k (suc n)).0 same)) ∙ e)) w
      | inr differs ↦ rec (reduce budget cash d r) s k lt (ground (arith, le, differs)) c e
    ]

-- A larger quantity, up to the first, does not fit.
pub shrink-largest :
    (risk : ℕ → Result SizingError (ℕ × ℕ)) (budget cash n : ℕ) (r : Reduced) (left : ℕ × Reduced)
    → shrink risk budget cash n r ≡ ok left
    → (k : ℕ) → left.0 < k
    → k ≤ n
    → (c : ℕ × ℕ) → risk k ≡ ok c
    → within budget cash c ≡ false
unfolding shrink
shrink-largest risk budget cash zero r left h k lt le c e = absurd (omega (arith, lt, le))
shrink-largest risk budget cash (suc n) r left h k lt le c e =
    failing risk budget cash n r left (λ q. shrink-largest risk budget cash n q left)
      (shrink-cases risk budget cash n r left h) k lt le c e

-- The loop returns when every round trip does.
pub shrink-returns :
    (risk : ℕ → Result SizingError (ℕ × ℕ)) (budget cash n : ℕ) (r : Reduced)
    → ((k : ℕ) → 0 < k → (c : ℕ × ℕ) × (risk k ≡ ok c))
    → (left : ℕ × Reduced) × (shrink risk budget cash n r ≡ ok left)
unfolding shrink
shrink-returns risk budget cash zero r returns = ((0, r), refl)
shrink-returns risk budget cash (suc n) r returns =
    let (c, e) = returns (suc n) (omega arith) in
    elim (Bool-cases (within budget cash c)) [
      | inl w ↦ ((suc n, r), shrink-suc risk budget cash n r c e ∙ rw w refl)
      | inr w ↦
          let (left, k) = shrink-returns risk budget cash n (reduce budget cash c r) returns in
          (left, shrink-suc risk budget cash n r c e ∙ rw w k)
    ]
