-- ===== src/Engine/Atr.antt =====
-- The average true range lies between the ranges it averages.
use native.Mathlib.Nat.{mul-le-mul_right}
use toss_trader.Prelude.{
  ℕ, suc, zero, ◌+◌, ◌-◌, ◌*◌, ◌≤◌, ◌<◌, ◌≡◌, refl, List, [], ◌∷◌, length, take, drop, All, arith,
  ok, raise_if-ok, ok-injective, ltb, subst, ap, false,
}
use toss_trader.Prelude.Int.{ℤ, pos, pos_part, leb_ℤ}
use toss_trader.Models.Candle.{Candle}
use toss_trader.Engine.{wilder_atr, smooth, true_ranges, sum_ℕ}

-- A division that keeps to the bounds that the dividend allows.
abbrev pub KeepsBounds : (ℕ → ℕ → ℕ) → Type 0
KeepsBounds divide =
    (x n low high : ℕ)
    → 0 < n
    → low * n ≤ x
    → x ≤ high * n
    → (low ≤ divide x n) × (divide x n ≤ high)

abbrev pub Within : ℕ → ℕ → ℕ → Type 0
Within low high x = (low ≤ x) × (x ≤ high)

positive_period : (z : ℤ) → leb_ℤ z (pos 0) ≡ false → 0 < pos_part z
positive_period z h = ground arith

not_ltb : (a b : ℕ) → ltb a b ≡ false → b ≤ a
not_ltb a b h = ground arith

All-take :
    (low high n : ℕ) (xs : List ℕ) → All (Within low high) xs → All (Within low high) (take n xs)
All-take low high zero xs h = tt
All-take low high (suc n) [] h = tt
All-take low high (suc n) (x ∷ xs) h = (h.0, All-take low high n xs h.1)

All-drop :
    (low high n : ℕ) (xs : List ℕ) → All (Within low high) xs → All (Within low high) (drop n xs)
All-drop low high zero xs h = h
All-drop low high (suc n) [] h = tt
All-drop low high (suc n) (x ∷ xs) h = All-drop low high n xs h.1

length-take : (n : ℕ) (xs : List ℕ) → n ≤ length xs → length (take n xs) ≡ n
length-take zero xs h = refl
length-take (suc n) [] h = absurd (omega (arith, h))
length-take (suc n) (x ∷ xs) h = omega (arith, length-take n xs (omega (arith, h)))

sum-Within :
    (low high : ℕ) (xs : List ℕ)
    → All (Within low high) xs
    → (low * length xs ≤ sum_ℕ xs) × (sum_ℕ xs ≤ high * length xs)
sum-Within low high [] h = (omega arith, omega arith)
sum-Within low high (x ∷ xs) h =
    let (a, b) = sum-Within low high xs h.1 in (omega (arith, a, h.0.0), omega (arith, b, h.0.1))

-- The smoothed total of a period keeps to the bounds of what it adds.
weighted-Within :
    (low high n average x : ℕ)
    → 0 < n
    → Within low high average
    → Within low high x
    → (low * n ≤ average * (n - 1) + x) × (average * (n - 1) + x ≤ high * n)
weighted-Within low high n average x p a b =
    let whole = ap (λ k. low * k) (pred_suc n p) in
    let whole' = ap (λ k. high * k) (pred_suc n p) in
    (
      omega (arith, whole, b.0, mul-le-mul_right (n - 1) a.0),
      omega (arith, whole', b.1, mul-le-mul_right (n - 1) a.1),
    )
  where
    pred_suc : (n : ℕ) → 0 < n → n ≡ (n - 1) + 1
    pred_suc n p = omega (arith, p)

smooth-Within :
    (divide : ℕ → ℕ → ℕ) (low high n average : ℕ) (xs : List ℕ)
    → KeepsBounds divide
    → 0 < n
    → Within low high average
    → All (Within low high) xs
    → Within low high (smooth divide n average xs)
unfolding smooth
smooth-Within divide low high n average [] keeps p a h = a
smooth-Within divide low high n average (x ∷ xs) keeps p a h =
    let (lower, upper) = weighted-Within low high n average x p a h.0 in
    smooth-Within divide low high n (divide (average * (n - 1) + x) n) xs keeps p
      (keeps (average * (n - 1) + x) n low high p lower upper) h.1

-- When the division keeps to the bounds that its dividend allows, an average true range lies within any bounds
-- that all the true ranges lie in.
pub wilder_atr-Within :
    (divide : ℕ → ℕ → ℕ) (candles : List Candle) (period : ℤ) (atr low high : ℕ)
    → KeepsBounds divide
    → wilder_atr divide candles period ≡ ok atr
    → All (Within low high) (true_ranges candles)
    → Within low high atr
unfolding wilder_atr
wilder_atr-Within divide candles period atr low high keeps h ranges =
    let n = pos_part period in
    let (period_ok, h₁) = raise_if-ok (leb_ℤ period (pos 0)) _ _ h in
    let (_, h₂) = raise_if-ok (ltb (length candles) (n + 1)) _ _ h₁ in
    let (enough, h₃) = raise_if-ok (ltb (length (true_ranges candles)) n) _ _ h₂ in
    let p = positive_period period period_ok in
    let (lower, upper) =
      sum-Within low high (take n (true_ranges candles))
        (All-take low high n (true_ranges candles) ranges) in
    let counted =
      length-take n (true_ranges candles) (not_ltb (length (true_ranges candles)) n enough) in
    subst (Within low high) (ok-injective h₃) (
      smooth-Within divide low high n (divide (sum_ℕ (take n (true_ranges candles))) n)
        (drop n (true_ranges candles)) keeps p
        (keeps (sum_ℕ (take n (true_ranges candles))) n low high p
          (subst (λ k. low * k ≤ sum_ℕ (take n (true_ranges candles))) counted lower)
          (subst (λ k. sum_ℕ (take n (true_ranges candles)) ≤ high * k) counted upper))
        (All-drop low high n (true_ranges candles) ranges))
