-- ===== src/ExitCounterfactual/Windows.antt =====
-- The running sums of `_indicators` are the sums of the windows.
use toss_trader.Prelude.{
  ℕ, zero, suc, ◌+◌, ◌-◌, ◌≤◌, ◌<◌, ◌≡◌, refl, List, [], ◌∷◌, ◌++◌, Option, none, some, length,
  take, drop, ltb, true, false, Bool-cases, inl, inr, arith, if◌then◌else◌, sym, subst,
}
use toss_trader.Prelude.Int.{ℤ, ◌+ℤ◌, ◌-ℤ◌, int_laws, sum, sum-cons, parts_of_eq}
use toss_trader.Strategy.{Relation}
use toss_trader.ExitCounterfactual.{
  value_at, slice, Sums, advance, relation_at, running_relations, first_sums, repeat_none,
  relations, look_up,
}

sum-take-suc : (n : ℕ) (xs : List ℤ) → sum (take (suc n) xs) ≡ sum (take n xs) +ℤ value_at n xs
sum-take-suc zero [] = omega int_laws
sum-take-suc zero (x ∷ xs) = rw (sum-cons x []) (omega int_laws)
sum-take-suc (suc n) [] = omega int_laws
sum-take-suc (suc n) (x ∷ xs) =
    let ih = parts_of_eq _ _ (sum-take-suc n xs) in
    rw (sum-cons x (take (suc n) xs), sum-cons x (take n xs)) (omega (int_laws, ih))

take-nil : (n : ℕ) → take {A = ℤ} n [] ≡ []
take-nil zero = refl
take-nil (suc n) = refl

-- A window moved by one.
slide :
    (k n : ℕ) (xs : List ℤ)
    → sum (take n (drop (suc k) xs))
      ≡ sum (take n (drop k xs)) +ℤ (value_at (k + n) xs -ℤ value_at k xs)
slide zero n [] = rw (take-nil n) (omega int_laws)
slide zero n (x ∷ xs) =
    let all = parts_of_eq _ _ (sum-cons x (take n xs)) in
    let one_more = parts_of_eq _ _ (sum-take-suc n (x ∷ xs)) in
    let e : 0 + n ≡ n = omega arith in rw e (omega (int_laws, all, one_more))
slide (suc k) n [] = rw (take-nil n) (omega int_laws)
slide (suc k) n (x ∷ xs) = let e : suc k + n ≡ suc (k + n) = omega arith in rw e (slide k n xs)

module _ (closes : List ℤ) (short_window long_window : ℕ) where
  -- The sums of the two windows that end at an index.
  abbrev pub window_sums : ℕ → Sums
  window_sums index = record {
    short_sum = sum (slice (suc index - short_window) short_window closes);
    long_sum = sum (slice (suc index - long_window) long_window closes);
  }

  moved :
      (n index : ℕ)
      → n ≤ index
      → sum (slice (suc index - n) n closes)
        ≡ sum (slice (index - n) n closes) +ℤ (value_at index closes -ℤ value_at (index - n) closes)
  moved n index h =
      let next : suc index - n ≡ suc (index - n) = omega arith in
      let top : (index - n) + n ≡ index = omega arith in
      rw next (
        subst
          (λ i.
            sum (take n (drop (suc (index - n)) closes))
            ≡ sum (slice (index - n) n closes)
              +ℤ (value_at i closes -ℤ value_at (index - n) closes))
          top (slide (index - n) n closes))

  record_eq :
      (a b c d : ℤ)
      → a ≡ c
      → b ≡ d
      → ◌≡◌ {A = Sums}
          (record { short_sum = a; long_sum = b })
          (record { short_sum = c; long_sum = d })
  record_eq a b c d p q = cc

  advance-first :
      0 < long_window
      → advance closes short_window long_window
          (long_window - 1)
          (first_sums closes short_window long_window)
        ≡ window_sums (long_window - 1)
  advance-first h =
      let start : suc (long_window - 1) - long_window ≡ 0 = omega arith in
      let not_later : ltb (long_window - 1) (long_window - 1) ≡ false = ground arith in
      rw (not_later, start) refl

  advance-next :
      (i : ℕ)
      → short_window ≤ long_window
      → long_window ≤ suc i
      → advance closes short_window long_window (suc i) (window_sums i) ≡ window_sums (suc i)
  advance-next i short_le long_le =
      let later : ltb (long_window - 1) (suc i) ≡ true = ground arith in
      rw later (
        record_eq _ _ _ _ (sym (moved short_window (suc i) (omega arith)))
          (sym (moved long_window (suc i) long_le)))

  running-look_up :
      (n index j : ℕ) (s : Sums)
      → short_window ≤ long_window
      → long_window ≤ suc index
      → advance closes short_window long_window index s ≡ window_sums index
      → j < n
      → look_up j (running_relations closes short_window long_window n index s)
        ≡ some (relation_at closes short_window long_window (window_sums (index + j)))
  unfolding running_relations
  running-look_up zero index j s a b e h = absurd (omega arith)
  running-look_up (suc n) index zero s a b e h =
      let same : index + 0 ≡ index = omega arith in rw (same, e) refl
  running-look_up (suc n) index (suc j) s a b e h =
      let next : index + suc j ≡ suc index + j = omega arith in
      rw next (
        running-look_up n (suc index) j (advance closes short_window long_window index s) a
          (omega arith) (rw e (advance-next index a b)) (omega arith))

  look_up-before :
      (k i : ℕ) (xs : List (Option Relation))
      → look_up i (repeat_none closes short_window long_window k ++ xs)
        ≡ (if ltb i k then none else look_up (i - k) xs)
  look_up-before zero i xs = ground arith
  look_up-before (suc k) zero xs = ground arith
  look_up-before (suc k) (suc i) xs = ground (arith, look_up-before k i xs)

  -- Where 0 < short < long, the relation at each index of the candles is none before the long window is full, and from
  -- there on the one of the averages of the two windows that end at the index: the running sums are the windows' sums.
  pub relations-window_sums :
      (index : ℕ)
      → 0 < short_window
      → short_window < long_window
      → index < length closes
      → look_up index (relations closes short_window long_window) ≡ (
          if ltb index (long_window - 1)
          then none
          else some (relation_at closes short_window long_window (window_sums index)))
  unfolding relations
  relations-window_sums index positive less within =
      rw
        (look_up-before (long_window - 1) index (
          running_relations closes short_window long_window (suc (length closes) - long_window)
            (long_window - 1) (first_sums closes short_window long_window)))
        (elim (Bool-cases (ltb index (long_window - 1))) [
          | inl early ↦ rw early refl
          | inr later ↦
              let at : (long_window - 1) + (index - (long_window - 1)) ≡ index = ground arith in
              rw later (
                subst
                  (λ i.
                    look_up (index - (long_window - 1)) (
                      running_relations closes short_window long_window
                        (suc (length closes) - long_window) (long_window - 1)
                        (first_sums closes short_window long_window))
                    ≡ some (relation_at closes short_window long_window (window_sums i)))
                  at
                  (running-look_up (suc (length closes) - long_window) (long_window - 1)
                    (index - (long_window - 1)) (first_sums closes short_window long_window)
                    (omega arith) (omega arith) (advance-first (omega arith)) (ground arith)))
        ])
