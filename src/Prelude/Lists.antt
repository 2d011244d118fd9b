-- ===== src/Prelude/Lists.antt =====
-- Lists measured by native numbers, and predicates on them.
use Prim.Native.Nat.{ℕ, zero, suc, ◌+◌, ◌≤◌}
use mathlib.Core.Path.{◌≡◌}
use mathlib.Core.Bool.{Bool, true, false}
use mathlib.Core.List.{List, [], ◌∷◌, ◌++◌}
use native.Mathlib.Omega.{arith}
use mathlib.Core.Logic.{inl, inr}
use toss_trader.Prelude.Tests.{if◌then◌else◌, Bool-cases}

module _ {ℓ} {A : Type ℓ} where
  abbrev pub length : List A → ℕ
  length [] = 0
  length (x ∷ xs) = suc (length xs)

  abbrev pub take : ℕ → List A → List A
  take zero xs = []
  take (suc n) [] = []
  take (suc n) (x ∷ xs) = x ∷ take n xs

  abbrev pub drop : ℕ → List A → List A
  drop zero xs = xs
  drop (suc n) [] = []
  drop (suc n) (x ∷ xs) = drop n xs

  -- Python's `any(test(x) for x in xs)`.
  abbrev pub any : (A → Bool) → List A → Bool
  any test [] = false
  any test (x ∷ xs) = if test x then true else any test xs

  -- Python's `[x for x in xs if test(x)]`.
  abbrev pub keep : (A → Bool) → List A → List A
  keep test [] = []
  keep test (x ∷ xs) = if test x then x ∷ keep test xs else keep test xs

  -- Every element of a list has a property.
  abbrev pub All {κ} : (A → Type κ) → List A → Type κ
  All P [] = Unit
  All P (x ∷ xs) = P x × All P xs

  -- Some element of a list has a property.
  pub data Some {κ} (P : A → Type κ) : List A → Type (ℓ ⊔ κ) where
    here : {x : A} {xs : List A} → P x → Some P (x ∷ xs)
    there : {x : A} {xs : List A} → Some P xs → Some P (x ∷ xs)

  pub Some-left {κ} : (P : A → Type κ) (xs ys : List A) → Some P xs → Some P (xs ++ ys)
  Some-left P [] ys h = elim h [ ]
  Some-left P (x ∷ xs) ys (Some.here p) = Some.here p
  Some-left P (x ∷ xs) ys (Some.there h) = Some.there (Some-left P xs ys h)

  pub Some-right {κ} : (P : A → Type κ) (xs ys : List A) → Some P ys → Some P (xs ++ ys)
  Some-right P [] ys h = h
  Some-right P (x ∷ xs) ys h = Some.there (Some-right P xs ys h)

  pub All-map {κ μ} :
      {P : A → Type κ} {Q : A → Type μ}
      → ((x : A) → P x → Q x)
      → (xs : List A) → All P xs
      → All Q xs
  All-map f [] h = tt
  All-map f (x ∷ xs) h = (f x h.0, All-map f xs h.1)

  pub All-append {κ} : (P : A → Type κ) (xs ys : List A) → All P xs → All P ys → All P (xs ++ ys)
  All-append P [] ys h k = k
  All-append P (x ∷ xs) ys h k = (h.0, All-append P xs ys h.1 k)

  -- The second list holds those elements of the first that have a property, in their order.
  pub data Picks {κ} (P : A → Type κ) : List A → List A → Type (ℓ ⊔ κ) where
    done : Picks P [] []
    pick : {x : A} {xs ys : List A} → P x → Picks P xs ys → Picks P (x ∷ xs) (x ∷ ys)
    skip : {x : A} {xs ys : List A} → ¬ P x → Picks P xs ys → Picks P (x ∷ xs) ys

  pub keep-Picks {κ} :
      (P : A → Type κ) (test : A → Bool)
      → ((x : A) → test x ≡ true → P x)
      → ((x : A) → test x ≡ false → ¬ P x)
      → (xs : List A) → Picks P xs (keep test xs)
  keep-Picks P test holds fails [] = Picks.done
  keep-Picks P test holds fails (x ∷ xs) = elim (Bool-cases (test x)) [
    | inl e ↦ rw e (Picks.pick (holds x e) (keep-Picks P test holds fails xs))
    | inr e ↦ rw e (Picks.skip (fails x e) (keep-Picks P test holds fails xs))
  ]

  pub length-append : (xs ys : List A) → length (xs ++ ys) ≡ length xs + length ys
  length-append [] ys = omega arith
  length-append (x ∷ xs) ys = omega (arith, length-append xs ys)

  pub length-keep-le : (test : A → Bool) (xs : List A) → length (keep test xs) ≤ length xs
  length-keep-le test [] = omega arith
  length-keep-le test (x ∷ xs) = ground (arith, length-keep-le test xs)
