-- ===== src/Prelude/Dict.antt =====
-- A Python dict with text keys, in insertion order.
use toss_trader.Prelude.Int.{ℤ, pos, ◌+ℤ◌, ◌-ℤ◌, int_laws}
use toss_trader.Prelude.{
  ◌≡◌, refl, Option, none, some, List, [], ◌∷◌, String, str_eq, eq_iff, arith, if◌then◌else◌,
}

abbrev pub Dict {ℓ} : Type ℓ → Type ℓ
Dict V = List (String × V)

module _ {ℓ} {V : Type ℓ} where
  -- `d.get(k)`
  abbrev pub lookup : String → Dict V → Option V
  lookup k [] = none
  lookup k ((j, v) ∷ d) = if str_eq j k then some v else lookup k d

  -- `d[k] = v`
  abbrev pub put : String → V → Dict V → Dict V
  put k v [] = (k, v) ∷ []
  put k v ((j, w) ∷ d) = if str_eq j k then (j, v) ∷ d else (j, w) ∷ put k v d

  -- `d.get(k, default)`
  abbrev pub get_or : V → String → Dict V → V
  get_or default k d = elim (lookup k d) [ none ↦ default | some v ↦ v ]

  pub lookup-put :
      (k j : String) (v : V) (d : Dict V)
      → lookup j (put k v d) ≡ (if str_eq k j then some v else lookup j d)
  lookup-put k j v [] = refl
  lookup-put k j v ((i, w) ∷ d) =
      ground (arith, eq_iff k j, eq_iff i k, eq_iff i j, lookup-put k j v d)

  -- The sum of a measure over the values.
  abbrev pub sum_by : (V → ℤ) → Dict V → ℤ
  sum_by f [] = pos 0
  sum_by f ((k, v) ∷ d) = f v +ℤ sum_by f d

  pub sum_by-put :
      (f : V → ℤ) (k : String) (v w : V)
      → f w ≡ pos 0
      → (d : Dict V) → sum_by f (put k v d) ≡ sum_by f d -ℤ f (get_or w k d) +ℤ f v
  sum_by-put f k v w z [] = rw z (omega int_laws)
  sum_by-put f k v w z ((j, u) ∷ d) = grind (int_laws, sum_by-put f k v w z d)
