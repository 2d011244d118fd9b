-- ===== src/Ledger/Positions.antt =====
-- The two queries for positions, `position_quantity` and `position_quantities`, agree.
use toss_trader.Prelude.{
  ◌≡◌, refl, String, List, [], ◌∷◌, map, none, some, keep, str_eq, eq_iff, arith, ap, Bool-cases,
  inl, inr, if◌then◌else◌,
}
use toss_trader.Prelude.Int.{ℤ, pos, ◌+ℤ◌, sum, sum-cons, eqb_ℤ, int_laws}
use toss_trader.Prelude.Dict.{Dict, lookup, put, get_or, lookup-put}
use toss_trader.Ledger.{
  FillRow, Ledger, own, signed_quantity, tally, is_nonzero, position_quantity, position_quantities,
}

-- No key stands twice.
abbrev pub IsUnique {ℓ} : {V : Type ℓ} → Dict V → Type ℓ
IsUnique [] = Unit
IsUnique ((k, v) ∷ d) = (lookup k d ≡ none) × IsUnique d

pub put-IsUnique {ℓ} :
    {V : Type ℓ} (k : String) (v : V) (d : Dict V) → IsUnique d → IsUnique (put k v d)
put-IsUnique k v [] h = (refl, tt)
put-IsUnique k v ((j, w) ∷ d) h =
    ground (arith, put-IsUnique k v d h.1, lookup-put k j v d, eq_iff j k, eq_iff k j)

tally-IsUnique : (d : Dict ℤ) (rows : List FillRow) → IsUnique d → IsUnique (tally d rows)
unfolding tally
tally-IsUnique d [] h = h
tally-IsUnique d (r ∷ rows) h =
    tally-IsUnique (put r.fill.symbol (get_or (pos 0) r.fill.symbol d +ℤ signed_quantity r) d) rows
      (put-IsUnique r.fill.symbol _ d h)

get_or-put :
    (k j : String) (v : ℤ) (d : Dict ℤ)
    → get_or (pos 0) j (put k v d) ≡ (if str_eq k j then v else get_or (pos 0) j d)
get_or-put k j v d = ground (arith, lookup-put k j v d)

get_or-tally :
    (symbol : String) (d : Dict ℤ) (rows : List FillRow)
    → get_or (pos 0) symbol (tally d rows)
      ≡ get_or (pos 0) symbol d
        +ℤ sum (map signed_quantity (keep (λ r. str_eq r.fill.symbol symbol) rows))
unfolding tally
get_or-tally symbol d [] = omega int_laws
get_or-tally symbol d (r ∷ rows) = elim (Bool-cases (str_eq r.fill.symbol symbol)) [
  | inl e ↦
      rw
        (
          get_or-tally symbol
              (put r.fill.symbol (get_or (pos 0) r.fill.symbol d +ℤ signed_quantity r) d) rows,
          get_or-put,
          e,
          ap (λ t. get_or (pos 0) t d) ((eq_iff r.fill.symbol symbol).0 e),
          sum-cons,
        )
        (omega int_laws)
  | inr e ↦
      rw
        (
          get_or-tally symbol
              (put r.fill.symbol (get_or (pos 0) r.fill.symbol d +ℤ signed_quantity r) d) rows,
          get_or-put,
          e,
        )
        (omega int_laws)
]

lookup-nonzero :
    (symbol : String) (d : Dict ℤ)
    → IsUnique d
    → lookup symbol (keep is_nonzero d)
      ≡ (if eqb_ℤ (get_or (pos 0) symbol d) (pos 0) then none else some (get_or (pos 0) symbol d))
lookup-nonzero symbol [] h = refl
lookup-nonzero symbol ((k, v) ∷ d) h =
    ground (arith, lookup-nonzero symbol d h.1, eq_iff k symbol, h.0)

-- `position_quantities` holds exactly the symbols with a position that is not zero, each with the
-- quantity that `position_quantity` gives.
pub lookup-position_quantities :
    (p symbol : String) (l : Ledger)
    → lookup symbol (position_quantities p l) ≡ (
        if eqb_ℤ (position_quantity p symbol l) (pos 0)
        then none
        else some (position_quantity p symbol l))
unfolding position_quantities position_quantity
lookup-position_quantities p symbol l =
    let rows = own p l.fills in
    let agree : get_or (pos 0) symbol (tally [] rows) ≡ position_quantity p symbol l =
      rw (get_or-tally symbol [] rows) (omega int_laws) in
    rw (lookup-nonzero symbol (tally [] rows) (tally-IsUnique [] rows tt), agree)
