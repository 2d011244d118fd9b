-- ===== src/Ledger/Accounting/Balance.antt =====
-- The accounting of the fills balances with the cash that they moved.
use mathlib.Core.List.{Permᴰ, Perm}
use mathlib.Core.Logic.{∥∥₁_elim}
use native.Mathlib.Nat.{ℕ_set}
use toss_trader.Prelude.{
  ℕ, ◌<◌, ◌≡◌, refl, true, String, List, [], ◌∷◌, map, All, ok, ok-injective, >>=-ok, arith,
  Bool-cases, inl, inr, ◌∙◌,
}
use toss_trader.Prelude.Int.{ℤ, pos, ◌+ℤ◌, ◌-ℤ◌, ◌*ℤ◌, eqb_ℤ, sum, sum-cons, int_laws}
use toss_trader.Prelude.Dict.{Dict, put, get_or, sum_by, sum_by-put}
use toss_trader.Ledger.{Ledger, FillRow, own, cash_change, cash_balance}
use toss_trader.Ledger.Accounting.{
  PositionAccounting, flat, bought, sold, allocated_basis, account, position_accountings,
}

-- What a position has returned beyond what is still tied up in it.
abbrev pub worth : PositionAccounting → ℤ
worth a = a.realized_pnl -ℤ a.cost_basis

abbrev pub HasQuantity : FillRow → Type 0
HasQuantity r = 0 < r.fill.quantity

-- Division undoes multiplication by the same positive count. `Decimal` does so for products of up to
-- 28 digits.
abbrev pub Undoes : (ℤ → ℤ → ℤ) → Type 0
Undoes divide = (b : ℤ) (n : ℕ) → 0 < n → divide (b *ℤ pos n) (pos n) ≡ b

eqb_ℤ-sub : (a b : ℤ) → eqb_ℤ (a -ℤ b) (pos 0) ≡ true → a ≡ b
eqb_ℤ-sub a b e = grind (int_laws)

module _ (divide : ℤ → ℤ → ℤ) (undoes : Undoes divide) where
  -- Closing a position allocates its whole basis.
  allocated_all :
      (r : FillRow) (a : PositionAccounting)
      → HasQuantity r
      → eqb_ℤ (a.quantity -ℤ pos r.fill.quantity) (pos 0) ≡ true
      → allocated_basis divide r a ≡ a.cost_basis
  allocated_all r a h e =
      let held : a.quantity ≡ pos r.fill.quantity = eqb_ℤ-sub a.quantity (pos r.fill.quantity) e in
      rw held (undoes a.cost_basis r.fill.quantity h)

  sold-worth :
      (r : FillRow) (a : PositionAccounting)
      → HasQuantity r
      → worth (sold divide r a)
        ≡ worth a +ℤ (pos r.fill.notional -ℤ pos r.fill.commission -ℤ pos r.fill.tax)
  sold-worth r a h = elim (Bool-cases (eqb_ℤ (a.quantity -ℤ pos r.fill.quantity) (pos 0))) [
    | inl e ↦ rw (e, allocated_all r a h e) (omega int_laws)
    | inr e ↦ rw e (omega int_laws)
  ]

  bought-worth :
      (r : FillRow) (a : PositionAccounting)
      → worth (bought divide r a)
        ≡ worth a +ℤ (pos 0 -ℤ pos r.fill.notional -ℤ pos r.fill.commission -ℤ pos r.fill.tax)
  bought-worth r a = omega int_laws

  account-worth :
      (r : FillRow) (a a' : PositionAccounting)
      → HasQuantity r
      → account divide r a ≡ ok a'
      → worth a' ≡ worth a +ℤ cash_change r
  unfolding account
  account-worth r a a' h e = ground (arith, sold-worth r a h, bought-worth r a)

  position_accountings-worth :
      (rows : List FillRow) (d d' : Dict PositionAccounting)
      → All HasQuantity rows
      → position_accountings divide d rows ≡ ok d'
      → sum_by worth d' ≡ sum_by worth d +ℤ sum (map cash_change rows)
  unfolding position_accountings
  position_accountings-worth [] d d' h e = rw (ok-injective e) (omega int_laws)
  position_accountings-worth (r ∷ rows) d d' h e =
      let a = get_or flat r.fill.symbol d in
      let (a', step, rest) =
        >>=-ok (account divide r a) (λ x. position_accountings divide (put r.fill.symbol x d) rows)
          e in
      rw
        (
          position_accountings-worth rows (put r.fill.symbol a' d) d' h.1 rest,
          sum_by-put worth r.fill.symbol a' flat (omega int_laws) d,
          account-worth r a a' h.0 step,
          sum-cons,
        )
        (omega int_laws)

-- The sum of the cash changes does not depend on the order of the rows.
sum-Permᴰ :
    {rows fills : List FillRow}
    → Permᴰ rows fills
    → sum (map cash_change rows) ≡ sum (map cash_change fills)
sum-Permᴰ Permᴰ.nil = refl
sum-Permᴰ (Permᴰ.cons {b = b} {l₁ = xs} {l₂ = ys} e p) =
    rw
      (
        e,
        sum-cons (cash_change b) (map cash_change xs),
        sum-cons (cash_change b) (map cash_change ys),
        sum-Permᴰ p,
      )
      refl
sum-Permᴰ (Permᴰ.swap {a' = a} {b' = b} {l = xs} e f) =
    rw
      (
        e,
        f,
        sum-cons (cash_change b) (cash_change a ∷ map cash_change xs),
        sum-cons (cash_change a) (cash_change b ∷ map cash_change xs),
        sum-cons (cash_change a) (map cash_change xs),
        sum-cons (cash_change b) (map cash_change xs),
      )
      (omega int_laws)
sum-Permᴰ (Permᴰ.trans p q) = sum-Permᴰ p ∙ sum-Permᴰ q

ℤ-set : IsSet ℤ
ℤ-set = hlevel ℕ_set

sum_by-worth :
    (d : Dict PositionAccounting)
    → sum_by worth d ≡ sum_by (λ a. a.realized_pnl) d -ℤ sum_by (λ a. a.cost_basis) d
sum_by-worth [] = omega int_laws
sum_by-worth ((k, a) ∷ d) = rw (sum_by-worth d) (omega int_laws)

-- Where division undoes multiplication and every fill has a positive quantity: if the accounting of a portfolio's
-- fills, in any order, goes through, then the cash is the initial cash
-- plus the realized profit less the cost basis of what is held.
pub cash_balance-accounting :
    (divide : ℤ → ℤ → ℤ)
    → Undoes divide
    → (p : String) (initial : ℤ) (l : Ledger) (rows : List FillRow) (d : Dict PositionAccounting)
    → Perm rows (own p l.fills)
    → All HasQuantity rows
    → position_accountings divide [] rows ≡ ok d
    → cash_balance p initial l
      ≡ initial +ℤ (sum_by (λ a. a.realized_pnl) d -ℤ sum_by (λ a. a.cost_basis) d)
unfolding cash_balance
cash_balance-accounting divide undoes p initial l rows d perm h e =
    rw
      (
        ← ∥∥₁_elim perm (ℤ-set _ _) sum-Permᴰ,
        ← sum_by-worth d,
        position_accountings-worth divide undoes rows [] d h e,
      )
      (omega int_laws)
