-- ===== src/Ledger/Cash.antt =====
-- The cash and the positions after one fill, in the portfolio of the fill and in the others.
use mathlib.Core.List.{append-nil}
use toss_trader.Prelude.{
  ℕ, ◌≡◌, refl, Bool, true, false, ◌++◌, List, [], ◌∷◌, map, String, keep, str_eq, Bool-cases, inl,
  inr, if◌then◌else◌, ap, arith, ◌&&◌, ◌==◌, ◌+◌, length-append, err,
}
use toss_trader.Prelude.Int.{ℤ, pos, ◌+ℤ◌, sum, sum-append, int_laws}
use toss_trader.Models.Time.{DateTime, day_of}
use toss_trader.Models.Signal.{is_buy, TradeSignal}
use toss_trader.Ledger.{
  FillRow, Ledger, own, execute, fill_of, cash_change, cash_balance, signed_quantity,
  position_quantity, violates_unique, daily_buy_count, duplicate_paper_order,
}

pub keep-append {ℓ} :
    {A : Type ℓ} (test : A → Bool) (xs ys : List A)
    → keep test (xs ++ ys) ≡ keep test xs ++ keep test ys
keep-append test [] ys = refl
keep-append test (x ∷ xs) ys = ground (arith, keep-append test xs ys)

pub map-append {ℓ κ} :
    {A : Type ℓ} {B : Type κ} (f : A → B) (xs ys : List A) → map f (xs ++ ys) ≡ map f xs ++ map f ys
map-append f [] ys = refl
map-append f (x ∷ xs) ys = ap (λ t. f x ∷ t) (map-append f xs ys)

abbrev pub row_of : ℕ → String → ℕ → TradeSignal → DateTime → FillRow
row_of cent portfolio fill_id s when = record {
  portfolio_id = portfolio;
  fill = fill_of cent fill_id s when;
}

-- The sum of a measure over the rows that pass a test, with one row more.
sum-keep_more :
    (f : FillRow → ℤ) (test : FillRow → Bool) (rows : List FillRow) (r : FillRow)
    → sum (map f (keep test (rows ++ r ∷ [])))
      ≡ sum (map f (keep test rows)) +ℤ (if test r then f r else pos 0)
sum-keep_more f test rows r =
    rw (keep-append, map-append, sum-append)
      (elim (Bool-cases (test r)) [ inl e ↦ rw e (omega int_laws) | inr e ↦ rw e (omega int_laws) ])

module _ (cent : ℕ) (p q : String) (i : ℕ) (s : TradeSignal) (w : DateTime) (l : Ledger)
    (new : violates_unique i s.signal_id l.fills ≡ false) where
  -- A fill whose id and signal are free moves the cash of its own portfolio by its cash change, and no other cash.
  pub cash-execute :
      (initial : ℤ)
      → cash_balance q initial (execute cent p i s w l).1
        ≡ cash_balance q initial l
          +ℤ (if str_eq p q then cash_change (row_of cent p i s w) else pos 0)
  unfolding cash_balance execute
  cash-execute initial =
      rw
        (
          new,
          sum-keep_more cash_change (λ r. str_eq r.portfolio_id q) l.fills (row_of cent p i s w),
        )
        (omega int_laws)

  -- A fill whose id and signal are free moves the position of its own portfolio in its symbol by its signed
  -- quantity, and no other position.
  pub position-execute :
      (symbol : String)
      → position_quantity q symbol (execute cent p i s w l).1
        ≡ position_quantity q symbol l
          +ℤ (if str_eq p q
              then (if str_eq s.symbol symbol then signed_quantity (row_of cent p i s w) else pos 0)
              else pos 0)
  unfolding position_quantity execute
  position-execute symbol = elim (Bool-cases (str_eq p q)) [
    | inl e ↦
        rw (new, keep-append, e)
          (rw
            (sum-keep_more signed_quantity (λ r. str_eq r.fill.symbol symbol) (own q l.fills)
              (row_of cent p i s w))
            (omega int_laws))
    | inr e ↦ rw (new, keep-append, e) (rw append-nil (omega int_laws))
  ]

  -- A fill whose id and signal are free counts as one buy of its own portfolio on its day if it is a buy, and else
  -- not at all.
  pub buys-execute :
      (day : ℕ)
      → daily_buy_count q day (execute cent p i s w l).1
        ≡ daily_buy_count q day l
          + (if str_eq p q && (is_buy s.side && day_of w == day) then 1 else 0)
  unfolding daily_buy_count execute
  buys-execute day = elim (Bool-cases (str_eq p q)) [
    | inl e ↦ rw (new, keep-append, e, keep-append) (rw length-append (ground arith))
    | inr e ↦ rw (new, keep-append, e) (rw append-nil (omega arith))
  ]

-- A fill whose id or signal is taken changes nothing.
pub execute_clash :
    (cent : ℕ) (p : String) (i : ℕ) (s : TradeSignal) (w : DateTime) (l : Ledger)
    → violates_unique i s.signal_id l.fills ≡ true
    → execute cent p i s w l ≡ (err duplicate_paper_order, l)
unfolding execute
execute_clash cent p i s w l clash = rw clash
