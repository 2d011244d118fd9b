-- ===== src/Sizing/Sound.antt =====
-- What `position_size_reference` promises of the quantity it returns.
use native.Mathlib.Nat.{div-add-mod, mul-le-mul_right, le_trans}
use toss_trader.Prelude.{
  ℕ, ◌*◌, ◌/◌, ◌≤◌, ◌<◌, ◌≡◌, false, ltb, leb, arith, Bool-cases, inl, inr, ok, >>=-ok,
  ok-injective, raise_if-ok, sym, ap, subst,
}
use toss_trader.Sizing.{
  SizingInputs, PositionSizeReference, Basis, Reduced, basis, usable, entry_price, risk_of,
  first_lots, order_lots, quantity_of, sized, final_costs, shrink, within, position_size_reference,
  validate_sizing_inputs, effective_distance, stop_distance_too_large,
}
use toss_trader.Sizing.Loop.{shrink-Fits, shrink-largest}

-- What a returned reference comes from.
pub record IsSizedFrom (cent one : ℕ) (i : SizingInputs) (r : PositionSizeReference) : Type 0 where
  pub left : ℕ × Reduced
  pub stop_fits : leb (basis one i).reference_price (effective_distance (basis one i)) ≡ false
  pub looped :
      shrink
        (risk_of cent one i)
        (usable (basis one i))
        (basis one i).available_cash
        (first_lots one (basis one i))
        (record { for_risk = false; for_cash = false })
      ≡ ok left
  pub from_left : sized cent one i left ≡ ok r

position_size_reference-IsSizedFrom :
    (cent one : ℕ) (i : SizingInputs) (r : PositionSizeReference)
    → position_size_reference cent one i ≡ ok r
    → IsSizedFrom cent one i r
unfolding position_size_reference
position_size_reference-IsSizedFrom cent one i r h =
    let (_, _, h₁) = >>=-ok (validate_sizing_inputs one i) _ h in
    let (stop, h₂) =
      raise_if-ok (leb (basis one i).reference_price (effective_distance (basis one i)))
        stop_distance_too_large _ h₁ in
    let (left, looped, from_left) = >>=-ok _ _ h₂ in
    record { left = left; stop_fits = stop; looped = looped; from_left = from_left }

lots_within :
    (lots price lot budget : ℕ) → lots ≤ budget / price / lot → lots * lot * price ≤ budget
lots_within lots price lot budget h = le_trans price_part (omega (arith, div-add-mod budget price))
  where
    lot_part : lots * lot ≤ budget / price
    lot_part = le_trans (mul-le-mul_right lot h) (omega (arith, div-add-mod (budget / price) lot))

    price_part : lots * lot * price ≤ budget / price * price
    price_part = mul-le-mul_right price lot_part

first_lots-order : (one : ℕ) (b : Basis) → first_lots one b ≤ order_lots one b
first_lots-order one b = ground arith

-- the fields of a reference that the loop's result settles
sized-fields :
    (cent one : ℕ) (i : SizingInputs) (left : ℕ × Reduced) (r : PositionSizeReference)
    → sized cent one i left ≡ ok r
    → (c : ℕ × ℕ) × (final_costs (risk_of cent one i) left.0 ≡ ok c)
      × (r.planned_heat ≡ c.0)
      × (r.required_cash ≡ c.1)
      × (r.quantity ≡ left.0 * (basis one i).lot_size)
      × (r.basis ≡ basis one i)
sized-fields cent one i (lots, q) r h =
    let (c, e, k) = >>=-ok (final_costs (risk_of cent one i) lots) _ h in
    (
      c,
      e,
      ap (λ (x : PositionSizeReference). x.planned_heat) (sym (ok-injective k)),
      ap (λ (x : PositionSizeReference). x.required_cash) (sym (ok-injective k)),
      ap (λ (x : PositionSizeReference). x.quantity) (sym (ok-injective k)),
      ap (λ (x : PositionSizeReference). x.basis) (sym (ok-injective k)),
    )

-- A returned quantity never plans more heat than the usable budget and never needs more than the cash, both with the
-- costs of the round trip; its entry notional never exceeds the largest order; and the basis reported is that of the inputs.
pub position_size_reference-bounds :
    (cent one : ℕ) (i : SizingInputs) (r : PositionSizeReference)
    → position_size_reference cent one i ≡ ok r
    → (r.planned_heat ≤ usable (basis one i))
      × (r.required_cash ≤ (basis one i).available_cash)
      × (r.quantity * entry_price one (basis one i) ≤ (basis one i).max_order_notional)
      × (r.basis ≡ basis one i)
position_size_reference-bounds cent one i r h =
    let from = position_size_reference-IsSizedFrom cent one i r h in
    let (c, e, heat, cash, quantity, at) = sized-fields cent one i from.left r from.from_left in
    let (le, fits) = shrink-Fits _ _ _ _ _ from.left from.looped in
    let (f₀, f₁) = fits c e in
    (
      rw heat f₀,
      rw cash f₁,
      rw quantity (
          lots_within from.left.0 (entry_price one (basis one i)) (basis one i).lot_size
            (basis one i).max_order_notional (le_trans le (first_lots-order one (basis one i)))),
      at,
    )

fewer : (m n lot : ℕ) → m * lot < n * lot → m < n
fewer m n lot h = elim (Bool-cases (ltb m n)) [
  | inl lt ↦ ground arith
  | inr ge ↦ absurd (omega (arith, h, mul-le-mul_right {m = n} {n = m} lot (ground arith)))
]

-- No larger number of lots, up to the least of what the risk, the order limit and the cash allow before costs, would
-- fit both the risk budget and the cash with its costs.
pub position_size_reference-largest :
    (cent one : ℕ) (i : SizingInputs) (r : PositionSizeReference)
    → position_size_reference cent one i ≡ ok r
    → (lots : ℕ) → r.quantity < quantity_of (basis one i) lots
    → lots ≤ first_lots one (basis one i)
    → (c : ℕ × ℕ) → risk_of cent one i lots ≡ ok c
    → within (usable (basis one i)) (basis one i).available_cash c ≡ false
position_size_reference-largest cent one i r h lots more le c e =
    let from = position_size_reference-IsSizedFrom cent one i r h in
    let (_, _, _, _, quantity, _) = sized-fields cent one i from.left r from.from_left in
    shrink-largest _ _ _ _ _ from.left from.looped lots
      (fewer from.left.0 lots (basis one i).lot_size
        (subst (λ q. q < lots * (basis one i).lot_size) quantity more))
      le c e

-- A size is returned only for a stop distance below the price.
pub position_size_reference-stop :
    (cent one : ℕ) (i : SizingInputs) (r : PositionSizeReference)
    → position_size_reference cent one i ≡ ok r
    → effective_distance (basis one i) < (basis one i).reference_price
position_size_reference-stop cent one i r h =
    let from = position_size_reference-IsSizedFrom cent one i r h in
    not_leb (basis one i).reference_price (effective_distance (basis one i)) from.stop_fits
  where
    not_leb : (a b : ℕ) → leb a b ≡ false → b < a
    not_leb a b e = ground arith
