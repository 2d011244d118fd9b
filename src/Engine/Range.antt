-- ===== src/Engine/Range.antt =====
-- `wilder_atr` of src/toss_trader/v2_engine.py.
use toss_trader.Prelude.{
  ℕ, ◌+◌, ◌-◌, ◌*◌, List, [], ◌∷◌, length, take, drop, ltb, Result, ok, raise_if, ◌>>◌,
}
use toss_trader.Prelude.Int.{ℤ, pos, pos_part, leb_ℤ, max_ℤ, ◌-ℤ◌}
use toss_trader.Models.Candle.{Candle}

abbrev pub distance : ℤ → ℤ → ℤ
distance a b = max_ℤ (a -ℤ b) (b -ℤ a)

-- the true range, which is never negative, since a distance is not
abbrev pub true_range : Candle → Candle → ℕ
true_range previous current = pos_part (
    max_ℤ
      (max_ℤ (current.high_price -ℤ current.low_price)
        (distance current.high_price previous.close_price))
      (distance current.low_price previous.close_price))

-- the ranges of `pairwise(candles)`
abbrev pub true_ranges : List Candle → List ℕ
true_ranges [] = []
true_ranges (a ∷ []) = []
true_ranges (a ∷ (b ∷ rest)) = true_range a b ∷ true_ranges (b ∷ rest)

abbrev pub sum_ℕ : List ℕ → ℕ
sum_ℕ [] = 0
sum_ℕ (x ∷ xs) = x + sum_ℕ xs

-- the loop over the later ranges
unfoldable pub smooth : (ℕ → ℕ → ℕ) → ℕ → ℕ → List ℕ → ℕ
smooth divide period average [] = average
smooth divide period average (r ∷ ranges) =
    smooth divide period (divide (average * (period - 1) + r) period) ranges

pub data AtrError : Type 0 where
  period_not_positive too_few_candles : AtrError

-- `wilder_atr`; `divide` is the division of Decimals.
unfoldable pub wilder_atr : (ℕ → ℕ → ℕ) → List Candle → ℤ → Result AtrError ℕ
wilder_atr divide candles period = do
  raise_if (leb_ℤ period (pos 0)) period_not_positive
  raise_if (ltb (length candles) (pos_part period + 1)) too_few_candles
  raise_if (ltb (length (true_ranges candles)) (pos_part period)) too_few_candles
  ok (
      smooth divide (pos_part period)
        (divide (sum_ℕ (take (pos_part period) (true_ranges candles))) (pos_part period))
        (drop (pos_part period) (true_ranges candles)))
