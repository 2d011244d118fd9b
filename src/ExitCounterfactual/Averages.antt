-- ===== src/ExitCounterfactual/Averages.antt =====
-- `_indicators` of src/toss_trader/exit_counterfactual.py: the relation of two moving averages by running sums, and
-- the average true range. An average is compared across its denominator; the average range is taken by `divide`.
use toss_trader.Prelude.{
  ℕ, zero, suc, ◌+◌, ◌-◌, ◌*◌, List, [], ◌∷◌, ◌++◌, Option, none, some, length, take, drop, map,
  leb, ltb, if◌then◌else◌,
}
use toss_trader.Prelude.Int.{ℤ, pos, pos_part, ltb_ℤ, ◌+ℤ◌, ◌-ℤ◌, ◌*ℤ◌, sum}
use toss_trader.Models.Candle.{Candle}
use toss_trader.Strategy.{Relation, above, below, equal}
use toss_trader.Engine.{true_ranges, sum_ℕ}

-- `values[index]`, where there is one
abbrev pub value_at : ℕ → List ℤ → ℤ
value_at i [] = pos 0
value_at zero (x ∷ xs) = x
value_at (suc i) (x ∷ xs) = value_at i xs

-- `values[start : start + n]`
abbrev pub slice : ℕ → ℕ → List ℤ → List ℤ
slice start n xs = take n (drop start xs)

-- short_sum and long_sum
pub record Sums : Type 0 where
  pub short_sum : ℤ
  pub long_sum : ℤ

module _ (closes : List ℤ) (short_window long_window : ℕ) where
  -- the sums at an index, of those before it
  abbrev pub advance : ℕ → Sums → Sums
  advance index s =
      if ltb (long_window - 1) index
      then record {
        short_sum =
            s.short_sum +ℤ (value_at index closes -ℤ value_at (index - short_window) closes);
        long_sum = s.long_sum +ℤ (value_at index closes -ℤ value_at (index - long_window) closes);
      }
      else record s { short_sum = sum (slice (suc index - short_window) short_window closes) }

  abbrev pub relation_at : Sums → Relation
  relation_at s =
      if ltb_ℤ (s.long_sum *ℤ pos short_window) (s.short_sum *ℤ pos long_window)
      then above
      else if ltb_ℤ (s.short_sum *ℤ pos long_window) (s.long_sum *ℤ pos short_window)
      then below
      else equal

  -- n rounds of the loop from an index on
  unfoldable pub running_relations : ℕ → ℕ → Sums → List (Option Relation)
  running_relations zero index s = []
  running_relations (suc n) index s =
      some (relation_at (advance index s)) ∷ running_relations n (suc index) (advance index s)

  abbrev pub first_sums : Sums
  first_sums = record {
    short_sum = sum (take short_window closes);
    long_sum = sum (take long_window closes);
  }

  abbrev pub repeat_none : ℕ → List (Option Relation)
  repeat_none zero = []
  repeat_none (suc n) = none ∷ repeat_none n

  -- `relations`
  unfoldable pub relations : List (Option Relation)
  relations =
      repeat_none (long_window - 1)
      ++ running_relations (suc (length closes) - long_window) (long_window - 1) first_sums

-- `true_ranges`: the first candle's own range, then those against the candle before
abbrev pub all_ranges : List Candle → List ℕ
all_ranges [] = []
all_ranges (c ∷ rest) = pos_part (c.high_price -ℤ c.low_price) ∷ true_ranges (c ∷ rest)

abbrev pub smoothed : (ℕ → ℕ → ℕ) → ℕ → ℕ → List ℕ → List (Option ℕ)
smoothed divide period current [] = []
smoothed divide period current (r ∷ ranges) =
    let next = divide (current * (period - 1) + r) period in
    some next ∷ smoothed divide period next ranges

abbrev pub no_atr : ℕ → List (Option ℕ)
no_atr zero = []
no_atr (suc n) = none ∷ no_atr n

-- `atr`, of the ranges
unfoldable pub average_ranges : (ℕ → ℕ → ℕ) → ℕ → List ℕ → List (Option ℕ)
average_ranges divide period ranges =
    if leb period (length ranges)
    then no_atr (period - 1)
      ++ some (divide (sum_ℕ (take period ranges)) period)
        ∷ smoothed divide period (divide (sum_ℕ (take period ranges)) period) (drop period ranges)
    else no_atr (length ranges)

pub record Indicators : Type 0 where
  pub relations : List (Option Relation)
  pub atr : List (Option ℕ)

unfoldable pub indicators : (ℕ → ℕ → ℕ) → List Candle → ℕ → ℕ → ℕ → Indicators
indicators divide candles short_window long_window atr_period = record {
  relations = relations (map (λ (c : Candle). c.close_price) candles) short_window long_window;
  atr = average_ranges divide atr_period (all_ranges candles);
}
