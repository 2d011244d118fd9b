-- ===== src/Models/Time.antt =====
-- Python's `datetime` and `date` as models.py and its clients use them. A wall clock counts
-- microseconds from year 1, and a day is a count of days on that clock.
use toss_trader.Prelude.{ℕ, ◌/◌, Bool, Option, none, some, not, is_some}
use toss_trader.Prelude.Int.{ℤ, pos, ◌-ℤ◌}

pub record DateTime : Type 0 where
  -- the wall clock, in microseconds
  pub local : ℕ
  -- `utcoffset()`, in microseconds; none for a naive time
  pub utcoffset : Option ℤ

-- `value.tzinfo is None or value.utcoffset() is None`
abbrev pub is_naive : DateTime → Bool
is_naive t = not (is_some t.utcoffset)

-- The instant of an aware time, by which Python orders such times.
unfoldable pub instant : DateTime → ℤ
instant t = elim t.utcoffset [ none ↦ pos t.local | some o ↦ pos t.local -ℤ o ]

-- `value.date()`, the day on the value's own clock.
abbrev pub day_of : DateTime → ℕ
day_of t = t.local / 86_400_000_000
