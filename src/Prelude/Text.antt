-- ===== src/Prelude/Text.antt =====
-- Tests on texts.
use Prim.Native.Nat.{ℕ, Ordering, ◌+◌}
use Prim.Native.Char.{code}
use Prim.Native.String.{String, compare}
use mathlib.Core.Bool.{Bool, true, false, ◌&&◌, ◌||◌}
use toss_trader.Prelude.Tests.{leb, ◌==◌, if◌then◌else◌}
pub use text.Mathlib.Text.{◌==◌ as str_eq}
pub use text.Mathlib.TextEquality.{eq_iff}
pub use text.Mathlib.TextPositions.{eq_refl}

-- Whether every character of a text passes a test on its code.
abbrev pub all_codes : (ℕ → Bool) → String → Bool
all_codes test String.[] = true
all_codes test (String.◌∷◌ c rest) = test (code c) && all_codes test rest

-- Whether some character does.
abbrev pub any_code : (ℕ → Bool) → String → Bool
any_code test String.[] = false
any_code test (String.◌∷◌ c rest) = test (code c) || any_code test rest

-- The number of characters, Python's `len`.
abbrev pub text_length : String → ℕ
text_length String.[] = 0
text_length (String.◌∷◌ c rest) = 1 + text_length rest

-- Python's `a < b`.
abbrev pub text_ltb : String → String → Bool
text_ltb a b = elim (compare a b) [ Ordering.lt ↦ true | _ ↦ false ]

abbrev pub lower_code : ℕ → ℕ
lower_code c = if leb 65 c && leb c 90 then c + 32 else c

-- `a.lower() == b.lower()`, of ASCII texts
abbrev pub same_ignoring_case : String → String → Bool
same_ignoring_case String.[] String.[] = true
same_ignoring_case String.[] (String.◌∷◌ d b) = false
same_ignoring_case (String.◌∷◌ c a) String.[] = false
same_ignoring_case (String.◌∷◌ c a) (String.◌∷◌ d b) =
    lower_code (code c) == lower_code (code d) && same_ignoring_case a b
