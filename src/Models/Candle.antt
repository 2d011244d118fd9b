-- ===== src/Models/Candle.antt =====
-- `Candle` of src/toss_trader/models.py, with the checks of its `__post_init__`.
use toss_trader.Prelude.{
  ℕ, Bool, true, false, not, ◌||◌, String, ◌==◌, all_codes, text_length, Result, ok, raise_if, ◌>>◌,
}
use toss_trader.Prelude.Int.{ℤ, pos, leb_ℤ, ltb_ℤ, min_ℤ, max_ℤ}
use toss_trader.Models.Time.{DateTime, is_naive}
use toss_trader.Models.Signal.{symbol_matches}

pub data Interval : Type 0 where
  one_minute one_day : Interval
  -- any other text
  unknown : String → Interval

pub record Candle : Type 0 where
  pub symbol : String
  pub interval : Interval
  pub timestamp : DateTime
  pub open_price : ℤ
  pub high_price : ℤ
  pub low_price : ℤ
  pub close_price : ℤ
  pub volume : ℤ
  pub currency : String

pub data CandleError : Type 0 where
  unsupported_symbol bad_interval naive_timestamp price_not_positive high_inconsistent : CandleError
  low_inconsistent negative_volume bad_currency : CandleError

abbrev pub is_supported : Interval → Bool
is_supported one_minute = true
is_supported one_day = true
is_supported (unknown _) = false

abbrev least_of : ℤ → ℤ → ℤ → ℤ
least_of a b c = min_ℤ (min_ℤ a b) c

abbrev greatest_of : ℤ → ℤ → ℤ → ℤ
greatest_of a b c = max_ℤ (max_ℤ a b) c

-- `Candle.__post_init__`. `is_alpha` is `str.isalpha` on the code of a character.
unfoldable pub candle_post_init : (ℕ → Bool) → Candle → Result CandleError Candle
candle_post_init is_alpha c = do
  raise_if (not (symbol_matches c.symbol)) unsupported_symbol
  raise_if (not (is_supported c.interval)) bad_interval
  raise_if (is_naive c.timestamp) naive_timestamp
  raise_if (leb_ℤ (min_ℤ (least_of c.open_price c.high_price c.low_price) c.close_price) (pos 0))
      price_not_positive
  raise_if (ltb_ℤ c.high_price (greatest_of c.open_price c.low_price c.close_price))
      high_inconsistent
  raise_if (ltb_ℤ (least_of c.open_price c.high_price c.close_price) c.low_price) low_inconsistent
  raise_if (ltb_ℤ c.volume (pos 0)) negative_volume
  raise_if (not (text_length c.currency == 3) || not (all_codes is_alpha c.currency)) bad_currency
  ok c
