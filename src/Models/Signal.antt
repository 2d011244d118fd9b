-- ===== src/Models/Signal.antt =====
-- `Side`, `TradeSignal` and `PaperFill` of src/toss_trader/models.py. A `Decimal` price or quantity is a
-- count of a unit that is fine enough for the values at hand; a notional, their product, counts the
-- product of the two units, so it is exact.
use toss_trader.Prelude.{
  ℕ, ◌+◌, ◌*◌, Bool, true, false, not, ◌&&◌, ◌||◌, String, leb, ◌==◌, all_codes, str_eq, Result, ok,
  raise_if, ◌>>◌,
}
use toss_trader.Prelude.Int.{ℤ, pos, pos_part, leb_ℤ}
use toss_trader.Models.Time.{DateTime}

pub data Side : Type 0 where
  buy sell : Side

abbrev pub is_buy : Side → Bool
is_buy buy = true
is_buy sell = false

abbrev pub is_sell : Side → Bool
is_sell buy = false
is_sell sell = true

abbrev pub is_digit : ℕ → Bool
is_digit c = leb 48 c && leb c 57

-- `text.isdigit()`, of a text that has passed the symbol pattern
abbrev pub isdigit : String → Bool
isdigit text = not (str_eq text "") && all_codes is_digit text

abbrev pub is_symbol_code : ℕ → Bool
is_symbol_code c =
    (leb 65 c && leb c 90) || (leb 97 c && leb c 122) || is_digit c || c == 46 || c == 45

-- `SYMBOL_PATTERN.fullmatch(symbol)`
abbrev pub symbol_matches : String → Bool
symbol_matches symbol = not (str_eq symbol "") && all_codes is_symbol_code symbol

-- Python's white space, which `str.strip` removes.
abbrev pub is_space : ℕ → Bool
is_space c =
    (leb 9 c && leb c 13)
    || (leb 28 c && leb c 32)
    || c == 133
    || c == 160
    || c == 5760
    || (leb 8192 c && leb c 8202)
    || c == 8232
    || c == 8233
    || c == 8239
    || c == 8287
    || c == 12288

-- `not text.strip()`
abbrev pub is_blank : String → Bool
is_blank text = all_codes is_space text

pub record TradeSignal : Type 0 where
  pub signal_id : String
  pub symbol : String
  pub side : Side
  pub reference_price : ℕ
  pub quantity : ℕ
  pub reason : String

pub data SignalError : Type 0 where
  empty_signal_id unsupported_symbol price_not_positive quantity_not_positive empty_reason :
      SignalError

-- `TradeSignal(…)`, whose `__post_init__` may raise.
unfoldable pub trade_signal :
    String → String → Side → ℤ → ℤ → String → Result SignalError TradeSignal
trade_signal signal_id symbol side reference_price quantity reason = do
  raise_if (is_blank signal_id) empty_signal_id
  raise_if (not (symbol_matches symbol)) unsupported_symbol
  raise_if (leb_ℤ reference_price (pos 0)) price_not_positive
  raise_if (leb_ℤ quantity (pos 0)) quantity_not_positive
  raise_if (is_blank reason) empty_reason
  ok (record {
    signal_id = signal_id;
    symbol = symbol;
    side = side;
    reference_price = pos_part reference_price;
    quantity = pos_part quantity;
    reason = reason;
  })

abbrev pub notional : TradeSignal → ℕ
notional s = s.reference_price * s.quantity

pub record PaperFill : Type 0 where
  pub fill_id : ℕ
  pub signal_id : String
  pub symbol : String
  pub side : Side
  pub quantity : ℕ
  pub price : ℕ
  pub notional : ℕ
  pub commission : ℕ
  pub tax : ℕ
  pub reason : String
  pub executed_at : DateTime

abbrev pub total_cost : PaperFill → ℕ
total_cost f = f.commission + f.tax
