-- ===== src/Strategy.antt =====
-- src/toss_trader/strategy.py: the moving-average crossover. Closes count price units. The averages of one
-- evaluation are exact fractions, a sum over a number of closes; they are compared across their denominators.
pub mod Crossover
mod Tests
use toss_trader.Prelude.{
  ℕ, ◌+◌, ◌-◌, ◌*◌, Bool, true, false, not, ◌&&◌, ◌||◌, String, List, [], ◌∷◌, Option, none, some,
  length, take, drop, any, leb, ltb, ◌==◌, Result, ok, err, raise_if, ◌>>=◌, ◌>>◌, if◌then◌else◌,
  is_some, str_eq,
}
use toss_trader.Prelude.Int.{ℤ, pos, pos_part, leb_ℤ}
use toss_trader.Models.Signal.{Side, buy, sell, SignalError, TradeSignal, trade_signal}

-- A rational number: a sum over a positive count.
pub record Average : Type 0 where
  pub total : ℕ
  pub count : ℕ

infix 50 ◌<ₐ◌ ◌≤ₐ◌
abbrev pub ◌<ₐ◌ : Average → Average → Bool
a <ₐ b = ltb (a.total * b.count) (b.total * a.count)

abbrev pub ◌≤ₐ◌ : Average → Average → Bool
a ≤ₐ b = leb (a.total * b.count) (b.total * a.count)

-- a price as an average
abbrev pub exactly : ℕ → Average
exactly price = record { total = price; count = 1 }

abbrev pub sum_ℕ : List ℕ → ℕ
sum_ℕ [] = 0
sum_ℕ (x ∷ xs) = x + sum_ℕ xs

-- `values[-n:]`, for a positive n
abbrev pub last {ℓ} : {A : Type ℓ} → ℕ → List A → List A
last n xs = drop (length xs - n) xs

-- `values[:-1]`
abbrev pub but_last {ℓ} : {A : Type ℓ} → List A → List A
but_last xs = take (length xs - 1) xs

-- `_average`
abbrev pub average : List ℕ → Average
average xs = record { total = sum_ℕ xs; count = length xs }

pub data Relation : Type 0 where
  above below equal : Relation

pub data Label : Type 0 where
  crossed_above crossed_below trend_entry : Label

pub data StrategyError : Type 0 where
  bad_windows too_few_closes close_not_positive : StrategyError
  bad_signal : SignalError → StrategyError

pub record MaCrossoverEvaluation : Type 0 where
  pub signal : Option TradeSignal
  pub close : ℕ
  pub short_ma : Average
  pub long_ma : Average
  pub relation : Relation

-- The texts that a signal carries: its id from the key, and its reason from the label; formatting is a parameter.
pub record Wording : Type 0 where
  -- f"ma-{short}-{long}-{symbol}-{key}"
  pub signal_id : ℕ → ℕ → String → String → String
  -- f"MA{short}/MA{long} {label}"
  pub reason : ℕ → ℕ → Label → String
  -- f"MA{short}/MA{long} trend continuation", and the id with "-cont-"
  pub continuation_reason : ℕ → ℕ → String
  pub continuation_id : ℕ → ℕ → String → String → String

abbrev pub relation_of : Average → Average → Relation
relation_of short long = if long <ₐ short then above else if short <ₐ long then below else equal

-- the chain of `if`s that settles the side and the label
unfoldable pub crossing : Average → Average → Average → Average → Bool → Option (Side × Label)
crossing previous_short previous_long short long allow_trend_entry =
    if (previous_short ≤ₐ previous_long) && (long <ₐ short)
    then some (buy, crossed_above)
    else if (previous_long ≤ₐ previous_short) && (short <ₐ long)
    then some (sell, crossed_below)
    else if allow_trend_entry && (long <ₐ short)
    then some (buy, trend_entry)
    else none

-- `entry_key if label == "trend entry" and entry_key else as_of.isoformat()`
abbrev pub signal_key : Label → Option String → String → String
signal_key crossed_above entry_key as_of = as_of
signal_key crossed_below entry_key as_of = as_of
signal_key trend_entry none as_of = as_of
signal_key trend_entry (some key) as_of = if str_eq key "" then as_of else key

abbrev pub last_close : List ℕ → ℕ
last_close [] = 0
last_close (x ∷ []) = x
last_close (x ∷ (y ∷ ys)) = last_close (y ∷ ys)

abbrev pub as_strategy {ℓ} : {A : Type ℓ} → Result SignalError A → Result StrategyError A
as_strategy (ok a) = ok a
as_strategy (err e) = err (bad_signal e)

-- The arguments of `evaluate_ma_crossover`. The closes come as the code gets them, unchecked; `as_of` is the
-- ISO text of the time.
pub record CrossoverInputs : Type 0 where
  pub symbol : String
  pub closes : List ℤ
  pub as_of : String
  pub quantity : ℤ
  pub short_window : ℤ
  pub long_window : ℤ
  pub allow_trend_entry : Bool
  pub entry_key : Option String

abbrev pub signal_of :
    Wording
    → CrossoverInputs
    → ℕ
    → Option (Side × Label)
    → Result StrategyError (Option TradeSignal)
signal_of w i close none = ok none
signal_of w i close (some (side, label)) = do
  s ← as_strategy (
      trade_signal
        (w.signal_id (pos_part i.short_window) (pos_part i.long_window) i.symbol
          (signal_key label i.entry_key i.as_of))
        i.symbol side (pos close) i.quantity
        (w.reason (pos_part i.short_window) (pos_part i.long_window) label))
  ok (some s)

-- The body after the checks, on windows and closes that passed them.
unfoldable pub evaluate_closes :
    Wording → CrossoverInputs → ℕ → ℕ → List ℕ → Result StrategyError MaCrossoverEvaluation
evaluate_closes w i short_window long_window closes =
    let previous = but_last closes in
    let short_ma = average (last short_window closes) in
    let long_ma = average (last long_window closes) in
    (do
      signal ← signal_of w i (last_close closes) (
          crossing (average (last short_window previous)) (average (last long_window previous))
            short_ma long_ma i.allow_trend_entry)
      ok (record {
        signal = signal;
        close = last_close closes;
        short_ma = short_ma;
        long_ma = long_ma;
        relation = relation_of short_ma long_ma;
      }))

abbrev pub naturals : List ℤ → List ℕ
naturals [] = []
naturals (x ∷ xs) = pos_part x ∷ naturals xs

unfoldable pub evaluate_ma_crossover :
    Wording → CrossoverInputs → Result StrategyError MaCrossoverEvaluation
evaluate_ma_crossover w i = do
  raise_if
      (leb_ℤ i.short_window (pos 0)
        || leb_ℤ i.long_window (pos 0)
        || leb_ℤ i.long_window i.short_window)
      bad_windows
  raise_if (ltb (length i.closes) (pos_part i.long_window + 1)) too_few_closes
  raise_if (any (λ c. leb_ℤ c (pos 0)) i.closes) close_not_positive
  evaluate_closes w i (pos_part i.short_window) (pos_part i.long_window) (naturals i.closes)

-- `ma_trend_continuation_signal`
unfoldable pub ma_trend_continuation_signal :
    Wording
    → MaCrossoverEvaluation
    → String
    → ℕ
    → ℕ
    → ℤ
    → String
    → Result SignalError (Option TradeSignal)
ma_trend_continuation_signal w e symbol short_window long_window quantity entry_key =
    if is_some e.signal || not ((e.short_ma <ₐ exactly e.close) && (e.long_ma <ₐ e.short_ma))
    then ok none
    else (do
      s ←
          trade_signal (w.continuation_id short_window long_window symbol entry_key) symbol buy
            (pos e.close) quantity (w.continuation_reason short_window long_window)
      ok (some s))
