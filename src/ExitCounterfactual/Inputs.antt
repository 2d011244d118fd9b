-- ===== src/ExitCounterfactual/Inputs.antt =====
-- The variants, the trades and the checks of src/toss_trader/exit_counterfactual.py.
use toss_trader.Prelude.{
  ℕ, ◌+◌, Bool, true, false, not, ◌||◌, ◌&&◌, String, List, [], ◌∷◌, Option, length, any, ltb,
  str_eq, Result, ok, raise_if, ◌>>◌,
}
use toss_trader.Prelude.Int.{ℤ, pos, pos_part, leb_ℤ, ltb_ℤ, eqb_ℤ}
use toss_trader.Prelude.Dict.{Dict}
use toss_trader.Models.Time.{DateTime, instant}
use toss_trader.Models.Signal.{SignalError, is_blank}
use toss_trader.Models.Candle.{Candle, Interval, one_minute, one_day, unknown}

pub data ExitPolicy : Type 0 where
  dead_cross min_hold atr_trailing : ExitPolicy

-- `atr_multiple` counts `one`ths of 1.
pub record ExitVariant : Type 0 where
  pub name : String
  pub policy : ExitPolicy
  pub min_hold_bars : ℤ
  pub atr_period : ℤ
  pub atr_multiple : ℤ

-- The texts of `pending` and of `exit_reason`.
pub data Reason : Type 0 where
  entry dead_crossed min_hold_dead_crossed atr_stop : Reason

-- The excursion rates of the source are the excursions here over the entry price.
pub record ExitCounterfactualTrade : Type 0 where
  pub symbol : String
  pub variant : String
  pub entered_at : DateTime
  pub exited_at : Option DateTime
  pub entry_price : ℕ
  pub exit_price : Option ℕ
  pub held_bars : ℕ
  pub exit_reason : Option Reason
  pub realized_pnl : ℤ
  pub marked_pnl : ℤ
  pub actual_costs : ℕ
  pub favorable_excursion : ℤ
  pub adverse_excursion : ℤ

-- `_OpenTrade`
pub record OpenTrade : Type 0 where
  pub entered_at : DateTime
  pub entry_index : ℕ
  pub entry_price : ℕ
  pub cost_basis : ℕ
  pub buy_costs : ℕ
  pub high_water : ℤ
  pub low_water : ℤ
  pub trailing_stop : Option ℤ

pub data ExitError : Type 0 where
  no_candles bad_variants quantity_not_positive bad_windows bad_slippage blank_name bad_min_hold :
      ExitError
  bad_atr mixed_atr_periods too_few_candles foreign_candles unordered_candles : ExitError
  bad_signal : SignalError → ExitError

abbrev pub is_min_hold : ExitPolicy → Bool
is_min_hold min_hold = true
is_min_hold dead_cross = false
is_min_hold atr_trailing = false

abbrev pub is_atr : ExitPolicy → Bool
is_atr atr_trailing = true
is_atr dead_cross = false
is_atr min_hold = false

-- `len({variant.name …}) != len(variants)`
abbrev pub repeats_name : List ExitVariant → Bool
repeats_name [] = false
repeats_name (v ∷ vs) = any (λ (w : ExitVariant). str_eq w.name v.name) vs || repeats_name vs

abbrev pub is_none_given {ℓ} : {A : Type ℓ} → List A → Bool
is_none_given [] = true
is_none_given (x ∷ xs) = false

abbrev pub check_variant : ExitVariant → Result ExitError (Unit {0})
check_variant v = do
  raise_if (is_blank v.name) blank_name
  raise_if (is_min_hold v.policy && leb_ℤ v.min_hold_bars (pos 0)) bad_min_hold
  raise_if (leb_ℤ v.atr_period (pos 0) || leb_ℤ v.atr_multiple (pos 0)) bad_atr
  ok tt

abbrev pub check_variants : List ExitVariant → Result ExitError (Unit {0})
check_variants [] = ok tt
check_variants (v ∷ vs) = do check_variant v; check_variants vs

-- some two ATR variants have different periods
abbrev pub mixes_periods : List ExitVariant → Bool
mixes_periods [] = false
mixes_periods (v ∷ vs) =
    (is_atr v.policy
      && any (λ (w : ExitVariant). is_atr w.policy && not (eqb_ℤ w.atr_period v.atr_period)) vs)
    || mixes_periods vs

abbrev pub is_minute : Interval → Bool
is_minute one_minute = true
is_minute one_day = false
is_minute (unknown _) = false

abbrev pub goes_back : List Candle → Bool
goes_back [] = false
goes_back (a ∷ []) = false
goes_back (a ∷ (b ∷ rest)) =
    leb_ℤ (instant b.timestamp) (instant a.timestamp) || goes_back (b ∷ rest)

abbrev pub check_series : ℤ → Dict (List Candle) → Result ExitError (Unit {0})
check_series long_window [] = ok tt
check_series long_window ((symbol, candles) ∷ rest) = do
  raise_if (ltb (length candles) (pos_part long_window + 1)) too_few_candles
  raise_if
      (any (λ (c : Candle). not (str_eq c.symbol symbol) || not (is_minute c.interval)) candles)
      foreign_candles
  raise_if (goes_back candles) unordered_candles
  check_series long_window rest

-- `_validate_matrix_inputs`
unfoldable pub validate_matrix_inputs :
    ℕ → Dict (List Candle) → List ExitVariant → ℤ → ℤ → ℤ → ℤ → Result ExitError (Unit {0})
validate_matrix_inputs one candles variants quantity short_window long_window slippage_rate = do
  raise_if (is_none_given candles) no_candles
  raise_if (is_none_given variants || repeats_name variants) bad_variants
  raise_if (leb_ℤ quantity (pos 0)) quantity_not_positive
  raise_if (leb_ℤ short_window (pos 0) || leb_ℤ long_window short_window) bad_windows
  raise_if (ltb_ℤ slippage_rate (pos 0) || leb_ℤ (pos one) slippage_rate) bad_slippage
  check_variants variants
  raise_if (mixes_periods variants) mixed_atr_periods
  check_series long_window candles
