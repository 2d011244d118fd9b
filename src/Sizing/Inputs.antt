-- ===== src/Sizing/Inputs.antt =====
-- The inputs of `position_size_reference` of src/toss_trader/setup_screening.py, and their checks.
use toss_trader.Prelude.{ℕ, Bool, ◌||◌, String, [], ◌∷◌, any, Result, ok, raise_if, ◌>>◌}
use toss_trader.Prelude.Int.{ℤ, pos, leb_ℤ, ltb_ℤ, min_ℤ}
use toss_trader.Models.Signal.{SignalError}

pub record PositionSizingPolicy : Type 0 where
  pub per_trade_risk_rate : ℤ
  pub max_open_heat_rate : ℤ
  pub max_cluster_heat_rate : ℤ
  pub max_order_notional : ℤ
  pub atr_stop_multiple : ℤ
  pub lot_size : ℤ

pub record SlippageAssumption : Type 0 where
  pub entry_rate : ℤ
  pub exit_rate : ℤ

-- The keyword arguments of `position_size_reference`.
pub record SizingInputs : Type 0 where
  pub symbol : String
  pub equity : ℤ
  pub reference_price : ℤ
  pub stop_price : ℤ
  pub atr : ℤ
  pub available_cash : ℤ
  pub current_open_heat : ℤ
  pub current_cluster_heat : ℤ
  pub policy : PositionSizingPolicy
  pub slippage : SlippageAssumption

pub data SizingError : Type 0 where
  equity_not_positive bad_stop atr_not_positive negative_cash_or_heat bad_risk_rate : SizingError
  policy_not_positive bad_slippage stop_distance_too_large : SizingError
  bad_signal : SignalError → SizingError

pub data LimitingFactor : Type 0 where
  per_trade_risk open_heat cluster_heat max_order available_cash : LimitingFactor
  round_trip_costs below_one_lot : LimitingFactor

-- `not 0 < rate <= 1`
abbrev pub bad_rate : ℕ → ℤ → Bool
bad_rate one rate = leb_ℤ rate (pos 0) || ltb_ℤ (pos one) rate

-- `not 0 <= rate < 1`
abbrev pub bad_slippage_rate : ℕ → ℤ → Bool
bad_slippage_rate one rate = ltb_ℤ rate (pos 0) || leb_ℤ (pos one) rate

-- `_validate_sizing_inputs`
unfoldable pub validate_sizing_inputs : ℕ → SizingInputs → Result SizingError (Unit {0})
validate_sizing_inputs one i = do
  raise_if (leb_ℤ i.equity (pos 0)) equity_not_positive
  raise_if (leb_ℤ i.stop_price (pos 0) || leb_ℤ i.reference_price i.stop_price) bad_stop
  raise_if (leb_ℤ i.atr (pos 0)) atr_not_positive
  raise_if
      (ltb_ℤ (min_ℤ (min_ℤ i.available_cash i.current_open_heat) i.current_cluster_heat) (pos 0))
      negative_cash_or_heat
  raise_if
      (any (bad_rate one) (
        i.policy.per_trade_risk_rate ∷ i.policy.max_open_heat_rate ∷ i.policy.max_cluster_heat_rate
        ∷ []))
      bad_risk_rate
  raise_if
      (leb_ℤ
        (min_ℤ
          (min_ℤ (min_ℤ i.reference_price i.policy.max_order_notional) i.policy.atr_stop_multiple)
          i.policy.lot_size)
        (pos 0))
      policy_not_positive
  raise_if (any (bad_slippage_rate one) (i.slippage.entry_rate ∷ i.slippage.exit_rate ∷ []))
      bad_slippage
  ok tt
