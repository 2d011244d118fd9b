-- ===== src/Models/Plan.antt =====
-- `V2PositionPlan` of src/toss_trader/models.py, with the checks of its `__post_init__`.
use toss_trader.Prelude.{
  ℕ, Bool, true, false, not, String, List, [], ◌∷◌, Option, none, some, any, is_some, Result, ok,
  raise_if, ◌>>◌,
}
use toss_trader.Prelude.Int.{ℤ, pos, leb_ℤ, min_ℤ}
use toss_trader.Models.Time.{DateTime, is_naive}
use toss_trader.Models.Signal.{symbol_matches, is_blank}

pub record V2PositionPlan : Type 0 where
  pub symbol : String
  pub cluster_id : String
  pub setup_session : ℕ
  pub setups : List String
  pub quantity : ℤ
  pub entry_price : ℤ
  pub stop_price : ℤ
  pub planned_heat : ℤ
  pub ma50 : ℤ
  pub signal_close : ℤ
  pub opened_at : DateTime
  pub exit_pending_reason : Option String
  pub exit_triggered_at : Option DateTime

pub data PlanError : Type 0 where
  unsupported_symbol empty_cluster_id empty_setups not_positive stop_not_below_entry : PlanError
  heat_not_positive naive_opened_at pending_mismatch naive_triggered_at : PlanError

-- `not self.setups or any(not value.strip() for value in self.setups)`
abbrev pub setups_missing : List String → Bool
setups_missing [] = true
setups_missing (s ∷ r) = any is_blank (s ∷ r)

abbrev pub smallest : V2PositionPlan → ℤ
smallest p =
    min_ℤ (min_ℤ (min_ℤ (min_ℤ p.quantity p.entry_price) p.stop_price) p.ma50) p.signal_close

-- the reason and the time of a pending exit are not both set or both missing
abbrev pub half_pending : V2PositionPlan → Bool
half_pending p = elim (is_some p.exit_pending_reason) [
  | true ↦ not (is_some p.exit_triggered_at)
  | false ↦ is_some p.exit_triggered_at
]

abbrev pub triggered_naive : Option DateTime → Bool
triggered_naive none = false
triggered_naive (some t) = is_naive t

unfoldable pub plan_post_init : V2PositionPlan → Result PlanError V2PositionPlan
plan_post_init p = do
  raise_if (not (symbol_matches p.symbol)) unsupported_symbol
  raise_if (is_blank p.cluster_id) empty_cluster_id
  raise_if (setups_missing p.setups) empty_setups
  raise_if (leb_ℤ (smallest p) (pos 0)) not_positive
  raise_if (leb_ℤ p.entry_price p.stop_price) stop_not_below_entry
  raise_if (leb_ℤ p.planned_heat (pos 0)) heat_not_positive
  raise_if (is_naive p.opened_at) naive_opened_at
  raise_if (half_pending p) pending_mismatch
  raise_if (triggered_naive p.exit_triggered_at) naive_triggered_at
  ok p
