-- ===== src/Ledger/Plans.antt =====
-- The position plans of `PaperLedger`: `upsert_v2_position_plan`, `v2_position_plan`,
-- `mark_v2_exit_pending` and `delete_v2_position_plan`, with the sums of `PaperTradingService` over them.
use toss_trader.Prelude.{
  ◌≡◌, refl, Bool, not, ◌&&◌, String, List, [], ◌∷◌, map, Option, none, some, keep, any, str_eq,
  eq_iff, arith, if◌then◌else◌, Result, ok, err,
}
use toss_trader.Prelude.Int.{ℤ, sum}
use toss_trader.Models.Time.{DateTime, is_naive}
use toss_trader.Models.Signal.{is_blank}
use toss_trader.Models.Plan.{V2PositionPlan}
use toss_trader.Ledger.{Ledger, PlanRow}

-- `WHERE portfolio_id=? AND symbol=?`, the primary key of the table
abbrev pub is_key : String → String → PlanRow → Bool
is_key p symbol r = str_eq r.portfolio_id p && str_eq r.plan.symbol symbol

-- INSERT … ON CONFLICT (portfolio_id, symbol) DO UPDATE
abbrev pub upsert_row : PlanRow → List PlanRow → List PlanRow
upsert_row new [] = new ∷ []
upsert_row new (r ∷ rows) =
    if is_key new.portfolio_id new.plan.symbol r then new ∷ rows else r ∷ upsert_row new rows

unfoldable pub upsert_v2_position_plan : String → V2PositionPlan → Ledger → Ledger
upsert_v2_position_plan p plan l = record l {
  plans = upsert_row (record { portfolio_id = p; plan = plan }) l.plans;
}

abbrev pub find_plan : String → String → List PlanRow → Option V2PositionPlan
find_plan p symbol [] = none
find_plan p symbol (r ∷ rows) = if is_key p symbol r then some r.plan else find_plan p symbol rows

unfoldable pub v2_position_plan : String → String → Ledger → Option V2PositionPlan
v2_position_plan p symbol l = find_plan p symbol l.plans

-- The plans of `v2_position_plans`.
unfoldable pub v2_position_plans : String → Ledger → List V2PositionPlan
v2_position_plans p l = map (λ r. r.plan) (keep (λ r. str_eq r.portfolio_id p) l.plans)

pub data PlanUpdateError : Type 0 where
  empty_reason naive_time plan_not_found : PlanUpdateError

abbrev pub pending : String → DateTime → PlanRow → PlanRow
pending reason triggered_at r = record r {
  plan = record r.plan { exit_pending_reason = some reason; exit_triggered_at = some triggered_at };
}

-- UPDATE … SET exit_pending_reason=?, exit_triggered_at=?
abbrev pub mark_rows : String → String → String → DateTime → List PlanRow → List PlanRow
mark_rows p symbol reason at [] = []
mark_rows p symbol reason at (r ∷ rows) =
    (if is_key p symbol r then pending reason at r else r) ∷ mark_rows p symbol reason at rows

-- `mark_v2_exit_pending`; the key is primary, so the update meets one row or none.
unfoldable pub mark_v2_exit_pending :
    String → String → String → DateTime → Ledger → Result PlanUpdateError (Unit {0}) × Ledger
mark_v2_exit_pending p symbol reason at l =
    if is_blank reason
    then (err empty_reason, l)
    else if is_naive at
    then (err naive_time, l)
    else if any (is_key p symbol) l.plans
    then (ok tt, record l { plans = mark_rows p symbol reason at l.plans })
    else (err plan_not_found, l)

unfoldable delete_v2_position_plan : String → String → Ledger → Ledger
delete_v2_position_plan p symbol l = record l {
  plans = keep (λ r. not (is_key p symbol r)) l.plans;
}

-- `open_v2_heat`
unfoldable pub open_v2_heat : String → Ledger → ℤ
open_v2_heat p l = sum (map (λ plan. plan.planned_heat) (v2_position_plans p l))

-- `cluster_v2_heat`, after its check of the cluster id
unfoldable pub cluster_v2_heat : String → String → Ledger → ℤ
cluster_v2_heat p cluster_id l = sum (
    map (λ plan. plan.planned_heat)
      (keep (λ plan. str_eq plan.cluster_id cluster_id) (v2_position_plans p l)))

module _ (p q symbol : String) (l : Ledger) where
  find_plan-upsert :
      (plan : V2PositionPlan) (rows : List PlanRow)
      → find_plan q symbol (upsert_row (record { portfolio_id = p; plan = plan }) rows)
        ≡ (if str_eq p q && str_eq plan.symbol symbol then some plan else find_plan q symbol rows)
  find_plan-upsert plan [] = refl
  find_plan-upsert plan (r ∷ rows) = ground (
    arith,
    eq_iff p q,
    eq_iff r.portfolio_id p,
    eq_iff r.portfolio_id q,
    eq_iff plan.symbol symbol,
    eq_iff r.plan.symbol plan.symbol,
    eq_iff r.plan.symbol symbol,
    find_plan-upsert plan rows,
  )

  -- A stored plan is read back under its portfolio and symbol, and no other plan changes.
  pub plan-upsert :
      (plan : V2PositionPlan)
      → v2_position_plan q symbol (upsert_v2_position_plan p plan l) ≡ (
          if str_eq p q && str_eq plan.symbol symbol
          then some plan
          else v2_position_plan q symbol l)
  unfolding v2_position_plan upsert_v2_position_plan
  plan-upsert plan = find_plan-upsert plan l.plans

  find_plan-delete :
      (symbol' : String) (rows : List PlanRow)
      → find_plan q symbol (keep (λ r. not (is_key p symbol' r)) rows)
        ≡ (if str_eq p q && str_eq symbol' symbol then none else find_plan q symbol rows)
  find_plan-delete symbol' [] = ground arith
  find_plan-delete symbol' (r ∷ rows) = ground (
    arith,
    eq_iff p q,
    eq_iff r.portfolio_id p,
    eq_iff r.portfolio_id q,
    eq_iff symbol' symbol,
    eq_iff r.plan.symbol symbol',
    eq_iff r.plan.symbol symbol,
    find_plan-delete symbol' rows,
  )

  -- A deleted plan is gone, and no other plan changes.
  plan-delete :
      (symbol' : String)
      → v2_position_plan q symbol (delete_v2_position_plan p symbol' l)
        ≡ (if str_eq p q && str_eq symbol' symbol then none else v2_position_plan q symbol l)
  unfolding v2_position_plan delete_v2_position_plan
  plan-delete symbol' = find_plan-delete symbol' l.plans
