-- ===== src/Execution.antt =====
-- `PaperTradingService` of src/toss_trader/execution.py: the context that the ledger gives, the preflight, the
-- advisor, the risk manager, the audit row and the fill.
pub mod Decision
pub mod Steps
pub mod Solvency
pub mod Audit
pub mod Once
mod Tests
use toss_trader.Prelude.{
  ℕ, ◌*◌, ◌≡◌, Bool, true, false, ◌&&◌, String, List, [], ◌∷◌, Option, none, some, length, str_eq,
  Result, ok, err, if◌then◌else◌,
}
use toss_trader.Prelude.Int.{ℤ, pos, ◌-ℤ◌}
use toss_trader.Models.Time.{DateTime, day_of}
use toss_trader.Models.Signal.{Side, buy, sell, is_buy, TradeSignal, PaperFill}
use toss_trader.Costs.{total, toss_trade_costs}
use toss_trader.Risk.{
  RiskContext, RiskDecision, AdvisorStatus, approved, rejected, unavailable, advisory_approved,
  advisory_rejected, advisory_unavailable, default_limits, evaluate,
}
use toss_trader.Ledger.{
  Ledger, LedgerError, execute, record_risk_decision, daily_buy_count, cash_balance,
  position_quantity, position_quantities, marked_notional, seen_signal_ids,
}

pub record TradeAdvice : Type 0 where
  pub approved : Bool
  pub rationale : String

-- The fields of the service. An advisor that raises answers `none`; both it and the risk manager may
-- be remote, so they are arguments.
pub record Service : Type 0 where
  pub cent : ℕ
  -- units of a return rate in 0.01
  pub rate : ℕ
  pub portfolio : String
  pub initial_cash : ℤ
  pub risk_manager : TradeSignal → RiskContext → RiskDecision
  pub advisor : Option (TradeSignal → RiskContext → Option TradeAdvice)

-- The keyword arguments of `submit`, and the two ids that `uuid4` makes on the way. `market_review` is passed on to
-- the advisor alone and belongs to that argument, as does the evidence of an advice, which no step reads.
pub record Request : Type 0 where
  pub now : DateTime
  pub market_close_at : Option DateTime
  pub market_is_business_day : Bool
  pub daily_return_rate : ℤ
  pub consecutive_api_errors : ℕ
  pub new_buys_allowed : Bool
  pub decision_id : ℕ
  pub fill_id : ℕ

pub record PaperExecutionResult : Type 0 where
  pub decision : RiskDecision
  pub fill : Option PaperFill
  pub decision_id : ℕ

-- The `RiskContext(…)` of `submit`.
abbrev pub context_of : Service → Request → TradeSignal → Ledger → RiskContext
context_of v q s l = record {
  now = q.now;
  market_close_at = q.market_close_at;
  market_is_business_day = q.market_is_business_day;
  position_notional = marked_notional v.portfolio s.symbol s.reference_price l;
  position_quantity = position_quantity v.portfolio s.symbol l;
  available_cash = some (
      if is_buy s.side
      then cash_balance v.portfolio v.initial_cash l -ℤ pos (total (toss_trade_costs v.cent s))
      else cash_balance v.portfolio v.initial_cash l);
  daily_buy_count = daily_buy_count v.portfolio (day_of q.now) l;
  open_position_count = length (position_quantities v.portfolio l);
  daily_return_rate = q.daily_return_rate;
  consecutive_api_errors = q.consecutive_api_errors;
  seen_signal_ids = seen_signal_ids v.portfolio l;
  new_buys_allowed = q.new_buys_allowed;
  advisor_status = none;
  advisor_rationale = none;
}

-- HERMES_HUNTER_SIGNAL_REASON
abbrev pub hunter_reason : String
hunter_reason = "hermes Hunter momentum reclaim"

abbrev pub advisory_only : TradeSignal → Bool
advisory_only s = is_buy s.side && str_eq s.reason hunter_reason

-- The context after the advisor has answered, or raised.
unfoldable pub advised : TradeSignal → RiskContext → Option TradeAdvice → RiskContext
advised s c (some a) = record c {
  advisor_status = some (
      if advisory_only s
      then if a.approved then advisory_approved else advisory_rejected
      else if a.approved
      then approved
      else rejected);
  advisor_rationale = some a.rationale;
}
advised s c none = record c {
  advisor_status = some (if advisory_only s then advisory_unavailable else unavailable);
}

-- The decision and the context that it was made in. With an advisor a preflight against the default
-- limits comes first, and its refusal is final.
unfoldable pub decide : Service → TradeSignal → RiskContext → RiskDecision × RiskContext
decide v s c = elim v.advisor [
  | none ↦ (v.risk_manager s c, c)
  | some advise ↦
      if (evaluate (default_limits (100 * v.cent) v.rate) s c).approved
      then (v.risk_manager s (advised s c (advise s c)), advised s c (advise s c))
      else (evaluate (default_limits (100 * v.cent) v.rate) s c, c)
]

-- The result of `submit`, of the outcome of `execute`.
abbrev pub filled :
    Request
    → RiskDecision
    → Result LedgerError PaperFill × Ledger
    → Result LedgerError PaperExecutionResult × Ledger
filled q d (ok fill, l) =
    (ok (record { decision = d; fill = some fill; decision_id = q.decision_id }), l)
filled q d (err e, l) = (err e, l)

-- The last step of `submit`, once the decision is on record.
unfoldable pub settle :
    Service
    → Request
    → TradeSignal
    → RiskDecision
    → Ledger
    → Result LedgerError PaperExecutionResult × Ledger
settle v q s d l =
    if d.approved
    then filled q d (execute v.cent v.portfolio q.fill_id s q.now l)
    else (ok (record { decision = d; fill = none; decision_id = q.decision_id }), l)

-- `submit` after `record_risk_decision`, which may raise.
abbrev pub audited :
    Service
    → Request
    → TradeSignal
    → RiskDecision
    → Result LedgerError ℕ × Ledger
    → Result LedgerError PaperExecutionResult × Ledger
audited v q s d (ok id, l) = settle v q s d l
audited v q s d (err e, l) = (err e, l)

-- `submit`
unfoldable pub submit :
    Service → Request → TradeSignal → Ledger → Result LedgerError PaperExecutionResult × Ledger
submit v q s l =
    let (d, c) = decide v s (context_of v q s l) in
    audited v q s d (record_risk_decision v.portfolio q.decision_id s d c q.now l)

-- A sequence of submissions; one that raises ends only itself.
unfoldable pub submit_all : Service → List (Request × TradeSignal) → Ledger → Ledger
submit_all v [] l = l
submit_all v ((q, s) ∷ rest) l = submit_all v rest (submit v q s l).1
