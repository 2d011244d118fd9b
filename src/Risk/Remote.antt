-- ===== src/Risk/Remote.antt =====
-- `N8nRiskManager` of src/toss_trader/risk.py: the payload of a call, and the decision that its answer makes. The
-- webhook is an argument: it answers the JSON that `json.load` reads, or nothing where an exception is caught.
use toss_trader.Prelude.{
  ℕ, ◌/◌, ◌==◌, Bool, true, false, not, ◌&&◌, ◌||◌, String, List, [], ◌∷◌, Option, none, some, ltb,
  text_length, text_ltb, Result, ok, raise_if, ◌>>◌, if◌then◌else◌,
}
use Prim.Native.Char.{code}
use toss_trader.Prelude.Int.{ℤ, pos}
use toss_trader.Models.Time.{DateTime}
use toss_trader.Models.Signal.{Side, buy, sell, TradeSignal}
use toss_trader.Client.Http.{
  Json, null, boolean, number, text, list, object, Items, nil, item, Members, empty, member, get,
}
use toss_trader.Risk.{
  RiskLimits, RiskContext, RiskDecision, Violation, remote, workflow_unavailable, AdvisorStatus,
  approved, rejected, unavailable, advisory_approved, advisory_rejected, advisory_unavailable,
}
use toss_trader.Risk.Universe.{UniverseCandidateRisk}

-- The texts of the values in a payload.
pub record Printer : Type 0 where
  -- `str` of a Decimal that counts units of money, of a quantity, and of a rate
  pub money : ℤ → String
  pub quantity : ℤ → String
  pub rate : ℤ → String
  pub isoformat : DateTime → String

-- `self`, and the environment's names that `_call` sends.
pub record N8nRiskManager : Type 0 where
  pub webhook_url : String
  pub token : String
  pub limits : RiskLimits
  pub parent : Members

pub data RemoteError : Type 0 where
  bad_url short_token : RemoteError

abbrev pub starts_with : String → String → Bool
starts_with String.[] s = true
starts_with (String.◌∷◌ c prefix) String.[] = false
starts_with (String.◌∷◌ c prefix) (String.◌∷◌ d s) = (code c == code d) && starts_with prefix s

-- `__init__`
unfoldable pub n8n_risk_manager :
    String → String → RiskLimits → Members → Result RemoteError N8nRiskManager
n8n_risk_manager webhook_url token limits parent = do
  raise_if (not (starts_with "http://" webhook_url || starts_with "https://" webhook_url)) bad_url
  raise_if (ltb (text_length token) 16) short_token
  ok (record { webhook_url = webhook_url; token = token; limits = limits; parent = parent })

-- `_risk_limits_payload`
abbrev pub risk_limits_payload : Printer → RiskLimits → ℕ → Json
risk_limits_payload p l policy_version = object (
    member "policyVersion" (number (pos policy_version)) (
      member "maxOrderNotional" (text (p.money l.max_order_notional)) (
        member "maxPositionNotional" (text (p.money l.max_position_notional)) (
          member "maxDailyBuyCount" (number (pos l.max_daily_buy_count)) (
            member "maxOpenPositions" (number (pos l.max_open_positions)) (
              member "dailyLossLimit" (text (p.rate l.daily_loss_limit)) (
                member "maxConsecutiveApiErrors" (number (pos l.max_consecutive_api_errors)) (
                  member "blockNewBuysBeforeCloseSeconds"
                    (number (pos (l.block_new_buys_before_close / 1_000_000))) empty))))))))

-- `signal.side.value`
abbrev pub side_text : Side → String
side_text buy = "BUY"
side_text sell = "SELL"

-- `_trade_signal_payload`
abbrev pub trade_signal_payload : Printer → TradeSignal → Json
trade_signal_payload p s = object (
    member "signalId" (text s.signal_id) (
      member "symbol" (text s.symbol) (
        member "side" (text (side_text s.side)) (
          member "referencePrice" (text (p.money (pos s.reference_price))) (
            member "quantity" (text (p.quantity (pos s.quantity)))
              (member "reason" (text s.reason) empty))))))

abbrev pub time_or_null : Printer → Option DateTime → Json
time_or_null p none = null
time_or_null p (some t) = text (p.isoformat t)

abbrev pub money_or_null : Printer → Option ℤ → Json
money_or_null p none = null
money_or_null p (some z) = text (p.money z)

abbrev pub text_or_null : Option String → Json
text_or_null none = null
text_or_null (some s) = text s

abbrev pub status_text : Option AdvisorStatus → Json
status_text none = null
status_text (some approved) = text "approved"
status_text (some rejected) = text "rejected"
status_text (some unavailable) = text "unavailable"
status_text (some advisory_approved) = text "advisory-approved"
status_text (some advisory_rejected) = text "advisory-rejected"
status_text (some advisory_unavailable) = text "advisory-unavailable"

abbrev insert_text : String → List String → List String
insert_text s [] = s ∷ []
insert_text s (t ∷ rest) = if text_ltb t s then t ∷ insert_text s rest else s ∷ (t ∷ rest)

-- `sorted(context.seen_signal_ids)`, as a JSON list
abbrev pub sorted_ids : List String → List String
sorted_ids [] = []
sorted_ids (s ∷ rest) = insert_text s (sorted_ids rest)

abbrev pub texts : List String → Items
texts [] = nil
texts (s ∷ rest) = item (text s) (texts rest)

-- `_risk_context_payload`
abbrev pub risk_context_payload : Printer → RiskContext → Json
risk_context_payload p c = object (
    member "now" (text (p.isoformat c.now)) (
      member "marketCloseAt" (time_or_null p c.market_close_at) (
        member "marketIsBusinessDay" (boolean c.market_is_business_day) (
          member "positionNotional" (text (p.money c.position_notional)) (
            member "positionQuantity" (text (p.quantity c.position_quantity)) (
              member "availableCash" (money_or_null p c.available_cash) (
                member "dailyBuyCount" (number (pos c.daily_buy_count)) (
                  member "openPositionCount" (number (pos c.open_position_count)) (
                    member "dailyReturnRate" (text (p.rate c.daily_return_rate)) (
                      member "consecutiveApiErrors" (number (pos c.consecutive_api_errors)) (
                        member "seenSignalIds" (list (texts (sorted_ids c.seen_signal_ids))) (
                          member "newBuysAllowed" (boolean c.new_buys_allowed) (
                            member "advisorStatus" (status_text c.advisor_status) (
                              member "advisorRationale" (text_or_null c.advisor_rationale)
                                empty))))))))))))))

-- the texts of a list of texts
abbrev pub violations_of : Items → Option (List Violation)
violations_of nil = some []
violations_of (item (text t) rest) = elim (violations_of rest) [
  | none ↦ none
  | some vs ↦ some (remote t ∷ vs)
]
violations_of (item null rest) = none
violations_of (item (boolean b) rest) = none
violations_of (item (number n) rest) = none
violations_of (item (list l) rest) = none
violations_of (item (object o) rest) = none

abbrev pub decided : Bool → Option (List Violation) → Option RiskDecision
decided b none = none
decided b (some vs) = some (record { approved = b; violations = vs })

abbrev pub decision_of : Option Json → Option Json → Option RiskDecision
decision_of (some (boolean b)) (some (list items)) = decided b (violations_of items)
decision_of approved_value violations = none

-- `_remote_decision`, `none` where it raises
unfoldable pub remote_decision : Json → Option RiskDecision
remote_decision (object payload) = decision_of (get "approved" payload) (get "violations" payload)
remote_decision null = none
remote_decision (boolean b) = none
remote_decision (number n) = none
remote_decision (text t) = none
remote_decision (list l) = none

abbrev pub unavailable_decision : RiskDecision
unavailable_decision = record { approved = false; violations = workflow_unavailable ∷ [] }

abbrev pub or_unavailable : Option RiskDecision → RiskDecision
or_unavailable none = unavailable_decision
or_unavailable (some d) = d

abbrev pub answer_decision : Option Json → RiskDecision
answer_decision none = unavailable_decision
answer_decision (some result) = or_unavailable (remote_decision result)

-- the body of a call: the payload with the limits and the parent
abbrev pub request_body : Printer → N8nRiskManager → (Members → Members) → ℕ → Json
request_body p m payload policy_version = object (
    payload (
      member "limits" (risk_limits_payload p m.limits policy_version)
        (member "parent" (object m.parent) empty)))

-- `_call`
unfoldable pub call :
    (Json → Option Json) → Printer → N8nRiskManager → (Members → Members) → ℕ → RiskDecision
call webhook p m payload policy_version =
    answer_decision (webhook (request_body p m payload policy_version))

abbrev pub trade_payload : Printer → TradeSignal → RiskContext → Members → Members
trade_payload p s c rest =
    member "kind" (text "trade") (
      member "signal" (trade_signal_payload p s) (member "context" (risk_context_payload p c) rest))

-- `evaluate`
unfoldable pub evaluate_remote :
    (Json → Option Json) → Printer → N8nRiskManager → TradeSignal → RiskContext → RiskDecision
evaluate_remote webhook p m s c = call webhook p m (trade_payload p s c) 1

pub record UniverseRiskContext : Type 0 where
  pub quantity : ℤ
  pub available_cash : ℤ
  pub daily_return_rate : ℤ
  pub consecutive_api_errors : ℕ

abbrev pub universe_payload :
    Printer → UniverseCandidateRisk → UniverseRiskContext → Members → Members
universe_payload p u c rest = member "kind" (text "universe") (
    member "candidate"
      (object (
        member "symbol" (text u.symbol) (
          member "referencePrice" (text (p.money u.reference_price)) (
            member "securityType" (text u.security_type) (
              member "isCommonShare" (boolean u.is_common_share) (
                member "status" (text u.status)
                  (member "tradingSuspended" (boolean u.trading_suspended) empty)))))))
      (member "context"
        (object (
          member "quantity" (text (p.quantity c.quantity)) (
            member "availableCash" (text (p.money c.available_cash)) (
              member "dailyReturnRate" (text (p.rate c.daily_return_rate))
                (member "consecutiveApiErrors" (number (pos c.consecutive_api_errors)) empty)))))
        rest))

-- `evaluate_universe_candidate`
unfoldable pub evaluate_remote_universe :
    (Json → Option Json)
    → Printer
    → N8nRiskManager
    → UniverseCandidateRisk
    → UniverseRiskContext
    → RiskDecision
evaluate_remote_universe webhook p m u c = call webhook p m (universe_payload p u c) 2
