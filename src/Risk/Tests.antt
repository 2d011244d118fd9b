-- ===== src/Risk/Tests.antt =====
-- The risk rules on concrete orders.
use toss_trader.Prelude.{Option, ◌≡◌, ◌↔◌, refl, [], ◌∷◌, none, some, true, false, str_eq}
use toss_trader.Prelude.Int.{pos, leb_ℤ}
use toss_trader.Models.Signal.{buy, TradeSignal}
use toss_trader.Risk.{RiskContext, default_limits, evaluate}
use toss_trader.Risk.Limits.{Permits, evaluate-approved_iff}
use toss_trader.Client.Http.{Json, boolean, text, list, object, nil, empty, member, get_member}
use toss_trader.Risk.Remote.{
  Printer, N8nRiskManager, request_body, trade_payload, evaluate_remote, call, remote_decision,
}
use toss_trader.Risk.Closed.{Approves, evaluate_remote-approved_iff}
use toss_trader.Risk.Universe.{
  UniverseCandidateRisk, evaluate_universe_candidate, evaluate_universe_candidate-approved_iff,
}

abbrev order : TradeSignal
order = record {
  signal_id = "s1";
  symbol = "005930";
  side = buy;
  reference_price = 70_000;
  quantity = 2;
  reason = "cross";
}

abbrev context : RiskContext
context = record {
  now = record { local = 1_000; utcoffset = some (pos 0) };
  market_close_at = none;
  market_is_business_day = true;
  position_notional = pos 0;
  position_quantity = pos 0;
  available_cash = some (pos 100_000_000);
  daily_buy_count = 0;
  open_position_count = 0;
  daily_return_rate = pos 0;
  consecutive_api_errors = 0;
  seen_signal_ids = [];
  new_buys_allowed = true;
  advisor_status = none;
  advisor_rationale = none;
}

evaluate-approved_iff_example :
    ((evaluate (default_limits 100 1) order context).approved ≡ true)
    ↔ Permits (default_limits 100 1) order context
evaluate-approved_iff_example = evaluate-approved_iff (default_limits 100 1) order context

-- An order already seen is refused.
seen_refused :
    (evaluate
      (default_limits 100 1)
      order
      (record context { seen_signal_ids = "s1" ∷ [] })).approved
    ≡ false
unfolding evaluate
seen_refused = refl

abbrev candidate : UniverseCandidateRisk
candidate = record {
  symbol = "005930";
  reference_price = pos 70_000;
  security_type = "STOCK";
  is_common_share = true;
  status = "ACTIVE";
  trading_suspended = false;
}

evaluate_universe_candidate-approved_iff_example :
    ((evaluate_universe_candidate candidate).approved ≡ true) ↔ (
      (str_eq "STOCK" "STOCK" ≡ true)
      × (true ≡ true)
      × (str_eq "ACTIVE" "ACTIVE" ≡ true)
      × (false ≡ false)
      × (leb_ℤ (pos 70_000) (pos 0) ≡ false))
evaluate_universe_candidate-approved_iff_example =
    evaluate_universe_candidate-approved_iff candidate

-- A webhook that approves everything, and one that says so in a text.
abbrev manager : N8nRiskManager
manager = record {
  webhook_url = "https://host/risk";
  token = "0123456789abcdef";
  limits = default_limits 100 1;
  parent = empty;
}

abbrev printer : Printer
printer = record {
  money = λ z. "money";
  quantity = λ z. "quantity";
  rate = λ z. "rate";
  isoformat = λ t. "time";
}

abbrev approving : Json → Option Json
approving request =
    some (object (member "approved" (boolean true) (member "violations" (list nil) empty)))

textual_refused :
    (evaluate_remote
      (λ request. some (object (member "approved" (text "true") empty)))
      printer
      manager
      order
      context).approved
    ≡ false
unfolding evaluate_remote call remote_decision
textual_refused = refl

evaluate_remote-approved_iff_example :
    ((evaluate_remote approving printer manager order context).approved ≡ true)
    ↔ Approves (approving (request_body printer manager (trade_payload printer order context) 1))
evaluate_remote-approved_iff_example =
    evaluate_remote-approved_iff approving printer manager order context

-- The request carries the value of the order's side.
side_sent :
    get_member "side" (
      get_member "signal"
        (some (request_body printer manager (trade_payload printer order context) 1)))
    ≡ some (text "BUY")
side_sent = refl
