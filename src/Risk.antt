-- ===== src/Risk.antt =====
-- `RiskManager` and its data in src/toss_trader/risk.py: the rules that an order must pass. Amounts of
-- money are counts of one unit (Models/Signal.antt), a return rate is a count of a unit of its own.
pub mod Limits
pub mod Universe
pub mod Remote
pub mod Closed
mod Tests
use toss_trader.Prelude.{
  ℕ, ◌*◌, ◌≡◌, Bool, true, false, not, ◌&&◌, String, List, [], ◌∷◌, Option, none, some, leb, ltb,
  any, str_eq, if◌then◌else◌,
}
use toss_trader.Prelude.Int.{ℤ, pos, negsuc, ◌+ℤ◌, ◌-ℤ◌, ltb_ℤ, leb_ℤ}
use toss_trader.Models.Time.{DateTime, instant}
use toss_trader.Models.Signal.{Side, buy, sell, is_buy, is_sell, TradeSignal, notional}

pub record RiskLimits : Type 0 where
  pub max_order_notional : ℤ
  pub max_position_notional : ℤ
  pub max_daily_buy_count : ℕ
  pub max_open_positions : ℕ
  pub daily_loss_limit : ℤ
  pub max_consecutive_api_errors : ℕ
  -- in microseconds
  pub block_new_buys_before_close : ℕ

-- The default values of the fields, at `won` money units to the won and `rate` units to the rate 0.01.
abbrev pub default_limits : ℕ → ℕ → RiskLimits
default_limits won rate = record {
  max_order_notional = pos (700_000 * won);
  max_position_notional = pos (1_000_000 * won);
  max_daily_buy_count = 5;
  max_open_positions = 10;
  daily_loss_limit = pos 0 -ℤ pos (3 * rate);
  max_consecutive_api_errors = 5;
  block_new_buys_before_close = 600_000_000;
}

-- The texts that `advisor_status` takes.
pub data AdvisorStatus : Type 0 where
  approved rejected unavailable : AdvisorStatus
  advisory_approved advisory_rejected advisory_unavailable : AdvisorStatus

pub record RiskContext : Type 0 where
  pub now : DateTime
  pub market_close_at : Option DateTime
  pub market_is_business_day : Bool
  pub position_notional : ℤ
  pub position_quantity : ℤ
  pub available_cash : Option ℤ
  pub daily_buy_count : ℕ
  pub open_position_count : ℕ
  pub daily_return_rate : ℤ
  pub consecutive_api_errors : ℕ
  pub seen_signal_ids : List String
  pub new_buys_allowed : Bool
  pub advisor_status : Option AdvisorStatus
  pub advisor_rationale : Option String

-- The texts of `violations`.
pub data Violation : Type 0 where
  duplicate_signal universe_refresh_failed : Violation
  hermes_rejected : Option String → Violation
  hermes_unavailable max_order insufficient_paper_cash max_position : Violation
  insufficient_position max_daily_buys max_open daily_loss api_error_kill_switch : Violation
  market_closed market_close_window : Violation
  unsupported_security_type not_common_share stock_not_active trading_suspended : Violation
  invalid_reference_price workflow_unavailable : Violation
  -- a text of the remote workflow
  remote : String → Violation

pub record RiskDecision : Type 0 where
  pub approved : Bool
  pub violations : List Violation

-- Each `if test: violations.append(text)` in turn.
abbrev pub raised : List (Bool × Violation) → List Violation
raised [] = []
raised ((test, v) ∷ rest) = if test then v ∷ raised rest else raised rest

abbrev pub is_empty : List Violation → Bool
is_empty [] = true
is_empty (v ∷ vs) = false

-- `RiskDecision(approved=not violations, violations=tuple(violations))`
abbrev pub decide_by : List Violation → RiskDecision
decide_by vs = record { approved = is_empty vs; violations = vs }

abbrev pub is_rejected : Option AdvisorStatus → Bool
is_rejected (some rejected) = true
is_rejected _ = false

abbrev pub is_unavailable : Option AdvisorStatus → Bool
is_unavailable (some unavailable) = true
is_unavailable _ = false

-- `available_cash is not None and notional > available_cash`
abbrev pub exceeds_cash : ℕ → Option ℤ → Bool
exceeds_cash n none = false
exceeds_cash n (some cash) = ltb_ℤ cash (pos n)

-- `market_close_at is not None and now >= market_close_at - block`. The two times both have offsets, as those of the
-- trading calendar and of the command line do, or both have none; Python raises where they differ in that.
abbrev pub in_close_window : DateTime → ℕ → Option DateTime → Bool
in_close_window now block none = false
in_close_window now block (some close) = leb_ℤ (instant close -ℤ pos block) (instant now)

-- The tests of `RiskManager.evaluate`, in the order of the source.
abbrev pub trade_checks : RiskLimits → TradeSignal → RiskContext → List (Bool × Violation)
trade_checks l s c =
    (any (str_eq s.signal_id) c.seen_signal_ids, duplicate_signal)
    ∷ (is_buy s.side && not c.new_buys_allowed, universe_refresh_failed)
    ∷ (is_rejected c.advisor_status, hermes_rejected c.advisor_rationale)
    ∷ (is_unavailable c.advisor_status, hermes_unavailable)
    ∷ (ltb_ℤ l.max_order_notional (pos (notional s)), max_order)
    ∷ (is_buy s.side && exceeds_cash (notional s) c.available_cash, insufficient_paper_cash)
    ∷ (
      is_buy s.side && ltb_ℤ l.max_position_notional (c.position_notional +ℤ pos (notional s)),
      max_position,
    )
    ∷ (is_sell s.side && ltb_ℤ c.position_quantity (pos s.quantity), insufficient_position)
    ∷ (is_buy s.side && leb l.max_daily_buy_count c.daily_buy_count, max_daily_buys)
    ∷ (
      is_buy s.side
          && leb_ℤ c.position_quantity (pos 0)
          && leb l.max_open_positions c.open_position_count,
      max_open,
    )
    ∷ (is_buy s.side && leb_ℤ c.daily_return_rate l.daily_loss_limit, daily_loss)
    ∷ (leb l.max_consecutive_api_errors c.consecutive_api_errors, api_error_kill_switch)
    ∷ (not c.market_is_business_day, market_closed)
    ∷ (
      is_buy s.side && in_close_window c.now l.block_new_buys_before_close c.market_close_at,
      market_close_window,
    )
    ∷ []

-- `RiskManager.evaluate`
unfoldable pub evaluate : RiskLimits → TradeSignal → RiskContext → RiskDecision
evaluate l s c = decide_by (raised (trade_checks l s c))
