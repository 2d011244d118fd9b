-- ===== src/Execution/Tests.antt =====
-- Submissions at concrete orders.
use toss_trader.Execution.Once.{submit_once}
use toss_trader.Prelude.{any, str_eq, ℕ, ◌≡◌, refl, [], ◌∷◌, none, some, arith, true}
use toss_trader.Prelude.Int.{pos, ◌+ℤ◌, ◌-ℤ◌, ◌*ℤ◌}
use toss_trader.Models.Time.{DateTime, instant}
use toss_trader.Models.Signal.{buy, sell, TradeSignal}
use toss_trader.Risk.{default_limits, evaluate}
use toss_trader.Costs.{toss_trade_costs, round_down}
use toss_trader.Ledger.{
  Ledger, cash_balance, position_quantity, daily_buy_count, seen_signal_ids, position_quantities,
}
use toss_trader.Ledger.Cash.{row_of}
use toss_trader.Execution.{Service, Request, context_of, decide, submit, submit_all}
use toss_trader.Execution.Decision.{IsGuarded, by_rules, Covers, decide-Covers}
use toss_trader.Execution.Solvency.{IsSound, submit_all-IsSound}
use toss_trader.Execution.Audit.{Extends, submit_all-Extends}

abbrev noon : DateTime
noon = record { local = 1_000; utcoffset = some (pos 0) }

abbrev first_buy : TradeSignal
first_buy = record {
  signal_id = "s1";
  symbol = "005930";
  side = buy;
  reference_price = 70_000;
  quantity = 2;
  reason = "cross";
}

abbrev first_sale : TradeSignal
first_sale = record {
  signal_id = "s2";
  symbol = "005930";
  side = sell;
  reference_price = 71_000;
  quantity = 2;
  reason = "cross";
}

abbrev request : ℕ → Request
request n = record {
  now = noon;
  market_close_at = none;
  market_is_business_day = true;
  daily_return_rate = pos 0;
  consecutive_api_errors = 0;
  new_buys_allowed = true;
  decision_id = n;
  fill_id = n;
}

abbrev empty : Ledger
empty = record { fills = []; decisions = []; baselines = []; plans = [] }

-- Won are counted one by one, a hundred units each.
abbrev desk : Service
desk = record {
  cent = 1;
  rate = 1;
  portfolio = "paper";
  initial_cash = pos 100_000_000;
  risk_manager = evaluate (default_limits 100 1);
  advisor = none;
}

abbrev guarded : IsGuarded (default_limits 100 1).max_daily_buy_count desk
guarded = by_rules (default_limits 100 1) refl refl refl

empty-IsSound : IsSound (default_limits 100 1).max_daily_buy_count desk empty
unfolding cash_balance position_quantity daily_buy_count ◌+ℤ◌
empty-IsSound = record {
  cash = omega arith;
  long = λ symbol. omega arith;
  buys = λ day. omega arith;
}

submit_all-IsSound_example :
    IsSound
      (default_limits 100 1).max_daily_buy_count
      desk
      (submit_all desk ((request 1, first_buy) ∷ ((request 2, first_sale) ∷ [])) empty)
submit_all-IsSound_example =
    submit_all-IsSound desk ((request 1, first_buy) ∷ ((request 2, first_sale) ∷ [])) empty guarded
      empty-IsSound

first_approved :
    (decide desk first_buy (context_of desk (request 1) first_buy empty)).0.approved ≡ true
unfolding decide evaluate cash_balance position_quantity daily_buy_count instant seen_signal_ids
    ◌-ℤ◌ ◌+ℤ◌ ◌*ℤ◌ toss_trade_costs round_down position_quantities
first_approved = refl

decide-Covers_example :
    Covers
      (default_limits 100 1).max_daily_buy_count
      first_buy
      (context_of desk (request 1) first_buy empty)
decide-Covers_example =
    decide-Covers desk first_buy (context_of desk (request 1) first_buy empty) guarded
      first_approved

submit_all-Extends_example :
    Extends "paper" 2 empty
      (submit_all desk ((request 1, first_buy) ∷ ((request 2, first_sale) ∷ [])) empty)
submit_all-Extends_example =
    submit_all-Extends desk ((request 1, first_buy) ∷ ((request 2, first_sale) ∷ [])) empty

-- The same signal a second time, after it was filled.
abbrev filled_once : Ledger
filled_once = record empty { fills = row_of 1 "paper" 1 first_buy noon ∷ [] }

first_seen : any (str_eq first_buy.signal_id) (seen_signal_ids "paper" filled_once) ≡ true
unfolding seen_signal_ids
first_seen = refl

submit_once_example : (submit desk (request 2) first_buy filled_once).1.fills ≡ filled_once.fills
submit_once_example = submit_once desk (request 2) first_buy filled_once guarded first_seen
