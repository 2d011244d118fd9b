-- ===== src/Ledger/Tests.antt =====
-- The ledger at concrete fills.
use toss_trader.Ledger.Baselines.{
  daily_equity_baseline, record_daily_equity_baseline, record-daily_equity_baseline,
  utc_trading_day,
}
use mathlib.Core.List.Perm
use toss_trader.Prelude.{◌≡◌, refl, [], ◌∷◌, none, some, ok, arith, if◌then◌else◌}
use toss_trader.Prelude.Int.{pos, ◌+ℤ◌, ◌-ℤ◌, ◌*ℤ◌, eqb_ℤ}
use toss_trader.Prelude.Dict.{Dict, lookup, sum_by}
use toss_trader.Models.Time.{DateTime, instant}
use toss_trader.Models.Signal.{buy, sell, TradeSignal}
use toss_trader.Models.Plan.{V2PositionPlan}
use toss_trader.Costs.{toss_trade_costs, round_down}
use toss_trader.Ledger.{Ledger, cash_balance, position_quantity, position_quantities, own}
use toss_trader.Ledger.Cash.{row_of}
use toss_trader.Ledger.Positions.{lookup-position_quantities}
use toss_trader.Ledger.Accounting.{PositionAccounting, position_accountings, account}
use toss_trader.Ledger.Accounting.Truncation.{truncated, truncated-Undoes}
use toss_trader.Ledger.Accounting.Balance.{cash_balance-accounting}
use toss_trader.Ledger.Plans.{upsert_v2_position_plan, v2_position_plan, plan-upsert}

abbrev noon : DateTime
noon = record { local = 1_000; utcoffset = some (pos 0) }

abbrev first_buy : TradeSignal
first_buy = record {
  signal_id = "s1";
  symbol = "005930";
  side = buy;
  reference_price = 7_000_000;
  quantity = 2;
  reason = "cross";
}

abbrev first_sale : TradeSignal
first_sale = record {
  signal_id = "s2";
  symbol = "005930";
  side = sell;
  reference_price = 7_100_000;
  quantity = 1;
  reason = "cross";
}

abbrev empty : Ledger
empty = record { fills = []; decisions = []; baselines = []; plans = [] }

abbrev traded : Ledger
traded = record empty {
  fills = row_of 1 "paper" 1 first_buy noon ∷ (row_of 1 "paper" 2 first_sale noon ∷ []);
}

lookup-position_quantities_example : lookup "005930" (position_quantities "paper" traded) ≡ (
    if eqb_ℤ (position_quantity "paper" "005930" traded) (pos 0)
    then none
    else some (position_quantity "paper" "005930" traded))
lookup-position_quantities_example = lookup-position_quantities "paper" "005930" traded

-- What the accounting makes of the two fills.
abbrev accounted : Dict PositionAccounting
accounted =
    (
      "005930",
      record {
        quantity = pos 1;
        cost_basis = pos 7_001_050;
        realized_pnl = pos 83_750;
        commission = pos 3_100;
        tax = pos 14_200;
      },
    )
    ∷ []

fills_accounted : position_accountings truncated [] (own "paper" traded.fills) ≡ ok accounted
unfolding position_accountings account toss_trade_costs round_down ◌+ℤ◌ ◌-ℤ◌ ◌*ℤ◌
fills_accounted = refl

cash_balance-accounting_example :
    cash_balance "paper" (pos 100_000_000) traded
    ≡ pos 100_000_000
      +ℤ (sum_by (λ (a : PositionAccounting). a.realized_pnl) accounted
          -ℤ sum_by (λ (a : PositionAccounting). a.cost_basis) accounted)
cash_balance-accounting_example =
    cash_balance-accounting truncated truncated-Undoes "paper" (pos 100_000_000) traded
      (own "paper" traded.fills) accounted (Perm.refl (own "paper" traded.fills))
      (omega arith, (omega arith, tt)) fills_accounted

abbrev plan : V2PositionPlan
plan = record {
  symbol = "005930";
  cluster_id = "semiconductors";
  setup_session = 20_000;
  setups = "pullback" ∷ [];
  quantity = pos 9;
  entry_price = pos 10_005;
  stop_price = pos 9_500;
  planned_heat = pos 4_696;
  ma50 = pos 9_800;
  signal_close = pos 10_000;
  opened_at = noon;
  exit_pending_reason = none;
  exit_triggered_at = none;
}

plan-upsert_example :
    v2_position_plan "paper" "005930" (upsert_v2_position_plan "paper" plan empty) ≡ some plan
plan-upsert_example = plan-upsert "paper" "paper" "005930" empty plan

-- The first baseline of a day stays.
abbrev based : Ledger
based = record empty {
  baselines = record { portfolio_id = "paper"; trading_day = 0; equity = pos 5 } ∷ [];
}

record-daily_equity_baseline_example :
    daily_equity_baseline "paper" noon (record_daily_equity_baseline "paper" noon (pos 9) based).1
    ≡ ok (some (pos 5))
unfolding utc_trading_day instant ◌-ℤ◌
record-daily_equity_baseline_example =
    record-daily_equity_baseline "paper" "paper" noon noon (pos 9) based refl refl
