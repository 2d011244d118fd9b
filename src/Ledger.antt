-- ===== src/Ledger.antt =====
-- `PaperLedger` of src/toss_trader/paper.py, the SQLite ledger: its tables as lists in row order, and its
-- methods on them. A column that holds a `Decimal` or a time as text reads back as what was written.
-- `cent` is the number of money units in 0.01 (Costs.antt).
pub mod Cash
pub mod Positions
pub mod Baselines
pub mod Plans
pub mod Snapshots
pub mod Accounting
mod Tests
use toss_trader.Prelude.{
  ℕ, ◌≡◌, Bool, true, false, not, ◌&&◌, ◌||◌, String, List, [], ◌∷◌, ◌++◌, map, Option, none, some,
  length, any, keep, str_eq, ◌==◌, Result, ok, err, if◌then◌else◌,
}
use toss_trader.Prelude.Int.{ℤ, pos, ◌+ℤ◌, ◌-ℤ◌, ◌*ℤ◌, sum, eqb_ℤ}
use toss_trader.Prelude.Dict.{Dict, get_or, put}
use toss_trader.Models.Time.{DateTime, day_of, is_naive}
use toss_trader.Models.Signal.{Side, buy, sell, is_buy, TradeSignal, notional, PaperFill}
use toss_trader.Models.Plan.{V2PositionPlan}
use toss_trader.Costs.{TradeCosts, toss_trade_costs}
use toss_trader.Risk.{RiskDecision, RiskContext}

-- A row of paper_fills.
pub record FillRow : Type 0 where
  pub portfolio_id : String
  pub fill : PaperFill

-- A row of paper_risk_decisions.
pub record DecisionRow : Type 0 where
  pub decision_id : ℕ
  pub portfolio_id : String
  pub signal : TradeSignal
  pub decision : RiskDecision
  pub context : RiskContext
  pub evaluated_at : DateTime

-- A row of paper_portfolio_daily_baselines.
pub record BaselineRow : Type 0 where
  pub portfolio_id : String
  pub trading_day : ℕ
  pub equity : ℤ

-- A row of paper_v2_position_plans.
pub record PlanRow : Type 0 where
  pub portfolio_id : String
  pub plan : V2PositionPlan

pub record Ledger : Type 0 where
  pub fills : List FillRow
  pub decisions : List DecisionRow
  pub baselines : List BaselineRow
  pub plans : List PlanRow

pub data LedgerError : Type 0 where
  duplicate_paper_order naive_evaluation : LedgerError

-- `estimate_costs`
abbrev pub estimate_costs : ℕ → TradeSignal → TradeCosts
estimate_costs = toss_trade_costs

-- The primary key and the UNIQUE column of paper_fills. Both range over all portfolios.
abbrev pub violates_unique : ℕ → String → List FillRow → Bool
violates_unique fill_id signal_id =
    any (λ r. r.fill.fill_id == fill_id || str_eq r.fill.signal_id signal_id)

abbrev pub fill_of : ℕ → ℕ → TradeSignal → DateTime → PaperFill
fill_of cent fill_id s when = record {
  fill_id = fill_id;
  signal_id = s.signal_id;
  symbol = s.symbol;
  side = s.side;
  quantity = s.quantity;
  price = s.reference_price;
  notional = notional s;
  commission = (toss_trade_costs cent s).commission;
  tax = (toss_trade_costs cent s).tax;
  reason = s.reason;
  executed_at = when;
}

-- `execute`, at the id that `uuid4` made and the resolved time
unfoldable pub execute :
    ℕ → String → ℕ → TradeSignal → DateTime → Ledger → Result LedgerError PaperFill × Ledger
execute cent portfolio fill_id s when l =
    if violates_unique fill_id s.signal_id l.fills then (err duplicate_paper_order, l) else (
      ok (fill_of cent fill_id s when),
      record l {
        fills =
            l.fills ++ record { portfolio_id = portfolio; fill = fill_of cent fill_id s when } ∷ [];
      },
    )

-- `record_risk_decision`, at a fresh `uuid4`
unfoldable pub record_risk_decision :
    String
    → ℕ
    → TradeSignal
    → RiskDecision
    → RiskContext
    → DateTime
    → Ledger
    → Result LedgerError ℕ × Ledger
record_risk_decision portfolio decision_id s d c evaluated_at l =
    if is_naive evaluated_at then (err naive_evaluation, l) else (
      ok decision_id,
      record l {
        decisions =
            l.decisions
            ++ record {
              decision_id = decision_id;
              portfolio_id = portfolio;
              signal = s;
              decision = d;
              context = c;
              evaluated_at = evaluated_at;
            }
              ∷ [];
      },
    )

-- `WHERE portfolio_id = ?`
abbrev pub own : String → List FillRow → List FillRow
own portfolio = keep (λ r. str_eq r.portfolio_id portfolio)

-- `daily_buy_count`: the days are compared by the first ten characters of the stored time.
unfoldable pub daily_buy_count : String → ℕ → Ledger → ℕ
daily_buy_count portfolio day l =
    length
      (keep (λ r. is_buy r.fill.side && day_of r.fill.executed_at == day) (own portfolio l.fills))

-- What one fill does to the cash, in `cash_balance`.
abbrev pub cash_change : FillRow → ℤ
cash_change r =
    if is_buy r.fill.side
    then pos 0 -ℤ pos r.fill.notional -ℤ pos r.fill.commission -ℤ pos r.fill.tax
    else pos r.fill.notional -ℤ pos r.fill.commission -ℤ pos r.fill.tax

unfoldable pub cash_balance : String → ℤ → Ledger → ℤ
cash_balance portfolio initial l = initial +ℤ sum (map cash_change (own portfolio l.fills))

abbrev pub signed_quantity : FillRow → ℤ
signed_quantity r = if is_buy r.fill.side then pos r.fill.quantity else pos 0 -ℤ pos r.fill.quantity

unfoldable pub position_quantity : String → String → Ledger → ℤ
position_quantity portfolio symbol l =
    sum (map signed_quantity (keep (λ r. str_eq r.fill.symbol symbol) (own portfolio l.fills)))

-- The loop of `position_quantities`.
unfoldable pub tally : Dict ℤ → List FillRow → Dict ℤ
tally positions [] = positions
tally positions (r ∷ rows) =
    tally
      (put r.fill.symbol (get_or (pos 0) r.fill.symbol positions +ℤ signed_quantity r) positions)
      rows

abbrev pub is_nonzero : String × ℤ → Bool
is_nonzero (symbol, quantity) = not (eqb_ℤ quantity (pos 0))

unfoldable pub position_quantities : String → Ledger → Dict ℤ
unfolding tally
position_quantities portfolio l = keep is_nonzero (tally [] (own portfolio l.fills))

-- `position_notional` with a mark price; without one it is the cost basis (Ledger/Accounting.antt).
abbrev pub marked_notional : String → String → ℕ → Ledger → ℤ
marked_notional portfolio symbol mark l = position_quantity portfolio symbol l *ℤ pos mark

abbrev pub row_signal_id : FillRow → String
row_signal_id r = r.fill.signal_id

unfoldable pub seen_signal_ids : String → Ledger → List String
seen_signal_ids portfolio l = map row_signal_id (own portfolio l.fills)
