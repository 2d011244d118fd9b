-- ===== src/Lib.antt =====
-- The paper-trading core of toss_trader, a Python library that reads the Toss market API, finds trade signals, checks
-- them against risk rules and books them in a paper ledger.
--
-- How the parts work together: a strategy makes a signal of closes (Strategy), or a judged setup is armed and sized
-- for the next session (Setup, Engine, Sizing). The trading service puts a signal into the context of the ledger,
-- asks the risk rules, books the decision and, on approval, one fill with its costs (Execution, Risk, Costs, Ledger).
-- A trading cycle keeps its runs in a store (CycleState); panels of analysts work off a queue in the ledger's
-- database (PanelQueue). The daily performance of a portfolio is measured from its ledger and the latest candles
-- (Performance). A backtest replays a strategy over candles with the costs of the ledger (Backtest), or over many
-- symbols with one cash balance (PortfolioBacktest), or compares policies of exit (ExitCounterfactual). A scan finds
-- the candidates of a market (MarketScan). Market data comes through a client of the HTTP API (Client), and so do the
-- market's sessions (Calendar).
--
-- Which file models what:
--   Models      src/toss_trader/models.py: Side, TradeSignal, PaperFill (Models/Signal), Candle (Models/Candle),
--               V2PositionPlan (Models/Plan); Python's datetime (Models/Time)
--   Costs       src/toss_trader/paper.py: TradeCosts, toss_trade_costs, _round_down
--   Risk        src/toss_trader/risk.py: RiskManager.evaluate; evaluate_universe_candidate (Risk/Universe),
--               N8nRiskManager (Risk/Remote)
--   Ledger      src/toss_trader/paper.py, PaperLedger: execute, record_risk_decision, cash_balance, the positions;
--               position_accountings (Ledger/Accounting), the position plans (Ledger/Plans), the daily equity
--               baselines (Ledger/Baselines), the portfolio snapshots (Ledger/Snapshots)
--   Performance src/toss_trader/portfolio.py: PortfolioPerformance.daily; the valuation of the positions
--               (Performance/Valuation)
--   Execution   src/toss_trader/execution.py: PaperTradingService.submit
--   PanelQueue  src/toss_trader/paper.py, PaperLedger: enqueue_daily_panel, claim_daily_panel, finish_daily_panel
--   CycleState  src/toss_trader/cycle_state.py: SqliteCycleStateStore; list_runs (CycleState/Window)
--   Calendar    src/toss_trader/calendar.py: MarketCalendarService.regular_session, previous_kr_business_date
--   Strategy    src/toss_trader/strategy.py: evaluate_ma_crossover, ma_trend_continuation_signal
--   Sizing      src/toss_trader/setup_screening.py: position_size_reference, its inputs (Sizing/Inputs)
--   Setup       src/toss_trader/setup_screening.py: evaluate_setup, valuation_tier, hermes_experimental_can_arm;
--               summarize_flow (Setup/Flow)
--   Engine      src/toss_trader/v2_engine.py: arm_candidate, stop_touched, pullback_invalidated;
--               wilder_atr (Engine/Range)
--   Backtest    src/toss_trader/backtest.py: run_ma_backtest up to its report; its inputs (Backtest/Inputs)
--   PortfolioBacktest  src/toss_trader/portfolio_backtest.py: run_ma_portfolio_backtest up to its report; the checks
--               (PortfolioBacktest/Inputs), the rejections and the orders (PortfolioBacktest/Orders)
--   ExitCounterfactual  src/toss_trader/exit_counterfactual.py: the simulation; its checks (ExitCounterfactual/Inputs), the
--               indicators (ExitCounterfactual/Averages), the trades (ExitCounterfactual/Trades), the summary
--               (ExitCounterfactual/Summary)
--   MarketScan  src/toss_trader/v2_screening.py: V2MarketScanner.run
--   Client      src/toss_trader/client.py: TossClient._request; its outside (Client/Http), its state (Client/Calls),
--               the token (Client/Tokens), the candle slots (Client/Slots), the endpoints (Client/Endpoints)
-- State is passed on: an operation of a store takes the tables and answers its result, or what it raised, beside the
-- new tables. A table is the list of its rows in insertion order; a key constraint is a test on the rows.
--
-- Numbers: a Decimal counts units that are fine enough for the values at hand, so sums and products are exact; a price
-- and a quantity that have passed their checks are naturals, other amounts are integers. Money has `cent` units to 0.01.
-- A quotient that Decimal may round is the argument `divide`, is compared across its denominator, or is taken exactly
-- before it is rounded down, as each file says. A recursion is structural: on rows, candles, calls, or on the lots that
-- are left in the sizing loop. The one with fuel is the client's request loop, which is given a round for the first
-- answer, one for a new token and one for each retry; Client/Loop shows that it never lacks one.
--
-- The outside is an argument: the transport, the clock and the sleeps of the client answer by what has happened, and the
-- library's readers of numbers and of JSON are functions that it is given.
--
-- Not modelled: the advisor and the webhook of the remote risk manager, which are arguments; the retries of the
-- urllib transport, which belong to the outside of the client; the PostgreSQL stores, which repeat the SQLite ones;
-- collection of market data, screening, reports, configuration and the command line; the price evidence of a setup,
-- which is an argument of Setup; texts of reasons beyond their kind; the TypeError that Python raises where a close
-- time has an offset and the time of an order has none, or the reverse.
pub mod Prelude
pub mod Models
pub mod Costs
pub mod Risk
pub mod Ledger
pub mod Execution
pub mod PanelQueue
pub mod CycleState
pub mod Strategy
pub mod Sizing
pub mod Engine
pub mod Setup
pub mod Backtest
pub mod PortfolioBacktest
pub mod ExitCounterfactual
pub mod MarketScan
pub mod Performance
pub mod Client
pub mod Calendar
