-- ===== src/Execution/Decision.antt =====
-- What a decision of the service guarantees, whoever the risk manager is.
use toss_trader.Prelude.{
  ℕ, ◌*◌, ◌<◌, ◌≡◌, true, false, Option, none, some, any, str_eq, arith, subst,
}
use toss_trader.Prelude.Int.{ℤ, pos, ◌≤ℤ◌}
use toss_trader.Models.Signal.{buy, sell, TradeSignal, notional}
use toss_trader.Risk.{RiskLimits, RiskContext, evaluate, default_limits}
use toss_trader.Risk.Limits.{evaluate-approved_iff}
use toss_trader.Execution.{Service, TradeAdvice, decide}

-- The rules that keep the ledger sound, of the context that the ledger gave.
pub record Covers (max_buys : ℕ) (s : TradeSignal) (c : RiskContext) : Type 0 where
  pub fresh : any (str_eq s.signal_id) c.seen_signal_ids ≡ false
  pub cash_covers :
      s.side ≡ buy → (cash : ℤ) → c.available_cash ≡ some cash → pos (notional s) ≤ℤ cash
  pub held : s.side ≡ sell → pos s.quantity ≤ℤ c.position_quantity
  pub buys_left : s.side ≡ buy → c.daily_buy_count < max_buys

-- The service decides by the local rules, which allow `max_buys` buys a day, or it has an advisor and so
-- the preflight, which allows five; the risk manager behind the preflight may be any function.
pub data IsGuarded (max_buys : ℕ) (v : Service) : Type 0 where
  by_rules :
      (l : RiskLimits)
      → v.risk_manager ≡ evaluate l
      → v.advisor ≡ none
      → l.max_daily_buy_count ≡ max_buys
      → IsGuarded max_buys v
  by_preflight :
      (advise : TradeSignal → RiskContext → Option TradeAdvice)
      → v.advisor ≡ some advise
      → 5 ≡ max_buys
      → IsGuarded max_buys v

Permits-Covers :
    (l : RiskLimits) (s : TradeSignal) (c : RiskContext)
    → (evaluate l s c).approved ≡ true
    → Covers l.max_daily_buy_count s c
Permits-Covers l s c h =
    let p = (evaluate-approved_iff l s c).0 h in
    record { fresh = p.fresh; cash_covers = p.cash_covers; held = p.held; buys_left = p.buys_left }

-- An order that a guarded service approves has a signal not seen before; a buy is covered by the available cash and
-- is not past the buys of the day, and a sale is covered by the position held. A service is guarded when it decides by
-- the local rules alone, or when it has an advisor and so the preflight, whatever its risk manager.
pub decide-Covers :
    {n : ℕ} (v : Service) (s : TradeSignal) (c : RiskContext)
    → IsGuarded n v
    → (decide v s c).0.approved ≡ true
    → Covers n s c
unfolding decide
decide-Covers v s c (by_rules l manager alone most) h =
    subst (λ n. Covers n s c) most (Permits-Covers l s c (rw manager at (rw alone at h)))
decide-Covers v s c (by_preflight advise found most) h =
    subst (λ n. Covers n s c) most
      (Permits-Covers (default_limits (100 * v.cent) v.rate) s c (ground (arith, found)))
