-- ===== src/Risk/Limits.antt =====
-- What an approval of `RiskManager.evaluate` means, rule by rule.
use toss_trader.Prelude.{
  ℕ, ◌<◌, ◌≡◌, ◌↔◌, refl, Bool, true, false, ◌&&◌, List, [], ◌∷◌, Option, none, some, any, str_eq,
  All, arith,
}
use toss_trader.Prelude.Int.{ℤ, pos, ◌+ℤ◌, ◌-ℤ◌, ◌≤ℤ◌, ◌<ℤ◌}
use toss_trader.Models.Time.{DateTime, instant}
use toss_trader.Models.Signal.{Side, buy, sell, is_buy, TradeSignal, notional}
use toss_trader.Risk.{
  RiskLimits, RiskContext, Violation, raised, is_empty, trade_checks, evaluate, rejected,
  unavailable, exceeds_cash, in_close_window,
}

abbrev Silent : Bool × Violation → Type 0
Silent (test, v) = test ≡ false

raised-empty : (cs : List (Bool × Violation)) → is_empty (raised cs) ≡ true → All Silent cs
raised-empty [] h = tt
raised-empty ((true, v) ∷ cs) h = cc
raised-empty ((false, v) ∷ cs) h = (refl, raised-empty cs h)

raised-Silent : (cs : List (Bool × Violation)) → All Silent cs → is_empty (raised cs) ≡ true
raised-Silent [] h = refl
raised-Silent ((true, v) ∷ cs) h = cc h.0
raised-Silent ((false, v) ∷ cs) h = raised-Silent cs h.1

-- The rules for an order, stated without the program's tests.
pub record Permits (l : RiskLimits) (s : TradeSignal) (c : RiskContext) : Type 0 where
  pub fresh : any (str_eq s.signal_id) c.seen_signal_ids ≡ false
  pub buys_allowed : s.side ≡ buy → c.new_buys_allowed ≡ true
  pub not_rejected : ¬ (c.advisor_status ≡ some rejected)
  pub not_unavailable : ¬ (c.advisor_status ≡ some unavailable)
  pub order_size : pos (notional s) ≤ℤ l.max_order_notional
  pub cash_covers :
      s.side ≡ buy → (cash : ℤ) → c.available_cash ≡ some cash → pos (notional s) ≤ℤ cash
  pub position_size :
      s.side ≡ buy → c.position_notional +ℤ pos (notional s) ≤ℤ l.max_position_notional
  pub held : s.side ≡ sell → pos s.quantity ≤ℤ c.position_quantity
  pub buys_left : s.side ≡ buy → c.daily_buy_count < l.max_daily_buy_count
  pub slots_left :
      s.side ≡ buy → c.position_quantity ≤ℤ pos 0 → c.open_position_count < l.max_open_positions
  pub above_loss_limit : s.side ≡ buy → l.daily_loss_limit <ℤ c.daily_return_rate
  pub api_healthy : c.consecutive_api_errors < l.max_consecutive_api_errors
  pub business_day : c.market_is_business_day ≡ true
  pub before_close :
      s.side ≡ buy
      → (close : DateTime) → c.market_close_at ≡ some close
      → instant c.now <ℤ instant close -ℤ pos l.block_new_buys_before_close

checks-Permits :
    (l : RiskLimits) (s : TradeSignal) (c : RiskContext)
    → All Silent (trade_checks l s c)
    → Permits l s c
checks-Permits l s c
      (h0, (h1, (h2, (h3, (h4, (h5, (h6, (h7, (h8, (h9, (h10, (h11, (h12, (h13, _)))))))))))))) =
    record {
      fresh = ground arith;
      buys_allowed = ground arith;
      not_rejected = ground arith;
      not_unavailable = ground arith;
      order_size = ground arith;
      cash_covers = ground arith;
      position_size = ground arith;
      held = ground arith;
      buys_left = ground arith;
      slots_left = ground arith;
      above_loss_limit = ground arith;
      api_healthy = ground arith;
      business_day = ground arith;
      before_close = ground arith;
    }

buys-silent : (side : Side) (b : Bool) → (side ≡ buy → b ≡ false) → is_buy side && b ≡ false
buys-silent buy b h = h refl
buys-silent sell b h = refl

cash-silent :
    (n : ℕ) (o : Option ℤ) → ((cash : ℤ) → o ≡ some cash → pos n ≤ℤ cash) → exceeds_cash n o ≡ false
cash-silent n none h = refl
cash-silent n (some cash) h = ground (arith, h cash refl)

close-silent :
    (now : DateTime) (block : ℕ) (o : Option DateTime)
    → ((close : DateTime) → o ≡ some close → instant now <ℤ instant close -ℤ pos block)
    → in_close_window now block o ≡ false
close-silent now block none h = refl
close-silent now block (some close) h = ground (arith, h close refl)

Permits-checks :
    (l : RiskLimits) (s : TradeSignal) (c : RiskContext)
    → Permits l s c
    → All Silent (trade_checks l s c)
Permits-checks l s c p = (
  ground arith,
  (
    ground arith,
    (
      ground arith,
      (
        ground arith,
        (
          ground arith,
          (
            buys-silent s.side _ (λ e. cash-silent (notional s) c.available_cash (p.cash_covers e)),
            (
              ground arith,
              (
                ground arith,
                (
                  ground arith,
                  (
                    ground arith,
                    (
                      ground arith,
                      (
                        ground arith,
                        (
                          ground arith,
                          (
                            buys-silent s.side _ (λ e.
                                close-silent c.now l.block_new_buys_before_close c.market_close_at
                                  (p.before_close e)),
                            tt,
                          ),
                        ),
                      ),
                    ),
                  ),
                ),
              ),
            ),
          ),
        ),
      ),
    ),
  ),
)

-- An order is approved exactly when it keeps every rule of `Permits`.
pub evaluate-approved_iff :
    (l : RiskLimits) (s : TradeSignal) (c : RiskContext)
    → ((evaluate l s c).approved ≡ true) ↔ Permits l s c
unfolding evaluate
evaluate-approved_iff l s c = (
  λ h. checks-Permits l s c (raised-empty (trade_checks l s c) h),
  λ p. raised-Silent (trade_checks l s c) (Permits-checks l s c p),
)
