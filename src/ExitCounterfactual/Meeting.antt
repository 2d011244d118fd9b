-- ===== src/ExitCounterfactual/Meeting.antt =====
-- The orders that a candle meets and the stops that it touches, in the simulation of
-- src/toss_trader/exit_counterfactual.py.
use toss_trader.Prelude.{
  ℕ, suc, ◌≡◌, refl, Bool, true, false, Option, none, some, All, ok, >>=-ok, ok-injective, subst,
  sym, if◌then◌else◌,
}
use toss_trader.Prelude.Int.{ℤ}
use toss_trader.Models.Candle.{Candle}
use toss_trader.ExitCounterfactual.{
  ExitPolicy, dead_cross, min_hold, atr_trailing, ExitVariant, Reason, entry, dead_crossed,
  min_hold_dead_crossed, atr_stop, OpenTrade, is_atr, Setting, Run, open_at, meet, stop_exit,
  stopped_at, stopped_by, stop_out,
}
use toss_trader.ExitCounterfactual.Fair.{
  IsFair, IsOpen, Opened, Waits, closed-IsRun, Met, open_at-IsOpen, IsOpen-suc,
}

module _ (g : Setting) (v : ExitVariant) where
  shut-Met :
      (index : ℕ) (r : Run) → All (IsFair g v) r.trades × (r.open_trade ≡ none) → Met g v index r
  shut-Met index r (fair, none_open) = (fair, subst (Opened g (suc index)) (sym none_open) tt)

  pub meet-Met :
      (c : Candle) (index : ℕ) (p : Option Reason) (o : Option OpenTrade) (r r' : Run)
      → meet g v c index p o r ≡ ok r'
      → r.open_trade ≡ o
      → All (IsFair g v) r.trades
      → Opened g index o
      → Waits v index p o
      → Met g v index r'
  unfolding meet
  meet-Met c index (some entry) none r r' h e fair opened w =
      let (t, made, k) =
        >>=-ok (open_at g c index) (λ (x : OpenTrade). ok (record r { open_trade = some x })) h in
      subst (Met g v index) (ok-injective k) (fair, open_at-IsOpen g v c index t made)
  meet-Met c index (some dead_crossed) none r r' h e fair opened w =
      subst (Met g v index) (ok-injective h) (shut-Met index r (fair, e))
  meet-Met c index (some min_hold_dead_crossed) none r r' h e fair opened w =
      subst (Met g v index) (ok-injective h) (shut-Met index r (fair, e))
  meet-Met c index (some atr_stop) none r r' h e fair opened w =
      subst (Met g v index) (ok-injective h) (shut-Met index r (fair, e))
  meet-Met c index (some entry) (some t) r r' h e fair opened w = absurd w
  meet-Met c index (some dead_crossed) (some t) r r' h e fair opened w = shut-Met index r' (
      closed-IsRun g v c index t c.open_price dead_crossed r r' h fair
        (IsOpen-suc g v index t opened) w)
  meet-Met c index (some min_hold_dead_crossed) (some t) r r' h e fair opened w =
      shut-Met index r' (
        closed-IsRun g v c index t c.open_price min_hold_dead_crossed r r' h fair
          (IsOpen-suc g v index t opened) w)
  meet-Met c index (some atr_stop) (some t) r r' h e fair opened w = shut-Met index r' (
      closed-IsRun g v c index t c.open_price atr_stop r r' h fair (IsOpen-suc g v index t opened)
        w)
  meet-Met c index none none r r' h e fair opened w =
      subst (Met g v index) (ok-injective h) (shut-Met index r (fair, e))
  meet-Met c index none (some t) r r' h e fair opened w =
      subst (Met g v index) (ok-injective h)
        (fair, subst (Opened g (suc index)) (sym e) (IsOpen-suc g v index t opened))

  stopped_at-Met :
      (c : Candle) (index : ℕ) (t : OpenTrade) (raw : Option ℤ) (r r' : Run)
      → stopped_at g v c index t raw r ≡ ok r'
      → Met g v index r
      → IsOpen g (suc index) t
      → v.policy ≡ atr_trailing
      → Met g v index r'
  stopped_at-Met c index t none r r' h m o p = subst (Met g v index) (ok-injective h) m
  stopped_at-Met c index t (some raw) r r' h m o p =
      shut-Met index r' (closed-IsRun g v c index t raw atr_stop r r' h m.0 o p)

  stopped_by-Met :
      (c : Candle) (index : ℕ) (t : OpenTrade) (stop : Option ℤ) (r r' : Run)
      → stopped_by g v c index t stop r ≡ ok r'
      → Met g v index r
      → IsOpen g (suc index) t
      → v.policy ≡ atr_trailing
      → Met g v index r'
  stopped_by-Met c index t none r r' h m o p = subst (Met g v index) (ok-injective h) m
  stopped_by-Met c index t (some stop) r r' h m o p =
      stopped_at-Met c index t (stop_exit stop c) r r' h m o p

  atr_policy : (p : ExitPolicy) → is_atr p ≡ true → p ≡ atr_trailing
  atr_policy dead_cross h = cc
  atr_policy min_hold h = cc
  atr_policy atr_trailing h = refl

  pub stop_out-Met :
      (c : Candle) (index : ℕ) (o : Option OpenTrade) (r r' : Run)
      → stop_out g v c index o r ≡ ok r'
      → Met g v index r
      → Opened g (suc index) o
      → Met g v index r'
  unfolding stop_out
  stop_out-Met c index none r r' h m opened = subst (Met g v index) (ok-injective h) m
  stop_out-Met c index (some t) r r' h m opened =
      by_policy (is_atr v.policy) (atr_policy v.policy) h
    where
      by_policy :
          (b : Bool)
          → (b ≡ true → v.policy ≡ atr_trailing)
          → (if b then stopped_by g v c index t t.trailing_stop r else ok r) ≡ ok r'
          → Met g v index r'
      by_policy true p k = stopped_by-Met c index t t.trailing_stop r r' k m opened (p refl)
      by_policy false p k = subst (Met g v index) (ok-injective k) m
