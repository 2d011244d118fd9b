-- ===== src/ExitCounterfactual/Policy.antt =====
-- What the trades of a simulation keep: their policy's rules and their accounts.
use toss_trader.Prelude.{
  All-append, ℕ, suc, ◌+◌, ◌-◌, ◌≡◌, refl, Bool, true, false, ◌&&◌, List, [], ◌∷◌, ◌++◌, Option,
  none, some, All, length, arith, ok, >>=-ok, ok-injective, subst, sym, choice-P, if◌then◌else◌,
}
use toss_trader.Prelude.Int.{ℤ, pos, leb_ℤ, ◌≤ℤ◌}
use toss_trader.Models.Candle.{Candle}
use toss_trader.ExitCounterfactual.{
  ExitPolicy, dead_cross, min_hold, atr_trailing, ExitVariant, entry, dead_crossed,
  min_hold_dead_crossed, atr_stop, ExitCounterfactualTrade, OpenTrade, is_atr, Setting, Run,
  close_trade, meet, stop_exit, stopped_at, stopped_by, stop_out, crosses_above, crosses_below,
  is_below, trail, Reading, watermarks, hold_on, leave, judge, watch_trade, simulate_candle,
  Indicators, reading_at, follows, simulate_from, last_of, marked, simulate_symbol,
}
use toss_trader.ExitCounterfactual.Fair.{
  IsFair, IsOpen, Opened, Waits, IsRun, le-max, min-le, mark_open_trade-IsFair,
}
use toss_trader.ExitCounterfactual.Meeting.{meet-Met, stop_out-Met}

module _ (g : Setting) (v : ExitVariant) where
  watermarks-IsOpen :
      (c : Candle) (n : ℕ) (t : OpenTrade) → IsOpen g n t → IsOpen g n (watermarks c t)
  watermarks-IsOpen c n t o = record {
    began = o.began;
    basis = o.basis;
    high = omega (arith, o.high, le-max t.high_water c.high_price);
    low = omega (arith, o.low, min-le t.low_water c.low_price);
  }

  trail-IsOpen :
      (atr : Option ℕ) (n : ℕ) (t : OpenTrade) → IsOpen g n t → IsOpen g n (trail g v atr t)
  trail-IsOpen none n t o = o
  trail-IsOpen (some atr) n t o = record {
    began = o.began;
    basis = o.basis;
    high = o.high;
    low = o.low;
  }

  judge-IsRun :
      (index : ℕ) (i : Reading) (t : OpenTrade) (p : ExitPolicy) (r : Run)
      → v.policy ≡ p
      → All (IsFair g v) r.trades
      → r.pending ≡ none
      → IsOpen g (suc index) t
      → IsRun g v (suc index) (judge g v index i t p r)
  unfolding judge
  judge-IsRun index i t dead_cross r e fair quiet o =
      choice-P (IsRun g v (suc index)) (crosses_below i.relation i.previous_relation)
        (leave dead_crossed t r) (hold_on t r) (λ _. record { fair = fair; opened = o; waits = e })
        (λ _. record {
          fair = fair;
          opened = o;
          waits = subst (λ p. Waits v (suc index) p (some t)) (sym quiet) tt;
        })
  judge-IsRun index i t min_hold r e fair quiet o =
      choice-P (IsRun g v (suc index))
        (leb_ℤ v.min_hold_bars (pos (index - t.entry_index + 1)) && is_below i.relation)
        (leave min_hold_dead_crossed t r) (hold_on t r)
        (λ h. record { fair = fair; opened = o; waits = (e, held h) })
        (λ _. record {
          fair = fair;
          opened = o;
          waits = subst (λ p. Waits v (suc index) p (some t)) (sym quiet) tt;
        })
    where
      held :
          leb_ℤ v.min_hold_bars (pos (index - t.entry_index + 1)) && is_below i.relation ≡ true
          → v.min_hold_bars ≤ℤ pos (suc index - t.entry_index)
      held h = ground (arith, o.began)
  judge-IsRun index i t atr_trailing r e fair quiet o = record {
    fair = fair;
    opened = trail-IsOpen i.atr (suc index) t o;
    waits = subst (λ p. Waits v (suc index) p (some (trail g v i.atr t))) (sym quiet) tt;
  }

  watch_trade-IsRun :
      (c : Candle) (index : ℕ) (later : Bool) (i : Reading) (o : Option OpenTrade) (r : Run)
      → r.open_trade ≡ o
      → All (IsFair g v) r.trades
      → r.pending ≡ none
      → Opened g (suc index) o
      → IsRun g v (suc index) (watch_trade g v c index later i o r)
  unfolding watch_trade
  watch_trade-IsRun c index later i none r e fair quiet opened =
      choice-P (IsRun g v (suc index)) (crosses_above i.relation i.previous_relation && later)
        (record r { pending = some entry }) r
        (λ _. record {
          fair = fair;
          opened = subst (Opened g (suc index)) (sym e) tt;
          waits = subst (Waits v (suc index) (some entry)) (sym e) tt;
        })
        (λ _. record {
          fair = fair;
          opened = subst (Opened g (suc index)) (sym e) tt;
          waits = subst (λ p. Waits v (suc index) p r.open_trade) (sym quiet) tt;
        })
  watch_trade-IsRun c index later i (some t) r e fair quiet opened =
      judge-IsRun index i (watermarks c t) v.policy r refl fair quiet
        (watermarks-IsOpen c (suc index) t opened)

  stop_out-quiet :
      (c : Candle) (index : ℕ) (o : Option OpenTrade) (r r' : Run)
      → stop_out g v c index o r ≡ ok r'
      → r.pending ≡ none
      → r'.pending ≡ none
  unfolding stop_out
  stop_out-quiet c index none r r' h quiet =
      subst (λ (x : Run). x.pending ≡ none) (ok-injective h) quiet
  stop_out-quiet c index (some t) r r' h quiet = by_policy (is_atr v.policy) h
    where
      by_exit : (raw : Option ℤ) → stopped_at g v c index t raw r ≡ ok r' → r'.pending ≡ none
      by_exit none k = subst (λ (x : Run). x.pending ≡ none) (ok-injective k) quiet
      by_exit (some raw) k =
          let (trade, _, e) =
            >>=-ok (close_trade g c.symbol v t c.timestamp raw atr_stop index) _ k in
          subst (λ (x : Run). x.pending ≡ none) (ok-injective e) quiet

      by_stop : (stop : Option ℤ) → stopped_by g v c index t stop r ≡ ok r' → r'.pending ≡ none
      by_stop none k = subst (λ (x : Run). x.pending ≡ none) (ok-injective k) quiet
      by_stop (some stop) k = by_exit (stop_exit stop c) k

      by_policy :
          (b : Bool)
          → (if b then stopped_by g v c index t t.trailing_stop r else ok r) ≡ ok r'
          → r'.pending ≡ none
      by_policy true k = by_stop t.trailing_stop k
      by_policy false k = subst (λ (x : Run). x.pending ≡ none) (ok-injective k) quiet

  simulate_candle-IsRun :
      (c : Candle) (index : ℕ) (later : Bool) (i : Reading) (r r' : Run)
      → simulate_candle g v c index later i r ≡ ok r'
      → IsRun g v index r
      → IsRun g v (suc index) r'
  unfolding simulate_candle
  simulate_candle-IsRun c index later i r r' h b =
      let (met, e, k) = >>=-ok (meet g v c index r.pending r.open_trade r) _ h in
      let quiet = record met { pending = none } in
      let after =
        meet-Met g v c index r.pending r.open_trade r met e refl b.fair b.opened b.waits in
      let (stopped, f, l) =
        >>=-ok (stop_out g v c index met.open_trade quiet)
          (λ (x : Run). ok (watch_trade g v c index later i x.open_trade x)) k in
      let out = stop_out-Met g v c index met.open_trade quiet stopped f after after.1 in
      subst (IsRun g v (suc index)) (ok-injective l) (
        watch_trade-IsRun c index later i stopped.open_trade stopped refl out.0
          (stop_out-quiet c index met.open_trade quiet stopped f refl) out.1)

  simulate_from-IsRun :
      (i : Indicators) (index : ℕ) (candles : List Candle) (r r' : Run)
      → simulate_from g v i index candles r ≡ ok r'
      → IsRun g v index r
      → (n : ℕ) × IsRun g v n r'
  unfolding simulate_from
  simulate_from-IsRun i index [] r r' h b = (index, subst (IsRun g v index) (ok-injective h) b)
  simulate_from-IsRun i index (c ∷ rest) r r' h b =
      let (next, e, k) =
        >>=-ok (simulate_candle g v c index (follows rest) (reading_at i index) r) _ h in
      simulate_from-IsRun i (suc index) rest next r' k
        (simulate_candle-IsRun c index (follows rest) (reading_at i index) r next e b)

  marked-IsFair :
      (n index : ℕ) (c : Option Candle) (o : Option OpenTrade)
      → Opened g index o
      → All (IsFair g v) (marked g v n c o)
  marked-IsFair n index none o opened = tt
  marked-IsFair n index (some c) none opened = tt
  marked-IsFair n index (some c) (some t) opened =
      (mark_open_trade-IsFair g v t c (n - 1) index opened, tt)

  -- Every trade of a simulated symbol is fair to its variant: a dead cross ends only trades of that policy, a trailing
  -- stop only those of the ATR policy, and a dead cross after a minimal hold only those of that policy, which have been
  -- held for the minimum of bars. The profit and the costs of a trade that was closed make up the difference of its two
  -- notionals, and no excursion of a trade is negative.
  pub simulate_symbol-IsFair :
      (candles : List Candle) (i : Indicators) (trades : List ExitCounterfactualTrade)
      → simulate_symbol g candles i v ≡ ok trades
      → All (IsFair g v) trades
  unfolding simulate_symbol
  simulate_symbol-IsFair candles i trades h =
      let first : Run = record { trades = []; open_trade = none; pending = none } in
      let (r, e, k) =
        >>=-ok (simulate_from g v i 0 candles first)
          (λ (x : Run). ok (x.trades ++ marked g v (length candles) (last_of candles) x.open_trade))
          h in
      let (n, run) =
        simulate_from-IsRun i 0 candles first r e (record { fair = tt; opened = tt; waits = tt }) in
      subst (All (IsFair g v)) (ok-injective k) (
        All-append (IsFair g v) r.trades
          (marked g v (length candles) (last_of candles) r.open_trade) run.fair
          (marked-IsFair (length candles) n (last_of candles) r.open_trade run.opened))
