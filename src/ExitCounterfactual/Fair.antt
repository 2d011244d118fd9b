-- ===== src/ExitCounterfactual/Fair.antt =====
-- What a trade of a simulation and its open trade keep: `_close_trade`, `_mark_open_trade` and the entries of
-- src/toss_trader/exit_counterfactual.py.
use toss_trader.Prelude.{
  ℕ, suc, ◌+◌, ◌-◌, ◌*◌, ◌<◌, ◌≡◌, refl, String, List, [], ◌∷◌, ◌++◌, Option, none, some, All,
  arith, ok, >>=-ok, ok-injective, subst,
}
use toss_trader.Prelude.Int.{ℤ, pos, pos_part, max_ℤ, min_ℤ, ◌+ℤ◌, ◌-ℤ◌, ◌≤ℤ◌, int_laws}
use toss_trader.Models.Time.{DateTime}
use toss_trader.Models.Signal.{buy, sell}
use toss_trader.Models.Candle.{Candle}
use toss_trader.ExitCounterfactual.{
  dead_cross, min_hold, atr_trailing, ExitVariant, Reason, entry, dead_crossed,
  min_hold_dead_crossed, atr_stop, ExitCounterfactualTrade, OpenTrade, Setting, trade_costs, Run,
  close_trade, mark_open_trade, open_at, closed,
}

-- The reason of an exit is one of the policy's, and one that waited for its bars.
abbrev pub Permits : ExitVariant → ℕ → Option Reason → Type 0
Permits v held none = Unit
Permits v held (some entry) = ⊥
Permits v held (some dead_crossed) = v.policy ≡ dead_cross
Permits v held (some min_hold_dead_crossed) = (v.policy ≡ min_hold) × (v.min_hold_bars ≤ℤ pos held)
Permits v held (some atr_stop) = v.policy ≡ atr_trailing

-- The profit and the costs of a closed trade make up the difference of its two notionals.
abbrev pub Accounts : Setting → ExitCounterfactualTrade → Option ℕ → Type 0
Accounts g t none = Unit
Accounts g t (some exit_price) =
    t.realized_pnl +ℤ pos t.actual_costs
    ≡ pos (exit_price * g.quantity) -ℤ pos (t.entry_price * g.quantity)

pub record IsFair (g : Setting) (v : ExitVariant) (t : ExitCounterfactualTrade) : Type 0 where
  pub permitted : Permits v t.held_bars t.exit_reason
  pub accounts : Accounts g t t.exit_price
  pub favorable : pos 0 ≤ℤ t.favorable_excursion
  pub adverse : pos 0 ≤ℤ t.adverse_excursion

-- An open trade before the candle at an index.
pub record IsOpen (g : Setting) (index : ℕ) (t : OpenTrade) : Type 0 where
  pub began : t.entry_index < index
  pub basis : t.cost_basis ≡ t.entry_price * g.quantity + t.buy_costs
  pub high : pos t.entry_price ≤ℤ t.high_water
  pub low : t.low_water ≤ℤ pos t.entry_price

abbrev pub Opened : Setting → ℕ → Option OpenTrade → Type 0
Opened g index none = Unit
Opened g index (some t) = IsOpen g index t

-- The order that waits for the candle at an index.
abbrev pub Waits : ExitVariant → ℕ → Option Reason → Option OpenTrade → Type 0
Waits v index none t = Unit
Waits v index (some reason) none = Unit
Waits v index (some reason) (some t) = Permits v (index - t.entry_index) (some reason)

pub record IsRun (g : Setting) (v : ExitVariant) (index : ℕ) (r : Run) : Type 0 where
  pub fair : All (IsFair g v) r.trades
  pub opened : Opened g index r.open_trade
  pub waits : Waits v index r.pending r.open_trade

All-snoc {ℓ κ} :
    {A : Type ℓ} (P : A → Type κ) (x : A) (xs : List A) → All P xs → P x → All P (xs ++ x ∷ [])
All-snoc P x [] h p = (p, tt)
All-snoc P x (y ∷ xs) h p = (h.0, All-snoc P x xs h.1 p)

pub le-max : (a b : ℤ) → a ≤ℤ max_ℤ a b
le-max a b = ground arith

pub min-le : (a b : ℤ) → min_ℤ a b ≤ℤ a
min-le a b = ground arith

module _ (g : Setting) (v : ExitVariant) where
  close_trade-IsFair :
      (symbol : String) (t : OpenTrade) (at : DateTime) (raw : ℤ) (reason : Reason) (index : ℕ)
      (trade : ExitCounterfactualTrade)
      → close_trade g symbol v t at raw reason index ≡ ok trade
      → IsOpen g (suc index) t
      → Permits v (index - t.entry_index) (some reason)
      → IsFair g v trade
  unfolding close_trade
  close_trade-IsFair symbol t at raw reason index trade h o p =
      let exit_price = g.divide (pos_part raw * (g.one - g.slippage_rate)) g.one in
      let (costs, _, made) = >>=-ok (trade_costs g symbol sell exit_price) _ h in
      subst (IsFair g v) (ok-injective made) (record {
        permitted = p;
        accounts = omega (int_laws, o.basis);
        favorable = omega (int_laws, o.high, le-max t.high_water raw);
        adverse = omega (int_laws, o.low, min-le t.low_water raw);
      })

  pub mark_open_trade-IsFair :
      (t : OpenTrade) (c : Candle) (n index : ℕ)
      → IsOpen g index t
      → IsFair g v (mark_open_trade g v t c n)
  unfolding mark_open_trade
  mark_open_trade-IsFair t c n index o = record {
    permitted = tt;
    accounts = tt;
    favorable = omega (int_laws, o.high);
    adverse = omega (int_laws, o.low);
  }

  pub closed-IsRun :
      (c : Candle) (index : ℕ) (t : OpenTrade) (raw : ℤ) (reason : Reason) (r r' : Run)
      → closed g v c index t raw reason r ≡ ok r'
      → All (IsFair g v) r.trades
      → IsOpen g (suc index) t
      → Permits v (index - t.entry_index) (some reason)
      → All (IsFair g v) r'.trades × (r'.open_trade ≡ none)
  closed-IsRun c index t raw reason r r' h fair o p =
      let (trade, made, k) = >>=-ok (close_trade g c.symbol v t c.timestamp raw reason index) _ h in
      subst (λ (x : Run). All (IsFair g v) x.trades × (x.open_trade ≡ none)) (ok-injective k)
        (
          All-snoc (IsFair g v) trade r.trades fair
              (close_trade-IsFair c.symbol t c.timestamp raw reason index trade made o p),
          refl,
        )

  -- After the pending order, within the candle at an index.
  abbrev pub Met : ℕ → Run → Type 0
  Met index r = All (IsFair g v) r.trades × Opened g (suc index) r.open_trade

  pub open_at-IsOpen :
      (c : Candle) (index : ℕ) (t : OpenTrade) → open_at g c index ≡ ok t → IsOpen g (suc index) t
  unfolding open_at
  open_at-IsOpen c index t h =
      let (costs, _, made) =
        >>=-ok
          (trade_costs g c.symbol buy
            (g.divide (pos_part c.open_price * (g.one + g.slippage_rate)) g.one))
          _ h in
      subst (IsOpen g (suc index)) (ok-injective made)
        (record { began = omega arith; basis = refl; high = omega arith; low = omega arith })

  pub IsOpen-suc : (index : ℕ) (t : OpenTrade) → IsOpen g index t → IsOpen g (suc index) t
  IsOpen-suc index t o = record {
    began = omega (arith, o.began);
    basis = o.basis;
    high = o.high;
    low = o.low;
  }
