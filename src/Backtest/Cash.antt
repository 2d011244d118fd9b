-- ===== src/Backtest/Cash.antt =====
-- What the replay keeps of its cash, its position and its profits.
use toss_trader.Prelude.{
  ℕ, ◌+◌, ◌≤◌, ◌<◌, ◌≡◌, refl, Bool, true, false, List, [], ◌∷◌, ◌++◌, Option, none, some, ltb, leb,
  ◌==◌, ==_iff, String, arith, if◌then◌else◌, Result, ok, err, >>=-ok, raise_if-ok, length, ◌||◌,
  ok-injective, subst,
}
use toss_trader.Prelude.Int.{ℤ, pos, pos_part, leb_ℤ, ◌+ℤ◌, ◌≤ℤ◌, int_laws, parts_of_eq}
use toss_trader.Models.Time.{DateTime}
use toss_trader.Models.Signal.{Side, buy, sell, TradeSignal, trade_signal, SignalError, notional}
use toss_trader.Costs.{total, toss_trade_costs}
use toss_trader.Costs.Bounds.{total-le-notional}
use toss_trader.Models.Accepted.{trade_signal-accepted}
use toss_trader.Strategy.{Wording, MaCrossoverEvaluation, evaluate_ma_crossover, last}
use toss_trader.Backtest.{
  Bar, Replay, Settings, execute_pending, as_signal, execute_signal, execution_price,
  order_quantity, slippage, replay_buy, replay_sell, hold, is_followed, follow, as_backtest,
  crossover_inputs, look, BacktestError, replay_bar, replay_bars, first_replay, symbol_of,
  run_ma_backtest, validate_inputs,
}

-- The cash is never negative, the cash and the basis of what is held are the start and the realized profit, and
-- nothing is held at a basis of its own only while the position is 0.
pub record IsBalanced (initial : ℤ) (r : Replay) : Type 0 where
  pub solvent : pos 0 ≤ℤ r.cash
  pub balance : r.cash +ℤ pos r.cost_basis ≡ initial +ℤ r.realized_pnl
  pub flat_basis : r.position ≡ 0 → r.cost_basis ≡ 0
  pub wins : r.winning_trades ≤ r.completed_trades

leb_iff : (a b : ℕ) → leb a b ≡ true → a ≤ b
leb_iff a b h = ground arith

choice-IsBalanced :
    (t : Bool) (initial : ℤ) (x y : Replay)
    → (t ≡ true → IsBalanced initial x)
    → IsBalanced initial y
    → IsBalanced initial (if t then x else y)
choice-IsBalanced true initial x y b c = b refl
choice-IsBalanced false initial x y b c = c

replay_buy-IsBalanced :
    (cent : ℕ) (s : TradeSignal) (at : DateTime) (initial : ℤ) (r : Replay)
    → IsBalanced initial r
    → r.position ≡ 0
    → 0 < s.quantity
    → IsBalanced initial (replay_buy cent s at r)
replay_buy-IsBalanced cent s at initial r b e q =
    let flat = b.flat_basis e in
    let balance = parts_of_eq _ _ b.balance in
    choice-IsBalanced (leb_ℤ (pos (notional s + total (toss_trade_costs cent s))) r.cash) initial _
      _
      (λ covered.
        let paid = leb_iff _ _ covered in
        record {
          solvent = omega (int_laws, paid);
          balance = omega (int_laws, balance, flat);
          flat_basis = ground (arith, flat, q);
          wins = b.wins;
        })
      b

replay_sell-IsBalanced :
    (cent : ℕ) (s : TradeSignal) (at : DateTime) (initial : ℤ) (r : Replay)
    → IsBalanced initial r
    → IsBalanced initial (replay_sell cent s at r)
replay_sell-IsBalanced cent s at initial r b =
    let balance = parts_of_eq _ _ b.balance in
    record {
      solvent = omega (int_laws, b.solvent, total-le-notional cent s);
      balance = omega (int_laws, balance);
      flat_basis = λ _. refl;
      wins = ground (arith, b.wins);
    }

execute_signal-IsBalanced :
    (cent : ℕ) (s : TradeSignal) (at : DateTime) (initial : ℤ) (r : Replay)
    → IsBalanced initial r
    → 0 < s.quantity
    → IsBalanced initial (execute_signal cent s at r)
execute_signal-IsBalanced cent s at initial r b q = by_side s.side
  where
    by_side :
        (side : Side)
        → IsBalanced initial (elim side [
          | buy ↦ if r.position == 0 then replay_buy cent s at r else r
          | sell ↦ if ltb 0 r.position then replay_sell cent s at r else r
        ])
    by_side buy =
        choice-IsBalanced (r.position == 0) initial _ _
          (λ e. replay_buy-IsBalanced cent s at initial r b ((==_iff r.position 0).0 e) q) b
    by_side sell =
        choice-IsBalanced (ltb 0 r.position) initial _ _
          (λ _. replay_sell-IsBalanced cent s at initial r b) b

as_signal-ok :
    (m : Result SignalError TradeSignal) (s : TradeSignal) → as_signal m ≡ ok s → m ≡ ok s
as_signal-ok (ok a) s h = cc h
as_signal-ok (err e) s h = cc h

execute_pending-IsBalanced :
    (divide : ℕ → ℕ → ℕ) (one cent : ℕ) (s : Settings) (bar : Bar) (p : Option TradeSignal)
    (initial : ℤ) (r r' : Replay)
    → execute_pending divide one cent s bar p r ≡ ok r'
    → IsBalanced initial r
    → IsBalanced initial r'
unfolding execute_pending
execute_pending-IsBalanced divide one cent s bar none initial r r' h b =
    subst (IsBalanced initial) (ok-injective h) b
execute_pending-IsBalanced divide one cent s bar (some p) initial r r' h b =
    let price = pos (execution_price divide one bar.open_price p.side (slippage s)) in
    let quantity = pos (order_quantity p.side (pos_part s.quantity) r.position) in
    let made = trade_signal p.signal_id p.symbol p.side price quantity p.reason in
    let (order, e, k) = >>=-ok (as_signal made) _ h in
    let (_, _, _, _, _, _, _, positive, _, _, _) =
      trade_signal-accepted p.signal_id p.symbol p.side price quantity p.reason order
        (as_signal-ok made order e) in
    let after = execute_signal-IsBalanced cent order bar.timestamp initial r b positive in
    subst (IsBalanced initial) (ok-injective k) (record {
      solvent = after.solvent;
      balance = after.balance;
      flat_basis = after.flat_basis;
      wins = after.wins;
    })

hold-IsBalanced :
    (o : Option TradeSignal) (initial : ℤ) (r : Replay)
    → IsBalanced initial r
    → IsBalanced initial (hold o r)
hold-IsBalanced none initial r b = b
hold-IsBalanced (some signal) initial r b =
    choice-IsBalanced (is_followed signal r.position) initial _ _
      (λ _. record {
        solvent = b.solvent;
        balance = b.balance;
        flat_basis = b.flat_basis;
        wins = b.wins;
      })
      b

follow-IsBalanced :
    (w : Wording) (symbol : String) (s : Settings) (seen : List Bar) (bar : Bar) (initial : ℤ)
    (r r' : Replay)
    → follow w symbol s seen bar r ≡ ok r'
    → IsBalanced initial r
    → IsBalanced initial r'
unfolding follow
follow-IsBalanced w symbol s seen bar initial r r' h b =
    let (e, _, k) =
      >>=-ok
        (as_backtest (
          evaluate_ma_crossover w
            (crossover_inputs symbol s bar (last (pos_part s.long_window + 1) (seen ++ bar ∷ [])))))
        (λ (e : MaCrossoverEvaluation). ok (hold e.signal r)) h in
    subst (IsBalanced initial) (ok-injective k) (hold-IsBalanced e.signal initial r b)

if-ok {ℓ} :
    {P : Type ℓ} (t : Bool) (x y : Result BacktestError Replay) (r : Replay)
    → (if t then x else y) ≡ ok r
    → (x ≡ ok r → P)
    → (y ≡ ok r → P)
    → P
if-ok true x y r h p q = p h
if-ok false x y r h p q = q h

look-IsBalanced :
    (w : Wording) (symbol : String) (s : Settings) (seen : List Bar) (bar : Bar) (initial : ℤ)
    (r r' : Replay)
    → look w symbol s seen bar r ≡ ok r'
    → IsBalanced initial r
    → IsBalanced initial r'
unfolding look
look-IsBalanced w symbol s seen bar initial r r' h b =
    if-ok (leb (pos_part s.long_window) (length seen)) (follow w symbol s seen bar r) (ok r) r' h
      (λ k. follow-IsBalanced w symbol s seen bar initial r r' k b)
      (λ k. subst (IsBalanced initial) (ok-injective k) b)

replay_bars-IsBalanced :
    (divide : ℕ → ℕ → ℕ) (one cent : ℕ) (w : Wording) (symbol : String) (s : Settings)
    (seen bars : List Bar) (initial : ℤ) (r r' : Replay)
    → replay_bars divide one cent w symbol s seen bars r ≡ ok r'
    → IsBalanced initial r
    → IsBalanced initial r'
unfolding replay_bars replay_bar
replay_bars-IsBalanced divide one cent w symbol s seen [] initial r r' h b =
    subst (IsBalanced initial) (ok-injective h) b
replay_bars-IsBalanced divide one cent w symbol s seen (bar ∷ bars) initial r r' h b =
    let (next, e, k) = >>=-ok (replay_bar divide one cent w symbol s seen bar r) _ h in
    let (executed, f, g) = >>=-ok (execute_pending divide one cent s bar r.pending_signal r) _ e in
    replay_bars-IsBalanced divide one cent w symbol s (seen ++ bar ∷ []) bars initial next r' k (
      look-IsBalanced w symbol s seen bar initial executed next g
        (execute_pending-IsBalanced divide one cent s bar r.pending_signal initial r executed f b))

-- A backtest that returns has a cash that is not negative, its cash and the basis of the position it holds are the
-- initial cash and the realized profit, a flat position has no basis, and no more trades won than were completed.
pub run_ma_backtest-IsBalanced :
    (divide : ℕ → ℕ → ℕ) (one cent : ℕ) (w : Wording) (s : Settings) (bars : List Bar) (r : Replay)
    → run_ma_backtest divide one cent w s bars ≡ ok r
    → IsBalanced s.initial_cash r
unfolding run_ma_backtest validate_inputs
run_ma_backtest-IsBalanced divide one cent w s bars r h =
    let (_, v, k) = >>=-ok (validate_inputs one s bars) _ h in
    let (_, v₁) =
      raise_if-ok (leb_ℤ s.short_window (pos 0) || leb_ℤ s.long_window s.short_window) _ _ v in
    let (_, v₂) = raise_if-ok (ltb (length bars) (pos_part s.long_window + 1)) _ _ v₁ in
    let (_, v₃) = raise_if-ok (leb_ℤ s.quantity (pos 0)) _ _ v₂ in
    let (cash, _) = raise_if-ok (leb_ℤ s.initial_cash (pos 0)) _ _ v₃ in
    replay_bars-IsBalanced divide one cent w (symbol_of bars) s [] bars s.initial_cash
      (first_replay s.initial_cash) r k
      (record {
        solvent = ground (arith, cash);
        balance = omega int_laws;
        flat_basis = λ _. refl;
        wins = omega arith;
      })
