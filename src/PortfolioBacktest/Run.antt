-- ===== src/PortfolioBacktest/Run.antt =====
-- What a whole portfolio backtest keeps.
use toss_trader.Prelude.{
  choice-P, ℕ, suc, ==_iff, ◌≡◌, refl, Bool, true, false, ◌&&◌, ◌||◌, List, [], ◌∷◌, Option, none,
  some, ltb, ◌==◌, String, arith, if◌then◌else◌, Result, ok, err, >>=-ok, raise_if-ok, ok-injective,
  subst,
}
use toss_trader.Prelude.Int.{ℤ, pos, pos_part, leb_ℤ, ltb_ℤ, int_laws}
use toss_trader.Prelude.Dict.{Dict, get_or, lookup, sum_by}
use toss_trader.Models.Time.{DateTime, day_of}
use toss_trader.Models.Signal.{Side, is_buy, SignalError, TradeSignal, trade_signal}
use toss_trader.Models.Accepted.{trade_signal-accepted}
use toss_trader.Strategy.{Wording, MaCrossoverEvaluation, evaluate_ma_crossover}
use toss_trader.Backtest.{Bar}
use toss_trader.PortfolioBacktest.{
  PortfolioBacktestTrade, place_order, PositionState, Quote, no_position, PortfolioSettings,
  PortfolioError, Portfolio, state_of, Rejection, count_rejections, is_reached, risk_rejections,
  slipped, order_size, as_portfolio, execute_portfolio_pending, QuoteEvent, open_positions, buys_on,
  note_buy, without, rejected_or_executed, meet_signal, meet_pending, meet_all, note_prices,
  as_strategy_error, portfolio_inputs, window_at, queue_signal, signal_at, watch, watch_all,
  note_peak, replay_group, replay_events, first_states, first_portfolio, run_ma_portfolio_backtest,
  validate_portfolio, is_empty_dict, events_of, bad_limit, bars_of,
}
use toss_trader.PortfolioBacktest.Sound.{
  IsSound, IsFilled, buys_made, Keeps, Keeps-suc, basis_of, realized, place_order-IsFilled,
  no_rejections, same-IsSound, count_rejections-same, buys_on-one_more_buy,
}

-- The counter of each day's buys counts the trades that bought on it.
abbrev Counts : Portfolio → Type 0
Counts p = (day : ℕ) → buys_on day p.daily_buy_counts ≡ buys_made day p.trades

-- The state of the replay is sound.
abbrev pub Holds : PortfolioSettings → ℤ → Portfolio → Type 0
Holds s initial p = IsSound s initial p.cash p.states p.trades × Counts p

retraded-IsSound :
    (s : PortfolioSettings) (initial cash : ℤ) (states : Dict PositionState)
    (trades trades' : List PortfolioBacktestTrade)
    → IsSound s initial cash states trades
    → ((day : ℕ) → Keeps s.max_daily_buys (buys_made day trades'))
    → IsSound s initial cash states trades'
retraded-IsSound s initial cash states trades trades' b within = record {
  solvent = b.solvent;
  balance = b.balance;
  flat = b.flat;
  open_within = b.open_within;
  daily_within = within;
}

note_buy-Holds :
    (s : PortfolioSettings) (initial : ℤ) (executed : Bool) (signal : TradeSignal) (at : DateTime)
    (old p : Portfolio)
    → IsFilled s initial signal.side at old (p, executed)
    → Counts old
    → (is_buy signal.side ≡ true
        → is_reached s.max_daily_buys (pos (buys_on (day_of at) old.daily_buy_counts)) ≡ false)
    → Holds s initial (note_buy executed signal (day_of at) p)
note_buy-Holds s initial executed signal at old p (b, same, grew) counts free =
    choice-P (Holds s initial) (executed && is_buy signal.side) _ _
      (λ e.
        let more : (day : ℕ)
            → buys_made day p.trades ≡ (
                if day_of at == day
                then suc (buys_made day old.trades)
                else buys_made day old.trades) =
          λ day. ground (arith, grew day) in
        (
          retraded-IsSound s initial p.cash p.states old.trades p.trades b (λ day. rw (more day) (
              choice-P (Keeps s.max_daily_buys) (day_of at == day) _ _
                (λ today.
                  Keeps-suc s.max_daily_buys (buys_made day old.trades)
                    (rw (← counts day, ← (==_iff (day_of at) day).0 today) (free (ground arith))))
                (λ _. b.daily_within day))),
          λ day.
              rw
                (
                  buys_on-one_more_buy (day_of at) day p.daily_buy_counts,
                  more day,
                  same,
                  counts day,
                )
                refl,
        ))
      (λ e.
        let none_more : (day : ℕ) → buys_made day p.trades ≡ buys_made day old.trades =
          λ day. ground (arith, grew day) in
        (
          retraded-IsSound s initial p.cash p.states old.trades p.trades b
              (λ day. rw (none_more day) (b.daily_within day)),
          λ day. rw (none_more day, same) (counts day),
        ))

as_portfolio-ok :
    (m : Result SignalError TradeSignal) (o : TradeSignal) → as_portfolio m ≡ ok o → m ≡ ok o
as_portfolio-ok (ok a) o h = cc h
as_portfolio-ok (err e) o h = cc h

execute-IsFilled :
    (divide : ℕ → ℕ → ℕ) (one cent : ℕ) (s : PortfolioSettings) (initial : ℤ) (k : String)
    (signal : TradeSignal) (bar : Bar) (p : Portfolio) (r : Portfolio × Bool)
    → execute_portfolio_pending divide one cent s k signal bar p ≡ ok r
    → IsSound s initial p.cash p.states p.trades
    → (is_buy signal.side ≡ true
        → ((state_of k p).quantity == 0)
            && is_reached s.max_open_positions (pos (open_positions p.states))
          ≡ false)
    → IsFilled s initial signal.side bar.timestamp p r
unfolding execute_portfolio_pending
execute-IsFilled divide one cent s initial k signal bar p r h b room =
    let price = pos (slipped divide one bar.open_price signal.side (pos_part s.slippage_rate)) in
    let quantity = pos (order_size signal.side (pos_part s.quantity) (state_of k p).quantity) in
    let made =
      trade_signal signal.signal_id signal.symbol signal.side price quantity signal.reason in
    let (order, e, done) = >>=-ok (as_portfolio made) _ h in
    let (_, _, side, _, _, _, _, positive, _, _, _) =
      trade_signal-accepted signal.signal_id signal.symbol signal.side price quantity signal.reason
        order (as_portfolio-ok made order e) in
    subst (IsFilled s initial signal.side bar.timestamp p) (ok-injective done) (
      subst
        (λ (x : Side).
          IsFilled s initial x bar.timestamp p (place_order cent k order bar.timestamp p))
        side
        (place_order-IsFilled s initial cent k order bar.timestamp p b positive
          (λ is_bought. room (subst (λ (x : Side). is_buy x ≡ true) side is_bought))))

module _ (divide : ℕ → ℕ → ℕ) (one cent : ℕ) (s : PortfolioSettings) (initial : ℤ) where
  rejected_or_executed-Holds :
      (e : QuoteEvent) (signal : TradeSignal) (rs : List Rejection) (p p' : Portfolio)
      → risk_rejections s signal
          (state_of e.symbol p)
          (open_positions p.states)
          (buys_on (day_of e.bar.timestamp) p.daily_buy_counts)
        ≡ rs
      → rejected_or_executed divide one cent s e signal rs p ≡ ok p'
      → Holds s initial p
      → Holds s initial p'
  rejected_or_executed-Holds e signal (r ∷ rs) p p' h k b =
      let (q, c, g) = count_rejections-same (r ∷ rs) (state_of e.symbol p) in
      subst (Holds s initial) (ok-injective k) (
        same-IsSound s initial p.cash p.states p.trades e.symbol
            (count_rejections (r ∷ rs) (state_of e.symbol p)) b.0 q c g,
        b.1,
      )
  rejected_or_executed-Holds e signal [] p p' h k b =
      let checked =
        no_rejections s signal (state_of e.symbol p) (open_positions p.states)
          (buys_on (day_of e.bar.timestamp) p.daily_buy_counts) h in
      let (filled, f, g) =
        >>=-ok (execute_portfolio_pending divide one cent s e.symbol signal e.bar p)
          (λ (x : Portfolio × Bool). ok (note_buy x.1 signal (day_of e.bar.timestamp) x.0)) k in
      let done =
        execute-IsFilled divide one cent s initial e.symbol signal e.bar p filled f b.0
          (λ t. (checked t).1) in
      subst (Holds s initial) (ok-injective g) (
        note_buy-Holds s initial filled.1 signal e.bar.timestamp p filled.0 done b.1
          (λ t. (checked t).0))

  meet_signal-Holds :
      (e : QuoteEvent) (o : Option TradeSignal) (p p' : Portfolio)
      → meet_signal divide one cent s e o p ≡ ok p'
      → Holds s initial p
      → Holds s initial p'
  meet_signal-Holds e none p p' h b = subst (Holds s initial) (ok-injective h) b
  meet_signal-Holds e (some signal) p p' h b = rejected_or_executed-Holds e signal _ p p' refl h b

  meet_all-Holds :
      (events : List QuoteEvent) (p p' : Portfolio)
      → meet_all divide one cent s events p ≡ ok p'
      → Holds s initial p
      → Holds s initial p'
  unfolding meet_all meet_pending
  meet_all-Holds [] p p' h b = subst (Holds s initial) (ok-injective h) b
  meet_all-Holds (e ∷ events) p p' h b =
      let (next, f, k) = >>=-ok (meet_pending divide one cent s e p) _ h in
      meet_all-Holds events next p' k (
        meet_signal-Holds e (lookup e.symbol p.pending)
          (record p { pending = without e.symbol p.pending }) next f b)

if-ok {ℓ} :
    {P : Type ℓ} (t : Bool) (x y : Result PortfolioError Portfolio) (p : Portfolio)
    → (if t then x else y) ≡ ok p
    → (x ≡ ok p → P)
    → (y ≡ ok p → P)
    → P
if-ok true x y p h f g = f h
if-ok false x y p h f g = g h

module _ (w : Wording) (s : PortfolioSettings) (candles : Dict (List Quote)) (initial : ℤ) where
  queue_signal-Holds :
      (symbol : String) (o : Option TradeSignal) (p : Portfolio)
      → Holds s initial p
      → Holds s initial (queue_signal symbol o p)
  queue_signal-Holds symbol none p b = b
  queue_signal-Holds symbol (some signal) p b =
      choice-P (Holds s initial)
        (if is_buy signal.side
          then (state_of symbol p).quantity == 0
          else ltb 0 (state_of symbol p).quantity)
        _ _ (λ _. b) (λ _. b)

  signal_at-Holds :
      (e : QuoteEvent) (p p' : Portfolio)
      → signal_at w s candles e p ≡ ok p'
      → Holds s initial p
      → Holds s initial p'
  signal_at-Holds e p p' h b =
      let (found, _, k) =
        >>=-ok
          (as_strategy_error (
            evaluate_ma_crossover w (
              portfolio_inputs s e (
                window_at (pos_part s.long_window) e.index
                  (bars_of (get_or [] e.symbol candles))))))
          (λ (x : MaCrossoverEvaluation). ok (queue_signal e.symbol x.signal p)) h in
      subst (Holds s initial) (ok-injective k) (queue_signal-Holds e.symbol found.signal p b)

  watch_all-Holds :
      (events : List QuoteEvent) (p p' : Portfolio)
      → watch_all w s candles events p ≡ ok p'
      → Holds s initial p
      → Holds s initial p'
  unfolding watch_all watch
  watch_all-Holds [] p p' h b = subst (Holds s initial) (ok-injective h) b
  watch_all-Holds (e ∷ events) p p' h b =
      let (next, f, k) = >>=-ok (watch w s candles e p) _ h in
      watch_all-Holds events next p' k (
        if-ok (ltb e.index (pos_part s.long_window)) (ok p) (signal_at w s candles e p) next f
          (λ same. subst (Holds s initial) (ok-injective same) b)
          (λ g. signal_at-Holds e p next g b))

replay_events-Holds :
    (divide : ℕ → ℕ → ℕ) (one cent : ℕ) (w : Wording) (s : PortfolioSettings)
    (candles : Dict (List Quote)) (initial : ℤ) (groups : List (ℤ × List QuoteEvent))
    (p p' : Portfolio)
    → replay_events divide one cent w s candles groups p ≡ ok p'
    → Holds s initial p
    → Holds s initial p'
unfolding replay_events replay_group
replay_events-Holds divide one cent w s candles initial [] p p' h b =
    subst (Holds s initial) (ok-injective h) b
replay_events-Holds divide one cent w s candles initial ((at, group) ∷ groups) p p' h b =
    let (next, f, k) = >>=-ok (replay_group divide one cent w s candles group p) _ h in
    let (executed, met, f') = >>=-ok (meet_all divide one cent s group p) _ f in
    let (watched, seen, done) =
      >>=-ok
        (watch_all w s candles group
          (record executed { last_prices = note_prices group executed.last_prices }))
        (λ (x : Portfolio). ok (note_peak x)) f' in
    let after = meet_all-Holds divide one cent s initial group p executed met b in
    let quiet = watch_all-Holds w s candles initial group _ watched seen after in
    replay_events-Holds divide one cent w s candles initial groups next p' k
      (subst (Holds s initial) (ok-injective done) quiet)

first_states-flat :
    (symbols : List String) (k : String) → get_or no_position k (first_states symbols) ≡ no_position
first_states-flat [] k = refl
first_states-flat (symbol ∷ symbols) k = ground (arith, first_states-flat symbols k)

first_states-sums :
    (symbols : List String)
    → (sum_by basis_of (first_states symbols) ≡ pos 0)
      × (sum_by realized (first_states symbols) ≡ pos 0)
      × (open_positions (first_states symbols) ≡ 0)
first_states-sums [] = (refl, refl, refl)
first_states-sums (symbol ∷ symbols) =
    let (a, b, c) = first_states-sums symbols in (rw a (omega int_laws), rw b (omega int_laws), c)

Keeps-zero : (o : Option ℤ) (n : ℕ) → n ≡ 0 → bad_limit o ≡ false → Keeps o n
Keeps-zero none n e h = tt
Keeps-zero (some limit) n e h = ground arith

-- A portfolio backtest that returns ends with a cash that is not negative; the cash and the bases of all positions
-- are the initial cash and the realized profits of all symbols; a position that is flat has no basis; and no more
-- positions are open, and on no day did more of the trades buy, than the limits that are set allow.
pub run_ma_portfolio_backtest-IsSound :
    (divide : ℕ → ℕ → ℕ) (one cent : ℕ) (w : Wording) (s : PortfolioSettings)
    (candles : Dict (List Quote)) (p : Portfolio)
    → run_ma_portfolio_backtest divide one cent w s candles ≡ ok p
    → IsSound s s.initial_cash p.cash p.states p.trades
unfolding run_ma_portfolio_backtest validate_portfolio
run_ma_portfolio_backtest-IsSound divide one cent w s candles p h =
    let (symbols, v, k) = >>=-ok (validate_portfolio one s candles) _ h in
    let (_, v₁) = raise_if-ok (is_empty_dict candles) _ _ v in
    let (_, v₂) =
      raise_if-ok (leb_ℤ s.short_window (pos 0) || leb_ℤ s.long_window s.short_window) _ _ v₁ in
    let (_, v₃) = raise_if-ok (leb_ℤ s.quantity (pos 0)) _ _ v₂ in
    let (cash, v₄) = raise_if-ok (leb_ℤ s.initial_cash (pos 0)) _ _ v₃ in
    let (_, v₅) =
      raise_if-ok (ltb_ℤ s.slippage_rate (pos 0) || leb_ℤ (pos one) s.slippage_rate) _ _ v₄ in
    let (open_ok, v₆) = raise_if-ok (bad_limit s.max_open_positions) _ _ v₅ in
    let (daily_ok, _) = raise_if-ok (bad_limit s.max_daily_buys) _ _ v₆ in
    let (bases, profits, none_open) = first_states-sums symbols in
    (replay_events-Holds divide one cent w s candles s.initial_cash (events_of candles symbols [])
      (first_portfolio s symbols) p k
      (
        record {
          solvent = ground (arith, cash);
          balance = rw (bases, profits) (omega int_laws);
          flat = λ symbol _. rw (first_states-flat symbols symbol) refl;
          open_within = Keeps-zero s.max_open_positions _ none_open open_ok;
          daily_within = λ day. Keeps-zero s.max_daily_buys 0 refl daily_ok;
        },
        λ day. refl,
      )).0
