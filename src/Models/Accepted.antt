-- ===== src/Models/Accepted.antt =====
-- What the checks of the models let through.
use toss_trader.Prelude.{
  ℕ, ◌<◌, ◌≡◌, refl, Bool, true, false, not, ◌||◌, String, is_some, arith, ap, subst, sym, ok,
  raise_if-ok, ok-injective, text_length, ◌==◌, all_codes,
}
use toss_trader.Prelude.Int.{ℤ, pos, pos_part, leb_ℤ, ltb_ℤ, ◌≤ℤ◌, ◌<ℤ◌, min_ℤ, max_ℤ}
use toss_trader.Models.Time.{is_naive}
use toss_trader.Models.Signal.{Side, TradeSignal, trade_signal, symbol_matches, is_blank}
use toss_trader.Models.Candle.{Candle, candle_post_init, is_supported}
use toss_trader.Models.Plan.{
  V2PositionPlan, plan_post_init, setups_missing, half_pending, smallest, triggered_naive,
}

pos_of_positive : (z : ℤ) → leb_ℤ z (pos 0) ≡ false → pos (pos_part z) ≡ z
pos_of_positive z h = ground arith

not-false : (b : Bool) → not b ≡ false → b ≡ true
not-false true h = refl
not-false false h = cc

min-positive : (a b c d : ℤ) → leb_ℤ (min_ℤ (min_ℤ (min_ℤ a b) c) d) (pos 0) ≡ false → pos 0 <ℤ c
min-positive a b c d h = ground arith

min-bounds : (a b c low : ℤ) → ltb_ℤ (min_ℤ (min_ℤ a b) c) low ≡ false → (low ≤ℤ a) × (low ≤ℤ c)
min-bounds a b c low h = (ground arith, ground arith)

max-bounds : (a b c high : ℤ) → ltb_ℤ high (max_ℤ (max_ℤ a b) c) ≡ false → (a ≤ℤ high) × (c ≤ℤ high)
max-bounds a b c high h = (ground arith, ground arith)

-- A trade signal that is made has each of its arguments in the field of that name; its price and its quantity are
-- positive, its symbol has the right form, and its id and its reason are not blank.
pub trade_signal-accepted :
    (id symbol : String) (side : Side) (price quantity : ℤ) (reason : String) (s : TradeSignal)
    → trade_signal id symbol side price quantity reason ≡ ok s
    → (s.signal_id ≡ id)
      × (s.reason ≡ reason)
      × (s.side ≡ side)
      × (s.symbol ≡ symbol)
      × (pos s.reference_price ≡ price)
      × (pos s.quantity ≡ quantity)
      × (0 < s.reference_price)
      × (0 < s.quantity)
      × (is_blank id ≡ false)
      × (not (symbol_matches symbol) ≡ false)
      × (is_blank reason ≡ false)
unfolding trade_signal
trade_signal-accepted id symbol side price quantity reason s h₀ =
    let (id_ok, h₁) = raise_if-ok (is_blank id) _ _ h₀ in
    let (symbol_ok, h₂) = raise_if-ok (not (symbol_matches symbol)) _ _ h₁ in
    let (price_ok, h₃) = raise_if-ok (leb_ℤ price (pos 0)) _ _ h₂ in
    let (quantity_ok, h₄) = raise_if-ok (leb_ℤ quantity (pos 0)) _ _ h₃ in
    let (reason_ok, h₅) = raise_if-ok (is_blank reason) _ _ h₄ in
    let made = ok-injective h₅ in
    (
      ap (λ (x : TradeSignal). x.signal_id) (sym made),
      ap (λ (x : TradeSignal). x.reason) (sym made),
      ap (λ (x : TradeSignal). x.side) (sym made),
      ap (λ (x : TradeSignal). x.symbol) (sym made),
      subst (λ (x : TradeSignal). pos x.reference_price ≡ price) made
          (pos_of_positive price price_ok),
      subst (λ (x : TradeSignal). pos x.quantity ≡ quantity) made
          (pos_of_positive quantity quantity_ok),
      subst (λ (x : TradeSignal). 0 < x.reference_price) made (ground arith),
      subst (λ (x : TradeSignal). 0 < x.quantity) made (ground arith),
      id_ok,
      symbol_ok,
      reason_ok,
    )

-- The candle's prices and its volume, in the order a candle promises.
pub record IsCandle (c : Candle) : Type 0 where
  pub low_positive : pos 0 <ℤ c.low_price
  pub low_open : c.low_price ≤ℤ c.open_price
  pub low_close : c.low_price ≤ℤ c.close_price
  pub open_high : c.open_price ≤ℤ c.high_price
  pub close_high : c.close_price ≤ℤ c.high_price
  pub volume : pos 0 ≤ℤ c.volume
  pub interval : is_supported c.interval ≡ true
  pub aware : is_naive c.timestamp ≡ false

-- A candle that is made has its prices in order, low, open and close, high, all positive, a volume that is not
-- negative, an interval that is supported and a time with an offset.
pub candle_post_init-IsCandle :
    (is_alpha : ℕ → Bool) (c d : Candle) → candle_post_init is_alpha c ≡ ok d → (c ≡ d) × IsCandle c
unfolding candle_post_init
candle_post_init-IsCandle is_alpha c d h₀ =
    let (_, h₁) = raise_if-ok (not (symbol_matches c.symbol)) _ _ h₀ in
    let (interval_ok, h₂) = raise_if-ok (not (is_supported c.interval)) _ _ h₁ in
    let (time_ok, h₃) = raise_if-ok (is_naive c.timestamp) _ _ h₂ in
    let (prices_ok, h₄) =
      raise_if-ok
        (leb_ℤ (min_ℤ (min_ℤ (min_ℤ c.open_price c.high_price) c.low_price) c.close_price) (pos 0))
        _ _ h₃ in
    let (high_ok, h₅) =
      raise_if-ok (ltb_ℤ c.high_price (max_ℤ (max_ℤ c.open_price c.low_price) c.close_price)) _ _
        h₄ in
    let (low_ok, h₆) =
      raise_if-ok (ltb_ℤ (min_ℤ (min_ℤ c.open_price c.high_price) c.close_price) c.low_price) _ _
        h₅ in
    let (volume_ok, h₇) = raise_if-ok (ltb_ℤ c.volume (pos 0)) _ _ h₆ in
    let (_, h₈) =
      raise_if-ok (not (text_length c.currency == 3) || not (all_codes is_alpha c.currency)) _ _
        h₇ in
    (
      ok-injective h₈,
      record {
        low_positive = min-positive c.open_price c.high_price c.low_price c.close_price prices_ok;
        low_open = (min-bounds c.open_price c.high_price c.close_price c.low_price low_ok).0;
        low_close = (min-bounds c.open_price c.high_price c.close_price c.low_price low_ok).1;
        open_high = (max-bounds c.open_price c.low_price c.close_price c.high_price high_ok).0;
        close_high = (max-bounds c.open_price c.low_price c.close_price c.high_price high_ok).1;
        volume = ground (arith, volume_ok);
        interval = not-false (is_supported c.interval) interval_ok;
        aware = time_ok;
      },
    )

-- A position plan that may be carried out.
pub record IsPlan (p : V2PositionPlan) : Type 0 where
  pub quantity : pos 0 <ℤ p.quantity
  pub stop_positive : pos 0 <ℤ p.stop_price
  pub stop_below : p.stop_price <ℤ p.entry_price
  pub heat : pos 0 <ℤ p.planned_heat
  pub setups : setups_missing p.setups ≡ false
  pub aware : is_naive p.opened_at ≡ false
  pub exit_whole : is_some p.exit_pending_reason ≡ is_some p.exit_triggered_at

min-positive₅ :
    (a b c d e : ℤ)
    → leb_ℤ (min_ℤ (min_ℤ (min_ℤ (min_ℤ a b) c) d) e) (pos 0) ≡ false
    → (pos 0 <ℤ a) × (pos 0 <ℤ c)
min-positive₅ a b c d e h = (ground arith, ground arith)

half_pending-whole :
    (p : V2PositionPlan)
    → half_pending p ≡ false
    → is_some p.exit_pending_reason ≡ is_some p.exit_triggered_at
half_pending-whole p h = ground arith

-- A position plan that is made has a positive quantity and heat, a stop strictly between 0 and its entry, some setup, an
-- opening time with an offset, and an exit that is pending with both its reason and its time or with neither.
pub plan_post_init-IsPlan : (p q : V2PositionPlan) → plan_post_init p ≡ ok q → (p ≡ q) × IsPlan p
unfolding plan_post_init
plan_post_init-IsPlan p q h₀ =
    let (_, h₁) = raise_if-ok (not (symbol_matches p.symbol)) _ _ h₀ in
    let (_, h₂) = raise_if-ok (is_blank p.cluster_id) _ _ h₁ in
    let (setups_ok, h₃) = raise_if-ok (setups_missing p.setups) _ _ h₂ in
    let (positive_ok, h₄) = raise_if-ok (leb_ℤ (smallest p) (pos 0)) _ _ h₃ in
    let (stop_ok, h₅) = raise_if-ok (leb_ℤ p.entry_price p.stop_price) _ _ h₄ in
    let (heat_ok, h₆) = raise_if-ok (leb_ℤ p.planned_heat (pos 0)) _ _ h₅ in
    let (aware_ok, h₇) = raise_if-ok (is_naive p.opened_at) _ _ h₆ in
    let (pending_ok, h₈) = raise_if-ok (half_pending p) _ _ h₇ in
    let (_, h₉) = raise_if-ok (triggered_naive p.exit_triggered_at) _ _ h₈ in
    (
      ok-injective h₉,
      record {
        quantity =
            (min-positive₅ p.quantity p.entry_price p.stop_price p.ma50 p.signal_close
              positive_ok).0;
        stop_positive =
            (min-positive₅ p.quantity p.entry_price p.stop_price p.ma50 p.signal_close
              positive_ok).1;
        stop_below = ground (arith, stop_ok);
        heat = ground (arith, heat_ok);
        setups = setups_ok;
        aware = aware_ok;
        exit_whole = half_pending-whole p pending_ok;
      },
    )
