-- ===== src/CycleState/Listing.antt =====
-- What `list_runs` of src/toss_trader/cycle_state.py lists.
use mathlib.Core.List.{Permᴰ, Perm}
use mathlib.Core.List.Permᴰ
use toss_trader.Prelude.{
  ℕ, ◌≤◌, ◌<◌, ◌≡◌, ◌≢◌, ◌⊎◌, refl, ap, subst, true, false, String, List, [], ◌∷◌, All, keep, Picks,
  keep-Picks, ok, arith, Bool-cases, inl, inr, eq_iff, eq_refl,
}
use toss_trader.Prelude.Int.{ℤ, ltb_ℤ, ◌≤ℤ◌}
use toss_trader.Models.Time.{is_naive, instant}
use toss_trader.Models.Candle.{Interval, one_minute, one_day, unknown, is_supported}
use toss_trader.CycleState.{
  PaperCycleRun, Stamped, RunStatus, running, succeeded, partial_failure, failed, other, is_open,
  is_later,
}
use toss_trader.CycleState.Window.{is_interval, in_window, insert_run, in_order, list_runs}

-- A run that has ended, of a portfolio and an interval, that began between two stamps.
pub record IsInWindow (portfolio : String) (interval : Interval) (first last : ℕ)
    (r : PaperCycleRun) : Type 0 where
  pub own : r.portfolio_id ≡ portfolio
  pub same : r.interval ≡ interval
  pub ended : r.status ≢ running
  pub not_before : first ≤ r.started_at.stamp
  pub not_after : r.started_at.stamp ≤ last

-- A run began before another, or with it and has the smaller id.
abbrev pub ComesFirst : PaperCycleRun → PaperCycleRun → Type 0
ComesFirst a b =
    (a.started_at.stamp < b.started_at.stamp)
    ⊎ ((a.started_at.stamp ≡ b.started_at.stamp) × (a.run_id ≤ b.run_id))

-- Each run comes first to all that follow it.
abbrev pub IsInOrder : List PaperCycleRun → Type 0
IsInOrder [] = Unit
IsInOrder (r ∷ rows) = All (ComesFirst r) rows × IsInOrder rows

ComesFirst-trans : (a b c : PaperCycleRun) → ComesFirst a b → ComesFirst b c → ComesFirst a c
ComesFirst-trans a b c h k = ground (arith, h, k)

not_later : (a b : PaperCycleRun) → is_later a b ≡ false → ComesFirst a b
not_later a b e = ground arith

later : (a b : PaperCycleRun) → is_later a b ≡ true → ComesFirst b a
later a b e = ground arith

is_interval_eq : (a b : Interval) → is_interval a b ≡ true → a ≡ b
is_interval_eq one_minute one_minute h = refl
is_interval_eq one_minute one_day h = cc
is_interval_eq one_minute (unknown t) h = cc
is_interval_eq one_day one_minute h = cc
is_interval_eq one_day one_day h = refl
is_interval_eq one_day (unknown t) h = cc
is_interval_eq (unknown t) one_minute h = cc
is_interval_eq (unknown t) one_day h = cc
is_interval_eq (unknown t) (unknown u) h = ap unknown ((eq_iff t u).0 h)

is_interval_refl : (a : Interval) → is_interval a a ≡ true
is_interval_refl one_minute = refl
is_interval_refl one_day = refl
is_interval_refl (unknown t) = eq_refl t

is_open-running : (s : RunStatus) → is_open s ≡ true → s ≡ running
is_open-running s h = ground arith

not_below : (a b : ℤ) → b ≤ℤ a → ltb_ℤ a b ≡ false
not_below a b h = ground arith

in_window-IsInWindow :
    (portfolio : String) (interval : Interval) (from to : Stamped) (r : PaperCycleRun)
    → in_window portfolio interval from to r ≡ true
    → IsInWindow portfolio interval from.stamp to.stamp r
in_window-IsInWindow portfolio interval from to r h = record {
  own = ground (arith, eq_iff r.portfolio_id portfolio);
  same = is_interval_eq r.interval interval (ground arith);
  ended = λ e. ground arith;
  not_before = ground arith;
  not_after = ground arith;
}

IsInWindow-in_window :
    (portfolio : String) (interval : Interval) (from to : Stamped) (r : PaperCycleRun)
    → in_window portfolio interval from to r ≡ false
    → ¬ IsInWindow portfolio interval from.stamp to.stamp r
IsInWindow-in_window portfolio interval from to r h k =
    let same_interval =
      subst (λ i. is_interval r.interval i ≡ true) k.same (is_interval_refl r.interval) in
    let ended = not_open r.status k.ended in
    ground (
      arith,
      (eq_iff r.portfolio_id portfolio).1 k.own,
      same_interval,
      ended,
      k.not_before,
      k.not_after,
    )
  where
    not_open : (s : RunStatus) → s ≢ running → is_open s ≡ false
    not_open running n = absurd (n refl)
    not_open succeeded n = refl
    not_open partial_failure n = refl
    not_open failed n = refl
    not_open (other t) n = refl

All-insert_run {ℓ} :
    (P : PaperCycleRun → Type ℓ) (r : PaperCycleRun) (rows : List PaperCycleRun)
    → P r
    → All P rows
    → All P (insert_run r rows)
All-insert_run P r [] p h = (p, tt)
All-insert_run P r (x ∷ rows) p h = elim (Bool-cases (is_later r x)) [
  | inl e ↦ rw e (h.0, All-insert_run P r rows p h.1)
  | inr e ↦ rw e (p, h)
]

All-ComesFirst :
    (r x : PaperCycleRun) (rows : List PaperCycleRun)
    → ComesFirst r x
    → All (ComesFirst x) rows
    → All (ComesFirst r) rows
All-ComesFirst r x [] e h = tt
All-ComesFirst r x (y ∷ rows) e h = (ComesFirst-trans r x y e h.0, All-ComesFirst r x rows e h.1)

insert_run-IsInOrder :
    (r : PaperCycleRun) (rows : List PaperCycleRun) → IsInOrder rows → IsInOrder (insert_run r rows)
insert_run-IsInOrder r [] h = (tt, tt)
insert_run-IsInOrder r (x ∷ rows) h = elim (Bool-cases (is_later r x)) [
  | inl e ↦
      rw e (All-insert_run (ComesFirst x) r rows (later r x e) h.0, insert_run-IsInOrder r rows h.1)
  | inr e ↦ rw e ((not_later r x e, All-ComesFirst r x rows (not_later r x e) h.0), h)
]

in_order-IsInOrder : (rows : List PaperCycleRun) → IsInOrder (in_order rows)
in_order-IsInOrder [] = tt
in_order-IsInOrder (r ∷ rows) = insert_run-IsInOrder r (in_order rows) (in_order-IsInOrder rows)

insert_run-Permᴰ :
    (r : PaperCycleRun) (rows : List PaperCycleRun) → Permᴰ (insert_run r rows) (r ∷ rows)
insert_run-Permᴰ r [] = Permᴰ.refl (r ∷ [])
insert_run-Permᴰ r (x ∷ rows) = elim (Bool-cases (is_later r x)) [
  | inl e ↦ rw e (Permᴰ.trans (Permᴰ.cons refl (insert_run-Permᴰ r rows)) (Permᴰ.swap refl refl))
  | inr e ↦ rw e (Permᴰ.refl (r ∷ x ∷ rows))
]

in_order-Permᴰ : (rows : List PaperCycleRun) → Permᴰ (in_order rows) rows
in_order-Permᴰ [] = Permᴰ.nil
in_order-Permᴰ (r ∷ rows) =
    Permᴰ.trans (insert_run-Permᴰ r (in_order rows)) (Permᴰ.cons refl (in_order-Permᴰ rows))

-- A window of a supported interval whose ends have offsets and are not reversed is listed: what is returned are the
-- stored runs of the portfolio and the interval that are not running and began within the window, ends included, all
-- of them and each as often as it is stored, in the order of their start and, among equal starts, of their ids.
pub list_runs-lists :
    (portfolio : String) (interval : Interval) (started_from started_to : Stamped)
    (rows : List PaperCycleRun)
    → is_supported interval ≡ true
    → is_naive started_from.time ≡ false
    → is_naive started_to.time ≡ false
    → instant started_from.time ≤ℤ instant started_to.time
    → (runs listed : List PaperCycleRun) × (list_runs portfolio interval started_from started_to
          rows
        ≡ ok runs)
      × Picks (IsInWindow portfolio interval started_from.stamp started_to.stamp) rows listed
      × Perm runs listed
      × IsInOrder runs
unfolding list_runs
list_runs-lists portfolio interval started_from started_to rows supported aware_from aware_to h =
    let test = in_window portfolio interval started_from started_to in
    let ends = not_below (instant started_to.time) (instant started_from.time) h in
    (
      in_order (keep test rows),
      keep test rows,
      rw (supported, aware_from, aware_to, ends) refl,
      keep-Picks (IsInWindow portfolio interval started_from.stamp started_to.stamp) test
          (in_window-IsInWindow portfolio interval started_from started_to)
          (IsInWindow-in_window portfolio interval started_from started_to) rows,
      ∣ in_order-Permᴰ (keep test rows) ∣₁,
      in_order-IsInOrder (keep test rows),
    )
