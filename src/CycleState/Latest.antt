-- ===== src/CycleState/Latest.antt =====
-- The latest run, and the error count that the next cycle starts from.
use toss_trader.Prelude.{
  ℕ, ◌<◌, ◌≡◌, refl, Bool, true, false, not, ◌&&◌, String, List, [], ◌∷◌, ◌++◌, some, any, All,
  str_eq, eq_refl, ◌==◌, arith, ok,
}
use toss_trader.Prelude.Int.{ℤ}
use toss_trader.Models.Candle.{Interval}
use toss_trader.CycleState.{
  PaperCycleRun, RunStatus, running, succeeded, partial_failure, failed, other, Completion, is_open,
  is_completed, latest, latest_run, latest_consecutive_api_errors, start_run, finish_run,
  started_row, completed_row, complete_rows, validate_start, validate_finish, after, Stamped,
}

-- A run starts after every run of a list.
abbrev pub IsAfter : PaperCycleRun → List PaperCycleRun → Type 0
IsAfter new rows = All (λ r. r.started_at.stamp < new.started_at.stamp) rows

latest-append :
    (test : PaperCycleRun → Bool) (rows : List PaperCycleRun) (new : PaperCycleRun)
    → IsAfter new rows
    → test new ≡ true
    → latest test (rows ++ new ∷ []) ≡ some new
unfolding latest
latest-append test [] new h t = rw t
latest-append test (r ∷ rows) new h t = ground (arith, latest-append test rows new h.1 t)

latest-skip :
    (test : PaperCycleRun → Bool) (rows : List PaperCycleRun) (new : PaperCycleRun)
    → test new ≡ false
    → latest test (rows ++ new ∷ []) ≡ latest test rows
unfolding latest
latest-skip test [] new t = rw t
latest-skip test (r ∷ rows) new t = rw (latest-skip test rows new t)

-- A run whose arguments pass the checks and that starts after all others is the latest run of its portfolio, and
-- the error count read while it runs is the one read before it.
pub start_run-latest :
    (portfolio : String) (run_id : ℕ) (at : Stamped) (interval : Interval) (symbols : ℤ)
    (rows : List PaperCycleRun)
    → validate_start at.time interval symbols ≡ ok tt
    → All (λ r. r.started_at.stamp < at.stamp) rows
    → (latest_run portfolio (start_run portfolio run_id at interval symbols rows).1
        ≡ some (started_row portfolio run_id at interval symbols))
      × (latest_consecutive_api_errors portfolio
            (start_run portfolio run_id at interval symbols rows).1
          ≡ latest_consecutive_api_errors portfolio rows)
unfolding latest_run latest_consecutive_api_errors start_run
start_run-latest portfolio run_id at interval symbols rows v h = (
  rw (
    v,
    latest-append (λ r. str_eq r.portfolio_id portfolio) rows
        (started_row portfolio run_id at interval symbols) h (eq_refl portfolio),
  ),
  rw (
    v,
    after,
    latest_consecutive_api_errors,
    latest-skip (λ r. not (is_open r.status) && str_eq r.portfolio_id portfolio) rows
        (started_row portfolio run_id at interval symbols) refl,
  ),
)

any-tail :
    (run_id : ℕ) (r : PaperCycleRun) (rows : List PaperCycleRun)
    → any (λ x. x.run_id == run_id) (r ∷ rows) ≡ false
    → ((r.run_id == run_id) ≡ false) × (any (λ x. x.run_id == run_id) rows ≡ false)
any-tail run_id r rows h = (ground arith, ground arith)

complete_rows-append :
    (run_id : ℕ) (c : Completion) (rows : List PaperCycleRun) (new : PaperCycleRun)
    → any (λ r. r.run_id == run_id) rows ≡ false
    → new.run_id ≡ run_id
    → complete_rows run_id c (rows ++ new ∷ []) ≡ rows ++ completed_row c new ∷ []
complete_rows-append run_id c [] new h e = ground arith
complete_rows-append run_id c (r ∷ rows) new h e = rw (
  (any-tail run_id r rows h).0,
  complete_rows-append run_id c rows new (any-tail run_id r rows h).1 e,
)

any-append :
    (run_id : ℕ) (rows : List PaperCycleRun) (new : PaperCycleRun)
    → new.run_id ≡ run_id
    → any (λ r. r.run_id == run_id) (rows ++ new ∷ []) ≡ true
any-append run_id [] new e = ground arith
any-append run_id (r ∷ rows) new e = ground (arith, any-append run_id rows new e)

is_completed-closed : (s : RunStatus) → is_completed s ≡ true → not (is_open s) ≡ true
is_completed-closed running h = cc
is_completed-closed succeeded h = refl
is_completed-closed partial_failure h = refl
is_completed-closed failed h = refl
is_completed-closed (other _) h = cc

validate_finish-status : (c : Completion) → validate_finish c ≡ ok tt → is_completed c.status ≡ true
validate_finish-status c v = ground arith

finish_run-start_run :
    (portfolio : String) (run_id : ℕ) (at : Stamped) (interval : Interval) (symbols : ℤ)
    (c : Completion) (rows : List PaperCycleRun)
    → validate_start at.time interval symbols ≡ ok tt
    → validate_finish c ≡ ok tt
    → any (λ r. r.run_id == run_id) rows ≡ false
    → (finish_run run_id c (start_run portfolio run_id at interval symbols rows).1).1
      ≡ rows ++ completed_row c (started_row portfolio run_id at interval symbols) ∷ []
unfolding start_run finish_run
finish_run-start_run portfolio run_id at interval symbols c rows v w fresh =
    let new = started_row portfolio run_id at interval symbols in
    rw (v, w, any-append run_id rows new refl, complete_rows-append run_id c rows new fresh refl)
      refl

closed_own :
    (portfolio : String) (c : Completion)
    → validate_finish c ≡ ok tt
    → (not (is_open c.status) && str_eq portfolio portfolio) ≡ true
closed_own portfolio c w =
    rw (is_completed-closed c.status (validate_finish-status c w)) (eq_refl portfolio)

-- A run with a fresh id that starts after all others and is finished, all its arguments passing the checks, leaves its count of
-- consecutive API errors for the next cycle to read, and is the latest run, as it was finished.
pub finish_run-latest :
    (portfolio : String) (run_id : ℕ) (at : Stamped) (interval : Interval) (symbols : ℤ)
    (c : Completion) (rows : List PaperCycleRun)
    → validate_start at.time interval symbols ≡ ok tt
    → validate_finish c ≡ ok tt
    → any (λ r. r.run_id == run_id) rows ≡ false
    → All (λ r. r.started_at.stamp < at.stamp) rows
    → (latest_consecutive_api_errors portfolio
          (finish_run run_id c (start_run portfolio run_id at interval symbols rows).1).1
        ≡ c.consecutive_api_errors)
      × (latest_run portfolio
            (finish_run run_id c (start_run portfolio run_id at interval symbols rows).1).1
          ≡ some (completed_row c (started_row portfolio run_id at interval symbols)))
unfolding latest_run latest_consecutive_api_errors
finish_run-latest portfolio run_id at interval symbols c rows v w fresh h =
    let finished = completed_row c (started_row portfolio run_id at interval symbols) in
    (
      rw
          (
            finish_run-start_run portfolio run_id at interval symbols c rows v w fresh,
            latest_consecutive_api_errors,
            latest-append (λ r. not (is_open r.status) && str_eq r.portfolio_id portfolio) rows
                finished h (closed_own portfolio c w),
          )
          refl,
      rw
          (
            finish_run-start_run portfolio run_id at interval symbols c rows v w fresh,
            latest_run,
            latest-append (λ r. str_eq r.portfolio_id portfolio) rows finished h
                (eq_refl portfolio),
          )
          refl,
    )
