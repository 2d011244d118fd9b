-- ===== src/CycleState.antt =====
-- `SqliteCycleStateStore` of src/toss_trader/cycle_state.py: the table of paper cycle runs. A time is kept with
-- its ISO text's place in the order of texts, `stamp`, by which the queries compare; a run id is the number
-- that `uuid4` made, whose text has the same order.
pub mod Latest
pub mod Window
pub mod Listing
mod Tests
use toss_trader.Prelude.{
  ℕ, ◌≡◌, Bool, true, false, not, ◌&&◌, ◌||◌, String, List, [], ◌∷◌, ◌++◌, Option, none, some, any,
  keep, str_eq, ltb, leb, ◌==◌, Result, ok, err, raise_if, ◌>>=◌, ◌>>◌, if◌then◌else◌,
}
use toss_trader.Prelude.Int.{ℤ, pos, negsuc, ltb_ℤ, leb_ℤ, min_ℤ, pos_part}
use toss_trader.Models.Time.{DateTime, is_naive, instant}
use toss_trader.Models.Candle.{Interval, one_minute, one_day, unknown, is_supported}

-- RUN_STATUSES, and any other text
pub data RunStatus : Type 0 where
  running succeeded partial_failure failed : RunStatus
  other : String → RunStatus

pub record Stamped : Type 0 where
  pub time : DateTime
  pub stamp : ℕ

pub record PaperCycleRun : Type 0 where
  pub run_id : ℕ
  pub portfolio_id : String
  pub started_at : Stamped
  pub finished_at : Option Stamped
  pub status : RunStatus
  pub interval : Interval
  pub symbol_count : ℤ
  pub signal_count : ℤ
  pub fill_count : ℤ
  pub failed_count : ℤ
  pub consecutive_api_errors : ℤ
  pub daily_return_rate : ℤ
  pub error_message : Option String
  pub cycle_insight : Option String

pub data CycleError : Type 0 where
  naive_time bad_interval negative_symbol_count invalid_status negative_count : CycleError
  unknown_run window_reversed : CycleError

abbrev pub is_completed : RunStatus → Bool
is_completed running = false
is_completed succeeded = true
is_completed partial_failure = true
is_completed failed = true
is_completed (other _) = false

abbrev pub is_open : RunStatus → Bool
is_open running = true
is_open succeeded = false
is_open partial_failure = false
is_open failed = false
is_open (other _) = false

-- `_validate_start`
abbrev pub validate_start : DateTime → Interval → ℤ → Result CycleError (Unit {0})
validate_start started_at interval symbol_count = do
  raise_if (is_naive started_at) naive_time
  raise_if (not (is_supported interval)) bad_interval
  raise_if (ltb_ℤ symbol_count (pos 0)) negative_symbol_count
  ok tt

abbrev pub started_row : String → ℕ → Stamped → Interval → ℤ → PaperCycleRun
started_row portfolio run_id started_at interval symbol_count = record {
  run_id = run_id;
  portfolio_id = portfolio;
  started_at = started_at;
  finished_at = none;
  status = running;
  interval = interval;
  symbol_count = symbol_count;
  signal_count = pos 0;
  fill_count = pos 0;
  failed_count = pos 0;
  consecutive_api_errors = pos 0;
  daily_return_rate = pos 0;
  error_message = none;
  cycle_insight = none;
}

-- A check, then a change of the rows with an answer.
abbrev pub after {ℓ} :
    {A : Type ℓ}
    → Result CycleError (Unit {0})
    → List PaperCycleRun
    → Result CycleError A × List PaperCycleRun
    → Result CycleError A × List PaperCycleRun
after (ok _) rows outcome = outcome
after (err e) rows outcome = (err e, rows)

-- `start_run`, at a fresh id
unfoldable pub start_run :
    String
    → ℕ
    → Stamped
    → Interval
    → ℤ
    → List PaperCycleRun
    → Result CycleError ℕ × List PaperCycleRun
start_run portfolio run_id started_at interval symbol_count rows =
    after (validate_start started_at.time interval symbol_count) rows
      (ok run_id, rows ++ started_row portfolio run_id started_at interval symbol_count ∷ [])

-- The keyword arguments of `finish_run`.
pub record Completion : Type 0 where
  pub finished_at : Stamped
  pub status : RunStatus
  pub signal_count : ℤ
  pub fill_count : ℤ
  pub failed_count : ℤ
  pub consecutive_api_errors : ℤ
  pub daily_return_rate : ℤ
  pub error_message : Option String
  pub cycle_insight : Option String

-- `_validate_finish`
abbrev pub validate_finish : Completion → Result CycleError (Unit {0})
validate_finish c = do
  raise_if (is_naive c.finished_at.time) naive_time
  raise_if (not (is_completed c.status)) invalid_status
  raise_if
      (ltb_ℤ
        (min_ℤ (min_ℤ (min_ℤ c.signal_count c.fill_count) c.failed_count) c.consecutive_api_errors)
        (pos 0))
      negative_count
  ok tt

abbrev pub completed_row : Completion → PaperCycleRun → PaperCycleRun
completed_row c r = record r {
  finished_at = some c.finished_at;
  status = c.status;
  signal_count = c.signal_count;
  fill_count = c.fill_count;
  failed_count = c.failed_count;
  consecutive_api_errors = c.consecutive_api_errors;
  daily_return_rate = c.daily_return_rate;
  error_message = c.error_message;
  cycle_insight = c.cycle_insight;
}

-- UPDATE … WHERE run_id = ?
abbrev pub complete_rows : ℕ → Completion → List PaperCycleRun → List PaperCycleRun
complete_rows run_id c [] = []
complete_rows run_id c (r ∷ rows) =
    (if r.run_id == run_id then completed_row c r else r) ∷ complete_rows run_id c rows

-- `finish_run`; run_id is the primary key, so the update meets one row or none.
unfoldable pub finish_run :
    ℕ → Completion → List PaperCycleRun → Result CycleError (Unit {0}) × List PaperCycleRun
finish_run run_id c rows = after (validate_finish c) rows (
    if any (λ r. r.run_id == run_id) rows
    then (ok tt, complete_rows run_id c rows)
    else (err unknown_run, rows))

-- ORDER BY started_at DESC, run_id DESC
abbrev pub is_later : PaperCycleRun → PaperCycleRun → Bool
is_later a b =
    if a.started_at.stamp == b.started_at.stamp
    then ltb b.run_id a.run_id
    else ltb b.started_at.stamp a.started_at.stamp

abbrev pub later_of : PaperCycleRun → Option PaperCycleRun → PaperCycleRun
later_of r none = r
later_of r (some rival) = if is_later rival r then rival else r

-- The first row in that order among those that pass a test.
unfoldable pub latest : (PaperCycleRun → Bool) → List PaperCycleRun → Option PaperCycleRun
latest test [] = none
latest test (r ∷ rows) =
    let rest = latest test rows in if test r then some (later_of r rest) else rest

-- `latest_run`
unfoldable pub latest_run : String → List PaperCycleRun → Option PaperCycleRun
latest_run portfolio = latest (λ r. str_eq r.portfolio_id portfolio)

-- `latest_consecutive_api_errors`
unfoldable pub latest_consecutive_api_errors : String → List PaperCycleRun → ℤ
latest_consecutive_api_errors portfolio rows =
    elim (latest (λ r. not (is_open r.status) && str_eq r.portfolio_id portfolio) rows) [
      | none ↦ pos 0
      | some r ↦ r.consecutive_api_errors
    ]
