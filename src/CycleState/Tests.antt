-- ===== src/CycleState/Tests.antt =====
-- Runs at concrete times.
use mathlib.Core.List.{Perm}
use toss_trader.Prelude.{ℕ, ◌≡◌, refl, [], ◌∷◌, none, some, arith, List, ok, Picks}
use toss_trader.Prelude.Int.{pos, ◌≤ℤ◌, ◌-ℤ◌}
use toss_trader.Models.Time.{instant}
use toss_trader.Models.Candle.{one_day}
use toss_trader.CycleState.{
  PaperCycleRun, Stamped, Completion, failed, start_run, finish_run, started_row, completed_row,
  latest_run, latest_consecutive_api_errors,
}
use toss_trader.CycleState.Window.{list_runs}
use toss_trader.CycleState.Listing.{IsInWindow, IsInOrder, list_runs-lists}
use toss_trader.CycleState.Latest.{start_run-latest, finish_run-latest}

abbrev at_stamp : ℕ → Stamped
at_stamp n = record { time = record { local = n; utcoffset = some (pos 0) }; stamp = n }

abbrev failed_run : PaperCycleRun
failed_run = record (started_row "paper" 1 (at_stamp 10) one_day (pos 3)) {
  finished_at = some (at_stamp 12);
  status = failed;
  consecutive_api_errors = pos 2;
}

abbrev completion : Completion
completion = record {
  finished_at = at_stamp 25;
  status = failed;
  signal_count = pos 0;
  fill_count = pos 0;
  failed_count = pos 1;
  consecutive_api_errors = pos 3;
  daily_return_rate = pos 0;
  error_message = some "timeout";
  cycle_insight = none;
}

start_run-latest_example :
    (latest_run "paper" (start_run "paper" 2 (at_stamp 20) one_day (pos 3) (failed_run ∷ [])).1
      ≡ some (started_row "paper" 2 (at_stamp 20) one_day (pos 3)))
    × (latest_consecutive_api_errors "paper"
          (start_run "paper" 2 (at_stamp 20) one_day (pos 3) (failed_run ∷ [])).1
        ≡ latest_consecutive_api_errors "paper" (failed_run ∷ []))
start_run-latest_example =
    start_run-latest "paper" 2 (at_stamp 20) one_day (pos 3) (failed_run ∷ []) refl
      (omega arith, tt)

finish_run-latest_example :
    (latest_consecutive_api_errors "paper"
        (finish_run 2 completion
          (start_run "paper" 2 (at_stamp 20) one_day (pos 3) (failed_run ∷ [])).1).1
      ≡ pos 3)
    × (latest_run "paper"
          (finish_run 2 completion
            (start_run "paper" 2 (at_stamp 20) one_day (pos 3) (failed_run ∷ [])).1).1
        ≡ some (completed_row completion (started_row "paper" 2 (at_stamp 20) one_day (pos 3))))
finish_run-latest_example =
    finish_run-latest "paper" 2 (at_stamp 20) one_day (pos 3) completion (failed_run ∷ []) refl refl
      refl (omega arith, tt)

ends : instant (at_stamp 5).time ≤ℤ instant (at_stamp 30).time
unfolding instant ◌-ℤ◌
ends = omega arith

-- A finished run inside a window and one that is still running.
list_runs-lists_example :
    (runs listed : List PaperCycleRun) × (list_runs "paper" one_day
        (at_stamp 5)
        (at_stamp 30)
        (started_row "paper" 2 (at_stamp 20) one_day (pos 3) ∷ failed_run ∷ [])
      ≡ ok runs)
    × Picks
        (IsInWindow "paper" one_day 5 30)
        (started_row "paper" 2 (at_stamp 20) one_day (pos 3) ∷ failed_run ∷ [])
        listed
    × Perm runs listed
    × IsInOrder runs
list_runs-lists_example =
    list_runs-lists "paper" one_day (at_stamp 5) (at_stamp 30)
      (started_row "paper" 2 (at_stamp 20) one_day (pos 3) ∷ failed_run ∷ []) refl refl refl ends
