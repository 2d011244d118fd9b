-- ===== src/CycleState/Window.antt =====
-- `list_runs` of `SqliteCycleStateStore` in src/toss_trader/cycle_state.py.
use toss_trader.Prelude.{
  Bool, true, false, not, ◌&&◌, String, List, [], ◌∷◌, keep, str_eq, leb, Result, ok, raise_if,
  ◌>>◌, if◌then◌else◌,
}
use toss_trader.Prelude.Int.{ltb_ℤ}
use toss_trader.Models.Time.{DateTime, is_naive, instant}
use toss_trader.Models.Candle.{Interval, one_minute, one_day, unknown, is_supported}
use toss_trader.CycleState.{
  PaperCycleRun, Stamped, CycleError, bad_interval, naive_time, window_reversed, is_open, is_later,
}

-- `_validate_run_window`
abbrev pub validate_run_window : Interval → DateTime → DateTime → Result CycleError (Unit {0})
validate_run_window interval started_from started_to = do
  raise_if (not (is_supported interval)) bad_interval
  raise_if (is_naive started_from) naive_time
  raise_if (is_naive started_to) naive_time
  raise_if (ltb_ℤ (instant started_to) (instant started_from)) window_reversed
  ok tt

abbrev pub is_interval : Interval → Interval → Bool
is_interval one_minute one_minute = true
is_interval one_day one_day = true
is_interval (unknown a) (unknown b) = str_eq a b
is_interval _ _ = false

-- the WHERE of the query
abbrev pub in_window : String → Interval → Stamped → Stamped → PaperCycleRun → Bool
in_window portfolio interval started_from started_to r =
    str_eq r.portfolio_id portfolio
    && is_interval r.interval interval
    && not (is_open r.status)
    && leb started_from.stamp r.started_at.stamp
    && leb r.started_at.stamp started_to.stamp

-- ORDER BY started_at ASC, run_id ASC
abbrev pub insert_run : PaperCycleRun → List PaperCycleRun → List PaperCycleRun
insert_run r [] = r ∷ []
insert_run r (x ∷ rows) = if is_later r x then x ∷ insert_run r rows else r ∷ x ∷ rows

abbrev pub in_order : List PaperCycleRun → List PaperCycleRun
in_order [] = []
in_order (r ∷ rows) = insert_run r (in_order rows)

-- `list_runs`
unfoldable pub list_runs :
    String
    → Interval
    → Stamped
    → Stamped
    → List PaperCycleRun
    → Result CycleError (List PaperCycleRun)
list_runs portfolio interval started_from started_to rows =
    validate_run_window interval started_from.time started_to.time
    >> ok (in_order (keep (in_window portfolio interval started_from started_to) rows))
