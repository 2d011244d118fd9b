-- ===== src/Ledger/Snapshots.antt =====
-- `record_portfolio_snapshot` of `PaperLedger` in src/toss_trader/paper.py. A stored time in UTC stands for its
-- instant.
use toss_trader.Prelude.{
  ℕ, Bool, ◌&&◌, String, List, [], ◌∷◌, Option, none, some, str_eq, if◌then◌else◌, Result, ok, err,
}
use toss_trader.Prelude.Int.{ℤ, eqb_ℤ}
use toss_trader.Models.Time.{DateTime, is_naive, instant}

-- The figures of a snapshot.
pub record Figures : Type 0 where
  pub equity : ℤ
  pub realized_pnl : ℤ
  pub unrealized_pnl : ℤ
  pub total_costs : ℤ

-- A row of paper_portfolio_snapshots.
pub record SnapshotRow : Type 0 where
  pub snapshot_id : ℕ
  pub portfolio_id : String
  pub captured_at : ℤ
  pub figures : Figures

pub data SnapshotError : Type 0 where
  naive_snapshot : SnapshotError

-- UNIQUE (portfolio_id, captured_at)
abbrev pub is_at : String → ℤ → SnapshotRow → Bool
is_at p at r = str_eq r.portfolio_id p && eqb_ℤ r.captured_at at

-- ON CONFLICT (portfolio_id, captured_at) DO UPDATE
abbrev pub upsert_snapshot : SnapshotRow → List SnapshotRow → List SnapshotRow
upsert_snapshot new [] = new ∷ []
upsert_snapshot new (r ∷ rows) =
    if is_at new.portfolio_id new.captured_at r
    then record r { figures = new.figures } ∷ rows
    else r ∷ upsert_snapshot new rows

-- at the id that `uuid4` made
unfoldable pub record_portfolio_snapshot :
    String → ℕ → DateTime → Figures → List SnapshotRow → Result SnapshotError ℕ × List SnapshotRow
record_portfolio_snapshot p snapshot_id at figures rows =
    if is_naive at then (err naive_snapshot, rows) else (
      ok snapshot_id,
      upsert_snapshot
          (record {
            snapshot_id = snapshot_id;
            portfolio_id = p;
            captured_at = instant at;
            figures = figures;
          })
          rows,
    )

-- The figures stored for a portfolio and a time.
abbrev pub stored_figures : String → ℤ → List SnapshotRow → Option Figures
stored_figures p at [] = none
stored_figures p at (r ∷ rows) = if is_at p at r then some r.figures else stored_figures p at rows
