-- ===== src/PanelQueue.antt =====
-- The queue of analysis panels in src/toss_trader/paper.py: `enqueue_daily_panel`, `claim_daily_panel` and
-- `finish_daily_panel` of `PaperLedger` on the table daily_analysis_panels. A time is stored as ISO
-- text and compared as text, so a stamp is the place of that text in the order of texts.
pub mod Claim
pub mod Lifecycle
pub mod Diagram
pub mod Progress
mod Tests
use toss_trader.Prelude.{
  ℕ, ◌≡◌, Bool, true, false, ◌&&◌, ◌||◌, String, List, [], ◌∷◌, ◌++◌, Option, none, some, any,
  str_eq, text_ltb, ltb, ◌==◌, Result, ok, err, if◌then◌else◌,
}

pub data Status : Type 0 where
  queued running succeeded failed : Status

pub record PanelRow : Type 0 where
  pub panel_id : String
  pub execution_id : String
  pub status : Status
  pub context : String
  pub created_at : ℕ
  pub claimed_at : Option ℕ
  pub finished_at : Option ℕ
  pub error : Option String

pub data PanelError : Type 0 where
  enqueue_failed invalid_status not_running : PanelError

-- The primary key or the UNIQUE column is taken.
abbrev pub is_taken : String → String → PanelRow → Bool
is_taken panel_id execution_id r = str_eq r.panel_id panel_id || str_eq r.execution_id execution_id

-- SELECT panel_id … WHERE execution_id = ?
abbrev pub panel_of : String → List PanelRow → Option String
panel_of execution_id [] = none
panel_of execution_id (r ∷ rows) =
    if str_eq r.execution_id execution_id then some r.panel_id else panel_of execution_id rows

abbrev pub queued_row : String → String → String → ℕ → PanelRow
queued_row panel_id execution_id context queued_at = record {
  panel_id = panel_id;
  execution_id = execution_id;
  status = queued;
  context = context;
  created_at = queued_at;
  claimed_at = none;
  finished_at = none;
  error = none;
}

-- INSERT OR IGNORE
abbrev pub insert_or_ignore : PanelRow → List PanelRow → List PanelRow
insert_or_ignore new rows =
    if any (is_taken new.panel_id new.execution_id) rows then rows else rows ++ new ∷ []

abbrev pub or_failed : Option String → Result PanelError String
or_failed none = err enqueue_failed
or_failed (some panel_id) = ok panel_id

-- An exception in the transaction rolls the insertion back, but this one is raised after it.
unfoldable pub enqueue_daily_panel :
    String → String → String → ℕ → List PanelRow → Result PanelError String × List PanelRow
enqueue_daily_panel panel_id execution_id context queued_at rows =
    let rows' = insert_or_ignore (queued_row panel_id execution_id context queued_at) rows in
    (or_failed (panel_of execution_id rows'), rows')

abbrev pub is_before : Option ℕ → ℕ → Bool
is_before none stale = false
is_before (some t) stale = ltb t stale

-- status = 'queued' OR (status = 'running' AND claimed_at < ?)
abbrev pub is_claimable : ℕ → PanelRow → Bool
is_claimable stale r = elim r.status [
  | queued ↦ true
  | running ↦ is_before r.claimed_at stale
  | succeeded ↦ false
  | failed ↦ false
]

-- ORDER BY created_at, panel_id
abbrev pub is_earlier : PanelRow → PanelRow → Bool
is_earlier a b =
    if a.created_at == b.created_at
    then text_ltb a.panel_id b.panel_id
    else ltb a.created_at b.created_at

abbrev pub earlier_of : PanelRow → Option PanelRow → PanelRow
earlier_of r none = r
earlier_of r (some other) = if is_earlier other r then other else r

-- The SELECT of `claim_daily_panel`: LIMIT 1 of the claimable rows in their order.
unfoldable pub next_panel : ℕ → List PanelRow → Option PanelRow
next_panel stale [] = none
next_panel stale (r ∷ rows) =
    let rest = next_panel stale rows in
    if is_claimable stale r then some (earlier_of r rest) else rest

abbrev pub start : ℕ → PanelRow → PanelRow
start claimed_at r = record r { status = running; claimed_at = some claimed_at; error = none }

-- UPDATE … WHERE panel_id = ? AND (claimable)
abbrev pub start_rows : ℕ → ℕ → String → List PanelRow → List PanelRow
start_rows claimed_at stale panel_id [] = []
start_rows claimed_at stale panel_id (r ∷ rows) =
    (if str_eq r.panel_id panel_id && is_claimable stale r then start claimed_at r else r)
    ∷ start_rows claimed_at stale panel_id rows

-- `claim_daily_panel`: the row that it read, before the update. The select and the update are one
-- transaction of one writer, so the update meets the row that was read.
unfoldable pub claim_daily_panel : ℕ → ℕ → List PanelRow → Option PanelRow × List PanelRow
claim_daily_panel claimed_at stale rows = elim (next_panel stale rows) [
  | none ↦ (none, rows)
  | some r ↦ (some r, start_rows claimed_at stale r.panel_id rows)
]

abbrev pub is_running : PanelRow → Bool
is_running r = elim r.status [
  | queued ↦ false
  | running ↦ true
  | succeeded ↦ false
  | failed ↦ false
]

abbrev pub is_final : Status → Bool
is_final succeeded = true
is_final failed = true
is_final queued = false
is_final running = false

abbrev pub finish : Status → ℕ → Option String → PanelRow → PanelRow
finish status finished_at error r = record r {
  status = status;
  finished_at = some finished_at;
  error = error;
}

-- UPDATE … WHERE panel_id = ? AND status = 'running'
abbrev pub finish_rows : String → Status → ℕ → Option String → List PanelRow → List PanelRow
finish_rows panel_id status finished_at error [] = []
finish_rows panel_id status finished_at error (r ∷ rows) =
    (if str_eq r.panel_id panel_id && is_running r then finish status finished_at error r else r)
    ∷ finish_rows panel_id status finished_at error rows

-- `finish_daily_panel`
unfoldable pub finish_daily_panel :
    String
    → Status
    → ℕ
    → Option String
    → List PanelRow
    → Result PanelError (Unit {0}) × List PanelRow
finish_daily_panel panel_id status finished_at error rows =
    if is_final status
    then if any (λ r. str_eq r.panel_id panel_id && is_running r) rows
      then (ok tt, finish_rows panel_id status finished_at error rows)
      else (err not_running, rows)
    else (err invalid_status, rows)
