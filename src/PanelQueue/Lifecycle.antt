-- ===== src/PanelQueue/Lifecycle.antt =====
-- A finished panel stays as it is, over every sequence of calls.
use toss_trader.Prelude.{
  ℕ, ◌≡◌, true, String, List, [], ◌∷◌, ◌++◌, Option, some, any, arith, Bool-cases, Option-cases,
  inl, inr,
}
use toss_trader.PanelQueue.{
  PanelRow, Status, is_final, next_panel, start_rows, claim_daily_panel, is_taken, queued_row,
  enqueue_daily_panel, finish_rows, finish_daily_panel,
}
use toss_trader.PanelQueue.Claim.{find}

pub data Call : Type 0 where
  enqueue : String → String → String → ℕ → Call
  claim : ℕ → ℕ → Call
  complete : String → Status → ℕ → Option String → Call

unfoldable pub step : Call → List PanelRow → List PanelRow
unfolding enqueue_daily_panel claim_daily_panel finish_daily_panel
step (enqueue panel_id execution_id context at) rows =
    (enqueue_daily_panel panel_id execution_id context at rows).1
step (claim at stale) rows = (claim_daily_panel at stale rows).1
step (complete panel_id status at error) rows = (finish_daily_panel panel_id status at error rows).1

unfoldable pub run : List Call → List PanelRow → List PanelRow
run [] rows = rows
run (c ∷ calls) rows = run calls (step c rows)

module _ (j : String) (r : PanelRow) (final : is_final r.status ≡ true) where
  append-keeps :
      (new : PanelRow) (rows : List PanelRow)
      → find j rows ≡ some r
      → find j (rows ++ new ∷ []) ≡ some r
  append-keeps new [] e = cc
  append-keeps new (x ∷ rows) e = ground (arith, append-keeps new rows)

  start-keeps :
      (t stale : ℕ) (i : String) (rows : List PanelRow)
      → find j rows ≡ some r
      → find j (start_rows t stale i rows) ≡ some r
  start-keeps t stale i [] e = cc
  start-keeps t stale i (x ∷ rows) e = ground (arith, start-keeps t stale i rows)

  finish-keeps :
      (i : String) (st : Status) (t : ℕ) (error : Option String) (rows : List PanelRow)
      → find j rows ≡ some r
      → find j (finish_rows i st t error rows) ≡ some r
  finish-keeps i st t error [] e = cc
  finish-keeps i st t error (x ∷ rows) e = ground (arith, finish-keeps i st t error rows)

  step-keeps :
      (c : Call) (rows : List PanelRow) → find j rows ≡ some r → find j (step c rows) ≡ some r
  unfolding step
  step-keeps (enqueue i x context at) rows e = elim (Bool-cases (any (is_taken i x) rows)) [
    | inl taken ↦ rw (taken, enqueue_daily_panel) e
    | inr new ↦ rw (new, enqueue_daily_panel) (append-keeps (queued_row i x context at) rows e)
  ]
  step-keeps (claim at stale) rows e = elim (Option-cases (next_panel stale rows)) [
    | inl idle ↦ ground arith
    | inr (x, found) ↦ ground (arith, start-keeps at stale x.panel_id rows e)
  ]
  step-keeps (complete i st at error) rows e = ground (arith, finish-keeps i st at error rows e)

  -- Once a panel has succeeded or failed, its row never changes again.
  pub run-keeps :
      (calls : List Call) (rows : List PanelRow)
      → find j rows ≡ some r
      → find j (run calls rows) ≡ some r
  unfolding run
  run-keeps [] rows e = e
  run-keeps (c ∷ calls) rows e = run-keeps calls (step c rows) (step-keeps c rows e)
