-- ===== src/PanelQueue/Tests.antt =====
-- Panels at concrete stamps.
use toss_trader.Prelude.{any, str_eq, true, ◌≡◌, ◌≢◌, refl, List, [], ◌∷◌, none, some, arith}
use toss_trader.PanelQueue.{
  queued, running, PanelRow, succeeded, failed, queued_row, claim_daily_panel, next_panel,
}
use toss_trader.PanelQueue.Claim.{find, claim_exclusive}
use toss_trader.PanelQueue.Progress.{claims, claims_complete}
use toss_trader.PanelQueue.Diagram.{Walk, run-Walk}
use toss_trader.PanelQueue.Lifecycle.{enqueue, claim, complete, run, run-keeps}

abbrev two_panels : List PanelRow
two_panels = queued_row "a" "x1" "{}" 1 ∷ (queued_row "b" "x2" "{}" 2 ∷ [])

abbrev first : PanelRow
first = queued_row "a" "x1" "{}" 1

abbrev second : PanelRow
second = queued_row "b" "x2" "{}" 2

first_claim : (claim_daily_panel 10 0 two_panels).0 ≡ some first
unfolding claim_daily_panel next_panel
first_claim = refl

second_claim : (claim_daily_panel 11 0 (claim_daily_panel 10 0 two_panels).1).0 ≡ some second
unfolding claim_daily_panel next_panel
second_claim = refl

claim_exclusive_example : second.panel_id ≢ first.panel_id
claim_exclusive_example =
    claim_exclusive 10 0 11 0 two_panels first second (refl, (refl, tt)) (omega arith) first_claim
      second_claim

abbrev finished : PanelRow
finished = record first { status = succeeded; claimed_at = some 10; finished_at = some 12 }

run-keeps_example :
    find "a" (
      run
        (claim 20 15 ∷ (complete "a" failed 21 none ∷ (enqueue "a" "x9" "{}" 22 ∷ [])))
        (finished ∷ (second ∷ [])))
    ≡ some finished
run-keeps_example =
    run-keeps "a" finished refl
      (claim 20 15 ∷ (complete "a" failed 21 none ∷ (enqueue "a" "x9" "{}" 22 ∷ [])))
      (finished ∷ (second ∷ [])) refl

-- One panel waits, the other was claimed long ago: two claims get both.
abbrev stale_claim : PanelRow
stale_claim = record second { status = running; claimed_at = some 3 }

claims_complete_example : any (str_eq "b") (claims 2 20 15 (first ∷ (stale_claim ∷ []))) ≡ true
claims_complete_example =
    claims_complete 2 20 15 (first ∷ (stale_claim ∷ [])) stale_claim (refl, (refl, tt))
      (omega arith) (omega arith) refl refl

run-Walk_example :
    (r : PanelRow) × (find "a" (run (claim 10 0 ∷ (complete "a" failed 21 none ∷ [])) two_panels)
      ≡ some r)
    × Walk "a" (claim 10 0 ∷ (complete "a" failed 21 none ∷ [])) queued r.status
run-Walk_example =
    run-Walk (claim 10 0 ∷ (complete "a" failed 21 none ∷ [])) "a" two_panels first refl
