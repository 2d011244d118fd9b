-- ===== src/PanelQueue/Diagram.antt =====
-- The states of a panel as a diagram, and the calls of the queue as paths in it.
use toss_trader.Prelude.{
  ℕ, ◌≡◌, refl, true, ◌&&◌, String, List, [], ◌∷◌, ◌++◌, Option, none, some, any, str_eq, eq_iff,
  arith, ◌⊎◌, inl, inr, Option-cases, if◌then◌else◌, choice-P, subst, sym, ap, Result, ok, err,
}
use toss_trader.PanelQueue.{
  PanelError, not_running, invalid_status, PanelRow, Status, queued, running, succeeded, failed,
  is_final, is_running, is_claimable, next_panel, start, start_rows, claim_daily_panel, is_taken,
  queued_row, enqueue_daily_panel, finish, finish_rows, finish_daily_panel,
}
use toss_trader.PanelQueue.Claim.{find, idle-rows, claimed-rows, started, find-start_rows}
use toss_trader.PanelQueue.Lifecycle.{Call, enqueue, claim, complete, step, run}

-- What one call may do to the state of the panel with an id: a claim takes it, or takes it over, and a completion with
-- its id ends it.
pub data Edge (j : String) : Call → Status → Status → Type 0 where
  taken : {at stale : ℕ} → Edge j (claim at stale) queued running
  taken_over : {at stale : ℕ} → Edge j (claim at stale) running running
  succeeds :
      {at : ℕ} {error : Option String} → Edge j (complete j succeeded at error) running succeeded
  fails : {at : ℕ} {error : Option String} → Edge j (complete j failed at error) running failed

-- What a sequence of calls may do: each call leaves the state as it is or goes along one edge of its own.
pub data Walk (j : String) : List Call → Status → Status → Type 0 where
  done : {a : Status} → Walk j [] a a
  stay : {c : Call} {calls : List Call} {a b : Status} → Walk j calls a b → Walk j (c ∷ calls) a b
  move :
      {c : Call} {calls : List Call} {a b d : Status}
      → Edge j c a b
      → Walk j calls b d
      → Walk j (c ∷ calls) a d

abbrev Change : String → Call → Status → Status → Type 0
Change j c a b = (a ≡ b) ⊎ Edge j c a b

claimable-status :
    (stale : ℕ) (r : PanelRow)
    → is_claimable stale r ≡ true
    → (r.status ≡ queued) ⊎ (r.status ≡ running)
claimable-status stale r h = ground arith

start-Change :
    (j : String) (t stale : ℕ) (r : PanelRow)
    → Change j (claim t stale) r.status (if is_claimable stale r then start t r else r).status
start-Change j t stale r =
    choice-P (λ (x : PanelRow). Change j (claim t stale) r.status x.status) (is_claimable stale r)
      (start t r) r
      (λ h. elim (claimable-status stale r h) [
        | inl e ↦ subst (λ s. Change j (claim t stale) s running) (sym e) (inr taken)
        | inr e ↦ subst (λ s. Change j (claim t stale) s running) (sym e) (inr taken_over)
      ])
      (λ _. inl refl)

running-status : (r : PanelRow) → is_running r ≡ true → r.status ≡ running
running-status r h = ground arith

final-Edge :
    (j : String) (at : ℕ) (error : Option String) (s : Status)
    → is_final s ≡ true
    → Edge j (complete j s at error) running s
final-Edge j at error queued h = cc
final-Edge j at error running h = cc
final-Edge j at error succeeded h = succeeds
final-Edge j at error failed h = fails

finish-Change :
    (i j : String) (status : Status) (at : ℕ) (error : Option String) (r : PanelRow)
    → i ≡ j
    → is_final status ≡ true
    → Change j
        (complete i status at error)
        r.status
        (if is_running r then finish status at error r else r).status
finish-Change i j status at error r same final =
    choice-P (λ (x : PanelRow). Change j (complete i status at error) r.status x.status)
      (is_running r) (finish status at error r) r
      (λ h.
        subst (λ s. Change j (complete i status at error) s status) (sym (running-status r h))
          (subst (λ k. Change j (complete k status at error) running status) (sym same)
            (inr (final-Edge j at error status final))))
      (λ _. inl refl)

-- The row of a panel, in a state that a call may have made of its old one.
abbrev Leads : String → Call → Status → Option PanelRow → Type 0
Leads j c s none = ⊥
Leads j c s (some r) = Change j c s r.status

Leads-some :
    (j : String) (c : Call) (s : Status) (r : PanelRow) (o : Option PanelRow)
    → o ≡ some r
    → Change j c s r.status
    → Leads j c s o
Leads-some j c s r o e p = subst (Leads j c s) (sym e) p

find-append :
    (j : String) (r new : PanelRow) (rows : List PanelRow)
    → find j rows ≡ some r
    → find j (rows ++ new ∷ []) ≡ some r
find-append j r new [] e = cc
find-append j r new (x ∷ rows) e = ground (arith, find-append j r new rows)

finished : Status → ℕ → Option String → Option PanelRow → Option PanelRow
finished status at error none = none
finished status at error (some r) = some (if is_running r then finish status at error r else r)

find-finish_rows :
    (status : Status) (at : ℕ) (error : Option String) (i j : String) (rows : List PanelRow)
    → find j (finish_rows i status at error rows)
      ≡ (if str_eq i j then finished status at error (find j rows) else find j rows)
unfolding finished
find-finish_rows status at error i j [] = ground arith
find-finish_rows status at error i j (r ∷ rows) = ground (
  arith,
  eq_iff i j,
  eq_iff r.panel_id j,
  eq_iff r.panel_id i,
  find-finish_rows status at error i j rows,
)

module _ (j : String) (r : PanelRow) (rows : List PanelRow) (e : find j rows ≡ some r) where
  kept : (c : Call) → Leads j c r.status (find j rows)
  kept c = Leads-some j c r.status r (find j rows) e (inl refl)

  start_rows-Leads :
      (t stale : ℕ) (i : String)
      → Leads j (claim t stale) r.status (find j (start_rows t stale i rows))
  unfolding started
  start_rows-Leads t stale i = rw (find-start_rows t stale i j rows) (
      choice-P (Leads j (claim t stale) r.status) (str_eq i j) (started t stale (find j rows))
        (find j rows) (λ _. rw e (start-Change j t stale r)) (λ _. kept (claim t stale)))

  finish_rows-Leads :
      (i : String) (status : Status) (at : ℕ) (error : Option String)
      → is_final status ≡ true
      → Leads j (complete i status at error) r.status (find j (finish_rows i status at error rows))
  unfolding finished
  finish_rows-Leads i status at error final = rw (find-finish_rows status at error i j rows) (
      choice-P (Leads j (complete i status at error) r.status) (str_eq i j)
        (finished status at error (find j rows)) (find j rows)
        (λ same. rw e (finish-Change i j status at error r ((eq_iff i j).0 same) final))
        (λ _. kept (complete i status at error)))

  abbrev Follows : Call → List PanelRow → Type 0
  Follows c l = Leads j c r.status (find j l)

  abbrev Outcome : Call → Result PanelError (Unit {0}) × List PanelRow → Type 0
  Outcome c p = Follows c p.1

  step-Leads : (c : Call) → Follows c (step c rows)
  unfolding step enqueue_daily_panel claim_daily_panel finish_daily_panel
  step-Leads (enqueue i x context at) =
      choice-P (Follows (enqueue i x context at)) (any (is_taken i x) rows) rows
        (rows ++ queued_row i x context at ∷ []) (λ _. kept (enqueue i x context at))
        (λ _.
          Leads-some j (enqueue i x context at) r.status r _
            (find-append j r (queued_row i x context at) rows e) (inl refl))
  step-Leads (claim at stale) = elim (Option-cases (next_panel stale rows)) [
    | inl idle ↦
        subst (Follows (claim at stale)) (sym (ap (λ p. p.1) (idle-rows at stale rows idle)))
          (kept (claim at stale))
    | inr (x, found) ↦
        subst (Follows (claim at stale)) (sym (claimed-rows at stale rows x found))
          (start_rows-Leads at stale x.panel_id)
  ]
  step-Leads (complete i status at error) =
      choice-P (Outcome (complete i status at error)) (is_final status)
        (if any (λ x. str_eq x.panel_id i && is_running x) rows
          then (ok tt, finish_rows i status at error rows)
          else (err not_running, rows))
        (err invalid_status, rows)
        (λ final.
          choice-P (Outcome (complete i status at error))
            (any (λ x. str_eq x.panel_id i && is_running x) rows)
            (ok tt, finish_rows i status at error rows) (err not_running, rows)
            (λ _. finish_rows-Leads i status at error final)
            (λ _. kept (complete i status at error)))
        (λ _. kept (complete i status at error))

Leads-row :
    (j : String) (c : Call) (s : Status) (o : Option PanelRow)
    → Leads j c s o
    → (r : PanelRow) × (o ≡ some r) × Change j c s r.status
Leads-row j c s none l = absurd l
Leads-row j c s (some r) l = (r, refl, l)

Walk-step :
    (j : String) (c : Call) (calls : List Call) (a b d : Status)
    → Change j c a b
    → Walk j calls b d
    → Walk j (c ∷ calls) a d
Walk-step j c calls a b d (inl e) w = stay (subst (λ s. Walk j calls s d) (sym e) w)
Walk-step j c calls a b d (inr e) w = move e w

-- A panel that is in the queue stays in it over every sequence of calls, and each call in turn leaves its state as it
-- is or takes it along one edge: a claim from queued, or from running, to running; and a completion with its id from
-- running to succeeded or to failed, as that call says.
pub run-Walk :
    (calls : List Call) (j : String) (rows : List PanelRow) (r : PanelRow)
    → find j rows ≡ some r
    → (r' : PanelRow) × (find j (run calls rows) ≡ some r') × Walk j calls r.status r'.status
unfolding run
run-Walk [] j rows r e = (r, e, done)
run-Walk (c ∷ calls) j rows r e =
    let (x, found, first) =
      Leads-row j c r.status (find j (step c rows)) (step-Leads j r rows e c) in
    let (y, last, rest) = run-Walk calls j (step c rows) x found in
    (y, last, Walk-step j c calls r.status x.status y.status first rest)
