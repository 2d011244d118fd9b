-- ===== src/PanelQueue/Claim.antt =====
-- A claim of a panel is exclusive until it goes stale.
use toss_trader.Prelude.{
  ℕ, ◌≤◌, ◌≡◌, ◌≢◌, refl, Bool, true, false, String, List, [], ◌∷◌, Option, none, some, str_eq,
  eq_iff, eq_refl, ap, subst, ◌⊎◌, arith, if◌then◌else◌, Bool-cases, inl, inr,
}
use toss_trader.PanelQueue.{
  PanelRow, is_claimable, is_earlier, earlier_of, next_panel, start, start_rows, claim_daily_panel,
}

-- The row of a panel.
abbrev pub find : String → List PanelRow → Option PanelRow
find panel_id [] = none
find panel_id (r ∷ rows) = if str_eq r.panel_id panel_id then some r else find panel_id rows

-- No panel id stands twice, as the primary key demands.
abbrev pub IsUnique : List PanelRow → Type 0
IsUnique [] = Unit
IsUnique (r ∷ rows) = (find r.panel_id rows ≡ none) × IsUnique rows

pub earlier_of-pick :
    (x : PanelRow) (rest : Option PanelRow)
    → (earlier_of x rest ≡ x) ⊎ (rest ≡ some (earlier_of x rest))
earlier_of-pick x none = inl refl
earlier_of-pick x (some other) = elim (Bool-cases (is_earlier other x)) [
  | inl e ↦ inr (rw e)
  | inr e ↦ inl (rw e)
]

-- The chosen row is the one at hand, which is claimable, or the choice among the others.
pub pick :
    (b : Bool) (x : PanelRow) (rest : Option PanelRow) (r : PanelRow)
    → (if b then some (earlier_of x rest) else rest) ≡ some r
    → ((b ≡ true) × (x ≡ r)) ⊎ (rest ≡ some r)
pick false x rest r e = inr e
pick true x rest r e = elim (earlier_of-pick x rest) [
  | inl same ↦ inl (refl, cc)
  | inr other ↦ inr (cc)
]

pub next_panel-claimable :
    (stale : ℕ) (rows : List PanelRow) (r : PanelRow)
    → next_panel stale rows ≡ some r
    → is_claimable stale r ≡ true
unfolding next_panel
next_panel-claimable stale [] r e = cc
next_panel-claimable stale (x ∷ rows) r e =
    elim (pick (is_claimable stale x) x (next_panel stale rows) r e) [
      | inl (c, same) ↦ subst (λ y. is_claimable stale y ≡ true) same c
      | inr h ↦ next_panel-claimable stale rows r h
    ]

pub find-next_panel :
    (stale : ℕ) (rows : List PanelRow) (r : PanelRow)
    → IsUnique rows
    → next_panel stale rows ≡ some r
    → find r.panel_id rows ≡ some r
unfolding next_panel
find-next_panel stale [] r u e = cc
find-next_panel stale (x ∷ rows) r u e =
    elim (pick (is_claimable stale x) x (next_panel stale rows) r e) [
      | inl (c, same) ↦ rw (← same, eq_refl)
      | inr h ↦ ground (arith, find-next_panel stale rows r u.1 h, eq_iff x.panel_id r.panel_id)
    ]

unfoldable pub started : ℕ → ℕ → Option PanelRow → Option PanelRow
started t stale none = none
started t stale (some r) = some (if is_claimable stale r then start t r else r)

pub find-start_rows :
    (t stale : ℕ) (panel_id j : String) (rows : List PanelRow)
    → find j (start_rows t stale panel_id rows)
      ≡ (if str_eq panel_id j then started t stale (find j rows) else find j rows)
unfolding started
find-start_rows t stale panel_id j [] = ground arith
find-start_rows t stale panel_id j (r ∷ rows) = ground (
  arith,
  eq_iff panel_id j,
  eq_iff r.panel_id j,
  eq_iff r.panel_id panel_id,
  find-start_rows t stale panel_id j rows,
)

pub start_rows-IsUnique :
    (t stale : ℕ) (panel_id : String) (rows : List PanelRow)
    → IsUnique rows
    → IsUnique (start_rows t stale panel_id rows)
unfolding started
start_rows-IsUnique t stale panel_id [] u = tt
start_rows-IsUnique t stale panel_id (r ∷ rows) u = ground (
  arith,
  find-start_rows t stale panel_id r.panel_id rows,
  start_rows-IsUnique t stale panel_id rows u.1,
)

pub claimed-next :
    (t stale : ℕ) (rows : List PanelRow) (r : PanelRow)
    → (claim_daily_panel t stale rows).0 ≡ some r
    → next_panel stale rows ≡ some r
unfolding claim_daily_panel
claimed-next t stale rows r e = ground arith

pub claimed-rows :
    (t stale : ℕ) (rows : List PanelRow) (r : PanelRow)
    → next_panel stale rows ≡ some r
    → (claim_daily_panel t stale rows).1 ≡ start_rows t stale r.panel_id rows
unfolding claim_daily_panel
claimed-rows t stale rows r e = rw (e, claim_daily_panel)

pub idle-rows :
    (t stale : ℕ) (rows : List PanelRow)
    → next_panel stale rows ≡ none
    → claim_daily_panel t stale rows ≡ (none, rows)
unfolding claim_daily_panel
idle-rows t stale rows e = rw (e, claim_daily_panel) refl

pub started_row :
    (t stale : ℕ) (rows : List PanelRow) (r : PanelRow)
    → find r.panel_id rows ≡ some r
    → is_claimable stale r ≡ true
    → find r.panel_id (start_rows t stale r.panel_id rows) ≡ some (start t r)
unfolding started
started_row t stale rows r found c =
    rw (find-start_rows t stale r.panel_id r.panel_id rows, eq_refl, found, started) (ground arith)

pub restart_fails :
    (t stale : ℕ) (r : PanelRow) → stale ≤ t → is_claimable stale (start t r) ≡ true → ⊥
restart_fails t stale r fresh e = ground arith

-- Where panel ids are unique, a claimed panel is not what the next claim gets, if the stale limit of that claim is
-- not past the first claim.
pub claim_exclusive :
    (t stale t' stale' : ℕ) (rows : List PanelRow) (r r' : PanelRow)
    → IsUnique rows
    → stale' ≤ t
    → (claim_daily_panel t stale rows).0 ≡ some r
    → (claim_daily_panel t' stale' (claim_daily_panel t stale rows).1).0 ≡ some r'
    → r'.panel_id ≢ r.panel_id
claim_exclusive t stale t' stale' rows r r' u fresh first second same =
    let chosen : next_panel stale rows ≡ some r = claimed-next t stale rows r first in
    let rows' = start_rows t stale r.panel_id rows in
    let again : next_panel stale' rows' ≡ some r' =
      claimed-next t' stale' rows' r' (rw (← claimed-rows t stale rows r chosen) second) in
    let found : find r'.panel_id rows' ≡ some r' =
      find-next_panel stale' rows' r' (start_rows-IsUnique t stale r.panel_id rows u) again in
    let moved : find r.panel_id rows' ≡ some (start t r) =
      started_row t stale rows r (find-next_panel stale rows r u chosen)
        (next_panel-claimable stale rows r chosen) in
    let restarted : r' ≡ start t r = cc (ap (λ j. find j rows') same) in
    restart_fails t stale' r fresh (
      subst (λ y. is_claimable stale' y ≡ true) restarted
        (next_panel-claimable stale' rows' r' again))
