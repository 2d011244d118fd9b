-- ===== src/PanelQueue/Progress.antt =====
-- A worker that keeps claiming gets every panel that is free.
use toss_trader.Prelude.{
  ℕ, zero, suc, ◌≤◌, ◌<◌, ◌≡◌, refl, true, String, List, [], ◌∷◌, none, some, any, str_eq, eq_iff,
  arith, inl, inr, Bool-cases, Option-cases, if◌then◌else◌, ap,
}
use toss_trader.PanelQueue.{PanelRow, is_claimable, next_panel, start_rows, claim_daily_panel}
use toss_trader.PanelQueue.Claim.{
  find, IsUnique, next_panel-claimable, find-next_panel, find-start_rows, start_rows-IsUnique,
}

-- The claimable rows, counted.
abbrev pub claimable_count : ℕ → List PanelRow → ℕ
claimable_count stale [] = 0
claimable_count stale (r ∷ rows) =
    if is_claimable stale r then suc (claimable_count stale rows) else claimable_count stale rows

-- The ids that n claims in a row give, all at one time.
pub claims : ℕ → ℕ → ℕ → List PanelRow → List String
claims zero t stale rows = []
claims (suc n) t stale rows = elim (claim_daily_panel t stale rows).0 [
  | none ↦ []
  | some r ↦ r.panel_id ∷ claims n t stale (claim_daily_panel t stale rows).1
]

next_panel-some :
    (stale : ℕ) (rows : List PanelRow)
    → next_panel stale rows ≡ none
    → claimable_count stale rows ≡ 0
unfolding next_panel
next_panel-some stale [] h = refl
next_panel-some stale (x ∷ rows) h = ground (arith, next_panel-some stale rows)

count-positive :
    (stale : ℕ) (j : String) (r : PanelRow) (rows : List PanelRow)
    → find j rows ≡ some r
    → is_claimable stale r ≡ true
    → 0 < claimable_count stale rows
count-positive stale j r [] e c = cc
count-positive stale j r (x ∷ rows) e c = ground (arith, count-positive stale j r rows)

-- Starting rows of an id makes none claimable.
count-start_rows-le :
    (t stale : ℕ) (i : String) (rows : List PanelRow)
    → stale ≤ t
    → claimable_count stale (start_rows t stale i rows) ≤ claimable_count stale rows
count-start_rows-le t stale i [] h = omega arith
count-start_rows-le t stale i (x ∷ rows) h = ground (arith, count-start_rows-le t stale i rows h)

count-start_rows-lt :
    (t stale : ℕ) (r : PanelRow) (rows : List PanelRow)
    → stale ≤ t
    → find r.panel_id rows ≡ some r
    → is_claimable stale r ≡ true
    → claimable_count stale (start_rows t stale r.panel_id rows) < claimable_count stale rows
count-start_rows-lt t stale r [] h e c = cc
count-start_rows-lt t stale r (x ∷ rows) h e c =
    ground
      (arith, count-start_rows-le t stale r.panel_id rows h, count-start_rows-lt t stale r rows h)

claimed-eq :
    (t stale : ℕ) (rows : List PanelRow) (x : PanelRow)
    → next_panel stale rows ≡ some x
    → claim_daily_panel t stale rows ≡ (some x, start_rows t stale x.panel_id rows)
unfolding claim_daily_panel
claimed-eq t stale rows x e = rw (e, claim_daily_panel) refl

claims-cons :
    (n t stale : ℕ) (rows : List PanelRow) (x : PanelRow)
    → next_panel stale rows ≡ some x
    → claims (suc n) t stale rows
      ≡ x.panel_id ∷ claims n t stale (start_rows t stale x.panel_id rows)
unfolding claims
claims-cons n t stale rows x e =
    rw (claimed-eq t stale rows x e, claims)
      (ap (λ p. x.panel_id ∷ claims n t stale p.1) (claimed-eq t stale rows x e))

-- Where panel ids are unique and the stale limit is not past the time, a worker that claims as often as there are free
-- panels, or more often, gets each of them: a panel that is queued, or was claimed before the limit, is among them.
pub claims_complete :
    (n t stale : ℕ) (rows : List PanelRow) (r : PanelRow)
    → IsUnique rows
    → stale ≤ t
    → claimable_count stale rows ≤ n
    → find r.panel_id rows ≡ some r
    → is_claimable stale r ≡ true
    → any (str_eq r.panel_id) (claims n t stale rows) ≡ true
claims_complete zero t stale rows r u h enough e c =
    absurd (omega (arith, count-positive stale r.panel_id r rows e c))
claims_complete (suc n) t stale rows r u h enough e c =
    elim (Option-cases (next_panel stale rows)) [
      | inl idle ↦ absurd (
          omega
            (arith, count-positive stale r.panel_id r rows e c, next_panel-some stale rows idle))
      | inr (x, chosen) ↦
          let found = find-next_panel stale rows x u chosen in
          let free = next_panel-claimable stale rows x chosen in
          let fewer = count-start_rows-lt t stale x rows h found free in
          rw (claims-cons n t stale rows x chosen)
            (elim (Bool-cases (str_eq r.panel_id x.panel_id)) [
              | inl same ↦ ground arith
              | inr other ↦
                  let still : find r.panel_id (start_rows t stale x.panel_id rows) ≡ some r =
                    ground (
                      arith,
                      find-start_rows t stale x.panel_id r.panel_id rows,
                      eq_iff r.panel_id x.panel_id,
                      eq_iff x.panel_id r.panel_id,
                    ) in
                  let rest =
                    claims_complete n t stale (start_rows t stale x.panel_id rows) r
                      (start_rows-IsUnique t stale x.panel_id rows u) h
                      (omega (arith, fewer, enough)) still c in
                  ground arith
            ])
    ]
