-- ===== src/Execution/Steps.antt =====
-- The branches of `submit`: what each leaves in the ledger and answers.
use toss_trader.Prelude.{String, ℕ, ◌≡◌, true, false, [], ◌∷◌, ◌++◌, none, some, ok, err}
use toss_trader.Models.Time.{DateTime, is_naive}
use toss_trader.Models.Signal.{TradeSignal}
use toss_trader.Risk.{RiskContext, RiskDecision}
use toss_trader.Ledger.{
  Ledger, DecisionRow, record_risk_decision, execute, violates_unique, duplicate_paper_order,
  naive_evaluation, fill_of,
}
use toss_trader.Ledger.Cash.{row_of}
use toss_trader.Execution.{Service, Request, context_of, decide, settle, submit}

-- The row that `submit` puts into the audit table.
abbrev pub decision_row : Service → Request → TradeSignal → Ledger → DecisionRow
decision_row v q s l = record {
  decision_id = q.decision_id;
  portfolio_id = v.portfolio;
  signal = s;
  decision = (decide v s (context_of v q s l)).0;
  context = (decide v s (context_of v q s l)).1;
  evaluated_at = q.now;
}

-- The ledger with that row.
abbrev pub recorded : Service → Request → TradeSignal → Ledger → Ledger
recorded v q s l = record l { decisions = l.decisions ++ decision_row v q s l ∷ [] }

record_naive :
    (p : String) (i : ℕ) (s : TradeSignal) (d : RiskDecision) (c : RiskContext) (w : DateTime)
    (l : Ledger)
    → is_naive w ≡ true
    → record_risk_decision p i s d c w l ≡ (err naive_evaluation, l)
unfolding record_risk_decision
record_naive p i s d c w l e = rw e

record_aware :
    (p : String) (i : ℕ) (s : TradeSignal) (d : RiskDecision) (c : RiskContext) (w : DateTime)
    (l : Ledger)
    → is_naive w ≡ false
    → record_risk_decision p i s d c w l ≡ (
      ok i,
      record l {
        decisions =
            l.decisions
            ++ record {
              decision_id = i;
              portfolio_id = p;
              signal = s;
              decision = d;
              context = c;
              evaluated_at = w;
            }
              ∷ [];
      },
    )
unfolding record_risk_decision
record_aware p i s d c w l e = rw e

module _ (v : Service) (q : Request) (s : TradeSignal) (l : Ledger) where
  pub submit_naive : is_naive q.now ≡ true → submit v q s l ≡ (err naive_evaluation, l)
  unfolding submit
  submit_naive e = rw (record_naive v.portfolio q.decision_id s _ _ q.now l e)

  pub submit-recorded :
      is_naive q.now ≡ false
      → submit v q s l ≡ settle v q s (decide v s (context_of v q s l)).0 (recorded v q s l)
  unfolding submit
  submit-recorded e = rw (record_aware v.portfolio q.decision_id s _ _ q.now l e)

  -- A refused order leaves one audit row and no fill.
  pub submit_refused :
      is_naive q.now ≡ false
      → (decide v s (context_of v q s l)).0.approved ≡ false
      → submit v q s l ≡ (
        ok (record {
          decision = (decide v s (context_of v q s l)).0;
          fill = none;
          decision_id = q.decision_id;
        }),
        recorded v q s l,
      )
  unfolding settle
  submit_refused e no_ = rw (submit-recorded e, no_, settle)

  -- An approved order with a fresh signal leaves one audit row and one fill.
  pub submit_filled :
      is_naive q.now ≡ false
      → (decide v s (context_of v q s l)).0.approved ≡ true
      → violates_unique q.fill_id s.signal_id l.fills ≡ false
      → submit v q s l ≡ (
        ok (record {
          decision = (decide v s (context_of v q s l)).0;
          fill = some (fill_of v.cent q.fill_id s q.now);
          decision_id = q.decision_id;
        }),
        record l {
          decisions = l.decisions ++ decision_row v q s l ∷ [];
          fills = l.fills ++ row_of v.cent v.portfolio q.fill_id s q.now ∷ [];
        },
      )
  unfolding settle execute
  submit_filled e yes_ new = rw (submit-recorded e, yes_, settle) (rw (new, execute))

  -- An approved order whose signal or id is taken by any portfolio raises; its audit row stays.
  pub submit_clash :
      is_naive q.now ≡ false
      → (decide v s (context_of v q s l)).0.approved ≡ true
      → violates_unique q.fill_id s.signal_id l.fills ≡ true
      → submit v q s l ≡ (err duplicate_paper_order, recorded v q s l)
  unfolding settle execute
  submit_clash e yes_ old = rw (submit-recorded e, yes_, settle) (rw (old, execute))
