-- ===== src/ExitCounterfactual/Summary.antt =====
-- `_summarize` of src/toss_trader/exit_counterfactual.py. Its rates are quotients of the counts and sums that stand here.
use toss_trader.Prelude.{
  ℕ, ◌+◌, ◌-◌, Bool, true, false, ◌&&◌, String, List, [], ◌∷◌, ◌++◌, Option, some, length, keep,
  map, leb, ltb, is_some, if◌then◌else◌,
}
use toss_trader.Prelude.Int.{ℤ, pos, ltb_ℤ, ◌-ℤ◌, sum}
use toss_trader.ExitCounterfactual.Inputs.{
  ExitPolicy, ExitVariant, Reason, entry, dead_crossed, min_hold_dead_crossed, atr_stop,
  ExitCounterfactualTrade,
}

pub record ExitCounterfactualResult : Type 0 where
  pub variant : String
  pub policy : ExitPolicy
  pub symbol_count : ℕ
  pub entry_count : ℕ
  pub completed_trades : ℕ
  pub open_trades : ℕ
  pub winning_trades : ℕ
  pub realized_pnl : ℤ
  pub marked_pnl : ℤ
  pub actual_costs : ℕ
  pub gross_profit : ℤ
  pub gross_loss : ℤ
  -- the bars of the completed trades, and how many of these lost within 10 bars
  pub held_bars : ℕ
  pub early_losses : ℕ
  pub exit_reason_counts : List (Reason × ℕ)
  pub trades : List ExitCounterfactualTrade

abbrev pub is_closed : ExitCounterfactualTrade → Bool
is_closed t = is_some t.exited_at

abbrev pub is_winner : ExitCounterfactualTrade → Bool
is_winner t = ltb_ℤ (pos 0) t.realized_pnl

abbrev pub is_loss : ExitCounterfactualTrade → Bool
is_loss t = ltb_ℤ t.realized_pnl (pos 0)

abbrev pub is_early_loss : ExitCounterfactualTrade → Bool
is_early_loss t = is_loss t && leb t.held_bars 10

abbrev pub pnl_of : List ExitCounterfactualTrade → ℤ
pnl_of trades = sum (map (λ (t : ExitCounterfactualTrade). t.realized_pnl) trades)

abbrev pub total_of : (ExitCounterfactualTrade → ℕ) → List ExitCounterfactualTrade → ℕ
total_of f [] = 0
total_of f (t ∷ trades) = f t + total_of f trades

abbrev pub same_reason : Reason → Option Reason → Bool
same_reason entry (some entry) = true
same_reason dead_crossed (some dead_crossed) = true
same_reason min_hold_dead_crossed (some min_hold_dead_crossed) = true
same_reason atr_stop (some atr_stop) = true
same_reason _ _ = false

abbrev pub counted : Reason → ℕ → List (Reason × ℕ)
counted r n = if ltb 0 n then (r, n) ∷ [] else []

abbrev pub count_of : List ExitCounterfactualTrade → Reason → List (Reason × ℕ)
count_of trades r =
    counted r (length (keep (λ (t : ExitCounterfactualTrade). same_reason r t.exit_reason) trades))

-- `sorted(reasons.items())`, in the order of the texts
abbrev pub reason_counts : List ExitCounterfactualTrade → List (Reason × ℕ)
reason_counts trades =
    count_of trades atr_stop
    ++ (count_of trades entry
        ++ (count_of trades dead_crossed ++ count_of trades min_hold_dead_crossed))

unfoldable pub summarize : ExitVariant → ℕ → List ExitCounterfactualTrade → ExitCounterfactualResult
summarize v symbol_count trades =
    let completed = keep is_closed trades in
    record {
      variant = v.name;
      policy = v.policy;
      symbol_count = symbol_count;
      entry_count = length trades;
      completed_trades = length completed;
      open_trades = length trades - length completed;
      winning_trades = length (keep is_winner completed);
      realized_pnl = pnl_of completed;
      marked_pnl = sum (map (λ (t : ExitCounterfactualTrade). t.marked_pnl) trades);
      actual_costs = total_of (λ t. t.actual_costs) trades;
      gross_profit = pnl_of (keep is_winner completed);
      gross_loss = pos 0 -ℤ pnl_of (keep is_loss completed);
      held_bars = total_of (λ t. t.held_bars) completed;
      early_losses = length (keep is_early_loss completed);
      exit_reason_counts = reason_counts completed;
      trades = trades;
    }
