-- ===== src/Setup/Flow.antt =====
-- `summarize_flow` of src/toss_trader/setup_screening.py. A ratio is the exact fraction, before its rounding; its sign is
-- that of its numerator, since trading values are positive.
use toss_trader.Prelude.{
  ℕ, ◌-◌, Bool, false, not, ◌&&◌, ◌||◌, String, List, [], ◌∷◌, map, Option, none, some, length,
  take, drop, any, keep, leb, ltb, Result, ok, raise_if, ◌>>◌, if◌then◌else◌, str_eq,
}
use toss_trader.Prelude.Int.{ℤ, pos, ◌+ℤ◌, leb_ℤ, ltb_ℤ, eqb_ℤ, sum}
use toss_trader.Models.Time.{DateTime, is_naive, instant}
use toss_trader.Setup.{FlowFacts}

pub record FlowObservation : Type 0 where
  pub symbol : String
  pub session_index : ℤ
  pub session_date : ℕ
  pub available_at : DateTime
  pub foreign_net_buy : ℤ
  pub institutional_net_buy : ℤ
  pub trading_value : ℤ

pub record FlowRatio : Type 0 where
  pub numerator : ℤ
  pub denominator : ℤ

pub record FlowSummary : Type 0 where
  pub latest_session : ℕ
  pub previous_5d_ratio : FlowRatio
  pub current_5d_ratio : FlowRatio
  pub institutional_5d_ratio : FlowRatio
  pub foreign_reversal : Bool
  pub institutional_confirmed : Bool

pub data FlowError : Type 0 where
  naive_decision foreign_symbol naive_available value_not_positive broken_sessions : FlowError

-- a test of some pair of neighbours
abbrev pub any_pair {ℓ} : {A : Type ℓ} → (A → A → Bool) → List A → Bool
any_pair test [] = false
any_pair test (a ∷ []) = false
any_pair test (a ∷ (b ∷ rest)) = test a b || any_pair test (b ∷ rest)

abbrev pub skips : FlowObservation → FlowObservation → Bool
skips previous current = not (eqb_ℤ current.session_index (previous.session_index +ℤ pos 1))

abbrev pub is_broken : FlowObservation → FlowObservation → Bool
is_broken previous current =
    leb current.session_date previous.session_date || skips previous current

-- `item.session_date <= signal_session and item.available_at <= decision_at`
abbrev pub is_eligible : ℕ → DateTime → FlowObservation → Bool
is_eligible signal_session decision_at o =
    leb o.session_date signal_session && leb_ℤ (instant o.available_at) (instant decision_at)

-- `_flow_ratio` of a field
abbrev pub flow_ratio : (FlowObservation → ℤ) → List FlowObservation → FlowRatio
flow_ratio field xs = record {
  numerator = sum (map field xs);
  denominator = sum (map (λ (o : FlowObservation). o.trading_value) xs);
}

abbrev pub latest_of : FlowObservation → List FlowObservation → FlowObservation
latest_of o [] = o
latest_of o (x ∷ xs) = latest_of x xs

-- the summary of a window of six, its first and the rest
abbrev pub window_summary : FlowObservation → List FlowObservation → FlowSummary
window_summary o rest =
    let previous = flow_ratio (λ (x : FlowObservation). x.foreign_net_buy) (take 5 (o ∷ rest)) in
    let current = flow_ratio (λ (x : FlowObservation). x.foreign_net_buy) rest in
    let institutional = flow_ratio (λ (x : FlowObservation). x.institutional_net_buy) rest in
    let latest = latest_of o rest in
    record {
      latest_session = latest.session_date;
      previous_5d_ratio = previous;
      current_5d_ratio = current;
      institutional_5d_ratio = institutional;
      foreign_reversal =
          ltb_ℤ previous.numerator (pos 0)
          && ltb_ℤ (pos 0) current.numerator
          && ltb_ℤ (pos 0) latest.foreign_net_buy;
      institutional_confirmed =
          ltb_ℤ (pos 0) institutional.numerator && ltb_ℤ (pos 0) latest.institutional_net_buy;
    }

abbrev pub summarize_window : List FlowObservation → Option FlowSummary
summarize_window [] = none
summarize_window (o ∷ rest) =
    if any_pair skips (o ∷ rest) then none else some (window_summary o rest)

-- the part after the checks
abbrev pub summarize_eligible : List FlowObservation → Option FlowSummary
summarize_eligible eligible =
    if ltb (length eligible) 6 then none else summarize_window (drop (length eligible - 6) eligible)

unfoldable pub summarize_flow :
    String → ℕ → DateTime → List FlowObservation → Result FlowError (Option FlowSummary)
summarize_flow symbol signal_session decision_at observations = do
  raise_if (is_naive decision_at) naive_decision
  raise_if (any (λ o. not (str_eq o.symbol symbol)) observations) foreign_symbol
  raise_if (any (λ o. is_naive o.available_at) observations) naive_available
  raise_if (any (λ o. leb_ℤ o.trading_value (pos 0)) observations) value_not_positive
  raise_if (any_pair is_broken observations) broken_sessions
  ok (summarize_eligible (keep (is_eligible signal_session decision_at) observations))

-- What `evaluate_setup` reads of a summary.
abbrev pub facts_of : FlowSummary → FlowFacts
facts_of s = record {
  foreign_reversal = s.foreign_reversal;
  institutional_confirmed = s.institutional_confirmed;
}
