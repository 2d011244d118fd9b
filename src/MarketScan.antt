-- ===== src/MarketScan.antt =====
-- `V2MarketScanner.run` of src/toss_trader/v2_screening.py: the collection, the market analyses, and the candidates of
-- the discovery universe. The collector, the analysis of a market and the candidate builder are arguments.
pub mod Counts
mod Tests
use toss_trader.Prelude.{
  ℕ, zero, suc, ◌+◌, Bool, true, false, not, ◌&&◌, ◌||◌, String, List, [], ◌∷◌, ◌++◌, Option, none,
  some, length, any, take, is_some, ltb, leb, ◌==◌, str_eq, text_ltb, Result, ok, err, raise_if,
  ◌>>◌, ◌>>=◌, if◌then◌else◌,
}
use toss_trader.Prelude.Int.{ℤ, pos, leb_ℤ, ltb_ℤ, eqb_ℤ, ◌-ℤ◌, pos_part, max_ℤ}
use toss_trader.Prelude.Dict.{Dict, put, lookup, get_or}
use toss_trader.Models.Time.{DateTime, is_naive}
use toss_trader.Engine.{SetupType}

-- The fields of a `DailySetupCandidate` and of its `SetupDecision` that the scan reads.
pub record ScanDecision : Type 0 where
  pub approved : Bool
  pub setups : List SetupType
  pub violations : List String
  pub missing_checks : List String
  pub ma50_distance : ℤ
  pub flow_stars : ℕ

pub record ScanCandidate : Type 0 where
  pub symbol : String
  pub decision : ScanDecision

-- What `build_candidate` answers: a candidate, a ValueError whose text begins with "setup-v2:missing:", as the rest of
-- it after "setup-v2:", or another error.
pub data Built : Type 0 where
  made : ScanCandidate → Built
  missing_input : String → Built
  failed : String → Built

-- What `analyze_market` raises, on the latest candles: a TypeError or a ValueError with its text, or an error that the
-- scan does not catch.
pub data AnalysisError : Type 0 where
  caught : String → AnalysisError
  uncaught : AnalysisError

-- What the scan is given; a call whose errors are all caught answers the text of its error.
pub record Sources (M : Type 0) : Type 0 where
  pub collect_symbol_names : List String → Result String (Dict String)
  pub collect : String → ℕ → Option String
  pub analyze : String → Result AnalysisError M
  pub build_candidate : String → Built

pub data ScanError : Type 0 where
  no_benchmarks no_universe bad_top_n naive_time : ScanError
  -- the error that an analysis raised through
  analysis_raised : ScanError

-- `hermes_experimental_can_arm`, on the texts
abbrev pub is_reference_text : String → Bool
is_reference_text v =
    str_eq v "falling-knife" || str_eq v "missing-price-setup" || str_eq v "rsi-chase"

abbrev pub has_none {ℓ} : {A : Type ℓ} → List A → Bool
has_none [] = true
has_none (x ∷ xs) = false

abbrev pub can_arm : ScanDecision → Bool
can_arm d =
    if d.approved
    then true
    else has_none d.missing_checks && not (any (λ v. not (is_reference_text v)) d.violations)

-- `counter[reason] += 1`
abbrev pub add_one : String → Dict ℕ → Dict ℕ
add_one reason counter = put reason (suc (get_or 0 reason counter)) counter

abbrev pub add_each : List String → Dict ℕ → Dict ℕ
add_each [] counter = counter
add_each (r ∷ rs) counter = add_each rs (add_one r counter)

-- The local variables of the loops.
pub record Scan (M : Type 0) : Type 0 where
  pub errors : Dict String
  pub markets : List M
  pub candidates : List ScanCandidate
  pub hermes_candidates : List ScanCandidate
  pub evaluated_count : ℕ
  pub blocked_count : ℕ
  pub hard_blocked_count : ℕ
  pub blocked : Dict ℕ
  pub hermes_hard : Dict ℕ

-- the texts of a rejection, `reasons or ("rejected",)`
abbrev pub or_rejected : List String → List String
or_rejected [] = "rejected" ∷ []
or_rejected (r ∷ rs) = r ∷ rs

-- f"missing:{item}" and f"violation:{item}" are made by `prefixed`
abbrev pub prefix_all : (String → String → String) → String → List String → List String
prefix_all prefixed prefix [] = []
prefix_all prefixed prefix (x ∷ xs) = prefixed prefix x ∷ prefix_all prefixed prefix xs

abbrev pub reasons_of : (String → String → String) → ScanDecision → List String
reasons_of prefixed d = or_rejected (
    prefix_all prefixed "missing:" d.missing_checks
    ++ prefix_all prefixed "violation:" d.violations)

module _ {M : Type 0} (prefixed : String → String → String) where
  -- a candidate that was built
  unfoldable pub judge_candidate : ScanCandidate → Scan M → Scan M
  judge_candidate c s =
      if c.decision.approved
      then record s { evaluated_count = suc s.evaluated_count; candidates = s.candidates ++ c ∷ [] }
      else if can_arm c.decision
      then record s {
        evaluated_count = suc s.evaluated_count;
        blocked_count = suc s.blocked_count;
        blocked = add_each (reasons_of prefixed c.decision) s.blocked;
        hermes_candidates = s.hermes_candidates ++ c ∷ [];
      }
      else record s {
        evaluated_count = suc s.evaluated_count;
        blocked_count = suc s.blocked_count;
        blocked = add_each (reasons_of prefixed c.decision) s.blocked;
        hard_blocked_count = suc s.hard_blocked_count;
        hermes_hard = add_each (reasons_of prefixed c.decision) s.hermes_hard;
      }

  -- what the builder answered for a symbol
  unfoldable pub take_built : String → Built → Scan M → Scan M
  take_built symbol (made c) s = judge_candidate c s
  take_built symbol (missing_input reason) s = record s {
    blocked = add_one reason s.blocked;
    hermes_hard = add_one reason s.hermes_hard;
    blocked_count = suc s.blocked_count;
    hard_blocked_count = suc s.hard_blocked_count;
  }
  take_built symbol (failed message) s = record s { errors = put symbol message s.errors }

  -- the loop over the discovery symbols
  unfoldable pub scan_symbols : (String → Built) → List String → Scan M → Scan M
  scan_symbols build [] s = s
  scan_symbols build (symbol ∷ symbols) s =
      scan_symbols build symbols
        (if is_some (lookup symbol s.errors) then s else take_built symbol (build symbol) s)

abbrev pub size_of : List SetupType → ℕ
size_of xs = length xs

abbrev pub magnitude : ℤ → ℤ
magnitude z = max_ℤ z (pos 0 -ℤ z)

-- `_candidate_rank(a) < _candidate_rank(b)`
abbrev pub ranks_before : ScanCandidate → ScanCandidate → Bool
ranks_before a b =
    if a.decision.flow_stars == b.decision.flow_stars
    then if size_of a.decision.setups == size_of b.decision.setups
      then if eqb_ℤ (magnitude a.decision.ma50_distance) (magnitude b.decision.ma50_distance)
        then text_ltb a.symbol b.symbol
        else ltb_ℤ (magnitude a.decision.ma50_distance) (magnitude b.decision.ma50_distance)
      else ltb (size_of b.decision.setups) (size_of a.decision.setups)
    else ltb b.decision.flow_stars a.decision.flow_stars

-- a place in front of those that do not rank before it, so that the sort is stable
abbrev pub insert_candidate : ScanCandidate → List ScanCandidate → List ScanCandidate
insert_candidate c [] = c ∷ []
insert_candidate c (d ∷ rest) =
    if ranks_before d c then d ∷ insert_candidate c rest else c ∷ (d ∷ rest)

-- `candidates.sort(key=_candidate_rank)`
abbrev pub sort_candidates : List ScanCandidate → List ScanCandidate
sort_candidates [] = []
sort_candidates (c ∷ rest) = insert_candidate c (sort_candidates rest)

abbrev insert_count : String → ℕ → Dict ℕ → Dict ℕ
insert_count k n [] = (k, n) ∷ []
insert_count k n ((j, m) ∷ rest) =
    if text_ltb j k then (j, m) ∷ insert_count k n rest else (k, n) ∷ ((j, m) ∷ rest)

-- `dict(sorted(counter.items()))`
abbrev pub sort_counts : Dict ℕ → Dict ℕ
sort_counts [] = []
sort_counts ((k, n) ∷ rest) = insert_count k n (sort_counts rest)

abbrev pub contains : String → List String → Bool
contains k symbols = any (str_eq k) symbols

-- `dict.fromkeys(…)`: each symbol once, in the order of the first
abbrev pub each_once : List String → List String → List String
each_once seen [] = []
each_once seen (s ∷ rest) =
    let others = each_once (s ∷ seen) rest in if contains s seen then others else s ∷ others

module _ {M : Type 0} (o : Sources M) where
  abbrev pub noted : String → Option String → Dict String → Dict String
  noted symbol none errors = errors
  noted symbol (some message) errors = put symbol message errors

  -- the loop over all symbols: 200 candles of a discovery symbol, 60 of another
  abbrev pub collect_all : List String → List String → Dict String → Dict String
  collect_all discovery [] errors = errors
  collect_all discovery (symbol ∷ symbols) errors =
      collect_all discovery symbols
        (noted symbol (o.collect symbol (if contains symbol discovery then 200 else 60)) errors)

  abbrev pub add_market : String → Result AnalysisError M → Scan M → Result ScanError (Scan M)
  add_market symbol (ok m) s = ok (record s { markets = s.markets ++ m ∷ [] })
  add_market symbol (err (caught message)) s =
      ok (record s { errors = put symbol message s.errors })
  add_market symbol (err uncaught) s = err analysis_raised

  -- the body of the loop over the benchmarks
  abbrev pub analyze_benchmark : String → Scan M → Result ScanError (Scan M)
  analyze_benchmark symbol s =
      if is_some (lookup symbol s.errors) then ok s else add_market symbol (o.analyze symbol) s

  -- the loop over the benchmarks
  abbrev pub analyze_markets : List String → Scan M → Result ScanError (Scan M)
  analyze_markets [] s = ok s
  analyze_markets (symbol ∷ symbols) s =
      analyze_benchmark symbol s >>= λ next. analyze_markets symbols next

  abbrev pub named_symbols : Result String (Dict String) → Dict String × Dict String
  named_symbols (ok names) = (names, [])
  named_symbols (err message) = ([], ("stock_info", message) ∷ [])

  abbrev pub first_scan : Dict String → Scan M
  first_scan errors = record {
    errors = errors;
    markets = [];
    candidates = [];
    hermes_candidates = [];
    evaluated_count = 0;
    blocked_count = 0;
    hard_blocked_count = 0;
    blocked = [];
    hermes_hard = [];
  }

pub record V2MarketScanResult (M : Type 0) : Type 0 where
  pub markets : List M
  pub candidates : List ScanCandidate
  pub scanned_count : ℕ
  pub evaluated_count : ℕ
  pub blocked_count : ℕ
  pub blocked_reasons : Dict ℕ
  pub hermes_candidates : List ScanCandidate
  pub hard_blocked_count : ℕ
  pub hermes_hard_blocked_reasons : Dict ℕ
  pub errors : Dict String
  pub names : Dict String
  pub decision_at : DateTime

-- the result of the loops
abbrev pub result_of : {M : Type 0} → ℕ → ℕ → Dict String → DateTime → Scan M → V2MarketScanResult M
result_of top_n scanned names now s = record {
  markets = s.markets;
  candidates = take top_n (sort_candidates s.candidates);
  scanned_count = scanned;
  evaluated_count = s.evaluated_count;
  blocked_count = s.blocked_count;
  blocked_reasons = sort_counts s.blocked;
  hermes_candidates = take top_n (sort_candidates s.hermes_candidates);
  hard_blocked_count = s.hard_blocked_count;
  hermes_hard_blocked_reasons = sort_counts s.hermes_hard;
  errors = s.errors;
  names = names;
  decision_at = now;
}

-- the scan after its checks, up to its result
unfoldable pub scan_market :
    {M : Type 0}
    → Sources M
    → (String → String → String)
    → List String
    → List String
    → Result ScanError (Scan M)
scan_market o prefixed benchmarks discovery =
    let all_symbols = each_once [] (benchmarks ++ discovery) in
    let errors =
      collect_all o discovery all_symbols
        (named_symbols o (o.collect_symbol_names all_symbols)).1 in
    analyze_markets o benchmarks (first_scan o errors) >>= λ analyzed.
    ok (scan_symbols prefixed o.build_candidate discovery analyzed)

-- `V2MarketScanner.run`
unfoldable pub run_scan :
    {M : Type 0}
    → Sources M
    → (String → String → String)
    → List String
    → List String
    → ℤ
    → DateTime
    → Result ScanError (V2MarketScanResult M)
run_scan o prefixed benchmarks discovery top_n now = do
  raise_if (has_none benchmarks) no_benchmarks
  raise_if (has_none discovery) no_universe
  raise_if (leb_ℤ top_n (pos 0) || ltb_ℤ (pos 50) top_n) bad_top_n
  raise_if (is_naive now) naive_time
  scanned ← scan_market o prefixed benchmarks discovery
  ok (
      result_of (pos_part top_n) (length discovery)
        (named_symbols o (o.collect_symbol_names (each_once [] (benchmarks ++ discovery)))).0 now
        scanned)
