-- ===== src/MarketScan/Tests.antt =====
-- A scan of four symbols: one approved, one for the experiment, one without its history, one with an error.
use toss_trader.Prelude.{
  ℕ, ◌+◌, ◌≡◌, refl, true, false, String, List, [], ◌∷◌, none, ok, err, ◌≢◌, length, str_eq,
  if◌then◌else◌,
}
use toss_trader.Prelude.Int.{pos}
use toss_trader.MarketScan.{
  ScanCandidate, made, missing_input, failed, Built, Sources, Scan, first_scan, uncaught,
  scan_market, scan_symbols, take_built, judge_candidate,
}
use toss_trader.MarketScan.Counts.{error_count, scan_market-accounts}

abbrev approved : ScanCandidate
approved = record {
  symbol = "A";
  decision = record {
    approved = true;
    setups = [];
    violations = [];
    missing_checks = [];
    ma50_distance = pos 1;
    flow_stars = 2;
  };
}

abbrev chased : ScanCandidate
chased = record {
  symbol = "B";
  decision = record {
    approved = false;
    setups = [];
    violations = "rsi-chase" ∷ [];
    missing_checks = [];
    ma50_distance = pos 1;
    flow_stars = 0;
  };
}

abbrev build : String → Built
build symbol =
    if str_eq symbol "A"
    then made approved
    else if str_eq symbol "B"
    then made chased
    else if str_eq symbol "C"
    then missing_input "missing:flow-history"
    else failed "no answer"

abbrev sources : Sources ℕ
sources = record {
  collect_symbol_names = λ symbols. ok [];
  collect = λ symbol count. none;
  analyze = λ symbol. ok 1;
  build_candidate = build;
}

abbrev universe : List String
universe = "A" ∷ ("B" ∷ ("C" ∷ ("D" ∷ [])))

-- The state that the scan ends in.
abbrev scanned : Scan ℕ
scanned = elim (scan_market sources (λ p x. p) ("M" ∷ []) universe) [
  | ok t ↦ t
  | err e ↦ first_scan sources []
]

one_error : error_count scanned.errors universe ≡ 1
unfolding scan_market scan_symbols take_built judge_candidate
one_error = refl

calm : sources.analyze "M" ≢ err uncaught
calm e = cc

scan_market-accounts_example :
    (t : Scan ℕ) × (scan_market sources (λ p x. p) ("M" ∷ []) universe ≡ ok t)
    × (length t.candidates + t.blocked_count + error_count t.errors universe ≡ 4)
    × (length t.hermes_candidates + t.hard_blocked_count ≡ t.blocked_count)
scan_market-accounts_example =
    scan_market-accounts sources (λ p x. p) ("M" ∷ []) universe (calm, tt)
