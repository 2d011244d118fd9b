-- ===== src/MarketScan/Counts.antt =====
-- A scan loses no symbol of its universe.
use toss_trader.Prelude.{
  ℕ, suc, ◌+◌, ◌≡◌, ◌≢◌, ◌∙◌, choice-P, All, refl, Bool, true, false, ◌&&◌, String, List, [], ◌∷◌,
  ◌++◌, length, length-append, Result, ok, err, is_some, any, str_eq, eq_iff, eq_refl, subst,
  Bool-cases, inl, inr, ◌≤◌, arith, if◌then◌else◌,
}
use toss_trader.Prelude.Dict.{Dict, lookup, lookup-put}
use toss_trader.MarketScan.{
  Built, made, missing_input, failed, AnalysisError, caught, uncaught, ScanError, Scan,
  judge_candidate, take_built, scan_symbols, Sources, scan_market, each_once, collect_all,
  named_symbols, analyze_markets, add_market, first_scan,
}

-- How many symbols of a universe have an error.
abbrev pub error_count : Dict String → List String → ℕ
error_count errors [] = 0
error_count errors (s ∷ symbols) =
    if is_some (lookup s errors)
    then suc (error_count errors symbols)
    else error_count errors symbols

abbrev has_error : String → Dict String → Bool
has_error symbol errors = is_some (lookup symbol errors)

abbrev fails : Built → Bool
fails (failed message) = true
fails (made c) = false
fails (missing_input reason) = false

built_errors :
    {M : Type 0} (prefixed : String → String → String) (symbol k : String) (b : Built) (s : Scan M)
    → has_error k (take_built prefixed symbol b s).errors
      ≡ (if has_error k s.errors then true else (fails b && str_eq symbol k))
unfolding take_built judge_candidate
built_errors prefixed symbol k (made c) s = ground arith
built_errors prefixed symbol k (missing_input reason) s = ground arith
built_errors prefixed symbol k (failed message) s =
    ground (arith, lookup-put symbol k message s.errors)

-- What a built candidate adds to the counts.
record Counted {M : Type 0} (b : Built) (s t : Scan M) : Type 0 where
  told :
      length t.candidates + t.blocked_count
      ≡ length s.candidates + s.blocked_count + (if fails b then 0 else 1)
  hard :
      t.blocked_count + length s.hermes_candidates + s.hard_blocked_count
      ≡ s.blocked_count + length t.hermes_candidates + t.hard_blocked_count
  seen : s.evaluated_count ≤ t.evaluated_count

built_counts :
    {M : Type 0} (prefixed : String → String → String) (symbol : String) (b : Built) (s : Scan M)
    → Counted b s (take_built prefixed symbol b s)
unfolding take_built judge_candidate
built_counts prefixed symbol (made c) s = record {
  told = ground (arith, length-append s.candidates (c ∷ []));
  hard = ground (arith, length-append s.hermes_candidates (c ∷ []));
  seen = ground arith;
}
built_counts prefixed symbol (missing_input reason) s = record {
  told = omega arith;
  hard = omega arith;
  seen = omega arith;
}
built_counts prefixed symbol (failed message) s = record {
  told = omega arith;
  hard = omega arith;
  seen = omega arith;
}

abbrev count_if : (String → Bool) → List String → ℕ
count_if p [] = 0
count_if p (k ∷ ks) = if p k then suc (count_if p ks) else count_if p ks

count_if-ext :
    (p q : String → Bool) (ks : List String)
    → ((k : String) → p k ≡ q k)
    → count_if p ks ≡ count_if q ks
count_if-ext p q [] h = refl
count_if-ext p q (k ∷ ks) h = ground (arith, h k, count_if-ext p q ks h)

module _ {M : Type 0} (prefixed : String → String → String) (build : String → Built) where
  abbrev step : String → Scan M → Scan M
  step symbol s =
      if is_some (lookup symbol s.errors) then s else take_built prefixed symbol (build symbol) s

  step_errors :
      (symbol k : String) (s : Scan M)
      → has_error k (step symbol s).errors
        ≡ (if has_error k s.errors then true else (fails (build k) && str_eq symbol k))
  step_errors symbol k s = elim (Bool-cases (str_eq symbol k)) [
    | inl same ↦
        subst
          (λ j.
            has_error j (step symbol s).errors
            ≡ (if has_error j s.errors then true else (fails (build j) && str_eq symbol j)))
          ((eq_iff symbol k).0 same)
          (ground (arith, built_errors prefixed symbol symbol (build symbol) s, eq_refl symbol))
    | inr other ↦ ground (arith, built_errors prefixed symbol k (build symbol) s)
  ]

  -- The errors after a scan: those before it, and those of the symbols whose candidate fails.
  errors-scan_symbols :
      (symbols : List String) (s : Scan M) (k : String)
      → has_error k (scan_symbols prefixed build symbols s).errors ≡ (
          if has_error k s.errors then true else (fails (build k) && any (λ j. str_eq j k) symbols))
  unfolding scan_symbols
  errors-scan_symbols [] s k = ground arith
  errors-scan_symbols (symbol ∷ symbols) s k =
      ground (arith, errors-scan_symbols symbols (step symbol s) k, step_errors symbol k s)

  spoiled : Scan M → String → Bool
  spoiled s k = if has_error k s.errors then true else fails (build k)

  spoiled-step :
      (symbol : String) (s : Scan M) (k : String) → spoiled (step symbol s) k ≡ spoiled s k
  unfolding spoiled
  spoiled-step symbol s k = ground (arith, step_errors symbol k s)

  step-Counted :
      (symbol : String) (s : Scan M)
      → (length (step symbol s).candidates + (step symbol s).blocked_count
          ≡ length s.candidates + s.blocked_count + (if spoiled s symbol then 0 else 1))
        × ((step symbol s).blocked_count + length s.hermes_candidates + s.hard_blocked_count
            ≡ s.blocked_count
              + length (step symbol s).hermes_candidates
              + (step symbol s).hard_blocked_count)
  unfolding spoiled
  step-Counted symbol s =
      let c = built_counts prefixed symbol (build symbol) s in
      (ground (arith, c.told), ground (arith, c.hard))

  scan-counts :
      (symbols : List String) (s : Scan M)
      → let t = scan_symbols prefixed build symbols s in
        (length t.candidates + t.blocked_count + count_if (spoiled s) symbols
          ≡ length s.candidates + s.blocked_count + length symbols)
        × (t.blocked_count + length s.hermes_candidates + s.hard_blocked_count
            ≡ s.blocked_count + length t.hermes_candidates + t.hard_blocked_count)
  unfolding scan_symbols
  scan-counts [] s = (omega arith, omega arith)
  scan-counts (symbol ∷ symbols) s =
      let (told, hard) = scan-counts symbols (step symbol s) in
      let (first, first_hard) = step-Counted symbol s in
      let same =
        count_if-ext (spoiled (step symbol s)) (spoiled s) symbols (spoiled-step symbol s) in
      (ground (arith, told, first, same), omega (arith, hard, first_hard))

  error_count-eq :
      (xs ys : List String) (s : Scan M)
      → ((k : String) → any (λ j. str_eq j k) xs ≡ true → any (λ j. str_eq j k) ys ≡ true)
      → error_count (scan_symbols prefixed build ys s).errors xs ≡ count_if (spoiled s) xs
  unfolding spoiled
  error_count-eq [] ys s h = refl
  error_count-eq (k ∷ xs) ys s h = ground (
    arith,
    errors-scan_symbols ys s k,
    h k (ground (arith, eq_refl k)),
    error_count-eq xs ys s (λ j m. h j (ground arith)),
  )

-- A scan with the same candidates and counts.
abbrev SameCounts : {M : Type 0} → Scan M → Scan M → Type 0
SameCounts s t =
    (length t.candidates ≡ length s.candidates)
    × (t.blocked_count ≡ s.blocked_count)
    × (length t.hermes_candidates ≡ length s.hermes_candidates)
    × (t.hard_blocked_count ≡ s.hard_blocked_count)

-- A step over the benchmarks returns such a scan.
abbrev Analyzes : {M : Type 0} → Scan M → Result ScanError (Scan M) → Type 0
Analyzes {M} s r = (t : Scan M) × (r ≡ ok t) × SameCounts s t

add_market-Analyzes :
    {M : Type 0} (o : Sources M) (symbol : String) (m : Result AnalysisError M) (s : Scan M)
    → m ≢ err uncaught
    → Analyzes s (add_market o symbol m s)
add_market-Analyzes o symbol (ok m) s calm = (_, refl, (refl, refl, refl, refl))
add_market-Analyzes o symbol (err (caught message)) s calm = (_, refl, (refl, refl, refl, refl))
add_market-Analyzes o symbol (err uncaught) s calm = absurd (calm refl)

-- The benchmarks add no candidate, and their analysis returns unless one of them raises through.
analyze_markets-Analyzes :
    {M : Type 0} (o : Sources M) (benchmarks : List String) (s : Scan M)
    → All (λ symbol. o.analyze symbol ≢ err uncaught) benchmarks
    → Analyzes s (analyze_markets o benchmarks s)
analyze_markets-Analyzes o [] s calm = (s, refl, (refl, refl, refl, refl))
analyze_markets-Analyzes o (symbol ∷ symbols) s calm =
    let (next, e, (a, b, c, d)) =
      choice-P (Analyzes s) (is_some (lookup symbol s.errors)) (ok s)
        (add_market o symbol (o.analyze symbol) s) (λ _. (s, refl, (refl, refl, refl, refl)))
        (λ _. add_market-Analyzes o symbol (o.analyze symbol) s calm.0) in
    let (t, f, (p, q, r, u)) = analyze_markets-Analyzes o symbols next calm.1 in
    (t, rw e f, (p ∙ a, q ∙ b, r ∙ c, u ∙ d))

-- If the analysis of no benchmark raises anything but what the scan catches, then the scan goes through and accounts for every
-- symbol of its universe once: it is an approved candidate, or counted as blocked, or has an error after the scan; and
-- what is blocked is a candidate for the experiment or counted as blocked hard.
pub scan_market-accounts :
    {M : Type 0} (o : Sources M) (prefixed : String → String → String)
    (benchmarks discovery : List String)
    → All (λ symbol. o.analyze symbol ≢ err uncaught) benchmarks
    → (t : Scan M) × (scan_market o prefixed benchmarks discovery ≡ ok t)
      × (length t.candidates + t.blocked_count + error_count t.errors discovery ≡ length discovery)
      × (length t.hermes_candidates + t.hard_blocked_count ≡ t.blocked_count)
unfolding scan_market
scan_market-accounts o prefixed benchmarks discovery calm =
    let all_symbols = each_once [] (benchmarks ++ discovery) in
    let errors =
      collect_all o discovery all_symbols
        (named_symbols o (o.collect_symbol_names all_symbols)).1 in
    let (s, e, (a, b, c, d)) = analyze_markets-Analyzes o benchmarks (first_scan o errors) calm in
    let (told, hard) = scan-counts prefixed o.build_candidate discovery s in
    let errors_found = error_count-eq prefixed o.build_candidate discovery discovery s (λ k h. h) in
    (
      scan_symbols prefixed o.build_candidate discovery s,
      rw e refl,
      omega (arith, told, errors_found, a, b),
      omega (arith, hard, b, c, d),
    )
