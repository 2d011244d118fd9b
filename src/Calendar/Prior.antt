-- ===== src/Calendar/Prior.antt =====
-- Which day `previous_kr_business_date` of src/toss_trader/calendar.py finds.
use toss_trader.Prelude.{
  ℕ, ◌≡◌, refl, ap, subst, Bool, true, false, List, [], ◌∷◌, ◌++◌, All, ok, ok-injective, >>=-ok,
  Bool-cases, inl, inr,
}
use toss_trader.Models.Time.{DateTime}
use toss_trader.Calendar.{
  Almanac, MarketSession, kr, regular_session, first_business, prior_days,
  previous_kr_business_date,
}

-- The service answers for a day in Korea with a session that is, or is not, of a business day.
abbrev pub HasSession : Almanac → Bool → ℕ → Type 0
HasSession o business day =
    (s : MarketSession) × (regular_session o "KR" (o.seoul_noon day) ≡ ok s)
    × (s.is_business_day ≡ business)

-- A day stands first among the business days of a list.
abbrev pub IsFirst : Almanac → ℕ → List ℕ → Type 0
IsFirst o day days =
    (closed later : List ℕ) × (days ≡ closed ++ day ∷ later)
    × All (HasSession o false) closed
    × HasSession o true day

IsFirst-cons :
    (o : Almanac) (day d : ℕ) (days : List ℕ)
    → HasSession o false d
    → IsFirst o day days
    → IsFirst o day (d ∷ days)
IsFirst-cons o day d days shut (closed, later, e, all_shut, open_day) =
    (d ∷ closed, later, ap (λ rest. d ∷ rest) e, (shut, all_shut), open_day)

first_business-IsFirst :
    (o : Almanac) (days : List ℕ) (day : ℕ) → first_business o days ≡ ok day → IsFirst o day days
unfolding first_business
first_business-IsFirst o [] day e = cc
first_business-IsFirst o (d ∷ days) day e =
    let (s, answer, e') = >>=-ok (regular_session o "KR" (o.seoul_noon d)) _ e in
    elim (Bool-cases s.is_business_day) [
      | inl business ↦
          subst (λ x. IsFirst o x (d ∷ days)) (ok-injective (rw business at e'))
            ([], days, refl, tt, (s, answer, business))
      | inr shut ↦
          IsFirst-cons o day d days (s, answer, shut)
            (first_business-IsFirst o days day (rw shut at e'))
    ]

-- If a previous business day is found, then it is the first of the thirteen days before the day in Korea, the latest
-- first, that the service answers with a session of a business day, and for every later one of them the service
-- answers with a session that is of no business day.
pub previous_kr_business_date-IsFirst :
    (o : Almanac) (now : DateTime) (day : ℕ)
    → previous_kr_business_date o now ≡ ok day
    → IsFirst o day (prior_days o (o.day_in kr now))
unfolding previous_kr_business_date
previous_kr_business_date-IsFirst o now day =
    first_business-IsFirst o (prior_days o (o.day_in kr now)) day
