-- ===== src/Calendar.antt =====
-- `MarketCalendarService` and `previous_kr_business_date` of src/toss_trader/calendar.py. `Almanac` holds what they
-- call: `str.upper`, the time zones, the readers of dates and times, and the client, which has no answer where it
-- raises. A date is a count of days.
pub mod Prior
mod Tests
use toss_trader.Prelude.{
  ℕ, ◌-◌, Bool, true, false, not, String, List, [], ◌∷◌, map, Option, none, some, str_eq, ◌==◌,
  Result, ok, err, raise_if, ◌>>=◌, ◌>>◌, if◌then◌else◌,
}
use toss_trader.Models.Time.{DateTime, is_naive}
use toss_trader.Client.Http.{Json, null, boolean, number, text, list, object, Members, get}

pub data Country : Type 0 where
  kr us : Country

pub record Almanac : Type 0 where
  pub upper : String → String
  -- `now.astimezone(zone).date()`
  pub day_in : Country → DateTime → ℕ
  -- noon of a day in Seoul
  pub seoul_noon : ℕ → DateTime
  -- `date.fromisoformat(str(value))`
  pub read_date : Json → Option ℕ
  -- `datetime.fromisoformat(str(value))`
  pub read_time : Json → Option DateTime
  pub market_calendar : Country → ℕ → Option Members

pub record MarketSession : Type 0 where
  pub country : Country
  pub business_date : ℕ
  pub is_business_day : Bool
  pub market_open_at : Option DateTime
  pub market_close_at : Option DateTime

pub data CalendarError : Type 0 where
  naive_now unknown_country client_raised today_missing bad_date unexpected_date : CalendarError
  integrated_not_object regular_not_object no_prior_session : CalendarError
  bad_time naive_market_time : String → CalendarError

-- a value, or an error where there is none
abbrev pub required {ℓ} : {A : Type ℓ} → CalendarError → Option A → Result CalendarError A
required e none = err e
required e (some a) = ok a

-- `payload.get("today")`
abbrev pub today_of : Option Json → Result CalendarError Members
today_of (some (object m)) = ok m
today_of _ = err today_missing

-- an object, or none where the value is missing or null
abbrev pub optional_object : CalendarError → Option Json → Result CalendarError (Option Members)
optional_object e none = ok none
optional_object e (some null) = ok none
optional_object e (some (object m)) = ok (some m)
optional_object e (some _) = err e

abbrev pub regular_in : Option Members → Result CalendarError (Option Members)
regular_in none = ok none
regular_in (some m) = optional_object regular_not_object (get "regularMarket" m)

-- `_regular_market`
abbrev pub regular_market : Country → Members → Result CalendarError (Option Members)
regular_market kr today =
    optional_object integrated_not_object (get "integrated" today) >>= regular_in
regular_market us today = regular_in (some today)

-- the country of `normalized`
abbrev pub known_country : String → Result CalendarError Country
known_country normalized =
    if str_eq normalized "KR"
    then ok kr
    else if str_eq normalized "US"
    then ok us
    else err unknown_country

module _ (o : Almanac) where
  abbrev pub read_field : {A : Type 0} → (Json → Option A) → Option Json → Option A
  read_field read none = none
  read_field read (some value) = read value

  -- `_market_time`
  abbrev pub market_time : String → Members → Result CalendarError DateTime
  market_time field payload = do
    value ← required (bad_time field) (read_field o.read_time (get field payload))
    raise_if (is_naive value) (naive_market_time field)
    ok value

  -- the session of a day, by its regular market
  abbrev pub session_of : Country → ℕ → Option Members → Result CalendarError MarketSession
  session_of country day none = ok (record {
    country = country;
    business_date = day;
    is_business_day = false;
    market_open_at = none;
    market_close_at = none;
  })
  session_of country day (some regular) = do
    open_at ← market_time "startTime" regular
    close_at ← market_time "endTime" regular
    ok (record {
      country = country;
      business_date = day;
      is_business_day = true;
      market_open_at = some open_at;
      market_close_at = some close_at;
    })

  -- `regular_session`
  unfoldable pub regular_session : String → DateTime → Result CalendarError MarketSession
  regular_session country now = do
    raise_if (is_naive now) naive_now
    normalized ← known_country (o.upper country)
    payload ← required client_raised (o.market_calendar normalized (o.day_in normalized now))
    today ← today_of (get "today" payload)
    response_day ← required bad_date (read_field o.read_date (get "date" today))
    raise_if (not (response_day == o.day_in normalized now)) unexpected_date
    regular ← regular_market normalized today
    session_of normalized response_day regular

  -- the loop of `previous_kr_business_date`
  unfoldable pub first_business : List ℕ → Result CalendarError ℕ
  first_business [] = err no_prior_session
  first_business (day ∷ days) =
      let rest = first_business days in
      regular_session "KR" (o.seoul_noon day) >>= λ session.
      (if session.is_business_day then ok day else rest)

  -- the days that the loop probes, the latest first
  abbrev pub prior_days : ℕ → List ℕ
  prior_days local =
      map (λ delta. local - delta) (1 ∷ 2 ∷ 3 ∷ 4 ∷ 5 ∷ 6 ∷ 7 ∷ 8 ∷ 9 ∷ 10 ∷ 11 ∷ 12 ∷ 13 ∷ [])

  -- `previous_kr_business_date`
  unfoldable pub previous_kr_business_date : DateTime → Result CalendarError ℕ
  previous_kr_business_date now = first_business (prior_days (o.day_in kr now))
