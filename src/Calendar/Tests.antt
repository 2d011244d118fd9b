-- ===== src/Calendar/Tests.antt =====
-- A calendar with one closed day before the day at hand.
use toss_trader.Prelude.{ℕ, ◌+◌, ◌*◌, ◌≡◌, refl, none, some, Option, ok, leb, if◌then◌else◌}
use toss_trader.Prelude.Int.{pos, pos_part}
use toss_trader.Models.Time.{DateTime, day_of}
use toss_trader.Client.Http.{Json, null, number, object, empty, member}
use toss_trader.Calendar.{
  Almanac, regular_session, first_business, prior_days, previous_kr_business_date,
}
use toss_trader.Calendar.Prior.{IsFirst, previous_kr_business_date-IsFirst}

abbrev at_noon : ℕ → DateTime
at_noon day = record { local = day * 86_400_000_000 + 43_200_000_000; utcoffset = some (pos 0) }

abbrev counted : Json → Option ℕ
counted (number n) = some (pos_part n)
counted _ = none

abbrev timed : Json → Option DateTime
timed (number n) = some (at_noon (pos_part n))
timed _ = none

-- The market of a day; from the hundredth day on it is closed.
abbrev market : ℕ → Json
market day =
    if leb 100 day
    then null
    else object (
        member "regularMarket"
          (object
            (member "startTime" (number (pos day)) (member "endTime" (number (pos day)) empty)))
          empty)

abbrev almanac : Almanac
almanac = record {
  upper = λ name. name;
  day_in = λ _ t. day_of t;
  seoul_noon = at_noon;
  read_date = counted;
  read_time = timed;
  market_calendar = λ _ day. some (
      member "today"
        (object (member "date" (number (pos day)) (member "integrated" (market day) empty))) empty);
}

found : previous_kr_business_date almanac (at_noon 101) ≡ ok 99
unfolding previous_kr_business_date first_business regular_session
found = refl

previous_kr_business_date-IsFirst_example : IsFirst almanac 99 (prior_days almanac 101)
previous_kr_business_date-IsFirst_example =
    previous_kr_business_date-IsFirst almanac (at_noon 101) 99 found
