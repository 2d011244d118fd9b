-- ===== src/Client/Tests.antt =====
-- Runs of the client against a transport that first refuses the token, then limits the rate, then answers.
use toss_trader.Prelude.{
  ℕ, ◌+◌, ◌/◌, ◌≡◌, ◌≤◌, refl, arith, false, String, List, [], ◌∷◌, Option, none, some, str_eq, ok,
  is_some, if◌then◌else◌, leb,
}
use toss_trader.Client.Http.{
  HttpResponse, Json, text, list, object, Items, Members, Event, sent, slept, looked, Outside,
}
use toss_trader.Client.{
  Config, State, request, request_loop, get_access_token, fetch_token, accept_token, send, clock,
  sleep, decode_json, respond, wait_for_candle_slot,
}
use toss_trader.Client.Endpoints.{accounts}
use toss_trader.Client.Loop.{count_calls, IsMonotonic, Bounded, request-Bounded}
use toss_trader.Client.Pace.{candle_slots_spaced}

abbrev page : ℕ → String → HttpResponse
page status body = record { status = status; headers = []; body = body }

-- The first answer of the API is 401, the second 429, all others 200.
abbrev answers : ℕ → HttpResponse
answers n =
    if leb 2 n then page 200 "result" else if leb 1 n then page 429 "busy" else page 401 "denied"

abbrev time_of : List Event → ℕ
time_of [] = 0
time_of (sent r ∷ events) = time_of events + 10
time_of (slept d ∷ events) = time_of events + d
time_of (looked ∷ events) = time_of events

abbrev body_of : String → Option Json
body_of body =
    if str_eq body "token"
    then some (object (Members.member "access_token" (text "t") Members.empty))
    else some (object (Members.member "result" (list Items.nil) Members.empty))

abbrev exchange : Outside
exchange = record {
  second = 1000;
  answer =
      λ events r. some (if is_some r.body then page 200 "token" else answers (count_calls events));
  clock = time_of;
  loads = body_of;
  read_float = λ raw. none;
  str = λ value. "text";
  urlencode = λ query. "query";
  divide = λ n d. n / d;
}

abbrev config : Config
config = record {
  client_id = "id";
  client_secret = "secret";
  account_seq = none;
  base_url = "https://host";
  max_get_retries = 2;
  candle_min_interval_seconds = 250;
}

abbrev fresh : State
fresh = record {
  candle_interval_seconds = 250;
  next_candle_request_at = 0;
  access_token = none;
  token_expires_at = 0;
  events = [];
}

forward : (e : Event) (events : List Event) → time_of events ≤ time_of (e ∷ events)
forward (sent r) events = omega arith
forward (slept d) events = omega arith
forward looked events = omega arith

exchange-IsMonotonic : IsMonotonic exchange
exchange-IsMonotonic = record { forward = forward; sleeps = λ delay events. omega arith }

-- A denied token, a sleep of a second, and the accounts: three requests of the API.
accounts_read : (accounts exchange config fresh).0 ≡ ok Items.nil
unfolding accounts request request_loop get_access_token fetch_token accept_token send clock sleep
    decode_json respond
accounts_read = refl

accounts_sent : count_calls ((accounts exchange config fresh).1).events ≡ 3
unfolding accounts request request_loop get_access_token fetch_token accept_token send clock sleep
    decode_json respond
accounts_sent = refl

request-Bounded_example :
    Bounded exchange 4 fresh (request exchange config "GET" "/api/v1/accounts" [] false fresh)
request-Bounded_example =
    request-Bounded exchange exchange-IsMonotonic config "GET" "/api/v1/accounts" [] false fresh

abbrev let_through : State
let_through = (wait_for_candle_slot exchange fresh).1

abbrev between : State
between = (request exchange config "GET" "/api/v1/candles" [] false let_through).1

abbrev second_wait : State
second_wait = (wait_for_candle_slot exchange between).1

candle_slots_spaced_example :
    (0 + 250 ≤ exchange.clock second_wait.events)
    × (let_through.next_candle_request_at + between.candle_interval_seconds
        ≤ second_wait.next_candle_request_at)
candle_slots_spaced_example =
    candle_slots_spaced exchange exchange-IsMonotonic config "GET" "/api/v1/candles" [] false fresh
