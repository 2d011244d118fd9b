-- ===== src/Client.antt =====
-- `TossClient` of src/toss_trader/client.py: the token cache, the request loop with its retries, and the slots of
-- the candle requests. A call passes the client's state on, also when it raises.
mod Calls
mod Tokens
mod Slots
pub mod Http
pub mod Endpoints
pub mod Loop
pub mod Pace
mod Tests
unfoldable pub use Slots.*
unfoldable pub use Tokens.*
unfoldable pub use Calls.*
use toss_trader.Prelude.{
  ℕ, zero, suc, ◌+◌, ◌-◌, ◌*◌, ◌^◌, ◌==◌, Bool, true, false, not, ◌&&◌, ◌||◌, String, List, [], ◌∷◌,
  Option, none, some, any, map, length, leb, ltb, max, str_eq, is_some, Result, ok, err,
  if◌then◌else◌,
}
use toss_trader.Client.Calls.{
  Config, State, Call, continue, ◌>>=◌, ◌>>◌, return, raise, require, clock, sleep, answered, send,
  header, invalid_json, decoded, decode_json, text_or, code_of, id_of, api_error, raise_api_error,
  is_success,
}
use toss_trader.Client.Tokens.{get_access_token}
use toss_trader.Client.Slots.{update_candle_limit}
use Prim.Native.String.{◌++◌ as ◌++ₛ◌}
use toss_trader.Prelude.Int.{ℤ, pos, pos_part, ltb_ℤ, leb_ℤ}
use toss_trader.Models.Signal.{symbol_matches}
use toss_trader.Client.Http.{
  HttpRequest, HttpResponse, Json, number, text, list, object, Members, get, get_member, is_falsy,
  strip, rstrip_slash, QueryValue, word, whole, Event, sent, slept, looked, Outside, ClientError,
  toss_api_error, transport_error, no_credentials, negative_interval, bad_symbol_count, bad_symbol,
  bad_interval, bad_count, no_account, bad_country, out_of_fuel, null, boolean,
}

-- `_retry_after`
abbrev pub retry_after : Outside → HttpResponse → ℕ → ℕ
retry_after o response attempt = elim (header "Retry-After" response.headers) [
  | none ↦ o.second * 2 ^ attempt
  | some raw ↦ elim (o.read_float raw) [ none ↦ o.second * 2 ^ attempt | some n ↦ pos_part n ]
]

abbrev pub method_retries : Config → String → ℕ
method_retries c method = if str_eq method "GET" then c.max_get_retries else 0

abbrev pub clear_token : State → State
clear_token s = record s { access_token = none; token_expires_at = 0 }

-- The arguments of `_request`, its URL built.
pub record Target : Type 0 where
  pub method : String
  pub path : String
  pub url : String
  pub account_scoped : Bool

abbrev pub account_of : Option String → String
account_of none = ""
account_of (some account) = account

abbrev pub api_headers : Config → Target → String → List (String × String)
api_headers c t token =
    ("Accept", "application/json")
    ∷ (("Authorization", "Bearer " ++ₛ token)
        ∷ (if t.account_scoped
            then ("X-Tossinvest-Account", account_of c.account_seq) ∷ []
            else []))

abbrev pub api_request : Config → Target → String → HttpRequest
api_request c t token = record {
  method = t.method;
  url = t.url;
  headers = api_headers c t token;
  body = none;
}

-- One answer of the loop: a result, another round, or an error.
unfoldable pub respond :
    Outside → Config → Target → (Bool → ℕ → Call Members) → Bool → ℕ → HttpResponse → Call Members
respond o c t again auth_retry_available attempt response =
    if is_success response.status
    then decode_json o response
    else if response.status == 401 && auth_retry_available
    then (λ s. again false attempt (clear_token s))
    else if response.status == 429 && ltb attempt (method_retries c t.method)
    then (do sleep (retry_after o response attempt); again auth_retry_available (suc attempt))
    else raise_api_error o response

abbrev pub note_limit : Outside → Config → Target → HttpResponse → Call (Unit {0})
note_limit o c t response =
    if str_eq t.path "/api/v1/candles" then update_candle_limit o c response else return tt

-- the loop of `_request`
unfoldable pub request_loop : ℕ → Outside → Config → Target → Bool → ℕ → Call Members
request_loop zero o c t auth_retry_available attempt = raise out_of_fuel
request_loop (suc fuel) o c t auth_retry_available attempt = do
  token ← get_access_token o c
  response ← send o (api_request c t token)
  note_limit o c t response
  respond o c t (request_loop fuel o c t) auth_retry_available attempt response

abbrev pub url_of : Outside → Config → String → List (String × QueryValue) → String
url_of o c path [] = c.base_url ++ₛ path
url_of o c path (q ∷ query) = c.base_url ++ₛ (path ++ₛ ("?" ++ₛ o.urlencode (q ∷ query)))

abbrev pub is_unset : Option String → Bool
is_unset none = true
is_unset (some account) = str_eq account ""

-- `_request`, with a round for the first answer, one for a new token and one for each retry
unfoldable pub request :
    Outside → Config → String → String → List (String × QueryValue) → Bool → Call Members
request o c method path query account_scoped = do
  require (not (account_scoped && is_unset c.account_seq)) no_account
  request_loop (method_retries c method + 2) o c
      (record {
        method = method;
        path = path;
        url = url_of o c path query;
        account_scoped = account_scoped;
      })
      true 0
