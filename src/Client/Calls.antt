-- ===== src/Client/Calls.antt =====
-- The state of a `TossClient` of src/toss_trader/client.py, the calls on it, and the outside as they use it.
use toss_trader.Prelude.{
  same_ignoring_case, ℕ, Bool, true, false, ◌&&◌, String, List, [], ◌∷◌, Option, none, some, leb,
  ltb, Result, ok, err, if◌then◌else◌,
}
use toss_trader.Client.Http.{
  HttpRequest, HttpResponse, Json, object, Members, get, is_falsy, Event, sent, slept, looked,
  Outside, ClientError, toss_api_error, transport_error, null,
}

-- The fields that `__init__` sets once.
pub record Config : Type 0 where
  pub client_id : String
  pub client_secret : String
  pub account_seq : Option String
  pub base_url : String
  pub max_get_retries : ℕ
  pub candle_min_interval_seconds : ℕ

-- The fields that calls change, and what has happened.
pub record State : Type 0 where
  pub candle_interval_seconds : ℕ
  pub next_candle_request_at : ℕ
  pub access_token : Option String
  pub token_expires_at : ℕ
  pub events : List Event

abbrev pub Call {ℓ} : Type ℓ → Type ℓ
Call A = State → Result ClientError A × State

abbrev pub continue {ℓ κ} :
    {A : Type ℓ} {B : Type κ}
    → Result ClientError A × State
    → (A → Call B)
    → Result ClientError B × State
continue (ok a, s) f = f a s
continue (err e, s) f = (err e, s)

infixl 5 ◌>>=◌ ◌>>◌
abbrev pub ◌>>=◌ {ℓ κ} : {A : Type ℓ} {B : Type κ} → Call A → (A → Call B) → Call B
◌>>=◌ m f s = continue (m s) f

abbrev pub ◌>>◌ {ℓ} : {B : Type ℓ} → Call (Unit {0}) → Call B → Call B
m >> k = m >>= λ _. k

abbrev pub return {ℓ} : {A : Type ℓ} → A → Call A
return a s = (ok a, s)

abbrev pub raise {ℓ} : {A : Type ℓ} → ClientError → Call A
raise e s = (err e, s)

abbrev pub require : Bool → ClientError → Call (Unit {0})
require true e = return tt
require false e = raise e

-- `self._clock()`
unfoldable pub clock : Outside → Call ℕ
clock o s = (ok (o.clock s.events), record s { events = looked ∷ s.events })

-- `self._sleeper(delay)`
unfoldable pub sleep : ℕ → Call (Unit {0})
sleep delay s = (ok tt, record s { events = slept delay ∷ s.events })

abbrev pub answered : Option HttpResponse → Result ClientError HttpResponse
answered none = err transport_error
answered (some response) = ok response

-- `self._transport.send(request, self._timeout)`
unfoldable pub send : Outside → HttpRequest → Call HttpResponse
send o request s =
    (answered (o.answer s.events request), record s { events = sent request ∷ s.events })

-- `_header`
abbrev pub header : String → List (String × String) → Option String
header name [] = none
header name ((key, value) ∷ rest) =
    if same_ignoring_case key name then some value else header name rest

abbrev pub invalid_json : ℕ → String → ClientError
invalid_json status message = toss_api_error status "invalid-json-response" message none none

abbrev pub decoded : ℕ → Option Json → Result ClientError Members
decoded status (some (object members)) = ok members
decoded status none = err (invalid_json status "response was not valid JSON")
decoded status (some _) = err (invalid_json status "response JSON must be an object")

-- `_decode_json`
unfoldable pub decode_json : Outside → HttpResponse → Call Members
decode_json o response s = (decoded response.status (o.loads response.body), s)

abbrev pub text_or : Outside → String → Option Json → String
text_or o default none = default
text_or o default (some value) = o.str value

-- `str(error_payload or "unknown-error")`
abbrev pub code_of : Outside → Option Json → String
code_of o none = "unknown-error"
code_of o (some value) = if is_falsy value then "unknown-error" else o.str value

-- `str(request_id) if request_id is not None else None`
abbrev pub id_of : Outside → Option Json → Option String
id_of o none = none
id_of o (some null) = none
id_of o (some value) = some (o.str value)

abbrev pub api_error : Outside → HttpResponse → Members → Option Json → ClientError
api_error o response payload (some (object e)) =
    toss_api_error response.status (text_or o "unknown-error" (get "code" e))
      (text_or o "Toss API request failed" (get "message" e)) (id_of o (get "requestId" e))
      (get "data" e)
api_error o response payload error_payload =
    toss_api_error response.status (code_of o error_payload)
      (text_or o "Toss API request failed" (get "error_description" payload))
      (header "X-Request-Id" response.headers) none

-- `_raise_api_error`
unfoldable pub raise_api_error {ℓ} : {A : Type ℓ} → Outside → HttpResponse → Call A
raise_api_error o response = do
  payload ← decode_json o response
  raise (api_error o response payload (get "error" payload))

abbrev pub is_success : ℕ → Bool
is_success status = leb 200 status && ltb status 300
