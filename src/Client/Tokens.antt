-- ===== src/Client/Tokens.antt =====
-- The access token of src/toss_trader/client.py: its cache, its request and its lifetime.
use toss_trader.Prelude.{
  ℕ, ◌+◌, ◌-◌, ◌*◌, String, [], ◌∷◌, Option, none, some, ltb, max, str_eq, ok, if◌then◌else◌,
}
use Prim.Native.String.{◌++◌ as ◌++ₛ◌}
use toss_trader.Prelude.Int.{pos_part}
use toss_trader.Client.Http.{
  HttpRequest, Json, number, text, Members, get, word, Outside, ClientError, toss_api_error,
  boolean,
}
use toss_trader.Client.Calls.{
  Config, Call, ◌>>=◌, ◌>>◌, return, raise, clock, send, decode_json, raise_api_error, is_success,
}

abbrev pub token_request : Outside → Config → HttpRequest
token_request o c = record {
  method = "POST";
  url = c.base_url ++ₛ "/oauth2/token";
  headers =
      ("Accept", "application/json") ∷ (("Content-Type", "application/x-www-form-urlencoded") ∷ []);
  body = some (
      o.urlencode (
        ("grant_type", word "client_credentials")
        ∷ (("client_id", word c.client_id) ∷ (("client_secret", word c.client_secret) ∷ []))));
}

-- `max(1.0, float(expires_in) - 30.0)`, with 300 where it is no number
abbrev pub token_lifetime : ℕ → Option Json → ℕ
token_lifetime second (some (number n)) = max second (pos_part n - 30 * second)
token_lifetime second (some (boolean b)) = second
token_lifetime second other = max second (300 * second - 30 * second)

abbrev pub keep_token : String → ℕ → Call (Unit {0})
keep_token token expires_at s =
    (ok tt, record s { access_token = some token; token_expires_at = expires_at })

abbrev pub store_token : Outside → String → Option Json → Call String
store_token o token expires_in = do
  now ← clock o
  keep_token token (now + token_lifetime o.second expires_in)
  return token

abbrev pub no_token : ℕ → ClientError
no_token status =
    toss_api_error status "invalid-token-response" "access_token missing from token response" none
      none

-- the token of a payload, kept
unfoldable pub accept_token : Outside → ℕ → Members → Call String
accept_token o status payload = elim (get "access_token" payload) [
  | some (text token) ↦
      if str_eq token ""
      then raise (no_token status)
      else store_token o token (get "expires_in" payload)
  | _ ↦ raise (no_token status)
]

-- the second half of `_get_access_token`
unfoldable pub fetch_token : Outside → Config → Call String
fetch_token o c = do
  response ← send o (token_request o c)
  payload ←
      if is_success response.status then decode_json o response else raise_api_error o response
  accept_token o response.status payload

abbrev pub cached : Outside → Config → String → ℕ → Call String
cached o c token now s = (if ltb now s.token_expires_at then return token else fetch_token o c) s

-- the clock is read only where a token is held
abbrev pub use_token : Outside → Config → Option String → Call String
use_token o c none = fetch_token o c
use_token o c (some token) =
    if str_eq token "" then fetch_token o c else clock o >>= λ now. cached o c token now

-- `_get_access_token`
unfoldable pub get_access_token : Outside → Config → Call String
get_access_token o c s = use_token o c s.access_token s
