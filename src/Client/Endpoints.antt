-- ===== src/Client/Endpoints.antt =====
-- The endpoints of `TossClient` of src/toss_trader/client.py, their checks, and the constructor.
use Prim.Native.String.{◌++◌ as ◌++ₛ◌}
use toss_trader.Prelude.{
  same_ignoring_case, ℕ, Bool, true, false, not, ◌||◌, ◌&&◌, String, List, [], ◌∷◌, Option, none,
  some, any, map, length, leb, str_eq, Result, ok, err, if◌then◌else◌,
}
use toss_trader.Prelude.Int.{ℤ, pos, pos_part, ltb_ℤ, leb_ℤ}
use toss_trader.Models.Signal.{symbol_matches}
use toss_trader.Client.Http.{
  list, object, Items, Members, get, strip, rstrip_slash, QueryValue, word, whole, Outside,
  ClientError, toss_api_error, no_credentials, negative_interval, bad_symbol_count, bad_symbol,
  bad_interval, bad_count, bad_country,
}
use toss_trader.Client.{
  Config, State, Call, ◌>>=◌, ◌>>◌, return, raise, require, request, wait_for_candle_slot,
}

-- `__init__`: the fields that stay and those that calls change
unfoldable pub toss_client :
    String → String → Option String → String → ℕ → ℤ → Result ClientError (Config × State)
toss_client client_id client_secret account_seq base_url max_get_retries interval =
    if str_eq client_id "" || str_eq client_secret ""
    then err no_credentials
    else if ltb_ℤ interval (pos 0)
    then err negative_interval
    else ok (
      record {
        client_id = client_id;
        client_secret = client_secret;
        account_seq = account_seq;
        base_url = rstrip_slash base_url;
        max_get_retries = max_get_retries;
        candle_min_interval_seconds = pos_part interval;
      },
      record {
        candle_interval_seconds = pos_part interval;
        next_candle_request_at = 0;
        access_token = none;
        token_expires_at = 0;
        events = [];
      },
    )

-- `_validate_symbols`
unfoldable pub validate_symbols : List String → Call (List String)
validate_symbols symbols =
    if leb 1 (length symbols) && leb (length symbols) 200
    then if any (λ symbol. not (symbol_matches symbol)) (map strip symbols)
      then raise bad_symbol
      else return (map strip symbols)
    else raise bad_symbol_count

-- `",".join(symbols)`
abbrev pub join : List String → String
join [] = ""
join (s ∷ []) = s
join (s ∷ t ∷ rest) = s ++ₛ ("," ++ₛ join (t ∷ rest))

abbrev pub bad_shape : ClientError
bad_shape = toss_api_error 200 "invalid-response-shape" "result has an unexpected type" none none

-- `_require_result`, of a list and of an object
abbrev pub require_list : Members → Call Items
require_list payload s = elim (get "result" payload) [
  | some (list items) ↦ (ok items, s)
  | _ ↦ (err bad_shape, s)
]

abbrev pub require_object : Members → Call Members
require_object payload s = elim (get "result" payload) [
  | some (object members) ↦ (ok members, s)
  | _ ↦ (err bad_shape, s)
]

unfoldable pub prices : Outside → Config → List String → Call Items
prices o c symbols = do
  clean ← validate_symbols symbols
  payload ← request o c "GET" "/api/v1/prices" (("symbols", word (join clean)) ∷ []) false
  require_list payload

unfoldable pub stocks : Outside → Config → List String → Call Items
stocks o c symbols = do
  clean ← validate_symbols symbols
  payload ← request o c "GET" "/api/v1/stocks" (("symbols", word (join clean)) ∷ []) false
  require_list payload

-- `str(value).lower()`
abbrev pub bool_text : Bool → String
bool_text true = "true"
bool_text false = "false"

unfoldable pub rankings : Outside → Config → String → String → String → Bool → ℤ → Call Members
rankings o c ranking_type market_country duration exclude_investment_caution count = do
  payload ←
      request o c "GET" "/api/v1/rankings"
        (("type", word ranking_type)
          ∷ (("marketCountry", word market_country)
              ∷ (("duration", word duration)
                  ∷ (("excludeInvestmentCaution", word (bool_text exclude_investment_caution))
                      ∷ (("count", whole count) ∷ [])))))
        false
  require_object payload

-- `if before: query["before"] = before`
abbrev pub before_query : Option String → List (String × QueryValue)
before_query none = []
before_query (some before) = if str_eq before "" then [] else ("before", word before) ∷ []

unfoldable pub candles :
    Outside → Config → String → String → ℤ → Option String → Bool → Call Members
candles o c symbol interval count before adjusted = do
  _ ← validate_symbols (symbol ∷ [])
  require (str_eq interval "1m" || str_eq interval "1d") bad_interval
  require (leb_ℤ (pos 1) count && leb_ℤ count (pos 200)) bad_count
  wait_for_candle_slot o
  payload ←
      request o c "GET" "/api/v1/candles"
        (("symbol", word symbol)
          ∷ (("interval", word interval)
              ∷ (("count", whole count)
                  ∷ (("adjusted", word (bool_text adjusted)) ∷ before_query before))))
        false
  require_object payload

unfoldable pub accounts : Outside → Config → Call Items
accounts o c = do payload ← request o c "GET" "/api/v1/accounts" [] false; require_list payload

-- `country.upper()`, where it is KR or US. The texts are ASCII.
abbrev pub country_of : String → Option String
country_of country =
    if same_ignoring_case country "KR"
    then some "KR"
    else if same_ignoring_case country "US"
    then some "US"
    else none

abbrev pub date_query : Option String → List (String × QueryValue)
date_query none = []
date_query (some day) = ("date", word day) ∷ []

abbrev pub calendar_of : Outside → Config → Option String → Option String → Call Members
calendar_of o c day none = raise bad_country
calendar_of o c day (some normalized) = do
  payload ← request o c "GET" ("/api/v1/market-calendar/" ++ₛ normalized) (date_query day) false
  require_object payload

-- `market_calendar`, of the ISO text of the day
unfoldable pub market_calendar : Outside → Config → String → Option String → Call Members
market_calendar o c country day = calendar_of o c day (country_of country)

-- the query of `holdings`, its symbol checked
abbrev pub holdings_query : Option String → Call (List (String × QueryValue))
holdings_query none = return []
holdings_query (some symbol) = do
  _ ← validate_symbols (symbol ∷ [])
  return (("symbol", word symbol) ∷ [])

unfoldable pub holdings : Outside → Config → Option String → Call Members
holdings o c symbol = do
  query ← holdings_query symbol
  payload ← request o c "GET" "/api/v1/holdings" query true
  require_object payload
