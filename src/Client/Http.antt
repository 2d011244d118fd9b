-- ===== src/Client/Http.antt =====
-- What src/toss_trader/client.py exchanges with the outside: requests, responses, JSON, errors and the events of a run.
-- A body is the text of its bytes. A time counts units of the clock, `second` of them in a second, and so does a
-- number that a header or a JSON payload holds.
use toss_trader.Prelude.{
  ℕ, ◌==◌, Bool, true, false, not, ◌&&◌, String, List, Option, none, some, str_eq, if◌then◌else◌,
  all_codes,
}
use Prim.Native.Char.{code}
use toss_trader.Prelude.Int.{ℤ, eqb_ℤ, pos}
use toss_trader.Models.Signal.{is_space}

pub record HttpRequest : Type 0 where
  pub method : String
  pub url : String
  pub headers : List (String × String)
  pub body : Option String

pub record HttpResponse : Type 0 where
  pub status : ℕ
  pub headers : List (String × String)
  pub body : String

-- A value of `json.loads`; a list and an object hold values.
mutual
  pub data Json : Type 0 where
    null : Json
    boolean : Bool → Json
    number : ℤ → Json
    text : String → Json
    list : Items → Json
    object : Members → Json

  pub data Items : Type 0 where
    nil : Items
    item : Json → Items → Items

  pub data Members : Type 0 where
    empty : Members
    member : String → Json → Members → Members

-- `payload.get(name)`
abbrev pub get : String → Members → Option Json
get name empty = none
get name (member key value rest) = if str_eq key name then some value else get name rest

abbrev pub get_member : String → Option Json → Option Json
get_member name (some (object members)) = get name members
get_member name _ = none

-- Whether `value or default` takes the default.
abbrev pub is_falsy : Json → Bool
is_falsy null = true
is_falsy (boolean b) = not b
is_falsy (number n) = eqb_ℤ n (pos 0)
is_falsy (text t) = str_eq t ""
is_falsy (list nil) = true
is_falsy (list (item _ _)) = false
is_falsy (object empty) = true
is_falsy (object (member _ _ _)) = false

abbrev lstrip : String → String
lstrip String.[] = ""
lstrip (String.◌∷◌ c rest) = if is_space (code c) then lstrip rest else String.◌∷◌ c rest

abbrev rstrip_by : (ℕ → Bool) → String → String
rstrip_by test String.[] = ""
rstrip_by test (String.◌∷◌ c rest) =
    if test (code c) && all_codes test rest then "" else String.◌∷◌ c (rstrip_by test rest)

-- `text.strip()`
abbrev pub strip : String → String
strip s = rstrip_by is_space (lstrip s)

-- `text.rstrip("/")`
abbrev pub rstrip_slash : String → String
rstrip_slash s = rstrip_by (λ c. c == 47) s

-- A value of a query: a text or an int.
pub data QueryValue : Type 0 where
  word : String → QueryValue
  whole : ℤ → QueryValue

-- What a run does to the outside, in its order, the last first.
pub data Event : Type 0 where
  sent : HttpRequest → Event
  slept : ℕ → Event
  looked : Event

-- The transport and the clock answer by what has happened so far; a transport that raises answers `none`. The
-- functions of the standard library that read or print a number or a JSON text are arguments too.
pub record Outside : Type 0 where
  pub second : ℕ
  pub answer : List Event → HttpRequest → Option HttpResponse
  pub clock : List Event → ℕ
  pub loads : String → Option Json
  pub read_float : String → Option ℤ
  pub str : Json → String
  pub urlencode : List (String × QueryValue) → String
  pub divide : ℕ → ℕ → ℕ

pub data ClientError : Type 0 where
  -- `TossApiError`: the status, the code, the message, the request id and the details
  toss_api_error : ℕ → String → String → Option String → Option Json → ClientError
  -- an exception of the transport
  transport_error : ClientError
  no_credentials negative_interval bad_symbol_count bad_symbol bad_interval bad_count : ClientError
  no_account bad_country : ClientError
  -- no code: a loop of the model without fuel
  out_of_fuel : ClientError
