-- ===== src/Client/Slots.antt =====
-- The slots of the candle requests in src/toss_trader/client.py: the wait for one, and the limits that answers announce.
use toss_trader.Prelude.{
  ℕ, ◌+◌, ◌-◌, ◌*◌, Bool, false, String, Option, none, some, leb, ltb, max, ok, if◌then◌else◌,
}
use toss_trader.Prelude.Int.{pos, pos_part, ltb_ℤ}
use toss_trader.Client.Http.{HttpResponse, Outside}
use toss_trader.Client.Calls.{Config, State, Call, ◌>>=◌, ◌>>◌, return, clock, sleep, header}

-- `_rate_limit_header`
abbrev pub rate_limit_header : Outside → HttpResponse → String → Option ℕ
rate_limit_header o response name = elim (header name response.headers) [
  | none ↦ none
  | some raw ↦ elim (o.read_float raw) [
    | none ↦ none
    | some n ↦ if ltb_ℤ n (pos 0) then none else some (pos_part n)
  ]
]

-- the interval that a limit asks for, `max(self._candle_min_interval_seconds, 1.0 / limit)`
unfoldable pub limited : Outside → Config → Option ℕ → State → State
limited o c none s = s
limited o c (some limit) s =
    if ltb 0 limit
    then record s {
      candle_interval_seconds =
          max c.candle_min_interval_seconds (o.divide (o.second * o.second) limit);
    }
    else s

abbrev pub is_spent : ℕ → Option ℕ → Bool
is_spent second none = false
is_spent second (some remaining) = leb remaining second

abbrev pub put_off : ℕ → ℕ → Call (Unit {0})
put_off now reset s =
    (ok tt, record s { next_candle_request_at = max s.next_candle_request_at (now + reset) })

-- the wait for a reset
unfoldable pub postponed : Outside → Option ℕ → Option ℕ → Call (Unit {0})
postponed o remaining none = return tt
postponed o remaining (some reset) =
    if is_spent o.second remaining then (do now ← clock o; put_off now reset) else return tt

-- `_update_candle_limit`
unfoldable pub update_candle_limit : Outside → Config → HttpResponse → Call (Unit {0})
update_candle_limit o c response s =
    postponed o (rate_limit_header o response "X-RateLimit-Remaining")
      (rate_limit_header o response "X-RateLimit-Reset")
      (limited o c (rate_limit_header o response "X-RateLimit-Limit") s)

-- the sleep until the slot, `delay = max(0.0, self._next_candle_request_at - now)`
unfoldable pub wait_until : Outside → ℕ → Call ℕ
wait_until o now s =
    if ltb now s.next_candle_request_at
    then (do sleep (s.next_candle_request_at - now); clock o) s
    else (ok now, s)

abbrev pub reserve : ℕ → Call (Unit {0})
reserve now s = (ok tt, record s { next_candle_request_at = now + s.candle_interval_seconds })

-- `_wait_for_candle_slot`; the lock around it makes it one step
unfoldable pub wait_for_candle_slot : Outside → Call (Unit {0})
wait_for_candle_slot o = do now ← clock o; start ← wait_until o now; reserve start
