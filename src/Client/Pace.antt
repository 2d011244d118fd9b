-- ===== src/Client/Pace.antt =====
-- The spacing of candle requests: `_wait_for_candle_slot` around a request.
use toss_trader.Prelude.{◌+◌, ◌-◌, ◌≤◌, Bool, String, List, ◌∷◌, arith}
use toss_trader.Client.Http.{QueryValue, Outside, slept, looked}
use toss_trader.Client.{Config, State, clock, sleep, wait_until, wait_for_candle_slot, request}
use toss_trader.Client.Loop.{IsMonotonic, request-Bounded}

-- What a wait does: it ends at the slot or after it, the next slot is an interval later, and the interval stays.
record Waited (o : Outside) (s t : State) : Type 0 where
  until : s.next_candle_request_at ≤ o.clock t.events
  next : o.clock s.events + s.candle_interval_seconds ≤ t.next_candle_request_at
  spaced : s.next_candle_request_at + s.candle_interval_seconds ≤ t.next_candle_request_at

module _ (o : Outside) (mono : IsMonotonic o) where
  wait-Waited : (s : State) → Waited o s (wait_for_candle_slot o s).1
  unfolding wait_for_candle_slot wait_until clock sleep
  wait-Waited s =
      let delay = s.next_candle_request_at - o.clock s.events in
      let seen = looked ∷ s.events in
      let slept' = slept delay ∷ seen in
      record {
        until = ground (
          arith,
          mono.forward looked s.events,
          mono.sleeps delay seen,
          mono.forward looked slept',
        );
        next = ground (
          arith,
          mono.forward looked s.events,
          mono.sleeps delay seen,
          mono.forward looked slept',
        );
        spaced = ground (
          arith,
          mono.forward looked s.events,
          mono.sleeps delay seen,
          mono.forward looked slept',
        );
      }

  -- Where the clock does not go back and sleeps their delays, a second candle request waits, whatever the first one came
  -- to, until an interval after the wait of the first began, and its slot is as late after the slot that the first left
  -- as the interval at that time says.
  pub candle_slots_spaced :
      (c : Config) (method path : String) (query : List (String × QueryValue))
      (account_scoped : Bool) (s : State)
      → let t = (wait_for_candle_slot o s).1 in
        let u = (request o c method path query account_scoped t).1 in
        let v = (wait_for_candle_slot o u).1 in
        (o.clock s.events + s.candle_interval_seconds ≤ o.clock v.events)
        × (t.next_candle_request_at + u.candle_interval_seconds ≤ v.next_candle_request_at)
  candle_slots_spaced c method path query account_scoped s =
      let t = (wait_for_candle_slot o s).1 in
      let u = (request o c method path query account_scoped t).1 in
      let first = wait-Waited s in
      let second = wait-Waited u in
      let between = (request-Bounded o mono c method path query account_scoped t).within in
      (
        omega (arith, first.next, between.slot, second.until),
        omega (arith, first.next, between.slot, second.spaced),
      )
