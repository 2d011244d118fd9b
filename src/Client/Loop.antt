-- ===== src/Client/Loop.antt =====
-- How much a call of `TossClient` may do: the rounds of the request loop, and what it leaves as it was.
use toss_trader.Prelude.{
  ℕ, zero, suc, ◌+◌, ◌-◌, ◌≤◌, ◌<◌, ◌≡◌, ◌≢◌, refl, Bool, true, false, not, String, str_eq, List,
  [], ◌∷◌, Option, none, some, is_some, ◌==◌, ◌&&◌, ltb, arith, Result, ok, err, if◌then◌else◌,
}
use toss_trader.Client.Http.{
  HttpRequest, HttpResponse, Members, Event, sent, slept, looked, Outside, ClientError, QueryValue,
  out_of_fuel, no_account,
}
use toss_trader.Client.{
  Config, State, Call, continue, ◌>>=◌, return, clock, sleep, send, decode_json, raise_api_error,
  is_success, fetch_token, accept_token, token_request, cached, use_token, get_access_token,
  limited, postponed, update_candle_limit, method_retries, require, is_unset, retry_after,
  clear_token, Target, api_request, respond, note_limit, request_loop, request,
}

-- A request of the API, not of a token: it has no body.
abbrev pub is_call : Event → Bool
is_call (sent r) = if is_some r.body then false else true
is_call (slept d) = false
is_call looked = false

abbrev pub count_calls : List Event → ℕ
count_calls [] = 0
count_calls (e ∷ events) = if is_call e then suc (count_calls events) else count_calls events

-- From one state to another at most n requests of the API are sent, no slot of the candles is moved forward, and the
-- clock does not go back.
pub record Within (o : Outside) (n : ℕ) (s t : State) : Type 0 where
  pub calls : count_calls t.events ≤ count_calls s.events + n
  pub slot : s.next_candle_request_at ≤ t.next_candle_request_at
  pub time : o.clock s.events ≤ o.clock t.events

-- `time.monotonic` does not go back, and a sleep takes at least its delay.
pub record IsMonotonic (o : Outside) : Type 0 where
  pub forward : (e : Event) (events : List Event) → o.clock events ≤ o.clock (e ∷ events)
  pub sleeps :
      (delay : ℕ) (events : List Event) → o.clock events + delay ≤ o.clock (slept delay ∷ events)

-- The outcome of a call that started in s: at most n requests of the API, and no loop that lacks fuel.
pub record Bounded {ℓ} {A : Type ℓ} (o : Outside) (n : ℕ) (s : State)
    (r : Result ClientError A × State) : Type ℓ where
  pub ends : r.0 ≢ err out_of_fuel
  pub within : Within o n s r.1

module _ (o : Outside) (mono : IsMonotonic o) where
  Within-refl : (s : State) → Within o 0 s s
  Within-refl s = record { calls = omega arith; slot = omega arith; time = omega arith }

  Within-trans : {a b : ℕ} {s t u : State} → Within o a s t → Within o b t u → Within o (a + b) s u
  Within-trans p q = record {
    calls = omega (arith, p.calls, q.calls);
    slot = omega (arith, p.slot, q.slot);
    time = omega (arith, p.time, q.time);
  }

  ok-Bounded {ℓ} :
      {A : Type ℓ} {n : ℕ} {s t : State} (a : A) → Within o n s t → Bounded o n s (ok a, t)
  ok-Bounded a w = record { ends = λ e. cc e; within = w }

  Within-weaken : {a b : ℕ} {s t : State} → a ≤ b → Within o a s t → Within o b s t
  Within-weaken h w = record { calls = omega (arith, w.calls); slot = w.slot; time = w.time }

  bind-Bounded {ℓ κ} :
      {A : Type ℓ} {B : Type κ} (a b : ℕ) {n : ℕ} (s : State) (r : Result ClientError A × State)
      (f : A → Call B)
      → a + b ≤ n
      → Bounded o a s r
      → ((x : A) (t : State) → Bounded o b t (f x t))
      → Bounded o n s (continue r f)
  bind-Bounded a b s (ok x, t) f h p q = record {
    ends = (q x t).ends;
    within = Within-weaken h (Within-trans p.within (q x t).within);
  }
  bind-Bounded a b s (err e, t) f h p q = record {
    ends = λ k. p.ends (cc);
    within = Within-weaken (omega (arith, h)) p.within;
  }

  choice-Bounded {ℓ} :
      {A : Type ℓ} {n : ℕ} (test : Bool) (m k : Call A) (s : State)
      → (test ≡ true → Bounded o n s (m s))
      → (test ≡ false → Bounded o n s (k s))
      → Bounded o n s ((if test then m else k) s)
  choice-Bounded true m k s p q = p refl
  choice-Bounded false m k s p q = q refl

  clock-Bounded : (s : State) → Bounded o 0 s (clock o s)
  unfolding clock
  clock-Bounded s =
      ok-Bounded (o.clock s.events)
        (record { calls = omega arith; slot = omega arith; time = mono.forward looked s.events })

  sleep-Bounded : (delay : ℕ) (s : State) → Bounded o 0 s (sleep delay s)
  unfolding sleep
  sleep-Bounded delay s = ok-Bounded tt (record {
    calls = omega arith;
    slot = omega arith;
    time = mono.forward (slept delay) s.events;
  })

  send-Bounded :
      (r : HttpRequest) (n : ℕ) (s : State)
      → count_calls (sent r ∷ []) ≤ n
      → Bounded o n s (send o r s)
  unfolding send
  send-Bounded r n s h = record {
    ends = ground arith;
    within = record {
      calls = ground arith;
      slot = omega arith;
      time = mono.forward (sent r) s.events;
    };
  }

  decode_json-Bounded : (r : HttpResponse) (s : State) → Bounded o 0 s (decode_json o r s)
  unfolding decode_json
  decode_json-Bounded r s = record { ends = ground arith; within = Within-refl s }

  raise_api_error-Bounded {ℓ} :
      {A : Type ℓ} (r : HttpResponse) (s : State) → Bounded o 0 s (raise_api_error {A = A} o r s)
  unfolding raise_api_error
  raise_api_error-Bounded {A} r s =
      bind-Bounded 0 0 s (decode_json o r s) _ (omega arith) (decode_json-Bounded r s)
        (λ payload t. record { ends = ground arith; within = Within-refl t })

  accept_token-Bounded :
      (status : ℕ) (payload : Members) (s : State) → Bounded o 0 s (accept_token o status payload s)
  unfolding accept_token clock
  accept_token-Bounded status payload s = record {
    ends = ground arith;
    within = record {
      calls = ground arith;
      slot = ground arith;
      time = ground (arith, mono.forward looked s.events);
    };
  }

  fetch_token-Bounded : (c : Config) (s : State) → Bounded o 0 s (fetch_token o c s)
  unfolding fetch_token
  fetch_token-Bounded c s =
      bind-Bounded 0 0 s (send o (token_request o c) s) _ (omega arith)
        (send-Bounded (token_request o c) 0 s (omega arith))
        (λ response t.
          bind-Bounded 0 0 t
            ((if is_success response.status
                then decode_json o response
                else raise_api_error o response)
              t)
            (λ payload. accept_token o response.status payload) (omega arith)
            (choice-Bounded (is_success response.status) _ _ t (λ _. decode_json-Bounded response t)
              (λ _. raise_api_error-Bounded response t))
            (λ payload u. accept_token-Bounded response.status payload u))

  use_token-Bounded :
      (c : Config) (token : Option String) (s : State) → Bounded o 0 s (use_token o c token s)
  use_token-Bounded c none s = fetch_token-Bounded c s
  use_token-Bounded c (some token) s =
      choice-Bounded (str_eq token "") (fetch_token o c) (clock o >>= λ now. cached o c token now) s
        (λ _. fetch_token-Bounded c s)
        (λ _.
          bind-Bounded 0 0 s (clock o s) (λ now. cached o c token now) (omega arith)
            (clock-Bounded s)
            (λ now t.
              choice-Bounded (ltb now t.token_expires_at) (return token) (fetch_token o c) t
                (λ _. ok-Bounded token (Within-refl t)) (λ _. fetch_token-Bounded c t)))

  update_candle_limit-Bounded :
      (c : Config) (r : HttpResponse) (s : State) → Bounded o 0 s (update_candle_limit o c r s)
  unfolding update_candle_limit limited postponed clock
  update_candle_limit-Bounded c r s = record {
    ends = ground arith;
    within = record {
      calls = ground arith;
      slot = ground arith;
      time = ground (arith, mono.forward looked s.events);
    };
  }

  note_limit-Bounded :
      (c : Config) (t : Target) (r : HttpResponse) (s : State)
      → Bounded o 0 s (note_limit o c t r s)
  note_limit-Bounded c t r s =
      choice-Bounded (str_eq t.path "/api/v1/candles") (update_candle_limit o c r) (return tt) s
        (λ _. update_candle_limit-Bounded c r s) (λ _. ok-Bounded tt (Within-refl s))

  -- The rounds that are left, after the one at hand.
  abbrev rounds : Config → Target → Bool → ℕ → ℕ
  rounds c t auth attempt = (if auth then 1 else 0) + (method_retries c t.method - attempt)

  Bounded-weaken {ℓ} :
      {A : Type ℓ} {a b : ℕ} {s : State} (r : Result ClientError A × State)
      → a ≤ b
      → Bounded o a s r
      → Bounded o b s r
  Bounded-weaken r h p = record { ends = p.ends; within = Within-weaken h p.within }

  respond-Bounded :
      (c : Config) (t : Target) (again : Bool → ℕ → Call Members) (auth : Bool) (attempt : ℕ)
      (response : HttpResponse) (s : State)
      → ((b : Bool) (n : ℕ) (u : State)
          → suc (rounds c t b n) ≤ rounds c t auth attempt
          → Bounded o (suc (rounds c t b n)) u (again b n u))
      → Bounded o (rounds c t auth attempt) s (respond o c t again auth attempt response s)
  unfolding respond
  respond-Bounded c t again auth attempt response s next =
      choice-Bounded (is_success response.status) _ _ s
        (λ _. Bounded-weaken _ (omega arith) (decode_json-Bounded response s))
        (λ _.
          choice-Bounded (response.status == 401 && auth) _ _ s
            (λ h.
              let renewed : auth ≡ true = ground arith in
              let less : suc (rounds c t false attempt) ≤ rounds c t auth attempt = ground arith in
              let rest = next false attempt (clear_token s) less in
              Bounded-weaken _ less (record {
                ends = rest.ends;
                within = record {
                  calls = rest.within.calls;
                  slot = rest.within.slot;
                  time = rest.within.time;
                };
              }))
            (λ _.
              choice-Bounded (response.status == 429 && ltb attempt (method_retries c t.method)) _ _
                s
                (λ h.
                  let less : suc (rounds c t auth (suc attempt)) ≤ rounds c t auth attempt =
                    ground arith in
                  Bounded-weaken _ less (
                    bind-Bounded 0 (suc (rounds c t auth (suc attempt))) s
                      (sleep (retry_after o response attempt) s) _ (omega arith)
                      (sleep-Bounded (retry_after o response attempt) s)
                      (λ _ u. next auth (suc attempt) u less)))
                (λ _. Bounded-weaken _ (omega arith) (raise_api_error-Bounded response s))))

  request_loop-Bounded :
      (fuel : ℕ) (c : Config) (t : Target) (auth : Bool) (attempt : ℕ) (s : State)
      → rounds c t auth attempt < fuel
      → Bounded o (suc (rounds c t auth attempt)) s (request_loop fuel o c t auth attempt s)
  unfolding request_loop get_access_token
  request_loop-Bounded zero c t auth attempt s h = elim h [ ]
  request_loop-Bounded (suc fuel) c t auth attempt s h =
      bind-Bounded 0 (suc (rounds c t auth attempt)) s (get_access_token o c s) _ (omega arith)
        (use_token-Bounded c s.access_token s)
        (λ token u.
          bind-Bounded 1 (rounds c t auth attempt) u (send o (api_request c t token) u) _
            (omega arith) (send-Bounded (api_request c t token) 1 u (omega arith))
            (λ response v.
              bind-Bounded 0 (rounds c t auth attempt) v (note_limit o c t response v) _
                (omega arith) (note_limit-Bounded c t response v)
                (λ _ w.
                  respond-Bounded c t (request_loop fuel o c t) auth attempt response w
                    (λ b n x less. request_loop-Bounded fuel c t b n x (omega (arith, less))))))

  -- A request ends: it returns or raises, with fuel to spare in its loop, and it sends at most two requests of the API
  -- more than it has retries, one of them for a new token. Only a GET has retries. It moves no slot of the candles
  -- forward, and the clock does not go back.
  pub request-Bounded :
      (c : Config) (method path : String) (query : List (String × QueryValue))
      (account_scoped : Bool) (s : State)
      → Bounded o
          (if str_eq method "GET" then c.max_get_retries + 2 else 2)
          s
          (request o c method path query account_scoped s)
  unfolding request
  request-Bounded c method path query account_scoped s =
      bind-Bounded 0 (suc (suc (method_retries c method))) s
        (require (not (account_scoped && is_unset c.account_seq)) no_account s) _ (ground arith)
        (record { ends = ground arith; within = ground arith })
        (λ _ t.
          Bounded-weaken _ (ground arith)
            (request_loop-Bounded (method_retries c method + 2) c _ true 0 t (ground arith)))
