-- ===== src/Tests/BreakerTests.antt =====
-- circuit_breaker.go: one breaker with two failures to open, two successes to close, one probe.
use vecto.Base.{
  pos, ◌+◌, ◌+ℤ◌, ◌-ℤ◌, ◌≡◌, refl, true, false, Option, none, some, List, [], ◌∷◌, length,
  get_elem?, arith, codes, lookup, insert, str_eq,
}
use Prim.Native.Nat.{min}
use vecto.BreakerState.{open_state, half_open}
use vecto.Http.{Response, Err, message}
use vecto.Breaker.{
  CircuitBreakerConfig, CircuitBreaker, with_defaults, new_circuit_breaker, allow_request,
  record_result, default_should_trip,
}
use vecto.Breaker.Invariant.{IsValid, here, next, admit, report, Reach-IsValid}
use vecto.Breaker.Calls.{Call, arrives, returns, leaves_closed, window_trips}
use vecto.Breaker.Window.{leaves_closed-window_trips}
use vecto.Breaker.Recovery.{calls, calls-open, Report, report_all, IsFreshlyClosed, open-recovers}
use vecto.Breaker.Probes.{admitted, admitted-half_open}
use vecto.Breaker.Manager.{
  CircuitBreakerManager, new_circuit_breaker_manager, creates, uses, act_all, act, find_or_allocate,
  get, get_or_create,
}
use vecto.Breaker.Manager.Sharing.{get_or_create-shared}
use vecto.Breaker.Manager.Keyed.{get-keyed}

abbrev sample_config : CircuitBreakerConfig
sample_config = record {
  failure_threshold = pos 2;
  success_threshold = pos 2;
  timeout = pos 10;
  half_open_max_requests = pos 1;
  window_size = pos 100;
  should_trip = none;
  on_state_change = none;
  logger = none;
}

abbrev no_answer : Option Response
no_answer = none

abbrev refused : Option Err
refused = some (message [])

abbrev ok_response : Response
ok_response = record {
  body = [];
  status_code = 200;
  request = none;
  raw_request = none;
  raw_response = none;
  success = false;
  trace_info = none;
}

-- Opened at instant 5.
abbrev opened : CircuitBreaker
opened = record {
  config = sample_config;
  should_trip = default_should_trip;
  key = [];
  state = open_state;
  failures = record { timestamp = pos 4 } ∷ record { timestamp = pos 5 } ∷ [];
  last_failure_time = pos 5;
  half_open_requests = pos 0;
  consecutive_successes = pos 0;
  state_change_time = pos 5;
  events = [];
}

abbrev probing : CircuitBreaker
probing = record opened { state = half_open; failures = [] }

abbrev passing : Report
passing = record { res = some ok_response; err = none; now = pos 20 }

abbrev failing : Report
failing = record { res = none; err = refused; now = pos 21 }

-- Two failures and an arrival after the timeout.
Reach-IsValid_example :
    IsValid
      (allow_request
        (record_result
          (record_result (new_circuit_breaker [] sample_config (pos 0)) no_answer refused (pos 1))
          no_answer
          refused
          (pos 2))
        (pos 30)).0
Reach-IsValid_example = Reach-IsValid [] sample_config (pos 0) _ (
    next
      (next (next here (report _ no_answer refused (pos 1))) (report _ no_answer refused (pos 2)))
      (admit _ (pos 30)))

abbrev some_calls : List Call
some_calls = arrives (pos 1) ∷ returns none refused (pos 2) ∷ returns none refused (pos 3) ∷ []

leaves_closed-window_trips_example :
    leaves_closed (new_circuit_breaker [] sample_config (pos 0)) some_calls
    ≡ window_trips
        (with_defaults sample_config).window_size
        (with_defaults sample_config).failure_threshold
        (new_circuit_breaker [] sample_config (pos 0)).should_trip
        []
        some_calls
leaves_closed-window_trips_example =
    leaves_closed-window_trips [] sample_config (pos 0) some_calls
      (omega arith, (omega arith, (omega arith, tt)))

abbrev early_calls : List Call
early_calls = arrives (pos 6) ∷ returns none refused (pos 14) ∷ []

calls-open_example : calls opened early_calls ≡ opened
unfolding ◌-ℤ◌
calls-open_example = calls-open opened early_calls refl (omega arith, (omega arith, tt))

open-recovers_example :
    ((allow_request opened (pos 15)).1 ≡ true)
    × IsFreshlyClosed (report_all (allow_request opened (pos 15)).0 (passing ∷ passing ∷ []))
unfolding default_should_trip ◌+ℤ◌ ◌-ℤ◌
open-recovers_example =
    open-recovers opened (pos 15) 1 (passing ∷ passing ∷ []) refl (omega arith) refl refl
      (refl, (refl, tt))

admitted-half_open_example :
    admitted opened (pos 15 ∷ pos 16 ∷ pos 17 ∷ [])
    ≡ min (length (pos 15 ∷ pos 16 ∷ pos 17 ∷ [])) (1 + 1)
unfolding ◌-ℤ◌
admitted-half_open_example =
    admitted-half_open opened (pos 15) (pos 16 ∷ pos 17 ∷ []) 1 refl (omega arith) refl

abbrev empty_manager : CircuitBreakerManager
empty_manager = new_circuit_breaker_manager [] sample_config none

get_or_create-shared_example :
    let (m', a) = get_or_create empty_manager (codes "a") none (pos 0) (λ m. m) in
    get_or_create
      (act_all m' (creates (codes "b") none (pos 1) ∷ uses 0 (arrives (pos 2)) ∷ []))
      (codes "a")
      none
      (pos 3)
      (λ m. m)
    ≡ (act_all m' (creates (codes "b") none (pos 1) ∷ uses 0 (arrives (pos 2)) ∷ []), a)
get_or_create-shared_example =
    get_or_create-shared empty_manager (codes "a") none none (pos 0) (pos 3) (λ m. m) (λ m. m)
      (creates (codes "b") none (pos 1) ∷ uses 0 (arrives (pos 2)) ∷ []) (tt, (tt, tt))

get-keyed_example :
    let m = act_all empty_manager (creates (codes "a") none (pos 1) ∷ []) in
    (cb : CircuitBreaker) × (get_elem? m.heap 0 ≡ some cb) × (cb.key ≡ codes "a")
unfolding act_all act find_or_allocate get lookup insert new_circuit_breaker_manager str_eq
get-keyed_example =
    get-keyed [] sample_config none (creates (codes "a") none (pos 1) ∷ []) (codes "a") 0 refl
