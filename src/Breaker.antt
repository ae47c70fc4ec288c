-- ===== src/Breaker.antt =====
-- circuit_breaker.go: one circuit breaker. Each method takes the receiver and the instant that
-- `time.Now` returns in it, and returns the new receiver. A method holds `cb.mu` throughout, so it
-- is one step; `execute` releases it around the call, and is given the receiver as that call leaves
-- it. `events` lists the calls of the OnStateChange callback and of the logger, oldest first.
-- Counters are unbounded integers: each changes by one in a call, and 2 ^ 63 calls are out of reach.
pub mod Invariant
pub mod Calls
pub mod Agreement
pub mod Window
pub mod Recovery
pub mod Probes
pub mod Manager
use vecto.Base.{
  ℕ, ℤ, pos, ◌+ℤ◌, ◌-ℤ◌, ltb_ℤ, leb_ℤ, leb, ltb, if◌then◌else◌, Bool, true, false, ◌||◌, Option,
  none, some, List, [], ◌∷◌, ◌++◌, length, keep, Bytes,
}
pub use vecto.BreakerConfig.{
  CircuitBreakerConfig, FailureRecord, Event, notified, logged, CircuitBreaker,
}
unfoldable pub use vecto.BreakerConfig.{
  Time, Duration, second, minute, default_should_trip, default_circuit_breaker_config, zero_time,
  with_defaults, new_circuit_breaker,
}
use vecto.BreakerState.{CircuitBreakerState, closed, open_state, half_open}
use vecto.Http.{Response, Err, breaker_error, Result}

-- `f.timestamp.After(now.Add(-window))`
unfoldable pub in_window : Duration → Time → FailureRecord → Bool
in_window window now f = ltb_ℤ (now -ℤ window) f.timestamp

unfoldable pub cleanup_old_failures : CircuitBreaker → Time → CircuitBreaker
cleanup_old_failures cb now = record cb {
  failures = keep (in_window cb.config.window_size now) cb.failures;
}

unfoldable pub record_failure : CircuitBreaker → Time → CircuitBreaker
unfolding cleanup_old_failures
record_failure cb now =
    cleanup_old_failures
      (record cb {
        failures = cb.failures ++ record { timestamp = now } ∷ [];
        last_failure_time = now;
      })
      now

unfoldable pub should_open : CircuitBreaker → Bool
should_open cb = leb_ℤ cb.config.failure_threshold (pos (length cb.failures))

unfoldable pub notify_state_change :
    CircuitBreaker → CircuitBreakerState → CircuitBreakerState → CircuitBreaker
notify_state_change cb from to = elim cb.config.on_state_change [
  | none ↦ cb
  | some callback ↦ record cb { events = cb.events ++ notified callback from to cb.key ∷ [] }
]

unfoldable pub log_state_change :
    CircuitBreaker → CircuitBreakerState → CircuitBreakerState → CircuitBreaker
log_state_change cb from to = elim cb.config.logger [
  | none ↦ cb
  | some logger ↦ record cb {
    events = cb.events ++ logged logger from to cb.key (length cb.failures) ∷ [];
  }
]

-- The tail that the three transitions share.
unfoldable pub announce :
    CircuitBreaker → CircuitBreakerState → CircuitBreakerState → CircuitBreaker
unfolding notify_state_change log_state_change
announce cb from to = log_state_change (notify_state_change cb from to) from to

abbrev is_open : CircuitBreakerState → Bool
is_open open_state = true
is_open _ = false

abbrev is_half_open : CircuitBreakerState → Bool
is_half_open half_open = true
is_half_open _ = false

abbrev is_closed : CircuitBreakerState → Bool
is_closed closed = true
is_closed _ = false

unfoldable pub transition_to_open : CircuitBreaker → Time → CircuitBreaker
unfolding announce
transition_to_open cb now =
    if is_open cb.state
    then cb
    else announce
        (record cb {
          state = open_state;
          state_change_time = now;
          half_open_requests = pos 0;
          consecutive_successes = pos 0;
        })
        cb.state open_state

unfoldable pub transition_to_half_open : CircuitBreaker → Time → CircuitBreaker
unfolding announce
transition_to_half_open cb now =
    if is_half_open cb.state
    then cb
    else announce
        (record cb {
          state = half_open;
          state_change_time = now;
          half_open_requests = pos 0;
          consecutive_successes = pos 0;
        })
        cb.state half_open

unfoldable pub transition_to_closed : CircuitBreaker → Time → CircuitBreaker
unfolding announce
transition_to_closed cb now =
    if is_closed cb.state
    then cb
    else announce
        (record cb {
          state = closed;
          state_change_time = now;
          failures = [];
          half_open_requests = pos 0;
          consecutive_successes = pos 0;
        })
        cb.state closed

allow_in : CircuitBreakerState → CircuitBreaker → Time → CircuitBreaker × Bool
unfolding cleanup_old_failures transition_to_half_open
allow_in closed cb now = (cleanup_old_failures cb now, true)
allow_in open_state cb now =
    if leb_ℤ cb.config.timeout (now -ℤ cb.state_change_time)
    then (transition_to_half_open cb now, true)
    else (cb, false)
allow_in half_open cb now =
    if leb_ℤ cb.config.half_open_max_requests cb.half_open_requests
    then (cb, false)
    else (record cb { half_open_requests = cb.half_open_requests +ℤ pos 1 }, true)

unfoldable pub allow_request : CircuitBreaker → Time → CircuitBreaker × Bool
unfolding allow_in
allow_request cb now = allow_in cb.state cb now

close_if_recovered : CircuitBreaker → Time → CircuitBreaker
unfolding transition_to_closed
close_if_recovered cb now =
    if leb_ℤ cb.config.success_threshold cb.consecutive_successes
    then transition_to_closed cb now
    else cb

open_if_due : CircuitBreaker → Time → CircuitBreaker
unfolding should_open transition_to_open
open_if_due cb now = if should_open cb then transition_to_open cb now else cb

-- The `switch` of recordResult, on the state and on `isFailure`; an open breaker has no case.
record_in : CircuitBreakerState → Bool → CircuitBreaker → Time → CircuitBreaker
unfolding record_failure cleanup_old_failures transition_to_open close_if_recovered open_if_due
record_in closed true cb now = open_if_due (record_failure cb now) now
record_in closed false cb now = cleanup_old_failures cb now
record_in half_open true cb now = record (transition_to_open cb now) {
  half_open_requests = pos 0;
  consecutive_successes = pos 0;
}
record_in half_open false cb now =
    close_if_recovered
      (record cb {
        consecutive_successes = cb.consecutive_successes +ℤ pos 1;
        half_open_requests = cb.half_open_requests -ℤ pos 1;
      })
      now
record_in open_state _ cb now = cb

unfoldable pub record_result : CircuitBreaker → Option Response → Option Err → Time → CircuitBreaker
unfolding record_in
record_result cb res err now = record_in cb.state (cb.should_trip res err) cb now

-- `fn` is given the receiver as admitted and returns what it returns to the caller together with
-- the receiver as it and other goroutines leave it; `later` is the clock when it returns.
-- No other goroutine comes between a refusal and the reading of the state for its error.
unfoldable pub execute :
    CircuitBreaker
    → Time
    → (CircuitBreaker → Result × CircuitBreaker)
    → Time
    → Result × CircuitBreaker
unfolding allow_request record_result
execute cb now fn later =
    let (admitted, allowed) = allow_request cb now in
    let (r, after) = fn admitted in
    if allowed
    then (r, elim r.err [ none ↦ after | some err ↦ record_result after r.res (some err) later ])
    else (record { res = none; err = some (breaker_error admitted.state admitted.key) }, admitted)

pub record CircuitBreakerStats : Type 0 where
  pub state : CircuitBreakerState
  pub failure_count : ℕ
  pub last_failure_time : Time
  pub half_open_requests : ℤ
  pub consecutive_successes : ℤ
  pub state_change_time : Time

-- The copy is cleaned up, and the receiver is left alone.
unfoldable pub get_stats : CircuitBreaker → Time → CircuitBreakerStats
unfolding cleanup_old_failures
get_stats cb now = record {
  state = cb.state;
  failure_count = length (cleanup_old_failures cb now).failures;
  last_failure_time = cb.last_failure_time;
  half_open_requests = cb.half_open_requests;
  consecutive_successes = cb.consecutive_successes;
  state_change_time = cb.state_change_time;
}
