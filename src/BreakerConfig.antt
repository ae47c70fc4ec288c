-- ===== src/BreakerConfig.antt =====
-- circuit_breaker.go: the configuration, the state and the making of a circuit breaker.
use vecto.Base.{
  ℕ, ℤ, pos, leb_ℤ, leb, ltb, if◌then◌else◌, Bool, true, ◌||◌, Option, none, some, List, [], Bytes,
}
use vecto.BreakerState.{CircuitBreakerState, closed}
use vecto.Http.{Response, Err}

abbrev pub Time : Type 0
Time = ℤ

abbrev pub Duration : Type 0
Duration = ℤ

-- Callbacks and loggers are values of the caller, known by their identity.
pub record CircuitBreakerConfig : Type 0 where
  pub failure_threshold : ℤ
  pub success_threshold : ℤ
  pub timeout : Duration
  pub half_open_max_requests : ℤ
  pub window_size : Duration
  pub should_trip : Option (Option Response → Option Err → Bool)
  pub on_state_change : Option ℕ
  pub logger : Option ℕ

abbrev pub second : ℤ
second = pos 1_000_000_000

abbrev pub minute : ℤ
minute = pos 60_000_000_000

unfoldable pub default_should_trip : Option Response → Option Err → Bool
default_should_trip res (some err) = true
default_should_trip none none = true
default_should_trip (some res) none = leb 500 res.status_code || ltb res.status_code 200

unfoldable pub default_circuit_breaker_config : CircuitBreakerConfig
default_circuit_breaker_config = record {
  failure_threshold = pos 5;
  success_threshold = pos 2;
  timeout = minute;
  half_open_max_requests = pos 1;
  window_size = minute;
  should_trip = some default_should_trip;
  on_state_change = none;
  logger = none;
}

pub record FailureRecord : Type 0 where
  pub timestamp : Time

pub data Event : Type 0 where
  notified : ℕ → CircuitBreakerState → CircuitBreakerState → Bytes → Event
  logged : ℕ → CircuitBreakerState → CircuitBreakerState → Bytes → ℕ → Event

-- `should_trip` is `config.ShouldTrip` as NewCircuitBreaker leaves it, which is never nil.
pub record CircuitBreaker : Type 0 where
  pub config : CircuitBreakerConfig
  pub should_trip : Option Response → Option Err → Bool
  pub key : Bytes
  pub state : CircuitBreakerState
  pub failures : List FailureRecord
  pub last_failure_time : Time
  pub half_open_requests : ℤ
  pub consecutive_successes : ℤ
  pub state_change_time : Time
  pub events : List Event

-- time.Time{}, before every instant that the clock shows.
abbrev pub zero_time : Time
zero_time = pos 0

abbrev pub positive_or : ℤ → ℤ → ℤ
positive_or n default = if leb_ℤ n (pos 0) then default else n

unfoldable pub with_defaults : CircuitBreakerConfig → CircuitBreakerConfig
with_defaults c = record c {
  failure_threshold = positive_or c.failure_threshold (pos 5);
  success_threshold = positive_or c.success_threshold (pos 2);
  timeout = positive_or c.timeout minute;
  half_open_max_requests = positive_or c.half_open_max_requests (pos 1);
  window_size = positive_or c.window_size minute;
}

abbrev pub trip_or_default :
    Option (Option Response → Option Err → Bool) → Option Response → Option Err → Bool
trip_or_default none = default_should_trip
trip_or_default (some trip) = trip

unfoldable pub new_circuit_breaker : Bytes → CircuitBreakerConfig → Time → CircuitBreaker
unfolding with_defaults
new_circuit_breaker key config now = record {
  config = with_defaults config;
  should_trip = trip_or_default config.should_trip;
  key = key;
  state = closed;
  failures = [];
  last_failure_time = zero_time;
  half_open_requests = pos 0;
  consecutive_successes = pos 0;
  state_change_time = now;
  events = [];
}
