-- ===== src/BreakerState.antt =====
-- circuit_breaker.go: the states of a circuit breaker and their names.
use vecto.Base.{Bytes, codes}

pub data CircuitBreakerState : Type 0 where
  closed open_state half_open : CircuitBreakerState

unfoldable pub state_string : CircuitBreakerState → Bytes
state_string CircuitBreakerState.closed = codes "closed"
state_string CircuitBreakerState.open_state = codes "open"
state_string CircuitBreakerState.half_open = codes "half-open"
