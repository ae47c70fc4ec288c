-- ===== src/Breaker/Invariant.antt =====
-- circuit_breaker.go: what holds of a circuit breaker between two calls, in every interleaving.
use vecto.Base.{
  pos, ◌+ℤ◌, ◌≤ℤ◌, ◌<ℤ◌, ◌≡◌, ◌≢◌, Option, List, [], ◌∷◌, length, keep, length-keep, length-append,
  ◌++◌, ◌-ℤ◌, arith, +ℤ_parts, -ℤ_parts, Bytes,
}
use vecto.BreakerState.{closed, half_open}
use vecto.Http.{Response, Err}
use vecto.Breaker.{
  Time, CircuitBreakerConfig, CircuitBreaker, FailureRecord, with_defaults, new_circuit_breaker,
  in_window, allow_request, record_result,
}

pub record IsPositive (c : CircuitBreakerConfig) : Type 0 where
  pub failure_threshold : pos 0 <ℤ c.failure_threshold
  pub success_threshold : pos 0 <ℤ c.success_threshold
  pub timeout : pos 0 <ℤ c.timeout
  pub half_open_max_requests : pos 0 <ℤ c.half_open_max_requests
  pub window_size : pos 0 <ℤ c.window_size

pub record IsValid (cb : CircuitBreaker) : Type 0 where
  pub settings : IsPositive cb.config
  pub few_failures : pos (length cb.failures) ≤ℤ cb.config.failure_threshold
  pub below_threshold : cb.state ≡ closed → pos (length cb.failures) <ℤ cb.config.failure_threshold
  pub no_probes : cb.state ≢ half_open → cb.half_open_requests ≡ pos 0
  pub no_successes : cb.state ≢ half_open → cb.consecutive_successes ≡ pos 0
  pub successes_nonneg : pos 0 ≤ℤ cb.consecutive_successes
  pub successes_below : cb.consecutive_successes <ℤ cb.config.success_threshold
  pub probes_below : cb.half_open_requests ≤ℤ cb.config.half_open_max_requests
  pub probes_above : pos 0 ≤ℤ cb.half_open_requests +ℤ cb.consecutive_successes

pub with_defaults-IsPositive : (c : CircuitBreakerConfig) → IsPositive (with_defaults c)
unfolding with_defaults
with_defaults-IsPositive c = ground arith

pub new_circuit_breaker-IsValid :
    (key : Bytes) (c : CircuitBreakerConfig) (now : Time) → IsValid (new_circuit_breaker key c now)
unfolding new_circuit_breaker
new_circuit_breaker-IsValid key c now =
    ground (arith, with_defaults-IsPositive c, +ℤ_parts (pos 0) (pos 0))

-- The list that `allow_request` leaves in a closed breaker.
abbrev kept : CircuitBreaker → Time → List FailureRecord
kept cb now = keep (in_window cb.config.window_size now) cb.failures

pub allow_request-IsValid :
    (cb : CircuitBreaker) (now : Time) → IsValid cb → IsValid (allow_request cb now).0
unfolding allow_request
allow_request-IsValid cb now v = ground (
  arith,
  length-keep (in_window cb.config.window_size now) cb.failures,
  +ℤ_parts cb.half_open_requests (pos 1),
  +ℤ_parts cb.half_open_requests cb.consecutive_successes,
  +ℤ_parts (cb.half_open_requests +ℤ pos 1) cb.consecutive_successes,
  +ℤ_parts (pos 0) (pos 0),
)

pub record_result-IsValid :
    (cb : CircuitBreaker) (res : Option Response) (err : Option Err) (now : Time)
    → IsValid cb
    → IsValid (record_result cb res err now)
unfolding record_result
record_result-IsValid cb res err now v = ground (
  arith,
  length-keep (in_window cb.config.window_size now) cb.failures,
  length-keep (in_window cb.config.window_size now)
      (cb.failures ++ record { timestamp = now } ∷ []),
  length-append cb.failures (record { timestamp = now } ∷ []),
  +ℤ_parts cb.half_open_requests cb.consecutive_successes,
  +ℤ_parts cb.consecutive_successes (pos 1),
  -ℤ_parts cb.half_open_requests (pos 1),
  +ℤ_parts (cb.half_open_requests -ℤ pos 1) (cb.consecutive_successes +ℤ pos 1),
  +ℤ_parts (pos 0) (pos 0),
)

-- The calls that change a breaker, as other goroutines may interleave them.
pub data Step : CircuitBreaker → CircuitBreaker → Type 0 where
  admit : (cb : CircuitBreaker) (now : Time) → Step cb (allow_request cb now).0
  report :
      (cb : CircuitBreaker) (res : Option Response) (err : Option Err) (now : Time)
      → Step cb (record_result cb res err now)

pub data Reach (start : CircuitBreaker) : CircuitBreaker → Type 0 where
  here : Reach start start
  next : {cb cb' : CircuitBreaker} → Reach start cb → Step cb cb' → Reach start cb'

pub Step-IsValid : {cb cb' : CircuitBreaker} → Step cb cb' → IsValid cb → IsValid cb'
Step-IsValid (admit cb now) v = allow_request-IsValid cb now v
Step-IsValid (report cb res err now) v = record_result-IsValid cb res err now v

Reach-IsValid_from : {start cb : CircuitBreaker} → IsValid start → Reach start cb → IsValid cb
Reach-IsValid_from v here = v
Reach-IsValid_from v (next r st) = Step-IsValid st (Reach-IsValid_from v r)

-- Whatever configuration a breaker is made with, and in whatever order goroutines call it, its
-- limits are positive, the failures kept never pass FailureThreshold and stay below it while the
-- breaker is closed, the half-open counters are 0 outside half-open, the successes counted stay
-- below SuccessThreshold, and the half-open requests counted stay at most HalfOpenMaxRequests and
-- at least minus the successes counted.
pub Reach-IsValid :
    (key : Bytes) (c : CircuitBreakerConfig) (now : Time) (cb : CircuitBreaker)
    → Reach (new_circuit_breaker key c now) cb
    → IsValid cb
Reach-IsValid key c now cb r = Reach-IsValid_from (new_circuit_breaker-IsValid key c now) r
