-- ===== src/Handler.antt =====
-- request_handler.go, with getCircuitBreakerKey, getRetryConfig and shouldUseRetry of vecto.go.
-- Here the mutex of a request matters, since methods that lock it are called while it is held. A
-- goroutine that waits for a lock that it holds itself waits for ever: that is `none`.
pub mod Answers
pub mod Locking
pub mod Getters
use vecto.Base.{
  ℕ, zero, suc, ℤ, ◌+◌, ◌-◌, ◌≡◌, Bool, true, false, not, ◌||◌, ◌&&◌, Option, none, some, [], ◌∷◌,
  ◌++◌, Bytes, codes, if◌then◌else◌, ltb, Option-cases,
}
use vecto.Breaker.{Duration, CircuitBreaker}
use vecto.BreakerState.{CircuitBreakerState, closed, open_state, half_open}
use vecto.Http.{RwMutex, Request, Err, wrapped, Result}
use vecto.Retry.{RetryConfig, TimeLib}
use vecto.Retry.Execute.{RetryEnv, Outcome, sent, execute_with_retry}
use vecto.Substring.{is_empty}

-- A call that may wait for ever, on a request that it reads and changes.
abbrev pub Locked : Type 0 → Type 0
Locked A = Request → Option (A × Request)

infixl 5 ◌>>=◌ ◌>>◌
abbrev pub ◌>>=◌ : {A B : Type 0} → Locked A → (A → Locked B) → Locked B
◌>>=◌ m f r = elim (m r) [ none ↦ none | some (a, r') ↦ f a r' ]

abbrev pub ◌>>◌ : {B : Type 0} → Locked (Unit {0}) → Locked B → Locked B
m >> k = m >>= λ _. k

abbrev pub reading : {A : Type 0} → (Request → A) → Locked A
reading f r = some (f r, r)

abbrev pub modify : (Request → Request) → Locked (Unit {0})
modify f r = some (tt, f r)

unfoldable pub r_lock : Locked (Unit {0})
r_lock r =
    if r.mu.writer
    then none
    else some (tt, record r { mu = record { writer = false; readers = suc r.mu.readers } })

unfoldable pub r_unlock : Locked (Unit {0})
r_unlock r =
    some (tt, record r { mu = record { writer = r.mu.writer; readers = r.mu.readers - 1 } })

unfoldable pub lock : Locked (Unit {0})
lock r =
    if r.mu.writer || ltb 0 r.mu.readers
    then none
    else some (tt, record r { mu = record { writer = true; readers = 0 } })

unfoldable pub unlock : Locked (Unit {0})
unlock r = some (tt, record r { mu = record { writer = false; readers = 0 } })

-- (*Request).Scheme and (*Request).Host; the deferred unlock comes after the field is read.
unfoldable pub scheme : Locked Bytes
unfolding r_lock r_unlock
scheme = do r_lock; s ← reading (λ r. r.scheme); r_unlock; reading (λ _. s)

unfoldable pub host : Locked Bytes
unfolding r_lock r_unlock
host = do r_lock; h ← reading (λ r. r.host); r_unlock; reading (λ _. h)

unfoldable pub key_of : Bytes → Bytes → Bytes
key_of scheme host =
    if is_empty host
    then codes "default"
    else if is_empty scheme
    then host
    else scheme ++ (codes "://" ++ host)

unfoldable pub get_circuit_breaker_key : Locked Bytes
unfolding scheme host key_of
get_circuit_breaker_key = do s ← scheme; h ← host; reading (λ _. key_of s h)

set_key : Locked (Unit {0})
unfolding get_circuit_breaker_key
set_key = do
  key ← get_circuit_breaker_key
  modify (λ r. record r { cb_key = key; cb_key_cached = true })

set_key_if : Bool → Locked (Unit {0})
set_key_if true = reading (λ _. tt)
set_key_if false = set_key

compute_key : Locked Bytes
unfolding lock unlock set_key_if set_key
compute_key = do
  lock
  cached ← reading (λ r. r.cb_key_cached)
  set_key_if cached
  key ← reading (λ r. r.cb_key)
  unlock
  reading (λ _. key)

cached_or_computed : Bool → Bytes → Locked Bytes
unfolding compute_key
cached_or_computed true key = do r_unlock; reading (λ _. key)
cached_or_computed false key = do r_unlock; compute_key

unfoldable pub get_or_set_circuit_breaker_key : Locked Bytes
unfolding r_lock r_unlock cached_or_computed
get_or_set_circuit_breaker_key = do
  r_lock
  cached ← reading (λ r. r.cb_key_cached)
  key ← reading (λ r. r.cb_key)
  cached_or_computed cached key

abbrev not_open : CircuitBreakerState → Bool
not_open open_state = false
not_open _ = true

unfoldable pub should_use_retry : Option CircuitBreaker → Bool
should_use_retry none = true
should_use_retry (some breaker) = not_open breaker.state

-- The per-request MaxRetries replaces MaxAttempts in a copy; `max_retries` is options.MaxRetries.
unfoldable pub get_retry_config : Option RetryConfig → Option ℤ → Option RetryConfig
get_retry_config none max_retries = none
get_retry_config (some config) none = some config
get_retry_config (some config) (some n) =
    some (record config { times = record (config.times) { max_attempts = n } })

-- The breaker is read once, before the first attempt.
unfoldable pub execute_request :
    (ℕ → Duration)
    → TimeLib
    → RetryEnv
    → Option RetryConfig
    → Option CircuitBreaker
    → ℕ
    → Option Outcome
unfolding should_use_retry
execute_request float_to_duration lib env none breaker fuel =
    some (record { result = env.send 1; attempts = 1; events = sent 1 ∷ [] })
execute_request float_to_duration lib env (some config) breaker fuel =
    if should_use_retry breaker
    then execute_with_retry float_to_duration lib env (some config) fuel
    else some (record { result = env.send 1; attempts = 1; events = sent 1 ∷ [] })

unfoldable pub handle_request_error : Err → Result
handle_request_error err = record {
  res = none;
  err = some (wrapped (codes "http request failed") err);
}

unfoldable pub handle_circuit_breaker_error : Err → Result
handle_circuit_breaker_error err = record { res = none; err = some err }
