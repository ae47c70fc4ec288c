-- ===== src/Retry/Policy.antt =====
-- retry.go: ValidateRetryConfig, and the waits that a valid configuration leads to.
use vecto.Base.{
  ℕ, ℤ, pos, negsuc, ◌≤ℤ◌, ◌<ℤ◌, ◌≡◌, refl, ◌↔◌, ◌⊎◌, false, Option, none, some, arith, ◌&&◌, ◌||◌,
  not,
}
use vecto.Breaker.{Time, Duration, default_should_trip}
use vecto.Http.{Response, Err}
use vecto.Response.{is_server_error, is_success, is_client_error}
use vecto.Retry.{
  RetryConfig, BackoffFunc, TimeLib, exponential_backoff, linear_backoff, fixed_backoff,
  backoff_wait, get_retry_wait_time, parse_retry_after_header, validate_retry_config,
  default_retry_condition,
}
use vecto.Retry.Backoff.{capped-le, exponential_backoff-le, linear_backoff-le, fixed_backoff-le}

pub record IsWellFormed (c : RetryConfig) : Type 0 where
  pub attempts : negsuc 0 ≤ℤ c.max_attempts
  pub wait_nonneg : pos 0 ≤ℤ c.wait_time
  pub max_nonneg : pos 0 ≤ℤ c.max_wait_time
  pub ordered : (c.max_wait_time ≡ pos 0) ⊎ (c.wait_time ≤ℤ c.max_wait_time)

-- ValidateRetryConfig accepts exactly the configurations with MaxAttempts at least -1, waits that are
-- not negative, and WaitTime at most MaxWaitTime where that is set.
pub validate_retry_config_iff :
    (c : RetryConfig) → (validate_retry_config (some c) ≡ none) ↔ IsWellFormed c
unfolding validate_retry_config
validate_retry_config_iff c = (λ h. ground arith, λ w. ground arith)

-- The backoff strategies of the library.
pub data IsStandard (float_to_duration : ℕ → Duration) : Option BackoffFunc → Type 0 where
  default : IsStandard float_to_duration none
  exponential :
      {b : BackoffFunc}
      → b ≡ exponential_backoff float_to_duration
      → IsStandard float_to_duration (some b)
  linear : {b : BackoffFunc} → b ≡ linear_backoff → IsStandard float_to_duration (some b)
  fixed : {b : BackoffFunc} → b ≡ fixed_backoff → IsStandard float_to_duration (some b)

module _ (float_to_duration : ℕ → Duration) (lib : TimeLib) where
  standard-le :
      (b : Option BackoffFunc) (attempt : ℤ) (config : RetryConfig)
      → IsStandard float_to_duration b
      → config.backoff ≡ b
      → pos 0 <ℤ config.wait_time
      → config.wait_time ≤ℤ config.max_wait_time
      → backoff_wait float_to_duration lib attempt config ≤ℤ config.max_wait_time
  unfolding backoff_wait
  standard-le _ attempt config default e h k =
      ground (arith, exponential_backoff-le float_to_duration attempt config.times)
  standard-le _ attempt config (exponential s) e h k =
      ground (arith, exponential_backoff-le float_to_duration attempt config.times)
  standard-le _ attempt config (linear s) e h k =
      ground (arith, linear_backoff-le attempt config.times)
  standard-le _ attempt config (fixed s) e h k =
      ground (arith, fixed_backoff-le attempt config.times)

  -- With a configuration that the validation accepts and that has no RetryAfter function of the caller,
  -- with positive WaitTime and MaxWaitTime and a backoff of the library, no wait passes MaxWaitTime:
  -- neither one of the backoff nor one that a Retry-After header asks.
  pub get_retry_wait_time-le :
      (attempt : ℤ) (config : RetryConfig) (res : Option Response) (err : Option Err) (now : Time)
      → validate_retry_config (some config) ≡ none
      → config.retry_after ≡ none
      → IsStandard float_to_duration config.backoff
      → pos 0 <ℤ config.wait_time
      → pos 0 <ℤ config.max_wait_time
      → get_retry_wait_time float_to_duration lib attempt (some config) res err now
        ≤ℤ config.max_wait_time
  unfolding get_retry_wait_time
  get_retry_wait_time-le attempt config res err now valid plain standard h k =
      let w = (validate_retry_config_iff config).0 valid in
      let ordered : config.wait_time ≤ℤ config.max_wait_time = ground arith in
      ground (
        arith,
        standard-le config.backoff attempt config standard refl h ordered,
        capped-le config.times (parse_retry_after_header lib res now),
      )

-- The default conditions agree on what a failure is. An answer without an error: if it is a server
-- error it is both retried and counted by the breaker, if it is a success neither, and if it is
-- retried it is counted or a client error.
pub conditions_agree :
    (res : Option Response)
    → (is_server_error res && not (default_retry_condition res none && default_should_trip res none)
        ≡ false)
      × (is_success res && (default_retry_condition res none || default_should_trip res none)
          ≡ false)
      × (default_retry_condition res none
            && not (default_should_trip res none || is_client_error res)
          ≡ false)
unfolding default_retry_condition default_should_trip is_server_error is_success is_client_error
conditions_agree none = ground arith
conditions_agree (some r) = ground arith
