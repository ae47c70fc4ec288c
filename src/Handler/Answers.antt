-- ===== src/Handler/Answers.antt =====
-- request_handler.go, retry.go: the response of executeRequest is that of an attempt.
use vecto.Base.{ℕ, pos, ◌≡◌, ◌&&◌, Option, none, some, leb_ℤ, arith, Bool-cases, inl, inr}
use vecto.Breaker.{Duration, CircuitBreaker}
use vecto.Handler.{execute_request, should_use_retry}
use vecto.Http.{Result}
use vecto.Retry.{RetryConfig, TimeLib}
use vecto.Retry.Contract.{execute_with_retry-Stops}
use vecto.Retry.Execute.{RetryEnv, Outcome, execute_with_retry, give_up, execute_configured}
use vecto.Retry.Loop.{Stops, success, refused, cancelled}

module _ (float_to_duration : ℕ → Duration) (times : TimeLib) (net : RetryEnv) where
  Stops-res :
      (config : RetryConfig) (n : ℕ) (r : Result)
      → Stops float_to_duration times net config n r
      → r.res ≡ (net.send n).res
  unfolding give_up
  Stops-res config n r (success good e) = ground arith
  Stops-res config n r (refused bad final e) = ground arith
  Stops-res config n r (cancelled x bad again why e) = ground arith

  execute_with_retry-res :
      (config : RetryConfig) (fuel : ℕ) (out : Outcome)
      → execute_with_retry float_to_duration times net (some config) fuel ≡ some out
      → (n : ℕ) × (out.result.res ≡ (net.send n).res)
  execute_with_retry-res config fuel out h =
      elim (Bool-cases (leb_ℤ config.max_attempts (pos 0) && leb_ℤ (pos 0) config.max_attempts)) [
        | inl off ↦ (1, unfold execute_with_retry execute_configured in ground arith)
        | inr on ↦ (
          out.attempts,
          Stops-res config out.attempts out.result (
              execute_with_retry-Stops float_to_duration times net config fuel out
                (λ z. ground arith) h),
        )
      ]

  pub execute_request-res :
      (config : Option RetryConfig) (breaker : Option CircuitBreaker) (fuel : ℕ) (out : Outcome)
      → execute_request float_to_duration times net config breaker fuel ≡ some out
      → (n : ℕ) × (out.result.res ≡ (net.send n).res)
  unfolding execute_request
  execute_request-res none breaker fuel out h = (1, ground arith)
  execute_request-res (some config) breaker fuel out h =
      elim (Bool-cases (should_use_retry breaker)) [
        | inl loops ↦ execute_with_retry-res config fuel out (ground arith)
        | inr once ↦ (1, ground arith)
      ]
