-- ===== src/Pipeline.antt =====
-- vecto.go: the part of Vecto.Request from the circuit breaker to the checked status.
pub mod Reports
pub mod Sources
use vecto.Base.{Bool, Option, none, some, List, []}
use vecto.Breaker.{Time, CircuitBreaker, execute, record_result}
use vecto.Handler.{handle_request_error, handle_circuit_breaker_error}
use vecto.Http.{
  Response, Err, message, wrapped, response_error, response_error_with_cause, breaker_error,
  url_error, net_error, foreign, Result,
}

-- `err.(*CircuitBreakerError)`, which does not look into wrapped errors.
unfoldable pub handle_error : Err → Result
unfolding handle_request_error handle_circuit_breaker_error
handle_error (breaker_error state key) = handle_circuit_breaker_error (breaker_error state key)
handle_error err = handle_request_error err

-- `res.success = v.config.ValidateStatus(res)`
unfoldable pub checked : (Option Response → Bool) → Response → Response
checked validate_status res = record res { success = validate_status (some res) }

-- What a request comes to: the error that is returned at once, or the response that goes on to the
-- response middleware.
pub data Served : Type 0 where
  ended : Result → Served
  goes_on : Response → Served

module _ (validate_status : Option Response → Bool) where
  -- Without circuit breakers. `none` is the panic of a nil response without an error.
  unfoldable pub serve_unguarded : Result → Option Served
  unfolding handle_request_error checked
  serve_unguarded r = elim r.err [
    | some err ↦ some (ended (handle_request_error err))
    | none ↦ elim r.res [ none ↦ none | some res ↦ some (goes_on (checked validate_status res)) ]
  ]

  -- With a breaker: `send` is executeRequest, which is given the breaker as the request is admitted
  -- and leaves it as other goroutines have changed it; `returned` and `finished` are the clock in the
  -- two places that record a result.
  unfoldable pub serve_guarded :
      CircuitBreaker
      → Time
      → (CircuitBreaker → Result × CircuitBreaker)
      → Time
      → Time
      → Option (Served × CircuitBreaker)
  unfolding execute record_result handle_error checked
  serve_guarded breaker now send returned finished =
      let (r, after) = execute breaker now send returned in
      elim r.err [
        | some err ↦ some (ended (handle_error err), after)
        | none ↦ elim r.res [
          | none ↦ none
          | some res ↦
              let res' = checked validate_status res in
              some (goes_on res', record_result after (some res') none finished)
        ]
      ]
