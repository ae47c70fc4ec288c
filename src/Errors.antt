-- ===== src/Errors.antt =====
-- errors.go and the errors of the other sources: texts of the library's own errors, what Unwrap
-- reaches, and the dynamic types that the retry code asks for.
use vecto.Base.{Bool, true, false, Option, none, some, ◌++◌, Bytes, codes, decimal}
use vecto.BreakerState.{CircuitBreakerState, state_string}
use vecto.Http.{
  Err, message, wrapped, response_error, response_error_with_cause, breaker_error, url_error,
  net_error,
}

-- (*CircuitBreakerError).Error
unfoldable pub breaker_error_text : CircuitBreakerState → Bytes → Bytes
breaker_error_text state key =
    codes "circuit breaker is " ++ (state_string state ++ (codes " for key: " ++ key))

-- `foreign_text` is the Error method of errors of other code.
module _ (foreign_text : Err → Bytes) where
  -- The Error methods; fmt.Errorf("text: %w", err) is `wrapped text err`.
  unfoldable pub error_text : Err → Bytes
  unfolding breaker_error_text
  error_text (message text) = text
  error_text (wrapped text err) = text ++ (codes ": " ++ error_text err)
  error_text (response_error none) = codes "request failed"
  error_text (response_error (some r)) =
      codes "request failed: " ++ (decimal r.status_code ++ (codes " - " ++ r.body))
  error_text (response_error_with_cause none err) = codes "request failed: " ++ error_text err
  error_text (response_error_with_cause (some r) err) =
      codes "request failed: "
      ++ (decimal r.status_code ++ (codes " - " ++ (r.body ++ (codes ": " ++ error_text err))))
  error_text (breaker_error state key) = breaker_error_text state key
  error_text err = foreign_text err

-- errors.Unwrap
unfoldable pub unwrap : Err → Option Err
unwrap (wrapped text err) = some err
unwrap (response_error_with_cause r err) = some err
unwrap err = none

-- `err.(net.Error)`: a *url.Error is one, since it has Timeout and Temporary.
unfoldable pub is_net_error : Err → Bool
is_net_error (net_error n) = true
is_net_error (url_error n) = true
is_net_error err = false

-- `err.(*url.Error)`
unfoldable pub is_url_error : Err → Bool
is_url_error (url_error n) = true
is_url_error err = false
