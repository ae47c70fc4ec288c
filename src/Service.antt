-- ===== src/Service.antt =====
-- vecto.go: Vecto.Request, from the options of a call to the response, with everything that it tells
-- the caller's objects on the way. Log lines are without their fields.
-- Requests and responses that the middleware sees are objects of the store `S`, known by pointers
-- `Req` and `Res`. `none` is a panic, a call that never returns, or too little fuel for its retries.
pub mod Recorded
pub mod Settled
pub mod Blocking
pub mod Returning
pub mod Logged
pub mod Metered
pub mod Guarded
pub mod Origin
pub mod Quiet
use vecto.Call.{
  Objects, CallEnv, Effect, recorded, dispatched, debugged, logged, CallOutcome, Libraries,
}
use vecto.Base.{
  ℕ, ℤ, ◌-ℤ◌, Bool, true, false, Option, none, some, List, [], ◌∷◌, ◌++◌, Bytes, codes, map, set,
  get_elem?, if◌then◌else◌, get_or,
}
use vecto.Breaker.{Time, Duration, CircuitBreaker, allow_request}
use vecto.Breaker.Manager.{CircuitBreakerManager, get_or_create}
use vecto.Channels.{ChannelEnv, Dispatched, dispatch}
use vecto.Config.{Config}
use vecto.Debug.{Printing, write_debug_output}
use vecto.Handler.{get_or_set_circuit_breaker_key, get_retry_config, execute_request}
use vecto.Http.{Request, Response, Err, wrapped, breaker_error, Result}
use vecto.Logger.{LogLevel, log_debug, log_info, log_warn, log_error, unless_noop}
use vecto.Metrics.{RequestMetrics, record_metrics, record_metrics_with_fallback}
use vecto.Middleware.{MiddlewareCollection, intercept_request, intercept_response}
use vecto.NewRequest.{RequestOptions, new_request}
use vecto.Pipeline.{Served, ended, goes_on, serve_guarded, serve_unguarded}
use vecto.QueryStruct.{FloatLib}
use vecto.Request.{HttpLib}
use vecto.Retry.{RetryConfig, TimeLib}
use vecto.Retry.Execute.{RetryEnv, Outcome}
use vecto.Validation.{Unicode}

module _ {S Req Res : Type 0} (libs : Libraries) (objects : Objects S Req Res)
    (middleware : MiddlewareCollection S Req Res) (config : Config) (env : CallEnv S Req) where
  open objects use {request_at, write_request, put_request, response_at, put_response}

  abbrev metrics : Option Request → Option Response → Time → Option Err → List Effect
  metrics req res end err =
      map recorded (record_metrics config.metrics_collector req res (end -ℤ env.started) err)

  abbrev outcome : Result → S → Option CircuitBreakerManager → List Effect → Option (CallOutcome S)
  outcome r s manager effects =
      some (record { result = r; store = s; manager = manager; effects = effects })

  -- A line of the log, if the logger writes any.
  abbrev log : LogLevel → Bytes → List Effect
  log level message = map logged (unless_noop env.noop level message)

  -- What was told before the rest of the call.
  abbrev first : List Effect → Option (CallOutcome S) → Option (CallOutcome S)
  first before none = none
  first before (some out) = some (record out { effects = before ++ out.effects })

  abbrev failure : Err → Result
  failure err = record { res = none; err = some err }

  -- v.config.ValidateStatus; `concluded` panics where it is nil and is called.
  abbrev pub validate_status : Option Response → Bool
  validate_status res = elim config.validate_status [ none ↦ false | some f ↦ f res ]

  -- From the response middleware on. A nil response panics when it is dispatched.
  unfoldable pub complete :
      S → Option CircuitBreakerManager → Req → Response → Option (CallOutcome S)
  complete s manager p res =
      let (s1, q) = put_response s res in
      let (s2, result, err) = intercept_response middleware s1 (some q) in
      let told = metrics (request_at s2 p) (some (response_at s2 q)) env.measured err in
      elim err [
        | some e ↦
            outcome (failure (wrapped (codes "response middleware failed") e)) s2 manager
              (log log_error (codes "response middleware failed") ++ told)
        | none ↦ elim result [
          | none ↦ none
          | some q' ↦
              let r = response_at s2 q' in
              let text =
                if config.debug_mode
                then write_debug_output libs.printing config env.noop (request_at s2 p) (some r)
                else [] in
              elim (dispatch env.channels (some r)) [
                | none ↦ none
                | some ds ↦
                    outcome (record { res = some r; err = none }) s2 manager
                      (map debugged text
                        ++ (map dispatched ds
                            ++ metrics (request_at s2 p) (some r) env.measured none))
              ]
        ]
      ]

  -- The error that the handler records: it wraps that of the client, and a breaker's own it returns as
  -- it is.
  abbrev cause : Option Err → Option Err
  cause (some (wrapped reason err)) = some err
  cause err = err

  -- The line of handleRequestError, or of handleCircuitBreakerError.
  abbrev ending : Option Err → List Effect
  ending (some (breaker_error state key)) =
      log log_warn (codes "request blocked by circuit breaker")
  ending err = log log_error (codes "http request failed")

  unfoldable pub concluded :
      S → Option CircuitBreakerManager → Req → Option Served → Option (CallOutcome S)
  concluded s manager p none = none
  concluded s manager p (some (ended r)) =
      outcome r s manager (ending r.err ++ metrics (request_at s p) none env.failed (cause r.err))
  concluded s manager p (some (goes_on res)) = elim config.validate_status [
    | none ↦ none
    | some f ↦ first (log log_info (codes "request completed")) (complete s manager p res)
  ]

  -- executeRequest; without an end it has neither a response nor an error.
  unfoldable pub answer : S → Req → Option RetryConfig → Option CircuitBreaker → Result
  answer s p retry breaker =
      elim (execute_request libs.float_to_duration libs.times (env.network s p) retry breaker
        libs.fuel) [ none ↦ record { res = none; err = none } | some out ↦ out.result ]

  -- With circuit breakers: the key, the breaker, and the call that it guards.
  unfoldable pub guarded :
      S → CircuitBreakerManager → Req → Option RetryConfig → Option (CallOutcome S)
  guarded s m p retry = elim (request_at s p) [
    | none ↦ none
    | some req ↦ elim (get_or_set_circuit_breaker_key req) [
      | none ↦ none
      | some (key, req') ↦
          let s1 = write_request s p req' in
          let (m1, a) = get_or_create m key none env.asked env.meanwhile in
          elim (get_elem? m1.heap a) [
            | none ↦ none
            | some breaker ↦
                let s2 = if (allow_request breaker env.asked).1 then env.attempted s1 p else s1 in
                elim (serve_guarded validate_status breaker env.asked
                  (λ b. (answer s1 p retry (some b), env.others b)) env.returned env.finished) [
                    | none ↦ none
                    | some (served, last) ↦
                        concluded s2 (some (record m1 { heap = set m1.heap a last })) p
                          (some served)
                  ]
          ]
    ]
  ]

  -- A nil request panics in the client.
  unfoldable pub served_by :
      S → Option CircuitBreakerManager → Req → Option RetryConfig → Option (CallOutcome S)
  served_by s (some m) p retry = guarded s m p retry
  served_by s none p retry = elim (request_at s p) [
    | none ↦ none
    | some req ↦
        concluded (env.attempted s p) none p
          (serve_unguarded validate_status (answer s p retry none))
  ]

  -- From the new request on.
  unfoldable pub handled :
      S → Option CircuitBreakerManager → Request → Option ℤ → Option (CallOutcome S)
  handled s manager req max_retries = elim config.adapter [
    | some adapter ↦
        let r = adapter req in outcome r s manager (metrics (some req) r.res env.measured r.err)
    | none ↦
        let (s1, p) = put_request s req in
        let (s2, q, err) = intercept_request middleware s1 p in
        elim err [
          | some e ↦ outcome (failure (wrapped (codes "request middleware failed") e)) s2 manager (
              log log_error (codes "request middleware failed")
              ++ metrics (request_at s2 q) none env.failed (some e))
          | none ↦ served_by s2 manager q (get_retry_config config.retry max_retries)
        ]
  ]

  unfoldable pub request :
      S
      → Option CircuitBreakerManager
      → Bytes
      → Bytes
      → Option RequestOptions
      → Option (CallOutcome S)
  request s manager url method options =
      let (req, err) = new_request libs.http libs.floats libs.unicode config url method options in
      elim err [
        | some e ↦ outcome (failure (wrapped (codes "failed to create request") e)) s manager (
            log log_error (codes "failed to create request")
            ++ map recorded (
                record_metrics_with_fallback config.metrics_collector method url none none
                  (env.failed -ℤ env.started) (some e)))
        | none ↦ elim req [
          | none ↦ none
          | some r ↦
              first (log log_debug (codes "request created"))
                (handled s manager r (elim options [ none ↦ none | some o ↦ o.max_retries ]))
        ]
      ]

  -- The methods of HTTP.
  abbrev Verb : Type 0
  Verb = S → Option CircuitBreakerManager → Bytes → Option RequestOptions → Option (CallOutcome S)

  abbrev pub post : Verb
  post s manager url o = request s manager url (codes "POST") o

  abbrev pub patch : Verb
  patch s manager url o = request s manager url (codes "PATCH") o

  abbrev pub put : Verb
  put s manager url o = request s manager url (codes "PUT") o

  abbrev pub get : Verb
  get s manager url o = request s manager url (codes "GET") o

  abbrev pub delete : Verb
  delete s manager url o = request s manager url (codes "DELETE") o

  abbrev pub head : Verb
  head s manager url o = request s manager url (codes "HEAD") o

  abbrev pub options : Verb
  options s manager url o = request s manager url (codes "OPTIONS") o
