-- ===== src/Service/Settled.antt =====
-- vecto.go: how a call of Vecto.Request ends.
use vecto.Base.{
  ℕ, suc, ℤ, Bool, ◌≡◌, refl, ◌⊎◌, inl, true, Option, none, some, List, [], ◌∷◌, map, Bytes,
  is_some, arith,
}
use mathlib.Core.Path.{subst}
use vecto.Breaker.{Time, CircuitBreaker}
use vecto.Breaker.Manager.{CircuitBreakerManager}
use vecto.Config.{Config}
use vecto.Http.{
  Request, Response, Err, message, wrapped, response_error, response_error_with_cause,
  breaker_error, url_error, net_error, foreign, Result,
}
use vecto.Metrics.{RequestMetrics}
use vecto.Middleware.{MiddlewareCollection}
use vecto.NewRequest.{RequestOptions}
use vecto.Pipeline.{Served, ended, goes_on, handle_error, serve_guarded, serve_unguarded}
use vecto.Retry.{RetryConfig}
use vecto.Call.{Objects, CallEnv, Effect, recorded, dispatched, CallOutcome, Libraries}
use vecto.Service.{complete, concluded, guarded, served_by, handled, request}

-- How many offers to channels there are among the effects.
abbrev pub offers : List Effect → ℕ
offers [] = 0
offers (dispatched d ∷ es) = suc (offers es)
offers (_ ∷ es) = offers es

offers-recorded : (ms : List RequestMetrics) → offers (map recorded ms) ≡ 0
offers-recorded [] = refl
offers-recorded (m ∷ ms) = offers-recorded ms

abbrev pub IsFailure : Result → Type 0
IsFailure r = (r.res ≡ none) × (is_some r.err ≡ true)

abbrev pub IsSuccess : Result → Type 0
IsSuccess r = (is_some r.res ≡ true) × (r.err ≡ none)

-- A failure without any offer to a channel, or a success.
abbrev pub Settled : {S : Type 0} → Option (CallOutcome S) → Type 0
Settled none = Unit
Settled (some out) = (IsFailure out.result × (offers out.effects ≡ 0)) ⊎ IsSuccess out.result

abbrev pub Fails : Option Served → Type 0
Fails (some (ended r)) = IsFailure r
Fails _ = Unit

handle_error-IsFailure : (e : Err) → IsFailure (handle_error e)
unfolding handle_error
handle_error-IsFailure (breaker_error state key) = (refl, refl)
handle_error-IsFailure (message s) = (refl, refl)
handle_error-IsFailure (wrapped s e) = (refl, refl)
handle_error-IsFailure (response_error r) = (refl, refl)
handle_error-IsFailure (response_error_with_cause r e) = (refl, refl)
handle_error-IsFailure (url_error n) = (refl, refl)
handle_error-IsFailure (net_error n) = (refl, refl)
handle_error-IsFailure (foreign n) = (refl, refl)

pub serve_unguarded-Fails :
    (validate_status : Option Response → Bool) (r : Result)
    → Fails (serve_unguarded validate_status r)
unfolding serve_unguarded
serve_unguarded-Fails validate_status r = ground arith

abbrev pub served_part : Option (Served × CircuitBreaker) → Option Served
served_part none = none
served_part (some (served, last)) = some served

pub serve_guarded-Fails :
    (validate_status : Option Response → Bool) (breaker : CircuitBreaker) (now : Time)
    (send : CircuitBreaker → Result × CircuitBreaker) (returned finished : Time)
    → Fails (served_part (serve_guarded validate_status breaker now send returned finished))
unfolding serve_guarded
serve_guarded-Fails validate_status breaker now send returned finished =
    grind (arith, handle_error-IsFailure)

module _ {S Req Res : Type 0} (libs : Libraries) (objects : Objects S Req Res)
    (middleware : MiddlewareCollection S Req Res) (config : Config) (env : CallEnv S Req) where
  complete-Settled :
      (s : S) (manager : Option CircuitBreakerManager) (p : Req) (res : Response)
      → Settled (complete libs objects middleware config env s manager p res)
  unfolding complete
  complete-Settled s manager p res = grind (arith, offers-recorded)

  concluded-Settled :
      (s : S) (manager : Option CircuitBreakerManager) (p : Req) (served : Option Served)
      → Fails served
      → Settled (concluded libs objects middleware config env s manager p served)
  unfolding concluded
  concluded-Settled s manager p none h = tt
  concluded-Settled s manager p (some (ended r)) h = inl (h, grind (arith, offers-recorded))
  concluded-Settled s manager p (some (goes_on res)) h =
      ground (arith, complete-Settled s manager p res)

  guarded-Settled :
      (s : S) (m : CircuitBreakerManager) (p : Req) (retry : Option RetryConfig)
      → Settled (guarded libs objects middleware config env s m p retry)
  unfolding guarded
  guarded-Settled s m p retry = grind (arith, concluded-Settled, serve_guarded-Fails)

  served_by-Settled :
      (s : S) (manager : Option CircuitBreakerManager) (p : Req) (retry : Option RetryConfig)
      → Settled (served_by libs objects middleware config env s manager p retry)
  unfolding served_by
  served_by-Settled s none p retry = grind (arith, concluded-Settled, serve_unguarded-Fails)
  served_by-Settled s (some m) p retry = guarded-Settled s m p retry

  handled-Settled :
      (s : S) (manager : Option CircuitBreakerManager) (req : Request) (max_retries : Option ℤ)
      → config.adapter ≡ none
      → Settled (handled libs objects middleware config env s manager req max_retries)
  unfolding handled
  handled-Settled s manager req max_retries h = grind (arith, served_by-Settled, offers-recorded)

  request_always-Settled :
      (s : S) (manager : Option CircuitBreakerManager) (url method : Bytes)
      (options : Option RequestOptions)
      → config.adapter ≡ none
      → Settled (request libs objects middleware config env s manager url method options)
  unfolding request
  request_always-Settled s manager url method options h =
      grind (arith, handled-Settled, offers-recorded)

  -- Without an adapter a call that returns has either an error and no response, and has offered nothing
  -- to the channels, or a response and no error.
  pub request-settles :
      (s : S) (manager : Option CircuitBreakerManager) (url method : Bytes)
      (options : Option RequestOptions) (out : CallOutcome S)
      → config.adapter ≡ none
      → request libs objects middleware config env s manager url method options ≡ some out
      → (IsFailure out.result × (offers out.effects ≡ 0)) ⊎ IsSuccess out.result
  request-settles s manager url method options out h e =
      subst Settled e (request_always-Settled s manager url method options h)
