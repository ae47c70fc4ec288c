-- ===== src/Service/Returning.antt =====
-- vecto.go: a call of Vecto.Request without circuit breakers.
use vecto.Base.{
  ℕ, zero, suc, ℤ, pos, ◌≡◌, ◌≤◌, ◌||◌, refl, Bool, true, false, Option, none, some, Bytes, is_some,
  arith, Option-cases, inl, inr,
}
use vecto.Breaker.{Duration}
use vecto.Breaker.Manager.{CircuitBreakerManager}
use vecto.Channels.{dispatch}
use vecto.Channels.Delivery.{IsUnclosed, dispatch-returns}
use vecto.Config.{Config}
use vecto.Handler.{execute_request, get_retry_config, should_use_retry}
use vecto.Http.{Request, Response, Result}
use vecto.Middleware.{MiddlewareCollection, intercept_request, intercept_response}
use vecto.NewRequest.Sendable.{new_request-some}
use vecto.NewRequest.{RequestOptions, new_request}
use vecto.Pipeline.{Served, ended, goes_on, serve_unguarded, checked}
use vecto.Retry.{RetryConfig, TimeLib}
use vecto.Retry.Contract.{
  execute_with_retry-off, execute_with_retry-bounded, execute_with_retry-Stops,
}
use vecto.Retry.Execute.{RetryEnv, Outcome, give_up, succeeded}
use vecto.Retry.Loop.{Stops, success, refused, cancelled}
use vecto.Call.{Objects, CallEnv, CallOutcome, Libraries}
use vecto.Service.{validate_status, complete, concluded, answer, served_by, handled, request}

-- An error, or a response that carries its request.
abbrev pub carries : Option Response → Bool
carries none = false
carries (some res) = is_some res.request

abbrev pub IsAnswer : Result → Type 0
IsAnswer r = is_some r.err || carries r.res ≡ true

-- MaxAttempts is not negative, and the fuel covers it.
abbrev pub IsCovered : ℕ → Option RetryConfig → Type 0
IsCovered fuel none = Unit
IsCovered fuel (some config) = (m : ℕ) × (config.max_attempts ≡ pos m) × (m ≤ fuel)

module _ (float_to_duration : ℕ → Duration) (times : TimeLib) (net : RetryEnv) where
  Stops-IsAnswer :
      (config : RetryConfig) (n : ℕ) (r : Result)
      → IsAnswer (net.send n)
      → Stops float_to_duration times net config n r
      → IsAnswer r
  unfolding succeeded give_up
  Stops-IsAnswer config n r h (success good e) = ground arith
  Stops-IsAnswer config n r h (refused bad final e) = ground arith
  Stops-IsAnswer config n r h (cancelled x bad again why e) = ground arith

answered_by :
    (libs : Libraries) (net : RetryEnv) (config : Option RetryConfig)
    → ((n : ℕ) → IsAnswer (net.send n))
    → IsCovered libs.fuel config
    → (out : Outcome) × (execute_request libs.float_to_duration libs.times net config none libs.fuel
        ≡ some out)
      × IsAnswer out.result
unfolding execute_request should_use_retry
answered_by libs net none h c = (_, refl, h 1)
answered_by libs net (some config) h (zero, off, enough) =
    (_, execute_with_retry-off libs.float_to_duration libs.times net config libs.fuel off, h 1)
answered_by libs net (some config) h (suc m, limit, enough) =
    let (out, e, few, order) =
      execute_with_retry-bounded libs.float_to_duration libs.times net config libs.fuel m limit
        enough in
    (
      out,
      e,
      Stops-IsAnswer libs.float_to_duration libs.times net config out.attempts out.result
          (h out.attempts)
          (execute_with_retry-Stops libs.float_to_duration libs.times net config libs.fuel out
            (λ z. ground arith) e),
    )

abbrev goes_well : Option Served → Bool
goes_well none = false
goes_well (some (ended r)) = true
goes_well (some (goes_on res)) = is_some res.request

serve_unguarded-goes_well :
    (validate_status : Option Response → Bool) (r : Result)
    → IsAnswer r
    → goes_well (serve_unguarded validate_status r) ≡ true
unfolding serve_unguarded checked
serve_unguarded-goes_well validate_status r h = ground arith

-- A request that is there and has a transform.
abbrev pub sendable : Option Request → Bool
sendable none = false
sendable (some req) = is_some req.transform

-- The request middleware fails for the request, or gives back one that can be sent.
abbrev pub Prepares :
    {S Req Res : Type 0} → Objects S Req Res → MiddlewareCollection S Req Res → Request → Type 0
Prepares {S = S} objects middleware req =
    (s : S)
    → let (s1, p) = objects.put_request s req in
      let (s2, q, err) = intercept_request middleware s1 p in
      is_some err || sendable (objects.request_at s2 q) ≡ true

-- The response middleware gives back a response with its request, or an error, if what it gets has a
-- request.
abbrev pub KeepsRequests :
    {S Req Res : Type 0} → Objects S Req Res → MiddlewareCollection S Req Res → Type 0
KeepsRequests {S = S} objects middleware =
    (s : S) (res : Response)
    → is_some res.request ≡ true
    → let (s1, q) = objects.put_response s res in
      let (s2, after, err) = intercept_response middleware s1 (some q) in
      IsAnswer (record {
        res = elim after [ none ↦ none | some q' ↦ some (objects.response_at s2 q') ];
        err = err;
      })

module _ {S Req Res : Type 0} (libs : Libraries) (objects : Objects S Req Res)
    (middleware : MiddlewareCollection S Req Res) (config : Config) (env : CallEnv S Req) where
  complete-returns :
      (s : S) (manager : Option CircuitBreakerManager) (p : Req) (res : Response)
      → KeepsRequests objects middleware
      → IsUnclosed env.channels
      → is_some res.request ≡ true
      → is_some (complete libs objects middleware config env s manager p res) ≡ true
  unfolding complete
  complete-returns s manager p res keeps unclosed h =
      let kept = keeps s res h in
      let offered : (r : Response)
          → is_some r.request ≡ true
          → is_some (dispatch env.channels (some r)) ≡ true =
        λ r h. dispatch-returns env.channels r unclosed h in
      grind (arith, offered)

  concluded-returns :
      (s : S) (manager : Option CircuitBreakerManager) (p : Req) (served : Option Served)
      → KeepsRequests objects middleware
      → IsUnclosed env.channels
      → is_some config.validate_status ≡ true
      → goes_well served ≡ true
      → is_some (concluded libs objects middleware config env s manager p served) ≡ true
  unfolding concluded
  concluded-returns s manager p none keeps unclosed v h = absurd (ground arith)
  concluded-returns s manager p (some (ended r)) keeps unclosed v h = refl
  concluded-returns s manager p (some (goes_on res)) keeps unclosed v h =
      ground (arith, complete-returns s manager p res keeps unclosed h)

  -- Every request that can be sent is answered.
  abbrev pub Answers : Type 0
  Answers =
      (s : S) (p : Req)
      → sendable (objects.request_at s p) ≡ true
      → (n : ℕ) → IsAnswer ((env.network s p).send n)

  served_by-returns :
      (s : S) (p : Req) (retry : Option RetryConfig)
      → KeepsRequests objects middleware
      → IsUnclosed env.channels
      → is_some config.validate_status ≡ true
      → Answers
      → sendable (objects.request_at s p) ≡ true
      → IsCovered libs.fuel retry
      → is_some (served_by libs objects middleware config env s none p retry) ≡ true
  unfolding served_by answer
  served_by-returns s p retry keeps unclosed v answers there covered =
      let (out, e, ok) = answered_by libs (env.network s p) retry (answers s p there) covered in
      let returns =
        concluded-returns (env.attempted s p) none p
          (serve_unguarded (validate_status libs objects middleware config env)
            (answer libs objects middleware config env s p retry none))
          keeps unclosed v (serve_unguarded-goes_well _ _ (rw (answer, e) ok)) in
      ground arith

  handled-returns :
      (s : S) (req : Request) (max_retries : Option ℤ)
      → Prepares objects middleware req
      → KeepsRequests objects middleware
      → IsUnclosed env.channels
      → is_some config.validate_status ≡ true
      → Answers
      → IsCovered libs.fuel (get_retry_config config.retry max_retries)
      → is_some (handled libs objects middleware config env s none req max_retries) ≡ true
  unfolding handled
  handled-returns s req max_retries prepares keeps unclosed v answers covered =
      let ready = prepares s in grind (arith, served_by-returns)

  pub request-returns :
      (s : S) (url method : Bytes) (options : Option RequestOptions)
      → ((req : Request)
          → (new_request libs.http libs.floats libs.unicode config url method options).0 ≡ some req
          → Prepares objects middleware req)
      → KeepsRequests objects middleware
      → IsUnclosed env.channels
      → is_some config.validate_status ≡ true
      → Answers
      → IsCovered libs.fuel
          (get_retry_config config.retry (elim options [ none ↦ none | some o ↦ o.max_retries ]))
      → (out : CallOutcome S) × (request libs objects middleware config env s none url method
            options
          ≡ some out)
  unfolding request
  request-returns s url method options prepares keeps unclosed v answers covered =
      let made = new_request-some libs.http libs.floats libs.unicode config url method options in
      let returns : is_some (request libs objects middleware config env s none url method options)
          ≡ true =
        elim (Option-cases
          (new_request libs.http libs.floats libs.unicode config url method options).0) [
            | inl no_request ↦ ground arith
            | inr (req, e) ↦
                let handles =
                  handled-returns s req _ (prepares req e) keeps unclosed v answers covered in
                ground arith
          ] in
      elim (Option-cases (request libs objects middleware config env s none url method options)) [
        | inl never ↦ absurd (ground arith)
        | inr (out, e) ↦ (out, e)
      ]
