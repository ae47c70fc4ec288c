-- ===== src/Service/Origin.antt =====
-- vecto.go: where the response comes from that a call of Vecto.Request returns.
use vecto.Base.{
  ℕ, ℤ, ◌≡◌, sym, ◌∙◌, ap, Option, none, some, [], Bytes, arith, Option-cases, get_or, inl, inr,
}
use vecto.Breaker.{CircuitBreaker}
use vecto.Breaker.Manager.{CircuitBreakerManager}
use vecto.Call.{KeepsResponses, Objects, CallEnv, CallOutcome, Libraries}
use vecto.Config.{Config}
use vecto.Handler.{execute_request, get_retry_config}
use vecto.Http.{Request, Response, Result}
use vecto.Middleware.{MiddlewareCollection, intercept_request, intercept_response}
use vecto.NewRequest.{RequestOptions, new_request}
use vecto.Pipeline.{Served, ended, goes_on, serve_unguarded, checked}
use vecto.Retry.{RetryConfig}
use vecto.Handler.Answers.{execute_request-res}
use vecto.Pipeline.Sources.{serve_unguarded-goes_on, serve_guarded-goes_on}
use vecto.Service.Guarded.{guarded-concluded}
use vecto.Service.Settled.{Fails, serve_unguarded-Fails, serve_guarded-Fails}
use vecto.Service.{
  complete, concluded, answer, validate_status, guarded, served_by, handled, request,
}

module _ {S Req Res : Type 0} (libs : Libraries) (objects : Objects S Req Res)
    (middleware : MiddlewareCollection S Req Res) (config : Config) (env : CallEnv S Req) where
  -- A response that the network gave, with the success that the configuration finds.
  abbrev pub CameFromNetwork : Response → Type 0
  CameFromNetwork res' =
      (s : S) × (p : Req) × (n : ℕ) × (res : Response) × (((env.network s p).send n).res ≡ some res)
      × (res' ≡ checked (validate_status libs objects middleware config env) res)

  answer-res :
      (s : S) (p : Req) (retry : Option RetryConfig) (breaker : Option CircuitBreaker)
      (res : Response)
      → (answer libs objects middleware config env s p retry breaker).res ≡ some res
      → (n : ℕ) × (((env.network s p).send n).res ≡ some res)
  unfolding answer
  answer-res s p retry breaker res h =
      let net = env.network s p in
      elim (Option-cases
        (execute_request libs.float_to_duration libs.times net retry breaker libs.fuel)) [
          | inl lost ↦ absurd (ground arith)
          | inr (out, e) ↦
              let (n, same) =
                execute_request-res libs.float_to_duration libs.times net retry breaker libs.fuel
                  out e in
              (n, ground arith)
        ]

  complete-res :
      (s : S) (manager : Option CircuitBreakerManager) (p : Req) (res res' : Response)
      (out : CallOutcome S)
      → middleware.response_mw ≡ []
      → objects.response_at (objects.put_response s res).0 (objects.put_response s res).1 ≡ res
      → complete libs objects middleware config env s manager p res ≡ some out
      → out.result.res ≡ some res'
      → res' ≡ res
  unfolding complete intercept_response
  complete-res s manager p res res' out none_mw stored h e = ground arith

  concluded-res :
      (s : S) (manager : Option CircuitBreakerManager) (p : Req) (served : Option Served)
      (res' : Response) (out : CallOutcome S)
      → Fails served
      → middleware.response_mw ≡ []
      → KeepsResponses objects
      → concluded libs objects middleware config env s manager p served ≡ some out
      → out.result.res ≡ some res'
      → served ≡ some (goes_on res')
  unfolding concluded
  concluded-res s manager p none res' out f none_mw stored h e = absurd (ground arith)
  concluded-res s manager p (some (ended r)) res' out f none_mw stored h e = absurd (ground arith)
  concluded-res s manager p (some (goes_on res)) res' out f none_mw stored h e =
      elim (Option-cases config.validate_status) [
        | inl unset ↦ absurd (ground arith)
        | inr (v, checks) ↦
            elim (Option-cases (complete libs objects middleware config env s manager p res)) [
              | inl panics ↦ absurd (ground arith)
              | inr (out', ends) ↦
                  let same =
                    complete-res s manager p res res' out' none_mw (stored s res) ends
                      (ground arith) in
                  ap (λ r. some (goes_on r)) (sym same)
            ]
      ]

  unguarded-CameFromNetwork :
      (s : S) (p : Req) (retry : Option RetryConfig) (res' : Response) (out : CallOutcome S)
      → middleware.response_mw ≡ []
      → KeepsResponses objects
      → served_by libs objects middleware config env s none p retry ≡ some out
      → out.result.res ≡ some res'
      → CameFromNetwork res'
  unfolding served_by
  unguarded-CameFromNetwork s p retry res' out none_mw stored h e =
      let v = validate_status libs objects middleware config env in
      let r = answer libs objects middleware config env s p retry none in
      let on =
        concluded-res (env.attempted s p) none p (serve_unguarded v r) res' out
          (serve_unguarded-Fails v r) none_mw stored (ground arith) e in
      let (res, gave, same) = serve_unguarded-goes_on v r res' on in
      let (n, sent) = answer-res s p retry none res gave in (s, p, n, res, sent, same)

  guarded-CameFromNetwork :
      (s : S) (m : CircuitBreakerManager) (p : Req) (retry : Option RetryConfig) (res' : Response)
      (out : CallOutcome S)
      → middleware.response_mw ≡ []
      → KeepsResponses objects
      → guarded libs objects middleware config env s m p retry ≡ some out
      → out.result.res ≡ some res'
      → CameFromNetwork res'
  unfolding guarded
  guarded-CameFromNetwork s m p retry res' out none_mw stored h e =
      let v = validate_status libs objects middleware config env in
      let (s1, s2, m', breaker, served, last, ran, ends) =
        guarded-concluded libs objects middleware config env s m p retry out h in
      let send : CircuitBreaker → Result × CircuitBreaker =
        λ b. (answer libs objects middleware config env s1 p retry (some b), env.others b) in
      let on =
        concluded-res s2 (some m') p (some served) res' out
          (rw ran at (serve_guarded-Fails v breaker env.asked send env.returned env.finished))
          none_mw stored ends e in
      let (b, res, gave, same) =
        serve_guarded-goes_on v breaker env.asked send env.returned env.finished res' last
          (ran ∙ ap (λ o. some (get_or o (goes_on res'), last)) on) in
      let (n, sent) = answer-res s1 p retry (some b) res gave in (s1, p, n, res, sent, same)

  served_by-CameFromNetwork :
      (s : S) (manager : Option CircuitBreakerManager) (p : Req) (retry : Option RetryConfig)
      (res' : Response) (out : CallOutcome S)
      → middleware.response_mw ≡ []
      → KeepsResponses objects
      → served_by libs objects middleware config env s manager p retry ≡ some out
      → out.result.res ≡ some res'
      → CameFromNetwork res'
  served_by-CameFromNetwork s none p retry res' out none_mw stored h e =
      unguarded-CameFromNetwork s p retry res' out none_mw stored h e
  served_by-CameFromNetwork s (some m) p retry res' out none_mw stored h e =
      guarded-CameFromNetwork s m p retry res' out none_mw stored (unfold served_by in h) e

  handled-CameFromNetwork :
      (s : S) (manager : Option CircuitBreakerManager) (req : Request) (max_retries : Option ℤ)
      (res' : Response) (out : CallOutcome S)
      → config.adapter ≡ none
      → middleware.response_mw ≡ []
      → KeepsResponses objects
      → handled libs objects middleware config env s manager req max_retries ≡ some out
      → out.result.res ≡ some res'
      → CameFromNetwork res'
  unfolding handled
  handled-CameFromNetwork s manager req max_retries res' out direct none_mw stored h e =
      let (s1, p) = objects.put_request s req in
      let (s2, q, err) = intercept_request middleware s1 p in
      elim (Option-cases err) [
        | inl fine ↦
            served_by-CameFromNetwork s2 manager q (get_retry_config config.retry max_retries) res'
              out none_mw stored (ground arith) e
        | inr (why, failed) ↦ absurd (ground arith)
      ]

  -- Without an adapter and without response middleware, a response that a call returns is one that the
  -- network gave to an attempt, changed only in the success that ValidateStatus finds: if the store
  -- gives back the responses that are put into it.
  pub request-CameFromNetwork :
      (s : S) (manager : Option CircuitBreakerManager) (url method : Bytes)
      (options : Option RequestOptions) (res' : Response) (out : CallOutcome S)
      → config.adapter ≡ none
      → middleware.response_mw ≡ []
      → KeepsResponses objects
      → request libs objects middleware config env s manager url method options ≡ some out
      → out.result.res ≡ some res'
      → CameFromNetwork res'
  unfolding request
  request-CameFromNetwork s manager url method options res' out direct none_mw stored h e =
      let (made, err) = new_request libs.http libs.floats libs.unicode config url method options in
      elim (Option-cases err) [
        | inr (why, failed) ↦ absurd (ground arith)
        | inl fine ↦ elim (Option-cases made) [
          | inl lost ↦ absurd (ground arith)
          | inr (req, e') ↦
              let n : Option ℤ = elim options [ none ↦ none | some o ↦ o.max_retries ] in
              elim (Option-cases (handled libs objects middleware config env s manager req n)) [
                | inl panics ↦ absurd (ground arith)
                | inr (out', ends) ↦
                    handled-CameFromNetwork s manager req n res' out' direct none_mw stored ends
                      (ground arith)
              ]
        ]
      ]
