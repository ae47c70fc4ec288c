-- ===== src/Service/Metered.antt =====
-- vecto.go, metrics.go: what a call of Vecto.Request records, against what it returns.
use vecto.Base.{
  ℕ, ℤ, ◌≡◌, ◌⊎◌, true, false, length, Option, none, some, List, [], ◌∷◌, ◌++◌, map, Bytes, is_some,
  arith,
}
use mathlib.Core.Path.{subst}
use vecto.Breaker.{Duration}
use vecto.Breaker.Manager.{CircuitBreakerManager}
use vecto.Call.{Objects, CallEnv, Effect, recorded, dispatched, debugged, CallOutcome, Libraries}
use vecto.Channels.{Dispatched}
use vecto.Config.{Config}
use vecto.Http.{Request, Response, Err, Result}
use vecto.Metrics.{RequestMetrics, record_metrics, record_metrics_with_fallback}
use vecto.Middleware.{MiddlewareCollection}
use vecto.NewRequest.{RequestOptions}
use vecto.Pipeline.{Served, ended, goes_on}
use vecto.Retry.{RetryConfig}
use vecto.Service.{complete, concluded, guarded, served_by, handled, request}
use vecto.Service.Settled.{Fails, serve_unguarded-Fails, serve_guarded-Fails}

-- The status, the number of bytes and the success of a response; zeros without one.
abbrev pub Describes : RequestMetrics → Option Response → Type 0
Describes m none = (m.status_code ≡ 0) × (m.response_size ≡ 0) × (m.success ≡ false)
Describes m (some res) =
    (m.status_code ≡ res.status_code)
    × (m.response_size ≡ length res.body)
    × (m.success ≡ res.success)

-- An error is recorded exactly if one is returned; without one, the response is recorded that is
-- returned.
abbrev pub Agrees : RequestMetrics → Result → Type 0
Agrees m r = (is_some m.error ≡ is_some r.err) × ((is_some r.err ≡ true) ⊎ Describes m r.res)

abbrev pub AllAgree : List Effect → Result → Type 0
AllAgree [] r = Unit
AllAgree (recorded m ∷ es) r = Agrees m r × AllAgree es r
AllAgree (_ ∷ es) r = AllAgree es r

AllAgree-told :
    (ts : List Bytes) (ds : List Dispatched) (es : List Effect) (r : Result)
    → AllAgree es r
    → AllAgree (map debugged ts ++ (map dispatched ds ++ es)) r
AllAgree-told [] [] es r h = h
AllAgree-told [] (d ∷ ds) es r h = AllAgree-told [] ds es r h
AllAgree-told (t ∷ ts) ds es r h = AllAgree-told ts ds es r h

AllAgree-record_metrics :
    (collector : Option ℕ) (req : Option Request) (res : Option Response) (d : Duration)
    (err : Option Err) (r : Result)
    → is_some err ≡ is_some r.err
    → (is_some r.err ≡ true) ⊎ (res ≡ r.res)
    → AllAgree (map recorded (record_metrics collector req res d err)) r
unfolding record_metrics
AllAgree-record_metrics none req res d err r h k = tt
AllAgree-record_metrics (some c) req res d err r h k = ground arith

AllAgree-fallback :
    (collector : Option ℕ) (method url : Bytes) (req : Option Request) (d : Duration) (e : Err)
    (r : Result)
    → is_some r.err ≡ true
    → AllAgree
        (map recorded (record_metrics_with_fallback collector method url req none d (some e)))
        r
unfolding record_metrics_with_fallback
AllAgree-fallback none method url req d e r h = tt
AllAgree-fallback (some c) method url req d e r h = ground arith

-- If the call returns, all that it has recorded agrees with its result.
abbrev pub Metered : {S : Type 0} → Option (CallOutcome S) → Type 0
Metered none = Unit
Metered (some out) = AllAgree out.effects out.result

module _ {S Req Res : Type 0} (libs : Libraries) (objects : Objects S Req Res)
    (middleware : MiddlewareCollection S Req Res) (config : Config) (env : CallEnv S Req) where
  complete-Metered :
      (s : S) (manager : Option CircuitBreakerManager) (p : Req) (res : Response)
      → Metered (complete libs objects middleware config env s manager p res)
  unfolding complete
  complete-Metered s manager p res = grind (arith, AllAgree-told, AllAgree-record_metrics)

  concluded-Metered :
      (s : S) (manager : Option CircuitBreakerManager) (p : Req) (served : Option Served)
      → Fails served
      → Metered (concluded libs objects middleware config env s manager p served)
  unfolding concluded
  concluded-Metered s manager p none h = tt
  concluded-Metered s manager p (some (ended r)) h = grind (arith, AllAgree-record_metrics)
  concluded-Metered s manager p (some (goes_on res)) h =
      ground (arith, complete-Metered s manager p res)

  guarded-Metered :
      (s : S) (m : CircuitBreakerManager) (p : Req) (retry : Option RetryConfig)
      → Metered (guarded libs objects middleware config env s m p retry)
  unfolding guarded
  guarded-Metered s m p retry = grind (arith, concluded-Metered, serve_guarded-Fails)

  served_by-Metered :
      (s : S) (manager : Option CircuitBreakerManager) (p : Req) (retry : Option RetryConfig)
      → Metered (served_by libs objects middleware config env s manager p retry)
  unfolding served_by
  served_by-Metered s none p retry = grind (arith, concluded-Metered, serve_unguarded-Fails)
  served_by-Metered s (some m) p retry = guarded-Metered s m p retry

  handled-Metered :
      (s : S) (manager : Option CircuitBreakerManager) (req : Request) (max_retries : Option ℤ)
      → Metered (handled libs objects middleware config env s manager req max_retries)
  unfolding handled
  handled-Metered s manager req max_retries =
      grind (arith, served_by-Metered, AllAgree-record_metrics)

  request_always-Metered :
      (s : S) (manager : Option CircuitBreakerManager) (url method : Bytes)
      (options : Option RequestOptions)
      → Metered (request libs objects middleware config env s manager url method options)
  unfolding request
  request_always-Metered s manager url method options =
      grind (arith, handled-Metered, AllAgree-fallback)

  -- What a call records agrees with what it returns: an error is recorded exactly if one is returned,
  -- and without one the status, the number of bytes and the success are those of the response that is
  -- returned, or zeros if there is none.
  pub request-AllAgree :
      (s : S) (manager : Option CircuitBreakerManager) (url method : Bytes)
      (options : Option RequestOptions) (out : CallOutcome S)
      → request libs objects middleware config env s manager url method options ≡ some out
      → AllAgree out.effects out.result
  request-AllAgree s manager url method options out h =
      subst Metered h (request_always-Metered s manager url method options)
