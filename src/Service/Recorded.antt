-- ===== src/Service/Recorded.antt =====
-- vecto.go, metrics.go: what every call of Vecto.Request leaves behind.
use vecto.Base.{ℕ, ℤ, ◌+◌, ◌≡◌, refl, Option, none, some, List, [], ◌∷◌, ◌++◌, map, Bytes, arith}
use mathlib.Core.Path.{subst}
use vecto.Breaker.Manager.{CircuitBreakerManager}
use vecto.Breaker.{Duration}
use vecto.Channels.{Dispatched}
use vecto.Config.{Config}
use vecto.Http.{Request, Response, Err}
use vecto.Metrics.{record_metrics, record_metrics_with_fallback}
use vecto.Middleware.{MiddlewareCollection}
use vecto.NewRequest.{RequestOptions}
use vecto.Pipeline.{Served, ended, goes_on}
use vecto.Retry.{RetryConfig}
use vecto.Call.{
  Objects, CallEnv, Effect, recorded, dispatched, debugged, logged, CallOutcome, Libraries,
}
use vecto.Service.{complete, concluded, guarded, served_by, handled, request}

-- How many records of metrics there are among the effects.
abbrev pub records : List Effect → ℕ
records [] = 0
records (recorded m ∷ es) = 1 + records es
records (_ ∷ es) = records es

records-append : (xs ys : List Effect) → records (xs ++ ys) ≡ records xs + records ys
records-append [] ys = omega arith
records-append (recorded m ∷ xs) ys = omega (arith, records-append xs ys)
records-append (dispatched d ∷ xs) ys = records-append xs ys
records-append (debugged t ∷ xs) ys = records-append xs ys
records-append (logged l ∷ xs) ys = records-append xs ys

records-dispatched : (ds : List Dispatched) → records (map dispatched ds) ≡ 0
records-dispatched [] = refl
records-dispatched (d ∷ ds) = records-dispatched ds

records-debugged : (ts : List Bytes) → records (map debugged ts) ≡ 0
records-debugged [] = refl
records-debugged (t ∷ ts) = records-debugged ts

-- One, if the caller wants metrics.
abbrev pub wanted : Option ℕ → ℕ
wanted none = 0
wanted (some collector) = 1

records-record_metrics :
    (collector : Option ℕ) (req : Option Request) (res : Option Response) (d : Duration)
    (err : Option Err)
    → records (map recorded (record_metrics collector req res d err)) ≡ wanted collector
unfolding record_metrics
records-record_metrics none req res d err = refl
records-record_metrics (some c) req res d err = refl

records-fallback :
    (collector : Option ℕ) (method url : Bytes) (req : Option Request) (res : Option Response)
    (d : Duration) (err : Option Err)
    → records (map recorded (record_metrics_with_fallback collector method url req res d err))
      ≡ wanted collector
unfolding record_metrics_with_fallback
records-fallback none method url req res d err = refl
records-fallback (some c) method url req res d err = refl

records_all :
    (ts : List Bytes) (ds : List Dispatched) (es : List Effect)
    → records (map debugged ts ++ (map dispatched ds ++ es)) ≡ records es
records_all ts ds es = omega (
  arith,
  records-append (map debugged ts) (map dispatched ds ++ es),
  records-append (map dispatched ds) es,
  records-debugged ts,
  records-dispatched ds,
)

-- If the call returns, it has recorded as often as wanted.
abbrev pub Recorded : {S : Type 0} → Option ℕ → Option (CallOutcome S) → Type 0
Recorded collector none = Unit
Recorded collector (some out) = records out.effects ≡ wanted collector

module _ {S Req Res : Type 0} (libs : Libraries) (objects : Objects S Req Res)
    (middleware : MiddlewareCollection S Req Res) (config : Config) (env : CallEnv S Req) where
  complete-Recorded :
      (s : S) (manager : Option CircuitBreakerManager) (p : Req) (res : Response)
      → Recorded config.metrics_collector
          (complete libs objects middleware config env s manager p res)
  unfolding complete
  complete-Recorded s manager p res = grind (arith, records_all, records-record_metrics)

  concluded-Recorded :
      (s : S) (manager : Option CircuitBreakerManager) (p : Req) (served : Option Served)
      → Recorded config.metrics_collector
          (concluded libs objects middleware config env s manager p served)
  unfolding concluded
  concluded-Recorded s manager p none = tt
  concluded-Recorded s manager p (some (ended r)) = grind (arith, records-record_metrics)
  concluded-Recorded s manager p (some (goes_on res)) =
      ground (arith, complete-Recorded s manager p res)

  guarded-Recorded :
      (s : S) (m : CircuitBreakerManager) (p : Req) (retry : Option RetryConfig)
      → Recorded config.metrics_collector (guarded libs objects middleware config env s m p retry)
  unfolding guarded
  guarded-Recorded s m p retry = grind (arith, concluded-Recorded)

  served_by-Recorded :
      (s : S) (manager : Option CircuitBreakerManager) (p : Req) (retry : Option RetryConfig)
      → Recorded config.metrics_collector
          (served_by libs objects middleware config env s manager p retry)
  unfolding served_by
  served_by-Recorded s none p retry = grind (arith, concluded-Recorded)
  served_by-Recorded s (some m) p retry = guarded-Recorded s m p retry

  handled-Recorded :
      (s : S) (manager : Option CircuitBreakerManager) (req : Request) (max_retries : Option ℤ)
      → Recorded config.metrics_collector
          (handled libs objects middleware config env s manager req max_retries)
  unfolding handled
  handled-Recorded s manager req max_retries =
      grind (arith, served_by-Recorded, records-record_metrics)

  request_always-Recorded :
      (s : S) (manager : Option CircuitBreakerManager) (url method : Bytes)
      (options : Option RequestOptions)
      → Recorded config.metrics_collector
          (request libs objects middleware config env s manager url method options)
  unfolding request
  request_always-Recorded s manager url method options =
      grind (arith, handled-Recorded, records-fallback)

  -- Every call that returns has recorded its metrics exactly once if the caller has a collector, and
  -- not at all if not: whether it failed to make the request, was answered by the adapter, was stopped
  -- by a middleware or by the breaker, failed on the network, or went through.
  pub request-records :
      (s : S) (manager : Option CircuitBreakerManager) (url method : Bytes)
      (options : Option RequestOptions) (out : CallOutcome S)
      → request libs objects middleware config env s manager url method options ≡ some out
      → records out.effects ≡ wanted config.metrics_collector
  request-records s manager url method options out h =
      subst (Recorded config.metrics_collector) h
        (request_always-Recorded s manager url method options)
