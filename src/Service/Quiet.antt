-- ===== src/Service/Quiet.antt =====
-- vecto.go, config.go: debug output of a Vecto that New has made.
use vecto.Base.{ℤ, ◌≡◌, refl, false, Option, none, some, List, [], ◌∷◌, ◌++◌, map, Bytes, arith}
use mathlib.Core.Path.{subst}
use vecto.Breaker.{CircuitBreaker}
use vecto.Breaker.Manager.{CircuitBreakerManager}
use vecto.Call.{Objects, CallEnv, Effect, recorded, dispatched, debugged, CallOutcome, Libraries}
use vecto.Channels.{Dispatched}
use vecto.Config.{Config, default_config}
use vecto.Config.Merge.{merge_config-flags}
use vecto.Http.{Request, Response}
use vecto.Instance.{Vecto, new}
use vecto.Instance.Made.{new-config}
use vecto.Metrics.{RequestMetrics}
use vecto.Middleware.{MiddlewareCollection}
use vecto.NewRequest.{RequestOptions}
use vecto.Pipeline.{Served, ended, goes_on}
use vecto.Retry.{RetryConfig}
use vecto.Service.{complete, concluded, guarded, served_by, handled, request}
use vecto.Transport.{TlsLib}
use vecto.Urls.{UrlLib}
use vecto.Validation.{Unicode}

-- The debug output among the effects.
abbrev pub texts : List Effect → List Bytes
texts [] = []
texts (debugged t ∷ es) = t ∷ texts es
texts (_ ∷ es) = texts es

texts-recorded : (ms : List RequestMetrics) → texts (map recorded ms) ≡ []
texts-recorded [] = refl
texts-recorded (m ∷ ms) = texts-recorded ms

texts-dispatched :
    (ds : List Dispatched) (ms : List RequestMetrics)
    → texts (map dispatched ds ++ map recorded ms) ≡ []
texts-dispatched [] ms = texts-recorded ms
texts-dispatched (d ∷ ds) ms = texts-dispatched ds ms

abbrev Quiet : {S : Type 0} → Option (CallOutcome S) → Type 0
Quiet none = Unit
Quiet (some out) = texts out.effects ≡ []

module _ {S Req Res : Type 0} (libs : Libraries) (objects : Objects S Req Res)
    (middleware : MiddlewareCollection S Req Res) (config : Config) (env : CallEnv S Req)
    (off : config.debug_mode ≡ false) where
  complete-Quiet :
      (s : S) (manager : Option CircuitBreakerManager) (p : Req) (res : Response)
      → Quiet (complete libs objects middleware config env s manager p res)
  unfolding complete
  complete-Quiet s manager p res = grind (arith, texts-recorded, texts-dispatched)

  concluded-Quiet :
      (s : S) (manager : Option CircuitBreakerManager) (p : Req) (served : Option Served)
      → Quiet (concluded libs objects middleware config env s manager p served)
  unfolding concluded
  concluded-Quiet s manager p none = tt
  concluded-Quiet s manager p (some (ended r)) = grind (arith, texts-recorded)
  concluded-Quiet s manager p (some (goes_on res)) = ground (arith, complete-Quiet s manager p res)

  served_by-Quiet :
      (s : S) (manager : Option CircuitBreakerManager) (p : Req) (retry : Option RetryConfig)
      → Quiet (served_by libs objects middleware config env s manager p retry)
  unfolding served_by guarded
  served_by-Quiet s none p retry = grind (arith, concluded-Quiet)
  served_by-Quiet s (some m) p retry = grind (arith, concluded-Quiet)

  handled-Quiet :
      (s : S) (manager : Option CircuitBreakerManager) (req : Request) (max_retries : Option ℤ)
      → Quiet (handled libs objects middleware config env s manager req max_retries)
  unfolding handled
  handled-Quiet s manager req max_retries = grind (arith, served_by-Quiet, texts-recorded)

  request-Quiet :
      (s : S) (manager : Option CircuitBreakerManager) (url method : Bytes)
      (options : Option RequestOptions)
      → Quiet (request libs objects middleware config env s manager url method options)
  unfolding request
  request-Quiet s manager url method options = grind (arith, handled-Quiet, texts-recorded)

-- A call of a Vecto that New has made never writes debug output, whatever DebugMode its configuration
-- asked for.
pub texts-request-new :
    {S Req Res : Type 0} (urls : UrlLib) (unicode : Unicode) (tls : TlsLib)
    (heap : List CircuitBreaker) (config : Config) (v : Vecto) (libs : Libraries)
    (objects : Objects S Req Res) (middleware : MiddlewareCollection S Req Res)
    (env : CallEnv S Req) (s : S) (url method : Bytes) (options : Option RequestOptions)
    (out : CallOutcome S)
    → (new urls unicode tls heap config).0 ≡ some v
    → request libs objects middleware v.config env s v.circuit_breaker_mgr url method options
      ≡ some out
    → texts out.effects ≡ []
texts-request-new urls unicode tls heap config v libs objects middleware env s url method options
      out made h =
    let (valid, same, logs, breaks) = new-config urls unicode tls heap config v made in
    let off : v.config.debug_mode ≡ false = rw same (merge_config-flags config default_config).1 in
    subst Quiet h (
      request-Quiet libs objects middleware v.config env off s v.circuit_breaker_mgr url method
        options)
