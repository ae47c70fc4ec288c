-- ===== src/Service/Logged.antt =====
-- vecto.go, request_handler.go, logger.go: which failures a call of Vecto.Request logs.
use vecto.Base.{
  sym, ap, ◌∙◌, ℕ, suc, ℤ, Bool, ◌≡◌, refl, true, false, Option, none, some, List, [], ◌∷◌, ◌++◌,
  map, Bytes, is_some, arith, if◌then◌else◌,
}
use mathlib.Core.Path.{subst}
use vecto.Breaker.Manager.{CircuitBreakerManager}
use vecto.Call.{
  Objects, CallEnv, Effect, recorded, dispatched, debugged, logged, CallOutcome, Libraries,
}
use vecto.Channels.{Dispatched, delivered, warned_not_ready}
use vecto.Config.{Config}
use vecto.Http.{Request, Response, Result}
use vecto.Logger.{LogLevel, log_warn, log_error}
use vecto.Metrics.{RequestMetrics}
use vecto.Middleware.{MiddlewareCollection}
use vecto.NewRequest.{RequestOptions}
use vecto.Pipeline.{Served, ended, goes_on}
use vecto.Retry.{RetryConfig}
use vecto.Service.{complete, concluded, guarded, served_by, handled, request}
use vecto.Service.Settled.{Fails, serve_unguarded-Fails, serve_guarded-Fails}

abbrev is_alarm : LogLevel → Bool
is_alarm log_warn = true
is_alarm log_error = true
is_alarm _ = false

-- How many warnings and errors are logged; the dispatcher logs a channel that is not ready as a
-- warning.
abbrev pub alarms : List Effect → ℕ
alarms [] = 0
alarms (logged l ∷ es) = if is_alarm l.level then suc (alarms es) else alarms es
alarms (dispatched warned_not_ready ∷ es) = suc (alarms es)
alarms (_ ∷ es) = alarms es

-- How many channels are reported as not ready.
abbrev pub skipped : List Effect → ℕ
skipped [] = 0
skipped (dispatched warned_not_ready ∷ es) = suc (skipped es)
skipped (_ ∷ es) = skipped es

alarms-recorded : (ms : List RequestMetrics) → alarms (map recorded ms) ≡ 0
alarms-recorded [] = refl
alarms-recorded (m ∷ ms) = alarms-recorded ms

skipped-recorded : (ms : List RequestMetrics) → skipped (map recorded ms) ≡ 0
skipped-recorded [] = refl
skipped-recorded (m ∷ ms) = skipped-recorded ms

alarms-told :
    (ts : List Bytes) (ds : List Dispatched) (ms : List RequestMetrics)
    → alarms (map debugged ts ++ (map dispatched ds ++ map recorded ms))
      ≡ skipped (map debugged ts ++ (map dispatched ds ++ map recorded ms))
alarms-told [] [] ms = alarms-recorded ms ∙ sym (skipped-recorded ms)
alarms-told [] (delivered ch event ∷ ds) ms = alarms-told [] ds ms
alarms-told [] (warned_not_ready ∷ ds) ms = ap suc (alarms-told [] ds ms)
alarms-told (t ∷ ts) ds ms = alarms-told ts ds ms

-- One for a failure, if the logger writes; for a success, one for each channel reported as not ready.
abbrev pub deserved : Bool → Result → List Effect → ℕ
deserved noop r es = if is_some r.err then (if noop then 0 else 1) else skipped es

abbrev Logged : {S : Type 0} → Bool → Option (CallOutcome S) → Type 0
Logged noop none = Unit
Logged noop (some out) = alarms out.effects ≡ deserved noop out.result out.effects

module _ {S Req Res : Type 0} (libs : Libraries) (objects : Objects S Req Res)
    (middleware : MiddlewareCollection S Req Res) (config : Config) (env : CallEnv S Req) where
  complete-Logged :
      (s : S) (manager : Option CircuitBreakerManager) (p : Req) (res : Response)
      → Logged env.noop (complete libs objects middleware config env s manager p res)
  unfolding complete
  complete-Logged s manager p res = grind (arith, alarms-recorded, alarms-told)

  concluded-Logged :
      (s : S) (manager : Option CircuitBreakerManager) (p : Req) (served : Option Served)
      → Fails served
      → Logged env.noop (concluded libs objects middleware config env s manager p served)
  unfolding concluded
  concluded-Logged s manager p none h = tt
  concluded-Logged s manager p (some (ended r)) h = grind (arith, alarms-recorded)
  concluded-Logged s manager p (some (goes_on res)) h =
      ground (arith, complete-Logged s manager p res)

  guarded-Logged :
      (s : S) (m : CircuitBreakerManager) (p : Req) (retry : Option RetryConfig)
      → Logged env.noop (guarded libs objects middleware config env s m p retry)
  unfolding guarded
  guarded-Logged s m p retry = grind (arith, concluded-Logged, serve_guarded-Fails)

  served_by-Logged :
      (s : S) (manager : Option CircuitBreakerManager) (p : Req) (retry : Option RetryConfig)
      → Logged env.noop (served_by libs objects middleware config env s manager p retry)
  unfolding served_by
  served_by-Logged s none p retry = grind (arith, concluded-Logged, serve_unguarded-Fails)
  served_by-Logged s (some m) p retry = guarded-Logged s m p retry

  handled-Logged :
      (s : S) (manager : Option CircuitBreakerManager) (req : Request) (max_retries : Option ℤ)
      → config.adapter ≡ none
      → Logged env.noop (handled libs objects middleware config env s manager req max_retries)
  unfolding handled
  handled-Logged s manager req max_retries direct = grind (arith, served_by-Logged, alarms-recorded)

  request_always-Logged :
      (s : S) (manager : Option CircuitBreakerManager) (url method : Bytes)
      (options : Option RequestOptions)
      → config.adapter ≡ none
      → Logged env.noop (request libs objects middleware config env s manager url method options)
  unfolding request
  request_always-Logged s manager url method options direct =
      grind (arith, handled-Logged, alarms-recorded)

  -- Without an adapter no failure goes unlogged, and none is logged twice: a call that returns an error
  -- logs one warning or error if the logger is not a noop, and none if it is; a call that returns no
  -- error logs no warning or error but those of the dispatcher, one for each channel that it reports as
  -- not ready (in both cases beside the lines that the retries and the breaker write on their own).
  pub alarms-request :
      (s : S) (manager : Option CircuitBreakerManager) (url method : Bytes)
      (options : Option RequestOptions) (out : CallOutcome S)
      → config.adapter ≡ none
      → request libs objects middleware config env s manager url method options ≡ some out
      → alarms out.effects ≡ deserved env.noop out.result out.effects
  alarms-request s manager url method options out direct h =
      subst (Logged env.noop) h (request_always-Logged s manager url method options direct)
