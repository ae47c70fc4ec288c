-- ===== src/Call.antt =====
-- vecto.go: what one call of Vecto.Request meets, and what it comes to.
use vecto.Base.{◌≡◌, ℕ, Bool, Option, List, Bytes}
use vecto.Breaker.{Time, Duration, CircuitBreaker}
use vecto.Breaker.Manager.{CircuitBreakerManager}
use vecto.Channels.{ChannelEnv, Dispatched}
use vecto.Debug.{Printing}
use vecto.Http.{Request, Response, Result}
use vecto.Logger.{LogLine}
use vecto.Metrics.{RequestMetrics}
use vecto.QueryStruct.{FloatLib}
use vecto.Request.{HttpLib}
use vecto.Retry.{TimeLib}
use vecto.Retry.Execute.{RetryEnv}
use vecto.Validation.{Unicode}

-- The store. A nil pointer to a request has no request, and a call that reads it panics.
pub record Objects (S Req Res : Type 0) : Type 0 where
  pub request_at : S → Req → Option Request
  pub write_request : S → Req → Request → S
  pub put_request : S → Request → S × Req
  pub response_at : S → Res → Response
  pub put_response : S → Response → S × Res

-- A response that is put into the store is found there.
abbrev pub KeepsResponses : {S Req Res : Type 0} → Objects S Req Res → Type 0
KeepsResponses {S = S} objects =
    (s : S) (res : Response)
    → objects.response_at (objects.put_response s res).0 (objects.put_response s res).1 ≡ res

-- The world that one call meets: the answers of the network, and what the attempts leave in the store;
-- what other goroutines do to the manager and to the breaker meanwhile; the channels; and the clock as
-- the call starts, asks the breaker, comes back from the client with an error, measures its duration
-- (after an error, and after a response), and reports the response.
pub record CallEnv (S Req : Type 0) : Type 0 where
  pub network : S → Req → RetryEnv
  pub attempted : S → Req → S
  pub meanwhile : CircuitBreakerManager → CircuitBreakerManager
  pub others : CircuitBreaker → CircuitBreaker
  pub channels : ChannelEnv
  pub noop : Bool
  pub started : Time
  pub asked : Time
  pub returned : Time
  pub failed : Time
  pub measured : Time
  pub finished : Time

-- What a call tells the objects of the caller; the lines that the retries and the breaker log are among
-- their own events.
pub data Effect : Type 0 where
  recorded : RequestMetrics → Effect
  dispatched : Dispatched → Effect
  debugged : Bytes → Effect
  logged : LogLine → Effect

-- `err != nil` with its result, or the response.
pub record CallOutcome (S : Type 0) : Type 0 where
  pub result : Result
  pub store : S
  pub manager : Option CircuitBreakerManager
  pub effects : List Effect

-- The libraries, and fuel for the retries.
pub record Libraries : Type 1 where
  pub http : HttpLib
  pub floats : FloatLib
  pub unicode : Unicode
  pub printing : Printing
  pub times : TimeLib
  pub float_to_duration : ℕ → Duration
  pub fuel : ℕ
