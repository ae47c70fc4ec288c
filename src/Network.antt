-- ===== src/Network.antt =====
-- factory.go, client.go: the client that New gives to a Vecto, as the network that its calls meet.
pub mod Limits
pub mod Answers
use vecto.Base.{ℕ, Bool, Option, none, some, Bytes}
use vecto.Breaker.{Time}
use vecto.Call.{Objects}
use vecto.Client.{HttpAnswer, DefaultClient, client_do}
use vecto.Config.{Config}
use vecto.Http.{RawRequest, Transform, Request, Err, Result}
use vecto.Request.{HttpLib}
use vecto.Retry.Execute.{RetryEnv}

-- What the attempts of a call meet, by their number: http.Client.Do, the context, the clock before and
-- after the request; and how a body is transformed.
pub record Wire : Type 0 where
  pub http_do : ℕ → RawRequest → HttpAnswer
  pub run : Transform → Request → Bytes × Option Err
  pub ctx_err : ℕ → Option Err
  pub interrupted : ℕ → Option Err
  pub now : ℕ → Time
  pub begins : ℕ → Time
  pub ends : ℕ → Time
  pub noop : Bool

-- newDefaultClient, once the HTTP client is made.
abbrev pub new_default_client : (RawRequest → HttpAnswer) → Config → DefaultClient
new_default_client http_do config = record {
  http_do = http_do;
  max_response_body_size = config.max_response_body_size;
  enable_trace = config.enable_trace;
}

abbrev pub result_of : Option (Request × Result) → Result
result_of none = record { res = none; err = none }
result_of (some (req, result)) = result

module _ (lib : HttpLib) (wire : Wire) (config : Config) where
  -- One attempt; a nil request panics.
  unfoldable pub send_once : Option Request → ℕ → Result
  send_once none n = result_of none
  send_once (some req) n = result_of (
      client_do lib wire.run (new_default_client (wire.http_do n) config) req (wire.begins n)
        (wire.ends n))

  abbrev pub client_network : {S Req Res : Type 0} → Objects S Req Res → S → Req → RetryEnv
  client_network objects s p = record {
    send = send_once (objects.request_at s p);
    ctx_err = wire.ctx_err;
    interrupted = wire.interrupted;
    now = wire.now;
    noop = wire.noop;
  }
