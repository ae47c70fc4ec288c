-- ===== src/Network/Answers.antt =====
-- vecto.go, factory.go, client.go: how the calls of a Vecto that New has made end.
use vecto.Base.{
  ℕ, ◌≡◌, ◌||◌, ◌⊎◌, ◌∙◌, ap, refl, true, Option, none, some, List, Bytes, is_some, arith,
}
use vecto.Breaker.{CircuitBreaker, Time}
use vecto.Call.{Objects, CallEnv, CallOutcome, Libraries}
use vecto.Channels.Delivery.{IsUnclosed}
use vecto.Client.{HttpAnswer, DefaultClient, respond, client_do}
use vecto.Config.{Config}
use vecto.Handler.{get_retry_config}
use vecto.Http.{RawRequest, Transform, Request, Err}
use vecto.Instance.{Vecto, new}
use vecto.Instance.Made.{new-config, merged-validate_status, merged_fields}
use vecto.Middleware.{MiddlewareCollection}
use vecto.Network.{Wire, client_network, send_once, result_of, new_default_client}
use vecto.NewRequest.{RequestOptions}
use vecto.NewRequest.Sendable.{transform-new_request}
use vecto.Request.{HttpLib, to_http_request}
use vecto.Service.{request}
use vecto.Service.Returning.{
  IsAnswer, IsCovered, KeepsRequests, Prepares, sendable, request-returns,
}
use vecto.Service.Settled.{offers, IsFailure, IsSuccess, request-settles}
use vecto.Transport.{TlsLib}
use vecto.Urls.{UrlLib}
use vecto.Validation.{Unicode}

-- What http.Client.Do documents: an error or a response.
abbrev pub IsComplete : HttpAnswer → Type 0
IsComplete a = is_some a.failure || is_some a.answer ≡ true

respond-IsAnswer :
    (c : DefaultClient) (req : Request) (raw : RawRequest) (a : HttpAnswer) (start end : Time)
    → IsComplete a
    → IsAnswer (respond c req raw a start end)
unfolding respond
respond-IsAnswer c req raw a start end h = ground arith

client_do-IsAnswer :
    (lib : HttpLib) (run : Transform → Request → Bytes × Option Err) (c : DefaultClient)
    (req : Request) (start end : Time)
    → ((raw : RawRequest) → IsComplete (c.http_do raw))
    → is_some req.transform ≡ true
    → IsAnswer (result_of (client_do lib run c req start end))
unfolding client_do to_http_request
client_do-IsAnswer lib run c req start end h t = grind (arith, respond-IsAnswer)

send_once-IsAnswer :
    (lib : HttpLib) (wire : Wire) (config : Config) (o : Option Request) (n : ℕ)
    → ((n : ℕ) (raw : RawRequest) → IsComplete (wire.http_do n raw))
    → sendable o ≡ true
    → IsAnswer (send_once lib wire config o n)
unfolding send_once
send_once-IsAnswer lib wire config none n complete h = absurd (ground arith)
send_once-IsAnswer lib wire config (some req) n complete h =
    client_do-IsAnswer lib wire.run (new_default_client (wire.http_do n) config) req (wire.begins n)
      (wire.ends n) (complete n) h

-- A call of a Vecto that New made without circuit breakers and without an adapter returns, with an error
-- and no response, and then nothing was offered to a channel, or with a response and no error. This
-- holds if http.Client.Do always gives an error or a response, the request middleware fails or gives
-- back a request with a transform where it gets one, the response middleware keeps the request of a
-- response or fails, no channel is closed, and retries are off or limited by a MaxAttempts that is not
-- negative and that the fuel covers.
pub request-answers :
    {S Req Res : Type 0} (urls : UrlLib) (unicode : Unicode) (tls : TlsLib)
    (heap : List CircuitBreaker) (config : Config) (v : Vecto) (libs : Libraries) (wire : Wire)
    (objects : Objects S Req Res) (middleware : MiddlewareCollection S Req Res)
    (env : CallEnv S Req) (s : S) (url method : Bytes) (options : Option RequestOptions)
    → (new urls unicode tls heap config).0 ≡ some v
    → config.circuit_breaker ≡ none
    → v.config.adapter ≡ none
    → ((n : ℕ) (raw : RawRequest) → IsComplete (wire.http_do n raw))
    → ((req : Request) → is_some req.transform ≡ true → Prepares objects middleware req)
    → KeepsRequests objects middleware
    → IsUnclosed env.channels
    → IsCovered libs.fuel
        (get_retry_config v.config.retry (elim options [ none ↦ none | some o ↦ o.max_retries ]))
    → (out : CallOutcome S) × (request libs objects middleware v.config
          (record env { network = client_network libs.http wire v.config objects })
          s
          v.circuit_breaker_mgr
          url
          method
          options
        ≡ some out)
      × ((IsFailure out.result × (offers out.effects ≡ 0)) ⊎ IsSuccess out.result)
request-answers urls unicode tls heap config v libs wire objects middleware env s url method options
      made no_breakers direct complete prepares keeps unclosed covered =
    let (valid, same, logs, breaks) = new-config urls unicode tls heap config v made in
    let world = record env { network = client_network libs.http wire v.config objects } in
    let no_mgr : v.circuit_breaker_mgr ≡ none =
      let off = (merged_fields config).0 in ground arith in
    let (out, e) =
      request-returns libs objects middleware v.config world s url method options
        (λ req m. prepares req (
          rw
            (transform-new_request libs.http libs.floats libs.unicode v.config url method options
              req m)
            refl))
        keeps unclosed (rw same (merged-validate_status config))
        (λ s p ok n.
          send_once-IsAnswer libs.http wire v.config (objects.request_at s p) n complete ok)
        covered in
    let called =
      ap (λ m. request libs objects middleware v.config world s m url method options) no_mgr ∙ e in
    (
      out,
      called,
      request-settles libs objects middleware v.config world s v.circuit_breaker_mgr url method
          options out direct called,
    )
