-- ===== src/Network/Limits.antt =====
-- vecto.go, factory.go, client.go: what a Vecto that New has made returns from the network.
use vecto.Base.{
  ℕ, pos, pos_part, leb_ℤ, ◌≡◌, refl, Bool, if◌then◌else◌, false, Option, none, some, List, [],
  Bytes, arith, Option-cases, inl, inr,
}
use vecto.Breaker.{CircuitBreaker}
use vecto.Call.{KeepsResponses, Objects, CallEnv, CallOutcome, Libraries}
use vecto.Client.{body_limit, client_do}
use vecto.Client.Body.{IsWithin, client_do-IsWithin}
use vecto.Config.{Config, default_config}
use vecto.Config.Merge.{merge_config-flags}
use vecto.Http.{Request, Response, Result}
use vecto.Instance.{Vecto, new}
use vecto.Instance.Made.{new-config}
use vecto.Middleware.{MiddlewareCollection}
use vecto.Network.{Wire, new_default_client, client_network, send_once, result_of}
use vecto.NewRequest.{RequestOptions}
use vecto.Pipeline.{checked}
use vecto.Request.{HttpLib}
use vecto.Service.{request}
use vecto.Service.Origin.{request-CameFromNetwork}
use vecto.Transport.{TlsLib}
use vecto.Urls.{UrlLib}
use vecto.Validation.{Unicode}

-- MaxResponseBodySize, or 100 MiB.
abbrev pub byte_limit : Config → ℕ
byte_limit config =
    if leb_ℤ config.max_response_body_size (pos 0)
    then 104_857_600
    else pos_part config.max_response_body_size

result_of-IsWithin :
    (limit : ℕ) (o : Option (Request × Result))
    → ((req : Request) (r : Result) → o ≡ some (req, r) → IsWithin limit r.res)
    → IsWithin limit (result_of o).res
result_of-IsWithin limit none h = tt
result_of-IsWithin limit (some (req, r)) h = h req r refl

send_once-IsWithin :
    (lib : HttpLib) (wire : Wire) (config : Config) (o : Option Request) (n : ℕ)
    → config.enable_trace ≡ false
    → IsWithin (byte_limit config) (send_once lib wire config o n).res
unfolding send_once body_limit
send_once-IsWithin lib wire config none n off = tt
send_once-IsWithin lib wire config (some req) n off =
    let c = new_default_client (wire.http_do n) config in
    result_of-IsWithin (byte_limit config)
      (client_do lib wire.run c req (wire.begins n) (wire.ends n))
      (λ req' r e. client_do-IsWithin lib wire.run c req (wire.begins n) (wire.ends n) req' r off e)

checked-IsWithin :
    (limit : ℕ) (validate_status : Option Response → Bool) (o : Option Response)
    (res res' : Response)
    → IsWithin limit o
    → o ≡ some res
    → res' ≡ checked validate_status res
    → IsWithin limit (some res')
unfolding checked
checked-IsWithin limit validate_status o res res' h e same = ground arith

-- A response that a Vecto made by New returns from the network has at most as many bytes as
-- MaxResponseBodySize, or 100 MiB if that is not positive, and no trace, whatever EnableTrace its
-- configuration asked for: without an adapter and response middleware, and if the store gives back the
-- responses that are put into it.
pub request-IsWithin :
    {S Req Res : Type 0} (urls : UrlLib) (unicode : Unicode) (tls : TlsLib)
    (heap : List CircuitBreaker) (config : Config) (v : Vecto) (libs : Libraries) (wire : Wire)
    (objects : Objects S Req Res) (middleware : MiddlewareCollection S Req Res)
    (env : CallEnv S Req) (s : S) (url method : Bytes) (options : Option RequestOptions)
    (out : CallOutcome S)
    → (new urls unicode tls heap config).0 ≡ some v
    → v.config.adapter ≡ none
    → middleware.response_mw ≡ []
    → KeepsResponses objects
    → request libs objects middleware v.config
        (record env { network = client_network libs.http wire v.config objects })
        s
        v.circuit_breaker_mgr
        url
        method
        options
      ≡ some out
    → IsWithin (byte_limit v.config) out.result.res
request-IsWithin urls unicode tls heap config v libs wire objects middleware env s url method
      options out made direct plain stored h =
    let (valid, same, logs, breaks) = new-config urls unicode tls heap config v made in
    let off : v.config.enable_trace ≡ false =
      rw same (merge_config-flags config default_config).0 in
    let world = record env { network = client_network libs.http wire v.config objects } in
    elim (Option-cases out.result.res) [
      | inl failed ↦ rw failed (tt)
      | inr (res', e) ↦
          let (s', p, n, res, sent, same') =
            request-CameFromNetwork libs objects middleware v.config world s v.circuit_breaker_mgr
              url method options res' out direct plain stored h e in
          rw e (
            checked-IsWithin (byte_limit v.config) _ _ res res'
              (send_once-IsWithin libs.http wire v.config (objects.request_at s' p) n off) sent
              same')
    ]
