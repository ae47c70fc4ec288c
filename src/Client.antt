-- ===== src/Client.antt =====
-- client.go: the client that sends one request and reads its answer up to a limit.
pub mod Body
use vecto.Base.{
  ℕ, ℤ, pos, pos_part, Bool, true, false, ◌&&◌, Option, none, some, List, [], ◌++◌, Bytes, codes,
  decimal, length, take, ltb, leb, ltb_ℤ, leb_ℤ, ◌==◌, not, if◌then◌else◌,
}
use vecto.Breaker.{Time}
use vecto.Http.{
  RawRequest, RawResponse, Transform, Request, Response, Err, message, Result, TraceInfo,
}
use vecto.Request.{HttpLib, to_http_request}
use vecto.Trace.{TraceContext, TraceEvent, on_traces, compute_trace_info}

-- A body as it comes from the network: what can be read, and the error after it, or the end. A reader
-- may return the error together with the last bytes, or by itself when it is asked again.
pub record Stream : Type 0 where
  pub content : Bytes
  pub failure : Option Err
  pub with_last_bytes : Bool

-- What http.Client.Do returns, with the trace callbacks that it calls until the body is read.
pub record HttpAnswer : Type 0 where
  pub answer : Option (RawResponse × Stream)
  pub failure : Option Err
  pub events : List TraceEvent

pub record DefaultClient : Type 0 where
  pub http_do : RawRequest → HttpAnswer
  pub max_response_body_size : ℤ
  pub enable_trace : Bool

-- io.ReadAll of an io.LimitReader, for a limit that is positive. After as many bytes as the limit the
-- reader is not asked again: the error is met only if it comes with the last of them.
unfoldable pub read_limited : Stream → ℕ → Bytes × Option Err
read_limited s limit =
    if ltb limit (length s.content)
    then (take limit s.content, none)
    else if length s.content == limit && not s.with_last_bytes
    then (s.content, none)
    else (s.content, s.failure)

unfoldable pub body_limit : DefaultClient → ℕ
body_limit c =
    if leb_ℤ c.max_response_body_size (pos 0)
    then 104_857_600
    else pos_part c.max_response_body_size

-- The body, unless the read fails or a byte is left behind a full limit.
unfoldable pub read_body : Stream → ℕ → Bytes × Option Err
unfolding read_limited
read_body s limit =
    let (body, err) = read_limited s limit in
    elim err [
      | some e ↦ (body, some e)
      | none ↦
          if leb limit (length body) && ltb limit (length s.content)
          then (
            body,
            some (
                message (
                  codes "response body exceeded maximum size of "
                  ++ (decimal limit ++ codes " bytes"))),
          )
          else (body, none)
    ]

abbrev failed : Err → Result
failed e = record { res = none; err = some e }

abbrev empty_trace : Time → TraceContext
empty_trace start = record {
  dns_start = pos 0;
  dns_done = pos 0;
  connect_start = pos 0;
  connect_done = pos 0;
  tls_start = pos 0;
  tls_done = pos 0;
  got_first_response = pos 0;
  request_start = start;
  request_end = pos 0;
  conn_reused = false;
  conn_was_idle = false;
  conn_idle_time = pos 0;
}

trace_of : Bool → Time → Time → List TraceEvent → Option TraceInfo
trace_of false start end events = none
trace_of true start end events =
    compute_trace_info (some (record (on_traces (empty_trace start) events) { request_end = end }))

unfoldable pub respond : DefaultClient → Request → RawRequest → HttpAnswer → Time → Time → Result
unfolding read_body trace_of body_limit
respond c req http_req a start end = elim a.failure [
  | some e ↦ failed e
  | none ↦ elim a.answer [
    | none ↦ record { res = none; err = none }
    | some (raw, stream) ↦
        let (body, err) = read_body stream (body_limit c) in
        elim err [
          | some e ↦ failed e
          | none ↦ record {
            res = some (record {
              body = body;
              status_code = raw.status_code;
              request = some req;
              raw_request = some http_req;
              raw_response = some raw;
              success = false;
              trace_info = trace_of c.enable_trace start end a.events;
            });
            err = none;
          }
        ]
  ]
]

-- `start` and `end` are the clock before the request is made and after its body was read. `none` is
-- the panic of a nil transform.
unfoldable pub client_do :
    HttpLib
    → (Transform → Request → Bytes × Option Err)
    → DefaultClient
    → Request
    → Time
    → Time
    → Option (Request × Result)
unfolding respond
client_do lib run c req start end = elim (to_http_request lib run req) [
  | none ↦ none
  | some (req', http_req, err) ↦ some (
    req',
    elim err [
      | some e ↦ failed e
      | none ↦ elim http_req [
        | none ↦ record { res = none; err = none }
        | some raw ↦ respond c req' raw (c.http_do raw) start end
      ]
    ],
  )
]
