-- ===== src/Http.antt =====
-- request.go, response.go, trace.go, errors.go: the data that the components exchange.
-- A nil pointer, map entry or error is `none`. A map that is nil and one that is empty are told
-- apart only where the source tests for nil.
use vecto.Base.{ℕ, ℤ, Bool, Option, List, Bytes, Dict}
use vecto.BreakerState.{CircuitBreakerState}

-- `interface{}` values that the library stores; `opaque` is any other value, by its identity.
pub data Any : Type 0 where
  text : Bytes → Any
  bytes : Bytes → Any
  texts : List Bytes → Any
  path_params : Dict Bytes → Any
  opaque : ℕ → Any

-- sync.RWMutex: whether a writer holds it, and how many readers do.
pub record RwMutex : Type 0 where
  pub writer : Bool
  pub readers : ℕ

-- The parts of *http.Request that the library reads or writes.
pub record RawRequest : Type 0 where
  pub method : Bytes
  pub url : Bytes
  pub header : Dict (List Bytes)
  pub body : Bytes

-- RequestTransformFunc: nil, the JSON transformer, or a caller's function by its identity.
pub data Transform : Type 0 where
  json : Transform
  custom : ℕ → Transform

pub record Request : Type 0 where
  pub mu : RwMutex
  pub base_url : Bytes
  pub url : Bytes
  pub host : Bytes
  pub scheme : Bytes
  pub path : Bytes
  pub method : Bytes
  pub params : Dict Any
  pub headers : Dict Bytes
  pub body : Option Any
  pub transform : Option Transform
  pub raw_req : Option RawRequest
  pub channels : List ℕ
  pub cb_key : Bytes
  pub cb_key_cached : Bool

-- The parts of *http.Response that the library reads or copies.
pub record RawResponse : Type 0 where
  pub status : Bytes
  pub status_code : ℕ
  pub proto : Bytes
  pub proto_major : ℕ
  pub proto_minor : ℕ
  pub header : Option (Dict (List Bytes))
  pub content_length : ℤ
  pub transfer_encoding : Option (List Bytes)
  pub close : Bool
  pub uncompressed : Bool
  pub trailer : Option (Dict (List Bytes))
  pub request : Option RawRequest
  pub tls : Option ℕ
  pub body : Bytes

-- Durations are in nanoseconds.
pub record TraceInfo : Type 0 where
  pub dns_lookup : ℤ
  pub tcp_connection : ℤ
  pub tls_handshake : ℤ
  pub server_processing : ℤ
  pub content_transfer : ℤ
  pub total : ℤ
  pub conn_reused : Bool
  pub conn_was_idle : Bool
  pub conn_idle_time : ℤ

-- `request` is the request as the client answered for it: a channel that is registered with the
-- request afterwards is not among its channels.
-- `status_code` is a natural number: the source only compares it with positive constants, and a
-- negative one behaves as 0 there.
pub record Response : Type 0 where
  pub body : Bytes
  pub status_code : ℕ
  pub request : Option Request
  pub raw_request : Option RawRequest
  pub raw_response : Option RawResponse
  pub success : Bool
  pub trace_info : Option TraceInfo

-- Go error values, by the dynamic type that the source tests for. `foreign` is any error of code
-- outside the library that is neither a net.Error nor a *url.Error. A *ResponseError whose Err is nil
-- and one with a cause are two constructors.
pub data Err : Type 0 where
  message : Bytes → Err
  wrapped : Bytes → Err → Err
  response_error : Option Response → Err
  response_error_with_cause : Option Response → Err → Err
  breaker_error : CircuitBreakerState → Bytes → Err
  url_error : ℕ → Err
  net_error : ℕ → Err
  foreign : ℕ → Err

-- The pair `(res, err)` that a request returns.
pub record Result : Type 0 where
  pub res : Option Response
  pub err : Option Err
