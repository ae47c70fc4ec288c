-- ===== src/Metrics.antt =====
-- metrics.go: what is recorded of a request. The collector of the caller is told one RequestMetrics for
-- each call of a function here; without a collector nothing is recorded.
use vecto.Base.{
  ℕ, ◌&&◌, Bool, false, Option, none, some, List, [], ◌∷◌, ◌++◌, Bytes, codes, length,
  if◌then◌else◌,
}
use vecto.Breaker.{Duration}
use vecto.Http.{RawRequest, Request, Response, Err}
use vecto.Substring.{is_empty}

pub record RequestMetrics : Type 0 where
  pub method : Bytes
  pub url : Bytes
  pub full_url : Bytes
  pub duration : Duration
  pub status_code : ℕ
  pub error : Option Err
  pub request_size : ℕ
  pub response_size : ℕ
  pub success : Bool

unfoldable pub normalize_url : Option Request → Bytes
normalize_url none = []
normalize_url (some req) =
    if is_empty req.scheme && is_empty req.host
    then req.path
    else if is_empty req.host
    then req.path
    else req.scheme ++ (codes "://" ++ (req.host ++ req.path))

-- The ContentLength of a request that http.NewRequest made from a reader of bytes.
abbrev size_of_raw : Option RawRequest → ℕ
size_of_raw none = 0
size_of_raw (some raw) = length raw.body

abbrev size_of_request : Option Request → ℕ
size_of_request none = 0
size_of_request (some req) = size_of_raw req.raw_req

abbrev full_url_of : Bytes → Option Request → Bytes
full_url_of url none = url
full_url_of url (some req) = req.url

abbrev pub status_of : Option Response → ℕ
status_of none = 0
status_of (some res) = res.status_code

abbrev pub size_of_response : Option Response → ℕ
size_of_response none = 0
size_of_response (some res) = length res.body

abbrev pub success_of : Option Response → Bool
success_of none = false
success_of (some res) = res.success

unfoldable pub record_metrics :
    Option ℕ → Option Request → Option Response → Duration → Option Err → List RequestMetrics
unfolding normalize_url
record_metrics none req res duration err = []
record_metrics (some collector) req res duration err =
    record {
      method = elim req [ none ↦ [] | some r ↦ r.method ];
      url = normalize_url req;
      full_url = full_url_of [] req;
      duration = duration;
      status_code = status_of res;
      error = err;
      request_size = size_of_request req;
      response_size = size_of_response res;
      success = success_of res;
    }
    ∷ []

-- For a call whose request could not be made, the URL as the caller gave it.
unfoldable pub record_metrics_with_fallback :
    Option ℕ
    → Bytes
    → Bytes
    → Option Request
    → Option Response
    → Duration
    → Option Err
    → List RequestMetrics
unfolding normalize_url
record_metrics_with_fallback none method url req res duration err = []
record_metrics_with_fallback (some collector) method url req res duration err =
    record {
      method = method;
      url = elim req [ none ↦ url | some r ↦ normalize_url (some r) ];
      full_url = full_url_of url req;
      duration = duration;
      status_code = status_of res;
      error = err;
      request_size = size_of_request req;
      response_size = size_of_response res;
      success = success_of res;
    }
    ∷ []
