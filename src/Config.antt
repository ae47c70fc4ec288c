-- ===== src/Config.antt =====
-- config.go, and the Config of definitions.go with its defaults in vecto.go.
pub mod Merge
use Prim.Native.String.{String}
use vecto.Base.{
  ℕ, ℤ, pos, Bool, true, false, ◌&&◌, Option, none, some, List, [], ◌∷◌, Bytes, codes, Dict,
  copy_into, ltb_ℤ, leb, ltb, is_some, if◌then◌else◌,
}
use vecto.Breaker.{Duration, CircuitBreakerConfig}
use vecto.Http.{Request, Response, Transform, Err, message, wrapped, Result}
use vecto.Retry.{RetryConfig}
use vecto.Substring.{is_empty}
use vecto.Urls.{UrlLib}
use vecto.Validation.{Unicode, validate_url, validate_headers, wrap, ◌or_else◌, invalid}

pub record CertificateConfig : Type 0 where
  pub cert : Bytes
  pub key : Bytes

-- Loggers, collectors and transports are values of the caller, known by their identity.
pub record Config : Type 0 where
  pub base_url : Bytes
  pub timeout : Duration
  pub headers : Dict Bytes
  pub certificates : List CertificateConfig
  pub http_transport : Option ℕ
  pub adapter : Option (Request → Result)
  pub request_transform : Option Transform
  pub validate_status : Option (Option Response → Bool)
  pub insecure_skip_verify : Bool
  pub logger : Option ℕ
  pub metrics_collector : Option ℕ
  pub max_response_body_size : ℤ
  pub circuit_breaker : Option CircuitBreakerConfig
  pub retry : Option RetryConfig
  pub enable_trace : Bool
  pub debug_mode : Bool

unfoldable pub default_validate_status : Option Response → Bool
default_validate_status none = false
default_validate_status (some res) = leb 200 res.status_code && ltb res.status_code 300

unfoldable pub default_config : Config
default_config = record {
  base_url = [];
  timeout = pos 30_000_000_000;
  headers = (codes "Content-Type", codes "application/json") ∷ [];
  certificates = [];
  http_transport = none;
  adapter = none;
  request_transform = none;
  validate_status = some default_validate_status;
  insecure_skip_verify = false;
  logger = none;
  metrics_collector = none;
  max_response_body_size = pos 104_857_600;
  circuit_breaker = none;
  retry = none;
  enable_trace = false;
  debug_mode = false;
}

unfoldable pub validate_size : Config → Option Err
validate_size c =
    if ltb_ℤ c.timeout (pos 0)
    then invalid "timeout cannot be negative"
    else if ltb_ℤ c.max_response_body_size (pos 0)
    then invalid "max response body size cannot be negative"
    else if ltb_ℤ (pos 0) c.max_response_body_size
        && ltb_ℤ (pos 1_073_741_824) c.max_response_body_size
    then invalid "max response body size cannot exceed 1GB"
    else none

unfoldable pub validate_base_url : UrlLib → Bytes → Option Err
validate_base_url lib base_url =
    if is_empty base_url then none else wrap (codes "invalid base URL") (validate_url lib base_url)

unfoldable pub validate_config : UrlLib → Unicode → Config → Option Err
validate_config lib unicode c =
    validate_size c
    or_else validate_base_url lib c.base_url
    or_else wrap (codes "invalid headers") (validate_headers unicode c.headers)

-- cloneHeaders and cloneCertificates: a copy, nil for what is empty.
unfoldable pub clone_headers : Dict Bytes → Dict Bytes
clone_headers headers = copy_into [] headers

unfoldable pub clone_certificates : List CertificateConfig → List CertificateConfig
clone_certificates certificates = certificates

abbrev or_default {ℓ} : {A : Type ℓ} → Option A → Option A → Option A
or_default none default = default
or_default (some a) default = some a

-- The fields that the source does not name in its result keep their zero values: EnableTrace and
-- DebugMode, and CircuitBreaker and Retry unless they are provided.
unfoldable pub merge_config : Config → Config → Config
unfolding clone_headers clone_certificates
merge_config provided defaults = record {
  base_url = if is_empty provided.base_url then defaults.base_url else provided.base_url;
  timeout =
      if ltb_ℤ provided.timeout (pos 0)
      then provided.timeout
      else if ltb_ℤ (pos 0) provided.timeout
      then provided.timeout
      else defaults.timeout;
  headers =
      if is_empty provided.headers
      then clone_headers defaults.headers
      else copy_into (clone_headers defaults.headers) provided.headers;
  certificates =
      if is_empty provided.certificates
      then clone_certificates defaults.certificates
      else clone_certificates provided.certificates;
  http_transport = or_default provided.http_transport defaults.http_transport;
  adapter = or_default provided.adapter defaults.adapter;
  request_transform = or_default provided.request_transform defaults.request_transform;
  validate_status = or_default provided.validate_status defaults.validate_status;
  insecure_skip_verify = provided.insecure_skip_verify;
  logger = or_default provided.logger defaults.logger;
  metrics_collector = or_default provided.metrics_collector defaults.metrics_collector;
  max_response_body_size =
      if ltb_ℤ (pos 0) provided.max_response_body_size
      then provided.max_response_body_size
      else defaults.max_response_body_size;
  circuit_breaker = provided.circuit_breaker;
  retry = provided.retry;
  enable_trace = false;
  debug_mode = false;
}
