-- ===== src/Tests/Fixtures.antt =====
-- Values that several tests share: ASCII, a library of URLs that are not parsed, and a request.
use vecto.Base.{
  true, pos, leb, ◌&&◌, ◌||◌, refl, Option, none, some, [], Bytes, codes, false, ◌≡◌, ◌∷◌, insert,
  copy_into, str_eq,
}
use vecto.Config.{default_config}
use vecto.Http.{RawResponse, Transform, json, Request, Err}
use vecto.NewRequest.{RequestOptions, no_options, new_request}
use vecto.QueryStruct.{FloatLib, struct_to_query_params}
use vecto.Request.{HttpLib, refresh_url}
use vecto.Request.Builder.{unlocked, build, with_params, with_headers, new_request_builder}
use vecto.Transport.{TlsLib}
use vecto.Urls.{UrlLib, get_url_instance}
use vecto.Utf8.{runes, decode_rune}
use vecto.Validation.{
  Unicode, sanitize_url, validate_url, validate_headers, validate_header_name,
  validate_header_value,
}
use vecto.Validation.Headers.{IsAsciiCompatible}

-- Letters and digits of ASCII alone.
abbrev pub ascii : Unicode
ascii = record {
  is_letter = λ c. leb b'a' c && leb c b'z' || leb b'A' c && leb c b'Z';
  quote = λ s. s;
  quote_rune = λ r. r ∷ [];
  is_digit = λ c. leb b'0' c && leb c b'9';
}

pub ascii-IsAsciiCompatible : IsAsciiCompatible ascii
ascii-IsAsciiCompatible = record { letters = λ c low. refl; digits = λ c low. refl }

abbrev pub plain : Request
plain = record {
  mu = unlocked;
  base_url = [];
  url = codes "/a";
  host = codes "example.com";
  scheme = codes "https";
  path = [];
  method = codes "GET";
  params = [];
  headers = [];
  body = none;
  transform = some json;
  raw_req = none;
  channels = [];
  cb_key = [];
  cb_key_cached = false;
}

-- URLs that are not parsed at all.
abbrev pub whole_urls : UrlLib
whole_urls = record {
  Url = Bytes;
  parse = λ s. (some s, none);
  scheme = λ u. [];
  host = λ u. [];
  path = λ u. u;
  query = λ u. [];
  with_query = λ q u. u;
  to_string = λ u. u;
  path_escape = λ s. s;
  encode_query = λ q. [];
  show = λ v. [];
}

abbrev pub http_lib : HttpLib
http_lib = record { urls = whole_urls; new_request_error = λ method url. none }

abbrev pub no_body : Transform → Request → Bytes × Option Err
no_body t r = ([], none)

abbrev pub no_floats : FloatLib
no_floats = record { float_text = λ f. []; float_zero = λ f. false }

abbrev pub accepting : RequestOptions
accepting = record no_options { headers = (codes "A", codes "1") ∷ [] }

abbrev pub made_request : Request
made_request = record plain {
  base_url = codes "/a";
  host = [];
  scheme = [];
  path = codes "/a";
  headers = (codes "Content-Type", codes "application/json") ∷ (codes "A", codes "1") ∷ [];
  raw_req = some (record { method = codes "GET"; url = codes "/a"; header = []; body = [] });
}

pub made_request-made :
    new_request http_lib no_floats ascii default_config (codes "/a") (codes "GET") (some accepting)
    ≡ (some made_request, none)
unfolding new_request sanitize_url validate_url default_config struct_to_query_params build
    with_params with_headers new_request_builder copy_into insert str_eq validate_headers
    validate_header_name runes decode_rune validate_header_value refresh_url get_url_instance
made_request-made = refl

-- An answer of a server with two bytes.
abbrev pub raw_of : Bytes → RawResponse
raw_of content_type = record {
  status = codes "200 OK";
  status_code = 200;
  proto = [];
  proto_major = 1;
  proto_minor = 1;
  header = some ((codes "Content-Type", content_type ∷ []) ∷ []);
  content_length = pos 2;
  transfer_encoding = none;
  close = false;
  uncompressed = false;
  trailer = none;
  request = none;
  tls = none;
  body = [];
}

abbrev pub any_tls : TlsLib
any_tls = record { append_certs = λ c. true; key_pair_error = λ c k. none }
