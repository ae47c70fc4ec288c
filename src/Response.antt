-- ===== src/Response.antt =====
-- response.go and response_helpers.go. A method on *Response takes an `Option`, since the helpers
-- test for a nil receiver; the methods of response.go that do not are given the response itself.
pub mod Status
pub mod Decode
use vecto.Base.{
  ℕ, ℤ, ◌≡◌, Bool, true, false, ◌&&◌, ◌||◌, Option, none, some, List, [], ◌∷◌, map, Bytes, codes,
  Dict, str_eq, leb, ltb, if◌then◌else◌,
}
use vecto.HttpHeader.{header_get}
use vecto.Http.{
  RawRequest, RawResponse, Response, Err, message, wrapped, response_error,
  response_error_with_cause,
}
use vecto.Substring.{contains_string, is_empty}

unfoldable pub clone_string_slice : Option (List Bytes) → Option (List Bytes)
clone_string_slice none = none
clone_string_slice (some s) = some s

unfoldable pub clone_http_headers : Option (Dict (List Bytes)) → Option (Dict (List Bytes))
clone_http_headers none = none
clone_http_headers (some headers) = some (map (λ e. (e.0, e.1)) headers)

-- The body reader of the original is spent by then: the copy gets a new one over the data.
copy_raw : Response → Option RawResponse → Option RawResponse
unfolding clone_string_slice clone_http_headers
copy_raw r none = none
copy_raw r (some raw) = some (record {
  status = raw.status;
  status_code = raw.status_code;
  proto = raw.proto;
  proto_major = raw.proto_major;
  proto_minor = raw.proto_minor;
  header = clone_http_headers raw.header;
  content_length = raw.content_length;
  transfer_encoding = clone_string_slice raw.transfer_encoding;
  close = raw.close;
  uncompressed = raw.uncompressed;
  trailer = clone_http_headers raw.trailer;
  request = r.raw_request;
  tls = raw.tls;
  body = r.body;
})

unfoldable pub deep_copy : Option Response → Option Response
unfolding copy_raw
deep_copy none = none
deep_copy (some r) = some (record {
  body = r.body;
  status_code = r.status_code;
  raw_request = r.raw_request;
  raw_response = copy_raw r r.raw_response;
  request = r.request;
  success = r.success;
  trace_info = r.trace_info;
})

unfoldable pub request_failed_error : Response → Option Err
request_failed_error r = if r.success then none else some (response_error (some r))

unfoldable pub request_failed_error_with_cause : Response → Option Err → Option Err
request_failed_error_with_cause r none = if r.success then none else some (response_error (some r))
request_failed_error_with_cause r (some err) =
    if r.success then none else some (response_error_with_cause (some r) err)

unfoldable pub body_string : Option Response → Bytes
body_string none = []
body_string (some r) = r.body

abbrev within : ℕ → ℕ → Option Response → Bool
within low high none = false
within low high (some r) = leb low r.status_code && ltb r.status_code high

unfoldable pub is_success : Option Response → Bool
is_success = within 200 300

unfoldable pub is_error : Option Response → Bool
is_error = within 400 600

unfoldable pub is_client_error : Option Response → Bool
is_client_error = within 400 500

unfoldable pub is_server_error : Option Response → Bool
is_server_error = within 500 600

header_of : Option RawResponse → Option (Dict (List Bytes))
header_of none = none
header_of (some raw) = raw.header

get_from : Option (Dict (List Bytes)) → Bytes → Bytes
get_from none key = []
get_from (some header) key = header_get header key

unfoldable pub header : Option Response → Bytes → Bytes
unfolding header_of get_from
header none key = []
header (some r) key = get_from (header_of r.raw_response) key

unfoldable pub headers : Option Response → Option (Dict (List Bytes))
unfolding header_of clone_http_headers
headers none = none
headers (some r) = clone_http_headers (header_of r.raw_response)

pub record Cookie : Type 0 where
  pub name : Bytes
  pub value : Bytes

find_cookie : Bytes → List Cookie → Option Cookie
find_cookie name [] = none
find_cookie name (c ∷ cs) = if str_eq c.name name then some c else find_cookie name cs

-- `parse` is (*http.Response).Cookies of net/http.
module _ (parse : RawResponse → List Cookie) where
  pub cookies : Option Response → Option (List Cookie)
  cookies none = none
  cookies (some r) = elim r.raw_response [ none ↦ none | some raw ↦ some (parse raw) ]

  pub cookie : Option Response → Bytes → Option Cookie
  unfolding find_cookie
  cookie none name = none
  cookie (some r) name = elim r.raw_response [
    | none ↦ none
    | some raw ↦ find_cookie name (parse raw)
  ]

-- json.Unmarshal and xml.Unmarshal: the new content of the destination and the error.
abbrev pub Unmarshal : Type 0 → Type 0
Unmarshal D = Bytes → D → D × Option Err

wrap_error : Bytes → Option Err → Option Err
wrap_error text none = none
wrap_error text (some err) = some (wrapped text err)

unfoldable pub unmarshal_as : {D : Type 0} → Unmarshal D → Bytes → Bytes → D → D × Option Err
unfolding wrap_error
unmarshal_as decode text body v = let (v', err) = decode body v in (v', wrap_error text err)

-- `v` is what the caller's pointer points to, or nil.
module _ {D : Type 0} (json xml : Unmarshal D) where
  unmarshal_into : Unmarshal D → Bytes → Option Response → Option D → Option D × Option Err
  unfolding unmarshal_as
  unmarshal_into decode text none v = (v, some (message (codes "response is nil")))
  unmarshal_into decode text (some r) v =
      if is_empty r.body then (v, some (message (codes "response body is empty"))) else elim v [
        | none ↦ (none, some (message (codes "destination variable is nil")))
        | some d ↦ let (d', err) = unmarshal_as decode text r.body d in (some d', err)
      ]

  unfoldable pub json_body : Option Response → Option D → Option D × Option Err
  unfolding unmarshal_into
  json_body = unmarshal_into json (codes "failed to unmarshal JSON")

  unfoldable pub xml_body : Option Response → Option D → Option D × Option Err
  unfolding unmarshal_into
  xml_body = unmarshal_into xml (codes "failed to unmarshal XML")

  -- The decoder that `Result` chooses from the content type, with the text of its error.
  unfoldable pub decode_by : Bytes → Bytes → D → D × Option Err
  unfolding unmarshal_as
  decode_by content_type body d =
      if contains_string content_type (codes "application/json")
      then unmarshal_as json (codes "failed to unmarshal JSON result") body d
      else if contains_string content_type (codes "application/xml")
          || contains_string content_type (codes "text/xml")
      then unmarshal_as xml (codes "failed to unmarshal XML result") body d
      else unmarshal_as json (codes "failed to unmarshal result (assumed JSON)") body d

  -- The second lookup of the content type is the first one again, and finds no more.
  unfoldable pub result : Option Response → Option D → Option D × Option Err
  unfolding decode_by
  result none v = (v, some (message (codes "response is nil")))
  result (some r) none = (none, if r.success then none else some (response_error (some r)))
  result (some r) (some d) =
      if r.success
      then (if is_empty r.body
          then (some d, none)
          else (let (d', err) = decode_by (header (some r) (codes "Content-Type")) r.body d in
              (some d', err)))
      else (some d, some (response_error (some r)))
