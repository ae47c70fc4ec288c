-- ===== src/Response/Status.antt =====
-- response.go, response_helpers.go: status classes, and what a deep copy shares with its original.
use vecto.Base.{
  ◌≡◌, refl, ap, false, ◌&&◌, ◌||◌, Option, none, some, List, [], ◌∷◌, map, Bytes, Dict, arith,
}
use vecto.Http.{RawResponse, Response}
use vecto.Response.{
  copy_raw, deep_copy, clone_http_headers, header_of, get_from, header, headers, body_string,
  is_success, is_error, is_client_error, is_server_error,
}

-- An error is a client or a server error, never both, and never a success.
pub status_classes :
    (res : Option Response)
    → (is_error res ≡ (is_client_error res || is_server_error res))
      × (is_client_error res && is_server_error res ≡ false)
      × (is_success res && is_error res ≡ false)
unfolding is_success is_error is_client_error is_server_error
status_classes none = ground arith
status_classes (some r) = ground arith

map-entries : (m : Dict (List Bytes)) → map (λ e. (e.0, e.1)) m ≡ m
map-entries [] = refl
map-entries ((k, v) ∷ m) = ap (λ t. (k, v) ∷ t) (map-entries m)

clone_http_headers_lem : (m : Option (Dict (List Bytes))) → clone_http_headers m ≡ m
unfolding clone_http_headers
clone_http_headers_lem none = refl
clone_http_headers_lem (some m) = ap some (map-entries m)

header_of-copy_raw :
    (r : Response) (raw : Option RawResponse) → header_of (copy_raw r raw) ≡ header_of raw
unfolding header_of copy_raw
header_of-copy_raw r none = refl
header_of-copy_raw r (some raw) = clone_http_headers_lem raw.header

-- The accessors cannot tell a deep copy from its original.
pub deep_copy-accessors :
    (res : Option Response) (key : Bytes)
    → (body_string (deep_copy res) ≡ body_string res)
      × (header (deep_copy res) key ≡ header res key)
      × (headers (deep_copy res) ≡ headers res)
      × (is_success (deep_copy res) ≡ is_success res)
      × (is_error (deep_copy res) ≡ is_error res)
unfolding deep_copy body_string header headers is_success is_error
deep_copy-accessors none key = (refl, refl, refl, refl, refl)
deep_copy-accessors (some r) key = (
  refl,
  ap (λ m. get_from m key) (header_of-copy_raw r r.raw_response),
  ap clone_http_headers (header_of-copy_raw r r.raw_response),
  refl,
  refl,
)
