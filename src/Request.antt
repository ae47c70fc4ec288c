-- ===== src/Request.antt =====
-- request.go, enhanced_request.go (the path parameters of a request) and auth.go (the credentials of
-- one). A method returns the new receiver and the error. `mu` is held within one call and free
-- between calls, so it stands in the record and no method here changes it; request_handler.go, where
-- it is held across calls, is modelled with it in Handler.
pub mod Builder
pub mod Clean
use vecto.Base.{
  ℕ, Bool, true, false, Option, none, some, List, [], ◌∷◌, ◌++◌, map, Bytes, codes, Dict, lookup,
  insert, delete, copy_into, is_some, if◌then◌else◌, get_or,
}
use vecto.Base64
use vecto.Http.{
  Any, text, path_params, RawRequest, RwMutex, Transform, Request, Err, message, wrapped,
}
use vecto.Substring.{is_empty}
use vecto.Urls.{UrlLib, get_url_instance}
use vecto.Validation.{
  Unicode, validate_headers, validate_header_name, validate_header_value, wrap, ◌or_else◌,
}

-- http.NewRequest fails for a method or a URL that net/http refuses.
pub record HttpLib : Type 1 where
  pub urls : UrlLib
  pub new_request_error : Bytes → Bytes → Option Err

unfoldable pub on_completed : Request → ℕ → Request
on_completed r ch = record r { channels = r.channels ++ ch ∷ [] }

unfoldable pub set_header_unsafe : Request → Bytes → Bytes → Request
set_header_unsafe r key value = record r { headers = insert key value r.headers }

set_all : Request → Dict Bytes → Request
set_all r headers = record r { headers = copy_into r.headers headers }

module _ (unicode : Unicode) where
  -- The loop over the map is `copy_into`, one `set_header_unsafe` for each entry.
  unfoldable pub set_headers : Request → Dict Bytes → Request × Option Err
  unfolding set_all
  set_headers r headers = elim (validate_headers unicode headers) [
    | some err ↦ (r, some (wrapped (codes "invalid headers") err))
    | none ↦ (set_all r headers, none)
  ]

  unfoldable pub set_header : Request → Bytes → Bytes → Request × Option Err
  unfolding set_header_unsafe
  set_header r key value = elim (validate_header_name unicode key) [
    | some err ↦ (r, some (wrapped (codes "invalid header name") err))
    | none ↦ elim (validate_header_value value) [
      | some err ↦ (r, some (wrapped (codes "invalid header value") err))
      | none ↦ (set_header_unsafe r key value, none)
    ]
  ]

-- An http.NewRequest with an empty body.
abbrev empty_raw : Bytes → Bytes → RawRequest
empty_raw method url = record { method = method; url = url; header = []; body = [] }

module _ (lib : HttpLib) where
  open lib use {urls, new_request_error}

  with_url : Request → urls.Url → Request
  with_url r u = record r {
    url = urls.to_string u;
    host = urls.host u;
    scheme = urls.scheme u;
    path = urls.path u;
  }

  -- The fields of the URL are set before http.NewRequest may fail.
  refresh_raw : Request → Request × Option Err
  refresh_raw r = elim (new_request_error r.method r.url) [
    | some err ↦ (r, some err)
    | none ↦ (record r { raw_req = some (empty_raw r.method r.url) }, none)
  ]

  unfoldable pub refresh_url : Request → Request × Option Err
  unfolding with_url refresh_raw
  refresh_url r =
      let (full_url, err) = get_url_instance urls r.base_url r.params in
      elim err [
        | some e ↦ (r, some e)
        | none ↦ elim full_url [ none ↦ (r, none) | some u ↦ refresh_raw (with_url r u) ]
      ]

  -- The parameter stays set when the URL cannot be built.
  unfoldable pub set_param : Request → Bytes → Any → Request × Option Err
  set_param r key value =
      if is_empty key
      then (r, some (message (codes "param key cannot be empty")))
      else refresh_url (record r { params = insert key value r.params })

  unfoldable pub attach_headers : Request → RawRequest → RawRequest
  attach_headers r raw = record raw {
    header = copy_into raw.header (map (λ e. (e.0, e.1 ∷ [])) r.headers);
  }

  -- `run` calls a caller's transform, or the JSON one; a nil transform is a panic, which `none`
  -- stands for.
  unfoldable pub to_http_request :
      (Transform → Request → Bytes × Option Err)
      → Request
      → Option (Request × Option RawRequest × Option Err)
  unfolding attach_headers
  to_http_request run r = elim r.transform [
    | none ↦ none
    | some transform ↦
        let (body, failed) = run transform r in
        some (elim failed [
          | some err ↦ (r, none, some err)
          | none ↦ elim (new_request_error r.method r.url) [
            | some err ↦ (r, none, some err)
            | none ↦
                let raw =
                  attach_headers r
                    (record { method = r.method; url = r.url; header = []; body = body }) in
                (record r { raw_req = some raw }, some raw, none)
          ]
        ])
  ]

-- The key under which SetPathParam keeps its map among the query parameters.
abbrev pub path_params_key : Bytes
path_params_key = codes "__path_params__"

current_path_params : Option Any → Dict Bytes
current_path_params (some (path_params m)) = m
current_path_params _ = []

unfoldable pub set_path_param : Request → Bytes → Bytes → Request
unfolding current_path_params
set_path_param r key value = record r {
  params =
      insert path_params_key
        (path_params (insert key value (current_path_params (lookup path_params_key r.params))))
        r.params;
}

unfoldable pub set_path_params : Request → Dict Bytes → Request
set_path_params r params = record r {
  params = insert path_params_key (path_params (copy_into [] params)) r.params;
}

-- Copies, nil for an empty map.
unfoldable pub headers : Request → Dict Bytes
headers r = r.headers

unfoldable pub params : Request → Dict Any
params r = r.params

abbrev pub authorization : Bytes
authorization = codes "Authorization"

unfoldable pub encode_basic_auth : Bytes → Bytes → Bytes
encode_basic_auth username password =
    codes "Basic " ++ Base64.encode (username ++ (codes ":" ++ password))

module _ (unicode : Unicode) where
  set_authorization : Request → Bytes → Request × Option Err
  set_authorization r value =
      let (r', err) = set_header unicode r authorization value in
      (r', wrap (codes "failed to set authorization header") err)

  unfoldable pub set_basic_auth : Request → Bytes → Bytes → Request × Option Err
  unfolding set_authorization
  set_basic_auth r username password =
      if is_empty username
      then (r, some (message (codes "username cannot be empty")))
      else set_authorization r (encode_basic_auth username password)

  unfoldable pub set_bearer_token : Request → Bytes → Request × Option Err
  unfolding set_authorization
  set_bearer_token r token =
      if is_empty token
      then (r, some (message (codes "token cannot be empty")))
      else set_authorization r (codes "Bearer " ++ token)

  -- SetAuthToken
  unfoldable pub set_auth_token : Request → Bytes → Request × Option Err
  set_auth_token = set_bearer_token

unfoldable pub clear_auth : Request → Request
clear_auth r = record r { headers = delete authorization r.headers }

unfoldable pub get_auth_header : Request → Bytes
get_auth_header r = get_or (lookup authorization r.headers) []
