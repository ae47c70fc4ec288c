-- ===== src/Request/Builder.antt =====
-- request_builder.go: a request is built step by step; the first error sticks, and Build returns it.
use vecto.Base.{false, Option, none, some, [], ◌∷◌, Bytes, codes, Dict, copy_into, if◌then◌else◌}
use vecto.Http.{Any, RwMutex, Transform, Request, Err, wrapped}
use vecto.Request.{HttpLib, set_param, refresh_url}
use vecto.Substring.{is_empty}
use vecto.Validation.{Unicode, validate_headers}

pub record RequestBuilder : Type 0 where
  pub request : Request
  pub err : Option Err

abbrev pub unlocked : RwMutex
unlocked = record { writer = false; readers = 0 }

unfoldable pub new_request_builder : Bytes → Bytes → RequestBuilder
new_request_builder base_path method = record {
  request = record {
    mu = unlocked;
    base_url = base_path;
    url = [];
    host = [];
    scheme = [];
    path = [];
    method = method;
    params = [];
    headers = [];
    body = none;
    transform = none;
    raw_req = none;
    channels = [];
    cb_key = [];
    cb_key_cached = false;
  };
  err = none;
}

unfoldable pub with_headers : Unicode → RequestBuilder → Dict Bytes → RequestBuilder
with_headers unicode b headers = elim b.err [
  | some e ↦ b
  | none ↦ if is_empty headers then b else (elim (validate_headers unicode headers) [
    | some e ↦ record b { err = some (wrapped (codes "invalid headers") e) }
    | none ↦ record b {
      request = record (b.request) { headers = copy_into b.request.headers headers };
    }
  ])
]

module _ (lib : HttpLib) where
  unfoldable pub with_param : RequestBuilder → Bytes → Any → RequestBuilder
  with_param b key value = elim b.err [
    | some e ↦ b
    | none ↦
        let (r, failed) = set_param lib b.request key value in
        record b { request = r; err = failed }
  ]

  unfoldable pub with_params : RequestBuilder → Dict Any → RequestBuilder
  with_params b [] = b
  with_params b ((key, value) ∷ params) = with_params (with_param b key value) params

  -- On success the request; on an error none.
  unfoldable pub build : RequestBuilder → Option Request × Option Err
  build b = elim b.err [
    | some e ↦ (none, some e)
    | none ↦
        let (r, failed) = refresh_url lib b.request in
        elim failed [ some e ↦ (none, some e) | none ↦ (some r, none) ]
  ]

unfoldable pub with_data : RequestBuilder → Option Any → RequestBuilder
with_data b value = record b { request = record (b.request) { body = value } }

unfoldable pub with_transform : RequestBuilder → Option Transform → RequestBuilder
with_transform b transform = record b { request = record (b.request) { transform = transform } }
