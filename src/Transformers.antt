-- ===== src/Transformers.antt =====
-- request_transformers.go: the body of a request as JSON. json.Marshal and the transforms of callers
-- are parameters.
use vecto.Base.{ℕ, ◌≡◌, ◌⊎◌, Option, none, some, [], Bytes, arith}
use vecto.Http.{Any, text, Transform, json, custom, RawRequest, Request, Err}
use vecto.Request.{HttpLib, to_http_request}

-- Whether a body is left out: nil or the empty string.
abbrev pub IsLeftOut : Option Any → Type 0
IsLeftOut body = (body ≡ none) ⊎ (body ≡ some (text []))

unfoldable pub application_json_req_transformer :
    (Any → Bytes × Option Err) → Request → Bytes × Option Err
application_json_req_transformer marshal req = elim req.body [
  | none ↦ ([], none)
  | some (text []) ↦ ([], none)
  | some v ↦ marshal v
]

unfoldable pub run_transform :
    (Any → Bytes × Option Err)
    → (ℕ → Request → Bytes × Option Err)
    → Transform
    → Request
    → Bytes × Option Err
unfolding application_json_req_transformer
run_transform marshal others json req = application_json_req_transformer marshal req
run_transform marshal others (custom n) req = others n req

-- A request as JSON without a body, or with the empty string, is sent with no bytes, not as `null` or
-- as a quoted string.
pub body-to_http_request :
    (lib : HttpLib) (marshal : Any → Bytes × Option Err) (others : ℕ → Request → Bytes × Option Err)
    (r r' : Request) (raw : RawRequest) (err : Option Err)
    → r.transform ≡ some json
    → IsLeftOut r.body
    → to_http_request lib (run_transform marshal others) r ≡ some (r', some raw, err)
    → raw.body ≡ []
unfolding to_http_request run_transform
body-to_http_request lib marshal others r r' raw err transform left_out h = ground arith
