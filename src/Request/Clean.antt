-- ===== src/Request/Clean.antt =====
-- request.go, request_builder.go, auth.go: whatever a caller does with the methods of a request, the
-- headers that it sends are clean.
use vecto.Base.{
  ℕ, ◌≡◌, Option, none, some, List, [], ◌∷◌, ◌++◌, map, Bytes, Dict, insert, copy_into, All, arith,
  inl, inr, codes, ◌⊎◌,
}
use vecto.Base.MapLaws.{All-insert, All-delete, All-copy_into}
use vecto.Http.{Any, RawRequest, Transform, Request, Err}
use vecto.Request.{
  HttpLib, set_header, set_headers, set_param, refresh_url, set_path_param, set_path_params,
  clear_auth, set_basic_auth, set_bearer_token, on_completed, to_http_request, authorization,
  encode_basic_auth,
}
use vecto.Validation.{Unicode, validate_headers, validate_header_name, validate_header_value}
use vecto.Validation.Headers.{
  IsAsciiCompatible, IsName, IsOneLine, IsClean, validate_headers-IsClean,
  validate_header_name-IsName, validate_header_value-IsOneLine,
}

abbrev pub HasCleanHeaders : Request → Type 0
HasCleanHeaders r = All IsClean r.headers

-- The calls that a caller or a middleware can make on a request.
pub data Method : Type 0 where
  sets_header : Bytes → Bytes → Method
  sets_headers : Dict Bytes → Method
  sets_param : Bytes → Any → Method
  sets_path_param : Bytes → Bytes → Method
  sets_path_params : Dict Bytes → Method
  sets_basic_auth : Bytes → Bytes → Method
  sets_bearer_token : Bytes → Method
  clears_auth : Method
  completes_on : ℕ → Method

unfoldable pub apply : HttpLib → Unicode → Request → Method → Request
apply lib unicode r (sets_header k v) = (set_header unicode r k v).0
apply lib unicode r (sets_headers m) = (set_headers unicode r m).0
apply lib unicode r (sets_param k v) = (set_param lib r k v).0
apply lib unicode r (sets_path_param k v) = set_path_param r k v
apply lib unicode r (sets_path_params m) = set_path_params r m
apply lib unicode r (sets_basic_auth u p) = (set_basic_auth unicode r u p).0
apply lib unicode r (sets_bearer_token t) = (set_bearer_token unicode r t).0
apply lib unicode r clears_auth = clear_auth r
apply lib unicode r (completes_on ch) = on_completed r ch

unfoldable pub apply_all : HttpLib → Unicode → Request → List Method → Request
apply_all lib unicode r [] = r
apply_all lib unicode r (m ∷ ms) = apply_all lib unicode (apply lib unicode r m) ms

-- A call leaves the headers alone, or sets a header that passed validation.
headers-set_header :
    (unicode : Unicode) (r : Request) (k v : Bytes)
    → ((set_header unicode r k v).0.headers ≡ r.headers)
      ⊎ ((validate_header_name unicode k ≡ none)
          × (validate_header_value v ≡ none)
          × ((set_header unicode r k v).0.headers ≡ insert k v r.headers))
unfolding set_header
headers-set_header unicode r k v = ground arith

headers-set_headers :
    (unicode : Unicode) (r : Request) (m : Dict Bytes)
    → ((set_headers unicode r m).0.headers ≡ r.headers)
      ⊎ ((validate_headers unicode m ≡ none)
          × ((set_headers unicode r m).0.headers ≡ copy_into r.headers m))
unfolding set_headers
headers-set_headers unicode r m = ground arith

pub headers-refresh_url : (lib : HttpLib) (r : Request) → (refresh_url lib r).0.headers ≡ r.headers
unfolding refresh_url
headers-refresh_url lib r = ground arith

pub headers-set_param :
    (lib : HttpLib) (r : Request) (k : Bytes) (v : Any)
    → (set_param lib r k v).0.headers ≡ r.headers
unfolding set_param
headers-set_param lib r k v =
    ground (arith, headers-refresh_url lib (record r { params = insert k v r.params }))

set_basic_auth-set_header :
    (unicode : Unicode) (r : Request) (u p : Bytes)
    → ((set_basic_auth unicode r u p).0.headers ≡ r.headers)
      ⊎ ((set_basic_auth unicode r u p).0
          ≡ (set_header unicode r authorization (encode_basic_auth u p)).0)
unfolding set_basic_auth
set_basic_auth-set_header unicode r u p = ground arith

set_bearer_token-set_header :
    (unicode : Unicode) (r : Request) (t : Bytes)
    → ((set_bearer_token unicode r t).0.headers ≡ r.headers)
      ⊎ ((set_bearer_token unicode r t).0
          ≡ (set_header unicode r authorization (codes "Bearer " ++ t)).0)
unfolding set_bearer_token
set_bearer_token-set_header unicode r t = ground arith

module _ (unicode : Unicode) (ascii : IsAsciiCompatible unicode) where
  IsClean-header :
      (k v : Bytes)
      → validate_header_name unicode k ≡ none
      → validate_header_value v ≡ none
      → IsClean (k, v)
  IsClean-header k v name value = (
    (validate_header_name-IsName unicode k ascii name).0,
    (validate_header_value-IsOneLine v value).0,
  )

  set_header-clean :
      (r : Request) (k v : Bytes) → HasCleanHeaders r → HasCleanHeaders (set_header unicode r k v).0
  set_header-clean r k v h = elim (headers-set_header unicode r k v) [
    | inl same ↦ rw same h
    | inr (name, value, e) ↦
        rw e (All-insert IsClean k v r.headers (IsClean-header k v name value) h)
  ]

  set_headers-clean :
      (r : Request) (m : Dict Bytes)
      → HasCleanHeaders r
      → HasCleanHeaders (set_headers unicode r m).0
  set_headers-clean r m h = elim (headers-set_headers unicode r m) [
    | inl same ↦ rw same h
    | inr (valid, e) ↦
        rw e (All-copy_into IsClean r.headers m h (validate_headers-IsClean unicode m ascii valid))
  ]

  -- Each method keeps the headers clean.
  apply-clean :
      (lib : HttpLib) (r : Request) (m : Method)
      → HasCleanHeaders r
      → HasCleanHeaders (apply lib unicode r m)
  unfolding apply
  apply-clean lib r (sets_header k v) h = set_header-clean r k v h
  apply-clean lib r (sets_headers m) h = set_headers-clean r m h
  apply-clean lib r (sets_param k v) h = rw (headers-set_param lib r k v) h
  apply-clean lib r (sets_path_param k v) h = unfold set_path_param in h
  apply-clean lib r (sets_path_params m) h = unfold set_path_params in h
  apply-clean lib r (sets_basic_auth u p) h = elim (set_basic_auth-set_header unicode r u p) [
    | inl same ↦ rw same h
    | inr e ↦ rw e (set_header-clean r authorization (encode_basic_auth u p) h)
  ]
  apply-clean lib r (sets_bearer_token t) h = elim (set_bearer_token-set_header unicode r t) [
    | inl same ↦ rw same h
    | inr e ↦ rw e (set_header-clean r authorization (codes "Bearer " ++ t) h)
  ]
  apply-clean lib r clears_auth h =
      unfold clear_auth in All-delete IsClean authorization r.headers h
  apply-clean lib r (completes_on ch) h = unfold on_completed in h

  pub apply_all-clean :
      (lib : HttpLib) (r : Request) (ms : List Method)
      → HasCleanHeaders r
      → HasCleanHeaders (apply_all lib unicode r ms)
  unfolding apply_all
  apply_all-clean lib r [] h = h
  apply_all-clean lib r (m ∷ ms) h =
      apply_all-clean lib (apply lib unicode r m) ms (apply-clean lib r m h)

  -- The header lines that a request puts on the wire.
  abbrev pub IsCleanLine : Bytes × List Bytes → Type 0
  IsCleanLine (name, values) = IsName name × All IsOneLine values

  attached :
      (headers : Dict Bytes)
      → All IsClean headers
      → All IsCleanLine (map (λ e. (e.0, e.1 ∷ [])) headers)
  attached [] h = tt
  attached ((k, v) ∷ headers) (p, ps) = ((p.0, (p.1, tt)), attached headers ps)

  header-to_http_request :
      (lib : HttpLib) (run : Transform → Request → Bytes × Option Err) (r r' : Request)
      (raw : RawRequest) (err : Option Err)
      → to_http_request lib run r ≡ some (r', some raw, err)
      → raw.header ≡ copy_into [] (map (λ e. (e.0, e.1 ∷ [])) r.headers)
  unfolding to_http_request
  header-to_http_request lib run r r' raw err h = ground arith

  -- Whatever a caller does with a request whose headers are clean, no header line of the HTTP
  -- request made from it is broken in two: names hold no line break, colon or blank, values no line
  -- break.
  pub to_http_request-clean :
      (lib : HttpLib) (run : Transform → Request → Bytes × Option Err) (r r' : Request)
      (ms : List Method) (raw : RawRequest) (err : Option Err)
      → HasCleanHeaders r
      → to_http_request lib run (apply_all lib unicode r ms) ≡ some (r', some raw, err)
      → All IsCleanLine raw.header
  to_http_request-clean lib run r r' ms raw err h e =
      rw (header-to_http_request lib run (apply_all lib unicode r ms) r' raw err e)
        (All-copy_into IsCleanLine [] _ tt (attached _ (apply_all-clean lib r ms h)))
