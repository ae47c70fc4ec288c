-- ===== src/NewRequest/Clean.antt =====
-- vecto.go: a new request has the headers of the options and of the configuration, all of them valid.
use vecto.Base.{
  ◌≡◌, refl, ◌∙◌, ap, Option, none, some, List, [], ◌∷◌, Bytes, Dict, lookup, copy_into, All, arith,
  Option-cases, Bool-cases, ◌++◌, str_eq, if◌then◌else◌, codes, lookup-insert, inl, inr, get_or,
}
use vecto.Base.MapLaws.{
  first_some, Distinct, lookup-copy_into, Distinct-insert, Distinct-copy_into, All-copy_into,
}
use vecto.Http.{Any, RawRequest, Transform, Request, Err}
use vecto.NewRequest.{
  RequestOptions, no_options, new_request, new_request_with, finish, started, request_headers,
  path_of, set_form_type, content_type,
}
use vecto.QueryStruct.{FloatLib, struct_to_query_params}
use vecto.Config.{Config}
use vecto.Request.{HttpLib, to_http_request}
use vecto.Request.Builder.{
  RequestBuilder, new_request_builder, with_headers, with_param, with_params, build,
}
use vecto.Request.Clean.{
  HasCleanHeaders, IsCleanLine, Method, apply_all, to_http_request-clean, headers-set_param,
  headers-refresh_url,
}
use vecto.Substring.{is_empty}
use vecto.Validation.{Unicode, validate_headers, validate_url, sanitize_url}
use vecto.Validation.Headers.{IsAsciiCompatible, IsClean, validate_headers-IsClean}

module _ (lib : HttpLib) where
  headers-with_params :
      (b : RequestBuilder) (ps : Dict Any)
      → (with_params lib b ps).request.headers ≡ b.request.headers
  unfolding with_params with_param
  headers-with_params b [] = refl
  headers-with_params b ((k, v) ∷ ps) =
      headers-with_params (with_param lib b k v) ps
      ∙ ground (arith, headers-set_param lib b.request k v)

  headers-build :
      (b : RequestBuilder) (r : Request) → (build lib b).0 ≡ some r → r.headers ≡ b.request.headers
  unfolding build
  headers-build b r h = ground (arith, headers-refresh_url lib b.request)

  headers-finish :
      (floats : FloatLib) (b : RequestBuilder) (options : RequestOptions) (r : Request)
      → (finish lib floats b options).0 ≡ some r
      → r.headers ≡ b.request.headers
  unfolding finish
  headers-finish floats b options r h =
      elim (Option-cases (struct_to_query_params floats options.query_struct).1) [
        | inl fine ↦
            let query = get_or (struct_to_query_params floats options.query_struct).0 [] in
            headers-build (with_params lib (with_params lib b query) options.params) r
              (ground arith)
            ∙ headers-with_params (with_params lib b query) options.params
            ∙ headers-with_params b query
        | inr (e, failed) ↦ absurd (ground arith)
      ]

module _ (lib : HttpLib) where
  err-with_param :
      (b : RequestBuilder) (k : Bytes) (v : Any) → (with_param lib b k v).err ≡ none → b.err ≡ none
  unfolding with_param
  err-with_param b k v h = ground arith

  err-with_params :
      (b : RequestBuilder) (ps : Dict Any) → (with_params lib b ps).err ≡ none → b.err ≡ none
  unfolding with_params
  err-with_params b [] h = h
  err-with_params b ((k, v) ∷ ps) h =
      err-with_param b k v (err-with_params (with_param lib b k v) ps h)

  err-build : (b : RequestBuilder) (r : Request) → (build lib b).0 ≡ some r → b.err ≡ none
  unfolding build
  err-build b r h = ground arith

  err-finish :
      (floats : FloatLib) (b : RequestBuilder) (options : RequestOptions) (r : Request)
      → (finish lib floats b options).0 ≡ some r
      → b.err ≡ none
  unfolding finish
  err-finish floats b options r h =
      elim (Option-cases (struct_to_query_params floats options.query_struct).1) [
        | inl fine ↦
            let query = get_or (struct_to_query_params floats options.query_struct).0 [] in
            let b' = with_params lib b query in
            err-with_params b query (
              err-with_params b' options.params
                (err-build (with_params lib b' options.params) r (ground arith)))
        | inr (e, failed) ↦ absurd (ground arith)
      ]

with_headers_ok :
    (unicode : Unicode) (url method : Bytes) (hs : Dict Bytes)
    → (with_headers unicode (new_request_builder url method) hs).err ≡ none
    → ((with_headers unicode (new_request_builder url method) hs).request.headers ≡ copy_into [] hs)
      × (validate_headers unicode hs ≡ none)
unfolding with_headers new_request_builder
with_headers_ok unicode url method [] h = unfold copy_into validate_headers in (refl, refl)
with_headers_ok unicode url method (e ∷ hs) h = ground arith

module _ (lib : HttpLib) (floats : FloatLib) (unicode : Unicode) (config : Config)
    (url_str method : Bytes) where
  pub new_request_with-finish :
      (options : RequestOptions) (r : Request)
      → (new_request_with lib floats unicode config url_str method options).0 ≡ some r
      → (full : Bytes) × ((finish lib floats
            (started lib floats unicode config full method options)
            options).0
          ≡ some r)
  unfolding new_request_with
  new_request_with-finish options r h = elim (Bool-cases (is_empty (sanitize_url url_str))) [
    | inl empty ↦ absurd (ground arith)
    | inr some_url ↦
        elim (Option-cases (validate_url lib.urls (config.base_url ++ sanitize_url url_str))) [
          | inl valid ↦
              let url = config.base_url ++ sanitize_url url_str in
              (path_of lib floats unicode config options.path_params url, ground arith)
          | inr (e, bad) ↦ absurd (ground arith)
        ]
  ]

  -- A request that is made has the headers of the configuration with those of the options copied
  -- over them, and they are valid.
  headers-new_request :
      (options : RequestOptions) (r : Request)
      → (new_request_with lib floats unicode config url_str method options).0 ≡ some r
      → (r.headers ≡ copy_into [] (request_headers config options))
        × (validate_headers unicode (request_headers config options) ≡ none)
  unfolding started
  headers-new_request options r h =
      let (full, finished) = new_request_with-finish options r h in
      let b = started lib floats unicode config full method options in
      let ok =
        with_headers_ok unicode full method (request_headers config options)
          (err-finish lib floats b options r finished) in
      (headers-finish lib floats b options r finished ∙ ok.0, ok.1)

-- What a form adds.
abbrev pub form_header : Option (Dict Bytes) → Bytes → Option Bytes
form_header none key = none
form_header (some form) key =
    if str_eq content_type key then some (codes "application/x-www-form-urlencoded") else none

lookup-set_form_type :
    (key : Bytes) (form : Option (Dict Bytes)) (hs : Dict Bytes)
    → lookup key (set_form_type form hs) ≡ first_some (form_header form key) (lookup key hs)
lookup-set_form_type key none hs = refl
lookup-set_form_type key (some form) hs =
    lookup-insert content_type key (codes "application/x-www-form-urlencoded") hs ∙ ground arith

lookup-copied :
    (key : Bytes) (m : Dict Bytes) → Distinct m → lookup key (copy_into [] m) ≡ lookup key m
unfolding lookup
lookup-copied key m d = lookup-copy_into key [] m d ∙ by_case (lookup key m)
  where
    by_case : (o : Option Bytes) → first_some o none ≡ o
    by_case none = refl
    by_case (some v) = refl

request_headers-Distinct :
    (config : Config) (options : RequestOptions) → Distinct (request_headers config options)
unfolding request_headers
request_headers-Distinct config options =
    by_form options.form_data (copy_into (copy_into [] config.headers) options.headers)
      (Distinct-copy_into _ options.headers (Distinct-copy_into [] config.headers tt))
  where
    by_form :
        (form : Option (Dict Bytes)) (hs : Dict Bytes)
        → Distinct hs
        → Distinct (set_form_type form hs)
    by_form none hs d = d
    by_form (some form) hs d = Distinct-insert content_type _ hs d

new_request-clean :
    (lib : HttpLib) (floats : FloatLib) (unicode : Unicode) (ascii : IsAsciiCompatible unicode)
    (config : Config) (url_str method : Bytes) (options : RequestOptions) (r : Request)
    → (new_request_with lib floats unicode config url_str method options).0 ≡ some r
    → HasCleanHeaders r
new_request-clean lib floats unicode ascii config url_str method options r h =
    let (same, valid) = headers-new_request lib floats unicode config url_str method options r h in
    rw same (
      All-copy_into IsClean [] (request_headers config options) tt
        (validate_headers-IsClean unicode _ ascii valid))

-- The headers of a request that Vecto makes: the options' come before the configuration's, and a form
-- brings its own content type (for maps that hold each key once).
pub lookup-new_request :
    (lib : HttpLib) (floats : FloatLib) (unicode : Unicode) (config : Config)
    (url_str method : Bytes) (options : RequestOptions) (r : Request) (key : Bytes)
    → Distinct config.headers
    → Distinct options.headers
    → (new_request lib floats unicode config url_str method (some options)).0 ≡ some r
    → lookup key r.headers
      ≡ first_some
          (form_header options.form_data key)
          (first_some (lookup key options.headers) (lookup key config.headers))
unfolding new_request request_headers
lookup-new_request lib floats unicode config url_str method options r key dc do_ h =
    ap (lookup key) (headers-new_request lib floats unicode config url_str method options r h).0
    ∙ lookup-copied key (request_headers config options) (request_headers-Distinct config options)
    ∙ lookup-set_form_type key options.form_data _
    ∙ ap (λ o. first_some (form_header options.form_data key) o)
        (lookup-copy_into key (copy_into [] config.headers) options.headers do_
          ∙ ap (first_some (lookup key options.headers)) (lookup-copied key config.headers dc))

-- Whatever a caller does with a request that Vecto made for it, no header line of the HTTP request made
-- from it is broken in two: names hold no line break, colon or blank, values no line break.
pub to_http_request-new_request :
    (lib : HttpLib) (floats : FloatLib) (unicode : Unicode) (ascii : IsAsciiCompatible unicode)
    (config : Config) (url_str method : Bytes) (options : Option RequestOptions) (r r' : Request)
    (run : Transform → Request → Bytes × Option Err) (ms : List Method) (raw : RawRequest)
    (err : Option Err)
    → (new_request lib floats unicode config url_str method options).0 ≡ some r
    → to_http_request lib run (apply_all lib unicode r ms) ≡ some (r', some raw, err)
    → All (IsCleanLine unicode ascii) raw.header
unfolding new_request
to_http_request-new_request lib floats unicode ascii config url_str method options r r' run ms raw
      err h sent =
    to_http_request-clean unicode ascii lib run r r' ms raw err
      (new_request-clean lib floats unicode ascii config url_str method (get_or options no_options)
        r h)
      sent
