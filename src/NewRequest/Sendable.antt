-- ===== src/NewRequest/Sendable.antt =====
-- vecto.go, request_builder.go: newRequest gives an error or a request, and the request has a transform.
use vecto.Base.{
  ◌≡◌, refl, ◌∙◌, Option, none, some, true, is_some, [], ◌∷◌, Bytes, Dict, insert, arith,
  Option-cases, inl, inr, get_or,
}
use vecto.Config.{Config}
use vecto.Http.{Any, Request}
use vecto.NewRequest.{
  new_request_with, RequestOptions, no_options, new_request, finish, started, transform_of,
}
use vecto.NewRequest.Clean.{new_request_with-finish}
use vecto.QueryStruct.{FloatLib, struct_to_query_params}
use vecto.Request.{HttpLib, refresh_url, set_param}
use vecto.Request.Builder.{RequestBuilder, with_param, with_params, build}
use vecto.Validation.{Unicode}

module _ (lib : HttpLib) where
  transform-refresh_url : (r : Request) → (refresh_url lib r).0.transform ≡ r.transform
  unfolding refresh_url
  transform-refresh_url r = ground arith

  transform-set_param :
      (r : Request) (k : Bytes) (v : Any) → (set_param lib r k v).0.transform ≡ r.transform
  unfolding set_param
  transform-set_param r k v =
      ground (arith, transform-refresh_url (record r { params = insert k v r.params }))

  transform-with_params :
      (b : RequestBuilder) (ps : Dict Any)
      → (with_params lib b ps).request.transform ≡ b.request.transform
  unfolding with_params with_param
  transform-with_params b [] = refl
  transform-with_params b ((k, v) ∷ ps) =
      transform-with_params (with_param lib b k v) ps
      ∙ ground (arith, transform-set_param b.request k v)

  transform-build :
      (b : RequestBuilder) (r : Request)
      → (build lib b).0 ≡ some r
      → r.transform ≡ b.request.transform
  unfolding build
  transform-build b r h = ground (arith, transform-refresh_url b.request)

  transform-finish :
      (floats : FloatLib) (b : RequestBuilder) (options : RequestOptions) (r : Request)
      → (finish lib floats b options).0 ≡ some r
      → r.transform ≡ b.request.transform
  unfolding finish
  transform-finish floats b options r h =
      elim (Option-cases (struct_to_query_params floats options.query_struct).1) [
        | inl fine ↦
            let query = get_or (struct_to_query_params floats options.query_struct).0 [] in
            transform-build (with_params lib (with_params lib b query) options.params) r
              (ground arith)
            ∙ transform-with_params (with_params lib b query) options.params
            ∙ transform-with_params b query
        | inr (e, failed) ↦ absurd (ground arith)
      ]

module _ (lib : HttpLib) where
  build-some : (b : RequestBuilder) → (build lib b).1 ≡ none → is_some (build lib b).0 ≡ true
  unfolding build
  build-some b h = ground arith

  finish-some :
      (floats : FloatLib) (b : RequestBuilder) (options : RequestOptions)
      → (finish lib floats b options).1 ≡ none
      → is_some (finish lib floats b options).0 ≡ true
  unfolding finish
  finish-some floats b options h = grind (arith, build-some)

pub new_request-some :
    (lib : HttpLib) (floats : FloatLib) (unicode : Unicode) (config : Config) (url method : Bytes)
    (options : Option RequestOptions)
    → (new_request lib floats unicode config url method options).1 ≡ none
    → is_some (new_request lib floats unicode config url method options).0 ≡ true
unfolding new_request new_request_with
new_request-some lib floats unicode config url method options h = grind (arith, finish-some)

-- That of the options, that of the configuration, or the JSON one.
pub transform-new_request :
    (lib : HttpLib) (floats : FloatLib) (unicode : Unicode) (config : Config)
    (url_str method : Bytes) (options : Option RequestOptions) (r : Request)
    → (new_request lib floats unicode config url_str method options).0 ≡ some r
    → r.transform
      ≡ some (transform_of config.request_transform (get_or options no_options).request_transform)
unfolding new_request started
transform-new_request lib floats unicode config url_str method options r h =
    let given = get_or options no_options in
    let (full, finished) =
      new_request_with-finish lib floats unicode config url_str method given r h in
    transform-finish lib floats (started lib floats unicode config full method given) given r
      finished
