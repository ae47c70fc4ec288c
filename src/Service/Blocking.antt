-- ===== src/Service/Blocking.antt =====
-- vecto.go, request_handler.go: a call that asks for the key of its circuit breaker.
use vecto.Base.{ℤ, ◌≡◌, ap, false, Option, none, some, [], ◌∷◌, Bytes, Dict, arith, get_or}
use vecto.Breaker.Manager.{CircuitBreakerManager}
use vecto.Config.{Config}
use vecto.Handler.{get_retry_config}
use vecto.Handler.Locking.{get_or_set_circuit_breaker_key-blocks}
use vecto.Http.{Any, Request}
use vecto.Middleware.{MiddlewareCollection, intercept_request}
use vecto.NewRequest.{RequestOptions, no_options, new_request, finish, started}
use vecto.NewRequest.Clean.{new_request_with-finish}
use vecto.QueryStruct.{FloatLib}
use vecto.Request.{HttpLib, set_param, refresh_url}
use vecto.Request.Builder.{
  RequestBuilder, unlocked, new_request_builder, with_headers, with_param, with_params, build,
}
use vecto.Retry.{RetryConfig}
use vecto.Call.{Objects, CallEnv, Libraries}
use vecto.Service.{guarded, served_by, handled, request}
use vecto.Validation.{Unicode}

-- Nobody holds the request's lock, and its key is not known yet.
abbrev pub IsFresh : Request → Type 0
IsFresh r = (r.mu ≡ unlocked) × (r.cb_key_cached ≡ false)

module _ (lib : HttpLib) where
  refresh_url-IsFresh : (r : Request) → IsFresh r → IsFresh (refresh_url lib r).0
  unfolding refresh_url
  refresh_url-IsFresh r h = ground arith

  set_param-IsFresh :
      (r : Request) (k : Bytes) (v : Any) → IsFresh r → IsFresh (set_param lib r k v).0
  unfolding set_param
  set_param-IsFresh r k v h = grind (arith, refresh_url-IsFresh)

  with_param-IsFresh :
      (b : RequestBuilder) (k : Bytes) (v : Any)
      → IsFresh b.request
      → IsFresh (with_param lib b k v).request
  unfolding with_param
  with_param-IsFresh b k v h = grind (arith, set_param-IsFresh)

  with_params-IsFresh :
      (b : RequestBuilder) (ps : Dict Any)
      → IsFresh b.request
      → IsFresh (with_params lib b ps).request
  unfolding with_params
  with_params-IsFresh b [] h = h
  with_params-IsFresh b ((k, v) ∷ ps) h =
      with_params-IsFresh (with_param lib b k v) ps (with_param-IsFresh b k v h)

  build-IsFresh :
      (b : RequestBuilder) (r : Request) → IsFresh b.request → (build lib b).0 ≡ some r → IsFresh r
  unfolding build
  build-IsFresh b r h e = grind (arith, refresh_url-IsFresh)

  finish-IsFresh :
      (floats : FloatLib) (b : RequestBuilder) (options : RequestOptions) (r : Request)
      → IsFresh b.request
      → (finish lib floats b options).0 ≡ some r
      → IsFresh r
  unfolding finish
  finish-IsFresh floats b options r h e = grind (arith, build-IsFresh, with_params-IsFresh)

started-IsFresh :
    (lib : HttpLib) (floats : FloatLib) (unicode : Unicode) (config : Config) (url method : Bytes)
    (options : RequestOptions)
    → IsFresh (started lib floats unicode config url method options).request
unfolding started with_headers new_request_builder
started-IsFresh lib floats unicode config url method options = ground arith

new_request-IsFresh :
    (lib : HttpLib) (floats : FloatLib) (unicode : Unicode) (config : Config) (url method : Bytes)
    (options : Option RequestOptions) (r : Request)
    → (new_request lib floats unicode config url method options).0 ≡ some r
    → IsFresh r
unfolding new_request
new_request-IsFresh lib floats unicode config url method options r h =
    let o = get_or options no_options in
    let (full, e) = new_request_with-finish lib floats unicode config url method o r h in
    finish-IsFresh lib floats (started lib floats unicode config full method o) o r
      (started-IsFresh lib floats unicode config full method o) e

module _ {S Req Res : Type 0} (libs : Libraries) (objects : Objects S Req Res)
    (middleware : MiddlewareCollection S Req Res) (config : Config) (env : CallEnv S Req) where
  guarded-blocks :
      (s : S) (m : CircuitBreakerManager) (p : Req) (retry : Option RetryConfig) (req : Request)
      → objects.request_at s p ≡ some req
      → IsFresh req
      → guarded libs objects middleware config env s m p retry ≡ none
  unfolding guarded
  guarded-blocks s m p retry req e (free, fresh) =
      ground (arith, get_or_set_circuit_breaker_key-blocks req free)

  handled-blocks :
      (s : S) (m : CircuitBreakerManager) (req : Request) (max_retries : Option ℤ)
      → config.adapter ≡ none
      → middleware.request_mw ≡ []
      → objects.request_at (objects.put_request s req).0 (objects.put_request s req).1 ≡ some req
      → IsFresh req
      → handled libs objects middleware config env s (some m) req max_retries ≡ none
  unfolding handled served_by intercept_request
  handled-blocks s m req max_retries direct plain stored fresh =
      ground
        (arith, guarded-blocks _ m _ (get_retry_config config.retry max_retries) req stored fresh)

  -- With circuit breakers, and neither an adapter nor request middleware, no call for which a request
  -- can be made returns, if the store gives back what is put into it: the call waits for ever for the
  -- lock of its own request, which it holds while it asks for the key of the breaker.
  pub request-blocks :
      (s : S) (m : CircuitBreakerManager) (url method : Bytes) (options : Option RequestOptions)
      (r : Request)
      → config.adapter ≡ none
      → middleware.request_mw ≡ []
      → new_request libs.http libs.floats libs.unicode config url method options ≡ (some r, none)
      → objects.request_at (objects.put_request s r).0 (objects.put_request s r).1 ≡ some r
      → request libs objects middleware config env s (some m) url method options ≡ none
  unfolding request
  request-blocks s m url method options r direct plain made stored =
      let fresh =
        new_request-IsFresh libs.http libs.floats libs.unicode config url method options r
          (ap (λ t. t.0) made) in
      ground (
        arith,
        handled-blocks s m r (elim options [ none ↦ none | some o ↦ o.max_retries ]) direct plain
            stored fresh,
      )
