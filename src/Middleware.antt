-- ===== src/Middleware.antt =====
-- middleware.go, and the functions of vecto.go that run the middleware. A middleware is a function of
-- the caller that reads and writes the objects of the program: `S` is their store, `P` a pointer to
-- the request or the response. Each method of the collection holds its lock throughout.
pub mod Order
use vecto.Base.{Option, none, some, List, [], ◌∷◌, ◌++◌}
use vecto.Http.{Err}

-- RequestMiddlewareFunc and ResponseMiddlewareFunc: the pointer that is returned, and the error.
abbrev pub MiddlewareFunc : Type 0 → Type 0 → Type 0
MiddlewareFunc S P = S → P → S × P × Option Err

pub record MiddlewareCollection (S Req Res : Type 0) : Type 0 where
  pub request_mw : List (MiddlewareFunc S Req)
  pub response_mw : List (MiddlewareFunc S (Option Res))

module _ {S Req : Type 0} where
  -- The loop of interceptRequest; an error gives back the pointer that it began with.
  run_request : Req → List (MiddlewareFunc S Req) → S → Req → S × Req × Option Err
  run_request req [] s result = (s, result, none)
  run_request req (mw ∷ mws) s result =
      let (s', result', err) = mw s result in
      let rest = run_request req mws s' result' in
      elim err [ some e ↦ (s', req, some e) | none ↦ rest ]

module _ {S Res : Type 0} where
  -- The loop of interceptResponse; an error gives back what its middleware returned.
  run_response : List (MiddlewareFunc S (Option Res)) → S → Option Res → S × Option Res × Option Err
  run_response [] s result = (s, result, none)
  run_response (mw ∷ mws) s result =
      let (s', result', err) = mw s result in
      let rest = run_response mws s' result' in
      elim err [ some e ↦ (s', result', some e) | none ↦ rest ]

module _ {S Req Res : Type 0} where
  unfoldable pub new_middleware_collection : MiddlewareCollection S Req Res
  new_middleware_collection = record { request_mw = []; response_mw = [] }

  unfoldable pub add_request :
      MiddlewareCollection S Req Res → MiddlewareFunc S Req → MiddlewareCollection S Req Res
  add_request c mw = record c { request_mw = c.request_mw ++ mw ∷ [] }

  unfoldable pub add_response :
      MiddlewareCollection S Req Res
      → MiddlewareFunc S (Option Res)
      → MiddlewareCollection S Req Res
  add_response c mw = record c { response_mw = c.response_mw ++ mw ∷ [] }

  -- Copies, nil for an empty list.
  abbrev pub get_request : MiddlewareCollection S Req Res → List (MiddlewareFunc S Req)
  get_request c = c.request_mw

  abbrev pub get_response : MiddlewareCollection S Req Res → List (MiddlewareFunc S (Option Res))
  get_response c = c.response_mw

  unfoldable pub intercept_request : MiddlewareCollection S Req Res → S → Req → S × Req × Option Err
  unfolding run_request
  intercept_request c s req = run_request req (get_request c) s req

  unfoldable pub intercept_response :
      MiddlewareCollection S Req Res → S → Option Res → S × Option Res × Option Err
  unfolding run_response
  intercept_response c s none = (s, none, none)
  intercept_response c s (some res) = run_response (get_response c) s (some res)
