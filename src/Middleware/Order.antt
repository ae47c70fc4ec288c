-- ===== src/Middleware/Order.antt =====
-- middleware.go: middleware runs in the order in which it was added, up to the first error.
use vecto.Base.{◌≡◌, refl, Option, none, some, List, [], ◌∷◌, ◌++◌, arith}
use vecto.Http.{Err}
use vecto.Middleware.{
  MiddlewareFunc, MiddlewareCollection, add_request, add_response, intercept_request,
  intercept_response, run_request, run_response,
}

module _ {S Req : Type 0} where
  -- What a further request middleware makes of the outcome of those before it.
  abbrev pub then_request : Req → MiddlewareFunc S Req → S × Req × Option Err → S × Req × Option Err
  then_request req mw (s, result, some e) = (s, result, some e)
  then_request req mw (s, result, none) =
      let (s', result', err) = mw s result in
      elim err [ some e ↦ (s', req, some e) | none ↦ (s', result', none) ]

  run_request-append :
      (req : Req) (mws : List (MiddlewareFunc S Req)) (mw : MiddlewareFunc S Req) (s : S)
      (result : Req)
      → run_request req (mws ++ mw ∷ []) s result
        ≡ then_request req mw (run_request req mws s result)
  unfolding run_request
  run_request-append req [] mw s result = refl
  run_request-append req (m ∷ mws) mw s result =
      ground (arith, run_request-append req mws mw (m s result).0 (m s result).1)

module _ {S Res : Type 0} where
  abbrev pub then_response :
      MiddlewareFunc S (Option Res) → S × Option Res × Option Err → S × Option Res × Option Err
  then_response mw (s, result, some e) = (s, result, some e)
  then_response mw (s, result, none) = mw s result

  run_response-append :
      (mws : List (MiddlewareFunc S (Option Res))) (mw : MiddlewareFunc S (Option Res)) (s : S)
      (result : Option Res)
      → run_response (mws ++ mw ∷ []) s result ≡ then_response mw (run_response mws s result)
  unfolding run_response
  run_response-append [] mw s result = ground arith
  run_response-append (m ∷ mws) mw s result =
      ground (arith, run_response-append mws mw (m s result).0 (m s result).1)

-- A middleware that is added runs last: on what those before it return, if none of them failed; if
-- one failed it does not run, and a failure of a request middleware gives the first request back.
pub intercept-add :
    {S Req Res : Type 0} (c : MiddlewareCollection S Req Res) (on_request : MiddlewareFunc S Req)
    (on_response : MiddlewareFunc S (Option Res)) (s : S) (req : Req) (res : Res)
    → (intercept_request (add_request c on_request) s req
        ≡ then_request req on_request (intercept_request c s req))
      × (intercept_response (add_response c on_response) s (some res)
          ≡ then_response on_response (intercept_response c s (some res)))
unfolding intercept_request intercept_response add_request add_response
intercept-add c on_request on_response s req res = (
  run_request-append req c.request_mw on_request s req,
  run_response-append c.response_mw on_response s (some res),
)
