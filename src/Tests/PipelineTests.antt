-- ===== src/Tests/PipelineTests.antt =====
-- middleware.go, channels.go, vecto.go: one middleware that counts, and two channels, of which one is ready.
use vecto.Base.{
  ℕ, suc, pos, ◌≡◌, refl, sym, ◌==◌, Bool, true, false, Option, none, some, List, [], ◌∷◌,
}
use vecto.Http.{Request, Response, Err, Result, message}
use vecto.Request.Builder.{unlocked}
use vecto.Response.{deep_copy}
use mathlib.Core.Option.{none-ne-some}
use vecto.Breaker.{CircuitBreaker, new_circuit_breaker, default_circuit_breaker_config}
use vecto.Pipeline.{Served, serve_guarded}
use vecto.Pipeline.Reports.{Reported, serve_guarded-Reported}
use vecto.Channels.{ChannelEnv, Dispatched, dispatch}
use vecto.Channels.Delivery.{deliveries, ready_from, dispatch-delivers}
use vecto.Middleware.{
  MiddlewareFunc, MiddlewareCollection, add_request, add_response, intercept_request,
  intercept_response,
}
use vecto.Middleware.Order.{then_request, then_response, intercept-add}

abbrev second_only : ChannelEnv
second_only = record {
  done = λ n. false;
  ready = λ n ch. ch == 8;
  closed = λ n m. false;
  prefers_done = λ n. false;
  noop = false;
}

abbrev watched : Request
watched = record {
  mu = unlocked;
  base_url = [];
  url = [];
  host = [];
  scheme = [];
  path = [];
  method = [];
  params = [];
  headers = [];
  body = none;
  transform = none;
  raw_req = none;
  channels = 7 ∷ 8 ∷ [];
  cb_key = [];
  cb_key_cached = false;
}

abbrev answer : Response
answer = record {
  body = [];
  status_code = 200;
  request = some watched;
  raw_request = none;
  raw_response = none;
  success = true;
  trace_info = none;
}

dispatch-delivers_example :
    (ds : List Dispatched) × (dispatch second_only (some answer) ≡ some ds)
    × (deliveries ds ≡ ready_from second_only.ready (deep_copy (some answer)) 0 (7 ∷ 8 ∷ []))
dispatch-delivers_example =
    dispatch-delivers second_only answer watched refl (λ k ch. refl) (λ k. refl)

-- A send on a closed channel panics.
closed_test : dispatch (record second_only { closed = λ n ch. ch == 7 }) (some answer) ≡ none
unfolding dispatch
closed_test = refl

-- Pointers are numbers, and the store counts the calls.
abbrev counts : MiddlewareFunc ℕ ℕ
counts calls req = (suc calls, req, none)

abbrev fails : MiddlewareFunc ℕ (Option ℕ)
fails calls res = (suc calls, none, some (message []))

abbrev counting : MiddlewareCollection ℕ ℕ ℕ
counting = record { request_mw = counts ∷ []; response_mw = [] }

intercept-add_example :
    (intercept_request (add_request counting counts) 0 5
      ≡ then_request 5 counts (intercept_request counting 0 5))
    × (intercept_response (add_response counting fails) 0 (some 6)
        ≡ then_response fails (intercept_response counting 0 (some 6)))
intercept-add_example = intercept-add counting counts fails 0 5 6

-- A new breaker, and a client that answers at once.
abbrev fresh : CircuitBreaker
fresh = new_circuit_breaker [] default_circuit_breaker_config (pos 0)

abbrev answers : CircuitBreaker → Result × CircuitBreaker
answers breaker = (record { res = some answer; err = none }, breaker)

abbrev accepts : Option Response → Bool
accepts res = true

abbrev no_error : Option Err
no_error = none

not_nil : ¬ ((no_error ≡ none) × (some answer ≡ none))
not_nil p = none-ne-some answer (sym p.1)

serve_guarded-Reported_example :
    (served : Served) × (last : CircuitBreaker) × (serve_guarded accepts fresh
        (pos 1)
        answers
        (pos 2)
        (pos 3)
      ≡ some (served, last))
    × Reported accepts fresh (pos 1) answers (pos 2) (pos 3) served last
serve_guarded-Reported_example =
    serve_guarded-Reported accepts fresh (pos 1) answers (pos 2) (pos 3) not_nil
