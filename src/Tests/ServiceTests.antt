-- ===== src/Tests/ServiceTests.antt =====
-- vecto.go: calls of Request on a network that gives one answer.
use vecto.Tests.Worlds.{
  ok_response, Memory, objects, no_middleware, libraries, world, collecting, served_call,
  served_call-served, served_call-res, served_response,
}
use vecto.Service.Logged.{alarms, deserved, alarms-request}
use vecto.Logger.{log_debug, log_error}
use vecto.Service.Metered.{AllAgree, request-AllAgree}
use vecto.Service.Origin.{CameFromNetwork, request-CameFromNetwork}
use vecto.Base.{
  false, get_elem?-length, ℕ, ◌≡◌, refl, ◌⊎◌, none, some, [], ◌∷◌, codes, insert, copy_into, str_eq,
}
use vecto.Breaker.{default_circuit_breaker_config}
use vecto.Breaker.Manager.{new_circuit_breaker_manager}
use vecto.Config.{default_config}
use vecto.Handler.{execute_request, handle_request_error, get_retry_config}
use vecto.Http.{message, wrapped}
use vecto.Metrics.{record_metrics}
use vecto.Middleware.{intercept_request}
use vecto.NewRequest.{new_request}
use vecto.Pipeline.{serve_unguarded}
use vecto.QueryStruct.{struct_to_query_params}
use vecto.Request.{refresh_url}
use vecto.Request.Builder.{build, with_params, with_headers, new_request_builder}
use vecto.Call.{logged, CallEnv, CallOutcome}
use vecto.Service.{request, handled, served_by, concluded, answer}
use vecto.Service.Blocking.{request-blocks}
use vecto.Service.Recorded.{records, wanted, request-records}
use vecto.Service.Settled.{offers, IsFailure, IsSuccess, request-settles}
use vecto.Tests.Fixtures.{accepting, made_request, made_request-made}
use vecto.Urls.{get_url_instance}
use vecto.Utf8.{runes, decode_rune}
use vecto.Validation.{
  sanitize_url, validate_url, validate_headers, validate_header_name, validate_header_value,
}

request-records_example : records served_call.effects ≡ wanted collecting.metrics_collector
request-records_example =
    request-records libraries objects no_middleware collecting
      (world (record { res = some ok_response; err = none })) ([], []) none (codes "/a")
      (codes "GET") (some accepting) served_call served_call-served

request-AllAgree_example : AllAgree served_call.effects served_call.result
request-AllAgree_example =
    request-AllAgree libraries objects no_middleware collecting
      (world (record { res = some ok_response; err = none })) ([], []) none (codes "/a")
      (codes "GET") (some accepting) served_call served_call-served

request-CameFromNetwork_example :
    CameFromNetwork libraries objects no_middleware collecting
      (world (record { res = some ok_response; err = none }))
      served_response
unfolding default_config
request-CameFromNetwork_example =
    request-CameFromNetwork libraries objects no_middleware collecting
      (world (record { res = some ok_response; err = none })) ([], []) none (codes "/a")
      (codes "GET") (some accepting) served_response served_call refl refl
      (λ s r. rw (get_elem?-length s.1 r)) served_call-served served_call-res

abbrev refused : CallEnv Memory ℕ
refused = world (record { res = none; err = some (message (codes "refused")) })

abbrev failed_call : CallOutcome Memory
failed_call = record {
  result = record {
    res = none;
    err = some (wrapped (codes "http request failed") (message (codes "refused")));
  };
  store = (made_request ∷ [], []);
  manager = none;
  effects = [];
}

request-settles_example :
    (IsFailure failed_call.result × (offers failed_call.effects ≡ 0)) ⊎ IsSuccess failed_call.result
unfolding request handled served_by concluded answer execute_request serve_unguarded
    handle_request_error new_request sanitize_url validate_url default_config struct_to_query_params
    build with_params with_headers new_request_builder copy_into insert str_eq validate_headers
    validate_header_name runes decode_rune validate_header_value refresh_url get_url_instance
    get_retry_config intercept_request record_metrics
request-settles_example =
    request-settles libraries objects no_middleware default_config refused ([], []) none
      (codes "/a") (codes "GET") (some accepting) failed_call refl refl

abbrev loud : CallEnv Memory ℕ
loud = record refused { noop = false }

abbrev loud_call : CallOutcome Memory
loud_call = record failed_call {
  effects =
      logged (record { level = log_debug; message = codes "request created" })
      ∷ logged (record { level = log_error; message = codes "http request failed" })
      ∷ [];
}

alarms-request_example :
    alarms loud_call.effects ≡ deserved loud.noop loud_call.result loud_call.effects
unfolding request handled served_by concluded answer execute_request serve_unguarded
    handle_request_error new_request sanitize_url validate_url default_config struct_to_query_params
    build with_params with_headers new_request_builder copy_into insert str_eq validate_headers
    validate_header_name runes decode_rune validate_header_value refresh_url get_url_instance
    get_retry_config intercept_request record_metrics
alarms-request_example =
    alarms-request libraries objects no_middleware default_config loud ([], []) none (codes "/a")
      (codes "GET") (some accepting) loud_call refl refl

request-blocks_example :
    request libraries objects no_middleware default_config refused
      ([], [])
      (some (new_circuit_breaker_manager [] default_circuit_breaker_config none))
      (codes "/a")
      (codes "GET")
      (some accepting)
    ≡ none
unfolding default_config new_circuit_breaker_manager
request-blocks_example =
    request-blocks libraries objects no_middleware default_config refused ([], [])
      (new_circuit_breaker_manager [] default_circuit_breaker_config none) (codes "/a")
      (codes "GET") (some accepting) made_request refl refl made_request-made refl
