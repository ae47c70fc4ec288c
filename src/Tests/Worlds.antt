-- ===== src/Tests/Worlds.antt =====
-- Values that the tests of calls share: a store, and worlds in which the network gives one answer.
use vecto.Base.{
  ℕ, pos, ◌≡◌, refl, ◌++◌, true, false, none, some, List, [], ◌∷◌, codes, insert, copy_into, str_eq,
  get_or, get_elem?, get_elem?-length, set, length,
}
use vecto.Channels.{dispatch}
use vecto.Config.{Config, default_config, default_validate_status}
use vecto.Handler.{execute_request, handle_request_error, get_retry_config}
use vecto.Http.{Request, Response, Result}
use vecto.Metrics.{record_metrics}
use vecto.Middleware.{MiddlewareCollection, intercept_request, intercept_response}
use vecto.NewRequest.{new_request}
use vecto.Pipeline.{serve_unguarded}
use vecto.QueryStruct.{struct_to_query_params}
use vecto.Request.{refresh_url}
use vecto.Request.Builder.{build, with_params, with_headers, new_request_builder}
use vecto.Call.{Objects, CallEnv, CallOutcome, Libraries}
use vecto.Retry.{RetryConfig}
use vecto.Service.Returning.{KeepsRequests}
use vecto.Service.{request, handled, served_by, concluded, answer, complete}
use vecto.Tests.Fixtures.{ascii, http_lib, no_floats, accepting, made_request}
use vecto.Urls.{get_url_instance}
use vecto.Utf8.{runes, decode_rune}
use vecto.Validation.{
  sanitize_url, validate_url, validate_headers, validate_header_name, validate_header_value,
}

abbrev pub ok_response : Response
ok_response = record {
  body = codes "ok";
  status_code = 200;
  request = some made_request;
  raw_request = none;
  raw_response = none;
  success = false;
  trace_info = none;
}

-- Requests and responses in the order in which they were made.
abbrev pub Memory : Type 0
Memory = List Request × List Response

abbrev pub objects : Objects Memory ℕ ℕ
objects = record {
  request_at = λ s p. get_elem? s.0 p;
  write_request = λ s p r. (set s.0 p r, s.1);
  put_request = λ s r. ((s.0 ++ (r ∷ []), s.1), length s.0);
  response_at = λ s q. get_or (get_elem? s.1 q) ok_response;
  put_response = λ s r. ((s.0, s.1 ++ (r ∷ [])), length s.1);
}

abbrev pub no_middleware : MiddlewareCollection Memory ℕ ℕ
no_middleware = record { request_mw = []; response_mw = [] }

pub no_middleware-KeepsRequests : KeepsRequests objects no_middleware
unfolding intercept_response
no_middleware-KeepsRequests s res h = rw (get_elem?-length s.1 res) h

abbrev pub two_attempts : RetryConfig
two_attempts = record {
  times = record {
    max_attempts = pos 2;
    wait_time = pos 0;
    max_wait_time = pos 0;
    respect_retry_after_header = true;
  };
  backoff = none;
  retry_condition = none;
  retry_after = none;
  on_retry = none;
}

abbrev pub libraries : Libraries
libraries = record {
  http = http_lib;
  floats = no_floats;
  unicode = ascii;
  printing = record { show_duration = λ d. []; show = λ v. [] };
  times = record { parse_duration = λ s. none; parse_rfc1123 = λ s. none };
  float_to_duration = λ n. pos n;
  fuel = 2;
}

-- A call that gets one answer.
abbrev pub world : Result → CallEnv Memory ℕ
world result = record {
  network = λ s p. record {
    send = λ n. result;
    ctx_err = λ n. none;
    interrupted = λ n. none;
    now = λ n. pos 0;
    noop = true;
  };
  attempted = λ s p. s;
  meanwhile = λ m. m;
  others = λ b. b;
  channels = record {
    done = λ n. false;
    ready = λ n m. true;
    closed = λ n m. false;
    prefers_done = λ n. false;
    noop = true;
  };
  noop = true;
  started = pos 0;
  asked = pos 1;
  returned = pos 2;
  failed = pos 3;
  measured = pos 3;
  finished = pos 2;
}

abbrev pub collecting : Config
collecting = record default_config { metrics_collector = some 1 }

abbrev pub served_call : CallOutcome Memory
served_call =
    get_or
      (request libraries objects no_middleware collecting
        (world (record { res = some ok_response; err = none })) ([], []) none (codes "/a")
        (codes "GET") (some accepting))
      (record {
        result = record { res = none; err = none };
        store = ([], []);
        manager = none;
        effects = [];
      })

abbrev pub served_response : Response
served_response = record ok_response { success = true }

pub served_call-res : served_call.result.res ≡ some served_response
unfolding request handled served_by concluded answer execute_request serve_unguarded
    handle_request_error new_request sanitize_url validate_url default_config struct_to_query_params
    build with_params with_headers new_request_builder copy_into insert str_eq validate_headers
    validate_header_name runes decode_rune validate_header_value refresh_url get_url_instance
    get_retry_config intercept_request complete intercept_response dispatch record_metrics
    default_validate_status
served_call-res = refl

pub served_call-served :
    request libraries objects no_middleware collecting
      (world (record { res = some ok_response; err = none }))
      ([], [])
      none
      (codes "/a")
      (codes "GET")
      (some accepting)
    ≡ some served_call
unfolding request handled served_by concluded answer execute_request serve_unguarded
    handle_request_error new_request sanitize_url validate_url default_config struct_to_query_params
    build with_params with_headers new_request_builder copy_into insert str_eq validate_headers
    validate_header_name runes decode_rune validate_header_value refresh_url get_url_instance
    get_retry_config intercept_request complete intercept_response dispatch record_metrics
served_call-served = refl
