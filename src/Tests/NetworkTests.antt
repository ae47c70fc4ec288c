-- ===== src/Tests/NetworkTests.antt =====
-- vecto.go, client.go, trace.go: a Vecto with a server that answers "hi", and a curl command.
use vecto.Tests.Worlds.{
  Memory, objects, no_middleware, libraries, world, two_attempts, no_middleware-KeepsRequests,
}
use vecto.Instance.{Vecto, new}
use vecto.Client.{respond, client_do}
use vecto.Client.Body.{IsWithin}
use vecto.Network.{Wire, client_network, send_once}
use vecto.Network.Answers.{request-answers}
use vecto.Service.Returning.{Prepares}
use vecto.Service.Settled.{offers, IsFailure, IsSuccess}
use vecto.Retry.{validate_retry_config}
use vecto.Network.Limits.{byte_limit, request-IsWithin}
use vecto.Service.Quiet.{texts, texts-request-new}
use vecto.Trace.{to_curl, format_data_for_curl}
use vecto.Trace.Curl.{between, words, header_words, body_words, body_text, words-to_curl}
use vecto.Config.{merge_config, validate_config, validate_size, validate_base_url}
use vecto.Transport.{made, make_client}
use vecto.Request.{to_http_request}
use vecto.Tests.Fixtures.{raw_of, whole_urls, no_body, plain, any_tls}
use vecto.Base.{
  arith, get_elem?-length, ℕ, pos, ◌≡◌, ◌⊎◌, refl, ◌++◌, true, false, is_some, none, some, [], ◌∷◌,
  codes, insert, copy_into, str_eq, get_or,
}
use vecto.Channels.{dispatch}
use vecto.Config.{Config, default_config}
use vecto.Handler.{execute_request, handle_request_error, get_retry_config}
use vecto.Http.{text, Request}
use vecto.Metrics.{record_metrics}
use vecto.Middleware.{intercept_request, intercept_response}
use vecto.NewRequest.{new_request}
use vecto.Pipeline.{serve_unguarded}
use vecto.QueryStruct.{struct_to_query_params}
use vecto.Request.{refresh_url}
use vecto.Request.Builder.{build, with_params, with_headers, new_request_builder}
use vecto.Call.{CallEnv, CallOutcome}
use vecto.Service.{request, handled, served_by, concluded, answer, complete}
use vecto.Tests.Fixtures.{ascii, http_lib, accepting}
use vecto.Urls.{get_url_instance}
use vecto.Utf8.{runes, decode_rune}
use vecto.Validation.{
  sanitize_url, validate_url, validate_headers, validate_header_name, validate_header_value,
}

abbrev hi_wire : Wire
hi_wire = record {
  http_do = λ n raw. record {
    answer =
        some (raw_of [], record { content = codes "hi"; failure = none; with_last_bytes = false });
    failure = none;
    events = [];
  };
  run = no_body;
  ctx_err = λ n. none;
  interrupted = λ n. none;
  now = λ n. pos 0;
  begins = λ n. pos 0;
  ends = λ n. pos 1;
  noop = true;
}

-- With debug mode and tracing.
abbrev talkative : Config
talkative = record default_config { debug_mode = true; enable_trace = true }

abbrev made_vecto : Vecto
made_vecto = record {
  config = merge_config talkative default_config;
  http_client = record { timeout = pos 30_000_000_000; transport = made none (pos 50_000_000_000) };
  logger = none;
  circuit_breaker_mgr = none;
}

made_vecto-made : (new whole_urls ascii any_tls [] talkative).0 ≡ some made_vecto
unfolding new validate_config validate_size validate_base_url default_config validate_headers
    validate_header_name runes decode_rune validate_header_value make_client merge_config copy_into
    insert str_eq
made_vecto-made = refl

abbrev wired : CallEnv Memory ℕ
wired = record (world (record { res = none; err = none })) {
  network = client_network http_lib hi_wire made_vecto.config objects;
}

abbrev wired_call : CallOutcome Memory
wired_call =
    get_or
      (request libraries objects no_middleware made_vecto.config wired ([], []) none (codes "/a")
        (codes "GET") (some accepting))
      (record {
        result = record { res = none; err = none };
        store = ([], []);
        manager = none;
        effects = [];
      })

wired_call-called :
    request libraries objects no_middleware made_vecto.config wired
      ([], [])
      none
      (codes "/a")
      (codes "GET")
      (some accepting)
    ≡ some wired_call
unfolding request handled served_by concluded answer execute_request serve_unguarded
    handle_request_error new_request sanitize_url validate_url default_config struct_to_query_params
    build with_params with_headers new_request_builder copy_into insert str_eq validate_headers
    validate_header_name runes decode_rune validate_header_value refresh_url get_url_instance
    get_retry_config intercept_request complete intercept_response dispatch record_metrics
    merge_config send_once client_do respond to_http_request
wired_call-called = refl

texts-request-new_example : texts wired_call.effects ≡ []
texts-request-new_example =
    texts-request-new whole_urls ascii any_tls [] talkative made_vecto libraries objects
      no_middleware wired ([], []) (codes "/a") (codes "GET") (some accepting) wired_call
      made_vecto-made wired_call-called

request-IsWithin_example : IsWithin (byte_limit made_vecto.config) wired_call.result.res
unfolding merge_config default_config
request-IsWithin_example =
    request-IsWithin whole_urls ascii any_tls [] talkative made_vecto libraries hi_wire objects
      no_middleware (world (record { res = none; err = none })) ([], []) (codes "/a") (codes "GET")
      (some accepting) wired_call made_vecto-made refl refl (λ s r. rw (get_elem?-length s.1 r))
      wired_call-called

-- With retries.
abbrev patient : Config
patient = record talkative { retry = some two_attempts }

abbrev patient_vecto : Vecto
patient_vecto = record made_vecto { config = merge_config patient default_config }

patient_vecto-made : (new whole_urls ascii any_tls [] patient).0 ≡ some patient_vecto
unfolding new validate_config validate_size validate_base_url default_config validate_headers
    validate_header_name runes decode_rune validate_header_value make_client merge_config copy_into
    insert str_eq validate_retry_config
patient_vecto-made = refl

put-Prepares : (req : Request) → is_some req.transform ≡ true → Prepares objects no_middleware req
unfolding intercept_request
put-Prepares req h s = rw (get_elem?-length s.0 req) h

request-answers_example :
    (out : CallOutcome Memory) × (request libraries objects no_middleware patient_vecto.config
        (record (world (record { res = none; err = none })) {
          network = client_network libraries.http hi_wire patient_vecto.config objects;
        })
        ([], [])
        patient_vecto.circuit_breaker_mgr
        (codes "/a")
        (codes "GET")
        (some accepting)
      ≡ some out)
    × ((IsFailure out.result × (offers out.effects ≡ 0)) ⊎ IsSuccess out.result)
unfolding merge_config default_config get_retry_config
request-answers_example =
    request-answers whole_urls ascii any_tls [] patient patient_vecto libraries hi_wire objects
      no_middleware (world (record { res = none; err = none })) ([], []) (codes "/a") (codes "GET")
      (some accepting) patient_vecto-made refl refl (λ n raw. refl) put-Prepares
      no_middleware-KeepsRequests (λ k ch. refl) (2, refl, omega arith)

abbrev curled : Request
curled = record plain { headers = (codes "A", codes "1 2") ∷ []; body = some (text (codes "x=1")) }

words-to_curl_example :
    words between (to_curl (λ v. []) (some curled))
    ≡ codes "curl"
      ∷ codes "-X"
      ∷ curled.method
      ∷ curled.url
      ∷ (header_words curled.headers ++ body_words (body_text (λ v. []) curled.body))
unfolding format_data_for_curl
words-to_curl_example =
    words-to_curl (λ v. []) curled (λ e. cc e) (ground arith) (ground arith) (ground arith)
      (ground arith)

-- A quote in a header ends its word: the rest is read by the shell.
quote_test :
    words between
      (to_curl (λ v. []) (some (record plain { headers = (codes "A", codes "x' -o 'f") ∷ [] })))
    ≡ codes "curl"
      ∷ codes "-X"
      ∷ codes "GET"
      ∷ codes "/a"
      ∷ codes "-H"
      ∷ codes "A: x"
      ∷ codes "-o"
      ∷ codes "f"
      ∷ []
unfolding words to_curl
quote_test = refl
