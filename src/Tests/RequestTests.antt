-- ===== src/Tests/RequestTests.antt =====
-- auth.go, base64, validation.go, request.go, substring.go, config.go, request_handler.go: a request
-- to example.com in ASCII.
use vecto.Tests.Fixtures.{plain, http_lib, no_body}
use vecto.Base.{
  pos, ◌≡◌, refl, ◌≢◌, ◌↔◌, true, false, none, some, [], ◌++◌, Bytes, copy_into, codes, arith,
  lookup,
}
use vecto.Base.MapLaws.{first_some}
use vecto.Auth.{decode_basic_auth}
use vecto.Auth.RoundTrip.{decode-encode_basic_auth, decode-encode_basic_auth_colon}
use vecto.Request.{encode_basic_auth, to_http_request, attach_headers}
use vecto.Http.{Err, message}
use vecto.Substring.{contains_string}
use vecto.Substring.Occurs.{Occurs, contains_string_iff}
use vecto.Config.{Config, default_config, merge_config}
use vecto.Config.Merge.{merge_config-headers}
use vecto.Client.{DefaultClient, client_do, respond}
use vecto.Client.Body.{client_do-no_success}
use vecto.Retry.Execute.{succeeded}

abbrev corrupt : Bytes → Err
corrupt s = message s

decode-encode_basic_auth_example :
    decode_basic_auth corrupt (encode_basic_auth (codes "u") (codes "p:"))
    ≡ record { username = codes "u"; password = codes "p:"; err = none }
decode-encode_basic_auth_example =
    decode-encode_basic_auth corrupt (codes "u") (codes "p:") (omega arith, tt)
      (omega arith, (omega arith, tt)) (ground arith, tt)

decode-encode_basic_auth_colon_example :
    decode_basic_auth corrupt
      (encode_basic_auth (codes "u" ++ (codes ":" ++ codes "v")) (codes "p"))
    ≡ record { username = codes "u"; password = codes "v" ++ (codes ":" ++ codes "p"); err = none }
decode-encode_basic_auth_colon_example =
    decode-encode_basic_auth_colon corrupt (codes "u") (codes "v") (codes "p") (omega arith, tt)
      (omega arith, tt) (omega arith, tt) (ground arith, tt)

contains_string_iff_example :
    (contains_string (codes "abc") (codes "bc") ≡ true)
    ↔ ((codes "bc" ≢ []) × Occurs (codes "bc") (codes "abc"))
contains_string_iff_example = contains_string_iff (codes "abc") (codes "bc")

merge_config-headers_example :
    lookup (codes "A") (merge_config default_config default_config).headers
    ≡ first_some
        (lookup (codes "A") default_config.headers)
        (lookup (codes "A") default_config.headers)
unfolding default_config lookup
merge_config-headers_example =
    merge_config-headers default_config default_config (codes "A") (refl, tt) (refl, tt)

abbrev tracing : Config
tracing = record default_config { enable_trace = true }

-- A client whose network is down.
abbrev offline : DefaultClient
offline = record {
  http_do = λ raw. record { answer = none; failure = some (message []); events = [] };
  max_response_body_size = pos 0;
  enable_trace = false;
}

client_do-no_success_example : succeeded (record { res = none; err = some (message []) }) ≡ false
unfolding client_do to_http_request attach_headers copy_into respond
client_do-no_success_example =
    client_do-no_success http_lib no_body offline plain (pos 0) (pos 1)
      (record plain {
        raw_req = some (record { method = codes "GET"; url = codes "/a"; header = []; body = [] });
      })
      (record { res = none; err = some (message []) }) refl
