-- ===== src/Tests/NewRequestTests.antt =====
-- enhanced_request.go, factory.go, vecto.go: a request to example.com before it is sent.
use vecto.Base.{
  decimal, pos, negsuc, inl, inr, false, ◌≡◌, refl, ◌↔◌, true, none, some, List, [], ◌∷◌, Bytes,
  codes, Dict, lookup, insert, copy_into, str_eq, arith, All, is_some, ap, get_or,
}
use vecto.Base.MapLaws.{first_some}
use vecto.Breaker.{default_circuit_breaker_config}
use vecto.Breaker.Manager.{new_circuit_breaker_manager}
use vecto.Config.{
  Config, default_config, merge_config, validate_config, validate_size, validate_base_url,
}
use vecto.Http.{RawRequest}
use vecto.Instance.{Vecto, new}
use vecto.Instance.Made.{new-validate_config}
use vecto.NewRequest.{RequestOptions, no_options, new_request}
use vecto.Request.{refresh_url}
use vecto.Request.Builder.{build, with_params, with_headers, new_request_builder}
use vecto.Urls.{get_url_instance}
use vecto.NewRequest.Clean.{lookup-new_request, form_header, to_http_request-new_request}
use vecto.PathParams.{replace_path_params}
use vecto.PathParams.Filling.{replace_path_params-fill}
use vecto.PathParams.Template.{Piece, literal, hole, render, fill}
use vecto.QueryStruct.{
  str, slice, cons, nil, other, struct, Fields, field, end, struct_to_query_params, sent_name,
}
use vecto.QueryStruct.Rules.{CanBeSent, Sends, struct_to_query_params-Sends}
use vecto.QueryStruct.{nil_pointer, int, boolean, field_to_query_value, format_int, print_value}
use vecto.Http.{Any, text, texts}
use vecto.QueryStruct.Sent.{AreSendable, struct_to_query_params-AreSendable}
use vecto.Request.{to_http_request, attach_headers}
use vecto.Request.Clean.{apply_all, IsCleanLine}
use vecto.Tests.Fixtures.{
  any_tls, ascii, ascii-IsAsciiCompatible, whole_urls, http_lib, no_body, no_floats, accepting,
  made_request, made_request-made,
}
use vecto.Transport.{made, make_client}
use vecto.Transport.Certificates.{IsLoadable, make_client-IsLoadable}
use vecto.Utf8.{runes, decode_rune}
use vecto.Validation.{
  sanitize_url, validate_url, validate_headers, validate_header_name, validate_header_value,
}

abbrev sample_template : List Piece
sample_template =
    literal (codes "https://h/") ∷ hole (codes "id") ∷ literal (codes "/x") ∷ hole (codes "b") ∷ []

abbrev sample_params : Dict Bytes
sample_params = (codes "id", codes "7") ∷ []

replace_path_params-fill_example :
    replace_path_params whole_urls (render sample_template) sample_params
    ≡ render (fill whole_urls.path_escape sample_params sample_template)
replace_path_params-fill_example =
    replace_path_params-fill whole_urls sample_params sample_template (ground arith) (ground arith)

-- A name, tags, an offset, a truth value that is left out, and two internal fields that are not sent.
abbrev sample_fields : Fields
sample_fields = field (codes "Name") (codes "name, omitempty") true (str (codes "x")) (
    field (codes "Tags") [] true (slice (cons (str (codes "a")) (cons nil_pointer nil))) (
      field (codes "Offset") (codes "off") true (int (codes "64") (negsuc 6)) (
        field (codes "On") (codes ",omitempty") true (boolean false) (
          field (codes "secret") [] false (str (codes "s"))
            (field (codes "Internal") (codes "-") true (other (codes "chan")) end)))))

sample_fields-CanBeSent : CanBeSent no_floats sample_fields
sample_fields-CanBeSent =
    (inr tt, (inr (tt, (tt, tt)), (inr tt, (inr tt, (inl (inl refl), (inl (inr (inl refl)), tt))))))

struct_to_query_params-Sends_example :
    (es : Dict Any) × Sends no_floats sample_fields es
    × (struct_to_query_params no_floats (some (struct sample_fields))
        ≡ (some (copy_into [] es), none))
struct_to_query_params-Sends_example =
    struct_to_query_params-Sends no_floats sample_fields sample_fields-CanBeSent

sample_fields_test : struct_to_query_params no_floats (some (struct sample_fields)) ≡ (
  some (
      (codes "name", text (codes "x"))
      ∷ (codes "Tags", texts (codes "a" ∷ codes "<nil>" ∷ []))
      ∷ (codes "off", text (codes "-7"))
      ∷ []),
  none,
)
unfolding struct_to_query_params sent_name str_eq decode_rune runes field_to_query_value insert
    format_int print_value decimal
sample_fields_test = refl

struct_to_query_params-AreSendable_example :
    ((struct_to_query_params no_floats (some (struct sample_fields))).1 ≡ none)
    ↔ AreSendable no_floats sample_fields
struct_to_query_params-AreSendable_example =
    struct_to_query_params-AreSendable no_floats sample_fields

abbrev certified : Config
certified = record default_config {
  certificates = record { cert = codes "c"; key = codes "k" } ∷ [];
}

make_client-IsLoadable_example :
    ((make_client any_tls certified).1 ≡ none) ↔ All (IsLoadable any_tls) certified.certificates
unfolding default_config
make_client-IsLoadable_example = make_client-IsLoadable any_tls certified refl

lookup-new_request_example :
    lookup (codes "A") made_request.headers
    ≡ first_some (form_header accepting.form_data (codes "A")) (
        first_some
          (lookup (codes "A") accepting.headers)
          (lookup (codes "A") default_config.headers))
unfolding default_config lookup
lookup-new_request_example =
    lookup-new_request http_lib no_floats ascii default_config (codes "/a") (codes "GET") accepting
      made_request (codes "A") (refl, tt) (refl, tt) (ap (λ t. t.0) made_request-made)

abbrev on_the_wire : RawRequest
on_the_wire = record {
  method = codes "GET";
  url = codes "/a";
  header = (codes "Content-Type", codes "application/json" ∷ []) ∷ (codes "A", codes "1" ∷ []) ∷ [];
  body = [];
}

to_http_request-new_request_example :
    All (IsCleanLine ascii ascii-IsAsciiCompatible) on_the_wire.header
unfolding to_http_request attach_headers apply_all copy_into insert str_eq
to_http_request-new_request_example =
    to_http_request-new_request http_lib no_floats ascii ascii-IsAsciiCompatible default_config
      (codes "/a") (codes "GET") (some accepting) made_request
      (record made_request { raw_req = some on_the_wire }) no_body [] on_the_wire none
      (ap (λ t. t.0) made_request-made) refl

-- Keys of headers are compared as they are written, so both lines are sent.
abbrev in_lower_case : RequestOptions
in_lower_case = record no_options { headers = (codes "content-type", codes "text/plain") ∷ [] }

two_types_test :
    attach_headers http_lib
      (get_or
        (new_request http_lib no_floats ascii default_config
          (codes "/a")
          (codes "POST")
          (some in_lower_case)).0
        made_request)
      (record on_the_wire { header = [] })
    ≡ record on_the_wire {
      header =
          (codes "Content-Type", codes "application/json" ∷ [])
          ∷ (codes "content-type", codes "text/plain" ∷ [])
          ∷ [];
    }
unfolding new_request sanitize_url validate_url default_config struct_to_query_params build
    with_params with_headers new_request_builder copy_into insert str_eq validate_headers
    validate_header_name runes decode_rune validate_header_value refresh_url get_url_instance
    attach_headers
two_types_test = refl

abbrev configured : Config
configured = record default_config { circuit_breaker = some default_circuit_breaker_config }

abbrev made_vecto : Vecto
made_vecto = record {
  config = merge_config configured default_config;
  http_client = record { timeout = pos 30_000_000_000; transport = made none (pos 50_000_000_000) };
  logger = none;
  circuit_breaker_mgr = some (new_circuit_breaker_manager [] default_circuit_breaker_config none);
}

new-validate_config_example :
    (validate_config whole_urls ascii made_vecto.config ≡ none)
    × (is_some made_vecto.config.validate_status ≡ true)
    × (is_some made_vecto.circuit_breaker_mgr ≡ is_some configured.circuit_breaker)
    × (made_vecto.logger ≡ configured.logger)
unfolding new validate_config validate_size validate_base_url default_config validate_headers
    validate_header_name runes decode_rune validate_header_value make_client merge_config copy_into
    insert str_eq new_circuit_breaker_manager default_circuit_breaker_config
new-validate_config_example =
    new-validate_config whole_urls ascii any_tls [] configured made_vecto ascii-IsAsciiCompatible
      refl
