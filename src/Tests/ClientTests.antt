-- ===== src/Tests/ClientTests.antt =====
-- client.go, response.go, trace.go, retry.go: the answer "hi" of a server.
use vecto.Base.{codes, ◌≤◌, ◌≡◌, ◌↔◌, ◌⊎◌, true, false, none, some, Bytes, length}
use vecto.Http.{Response}
use vecto.Tests.Fixtures.{raw_of}
use vecto.Response.{Unmarshal}
use vecto.Client.{Stream, read_body}
use vecto.Client.Body.{read_body_iff}

abbrev response_of : Bytes → Response
response_of content_type = record {
  body = codes "hi";
  status_code = 200;
  request = none;
  raw_request = none;
  raw_response = some (raw_of content_type);
  success = true;
  trace_info = none;
}

abbrev json_response : Response
json_response = response_of (codes "application/json")

abbrev failed_response : Response
failed_response = record json_response { status_code = 500; success = false }

-- Decoders that keep the body.
abbrev keeps_body : Unmarshal Bytes
keeps_body body v = (body, none)

abbrev hi : Stream
hi = record { content = codes "hi"; failure = none; with_last_bytes = false }

read_body_iff_example : (read_body hi 2 ≡ (codes "hi", none)) ↔ (
    (length (codes "hi") ≤ 2)
    × ((hi.failure ≡ none) ⊎ ((length (codes "hi") ≡ 2) × (hi.with_last_bytes ≡ false))))
read_body_iff_example = read_body_iff hi 2
