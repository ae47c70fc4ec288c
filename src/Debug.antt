-- ===== src/Debug.antt =====
-- vecto.go and trace.go: the text that debug mode logs.
use Prim.Native.String.{String}
use vecto.Base.{
  ltb, if◌then◌else◌, Bool, true, false, Option, none, some, List, [], ◌∷◌, ◌++◌, Bytes, codes,
  decimal, length, take, get_or, Dict,
}
use vecto.Breaker.{Duration}
use vecto.Config.{Config}
use vecto.Http.{Any, Request, Response, TraceInfo}
use vecto.Response.{headers}
use vecto.Substring.{is_empty}
use vecto.Trace.{to_curl}

-- `%v` of a duration, and of any other value that the library stores.
pub record Printing : Type 0 where
  pub show_duration : Duration → Bytes
  pub show : Any → Bytes

abbrev show_bool : Bool → Bytes
show_bool true = codes "true"
show_bool false = codes "false"

abbrev line : String → Bytes → Bytes → Bytes
line label value rest = codes label ++ (value ++ (codes "\n" ++ rest))

module _ (p : Printing) where
  open p use {show_duration, show}

  idle_lines : TraceInfo → Bytes
  idle_lines t =
      if t.conn_reused
      then line "  Conn Was Idle:     " (show_bool t.conn_was_idle)
          (line "  Conn Idle Time:    " (show_duration t.conn_idle_time) [])
      else []

  unfoldable pub trace_text : Option TraceInfo → Bytes
  unfolding idle_lines
  trace_text none = codes "TraceInfo: <nil>"
  trace_text (some t) =
      codes "Request Trace:\n"
      ++ line "  DNS Lookup:        " (show_duration t.dns_lookup) (
          line "  TCP Connection:    " (show_duration t.tcp_connection) (
            line "  TLS Handshake:     " (show_duration t.tls_handshake) (
              line "  Server Processing: " (show_duration t.server_processing) (
                line "  Content Transfer:  " (show_duration t.content_transfer) (
                  line "  Total Time:        " (show_duration t.total)
                    (line "  Conn Reused:       " (show_bool t.conn_reused) (idle_lines t)))))))

  header_lines : Dict Bytes → Bytes
  header_lines [] = []
  header_lines ((key, value) ∷ headers) =
      codes "  " ++ (key ++ (codes ": " ++ (value ++ (codes "\n" ++ header_lines headers))))

  values_lines : Bytes → List Bytes → Bytes
  values_lines key [] = []
  values_lines key (value ∷ values) =
      codes "  " ++ (key ++ (codes ": " ++ (value ++ (codes "\n" ++ values_lines key values))))

  response_lines : Dict (List Bytes) → Bytes
  unfolding values_lines
  response_lines [] = []
  response_lines ((key, values) ∷ headers) = values_lines key values ++ response_lines headers

  unfoldable pub body_preview : Bytes → Bytes
  body_preview body =
      if ltb 500 (length body) then take 500 body ++ codes "... (truncated)" else body

  -- A title and its lines, for a map that is not empty.
  titled : {V : Type 0} → String → Dict V → Bytes → Bytes
  titled title m lines = if is_empty m then [] else codes title ++ lines

  debug_request : Request → Bytes
  unfolding header_lines titled
  debug_request req =
      codes "Request: "
      ++ (req.method
          ++ (codes " "
              ++ (req.url
                  ++ (codes "\n"
                      ++ (titled "\nRequest Headers:\n" req.headers (header_lines req.headers)
                          ++ elim req.body [
                            | none ↦ []
                            | some v ↦ codes "\nRequest Body:\n  " ++ (show v ++ codes "\n")
                          ])))))

  debug_response : Response → Bytes
  unfolding response_lines body_preview titled
  debug_response res =
      let sent = get_or (headers (some res)) [] in
      codes "\nResponse Status: "
      ++ (decimal res.status_code
          ++ (codes "\n"
              ++ (titled "\nResponse Headers:\n" sent (response_lines sent)
                  ++ (if is_empty res.body
                      then []
                      else codes "\nResponse Body:\n" ++ (body_preview res.body ++ codes "\n")))))

  unfoldable pub format_debug_info : Request → Option Response → Option TraceInfo → Bytes
  unfolding debug_request debug_response
  format_debug_info req res trace =
      codes "\n=== DEBUG INFO ===\n"
      ++ (debug_request req
          ++ (elim res [ none ↦ [] | some r ↦ debug_response r ]
              ++ (elim trace [ none ↦ [] | some t ↦ codes "\n" ++ trace_text (some t) ]
                  ++ (codes "\nCurl Equivalent:\n"
                      ++ (to_curl show (some req) ++ codes "\n==================\n")))))

  -- What is handed to the logger; `noop` is its IsNoop.
  unfoldable pub write_debug_output : Config → Bool → Option Request → Option Response → List Bytes
  write_debug_output config noop none res = []
  write_debug_output config noop (some req) none = []
  write_debug_output config noop (some req) (some res) =
      if noop
      then []
      else format_debug_info req (some res) (if config.enable_trace then res.trace_info else none)
        ∷ []
