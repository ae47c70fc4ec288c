-- ===== src/Trace.antt =====
-- trace.go: the timings of a request. An instant is a number of nanoseconds; 0 is time.Time{}, which
-- a callback that was not called leaves.
pub mod Curl
pub mod Timings
use vecto.Base.{
  ℕ, ℤ, pos, ◌-ℤ◌, Bool, true, false, not, ◌&&◌, ◌||◌, Option, none, some, List, [], ◌∷◌, ◌++◌,
  Bytes, codes, Dict, leb_ℤ, if◌then◌else◌,
}
use vecto.Breaker.{Time, Duration}
use vecto.Http.{Any, text, bytes, Request, TraceInfo}
use vecto.Substring.{is_empty}

pub record TraceContext : Type 0 where
  pub dns_start : Time
  pub dns_done : Time
  pub connect_start : Time
  pub connect_done : Time
  pub tls_start : Time
  pub tls_done : Time
  pub got_first_response : Time
  pub request_start : Time
  pub request_end : Time
  pub conn_reused : Bool
  pub conn_was_idle : Bool
  pub conn_idle_time : Duration

-- The callbacks of httptrace.ClientTrace, with the instant at which each is called.
pub data TraceEvent : Type 0 where
  dns_starts dns_ends connect_starts connect_ends tls_starts tls_ends first_byte : Time → TraceEvent
  gets_conn : Bytes → TraceEvent
  got_conn : Bool → Bool → Duration → TraceEvent

unfoldable pub on_trace : TraceContext → TraceEvent → TraceContext
on_trace tc (dns_starts now) = record tc { dns_start = now }
on_trace tc (dns_ends now) = record tc { dns_done = now }
on_trace tc (connect_starts now) = record tc { connect_start = now }
on_trace tc (connect_ends now) = record tc { connect_done = now }
on_trace tc (tls_starts now) = record tc { tls_start = now }
on_trace tc (tls_ends now) = record tc { tls_done = now }
on_trace tc (first_byte now) = record tc { got_first_response = now }
on_trace tc (gets_conn host_port) = tc
on_trace tc (got_conn reused was_idle idle_time) = record tc {
  conn_reused = reused;
  conn_was_idle = was_idle;
  conn_idle_time = idle_time;
}

unfoldable pub on_traces : TraceContext → List TraceEvent → TraceContext
on_traces tc [] = tc
on_traces tc (e ∷ es) = on_traces (on_trace tc e) es

abbrev is_zero : Time → Bool
is_zero t = leb_ℤ t (pos 0) && leb_ℤ (pos 0) t

-- `to.Sub(from)` if both were set.
unfoldable pub span : Time → Time → Duration
span from to = if not (is_zero from) && not (is_zero to) then to -ℤ from else pos 0

unfoldable pub compute_trace_info : Option TraceContext → Option TraceInfo
compute_trace_info none = none
compute_trace_info (some tc) = some (record {
  dns_lookup = span tc.dns_start tc.dns_done;
  tcp_connection = span tc.connect_start tc.connect_done;
  tls_handshake = span tc.tls_start tc.tls_done;
  server_processing = span tc.request_start tc.got_first_response;
  content_transfer = span tc.got_first_response tc.request_end;
  total = span tc.request_start tc.request_end;
  conn_reused = tc.conn_reused;
  conn_was_idle = tc.conn_was_idle;
  conn_idle_time = tc.conn_idle_time;
})

-- `show` prints a value by its String method or by `%v`.
unfoldable pub format_data_for_curl : (Any → Bytes) → Any → Bytes
format_data_for_curl show (text s) = s
format_data_for_curl show (bytes s) = s
format_data_for_curl show v = show v

pub curl_headers : Dict Bytes → Bytes
curl_headers [] = []
curl_headers ((key, value) ∷ headers) =
    codes " \\\n  -H '" ++ (key ++ (codes ": " ++ (value ++ (codes "'" ++ curl_headers headers))))

pub curl_data : Bytes → Bytes
curl_data s = if is_empty s then [] else codes " \\\n  -d '" ++ (s ++ codes "'")

unfoldable pub to_curl : (Any → Bytes) → Option Request → Bytes
unfolding curl_headers curl_data format_data_for_curl
to_curl show none = []
to_curl show (some r) =
    codes "curl -X "
    ++ (r.method
        ++ (codes " '"
            ++ (r.url
                ++ (codes "'"
                    ++ (curl_headers r.headers ++ (elim r.body [
                      | none ↦ []
                      | some v ↦ curl_data (format_data_for_curl show v)
                    ]))))))
