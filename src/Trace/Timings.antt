-- ===== src/Trace/Timings.antt =====
-- trace.go: the parts of a trace add up.
use vecto.Base.{ℤ, pos, ◌+ℤ◌, ◌-ℤ◌, ◌<ℤ◌, ◌≡◌, some, arith, int_laws}
use vecto.Breaker.{Time}
use vecto.Http.{TraceInfo}
use vecto.Trace.{TraceContext, compute_trace_info, span}

differences-add : (a b c : ℤ) → b -ℤ a +ℤ (c -ℤ b) ≡ c -ℤ a
differences-add a b c = omega int_laws

span-set : (from to : Time) → pos 0 <ℤ from → pos 0 <ℤ to → span from to ≡ to -ℤ from
unfolding span
span-set from to h k = ground arith

-- Where the start of the request, the first byte of the answer and its end were seen, the time to
-- that byte and the time of the transfer add up to the total.
pub compute_trace_info-total :
    (tc : TraceContext) (info : TraceInfo)
    → pos 0 <ℤ tc.request_start
    → pos 0 <ℤ tc.got_first_response
    → pos 0 <ℤ tc.request_end
    → compute_trace_info (some tc) ≡ some info
    → info.server_processing +ℤ info.content_transfer ≡ info.total
unfolding compute_trace_info
compute_trace_info-total tc info start first end h =
    let to_byte : info.server_processing ≡ span tc.request_start tc.got_first_response =
      ground arith in
    let transfer : info.content_transfer ≡ span tc.got_first_response tc.request_end =
      ground arith in
    let whole : info.total ≡ span tc.request_start tc.request_end = ground arith in
    rw
      (
        to_byte,
        transfer,
        whole,
        span-set tc.request_start tc.got_first_response start first,
        span-set tc.got_first_response tc.request_end first end,
        span-set tc.request_start tc.request_end start end,
      )
      (differences-add tc.request_start tc.got_first_response tc.request_end)
