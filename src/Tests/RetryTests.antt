-- ===== src/Tests/RetryTests.antt =====
-- retry.go: three attempts, with waits of 5 ns that double up to 20 ns.
use vecto.Base.{
  ℕ, pos, ◌*◌, ◌^◌, ◌≤◌, ◌*ℤ◌, ◌-ℤ◌, ◌≤ℤ◌, ◌<ℤ◌, ◌≡◌, refl, ◌≢◌, ◌∷◌, Bool, true, false, Option,
  none, some, [], arith,
}
use vecto.Breaker.{Duration}
use vecto.Http.{Response, Err, Result}
use vecto.Retry.{
  RetryTimes, RetryConfig, TimeLib, parse_retry_after_header, int64, pow2_duration, capped,
  exponential_backoff, get_retry_wait_time, validate_retry_config, should_retry,
}
use vecto.Retry.Backoff.{exponential_backoff-exact, exponential_backoff-wraps}
use vecto.Retry.Policy.{default, get_retry_wait_time-le}
use vecto.Retry.Execute.{give_up, RetryEnv, sent, waits, Outcome, execute_with_retry, succeeded}
use vecto.Retry.Loop.{Stops, Continues, sends, up_to}
use vecto.Retry.Contract.{
  execute_with_retry-bounded, execute_with_retry-Stops, execute_with_retry-Continues,
}

abbrev no_float : ℕ → Duration
no_float k = pos 0

abbrev no_times : TimeLib
no_times = record { parse_duration = λ s. none; parse_rfc1123 = λ s. none }

abbrev three_times : RetryTimes
three_times = record {
  max_attempts = pos 3;
  wait_time = pos 5;
  max_wait_time = pos 20;
  respect_retry_after_header = true;
}

abbrev always : Option Response → Option Err → Bool
always res err = true

abbrev three_attempts : RetryConfig
three_attempts = record {
  times = three_times;
  backoff = none;
  retry_condition = some always;
  retry_after = none;
  on_retry = none;
}

abbrev ok_result : Result
ok_result = record {
  res = some (record {
    body = [];
    status_code = 200;
    request = none;
    raw_request = none;
    raw_response = none;
    success = false;
    trace_info = none;
  });
  err = none;
}

-- Every answer has status 200.
abbrev healthy : RetryEnv
healthy = record {
  send = λ n. ok_result;
  ctx_err = λ n. none;
  interrupted = λ n. none;
  now = λ n. pos 0;
  noop = true;
}

exponential_backoff-exact_example :
    exponential_backoff no_float (pos 3) (some three_times) ≡ capped three_times (pos (5 * 2 ^ 2))
exponential_backoff-exact_example =
    exponential_backoff-exact no_float three_times 4 2 refl (omega arith) (omega arith)

-- A second, doubled 34 times.
abbrev one_second : RetryTimes
one_second = record three_times { wait_time = pos 1_000_000_000 }

exponential_backoff-wraps_example : exponential_backoff no_float (pos 35) (some one_second) <ℤ pos 0
exponential_backoff-wraps_example =
    exponential_backoff-wraps no_float one_second 999_999_999 34 refl (omega arith) (omega arith)
      (omega arith)

get_retry_wait_time-le_example :
    get_retry_wait_time no_float no_times (pos 4) (some three_attempts) none none (pos 0) ≤ℤ pos 20
unfolding validate_retry_config
get_retry_wait_time-le_example =
    get_retry_wait_time-le no_float no_times (pos 4) three_attempts none none (pos 0) refl refl
      default (omega arith) (omega arith)

abbrev result_of : RetryEnv → Option Outcome
result_of env = execute_with_retry no_float no_times env (some three_attempts) 3

execute_with_retry-bounded_example :
    (out : Outcome) × (result_of healthy ≡ some out)
    × (out.attempts ≤ 3)
    × (sends out.events ≡ up_to out.attempts)
execute_with_retry-bounded_example =
    execute_with_retry-bounded no_float no_times healthy three_attempts 3 2 refl (omega arith)

-- What three healthy answers come to.
abbrev three_sent : Outcome
three_sent = record {
  result = ok_result;
  attempts = 3;
  events = sent 1 ∷ waits 1 (pos 5) ∷ sent 2 ∷ waits 2 (pos 10) ∷ sent 3 ∷ [];
}

result_of-healthy : result_of healthy ≡ some three_sent
unfolding execute_with_retry succeeded should_retry give_up get_retry_wait_time
    parse_retry_after_header exponential_backoff int64 ◌*ℤ◌ pow2_duration ◌-ℤ◌
result_of-healthy = refl

three_not_zero : three_attempts.max_attempts ≢ pos 0
three_not_zero e = ground arith

execute_with_retry-Stops_example : Stops no_float no_times healthy three_attempts 3 ok_result
execute_with_retry-Stops_example =
    execute_with_retry-Stops no_float no_times healthy three_attempts 3 three_sent three_not_zero
      result_of-healthy

execute_with_retry-Continues_example : Continues no_float no_times healthy three_attempts 2
execute_with_retry-Continues_example =
    execute_with_retry-Continues no_float no_times healthy three_attempts 3 three_sent 2
      three_not_zero result_of-healthy (omega arith) (omega arith)
