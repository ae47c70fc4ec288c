-- ===== src/Retry/Execute.antt =====
-- retry.go: executeWithRetry.
use vecto.Base.{
  ℕ, zero, suc, pos, ◌+◌, if◌then◌else◌, Bool, true, false, Option, none, some, List, [], ◌∷◌, ◌++◌,
  codes, decimal, leb_ℤ, ◌&&◌,
}
use vecto.Breaker.{Time, Duration}
use vecto.Http.{Err, wrapped, Result}
use vecto.Retry.{RetryConfig, TimeLib, should_retry, get_retry_wait_time}

-- What the loop meets in its rounds, by the number of the attempt: the answer of `v.client.Do`, the
-- two readings of the context (before the wait, and whether it ends the wait before the timer does)
-- and the clock. `noop` is `v.logger.IsNoop()`.
pub record RetryEnv : Type 0 where
  pub send : ℕ → Result
  pub ctx_err : ℕ → Option Err
  pub interrupted : ℕ → Option Err
  pub now : ℕ → Time
  pub noop : Bool

pub data RetryEvent : Type 0 where
  sent : ℕ → RetryEvent
  on_retry_called : ℕ → Option Err → RetryEvent
  warned : ℕ → Duration → RetryEvent
  waits : ℕ → Duration → RetryEvent

pub record Outcome : Type 0 where
  pub result : Result
  pub attempts : ℕ
  pub events : List RetryEvent

-- `err == nil && res != nil && res.success`
unfoldable pub succeeded : Result → Bool
succeeded r = elim r.err [
  | some e ↦ false
  | none ↦ elim r.res [ none ↦ false | some res ↦ res.success ]
]

-- The return after the loop.
unfoldable pub give_up : Result → ℕ → Result
give_up r attempt = elim r.err [
  | none ↦ r
  | some e ↦ record r {
    err =
        some (wrapped (codes "request failed after " ++ (decimal attempt ++ codes " attempts")) e);
  }
]

calls_on_retry : Option ℕ → ℕ → Option Err → List RetryEvent
calls_on_retry none attempt err = []
calls_on_retry (some f) attempt err = on_retry_called attempt err ∷ []

warns : Bool → ℕ → Duration → List RetryEvent
warns true attempt wait = []
warns false attempt wait = warned attempt wait ∷ []

module _ (float_to_duration : ℕ → Duration) (lib : TimeLib) (env : RetryEnv)
    (config : RetryConfig) where
  abbrev pub wait_time : ℕ → Duration
  wait_time n =
      get_retry_wait_time float_to_duration lib (pos n) (some config) (env.send n).res
        (env.send n).err (env.now n)

  -- One round of the `for` loop adds these events, up to the wait.
  unfoldable pub round_events : ℕ → List RetryEvent
  unfolding calls_on_retry warns
  round_events n =
      sent n
      ∷ (calls_on_retry config.on_retry n (env.send n).err
          ++ (warns env.noop n (wait_time n) ++ waits n (wait_time n) ∷ []))

  abbrev ends : ℕ → List RetryEvent → Result → Option Outcome
  ends n events r = some (record { result = r; attempts = n; events = events })

  -- The loop, with fuel: `none` means that the fuel ran out. The second argument is `attempt` as
  -- the round begins.
  unfoldable pub retry_loop : ℕ → ℕ → List RetryEvent → Option Outcome
  unfolding round_events
  retry_loop zero attempt events = none
  retry_loop (suc fuel) attempt events =
      let n = attempt + 1 in
      let r = env.send n in
      let again = retry_loop fuel n (events ++ round_events n) in
      let late : Option Outcome = elim (env.interrupted n) [
        | some e ↦ ends n (events ++ round_events n) (record r { err = some e })
        | none ↦ again
      ] in
      let retried : Option Outcome = elim (env.ctx_err n) [
        | some e ↦ ends n (events ++ sent n ∷ []) (record r { err = some e })
        | none ↦ late
      ] in
      if succeeded r
      then ends n (events ++ sent n ∷ []) (record { res = r.res; err = none })
      else if should_retry (pos n) (some config) r.res r.err
      then retried
      else ends n (events ++ sent n ∷ []) (give_up r n)

  -- Without retries the client is asked once, and its answer returned as it is.
  unfoldable pub execute_configured : ℕ → Option Outcome
  unfolding retry_loop
  execute_configured fuel =
      if leb_ℤ config.max_attempts (pos 0) && leb_ℤ (pos 0) config.max_attempts
      then ends 1 (sent 1 ∷ []) (env.send 1)
      else retry_loop fuel 0 []

unfoldable pub execute_with_retry :
    (ℕ → Duration) → TimeLib → RetryEnv → Option RetryConfig → ℕ → Option Outcome
unfolding execute_configured
execute_with_retry float_to_duration lib env none fuel =
    some (record { result = env.send 1; attempts = 1; events = sent 1 ∷ [] })
execute_with_retry float_to_duration lib env (some config) fuel =
    execute_configured float_to_duration lib env config fuel
