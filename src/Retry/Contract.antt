-- ===== src/Retry/Contract.antt =====
-- retry.go: what executeWithRetry promises its caller.
use vecto.Base.{
  ℕ, suc, ℤ, pos, ◌≤◌, ◌<◌, ◌≡◌, refl, sym, ◌∙◌, ◌≢◌, inl, inr, Bool, true, false, Option, none,
  some, [], ◌∷◌, arith, ◌≤ℤ◌, ◌<ℤ◌,
}
use native.Mathlib.Decide.{dec_lt}
use vecto.Breaker.{Duration}
use vecto.Http.{Response, Err, Result}
use vecto.Retry.{RetryConfig, TimeLib, should_retry}
use vecto.Retry.Execute.{
  sent, RetryEnv, Outcome, succeeded, give_up, retry_loop, execute_with_retry,
}
use vecto.Retry.Loop.{sends, up_to, Continues, Stops, success, refused, cancelled}
use vecto.Retry.Attempts
use vecto.Retry.Attempts.{GoesOn}

-- The limit on attempts is asked before the condition.
pub should_retry-limit :
    (attempt : ℤ) (config : RetryConfig) (res : Option Response) (err : Option Err)
    → pos 0 ≤ℤ config.max_attempts
    → config.max_attempts ≤ℤ attempt
    → should_retry attempt (some config) res err ≡ false
unfolding should_retry
should_retry-limit attempt config res err h k = ground arith

module _ (float_to_duration : ℕ → Duration) (lib : TimeLib) (env : RetryEnv)
    (config : RetryConfig) where
  loops :
      (fuel : ℕ)
      → config.max_attempts ≢ pos 0
      → execute_with_retry float_to_duration lib env (some config) fuel
        ≡ retry_loop float_to_duration lib env config fuel 0 []
  unfolding execute_with_retry
  loops fuel h = ground arith

  pub execute_with_retry-off :
      (fuel : ℕ)
      → config.max_attempts ≡ pos 0
      → execute_with_retry float_to_duration lib env (some config) fuel
        ≡ some (record { result = env.send 1; attempts = 1; events = sent 1 ∷ [] })
  unfolding execute_with_retry
  execute_with_retry-off fuel off = ground arith

  -- With retries on, execution returns at the latest at an attempt that nothing follows, for every
  -- fuel of at least that number; it has sent the attempts 1, 2, … once each, in this order.
  execute_with_retry-returns :
      (fuel m : ℕ)
      → config.max_attempts ≢ pos 0
      → ¬ GoesOn float_to_duration lib env config (suc m)
      → suc m ≤ fuel
      → (out : Outcome) × (execute_with_retry float_to_duration lib env (some config) fuel
          ≡ some out)
        × (out.attempts ≤ suc m)
        × (sends out.events ≡ up_to out.attempts)
  execute_with_retry-returns fuel m on final enough =
      let (out, e, le) =
        Attempts.loop_total float_to_duration lib env config fuel 0 [] (suc m) final (omega arith)
          (omega arith) in
      let d = Attempts.loop-Done float_to_duration lib env config fuel 0 [] out e in
      (out, loops fuel on ∙ e, le, d.once refl)

  final-limit :
      (m : ℕ)
      → config.max_attempts ≡ pos (suc m)
      → should_retry (pos (suc m)) (some config) (env.send (suc m)).res (env.send (suc m)).err
        ≡ false
  final-limit m limit =
      should_retry-limit (pos (suc m)) config _ _ (rw limit (omega arith)) (rw limit (omega arith))

  -- With MaxAttempts = m + 1 the client is asked at most m + 1 times, whatever it answers and
  -- whatever the retry condition says: execution returns with any fuel from there on.
  pub execute_with_retry-bounded :
      (fuel m : ℕ)
      → config.max_attempts ≡ pos (suc m)
      → suc m ≤ fuel
      → (out : Outcome) × (execute_with_retry float_to_duration lib env (some config) fuel
          ≡ some out)
        × (out.attempts ≤ suc m)
        × (sends out.events ≡ up_to out.attempts)
  execute_with_retry-bounded fuel m limit enough =
      execute_with_retry-returns fuel m (λ e. ground arith)
        (λ c. cc (c.retried, final-limit m limit)) enough

  -- With retries on, execution ends in one of three ways: with a success, with the answer that is
  -- not retried, or with the error of the context; in each the response is that of the last attempt.
  pub execute_with_retry-Stops :
      (fuel : ℕ) (out : Outcome)
      → config.max_attempts ≢ pos 0
      → execute_with_retry float_to_duration lib env (some config) fuel ≡ some out
      → Stops float_to_duration lib env config out.attempts out.result
  execute_with_retry-Stops fuel out on h =
      let d =
        Attempts.loop-Done float_to_duration lib env config fuel 0 [] out
          (sym (loops fuel on) ∙ h) in
      d.stops

  -- With retries on, every attempt but the last failed, was to be retried, and its wait was not cut short.
  pub execute_with_retry-Continues :
      (fuel : ℕ) (out : Outcome) (k : ℕ)
      → config.max_attempts ≢ pos 0
      → execute_with_retry float_to_duration lib env (some config) fuel ≡ some out
      → 0 < k
      → k < out.attempts
      → Continues float_to_duration lib env config k
  execute_with_retry-Continues fuel out k on h lo hi =
      Attempts.loop_continues float_to_duration lib env config fuel 0 [] out
        (sym (loops fuel on) ∙ h) k lo hi

  no_error-Stops :
      (n : ℕ) (r : Result)
      → Stops float_to_duration lib env config n r
      → r.err ≡ none
      → ((env.send n).err ≡ none) × (r.res ≡ (env.send n).res)
  unfolding succeeded give_up
  no_error-Stops n r (success good e) h = ground arith
  no_error-Stops n r (refused bad final e) h = ground arith
  no_error-Stops n r (cancelled x bad again why e) h = ground arith

  -- With retries on, no error is lost: if execution returns without an error, so did the last attempt, and its
  -- response is the one returned.
  pub execute_with_retry-no_error :
      (fuel : ℕ) (out : Outcome)
      → config.max_attempts ≢ pos 0
      → execute_with_retry float_to_duration lib env (some config) fuel ≡ some out
      → out.result.err ≡ none
      → ((env.send out.attempts).err ≡ none) × (out.result.res ≡ (env.send out.attempts).res)
  execute_with_retry-no_error fuel out on h ok =
      no_error-Stops out.attempts out.result (execute_with_retry-Stops fuel out on h) ok

  wants_retry :
      (n : ℕ) (condition : Option Response → Option Err → Bool)
      → config.retry_condition ≡ some condition
      → pos n <ℤ config.max_attempts
      → should_retry (pos n) (some config) (env.send n).res (env.send n).err
        ≡ condition (env.send n).res (env.send n).err
  unfolding should_retry
  wants_retry n condition e below = ground arith

  not_before :
      (n : ℕ) (r : Result) (condition : Option Response → Option Err → Bool)
      → config.retry_condition ≡ some condition
      → condition (env.send n).res (env.send n).err ≡ true
      → succeeded (env.send n) ≡ false
      → env.ctx_err n ≡ none
      → env.interrupted n ≡ none
      → pos n <ℤ config.max_attempts
      → ¬ Stops float_to_duration lib env config n r
  not_before n r condition e asked bad live waited below (success good _) = cc
  not_before n r condition e asked bad live waited below (refused _ final _) =
      cc (wants_retry n condition e below)
  not_before n r condition e asked bad live waited below (cancelled x _ _ (inl over) _) = cc
  not_before n r condition e asked bad live waited below (cancelled x _ _ (inr (_, over)) _) = cc

  -- A retry condition that accepts every answer is obeyed to the limit: if no answer is marked as a
  -- success and the context stays alive, exactly MaxAttempts requests are sent, also when every
  -- answer has status 200.
  pub execute_with_retry-exhausts :
      (fuel m : ℕ) (out : Outcome) (condition : Option Response → Option Err → Bool)
      → config.max_attempts ≡ pos (suc m)
      → config.retry_condition ≡ some condition
      → ((n : ℕ) → condition (env.send n).res (env.send n).err ≡ true)
      → ((n : ℕ) → succeeded (env.send n) ≡ false)
      → ((n : ℕ) → env.ctx_err n ≡ none)
      → ((n : ℕ) → env.interrupted n ≡ none)
      → suc m ≤ fuel
      → execute_with_retry float_to_duration lib env (some config) fuel ≡ some out
      → out.attempts ≡ suc m
  execute_with_retry-exhausts fuel m out condition limit e asked bad live waited enough h =
      let (out', h', le, once) = execute_with_retry-bounded fuel m limit enough in
      let same : out' ≡ out = cc in
      let le' : out.attempts ≤ suc m = rw (← same) le in
      elim (dec_lt out.attempts (suc m)) [
        | no not_less ↦ omega arith
        | yes less ↦ absurd (
            not_before out.attempts out.result condition e (asked _) (bad _) (live _) (waited _)
              (rw limit (omega arith)) (execute_with_retry-Stops fuel out (λ e'. ground arith) h))
      ]
