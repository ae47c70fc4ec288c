-- ===== src/Retry/Loop.antt =====
-- retry.go: one round of executeWithRetry either ends the loop, for one of three reasons, or leads
-- to the next round.
use vecto.Base.{
  ℕ, zero, suc, pos, ◌+◌, ◌≡◌, refl, ◌⊎◌, inl, inr, true, false, Option, none, some, List, [], ◌∷◌,
  ◌++◌, arith, Bool-cases, Option-cases,
}
use vecto.Breaker.{Duration}
use vecto.Http.{Err, Result}
use vecto.Retry.{RetryConfig, TimeLib, should_retry}
use vecto.Retry.Execute.{
  RetryEnv, RetryEvent, sent, Outcome, succeeded, give_up, round_events, retry_loop,
}

-- The attempts that were sent, in order.
abbrev pub sends : List RetryEvent → List ℕ
sends [] = []
sends (sent n ∷ es) = n ∷ sends es
sends (_ ∷ es) = sends es

pub sends-append : (xs ys : List RetryEvent) → sends (xs ++ ys) ≡ sends xs ++ sends ys
sends-append [] ys = refl
sends-append (sent n ∷ xs) ys = rw (sends-append xs ys)
sends-append (_ ∷ xs) ys = sends-append xs ys

-- 1, 2, …, n.
abbrev pub up_to : ℕ → List ℕ
up_to zero = []
up_to (suc n) = up_to n ++ suc n ∷ []

module _ (float_to_duration : ℕ → Duration) (lib : TimeLib) (env : RetryEnv)
    (config : RetryConfig) where
  abbrev pub loop : ℕ → ℕ → List RetryEvent → Option Outcome
  loop = retry_loop float_to_duration lib env config

  abbrev pub events_of : ℕ → List RetryEvent
  events_of = round_events float_to_duration lib env config

  -- Attempt `n` is followed by another one.
  pub record Continues (n : ℕ) : Type 0 where
    pub failed : succeeded (env.send n) ≡ false
    pub retried : should_retry (pos n) (some config) (env.send n).res (env.send n).err ≡ true
    pub live : env.ctx_err n ≡ none
    pub waited : env.interrupted n ≡ none

  -- What is returned at attempt `n`, by the reason for which the loop ends there.
  pub data Stops (n : ℕ) (r : Result) : Type 0 where
    success :
        succeeded (env.send n) ≡ true
        → r ≡ record { res = (env.send n).res; err = none }
        → Stops n r
    refused :
        succeeded (env.send n) ≡ false
        → should_retry (pos n) (some config) (env.send n).res (env.send n).err ≡ false
        → r ≡ give_up (env.send n) n
        → Stops n r
    cancelled :
        (e : Err)
        → succeeded (env.send n) ≡ false
        → should_retry (pos n) (some config) (env.send n).res (env.send n).err ≡ true
        → (env.ctx_err n ≡ some e) ⊎ ((env.ctx_err n ≡ none) × (env.interrupted n ≡ some e))
        → r ≡ record (env.send n) { err = some e }
        → Stops n r

  pub data Round (fuel n : ℕ) (events : List RetryEvent) : Type 0 where
    stop :
        (out : Outcome)
        → loop (suc fuel) n events ≡ some out
        → out.attempts ≡ n + 1
        → sends out.events ≡ sends events ++ (n + 1) ∷ []
        → Stops (n + 1) out.result
        → Round fuel n events
    more :
        Continues (n + 1)
        → loop (suc fuel) n events ≡ loop fuel (n + 1) (events ++ events_of (n + 1))
        → Round fuel n events

  -- The round `n` begins with `events`, ends the loop there and returns `r`.
  abbrev last : ℕ → List RetryEvent → Result → Outcome
  last n events r = record { result = r; attempts = n + 1; events = events }

  abbrev short : ℕ → List RetryEvent → List RetryEvent
  short n events = events ++ sent (n + 1) ∷ []

  abbrev answer : ℕ → Result
  answer n = env.send (n + 1)

  abbrev with_err : Result → Err → Result
  with_err r e = record r { err = some e }

  sends-short :
      (n : ℕ) (events : List RetryEvent) → sends (short n events) ≡ sends events ++ (n + 1) ∷ []
  sends-short n events = sends-append events (sent (n + 1) ∷ [])

  sends-events_of : (n : ℕ) → sends (events_of n) ≡ n ∷ []
  unfolding round_events
  sends-events_of n = ground arith

  pub sends-round :
      (n : ℕ) (events : List RetryEvent) → sends (events ++ events_of n) ≡ sends events ++ n ∷ []
  sends-round n events = rw (sends-append events (events_of n), sends-events_of n)

  pub round : (fuel n : ℕ) (events : List RetryEvent) → Round fuel n events
  unfolding retry_loop
  round fuel n events = elim (Bool-cases (succeeded (answer n))) [
    | inl good ↦
        let r : Result = record { res = (answer n).res; err = none } in
        stop (last n (short n events) r) (rw good) refl (sends-short n events) (success good refl)
    | inr bad ↦
        elim (Bool-cases (should_retry (pos (n + 1)) (some config) (answer n).res (answer n).err)) [
          | inr final ↦
              stop (last n (short n events) (give_up (answer n) (n + 1))) (rw (bad, final)) refl
                (sends-short n events) (refused bad final refl)
          | inl again ↦ elim (Option-cases (env.ctx_err (n + 1))) [
            | inr (e, over) ↦
                stop (last n (short n events) (with_err (answer n) e)) (rw (bad, again, over)) refl
                  (sends-short n events) (cancelled e bad again (inl over) refl)
            | inl live ↦ elim (Option-cases (env.interrupted (n + 1))) [
              | inr (e, over) ↦
                  stop (last n (events ++ events_of (n + 1)) (with_err (answer n) e))
                    (rw (bad, again, live, over)) refl (sends-round (n + 1) events)
                    (cancelled e bad again (inr (live, over)) refl)
              | inl waited ↦
                  more (record { failed = bad; retried = again; live = live; waited = waited })
                    (rw (bad, again, live, waited))
            ]
          ]
        ]
  ]
