-- ===== src/Retry/Attempts.antt =====
-- retry.go: executeWithRetry ends within its limit, and returns the answer of its last attempt.
use vecto.Base.{
  ℕ, zero, suc, ◌+◌, ◌≤◌, ◌<◌, ◌≡◌, sym, ◌∙◌, ap, Option, some, List, [], ◌∷◌, ◌++◌, arith,
}
use mathlib.Core.Path.{subst}
use native.Mathlib.Numerals.{add-one}
use native.Mathlib.Decide.{ℕ_discrete}
use vecto.Breaker.{Duration}
use vecto.Retry.{RetryConfig, TimeLib}
use vecto.Retry.Execute.{RetryEnv, RetryEvent, Outcome, retry_loop}
use vecto.Retry.Loop
use vecto.Retry.Loop.{sends, up_to, Continues, Stops, success, refused, cancelled, stop, more}

up_to-step : (ns : List ℕ) (n : ℕ) → ns ≡ up_to n → ns ++ (n + 1) ∷ [] ≡ up_to (n + 1)
up_to-step ns n h = rw (add-one, h)

module _ (float_to_duration : ℕ → Duration) (lib : TimeLib) (env : RetryEnv)
    (config : RetryConfig) where
  abbrev loop : ℕ → ℕ → List RetryEvent → Option Outcome
  loop = retry_loop float_to_duration lib env config

  abbrev Round : ℕ → ℕ → List RetryEvent → Type 0
  Round = Loop.Round float_to_duration lib env config

  abbrev pub GoesOn : ℕ → Type 0
  GoesOn = Continues float_to_duration lib env config

  abbrev events_of : ℕ → List RetryEvent
  events_of = Loop.events_of float_to_duration lib env config

  -- What the loop has done when it returns, having begun after `n` attempts.
  pub record Done (n : ℕ) (events : List RetryEvent) (out : Outcome) : Type 0 where
    pub later : n < out.attempts
    pub once : sends events ≡ up_to n → sends out.events ≡ up_to out.attempts
    pub stops : Stops float_to_duration lib env config out.attempts out.result

  stopped :
      (n : ℕ) (events : List RetryEvent) (out : Outcome)
      → out.attempts ≡ n + 1
      → sends out.events ≡ sends events ++ (n + 1) ∷ []
      → Stops float_to_duration lib env config (n + 1) out.result
      → Done n events out
  stopped n events out at once s = record {
    later = omega arith;
    once = λ h. once ∙ up_to-step (sends events) n h ∙ ap up_to (sym at);
    stops = rw at s;
  }

  pub loop-Done :
      (fuel n : ℕ) (events : List RetryEvent) (out : Outcome)
      → loop fuel n events ≡ some out
      → Done n events out
  loop-Done zero n events out h = unfold retry_loop in cc
  loop-Done (suc fuel) n events out h =
      step (Loop.round float_to_duration lib env config fuel n events) (loop-Done fuel (n + 1))
    where
      step :
          Round fuel n events
          → ((events' : List RetryEvent) (out' : Outcome)
              → loop fuel (n + 1) events' ≡ some out'
              → Done (n + 1) events' out')
          → Done n events out
      step (stop out' e at once s) ih =
          let same : out' ≡ out = cc in subst (Done n events) same (stopped n events out' at once s)
      step (more c e) ih =
          let d = ih (events ++ events_of (n + 1)) out (sym e ∙ h) in
          record {
            later = omega (arith, d.later);
            once = λ (b : sends events ≡ up_to n). d.once (
                Loop.sends-round float_to_duration lib env config (n + 1) events
                ∙ up_to-step (sends events) n b);
            stops = d.stops;
          }

  pub loop_continues :
      (fuel n : ℕ) (events : List RetryEvent) (out : Outcome)
      → loop fuel n events ≡ some out
      → (k : ℕ) → n < k
      → k < out.attempts
      → GoesOn k
  loop_continues zero n events out h = unfold retry_loop in cc
  loop_continues (suc fuel) n events out h =
      step (Loop.round float_to_duration lib env config fuel n events) (loop_continues fuel (n + 1))
    where
      step :
          Round fuel n events
          → ((events' : List RetryEvent) (out' : Outcome)
              → loop fuel (n + 1) events' ≡ some out'
              → (k : ℕ) → n + 1 < k
              → k < out'.attempts
              → GoesOn k)
          → (k : ℕ) → n < k
          → k < out.attempts
          → GoesOn k
      step (stop out' e at once s) ih k lo hi =
          let same : out' ≡ out = cc in
          absurd (omega (arith, ap (λ (o : Outcome). o.attempts) same))
      step (more c e) ih k lo hi = elim (ℕ_discrete (n + 1) k) [
        | yes here ↦ subst GoesOn here c
        | no past ↦ ih (events ++ events_of (n + 1)) out (sym e ∙ h) k (omega arith) hi
      ]

  -- An attempt that nothing follows ends the loop, at it or before.
  pub loop_total :
      (fuel n : ℕ) (events : List RetryEvent) (m : ℕ)
      → ¬ GoesOn m
      → n < m
      → m ≤ n + fuel
      → (out : Outcome) × (loop fuel n events ≡ some out) × (out.attempts ≤ m)
  loop_total zero n events m final lo hi = absurd (omega arith)
  loop_total (suc fuel) n events m final lo hi =
      step (Loop.round float_to_duration lib env config fuel n events) (loop_total fuel (n + 1))
    where
      step :
          Round fuel n events
          → ((events' : List RetryEvent) (m' : ℕ)
              → ¬ GoesOn m'
              → n + 1 < m'
              → m' ≤ n + 1 + fuel
              → (out : Outcome) × (loop fuel (n + 1) events' ≡ some out) × (out.attempts ≤ m'))
          → (out : Outcome) × (loop (suc fuel) n events ≡ some out) × (out.attempts ≤ m)
      step (stop out e at once s) ih = (out, e, omega arith)
      step (more c e) ih = elim (ℕ_discrete (n + 1) m) [
        | yes here ↦ absurd (final (subst GoesOn here c))
        | no past ↦
            let (out, e', le) =
              ih (events ++ events_of (n + 1)) m final (omega arith) (omega arith) in
            (out, e ∙ e', le)
      ]
