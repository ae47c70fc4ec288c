-- ===== src/Breaker/Window.antt =====
-- circuit_breaker.go: the sliding window refines a count over the whole history of failures.
use vecto.Breaker.Agreement.{keep-keep, Agree, Agree-keep, Agree-append}
use vecto.Breaker.Calls.{Call, arrives, returns, call, leaves_closed, due, window_trips, Ascending}
use vecto.Base.{
  ℤ, pos, ◌≤ℤ◌, leb_ℤ, ◌≡◌, refl, ◌∙◌, ap, Option, Bool, true, false, List, [], ◌∷◌, ◌++◌, length,
  keep, arith, Bytes, Bool-cases, inl, inr,
}
use vecto.BreakerState.{closed, open_state}
use vecto.Http.{Response, Err}
use vecto.Breaker.{
  Time, Duration, CircuitBreakerConfig, CircuitBreaker, FailureRecord, with_defaults,
  new_circuit_breaker, in_window, allow_request, record_result,
}

-- One call on a closed breaker.
arrives-closed :
    (cb : CircuitBreaker) (now : Time)
    → cb.state ≡ closed
    → call cb (arrives now)
      ≡ record cb { failures = keep (in_window cb.config.window_size now) cb.failures }
unfolding call allow_request
arrives-closed cb now h = ground arith

passes-closed :
    (cb : CircuitBreaker) (res : Option Response) (err : Option Err) (now : Time)
    → cb.state ≡ closed
    → cb.should_trip res err ≡ false
    → call cb (returns res err now)
      ≡ record cb { failures = keep (in_window cb.config.window_size now) cb.failures }
unfolding call record_result
passes-closed cb res err now h e = ground arith

abbrev with_failure : CircuitBreaker → Time → List FailureRecord
with_failure cb now =
    keep (in_window cb.config.window_size now) (cb.failures ++ record { timestamp = now } ∷ [])

abbrev failed : CircuitBreaker → Time → CircuitBreaker
failed cb now = record cb { failures = with_failure cb now; last_failure_time = now }

trips-closed :
    (cb : CircuitBreaker) (res : Option Response) (err : Option Err) (now : Time)
    → cb.state ≡ closed
    → cb.should_trip res err ≡ true
    → leb_ℤ cb.config.failure_threshold (pos (length (with_failure cb now))) ≡ true
    → (call cb (returns res err now)).state ≡ open_state
unfolding call record_result
trips-closed cb res err now h e due = ground arith

stays-closed :
    (cb : CircuitBreaker) (res : Option Response) (err : Option Err) (now : Time)
    → cb.state ≡ closed
    → cb.should_trip res err ≡ true
    → leb_ℤ cb.config.failure_threshold (pos (length (with_failure cb now))) ≡ false
    → call cb (returns res err now) ≡ failed cb now
unfolding call record_result
stays-closed cb res err now h e due = ground arith

leaves_closed_once :
    (cb : CircuitBreaker) (c : Call) (cs : List Call)
    → (call cb c).state ≡ open_state
    → leaves_closed cb (c ∷ cs) ≡ true
unfolding leaves_closed
leaves_closed_once cb c cs h = ground arith

leaves_closed_later :
    (cb cb' : CircuitBreaker) (c : Call) (cs : List Call)
    → call cb c ≡ cb'
    → cb'.state ≡ closed
    → leaves_closed cb (c ∷ cs) ≡ leaves_closed cb' cs
unfolding leaves_closed
leaves_closed_later cb cb' c cs e h = rw e (rw h)

-- The settings of the specification are those of the breaker, which no call changes.
record Tracks (window : Duration) (threshold : ℤ) (trip : Option Response → Option Err → Bool)
    (now : Time) (history : List FailureRecord) (cb : CircuitBreaker) : Type 0 where
  window_size : cb.config.window_size ≡ window
  failure_threshold : cb.config.failure_threshold ≡ threshold
  should_trip : cb.should_trip ≡ trip
  is_in_closed : cb.state ≡ closed
  agree : Agree window now cb.failures history

module _ (window : Duration) (threshold : ℤ) (trip : Option Response → Option Err → Bool) where
  Tracks-cleaned :
      (before now : Time) (history : List FailureRecord) (cb : CircuitBreaker)
      → before ≤ℤ now
      → Tracks window threshold trip before history cb
      → Tracks window threshold trip now history
          (record cb { failures = keep (in_window cb.config.window_size now) cb.failures })
  Tracks-cleaned before now history cb h t = record {
    window_size = t.window_size;
    failure_threshold = t.failure_threshold;
    should_trip = t.should_trip;
    is_in_closed = t.is_in_closed;
    agree = rw t.window_size (Agree-keep window before now cb.failures history h t.agree);
  }

  Tracks-failed :
      (before now : Time) (history : List FailureRecord) (cb : CircuitBreaker)
      → before ≤ℤ now
      → Tracks window threshold trip before history cb
      → Tracks window threshold trip now
          (history ++ record { timestamp = now } ∷ [])
          (failed cb now)
  Tracks-failed before now history cb h t = record {
    window_size = t.window_size;
    failure_threshold = t.failure_threshold;
    should_trip = t.should_trip;
    is_in_closed = t.is_in_closed;
    agree = rw t.window_size (λ u later.
        keep-keep window now u _ later
        ∙ Agree-append window before now cb.failures history _ h t.agree u later);
  }

  -- The breaker counts what the history counts.
  due-failed :
      (before now : Time) (history : List FailureRecord) (cb : CircuitBreaker)
      → before ≤ℤ now
      → Tracks window threshold trip before history cb
      → leb_ℤ cb.config.failure_threshold (pos (length (with_failure cb now)))
        ≡ due window threshold trip (history ++ record { timestamp = now } ∷ []) now
  due-failed before now history cb h t =
      rw (t.failure_threshold, t.window_size)
        (ap (λ fs. leb_ℤ threshold (pos (length fs)))
          (Agree-append window before now cb.failures history _ h t.agree now (omega arith)))

  leaves_closed-Tracks :
      (calls : List Call) (before : Time) (history : List FailureRecord) (cb : CircuitBreaker)
      → Ascending before calls
      → Tracks window threshold trip before history cb
      → leaves_closed cb calls ≡ window_trips window threshold trip history calls
  unfolding window_trips
  leaves_closed-Tracks [] before history cb up t = unfold leaves_closed in rw t.is_in_closed
  leaves_closed-Tracks (arrives now ∷ cs) before history cb (h, up) t =
      leaves_closed_later cb _ _ cs (arrives-closed cb now t.is_in_closed) t.is_in_closed
      ∙ leaves_closed-Tracks cs now history _ up (Tracks-cleaned before now history cb h t)
  leaves_closed-Tracks (returns res err now ∷ cs) before history cb (h, up) t =
      let same : cb.should_trip res err ≡ trip res err = ap (λ f. f res err) t.should_trip in
      let history' : List FailureRecord = history ++ record { timestamp = now } ∷ [] in
      let counted = due-failed before now history cb h t in
      elim (Bool-cases (trip res err)) [
        | inl bad ↦ elim (Bool-cases (due window threshold trip history' now)) [
          | inl full ↦
              rw (bad, full)
                (leaves_closed_once cb _ cs
                  (trips-closed cb res err now t.is_in_closed (same ∙ bad) (counted ∙ full)))
          | inr room ↦
              rw (bad, room)
                (leaves_closed_later cb _ _ cs
                    (stays-closed cb res err now t.is_in_closed (same ∙ bad) (counted ∙ room))
                    t.is_in_closed
                  ∙ leaves_closed-Tracks cs now history' _ up
                      (Tracks-failed before now history cb h t))
        ]
        | inr good ↦ rw good (
            leaves_closed_later cb _ _ cs
              (passes-closed cb res err now t.is_in_closed (same ∙ good)) t.is_in_closed
            ∙ leaves_closed-Tracks cs now history _ up (Tracks-cleaned before now history cb h t))
      ]

-- While the clock does not run backwards, a new breaker leaves the closed state in the course of
-- any calls exactly when some failing call brings the failures of the whole history that lie
-- within the window ending at that call to the threshold (both with their defaults filled in).
pub leaves_closed-window_trips :
    (key : Bytes) (c : CircuitBreakerConfig) (start : Time) (calls : List Call)
    → Ascending start calls
    → leaves_closed (new_circuit_breaker key c start) calls
      ≡ window_trips
          (with_defaults c).window_size
          (with_defaults c).failure_threshold
          (new_circuit_breaker key c start).should_trip
          []
          calls
unfolding new_circuit_breaker
leaves_closed-window_trips key c start calls up =
    leaves_closed-Tracks _ _ _ calls start [] _ up (record {
      window_size = refl;
      failure_threshold = refl;
      should_trip = refl;
      is_in_closed = refl;
      agree = λ t later. refl;
    })
