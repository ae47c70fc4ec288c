-- ===== src/Breaker/Calls.antt =====
-- circuit_breaker.go: sequences of calls of a breaker, and what a count over the whole history of
-- failures says of them.
use vecto.Base.{
  ℤ, pos, ◌≤ℤ◌, leb_ℤ, Option, Bool, true, false, not, ◌||◌, if◌then◌else◌, List, [], ◌∷◌, ◌++◌,
  length, keep,
}
use vecto.Http.{Response, Err}
use vecto.Breaker.{
  Time, Duration, CircuitBreaker, FailureRecord, in_window, allow_request, record_result, is_closed,
}

pub data Call : Type 0 where
  arrives : Time → Call
  returns : Option Response → Option Err → Time → Call

abbrev pub at : Call → Time
at (arrives now) = now
at (returns res err now) = now

unfoldable pub call : CircuitBreaker → Call → CircuitBreaker
call cb (arrives now) = (allow_request cb now).0
call cb (returns res err now) = record_result cb res err now

-- Whether the breaker leaves the closed state in the course of the calls.
unfoldable pub leaves_closed : CircuitBreaker → List Call → Bool
leaves_closed cb [] = not (is_closed cb.state)
leaves_closed cb (c ∷ cs) =
    let rest = leaves_closed (call cb c) cs in if is_closed (call cb c).state then rest else true

-- The specification: every failure so far is remembered, and at each new one those within the
-- window that ends there are counted against the threshold.
module _ (window : Duration) (threshold : ℤ) (trip : Option Response → Option Err → Bool) where
  abbrev pub due : List FailureRecord → Time → Bool
  due history now = leb_ℤ threshold (pos (length (keep (in_window window now) history)))

  unfoldable pub window_trips : List FailureRecord → List Call → Bool
  window_trips history [] = false
  window_trips history (arrives now ∷ cs) = window_trips history cs
  window_trips history (returns res err now ∷ cs) =
      let history' = history ++ record { timestamp = now } ∷ [] in
      let failed = due history' now || window_trips history' cs in
      let passed = window_trips history cs in if trip res err then failed else passed

-- The clock does not run backwards.
abbrev pub Ascending : Time → List Call → Type 0
Ascending t [] = Unit
Ascending t (c ∷ cs) = (t ≤ℤ at c) × Ascending (at c) cs
