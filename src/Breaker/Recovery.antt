-- ===== src/Breaker/Recovery.antt =====
-- circuit_breaker.go: an open breaker blocks until its timeout, then probes, and closes or reopens.
use vecto.Base.{
  ℕ, pos, suc, ◌+ℤ◌, ◌-ℤ◌, ◌≤ℤ◌, ◌<ℤ◌, ◌≡◌, refl, ◌↔◌, Option, Bool, true, false, List, [], ◌∷◌,
  length, All, arith, +ℤ_parts, eq_of_parts,
}
use vecto.BreakerState.{closed, open_state, half_open}
use vecto.Http.{Response, Err}
use vecto.Breaker.{Time, CircuitBreaker, allow_request, record_result}
use vecto.Breaker.Calls.{Call, arrives, returns, at, call}

unfoldable pub calls : CircuitBreaker → List Call → CircuitBreaker
calls cb [] = cb
calls cb (c ∷ cs) = calls (call cb c) cs

-- Admission by an open breaker.
pub allow_request-open :
    (cb : CircuitBreaker) (now : Time)
    → cb.state ≡ open_state
    → ((allow_request cb now).1 ≡ true) ↔ (cb.config.timeout ≤ℤ now -ℤ cb.state_change_time)
unfolding allow_request
allow_request-open cb now h = ground arith

abbrev Early : CircuitBreaker → Call → Type 0
Early cb c = at c -ℤ cb.state_change_time <ℤ cb.config.timeout

open-call : (cb : CircuitBreaker) (c : Call) → cb.state ≡ open_state → Early cb c → call cb c ≡ cb
unfolding call allow_request record_result
open-call cb (arrives now) h early = ground arith
open-call cb (returns res err now) h early = ground arith

-- An open breaker is unchanged by any arrivals and any late results before its timeout has passed.
pub calls-open :
    (cb : CircuitBreaker) (cs : List Call)
    → cb.state ≡ open_state
    → All (Early cb) cs
    → calls cb cs ≡ cb
unfolding calls
calls-open cb [] h early = refl
calls-open cb (c ∷ cs) h (first, rest) = rw (open-call cb c h first) (calls-open cb cs h rest)

-- Results of requests, as `returns` calls.
pub record Report : Type 0 where
  pub res : Option Response
  pub err : Option Err
  pub now : Time

unfoldable pub report_all : CircuitBreaker → List Report → CircuitBreaker
report_all cb [] = cb
report_all cb (r ∷ rs) = report_all (record_result cb r.res r.err r.now) rs

abbrev pub Passes : (Option Response → Option Err → Bool) → Report → Type 0
Passes trip r = trip r.res r.err ≡ false

pub record IsRecovering (cb : CircuitBreaker) (left : ℕ) : Type 0 where
  pub in_half_open : cb.state ≡ half_open
  pub remaining : cb.consecutive_successes +ℤ pos left ≡ cb.config.success_threshold

Passes-half_open :
    (cb : CircuitBreaker) (r : Report) (left : ℕ)
    → IsRecovering cb (suc (suc left))
    → Passes cb.should_trip r
    → IsRecovering (record_result cb r.res r.err r.now) (suc left)
unfolding record_result
Passes-half_open cb r left h p = ground (
  arith,
  +ℤ_parts cb.consecutive_successes (pos (suc (suc left))),
  +ℤ_parts cb.consecutive_successes (pos 1),
  +ℤ_parts (cb.consecutive_successes +ℤ pos 1) (pos (suc left)),
  eq_of_parts (cb.consecutive_successes +ℤ pos 1 +ℤ pos (suc left)) cb.config.success_threshold,
)

pub record IsFreshlyClosed (cb : CircuitBreaker) : Type 0 where
  pub in_closed : cb.state ≡ closed
  pub no_failures : cb.failures ≡ []
  pub no_probes : cb.half_open_requests ≡ pos 0
  pub no_successes : cb.consecutive_successes ≡ pos 0

Passes-last :
    (cb : CircuitBreaker) (r : Report)
    → IsRecovering cb 1
    → Passes cb.should_trip r
    → IsFreshlyClosed (record_result cb r.res r.err r.now)
unfolding record_result
Passes-last cb r h p = ground (arith, +ℤ_parts cb.consecutive_successes (pos 1))

keeps_trip :
    (cb : CircuitBreaker) (r : Report)
    → (record_result cb r.res r.err r.now).should_trip ≡ cb.should_trip
unfolding record_result
keeps_trip cb r = ground arith

All-Passes :
    (cb cb' : CircuitBreaker) (rs : List Report)
    → cb'.should_trip ≡ cb.should_trip
    → All (Passes cb.should_trip) rs
    → All (Passes cb'.should_trip) rs
All-Passes cb cb' rs e h = rw e h

-- A half-open breaker closes with exactly as many passing results as SuccessThreshold still wants,
-- and forgets its failures.
pub report_all-recovers :
    (cb : CircuitBreaker) (left : ℕ) (rs : List Report)
    → IsRecovering cb (suc left)
    → length rs ≡ suc left
    → All (Passes cb.should_trip) rs
    → IsFreshlyClosed (report_all cb rs)
unfolding report_all
report_all-recovers cb left [] h e p = absurd (omega arith)
report_all-recovers cb ℕ.zero (r ∷ []) h e (p, _) = Passes-last cb r h p
report_all-recovers cb ℕ.zero (r ∷ r' ∷ rs) h e p = absurd (omega arith)
report_all-recovers cb (suc left) (r ∷ rs) h e (p, ps) =
    report_all-recovers (record_result cb r.res r.err r.now) left rs
      (Passes-half_open cb r left h p) (omega arith)
      (All-Passes cb (record_result cb r.res r.err r.now) rs (keeps_trip cb r) ps)

-- The first result that trips reopens a half-open breaker, and its timeout starts again.
pub record_result-reopens :
    (cb : CircuitBreaker) (r : Report)
    → cb.state ≡ half_open
    → cb.should_trip r.res r.err ≡ true
    → let cb' = record_result cb r.res r.err r.now in
      (cb'.state ≡ open_state)
      × (cb'.state_change_time ≡ r.now)
      × (cb'.half_open_requests ≡ pos 0)
      × (cb'.consecutive_successes ≡ pos 0)
unfolding record_result
record_result-reopens cb r h e = ground arith

probe-IsRecovering :
    (cb : CircuitBreaker) (now : Time) (n : ℕ)
    → cb.state ≡ open_state
    → cb.config.timeout ≤ℤ now -ℤ cb.state_change_time
    → cb.config.success_threshold ≡ pos n
    → IsRecovering (allow_request cb now).0 n
unfolding allow_request
probe-IsRecovering cb now n h late e =
    ground (arith, +ℤ_parts (pos 0) (pos n), eq_of_parts (pos 0 +ℤ pos n) (pos n))

probe-keeps_trip :
    (cb : CircuitBreaker) (now : Time) → (allow_request cb now).0.should_trip ≡ cb.should_trip
unfolding allow_request
probe-keeps_trip cb now = ground arith

-- Recovery: once the timeout of an open breaker has passed, the next request is admitted, and
-- SuccessThreshold passing results close the breaker with no failure on record.
pub open-recovers :
    (cb : CircuitBreaker) (now : Time) (n : ℕ) (rs : List Report)
    → cb.state ≡ open_state
    → cb.config.timeout ≤ℤ now -ℤ cb.state_change_time
    → cb.config.success_threshold ≡ pos (suc n)
    → length rs ≡ suc n
    → All (Passes cb.should_trip) rs
    → ((allow_request cb now).1 ≡ true) × IsFreshlyClosed (report_all (allow_request cb now).0 rs)
open-recovers cb now n rs h late e len ps = (
  (allow_request-open cb now h).1 late,
  report_all-recovers (allow_request cb now).0 n rs (probe-IsRecovering cb now (suc n) h late e) len
      (All-Passes cb (allow_request cb now).0 rs (probe-keeps_trip cb now) ps),
)
