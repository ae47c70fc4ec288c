-- ===== src/Breaker/Probes.antt =====
-- circuit_breaker.go: how many requests a breaker lets through while it is half-open.
use vecto.Base.{
  ℕ, pos, suc, zero, ◌+◌, ◌+ℤ◌, ◌-ℤ◌, ◌≤ℤ◌, ◌≤◌, ◌≡◌, refl, ◌∙◌, Bool, true, false, List, [], ◌∷◌,
  length, arith, +ℤ_parts, eq_of_parts,
}
use Prim.Native.Nat.{min}
use vecto.BreakerState.{open_state, half_open}
use vecto.Breaker.{Time, CircuitBreaker, allow_request}

abbrev count_true : Bool → ℕ → ℕ
count_true true n = suc n
count_true false n = n

-- How many of the requests that arrive at the given times are admitted, none of them returning.
unfoldable pub admitted : CircuitBreaker → List Time → ℕ
admitted cb [] = 0
admitted cb (now ∷ ts) = count_true (allow_request cb now).1 (admitted (allow_request cb now).0 ts)

record IsProbing (cb : CircuitBreaker) (limit used : ℕ) : Type 0 where
  in_half_open : cb.state ≡ half_open
  at_most : cb.config.half_open_max_requests ≡ pos limit
  so_far : cb.half_open_requests ≡ pos used

full-IsProbing :
    (cb : CircuitBreaker) (now : Time) (limit used : ℕ)
    → IsProbing cb limit used
    → limit ≤ used
    → allow_request cb now ≡ (cb, false)
unfolding allow_request
full-IsProbing cb now limit used h full = ground arith

next-IsProbing :
    (cb : CircuitBreaker) (now : Time) (limit used : ℕ)
    → IsProbing cb limit used
    → suc used ≤ limit
    → ((allow_request cb now).1 ≡ true) × IsProbing (allow_request cb now).0 limit (suc used)
unfolding allow_request
next-IsProbing cb now limit used h room = ground (
  arith,
  +ℤ_parts cb.half_open_requests (pos 1),
  eq_of_parts (cb.half_open_requests +ℤ pos 1) (pos (suc used)),
)

admitted-full :
    (cb : CircuitBreaker) (ts : List Time) (limit used : ℕ)
    → IsProbing cb limit used
    → limit ≤ used
    → admitted cb ts ≡ 0
unfolding admitted
admitted-full cb [] limit used h full = refl
admitted-full cb (now ∷ ts) limit used h full =
    rw (full-IsProbing cb now limit used h full) (admitted-full cb ts limit used h full)

admitted-IsProbing :
    (cb : CircuitBreaker) (ts : List Time) (room used : ℕ)
    → IsProbing cb (used + room) used
    → admitted cb ts ≡ min (length ts) room
unfolding admitted
admitted-IsProbing cb [] room used h = omega arith
admitted-IsProbing cb (now ∷ ts) zero used h =
    admitted-full cb (now ∷ ts) (used + 0) used h (omega arith) ∙ omega arith
admitted-IsProbing cb (now ∷ ts) (suc room) used h =
    let (ok, h') = next-IsProbing cb now (used + suc room) used h (omega arith) in
    let same : used + suc room ≡ suc used + room = omega arith in
    let rest = admitted-IsProbing (allow_request cb now).0 ts room (suc used) (rw (← same) h') in
    rw (ok, rest) (omega arith)

first-IsProbing :
    (cb : CircuitBreaker) (now : Time) (limit : ℕ)
    → cb.state ≡ open_state
    → cb.config.timeout ≤ℤ now -ℤ cb.state_change_time
    → cb.config.half_open_max_requests ≡ pos limit
    → ((allow_request cb now).1 ≡ true) × IsProbing (allow_request cb now).0 limit 0
unfolding allow_request
first-IsProbing cb now limit h late e = ground arith

-- Of the requests that arrive from the end of an open breaker's timeout on, before any of them
-- returns, exactly the first HalfOpenMaxRequests + 1 are admitted (all, if there are fewer): the
-- one that makes the breaker half-open is not counted against the limit.
pub admitted-half_open :
    (cb : CircuitBreaker) (now : Time) (ts : List Time) (limit : ℕ)
    → cb.state ≡ open_state
    → cb.config.timeout ≤ℤ now -ℤ cb.state_change_time
    → cb.config.half_open_max_requests ≡ pos limit
    → admitted cb (now ∷ ts) ≡ min (length (now ∷ ts)) (limit + 1)
unfolding admitted
admitted-half_open cb now ts limit h late e =
    let (ok, h') = first-IsProbing cb now limit h late e in
    let same : limit ≡ 0 + limit = omega arith in
    let rest = admitted-IsProbing (allow_request cb now).0 ts limit 0 (rw (← same) h') in
    rw (ok, rest) (omega arith)
