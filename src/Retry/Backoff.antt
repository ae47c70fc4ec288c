-- ===== src/Retry/Backoff.antt =====
-- retry.go: the waits of the backoff functions, with the int64 arithmetic they are computed in.
use vecto.Base.{
  ℕ, suc, ℤ, pos, ◌*◌, ◌^◌, ◌*ℤ◌, ◌-ℤ◌, ◌≤◌, ◌<◌, ◌≤ℤ◌, ◌<ℤ◌, ◌≡◌, ◌∙◌, ap, some, arith, -ℤ_parts,
  eq_of_parts,
}
use mathlib.Core.Path.{ap₂}
use vecto.Breaker.{Duration}
use vecto.Retry.{
  RetryTimes, int64, capped, pow2_duration, exponential_backoff, linear_backoff, fixed_backoff,
}

int64-fits : (n : ℕ) → n < 2 ^ 63 → int64 (pos n) ≡ pos n
unfolding int64
int64-fits n h = ground arith

int64-wraps : (n : ℕ) → 2 ^ 63 ≤ n → n < 2 ^ 64 → int64 (pos n) <ℤ pos 0
unfolding int64
int64-wraps n lo hi = ground arith

pos-mul : (a b : ℕ) → pos a *ℤ pos b ≡ pos (a * b)
unfolding ◌*ℤ◌
pos-mul a b = ground arith

capped-negative : (t : RetryTimes) (wait : Duration) → wait <ℤ pos 0 → capped t wait <ℤ pos 0
capped-negative t wait h = ground arith

pos-suc-sub : (n : ℕ) → pos (suc n) -ℤ pos 1 ≡ pos n
pos-suc-sub n = eq_of_parts _ _ (omega (arith, -ℤ_parts (pos (suc n)) (pos 1)))

pow2_small :
    (float_to_duration : ℕ → Duration) (n : ℕ)
    → n < 63
    → pow2_duration float_to_duration (pos n) ≡ pos (2 ^ n)
unfolding pow2_duration
pow2_small float_to_duration n h = ground arith

pub capped-le :
    (t : RetryTimes) (wait : Duration) → pos 0 <ℤ t.max_wait_time → capped t wait ≤ℤ t.max_wait_time
capped-le t wait h = ground arith

module _ (float_to_duration : ℕ → Duration) where
  exponential_product :
      (t : RetryTimes) (w n : ℕ)
      → t.wait_time ≡ pos (suc w)
      → n < 63
      → exponential_backoff float_to_duration (pos (suc n)) (some t)
        ≡ capped t (int64 (pos (suc w * 2 ^ n)))
  unfolding exponential_backoff
  exponential_product t w n h small =
      let scaled : t.wait_time *ℤ pow2_duration float_to_duration (pos (suc n) -ℤ pos 1)
          ≡ pos (suc w * 2 ^ n) =
        ap₂ ◌*ℤ◌ h (
          ap (pow2_duration float_to_duration) (pos-suc-sub n)
          ∙ pow2_small float_to_duration n small)
        ∙ pos-mul (suc w) (2 ^ n) in
      rw scaled (ground arith)

  -- While the product fits an int64, attempt n + 1 waits WaitTime * 2 ^ n, cut off at MaxWaitTime if
  -- that is positive.
  pub exponential_backoff-exact :
      (t : RetryTimes) (w n : ℕ)
      → t.wait_time ≡ pos (suc w)
      → n < 63
      → suc w * 2 ^ n < 2 ^ 63
      → exponential_backoff float_to_duration (pos (suc n)) (some t)
        ≡ capped t (pos (suc w * 2 ^ n))
  exponential_backoff-exact t w n h small fits =
      exponential_product t w n h small ∙ ap (capped t) (int64-fits (suc w * 2 ^ n) fits)

  -- Once the product passes 2 ^ 63 - 1 it wraps around: below 2 ^ 64 the wait is negative, so the
  -- timer fires at once, and MaxWaitTime does not prevent it.
  pub exponential_backoff-wraps :
      (t : RetryTimes) (w n : ℕ)
      → t.wait_time ≡ pos (suc w)
      → n < 63
      → 2 ^ 63 ≤ suc w * 2 ^ n
      → suc w * 2 ^ n < 2 ^ 64
      → exponential_backoff float_to_duration (pos (suc n)) (some t) <ℤ pos 0
  exponential_backoff-wraps t w n h small lo hi =
      rw (exponential_product t w n h small)
        (capped-negative t (int64 (pos (suc w * 2 ^ n))) (int64-wraps (suc w * 2 ^ n) lo hi))

  -- The wait never passes a positive MaxWaitTime, whatever the attempt.
  pub exponential_backoff-le :
      (attempt : ℤ) (t : RetryTimes)
      → pos 0 <ℤ t.wait_time
      → pos 0 <ℤ t.max_wait_time
      → exponential_backoff float_to_duration attempt (some t) ≤ℤ t.max_wait_time
  unfolding exponential_backoff
  exponential_backoff-le attempt t h k = ground arith

pub linear_backoff-le :
    (attempt : ℤ) (t : RetryTimes)
    → pos 0 <ℤ t.wait_time
    → pos 0 <ℤ t.max_wait_time
    → linear_backoff attempt (some t) ≤ℤ t.max_wait_time
unfolding linear_backoff
linear_backoff-le attempt t h k = ground arith

pub fixed_backoff-le :
    (attempt : ℤ) (t : RetryTimes)
    → pos 0 <ℤ t.wait_time
    → t.wait_time ≤ℤ t.max_wait_time
    → fixed_backoff attempt (some t) ≤ℤ t.max_wait_time
unfolding fixed_backoff
fixed_backoff-le attempt t h k = ground arith
