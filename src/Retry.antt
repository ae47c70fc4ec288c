-- ===== src/Retry.antt =====
-- retry.go: when a failed request is sent again, and after how long.
-- A time.Duration is an int64 of nanoseconds, so a product of two wraps around.
pub mod Backoff
pub mod Policy
pub mod Execute
pub mod Loop
pub mod Attempts
pub mod Contract
use vecto.Base.{
  ℕ, ℤ, pos, negsuc, pos_part, neg_part, ◌+◌, ◌-◌, ◌*◌, ◌%◌, ◌^◌, ◌+ℤ◌, ◌-ℤ◌, ◌*ℤ◌, ltb_ℤ, leb_ℤ,
  ltb, leb, ◌==◌, if◌then◌else◌, Bool, true, false, not, ◌&&◌, ◌||◌, Option, none, some, ◌++◌, ◌∷◌,
  [], Bytes, codes, is_some,
}
use Prim.Native.String.{String}
use vecto.Breaker.{Time, Duration, second}
use vecto.Errors.{is_net_error, is_url_error}
use vecto.Http.{Response, Err, message}
use vecto.Response.{header}
use vecto.Substring.{is_empty}

-- The fields of RetryConfig that are no functions: what a backoff function reads.
pub record RetryTimes : Type 0 where
  pub max_attempts : ℤ
  pub wait_time : Duration
  pub max_wait_time : Duration
  pub respect_retry_after_header : Bool

-- BackoffFunc; `none` is a nil *RetryConfig.
abbrev pub BackoffFunc : Type 0
BackoffFunc = ℤ → Option RetryTimes → Duration

pub record RetryConfig : Type 0 where
  pub times : RetryTimes
  pub open times use *
  pub backoff : Option BackoffFunc
  pub retry_condition : Option (Option Response → Option Err → Bool)
  pub retry_after : Option (ℤ → Option Response → Option Err → Duration)
  pub on_retry : Option ℕ

-- The int64 that a mathematical integer becomes.
unfoldable pub int64 : ℤ → ℤ
int64 n =
    let w = (pos_part n + (2 ^ 64 - neg_part n % 2 ^ 64)) % 2 ^ 64 in
    if ltb w (2 ^ 63) then pos w else negsuc (2 ^ 64 - w - 1)

-- `config.MaxWaitTime > 0 && wait > config.MaxWaitTime`, and the wait that is then returned.
abbrev pub capped : RetryTimes → Duration → Duration
capped t wait =
    if ltb_ℤ (pos 0) t.max_wait_time && ltb_ℤ t.max_wait_time wait then t.max_wait_time else wait

-- `float_to_duration k` is time.Duration(2 ^ k) for k ≥ 63, where Go leaves the conversion of a
-- float64 that no int64 holds to the platform.
module _ (float_to_duration : ℕ → Duration) where
  -- time.Duration(math.Pow(2, float64(n))); a negative power lies between 0 and 1.
  unfoldable pub pow2_duration : ℤ → Duration
  pow2_duration (pos k) = if ltb k 63 then pos (2 ^ k) else float_to_duration k
  pow2_duration (negsuc k) = pos 0

  unfoldable pub exponential_backoff : BackoffFunc
  exponential_backoff attempt none = second
  exponential_backoff attempt (some t) =
      if leb_ℤ t.wait_time (pos 0)
      then second
      else capped t (int64 (t.wait_time *ℤ pow2_duration (attempt -ℤ pos 1)))

unfoldable pub linear_backoff : BackoffFunc
linear_backoff attempt none = second
linear_backoff attempt (some t) =
    if leb_ℤ t.wait_time (pos 0) then second else capped t (int64 (t.wait_time *ℤ attempt))

unfoldable pub fixed_backoff : BackoffFunc
fixed_backoff attempt none = second
fixed_backoff attempt (some t) = if leb_ℤ t.wait_time (pos 0) then second else t.wait_time

-- The third test of the source asks a *url.Error, which the first has taken.
unfoldable pub is_network_error : Option Err → Bool
is_network_error none = false
is_network_error (some err) = is_net_error err

unfoldable pub default_retry_condition : Option Response → Option Err → Bool
unfolding is_network_error is_url_error
default_retry_condition res (some err) =
    if is_network_error (some err) then true else if is_url_error err then true else false
default_retry_condition none none = false
default_retry_condition (some res) none = leb 500 res.status_code || res.status_code == 429

-- time.ParseDuration and time.Parse(time.RFC1123, …) of the standard library.
pub record TimeLib : Type 0 where
  pub parse_duration : Bytes → Option Duration
  pub parse_rfc1123 : Bytes → Option Time

-- time.Until(t), if it is positive.
until : Time → Option Time → Duration
until now none = pos 0
until now (some t) = if ltb_ℤ (pos 0) (t -ℤ now) then t -ℤ now else pos 0

module _ (lib : TimeLib) where
  unfoldable pub parse_retry_after_header : Option Response → Time → Duration
  unfolding until
  parse_retry_after_header none now = pos 0
  parse_retry_after_header (some res) now =
      let retry_after = header (some res) (codes "Retry-After") in
      if not (is_some res.raw_response) || is_empty retry_after
      then pos 0
      else elim (lib.parse_duration (retry_after ++ codes "s")) [
        | some seconds ↦ seconds
        | none ↦ until now (lib.parse_rfc1123 retry_after)
      ]

unfoldable pub should_retry : ℤ → Option RetryConfig → Option Response → Option Err → Bool
unfolding default_retry_condition
should_retry attempt none res err = false
should_retry attempt (some config) res err =
    if leb_ℤ (pos 0) config.max_attempts && leb_ℤ config.max_attempts attempt
    then false
    else elim config.retry_condition [
      | none ↦ default_retry_condition res err
      | some condition ↦ condition res err
    ]

module _ (float_to_duration : ℕ → Duration) (lib : TimeLib) where
  backoff_wait : ℤ → RetryConfig → Duration
  backoff_wait attempt config = elim config.backoff [
    | none ↦ exponential_backoff float_to_duration attempt (some config.times)
    | some backoff ↦ backoff attempt (some config.times)
  ]

  -- The Retry-After header is read for a positive wait; else the backoff decides.
  unfoldable pub get_retry_wait_time :
      ℤ → Option RetryConfig → Option Response → Option Err → Time → Duration
  unfolding backoff_wait
  get_retry_wait_time attempt none res err now = second
  get_retry_wait_time attempt (some config) res err now = elim config.retry_after [
    | some retry_after ↦ retry_after attempt res err
    | none ↦
        let asked = parse_retry_after_header lib res now in
        if config.respect_retry_after_header && is_some res && ltb_ℤ (pos 0) asked
        then capped config.times asked
        else backoff_wait attempt config
  ]

abbrev failing : String → Option Err
failing text = some (message (codes text))

unfoldable pub validate_retry_config : Option RetryConfig → Option Err
validate_retry_config none = failing "retry config is nil"
validate_retry_config (some c) =
    if ltb_ℤ c.max_attempts (negsuc 0)
    then failing "max attempts cannot be less than -1"
    else if ltb_ℤ c.wait_time (pos 0)
    then failing "wait time cannot be negative"
    else if ltb_ℤ c.max_wait_time (pos 0)
    then failing "max wait time cannot be negative"
    else if ltb_ℤ (pos 0) c.max_wait_time && ltb_ℤ c.max_wait_time c.wait_time
    then failing "wait time cannot be greater than max wait time"
    else none
