-- ===== src/RateLimit.antt =====
-- api/data_security/rate_limit.py: fixed windows of requests per principal and route class. Times
-- and windows are microseconds, times since the epoch. The HMAC of the principal is a parameter.
pub mod Windows
pub mod Backend
pub mod Limits
pub mod Schedule
mod Tests
use Prim.Native.String
use hackaton_open_ai.Prelude.{
  ℕ, ◌+◌, ◌-◌, ◌*◌, ◌/◌, ◌%◌, String, Bool, true, false, not, ◌&&◌, ◌||◌, List, ◌==◌, string_eq,
  ltb, max, if◌then◌else◌, Result, ok, err, ◌>>◌, raise_if,
}
use Windows.{RouteClass, Window, BackendConsumption, consume}

pub record RateLimitPolicy : Type 0 where
  pub limit : ℕ
  pub window : ℕ

abbrev pub second : ℕ
second = 1000000

abbrev pub minute : ℕ
minute = 60 * second

-- `RateLimitPolicy.__post_init__`: whether it returns.
abbrev pub validate_policy : RateLimitPolicy → Bool
validate_policy p =
    not (ltb p.limit 1) && not (ltb p.window second || ltb (24 * 60 * minute) p.window)

unfoldable pub default_rate_limits : RouteClass → RateLimitPolicy
default_rate_limits RouteClass.login = record { limit = 5; window = minute }
default_rate_limits RouteClass.pairing = record { limit = 10; window = minute }
default_rate_limits RouteClass.evidence_read = record { limit = 30; window = minute }
default_rate_limits RouteClass.evidence_write = record { limit = 10; window = minute }
default_rate_limits RouteClass.general = record { limit = 120; window = minute }
default_rate_limits RouteClass.unlock = record { limit = 120; window = minute }
default_rate_limits RouteClass.command_ack = record { limit = 240; window = minute }
default_rate_limits RouteClass.heartbeat = record { limit = 120; window = minute }

pub record RateLimitDecision : Type 0 where
  pub allowed : Bool
  pub remaining : ℕ
  pub retry_after_seconds : ℕ
  pub bucket_fingerprint : String

pub data RateLimitError : Type 0 where
  unbounded_principal : RateLimitError

-- `math.ceil` of a number of microseconds in seconds.
abbrev pub ceil_seconds : ℕ → ℕ
ceil_seconds micros = (micros + (second - 1)) / second

-- `window_started_at` of `check`.
unfoldable pub window_start : RateLimitPolicy → ℕ → ℕ
window_start policy now =
    let window_seconds = policy.window / second in
    let epoch_seconds = now / second in (epoch_seconds - epoch_seconds % window_seconds) * second

-- The decision from the backend's answer; `expires_at - checked_at` is positive where it is used.
unfoldable pub decide : RateLimitPolicy → String → ℕ → ℕ → BackendConsumption → RateLimitDecision
decide policy bucket expires now consumed = record {
  allowed = consumed.accepted;
  remaining = policy.limit - consumed.count;
  retry_after_seconds = if not consumed.accepted then max 1 (ceil_seconds (expires - now)) else 0;
  bucket_fingerprint = String.slice bucket 0 12;
}

-- The policies of the limiter, and the HMAC under its identity key.
module _ (policies : RouteClass → RateLimitPolicy) (hmac : String → String) where
  -- `RateLimiter.check` past its guard, over the in-memory backend.
  unfoldable pub check_window :
      String → RouteClass → ℕ → List Window → RateLimitDecision × List Window
  unfolding window_start
  check_window principal route now windows =
      let policy = policies route in
      let started = window_start policy now in
      let expires = started + policy.window in
      let bucket = hmac principal in
      let (consumed, next) = consume bucket route started expires policy.limit now windows in
      (decide policy bucket expires now consumed, next)

  unfoldable pub check :
      String
      → RouteClass
      → ℕ
      → List Window
      → Result RateLimitError (RateLimitDecision × List Window)
  check principal route now windows = do
    raise_if ((principal == "") || ltb 512 (String.count principal))
        RateLimitError.unbounded_principal
    ok (check_window principal route now windows)
