-- ===== src/RateLimiter/Limiter.antt =====
-- `RateLimiter` of src/rate_limiter/src/lib.rs: two buckets, a timer and the flag `timer_active`.
-- The f64 operations and the crate `timerfd` are parameters of the model.
pub mod Timer
pub mod Validity
use firecracker.Base.{
  ℕ, ◌+◌, ◌*◌, ◌≤◌, ◌<◌, ◌≡◌, Bool, true, false, Option, none, some, if◌then◌else◌, ◌==◌, u64,
}
use firecracker.RateLimiter.Bucket.{
  BucketReduction, failure, success, over_consumption, TokenBucket, reduce, force_replenish,
  nanosec_in_one_millisec,
}
use firecracker.RateLimiter.Bucket

-- The f64 operations that `consume` uses.
pub record F64 (F : Type 0) : Type 0 where
  pub of_u64 : ℕ → F
  pub div : F → F → F
  pub mul : F → F → F
  pub to_u64 : F → ℕ

-- `TimerFd`: arming it at a time for one shot after some milliseconds, and reading at a time how
-- often it has expired, which resets that count.
pub record TimerFd (T : Type 0) : Type 0 where
  pub set_oneshot : ℕ → ℕ → T → T
  pub read : ℕ → T → ℕ × T

-- What timerfd_create(2) documents of a timer armed for `ms` milliseconds at `now`: it expires once,
-- when they have passed, and 0 disarms it.
pub record IsOneShot {T : Type 0} (fd : TimerFd T) : Type 0 where
  pub early :
      (now ms later : ℕ) (t : T)
      → 0 < ms
      → later < now + ms * nanosec_in_one_millisec
      → (fd.read later (fd.set_oneshot now ms t)).0 ≡ 0
  pub disarmed : (now later : ℕ) (t : T) → (fd.read later (fd.set_oneshot now 0 t)).0 ≡ 0
  pub due :
      (now ms later : ℕ) (t : T)
      → 0 < ms
      → now + ms * nanosec_in_one_millisec ≤ later
      → (fd.read later (fd.set_oneshot now ms t)).0 ≡ 1

pub data TokenType : Type 0 where
  bytes ops : TokenType

pub data BucketUpdate : Type 0 where
  keep : BucketUpdate
  disabled : BucketUpdate
  update : TokenBucket → BucketUpdate

pub data Error : Type 0 where
  spurious_rate_limiter_event : Error

pub record RateLimiter (T : Type 0) : Type 0 where
  pub bandwidth : Option TokenBucket
  pub ops : Option TokenBucket
  pub timer_fd : T
  pub timer_active : Bool

abbrev pub refill_timer_interval_ms : ℕ
refill_timer_interval_ms = 100

apply_update : BucketUpdate → Option TokenBucket → Option TokenBucket
apply_update disabled old = none
apply_update (update tb) old = some tb
apply_update keep old = old

module _ {T : Type 0} where
  -- The third argument is what `TimerFd::new_custom` returns, `none` for its error.
  pub new : ℕ → Option T → ℕ → ℕ → ℕ → ℕ → ℕ → ℕ → Option (RateLimiter T)
  new now none _ _ _ _ _ _ = none
  new now (some t) bytes_capacity bytes_burst bytes_ms ops_capacity ops_burst ops_ms =
      some (record {
        bandwidth = Bucket.new now bytes_capacity bytes_burst bytes_ms;
        ops = Bucket.new now ops_capacity ops_burst ops_ms;
        timer_fd = t;
        timer_active = false;
      })

  -- The bucket that `token_type` selects, and the limiter with that bucket replaced.
  abbrev pub bucket : TokenType → RateLimiter T → Option TokenBucket
  bucket bytes l = l.bandwidth
  bucket ops l = l.ops

  abbrev pub set_bucket : TokenType → TokenBucket → RateLimiter T → RateLimiter T
  set_bucket bytes b l = record l { bandwidth = some b }
  set_bucket ops b l = record l { ops = some b }

  unfoldable pub is_blocked : RateLimiter T → Bool
  is_blocked l = l.timer_active

  replenish_bucket : ℕ → TokenType → Option TokenBucket → RateLimiter T → RateLimiter T
  replenish_bucket tokens token_type none l = l
  replenish_bucket tokens token_type (some b) l = set_bucket token_type (force_replenish tokens b) l

  pub manual_replenish : ℕ → TokenType → RateLimiter T → RateLimiter T
  unfolding replenish_bucket
  manual_replenish tokens token_type l = replenish_bucket tokens token_type (bucket token_type l) l

  pub update_buckets : BucketUpdate → BucketUpdate → RateLimiter T → RateLimiter T
  unfolding apply_update
  update_buckets for_bytes for_ops l = record l {
    bandwidth = apply_update for_bytes l.bandwidth;
    ops = apply_update for_ops l.ops;
  }

module _ {T : Type 0} (fd : TimerFd T) where
  pub activate_timer : ℕ → ℕ → RateLimiter T → RateLimiter T
  activate_timer now ms l = record l {
    timer_fd = fd.set_oneshot now ms l.timer_fd;
    timer_active = true;
  }

  -- The match of `event_handler` on what the timer's `read` returns.
  handle_expirations : ℕ → RateLimiter T → Option Error × RateLimiter T
  handle_expirations n l =
      if n == 0
      then (some spurious_rate_limiter_event, l)
      else (none, record l { timer_active = false })

  unfoldable pub event_handler : ℕ → RateLimiter T → Option Error × RateLimiter T
  unfolding handle_expirations
  event_handler now l =
      let (n, t) = fd.read now l.timer_fd in handle_expirations n (record l { timer_fd = t })

module _ {F T : Type 0} (f : F64 F) (fd : TimerFd T) where
  open f use {of_u64, div, mul, to_u64}

  -- The milliseconds for which an over-consumption blocks the limiter.
  unfoldable pub penalty_ms : ℕ → ℕ → ℕ → ℕ
  penalty_ms excess size refill_time =
      to_u64 (mul (div (of_u64 excess) (of_u64 size)) (of_u64 refill_time))

  -- The match of `consume` on the outcome of `reduce`.
  settle : ℕ → ℕ → BucketReduction → RateLimiter T → Bool × RateLimiter T
  unfolding activate_timer
  settle now refill_time failure l =
      (false, if l.timer_active then l else activate_timer fd now refill_timer_interval_ms l)
  settle now refill_time success l = (true, l)
  settle now refill_time (over_consumption excess size) l =
      (true, activate_timer fd now (penalty_ms excess size refill_time) l)

  consume_bucket : ℕ → ℕ → TokenType → Option TokenBucket → RateLimiter T → Bool × RateLimiter T
  unfolding settle
  consume_bucket now tokens token_type none l = (true, l)
  consume_bucket now tokens token_type (some b) l =
      let (r, b') = reduce now tokens b in settle now b.refill_time r (set_bucket token_type b' l)

  unfoldable pub consume : ℕ → ℕ → TokenType → RateLimiter T → Bool × RateLimiter T
  unfolding consume_bucket
  consume now tokens token_type l =
      if l.timer_active
      then (false, l)
      else consume_bucket now tokens token_type (bucket token_type l) l
