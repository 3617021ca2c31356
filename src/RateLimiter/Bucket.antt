-- ===== src/RateLimiter/Bucket.antt =====
-- `TokenBucket` of src/rate_limiter/src/lib.rs. `Instant` is a number of nanoseconds, and what
-- `Instant::now` returns is the argument `now`. A u64 product or sum wraps, as in the release build.
pub mod Gcd
pub mod Budget
pub mod Rate
use Gcd.{gcd}
use firecracker.Base.{
  ℕ, zero, suc, ◌+◌, ◌-◌, ◌*◌, ◌/◌, ◌%◌, ◌^◌, ◌<◌, min, ◌≡◌, Bool, ◌||◌, Option, none, some, ltb,
  leb, ◌==◌, if◌then◌else◌, u64,
}

-- `OverConsumption(a as f64 / b as f64)` is kept as its two operands; `consume` divides them.
pub data BucketReduction : Type 0 where
  failure : BucketReduction
  success : BucketReduction
  over_consumption : ℕ → ℕ → BucketReduction

pub record TokenBucket : Type 0 where
  pub size : ℕ
  pub initial_one_time_burst : ℕ
  pub refill_time : ℕ
  pub one_time_burst : ℕ
  pub budget : ℕ
  pub last_update : ℕ
  pub processed_capacity : ℕ
  pub processed_refill_time : ℕ

abbrev pub nanosec_in_one_millisec : ℕ
nanosec_in_one_millisec = 1_000_000

unfoldable pub new : ℕ → ℕ → ℕ → ℕ → Option TokenBucket
new now size one_time_burst complete_refill_time_ms =
    if size == 0 || complete_refill_time_ms == 0
    then none
    else (let complete_refill_time_ns = u64 (complete_refill_time_ms * nanosec_in_one_millisec) in
        let common_factor = gcd size complete_refill_time_ns in
        some (record {
          size = size;
          initial_one_time_burst = one_time_burst;
          refill_time = complete_refill_time_ms;
          one_time_burst = one_time_burst;
          budget = size;
          last_update = now;
          processed_capacity = size / common_factor;
          processed_refill_time = complete_refill_time_ns / common_factor;
        }))

-- Nanoseconds since the last update; `Instant::elapsed` saturates at 0.
abbrev pub elapsed : ℕ → TokenBucket → ℕ
elapsed now b = u64 (now - b.last_update)

-- The tokens that `auto_replenish` generates.
pub refill_tokens : ℕ → TokenBucket → ℕ
refill_tokens now b = u64 (elapsed now b * b.processed_capacity) / b.processed_refill_time

-- The time by which `auto_replenish` advances `last_update` for `tokens`.
pub refill_duration : ℕ → TokenBucket → ℕ
refill_duration tokens b = u64 (tokens * b.processed_refill_time) / b.processed_capacity

unfoldable pub auto_replenish : ℕ → TokenBucket → TokenBucket
unfolding refill_tokens refill_duration
auto_replenish now b =
    let tokens = refill_tokens now b in
    record b {
      last_update = b.last_update + refill_duration tokens b;
      budget = min (u64 (b.budget + tokens)) b.size;
    }

pub force_replenish : ℕ → TokenBucket → TokenBucket
force_replenish tokens b =
    if ltb 0 b.one_time_burst
    then record b { one_time_burst = u64 (b.one_time_burst + tokens) }
    else record b { budget = min (u64 (b.budget + tokens)) b.size }

-- The part of `reduce` after `auto_replenish`. The bucket holds at most `size` there, so that
-- `tokens -= self.budget` is exact.
pub reduce_replenished : ℕ → TokenBucket → BucketReduction × TokenBucket
reduce_replenished tokens b =
    if ltb b.size tokens
    then (over_consumption (tokens - b.budget) b.size, record b { budget = 0 })
    else if ltb b.budget tokens
    then (failure, b)
    else (success, record b { budget = b.budget - tokens })

-- The part of `reduce` after the burst.
pub reduce_budget : ℕ → ℕ → TokenBucket → BucketReduction × TokenBucket
unfolding reduce_replenished auto_replenish
reduce_budget now tokens b =
    if ltb b.budget tokens
    then reduce_replenished tokens (auto_replenish now b)
    else (success, record b { budget = b.budget - tokens })

unfoldable pub reduce : ℕ → ℕ → TokenBucket → BucketReduction × TokenBucket
unfolding reduce_budget
reduce now tokens b =
    if ltb 0 b.one_time_burst
    then (if leb tokens b.one_time_burst
        then (success, record b { one_time_burst = b.one_time_burst - tokens; last_update = now })
        else reduce_budget now (tokens - b.one_time_burst) (record b { one_time_burst = 0 }))
    else reduce_budget now tokens b
