-- ===== src/RateLimiter/Examples.antt =====
-- Tests of the rate limiter, and its theorems at concrete inputs.

use firecracker.Base.{
  ℕ, ◌+◌, ◌-◌, ◌*◌, ◌/◌, ◌≤◌, ◌<◌, ◌≡◌, refl, true, false, Option, none, some, arith, List, [], ◌∷◌,
  if◌then◌else◌, leb,
}
use firecracker.RateLimiter.Bucket
use firecracker.RateLimiter.Bucket.{
  TokenBucket, failure, success, over_consumption, reduce, force_replenish, refill_tokens,
  auto_replenish, nanosec_in_one_millisec,
}
use firecracker.RateLimiter.Bucket.Gcd.{gcd}
use firecracker.RateLimiter.Bucket.Budget.{
  IsValid, new-IsValid, reduce-IsValid, refill_tokens_overflow,
}
use firecracker.RateLimiter.Bucket.Rate.{run, run_rate_bound}
use firecracker.RateLimiter.Limiter.{
  F64, TimerFd, IsOneShot, RateLimiter, bytes, consume, is_blocked, event_handler,
  spurious_rate_limiter_event, penalty_ms,
}
use firecracker.RateLimiter.Limiter.Timer.{consume_resumes, consume_stuck}
use firecracker.RateLimiter.Limiter.Validity
use firecracker.RateLimiter.Limiter.Validity.{Reach, refunds}

-- 1000 tokens in a second, with a burst of 50.
abbrev bucket : TokenBucket
bucket = record {
  size = 1000;
  initial_one_time_burst = 50;
  refill_time = 1000;
  one_time_burst = 50;
  budget = 1000;
  last_update = 0;
  processed_capacity = 1;
  processed_refill_time = 1_000_000;
}

bucket-new : Bucket.new 0 1000 50 1000 ≡ some bucket
unfolding Bucket.new gcd
bucket-new = refl

bucket-IsValid : IsValid bucket
bucket-IsValid = new-IsValid 0 1000 50 1000 (omega arith) bucket-new

reduce-IsValid_example : IsValid (reduce 5_000_000 1050 bucket).1
reduce-IsValid_example = reduce-IsValid 5_000_000 1050 bucket-IsValid

-- 1200 tokens at once, and then 500 three times in half a second.
abbrev requests : List (ℕ × ℕ)
requests = (1_000_000, 1000) ∷ (2_000_000, 500) ∷ (300_000_000, 500) ∷ (600_000_000, 500) ∷ []

requests-run : (run requests bucket).0 ≡ 1500
unfolding run reduce
requests-run = refl

run_rate_bound_example :
    1_000_000 * (run requests bucket).0 ≤ 1_000_000 * 1050 + 1 * (600_000_000 - 0) + 1 * 4
run_rate_bound_example =
    run_rate_bound 600_000_000 requests bucket bucket-IsValid (omega arith) (omega arith)

-- 10^9 + 7 tokens in a second: 20 seconds are too long for the product.
abbrev fast : TokenBucket
fast = record bucket {
  size = 1_000_000_007;
  budget = 1_000_000_007;
  processed_capacity = 1_000_000_007;
  processed_refill_time = 1_000_000_000;
}

fast-IsValid : IsValid fast
fast-IsValid = record {
  budget_le = omega arith;
  capacity_pos = omega arith;
  refill_pos = omega arith;
  exact = refl;
}

refill_tokens_overflow_example :
    refill_tokens 20_000_000_000 fast < (20_000_000_000 - 0) * 1_000_000_007 / 1_000_000_000
refill_tokens_overflow_example =
    refill_tokens_overflow 20_000_000_000 fast fast-IsValid (omega arith) (omega arith)
      (omega arith)

-- Fractions for the floats, and a timer that holds its deadline.
abbrev fractions : F64 (ℕ × ℕ)
fractions = record {
  of_u64 = λ n. (n, 1);
  div = λ a b. (a.0 * b.1, a.1 * b.0);
  mul = λ a b. (a.0 * b.0, a.1 * b.1);
  to_u64 = λ a. a.0 / a.1;
}

arm : ℕ → ℕ → Option ℕ
arm now ms = if leb ms 0 then none else some (now + ms * nanosec_in_one_millisec)

poll : ℕ → Option ℕ → ℕ × Option ℕ
poll later none = (0, none)
poll later (some d) = if leb d later then (1, none) else (0, some d)

abbrev deadline : TimerFd (Option ℕ)
deadline = record { set_oneshot = λ now ms _. arm now ms; read = poll }

deadline-IsOneShot : IsOneShot deadline
unfolding arm poll
deadline-IsOneShot = record {
  early = λ now ms later t pos soon. ground arith;
  disarmed = λ now later t. ground arith;
  due = λ now ms later t pos late. ground arith;
}

abbrev limiter : RateLimiter (Option ℕ)
limiter = record { bandwidth = some bucket; ops = none; timer_fd = none; timer_active = false }

abbrev empty : TokenBucket
empty = record bucket { one_time_burst = 0; budget = 0 }

consume_resumes_example :
    let (granted, l') =
      consume fractions deadline 7 100 bytes (record limiter { bandwidth = some empty }) in
    let (error, l'') = event_handler deadline 200_000_000 l' in
    (granted ≡ false)
    × (is_blocked l' ≡ true)
    × (200_000_000 < 7 + 100 * nanosec_in_one_millisec
        → (error ≡ some spurious_rate_limiter_event) × (is_blocked l'' ≡ true))
    × (7 + 100 * nanosec_in_one_millisec ≤ 200_000_000 → (error ≡ none) × (is_blocked l'' ≡ false))
unfolding is_blocked reduce
consume_resumes_example =
    consume_resumes fractions deadline 7 100 deadline-IsOneShot bytes
      (record limiter { bandwidth = some empty }) empty refl refl refl 200_000_000

-- 1001 tokens from a full bucket of 1000 that fills in 100 ms: the excess of one token is worth 0 ms.
abbrev brisk : TokenBucket
brisk = record bucket { one_time_burst = 0; refill_time = 100; processed_refill_time = 100_000 }

consume_stuck_example :
    let (granted, l') =
      consume fractions deadline 7 1001 bytes (record limiter { bandwidth = some brisk }) in
    let (error, l'') = event_handler deadline 1_000_000_000 l' in
    (granted ≡ true) × (error ≡ some spurious_rate_limiter_event) × (is_blocked l'' ≡ true)
unfolding is_blocked reduce penalty_ms
consume_stuck_example =
    consume_stuck fractions deadline 7 1001 deadline-IsOneShot bytes
      (record limiter { bandwidth = some brisk }) brisk 1 1000 refl refl refl refl 1_000_000_000
