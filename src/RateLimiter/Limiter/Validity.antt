-- ===== src/RateLimiter/Limiter/Validity.antt =====
-- The buckets of `RateLimiter`, src/rate_limiter/src/lib.rs, stay valid over any sequence of calls.
use firecracker.Base.{ℕ, Option, none, some}
use firecracker.RateLimiter.Bucket.{TokenBucket}
use firecracker.RateLimiter.Bucket.Budget
use firecracker.RateLimiter.Limiter.{
  F64, TimerFd, TokenType, BucketUpdate, RateLimiter, manual_replenish, update_buckets, consume,
  event_handler, ops, keep, disabled, update,
}

-- Both buckets, where there are any, are valid.
abbrev pub ValidBucket : Option TokenBucket → Type 0
ValidBucket none = Unit
ValidBucket (some b) = Budget.IsValid b

abbrev pub ValidUpdate : BucketUpdate → Type 0
ValidUpdate (update b) = Budget.IsValid b
ValidUpdate keep = Unit
ValidUpdate disabled = Unit

pub record IsValid {T : Type 0} (l : RateLimiter T) : Type 0 where
  pub bandwidth : ValidBucket l.bandwidth
  pub ops : ValidBucket l.ops

-- The calls that change a limiter: requests, refunds, timer events, and new configurations with
-- valid buckets.
pub data Step {F T : Type 0} (f : F64 F) (fd : TimerFd T)
    : RateLimiter T → RateLimiter T → Type 0 where
  consumes :
      (now tokens : ℕ) (k : TokenType) (l : RateLimiter T)
      → Step f fd l (consume f fd now tokens k l).1
  refunds :
      (tokens : ℕ) (k : TokenType) (l : RateLimiter T) → Step f fd l (manual_replenish tokens k l)
  wakes : (now : ℕ) (l : RateLimiter T) → Step f fd l (event_handler fd now l).1
  updates :
      (u v : BucketUpdate) (l : RateLimiter T)
      → ValidUpdate u
      → ValidUpdate v
      → Step f fd l (update_buckets u v l)

pub data Reach {F T : Type 0} (f : F64 F) (fd : TimerFd T) (s : RateLimiter T)
    : RateLimiter T → Type 0 where
  here : Reach f fd s s
  next : {l m : RateLimiter T} → Reach f fd s l → Step f fd l m → Reach f fd s m
