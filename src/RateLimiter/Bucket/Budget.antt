-- ===== src/RateLimiter/Bucket/Budget.antt =====
-- The invariant of `TokenBucket`, src/rate_limiter/src/lib.rs, and what each call grants.
use native.Mathlib.Nat.{mul-div_cancel_left, mod-eq_of_lt, le-div_iff_mul-le, div-mul-le_self}
use firecracker.Base.{ℕ, zero, ◌-◌, ◌%◌, suc, ◌*◌, ◌/◌, ◌^◌, ◌<◌, ◌≤◌, ◌≡◌, ap, some, arith}
use firecracker.RateLimiter.Bucket.{
  TokenBucket, success, refill_tokens, new, auto_replenish, force_replenish, reduce,
  nanosec_in_one_millisec,
}
use firecracker.RateLimiter.Bucket.Gcd.{gcd, gcd-Divides, Divides}

-- The budget stays within the size, no division is by zero, and the processed fraction is the
-- configured rate.
pub record IsValid (b : TokenBucket) : Type 0 where
  pub budget_le : b.budget ≤ b.size
  pub capacity_pos : 0 < b.processed_capacity
  pub refill_pos : 0 < b.processed_refill_time
  pub exact :
      b.processed_capacity * (b.refill_time * nanosec_in_one_millisec)
      ≡ b.size * b.processed_refill_time

exact_quotient : (g x : ℕ) → 0 < x → Divides g x → (x ≡ g * (x / g)) × (0 < g) × (0 < x / g)
exact_quotient zero x hx (p, e) = absurd (omega arith)
exact_quotient (suc g) x hx (p, e) =
    let q : x / suc g ≡ p = rw e (mul-div_cancel_left p (omega arith)) in grind (arith, q, e)

cross : (g x y p q : ℕ) → x ≡ g * p → y ≡ g * q → p * y ≡ x * q
cross g x y p q ex ey = omega (arith, ap (λ (t : ℕ). p * t) ey, ap (λ (t : ℕ). t * q) ex)

reduced_fraction :
    (x y : ℕ)
    → 0 < x
    → 0 < y
    → (0 < x / gcd x y) × (0 < y / gcd x y) × (x / gcd x y * y ≡ x * (y / gcd x y))
reduced_fraction x y hx hy =
    let (dx, dy) = gcd-Divides x y in
    let (ex, pg, px) = exact_quotient (gcd x y) x hx dx in
    let (ey, _, py) = exact_quotient (gcd x y) y hy dy in
    (px, py, cross (gcd x y) x y (x / gcd x y) (y / gcd x y) ex ey)

-- A bucket that `new` returns is valid, if its refill time in nanoseconds fits a u64.
pub new-IsValid :
    (now size burst ms : ℕ) {b : TokenBucket}
    → ms * nanosec_in_one_millisec < 2 ^ 64
    → new now size burst ms ≡ some b
    → IsValid b
unfolding new
new-IsValid now size burst ms {b} fits e = ground (arith, reduced_fraction size (ms * 1000000))

auto_replenish-IsValid : (now : ℕ) {b : TokenBucket} → IsValid b → IsValid (auto_replenish now b)
unfolding auto_replenish
auto_replenish-IsValid now v = ground arith

pub force_replenish-IsValid :
    (tokens : ℕ) {b : TokenBucket} → IsValid b → IsValid (force_replenish tokens b)
unfolding force_replenish
force_replenish-IsValid tokens v = ground arith

-- `reduce` keeps the invariant on every branch.
pub reduce-IsValid :
    (now tokens : ℕ) {b : TokenBucket} → IsValid b → IsValid (reduce now tokens b).1
unfolding reduce auto_replenish
reduce-IsValid now tokens v = ground arith

-- Returning the tokens of a request that was served from the budget restores the bucket.
pub force_replenish-reduce :
    (now tokens : ℕ) (b : TokenBucket)
    → IsValid b
    → b.size < 2 ^ 64
    → b.one_time_burst ≡ 0
    → tokens ≤ b.budget
    → ((reduce now tokens b).0 ≡ success) × (force_replenish tokens (reduce now tokens b).1 ≡ b)
unfolding force_replenish reduce
force_replenish-reduce now tokens b v hs hb ht = ground arith

-- Where the product of the elapsed time and the capacity passes 64 bits, it wraps: the refill is
-- less than the configured rate gives.
pub refill_tokens_overflow :
    (now : ℕ) (b : TokenBucket)
    → IsValid b
    → now - b.last_update < 2 ^ 64
    → b.processed_refill_time ≤ 2 ^ 64
    → 2 ^ 64 ≤ (now - b.last_update) * b.processed_capacity
    → refill_tokens now b < (now - b.last_update) * b.processed_capacity / b.processed_refill_time
unfolding refill_tokens
refill_tokens_overflow now b v hd hr big =
    let p = (now - b.last_update) * b.processed_capacity in
    rw (mod-eq_of_lt {n = now - b.last_update} {m = 2 ^ 64} hd) (
      (le-div_iff_mul-le v.refill_pos).1
        (omega (arith, div-mul-le_self (p % 2 ^ 64) b.processed_refill_time)))
