-- ===== src/RateLimiter/Bucket/Rate.antt =====
-- How much a `TokenBucket` of src/rate_limiter/src/lib.rs grants over a period of time.
use native.Mathlib.Nat.{
  div-mul-le_self, lt-div-mul-add, mul-div-le, div-le_of_le-mul, mul-sub, mod-eq_of_lt,
  mul-le-mul_left, mul-le-mul_right,
}
use firecracker.Base.{
  ℕ, ◌+◌, ◌-◌, ◌*◌, ◌/◌, ◌^◌, ◌<◌, ◌≤◌, ◌≡◌, ◌⊎◌, ap, arith, List, [], ◌∷◌, length, inl, inr,
}
use firecracker.RateLimiter.Bucket.{
  BucketReduction, failure, success, over_consumption, TokenBucket, refill_tokens, refill_duration,
  auto_replenish, reduce,
}
use firecracker.RateLimiter.Bucket.Budget.{IsValid, reduce-IsValid}

-- The tokens that a call of `reduce` hands out.
abbrev pub granted : ℕ → BucketReduction → ℕ
granted tokens failure = 0
granted tokens success = tokens
granted tokens (over_consumption _ _) = tokens

-- The requests `(now, tokens)` in order, and all that they are granted.
unfoldable pub run : List (ℕ × ℕ) → TokenBucket → ℕ × TokenBucket
run [] b = (0, b)
run ((now, tokens) ∷ rest) b =
    let (r, b') = reduce now tokens b in
    let (total, end) = run rest b' in (granted tokens r + total, end)

-- A monotone clock, no request above the bucket's size, none after `last`.
abbrev pub Paced : ℕ → ℕ → ℕ → List (ℕ × ℕ) → Type 0
Paced size last from [] = from ≤ last
Paced size last from ((now, tokens) ∷ rest) =
    (from ≤ now) × (tokens ≤ size) × Paced size last now rest

Paced-le : (size last from : ℕ) (rest : List (ℕ × ℕ)) → Paced size last from rest → from ≤ last
Paced-le size last from [] p = p
Paced-le size last from ((now, tokens) ∷ rest) (a, b, p) =
    omega (arith, Paced-le size last now rest p)

-- A call without wrap-around: tokens are paid for by the time that passes, up to one nanosecond.
refill_paid :
    (d c r : ℕ)
    → 0 < c
    → 0 < r
    → d * c < 2 ^ 63
    → (r * (d * c / r) ≤ c * (d * c / r * r / c) + c) × (d * c / r * r / c ≤ d)
refill_paid d c r hc hr fits = (
  omega (arith, mul-div-le (d * c) r, lt-div-mul-add {a = d * c / r * r} hc),
  div-le_of_le-mul c (omega (arith, div-mul-le_self (d * c) r)),
)

module _ (now tokens : ℕ) (b : TokenBucket) where
  -- What the refill at `now` hands out, and how far it moves `last_update`.
  abbrev gained : ℕ
  gained = refill_tokens now b

  abbrev spent : ℕ
  spent = refill_duration gained b

  refill_exact :
      IsValid b
      → (now - b.last_update) * b.processed_capacity < 2 ^ 63
      → (b.processed_refill_time * gained ≤ b.processed_capacity * spent + b.processed_capacity)
        × (spent ≤ now - b.last_update)
  unfolding refill_tokens refill_duration
  refill_exact v fits =
      let d = now - b.last_update in
      let c = b.processed_capacity in
      let r = b.processed_refill_time in
      let d_le : d ≤ d * c = grind arith in
      rw
        (
          mod-eq_of_lt {n = d} {m = 2 ^ 64} (omega arith),
          mod-eq_of_lt {n = d * c} {m = 2 ^ 64} (omega arith),
          mod-eq_of_lt {n = d * c / r * r} {m = 2 ^ 64} (omega (arith, div-mul-le_self (d * c) r)),
        )
        (refill_paid d c r v.capacity_pos v.refill_pos fits)

module _ (now tokens : ℕ) (b : TokenBucket) (small : tokens ≤ b.size)
    (later : b.last_update ≤ now) where
  -- What one call grants comes out of the bucket, or out of the refill for the time that it uses.
  reduce-cases :
      let (r, b') = reduce now tokens b in
      ((granted tokens r + b'.budget + b'.one_time_burst
          ≤ b.budget + b.one_time_burst + refill_tokens now b)
        × (b'.last_update ≡ b.last_update + refill_duration (refill_tokens now b) b))
      ⊎ ((granted tokens r + b'.budget + b'.one_time_burst ≤ b.budget + b.one_time_burst)
          × (b.last_update ≤ b'.last_update)
          × (b'.last_update ≤ now))
  unfolding reduce auto_replenish refill_tokens refill_duration
  reduce-cases = ground arith

  reduce_step :
      (T : ℕ)
      → IsValid b
      → now ≤ T
      → (T - b.last_update) * b.processed_capacity < 2 ^ 63
      → let (r, b') = reduce now tokens b in
        (b.processed_refill_time * (granted tokens r + b'.budget + b'.one_time_burst)
            + b.processed_capacity * b.last_update
          ≤ b.processed_refill_time * (b.budget + b.one_time_burst)
            + b.processed_capacity * b'.last_update
            + b.processed_capacity)
        × (b.last_update ≤ b'.last_update)
        × (b'.last_update ≤ now)
  reduce_step T v nT fits =
      let le : (now - b.last_update) * b.processed_capacity
          ≤ (T - b.last_update) * b.processed_capacity =
        mul-le-mul_right _ (omega arith) in
      let (paid, within) = refill_exact now tokens b v (omega arith) in
      let c = b.processed_capacity in
      let r = b.processed_refill_time in
      elim reduce-cases [
        | inl (g, l) ↦
            (omega (arith, mul-le-mul_left r g, ap (λ (t : ℕ). c * t) l), omega arith, omega arith)
        | inr (g, l, m) ↦ (omega (arith, mul-le-mul_left r g, mul-le-mul_left c l), l, m)
      ]

-- The configuration of a bucket does not change.
reduce-config :
    (now tokens : ℕ) (b : TokenBucket)
    → let b' = (reduce now tokens b).1 in
      (b'.size ≡ b.size)
      × (b'.processed_capacity ≡ b.processed_capacity)
      × (b'.processed_refill_time ≡ b.processed_refill_time)
unfolding reduce auto_replenish
reduce-config now tokens b = ground arith

scale : {a b : ℕ} → a ≡ b → (x : ℕ) → a * x ≡ b * x
scale e x = ap (λ (t : ℕ). t * x) e

-- What a run grants and leaves, against what the bucket held and the time that was used.
run_balance :
    (T from : ℕ) (rest : List (ℕ × ℕ)) (b : TokenBucket)
    → IsValid b
    → b.last_update ≤ from
    → Paced b.size T from rest
    → (T - b.last_update) * b.processed_capacity < 2 ^ 63
    → let (total, end) = run rest b in
      (b.processed_refill_time * total + b.processed_capacity * b.last_update
        ≤ b.processed_refill_time * (b.budget + b.one_time_burst)
          + b.processed_capacity * end.last_update
          + b.processed_capacity * length rest)
      × (b.last_update ≤ end.last_update)
      × (end.last_update ≤ T)
unfolding run
run_balance T from [] b v lf p fits = omega arith
run_balance T from ((now, tokens) ∷ rest) b v lf (fn, small, p) fits =
    let r = (reduce now tokens b).0 in
    let b' = (reduce now tokens b).1 in
    let (es, ec, er) = reduce-config now tokens b in
    let nT : now ≤ T = Paced-le b.size T now rest p in
    let (paid, l, m) = reduce_step now tokens b small (omega arith) T v nT fits in
    let fewer : (T - b'.last_update) * b'.processed_capacity
        ≤ (T - b.last_update) * b.processed_capacity =
      rw ec (mul-le-mul_right _ (omega arith)) in
    let (bal, l2, m2) =
      run_balance T now rest b' (reduce-IsValid now tokens v) m (rw es p) (omega arith) in
    let total = (run rest b').0 in
    let end = (run rest b').1 in
    (
      omega (
        arith,
        scale er total,
        scale er b'.budget,
        scale er b'.one_time_burst,
        scale ec b'.last_update,
        scale ec end.last_update,
        scale ec (length rest),
      ),
      omega arith,
      m2,
    )

-- A bucket of rate `size / refill_time`, as the fraction c / r of tokens in a nanosecond, hands out
-- in a run of requests no more than it holds, plus its refill for the time from its last update to
-- `T`, plus one nanosecond's refill for each request. The clock is monotone and no later than `T`,
-- each request is within the size, and the elapsed time multiplied by c fits 63 bits.
pub run_rate_bound :
    (T : ℕ) (requests : List (ℕ × ℕ)) (b : TokenBucket)
    → IsValid b
    → Paced b.size T b.last_update requests
    → (T - b.last_update) * b.processed_capacity < 2 ^ 63
    → b.processed_refill_time * (run requests b).0
      ≤ b.processed_refill_time * (b.budget + b.one_time_burst)
        + b.processed_capacity * (T - b.last_update)
        + b.processed_capacity * length requests
run_rate_bound T requests b v p fits =
    let (bal, l, m) = run_balance T b.last_update requests b v (omega arith) p fits in
    omega
      (arith, mul-le-mul_left b.processed_capacity m, mul-sub b.processed_capacity T b.last_update)
