-- ===== src/RateLimiter/Limiter/Timer.antt =====
-- When `RateLimiter` of src/rate_limiter/src/lib.rs blocks, refuses and resumes.
use firecracker.Base.{ℕ, ◌+◌, ◌*◌, ◌≤◌, ◌<◌, ◌≡◌, ◌∙◌, refl, true, false, none, some, arith}
use firecracker.RateLimiter.Bucket.{
  failure, over_consumption, TokenBucket, reduce, nanosec_in_one_millisec,
}
use firecracker.RateLimiter.Limiter.{
  F64, TimerFd, IsOneShot, TokenType, RateLimiter, spurious_rate_limiter_event,
  refill_timer_interval_ms, bucket, set_bucket, is_blocked, activate_timer, consume, event_handler,
  bytes, ops, settle, penalty_ms,
}

module _ {T : Type 0} (fd : TimerFd T) where
  -- An event of an armed timer, by what the timer's read returns.
  event_armed :
      (now ms later : ℕ) (l : RateLimiter T)
      → ((fd.read later (fd.set_oneshot now ms l.timer_fd)).0 ≡ 0
          → ((event_handler fd later (activate_timer fd now ms l)).0
              ≡ some spurious_rate_limiter_event)
            × (is_blocked (event_handler fd later (activate_timer fd now ms l)).1 ≡ true))
        × ((fd.read later (fd.set_oneshot now ms l.timer_fd)).0 ≡ 1
            → ((event_handler fd later (activate_timer fd now ms l)).0 ≡ none)
              × (is_blocked (event_handler fd later (activate_timer fd now ms l)).1 ≡ false))
  unfolding event_handler is_blocked activate_timer
  event_armed now ms later l = ((λ e. (simp e, simp e)), (λ e. (simp e, simp e)))

module _ {F T : Type 0} (f : F64 F) (fd : TimerFd T) (now tokens : ℕ) where
  -- A blocked limiter grants nothing and does not change, also for a kind of token without a bucket.
  consume_blocked :
      (k : TokenType) (l : RateLimiter T)
      → is_blocked l ≡ true
      → consume f fd now tokens k l ≡ (false, l)
  unfolding consume is_blocked
  consume_blocked k l h = simp h

  consume_open :
      (k : TokenType) (l : RateLimiter T) (b : TokenBucket)
      → is_blocked l ≡ false
      → bucket k l ≡ some b
      → consume f fd now tokens k l
        ≡ settle f fd now b.refill_time
            (reduce now tokens b).0
            (set_bucket k (reduce now tokens b).1 l)
  unfolding consume is_blocked
  consume_open bytes l b h e = simp (h, e)
  consume_open ops l b h e = simp (h, e)

  settle_failure :
      (ms : ℕ) (k : TokenType) (b : TokenBucket) (l : RateLimiter T)
      → is_blocked l ≡ false
      → settle f fd now ms failure (set_bucket k b l)
        ≡ (false, activate_timer fd now refill_timer_interval_ms (set_bucket k b l))
  unfolding settle is_blocked
  settle_failure ms bytes b l h = simp h
  settle_failure ms ops b l h = simp h

  consume_refused :
      (k : TokenType) (l : RateLimiter T) (b : TokenBucket)
      → is_blocked l ≡ false
      → bucket k l ≡ some b
      → (reduce now tokens b).0 ≡ failure
      → consume f fd now tokens k l ≡ (
        false,
        activate_timer fd now refill_timer_interval_ms (set_bucket k (reduce now tokens b).1 l),
      )
  consume_refused k l b h e r =
      consume_open k l b h e ∙ rw r (settle_failure b.refill_time k (reduce now tokens b).1 l h)

  -- A request that the bucket cannot serve is refused and blocks the limiter. A timer event in the
  -- 100 ms after it is reported as spurious; the first one later unblocks the limiter.
  pub consume_resumes :
      IsOneShot fd
      → (k : TokenType) (l : RateLimiter T) (b : TokenBucket) → is_blocked l ≡ false
      → bucket k l ≡ some b
      → (reduce now tokens b).0 ≡ failure
      → (later : ℕ)
      → let (granted, l') = consume f fd now tokens k l in
        let (error, l'') = event_handler fd later l' in
        (granted ≡ false)
        × (is_blocked l' ≡ true)
        × (later < now + 100 * nanosec_in_one_millisec
            → (error ≡ some spurious_rate_limiter_event) × (is_blocked l'' ≡ true))
        × (now + 100 * nanosec_in_one_millisec ≤ later → (error ≡ none) × (is_blocked l'' ≡ false))
  unfolding is_blocked activate_timer
  consume_resumes law k l b h e r later =
      let armed =
        event_armed fd now refill_timer_interval_ms later
          (set_bucket k (reduce now tokens b).1 l) in
      rw (consume_refused k l b h e r) (
        refl,
        refl,
        (λ t. armed.0 (law.early now 100 later _ (omega arith) t)),
        (λ t. armed.1 (law.due now 100 later _ (omega arith) t)),
      )

  -- A request above the bucket's size is served, and blocks the limiter for the time that the
  -- excess is worth. Where that rounds to 0 ms the timer is disarmed: no event unblocks it again.
  pub consume_stuck :
      IsOneShot fd
      → (k : TokenType) (l : RateLimiter T) (b : TokenBucket) (excess size : ℕ)
      → is_blocked l ≡ false
      → bucket k l ≡ some b
      → (reduce now tokens b).0 ≡ over_consumption excess size
      → penalty_ms f fd excess size b.refill_time ≡ 0
      → (later : ℕ)
      → let (granted, l') = consume f fd now tokens k l in
        let (error, l'') = event_handler fd later l' in
        (granted ≡ true) × (error ≡ some spurious_rate_limiter_event) × (is_blocked l'' ≡ true)
  unfolding settle
  consume_stuck law k l b excess size h e r zero_ms later =
      let armed = event_armed fd now 0 later (set_bucket k (reduce now tokens b).1 l) in
      rw (consume_open k l b h e, r, zero_ms)
        (refl, (armed.0 (law.disarmed now later _)).0, (armed.0 (law.disarmed now later _)).1)
