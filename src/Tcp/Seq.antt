-- ===== src/Tcp/Seq.antt =====
-- Sequence numbers, src/dumbo/src/tcp/mod.rs: `Wrapping<u32>` values are numbers below 2 ^ 32.
use firecracker.Base.{
  ℕ, ◌+◌, ◌^◌, ◌<◌, ◌≡◌, Bool, true, false, not, ◌&&◌, arith, ltb, ◌==◌, sub32, u32,
}

abbrev pub max_window_size : ℕ
max_window_size = 1_073_725_440

abbrev pub mss_default : ℕ
mss_default = 536

unfoldable pub seq_after : ℕ → ℕ → Bool
seq_after a b = not (a == b) && ltb (sub32 a b) max_window_size

unfoldable pub seq_at_or_after : ℕ → ℕ → Bool
seq_at_or_after a b = ltb (sub32 a b) max_window_size

-- Whichever number the sequence space starts from, `a` is after `b` exactly when it is reached from
-- `b` by 1 to 2^30 - 16385 steps, and then `b` is not at or after `a`.
seq_after-add :
    (b n : ℕ)
    → b < 2 ^ 32
    → 0 < n
    → n < max_window_size
    → (seq_after (u32 (b + n)) b ≡ true) × (seq_at_or_after b (u32 (b + n)) ≡ false)
unfolding seq_after seq_at_or_after
seq_after-add b n hb pos hn = ground arith
