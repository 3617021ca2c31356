-- ===== src/Queue/Notify.antt =====
-- `Queue::try_enable_notification` of src/devices/src/virtio/queue.rs: no available chain is missed.
use firecracker.Base.{
  ℕ, ◌+◌, ◌*◌, ◌^◌, ◌<◌, ◌≡◌, refl, ap, sym, ◌∙◌, Bool, true, false, not, Option, none, some, arith,
  if-split, ltb, ltb→lt, ◌==◌, u16, sub16,
}
use mathlib.Core.Bool.{true≢false}
use firecracker.Queue.Memory.{GuestMemory, IsMemory}
use firecracker.Queue.Rings.{
  Queue, Outcome, returns, panics, actual_size, avail_idx, len, unwrap, and_then, set_avail_event,
  try_enable_of, try_enable_notification,
}

-- The driver is asked for a notification at the next chain, and there is none before it.
pub record IsQuiet {M : Type 0} (gm : GuestMemory M) (q : Queue) (m : M) : Type 0 where
  pub avail_event : gm.read_u16 m (q.used_ring + (4 + 8 * actual_size q)) ≡ some q.next_avail
  pub empty : len gm q m ≡ returns 0

-- Where the used ring has `avail_event`.
abbrev pub event_addr : Queue → ℕ
event_addr q = q.used_ring + (4 + 8 * actual_size q)

-- The panics are a read of the index or the write of `avail_event` that fails, and an index that makes
-- more chains available than the queue has.
pub data OnEnable {M : Type 0} (gm : GuestMemory M) (q : Queue) (start : M)
    : Outcome (Bool × M) → Type 0 where
  unread : gm.read_u16 start (gm.unchecked_add q.avail_ring 2) ≡ none → OnEnable gm q start panics
  too_many : (n : ℕ) → len gm q start ≡ returns n → actual_size q < n → OnEnable gm q start panics
  unwritten : gm.write_u16 start (event_addr q) q.next_avail ≡ none → OnEnable gm q start panics
  reread :
      {m : M}
      → gm.write_u16 start (event_addr q) q.next_avail ≡ some m
      → gm.read_u16 m (gm.unchecked_add q.avail_ring 2) ≡ none
      → OnEnable gm q start panics
  chains_left :
      {m : M} (n : ℕ) → len gm q m ≡ returns n → 0 < n → OnEnable gm q start (returns (false, m))
  enabled : {m : M} → IsQuiet gm q m → OnEnable gm q start (returns (true, m))

module _ {M : Type 0} (gm : GuestMemory M) (law : IsMemory gm) (q : Queue)
    (bound : q.next_avail < 2 ^ 16) (in_range : q.used_ring + 6 + 8 * actual_size q < 2 ^ 64)
    (small : 4 + 8 * actual_size q < 2 ^ 16) where
  len-avail_idx :
      (m : M) (i : ℕ) → avail_idx gm q m ≡ returns i → len gm q m ≡ returns (sub16 i q.next_avail)
  unfolding len and_then
  len-avail_idx m i e = ap (λ o. and_then o (λ i. returns (sub16 i q.next_avail))) e

  avail_idx-bound : (m : M) (i : ℕ) → avail_idx gm q m ≡ returns i → i < 2 ^ 16
  unfolding avail_idx unwrap
  avail_idx-bound m i e = go (gm.read_u16 m (gm.unchecked_add q.avail_ring 2)) refl e
    where
      go :
          (o : Option ℕ)
          → gm.read_u16 m (gm.unchecked_add q.avail_ring 2) ≡ o
          → unwrap o ≡ returns i
          → i < 2 ^ 16
      go none r f = grind arith
      go (some v) r f = grind (arith, law.read_u16_bound r)

  avail_idx-panics :
      (m : M) → avail_idx gm q m ≡ panics → gm.read_u16 m (gm.unchecked_add q.avail_ring 2) ≡ none
  unfolding avail_idx unwrap
  avail_idx-panics m e = go (gm.read_u16 m (gm.unchecked_add q.avail_ring 2)) e
    where
      go : (o : Option ℕ) → unwrap o ≡ panics → o ≡ none
      go none f = refl
      go (some v) f = cc

  after_event-OnEnable :
      (start m : M) (o : Outcome ℕ)
      → gm.write_u16 start (event_addr q) q.next_avail ≡ some m
      → avail_idx gm q m ≡ o
      → OnEnable gm q start (and_then o (λ i. returns (q.next_avail == i, m)))
  unfolding and_then
  after_event-OnEnable start m panics w f = reread w (avail_idx-panics m f)
  after_event-OnEnable start m (returns i) w f = go (q.next_avail == i) refl
    where
      go : (b : Bool) → (q.next_avail == i) ≡ b → OnEnable gm q start (returns (b, m))
      go false t =
          chains_left (sub16 i q.next_avail) (len-avail_idx m i f)
            (ground (arith, avail_idx-bound m i f))
      go true t = enabled (record {
        avail_event = law.read-write_u16 bound w;
        empty = len-avail_idx m i f ∙ ap returns (ground arith);
      })

  set_event-OnEnable :
      (m : M) (o : Option M)
      → gm.write_u16 m (event_addr q) q.next_avail ≡ o
      → OnEnable gm q m (
          and_then
            (unwrap o)
            (λ m'. and_then (avail_idx gm q m') (λ i. returns (q.next_avail == i, m'))))
  unfolding and_then unwrap
  set_event-OnEnable m none e = unwritten e
  set_event-OnEnable m (some m') e = after_event-OnEnable m m' (avail_idx gm q m') e refl

  len-panics :
      (o : Outcome ℕ) → and_then o (λ i. returns (sub16 i q.next_avail)) ≡ panics → o ≡ panics
  unfolding and_then
  len-panics panics e = refl
  len-panics (returns i) e = cc

  try_enable_of-OnEnable :
      (m : M) (n : ℕ) → len gm q m ≡ returns n → OnEnable gm q m (try_enable_of gm q m n)
  unfolding try_enable_of set_avail_event
  try_enable_of-OnEnable m n l =
      let offset : u16 (4 + u16 (8 * actual_size q)) ≡ 4 + 8 * actual_size q =
        omega (arith, small) in
      if-split (OnEnable gm q m) (not (n == 0))
        (λ t.
          if-split (OnEnable gm q m) (ltb (actual_size q) n) (λ t. too_many n l (ltb→lt _ _ t))
            (λ _. chains_left n l (ground arith)))
        (λ _.
          rw (offset, law.unchecked_add_lem q.used_ring (4 + 8 * actual_size q) (omega arith))
            (set_event-OnEnable m _ refl))

  -- In a queue of fewer than 8192 entries whose used ring ends below 2 ^ 64, with a 16-bit `next_avail`
  -- and notification suppression, where `try_enable_notification` returns true, the guest's
  -- `avail_event` is the next chain to be popped and, by the index read after that was written, no
  -- chain before it is available; where it returns false, chains are available in the memory that
  -- it leaves. It panics only where the index cannot be read, `avail_event` cannot be written, or the
  -- index makes more chains available than the queue has.
  pub try_enable_notification-OnEnable :
      (m : M) → q.uses_notif_suppression ≡ true → OnEnable gm q m (try_enable_notification gm q m)
  unfolding try_enable_notification and_then len
  try_enable_notification-OnEnable m on =
      if-split (OnEnable gm q m) (not q.uses_notif_suppression)
        (λ t. absurd (true≢false (sym t ∙ ap not on))) (λ _. go (len gm q m) refl)
    where
      go : (o : Outcome ℕ) → len gm q m ≡ o → OnEnable gm q m (and_then o (try_enable_of gm q m))
      go panics l = unread (avail_idx-panics m (len-panics (avail_idx gm q m) l))
      go (returns n) l = try_enable_of-OnEnable m n l
