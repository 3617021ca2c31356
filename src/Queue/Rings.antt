-- ===== src/Queue/Rings.antt =====
-- `Queue` of src/devices/src/virtio/queue.rs: the operations on the rings in guest memory.
use firecracker.Base.{
  ℕ, ◌+◌, ◌-◌, ◌*◌, ◌%◌, Bool, true, false, not, ◌||◌, Option, none, some, min, ltb, leb, ◌==◌,
  bit_and, if◌then◌else◌, u16, sub16,
}
use firecracker.Queue.Memory.{GuestMemory}
use firecracker.Queue.Descriptor.{DescriptorChain, checked_new}

pub data QueueError : Type 0 where
  desc_index_out_of_bounds : ℕ → QueueError
  used_ring_error : QueueError

-- What a call that may panic does.
pub data Outcome {ℓ} (A : Type ℓ) : Type ℓ where
  returns : A → Outcome A
  panics : Outcome A

pub record Queue : Type 0 where
  pub max_size : ℕ
  pub size : ℕ
  pub ready : Bool
  pub desc_table : ℕ
  pub avail_ring : ℕ
  pub used_ring : ℕ
  pub next_avail : ℕ
  pub next_used : ℕ
  pub uses_notif_suppression : Bool
  pub num_added : ℕ

unfoldable pub new : ℕ → Queue
new max_size = record {
  max_size = max_size;
  size = 0;
  ready = false;
  desc_table = 0;
  avail_ring = 0;
  used_ring = 0;
  next_avail = 0;
  next_used = 0;
  uses_notif_suppression = false;
  num_added = 0;
}

unfoldable pub actual_size : Queue → ℕ
actual_size q = min q.size q.max_size

unfoldable pub undo_pop : Queue → Queue
undo_pop q = record q { next_avail = sub16 q.next_avail 1 }

unfoldable pub enable_notif_suppression : Queue → Queue
enable_notif_suppression q = record q { uses_notif_suppression = true }

-- `unwrap` on what was read or written.
unfoldable pub unwrap {ℓ} : {A : Type ℓ} → Option A → Outcome A
unwrap none = panics
unwrap (some a) = returns a

unfoldable pub and_then {ℓ κ} : {A : Type ℓ} {B : Type κ} → Outcome A → (A → Outcome B) → Outcome B
and_then panics f = panics
and_then (returns a) f = f a

-- The chain found moves `next_avail` on.
unfoldable pub advance : Queue → Option DescriptorChain → Option DescriptorChain × Queue
advance q none = (none, q)
advance q (some c) = (some c, record q { next_avail = u16 (q.next_avail + 1) })

-- The last comparison of `prepare_kick`, on the counters before the call.
unfoldable pub needs_kick : Queue → ℕ → Bool
needs_kick q event =
    let old = sub16 q.next_used q.num_added in
    ltb (sub16 (sub16 q.next_used event) 1) (sub16 q.next_used old)

module _ {M : Type 0} (gm : GuestMemory M) where
  unfoldable pub avail_idx : Queue → M → Outcome ℕ
  avail_idx q m = unwrap (gm.read_u16 m (gm.unchecked_add q.avail_ring 2))

  unfoldable pub len : Queue → M → Outcome ℕ
  len q m = and_then (avail_idx q m) (λ i. returns (sub16 i q.next_avail))

  unfoldable pub is_empty : Queue → M → Outcome Bool
  is_empty q m = and_then (len q m) (λ n. returns (n == 0))

  unfoldable pub out_of_range : M → Option ℕ → Bool
  out_of_range m none = true
  out_of_range m (some v) = not (gm.address_in_range m v)

  -- The guards of `is_valid` that come before the read of the available ring.
  unfoldable pub is_placed : Queue → M → Bool
  is_placed q m =
      let queue_size = actual_size q in
      if not q.ready
      then false
      else if ltb q.max_size q.size || (q.size == 0) || not (bit_and q.size (q.size - 1) == 0)
      then false
      else if out_of_range m (gm.checked_add q.desc_table (16 * queue_size))
      then false
      else if out_of_range m (gm.checked_add q.avail_ring (6 + 2 * queue_size))
      then false
      else if out_of_range m (gm.checked_add q.used_ring (6 + 8 * queue_size))
      then false
      else if not (bit_and q.desc_table 15 == 0)
      then false
      else if not (bit_and q.avail_ring 1 == 0)
      then false
      else if not (bit_and q.used_ring 3 == 0)
      then false
      else true

  unfoldable pub is_valid : Queue → M → Outcome Bool
  is_valid q m =
      if is_placed q m then and_then (len q m) (λ n. returns (leb n q.max_size)) else returns false

  -- Where the available ring has the next head. This and the offsets of the two events are computed
  -- in u16; the size is not 0 where it divides.
  unfoldable pub slot_addr : Queue → ℕ → ℕ
  slot_addr q position =
      gm.unchecked_add q.avail_ring (u16 (4 + u16 (2 * (position % actual_size q))))

  unfoldable pub do_pop_unchecked : Queue → M → Outcome (Option DescriptorChain × Queue)
  do_pop_unchecked q m =
      and_then (unwrap (gm.read_u16 m (slot_addr q q.next_avail))) (λ desc_index.
        returns (advance q (checked_new gm m q.desc_table (actual_size q) desc_index)))

  unfoldable pub pop_of : Queue → M → ℕ → Outcome (Option DescriptorChain × Queue)
  pop_of q m n =
      if ltb (actual_size q) n
      then panics
      else if n == 0
      then returns (none, q)
      else do_pop_unchecked q m

  unfoldable pub pop : Queue → M → Outcome (Option DescriptorChain × Queue)
  pop q m = and_then (len q m) (pop_of q m)

  unfoldable pub set_avail_event : Queue → ℕ → M → Outcome M
  set_avail_event q val m =
      unwrap (gm.write_u16 m (gm.unchecked_add q.used_ring (u16 (4 + u16 (8 * actual_size q)))) val)

  unfoldable pub try_enable_of : Queue → M → ℕ → Outcome (Bool × M)
  try_enable_of q m n =
      if not (n == 0)
      then (if ltb (actual_size q) n then panics else returns (false, m))
      else and_then (set_avail_event q q.next_avail m)
          (λ m'. and_then (avail_idx q m') (λ i. returns (q.next_avail == i, m')))

  -- The memory between `set_avail_event` and the second read of the index is the one just written:
  -- a driver that runs in between is not in the model.
  unfoldable pub try_enable_notification : Queue → M → Outcome (Bool × M)
  try_enable_notification q m =
      if not q.uses_notif_suppression
      then returns (true, m)
      else and_then (len q m) (try_enable_of q m)

  unfoldable pub pop_unless : Queue → Bool × M → Outcome (Option DescriptorChain × (Queue × M))
  pop_unless q (true, m) = returns (none, (q, m))
  pop_unless q (false, m) = and_then (do_pop_unchecked q m) (λ (c, q'). returns (c, (q', m)))

  unfoldable pub pop_or_enable_notification :
      Queue → M → Outcome (Option DescriptorChain × (Queue × M))
  pop_or_enable_notification q m =
      if not q.uses_notif_suppression
      then and_then (pop q m) (λ (c, q'). returns (c, (q', m)))
      else and_then (try_enable_notification q m) (pop_unless q)

  unfoldable pub used_event : Queue → M → Outcome ℕ
  used_event q m =
      unwrap (gm.read_u16 m (gm.unchecked_add q.avail_ring (u16 (4 + u16 (2 * actual_size q)))))

  unfoldable pub prepare_kick : Queue → M → Outcome (Bool × Queue)
  prepare_kick q m =
      if not q.uses_notif_suppression
      then returns (true, q)
      else and_then (used_event q m)
          (λ event. returns (needs_kick q event, record q { num_added = 0 }))
