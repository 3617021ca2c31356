-- ===== src/Queue/Used.antt =====
-- `Queue::add_used` of src/devices/src/virtio/queue.rs, and what the guest then reads.
use firecracker.Base.{
  ℕ, ◌+◌, ◌*◌, ◌%◌, ◌^◌, ◌≤◌, ◌<◌, ◌≡◌, ◌≢◌, inl, inr, ◌∙◌, refl, Option, none, some, leb, u16,
  if◌then◌else◌, Result, ok, err, arith, if-split, leb→le,
}
use native.Mathlib.Nat.{mod-lt}
use firecracker.Queue.Memory.{GuestMemory, IsMemory}
use firecracker.Queue.Rings.{
  Queue, QueueError, desc_index_out_of_bounds, used_ring_error, actual_size,
}

module _ {M : Type 0} (gm : GuestMemory M) where
  -- A failed write leaves the memory and ends the call, with what was changed before it.
  unfoldable pub write_idx : Queue → M → Option M → Result {0, 0} QueueError Unit × (Queue × M)
  write_idx q m none = (err used_ring_error, (q, m))
  write_idx q m (some m') = (ok tt, (q, m'))

  unfoldable pub publish : Queue → M → Option M → Result {0, 0} QueueError Unit × (Queue × M)
  publish q m none = (err used_ring_error, (q, m))
  publish q m (some m') =
      let q' = record q { num_added = u16 (q.num_added + 1); next_used = u16 (q.next_used + 1) } in
      write_idx q' m' (gm.write_u16 m' (gm.unchecked_add q.used_ring 2) q'.next_used)

  unfoldable pub write_len :
      Queue → M → ℕ → ℕ → Option M → Result {0, 0} QueueError Unit × (Queue × M)
  write_len q m used_elem len none = (err used_ring_error, (q, m))
  write_len q m used_elem len (some m') =
      publish q m' (gm.write_u32 m' (gm.unchecked_add used_elem 4) len)

  unfoldable pub used_elem : Queue → ℕ → ℕ
  used_elem q position = gm.unchecked_add q.used_ring (4 + (position % actual_size q) * 8)

  unfoldable pub add_used : Queue → M → ℕ → ℕ → Result {0, 0} QueueError Unit × (Queue × M)
  add_used q m desc_index len =
      if leb (actual_size q) desc_index
      then (err (desc_index_out_of_bounds desc_index), (q, m))
      else (let elem = used_elem q q.next_used in
          write_len q m elem len (gm.write_u32 m elem desc_index))

-- The counters after an element was added.
abbrev pub counted : Queue → Queue
counted q = record q { num_added = u16 (q.num_added + 1); next_used = u16 (q.next_used + 1) }

-- The address of the next element of the used ring.
abbrev pub element : Queue → ℕ
element q = q.used_ring + 4 + q.next_used % actual_size q * 8

-- What the guest reads of the used ring after `add_used` returned `ok`.
pub record IsPublished {M : Type 0} (gm : GuestMemory M) (q : Queue) (m : M) (desc_index len : ℕ)
    (q' : Queue) (m' : M) : Type 0 where
  pub index_bound : desc_index < actual_size q
  pub id_is : gm.read_u32 m' (q.used_ring + 4 + q.next_used % actual_size q * 8) ≡ some desc_index
  pub len_is : gm.read_u32 m' (q.used_ring + 4 + q.next_used % actual_size q * 8 + 4) ≡ some len
  pub idx_is : gm.read_u16 m' (q.used_ring + 2) ≡ some (u16 (q.next_used + 1))
  pub others :
      (i : ℕ)
      → i < actual_size q
      → i ≢ q.next_used % actual_size q
      → (gm.read_u32 m' (q.used_ring + 4 + i * 8) ≡ gm.read_u32 m (q.used_ring + 4 + i * 8))
        × (gm.read_u32 m' (q.used_ring + 4 + i * 8 + 4)
            ≡ gm.read_u32 m (q.used_ring + 4 + i * 8 + 4))
  pub queue : q' ≡ counted q

-- What a call of `add_used` may do, where the memory keeps its promises.
pub data OnAdd {M : Type 0} (gm : GuestMemory M) (q : Queue) (m : M) (desc_index len : ℕ)
    : Result {0, 0} QueueError Unit × (Queue × M) → Type 0 where
  out_of_bounds :
      actual_size q ≤ desc_index
      → OnAdd gm q m desc_index len (err (desc_index_out_of_bounds desc_index), (q, m))
  no_id :
      gm.write_u32 m (element q) desc_index ≡ none
      → OnAdd gm q m desc_index len (err used_ring_error, (q, m))
  no_len :
      {m₁ : M}
      → gm.write_u32 m (element q) desc_index ≡ some m₁
      → gm.write_u32 m₁ (element q + 4) len ≡ none
      → OnAdd gm q m desc_index len (err used_ring_error, (q, m₁))
  no_idx :
      {m₁ m₂ : M}
      → gm.write_u32 m (element q) desc_index ≡ some m₁
      → gm.write_u32 m₁ (element q + 4) len ≡ some m₂
      → gm.write_u16 m₂ (q.used_ring + 2) (u16 (q.next_used + 1)) ≡ none
      → OnAdd gm q m desc_index len (err used_ring_error, (counted q, m₂))
  added :
      {q' : Queue} {m' : M}
      → IsPublished gm q m desc_index len q' m'
      → OnAdd gm q m desc_index len (ok tt, (q', m'))

module _ {M : Type 0} (gm : GuestMemory M) (law : IsMemory gm) (q : Queue) (m : M)
    (desc_index len : ℕ) (in_range : q.used_ring + 6 + 8 * actual_size q < 2 ^ 64)
    (index_bound : desc_index < actual_size q) (small : desc_index < 2 ^ 16)
    (len_bound : len < 2 ^ 32) where
  -- The address of the element at a position.
  abbrev elem_at : ℕ → ℕ
  elem_at i = q.used_ring + 4 + i * 8

  abbrev slot : ℕ
  slot = q.next_used % actual_size q

  slot_bound : slot < actual_size q
  slot_bound = mod-lt q.next_used (omega arith)

  used_elem_lem : used_elem gm q q.next_used ≡ elem_at slot
  unfolding used_elem
  used_elem_lem = law.unchecked_add_lem _ _ (grind (arith, slot_bound)) ∙ omega arith

  -- All three writes done.
  written-IsPublished :
      {m₁ m₂ m₃ : M}
      → gm.write_u32 m (elem_at slot) desc_index ≡ some m₁
      → gm.write_u32 m₁ (elem_at slot + 4) len ≡ some m₂
      → gm.write_u16 m₂ (q.used_ring + 2) (u16 (q.next_used + 1)) ≡ some m₃
      → IsPublished gm q m desc_index len (counted q) m₃
  written-IsPublished w₁ w₂ w₃ = record {
    index_bound = index_bound;
    id_is =
        law.keep_u32-u16 (inr (omega arith)) w₃
        ∙ law.keep_u32-u32 (inl (omega arith)) w₂
        ∙ law.read-write_u32 (omega arith) w₁;
    len_is = law.keep_u32-u16 (inr (omega arith)) w₃ ∙ law.read-write_u32 len_bound w₂;
    idx_is = law.read-write_u16 (omega arith) w₃;
    others = λ i lt ne. (
      law.keep_u32-u16 (inr (omega arith)) w₃
          ∙ law.keep_u32-u32 (grind arith) w₂
          ∙ law.keep_u32-u32 (grind arith) w₁,
      law.keep_u32-u16 (inr (omega arith)) w₃
          ∙ law.keep_u32-u32 (grind arith) w₂
          ∙ law.keep_u32-u32 (grind arith) w₁,
    );
    queue = refl;
  }

  -- The last write, the write of the length and that of the index, each of which may fail.
  abbrev Allowed : Result {0, 0} QueueError Unit × (Queue × M) → Type 0
  Allowed = OnAdd gm q m desc_index len

  write_idx-OnAdd :
      {m₁ m₂ : M}
      → gm.write_u32 m (elem_at slot) desc_index ≡ some m₁
      → gm.write_u32 m₁ (elem_at slot + 4) len ≡ some m₂
      → (o : Option M) → gm.write_u16 m₂ (q.used_ring + 2) (u16 (q.next_used + 1)) ≡ o
      → Allowed (write_idx gm (counted q) m₂ o)
  unfolding write_idx
  write_idx-OnAdd w₁ w₂ none e = no_idx w₁ w₂ e
  write_idx-OnAdd w₁ w₂ (some m₃) w₃ = added (written-IsPublished w₁ w₂ w₃)

  publish-OnAdd :
      {m₁ : M}
      → gm.write_u32 m (elem_at slot) desc_index ≡ some m₁
      → (o : Option M) → gm.write_u32 m₁ (elem_at slot + 4) len ≡ o
      → Allowed (publish gm q m₁ o)
  unfolding publish
  publish-OnAdd w₁ none e = no_len w₁ e
  publish-OnAdd w₁ (some m₂) w₂ =
      rw (law.unchecked_add_lem q.used_ring 2 (omega arith)) (write_idx-OnAdd w₁ w₂ _ refl)

  write_len-OnAdd :
      (o : Option M)
      → gm.write_u32 m (elem_at slot) desc_index ≡ o
      → Allowed (write_len gm q m (elem_at slot) len o)
  unfolding write_len
  write_len-OnAdd none e = no_id e
  write_len-OnAdd (some m₁) w₁ =
      rw (law.unchecked_add_lem (elem_at slot) 4 (grind (arith, slot_bound)))
        (publish-OnAdd w₁ _ refl)

-- With the used ring below 2 ^ 64, `add_used` refuses an index that is out of bounds and changes
-- nothing; or the write of the index, of the length or of the count fails, what was written before it
-- is in memory, and the counters have moved where the count fails; or the guest then reads the index and the length at the next position, the next count beside them, and at every
-- other position what it read before.
pub add_used-OnAdd :
    {M : Type 0} (gm : GuestMemory M) (law : IsMemory gm) (q : Queue) (m : M) (desc_index len : ℕ)
    → q.used_ring + 6 + 8 * actual_size q < 2 ^ 64
    → desc_index < 2 ^ 16
    → len < 2 ^ 32
    → OnAdd gm q m desc_index len (add_used gm q m desc_index len)
unfolding add_used
add_used-OnAdd gm law q m d n in_range small bound =
    if-split (OnAdd gm q m d n) (leb (actual_size q) d) (λ t. out_of_bounds (leb→le _ _ t))
      (λ t.
        let lt : d < actual_size q = ground arith in
        rw (used_elem_lem gm law q m d n in_range lt small bound)
          (write_len-OnAdd gm law q m d n in_range lt small bound _ refl))
