-- ===== src/Queue/Descriptor.antt =====
-- `DescriptorChain` of src/devices/src/virtio/queue.rs, and the outcome of code that may panic.
use firecracker.Base.{
  ℕ, ◌-◌, ◌*◌, Bool, not, ◌&&◌, ◌||◌, Option, none, some, ltb, leb, ◌==◌, bit_and, if◌then◌else◌,
}
use firecracker.Queue.Memory.{GuestMemory, Descriptor}

abbrev pub virtq_desc_f_next : ℕ
virtq_desc_f_next = 1

abbrev pub virtq_desc_f_write : ℕ
virtq_desc_f_write = 2

-- A `DescriptorChain` less its reference to the memory, which is passed beside it.
pub record DescriptorChain : Type 0 where
  pub desc_table : ℕ
  pub queue_size : ℕ
  pub ttl : ℕ
  pub index : ℕ
  pub addr : ℕ
  pub len : ℕ
  pub flags : ℕ
  pub next : ℕ

-- The flags are 16 bits wide.
unfoldable pub has_next : DescriptorChain → Bool
has_next c = not (bit_and c.flags virtq_desc_f_next == 0) && ltb 1 c.ttl

unfoldable pub is_write_only : DescriptorChain → Bool
is_write_only c = not (bit_and c.flags virtq_desc_f_write == 0)

unfoldable pub is_valid_chain : DescriptorChain → Bool
is_valid_chain c = not (has_next c) || ltb c.next c.queue_size

module _ {M : Type 0} (gm : GuestMemory M) where
  -- The descriptor read at an index, and the tests on it.
  unfoldable pub chain_of : ℕ → ℕ → ℕ → Option Descriptor → Option DescriptorChain
  chain_of desc_table queue_size index none = none
  chain_of desc_table queue_size index (some desc) =
      let chain : DescriptorChain = record {
        desc_table = desc_table;
        queue_size = queue_size;
        ttl = queue_size;
        index = index;
        addr = desc.addr;
        len = desc.len;
        flags = desc.flags;
        next = desc.next;
      } in
      if is_valid_chain chain then some chain else none

  unfoldable pub read_head : M → ℕ → ℕ → ℕ → Option ℕ → Option DescriptorChain
  read_head m desc_table queue_size index none = none
  read_head m desc_table queue_size index (some desc_head) =
      elim (gm.checked_offset m desc_head 16) [
        | none ↦ none
        | some _ ↦ chain_of desc_table queue_size index (gm.read_descriptor m desc_head)
      ]

  unfoldable pub checked_new : M → ℕ → ℕ → ℕ → Option DescriptorChain
  checked_new m desc_table queue_size index =
      if leb queue_size index
      then none
      else read_head m desc_table queue_size index (gm.checked_offset m desc_table (index * 16))

  unfoldable pub count_down : ℕ → Option DescriptorChain → Option DescriptorChain
  count_down ttl none = none
  count_down ttl (some c) = some (record c { ttl = ttl - 1 })

  unfoldable pub next_descriptor : M → DescriptorChain → Option DescriptorChain
  next_descriptor m c =
      if has_next c then count_down c.ttl (checked_new m c.desc_table c.queue_size c.next) else none
