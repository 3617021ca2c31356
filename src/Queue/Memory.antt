-- ===== src/Queue/Memory.antt =====
-- The guest memory that src/devices/src/virtio/queue.rs reads and writes. `GuestMemoryMmap` is of the
-- crate vm-memory and not of the repository: its operations and what they promise are parameters.
use firecracker.Base.{ℕ, ◌+◌, ◌^◌, ◌≤◌, ◌<◌, ◌≡◌, ◌⊎◌, Bool, Option, some}

-- `Descriptor`, with the fields in the order of the source.
pub record Descriptor : Type 0 where
  pub addr : ℕ
  pub len : ℕ
  pub flags : ℕ
  pub next : ℕ

-- A memory `M` with `read_obj` and `write_obj` at the types the queue uses, where `none` is an error,
-- and the arithmetic of guest addresses.
pub record GuestMemory (M : Type 0) : Type 0 where
  pub read_u16 : M → ℕ → Option ℕ
  pub read_u32 : M → ℕ → Option ℕ
  pub read_descriptor : M → ℕ → Option Descriptor
  pub write_u16 : M → ℕ → ℕ → Option M
  pub write_u32 : M → ℕ → ℕ → Option M
  pub checked_offset : M → ℕ → ℕ → Option ℕ
  pub address_in_range : M → ℕ → Bool
  pub checked_add : ℕ → ℕ → Option ℕ
  pub unchecked_add : ℕ → ℕ → ℕ

-- Ranges of `m` bytes at `a` and of `n` bytes at `b` share none.
abbrev pub Apart : ℕ → ℕ → ℕ → ℕ → Type 0
Apart a m b n = (a + m ≤ b) ⊎ (b + n ≤ a)

-- A write is read back, and changes no value elsewhere; what is read has the width asked for; addresses add up below 2 ^ 64.
pub record IsMemory {M : Type 0} (gm : GuestMemory M) : Type 0 where
  pub read-write_u16 :
      {m m' : M} {a v : ℕ} → v < 2 ^ 16 → gm.write_u16 m a v ≡ some m' → gm.read_u16 m' a ≡ some v
  pub read-write_u32 :
      {m m' : M} {a v : ℕ} → v < 2 ^ 32 → gm.write_u32 m a v ≡ some m' → gm.read_u32 m' a ≡ some v
  pub read_u16_bound : {m : M} {a v : ℕ} → gm.read_u16 m a ≡ some v → v < 2 ^ 16
  pub keep_u32-u16 :
      {m m' : M} {a b v : ℕ}
      → Apart b 4 a 2
      → gm.write_u16 m a v ≡ some m'
      → gm.read_u32 m' b ≡ gm.read_u32 m b
  pub keep_u32-u32 :
      {m m' : M} {a b v : ℕ}
      → Apart b 4 a 4
      → gm.write_u32 m a v ≡ some m'
      → gm.read_u32 m' b ≡ gm.read_u32 m b
  pub unchecked_add_lem : (a b : ℕ) → a + b < 2 ^ 64 → gm.unchecked_add a b ≡ a + b
