-- ===== src/Vsock/Packet.antt =====
-- `VsockPacket`, src/devices/src/virtio/vsock/packet.rs: a header and a buffer in guest memory.
use firecracker.Base.{
  ℕ, ◌+◌, ◌-◌, bit_or, Option, none, some, List, [], ltb, ◌==◌, if◌then◌else◌, Result, ok, err,
}
use firecracker.Vsock.TxBuf.{IoErrorKind, Sink}
pub mod Buffer
pub mod Unmapped
pub mod Chain

-- `GuestMemoryError`, which is of the crate vm-memory; the code tells errors of the stream apart.
pub data GuestMemoryError : Type 0 where
  io_error : IoErrorKind → GuestMemoryError
  invalid_access : GuestMemoryError

-- The errors that packets and connections give.
pub data VsockError : Type 0 where
  buf_desc_too_small : VsockError
  buf_desc_missing : VsockError
  guest_memory_mmap : GuestMemoryError → VsockError
  guest_memory_bounds : VsockError
  hdr_desc_too_small : ℕ → VsockError
  invalid_pkt_len : ℕ → VsockError
  no_data : VsockError
  pkt_buf_missing : VsockError
  unreadable_descriptor : VsockError
  unwritable_descriptor : VsockError

pub record VsockPacketHeader : Type 0 where
  pub src_cid : ℕ
  pub dst_cid : ℕ
  pub src_port : ℕ
  pub dst_port : ℕ
  pub len : ℕ
  pub type_of : ℕ
  pub op : ℕ
  pub flags : ℕ
  pub buf_alloc : ℕ
  pub fwd_cnt : ℕ

pub record VsockPacket : Type 0 where
  pub hdr_addr : ℕ
  pub hdr : VsockPacketHeader
  pub buf_addr : Option ℕ
  pub buf_size : ℕ

unfoldable pub set_op : ℕ → VsockPacket → VsockPacket
set_op op pkt = record pkt { hdr = record pkt.hdr { op = op } }

unfoldable pub set_len : ℕ → VsockPacket → VsockPacket
set_len len pkt = record pkt { hdr = record pkt.hdr { len = len } }

unfoldable pub set_flag : ℕ → VsockPacket → VsockPacket
set_flag flag pkt = record pkt { hdr = record pkt.hdr { flags = bit_or pkt.hdr.flags flag } }

-- `Read::read` of the stream, given the size of the slice.
pub record Source (S : Type 0) : Type 0 where
  pub read : S → ℕ → Result IoErrorKind (List ℕ) × S

-- The guest memory `M` and its regions `R`, of the crate vm-memory.
pub record GuestRegions (M R : Type 0) : Type 1 where
  pub checked_add : ℕ → ℕ → Option ℕ
  pub to_region_addr : M → ℕ → Option (R × ℕ)
  pub checked_offset : R → ℕ → ℕ → Option ℕ
  pub write_to : {W : Type 0} → Sink W → M → R → ℕ → ℕ → W → Result GuestMemoryError ℕ × W
  pub read_from : {S : Type 0} → Source S → M → R → ℕ → ℕ → S → Result GuestMemoryError ℕ × (M × S)

-- `map_err` to `GuestMemoryMmap`.
unfoldable pub map_err : {T : Type 0} → Result GuestMemoryError ℕ × T → Result VsockError ℕ × T
map_err (ok n, t) = (ok n, t)
map_err (err e, t) = (err (guest_memory_mmap e), t)

unfoldable pub ok_or_bounds : {A : Type 0} → Option A → Result VsockError A
ok_or_bounds none = err guest_memory_bounds
ok_or_bounds (some a) = ok a

unfoldable pub keep_if_some : {A : Type 0} → A → Option ℕ → Option A
keep_if_some a none = none
keep_if_some a (some n) = some a

module _ {M R : Type 0} (gr : GuestRegions M R) where
  -- The last byte of the slice is in the region, where `count.checked_sub(1)` fails at 0.
  unfoldable pub in_region : ℕ → Option (R × ℕ) → Option (R × ℕ)
  in_region count none = none
  in_region count (some (r, a)) =
      if count == 0 then none else keep_if_some (r, a) (gr.checked_offset r a (count - 1))

  unfoldable pub offset_region : M → ℕ → Option ℕ → Option (R × ℕ)
  offset_region m count none = none
  offset_region m count (some a) = in_region count (gr.to_region_addr m a)

  unfoldable pub buf_at : M → ℕ → ℕ → Option ℕ → Result VsockError (R × ℕ)
  buf_at m offset count none = err pkt_buf_missing
  buf_at m offset count (some a) = ok_or_bounds (offset_region m count (gr.checked_add a offset))

  unfoldable pub buf_region_addr : VsockPacket → M → ℕ → ℕ → Result VsockError (R × ℕ)
  buf_region_addr pkt m offset count =
      if ltb pkt.buf_size offset
      then err guest_memory_bounds
      else (if ltb (pkt.buf_size - offset) count
          then err guest_memory_bounds
          else buf_at m offset count pkt.buf_addr)

  unfoldable pub write_region :
      {W : Type 0} → Sink W → M → ℕ → W → Result VsockError (R × ℕ) → Result VsockError ℕ × W
  write_region sink m count w (err e) = (err e, w)
  write_region sink m count w (ok (r, a)) = map_err (gr.write_to sink m r a count w)

  unfoldable pub write_from_offset_to :
      {W : Type 0} → VsockPacket → M → ℕ → Sink W → ℕ → W → Result VsockError ℕ × W
  write_from_offset_to pkt m offset dst count w =
      write_region dst m count w (buf_region_addr pkt m offset count)

  unfoldable pub read_region :
      {S : Type 0}
      → Source S
      → M
      → ℕ
      → S
      → Result VsockError (R × ℕ)
      → Result VsockError ℕ × (M × S)
  read_region src m count s (err e) = (err e, (m, s))
  read_region src m count s (ok (r, a)) = map_err (gr.read_from src m r a count s)

  unfoldable pub read_at_offset_from :
      {S : Type 0} → VsockPacket → M → ℕ → Source S → ℕ → S → Result VsockError ℕ × (M × S)
  read_at_offset_from pkt m offset src count s =
      read_region src m count s (buf_region_addr pkt m offset count)
