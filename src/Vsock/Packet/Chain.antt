-- ===== src/Vsock/Packet/Chain.antt =====
-- `VsockPacket`, src/devices/src/virtio/vsock/packet.rs: a packet read off a descriptor chain.
use firecracker.Base.{
  ℕ, Bool, true, false, not, Option, none, some, ltb, ◌==◌, if◌then◌else◌, Result, ok, err,
}
use firecracker.Queue.Memory.{GuestMemory}
use firecracker.Queue.Descriptor.{DescriptorChain, is_write_only, next_descriptor}
use firecracker.Vsock.Packet.{
  GuestMemoryError, VsockError, guest_memory_mmap, guest_memory_bounds, buf_desc_too_small,
  buf_desc_missing, hdr_desc_too_small, invalid_pkt_len, unreadable_descriptor,
  unwritable_descriptor, VsockPacketHeader, VsockPacket,
}
pub mod Checked

-- What packets do with guest memory beside the descriptors, of the crate vm-memory.
pub record PacketMemory (M : Type 0) : Type 0 where
  pub guest : GuestMemory M
  pub check_range : M → ℕ → ℕ → Bool
  pub read_header : M → ℕ → Result GuestMemoryError VsockPacketHeader
  pub write_header : M → ℕ → VsockPacketHeader → Result GuestMemoryError M

abbrev pub vsock_pkt_hdr_size : ℕ
vsock_pkt_hdr_size = 44

abbrev pub max_pkt_buf_size : ℕ
max_pkt_buf_size = 65_536

-- `VsockPacketHeader::default()`.
abbrev pub default_header : VsockPacketHeader
default_header = record {
  src_cid = 0;
  dst_cid = 0;
  src_port = 0;
  dst_port = 0;
  len = 0;
  type_of = 0;
  op = 0;
  flags = 0;
  buf_alloc = 0;
  fwd_cnt = 0;
}

abbrev pub bare_packet : ℕ → VsockPacketHeader → VsockPacket
bare_packet hdr_addr hdr = record { hdr_addr = hdr_addr; hdr = hdr; buf_addr = none; buf_size = 0 }

-- The error of a descriptor whose direction is not the expected one.
unfoldable pub check_desc_write_only : DescriptorChain → Bool → Option VsockError
check_desc_write_only desc true = if is_write_only desc then none else some unwritable_descriptor
check_desc_write_only desc false = if is_write_only desc then some unreadable_descriptor else none

-- The operator `?` on a check.
unfoldable pub unless : {A : Type 0} → Option VsockError → Result VsockError A → Result VsockError A
unless none r = r
unless (some e) r = err e

unfoldable pub first_error : Option VsockError → Option VsockError → Option VsockError
first_error none o = o
first_error (some e) o = some e

unfoldable pub check_len : VsockPacket → Option VsockError
check_len pkt =
    if ltb max_pkt_buf_size pkt.hdr.len then some (invalid_pkt_len pkt.hdr.len) else none

-- The header is written, or an error of the memory.
unfoldable pub committed : {M : Type 0} → Result GuestMemoryError M → Result VsockError M
committed (ok m) = ok m
committed (err e) = err (guest_memory_mmap e)

-- The last check of a packet from the guest.
unfoldable pub check_buf : Result VsockError VsockPacket → Result VsockError VsockPacket
check_buf (err e) = err e
check_buf (ok pkt) = if ltb pkt.buf_size pkt.hdr.len then err buf_desc_too_small else ok pkt

module _ {M : Type 0} (pm : PacketMemory M) where
  unfoldable pub commit_hdr : VsockPacket → M → Result VsockError M
  commit_hdr pkt m = unless (check_len pkt) (committed (pm.write_header m pkt.hdr_addr pkt.hdr))

  unfoldable pub check_hdr_desc : M → DescriptorChain → Bool → Option VsockError
  check_hdr_desc m hdr_desc expected = first_error (check_desc_write_only hdr_desc expected) (
      if not (pm.check_range m hdr_desc.addr vsock_pkt_hdr_size)
      then some guest_memory_bounds
      else if ltb hdr_desc.len vsock_pkt_hdr_size
      then some (hdr_desc_too_small hdr_desc.len)
      else none)

  unfoldable pub init_buf_at :
      M → VsockPacket → Bool → Option DescriptorChain → Result VsockError VsockPacket
  init_buf_at m pkt expected none = err buf_desc_missing
  init_buf_at m pkt expected (some buf_desc) = unless (check_desc_write_only buf_desc expected) (
      if not (pm.check_range m buf_desc.addr buf_desc.len)
      then err guest_memory_bounds
      else ok (record pkt { buf_addr = some buf_desc.addr; buf_size = buf_desc.len }))

  unfoldable pub init_buf : M → VsockPacket → DescriptorChain → Bool → Result VsockError VsockPacket
  init_buf m pkt hdr_desc expected =
      init_buf_at m pkt expected (next_descriptor pm.guest m hdr_desc)

  -- The packet whose header has been read.
  unfoldable pub tx_packet :
      M
      → DescriptorChain
      → Result GuestMemoryError VsockPacketHeader
      → Result VsockError VsockPacket
  tx_packet m hdr_desc (err e) = err (guest_memory_mmap e)
  tx_packet m hdr_desc (ok hdr) =
      let pkt = bare_packet hdr_desc.addr hdr in
      if hdr.len == 0
      then ok pkt
      else unless (check_len pkt) (check_buf (init_buf m pkt hdr_desc false))

  unfoldable pub from_tx_virtq_head : M → DescriptorChain → Result VsockError VsockPacket
  from_tx_virtq_head m hdr_desc = unless (check_hdr_desc m hdr_desc false) (
      if not (pm.check_range m hdr_desc.addr vsock_pkt_hdr_size)
      then err guest_memory_bounds
      else tx_packet m hdr_desc (pm.read_header m hdr_desc.addr))

  unfoldable pub from_rx_virtq_head : M → DescriptorChain → Result VsockError VsockPacket
  from_rx_virtq_head m hdr_desc =
      unless (check_hdr_desc m hdr_desc true)
        (init_buf m (bare_packet hdr_desc.addr default_header) hdr_desc true)
