-- ===== src/Mmio/Registers.antt =====
-- Reads and writes of the registers of `MmioTransport`, src/devices/src/virtio/mmio.rs.
use firecracker.Base.{
  ℕ, ◌-◌, ◌&&◌, Option, none, some, List, length, get_elem?, leb, ◌==◌, if◌then◌else◌, bit_and,
  bit_or, u16,
}
use firecracker.Queue.Memory.{GuestMemory}
use firecracker.Queue.Rings.{Queue, Outcome, returns}
use firecracker.Mmio.{
  VirtioDevice, MmioTransport, driver, driver_ok, features_ok, failed, not_usize, le_u32, le_bytes,
  set_hi, set_lo, with_queue, check_device_status, update_queue_field, set_device_status,
}

-- The offsets of registers, each checked in turn as the arms of the match.
module _ {M D : Type 0} (gm : GuestMemory M) (dev : VirtioDevice M D) where
  unfoldable pub ack_features : ℕ → MmioTransport D → MmioTransport D
  ack_features v t =
      if check_device_status gm dev driver (bit_or features_ok failed) t
      then record t { device = dev.ack_features_by_page t.device t.acked_features_select v }
      else t

  unfoldable pub ack_interrupt : ℕ → MmioTransport D → MmioTransport D
  ack_interrupt v t =
      if check_device_status gm dev driver_ok 0 t
      then record t { interrupt_status = bit_and t.interrupt_status (not_usize v) }
      else t

  abbrev pub update : (Queue → Queue) → MmioTransport D → MmioTransport D
  update = update_queue_field gm dev

  unfoldable pub write_queue_register : ℕ → ℕ → MmioTransport D → MmioTransport D
  write_queue_register offset v t =
      if offset == 0x38
      then update (λ q. record q { size = u16 v }) t
      else if offset == 0x44
      then update (λ q. record q { ready = v == 1 }) t
      else if offset == 0x80
      then update (λ q. record q { desc_table = set_lo q.desc_table v }) t
      else if offset == 0x84
      then update (λ q. record q { desc_table = set_hi q.desc_table v }) t
      else if offset == 0x90
      then update (λ q. record q { avail_ring = set_lo q.avail_ring v }) t
      else if offset == 0x94
      then update (λ q. record q { avail_ring = set_hi q.avail_ring v }) t
      else if offset == 0xa0
      then update (λ q. record q { used_ring = set_lo q.used_ring v }) t
      else if offset == 0xa4
      then update (λ q. record q { used_ring = set_hi q.used_ring v }) t
      else t

  unfoldable pub write_register : M → ℕ → ℕ → MmioTransport D → Outcome (MmioTransport D)
  write_register m offset v t =
      if offset == 0x14
      then returns (record t { features_select = v })
      else if offset == 0x20
      then returns (ack_features v t)
      else if offset == 0x24
      then returns (record t { acked_features_select = v })
      else if offset == 0x30
      then returns (record t { queue_select = v })
      else if offset == 0x64
      then returns (ack_interrupt v t)
      else if offset == 0x70
      then set_device_status gm dev m v t
      else returns (write_queue_register offset v t)

  unfoldable pub write_device_config : ℕ → List ℕ → MmioTransport D → MmioTransport D
  write_device_config offset bytes t =
      if check_device_status gm dev driver failed t
      then record t { device = dev.write_config t.device (offset - 0x100) bytes }
      else t

  unfoldable pub write : M → ℕ → List ℕ → MmioTransport D → Outcome (MmioTransport D)
  write m offset bytes t =
      if leb offset 0xff && length bytes == 4
      then write_register m offset (le_u32 bytes) t
      else if leb 0x100 offset && leb offset 0xfff
      then returns (write_device_config offset bytes t)
      else returns t

  unfoldable pub features : MmioTransport D → ℕ
  features t =
      let available = dev.avail_features_by_page t.device t.features_select in
      if t.features_select == 1 then bit_or available 1 else available

  abbrev pub selected : MmioTransport D → Option Queue
  selected t = get_elem? (dev.queues t.device) t.queue_select

  unfoldable pub read_register : ℕ → MmioTransport D → Option ℕ
  read_register offset t =
      if offset == 0
      then some 0x7472_6976
      else if offset == 0x04
      then some 2
      else if offset == 0x08
      then some (dev.device_type t.device)
      else if offset == 0x0c
      then some 0
      else if offset == 0x10
      then some (features t)
      else if offset == 0x34
      then some (with_queue 0 (λ q. q.max_size) (selected t))
      else if offset == 0x44
      then some (with_queue 0 (λ q. if q.ready then 1 else 0) (selected t))
      else if offset == 0x60
      then some t.interrupt_status
      else if offset == 0x70
      then some t.device_status
      else if offset == 0xfc
      then some t.config_generation
      else none

  unfoldable pub register_bytes : List ℕ → Option ℕ → List ℕ
  register_bytes bytes none = bytes
  register_bytes bytes (some v) = le_bytes v

  -- The bytes that the guest then has in place of `bytes`.
  unfoldable pub read : ℕ → List ℕ → MmioTransport D → List ℕ
  read offset bytes t =
      if leb offset 0xff && length bytes == 4
      then register_bytes bytes (read_register offset t)
      else if leb 0x100 offset && leb offset 0xfff
      then dev.read_config t.device (offset - 0x100) bytes
      else bytes
