-- ===== src/Mmio.antt =====
-- `MmioTransport` of src/devices/src/virtio/mmio.rs: the registers through which a driver sets a
-- virtio device up. A register access that panics is an `Outcome`.
pub mod Registers
pub mod Active
pub mod History
pub mod Failed
mod Examples
use firecracker.Base.{
  ℕ, ◌+◌, ◌-◌, ◌*◌, ◌/◌, ◌%◌, ◌^◌, ◌<◌, ◌≡◌, Bool, true, false, not, ◌&&◌, ◌||◌, Option, none, some,
  List, [], ◌∷◌, length, get_elem?, set, map, ltb, leb, ◌==◌, if◌then◌else◌, bit_and, bit_or, u16,
}
use firecracker.Queue.Memory.{GuestMemory}
use firecracker.Queue.Rings
use firecracker.Queue.Rings.{Queue, Outcome, returns, panics, and_then, is_valid}

-- `VirtioDevice`, a trait that each device implements: `none` of `activate` is an error, and of
-- `reset` a device that cannot be reset.
pub record VirtioDevice (M D : Type 0) : Type 0 where
  pub device_type : D → ℕ
  pub queues : D → List Queue
  pub set_queues : D → List Queue → D
  pub is_activated : D → Bool
  pub activate : D → M → Option D
  pub reset : D → Option D
  pub avail_features_by_page : D → ℕ → ℕ
  pub ack_features_by_page : D → ℕ → ℕ → D
  pub read_config : D → ℕ → List ℕ → List ℕ
  pub write_config : D → ℕ → List ℕ → D

-- What the transport relies on: queues are written by the transport alone, and only `activate` makes
-- a device active, until a successful `reset`.
pub record IsDevice {M D : Type 0} (dev : VirtioDevice M D) : Type 0 where
  pub queues-set_queues : (d : D) (qs : List Queue) → dev.queues (dev.set_queues d qs) ≡ qs
  pub is_activated-set_queues :
      (d : D) (qs : List Queue) → dev.is_activated (dev.set_queues d qs) ≡ dev.is_activated d
  pub queues-ack : (d : D) (p v : ℕ) → dev.queues (dev.ack_features_by_page d p v) ≡ dev.queues d
  pub is_activated-ack :
      (d : D) (p v : ℕ) → dev.is_activated (dev.ack_features_by_page d p v) ≡ dev.is_activated d
  pub queues-write_config :
      (d : D) (o : ℕ) (bs : List ℕ) → dev.queues (dev.write_config d o bs) ≡ dev.queues d
  pub is_activated-write_config :
      (d : D) (o : ℕ) (bs : List ℕ)
      → dev.is_activated (dev.write_config d o bs) ≡ dev.is_activated d
  pub reset_inactive : {d d' : D} → dev.reset d ≡ some d' → dev.is_activated d' ≡ false

pub record MmioTransport (D : Type 0) : Type 0 where
  pub device : D
  pub features_select : ℕ
  pub acked_features_select : ℕ
  pub queue_select : ℕ
  pub device_status : ℕ
  pub config_generation : ℕ
  pub interrupt_status : ℕ

-- The module `device_status`.
abbrev pub acknowledge : ℕ
acknowledge = 1

abbrev pub driver : ℕ
driver = 2

abbrev pub driver_ok : ℕ
driver_ok = 4

abbrev pub features_ok : ℕ
features_ok = 8

abbrev pub failed : ℕ
failed = 128

-- `!` on u32.
-- `!(v as usize)`.
abbrev pub not_usize : ℕ → ℕ
not_usize v = 2 ^ 64 - 1 - v

abbrev pub not32 : ℕ → ℕ
not32 x = 2 ^ 32 - 1 - x

-- `read_le_u32` and `write_le_u32`.
abbrev pub le_u32 : List ℕ → ℕ
le_u32 [] = 0
le_u32 (b ∷ bs) = b + 256 * le_u32 bs

abbrev pub le_bytes : ℕ → List ℕ
le_bytes v = v % 256 ∷ v / 2 ^ 8 % 256 ∷ v / 2 ^ 16 % 256 ∷ v / 2 ^ 24 % 256 ∷ []

unfoldable pub all_valid : {M : Type 0} → GuestMemory M → M → List Queue → Outcome Bool
all_valid gm m [] = returns true
all_valid gm m (q ∷ qs) =
    let rest = all_valid gm m qs in
    and_then (is_valid gm q m) (λ b. if b then rest else returns false)

-- `hi` and `lo` of `write`.
unfoldable pub set_hi : ℕ → ℕ → ℕ
set_hi v x = bit_or (bit_and v 0xffff_ffff) (x * 2 ^ 32)

unfoldable pub set_lo : ℕ → ℕ → ℕ
set_lo v x = bit_or (bit_and v 0xffff_ffff_0000_0000) x

unfoldable pub update_at : List Queue → ℕ → Option Queue → (Queue → Queue) → List Queue
update_at qs i none f = qs
update_at qs i (some q) f = set qs i (f q)

unfoldable pub with_queue : {A : Type 0} → A → (Queue → A) → Option Queue → A
with_queue d f none = d
with_queue d f (some q) = f q

module _ {M D : Type 0} (gm : GuestMemory M) (dev : VirtioDevice M D) where
  unfoldable pub new : D → ℕ → MmioTransport D
  new d interrupt_status = record {
    device = d;
    features_select = 0;
    acked_features_select = 0;
    queue_select = 0;
    device_status = 0;
    config_generation = 0;
    interrupt_status = interrupt_status;
  }

  unfoldable pub check_device_status : ℕ → ℕ → MmioTransport D → Bool
  check_device_status on off t = bit_and t.device_status (bit_or on off) == on

  unfoldable pub are_queues_valid : M → MmioTransport D → Outcome Bool
  are_queues_valid m t = all_valid gm m (dev.queues t.device)

  unfoldable pub with_queue_mut : (Queue → Queue) → MmioTransport D → MmioTransport D
  with_queue_mut f t =
      let qs = dev.queues t.device in
      record t {
        device =
            dev.set_queues t.device (update_at qs t.queue_select (get_elem? qs t.queue_select) f);
      }

  unfoldable pub update_queue_field : (Queue → Queue) → MmioTransport D → MmioTransport D
  update_queue_field f t =
      if check_device_status features_ok (bit_or driver_ok failed) t then with_queue_mut f t else t

  unfoldable pub reset : MmioTransport D → MmioTransport D
  reset t = record t {
    device = dev.set_queues t.device (map (λ q. Rings.new q.max_size) (dev.queues t.device));
    features_select = 0;
    acked_features_select = 0;
    queue_select = 0;
    interrupt_status = 0;
    device_status = 0;
  }

  -- The outcome of `activate`, where an error panics.
  unfoldable pub activated : MmioTransport D → Option D → Outcome (MmioTransport D)
  activated t none = panics
  activated t (some d) = returns (record t { device = d })

  unfoldable pub set_driver_ok : M → ℕ → MmioTransport D → Outcome (MmioTransport D)
  set_driver_ok m status t =
      let t' : MmioTransport D = record t { device_status = status } in
      if dev.is_activated t.device
      then returns t'
      else and_then (are_queues_valid m t)
          (λ valid. if valid then activated t' (dev.activate t.device m) else returns t')

  -- What the device's own reset leaves.
  unfoldable pub reset_device : MmioTransport D → Option D → MmioTransport D
  reset_device t none = record t { device_status = bit_or t.device_status failed }
  reset_device t (some d) = record t { device = d }

  unfoldable pub set_init : MmioTransport D → MmioTransport D
  set_init t =
      let t' : MmioTransport D =
        if dev.is_activated t.device then reset_device t (dev.reset t.device) else t in
      if bit_and t'.device_status failed == 0 then reset t' else t'

  unfoldable pub set_device_status : M → ℕ → MmioTransport D → Outcome (MmioTransport D)
  set_device_status m status t =
      let changed = bit_and (not32 t.device_status) status in
      let moved : MmioTransport D = record t { device_status = status } in
      if changed == acknowledge && t.device_status == 0
      then returns moved
      else if changed == driver && t.device_status == 1
      then returns moved
      else if changed == features_ok && t.device_status == 3
      then returns moved
      else if changed == driver_ok && t.device_status == 11
      then set_driver_ok m status t
      else if not (bit_and status failed == 0)
      then returns (record t { device_status = bit_or t.device_status failed })
      else if status == 0
      then returns (set_init t)
      else returns t
