-- ===== src/Mmio/History.antt =====
-- Histories of writes to `MmioTransport`, src/devices/src/virtio/mmio.rs.
use firecracker.Base.{ℕ, ◌≡◌, refl, sym, ◌∙◌, true, false, List}
use mathlib.Core.Path.{subst}
use mathlib.Core.Bool.{true≢false}
use firecracker.Base.Bits.{bit}
use firecracker.Queue.Memory.{GuestMemory}
use firecracker.Queue.Rings.{returns}
use firecracker.Mmio.{VirtioDevice, IsDevice, MmioTransport, new}
use firecracker.Mmio.Registers.{write}
use firecracker.Mmio.Active.{is_active, IsLive, IsWritten, OnWrite, written, write-OnWrite}

module _ {M D : Type 0} (gm : GuestMemory M) (dev : VirtioDevice M D) where
  -- States reached by writes, each with the guest's memory at the time.
  pub data Reach (t : MmioTransport D) : MmioTransport D → Type 0 where
    here : Reach t t
    then_write :
        {u v : MmioTransport D} (m : M) (offset : ℕ) (bytes : List ℕ)
        → Reach t u
        → write gm dev m offset bytes u ≡ returns v
        → Reach t v

  -- The same, where the device is active in every state.
  pub data Stays (t : MmioTransport D) : MmioTransport D → Type 0 where
    active : is_active gm dev t ≡ true → Stays t t
    then_active :
        {u v : MmioTransport D} (m : M) (offset : ℕ) (bytes : List ℕ)
        → Stays t u
        → write gm dev m offset bytes u ≡ returns v
        → is_active gm dev v ≡ true
        → Stays t v

  is_written :
      {m : M} {t u : MmioTransport D} → OnWrite gm dev m t (returns u) → IsWritten gm dev m t u
  is_written (written w) = w

  module _ (law : IsDevice dev) where
    one_write :
        (m : M) (offset : ℕ) (bytes : List ℕ) (t : MmioTransport D) {u : MmioTransport D}
        → IsLive gm dev t
        → write gm dev m offset bytes t ≡ returns u
        → IsWritten gm dev m t u
    one_write m offset bytes t live e =
        is_written (subst (OnWrite gm dev m t) e (write-OnWrite gm dev law m t live offset bytes))

    Reach-IsLive :
        (t : MmioTransport D) {u : MmioTransport D} → IsLive gm dev t → Reach t u → IsLive gm dev u
    Reach-IsLive t l here = l
    Reach-IsLive t l (then_write {u = u} m offset bytes r e) =
        (one_write m offset bytes u (Reach-IsLive t l r) e).live

    Stays-active :
        (t : MmioTransport D) {u : MmioTransport D} → Stays t u → is_active gm dev u ≡ true
    Stays-active t (active a) = a
    Stays-active t (then_active m offset bytes s e a) = a

    Stays-IsFrozen :
        (t : MmioTransport D) {u : MmioTransport D}
        → IsLive gm dev t
        → Stays t u
        → (dev.queues u.device ≡ dev.queues t.device) × IsLive gm dev u
    Stays-IsFrozen t l (active a) = (refl, l)
    Stays-IsFrozen t l (then_active {u = u} m offset bytes s e a) =
        let (same, live) = Stays-IsFrozen t l s in
        let w = one_write m offset bytes u live e in (w.frozen (Stays-active t s) a ∙ same, w.live)

    -- After any writes to a new transport: while the device is active, no writes change its queues,
    -- and DRIVER_OK stays set.
    pub active_frozen :
        (d : D) (irq : ℕ) {t u : MmioTransport D}
        → dev.is_activated d ≡ false
        → Reach (new gm dev d irq) t
        → Stays t u
        → (dev.queues u.device ≡ dev.queues t.device) × (bit u.device_status 2 ≡ 1)
    unfolding new
    active_frozen d irq {t} off r s =
        let fresh : IsLive gm dev (new gm dev d irq) = λ a. absurd (true≢false (sym a ∙ off)) in
        let (same, live) = Stays-IsFrozen t (Reach-IsLive (new gm dev d irq) fresh r) s in
        (same, live (Stays-active t s))
