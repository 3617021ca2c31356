-- ===== src/Mmio/Active.antt =====
-- What holds of an active device behind `MmioTransport`, src/devices/src/virtio/mmio.rs.
use firecracker.Base.{
  ℕ, ◌≡◌, inl, inr, refl, sym, ◌∙◌, Bool, true, false, not, ◌&&◌, Option, none, some, List, leb,
  ◌==◌, if◌then◌else◌, length, bit_and, bit_or, arith, if-keeps, if-split, Bool-cases,
}
use mathlib.Core.Bool.{true≢false}
use firecracker.Base.Bits.{bit, bit-and, bit-or}
use firecracker.Queue.Memory.{GuestMemory}
use firecracker.Queue.Rings.{Queue, Outcome, returns, panics, and_then}
use firecracker.Mmio.{
  VirtioDevice, IsDevice, MmioTransport, acknowledge, driver, driver_ok, features_ok, failed, not32,
  le_u32, check_device_status, are_queues_valid, with_queue_mut, update_queue_field, reset,
  activated, set_driver_ok, reset_device, set_init, set_device_status,
}
use firecracker.Mmio.Registers.{
  ack_features, ack_interrupt, write_queue_register, write_register, write_device_config, write,
}

-- The mask under which queues may be changed has no driver's bit.
masked_off : (s : ℕ) → (bit_and s 140 == 8) ≡ true → bit s 2 ≡ 0
masked_off s c = ground (arith, bit-and 2 s 140)

-- A failed status is not without the bit.
failed_on : (s : ℕ) → (bit_and (bit_or s 128) 128 == 0) ≡ true → ⊥
failed_on s c = ground (arith, bit-and 7 (bit_or s 128) 128, bit-or 7 s 128)

changed_on : (s status : ℕ) → (bit_and (not32 s) status == 4) ≡ true → bit status 2 ≡ 1
changed_on s status c = ground (arith, bit-and 2 (not32 s) status)

module _ {M D : Type 0} (gm : GuestMemory M) (dev : VirtioDevice M D) where
  abbrev pub is_active : MmioTransport D → Bool
  is_active t = dev.is_activated t.device

  -- An active device has a driver that said so.
  abbrev pub IsLive : MmioTransport D → Type 0
  IsLive t = is_active t ≡ true → bit t.device_status 2 ≡ 1

  -- A write from `t` to `t'`.
  pub record IsWritten (m : M) (t t' : MmioTransport D) : Type 0 where
    pub live : IsLive t'
    pub frozen :
        is_active t ≡ true → is_active t' ≡ true → dev.queues t'.device ≡ dev.queues t.device
    pub checked :
        is_active t ≡ false → is_active t' ≡ true → are_queues_valid gm dev m t ≡ returns true

  pub data OnWrite (m : M) (t : MmioTransport D) : Outcome (MmioTransport D) → Type 0 where
    panicked : OnWrite m t panics
    written : {t' : MmioTransport D} → IsWritten m t t' → OnWrite m t (returns t')

  module _ (law : IsDevice dev) (m : M) (t : MmioTransport D) (live : IsLive t) where
    -- A write that leaves the device's activity and the driver's bit.
    quiet :
        (t' : MmioTransport D)
        → is_active t' ≡ is_active t
        → bit t'.device_status 2 ≡ bit t.device_status 2
        → (is_active t ≡ true → dev.queues t'.device ≡ dev.queues t.device)
        → IsWritten m t t'
    quiet t' a b q = record {
      live = λ e. b ∙ live (sym a ∙ e);
      frozen = λ e _. q e;
      checked = λ e f. absurd (true≢false (sym f ∙ a ∙ e));
    }

    -- A write after which the device is not active.
    inactive : (t' : MmioTransport D) → is_active t' ≡ false → IsWritten m t t'
    inactive t' a = record {
      live = λ e. absurd (true≢false (sym e ∙ a));
      frozen = λ _ e. absurd (true≢false (sym e ∙ a));
      checked = λ _ e. absurd (true≢false (sym e ∙ a));
    }

    -- Where the driver's bit is off the device is not active.
    not_active : bit t.device_status 2 ≡ 0 → is_active t ≡ false
    not_active z = elim (Bool-cases (is_active t)) [
      | inl e ↦ absurd (omega (arith, live e))
      | inr e ↦ e
    ]

    update_queue_field-IsWritten :
        (f : Queue → Queue) → IsWritten m t (update_queue_field gm dev f t)
    unfolding update_queue_field check_device_status with_queue_mut
    update_queue_field-IsWritten f =
        if-split (IsWritten m t)
          (bit_and t.device_status (bit_or features_ok (bit_or driver_ok failed)) == features_ok)
          (λ c.
            let off : bit t.device_status 2 ≡ 0 = masked_off t.device_status c in
            inactive _ (law.is_activated-set_queues t.device _ ∙ not_active off))
          (λ _. quiet t refl refl (λ _. refl))

    reset-is_active : (u : MmioTransport D) → is_active (reset gm dev u) ≡ is_active u
    unfolding reset
    reset-is_active u = law.is_activated-set_queues u.device _

    -- The end of `set_init`, on a device that is not active or has failed to reset.
    settled-IsWritten :
        (u : MmioTransport D)
        → is_active u ≡ false
        → IsWritten m t (if bit_and u.device_status failed == 0 then reset gm dev u else u)
    settled-IsWritten u e =
        if-split (IsWritten m t) (bit_and u.device_status failed == 0)
          (λ _. inactive (reset gm dev u) (reset-is_active u ∙ e)) (λ _. inactive u e)

    unreset-IsWritten :
        let u : MmioTransport D = record t { device_status = bit_or t.device_status failed } in
        IsWritten m t (if bit_and u.device_status failed == 0 then reset gm dev u else u)
    unreset-IsWritten =
        if-split (IsWritten m t) (bit_and (bit_or t.device_status failed) failed == 0)
          (λ c. absurd (failed_on t.device_status c))
          (λ _. quiet _ refl (omega (arith, bit-or 2 t.device_status 128)) (λ _. refl))

    set_init-IsWritten : IsWritten m t (set_init gm dev t)
    unfolding set_init reset_device
    set_init-IsWritten = elim (Bool-cases (is_active t)) [
      | inl e ↦ rw e (go (dev.reset t.device) refl)
      | inr e ↦ rw e (settled-IsWritten t e)
    ]
      where
        go :
            (o : Option D)
            → dev.reset t.device ≡ o
            → let u = reset_device gm dev t o in
              IsWritten m t (if bit_and u.device_status failed == 0 then reset gm dev u else u)
        go none e = unreset-IsWritten
        go (some d) e = settled-IsWritten (record t { device = d }) (law.reset_inactive e)

    set_driver_ok-OnWrite :
        (status : ℕ)
        → is_active t ≡ false
        → bit status 2 ≡ 1
        → OnWrite m t (set_driver_ok gm dev m status t)
    unfolding set_driver_ok activated and_then
    set_driver_ok-OnWrite status e on = rw e (go (are_queues_valid gm dev m t) refl)
      where
        done :
            (o : Option D)
            → are_queues_valid gm dev m t ≡ returns true
            → OnWrite m t (activated gm dev (record t { device_status = status }) o)
        done none v = panicked
        done (some d) v = written (record {
          live = λ _. on;
          frozen = λ f _. absurd (true≢false (sym f ∙ e));
          checked = λ _ _. v;
        })

        go :
            (o : Outcome Bool)
            → are_queues_valid gm dev m t ≡ o
            → OnWrite m t (
                and_then o (λ valid.
                  if valid
                  then activated gm dev
                      (record t { device_status = status })
                      (dev.activate t.device m)
                  else returns (record t { device_status = status })))
        go panics v = panicked
        go (returns true) v = done (dev.activate t.device m) v
        go (returns false) v = written (inactive _ e)

    set_device_status-OnWrite : (status : ℕ) → OnWrite m t (set_device_status gm dev m status t)
    unfolding set_device_status
    set_device_status-OnWrite status =
        let P = OnWrite m t in
        let s = t.device_status in
        let changed = bit_and (not32 s) status in
        if-split P (changed == acknowledge && s == 0)
          (λ c. written (inactive _ (not_active (ground arith))))
          (λ _.
            if-split P (changed == driver && s == 1)
              (λ c. written (inactive _ (not_active (ground arith))))
              (λ _.
                if-split P (changed == features_ok && s == 3)
                  (λ c. written (inactive _ (not_active (ground arith))))
                  (λ _.
                    if-split P (changed == driver_ok && s == 11)
                      (λ c.
                        set_driver_ok-OnWrite status (not_active (ground arith))
                          (changed_on s status (ground arith)))
                      (λ _.
                        if-split P (not (bit_and status failed == 0))
                          (λ _. written (quiet _ refl (omega (arith, bit-or 2 s 128)) (λ _. refl)))
                          (λ _.
                            if-split P (status == 0) (λ _. written set_init-IsWritten)
                              (λ _. written (quiet t refl refl (λ _. refl))))))))

    write_queue_register-IsWritten :
        (offset v : ℕ) → IsWritten m t (write_queue_register gm dev offset v t)
    unfolding write_queue_register
    write_queue_register-IsWritten offset v =
        let P = IsWritten m t in
        let up = update_queue_field-IsWritten in
        if-keeps P (offset == 0x38) (up _) (
          if-keeps P (offset == 0x44) (up _) (
            if-keeps P (offset == 0x80) (up _) (
              if-keeps P (offset == 0x84) (up _) (
                if-keeps P (offset == 0x90) (up _) (
                  if-keeps P (offset == 0x94) (up _) (
                    if-keeps P (offset == 0xa0) (up _)
                      (if-keeps P (offset == 0xa4) (up _) (quiet t refl refl (λ _. refl)))))))))

    ack_features-IsWritten : (v : ℕ) → IsWritten m t (ack_features gm dev v t)
    unfolding ack_features
    ack_features-IsWritten v =
        if-keeps (IsWritten m t) (check_device_status gm dev driver (bit_or features_ok failed) t)
          (quiet _ (law.is_activated-ack t.device _ v) refl (λ _. law.queues-ack t.device _ v))
          (quiet t refl refl (λ _. refl))

    ack_interrupt-IsWritten : (v : ℕ) → IsWritten m t (ack_interrupt gm dev v t)
    unfolding ack_interrupt
    ack_interrupt-IsWritten v =
        if-keeps (IsWritten m t) (check_device_status gm dev driver_ok 0 t)
          (quiet _ refl refl (λ _. refl)) (quiet t refl refl (λ _. refl))

    write_register-OnWrite : (offset v : ℕ) → OnWrite m t (write_register gm dev m offset v t)
    unfolding write_register
    write_register-OnWrite offset v =
        let P = OnWrite m t in
        if-keeps P (offset == 0x14) (written (quiet _ refl refl (λ _. refl))) (
          if-keeps P (offset == 0x20) (written (ack_features-IsWritten v)) (
            if-keeps P (offset == 0x24) (written (quiet _ refl refl (λ _. refl))) (
              if-keeps P (offset == 0x30) (written (quiet _ refl refl (λ _. refl))) (
                if-keeps P (offset == 0x64) (written (ack_interrupt-IsWritten v)) (
                  if-keeps P (offset == 0x70) (set_device_status-OnWrite v)
                    (written (write_queue_register-IsWritten offset v)))))))

    write_device_config-IsWritten :
        (offset : ℕ) (bytes : List ℕ) → IsWritten m t (write_device_config gm dev offset bytes t)
    unfolding write_device_config
    write_device_config-IsWritten offset bytes =
        if-keeps (IsWritten m t) (check_device_status gm dev driver failed t)
          (quiet _ (law.is_activated-write_config t.device _ bytes) refl
            (λ _. law.queues-write_config t.device _ bytes))
          (quiet t refl refl (λ _. refl))

    -- Whatever is written wherever: an active device stays behind a driver that has set DRIVER_OK; a
    -- device that was active and still is has the same queues; and one becomes active only where
    -- `is_valid` holds of each of its queues. Or the write panics.
    pub write-OnWrite : (offset : ℕ) (bytes : List ℕ) → OnWrite m t (write gm dev m offset bytes t)
    unfolding write
    write-OnWrite offset bytes =
        if-keeps (OnWrite m t) (leb offset 0xff && length bytes == 4)
          (write_register-OnWrite offset (le_u32 bytes))
          (if-keeps (OnWrite m t) (leb 0x100 offset && leb offset 0xfff)
            (written (write_device_config-IsWritten offset bytes))
            (written (quiet t refl refl (λ _. refl))))
