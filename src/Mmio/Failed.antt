-- ===== src/Mmio/Failed.antt =====
-- The status FAILED in `MmioTransport::set_device_status`, src/devices/src/virtio/mmio.rs.
use firecracker.Base.{
  ℕ, ◌≡◌, true, Option, none, some, arith, ◌==◌, bit_and, not, ◌&&◌, if-keeps, if-split,
  if◌then◌else◌,
}
use firecracker.Base.Bits.{bit, bit-and, bit-or}
use firecracker.Queue.Memory.{GuestMemory}
use firecracker.Queue.Rings.{Outcome, returns, panics}
use firecracker.Mmio.{
  VirtioDevice, MmioTransport, acknowledge, driver, driver_ok, features_ok, failed, not32, reset,
  reset_device, set_init, set_device_status,
}

-- The status after a write of it.
abbrev pub HasFailed : {D : Type 0} → Outcome (MmioTransport D) → Type 0
HasFailed panics = ⊥
HasFailed (returns t) = bit t.device_status 7 ≡ 1

failed_off : (s : ℕ) → bit s 7 ≡ 1 → (bit_and s 128 == 0) ≡ true → ⊥
failed_off s e c = ground (arith, bit-and 7 s 128)

module _ {M D : Type 0} (gm : GuestMemory M) (dev : VirtioDevice M D) (t : MmioTransport D)
    (e : bit t.device_status 7 ≡ 1) where
  settled-failed :
      (u : MmioTransport D)
      → bit u.device_status 7 ≡ 1
      → bit ((if bit_and u.device_status failed == 0 then reset gm dev u else u).device_status) 7
        ≡ 1
  settled-failed u f =
      if-split (λ (v : MmioTransport D). bit v.device_status 7 ≡ 1)
        (bit_and u.device_status failed == 0) (λ c. absurd (failed_off u.device_status f c))
        (λ _. f)

  reset_device-failed : (o : Option D) → bit ((reset_device gm dev t o).device_status) 7 ≡ 1
  unfolding reset_device
  reset_device-failed none = omega (arith, bit-or 7 t.device_status 128)
  reset_device-failed (some d) = e

  set_init-failed : bit ((set_init gm dev t).device_status) 7 ≡ 1
  unfolding set_init
  set_init-failed =
      let u = if dev.is_activated t.device then reset_device gm dev t (dev.reset t.device) else t in
      settled-failed u (
        if-keeps (λ (v : MmioTransport D). bit v.device_status 7 ≡ 1) (dev.is_activated t.device)
          (reset_device-failed (dev.reset t.device)) e)

  -- Once FAILED is set no write of the status takes it back, the write of 0 included, by which the
  -- driver asks for a reset, and whether or not the device can be reset.
  pub set_device_status-HasFailed :
      (m : M) (status : ℕ) → HasFailed (set_device_status gm dev m status t)
  unfolding set_device_status
  set_device_status-HasFailed m status =
      let P = HasFailed in
      let s = t.device_status in
      let changed = bit_and (not32 s) status in
      if-split P (changed == acknowledge && s == 0) (λ c. absurd (ground arith))
        (λ _.
          if-split P (changed == driver && s == 1) (λ c. absurd (ground arith))
            (λ _.
              if-split P (changed == features_ok && s == 3) (λ c. absurd (ground arith))
                (λ _.
                  if-split P (changed == driver_ok && s == 11) (λ c. absurd (ground arith))
                    (λ _.
                      if-split P (not (bit_and status failed == 0))
                        (λ _. omega (arith, bit-or 7 s 128))
                        (λ _. if-split P (status == 0) (λ _. set_init-failed) (λ _. e))))))
