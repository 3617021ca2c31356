-- ===== src/Vsock/Packet/Unmapped.antt =====
-- `VsockPacket::buf_region_addr`, src/devices/src/virtio/vsock/packet.rs: which slices of a
-- packet's buffer are refused.
use firecracker.Base.{
  ℕ, ◌+◌, ◌-◌, ◌<◌, ◌≡◌, refl, Option, none, some, ltb, ltb→lt, ◌==◌, if-split, Result, ok, err,
  arith,
}
use mathlib.Core.Path.{subst}
use firecracker.Vsock.Packet.{
  VsockError, GuestRegions, VsockPacket, ok_or_bounds, keep_if_some, in_region, offset_region,
  buf_at, buf_region_addr,
}

module _ {M R : Type 0} (gr : GuestRegions M R) (pkt : VsockPacket) (m : M) (offset count : ℕ) where
  -- The slice is not within the packet's buffer, is empty, or is not within a region of guest memory.
  pub data Unmapped : Type 0 where
    too_long : pkt.buf_size < offset + count → Unmapped
    no_buf : pkt.buf_addr ≡ none → Unmapped
    no_bytes : count ≡ 0 → Unmapped
    overflowing : (a : ℕ) → pkt.buf_addr ≡ some a → gr.checked_add a offset ≡ none → Unmapped
    no_region :
        (a b : ℕ)
        → pkt.buf_addr ≡ some a
        → gr.checked_add a offset ≡ some b
        → gr.to_region_addr m b ≡ none
        → Unmapped
    cut_off :
        (a b : ℕ) (r : R) (at : ℕ)
        → pkt.buf_addr ≡ some a
        → gr.checked_add a offset ≡ some b
        → gr.to_region_addr m b ≡ some (r, at)
        → gr.checked_offset r at (count - 1) ≡ none
        → Unmapped

  -- Where a result is an error, the slice is unmapped.
  abbrev OnErr : Result VsockError (R × ℕ) → Type 0
  OnErr (ok r) = Unit
  OnErr (err e) = Unmapped

  module _ (a : ℕ) (at_a : pkt.buf_addr ≡ some a) where
    kept-OnErr :
        (b : ℕ) (r : R) (at : ℕ) (o : Option ℕ)
        → gr.checked_add a offset ≡ some b
        → gr.to_region_addr m b ≡ some (r, at)
        → gr.checked_offset r at (count - 1) ≡ o
        → OnErr (ok_or_bounds (keep_if_some (r, at) o))
    unfolding ok_or_bounds keep_if_some
    kept-OnErr b r at none f g h = cut_off a b r at at_a f g h
    kept-OnErr b r at (some n) f g h = tt

    region-OnErr :
        (b : ℕ) (o : Option (R × ℕ))
        → gr.checked_add a offset ≡ some b
        → gr.to_region_addr m b ≡ o
        → OnErr (ok_or_bounds (in_region gr count o))
    unfolding ok_or_bounds in_region
    region-OnErr b none f g = no_region a b at_a f g
    region-OnErr b (some (r, at)) f g =
        if-split (λ (o : Option (R × ℕ)). OnErr (ok_or_bounds o)) (count == 0)
          (λ t. no_bytes (ground (arith, t))) (λ _. kept-OnErr b r at _ f g refl)

    address-OnErr :
        (o : Option ℕ)
        → gr.checked_add a offset ≡ o
        → OnErr (ok_or_bounds (offset_region gr m count o))
    unfolding ok_or_bounds offset_region
    address-OnErr none f = overflowing a at_a f
    address-OnErr (some b) f = region-OnErr b (gr.to_region_addr m b) f refl

  buf_at-OnErr : (o : Option ℕ) → pkt.buf_addr ≡ o → OnErr (buf_at gr m offset count o)
  unfolding buf_at
  buf_at-OnErr none e = no_buf e
  buf_at-OnErr (some a) e = address-OnErr a e (gr.checked_add a offset) refl

  buf_region_addr-OnErr : OnErr (buf_region_addr gr pkt m offset count)
  unfolding buf_region_addr
  buf_region_addr-OnErr =
      if-split OnErr (ltb pkt.buf_size offset) (λ t. too_long (omega (arith, ltb→lt _ _ t)))
        (λ _.
          if-split OnErr (ltb (pkt.buf_size - offset) count)
            (λ t. too_long (omega (arith, ltb→lt _ _ t))) (λ _. buf_at-OnErr pkt.buf_addr refl))

  -- A slice that is refused is unmapped.
  pub buf_region_addr-Unmapped :
      {e : VsockError} → buf_region_addr gr pkt m offset count ≡ err e → Unmapped
  buf_region_addr-Unmapped e = subst OnErr e buf_region_addr-OnErr
