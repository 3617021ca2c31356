-- ===== src/Vsock/Packet/Buffer.antt =====
-- The buffer of a packet, src/devices/src/virtio/vsock/packet.rs, as a slice of guest memory.
use firecracker.Base.{
  ℕ, ◌+◌, ◌-◌, ◌≤◌, ◌≡◌, refl, ap, sym, ◌∙◌, Option, none, some, List, [], length, drop, ltb, ◌==◌,
  Result, ok, err, if-keeps, arith, drop-nil,
}
use mathlib.Core.Path.{subst}
use firecracker.Vsock.TxBuf.{IoErrorKind, Sink}
use firecracker.Vsock.Packet.{
  GuestMemoryError, io_error, VsockError, guest_memory_mmap, guest_memory_bounds, invalid_pkt_len,
  buf_desc_too_small, buf_desc_missing, hdr_desc_too_small, unreadable_descriptor,
  unwritable_descriptor, no_data, pkt_buf_missing, VsockPacket, GuestRegions, map_err, ok_or_bounds,
  keep_if_some, in_region, offset_region, buf_at, buf_region_addr, write_region,
  write_from_offset_to, Source, read_region, read_at_offset_from,
}

unfoldable pub passed : {W : Type 0} → Result IoErrorKind ℕ × W → Result GuestMemoryError ℕ × W
passed (ok n, w) = (ok n, w)
passed (err kind, w) = (err (io_error kind), w)

-- What vm-memory promises: `bytes` is what the memory has at guest addresses, and `write_to` of a
-- region gives the sink the slice at once and returns its answer.
pub record IsRegions {M R : Type 0} (gr : GuestRegions M R) (bytes : M → ℕ → ℕ → List ℕ)
    : Type 1 where
  pub length-bytes : (m : M) (a n : ℕ) → length (bytes m a n) ≡ n
  pub drop-bytes : (m : M) (a n k : ℕ) → k ≤ n → drop k (bytes m a n) ≡ bytes m (a + k) (n - k)
  pub checked_add_lem : {a k b : ℕ} → gr.checked_add a k ≡ some b → b ≡ a + k
  pub write_to_lem :
      {W : Type 0} (sink : Sink W) {m : M} {r : R} {a x n last : ℕ} (w : W)
      → gr.to_region_addr m a ≡ some (r, x)
      → gr.checked_offset r x (n - 1) ≡ some last
      → gr.write_to sink m r x n w ≡ passed (sink.write w (bytes m a n))

module _ {M R : Type 0} (gr : GuestRegions M R) (bytes : M → ℕ → ℕ → List ℕ) where
  unfoldable pub payload_at : M → ℕ → ℕ → Option ℕ → List ℕ
  payload_at m offset count none = []
  payload_at m offset count (some a) = bytes m (a + offset) count

  -- The bytes of the packet from an offset on.
  abbrev pub payload : VsockPacket → M → ℕ → ℕ → List ℕ
  payload pkt m offset count = payload_at m offset count pkt.buf_addr

module _ {M R : Type 0} (gr : GuestRegions M R) (bytes : M → ℕ → ℕ → List ℕ)
    (law : IsRegions gr bytes) where
  -- Where the buffer is found, `write_to` has its bytes.
  pub data OnFound (m : M) (offset count : ℕ) (o : Option ℕ)
      : Result VsockError (R × ℕ) → Type 1 where
    missing : OnFound m offset count o (err pkt_buf_missing)
    outside : OnFound m offset count o (err guest_memory_bounds)
    found :
        {r : R} {x : ℕ}
        → ((W : Type 0) (sink : Sink W) (w : W)
            → gr.write_to sink m r x count w
              ≡ passed (sink.write w (payload_at gr bytes m offset count o)))
        → OnFound m offset count o (ok (r, x))

  in_region-OnFound :
      (m : M) (base offset count b : ℕ) (o : Option (R × ℕ))
      → b ≡ base + offset
      → gr.to_region_addr m b ≡ o
      → OnFound m offset count (some base) (ok_or_bounds (in_region gr count o))
  unfolding in_region ok_or_bounds keep_if_some payload_at
  in_region-OnFound m base offset count b none at e = outside
  in_region-OnFound m base offset count b (some (r, x)) at e =
      if-keeps (λ (t : Option (R × ℕ)). OnFound m offset count (some base) (ok_or_bounds t))
        (count == 0) outside (go (gr.checked_offset r x (count - 1)) refl)
    where
      go :
          (last : Option ℕ)
          → gr.checked_offset r x (count - 1) ≡ last
          → OnFound m offset count (some base) (ok_or_bounds (keep_if_some (r, x) last))
      go none f = outside
      go (some last) f = found (λ W sink w.
          law.write_to_lem sink w e f ∙ ap (λ (a : ℕ). passed (sink.write w (bytes m a count))) at)

  offset_region-OnFound :
      (m : M) (base offset count : ℕ) (o : Option ℕ)
      → gr.checked_add base offset ≡ o
      → OnFound m offset count (some base) (ok_or_bounds (offset_region gr m count o))
  unfolding offset_region ok_or_bounds
  offset_region-OnFound m base offset count none e = outside
  offset_region-OnFound m base offset count (some b) e =
      in_region-OnFound m base offset count b (gr.to_region_addr m b) (law.checked_add_lem e) refl

  buf_at-OnFound :
      (m : M) (offset count : ℕ) (o : Option ℕ)
      → OnFound m offset count o (buf_at gr m offset count o)
  unfolding buf_at
  buf_at-OnFound m offset count none = missing
  buf_at-OnFound m offset count (some base) =
      offset_region-OnFound m base offset count (gr.checked_add base offset) refl

  pub buf_region_addr-OnFound :
      (pkt : VsockPacket) (m : M) (offset count : ℕ)
      → OnFound m offset count pkt.buf_addr (buf_region_addr gr pkt m offset count)
  unfolding buf_region_addr
  buf_region_addr-OnFound pkt m offset count =
      if-keeps (OnFound m offset count pkt.buf_addr) (ltb pkt.buf_size offset) outside (
        if-keeps (OnFound m offset count pkt.buf_addr) (ltb (pkt.buf_size - offset) count) outside
          (buf_at-OnFound m offset count pkt.buf_addr))

  -- The buffer is not found, with the sink as it was, or the sink has had its bytes.
  pub data OnWritten {W : Type 0} (pkt : VsockPacket) (m : M) (offset count : ℕ) (sink : Sink W)
      (w : W) : Result VsockError ℕ × W → Type 1 where
    no_slice :
        buf_region_addr gr pkt m offset count ≡ err guest_memory_bounds
        → OnWritten pkt m offset count sink w (err guest_memory_bounds, w)
    no_buffer :
        buf_region_addr gr pkt m offset count ≡ err pkt_buf_missing
        → OnWritten pkt m offset count sink w (err pkt_buf_missing, w)
    wrote :
        OnWritten pkt m offset count sink w
          (map_err (passed (sink.write w (payload gr bytes pkt m offset count))))

  write_region-OnWritten :
      {W : Type 0} (pkt : VsockPacket) (m : M) (offset count : ℕ) (sink : Sink W) (w : W)
      (o : Result VsockError (R × ℕ))
      → buf_region_addr gr pkt m offset count ≡ o
      → OnFound m offset count pkt.buf_addr o
      → OnWritten pkt m offset count sink w (write_region gr sink m count w o)
  unfolding write_region
  write_region-OnWritten pkt m offset count sink w (err (guest_memory_mmap e)) at h = elim h [ ]
  write_region-OnWritten pkt m offset count sink w (err (invalid_pkt_len n)) at h = elim h [ ]
  write_region-OnWritten pkt m offset count sink w (err no_data) at h = elim h [ ]
  write_region-OnWritten pkt m offset count sink w (err buf_desc_too_small) at h = elim h [ ]
  write_region-OnWritten pkt m offset count sink w (err buf_desc_missing) at h = elim h [ ]
  write_region-OnWritten pkt m offset count sink w (err (hdr_desc_too_small n)) at h = elim h [ ]
  write_region-OnWritten pkt m offset count sink w (err unreadable_descriptor) at h = elim h [ ]
  write_region-OnWritten pkt m offset count sink w (err unwritable_descriptor) at h = elim h [ ]
  write_region-OnWritten pkt m offset count sink w (err guest_memory_bounds) at outside =
      no_slice at
  write_region-OnWritten pkt m offset count sink w (err pkt_buf_missing) at missing = no_buffer at
  write_region-OnWritten pkt m offset count sink w (ok (r, x)) at (found same) =
      subst (λ t. OnWritten pkt m offset count sink w (map_err t)) (sym (same _ sink w)) wrote

  pub write_from_offset_to-OnWritten :
      {W : Type 0} (pkt : VsockPacket) (m : M) (offset count : ℕ) (sink : Sink W) (w : W)
      → OnWritten pkt m offset count sink w (write_from_offset_to gr pkt m offset sink count w)
  unfolding write_from_offset_to
  write_from_offset_to-OnWritten pkt m offset count sink w =
      write_region-OnWritten pkt m offset count sink w (buf_region_addr gr pkt m offset count) refl
        (buf_region_addr-OnFound pkt m offset count)

  -- What is left of the bytes of a packet.
  drop-payload_at :
      (m : M) (k count : ℕ) (o : Option ℕ)
      → k ≤ count
      → drop k (payload_at gr bytes m 0 count o) ≡ payload_at gr bytes m k (count - k) o
  unfolding payload_at
  drop-payload_at m k count none le = drop-nil k
  drop-payload_at m k count (some base) le =
      law.drop-bytes m (base + 0) count k le
      ∙ ap (λ (a : ℕ). bytes m a (count - k)) {x = base + 0 + k} {y = base + k} (omega arith)

  pub drop-payload :
      (pkt : VsockPacket) (m : M) (k count : ℕ)
      → k ≤ count
      → drop k (payload gr bytes pkt m 0 count) ≡ payload gr bytes pkt m k (count - k)
  drop-payload pkt m k count le = drop-payload_at m k count pkt.buf_addr le

  pub length-payload_at :
      (m : M) (k count : ℕ) (o : Option ℕ) → length (payload_at gr bytes m k count o) ≤ count
  unfolding payload_at
  length-payload_at m k count none = omega arith
  length-payload_at m k count (some base) = omega (arith, law.length-bytes m (base + k) count)

-- What a read of the stream into a region promises of its count.
pub record IsReader {S M R : Type 0} (gr : GuestRegions M R) (source : Source S) : Type 0 where
  pub read_from_bound :
      {s : S} {m : M} {r : R} {x n k : ℕ} {t : M × S}
      → gr.read_from source m r x n s ≡ (ok k, t)
      → k ≤ n

pub data OnRead {T : Type 0} (count : ℕ) : Result VsockError ℕ × T → Type 0 where
  read : {k : ℕ} {t : T} → k ≤ count → OnRead count (ok k, t)
  unread : {e : VsockError} {t : T} → OnRead count (err e, t)

module _ {S M R : Type 0} (gr : GuestRegions M R) (source : Source S)
    (law : IsReader gr source) where
  read_region-OnRead :
      (m : M) (count : ℕ) (s : S) (o : Result VsockError (R × ℕ))
      → OnRead count (read_region gr source m count s o)
  unfolding read_region map_err
  read_region-OnRead m count s (err e) = unread
  read_region-OnRead m count s (ok (r, x)) = go (gr.read_from source m r x count s) refl
    where
      go :
          (o : Result GuestMemoryError ℕ × (M × S))
          → gr.read_from source m r x count s ≡ o
          → OnRead count (map_err o)
      go (ok k, t) e = read (law.read_from_bound e)
      go (err e, t) h = unread

  pub read_at_offset_from-OnRead :
      (pkt : VsockPacket) (m : M) (offset count : ℕ) (s : S)
      → OnRead count (read_at_offset_from gr pkt m offset source count s)
  unfolding read_at_offset_from
  read_at_offset_from-OnRead pkt m offset count s =
      read_region-OnRead m count s (buf_region_addr gr pkt m offset count)
