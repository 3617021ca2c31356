-- ===== src/Pdu/Ethernet/Roundtrip.antt =====
-- `EthernetFrame`, src/dumbo/src/pdu/ethernet.rs: a frame that is written is read back.
use firecracker.Base.{ℕ, ◌+◌, ◌^◌, ◌≤◌, ◌<◌, ◌≡◌, refl, ap, ◌∙◌, false, some, ltb, ok, arith}
use firecracker.Pdu.Bytes.{Bytes, bind, put, put_be_u16, ntohs-within, htons-within, shrink-within}
use firecracker.Pdu.Ethernet.{
  MacAddr, mac_at, put_mac, read_mac-within, write_mac-within, from_bytes, dst_mac, src_mac,
  ethertype, new_with_header, with_payload_len_unchecked,
}

module _ (dst src : MacAddr) (kind payload_len : ℕ) (buf : Bytes) where
  -- The buffer with the header.
  abbrev headed : Bytes
  headed = put_be_u16 12 kind (put_mac 6 src (put_mac 0 dst buf))

  -- What is written.
  abbrev frame : Bytes
  frame = record headed { len = 14 + payload_len }

  new_with_header-headed :
      14 ≤ buf.len → buf.len < 2 ^ 64 → new_with_header dst src kind buf ≡ some (ok headed)
  unfolding new_with_header bind put put_be_u16 put_mac
  new_with_header-headed le lt =
      let b1 = put_mac 0 dst buf in
      let b2 = put_mac 6 src b1 in
      let long : ltb buf.len 14 ≡ false = ground (arith, le) in
      rw
        (
          long,
          write_mac-within 0 dst buf (omega (arith, le)),
          write_mac-within 6 src b1 (omega (arith, le)),
          htons-within 12 kind b2 (omega (arith, le)) lt,
        )
        refl

  -- What a frame that was read back says.
  pub record IsRead (p : Bytes) : Type 0 where
    pub accepted : from_bytes p ≡ ok p
    pub dst_read : dst_mac p ≡ some dst
    pub src_read : src_mac p ≡ some src
    pub ethertype_read : ethertype p ≡ some kind
    pub len_read : p.len ≡ 14 + payload_len
    pub payload : (i : ℕ) → 14 ≤ i → p.at i ≡ buf.at i

  frame-accepted : from_bytes frame ≡ ok frame
  unfolding from_bytes
  frame-accepted = let long : ltb (14 + payload_len) 14 ≡ false = ground arith in rw long refl

  frame-payload : (i : ℕ) → 14 ≤ i → frame.at i ≡ buf.at i
  unfolding put put_be_u16 put_mac
  frame-payload i le = ground (arith, le)

  frame-IsRead : kind < 2 ^ 16 → IsRead frame
  unfolding dst_mac src_mac ethertype mac_at put_mac put put_be_u16
  frame-IsRead fits = record {
    accepted = frame-accepted;
    dst_read = read_mac-within 0 frame (omega arith);
    src_read = read_mac-within 6 frame (omega arith);
    ethertype_read = ntohs-within 12 frame (omega arith) ∙ ap some (omega (arith, fits));
    len_read = refl;
    payload = frame-payload;
  }

  -- For a buffer that has room for the header and the payload, `new_with_header` and then
  -- `with_payload_len_unchecked` succeed, and what they give is accepted by `from_bytes`; it has
  -- the addresses, the ethertype and the length that were written, and the bytes that the buffer has
  -- after the header as its payload.
  pub new_with_header-IsRead :
      kind < 2 ^ 16
      → buf.len < 2 ^ 64
      → 14 + payload_len ≤ buf.len
      → (h : Bytes) × ((p : Bytes) × ((new_with_header dst src kind buf ≡ some (ok h))
            × ((with_payload_len_unchecked payload_len h ≡ some p) × IsRead p)))
  unfolding with_payload_len_unchecked put put_be_u16 put_mac
  new_with_header-IsRead fits lt room = (
    headed,
    (
      frame,
      (
        new_with_header-headed (omega (arith, room)) lt,
        (shrink-within (14 + payload_len) headed room, frame-IsRead fits),
      ),
    ),
  )
