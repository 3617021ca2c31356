-- ===== src/Pdu/Ipv4/Roundtrip.antt =====
-- `IPv4Packet`, src/dumbo/src/pdu/ipv4.rs: a packet that is written is read back.
use firecracker.Base.{
  ℕ, ◌+◌, ◌-◌, ◌*◌, ◌/◌, ◌%◌, ◌^◌, ◌≤◌, ◌<◌, ◌≡◌, refl, ap, ◌∙◌, true, false, some, u16, ltb, ◌==◌,
  ok, arith,
}
use firecracker.Pdu.Bytes.{
  Bytes, bind, put, put_be_u16, put_be_u32, IsBytes, put-IsBytes, put_be_u16-IsBytes,
  put_be_u32-IsBytes, byte-within, set_byte-within, ntohs-within, ntohl-within, htons-within,
  htonl-within, shrink-within,
}
use firecracker.Pdu.Ipv4.{
  version_and_header_len, header_len, total_len, protocol, source_address, destination_address,
  compute_checksum_unchecked, verified, checked, from_bytes, set_version_and_header_len,
  set_dscp_and_ecn, set_total_len, set_identification, set_flags_and_fragment_offset, set_ttl,
  set_protocol, set_header_checksum, set_source_address, set_destination_address, written_header,
  write_header, set_checksum, with_header_and_payload_len_unchecked, with_payload_len_unchecked,
}
use firecracker.Pdu.Ipv4.Checksum.{total, IsFolded, compute_checksum-IsFolded}

-- A checksum is put where the word was 0.
total-put :
    (c : ℕ) (b : Bytes)
    → c < 2 ^ 16
    → b.at 10 ≡ 0
    → b.at 11 ≡ 0
    → total 10 (put_be_u16 10 c b) ≡ total 10 b + c
unfolding put_be_u16 put
total-put c b lt e f = omega (arith, lt, e, f)

total-positive : (b : Bytes) → 0 < b.at 0 → 0 < total 10 b
total-positive b lt = omega (arith, lt)

module _ (proto src_addr dst_addr payload_len : ℕ) (buf : Bytes) where
  -- The buffer with the header, and then with its length, before the checksum.
  abbrev headed : Bytes
  headed = put_be_u32 16 dst_addr (
      put_be_u32 12 src_addr
        (put 9 proto (put 8 1 (put_be_u16 6 0 (put_be_u16 4 0 (put 1 0 (put 0 69 buf)))))))

  abbrev sized : Bytes
  sized = put_be_u16 2 (u16 (20 + payload_len)) (record headed { len = 20 + payload_len })

  abbrev unsummed : Bytes
  unsummed = put_be_u16 10 0 sized

  write_header-headed :
      20 ≤ buf.len → buf.len < 2 ^ 64 → write_header proto src_addr dst_addr buf ≡ some (ok headed)
  unfolding write_header written_header bind put put_be_u16 put_be_u32 set_version_and_header_len
      set_dscp_and_ecn set_identification set_flags_and_fragment_offset set_ttl set_protocol
      set_source_address set_destination_address
  write_header-headed le lt =
      let b1 = put 0 69 buf in
      let b2 = put 1 0 b1 in
      let b3 = put_be_u16 4 0 b2 in
      let b4 = put_be_u16 6 0 b3 in
      let b5 = put 8 1 b4 in
      let b6 = put 9 proto b5 in
      let b7 = put_be_u32 12 src_addr b6 in
      let long : ltb buf.len 20 ≡ false = ground (arith, le) in
      rw
        (
          long,
          set_byte-within 0 69 buf (omega (arith, le)),
          set_byte-within 1 0 b1 (omega (arith, le)),
          htons-within 4 0 b2 (omega (arith, le)) lt,
          htons-within 6 0 b3 (omega (arith, le)) lt,
          set_byte-within 8 1 b4 (omega (arith, le)),
          set_byte-within 9 proto b5 (omega (arith, le)),
          htonl-within 12 src_addr b6 (omega (arith, le)) lt,
          htonl-within 16 dst_addr b7 (omega (arith, le)) lt,
        )
        refl

  unsummed-IsBytes : proto < 2 ^ 8 → IsBytes buf → IsBytes unsummed
  unsummed-IsBytes lt h = put_be_u16-IsBytes 10 0 sized (
      put_be_u16-IsBytes 2 (u16 (20 + payload_len)) (record headed { len = 20 + payload_len })
        (put_be_u32-IsBytes 16 dst_addr _ (
          put_be_u32-IsBytes 12 src_addr _ (
            put-IsBytes 9 proto _ lt (
              put-IsBytes 8 1 _ (omega arith) (
                put_be_u16-IsBytes 6 0 _ (
                  put_be_u16-IsBytes 4 0 _
                    (put-IsBytes 1 0 _ (omega arith) (put-IsBytes 0 69 buf (omega arith) h)))))))))

  -- What is written, with the checksum `c`.
  abbrev packet : ℕ → Bytes
  packet c = put_be_u16 10 c unsummed

  with_payload_len-packet :
      (c : ℕ)
      → 20 + payload_len ≤ buf.len
      → buf.len < 2 ^ 64
      → compute_checksum_unchecked 20 unsummed ≡ some c
      → with_payload_len_unchecked payload_len true headed ≡ some (packet c)
  unfolding with_payload_len_unchecked with_header_and_payload_len_unchecked header_len
      version_and_header_len set_checksum set_total_len set_header_checksum bind put put_be_u16
      put_be_u32
  with_payload_len-packet c le lt e =
      let short = record headed { len = 20 + payload_len } in
      rw
        (
          byte-within 0 headed (omega (arith, le)),
          shrink-within (20 + payload_len) headed le,
          htons-within 2 (u16 (20 + payload_len)) short (omega arith) (omega (arith, le, lt)),
          htons-within 10 0 sized (omega arith) (omega (arith, le, lt)),
          e,
          htons-within 10 c unsummed (omega arith) (omega (arith, le, lt)),
        )
        refl

  -- What a packet that was read back says.
  pub record IsRead (p : Bytes) : Type 0 where
    pub accepted : from_bytes true p ≡ some (ok p)
    pub protocol_read : protocol p ≡ some proto
    pub source_read : source_address p ≡ some src_addr
    pub destination_read : destination_address p ≡ some dst_addr
    pub header_read : header_len p ≡ some 20
    pub len_read : p.len ≡ 20 + payload_len
    pub payload : (i : ℕ) → 20 ≤ i → p.at i ≡ buf.at i

  packet-accepted :
      (c : ℕ)
      → 20 + payload_len < 2 ^ 16
      → compute_checksum_unchecked 20 (packet c) ≡ some 0
      → from_bytes true (packet c) ≡ some (ok (packet c))
  unfolding from_bytes version_and_header_len total_len bind checked verified put put_be_u16
      put_be_u32
  packet-accepted c short e =
      let long : ltb (20 + payload_len) 20 ≡ false = ground arith in
      let same : (u16 (20 + payload_len) / 2 ^ 8 % 2 ^ 8 * 2 ^ 8 + u16 (20 + payload_len) % 2 ^ 8)
          ≡ 20 + payload_len =
        omega (arith, short) in
      let equal : (20 + payload_len == 20 + payload_len) ≡ true = ground arith in
      rw
        (
          long,
          byte-within 0 (packet c) (omega arith),
          ntohs-within 2 (packet c) (omega arith),
          same,
          long,
          equal,
          e,
        )
        refl

  packet-payload : (c i : ℕ) → 20 ≤ i → (packet c).at i ≡ buf.at i
  unfolding put put_be_u16 put_be_u32
  packet-payload c i le = ground (arith, le)

  packet-IsRead :
      (c : ℕ)
      → c < 2 ^ 16
      → src_addr < 2 ^ 32
      → dst_addr < 2 ^ 32
      → 20 + payload_len < 2 ^ 16
      → compute_checksum_unchecked 20 (packet c) ≡ some 0
      → IsRead (packet c)
  unfolding protocol source_address destination_address header_len version_and_header_len bind put
      put_be_u16 put_be_u32
  packet-IsRead c fits s d short e = record {
    accepted = packet-accepted c short e;
    protocol_read = byte-within 9 (packet c) (omega arith);
    source_read = ntohl-within 12 (packet c) (omega arith) ∙ ap some (omega (arith, s));
    destination_read = ntohl-within 16 (packet c) (omega arith) ∙ ap some (omega (arith, d));
    header_read = rw (byte-within 0 (packet c) (omega arith)) refl;
    len_read = refl;
    payload = packet-payload c;
  }

  -- The checksum of the whole is 0.
  packet-checksum :
      (f : ℕ)
      → proto < 2 ^ 8
      → IsBytes buf
      → IsFolded (total 10 unsummed) f
      → compute_checksum_unchecked 20 (packet (2 ^ 16 - 1 - f)) ≡ some 0
  unfolding put put_be_u16 put_be_u32
  packet-checksum f lt h folded =
      let c = 2 ^ 16 - 1 - f in
      let (g, (e, again)) =
        compute_checksum-IsFolded 20 (packet c) (omega arith) (omega arith)
          (put_be_u16-IsBytes 10 c unsummed (unsummed-IsBytes lt h)) in
      let sum : total 10 (packet c) ≡ total 10 unsummed + c =
        total-put c unsummed (omega (arith, folded.bounded)) refl refl in
      let some_word : 0 < total 10 unsummed = total-positive unsummed (omega arith) in
      e
      ∙ ap some (
          omega (
            arith,
            sum,
            folded.bounded,
            folded.same,
            folded.positive some_word,
            again.bounded,
            again.same,
            again.positive (omega (arith, sum, some_word)),
          ))

  -- For a buffer that has room for the header and the payload, less than 2 ^ 16 bytes together, a
  -- protocol of 8 bits and addresses of 32 bits, `write_header` and then
  -- `with_payload_len_unchecked` with the checksum succeed, and what they give is accepted by
  -- `from_bytes` with the checksum verified; it has the protocol, the addresses and the lengths that
  -- were written, and the bytes that the buffer has after the header as its payload.
  pub write_header-IsRead :
      proto < 2 ^ 8
      → src_addr < 2 ^ 32
      → dst_addr < 2 ^ 32
      → IsBytes buf
      → buf.len < 2 ^ 64
      → 20 + payload_len ≤ buf.len
      → 20 + payload_len < 2 ^ 16
      → (h : Bytes) × ((p : Bytes) × ((write_header proto src_addr dst_addr buf ≡ some (ok h))
            × ((with_payload_len_unchecked payload_len true h ≡ some p) × IsRead p)))
  unfolding put put_be_u16 put_be_u32
  write_header-IsRead lt s d h fits room short =
      let (f, (e, folded)) =
        compute_checksum-IsFolded 20 unsummed (omega arith) (omega arith) (unsummed-IsBytes lt h) in
      let c = 2 ^ 16 - 1 - f in
      (
        headed,
        (
          packet c,
          (
            write_header-headed (omega (arith, room)) fits,
            (
              with_payload_len-packet c room fits e,
              packet-IsRead c (omega arith) s d short (packet-checksum f lt h folded),
            ),
          ),
        ),
      )
