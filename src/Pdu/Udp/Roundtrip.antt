-- ===== src/Pdu/Udp/Roundtrip.antt =====
-- `UdpDatagram`, src/dumbo/src/pdu/udp.rs: a datagram that is written is read back.
use firecracker.Base.{
  ℕ, ◌+◌, ◌-◌, ◌*◌, ◌/◌, ◌%◌, ◌^◌, ◌≤◌, ◌<◌, ◌≡◌, refl, ap, ◌∙◌, false, some, u16, ltb, ◌==◌, ok,
  if-keeps, arith,
}
use firecracker.Pdu.Bytes.{
  Bytes, bind, put, put_be_u16, IsBytes, put_be_u16-IsBytes, ntohs-within, htons-within,
  shrink-within,
}
use firecracker.Pdu.Udp.{
  udp, complemented, compute_checksum, source_port, destination_port, udp_len, udp_checksum,
  verified, from_bytes, copy_payload, filled, write_incomplete_datagram, with_checksum, finalize,
}
use firecracker.Pdu.Ipv4.Checksum.{IsFolded}
use firecracker.Pdu.Udp.Checksum.{whole, whole-put, compute_checksum-IsFolded}

-- A checksum of UDP is never 0, and completes the sum to a multiple of 2 ^ 16 - 1.
complemented_lem :
    (f : ℕ)
    → f < 2 ^ 16
    → (0 < complemented udp f)
      × ((complemented udp f < 2 ^ 16) × ((f + complemented udp f) % (2 ^ 16 - 1) ≡ 0))
unfolding complemented
complemented_lem f lt = ground (arith, lt)

complemented-full : (f : ℕ) → f ≡ 2 ^ 16 - 1 → complemented udp f ≡ 2 ^ 16 - 1
unfolding complemented
complemented-full f e = ground (arith, e)

module _ (src_addr dst_addr src_port dst_port : ℕ) (payload buf : Bytes) where
  abbrev size : ℕ
  size = payload.len + 8

  -- The datagram that is written, and then with the ports, before the checksum.
  abbrev written : Bytes
  written = put_be_u16 4 (u16 size) (copy_payload payload (record buf { len = size }))

  abbrev unsummed : Bytes
  unsummed = put_be_u16 6 0 (put_be_u16 2 dst_port (put_be_u16 0 src_port written))

  abbrev datagram : ℕ → Bytes
  datagram c = put_be_u16 6 c unsummed

  unsummed-IsBytes : IsBytes payload → IsBytes buf → IsBytes unsummed
  unfolding copy_payload
  unsummed-IsBytes p h = put_be_u16-IsBytes 6 0 _ (
      put_be_u16-IsBytes 2 dst_port _ (
        put_be_u16-IsBytes 0 src_port _ (
          put_be_u16-IsBytes 4 (u16 size) (copy_payload payload (record buf { len = size }))
            (λ i. if-keeps (λ (x : ℕ). x < 2 ^ 8) (ltb i 8) (h i) (p (i - 8))))))

  write-written :
      size ≤ buf.len → size ≤ 65_507 → write_incomplete_datagram payload buf ≡ some (ok written)
  unfolding write_incomplete_datagram from_bytes verified filled bind copy_payload
  write-written room few =
      let long : ltb buf.len 8 ≡ false = ground (arith, room) in
      let small : ltb 65_507 size ≡ false = ground (arith, few) in
      rw
        (
          long,
          small,
          shrink-within size buf room,
          htons-within 4 (u16 size) (copy_payload payload (record buf { len = size })) (omega arith)
              (omega (arith, few)),
        )
        refl

  finalize-datagram :
      (c : ℕ)
      → size ≤ 65_507
      → compute_checksum src_addr dst_addr udp unsummed ≡ some c
      → finalize src_port dst_port (some (src_addr, dst_addr)) written ≡ some (datagram c)
  unfolding finalize with_checksum bind put_be_u16 put copy_payload
  finalize-datagram c few e =
      let b1 = put_be_u16 0 src_port written in
      let b2 = put_be_u16 2 dst_port b1 in
      rw
        (
          htons-within 0 src_port written (omega arith) (omega (arith, few)),
          htons-within 2 dst_port b1 (omega arith) (omega (arith, few)),
          htons-within 6 0 b2 (omega arith) (omega (arith, few)),
          e,
          htons-within 6 c unsummed (omega arith) (omega (arith, few)),
        )
        refl

  -- What a datagram that was read back says.
  pub record IsRead (p : Bytes) : Type 0 where
    pub accepted : from_bytes (some (src_addr, dst_addr)) p ≡ some (ok p)
    pub sum : ℕ
    pub some_sum : 0 < sum
    pub sum_read : udp_checksum p ≡ some sum
    pub summed : compute_checksum src_addr dst_addr udp p ≡ some (2 ^ 16 - 1)
    pub source_read : source_port p ≡ some src_port
    pub destination_read : destination_port p ≡ some dst_port
    pub len_read : udp_len p ≡ some p.len
    pub payload_len : p.len ≡ payload.len + 8
    pub payload_read : (i : ℕ) → p.at (8 + i) ≡ payload.at i

  datagram-accepted :
      (c : ℕ)
      → compute_checksum src_addr dst_addr udp (datagram c) ≡ some (2 ^ 16 - 1)
      → from_bytes (some (src_addr, dst_addr)) (datagram c) ≡ some (ok (datagram c))
  unfolding from_bytes verified udp_checksum bind put_be_u16 put copy_payload
  datagram-accepted c e =
      let long : ltb size 8 ≡ false = ground arith in
      let sum = c / 2 ^ 8 % 2 ^ 8 * 2 ^ 8 + c % 2 ^ 8 in
      rw (long, ntohs-within 6 (datagram c) (omega arith), e)
        (if-keeps (λ o. o ≡ some (ok (datagram c))) (sum == 0) refl refl)

  datagram-payload : (c i : ℕ) → (datagram c).at (8 + i) ≡ payload.at i
  unfolding put_be_u16 put copy_payload
  datagram-payload c i = ground (arith, ap payload.at {x = 8 + i - 8} {y = i} (omega arith))

  datagram-IsRead :
      (c : ℕ)
      → 0 < c
      → c < 2 ^ 16
      → src_port < 2 ^ 16
      → dst_port < 2 ^ 16
      → size ≤ 65_507
      → compute_checksum src_addr dst_addr udp (datagram c) ≡ some (2 ^ 16 - 1)
      → IsRead (datagram c)
  unfolding source_port destination_port udp_len udp_checksum put_be_u16 put copy_payload
  datagram-IsRead c above below s d few e = record {
    sum = c;
    some_sum = above;
    sum_read = ntohs-within 6 (datagram c) (omega arith) ∙ ap some (omega (arith, below));
    summed = e;
    accepted = datagram-accepted c e;
    source_read = ntohs-within 0 (datagram c) (omega arith) ∙ ap some (omega (arith, s));
    destination_read = ntohs-within 2 (datagram c) (omega arith) ∙ ap some (omega (arith, d));
    len_read = ntohs-within 4 (datagram c) (omega arith) ∙ ap some (omega (arith, few));
    payload_len = refl;
    payload_read = datagram-payload c;
  }

  -- The sum of the whole with its checksum.
  datagram-checksum :
      (f : ℕ)
      → src_addr < 2 ^ 32
      → dst_addr < 2 ^ 32
      → size ≤ 65_507
      → IsBytes unsummed
      → IsFolded (whole src_addr dst_addr udp unsummed) f
      → compute_checksum src_addr dst_addr udp (datagram (complemented udp f)) ≡ some (2 ^ 16 - 1)
  unfolding put_be_u16 put copy_payload
  datagram-checksum f s d few h folded =
      let c = complemented udp f in
      let (above, (below, completes)) = complemented_lem f folded.bounded in
      let (g, (e, again)) =
        compute_checksum-IsFolded src_addr dst_addr udp (datagram c) s d (omega (arith, few))
          (put_be_u16-IsBytes 6 c unsummed h) in
      let sum = whole-put src_addr dst_addr c unsummed below refl refl (omega arith) in
      let full : g ≡ 2 ^ 16 - 1 = omega (
        arith,
        sum,
        above,
        completes,
        folded.same,
        again.bounded,
        again.same,
        again.positive (omega (arith, sum, above)),
      ) in
      e ∙ ap some (complemented-full g full)

  -- For a buffer that has room for the payload and the header, and a payload within the limit,
  -- `write_incomplete_datagram` and then `finalize` with the checksum succeed, and what they give is
  -- accepted by `from_bytes` for the same addresses; its checksum is not 0, which would not be
  -- verified, and the sum of the whole is all ones; it has the ports, the length and the payload that
  -- were written.
  pub finalize-from_bytes :
      src_addr < 2 ^ 32
      → dst_addr < 2 ^ 32
      → src_port < 2 ^ 16
      → dst_port < 2 ^ 16
      → IsBytes payload
      → IsBytes buf
      → size ≤ buf.len
      → size ≤ 65_507
      → (h : Bytes) × ((p : Bytes) × ((write_incomplete_datagram payload buf ≡ some (ok h))
            × ((finalize src_port dst_port (some (src_addr, dst_addr)) h ≡ some p) × IsRead p)))
  unfolding put_be_u16 put copy_payload
  finalize-from_bytes s d sp dp bp bb room few =
      let bytes = unsummed-IsBytes bp bb in
      let (f, (e, folded)) =
        compute_checksum-IsFolded src_addr dst_addr udp unsummed s d (omega (arith, few)) bytes in
      let c = complemented udp f in
      let (above, (below, completes)) = complemented_lem f folded.bounded in
      (
        written,
        (
          datagram c,
          (
            write-written room few,
            (
              finalize-datagram c few e,
              datagram-IsRead c above below sp dp few (datagram-checksum f s d few bytes folded),
            ),
          ),
        ),
      )
