-- ===== src/Pdu/Arp/Roundtrip.antt =====
-- `EthIPv4ArpFrame`, src/dumbo/src/pdu/arp.rs: a frame that is written is read back.
use firecracker.Base.{
  ℕ, ◌+◌, ◌*◌, ◌/◌, ◌%◌, ◌^◌, ◌<◌, ◌≡◌, refl, ap, ◌∙◌, false, some, not, ◌==◌, ok, err, arith,
}
use firecracker.Pdu.Bytes.{
  Bytes, bind, put, put_be_u16, put_be_u32, byte-within, set_byte-within, ntohs-within,
  ntohl-within, htons-within, htonl-within,
}
use firecracker.Pdu.Ethernet.{MacAddr, mac_at, put_mac, read_mac-within, write_mac-within}
use firecracker.Pdu.Arp.{
  bad_operation, htype, ptype, hlen, plen, operation, sha, spa, tha, tpa, demand,
  request_from_bytes, fields_set, write_raw, write_request, write_reply,
}

module _ (sender : MacAddr) (sender_ip : ℕ) (target : MacAddr) (target_ip : ℕ) (buf : Bytes) where
  -- The frame with the operation `op`.
  abbrev frame : ℕ → Bytes
  frame op = put_be_u32 24 target_ip (
      put_mac 18 target (
        put_be_u32 14 sender_ip (
          put_mac 8 sender
            (put_be_u16 6 op (put 5 4 (put 4 6 (put_be_u16 2 2_048 (put_be_u16 0 1 buf))))))))

  write_raw-frame :
      (op : ℕ)
      → buf.len ≡ 28
      → write_raw 1 2_048 6 4 op sender sender_ip target target_ip buf ≡ some (ok (frame op))
  unfolding write_raw fields_set bind put put_be_u16 put_be_u32 put_mac
  write_raw-frame op e =
      let b1 = put_be_u16 0 1 buf in
      let b2 = put_be_u16 2 2_048 b1 in
      let b3 = put 4 6 b2 in
      let b4 = put 5 4 b3 in
      let b5 = put_be_u16 6 op b4 in
      let b6 = put_mac 8 sender b5 in
      let b7 = put_be_u32 14 sender_ip b6 in
      let b8 = put_mac 18 target b7 in
      let exact : not (buf.len == 28) ≡ false = ground (arith, e) in
      rw
        (
          exact,
          htons-within 0 1 buf (omega (arith, e)) (omega (arith, e)),
          htons-within 2 2_048 b1 (omega (arith, e)) (omega (arith, e)),
          set_byte-within 4 6 b2 (omega (arith, e)),
          set_byte-within 5 4 b3 (omega (arith, e)),
          htons-within 6 op b4 (omega (arith, e)) (omega (arith, e)),
          write_mac-within 8 sender b5 (omega (arith, e)),
          htonl-within 14 sender_ip b6 (omega (arith, e)) (omega (arith, e)),
          write_mac-within 18 target b7 (omega (arith, e)),
          htonl-within 24 target_ip b8 (omega (arith, e)) (omega (arith, e)),
        )
        refl

  -- What the addresses of a frame that was read back are.
  pub record IsRead (op : ℕ) (p : Bytes) : Type 0 where
    pub operation_read : operation p ≡ some op
    pub sha_read : sha p ≡ some sender
    pub spa_read : spa p ≡ some sender_ip
    pub tha_read : tha p ≡ some target
    pub tpa_read : tpa p ≡ some target_ip

  frame-IsRead :
      (op : ℕ)
      → buf.len ≡ 28
      → op < 2 ^ 16
      → sender_ip < 2 ^ 32
      → target_ip < 2 ^ 32
      → IsRead op (frame op)
  unfolding operation sha spa tha tpa mac_at put_mac put put_be_u16 put_be_u32
  frame-IsRead op e fits s t = record {
    operation_read = ntohs-within 6 (frame op) (omega (arith, e)) ∙ ap some (omega (arith, fits));
    sha_read = read_mac-within 8 (frame op) (omega (arith, e));
    spa_read = ntohl-within 14 (frame op) (omega (arith, e)) ∙ ap some (omega (arith, s));
    tha_read = read_mac-within 18 (frame op) (omega (arith, e));
    tpa_read = ntohl-within 24 (frame op) (omega (arith, e)) ∙ ap some (omega (arith, t));
  }

  -- The checks up to the operation pass.
  frame-checked :
      (op : ℕ)
      → buf.len ≡ 28
      → op < 2 ^ 16
      → request_from_bytes (frame op) ≡ demand 1 bad_operation (some (ok (frame op))) op
  unfolding request_from_bytes htype ptype hlen plen operation bind demand put_mac put put_be_u16
      put_be_u32
  frame-checked op e fits =
      let exact : not (buf.len == 28) ≡ false = ground (arith, e) in
      let same : op / 2 ^ 8 % 2 ^ 8 * 2 ^ 8 + op % 2 ^ 8 ≡ op = omega (arith, fits) in
      rw
        (
          exact,
          ntohs-within 0 (frame op) (omega (arith, e)),
          ntohs-within 2 (frame op) (omega (arith, e)),
          byte-within 4 (frame op) (omega (arith, e)),
          byte-within 5 (frame op) (omega (arith, e)),
          ntohs-within 6 (frame op) (omega (arith, e)),
          same,
        )
        refl

  -- For a buffer of exactly 28 bytes, `write_request` gives a frame that `request_from_bytes`
  -- accepts and `write_reply` one that it refuses for its operation; both have the operation and the
  -- addresses that were written.
  pub write_request-IsRead :
      buf.len ≡ 28
      → sender_ip < 2 ^ 32
      → target_ip < 2 ^ 32
      → (p : Bytes) × ((q : Bytes) × ((write_request sender sender_ip target target_ip buf
              ≡ some (ok p))
            × ((write_reply sender sender_ip target target_ip buf ≡ some (ok q))
                × ((request_from_bytes p ≡ some (ok p))
                    × ((request_from_bytes q ≡ some (err bad_operation))
                        × (IsRead 1 p × IsRead 2 q))))))
  unfolding write_request write_reply demand
  write_request-IsRead e s t = (
    frame 1,
    (
      frame 2,
      (
        write_raw-frame 1 e,
        (
          write_raw-frame 2 e,
          (
            frame-checked 1 e (omega arith),
            (
              frame-checked 2 e (omega arith),
              (frame-IsRead 1 e (omega arith) s t, frame-IsRead 2 e (omega arith) s t),
            ),
          ),
        ),
      ),
    ),
  )
