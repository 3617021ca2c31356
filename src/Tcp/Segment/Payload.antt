-- ===== src/Tcp/Segment/Payload.antt =====
-- The payload that `write_incomplete_segment` of src/dumbo/src/pdu/tcp.rs writes, and the loop over
-- the options of a segment.
use firecracker.Base.{
  ℕ, ◌+◌, ◌-◌, ◌≤◌, ◌≡◌, refl, Option, none, some, List, [], length, take, min, ltb, if-keeps,
  Result, ok, err, arith, length-take-le, take-length-take,
}
use firecracker.Tcp.Segment.{
  TcpSegment, Flags, Error, mss_bytes, write_payload, write_incomplete_segment, options_offset,
}

-- What a segment written with that payload source holds.
abbrev pub Fits : ℕ → Option (List ℕ × ℕ) → TcpSegment → Type 0
Fits mss_left none s = s.payload ≡ []
Fits mss_left (some (source, most)) s =
    (length s.payload ≤ most)
    × (length s.payload ≤ mss_left)
    × (s.payload ≡ take (length s.payload) source)

abbrev pub OnOk : ℕ → ℕ → Option (List ℕ × ℕ) → Result Error TcpSegment → Type 0
OnOk n mss_left payload (err e) = Unit
OnOk n mss_left payload (ok s) = (s.sequence_number ≡ n) × Fits mss_left payload s

write_payload_lem :
    (room mss_left : ℕ) (payload : Option (List ℕ × ℕ)) (s : TcpSegment)
    → s.payload ≡ []
    → OnOk s.sequence_number mss_left payload (write_payload room mss_left payload s)
unfolding write_payload
write_payload_lem room mss_left none s e = (refl, e)
write_payload_lem room mss_left (some (source, most)) s e =
    let k = min (min room mss_left) (min (length source) most) in
    ground (arith, length-take-le k source, take-length-take k source)

pub write_incomplete_segment-OnOk :
    (buf_len n a : ℕ) (flags : Flags) (window : ℕ) (mss : Option ℕ) (mss_left : ℕ)
    (payload : Option (List ℕ × ℕ))
    → OnOk n mss_left payload
        (write_incomplete_segment buf_len n a flags window mss mss_left payload)
unfolding write_incomplete_segment
write_incomplete_segment-OnOk buf_len n a flags window mss mss_left payload =
    if-keeps (OnOk n mss_left payload) (ltb mss_left (length (mss_bytes mss))) tt (
      if-keeps (OnOk n mss_left payload) (ltb buf_len (options_offset + length (mss_bytes mss))) tt
        (weaken payload (write_payload _ _ payload _) (write_payload_lem _ _ payload _ refl)))
  where
    weaken :
        (p : Option (List ℕ × ℕ)) (r : Result Error TcpSegment)
        → OnOk n (mss_left - length (mss_bytes mss)) p r
        → OnOk n mss_left p r
    weaken p (err e) h = tt
    weaken none (ok s) h = h
    weaken (some (source, most)) (ok s) (e, (f, g, h)) = (e, (f, omega arith, h))
