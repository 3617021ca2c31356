-- ===== src/Tcp/Connection/Transmit/Window.antt =====
-- The data segments that `Connection::write_next_segment` of src/dumbo/src/tcp/connection.rs writes.
use firecracker.Base.{
  ℕ, ◌+◌, ◌-◌, ◌^◌, ◌≤◌, ◌<◌, ◌≡◌, ◌⊎◌, inl, inr, refl, Bool, true, false, not, ◌&&◌, ◌||◌, Option,
  none, some, List, [], length, take, ltb, leb, ◌==◌, if◌then◌else◌, if-keeps, if-split, Bool-cases,
  u32, sub32, Result, ok, err, arith,
}
use firecracker.Tcp.Seq.{max_window_size, seq_after, seq_at_or_after}
use firecracker.Tcp.Segment.{TcpSegment, Flags, no_flags, is_syn_ack, Error}
use firecracker.Tcp.Segment.Payload.{Fits, OnOk, write_incomplete_segment-OnOk}
use firecracker.Tcp.Connection.{
  Connection, is_established, is_reset, rst_pending, synack_pending, rto_expired,
  can_send_first_fin, local_rwnd, reset,
}
use firecracker.Tcp.Connection.Transmit.{
  WriteNextError, Written, Next, written, write_segment, control_fields, write_control_segment,
  on_success, write_rst, write_synack, retransmit_control, count_timeout, write_unestablished,
  write_control, write_data, finish_data, write_timeout, write_payload_source, write_next_segment,
  is_past, is_at,
}

-- The segment in a result, as its sequence number and payload; no payload where there is none.
abbrev pub payload_of : Result WriteNextError (Option TcpSegment) → List ℕ
payload_of (ok (some s)) = s.payload
payload_of (ok none) = []
payload_of (err e) = []

abbrev pub sequence_of : Result WriteNextError (Option TcpSegment) → ℕ
sequence_of (ok (some s)) = s.sequence_number
sequence_of (ok none) = 0
sequence_of (err e) = 0

-- The end of what may be sent, from the remote window's edge and the end of the payload source.
abbrev send_end : ℕ → ℕ → ℕ
send_end edge payload_end = if seq_at_or_after edge payload_end then payload_end else edge

send_end-le :
    (edge payload_end n : ℕ)
    → edge < 2 ^ 32
    → payload_end < 2 ^ 32
    → n < 2 ^ 32
    → seq_after (send_end edge payload_end) n ≡ true
    → sub32 (send_end edge payload_end) n ≤ sub32 edge n
unfolding seq_after seq_at_or_after
send_end-le edge payload_end n he hp hn h = ground arith

-- A result with no payload, or with one that lies in the remote window and begins the payload source.
record IsSafe (mss_reserved : ℕ) (source : List ℕ) (c : Connection)
    (r : Result WriteNextError (Option TcpSegment)) : Type 0 where
  safe :
      (payload_of r ≡ [])
      ⊎ ((is_established c ≡ true)
          × (length (payload_of r) ≤ sub32 c.remote_rwnd_edge (sequence_of r))
          × (length (payload_of r) ≤ c.mss - mss_reserved)
          × (payload_of r ≡ take (length (payload_of r)) source))

abbrev OnWritten : ℕ → ℕ → Option (List ℕ × ℕ) → Result WriteNextError TcpSegment → Type 0
OnWritten n left payload (err e) = Unit
OnWritten n left payload (ok s) = (s.sequence_number ≡ n) × Fits left payload s

write_segment-OnWritten :
    (buf_len mss_reserved n a : ℕ) (flags : Flags) (payload : Option (List ℕ × ℕ)) (c : Connection)
    → OnWritten n
        (c.mss - mss_reserved)
        payload
        (write_segment buf_len mss_reserved n a flags payload c).0
unfolding write_segment
write_segment-OnWritten buf_len mss_reserved n a flags payload c =
    if-keeps {A = Written} (λ w. OnWritten n left payload w.0) (ltb c.mss mss_reserved) tt
      (go _ (
        write_incomplete_segment-OnOk buf_len n a flags (local_rwnd c)
          (if is_syn_ack flags then some c.mss else none) left payload))
  where
    left : ℕ
    left = c.mss - mss_reserved

    go :
        (r : Result Error TcpSegment)
        → OnOk n left payload r
        → OnWritten n left payload (written flags c r).0
    go (ok s) h = h
    go (err e) h = tt

module _ (mss_reserved : ℕ) (source : List ℕ) (c : Connection) where
  abbrev Safe : Next → Type 0
  Safe out = IsSafe mss_reserved source c out.0

  no_payload :
      (f : Connection → Connection) (n left : ℕ) (w : Written)
      → OnWritten n left none w.0
      → Safe (on_success f w)
  no_payload f n left (ok s, d) (e, h) = record { safe = inl h }
  no_payload f n left (err e, d) h = record { safe = inl refl }

  control-IsSafe :
      (buf_len : ℕ) (f : Connection → Connection) (d : Connection)
      → Safe (on_success f (write_control_segment buf_len mss_reserved d))
  unfolding write_control_segment
  control-IsSafe buf_len f d =
      let (n, a, flags) = control_fields d.send_rst d in
      no_payload f n (d.mss - mss_reserved) (write_segment buf_len mss_reserved n a flags none d)
        (write_segment-OnWritten buf_len mss_reserved n a flags none d)

  write_rst-IsSafe : (buf_len : ℕ) (d : Connection) → Safe (write_rst buf_len mss_reserved d)
  unfolding write_rst
  write_rst-IsSafe buf_len d = control-IsSafe buf_len _ d

  retransmit_control-IsSafe :
      (buf_len now : ℕ) (d : Connection) → Safe (retransmit_control buf_len mss_reserved now d)
  unfolding retransmit_control
  retransmit_control-IsSafe buf_len now d = control-IsSafe buf_len _ d

  write_control-IsSafe :
      (buf_len : ℕ) (d : Connection) → Safe (write_control buf_len mss_reserved d)
  unfolding write_control
  write_control-IsSafe buf_len d =
      if-keeps {A = Next} (Safe) (d.pending_ack || can_send_first_fin d)
        (control-IsSafe buf_len _ d) (record { safe = inl refl })

  write_data-IsSafe :
      (buf_len payload_seq now : ℕ) (again : Bool) (n : ℕ) (d : Connection)
      → is_established c ≡ true
      → d.remote_rwnd_edge ≡ c.remote_rwnd_edge
      → d.mss ≡ c.mss
      → d.remote_rwnd_edge < 2 ^ 32
      → n < 2 ^ 32
      → Safe (write_data buf_len mss_reserved source payload_seq now again n d)
  unfolding write_data
  write_data-IsSafe buf_len payload_seq now again n d est er em hd hn =
      if-keeps {A = Next} Safe (not (seq_at_or_after n payload_seq)) (record { safe = inl refl })
        (if-keeps {A = Next} Safe (is_past d.send_fin end) (record { safe = inl refl })
          (elim (Bool-cases (seq_after end n)) [
            | inl e ↦ rw e (
                sent
                  (write_segment buf_len mss_reserved n d.ack_to_send acked
                    (some (source, sub32 end n)) d)
                  (write_segment-OnWritten buf_len mss_reserved n d.ack_to_send acked
                    (some (source, sub32 end n)) d)
                  (send_end-le d.remote_rwnd_edge payload_end n hd (omega arith) hn e))
            | inr e ↦ rw e (write_control-IsSafe buf_len d)
          ]))
    where
      acked : Flags
      acked = record no_flags { ack = true }

      payload_end : ℕ
      payload_end = u32 (payload_seq + u32 (length source))

      end : ℕ
      end = send_end d.remote_rwnd_edge payload_end

      sent :
          (w : Written)
          → OnWritten n (d.mss - mss_reserved) (some (source, sub32 end n)) w.0
          → sub32 end n ≤ sub32 d.remote_rwnd_edge n
          → Safe (finish_data now again n w)
      sent (err e, d') h le = record { safe = inl refl }
      sent (ok s, d') (e, (f, g, h)) le =
          if-keeps {A = Next} Safe (is_at d'.send_fin _)
            (record { safe = inr (est, fits, left, h) })
            (record { safe = inr (est, fits, left, h) })
        where
          fits : length s.payload ≤ sub32 c.remote_rwnd_edge s.sequence_number
          fits = rw (e, ← er) (omega arith)

          left : length s.payload ≤ c.mss - mss_reserved
          left = rw (← em) g

-- The sequence numbers of a connection are 32-bit words.
pub record IsWord (c : Connection) : Type 0 where
  pub highest_ack_received : c.highest_ack_received < 2 ^ 32
  pub first_not_sent : c.first_not_sent < 2 ^ 32
  pub remote_rwnd_edge : c.remote_rwnd_edge < 2 ^ 32

module _ (mss_reserved : ℕ) (source : List ℕ) (c : Connection) (w : IsWord c)
    (buf_len payload_seq now : ℕ) where
  timed : Connection
  timed = count_timeout c

  write_timeout-IsSafe :
      is_established c ≡ true
      → Safe mss_reserved source c (write_timeout buf_len mss_reserved source payload_seq now timed)
  unfolding write_timeout timed
  write_timeout-IsSafe est =
      if-keeps {A = Next} (Safe mss_reserved source c) (leb c.rto_count_max timed.rto_count)
        (write_rst-IsSafe mss_reserved source c buf_len (reset timed))
        (if-keeps {A = Next} (Safe mss_reserved source c) (is_at c.send_fin c.highest_ack_received)
          (retransmit_control-IsSafe mss_reserved source c buf_len now timed)
          (write_data-IsSafe mss_reserved source c buf_len payload_seq now true
            c.highest_ack_received timed est refl refl w.remote_rwnd_edge w.highest_ack_received))

  next_number_small : (if c.dup_ack then c.highest_ack_received else c.first_not_sent) < 2 ^ 32
  next_number_small =
      if-keeps (λ (n : ℕ). n < 2 ^ 32) c.dup_ack w.highest_ack_received w.first_not_sent

  write_payload_source-IsSafe :
      is_established c ≡ true
      → Safe mss_reserved source c
          (write_payload_source buf_len mss_reserved source payload_seq now c)
  unfolding write_payload_source timed
  write_payload_source-IsSafe est =
      if-keeps {A = Next} (Safe mss_reserved source c) (ltb max_window_size (length source))
        (record { safe = inl refl })
        (if-keeps {A = Next} (Safe mss_reserved source c)
          (not (c.highest_ack_received == c.first_not_sent) && rto_expired c now)
          (write_timeout-IsSafe est)
          (write_data-IsSafe mss_reserved source c buf_len payload_seq now false
            (if c.dup_ack then c.highest_ack_received else c.first_not_sent) c est refl refl
            w.remote_rwnd_edge next_number_small))

  write_unestablished-IsSafe :
      Safe mss_reserved source c (write_unestablished buf_len mss_reserved now c)
  unfolding write_unestablished
  write_unestablished-IsSafe =
      if-keeps {A = Next} (Safe mss_reserved source c) (not (rto_expired c now))
        (record { safe = inl refl })
        (if-keeps {A = Next} (Safe mss_reserved source c)
          (leb c.rto_count_max (count_timeout c).rto_count)
          (write_rst-IsSafe mss_reserved source c buf_len (reset (count_timeout c)))
          (retransmit_control-IsSafe mss_reserved source c buf_len now (count_timeout c)))

  of_not : (b : Bool) → not b ≡ false → b ≡ true
  of_not true e = refl
  of_not false e = cc

  next-IsSafe :
      Safe mss_reserved source c
        (write_next_segment buf_len mss_reserved (some (source, payload_seq)) now c)
  unfolding write_next_segment write_synack
  next-IsSafe =
      if-keeps {A = Next} (Safe mss_reserved source c) (is_reset c) (record { safe = inl refl })
        (if-keeps {A = Next} (Safe mss_reserved source c) (rst_pending c)
          (write_rst-IsSafe mss_reserved source c buf_len c)
          (if-keeps {A = Next} (Safe mss_reserved source c) (synack_pending c)
            (control-IsSafe mss_reserved source c buf_len _ c)
            (if-split {A = Next} (Safe mss_reserved source c) (not (is_established c))
              (λ _. write_unestablished-IsSafe)
              (λ e. write_payload_source-IsSafe (of_not (is_established c) e)))))

-- A segment with data is only sent on an established connection; its payload lies within the window
-- that the peer advertises, fits the rest of the MSS, and is the beginning of the payload source. So
-- it is where the segment's number is past `payload_seq`, too, where a source whose first byte has
-- that number, as the documentation says, has the segment's bytes further on.
pub write_next_segment_window :
    (buf_len mss_reserved payload_seq now : ℕ) (source : List ℕ) (c : Connection) {s : TcpSegment}
    {c' : Connection}
    → IsWord c
    → write_next_segment buf_len mss_reserved (some (source, payload_seq)) now c ≡ (ok (some s), c')
    → (s.payload ≡ [])
      ⊎ ((is_established c ≡ true)
          × (length s.payload ≤ sub32 c.remote_rwnd_edge s.sequence_number)
          × (length s.payload ≤ c.mss - mss_reserved)
          × (s.payload ≡ take (length s.payload) source))
write_next_segment_window buf_len mss_reserved payload_seq now source c w e =
    let r = next-IsSafe mss_reserved source c w buf_len payload_seq now in (rw e at r).safe
