-- ===== src/Tcp/Connection/Transmit.antt =====
-- `Connection::write_next_segment` of src/dumbo/src/tcp/connection.rs and what it calls. A buffer is
-- its length, and the payload source is its bytes with the first one's sequence number.
pub mod Window
use firecracker.Base.{
  ℕ, ◌+◌, ◌-◌, ◌%◌, ◌^◌, ◌≤◌, ◌<◌, ◌≡◌, Bool, true, false, not, ◌&&◌, ◌||◌, Option, none, some,
  List, [], ◌∷◌, length, min, ltb, leb, ◌==◌, if◌then◌else◌, u16, u32, sub32, Result, ok, err,
}
use firecracker.Tcp.Seq.{max_window_size, seq_after, seq_at_or_after}
use firecracker.Tcp.Segment.{
  TcpSegment, Flags, no_flags, is_syn_ack, payload_len, RstConfig, seq_ack_tcp_flags, Error,
  write_incomplete_segment,
}
use firecracker.Tcp.Connection.{
  Connection, is_some, is_established, is_reset, rst_pending, synack_pending, rto_expired,
  can_send_first_fin, local_rwnd, reset,
}

pub data WriteNextError : Type 0 where
  connection_reset data_after_fin mss_remaining payload_buf_too_large payload_missing_seq :
      WriteNextError
  tcp_segment : Error → WriteNextError

abbrev pub Written : Type 0
Written = Result WriteNextError TcpSegment × Connection

-- The end of `write_segment`: an ACK that is written is no longer pending.
abbrev written : Flags → Connection → Result Error TcpSegment → Written
written flags c (ok segment) =
    (ok segment, if flags.ack then record c { pending_ack = false } else c)
written flags c (err e) = (err (tcp_segment e), c)

write_segment : ℕ → ℕ → ℕ → ℕ → Flags → Option (List ℕ × ℕ) → Connection → Written
write_segment buf_len mss_reserved seq_number ack_number flags payload c =
    if ltb c.mss mss_reserved
    then (err mss_remaining, c)
    else written flags c (
        write_incomplete_segment buf_len seq_number ack_number flags (local_rwnd c)
          (if is_syn_ack flags then some c.mss else none) (c.mss - mss_reserved) payload)

-- The sequence number and the flags of a control segment of an established connection.
abbrev fin_or_ack : Option ℕ → Connection → ℕ × Flags
fin_or_ack none c = (c.highest_ack_received, record no_flags { ack = true })
fin_or_ack (some fin_seq) c =
    if not c.status_flags.fin_acked && seq_at_or_after c.highest_ack_received fin_seq
    then (fin_seq, record no_flags { ack = true; fin = true })
    else (c.highest_ack_received, record no_flags { ack = true })

-- The match on `send_rst` in `write_control_segment`.
control_fields : Option RstConfig → Connection → ℕ × ℕ × Flags
control_fields (some cfg) c = seq_ack_tcp_flags cfg
control_fields none c =
    if not (is_established c)
    then (sub32 c.first_not_sent 1, c.ack_to_send, record no_flags { syn = true; ack = true })
    else (let (n, flags) = fin_or_ack c.send_fin c in (n, c.ack_to_send, flags))

write_control_segment : ℕ → ℕ → Connection → Written
unfolding control_fields write_segment
write_control_segment buf_len mss_reserved c =
    let (n, a, flags) = control_fields c.send_rst c in
    write_segment buf_len mss_reserved n a flags none c

abbrev pub Next : Type 0
Next = Result WriteNextError (Option TcpSegment) × Connection

-- A segment that was written, and what its success does to the connection.
abbrev on_success : (Connection → Connection) → Written → Next
on_success f (ok segment, c) = (ok (some segment), f c)
on_success f (err e, c) = (err e, c)

-- The branch for a pending RST.
write_rst : ℕ → ℕ → Connection → Next
unfolding write_control_segment
write_rst buf_len mss_reserved c =
    on_success (λ d. record d { status_flags = record d.status_flags { reset = true } })
      (write_control_segment buf_len mss_reserved c)

-- The branch for a pending SYNACK.
write_synack : ℕ → ℕ → ℕ → Connection → Next
unfolding write_control_segment
write_synack buf_len mss_reserved now c =
    on_success
      (λ d. record d {
        status_flags = record d.status_flags { synack_sent = true };
        rto_start = now;
      })
      (write_control_segment buf_len mss_reserved c)

retransmit_control : ℕ → ℕ → ℕ → Connection → Next
unfolding write_control_segment
retransmit_control buf_len mss_reserved now c =
    on_success (λ d. record d { rto_start = now }) (write_control_segment buf_len mss_reserved c)

-- `self.rto_count += 1`
abbrev count_timeout : Connection → Connection
count_timeout c = record c { rto_count = u16 (c.rto_count + 1) }

-- The branch of a connection that waits for the ACK of its SYNACK. The recursive call after `reset`
-- finds the RST pending, and the connection not reset.
write_unestablished : ℕ → ℕ → ℕ → Connection → Next
unfolding write_rst retransmit_control reset
write_unestablished buf_len mss_reserved now c =
    if not (rto_expired c now)
    then (ok none, c)
    else if leb c.rto_count_max (count_timeout c).rto_count
    then write_rst buf_len mss_reserved (reset (count_timeout c))
    else retransmit_control buf_len mss_reserved now (count_timeout c)

-- The last part: a control segment for a pending ACK or the first FIN.
write_control : ℕ → ℕ → Connection → Next
unfolding write_control_segment
write_control buf_len mss_reserved c =
    if c.pending_ack || can_send_first_fin c
    then on_success
        (λ d.
          if can_send_first_fin c
          then record d {
            first_not_sent = u32 (d.first_not_sent + 1);
            status_flags = record d.status_flags { fin_sent = true };
          }
          else d)
        (write_control_segment buf_len mss_reserved c)
    else (ok none, c)

abbrev is_at : Option ℕ → ℕ → Bool
is_at none n = false
is_at (some fin_seq) n = n == fin_seq

abbrev is_past : Option ℕ → ℕ → Bool
is_past none n = false
is_past (some fin_seq) n = seq_after n fin_seq

-- The state after a data segment: `first_seq_after` is the sequence number after it.
after_data : ℕ → Bool → ℕ → Connection → Connection
after_data now rto_triggered first_seq_after c = record c {
  rto_start =
      if rto_triggered || c.first_not_sent == c.highest_ack_received then now else c.rto_start;
  first_not_sent =
      if seq_after first_seq_after c.first_not_sent then first_seq_after else c.first_not_sent;
}

-- What follows on a data segment that was written: the FIN flag, if it holds the last byte.
abbrev finish_data : ℕ → Bool → ℕ → Written → Next
finish_data now rto_triggered seq_to_send (err e, c) = (err e, c)
finish_data now rto_triggered seq_to_send (ok segment, c) =
    let first_seq_after = u32 (seq_to_send + u32 (payload_len segment)) in
    let d = record c { dup_ack = false } in
    if is_at d.send_fin first_seq_after
    then (
      ok (some (record segment { flags = record segment.flags { fin = true } })),
      after_data now rto_triggered (u32 (first_seq_after + 1))
          (record d { status_flags = record d.status_flags { fin_sent = true } }),
    )
    else (ok (some segment), after_data now rto_triggered first_seq_after d)

-- The part that sends data from `seq_to_send` on.
write_data : ℕ → ℕ → List ℕ → ℕ → ℕ → Bool → ℕ → Connection → Next
unfolding write_segment after_data write_control
write_data buf_len mss_reserved read_buf payload_seq now rto_triggered seq_to_send c =
    let payload_end = u32 (payload_seq + u32 (length read_buf)) in
    let actual_end =
      if seq_at_or_after c.remote_rwnd_edge payload_end then payload_end else c.remote_rwnd_edge in
    if not (seq_at_or_after seq_to_send payload_seq)
    then (err payload_missing_seq, c)
    else if is_past c.send_fin actual_end
    then (err data_after_fin, c)
    else if seq_after actual_end seq_to_send
    then finish_data now rto_triggered seq_to_send (
        write_segment buf_len mss_reserved seq_to_send c.ack_to_send
          (record no_flags { ack = true }) (some (read_buf, sub32 actual_end seq_to_send)) c)
    else write_control buf_len mss_reserved c

-- A retransmission timeout: the connection resets, its FIN is sent again, or the oldest data is.
write_timeout : ℕ → ℕ → List ℕ → ℕ → ℕ → Connection → Next
unfolding write_rst retransmit_control write_data reset
write_timeout buf_len mss_reserved read_buf payload_seq now c =
    if leb c.rto_count_max c.rto_count
    then write_rst buf_len mss_reserved (reset c)
    else if is_at c.send_fin c.highest_ack_received
    then retransmit_control buf_len mss_reserved now c
    else write_data buf_len mss_reserved read_buf payload_seq now true c.highest_ack_received c

-- The branch of an established connection with a payload source.
write_payload_source : ℕ → ℕ → List ℕ → ℕ → ℕ → Connection → Next
unfolding write_timeout write_data
write_payload_source buf_len mss_reserved read_buf payload_seq now c =
    if ltb max_window_size (length read_buf)
    then (err payload_buf_too_large, c)
    else if not (c.highest_ack_received == c.first_not_sent) && rto_expired c now
    then write_timeout buf_len mss_reserved read_buf payload_seq now (count_timeout c)
    else write_data buf_len mss_reserved read_buf payload_seq now false
        (if c.dup_ack then c.highest_ack_received else c.first_not_sent) c

write_established : ℕ → ℕ → Option (List ℕ × ℕ) → ℕ → Connection → Next
unfolding write_payload_source write_control
write_established buf_len mss_reserved none now c = write_control buf_len mss_reserved c
write_established buf_len mss_reserved (some (read_buf, payload_seq)) now c =
    write_payload_source buf_len mss_reserved read_buf payload_seq now c

unfoldable pub write_next_segment : ℕ → ℕ → Option (List ℕ × ℕ) → ℕ → Connection → Next
unfolding write_rst write_synack write_unestablished write_established
write_next_segment buf_len mss_reserved payload_src now c =
    if is_reset c
    then (err connection_reset, c)
    else if rst_pending c
    then write_rst buf_len mss_reserved c
    else if synack_pending c
    then write_synack buf_len mss_reserved now c
    else if not (is_established c)
    then write_unestablished buf_len mss_reserved now c
    else write_established buf_len mss_reserved payload_src now c
