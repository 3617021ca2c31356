-- ===== src/Tcp/Connection/Receive.antt =====
-- `Connection::receive_segment` of src/dumbo/src/tcp/connection.rs, a function for each of its parts.
pub mod InOrder
pub mod Stream
use firecracker.Base.{
  ℕ, ◌+◌, ◌-◌, ◌%◌, ◌^◌, ◌≤◌, ◌<◌, ◌≡◌, Bool, true, false, not, ◌&&◌, ◌||◌, Option, none, some,
  List, [], ◌∷◌, ◌++◌, length, drop, ltb, leb, ◌==◌, if◌then◌else◌, u32, Result, ok, err,
}
use firecracker.Tcp.Seq.{seq_after, seq_at_or_after}
use firecracker.Tcp.Segment.{TcpSegment, payload_len}
use firecracker.Tcp.Connection.{
  Connection, is_some, synack_sent, is_established, is_reset, rst_pending, is_same_syn,
  reset_for_segment,
}

-- The bits of the bitflags type `RecvStatusFlags`; a set of them is a list.
pub data RecvStatus : Type 0 where
  invalid_ack dup_ack segment_beyond_rwnd unexpected_seq remote_rwnd_edge data_beyond_fin :
      RecvStatus
  reset_received invalid_rst invalid_segment conn_resetting invalid_fin : RecvStatus

pub data RecvError : Type 0 where
  buffer_too_small connection_reset : RecvError

-- What the call returns, the receive buffer after it, and the connection.
abbrev pub Received : Type 0
Received = Result RecvError (Option ℕ × List RecvStatus) × List ℕ × Connection

abbrev ignored : List RecvStatus → List ℕ → Connection → Received
ignored status buf c = (ok (none, status), buf, c)

abbrev reset_for_segment_helper : TcpSegment → List RecvStatus → List ℕ → Connection → Received
reset_for_segment_helper s status buf c =
    ignored (conn_resetting ∷ status) buf (reset_for_segment c s)

-- The part for a segment with the RST flag.
receive_rst : TcpSegment → List ℕ → Connection → Received
receive_rst s buf c =
    if seq_at_or_after s.sequence_number c.ack_to_send
      && seq_after c.local_rwnd_edge s.sequence_number
    then ignored (reset_received ∷ []) buf
        (record c { status_flags = record c.status_flags { reset = true } })
    else ignored (invalid_rst ∷ []) buf c

-- The end of the call: the ACK to enqueue, and the payload to hand out.
deliver : Bool → TcpSegment → List RecvStatus → List ℕ → Connection → Received
deliver enqueue_ack s status buf c =
    if enqueue_ack
    then (if ltb 0 (payload_len s)
        then (
          ok (some (payload_len s), status),
          s.payload ++ drop (payload_len s) buf,
          record c { pending_ack = true },
        )
        else ignored status buf (record c { pending_ack = true }))
    else ignored status buf c

-- The part for a FIN that was not received before.
receive_fin : Bool → TcpSegment → List RecvStatus → List ℕ → Connection → Received
unfolding deliver
receive_fin enqueue_ack s status buf c =
    let fin_seq = u32 (s.sequence_number + u32 (payload_len s)) in
    if s.flags.fin && not (is_some c.fin_received)
    then (if fin_seq == c.ack_to_send
        then deliver true s status buf
            (record c { fin_received = some fin_seq; ack_to_send = u32 (c.ack_to_send + 1) })
        else deliver enqueue_ack s (invalid_fin ∷ status) buf c)
    else deliver enqueue_ack s status buf c

abbrev beyond_fin : Option ℕ → ℕ → Bool
beyond_fin none data_end_seq = false
beyond_fin (some fin_seq) data_end_seq = not (seq_at_or_after fin_seq data_end_seq)

-- The part that looks at the payload, for an established connection.
receive_payload : TcpSegment → List RecvStatus → List ℕ → Connection → Received
unfolding receive_fin
receive_payload s status buf c =
    let data_end_seq = u32 (s.sequence_number + u32 (payload_len s)) in
    if not (is_established c)
    then ignored status buf c
    else if ltb (length buf) (payload_len s)
    then (err buffer_too_small, buf, c)
    else if payload_len s == 0
    then receive_fin false s status buf c
    else if beyond_fin c.fin_received data_end_seq
    then ignored (data_beyond_fin ∷ status) buf c
    else if not (seq_at_or_after c.local_rwnd_edge data_end_seq)
    then ignored (segment_beyond_rwnd ∷ status) buf c
    else if not (s.sequence_number == c.ack_to_send)
    then ignored (unexpected_seq ∷ status) buf (record c { pending_ack = true })
    else receive_fin true s status buf (record c { ack_to_send = data_end_seq })

-- The update of the remote window's edge, after a valid ACK.
receive_window : TcpSegment → List RecvStatus → List ℕ → Connection → Received
unfolding receive_payload
receive_window s status buf c =
    let edge = u32 (s.ack_number + s.window_size) in
    if not (is_established c)
    then receive_payload s status buf c
    else if seq_after edge c.remote_rwnd_edge
    then receive_payload s status buf (record c { remote_rwnd_edge = edge })
    else if not (edge == c.remote_rwnd_edge)
    then receive_payload s (remote_rwnd_edge ∷ status) buf c
    else receive_payload s status buf c

-- The state after an ACK that makes progress.
progress : ℕ → ℕ → Connection → Connection
progress now ack_number c = record c {
  rto_count = 0;
  highest_ack_received = ack_number;
  rto_start = now;
  status_flags = record c.status_flags {
    established = is_established c || synack_sent c;
    fin_acked =
        c.status_flags.fin_acked || (c.status_flags.fin_sent && ack_number == c.first_not_sent);
  };
}

-- The part for the acknowledgement number.
receive_ack : ℕ → TcpSegment → List ℕ → Connection → Received
unfolding receive_window progress
receive_ack now s buf c =
    if not s.flags.ack
    then receive_payload s [] buf c
    else if seq_at_or_after s.ack_number c.highest_ack_received
        && seq_at_or_after c.first_not_sent s.ack_number
    then (if s.ack_number == c.highest_ack_received && not (s.ack_number == c.first_not_sent)
        then (if not (is_established c)
            then reset_for_segment_helper s (invalid_ack ∷ []) buf (record c { rto_count = 0 })
            else receive_window s (dup_ack ∷ []) buf (record c { rto_count = 0; dup_ack = true }))
        else receive_window s [] buf (progress now s.ack_number c))
    else if not (is_established c)
    then reset_for_segment_helper s (invalid_ack ∷ []) buf c
    else receive_payload s (invalid_ack ∷ []) buf c

-- What the state of the handshake makes of a segment.
pub data Handshake : Type 0 where
  repeated : Handshake
  resend : Handshake
  invalid : Handshake
  proceed : Handshake

before_synack : Bool → Handshake
before_synack same = if same then repeated else invalid

before_established : TcpSegment → Bool → Handshake
before_established s same = if same then resend else if s.flags.syn then invalid else proceed

abbrev on_same : (Bool → Handshake) → Option Bool → Option Handshake
on_same f none = none
on_same f (some same) = some (f same)

handshake : TcpSegment → Connection → Option Handshake
unfolding before_synack before_established
handshake s c =
    if not (synack_sent c)
    then on_same before_synack (is_same_syn c s)
    else if not (is_established c)
    then on_same (before_established s) (is_same_syn c s)
    else some (if s.flags.syn then invalid else proceed)

after_handshake : ℕ → TcpSegment → List ℕ → Connection → Handshake → Received
unfolding receive_ack
after_handshake now s buf c repeated = ignored [] buf c
after_handshake now s buf c resend =
    ignored [] buf (record c { status_flags = record c.status_flags { synack_sent = false } })
after_handshake now s buf c invalid = reset_for_segment_helper s (invalid_segment ∷ []) buf c
after_handshake now s buf c proceed = receive_ack now s buf c

abbrev continue : ℕ → TcpSegment → List ℕ → Connection → Option Handshake → Option Received
continue now s buf c none = none
continue now s buf c (some h) = some (after_handshake now s buf c h)

-- `none` where the loop over the options of a SYN does not end.
unfoldable pub receive_segment : ℕ → TcpSegment → List ℕ → Connection → Option Received
unfolding receive_rst handshake after_handshake
receive_segment now s buf c =
    if rst_pending c || is_reset c
    then some (err connection_reset, buf, c)
    else if s.flags.rst
    then some (receive_rst s buf c)
    else continue now s buf c (handshake s c)
