-- ===== src/Vsock/Connection/Send.antt =====
-- `VsockConnection::send_pkt`, src/devices/src/virtio/vsock/csm/connection.rs: a packet of the guest.
use firecracker.Base.{
  ℕ, ◌+◌, bit_and, Bool, true, false, not, ◌&&◌, ◌||◌, none, some, ◌==◌, if◌then◌else◌,
}
use firecracker.Vsock.TxBuf.{Sink, len}
use firecracker.Vsock.Packet.{VsockPacket, GuestRegions}
use firecracker.Vsock.PendingRx.{insert, rst, credit_update}
use firecracker.Vsock.Connection.{
  ConnState, local_init, peer_init, established, local_closed, peer_closed, killed, VsockConnection,
  kill, peer_needs_credit_update, conn_shutdown_timeout_ms, op_response, op_shutdown, op_rw,
  op_credit_request, flags_shutdown_rcv, flags_shutdown_send,
}
use firecracker.Vsock.Connection.Transfer.{Sent, done, failed, send_bytes}

-- `Established | PeerClosed(_, false)`: the guest may send.
unfoldable pub peer_can_send : ConnState → Bool
peer_can_send local_init = false
peer_can_send peer_init = false
peer_can_send established = true
peer_can_send local_closed = false
peer_can_send (peer_closed recv_off send_off) = not send_off
peer_can_send killed = false

unfoldable pub is_peer_init : ConnState → Bool
is_peer_init local_init = false
is_peer_init peer_init = true
is_peer_init established = false
is_peer_init local_closed = false
is_peer_init (peer_closed recv_off send_off) = false
is_peer_init killed = false

unfoldable pub has_flag : ℕ → VsockPacket → Bool
has_flag flag pkt = not (bit_and pkt.hdr.flags flag == 0)

module _ {S : Type 0} where
  unfoldable pub sched_rst : VsockConnection S → VsockConnection S
  sched_rst c = record c { pending_rx = insert rst c.pending_rx }

  unfoldable pub sched_credit : VsockConnection S → VsockConnection S
  sched_credit c = record c { pending_rx = insert credit_update c.pending_rx }

  -- What follows `send_bytes`.
  unfoldable pub sent_data : Sent × VsockConnection S → VsockConnection S
  sent_data (failed e, c) = kill c
  sent_data (done, c) = if peer_needs_credit_update c then sched_credit c else c

  -- A shutdown of an established connection.
  unfoldable pub shut : ℕ → Bool → Bool → VsockConnection S → VsockConnection S
  shut now recv_off send_off c =
      let c' = record c { state = peer_closed recv_off send_off } in
      if recv_off && send_off
      then (if len c.tx_buf == 0
          then sched_rst c'
          else record c' { expiry = some (now + conn_shutdown_timeout_ms) })
      else c'

  -- A shutdown of one that the guest has closed in part.
  unfoldable pub shut_more : Bool → Bool → VsockConnection S → VsockConnection S
  shut_more recv_off send_off c =
      let c' = record c { state = peer_closed recv_off send_off } in
      if (recv_off && send_off) && (len c.tx_buf == 0) then sched_rst c' else c'

  -- The arms for control packets, in each state. A credit update and an invalid packet do nothing.
  unfoldable pub control : ℕ → VsockPacket → ConnState → VsockConnection S → VsockConnection S
  control now pkt local_init c =
      if pkt.hdr.op == op_response then record c { expiry = none; state = established } else c
  control now pkt peer_init c = if pkt.hdr.op == op_credit_request then sched_credit c else c
  control now pkt established c =
      if pkt.hdr.op == op_shutdown
      then shut now (has_flag flags_shutdown_rcv pkt) (has_flag flags_shutdown_send pkt) c
      else (if pkt.hdr.op == op_credit_request then sched_credit c else c)
  control now pkt local_closed c = c
  control now pkt (peer_closed recv_off send_off) c =
      if pkt.hdr.op == op_shutdown
      then shut_more (recv_off || has_flag flags_shutdown_rcv pkt)
          (send_off || has_flag flags_shutdown_send pkt) c
      else (if (pkt.hdr.op == op_credit_request) && not send_off then sched_credit c else c)
  control now pkt killed c = c

module _ {S M R : Type 0} (sink : Sink S) (gr : GuestRegions M R) where
  unfoldable pub dispatch : M → ℕ → VsockPacket → VsockConnection S → VsockConnection S
  dispatch m now pkt c =
      if peer_can_send c.state && (pkt.hdr.op == op_rw)
      then (if pkt.buf_size == 0 then c else sent_data (send_bytes sink gr m pkt c))
      else control now pkt c.state c

  unfoldable pub send_pkt : M → ℕ → VsockPacket → VsockConnection S → VsockConnection S
  send_pkt m now pkt c =
      dispatch m now pkt
        (record c { peer_buf_alloc = pkt.hdr.buf_alloc; peer_fwd_cnt = pkt.hdr.fwd_cnt })
