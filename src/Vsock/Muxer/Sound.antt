-- ===== src/Vsock/Muxer/Sound.antt =====
-- What the muxer relies on in each `VsockConnection`, src/devices/src/virtio/vsock/csm/connection.rs.
use firecracker.Base.{
  ℕ, suc, zero, ◌≡◌, refl, sym, ◌∙◌, Bool, true, false, not, ◌&&◌, ◌||◌, ◌==◌, if-keeps, Result, ok,
  err, arith,
}
use mathlib.Core.Bool.{true≢false}
use firecracker.Vsock.TxBuf.{
  IoErrorKind, would_block, other, Error, tx_buf_full, tx_buf_flush, stream_write, TxBuf, len,
}
use firecracker.Vsock.Packet.{VsockError, VsockPacket}
use firecracker.Vsock.PendingRx.{
  PendingRx, request, response, rst, credit_update, index, PendingRxSet, insert, contains, without,
  from,
}
use firecracker.Vsock.PendingRx.Items.{
  HasItems, is_same, contains-update, insert-HasItems, without-HasItems, from-HasItems,
}
use firecracker.Vsock.Connection.{
  ConnState, local_init, peer_init, established, local_closed, peer_closed, killed, VsockConnection,
  kill, peer_needs_credit_update, new_peer_init, new_local_init, op_response, op_shutdown,
  op_credit_request, flags_shutdown_rcv, flags_shutdown_send,
}
use firecracker.Vsock.Connection.Transfer.{Sent, done, failed, buffered, raw_sent}
use firecracker.Vsock.Connection.Send.{
  sched_rst, sched_credit, sent_data, shut, shut_more, control, has_flag,
}
use firecracker.Vsock.Connection.Recv.{take_pending, read_conn}
use firecracker.Vsock.Connection.Notify.{is_shut, flush_result, drained}
use firecracker.Vsock.Muxer.Mutation.{is_local_init}

-- Only items are pending, and no response is until the guest has answered a request.
abbrev pub Pends : ConnState → PendingRxSet → Type 0
Pends st p = HasItems p × (is_local_init st ≡ true → contains response p ≡ false)

abbrev pub IsSound : {S : Type 0} → VsockConnection S → Type 0
IsSound c = Pends c.state c.pending_rx

pub Pends-insert :
    (it : PendingRx) (st : ConnState) (p : PendingRxSet)
    → is_same it response ≡ false
    → Pends st p
    → Pends st (insert it p)
Pends-insert it st p ne (items, none_yet) = (
  insert-HasItems it p items,
  λ t. ground (arith, ne, none_yet t, (contains-update it response p).0),
)

Pends-without :
    (it : PendingRx) (st : ConnState) (p : PendingRxSet) → Pends st p → Pends st (without it p)
Pends-without it st p (items, none_yet) = (
  without-HasItems it p items,
  λ t. ground (arith, none_yet t, (contains-update it response p).1),
)

-- Past the request, any items may be pending.
pub Pends-later :
    (st st' : ConnState) (p : PendingRxSet) → is_local_init st' ≡ false → Pends st p → Pends st' p
Pends-later st st' p e (items, none_yet) = (items, λ t. absurd (true≢false (sym t ∙ e)))

module _ {S : Type 0} where
  pub kill-IsSound : (c : VsockConnection S) → IsSound c → IsSound (kill c)
  unfolding kill is_local_init index
  kill-IsSound c h =
      Pends-later c.state killed (insert rst c.pending_rx) refl
        (Pends-insert rst c.state c.pending_rx refl h)

  sched_rst-IsSound : (c : VsockConnection S) → IsSound c → IsSound (sched_rst c)
  unfolding sched_rst index
  sched_rst-IsSound c h = Pends-insert rst c.state c.pending_rx refl h

  sched_credit-IsSound : (c : VsockConnection S) → IsSound c → IsSound (sched_credit c)
  unfolding sched_credit index
  sched_credit-IsSound c h = Pends-insert credit_update c.state c.pending_rx refl h

  pub take_pending-IsSound :
      (it : PendingRx) (c : VsockConnection S) → IsSound c → IsSound (take_pending it c)
  unfolding take_pending
  take_pending-IsSound it c h = Pends-without it c.state c.pending_rx h

  pub new_peer_init-IsSound :
      (stream : S) (local_cid peer_cid local_port peer_port peer_buf_alloc : ℕ)
      → IsSound (new_peer_init stream local_cid peer_cid local_port peer_port peer_buf_alloc)
  unfolding new_peer_init is_local_init
  new_peer_init-IsSound stream a b d e f =
      (from-HasItems response, λ t. absurd (true≢false (sym t)))

  pub new_local_init-IsSound :
      (stream : S) (local_cid peer_cid local_port peer_port : ℕ)
      → IsSound (new_local_init stream local_cid peer_cid local_port peer_port)
  unfolding new_local_init from contains index
  new_local_init-IsSound stream a b d e = (from-HasItems request, λ t. refl)

  -- The operations that send.
  pub sent_data-IsSound :
      (sent : Sent) (c : VsockConnection S) → IsSound c → IsSound (sent_data (sent, c))
  unfolding sent_data
  sent_data-IsSound (failed e) c h = kill-IsSound c h
  sent_data-IsSound done c h =
      if-keeps IsSound (peer_needs_credit_update c) (sched_credit-IsSound c h) h

  pub buffered-IsSound :
      (c : VsockConnection S) (r : Result VsockError ℕ × TxBuf)
      → IsSound c
      → IsSound (sent_data (buffered c r))
  unfolding buffered
  buffered-IsSound c (ok n, b) h = sent_data-IsSound done (record c { tx_buf = b }) h
  buffered-IsSound c (err e, b) h = sent_data-IsSound (failed e) (record c { tx_buf = b }) h

  pub raw_sent-IsSound :
      (c : VsockConnection S) (r : Result IoErrorKind ℕ × S) → IsSound c → IsSound (raw_sent c r).1
  unfolding raw_sent
  raw_sent-IsSound c (ok n, s) h = h
  raw_sent-IsSound c (err e, s) h = h

  shut-IsSound :
      (now : ℕ) (recv_off send_off : Bool) (c : VsockConnection S)
      → IsSound c
      → IsSound (shut now recv_off send_off c)
  unfolding shut is_local_init
  shut-IsSound now recv_off send_off c h =
      let c' = record c { state = peer_closed recv_off send_off } in
      let h' = Pends-later c.state (peer_closed recv_off send_off) c.pending_rx refl h in
      if-keeps IsSound (recv_off && send_off)
        (if-keeps IsSound (len c.tx_buf == 0) (sched_rst-IsSound c' h') h') h'

  shut_more-IsSound :
      (recv_off send_off : Bool) (c : VsockConnection S)
      → IsSound c
      → IsSound (shut_more recv_off send_off c)
  unfolding shut_more is_local_init
  shut_more-IsSound recv_off send_off c h =
      let c' = record c { state = peer_closed recv_off send_off } in
      let h' = Pends-later c.state (peer_closed recv_off send_off) c.pending_rx refl h in
      if-keeps IsSound ((recv_off && send_off) && (len c.tx_buf == 0)) (sched_rst-IsSound c' h') h'

  pub control-IsSound :
      (now : ℕ) (pkt : VsockPacket) (st : ConnState) (c : VsockConnection S)
      → IsSound c
      → IsSound (control now pkt st c)
  unfolding control is_local_init
  control-IsSound now pkt local_init c h =
      if-keeps IsSound (pkt.hdr.op == op_response)
        (Pends-later c.state established c.pending_rx refl h) h
  control-IsSound now pkt peer_init c h =
      if-keeps IsSound (pkt.hdr.op == op_credit_request) (sched_credit-IsSound c h) h
  control-IsSound now pkt established c h =
      if-keeps IsSound (pkt.hdr.op == op_shutdown)
        (shut-IsSound now (has_flag flags_shutdown_rcv pkt) (has_flag flags_shutdown_send pkt) c h)
        (if-keeps IsSound (pkt.hdr.op == op_credit_request) (sched_credit-IsSound c h) h)
  control-IsSound now pkt local_closed c h = h
  control-IsSound now pkt (peer_closed recv_off send_off) c h =
      if-keeps IsSound (pkt.hdr.op == op_shutdown)
        (shut_more-IsSound (recv_off || has_flag flags_shutdown_rcv pkt)
          (send_off || has_flag flags_shutdown_send pkt) c h)
        (if-keeps IsSound ((pkt.hdr.op == op_credit_request) && not send_off)
          (sched_credit-IsSound c h) h)
  control-IsSound now pkt killed c h = h

  -- The operations that receive.
  pub read_conn-IsSound :
      (now n : ℕ) (c : VsockConnection S) → IsSound c → IsSound (read_conn now n c)
  unfolding read_conn is_local_init
  read_conn-IsSound now zero c h = Pends-later c.state local_closed c.pending_rx refl h
  read_conn-IsSound now (suc n) c h = h

  -- The operations that handle an event.
  pub flush_result-IsSound :
      (r : Result Error ℕ) (c : VsockConnection S) → IsSound c → IsSound (flush_result r c)
  unfolding flush_result
  flush_result-IsSound (ok n) c h = h
  flush_result-IsSound (err (tx_buf_flush would_block)) c h = h
  flush_result-IsSound (err (tx_buf_flush other)) c h = kill-IsSound c h
  flush_result-IsSound (err tx_buf_full) c h = kill-IsSound c h
  flush_result-IsSound (err (stream_write kind)) c h = kill-IsSound c h

  pub drained-IsSound : (c : VsockConnection S) → IsSound c → IsSound (drained c)
  unfolding drained
  drained-IsSound c h =
      if-keeps IsSound (is_shut c.state && (len c.tx_buf == 0)) (sched_rst-IsSound c h)
        (if-keeps IsSound (peer_needs_credit_update c) (sched_credit-IsSound c h) h)
