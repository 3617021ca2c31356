-- ===== src/Vsock/Connection/Notify.antt =====
-- `VsockEpollListener` of a connection, src/devices/src/virtio/vsock/csm/connection.rs.
use firecracker.Base.{
  ℕ, ◌+◌, Bool, true, false, not, ◌&&◌, Option, none, some, ◌==◌, if◌then◌else◌, u32, Result, ok,
  err,
}
use firecracker.Vsock.TxBuf.{
  would_block, other, Error, tx_buf_full, tx_buf_flush, stream_write, len, Sink, Flushed,
  unwrap_or_zero, flush_to,
}
use firecracker.Vsock.PendingRx.{insert, rw_data}
use firecracker.Vsock.Connection.{
  ConnState, local_init, peer_init, established, local_closed, peer_closed, killed, VsockConnection,
  kill, peer_needs_credit_update, need_credit_update_from_peer,
}
use firecracker.Vsock.Connection.Send.{sched_rst, sched_credit}

-- `EventSet::IN` and `EventSet::OUT`.
pub record EventSet : Type 0 where
  pub readable : Bool
  pub writable : Bool

unfoldable pub cannot_send_to_peer : ConnState → Bool
cannot_send_to_peer local_init = false
cannot_send_to_peer peer_init = false
cannot_send_to_peer established = false
cannot_send_to_peer local_closed = true
cannot_send_to_peer (peer_closed recv_off send_off) = recv_off
cannot_send_to_peer killed = true

unfoldable pub is_shut : ConnState → Bool
is_shut local_init = false
is_shut peer_init = false
is_shut established = false
is_shut local_closed = false
is_shut (peer_closed recv_off send_off) = recv_off && send_off
is_shut killed = false

module _ {S : Type 0} where
  unfoldable pub get_polled_evset : VsockConnection S → EventSet
  get_polled_evset c = record {
    readable = not (cannot_send_to_peer c.state) && not (need_credit_update_from_peer c);
    writable = not (len c.tx_buf == 0);
  }

  -- An error of the flush, where `WouldBlock` is absorbed.
  unfoldable pub flush_result : Result Error ℕ → VsockConnection S → VsockConnection S
  flush_result (ok n) c = c
  flush_result (err (tx_buf_flush would_block)) c = c
  flush_result (err (tx_buf_flush other)) c = kill c
  flush_result (err tx_buf_full) c = kill c
  flush_result (err (stream_write kind)) c = kill c

  unfoldable pub drained : VsockConnection S → VsockConnection S
  drained c =
      if is_shut c.state && (len c.tx_buf == 0)
      then sched_rst c
      else (if peer_needs_credit_update c then sched_credit c else c)

  unfoldable pub after_flush : VsockConnection S → Flushed S → Option (VsockConnection S)
  after_flush c none = none
  after_flush c (some (r, (b, s))) =
      let c' = flush_result r (record c { tx_buf = b; stream = s }) in
      some (drained (record c' { fwd_cnt = u32 (c'.fwd_cnt + u32 (unwrap_or_zero r)) }))

  unfoldable pub notify_in : EventSet → VsockConnection S → VsockConnection S
  notify_in evset c =
      if evset.readable then record c { pending_rx = insert rw_data c.pending_rx } else c

module _ {S : Type 0} (sink : Sink S) where
  unfoldable pub notify_out : VsockConnection S → Option (VsockConnection S)
  notify_out c =
      if len c.tx_buf == 0 then some c else after_flush c (flush_to sink 3 c.tx_buf c.stream)

  -- `none` where the flush panics.
  unfoldable pub notify : EventSet → VsockConnection S → Option (VsockConnection S)
  notify evset c = let c' = notify_in evset c in if evset.writable then notify_out c' else some c'
