-- ===== src/Vsock/Muxer/Calls.antt =====
-- The calls that the muxer makes of a `VsockConnection`,
-- src/devices/src/virtio/vsock/csm/connection.rs.
use firecracker.Base.{ℕ, ◌+◌, refl, ◌&&◌, Option, none, some, ◌==◌, if-keeps, Result, ok, err, u32}
use firecracker.Vsock.TxBuf.{len, Sink, Flushed, unwrap_or_zero}
use firecracker.Vsock.Packet.{VsockError, VsockPacket, GuestRegions, write_from_offset_to}
use firecracker.Vsock.PendingRx.{rw_data, index}
use firecracker.Vsock.Connection.{VsockConnection, op_rw}
use firecracker.Vsock.Connection.Transfer.{
  Sent, done, failed, buffer_rest, after_stream, send_bytes, written_or_err,
}
use firecracker.Vsock.Connection.Send.{
  sched_rst, sched_credit, sent_data, shut, shut_more, control, dispatch, peer_can_send, has_flag,
}
use firecracker.Vsock.Connection.Send
use firecracker.Vsock.Connection.Notify.{
  EventSet, flush_result, after_flush, notify_in, notify_out, notify,
}
use firecracker.Base.{ltb}
use firecracker.Vsock.Muxer.Sound.{
  IsSound, Pends-insert, sent_data-IsSound, buffered-IsSound, control-IsSound, flush_result-IsSound,
  drained-IsSound,
}

module _ {S M R : Type 0} (sink : Sink S) (gr : GuestRegions M R) (m : M) (pkt : VsockPacket) where
  buffer_rest-IsSound :
      (c : VsockConnection S) (written : ℕ)
      → IsSound c
      → IsSound (sent_data (buffer_rest sink gr m pkt c written))
  unfolding buffer_rest
  buffer_rest-IsSound c written h =
      let c' = record c { fwd_cnt = u32 (c.fwd_cnt + u32 written) } in
      if-keeps (λ (r : Sent × VsockConnection S). IsSound (sent_data r)) (ltb written pkt.hdr.len)
        (buffered-IsSound c' _ h) (sent_data-IsSound done c' h)

  after_stream-IsSound :
      (c : VsockConnection S) (r : Result VsockError ℕ)
      → IsSound c
      → IsSound (sent_data (after_stream sink gr m pkt c r))
  unfolding after_stream
  after_stream-IsSound c (ok written) h = buffer_rest-IsSound c written h
  after_stream-IsSound c (err e) h = sent_data-IsSound (failed e) c h

  send_bytes-IsSound :
      (c : VsockConnection S) → IsSound c → IsSound (sent_data (send_bytes sink gr m pkt c))
  unfolding send_bytes
  send_bytes-IsSound c h =
      let t = write_from_offset_to gr pkt m 0 sink pkt.hdr.len c.stream in
      if-keeps (λ (r : Sent × VsockConnection S). IsSound (sent_data r)) (len c.tx_buf == 0)
        (after_stream-IsSound (record c { stream = t.1 }) (written_or_err t.0) h)
        (buffered-IsSound c _ h)

  pub send_pkt-IsSound :
      (now : ℕ) (c : VsockConnection S) → IsSound c → IsSound (Send.send_pkt sink gr m now pkt c)
  unfolding Send.send_pkt dispatch
  send_pkt-IsSound now c h =
      let c' = record c { peer_buf_alloc = pkt.hdr.buf_alloc; peer_fwd_cnt = pkt.hdr.fwd_cnt } in
      if-keeps IsSound (peer_can_send c'.state && (pkt.hdr.op == op_rw))
        (if-keeps IsSound (pkt.buf_size == 0) h (send_bytes-IsSound c' h))
        (control-IsSound now pkt c'.state c' h)

module _ {S : Type 0} where
  abbrev pub OnNotified : Option (VsockConnection S) → Type 0
  OnNotified none = Unit
  OnNotified (some c) = IsSound c

module _ {S : Type 0} (sink : Sink S) where
  after_flush-IsSound :
      (c : VsockConnection S) (o : Flushed S) → IsSound c → OnNotified (after_flush c o)
  unfolding after_flush
  after_flush-IsSound c none h = tt
  after_flush-IsSound c (some (r, (b, s))) h =
      let c' = flush_result r (record c { tx_buf = b; stream = s }) in
      drained-IsSound (record c' { fwd_cnt = u32 (c'.fwd_cnt + u32 (unwrap_or_zero r)) })
        (flush_result-IsSound r (record c { tx_buf = b; stream = s }) h)

  notify_in-IsSound :
      (evset : EventSet) (c : VsockConnection S) → IsSound c → IsSound (notify_in evset c)
  unfolding notify_in index
  notify_in-IsSound evset c h =
      if-keeps IsSound evset.readable (Pends-insert rw_data c.state c.pending_rx refl h) h

  pub notify-IsSound :
      (evset : EventSet) (c : VsockConnection S) → IsSound c → OnNotified (notify sink evset c)
  unfolding notify notify_out
  notify-IsSound evset c h =
      let c' = notify_in evset c in
      let h' = notify_in-IsSound evset c h in
      if-keeps OnNotified evset.writable
        (if-keeps OnNotified (len c'.tx_buf == 0) h' (after_flush-IsSound c' _ h')) h'
