-- ===== src/Vsock/Connection/Recv.antt =====
-- `VsockConnection::recv_pkt`, src/devices/src/virtio/vsock/csm/connection.rs: a packet for the guest.
use firecracker.Base.{
  ℕ, zero, suc, ◌+◌, min, Bool, true, false, not, ◌&&◌, Option, none, some, if◌then◌else◌, u32,
  Result, ok, err,
}
use firecracker.Vsock.TxBuf.{would_block, other}
use firecracker.Vsock.Packet.{
  io_error, invalid_access, VsockError, guest_memory_mmap, guest_memory_bounds, invalid_pkt_len,
  buf_desc_too_small, buf_desc_missing, hdr_desc_too_small, unreadable_descriptor,
  unwritable_descriptor, no_data, pkt_buf_missing, VsockPacket, GuestRegions, Source, set_op,
  set_len, set_flag, read_at_offset_from,
}
use firecracker.Vsock.PendingRx.{
  PendingRx, request, response, rst, rw_data, credit_update, contains, without,
}
use firecracker.Vsock.Connection.{
  ConnState, local_init, peer_init, established, local_closed, peer_closed, killed, VsockConnection,
  has_pending_rx, peer_avail_credit, need_credit_update_from_peer, init_pkt,
  conn_request_timeout_ms, conn_shutdown_timeout_ms, op_request, op_response, op_rst, op_shutdown,
  op_rw, op_credit_update, op_credit_request, flags_shutdown_rcv, flags_shutdown_send,
}

-- `Established | PeerClosed(false, _)`: the guest may receive.
unfoldable pub peer_can_recv : ConnState → Bool
peer_can_recv local_init = false
peer_can_recv peer_init = false
peer_can_recv established = true
peer_can_recv local_closed = false
peer_can_recv (peer_closed recv_off send_off) = not recv_off
peer_can_recv killed = false

-- A packet that is filled in, or `NoData`; the memory and the connection.
pub record Received (S M : Type 0) : Type 0 where
  pub packet : Option VsockPacket
  pub mem : M
  pub conn : VsockConnection S

-- The packet and the connection after a read of `n` bytes.
unfoldable pub read_pkt : VsockPacket → ℕ → VsockPacket
read_pkt pkt zero =
    set_flag flags_shutdown_send (set_flag flags_shutdown_rcv (set_op op_shutdown pkt))
read_pkt pkt (suc n) = set_len (u32 (suc n)) (set_op op_rw pkt)

module _ {S : Type 0} where
  unfoldable pub take_pending : PendingRx → VsockConnection S → VsockConnection S
  take_pending it c = record c { pending_rx = without it c.pending_rx }

  unfoldable pub read_conn : ℕ → ℕ → VsockConnection S → VsockConnection S
  read_conn now zero c = record c {
    state = local_closed;
    expiry = some (now + conn_shutdown_timeout_ms);
  }
  read_conn now (suc n) c = c

module _ {S M : Type 0} where
  abbrev pub yields : VsockPacket → M → VsockConnection S → Received S M
  yields pkt m c = record { packet = some pkt; mem = m; conn = c }

  -- The last check, for a credit update.
  unfoldable pub yield_credit : VsockPacket → M → VsockConnection S → Received S M
  yield_credit pkt m c =
      let c' = take_pending credit_update c in
      if contains credit_update c.pending_rx && not (has_pending_rx c')
      then yields (set_op op_credit_update pkt) m (record c' { last_fwd_cnt_to_peer = c'.fwd_cnt })
      else record { packet = none; mem = m; conn = c' }

  unfoldable pub data_read : ℕ → VsockPacket → M → VsockConnection S → ℕ → Received S M
  data_read now pkt m c n =
      let pkt' = read_pkt pkt n in
      let c' = read_conn now n c in
      yields pkt' m
        (record c' { rx_cnt = u32 (c'.rx_cnt + pkt'.hdr.len); last_fwd_cnt_to_peer = c'.fwd_cnt })

  unfoldable pub read_failed : VsockPacket → M → VsockConnection S → Received S M
  read_failed pkt m c = yields (set_op op_rst pkt) m (record c { last_fwd_cnt_to_peer = c.fwd_cnt })

  -- What follows the read: `WouldBlock` goes on to the last check.
  unfoldable pub after_read :
      ℕ → VsockPacket → M → VsockConnection S → Result VsockError ℕ → Received S M
  after_read now pkt m c (ok n) = data_read now pkt m c n
  after_read now pkt m c (err (guest_memory_mmap (io_error would_block))) = yield_credit pkt m c
  after_read now pkt m c (err (guest_memory_mmap (io_error other))) = read_failed pkt m c
  after_read now pkt m c (err (guest_memory_mmap invalid_access)) = read_failed pkt m c
  after_read now pkt m c (err guest_memory_bounds) = read_failed pkt m c
  after_read now pkt m c (err (invalid_pkt_len n)) = read_failed pkt m c
  after_read now pkt m c (err no_data) = read_failed pkt m c
  after_read now pkt m c (err buf_desc_too_small) = read_failed pkt m c
  after_read now pkt m c (err buf_desc_missing) = read_failed pkt m c
  after_read now pkt m c (err (hdr_desc_too_small n)) = read_failed pkt m c
  after_read now pkt m c (err unreadable_descriptor) = read_failed pkt m c
  after_read now pkt m c (err unwritable_descriptor) = read_failed pkt m c
  after_read now pkt m c (err pkt_buf_missing) = read_failed pkt m c

module _ {S M R : Type 0} (source : Source S) (gr : GuestRegions M R) where
  unfoldable pub read_stream : ℕ → VsockPacket → M → VsockConnection S → Received S M
  read_stream now pkt m c =
      let max_len = min pkt.buf_size (peer_avail_credit c) in
      let (r, t) = read_at_offset_from gr pkt m 0 source max_len c.stream in
      after_read now pkt t.0 (record c { stream = t.1 }) r

  unfoldable pub yield_data : ℕ → VsockPacket → M → VsockConnection S → Received S M
  yield_data now pkt m c =
      if peer_can_recv c.state
      then (if need_credit_update_from_peer c
          then yields (set_op op_credit_request pkt) m
              (record c { last_fwd_cnt_to_peer = c.fwd_cnt })
          else read_stream now pkt m c)
      else yields (set_op op_rst pkt) m c

  -- The indications, in the order of the checks.
  unfoldable pub yield_first : ℕ → VsockPacket → M → VsockConnection S → Received S M
  yield_first now pkt m c =
      if contains rst c.pending_rx
      then yields (set_op op_rst pkt) m (take_pending rst c)
      else (if contains response c.pending_rx
          then yields (set_op op_response pkt) m
              (record (take_pending response c) { state = established })
          else (if contains request c.pending_rx
              then yields (set_op op_request pkt) m (record (take_pending request c) {
                expiry = some (now + conn_request_timeout_ms);
              })
              else (if contains rw_data c.pending_rx
                  then yield_data now pkt m (take_pending rw_data c)
                  else yield_credit pkt m c)))

  unfoldable pub recv_pkt : ℕ → VsockPacket → M → VsockConnection S → Received S M
  recv_pkt now pkt m c = yield_first now (init_pkt c pkt) m c
