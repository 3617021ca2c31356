-- ===== src/Vsock/Connection/Receives.antt =====
-- `VsockConnection::recv_pkt`, src/devices/src/virtio/vsock/csm/connection.rs: data for the room of the
-- guest, and a packet for each indication.
use firecracker.Base.{
  ℕ, zero, suc, ◌^◌, ◌≤◌, ◌<◌, ◌≡◌, ◌⊎◌, inl, inr, refl, ap, true, false, not, ◌&&◌, Result, ok,
  err, if-split, arith,
}
use mathlib.Core.Path.{subst}
use firecracker.Vsock.TxBuf.{would_block, other}
use firecracker.Vsock.Packet.{
  io_error, invalid_access, VsockError, guest_memory_mmap, guest_memory_bounds, invalid_pkt_len,
  buf_desc_too_small, buf_desc_missing, hdr_desc_too_small, unreadable_descriptor,
  unwritable_descriptor, no_data, pkt_buf_missing, VsockPacket, GuestRegions, Source, set_op,
  set_len, set_flag, read_at_offset_from,
}
use firecracker.Vsock.Packet.Buffer.{IsReader, OnRead, read, read_at_offset_from-OnRead}
use firecracker.Vsock.PendingRx.{
  PendingRx, request, response, rst, rw_data, credit_update, contains, without, is_empty,
}
use firecracker.Vsock.PendingRx.Items.{without-HasItems, no_items-empty, contains-update}
use firecracker.Vsock.Connection.{
  VsockConnection, has_pending_rx, peer_avail_credit, need_credit_update_from_peer, init_pkt,
}
use firecracker.Vsock.Connection.Recv.{
  peer_can_recv, Received, take_pending, yield_credit, read_pkt, read_conn, data_read, read_failed,
  after_read, read_stream, yield_data, yield_first, recv_pkt,
}
use firecracker.Vsock.Connection.Offers.{
  room, IsCounted, max_len, resets, responds, requests, refuses, asks, closes, updates, IsBlocked,
  OnRecv, sent_data, sent_control, nothing,
}

module _ {S M R : Type 0} (source : Source S) (gr : GuestRegions M R) (law : IsReader gr source)
    (pkt : VsockPacket) (empty_pkt : pkt.hdr.len ≡ 0) (m : M) (now : ℕ) (c : VsockConnection S)
    (v : IsCounted c) where
  abbrev Good : Received S M → Type 0
  Good = OnRecv source gr pkt m c

  abbrev filled : VsockPacket
  filled = init_pkt c pkt

  abbrev reading : VsockConnection S
  reading = take_pending rw_data c

  avail-room : peer_avail_credit c ≡ room c
  unfolding peer_avail_credit
  avail-room = ground (arith, v.buf_alloc_bound, v.rx_cnt_bound, v.fwd_cnt_bound)

  avail_bound : room c < 2 ^ 32
  avail_bound = ground (arith, v.buf_alloc_bound, v.rx_cnt_bound, v.fwd_cnt_bound)

  data_read-OnRecv :
      (k : ℕ) (m' : M) (s : S)
      → k ≤ max_len source gr pkt m c
      → contains rw_data c.pending_rx ≡ true
      → peer_can_recv c.state ≡ true
      → Good (data_read now filled m' (record reading { stream = s }) k)
  unfolding data_read read_pkt read_conn set_op set_len set_flag take_pending init_pkt
  data_read-OnRecv zero m' s le pending can_recv =
      sent_control refl (closes pending can_recv) (λ e. absurd (omega (arith, e)))
        (omega (arith, empty_pkt, v.rx_cnt_bound)) refl
  data_read-OnRecv (suc k) m' s le pending can_recv =
      sent_data refl refl (omega (arith, le, avail_bound)) (omega arith) can_recv refl refl

  failed-OnRecv :
      (m' : M) (s : S)
      → contains rw_data c.pending_rx ≡ true
      → Good (read_failed filled m' (record reading { stream = s }))
  unfolding read_failed set_op take_pending
  failed-OnRecv m' s pending =
      sent_control refl (refuses pending) (λ e. absurd (omega (arith, e))) refl refl

  no_room : need_credit_update_from_peer reading ≡ true → room c ≡ 0
  unfolding need_credit_update_from_peer peer_avail_credit take_pending
  no_room e = ground (arith, e, avail-room)

  -- A credit update that is pending after the read was pending before.
  was_pending :
      (c' : VsockConnection S)
      → c'.pending_rx ≡ without rw_data c.pending_rx ⊎ (c'.pending_rx ≡ c.pending_rx)
      → contains credit_update c'.pending_rx ≡ true
      → contains credit_update c.pending_rx ≡ true
  was_pending c' (inl w) e =
      let h : contains credit_update (without rw_data c.pending_rx) ≡ true =
        subst (λ s. contains credit_update s ≡ true) w e in
      ground (arith, h, (contains-update rw_data credit_update c.pending_rx).1)
  was_pending c' (inr w) e = subst (λ s. contains credit_update s ≡ true) w e

  -- The last check yields a packet, or there is a reason that it does not.
  yield_credit-OnRecv :
      (m' : M) (c' : VsockConnection S)
      → c'.rx_cnt ≡ c.rx_cnt
      → c'.peer_fwd_cnt ≡ c.peer_fwd_cnt
      → c'.pending_rx ≡ without rw_data c.pending_rx ⊎ (c'.pending_rx ≡ c.pending_rx)
      → ((contains credit_update c'.pending_rx
              && not (has_pending_rx (take_pending credit_update c')))
            ≡ false
          → IsBlocked source gr pkt m c ⊎ (has_pending_rx c ≡ false))
      → Good (yield_credit filled m' c')
  unfolding yield_credit set_op take_pending
  yield_credit-OnRecv m' c' same same_fwd was why =
      if-split Good
        (contains credit_update c'.pending_rx
          && not (has_pending_rx (take_pending credit_update c')))
        (λ t.
          sent_control refl (updates (was_pending c' was (ground (arith, t))))
            (λ e. absurd (omega (arith, e))) same same_fwd)
        (λ t. nothing refl same same_fwd (why t))

  after_read-OnRecv :
      (r : Result VsockError ℕ) (t : M × S)
      → OnRead (max_len source gr pkt m c) (r, t)
      → read_at_offset_from gr filled m 0 source (max_len source gr pkt m c) c.stream ≡ (r, t)
      → contains rw_data c.pending_rx ≡ true
      → peer_can_recv c.state ≡ true
      → Good (after_read now filled t.0 (record reading { stream = t.1 }) r)
  unfolding after_read take_pending
  after_read-OnRecv (ok k) t (read le) e rw can_recv = data_read-OnRecv k t.0 t.1 le rw can_recv
  after_read-OnRecv (err (guest_memory_mmap (io_error would_block))) t h e rw can_recv =
      yield_credit-OnRecv t.0 (record reading { stream = t.1 }) refl refl (inl refl)
        (λ _. inl (record { has_rw = rw; state = t; blocked = e }))
  after_read-OnRecv (err (guest_memory_mmap (io_error other))) t h e rw can_recv =
      failed-OnRecv t.0 t.1 rw
  after_read-OnRecv (err (guest_memory_mmap invalid_access)) t h e rw can_recv =
      failed-OnRecv t.0 t.1 rw
  after_read-OnRecv (err guest_memory_bounds) t h e rw can_recv = failed-OnRecv t.0 t.1 rw
  after_read-OnRecv (err (invalid_pkt_len n)) t h e rw can_recv = failed-OnRecv t.0 t.1 rw
  after_read-OnRecv (err no_data) t h e rw can_recv = failed-OnRecv t.0 t.1 rw
  after_read-OnRecv (err buf_desc_too_small) t h e rw can_recv = failed-OnRecv t.0 t.1 rw
  after_read-OnRecv (err buf_desc_missing) t h e rw can_recv = failed-OnRecv t.0 t.1 rw
  after_read-OnRecv (err (hdr_desc_too_small n)) t h e rw can_recv = failed-OnRecv t.0 t.1 rw
  after_read-OnRecv (err unreadable_descriptor) t h e rw can_recv = failed-OnRecv t.0 t.1 rw
  after_read-OnRecv (err unwritable_descriptor) t h e rw can_recv = failed-OnRecv t.0 t.1 rw
  after_read-OnRecv (err pkt_buf_missing) t h e rw can_recv = failed-OnRecv t.0 t.1 rw

  yield_data-OnRecv :
      contains rw_data c.pending_rx ≡ true → Good (yield_data source gr now filled m reading)
  unfolding yield_data read_stream set_op take_pending peer_avail_credit init_pkt
  yield_data-OnRecv rw_pending =
      if-split Good (peer_can_recv c.state)
        (λ can_recv.
          if-split Good (need_credit_update_from_peer reading)
            (λ none_left.
              sent_control refl (asks rw_pending can_recv (no_room none_left))
                (λ e. absurd (omega (arith, e))) refl refl)
            (λ _. rw avail-room (
              after_read-OnRecv _ _
                (read_at_offset_from-OnRead gr source law filled m 0 (max_len source gr pkt m c)
                  c.stream)
                refl rw_pending can_recv)))
        (λ _. sent_control refl (refuses rw_pending) (λ e. absurd (omega (arith, e))) refl refl)

  -- Where no other indication is pending, a credit update is the last.
  only_credit :
      contains rst c.pending_rx ≡ false
      → contains response c.pending_rx ≡ false
      → contains request c.pending_rx ≡ false
      → contains rw_data c.pending_rx ≡ false
      → (contains credit_update c.pending_rx && not (has_pending_rx (take_pending credit_update c)))
        ≡ false
      → has_pending_rx c ≡ false
  unfolding has_pending_rx take_pending
  only_credit no_rst no_response no_request no_rw t =
      let s = c.pending_rx in
      let rest = without credit_update s in
      let rest_empty : is_empty rest ≡ true =
        no_items-empty rest (without-HasItems credit_update s v.items) gone in
      ap not (no_items-empty s v.items (present (ground (arith, t, rest_empty))))
    where
      gone : (it : PendingRx) → contains it (without credit_update c.pending_rx) ≡ false
      gone request =
          ground (arith, no_request, (contains-update credit_update request c.pending_rx).1)
      gone response =
          ground (arith, no_response, (contains-update credit_update response c.pending_rx).1)
      gone rst = ground (arith, no_rst, (contains-update credit_update rst c.pending_rx).1)
      gone rw_data = ground (arith, no_rw, (contains-update credit_update rw_data c.pending_rx).1)
      gone credit_update =
          ground (arith, (contains-update credit_update credit_update c.pending_rx).1)

      present :
          contains credit_update c.pending_rx ≡ false
          → (it : PendingRx) → contains it c.pending_rx ≡ false
      present no_credit request = no_request
      present no_credit response = no_response
      present no_credit rst = no_rst
      present no_credit rw_data = no_rw
      present no_credit credit_update = no_credit

  -- For a packet with an empty header and a connection whose counters are words, `recv_pkt` fills in
  -- a packet, unless nothing is pending or the stream would block on the read that is due. A packet
  -- of data has some bytes, at most the size of the buffer; and no more than is free of the guest's
  -- buffer, or, where the guest has made that smaller than what is in flight, than the difference of
  -- 32-bit words, which wraps around. It goes to a guest that still receives, and is counted as sent.
  -- Any other packet is for an indication that was pending, and is not counted.
  pub recv_pkt-OnRecv : Good (recv_pkt source gr now pkt m c)
  unfolding recv_pkt yield_first set_op take_pending
  recv_pkt-OnRecv =
      if-split Good (contains rst c.pending_rx)
        (λ is_rst. sent_control refl (resets is_rst) (λ e. absurd (omega (arith, e))) refl refl)
        (λ no_rst.
          if-split Good (contains response c.pending_rx)
            (λ is_response.
              sent_control refl (responds no_rst is_response) (λ e. absurd (omega (arith, e))) refl
                refl)
            (λ no_response.
              if-split Good (contains request c.pending_rx)
                (λ is_request.
                  sent_control refl (requests no_response is_request)
                    (λ e. absurd (omega (arith, e))) refl refl)
                (λ no_request.
                  if-split Good (contains rw_data c.pending_rx) yield_data-OnRecv (λ no_rw.
                    yield_credit-OnRecv m c refl refl (inr refl)
                      (λ t. inr (only_credit no_rst no_response no_request no_rw t))))))
