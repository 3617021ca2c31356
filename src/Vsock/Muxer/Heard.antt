-- ===== src/Vsock/Muxer/Heard.antt =====
-- `VsockConnection::recv_pkt`, src/devices/src/virtio/vsock/csm/connection.rs, as the muxer calls it.
use firecracker.Base.{
  ℕ, suc, zero, ◌+◌, ◌≡◌, refl, sym, ◌∙◌, true, false, not, ◌&&◌, none, some, if-keeps, if-split,
  Result, ok, err, arith, min, u32,
}
use mathlib.Core.Bool.{true≢false}
use firecracker.Vsock.TxBuf.{would_block, other}
use firecracker.Vsock.Packet.{
  io_error, invalid_access, VsockError, guest_memory_mmap, guest_memory_bounds, invalid_pkt_len,
  buf_desc_too_small, buf_desc_missing, hdr_desc_too_small, unreadable_descriptor,
  unwritable_descriptor, no_data, pkt_buf_missing, VsockPacket, GuestRegions, Source,
  read_at_offset_from,
}
use firecracker.Vsock.PendingRx.{
  PendingRx, request, response, rst, rw_data, credit_update, index, PendingRxSet, contains, without,
}
use firecracker.Vsock.PendingRx.Items.{contains-update}
use firecracker.Vsock.Connection.{
  ConnState, local_init, peer_init, established, local_closed, peer_closed, killed, VsockConnection,
  need_credit_update_from_peer, peer_avail_credit,
}
use firecracker.Vsock.Connection.Recv.{
  Received, take_pending, yield_credit, read_pkt, read_conn, data_read, read_failed, after_read,
  read_stream, yield_data, yield_first, peer_can_recv,
}
use firecracker.Vsock.Connection.Recv
use firecracker.Vsock.PendingRx.{is_empty}
use firecracker.Vsock.PendingRx.Items.{no_items-empty}
use firecracker.Vsock.Connection.{has_pending_rx}
use firecracker.Base.{ap}
use firecracker.Vsock.Muxer.Mutation.{is_local_init, is_established}
use firecracker.Vsock.Muxer.Sound.{IsSound, Pends-later, read_conn-IsSound, take_pending-IsSound}
use mathlib.Core.Option.{none-ne-some}

-- What `recv_pkt` leaves of the connection `c`: without a packet it has nothing pending, and had no
-- reset pending; and it is not established by it.
pub record IsHeard {S M : Type 0} (c : VsockConnection S) (r : Received S M) : Type 0 where
  pub sound : IsSound r.conn
  pub silent :
      r.packet ≡ none → (has_pending_rx r.conn ≡ false) × (contains rst c.pending_rx ≡ false)
  pub waits : is_local_init c.state ≡ true → is_established r.conn.state ≡ false

is_local_init-lem : (st : ConnState) → is_local_init st ≡ true → is_established st ≡ false
unfolding is_local_init is_established
is_local_init-lem local_init e = refl
is_local_init-lem peer_init e = refl
is_local_init-lem established e = sym e
is_local_init-lem local_closed e = refl
is_local_init-lem (peer_closed recv_off send_off) e = refl
is_local_init-lem killed e = refl

-- Nothing is pending but a credit update.
abbrev Bare : PendingRxSet → Type 0
Bare p =
    (contains rst p ≡ false)
    × ((contains response p ≡ false)
        × ((contains request p ≡ false) × (contains rw_data p ≡ false)))

Bare-without :
    (p : PendingRxSet) → Bare p → (it : PendingRx) → contains it (without credit_update p) ≡ false
unfolding index
Bare-without p (b, (d, (e, f))) request =
    ground (arith, e, (contains-update credit_update request p).1)
Bare-without p (b, (d, (e, f))) response =
    ground (arith, d, (contains-update credit_update response p).1)
Bare-without p (b, (d, (e, f))) rst = ground (arith, b, (contains-update credit_update rst p).1)
Bare-without p (b, (d, (e, f))) rw_data =
    ground (arith, f, (contains-update credit_update rw_data p).1)
Bare-without p b credit_update = ground (arith, (contains-update credit_update credit_update p).1)

-- Once the data is taken, too.
Bare-data :
    (p : PendingRxSet)
    → contains rst p ≡ false
    → contains response p ≡ false
    → contains request p ≡ false
    → Bare (without rw_data p)
unfolding index
Bare-data p b d e = (
  ground (arith, b, (contains-update rw_data rst p).1),
  (
    ground (arith, d, (contains-update rw_data response p).1),
    (
      ground (arith, e, (contains-update rw_data request p).1),
      ground (arith, (contains-update rw_data rw_data p).1),
    ),
  ),
)

module _ {S M R : Type 0} (source : Source S) (gr : GuestRegions M R) (now : ℕ)
    (c : VsockConnection S) (h : IsSound c) where
  abbrev Heard : Received S M → Type 0
  Heard = IsHeard c

  abbrev Waits : VsockConnection S → Type 0
  Waits c' = is_local_init c.state ≡ true → is_established c'.state ≡ false

  -- A packet.
  packet-IsHeard :
      (p : VsockPacket) (m : M) (c' : VsockConnection S)
      → IsSound c'
      → Waits c'
      → Heard (record { packet = some p; mem = m; conn = c' })
  packet-IsHeard p m c' s w = record {
    sound = s;
    silent = λ e. absurd (none-ne-some p (sym e));
    waits = w;
  }

  yield_credit-IsHeard :
      (p : VsockPacket) (m : M) (c' : VsockConnection S)
      → contains rst c.pending_rx ≡ false
      → IsSound c'
      → Waits c'
      → Bare c'.pending_rx
      → Heard (yield_credit p m c')
  unfolding yield_credit take_pending has_pending_rx
  yield_credit-IsHeard p m c' no_rst s w b =
      let gone = Bare-without c'.pending_rx b in
      let s' = take_pending-IsSound credit_update c' s in
      if-keeps Heard
        (contains credit_update c'.pending_rx
          && not (not (is_empty (without credit_update c'.pending_rx))))
        (packet-IsHeard _ m
          (record c' {
            pending_rx = without credit_update c'.pending_rx;
            last_fwd_cnt_to_peer = c'.fwd_cnt;
          })
          s' w)
        (record {
          sound = s';
          silent = λ _.
              (ap not (no_items-empty (without credit_update c'.pending_rx) s'.0 gone), no_rst);
          waits = w;
        })

  read_conn-Waits : (n : ℕ) (c' : VsockConnection S) → Waits c' → Waits (read_conn now n c')
  unfolding read_conn is_established
  read_conn-Waits zero c' w t = refl
  read_conn-Waits (suc n) c' w t = w t

  data_read-IsHeard :
      (p : VsockPacket) (m : M) (c' : VsockConnection S) (n : ℕ)
      → IsSound c'
      → Waits c'
      → Heard (data_read now p m c' n)
  unfolding data_read
  data_read-IsHeard p m c' n s w =
      let c2 = read_conn now n c' in
      packet-IsHeard _ m
        (record c2 {
          rx_cnt = u32 (c2.rx_cnt + (read_pkt p n).hdr.len);
          last_fwd_cnt_to_peer = c2.fwd_cnt;
        })
        (read_conn-IsSound now n c' s) (read_conn-Waits n c' w)

  after_read-IsHeard :
      (p : VsockPacket) (m : M) (c' : VsockConnection S) (r : Result VsockError ℕ)
      → contains rst c.pending_rx ≡ false
      → IsSound c'
      → Waits c'
      → Bare c'.pending_rx
      → Heard (after_read now p m c' r)
  unfolding after_read read_failed
  after_read-IsHeard p m c' (ok n) no_rst s w b = data_read-IsHeard p m c' n s w
  after_read-IsHeard p m c' (err (guest_memory_mmap (io_error would_block))) no_rst s w b =
      yield_credit-IsHeard p m c' no_rst s w b
  after_read-IsHeard p m c' (err (guest_memory_mmap (io_error other))) no_rst s w b =
      packet-IsHeard _ m (record c' { last_fwd_cnt_to_peer = c'.fwd_cnt }) s w
  after_read-IsHeard p m c' (err (guest_memory_mmap invalid_access)) no_rst s w b =
      packet-IsHeard _ m (record c' { last_fwd_cnt_to_peer = c'.fwd_cnt }) s w
  after_read-IsHeard p m c' (err guest_memory_bounds) no_rst s w b =
      packet-IsHeard _ m (record c' { last_fwd_cnt_to_peer = c'.fwd_cnt }) s w
  after_read-IsHeard p m c' (err (invalid_pkt_len n)) no_rst s w b =
      packet-IsHeard _ m (record c' { last_fwd_cnt_to_peer = c'.fwd_cnt }) s w
  after_read-IsHeard p m c' (err no_data) no_rst s w b =
      packet-IsHeard _ m (record c' { last_fwd_cnt_to_peer = c'.fwd_cnt }) s w
  after_read-IsHeard p m c' (err buf_desc_too_small) no_rst s w b =
      packet-IsHeard _ m (record c' { last_fwd_cnt_to_peer = c'.fwd_cnt }) s w
  after_read-IsHeard p m c' (err buf_desc_missing) no_rst s w b =
      packet-IsHeard _ m (record c' { last_fwd_cnt_to_peer = c'.fwd_cnt }) s w
  after_read-IsHeard p m c' (err (hdr_desc_too_small n)) no_rst s w b =
      packet-IsHeard _ m (record c' { last_fwd_cnt_to_peer = c'.fwd_cnt }) s w
  after_read-IsHeard p m c' (err unreadable_descriptor) no_rst s w b =
      packet-IsHeard _ m (record c' { last_fwd_cnt_to_peer = c'.fwd_cnt }) s w
  after_read-IsHeard p m c' (err unwritable_descriptor) no_rst s w b =
      packet-IsHeard _ m (record c' { last_fwd_cnt_to_peer = c'.fwd_cnt }) s w
  after_read-IsHeard p m c' (err pkt_buf_missing) no_rst s w b =
      packet-IsHeard _ m (record c' { last_fwd_cnt_to_peer = c'.fwd_cnt }) s w

  yield_data-IsHeard :
      (p : VsockPacket) (m : M)
      → contains rst c.pending_rx ≡ false
      → Bare (without rw_data c.pending_rx)
      → Heard (yield_data source gr now p m (take_pending rw_data c))
  unfolding yield_data read_stream take_pending
  yield_data-IsHeard p m no_rst b =
      let c' = record c { pending_rx = without rw_data c.pending_rx } in
      let s = take_pending-IsSound rw_data c h in
      let w = is_local_init-lem c.state in
      if-keeps Heard (peer_can_recv c.state)
        (if-keeps Heard (need_credit_update_from_peer c')
          (packet-IsHeard _ m (record c' { last_fwd_cnt_to_peer = c'.fwd_cnt }) s w)
          (let t =
              read_at_offset_from gr p m 0 source (min p.buf_size (peer_avail_credit c'))
                c'.stream in
            after_read-IsHeard p t.1.0 (record c' { stream = t.1.1 }) t.0 no_rst s w b))
        (packet-IsHeard _ m c' s w)

  pub recv_pkt-IsHeard : (pkt : VsockPacket) (m : M) → Heard (Recv.recv_pkt source gr now pkt m c)
  unfolding Recv.recv_pkt yield_first take_pending is_local_init
  recv_pkt-IsHeard pkt m =
      let w = is_local_init-lem c.state in
      if-split Heard (contains rst c.pending_rx)
        (λ _. packet-IsHeard _ m _ (take_pending-IsSound rst c h) w)
        (λ no_rst.
          if-split Heard (contains response c.pending_rx)
            (λ t.
              packet-IsHeard _ m
                (record c { state = established; pending_rx = without response c.pending_rx })
                (Pends-later c.state established (without response c.pending_rx) refl
                  (take_pending-IsSound response c h))
                (λ e. absurd (true≢false (sym t ∙ h.1 e))))
            (λ no_response.
              if-split Heard (contains request c.pending_rx)
                (λ _. packet-IsHeard _ m _ (take_pending-IsSound request c h) w)
                (λ no_request.
                  if-split Heard (contains rw_data c.pending_rx)
                    (λ _.
                      yield_data-IsHeard _ m no_rst
                        (Bare-data c.pending_rx no_rst no_response no_request))
                    (λ no_rw.
                      yield_credit-IsHeard _ m c no_rst h w
                        (no_rst, (no_response, (no_request, no_rw)))))))
