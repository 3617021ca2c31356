-- ===== src/Vsock/Muxer/Channel.antt =====
-- `VsockMuxer` as a channel, src/devices/src/virtio/vsock/unix/muxer.rs: `recv_pkt` and `send_pkt`.
use firecracker.Base.{
  ℕ, zero, suc, Bool, not, Option, none, some, List, [], ◌∷◌, length, ◌==◌, if◌then◌else◌,
}
use firecracker.Base.Maps.{get}
use firecracker.Vsock.RxQ.{ConnMapKey, MuxerRx, conn_rx, rst_pkt}
use firecracker.Vsock.RxQ
use firecracker.Vsock.Packet.{VsockPacket, GuestRegions, Source}
use firecracker.Vsock.Connection.{
  VsockConnection, has_pending_rx, new_peer_init, op_request, op_rst, type_stream,
}
use firecracker.Vsock.Connection.Recv
use firecracker.Vsock.Connection.Send
use firecracker.Vsock.Muxer.{Host, VsockMuxer, key_eq, rx_walk, enq_rst, remove_connection}
use firecracker.Vsock.Muxer.Mutation.{apply_conn_mutation}
use firecracker.Vsock.Muxer.Sweep.{add_connection}

abbrev pub host_cid : ℕ
host_cid = 2

-- A packet that is filled in, or `NoData`; the memory and the muxer.
pub record Delivery (S W M : Type 0) : Type 0 where
  pub packet : Option VsockPacket
  pub mem : M
  pub muxer : VsockMuxer S W

unfoldable pub rst_packet : ℕ → ℕ → ℕ → VsockPacket → VsockPacket
rst_packet cid local_port peer_port pkt = record pkt {
  hdr = record {
    op = op_rst;
    src_cid = host_cid;
    dst_cid = cid;
    src_port = local_port;
    dst_port = peer_port;
    len = 0;
    type_of = type_stream;
    flags = 0;
    buf_alloc = 0;
    fwd_cnt = 0;
  };
}

unfoldable pub source_key : VsockPacket → ConnMapKey
source_key pkt = record { local_port = pkt.hdr.src_port; peer_port = pkt.hdr.dst_port }

unfoldable pub target_key : VsockPacket → ConnMapKey
target_key pkt = record { local_port = pkt.hdr.dst_port; peer_port = pkt.hdr.src_port }

module _ {S W : Type 0} where
  unfoldable pub pop_rx : VsockMuxer S W → VsockMuxer S W
  pop_rx mx = record mx { rxq = (RxQ.pop mx.rxq).1 }

  -- An empty queue that is out of sync is built again.
  unfoldable pub synced_rxq : VsockMuxer S W → List MuxerRx → VsockMuxer S W
  synced_rxq mx [] =
      if mx.rxq.synced then mx else record mx { rxq = RxQ.from_conn_map (rx_walk mx.conn_map) }
  synced_rxq mx (x ∷ xs) = mx

module _ {S W M R : Type 0} (io : Host S W) (source : Source S) (gr : GuestRegions M R)
    (now : ℕ) where
  -- What `recv_pkt` of a connection gives, and whether its key is popped.
  unfoldable pub conn_recv :
      VsockPacket → M → VsockConnection S → (Option VsockPacket × (M × Bool)) × VsockConnection S
  conn_recv pkt m c =
      let r = Recv.recv_pkt source gr now pkt m c in
      ((r.packet, (r.mem, not (has_pending_rx r.conn))), r.conn)

  unfoldable pub conn_popped :
      M
      → Option (Option VsockPacket × (M × Bool)) × VsockMuxer S W
      → Option VsockPacket × (M × VsockMuxer S W)
  conn_popped m (none, mx) = (none, (m, pop_rx mx))
  conn_popped m (some (packet, (m', do_pop)), mx) = (packet, (m', if do_pop then pop_rx mx else mx))

  unfoldable pub recv_conn :
      VsockPacket → ConnMapKey → M → VsockMuxer S W → Option VsockPacket × (M × VsockMuxer S W)
  recv_conn pkt key m mx = conn_popped m (apply_conn_mutation io now key (conn_recv pkt m) mx)

  -- A packet of a connection that is a reset also removes it; without one the loop goes on.
  unfoldable pub recv_next :
      (M → VsockMuxer S W → Option (Delivery S W M))
      → Option VsockPacket × (M × VsockMuxer S W)
      → Option (Delivery S W M)
  recv_next again (none, (m, mx)) = again m mx
  recv_next again (some p, (m, mx)) = some (record {
    packet = some p;
    mem = m;
    muxer = if p.hdr.op == op_rst then remove_connection io (source_key p) mx else mx;
  })

  unfoldable pub recv_first :
      (M → VsockMuxer S W → Option (Delivery S W M))
      → VsockPacket
      → M
      → VsockMuxer S W
      → List MuxerRx
      → Option (Delivery S W M)
  recv_first again pkt m mx [] = some (record { packet = none; mem = m; muxer = mx })
  recv_first again pkt m mx (rst_pkt local_port peer_port ∷ xs) = some (record {
    packet = some (rst_packet mx.cid local_port peer_port pkt);
    mem = m;
    muxer = pop_rx mx;
  })
  recv_first again pkt m mx (conn_rx key ∷ xs) = recv_next again (recv_conn pkt key m mx)

  -- The fuel counts the rounds of the loop.
  unfoldable pub recv_loop : ℕ → VsockPacket → M → VsockMuxer S W → Option (Delivery S W M)
  recv_loop zero pkt m mx = none
  recv_loop (suc fuel) pkt m mx = recv_first (recv_loop fuel pkt) pkt m mx mx.rxq.q

  unfoldable pub recv_pkt : VsockPacket → M → VsockMuxer S W → Option (Delivery S W M)
  recv_pkt pkt m mx =
      let mx' = synced_rxq mx mx.rxq.q in recv_loop (suc (length mx'.rxq.q)) pkt m mx'

module _ {S W : Type 0} where
  -- A connection that is refused has a reset pending.
  unfoldable pub request_added :
      VsockPacket → Option (Bool × VsockMuxer S W) → Option (VsockMuxer S W)
  request_added pkt none = none
  request_added pkt (some (added, mx)) =
      some (if added then mx else enq_rst pkt.hdr.dst_port pkt.hdr.src_port mx)

module _ {S W : Type 0} (io : Host S W) (now : ℕ) where
  unfoldable pub requested : VsockPacket → VsockMuxer S W → Option S → Option (VsockMuxer S W)
  requested pkt mx none = some (enq_rst pkt.hdr.dst_port pkt.hdr.src_port mx)
  requested pkt mx (some stream) = request_added pkt (
      add_connection now io (target_key pkt)
        (new_peer_init stream host_cid mx.cid pkt.hdr.dst_port pkt.hdr.src_port pkt.hdr.buf_alloc)
        mx)

  unfoldable pub handle_peer_request_pkt : VsockPacket → VsockMuxer S W → Option (VsockMuxer S W)
  handle_peer_request_pkt pkt mx =
      let (stream, w) = io.connect pkt.hdr.dst_port mx.host in
      requested pkt (record mx { host = w }) stream

module _ {S W M R : Type 0} (io : Host S W) (gr : GuestRegions M R) (now : ℕ) where
  unfoldable pub conn_send : VsockPacket → M → VsockConnection S → Unit {0} × VsockConnection S
  conn_send pkt m c = (tt, Send.send_pkt io.sink gr m now pkt c)

  unfoldable pub route :
      VsockPacket → M → VsockMuxer S W → Option (VsockConnection S) → Option (VsockMuxer S W)
  route pkt m mx none =
      if pkt.hdr.op == op_request
      then handle_peer_request_pkt io now pkt mx
      else some (enq_rst pkt.hdr.dst_port pkt.hdr.src_port mx)
  route pkt m mx (some c) = some (
      if pkt.hdr.op == op_rst
      then remove_connection io (target_key pkt) mx
      else (apply_conn_mutation io now (target_key pkt) (conn_send pkt m) mx).1)

  unfoldable pub send_pkt : VsockPacket → M → VsockMuxer S W → Option (VsockMuxer S W)
  send_pkt pkt m mx =
      if not (pkt.hdr.type_of == type_stream)
      then some (enq_rst pkt.hdr.dst_port pkt.hdr.src_port mx)
      else if not (pkt.hdr.dst_cid == host_cid)
      then some mx
      else route pkt m mx (get (target_key pkt) mx.conn_map)
