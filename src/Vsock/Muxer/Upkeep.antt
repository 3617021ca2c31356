-- ===== src/Vsock/Muxer/Upkeep.antt =====
-- The operations of `VsockMuxer`, src/devices/src/virtio/vsock/unix/muxer.rs, but for `recv_pkt`: the
-- RX queue has the key of each connection with something pending.
use mathlib.Core.Option.{none-ne-some}
use firecracker.Base.{ℕ, ◌≡◌, refl, Bool, not, Option, none, some, [], ◌==◌, if-keeps, arith}
use firecracker.Base.Maps.{nat_eq, get, remove}
use firecracker.Vsock.RxQ.{ConnMapKey, MuxerRxQ}
use firecracker.Vsock.RxQ
use firecracker.Vsock.Packet.{VsockPacket, GuestRegions}
use firecracker.Vsock.Connection.{VsockConnection, op_request, op_rst, type_stream}
use firecracker.Vsock.Muxer.{
  host_sock, Host, VsockMuxer, key_eq, enq_rst, push_rx, free_local_port, remove_conn,
  remove_connection, new,
}
use firecracker.Vsock.Muxer.Mutation.{mutate, apply_conn_mutation, acked}
use firecracker.Vsock.Muxer.Channel.{
  host_cid, target_key, request_added, requested, handle_peer_request_pkt, conn_send, route,
  send_pkt,
}
use firecracker.Vsock.Muxer.Sound.{IsSound, new_peer_init-IsSound}
use firecracker.Vsock.Muxer.Calls.{send_pkt-IsSound}
use firecracker.Vsock.Muxer.Tracked.{IsTracked, remove-IsTracked, rst-IsTracked}
use firecracker.Vsock.Muxer.Kept.{
  Tracks, remove_listener-Holds, add_listener-Holds, acked-IsSound, settle-Tracks,
}
use firecracker.Vsock.Muxer.Sweeps.{Leaves, OnAdd, add_connection-OnAdd}

module _ {S W : Type 0} where
  enq_rst-Tracks : (l p : ℕ) (mx : VsockMuxer S W) → Tracks [] mx → Tracks [] (enq_rst l p mx)
  unfolding enq_rst push_rx
  enq_rst-Tracks l p mx k = rst-IsTracked l p mx.conn_map mx.rxq k

  module _ (io : Host S W) where
    pub new-Tracks : (cid fd : ℕ) (w : W) → Tracks [] (new io cid fd w).1
    unfolding new RxQ.new get
    new-Tracks cid fd w = add_listener-Holds io (IsTracked []) fd host_sock _ (record {
      rest = [];
      parts = refl;
      bounded = omega arith;
      few = omega arith;
      sound = λ i d h. absurd (none-ne-some d h);
      tracked = λ t i d h f. absurd (none-ne-some d h);
    })

    pub remove_connection-Tracks :
        (key : ConnMapKey) (mx : VsockMuxer S W)
        → Tracks [] mx
        → Tracks [] (remove_connection io key mx)
    unfolding remove_connection free_local_port remove_conn
    remove_connection-Tracks key mx k = go (get key mx.conn_map)
      where
        go : (o : Option (VsockConnection S)) → Tracks [] (remove_conn io key mx o)
        go none = k
        go (some c) =
            remove_listener-Holds io (IsTracked []) (io.raw_fd c.stream)
              (record mx { conn_map = remove key mx.conn_map })
              (remove-IsTracked key mx.conn_map mx.rxq k)

    module _ (now : ℕ) where
      pub apply_conn_mutation-Tracks :
          {A : Type 0} (key : ConnMapKey) (f : VsockConnection S → A × VsockConnection S)
          (mx : VsockMuxer S W)
          → ((c : VsockConnection S) → IsSound c → IsSound (f c).1)
          → Tracks [] mx
          → Tracks [] (apply_conn_mutation io now key f mx).1
      unfolding apply_conn_mutation mutate
      apply_conn_mutation-Tracks {A} key f mx keeps k = go (get key mx.conn_map) refl
        where
          go :
              (o : Option (VsockConnection S))
              → get key mx.conn_map ≡ o
              → Tracks [] (mutate io now key f mx o).1
          go none h = k
          go (some c) h =
              settle-Tracks io now [] key c (acked io key c.state (f c).1) mx h
                (acked-IsSound io key c.state (f c).1 (keeps c (k.sound key c h))) k

      request_added-Leaves :
          (pkt : VsockPacket) (o : Option (Bool × VsockMuxer S W))
          → OnAdd o
          → Leaves (request_added pkt o)
      unfolding request_added
      request_added-Leaves pkt none h = h
      request_added-Leaves pkt (some (added, mx)) k =
          if-keeps (Tracks []) added k (enq_rst-Tracks pkt.hdr.dst_port pkt.hdr.src_port mx k)

      requested-Leaves :
          (pkt : VsockPacket) (mx : VsockMuxer S W) (o : Option S)
          → Tracks [] mx
          → Leaves (requested io now pkt mx o)
      unfolding requested
      requested-Leaves pkt mx none k = enq_rst-Tracks pkt.hdr.dst_port pkt.hdr.src_port mx k
      requested-Leaves pkt mx (some stream) k = request_added-Leaves pkt _ (
          add_connection-OnAdd now io (target_key pkt) _ mx
            (new_peer_init-IsSound stream host_cid mx.cid pkt.hdr.dst_port pkt.hdr.src_port
              pkt.hdr.buf_alloc)
            k)

      module _ {M R : Type 0} (gr : GuestRegions M R) (pkt : VsockPacket) (m : M) where
        conn_send-IsSound :
            (c : VsockConnection S) → IsSound c → IsSound (conn_send io gr now pkt m c).1
        unfolding conn_send
        conn_send-IsSound c h = send_pkt-IsSound io.sink gr m pkt now c h

        route-Leaves :
            (mx : VsockMuxer S W) (o : Option (VsockConnection S))
            → Tracks [] mx
            → Leaves (route io gr now pkt m mx o)
        unfolding route handle_peer_request_pkt
        route-Leaves mx none k =
            if-keeps Leaves (pkt.hdr.op == op_request)
              (requested-Leaves pkt _ (io.connect pkt.hdr.dst_port mx.host).0 k)
              (enq_rst-Tracks pkt.hdr.dst_port pkt.hdr.src_port mx k)
        route-Leaves mx (some c) k =
            if-keeps (Tracks []) (pkt.hdr.op == op_rst)
              (remove_connection-Tracks (target_key pkt) mx k)
              (apply_conn_mutation-Tracks (target_key pkt) (conn_send io gr now pkt m) mx
                conn_send-IsSound k)

        pub send_pkt-Leaves :
            (mx : VsockMuxer S W) → Tracks [] mx → Leaves (send_pkt io gr now pkt m mx)
        unfolding send_pkt
        send_pkt-Leaves mx k =
            if-keeps Leaves (not (pkt.hdr.type_of == type_stream))
              (enq_rst-Tracks pkt.hdr.dst_port pkt.hdr.src_port mx k)
              (if-keeps Leaves (not (pkt.hdr.dst_cid == host_cid)) k
                (route-Leaves mx (get (target_key pkt) mx.conn_map) k))
