-- ===== src/Vsock/Muxer/Loop.antt =====
-- The loop of `VsockMuxer::recv_pkt`, src/devices/src/virtio/vsock/unix/muxer.rs.
use mathlib.Core.Bool.{true≢false}
use mathlib.Core.Path.{subst}
use firecracker.Base.{
  ℕ, suc, ◌≡◌, refl, ap, sym, ◌∙◌, true, false, not, Option, none, some, List, [], ◌∷◌, ◌++◌,
  length, ◌==◌, if◌then◌else◌, if-keeps,
}
use firecracker.Base.Maps.{nat_eq, get}
use firecracker.Vsock.RxQ.{ConnMapKey, MuxerRx, conn_rx, rst_pkt}
use firecracker.Vsock.Packet.{VsockPacket, GuestRegions, Source}
use firecracker.Vsock.Connection.{VsockConnection, has_pending_rx, op_rst}
use firecracker.Vsock.Connection.Recv
use firecracker.Vsock.Muxer.{key_eq, Host, VsockMuxer, remove_connection}
use firecracker.Vsock.Muxer.Mutation.{settle, acked, mutate, apply_conn_mutation}
use firecracker.Vsock.Muxer.Channel.{
  Delivery, source_key, pop_rx, synced_rxq, conn_recv, conn_popped, recv_conn, recv_next,
  recv_first, recv_loop, recv_pkt,
}
use firecracker.Vsock.Muxer.Heard.{IsHeard, recv_pkt-IsHeard}
use firecracker.Vsock.Muxer.Tracked.{
  head-IsTracked, tail-IsTracked, reset-IsTracked, built-IsTracked,
}
use firecracker.Vsock.Muxer.Kept.{Tracks}
use firecracker.Vsock.Muxer.Upkeep.{remove_connection-Tracks}
use firecracker.Vsock.Muxer.Turns.{Resets}
use firecracker.Vsock.Muxer.Receive.{
  tail_of, IsTurn, head_first, popped-IsTurn, Returns, heard-Tracks, silent-IsTurn,
}
use mathlib.Core.Option.{none-ne-some}

append-nil : (xs : List MuxerRx) → xs ++ [] ≡ xs
append-nil [] = refl
append-nil (x ∷ xs) = ap (λ t. x ∷ t) (append-nil xs)

[]-ne-cons : (x : MuxerRx) (xs : List MuxerRx) → [] ≡ x ∷ xs → ⊥
[]-ne-cons x xs e = true≢false (ap (λ ys. elim ys [ [] ↦ true | y ∷ zs ↦ false ]) e)

synced_rxq-Tracks :
    {S W : Type 0} (mx : VsockMuxer S W) (q : List MuxerRx)
    → Tracks [] mx
    → Tracks [] (synced_rxq mx q)
unfolding synced_rxq
synced_rxq-Tracks mx [] k =
    if-keeps (Tracks []) mx.rxq.synced k (built-IsTracked mx.conn_map mx.rxq k)
synced_rxq-Tracks mx (x ∷ xs) k = k

module _ {S W M R : Type 0} (io : Host S W) (source : Source S) (gr : GuestRegions M R) (now : ℕ)
    (pkt : VsockPacket) where
  returned-Tracks :
      (p : VsockPacket) (m : M) (mx : VsockMuxer S W)
      → Tracks [] mx
      → Tracks [] (if p.hdr.op == op_rst then remove_connection io (source_key p) mx else mx)
  returned-Tracks p m mx k =
      if-keeps (Tracks []) (p.hdr.op == op_rst) (remove_connection-Tracks io (source_key p) mx k) k

  module _ (again : M → VsockMuxer S W → Option (Delivery S W M)) (first : List MuxerRx)
      (mx : VsockMuxer S W) (t : IsTurn first mx)
      (rest : (x : MuxerRx) (first' : List MuxerRx) (m : M) (mx' : VsockMuxer S W)
        → first ≡ x ∷ first'
        → IsTurn first' mx'
        → Returns (again m mx')) where
    heard-Returns :
        (m : M) (key : ConnMapKey) (xs : List MuxerRx) (c : VsockConnection S)
        → mx.rxq.q ≡ conn_rx key ∷ xs
        → get key mx.conn_map ≡ some c
        → Returns (
            recv_next io source gr now again (
              conn_popped io source gr now m
                (mutate io now key (conn_recv io source gr now pkt m) mx (some c))))
    unfolding mutate conn_popped recv_next conn_recv
    heard-Returns m key xs c e at = go r.packet refl
      where
        r : Recv.Received S M
        r = Recv.recv_pkt source gr now pkt m c

        h : IsHeard c r
        h = recv_pkt-IsHeard source gr now c (t.kept.sound key c at) pkt m

        go :
            (o : Option VsockPacket)
            → r.packet ≡ o
            → Returns (
                recv_next io source gr now again (
                  o,
                  (
                    r.mem,
                    if not (has_pending_rx r.conn)
                        then pop_rx (settle io now key c (acked io key c.state r.conn) mx)
                        else settle io now key c (acked io key c.state r.conn) mx,
                  ),
                ))
        go none p =
            let (x, (first', (e1, turn))) =
              silent-IsTurn io source gr now key c mx at t.kept r h xs first e t p in
            rest x first' r.mem _ e1 turn
        go (some p) q =
            returned-Tracks p r.mem _ (heard-Tracks io source gr now key c mx at t.kept r h xs e)

    absent-Returns :
        (m : M) (key : ConnMapKey) (xs : List MuxerRx)
        → mx.rxq.q ≡ conn_rx key ∷ xs
        → get key mx.conn_map ≡ none
        → Returns (recv_next io source gr now again (none, (m, pop_rx mx)))
    unfolding recv_next
    absent-Returns m key xs e at =
        let never : Resets key mx.conn_map → ⊥ = λ y. none-ne-some y.0 (sym at ∙ y.1.0) in
        let (x, (first', (e1, e2))) = head_first key xs first mx t e never in
        rest x first' m _ e1 (
          popped-IsTurn key first' mx
            (head-IsTracked key xs mx.conn_map mx.rxq e
              (λ c g. absurd (none-ne-some c (sym at ∙ g))) t.kept)
            t.later (e ∙ ap (λ ys. conn_rx key ∷ ys) e2) t.yields)

    turn-Returns :
        (m : M) (q : List MuxerRx)
        → mx.rxq.q ≡ q
        → Returns (recv_first io source gr now again pkt m mx q)
    unfolding recv_first recv_conn apply_conn_mutation pop_rx conn_popped mutate
    turn-Returns m [] e = t.kept
    turn-Returns m (rst_pkt l p ∷ xs) e =
        tail-IsTracked (rst_pkt l p) mx.conn_map mx.rxq
          (reset-IsTracked l p xs mx.conn_map mx.rxq e t.kept)
    turn-Returns m (conn_rx key ∷ xs) e = go (get key mx.conn_map) refl
      where
        go :
            (o : Option (VsockConnection S))
            → get key mx.conn_map ≡ o
            → Returns (
                recv_next io source gr now again (
                  conn_popped io source gr now m
                    (mutate io now key (conn_recv io source gr now pkt m) mx o)))
        go none at = absent-Returns m key xs e at
        go (some c) at = heard-Returns m key xs c e at

  loop-Returns :
      (first : List MuxerRx) (m : M) (mx : VsockMuxer S W)
      → IsTurn first mx
      → Returns (recv_loop io source gr now (suc (length first)) pkt m mx)
  unfolding recv_loop tail_of
  loop-Returns [] m mx t =
      turn-Returns (recv_loop io source gr now 0 pkt) [] mx t
        (λ x first' m' mx' e t'. absurd ([]-ne-cons x first' e)) m mx.rxq.q refl
  loop-Returns (x ∷ first) m mx t =
      turn-Returns (recv_loop io source gr now (suc (length first)) pkt) (x ∷ first) mx t
        (λ y first' m' mx' e t'.
          loop-Returns first m' mx' (subst (λ ys. IsTurn ys mx') (sym (ap tail_of e)) t'))
        m mx.rxq.q refl

  pub recv_pkt-Returns :
      (m : M) (mx : VsockMuxer S W) → Tracks [] mx → Returns (recv_pkt io source gr now pkt m mx)
  unfolding recv_pkt
  recv_pkt-Returns m mx k =
      let k' = synced_rxq-Tracks mx mx.rxq.q k in
      let mx' = synced_rxq mx mx.rxq.q in
      loop-Returns mx'.rxq.q m mx' (record {
        kept = k';
        later = [];
        parts = sym (append-nil mx'.rxq.q);
        yields = λ i h. absurd h;
      })
