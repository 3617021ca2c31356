-- ===== src/Vsock/Muxer/Kept.antt =====
-- The mutation of a connection of `VsockMuxer`, src/devices/src/virtio/vsock/unix/muxer.rs, and the
-- RX queue.
use mathlib.Core.Bool.{true≢false}
use firecracker.Base.{
  ℕ, ◌≤◌, ◌≡◌, ◌⊎◌, inl, inr, refl, sym, ◌∙◌, Bool, true, false, not, ◌&&◌, Option, none, some,
  List, length, ◌==◌, if◌then◌else◌, if-keeps, if-split, Result, ok, err, arith,
}
use firecracker.Base.Maps.{nat_eq, get, insert, length-insert_again}
use firecracker.Vsock.TxBuf.{Error}
use firecracker.Vsock.RxQ.{ConnMapKey, MuxerRx, conn_rx, MuxerRxQ}
use firecracker.Vsock.Connection.{ConnState, VsockConnection, has_pending_rx, will_expire, kill}
use firecracker.Vsock.Connection.Transfer.{send_bytes_raw}
use firecracker.Vsock.Connection.Notify.{EventSet, get_polled_evset}
use firecracker.Vsock.Muxer.{
  max_connections, EpollListener, connection, host_sock, local_stream, add, listener_evset, Host,
  VsockMuxer, key_eq, same_evset, is_no_event, push_rx, kill_found, kill_connection, add_listener,
  remove_found, remove_listener,
}
use firecracker.Vsock.Muxer.Mutation.{
  is_local_init, is_established, ack_written, queue_kill, unless_done, acked, modify_listener,
  update_listener, relisten, settle,
}
use firecracker.Vsock.Muxer.Sound.{IsSound, kill-IsSound, raw_sent-IsSound}
use firecracker.Vsock.Muxer.Queued.{push-OnConn}
use firecracker.Vsock.Muxer.Tracked.{IsTracked, insert-IsTracked, conn-IsTracked}

module _ {S W : Type 0} where
  -- What is said of the connections and the RX queue only.
  abbrev pub Holds :
      (List (ConnMapKey × VsockConnection S) → MuxerRxQ → Type 0) → VsockMuxer S W → Type 0
  Holds P mx = P mx.conn_map mx.rxq

  abbrev pub Tracks : List MuxerRx → VsockMuxer S W → Type 0
  Tracks front mx = IsTracked front mx.conn_map mx.rxq

  pub push-Tracks :
      (front : List MuxerRx) (key : ConnMapKey) (mx : VsockMuxer S W)
      → Tracks front mx
      → Tracks front (push_rx (conn_rx key) mx)
  unfolding push_rx
  push-Tracks front key mx k =
      (conn-IsTracked front key mx.conn_map mx.rxq _ (push-OnConn key mx.rxq k.bounded) k).0

  -- The connection `c` at a key becomes `d`, and its key is pushed where it had nothing pending.
  replaced-Tracks :
      (front : List MuxerRx) (key : ConnMapKey) (c d : VsockConnection S) (mx : VsockMuxer S W)
      → get key mx.conn_map ≡ some c
      → IsSound d
      → Tracks front mx
      → ((has_pending_rx c ≡ true) ⊎ (has_pending_rx d ≡ false)
          → Tracks front (record mx { conn_map = insert key d mx.conn_map }))
        × Tracks front (push_rx (conn_rx key) (record mx { conn_map = insert key d mx.conn_map }))
  unfolding push_rx
  replaced-Tracks front key c d mx h s k =
      let few : length (insert key d mx.conn_map) ≤ max_connections =
        omega (arith, k.few, length-insert_again key d c mx.conn_map h) in
      let (pushed, q) =
        conn-IsTracked front key mx.conn_map mx.rxq _ (push-OnConn key mx.rxq k.bounded) k in
      (
        λ why. insert-IsTracked front key d mx.conn_map mx.rxq k s few (λ t p. elim why [
          | inl f ↦ k.tracked t key c h f
          | inr f ↦ absurd (true≢false (sym p ∙ f))
        ]),
        insert-IsTracked front key d mx.conn_map _ pushed s few (λ t _. q t),
      )

  pub kill_connection-Tracks :
      (front : List MuxerRx) (key : ConnMapKey) (mx : VsockMuxer S W)
      → Tracks front mx
      → Tracks front (kill_connection key mx)
  unfolding kill_connection kill_found
  kill_connection-Tracks front key mx k = go (get key mx.conn_map) refl
    where
      go :
          (o : Option (VsockConnection S))
          → get key mx.conn_map ≡ o
          → Tracks front (kill_found key mx o)
      go none h = push-Tracks front key mx k
      go (some c) h =
          let (alone, pushed) =
            replaced-Tracks front key c (kill c) mx h (kill-IsSound c (k.sound key c h)) k in
          if-split (Tracks front) (has_pending_rx c) (λ t. alone (inl t)) (λ _. pushed)

  -- What listening again keeps, where killing the connection does.
  module _ (io : Host S W) (P : List (ConnMapKey × VsockConnection S) → MuxerRxQ → Type 0) where
    pub remove_listener-Holds :
        (fd : ℕ) (mx : VsockMuxer S W) → Holds P mx → Holds P (remove_listener io fd mx).1
    unfolding remove_listener remove_found
    remove_listener-Holds fd mx h = go (get fd mx.listener_map)
      where
        go : (o : Option (EpollListener S)) → Holds P (remove_found io fd mx o).1
        go none = h
        go (some l) = h

    pub add_listener-Holds :
        (fd : ℕ) (l : EpollListener S) (mx : VsockMuxer S W)
        → Holds P mx
        → Holds P (add_listener io fd l mx).1
    unfolding add_listener
    add_listener-Holds fd l mx h =
        if-keeps (λ (r : Bool × VsockMuxer S W). Holds P r.1)
          (io.ctl (add fd (listener_evset l)) mx.host).0 h h

    module _ (key : ConnMapKey)
        (kills : (mx : VsockMuxer S W) → Holds P mx → Holds P (kill_connection key mx)) where
      unless_done-Holds : (r : Bool × VsockMuxer S W) → Holds P r.1 → Holds P (unless_done key r)
      unfolding unless_done
      unless_done-Holds (true, mx) h = h
      unless_done-Holds (false, mx) h = kills mx h

      update_listener-Holds :
          (fd : ℕ) (evset : EventSet) (mx : VsockMuxer S W) (o : Option (EpollListener S))
          → Holds P mx
          → Holds P (update_listener io key fd evset mx o)
      unfolding update_listener modify_listener
      update_listener-Holds fd evset mx (some (connection listed old)) h =
          if-keeps (Holds P) (same_evset old evset) h (unless_done-Holds _ h)
      update_listener-Holds fd evset mx (some host_sock) h =
          unless_done-Holds _ (add_listener-Holds fd (connection key evset) mx h)
      update_listener-Holds fd evset mx (some (local_stream s)) h =
          unless_done-Holds _ (add_listener-Holds fd (connection key evset) mx h)
      update_listener-Holds fd evset mx none h =
          unless_done-Holds _ (add_listener-Holds fd (connection key evset) mx h)

      pub relisten-Holds :
          (c : VsockConnection S) (mx : VsockMuxer S W)
          → Holds P mx
          → Holds P (relisten io key c mx)
      unfolding relisten
      relisten-Holds c mx h =
          let fd = io.raw_fd c.stream in
          if-keeps (Holds P) (is_no_event (get_polled_evset c)) (remove_listener-Holds fd mx h)
            (update_listener-Holds fd (get_polled_evset c) mx (get fd mx.listener_map) h)

  pub queue_kill-Holds :
      (P : List (ConnMapKey × VsockConnection S) → MuxerRxQ → Type 0) (key : ConnMapKey)
      (o : Option ℕ) (mx : VsockMuxer S W)
      → Holds P mx
      → Holds P (queue_kill key o mx)
  unfolding queue_kill
  queue_kill-Holds P key none mx h = h
  queue_kill-Holds P key (some t) mx h = h

ack_written-IsSound :
    {S : Type 0} (n : ℕ) (r : Result Error ℕ × VsockConnection S)
    → IsSound r.1
    → IsSound (ack_written n r)
unfolding ack_written
ack_written-IsSound n (ok w, d) s = if-keeps IsSound (w == n) s (kill-IsSound d s)
ack_written-IsSound n (err e, d) s = kill-IsSound d s

module _ {S W : Type 0} (io : Host S W) where
  pub acked-IsSound :
      (key : ConnMapKey) (before : ConnState) (c : VsockConnection S)
      → IsSound c
      → IsSound (acked io key before c)
  unfolding acked send_bytes_raw
  acked-IsSound key before c h =
      let msg = io.ok_text key.local_port in
      if-keeps IsSound (is_local_init before && is_established c.state)
        (ack_written-IsSound (length msg) _ (raw_sent-IsSound c (io.sink.write c.stream msg) h)) h

  -- What follows a mutation keeps the connections tracked.
  pub settle-Tracks :
      (now : ℕ) (front : List MuxerRx) (key : ConnMapKey) (c d : VsockConnection S)
      (mx : VsockMuxer S W)
      → get key mx.conn_map ≡ some c
      → IsSound d
      → Tracks front mx
      → Tracks front (settle io now key c d mx)
  unfolding settle
  settle-Tracks now front key c d mx h s k =
      let (alone, pushed) = replaced-Tracks front key c d mx h s k in
      let mx1 = record mx { conn_map = insert key d mx.conn_map } in
      let mx2 =
        if not (has_pending_rx c) && has_pending_rx d then push_rx (conn_rx key) mx1 else mx1 in
      let mx3 =
        if not (will_expire now c) && will_expire now d then queue_kill key d.expiry mx2 else mx2 in
      let k2 : Tracks front mx2 =
        if-split (Tracks front) (not (has_pending_rx c) && has_pending_rx d) (λ _. pushed)
          (λ t. alone (quiet (has_pending_rx c) (has_pending_rx d) t)) in
      let k3 : Tracks front mx3 =
        if-keeps (Tracks front) (not (will_expire now c) && will_expire now d)
          (queue_kill-Holds (IsTracked front) key d.expiry mx2 k2) k2 in
      relisten-Holds io (IsTracked front) key (kill_connection-Tracks front key) d mx3 k3
    where
      quiet : (a b : Bool) → (not a && b) ≡ false → (a ≡ true) ⊎ (b ≡ false)
      quiet true b e = inl refl
      quiet false b e = inr e
