-- ===== src/Vsock/Muxer/Noticed.antt =====
-- The events of `VsockMuxer`, src/devices/src/virtio/vsock/unix/muxer.rs: the RX queue has the key of each
-- connection with something pending.
use firecracker.Base.{
  ℕ, Bool, true, false, Option, none, some, List, [], ◌∷◌, length, ◌==◌, if-keeps,
}
use firecracker.Base.Maps.{nat_eq, get}
use firecracker.Vsock.Connection.{VsockConnection}
use firecracker.Vsock.Connection.Notify
use firecracker.Vsock.Connection.Notify.{EventSet}
use firecracker.Vsock.Muxer.{
  EpollListener, connection, host_sock, local_stream, Host, VsockMuxer, key_eq, max_connections,
}
use firecracker.Vsock.Muxer.Ports.{allocated, allocate_local_port, read_local_stream_port}
use firecracker.Vsock.Muxer.Channel.{host_cid}
use firecracker.Vsock.Muxer.Events.{
  notified, unless_panic, ignored, and_then, conn_notify, accepted, accept_host, port_allocated,
  port_read, stream_removed, handle_listener, handle_event, handle_events, handle_waited, notify,
}
use firecracker.Vsock.Muxer.Sound.{IsSound, new_local_init-IsSound}
use firecracker.Vsock.Muxer.Calls.{OnNotified, notify-IsSound}
use firecracker.Vsock.Muxer.Tracked.{IsTracked}
use firecracker.Vsock.Muxer.Kept.{Tracks, remove_listener-Holds, add_listener-Holds}
use firecracker.Vsock.Muxer.Sweeps.{OnAdd, add_connection-OnAdd}
use firecracker.Vsock.Muxer.Upkeep.{apply_conn_mutation-Tracks}

module _ {S W : Type 0} where
  -- Of an event that a panic may end.
  abbrev pub OnEvent : Option (VsockMuxer S W) → Type 0
  OnEvent none = Unit
  OnEvent (some mx) = Tracks [] mx

module _ {S W : Type 0} (io : Host S W) (now : ℕ) where
  conn_notify-IsSound :
      (evset : EventSet) (c : VsockConnection S)
      → IsSound c
      → IsSound (conn_notify io now evset c).1
  unfolding conn_notify notified
  conn_notify-IsSound evset c h =
      go (Notify.notify io.sink evset c) (notify-IsSound io.sink evset c h)
    where
      go : (o : Option (VsockConnection S)) → OnNotified o → IsSound (notified c o).1
      go none s = h
      go (some d) s = s

  unless_panic-OnEvent :
      (r : Option Bool × VsockMuxer S W) → Tracks [] r.1 → OnEvent (unless_panic r)
  unfolding unless_panic
  unless_panic-OnEvent (none, mx) k = k
  unless_panic-OnEvent (some true, mx) k = k
  unless_panic-OnEvent (some false, mx) k = tt

  ignored-OnEvent : (o : Option (Bool × VsockMuxer S W)) → OnAdd o → OnEvent (ignored o)
  unfolding ignored
  ignored-OnEvent none h = tt
  ignored-OnEvent (some (added, mx)) k = k

  accepted-Tracks :
      (mx : VsockMuxer S W) (o : Option S) → Tracks [] mx → Tracks [] (accepted io now mx o)
  unfolding accepted
  accepted-Tracks mx none k = k
  accepted-Tracks mx (some stream) k =
      add_listener-Holds io (IsTracked []) (io.raw_fd stream) (local_stream stream) mx k

  accept_host-Tracks : (mx : VsockMuxer S W) → Tracks [] mx → Tracks [] (accept_host io now mx)
  unfolding accept_host
  accept_host-Tracks mx k =
      if-keeps (Tracks []) (length mx.conn_map == max_connections) k
        (accepted-Tracks _ (io.accept mx.host).0 k)

  port_allocated-OnEvent :
      (peer_port : ℕ) (stream : S) (mx : VsockMuxer S W) (o : Option ℕ)
      → Tracks [] mx
      → OnEvent (port_allocated io now peer_port stream (allocated mx o))
  unfolding port_allocated allocated
  port_allocated-OnEvent peer_port stream mx none k = tt
  port_allocated-OnEvent peer_port stream mx (some port) k = ignored-OnEvent _ (
      add_connection-OnAdd now io _ _ _
        (new_local_init-IsSound stream host_cid mx.cid port peer_port) k)

  port_read-OnEvent :
      (mx : VsockMuxer S W) (r : Option ℕ × S) → Tracks [] mx → OnEvent (port_read io now mx r)
  unfolding port_read allocate_local_port
  port_read-OnEvent mx (none, stream) k = k
  port_read-OnEvent mx (some peer_port, stream) k = port_allocated-OnEvent peer_port stream mx _ k

  stream_removed-OnEvent :
      (r : Option (EpollListener S) × VsockMuxer S W)
      → Tracks [] r.1
      → OnEvent (stream_removed io now r)
  unfolding stream_removed
  stream_removed-OnEvent (some (local_stream stream), mx) k =
      port_read-OnEvent mx (read_local_stream_port io stream) k
  stream_removed-OnEvent (some (connection key evset), mx) k = k
  stream_removed-OnEvent (some host_sock, mx) k = k
  stream_removed-OnEvent (none, mx) k = k

  handle_listener-OnEvent :
      (fd : ℕ) (evset : EventSet) (mx : VsockMuxer S W) (o : Option (EpollListener S))
      → Tracks [] mx
      → OnEvent (handle_listener io now fd evset mx o)
  unfolding handle_listener
  handle_listener-OnEvent fd evset mx (some (connection key listed)) k = unless_panic-OnEvent _ (
      apply_conn_mutation-Tracks io now key (conn_notify io now evset) mx
        (conn_notify-IsSound evset) k)
  handle_listener-OnEvent fd evset mx (some host_sock) k = accept_host-Tracks mx k
  handle_listener-OnEvent fd evset mx (some (local_stream s)) k =
      stream_removed-OnEvent _ (remove_listener-Holds io (IsTracked []) fd mx k)
  handle_listener-OnEvent fd evset mx none k = k

  handle_events-OnEvent :
      (evs : List (ℕ × EventSet)) (mx : VsockMuxer S W)
      → Tracks [] mx
      → OnEvent (handle_events io now evs mx)
  unfolding handle_events handle_event and_then
  handle_events-OnEvent [] mx k = k
  handle_events-OnEvent ((fd, evset) ∷ evs) mx k =
      go _ (handle_listener-OnEvent fd evset mx (get fd mx.listener_map) k)
        (handle_events-OnEvent evs)
    where
      go :
          (o : Option (VsockMuxer S W))
          → OnEvent o
          → ((mx' : VsockMuxer S W) → Tracks [] mx' → OnEvent (handle_events io now evs mx'))
          → OnEvent (and_then (handle_events io now evs) o)
      go none h rest = tt
      go (some mx') h rest = rest mx' h

  pub notify-OnEvent : (mx : VsockMuxer S W) → Tracks [] mx → OnEvent (notify io now mx)
  unfolding notify handle_waited
  notify-OnEvent mx k = go (io.wait mx.host).0
    where
      go :
          (o : Option (List (ℕ × EventSet)))
          → OnEvent (handle_waited io now (record mx { host = (io.wait mx.host).1 }) o)
      go none = k
      go (some evs) = handle_events-OnEvent evs _ k
