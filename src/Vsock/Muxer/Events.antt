-- ===== src/Vsock/Muxer/Events.antt =====
-- `VsockMuxer::handle_event`, src/devices/src/virtio/vsock/unix/muxer.rs.
use firecracker.Base.{
  ℕ, Bool, true, false, Option, none, some, List, [], ◌∷◌, length, ◌==◌, if◌then◌else◌,
}
use firecracker.Base.Maps.{get, nat_eq}
use firecracker.Vsock.Connection.{VsockConnection, new_local_init}
use firecracker.Vsock.Connection.Notify
use firecracker.Vsock.Connection.Notify.{EventSet}
use firecracker.Vsock.Muxer.{
  EpollListener, connection, host_sock, local_stream, Host, VsockMuxer, max_connections,
  add_listener, remove_listener,
}
use firecracker.Vsock.Muxer.Ports.{allocate_local_port, read_local_stream_port}
use firecracker.Vsock.Muxer.Mutation.{apply_conn_mutation}
use firecracker.Vsock.Muxer.Sweep.{add_connection}
use firecracker.Vsock.Muxer.Channel.{host_cid}

module _ {S : Type 0} where
  -- Whether `notify` has returned.
  unfoldable pub notified :
      VsockConnection S → Option (VsockConnection S) → Bool × VsockConnection S
  notified c none = (false, c)
  notified c (some c') = (true, c')

module _ {S W : Type 0} where
  unfoldable pub unless_panic : Option Bool × VsockMuxer S W → Option (VsockMuxer S W)
  unless_panic (none, mx) = some mx
  unless_panic (some true, mx) = some mx
  unless_panic (some false, mx) = none

  -- An error of a connection that is added is only logged.
  unfoldable pub ignored : Option (Bool × VsockMuxer S W) → Option (VsockMuxer S W)
  ignored none = none
  ignored (some (added, mx)) = some mx

  unfoldable pub and_then :
      (VsockMuxer S W → Option (VsockMuxer S W)) → Option (VsockMuxer S W) → Option (VsockMuxer S W)
  and_then next none = none
  and_then next (some mx) = next mx

module _ {S W : Type 0} (io : Host S W) (now : ℕ) where
  unfoldable pub conn_notify : EventSet → VsockConnection S → Bool × VsockConnection S
  conn_notify evset c = notified c (Notify.notify io.sink evset c)

  unfoldable pub accepted : VsockMuxer S W → Option S → VsockMuxer S W
  accepted mx none = mx
  accepted mx (some stream) = (add_listener io (io.raw_fd stream) (local_stream stream) mx).1

  unfoldable pub accept_host : VsockMuxer S W → VsockMuxer S W
  accept_host mx =
      let (stream, w) = io.accept mx.host in
      let mx' = record mx { host = w } in
      if length mx.conn_map == max_connections then mx' else accepted mx' stream

  unfoldable pub port_allocated : ℕ → S → Option (ℕ × VsockMuxer S W) → Option (VsockMuxer S W)
  port_allocated peer_port stream none = none
  port_allocated peer_port stream (some (local_port, mx)) = ignored (
      add_connection now io (record { local_port = local_port; peer_port = peer_port })
        (new_local_init stream host_cid mx.cid local_port peer_port) mx)

  unfoldable pub port_read : VsockMuxer S W → Option ℕ × S → Option (VsockMuxer S W)
  port_read mx (none, stream) = some mx
  port_read mx (some peer_port, stream) = port_allocated peer_port stream (allocate_local_port mx)

  unfoldable pub stream_removed :
      Option (EpollListener S) × VsockMuxer S W → Option (VsockMuxer S W)
  stream_removed (some (local_stream stream), mx) = port_read mx (read_local_stream_port io stream)
  stream_removed (some (connection key evset), mx) = some mx
  stream_removed (some host_sock, mx) = some mx
  stream_removed (none, mx) = some mx

  -- `none` is a panic, or a loop for which no fuel is left.
  unfoldable pub handle_listener :
      ℕ → EventSet → VsockMuxer S W → Option (EpollListener S) → Option (VsockMuxer S W)
  handle_listener fd evset mx (some (connection key listed)) =
      unless_panic (apply_conn_mutation io now key (conn_notify evset) mx)
  handle_listener fd evset mx (some host_sock) = some (accept_host mx)
  handle_listener fd evset mx (some (local_stream s)) = stream_removed (remove_listener io fd mx)
  handle_listener fd evset mx none = some mx

  unfoldable pub handle_event : ℕ → EventSet → VsockMuxer S W → Option (VsockMuxer S W)
  handle_event fd evset mx = handle_listener fd evset mx (get fd mx.listener_map)

  -- The time stands still while the events are handled.
  unfoldable pub handle_events : List (ℕ × EventSet) → VsockMuxer S W → Option (VsockMuxer S W)
  handle_events [] mx = some mx
  handle_events ((fd, evset) ∷ evs) mx = and_then (handle_events evs) (handle_event fd evset mx)

  unfoldable pub handle_waited :
      VsockMuxer S W → Option (List (ℕ × EventSet)) → Option (VsockMuxer S W)
  handle_waited mx none = some mx
  handle_waited mx (some evs) = handle_events evs mx

  unfoldable pub notify : VsockMuxer S W → Option (VsockMuxer S W)
  notify mx = let (evs, w) = io.wait mx.host in handle_waited (record mx { host = w }) evs
