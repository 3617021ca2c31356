-- ===== src/Vsock/Muxer/Mutation.antt =====
-- `VsockMuxer::apply_conn_mutation`, src/devices/src/virtio/vsock/unix/muxer.rs.
use firecracker.Base.{
  ℕ, Bool, true, false, not, ◌&&◌, Option, none, some, length, ◌==◌, if◌then◌else◌, Result, ok, err,
}
use firecracker.Base.Maps.{nat_eq, get, insert}
use firecracker.Vsock.TxBuf.{Error}
use firecracker.Vsock.RxQ.{ConnMapKey, conn_rx}
use firecracker.Vsock.KillQ
use firecracker.Vsock.Connection.{
  ConnState, local_init, peer_init, established, local_closed, peer_closed, killed, VsockConnection,
  has_pending_rx, will_expire, kill,
}
use firecracker.Vsock.Connection.Transfer.{send_bytes_raw}
use firecracker.Vsock.Connection.Notify.{EventSet, get_polled_evset}
use firecracker.Vsock.Muxer.{
  EpollListener, connection, host_sock, local_stream, modify, Host, VsockMuxer, key_eq, same_evset,
  is_no_event, push_rx, kill_connection, add_listener, remove_listener,
}

unfoldable pub is_local_init : ConnState → Bool
is_local_init local_init = true
is_local_init peer_init = false
is_local_init established = false
is_local_init local_closed = false
is_local_init (peer_closed recv_off send_off) = false
is_local_init killed = false

unfoldable pub is_established : ConnState → Bool
is_established local_init = false
is_established peer_init = false
is_established established = true
is_established local_closed = false
is_established (peer_closed recv_off send_off) = false
is_established killed = false

module _ {S : Type 0} where
  -- The connection after the message that it is established, which is killed unless all is written.
  unfoldable pub ack_written : ℕ → Result Error ℕ × VsockConnection S → VsockConnection S
  ack_written len (ok written, c) = if written == len then c else kill c
  ack_written len (err e, c) = kill c

module _ {S W : Type 0} where
  unfoldable pub queue_kill : ConnMapKey → Option ℕ → VsockMuxer S W → VsockMuxer S W
  queue_kill key none mx = mx
  queue_kill key (some time) mx = record mx { killq = KillQ.push key time mx.killq }

  -- Kills the connection where `ctl` has failed.
  unfoldable pub unless_done : ConnMapKey → Bool × VsockMuxer S W → VsockMuxer S W
  unless_done key (true, mx) = mx
  unless_done key (false, mx) = kill_connection key mx

module _ {S W : Type 0} (io : Host S W) where
  unfoldable pub acked : ConnMapKey → ConnState → VsockConnection S → VsockConnection S
  acked key before c =
      if is_local_init before && is_established c.state
      then (let msg = io.ok_text key.local_port in
          ack_written (length msg) (send_bytes_raw io.sink msg c))
      else c

  unfoldable pub modify_listener :
      ConnMapKey → ℕ → ConnMapKey → EventSet → EventSet → VsockMuxer S W → VsockMuxer S W
  modify_listener key fd listed old new_evset mx =
      if same_evset old new_evset
      then mx
      else (let (done, w) = io.ctl (modify fd new_evset) mx.host in
          unless_done key (
            done,
            record mx {
              host = w;
              listener_map = insert fd (connection listed new_evset) mx.listener_map;
            },
          ))

  unfoldable pub update_listener :
      ConnMapKey → ℕ → EventSet → VsockMuxer S W → Option (EpollListener S) → VsockMuxer S W
  update_listener key fd new_evset mx (some (connection listed old)) =
      modify_listener key fd listed old new_evset mx
  update_listener key fd new_evset mx (some host_sock) =
      unless_done key (add_listener io fd (connection key new_evset) mx)
  update_listener key fd new_evset mx (some (local_stream s)) =
      unless_done key (add_listener io fd (connection key new_evset) mx)
  update_listener key fd new_evset mx none =
      unless_done key (add_listener io fd (connection key new_evset) mx)

  unfoldable pub relisten : ConnMapKey → VsockConnection S → VsockMuxer S W → VsockMuxer S W
  relisten key c mx =
      let fd = io.raw_fd c.stream in
      if is_no_event (get_polled_evset c)
      then (remove_listener io fd mx).1
      else update_listener key fd (get_polled_evset c) mx (get fd mx.listener_map)

  -- What follows the mutation of the connection `c` to `c'`.
  unfoldable pub settle :
      ℕ → ConnMapKey → VsockConnection S → VsockConnection S → VsockMuxer S W → VsockMuxer S W
  settle now key c c' mx =
      let mx1 = record mx { conn_map = insert key c' mx.conn_map } in
      let mx2 =
        if not (has_pending_rx c) && has_pending_rx c' then push_rx (conn_rx key) mx1 else mx1 in
      let mx3 =
        if not (will_expire now c) && will_expire now c'
        then queue_kill key c'.expiry mx2
        else mx2 in
      relisten key c' mx3

  -- The mutation also gives a value, which is `none` where there is no connection.
  unfoldable pub mutate :
      {A : Type 0}
      → ℕ
      → ConnMapKey
      → (VsockConnection S → A × VsockConnection S)
      → VsockMuxer S W
      → Option (VsockConnection S)
      → Option A × VsockMuxer S W
  mutate now key mut_fn mx none = (none, mx)
  mutate now key mut_fn mx (some c) =
      let (a, c') = mut_fn c in (some a, settle now key c (acked key c.state c') mx)

  unfoldable pub apply_conn_mutation :
      {A : Type 0}
      → ℕ
      → ConnMapKey
      → (VsockConnection S → A × VsockConnection S)
      → VsockMuxer S W
      → Option A × VsockMuxer S W
  apply_conn_mutation now key mut_fn mx = mutate now key mut_fn mx (get key mx.conn_map)
