-- ===== src/Vsock/Muxer/Sweep.antt =====
-- `VsockMuxer::sweep_killq` and `add_connection`, src/devices/src/virtio/vsock/unix/muxer.rs.
use firecracker.Base.{
  ℕ, zero, suc, Bool, true, false, not, ◌&&◌, Option, none, some, List, [], ◌∷◌, length, leb,
  if◌then◌else◌,
}
use firecracker.Base.Maps.{get, insert}
use firecracker.Vsock.RxQ.{ConnMapKey, conn_rx}
use firecracker.Vsock.KillQ
use firecracker.Vsock.KillQ.{MuxerKillQItem}
use firecracker.Vsock.Connection.{VsockConnection, has_pending_rx, has_expired}
use firecracker.Vsock.Connection.Notify.{get_polled_evset}
use firecracker.Vsock.Muxer.{
  connection, Host, VsockMuxer, key_eq, max_connections, kill_walk, push_rx, kill_connection,
  add_listener,
}

unfoldable pub is_nil : List MuxerKillQItem → Bool
is_nil [] = true
is_nil (x ∷ xs) = false

module _ {S : Type 0} where
  unfoldable pub expired_at : ℕ → Option (VsockConnection S) → Bool
  expired_at now none = false
  expired_at now (some c) = has_expired now c

module _ {S W : Type 0} (now : ℕ) where
  unfoldable pub sweep_popped :
      Option ConnMapKey × KillQ.MuxerKillQ → VsockMuxer S W → VsockMuxer S W
  sweep_popped (none, r) mx = record mx { killq = r }
  sweep_popped (some key, r) mx =
      let mx' = record mx { killq = r } in
      if expired_at now (get key mx.conn_map) then kill_connection key mx' else mx'

  -- The loop pops what has expired; `none` where no round is left. A round for each item is enough,
  -- and one that finds none.
  unfoldable pub sweep_loop : ℕ → VsockMuxer S W → Option (VsockMuxer S W)
  sweep_loop zero mx = none
  sweep_loop (suc rounds) mx =
      let popped = KillQ.pop now mx.killq in
      let next = sweep_loop rounds (sweep_popped popped mx) in
      elim popped.0 [ none ↦ some mx | some key ↦ next ]

  unfoldable pub sweep_once : VsockMuxer S W → Option (VsockMuxer S W)
  sweep_once mx = sweep_loop (suc (length mx.killq.q)) mx

  unfoldable pub after_sweep :
      (VsockMuxer S W → Option (VsockMuxer S W)) → Option (VsockMuxer S W) → Option (VsockMuxer S W)
  after_sweep again none = none
  after_sweep again (some mx) =
      let rebuilt = again (record mx { killq = KillQ.from_conn_map (kill_walk now mx.conn_map) }) in
      if is_nil mx.killq.q && not mx.killq.synced then rebuilt else some mx

  -- `sweep_killq` calls itself after a queue is built again; `none` where no fuel is left.
  unfoldable pub sweep_killq : ℕ → VsockMuxer S W → Option (VsockMuxer S W)
  sweep_killq zero mx = none
  sweep_killq (suc fuel) mx = after_sweep (sweep_killq fuel) (sweep_once mx)

  -- Two calls of `sweep_killq` are enough; the connection is added unless there are too many.
  unfoldable pub connected :
      ConnMapKey → VsockConnection S → Bool × VsockMuxer S W → Bool × VsockMuxer S W
  connected key c (false, mx) = (false, mx)
  connected key c (true, mx) =
      let mx' = if has_pending_rx c then push_rx (conn_rx key) mx else mx in
      (true, record mx' { conn_map = insert key c mx'.conn_map })

  unfoldable pub add_swept :
      Host S W
      → ConnMapKey
      → VsockConnection S
      → Option (VsockMuxer S W)
      → Option (Bool × VsockMuxer S W)
  add_swept io key c none = none
  add_swept io key c (some mx) = some (
      if leb max_connections (length mx.conn_map)
      then (false, mx)
      else connected key c
          (add_listener io (io.raw_fd c.stream) (connection key (get_polled_evset c)) mx))

  -- `false` is an error.
  unfoldable pub add_connection :
      Host S W → ConnMapKey → VsockConnection S → VsockMuxer S W → Option (Bool × VsockMuxer S W)
  add_connection io key c mx = add_swept io key c (sweep_killq 2 mx)
