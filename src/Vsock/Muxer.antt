-- ===== src/Vsock/Muxer.antt =====
-- `VsockMuxer`, src/devices/src/virtio/vsock/unix/muxer.rs: its state, its listeners and its ports.
use firecracker.Base.{
  ℕ, zero, suc, ◌+◌, ◌-◌, ◌^◌, bit_and, bit_or, Bool, true, false, not, ◌&&◌, Option, none, some,
  List, [], ◌∷◌, map, length, ◌==◌, if◌then◌else◌, u32, Result, ok, err, ◌↔◌, ◌≡◌, arith,
}
use firecracker.Base.Maps.{Eq, nat_eq, get, insert, remove}
use firecracker.Vsock.TxBuf.{Sink}
use firecracker.Vsock.RxQ.{ConnMapKey, MuxerRx, conn_rx, rst_pkt, MuxerRxQ}
use firecracker.Vsock.RxQ
use firecracker.Vsock.KillQ.{MuxerKillQ}
use firecracker.Vsock.KillQ
use firecracker.Vsock.Connection.{VsockConnection, has_pending_rx, will_expire, kill}
use firecracker.Vsock.Connection.Notify.{EventSet}
pub mod Ports
pub mod Mutation
pub mod Sweep
pub mod Channel
pub mod Events
pub mod Sound
pub mod Calls
pub mod Heard
pub mod Queued
pub mod Tracked
pub mod Kept
pub mod Sweeps
pub mod Upkeep
pub mod Noticed
pub mod Turns
pub mod Receive
pub mod Loop
pub mod Reach
mod Examples

-- Keys are equal where both ports are.
unfoldable pub same_key : ConnMapKey → ConnMapKey → Bool
same_key a b = a.local_port == b.local_port && a.peer_port == b.peer_port

pub same_key_iff : (a b : ConnMapKey) → (same_key a b ≡ true) ↔ (a ≡ b)
unfolding same_key
same_key_iff a b = ((λ h. ground (arith, h)), (λ h. ground (arith, h)))

instance abbrev pub key_eq : Eq ConnMapKey
key_eq = record { beq = same_key; beq_iff = same_key_iff }

-- `defs::MAX_CONNECTIONS`.
abbrev pub max_connections : ℕ
max_connections = 1_023

pub data EpollListener (S : Type 0) : Type 0 where
  connection : ConnMapKey → EventSet → EpollListener S
  host_sock : EpollListener S
  local_stream : S → EpollListener S

-- The calls of `Epoll::ctl`, each with the descriptor.
pub data Control : Type 0 where
  add : ℕ → EventSet → Control
  delete : ℕ → Control
  modify : ℕ → EventSet → Control

-- What the muxer asks of the host, with the streams `S` and the state `W` of the rest: the
-- descriptor of a stream; `ctl`, where `false` is an error; a connection to the socket of a port and
-- one accepted, both made non-blocking; the events that wait, 32 at most; the text `OK <port>`; `read_exact` of a stream; and, of
-- UTF-8, the words of a text, whether one is `connect` in lower case, and `parse`.
pub record Host (S W : Type 0) : Type 0 where
  pub sink : Sink S
  pub raw_fd : S → ℕ
  pub ctl : Control → W → Bool × W
  pub connect : ℕ → W → Option S × W
  pub accept : W → Option S × W
  pub wait : W → Option (List (ℕ × EventSet)) × W
  pub ok_text : ℕ → List ℕ
  pub read_exact : ℕ → S → Option (List ℕ) × S
  pub words : List ℕ → Option (List (List ℕ))
  pub is_connect : List ℕ → Bool
  pub parse_u32 : List ℕ → Option ℕ

pub record VsockMuxer (S W : Type 0) : Type 0 where
  pub cid : ℕ
  pub conn_map : List (ConnMapKey × VsockConnection S)
  pub listener_map : List (ℕ × EpollListener S)
  pub rxq : MuxerRxQ
  pub killq : MuxerKillQ
  pub local_port_set : List ℕ
  pub local_port_last : ℕ
  pub host : W

abbrev pub event_in : EventSet
event_in = record { readable = true; writable = false }

unfoldable pub same_bool : Bool → Bool → Bool
same_bool true b = b
same_bool false b = not b

unfoldable pub same_evset : EventSet → EventSet → Bool
same_evset a b = same_bool a.readable b.readable && same_bool a.writable b.writable

unfoldable pub is_no_event : EventSet → Bool
is_no_event evset = not evset.readable && not evset.writable

unfoldable pub has_port : ℕ → List ℕ → Bool
has_port port [] = false
has_port port (p ∷ ps) = let rest = has_port port ps in if p == port then true else rest

unfoldable pub drop_port : ℕ → List ℕ → List ℕ
drop_port port [] = []
drop_port port (p ∷ ps) = let rest = drop_port port ps in if p == port then rest else p ∷ rest

module _ {S : Type 0} where
  -- The walks of the map that the queues are built from.
  unfoldable pub rx_walk : List (ConnMapKey × VsockConnection S) → List (ConnMapKey × Bool)
  rx_walk [] = []
  rx_walk ((key, c) ∷ conns) = (key, has_pending_rx c) ∷ rx_walk conns

  unfoldable pub kill_walk :
      ℕ → List (ConnMapKey × VsockConnection S) → List (ConnMapKey × Option ℕ)
  kill_walk now [] = []
  kill_walk now ((key, c) ∷ conns) =
      (key, if will_expire now c then c.expiry else none) ∷ kill_walk now conns

  unfoldable pub listener_evset : EpollListener S → EventSet
  listener_evset (connection key evset) = evset
  listener_evset host_sock = event_in
  listener_evset (local_stream s) = event_in

module _ {S W : Type 0} where
  unfoldable pub push_rx : MuxerRx → VsockMuxer S W → VsockMuxer S W
  push_rx rx mx = record mx { rxq = (RxQ.push rx mx.rxq).1 }

  unfoldable pub enq_rst : ℕ → ℕ → VsockMuxer S W → VsockMuxer S W
  enq_rst local_port peer_port mx = push_rx (rst_pkt local_port peer_port) mx

  unfoldable pub muxer_has_pending_rx : VsockMuxer S W → Bool
  muxer_has_pending_rx mx = elim mx.rxq.q [ [] ↦ not mx.rxq.synced | x ∷ xs ↦ true ]

  -- The connection that is killed, and whether it had something pending.
  unfoldable pub kill_found :
      ConnMapKey → VsockMuxer S W → Option (VsockConnection S) → VsockMuxer S W
  kill_found key mx none = push_rx (conn_rx key) mx
  kill_found key mx (some c) =
      let mx' = record mx { conn_map = insert key (kill c) mx.conn_map } in
      if has_pending_rx c then mx' else push_rx (conn_rx key) mx'

  unfoldable pub kill_connection : ConnMapKey → VsockMuxer S W → VsockMuxer S W
  kill_connection key mx = kill_found key mx (get key mx.conn_map)

  unfoldable pub free_local_port : ℕ → VsockMuxer S W → VsockMuxer S W
  free_local_port port mx = record mx { local_port_set = drop_port port mx.local_port_set }

  module _ (io : Host S W) where
    -- The listener is in the map where `ctl` has added it.
    unfoldable pub add_listener : ℕ → EpollListener S → VsockMuxer S W → Bool × VsockMuxer S W
    add_listener fd listener mx =
        let (added, w) = io.ctl (add fd (listener_evset listener)) mx.host in
        if added
        then (true, record mx { host = w; listener_map = insert fd listener mx.listener_map })
        else (false, record mx { host = w })

    -- `new`, once the socket and the nested epoll are there: `false` is an error.
    unfoldable pub new : ℕ → ℕ → W → Bool × VsockMuxer S W
    new cid host_sock_fd w = add_listener host_sock_fd host_sock (record {
      cid = cid;
      conn_map = [];
      listener_map = [];
      rxq = RxQ.new;
      killq = KillQ.new;
      local_port_set = [];
      local_port_last = 2 ^ 30 - 1;
      host = w;
    })

    -- An error of `ctl` is only logged.
    unfoldable pub remove_found :
        ℕ → VsockMuxer S W → Option (EpollListener S) → Option (EpollListener S) × VsockMuxer S W
    remove_found fd mx none = (none, mx)
    remove_found fd mx (some listener) = (
      some listener,
      record mx { host = (io.ctl (delete fd) mx.host).1; listener_map = remove fd mx.listener_map },
    )

    unfoldable pub remove_listener : ℕ → VsockMuxer S W → Option (EpollListener S) × VsockMuxer S W
    remove_listener fd mx = remove_found fd mx (get fd mx.listener_map)

    unfoldable pub remove_conn :
        ConnMapKey → VsockMuxer S W → Option (VsockConnection S) → VsockMuxer S W
    remove_conn key mx none = mx
    remove_conn key mx (some c) =
        (remove_listener (io.raw_fd c.stream) (record mx { conn_map = remove key mx.conn_map })).1

    unfoldable pub remove_connection : ConnMapKey → VsockMuxer S W → VsockMuxer S W
    remove_connection key mx =
        free_local_port key.local_port (remove_conn key mx (get key mx.conn_map))
