-- ===== src/Vsock/Connection.antt =====
-- `VsockConnection`, src/devices/src/virtio/vsock/csm/connection.rs: the state and the operations
-- that read it or make it.
use firecracker.Base.{ℕ, ◌+◌, Bool, true, false, not, Option, none, some, ltb, leb, ◌==◌, sub32}
use firecracker.Vsock.TxBuf.{TxBuf}
use firecracker.Vsock.TxBuf
use firecracker.Vsock.Packet.{VsockPacket}
use firecracker.Vsock.PendingRx.{PendingRxSet, insert, is_empty, from, request, response, rst}
pub mod Transfer
pub mod Send
pub mod Recv
pub mod Notify
pub mod Delivers
pub mod Sends
pub mod Offers
pub mod Receives
pub mod Credit
pub mod Drains

pub data ConnState : Type 0 where
  local_init : ConnState
  peer_init : ConnState
  established : ConnState
  local_closed : ConnState
  peer_closed : Bool → Bool → ConnState
  killed : ConnState

-- `super::defs` and `uapi`; times are in milliseconds.
abbrev pub conn_credit_update_threshold : ℕ
conn_credit_update_threshold = 4_096

abbrev pub conn_request_timeout_ms : ℕ
conn_request_timeout_ms = 2_000

abbrev pub conn_shutdown_timeout_ms : ℕ
conn_shutdown_timeout_ms = 2_000

abbrev pub op_request : ℕ
op_request = 1

abbrev pub op_response : ℕ
op_response = 2

abbrev pub op_rst : ℕ
op_rst = 3

abbrev pub op_shutdown : ℕ
op_shutdown = 4

abbrev pub op_rw : ℕ
op_rw = 5

abbrev pub op_credit_update : ℕ
op_credit_update = 6

abbrev pub op_credit_request : ℕ
op_credit_request = 7

abbrev pub flags_shutdown_rcv : ℕ
flags_shutdown_rcv = 1

abbrev pub flags_shutdown_send : ℕ
flags_shutdown_send = 2

abbrev pub type_stream : ℕ
type_stream = 1

pub record VsockConnection (S : Type 0) : Type 0 where
  pub state : ConnState
  pub local_cid : ℕ
  pub peer_cid : ℕ
  pub local_port : ℕ
  pub peer_port : ℕ
  pub stream : S
  pub tx_buf : TxBuf
  pub fwd_cnt : ℕ
  pub peer_buf_alloc : ℕ
  pub peer_fwd_cnt : ℕ
  pub rx_cnt : ℕ
  pub last_fwd_cnt_to_peer : ℕ
  pub pending_rx : PendingRxSet
  pub expiry : Option ℕ

unfoldable pub will_expire_at : ℕ → Option ℕ → Bool
will_expire_at now none = false
will_expire_at now (some t) = ltb now t

unfoldable pub has_expired_at : ℕ → Option ℕ → Bool
has_expired_at now none = false
has_expired_at now (some t) = leb t now

module _ {S : Type 0} where
  unfoldable pub new_peer_init : S → ℕ → ℕ → ℕ → ℕ → ℕ → VsockConnection S
  new_peer_init stream local_cid peer_cid local_port peer_port peer_buf_alloc = record {
    state = peer_init;
    local_cid = local_cid;
    peer_cid = peer_cid;
    local_port = local_port;
    peer_port = peer_port;
    stream = stream;
    tx_buf = TxBuf.new;
    fwd_cnt = 0;
    peer_buf_alloc = peer_buf_alloc;
    peer_fwd_cnt = 0;
    rx_cnt = 0;
    last_fwd_cnt_to_peer = 0;
    pending_rx = from response;
    expiry = none;
  }

  unfoldable pub new_local_init : S → ℕ → ℕ → ℕ → ℕ → VsockConnection S
  new_local_init stream local_cid peer_cid local_port peer_port = record {
    state = local_init;
    local_cid = local_cid;
    peer_cid = peer_cid;
    local_port = local_port;
    peer_port = peer_port;
    stream = stream;
    tx_buf = TxBuf.new;
    fwd_cnt = 0;
    peer_buf_alloc = 0;
    peer_fwd_cnt = 0;
    rx_cnt = 0;
    last_fwd_cnt_to_peer = 0;
    pending_rx = from request;
    expiry = none;
  }

  unfoldable pub has_pending_rx : VsockConnection S → Bool
  has_pending_rx c = not (is_empty c.pending_rx)

  unfoldable pub will_expire : ℕ → VsockConnection S → Bool
  will_expire now c = will_expire_at now c.expiry

  unfoldable pub has_expired : ℕ → VsockConnection S → Bool
  has_expired now c = has_expired_at now c.expiry

  unfoldable pub kill : VsockConnection S → VsockConnection S
  kill c = record c { state = killed; pending_rx = insert rst c.pending_rx }

  unfoldable pub peer_needs_credit_update : VsockConnection S → Bool
  peer_needs_credit_update c =
      ltb (sub32 TxBuf.size (sub32 c.fwd_cnt c.last_fwd_cnt_to_peer)) conn_credit_update_threshold

  unfoldable pub peer_avail_credit : VsockConnection S → ℕ
  peer_avail_credit c = sub32 c.peer_buf_alloc (sub32 c.rx_cnt c.peer_fwd_cnt)

  unfoldable pub need_credit_update_from_peer : VsockConnection S → Bool
  need_credit_update_from_peer c = peer_avail_credit c == 0

  unfoldable pub init_pkt : VsockConnection S → VsockPacket → VsockPacket
  init_pkt c pkt = record pkt {
    hdr = record pkt.hdr {
      src_cid = c.local_cid;
      dst_cid = c.peer_cid;
      src_port = c.local_port;
      dst_port = c.peer_port;
      type_of = type_stream;
      buf_alloc = TxBuf.size;
      fwd_cnt = c.fwd_cnt;
    };
  }
