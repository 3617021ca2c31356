-- ===== src/Vsock/Connection/Sends.antt =====
-- `VsockConnection::send_pkt`, src/devices/src/virtio/vsock/csm/connection.rs, on every packet.
use firecracker.Base.{ℕ, ◌≡◌, Bool, true, false, not, ◌&&◌, List, ◌==◌}
use firecracker.Vsock.TxBuf.{Sink}
use firecracker.Vsock.Packet.{GuestRegions, VsockPacket}
use firecracker.Vsock.PendingRx.{contains, rst, credit_update}
use firecracker.Vsock.Connection.{killed, VsockConnection, peer_needs_credit_update, op_rw}
use firecracker.Vsock.Connection.Send.{peer_can_send}
use firecracker.Vsock.Connection.Delivers.{IsDelivered, IsCut, Fault}

-- No byte moves.
pub record IsKept {S : Type 0} (c c' : VsockConnection S) : Type 0 where
  pub same_stream : c'.stream ≡ c.stream
  pub same_buf : c'.tx_buf ≡ c.tx_buf
  pub same_count : c'.fwd_cnt ≡ c.fwd_cnt

-- A packet of data that the state allows.
abbrev pub is_data : {S : Type 0} → VsockPacket → VsockConnection S → Bool
is_data pkt c = (peer_can_send c.state && (pkt.hdr.op == op_rw)) && not (pkt.buf_size == 0)

-- With the credit that the packet brings.
abbrev pub told : {S : Type 0} → VsockPacket → VsockConnection S → VsockConnection S
told pkt c = record c { peer_buf_alloc = pkt.hdr.buf_alloc; peer_fwd_cnt = pkt.hdr.fwd_cnt }

module _ {S M R : Type 0} (sink : Sink S) (received : S → List ℕ) (gr : GuestRegions M R)
    (bytes : M → ℕ → ℕ → List ℕ) (m : M) (pkt : VsockPacket) where
  pub data OnSend (c : VsockConnection S) : VsockConnection S → Type 0 where
    delivered :
        {c' : VsockConnection S}
        → is_data pkt c ≡ true
        → IsDelivered sink received gr bytes m pkt c c'
        → (peer_needs_credit_update c' ≡ true → contains credit_update c'.pending_rx ≡ true)
        → OnSend c c'
    terminated :
        {c' : VsockConnection S}
        → is_data pkt c ≡ true
        → Fault sink received gr bytes m pkt c
        → IsCut sink received gr bytes m pkt c c'
        → c'.state ≡ killed
        → contains rst c'.pending_rx ≡ true
        → OnSend c c'
    absorbed : {c' : VsockConnection S} → is_data pkt c ≡ false → IsKept c c' → OnSend c c'
