-- ===== src/Vsock/Connection/Offers.antt =====
-- `VsockConnection::recv_pkt`, src/devices/src/virtio/vsock/csm/connection.rs: what it may give the guest.
use firecracker.Base.{
  ℕ, ◌+◌, ◌^◌, ◌≤◌, ◌<◌, ◌≡◌, ◌≢◌, ◌⊎◌, min, true, false, ◌-◌, leb, if◌then◌else◌, none, some, u32,
  sub32, err,
}
use firecracker.Vsock.TxBuf.{would_block}
use firecracker.Vsock.Packet.{
  io_error, guest_memory_mmap, VsockPacket, GuestRegions, Source, read_at_offset_from,
}
use firecracker.Vsock.PendingRx.{request, response, rst, rw_data, credit_update, contains}
use firecracker.Vsock.PendingRx.Items.{HasItems}
use firecracker.Vsock.Connection.{
  VsockConnection, has_pending_rx, init_pkt, op_request, op_response, op_rst, op_shutdown, op_rw,
  op_credit_update, op_credit_request,
}
use firecracker.Vsock.Connection.Recv.{peer_can_recv, Received}

-- Bytes sent to the guest that it has not said it has used.
abbrev pub in_flight : {S : Type 0} → VsockConnection S → ℕ
in_flight c = sub32 c.rx_cnt c.peer_fwd_cnt

-- What is free of the guest's buffer; or, where the guest has made it smaller than what is in flight,
-- what the difference of 32-bit words gives, which is far too much.
abbrev pub room : {S : Type 0} → VsockConnection S → ℕ
room c =
    if leb (in_flight c) c.peer_buf_alloc
    then c.peer_buf_alloc - in_flight c
    else 2 ^ 32 - (in_flight c - c.peer_buf_alloc)

pub record IsCounted {S : Type 0} (c : VsockConnection S) : Type 0 where
  pub buf_alloc_bound : c.peer_buf_alloc < 2 ^ 32
  pub rx_cnt_bound : c.rx_cnt < 2 ^ 32
  pub fwd_cnt_bound : c.peer_fwd_cnt < 2 ^ 32
  pub items : HasItems c.pending_rx

module _ {S M R : Type 0} (source : Source S) (gr : GuestRegions M R) (pkt : VsockPacket) (m : M)
    (c : VsockConnection S) where
  abbrev pub max_len : ℕ
  max_len = min pkt.buf_size (room c)

  -- What a packet without data is for: an indication that was pending, in the order of the checks. A
  -- pending read gives a reset where the guest does not receive or the read fails, a request of
  -- credit where there is none, and a shutdown at the end of the stream.
  pub data Indicated : ℕ → Type 0 where
    resets : contains rst c.pending_rx ≡ true → Indicated op_rst
    responds :
        contains rst c.pending_rx ≡ false
        → contains response c.pending_rx ≡ true
        → Indicated op_response
    requests :
        contains response c.pending_rx ≡ false
        → contains request c.pending_rx ≡ true
        → Indicated op_request
    refuses : contains rw_data c.pending_rx ≡ true → Indicated op_rst
    asks :
        contains rw_data c.pending_rx ≡ true
        → peer_can_recv c.state ≡ true
        → room c ≡ 0
        → Indicated op_credit_request
    closes :
        contains rw_data c.pending_rx ≡ true → peer_can_recv c.state ≡ true → Indicated op_shutdown
    updates : contains credit_update c.pending_rx ≡ true → Indicated op_credit_update

  -- The read from the stream has nothing yet.
  pub record IsBlocked : Type 0 where
    pub has_rw : contains rw_data c.pending_rx ≡ true
    pub state : M × S
    pub blocked :
        read_at_offset_from gr (init_pkt c pkt) m 0 source max_len c.stream
        ≡ (err (guest_memory_mmap (io_error would_block)), state)

  pub data OnRecv : Received S M → Type 0 where
    sent_data :
        {r : Received S M} {p : VsockPacket}
        → r.packet ≡ some p
        → p.hdr.op ≡ op_rw
        → 0 < p.hdr.len
        → p.hdr.len ≤ max_len
        → peer_can_recv c.state ≡ true
        → r.conn.rx_cnt ≡ u32 (c.rx_cnt + p.hdr.len)
        → r.conn.peer_fwd_cnt ≡ c.peer_fwd_cnt
        → OnRecv r
    sent_control :
        {r : Received S M} {p : VsockPacket}
        → r.packet ≡ some p
        → Indicated p.hdr.op
        → p.hdr.op ≢ op_rw
        → r.conn.rx_cnt ≡ c.rx_cnt
        → r.conn.peer_fwd_cnt ≡ c.peer_fwd_cnt
        → OnRecv r
    nothing :
        {r : Received S M}
        → r.packet ≡ none
        → r.conn.rx_cnt ≡ c.rx_cnt
        → r.conn.peer_fwd_cnt ≡ c.peer_fwd_cnt
        → IsBlocked ⊎ (has_pending_rx c ≡ false)
        → OnRecv r
