-- ===== src/Vsock/Connection/Credit.antt =====
-- The credit of the guest, src/devices/src/virtio/vsock/csm/connection.rs.
use firecracker.Base.{ℕ, ◌+◌, ◌-◌, ◌^◌, ◌≤◌, ◌<◌, ◌≡◌, arith}
use firecracker.Vsock.Packet.{GuestRegions, VsockPacket, Source}
use firecracker.Vsock.Packet.Buffer.{IsReader}
use firecracker.Vsock.Connection.{VsockConnection, peer_avail_credit}
use firecracker.Vsock.Connection.Recv.{Received, recv_pkt}
use firecracker.Vsock.Connection.Offers.{
  in_flight, room, IsCounted, OnRecv, sent_data, sent_control, nothing,
}
use firecracker.Vsock.Connection.Receives.{recv_pkt-OnRecv}

module _ {S : Type 0} (c : VsockConnection S) (v : IsCounted c) where
  -- With no more in flight than the guest has room for, the credit is what is left of the room.
  -- Where the guest has made its buffer smaller than what is in flight, there is no room, but the
  -- subtraction wraps around and the credit is what is missing from 2 ^ 32.
  pub peer_avail_credit-wraps :
      (in_flight c ≤ c.peer_buf_alloc → in_flight c + peer_avail_credit c ≡ c.peer_buf_alloc)
      × (c.peer_buf_alloc < in_flight c
          → peer_avail_credit c + (in_flight c - c.peer_buf_alloc) ≡ 2 ^ 32)
  unfolding peer_avail_credit
  peer_avail_credit-wraps = (
    (λ le. omega (arith, le, v.buf_alloc_bound)),
    (λ lt. omega (arith, lt, v.rx_cnt_bound, v.fwd_cnt_bound, v.buf_alloc_bound)),
  )

  within :
      {M R : Type 0} (source : Source S) (gr : GuestRegions M R) (pkt : VsockPacket) (m : M)
      (r : Received S M)
      → in_flight c ≤ c.peer_buf_alloc
      → OnRecv source gr pkt m c r
      → in_flight r.conn ≤ c.peer_buf_alloc
  unfolding peer_avail_credit
  within source gr pkt m r le (sent_data e op pos bound can_recv rx fwd) =
      let free : room c ≡ c.peer_buf_alloc - in_flight c = ground (arith, le) in
      omega (arith, le, bound, free, rx, fwd, v.rx_cnt_bound, v.fwd_cnt_bound, v.buf_alloc_bound)
  within source gr pkt m r le (sent_control e why op rx fwd) = omega (arith, le, rx, fwd)
  within source gr pkt m r le (nothing e rx fwd why) = omega (arith, le, rx, fwd)

-- A call of `recv_pkt` leaves no more in flight than the guest has room for, where there was no more
-- before, the packet's header is empty and the counters are words.
pub recv_pkt-within_credit :
    {S M R : Type 0} (source : Source S) (gr : GuestRegions M R)
    → IsReader gr source
    → (pkt : VsockPacket) → pkt.hdr.len ≡ 0
    → (m : M) (now : ℕ) (c : VsockConnection S) → IsCounted c
    → in_flight c ≤ c.peer_buf_alloc
    → in_flight (recv_pkt source gr now pkt m c).conn ≤ c.peer_buf_alloc
recv_pkt-within_credit source gr law pkt empty m now c v le =
    within c v source gr pkt m (recv_pkt source gr now pkt m c) le
      (recv_pkt-OnRecv source gr law pkt empty m now c v)
