-- ===== src/Vsock/Transfers.antt =====
-- Tests of a vsock connection over a memory of one region, and its theorems at concrete inputs.
use firecracker.Base.{
  ℕ, zero, suc, ◌+◌, ◌-◌, ◌^◌, ◌≤◌, ◌<◌, ◌≡◌, refl, ap, min, true, false, none, some, List, [], ◌∷◌,
  ◌++◌, length, take, replicate, ltb, if◌then◌else◌, Result, ok, err, ok-inj, arith,
}
use firecracker.Vsock.TxBuf.{IoErrorKind, size, Sink, push}
use firecracker.Vsock.Packet.{
  GuestMemoryError, io_error, VsockPacket, GuestRegions, Source, write_from_offset_to, write_region,
  buf_region_addr, buf_at, ok_or_bounds, offset_region, in_region, keep_if_some, map_err,
}
use firecracker.Vsock.Packet.Buffer.{passed, IsReader}
use firecracker.Queue.Flat
use firecracker.Queue.Flat.{Bytes, put_u16}
use firecracker.Queue.Descriptor.{
  DescriptorChain, is_write_only, next_descriptor, has_next, checked_new, read_head, chain_of,
  is_valid_chain, count_down,
}
use firecracker.Vsock.Packet.Chain.{
  PacketMemory, default_header, check_hdr_desc, check_desc_write_only, first_error, unless,
  tx_packet, check_len, check_buf, init_buf, init_buf_at, from_tx_virtq_head, from_rx_virtq_head,
}
use firecracker.Vsock.Packet.Chain.Checked.{
  OnPacket, IsHeader, IsTx, IsRx, from_virtq_head-IsChecked,
}
use firecracker.Vsock.PendingRx.{from, rw_data}
use firecracker.Vsock.PendingRx.Items.{from-HasItems}
use firecracker.Vsock.Connection.{
  VsockConnection, established, peer_avail_credit, peer_needs_credit_update,
}
use firecracker.Vsock.Connection.Send.{send_pkt, dispatch, peer_can_send, sent_data, sched_credit}
use firecracker.Vsock.Connection.Transfer.{
  send_bytes, after_stream, written_or_err, buffer_rest, buffered, tx_sink, tx_written,
}
use firecracker.Vsock.Connection.Recv.{recv_pkt}
use firecracker.Vsock.Connection.Offers.{OnRecv, IsCounted, in_flight}
use firecracker.Vsock.Connection.Receives.{recv_pkt-OnRecv}
use firecracker.Vsock.Connection.Credit.{peer_avail_credit-wraps, recv_pkt-within_credit}

-- The memory is a function from addresses to bytes.
abbrev slice : (ℕ → ℕ) → ℕ → ℕ → List ℕ
slice m a zero = []
slice m a (suc n) = m a ∷ slice m (a + 1) n

-- The count of a read, and the memory and stream after it; the bytes are not kept.
abbrev stored :
    {S : Type 0}
    → (ℕ → ℕ)
    → ℕ
    → Result IoErrorKind (List ℕ) × S
    → Result GuestMemoryError ℕ × ((ℕ → ℕ) × S)
stored m n (ok xs, s) = (ok (min n (length xs)), (m, s))
stored m n (err kind, s) = (err (io_error kind), (m, s))

abbrev one_region : GuestRegions (ℕ → ℕ) ℕ
one_region = record {
  checked_add = λ a k. if ltb (a + k) (2 ^ 64) then some (a + k) else none;
  to_region_addr = λ m a. some (0, a);
  checked_offset = λ r a k. some (a + k);
  write_to = λ {W} sink m r a n w. passed (sink.write w (slice m a n));
  read_from = λ {S} source m r a n s. stored m n (source.read s n);
}

-- A stream that takes three bytes at a time, and has three to read.
abbrev slow_stream : Sink (List ℕ)
slow_stream = record { write = λ w xs. (ok (min 3 (length xs)), w ++ take (min 3 (length xs)) xs) }

abbrev three : Source (List ℕ)
three = record { read = λ s n. (ok (take n (5 ∷ 6 ∷ 7 ∷ [])), s) }

three-IsReader : IsReader one_region three
three-IsReader = record { read_from_bound = λ e. omega (arith, ok-inj (ap (λ p. p.0) e)) }

abbrev connected : VsockConnection (List ℕ)
connected = record {
  state = established;
  local_cid = 2;
  peer_cid = 3;
  local_port = 1_026;
  peer_port = 1_025;
  stream = [];
  tx_buf = record { data_of = none; head = 0; tail = 0 };
  fwd_cnt = 4_294_967_294;
  peer_buf_alloc = 4_096;
  peer_fwd_cnt = 10;
  rx_cnt = 14;
  last_fwd_cnt_to_peer = 4_294_967_294;
  pending_rx = from rw_data;
  expiry = none;
}

connected-IsCounted : IsCounted connected
connected-IsCounted = record {
  buf_alloc_bound = omega arith;
  rx_cnt_bound = omega arith;
  fwd_cnt_bound = omega arith;
  items = from-HasItems rw_data;
}

-- A packet of data of five bytes at the address 100, which are 100 to 104.
abbrev five_bytes : VsockPacket
five_bytes = record {
  hdr_addr = 0;
  hdr = record {
    src_cid = 3;
    dst_cid = 2;
    src_port = 1_025;
    dst_port = 1_026;
    len = 5;
    type_of = 1;
    op = 5;
    flags = 0;
    buf_alloc = 8_192;
    fwd_cnt = 14;
  };
  buf_addr = some 100;
  buf_size = 16;
}

abbrev blank : VsockPacket
blank = record five_bytes { hdr = record five_bytes.hdr { len = 0; op = 0 } }

abbrev addresses : ℕ → ℕ
addresses a = a

-- Three bytes go to the stream and two wait.
send_pkt_test :
    (send_pkt slow_stream one_region addresses 7 five_bytes connected).stream ≡ 100 ∷ 101 ∷ 102 ∷ []
unfolding send_pkt dispatch peer_can_send sent_data sched_credit peer_needs_credit_update send_bytes
    write_from_offset_to write_region buf_region_addr buf_at ok_or_bounds offset_region in_region
    keep_if_some map_err passed after_stream written_or_err buffer_rest buffered tx_sink tx_written
    push
send_pkt_test = refl

recv_pkt-OnRecv_example :
    OnRecv three one_region blank addresses connected
      (recv_pkt three one_region 7 blank addresses connected)
recv_pkt-OnRecv_example =
    recv_pkt-OnRecv three one_region three-IsReader blank refl addresses 7 connected
      connected-IsCounted

recv_pkt-within_credit_example :
    in_flight (recv_pkt three one_region 7 blank addresses connected).conn
    ≤ connected.peer_buf_alloc
recv_pkt-within_credit_example =
    recv_pkt-within_credit three one_region three-IsReader blank refl addresses 7 connected
      connected-IsCounted (omega arith)

-- A guest that has made its buffer smaller than what is in flight.
abbrev shrunk : VsockConnection (List ℕ)
shrunk = record connected { peer_buf_alloc = 3 }

shrunk-IsCounted : IsCounted shrunk
shrunk-IsCounted = record {
  buf_alloc_bound = omega arith;
  rx_cnt_bound = omega arith;
  fwd_cnt_bound = omega arith;
  items = from-HasItems rw_data;
}

peer_avail_credit-wraps_example :
    (in_flight shrunk ≤ shrunk.peer_buf_alloc
      → in_flight shrunk + peer_avail_credit shrunk ≡ shrunk.peer_buf_alloc)
    × (shrunk.peer_buf_alloc < in_flight shrunk
        → peer_avail_credit shrunk + (in_flight shrunk - shrunk.peer_buf_alloc) ≡ 2 ^ 32)
peer_avail_credit-wraps_example = peer_avail_credit-wraps shrunk shrunk-IsCounted

-- Six bytes wait.
abbrev waiting : VsockConnection (List ℕ)
waiting = record connected {
  tx_buf = record { data_of = some (replicate size 7); head = 6; tail = 0 };
}

-- A table of descriptors at 0, whose second is a readable buffer of eight bytes at 512.
abbrev chain_memory : Bytes
chain_memory = put_u16 (put_u16 (λ _. 0) 16 512) 24 8

abbrev packet_memory : PacketMemory Bytes
packet_memory = record {
  guest = Flat.flat;
  check_range = λ m a n. ltb (a + n) 65_536;
  read_header = λ m a. ok (record default_header { len = 5; op = 5 });
  write_header = λ m a hdr. ok m;
}

abbrev chain_head : DescriptorChain
chain_head = record {
  desc_table = 0;
  queue_size = 4;
  ttl = 4;
  index = 0;
  addr = 256;
  len = 44;
  flags = 1;
  next = 1;
}

from_tx_virtq_head_test :
    from_tx_virtq_head packet_memory chain_memory chain_head
    ≡ ok (record {
      hdr_addr = 256;
      hdr = record default_header { len = 5; op = 5 };
      buf_addr = some 512;
      buf_size = 8;
    })
unfolding from_tx_virtq_head check_hdr_desc check_desc_write_only first_error unless is_write_only
    tx_packet check_len check_buf init_buf init_buf_at next_descriptor has_next checked_new
    read_head chain_of is_valid_chain count_down
from_tx_virtq_head_test = refl

from_virtq_head-IsChecked_example :
    OnPacket
      (λ p.
        IsHeader packet_memory chain_memory chain_head false
        × IsTx packet_memory chain_memory chain_head p)
      (from_tx_virtq_head packet_memory chain_memory chain_head)
    × OnPacket
        (λ p.
          IsHeader packet_memory chain_memory chain_head true
          × IsRx packet_memory chain_memory chain_head p)
        (from_rx_virtq_head packet_memory chain_memory chain_head)
from_virtq_head-IsChecked_example = from_virtq_head-IsChecked packet_memory chain_memory chain_head
