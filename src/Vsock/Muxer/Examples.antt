-- ===== src/Vsock/Muxer/Examples.antt =====
-- Tests of `VsockMuxer`, and its theorems at concrete inputs.
use firecracker.Base.{ℕ, ◌-◌, ◌^◌, ◌≡◌, refl, true, false, none, some, [], ◌∷◌, length, ok, arith}
use firecracker.Base.Maps.{get, insert, nat_eq}
use firecracker.Vsock.RxQ.{ConnMapKey}
use firecracker.Vsock.RxQ
use firecracker.Vsock.KillQ
use firecracker.Vsock.TxBuf
use firecracker.Vsock.Packet.{VsockPacket, GuestRegions, Source, set_op}
use firecracker.Vsock.PendingRx.{is_empty, contains, without, from, index}
use firecracker.Vsock.Connection.{
  VsockConnection, established, has_pending_rx, new_peer_init, op_request, type_stream, will_expire,
  will_expire_at, init_pkt,
}
use firecracker.Vsock.Connection.Recv
use firecracker.Vsock.Muxer.{
  connection, host_sock, Host, VsockMuxer, key_eq, event_in, new, add_listener, push_rx,
  muxer_has_pending_rx,
}
use firecracker.Vsock.Muxer.Ports.{allocate_local_port}
use firecracker.Vsock.Muxer.Ports.Fresh.{IsAllocated, allocate_local_port-IsAllocated}
use firecracker.Vsock.Muxer.{same_key, is_no_event, same_evset, same_bool}
use firecracker.Vsock.Muxer.Mutation.{
  apply_conn_mutation, mutate, acked, settle, relisten, update_listener, modify_listener,
  unless_done, is_local_init, is_established,
}
use firecracker.Vsock.Muxer.Sweep.{
  add_connection, add_swept, sweep_killq, is_nil, sweep_once, after_sweep, sweep_loop, connected,
}
use firecracker.Vsock.Connection.{op_response, need_credit_update_from_peer, peer_avail_credit}
use firecracker.Vsock.Connection.Notify.{get_polled_evset, cannot_send_to_peer}
use firecracker.Vsock.Muxer.Channel.{
  Delivery, host_cid, send_pkt, recv_pkt, route, handle_peer_request_pkt, requested, request_added,
  target_key, source_key, synced_rxq, recv_loop, recv_first, recv_conn, conn_recv, conn_popped,
  pop_rx, recv_next,
}
use firecracker.Vsock.Muxer.Kept.{Tracks}
use firecracker.Vsock.Muxer.Reach.{
  Reached, started, sent, received, Reached-Tracks, no_rx_forgotten, calls_return,
}

-- Streams are numbers, which are their descriptors too.
abbrev host : Host ℕ ℕ
host = record {
  sink = record { write = λ s xs. (ok (length xs), s) };
  raw_fd = λ s. s;
  ctl = λ c w. (true, w);
  connect = λ port w. (some 40, w);
  accept = λ w. (some 41, w);
  wait = λ w. (none, w);
  ok_text = λ port. port ∷ [];
  read_exact = λ n s. (none, s);
  words = λ text. none;
  is_connect = λ word. false;
  parse_u32 = λ word. none;
}

abbrev no_data : Source ℕ
no_data = record { read = λ s n. (ok [], s) }

abbrev no_regions : GuestRegions ℕ ℕ
no_regions = record {
  checked_add = λ a k. none;
  to_region_addr = λ m a. none;
  checked_offset = λ r a k. none;
  write_to = λ {W} sink m r a n w. (ok 0, w);
  read_from = λ {S} source m r a n s. (ok 0, (m, s));
}

abbrev request_pkt : VsockPacket
request_pkt = record {
  hdr_addr = 0;
  hdr = record {
    src_cid = 3;
    dst_cid = host_cid;
    src_port = 1_024;
    dst_port = 52;
    len = 0;
    type_of = type_stream;
    op = op_request;
    flags = 0;
    buf_alloc = 4_096;
    fwd_cnt = 0;
  };
  buf_addr = none;
  buf_size = 0;
}

abbrev key : ConnMapKey
key = record { local_port = 52; peer_port = 1_024 }

abbrev first_muxer : VsockMuxer ℕ ℕ
first_muxer = (new host 3 7 0).1

abbrev requested_conn : VsockConnection ℕ
requested_conn = new_peer_init 40 host_cid 3 52 1_024 4_096

abbrev requested_muxer : VsockMuxer ℕ ℕ
requested_muxer = record {
  cid = 3;
  conn_map = (key, requested_conn) ∷ [];
  listener_map = (7, host_sock) ∷ (40, connection key event_in) ∷ [];
  rxq = record { q = RxQ.conn_rx key ∷ []; synced = true };
  killq = record { q = []; synced = true };
  local_port_set = [];
  local_port_last = 2 ^ 30 - 1;
  host = 0;
}

request_pkt_sent : send_pkt host no_regions 0 request_pkt 0 first_muxer ≡ some requested_muxer
unfolding send_pkt new route get add_listener handle_peer_request_pkt requested request_added
    add_connection add_swept sweep_killq is_nil sweep_once after_sweep sweep_loop connected
    has_pending_rx insert is_empty RxQ.new KillQ.new KillQ.pop KillQ.pop_front push_rx RxQ.push
    RxQ.is_full new_peer_init get_polled_evset cannot_send_to_peer need_credit_update_from_peer
    peer_avail_credit TxBuf.new same_key target_key from index
request_pkt_sent = refl

abbrev response_pkt : VsockPacket
response_pkt = record {
  hdr_addr = 0;
  hdr = record {
    src_cid = host_cid;
    dst_cid = 3;
    src_port = 52;
    dst_port = 1_024;
    len = 0;
    type_of = type_stream;
    op = op_response;
    flags = 0;
    buf_alloc = TxBuf.size;
    fwd_cnt = 0;
  };
  buf_addr = none;
  buf_size = 0;
}

abbrev established_conn : VsockConnection ℕ
established_conn = record requested_conn { state = established; pending_rx = record { bits = 0 } }

abbrev established_muxer : VsockMuxer ℕ ℕ
established_muxer = record requested_muxer {
  conn_map = (key, established_conn) ∷ [];
  rxq = record { q = []; synced = true };
}

abbrev blank : VsockPacket
blank = record response_pkt { hdr = record response_pkt.hdr { op = 0 } }

-- What is asked for is the response.
response_pkt_received :
    recv_pkt host no_data no_regions 1 blank 0 requested_muxer
    ≡ some (record { packet = some response_pkt; mem = 0; muxer = established_muxer })
unfolding recv_pkt synced_rxq recv_loop recv_first recv_conn apply_conn_mutation mutate conn_recv
    Recv.recv_pkt init_pkt Recv.yield_first contains index Recv.take_pending without set_op acked
    settle relisten get_polled_evset is_no_event conn_popped pop_rx RxQ.pop recv_next get insert
    same_key new_peer_init has_pending_rx is_empty will_expire will_expire_at is_local_init
    is_established cannot_send_to_peer need_credit_update_from_peer peer_avail_credit TxBuf.new
    update_listener modify_listener same_evset same_bool unless_done from source_key
response_pkt_received = refl

requested_Reached : Reached host no_data no_regions requested_muxer
requested_Reached = sent 0 request_pkt 0 (started 3 7 0) request_pkt_sent

established_Reached : Reached host no_data no_regions established_muxer
established_Reached = received 1 blank 0 requested_Reached response_pkt_received

Reached-Tracks_example : Tracks [] requested_muxer
Reached-Tracks_example = Reached-Tracks host no_data no_regions requested_muxer requested_Reached

no_rx_forgotten_example : has_pending_rx established_conn ≡ false
unfolding get same_key muxer_has_pending_rx
no_rx_forgotten_example =
    no_rx_forgotten host no_data no_regions established_muxer key established_conn
      established_Reached refl refl

calls_return_example :
    ((mx : VsockMuxer ℕ ℕ) × (send_pkt host no_regions 2 request_pkt 0 requested_muxer ≡ some mx))
    × ((d : Delivery ℕ ℕ ℕ) × (recv_pkt host no_data no_regions 2 request_pkt 0 requested_muxer
          ≡ some d))
calls_return_example =
    calls_return host no_data no_regions requested_muxer 2 request_pkt 0 requested_Reached

allocate_local_port-IsAllocated_example :
    IsAllocated requested_muxer (allocate_local_port requested_muxer)
allocate_local_port-IsAllocated_example =
    allocate_local_port-IsAllocated requested_muxer (omega arith)
