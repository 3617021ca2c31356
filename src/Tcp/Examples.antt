-- ===== src/Tcp/Examples.antt =====
-- Tests of TCP, and its theorems at concrete inputs.
use firecracker.Base.{
  ℕ, ◌-◌, ◌≤◌, ◌≡◌, ◌≢◌, ◌⊎◌, refl, true, false, none, some, List, [], ◌∷◌, length, take, replicate,
  sub32, ok, arith,
}
use firecracker.Tcp.Seq.{seq_after, seq_at_or_after}
use firecracker.Tcp.Segment.{TcpSegment, no_flags, parse_options, write_incomplete_segment}
use firecracker.Tcp.Segment.Options.{IsStuck, parse_options_total, parse_options-diverges}
use firecracker.Tcp.Connection.{Connection, is_established}
use firecracker.Tcp.Connection.Receive.{receive_segment}
use firecracker.Tcp.Connection.Receive.InOrder.{IsInOrder, receive_segment-IsInOrder}
use firecracker.Tcp.Connection.Receive.Stream.{fresh, receive, delivered_prefix}
use firecracker.Tcp.Connection.Transmit.{write_next_segment}
use firecracker.Tcp.Connection.Transmit.Window.{write_next_segment_window}

abbrev established : Connection
established = record {
  ack_to_send = 4_294_967_294;
  highest_ack_received = 100;
  first_not_sent = 100;
  local_rwnd_edge = 2_000;
  remote_rwnd_edge = 103;
  rto_start = 0;
  rto_period = 50;
  rto_count = 0;
  rto_count_max = 3;
  fin_received = none;
  send_fin = none;
  send_rst = none;
  mss = 536;
  pending_ack = false;
  dup_ack = false;
  status_flags = record {
    syn_received = true;
    synack_sent = true;
    established = true;
    fin_sent = false;
    fin_acked = false;
    reset = false;
  };
}

-- The second, third and fourth byte of a stream, whose numbers wrap around.
abbrev piece : TcpSegment
piece = record {
  sequence_number = 4_294_967_294;
  ack_number = 100;
  flags = record no_flags { ack = true };
  window_size = 3;
  options = [];
  payload = 7 ∷ 8 ∷ 9 ∷ [];
}

abbrev after_piece : Connection
after_piece = record established { ack_to_send = 1; pending_ack = true; rto_start = 5 }

piece_received :
    receive_segment 5 piece (replicate 4 0) established
    ≡ some (ok (some 3, []), 7 ∷ 8 ∷ 9 ∷ 0 ∷ [], after_piece)
unfolding receive_segment seq_after seq_at_or_after
piece_received = refl

receive_segment-IsInOrder_example :
    IsInOrder piece established (ok (some 3, []), 7 ∷ 8 ∷ 9 ∷ 0 ∷ [], after_piece)
receive_segment-IsInOrder_example =
    receive_segment-IsInOrder 5 piece (replicate 4 0) established (omega arith) piece_received

delivered_prefix_example :
    (◌≡◌ {A = List ℕ} (7 ∷ 8 ∷ 9 ∷ []) (7 ∷ 8 ∷ 9 ∷ []))
    × (after_piece.fin_received ≢ none → ◌≡◌ {A = List ℕ} (7 ∷ 8 ∷ 9 ∷ []) (7 ∷ 8 ∷ 9 ∷ 10 ∷ []))
delivered_prefix_example =
    delivered_prefix (7 ∷ 8 ∷ 9 ∷ 10 ∷ []) 4_294_967_294 (omega arith) {start = established} refl
      refl
      (receive 5 piece (replicate 4 0) fresh
        (record {
          offset = 0;
          numbered = refl;
          within = omega arith;
          slice = refl;
          closing = λ e. cc;
        })
        piece_received)

abbrev data_segment : TcpSegment
data_segment = record {
  sequence_number = 100;
  ack_number = 4_294_967_294;
  flags = record no_flags { ack = true };
  window_size = 2_002;
  options = [];
  payload = 1 ∷ 2 ∷ 3 ∷ [];
}

-- Three of five bytes fit the peer's window.
data_written :
    write_next_segment 1000 0 (some (1 ∷ 2 ∷ 3 ∷ 4 ∷ 5 ∷ [], 100)) 7 established
    ≡ (ok (some data_segment), record established { first_not_sent = 103; rto_start = 7 })
unfolding write_next_segment seq_after seq_at_or_after write_incomplete_segment
data_written = refl

write_next_segment_window_example :
    (data_segment.payload ≡ [])
    ⊎ ((is_established established ≡ true)
        × (length data_segment.payload ≤ sub32 103 100)
        × (length data_segment.payload ≤ 536 - 0)
        × (data_segment.payload ≡ take (length data_segment.payload) (1 ∷ 2 ∷ 3 ∷ 4 ∷ 5 ∷ [])))
write_next_segment_window_example =
    write_next_segment_window 1000 0 100 7 (1 ∷ 2 ∷ 3 ∷ 4 ∷ 5 ∷ []) established
      (record {
        highest_ack_received = omega arith;
        first_not_sent = omega arith;
        remote_rwnd_edge = omega arith;
      })
      data_written

parse_options_total_example : IsStuck (1 ∷ 254 ∷ 0 ∷ 0 ∷ 0 ∷ [])
unfolding parse_options
parse_options_total_example = parse_options_total 6 (1 ∷ 254 ∷ 0 ∷ 0 ∷ 0 ∷ []) (omega arith) refl

parse_options-diverges_example : parse_options 1000 (254 ∷ 0 ∷ 0 ∷ 0 ∷ []) ≡ none
parse_options-diverges_example = parse_options-diverges 1000 254 0 0 [] (omega arith)

mss_parsed : parse_options 41 (1 ∷ 8 ∷ 3 ∷ 0 ∷ 2 ∷ 4 ∷ 5 ∷ 180 ∷ []) ≡ some (ok (some 1460))
unfolding parse_options
mss_parsed = refl
