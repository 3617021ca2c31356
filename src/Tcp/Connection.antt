-- ===== src/Tcp/Connection.antt =====
-- `Connection` of src/dumbo/src/tcp/connection.rs: its state and small methods. `receive_segment` is
-- in the child Receive, `write_next_segment` in the child Transmit. Timestamps are numbers.
pub mod Receive
pub mod Transmit
use firecracker.Base.{
  ℕ, ◌+◌, ◌-◌, ◌%◌, ◌^◌, ◌≤◌, ◌<◌, ◌≡◌, Bool, true, false, not, ◌&&◌, ◌||◌, Option, none, some, min,
  ltb, leb, ◌==◌, if◌then◌else◌, u32, u64, sub32, sub64, Result, ok, err,
}
use firecracker.Tcp.Seq.{max_window_size, mss_default, seq_after, seq_at_or_after}
use firecracker.Tcp.Segment.{
  TcpSegment, RstConfig, RstConfig_new, Error, is_syn, parse_options, options_fuel, payload_len,
}

-- The bitflags type `ConnStatusFlags`.
pub record ConnStatusFlags : Type 0 where
  pub syn_received : Bool
  pub synack_sent : Bool
  pub established : Bool
  pub fin_sent : Bool
  pub fin_acked : Bool
  pub reset : Bool

pub data PassiveOpenError : Type 0 where
  invalid_syn mss_option_error : PassiveOpenError

pub data NextSegmentStatus : Type 0 where
  available : NextSegmentStatus
  nothing : NextSegmentStatus
  timeout : ℕ → NextSegmentStatus

pub record Connection : Type 0 where
  pub ack_to_send : ℕ
  pub highest_ack_received : ℕ
  pub first_not_sent : ℕ
  pub local_rwnd_edge : ℕ
  pub remote_rwnd_edge : ℕ
  pub rto_start : ℕ
  pub rto_period : ℕ
  pub rto_count : ℕ
  pub rto_count_max : ℕ
  pub fin_received : Option ℕ
  pub send_fin : Option ℕ
  pub send_rst : Option RstConfig
  pub mss : ℕ
  pub pending_ack : Bool
  pub dup_ack : Bool
  pub status_flags : ConnStatusFlags

abbrev pub is_some {ℓ} : {A : Type ℓ} → Option A → Bool
is_some none = false
is_some (some _) = true

-- The value or the error that `parse_mss_option` maps a parsed option to.
abbrev mss_of_option : Result Error (Option ℕ) → Result PassiveOpenError ℕ
mss_of_option (ok (some value)) = ok value
mss_of_option (ok none) = ok mss_default
mss_of_option (err _) = err mss_option_error

abbrev mss_of_parse : Option (Result Error (Option ℕ)) → Option (Result PassiveOpenError ℕ)
mss_of_parse none = none
mss_of_parse (some r) = some (mss_of_option r)

-- `none` where the loop over the options does not end.
unfoldable pub parse_mss_option : TcpSegment → Option (Result PassiveOpenError ℕ)
parse_mss_option s = mss_of_parse (parse_options options_fuel s.options)

abbrev pub is_valid_syn : TcpSegment → Bool
is_valid_syn s = is_syn s.flags && payload_len s == 0

abbrev is_mss : ℕ → Result PassiveOpenError ℕ → Bool
is_mss mss (ok value) = value == mss
is_mss mss (err _) = false

abbrev is_mss_option : ℕ → Option (Result PassiveOpenError ℕ) → Option Bool
is_mss_option mss none = none
is_mss_option mss (some r) = some (is_mss mss r)

-- The last match of `passive_open`; `isn` is what `xor_pseudo_rng_u32` returns.
open_with :
    ℕ → TcpSegment → ℕ → ℕ → ℕ → Result PassiveOpenError ℕ → Result PassiveOpenError Connection
open_with isn segment local_rwnd_size rto_period rto_count_max (err e) = err e
open_with isn segment local_rwnd_size rto_period rto_count_max (ok mss) =
    let ack_to_send = u32 (segment.sequence_number + 1) in
    let first_not_sent = u32 (isn + 1) in
    ok (record {
      ack_to_send = ack_to_send;
      highest_ack_received = isn;
      first_not_sent = first_not_sent;
      local_rwnd_edge = u32 (ack_to_send + local_rwnd_size);
      remote_rwnd_edge = u32 (first_not_sent + segment.window_size);
      rto_start = 0;
      rto_period = rto_period;
      rto_count = 0;
      rto_count_max = rto_count_max;
      fin_received = none;
      send_fin = none;
      send_rst = none;
      mss = mss;
      pending_ack = false;
      dup_ack = false;
      status_flags = record {
        syn_received = true;
        synack_sent = false;
        established = false;
        fin_sent = false;
        fin_acked = false;
        reset = false;
      };
    })

unfoldable pub passive_open :
    ℕ → TcpSegment → ℕ → ℕ → ℕ → Option (Result PassiveOpenError Connection)
unfolding open_with
passive_open isn segment local_rwnd_size rto_period rto_count_max =
    if not (is_valid_syn segment) then some (err invalid_syn) else elim (parse_mss_option segment) [
      | none ↦ none
      | some r ↦ some (open_with isn segment local_rwnd_size rto_period rto_count_max r)
    ]

module _ (c : Connection) where
  abbrev pub synack_sent : Bool
  synack_sent = c.status_flags.synack_sent

  abbrev pub is_established : Bool
  is_established = c.status_flags.established

  abbrev pub is_reset : Bool
  is_reset = c.status_flags.reset

  abbrev pub synack_pending : Bool
  synack_pending = c.status_flags.syn_received && not synack_sent

  abbrev pub rst_pending : Bool
  rst_pending = is_some c.send_rst

  -- `now - self.rto_start` wraps where the clock is before `rto_start`.
  abbrev pub rto_expired : ℕ → Bool
  rto_expired now = leb c.rto_period (sub64 now c.rto_start)

  abbrev pub is_fin_seq : Option ℕ → Bool
  is_fin_seq none = false
  is_fin_seq (some fin_seq) = fin_seq == c.highest_ack_received

  abbrev pub can_send_first_fin : Bool
  can_send_first_fin = not c.status_flags.fin_sent && is_fin_seq c.send_fin

  abbrev pub local_rwnd : ℕ
  local_rwnd = min (sub32 c.local_rwnd_edge c.ack_to_send) 65_535

  -- Whether the segment is a retransmission of the SYN that opened the connection; `none` where the
  -- loop over its options does not end.
  unfoldable pub is_same_syn : TcpSegment → Option Bool
  is_same_syn s =
      if not (is_valid_syn s) || not (c.ack_to_send == u32 (s.sequence_number + 1))
      then some false
      else is_mss_option c.mss (parse_mss_option s)

  abbrev pub reset_for_segment : TcpSegment → Connection
  reset_for_segment s = if rst_pending then c else record c { send_rst = some (RstConfig_new s) }

  pub close : Connection
  close = if is_some c.send_fin then c else record c { send_fin = some c.first_not_sent }

  abbrev pub make_rst_config : RstConfig
  make_rst_config =
      if is_established then RstConfig.seq c.first_not_sent else RstConfig.ack c.ack_to_send

  pub reset : Connection
  reset = if rst_pending then c else record c { send_rst = some make_rst_config }

  abbrev pub is_done : Bool
  is_done = is_reset || (is_some c.fin_received && c.status_flags.fin_sent)

  -- The comparison in the source is of `Wrapping<u32>` values, the sum among them.
  pub advance_local_rwnd_edge : ℕ → Connection
  advance_local_rwnd_edge value =
      let current_w = sub32 c.local_rwnd_edge c.ack_to_send in
      record c {
        pending_ack = if current_w == 0 then true else c.pending_ack;
        local_rwnd_edge =
            if ltb max_window_size (u32 (value + current_w))
            then u32 (c.ack_to_send + max_window_size)
            else u32 (c.local_rwnd_edge + value);
      }

  pub control_segment_or_timeout_status : NextSegmentStatus
  control_segment_or_timeout_status =
      if synack_pending || rst_pending || can_send_first_fin || c.pending_ack
      then available
      else if not (c.highest_ack_received == c.first_not_sent)
      then timeout (u64 (c.rto_start + c.rto_period))
      else nothing
