-- ===== src/Tcp/Segment.antt =====
-- TCP segments, src/dumbo/src/pdu/tcp.rs and `RstConfig` of src/dumbo/src/tcp/mod.rs. A segment is
-- the view that its accessors give: the ports and the checksum, which a connection neither reads nor
-- writes, are left out.
pub mod Payload
pub mod Options
use firecracker.Base.{
  ℕ, zero, suc, ◌+◌, ◌-◌, ◌*◌, ◌/◌, ◌%◌, ◌≤◌, ◌<◌, ◌≡◌, refl, Bool, true, false, not, ◌&&◌, ◌||◌,
  Option, none, some, List, [], ◌∷◌, length, take, drop, min, ltb, leb, ◌==◌, if◌then◌else◌, u32,
  Result, ok, err,
}
use firecracker.Tcp.Seq.{mss_default}

-- The bitflags type `Flags`.
pub record Flags : Type 0 where
  pub cwr : Bool
  pub ece : Bool
  pub urg : Bool
  pub ack : Bool
  pub psh : Bool
  pub rst : Bool
  pub syn : Bool
  pub fin : Bool

abbrev pub no_flags : Flags
no_flags = record {
  cwr = false;
  ece = false;
  urg = false;
  ack = false;
  psh = false;
  rst = false;
  syn = false;
  fin = false;
}

-- `flags == Flags::SYN`
abbrev pub is_syn : Flags → Bool
is_syn f = f.syn && not (f.cwr || f.ece || f.urg || f.ack || f.psh || f.rst || f.fin)

-- `flags == Flags::SYN | Flags::ACK`
abbrev pub is_syn_ack : Flags → Bool
is_syn_ack f = f.syn && f.ack && not (f.cwr || f.ece || f.urg || f.psh || f.rst || f.fin)

pub data Error : Type 0 where
  empty_payload mss_option mss_remaining slice_too_short : Error

pub record TcpSegment : Type 0 where
  pub sequence_number : ℕ
  pub ack_number : ℕ
  pub flags : Flags
  pub window_size : ℕ
  pub options : List ℕ
  pub payload : List ℕ

abbrev pub payload_len : TcpSegment → ℕ
payload_len s = length s.payload

abbrev pub mss_min : ℕ
mss_min = 100

abbrev pub options_offset : ℕ
options_offset = 20

abbrev pub option_len_mss : ℕ
option_len_mss = 4

-- The loop of `parse_mss_option_unchecked` at the options from `b[i]` on, with fuel for its rounds:
-- `none` if the fuel runs out. The bytes are those of `options_unchecked`.
unfoldable pub parse_options : ℕ → List ℕ → Option (Result Error (Option ℕ))
parse_options zero b = none
parse_options (suc fuel) (kind ∷ len ∷ hi ∷ lo ∷ rest) =
    let next = parse_options fuel (len ∷ hi ∷ lo ∷ rest) in
    let skip = parse_options fuel (drop len (kind ∷ len ∷ hi ∷ lo ∷ rest)) in
    if kind == 0
    then some (ok none)
    else if kind == 1
    then next
    else if kind == 2
    then some (if ltb (hi * 256 + lo) mss_min then err mss_option else ok (some (hi * 256 + lo)))
    else skip
parse_options (suc fuel) _ = some (ok none)

-- The header is at most 60 bytes, so that 41 rounds are enough where the loop ends.
abbrev pub options_fuel : ℕ
options_fuel = 41

pub data RstConfig : Type 0 where
  seq : ℕ → RstConfig
  ack : ℕ → RstConfig

pub RstConfig_new : TcpSegment → RstConfig
RstConfig_new s =
    if s.flags.ack
    then RstConfig.seq s.ack_number
    else RstConfig.ack (u32 (s.sequence_number + u32 (payload_len s)))

abbrev pub seq_ack_tcp_flags : RstConfig → ℕ × ℕ × Flags
seq_ack_tcp_flags (RstConfig.seq n) = (n, 0, record no_flags { rst = true })
seq_ack_tcp_flags (RstConfig.ack n) = (0, n, record no_flags { rst = true; ack = true })

-- `write_incomplete_segment` into a buffer of `buf_len` bytes; the payload comes with the number of
-- bytes that may be read from it.
abbrev mss_bytes : Option ℕ → List ℕ
mss_bytes none = []
mss_bytes (some value) = 2 ∷ option_len_mss ∷ value / 256 % 256 ∷ value % 256 ∷ []

write_payload : ℕ → ℕ → Option (List ℕ × ℕ) → TcpSegment → Result Error TcpSegment
write_payload room mss_left none s = ok s
write_payload room mss_left (some (payload_buf, max_payload_bytes)) s =
    let left_to_read = min (length payload_buf) max_payload_bytes in
    let room_for_payload = min (min room mss_left) left_to_read in
    if room_for_payload == 0
    then err empty_payload
    else ok (record s { payload = take room_for_payload payload_buf })

unfoldable pub write_incomplete_segment :
    (buf_len seq_number ack_number : ℕ) (flags_after_ns : Flags) (window_size : ℕ) (mss : Option ℕ)
    (mss_left : ℕ) (payload : Option (List ℕ × ℕ))
    → Result Error TcpSegment
unfolding write_payload
write_incomplete_segment buf_len seq_number ack_number flags_after_ns window_size mss mss_left
      payload =
    let options_len = length (mss_bytes mss) in
    if ltb mss_left options_len
    then err mss_remaining
    else if ltb buf_len (options_offset + options_len)
    then err slice_too_short
    else write_payload (buf_len - (options_offset + options_len)) (mss_left - options_len) payload
        (record {
          sequence_number = seq_number;
          ack_number = ack_number;
          flags = flags_after_ns;
          window_size = window_size;
          options = mss_bytes mss;
          payload = [];
        })
