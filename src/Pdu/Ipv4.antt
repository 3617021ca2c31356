-- ===== src/Pdu/Ipv4.antt =====
-- `IPv4Packet`, src/dumbo/src/pdu/ipv4.rs. An address is a number of 32 bits. `none` is a panic.
use firecracker.Base.{
  ℕ, zero, suc, ◌+◌, ◌-◌, ◌*◌, ◌/◌, ◌%◌, ◌^◌, bit_or, Bool, true, false, not, ◌&&◌, Option, none,
  some, ltb, leb, ◌==◌, if◌then◌else◌, u8, u16, u32, Result, ok, err,
}
use firecracker.Pdu.Bytes.{
  Bytes, bind, byte, set_byte, ntohs_unchecked, ntohl_unchecked, htons_unchecked, htonl_unchecked,
  shrink_unchecked,
}
pub mod Checksum
pub mod Roundtrip

pub data Error : Type 0 where
  checksum : Error
  invalid_header_len : Error
  invalid_total_len : Error
  slice_exact_len : Error
  slice_too_short : Error
  invalid_version : Error

-- The offsets of the fields, and the version.
abbrev pub version_and_ihl_offset : ℕ
version_and_ihl_offset = 0

abbrev pub dscp_and_ecn_offset : ℕ
dscp_and_ecn_offset = 1

abbrev pub total_len_offset : ℕ
total_len_offset = 2

abbrev pub identification_offset : ℕ
identification_offset = 4

abbrev pub flags_and_fragmentoff_offset : ℕ
flags_and_fragmentoff_offset = 6

abbrev pub ttl_offset : ℕ
ttl_offset = 8

abbrev pub protocol_offset : ℕ
protocol_offset = 9

abbrev pub header_checksum_offset : ℕ
header_checksum_offset = 10

abbrev pub source_address_offset : ℕ
source_address_offset = 12

abbrev pub destination_address_offset : ℕ
destination_address_offset = 16

abbrev pub min_header_len : ℕ
min_header_len = 20

abbrev pub ipv4_version : ℕ
ipv4_version = 4

abbrev pub default_ttl : ℕ
default_ttl = 1

unfoldable pub version_and_header_len : Bytes → Option (ℕ × ℕ)
version_and_header_len b =
    bind (byte version_and_ihl_offset b) (λ x. some (x / 2 ^ 4, x % 2 ^ 4 * 4))

unfoldable pub header_len : Bytes → Option ℕ
header_len b = bind (version_and_header_len b) (λ v. some v.1)

unfoldable pub total_len : Bytes → Option ℕ
total_len b = ntohs_unchecked total_len_offset b

unfoldable pub protocol : Bytes → Option ℕ
protocol b = byte protocol_offset b

unfoldable pub source_address : Bytes → Option ℕ
source_address b = ntohl_unchecked source_address_offset b

unfoldable pub destination_address : Bytes → Option ℕ
destination_address b = ntohl_unchecked destination_address_offset b

-- The sum of the first words.
unfoldable pub sum_words : ℕ → Bytes → Option ℕ
sum_words zero b = some 0
sum_words (suc n) b =
    bind (sum_words n b) (λ s. bind (ntohs_unchecked (n * 2) b) (λ w. some (u32 (s + w))))

-- The loop that adds the carries; three rounds are enough.
unfoldable pub add_carries : ℕ → ℕ → Option ℕ
add_carries zero sum = none
add_carries (suc fuel) sum =
    let rest = add_carries fuel (u32 (sum % 2 ^ 16 + sum / 2 ^ 16)) in
    if sum / 2 ^ 16 == 0 then some sum else rest

unfoldable pub compute_checksum_unchecked : ℕ → Bytes → Option ℕ
compute_checksum_unchecked n b =
    bind (sum_words (n / 2) b) (λ s. bind (add_carries 3 s) (λ sum. some (2 ^ 16 - 1 - u16 sum)))

unfoldable pub verified : Bool → ℕ → Bytes → Option (Result Error Bytes)
verified false n b = some (ok b)
verified true n b =
    bind (compute_checksum_unchecked n b) (λ c. some (if c == 0 then ok b else err checksum))

unfoldable pub checked : Bool → Bytes → ℕ × ℕ → ℕ → Option (Result Error Bytes)
checked verify_checksum b (version, n) total =
    if not (version == ipv4_version)
    then some (err invalid_version)
    else if ltb total n
    then some (err invalid_total_len)
    else if not (total == b.len)
    then some (err slice_exact_len)
    else if ltb n min_header_len
    then some (err invalid_header_len)
    else verified verify_checksum n b

unfoldable pub from_bytes : Bool → Bytes → Option (Result Error Bytes)
from_bytes verify_checksum b =
    if ltb b.len min_header_len
    then some (err slice_too_short)
    else bind (version_and_header_len b) (λ v. bind (total_len b) (checked verify_checksum b v))

unfoldable pub set_version_and_header_len : ℕ → ℕ → Bytes → Option Bytes
set_version_and_header_len version n b =
    set_byte version_and_ihl_offset (bit_or (u8 (version * 2 ^ 4)) (u8 n / 4 % 2 ^ 4)) b

unfoldable pub set_dscp_and_ecn : ℕ → ℕ → Bytes → Option Bytes
set_dscp_and_ecn dscp ecn b = set_byte dscp_and_ecn_offset (bit_or (u8 (dscp * 4)) ecn) b

unfoldable pub set_total_len : ℕ → Bytes → Option Bytes
set_total_len value b = htons_unchecked total_len_offset value b

unfoldable pub set_identification : ℕ → Bytes → Option Bytes
set_identification value b = htons_unchecked identification_offset value b

unfoldable pub set_flags_and_fragment_offset : ℕ → ℕ → Bytes → Option Bytes
set_flags_and_fragment_offset flags fragment_offset b =
    htons_unchecked flags_and_fragmentoff_offset (bit_or (u16 (flags * 2 ^ 13)) fragment_offset) b

unfoldable pub set_ttl : ℕ → Bytes → Option Bytes
set_ttl value b = set_byte ttl_offset value b

unfoldable pub set_protocol : ℕ → Bytes → Option Bytes
set_protocol value b = set_byte protocol_offset value b

unfoldable pub set_header_checksum : ℕ → Bytes → Option Bytes
set_header_checksum value b = htons_unchecked header_checksum_offset value b

unfoldable pub set_source_address : ℕ → Bytes → Option Bytes
set_source_address addr b = htonl_unchecked source_address_offset addr b

unfoldable pub set_destination_address : ℕ → Bytes → Option Bytes
set_destination_address addr b = htonl_unchecked destination_address_offset addr b

unfoldable pub written_header : ℕ → ℕ → ℕ → Bytes → Option Bytes
written_header proto src_addr dst_addr buf =
    bind (set_version_and_header_len ipv4_version min_header_len buf) (λ b1.
      bind (set_dscp_and_ecn 0 0 b1) (λ b2. bind (set_identification 0 b2) (λ b3.
        bind (set_flags_and_fragment_offset 0 0 b3) (λ b4. bind (set_ttl default_ttl b4) (λ b5.
          bind (set_protocol proto b5)
            (λ b6. bind (set_source_address src_addr b6) (set_destination_address dst_addr)))))))

unfoldable pub write_header : ℕ → ℕ → ℕ → Bytes → Option (Result Error Bytes)
write_header proto src_addr dst_addr buf =
    if ltb buf.len min_header_len
    then some (err slice_too_short)
    else bind (written_header proto src_addr dst_addr buf) (λ b. some (ok b))

unfoldable pub set_checksum : ℕ → Bytes → Option Bytes
set_checksum n b =
    bind (set_header_checksum 0 b)
      (λ b0. bind (compute_checksum_unchecked n b0) (λ c. set_header_checksum c b0))

unfoldable pub with_header_and_payload_len_unchecked : ℕ → ℕ → Bool → Bytes → Option Bytes
with_header_and_payload_len_unchecked n payload_len compute_checksum b =
    let total = n + payload_len in
    bind (shrink_unchecked total b) (λ b1.
      bind (set_total_len (u16 total) b1)
        (λ b2. if compute_checksum then set_checksum n b2 else some b2))

unfoldable pub with_options_and_payload_len_unchecked : ℕ → ℕ → Bool → Bytes → Option Bytes
with_options_and_payload_len_unchecked options_len payload_len compute_checksum b =
    with_header_and_payload_len_unchecked (min_header_len + options_len) payload_len
      compute_checksum b

unfoldable pub with_payload_len_unchecked : ℕ → Bool → Bytes → Option Bytes
with_payload_len_unchecked payload_len compute_checksum b =
    bind (header_len b)
      (λ n. with_header_and_payload_len_unchecked n payload_len compute_checksum b)
