-- ===== src/Pdu/Udp.antt =====
-- `UdpDatagram`, src/dumbo/src/pdu/udp.rs, and the checksum that it shares with TCP,
-- src/dumbo/src/pdu/mod.rs. An address is a number of 32 bits. `none` is a panic.
use firecracker.Base.{
  ℕ, zero, suc, ◌+◌, ◌-◌, ◌*◌, ◌/◌, ◌%◌, ◌^◌, Bool, true, false, not, ◌&&◌, Option, none, some, ltb,
  ◌==◌, if◌then◌else◌, u16, u32, Result, ok, err,
}
use firecracker.Pdu.Bytes.{Bytes, bind, byte, ntohs_unchecked, htons_unchecked, shrink_unchecked}
use firecracker.Pdu.Ipv4.{add_carries}
pub mod Checksum
pub mod Roundtrip

pub data ChecksumProto : Type 0 where
  tcp : ChecksumProto
  udp : ChecksumProto

unfoldable pub protocol_of : ChecksumProto → ℕ
protocol_of tcp = 6
protocol_of udp = 17

unfoldable pub pseudo_header : ℕ → ℕ → ChecksumProto → ℕ → ℕ
pseudo_header src_addr dst_addr proto n =
    let s1 = src_addr % 2 ^ 16 + src_addr / 2 ^ 16 in
    let s2 = u32 (u32 (s1 + dst_addr % 2 ^ 16) + dst_addr / 2 ^ 16) in
    u32 (u32 (s2 + protocol_of proto) + u32 n)

unfoldable pub add_words : ℕ → ℕ → Bytes → Option ℕ
add_words sum zero b = some sum
add_words sum (suc n) b =
    bind (add_words sum n b) (λ s. bind (ntohs_unchecked (n * 2) b) (λ w. some (u32 (s + w))))

unfoldable pub add_last : Bytes → ℕ → Option ℕ
add_last b sum =
    if b.len % 2 == 0
    then some sum
    else bind (byte (b.len - 1) b) (λ x. some (u32 (sum + x * 2 ^ 8)))

-- All ones stand for 0 in UDP.
unfoldable pub complemented : ChecksumProto → ℕ → ℕ
complemented tcp sum = 2 ^ 16 - 1 - u16 sum
complemented udp sum =
    let csum = 2 ^ 16 - 1 - u16 sum in if csum == 0 then 2 ^ 16 - 1 - csum else csum

unfoldable pub compute_checksum : ℕ → ℕ → ChecksumProto → Bytes → Option ℕ
compute_checksum src_addr dst_addr proto b =
    bind (add_words (pseudo_header src_addr dst_addr proto b.len) (b.len / 2) b) (λ s.
      bind (add_last b s) (λ s'. bind (add_carries 3 s') (λ sum. some (complemented proto sum))))

pub data Error : Type 0 where
  checksum : Error
  datagram_too_short : Error
  payload_too_big : Error

abbrev pub udp_header_size : ℕ
udp_header_size = 8

abbrev pub ipv4_max_udp_packet_size : ℕ
ipv4_max_udp_packet_size = 65_507

abbrev pub source_port_offset : ℕ
source_port_offset = 0

abbrev pub destination_port_offset : ℕ
destination_port_offset = 2

abbrev pub length_offset : ℕ
length_offset = 4

abbrev pub checksum_offset : ℕ
checksum_offset = 6

unfoldable pub source_port : Bytes → Option ℕ
source_port b = ntohs_unchecked source_port_offset b

unfoldable pub destination_port : Bytes → Option ℕ
destination_port b = ntohs_unchecked destination_port_offset b

unfoldable pub udp_len : Bytes → Option ℕ
udp_len b = ntohs_unchecked length_offset b

unfoldable pub udp_checksum : Bytes → Option ℕ
udp_checksum b = ntohs_unchecked checksum_offset b

-- With the addresses the checksum is verified, unless it is 0.
unfoldable pub verified : Option (ℕ × ℕ) → Bytes → Option (Result Error Bytes)
verified none b = some (ok b)
verified (some (src_addr, dst_addr)) b = bind (udp_checksum b) (λ sum.
    if sum == 0
    then some (ok b)
    else bind (compute_checksum src_addr dst_addr udp b)
        (λ computed. some (if computed == 2 ^ 16 - 1 then ok b else err checksum)))

unfoldable pub from_bytes : Option (ℕ × ℕ) → Bytes → Option (Result Error Bytes)
from_bytes verify_checksum b =
    if ltb b.len udp_header_size then some (err datagram_too_short) else verified verify_checksum b

unfoldable pub copy_payload : Bytes → Bytes → Bytes
copy_payload payload b = record b {
  at = λ i. if ltb i udp_header_size then b.at i else payload.at (i - udp_header_size);
}

unfoldable pub filled : Bytes → Result Error Bytes → Option (Result Error Bytes)
filled payload (err e) = some (err e)
filled payload (ok b) =
    let n = payload.len + udp_header_size in
    if ltb ipv4_max_udp_packet_size n
    then some (err payload_too_big)
    else bind (shrink_unchecked n b) (λ b1.
      bind (htons_unchecked length_offset (u16 n) (copy_payload payload b1)) (λ b2. some (ok b2)))

unfoldable pub write_incomplete_datagram : Bytes → Bytes → Option (Result Error Bytes)
write_incomplete_datagram payload buf = bind (from_bytes none buf) (filled payload)

unfoldable pub with_checksum : Option (ℕ × ℕ) → Bytes → Option Bytes
with_checksum none b = some b
with_checksum (some (src_addr, dst_addr)) b =
    bind (compute_checksum src_addr dst_addr udp b) (λ sum. htons_unchecked checksum_offset sum b)

unfoldable pub finalize : ℕ → ℕ → Option (ℕ × ℕ) → Bytes → Option Bytes
finalize src_port dst_port addresses b = bind (htons_unchecked source_port_offset src_port b) (λ b1.
    bind (htons_unchecked destination_port_offset dst_port b1)
      (λ b2. bind (htons_unchecked checksum_offset 0 b2) (with_checksum addresses)))
