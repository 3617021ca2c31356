-- ===== src/Pdu/Arp.antt =====
-- `EthIPv4ArpFrame`, src/dumbo/src/pdu/arp.rs. An address of IPv4 is a number of 32 bits. `none` is
-- a panic.
use firecracker.Base.{ℕ, Bool, not, Option, none, some, ◌==◌, if◌then◌else◌, Result, ok, err}
use firecracker.Pdu.Bytes.{
  Bytes, bind, byte, set_byte, ntohs_unchecked, ntohl_unchecked, htons_unchecked, htonl_unchecked,
}
use firecracker.Pdu.Ethernet.{MacAddr, read_mac, write_mac}
pub mod Roundtrip

pub data Error : Type 0 where
  h_len : Error
  h_type : Error
  bad_operation : Error
  p_len : Error
  p_type : Error
  slice_exact_len : Error

abbrev pub oper_request : ℕ
oper_request = 1

abbrev pub oper_reply : ℕ
oper_reply = 2

abbrev pub htype_ethernet : ℕ
htype_ethernet = 1

abbrev pub ethertype_ipv4 : ℕ
ethertype_ipv4 = 2_048

abbrev pub eth_ipv4_frame_len : ℕ
eth_ipv4_frame_len = 28

abbrev pub mac_addr_len : ℕ
mac_addr_len = 6

abbrev pub ipv4_addr_len : ℕ
ipv4_addr_len = 4

-- The offsets of the fields.
abbrev pub htype_offset : ℕ
htype_offset = 0

abbrev pub ptype_offset : ℕ
ptype_offset = 2

abbrev pub hlen_offset : ℕ
hlen_offset = 4

abbrev pub plen_offset : ℕ
plen_offset = 5

abbrev pub oper_offset : ℕ
oper_offset = 6

abbrev pub sha_offset : ℕ
sha_offset = 8

abbrev pub eth_ipv4_spa_offset : ℕ
eth_ipv4_spa_offset = 14

abbrev pub eth_ipv4_tha_offset : ℕ
eth_ipv4_tha_offset = 18

abbrev pub eth_ipv4_tpa_offset : ℕ
eth_ipv4_tpa_offset = 24

unfoldable pub htype : Bytes → Option ℕ
htype b = ntohs_unchecked htype_offset b

unfoldable pub ptype : Bytes → Option ℕ
ptype b = ntohs_unchecked ptype_offset b

unfoldable pub hlen : Bytes → Option ℕ
hlen b = byte hlen_offset b

unfoldable pub plen : Bytes → Option ℕ
plen b = byte plen_offset b

unfoldable pub operation : Bytes → Option ℕ
operation b = ntohs_unchecked oper_offset b

unfoldable pub sha : Bytes → Option MacAddr
sha b = read_mac sha_offset b

unfoldable pub spa : Bytes → Option ℕ
spa b = ntohl_unchecked eth_ipv4_spa_offset b

unfoldable pub tha : Bytes → Option MacAddr
tha b = read_mac eth_ipv4_tha_offset b

unfoldable pub tpa : Bytes → Option ℕ
tpa b = ntohl_unchecked eth_ipv4_tpa_offset b

-- A field that must have the value, before the checks that follow.
unfoldable pub demand : ℕ → Error → Option (Result Error Bytes) → ℕ → Option (Result Error Bytes)
demand want e rest v = if not (v == want) then some (err e) else rest

unfoldable pub request_from_bytes : Bytes → Option (Result Error Bytes)
request_from_bytes b =
    if not (b.len == eth_ipv4_frame_len)
    then some (err slice_exact_len)
    else bind (htype b) (
        demand htype_ethernet h_type (
          bind (ptype b) (
            demand ethertype_ipv4 p_type (
              bind (hlen b) (
                demand mac_addr_len h_len (
                  bind (plen b) (
                    demand ipv4_addr_len p_len
                      (bind (operation b) (demand oper_request bad_operation (some (ok b)))))))))))

-- The fields that are set, in the order of the source.
unfoldable pub fields_set : ℕ → ℕ → ℕ → ℕ → ℕ → MacAddr → ℕ → MacAddr → ℕ → Bytes → Option Bytes
fields_set ht pt hl pl op sender_mac sender_ip target_mac target_ip buf =
    bind (htons_unchecked htype_offset ht buf) (λ b1.
      bind (htons_unchecked ptype_offset pt b1) (λ b2. bind (set_byte hlen_offset hl b2) (λ b3.
        bind (set_byte plen_offset pl b3) (λ b4. bind (htons_unchecked oper_offset op b4) (λ b5.
          bind (write_mac sha_offset sender_mac b5) (λ b6.
            bind (htonl_unchecked eth_ipv4_spa_offset sender_ip b6) (λ b7.
              bind (write_mac eth_ipv4_tha_offset target_mac b7)
                (htonl_unchecked eth_ipv4_tpa_offset target_ip))))))))

unfoldable pub write_raw :
    ℕ → ℕ → ℕ → ℕ → ℕ → MacAddr → ℕ → MacAddr → ℕ → Bytes → Option (Result Error Bytes)
write_raw ht pt hl pl op sender_mac sender_ip target_mac target_ip buf =
    if not (buf.len == eth_ipv4_frame_len)
    then some (err slice_exact_len)
    else bind (fields_set ht pt hl pl op sender_mac sender_ip target_mac target_ip buf)
        (λ b. some (ok b))

unfoldable pub write_request : MacAddr → ℕ → MacAddr → ℕ → Bytes → Option (Result Error Bytes)
write_request sender_mac sender_ip target_mac target_ip buf =
    write_raw htype_ethernet ethertype_ipv4 mac_addr_len ipv4_addr_len oper_request sender_mac
      sender_ip target_mac target_ip buf

unfoldable pub write_reply : MacAddr → ℕ → MacAddr → ℕ → Bytes → Option (Result Error Bytes)
write_reply sender_mac sender_ip target_mac target_ip buf =
    write_raw htype_ethernet ethertype_ipv4 mac_addr_len ipv4_addr_len oper_reply sender_mac
      sender_ip target_mac target_ip buf
