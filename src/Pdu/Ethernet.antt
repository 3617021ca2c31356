-- ===== src/Pdu/Ethernet.antt =====
-- `EthernetFrame`, src/dumbo/src/pdu/ethernet.rs. `none` is a panic.
use firecracker.Base.{
  ℕ, ◌+◌, ◌≤◌, ◌<◌, ◌≡◌, Bool, true, false, Option, none, some, ltb, leb, ◌^◌, if◌then◌else◌,
  Result, ok, err, arith,
}
use firecracker.Pdu.Bytes.{Bytes, bind, put, ntohs_unchecked, htons_unchecked, shrink_unchecked}
pub mod Roundtrip

-- `MacAddr`.
pub record MacAddr : Type 0 where
  pub m0 : ℕ
  pub m1 : ℕ
  pub m2 : ℕ
  pub m3 : ℕ
  pub m4 : ℕ
  pub m5 : ℕ

unfoldable pub mac_at : ℕ → Bytes → MacAddr
mac_at offset b = record {
  m0 = b.at offset;
  m1 = b.at (offset + 1);
  m2 = b.at (offset + 2);
  m3 = b.at (offset + 3);
  m4 = b.at (offset + 4);
  m5 = b.at (offset + 5);
}

unfoldable pub put_mac : ℕ → MacAddr → Bytes → Bytes
put_mac offset addr b = put (offset + 5) addr.m5 (
    put (offset + 4) addr.m4 (
      put (offset + 3) addr.m3
        (put (offset + 2) addr.m2 (put (offset + 1) addr.m1 (put offset addr.m0 b)))))

-- The six bytes from an offset on, which are in the slice.
unfoldable pub read_mac : ℕ → Bytes → Option MacAddr
read_mac offset b = if leb (offset + 6) b.len then some (mac_at offset b) else none

unfoldable pub write_mac : ℕ → MacAddr → Bytes → Option Bytes
write_mac offset addr b = if leb (offset + 6) b.len then some (put_mac offset addr b) else none

pub data Error : Type 0 where
  slice_too_short : Error

abbrev pub dst_mac_offset : ℕ
dst_mac_offset = 0

abbrev pub src_mac_offset : ℕ
src_mac_offset = 6

abbrev pub ethertype_offset : ℕ
ethertype_offset = 12

abbrev pub payload_offset : ℕ
payload_offset = 14

unfoldable pub from_bytes : Bytes → Result Error Bytes
from_bytes b = if ltb b.len payload_offset then err slice_too_short else ok b

unfoldable pub dst_mac : Bytes → Option MacAddr
dst_mac b = read_mac dst_mac_offset b

unfoldable pub src_mac : Bytes → Option MacAddr
src_mac b = read_mac src_mac_offset b

unfoldable pub ethertype : Bytes → Option ℕ
ethertype b = ntohs_unchecked ethertype_offset b

unfoldable pub new_with_header : MacAddr → MacAddr → ℕ → Bytes → Option (Result Error Bytes)
new_with_header dst src ethertype buf =
    if ltb buf.len payload_offset
    then some (err slice_too_short)
    else bind (write_mac dst_mac_offset dst buf) (λ b1.
      bind (write_mac src_mac_offset src b1)
        (λ b2. bind (htons_unchecked ethertype_offset ethertype b2) (λ b3. some (ok b3))))

unfoldable pub with_payload_len_unchecked : ℕ → Bytes → Option Bytes
with_payload_len_unchecked payload_len b = shrink_unchecked (payload_offset + payload_len) b

-- Reads and writes that are within the slice.
pub read_mac-within :
    (offset : ℕ) (b : Bytes) → offset + 6 ≤ b.len → read_mac offset b ≡ some (mac_at offset b)
unfolding read_mac
read_mac-within offset b le = ground (arith, le)

pub write_mac-within :
    (offset : ℕ) (addr : MacAddr) (b : Bytes)
    → offset + 6 ≤ b.len
    → write_mac offset addr b ≡ some (put_mac offset addr b)
unfolding write_mac
write_mac-within offset addr b le = ground (arith, le)
