-- ===== src/Vsock/PendingRx.antt =====
-- `PendingRxSet`, src/devices/src/virtio/vsock/csm/mod.rs: a set as the bits of a word.
use firecracker.Base.{ℕ, ◌-◌, ◌^◌, bit_and, bit_or, Bool, not, ◌==◌}
pub mod Items

pub data PendingRx : Type 0 where
  request : PendingRx
  response : PendingRx
  rst : PendingRx
  rw_data : PendingRx
  credit_update : PendingRx

-- `self as u16`.
unfoldable pub index : PendingRx → ℕ
index request = 0
index response = 1
index rst = 2
index rw_data = 3
index credit_update = 4

abbrev pub into_mask : PendingRx → ℕ
into_mask it = 2 ^ index it

pub record PendingRxSet : Type 0 where
  pub bits : ℕ

unfoldable pub insert : PendingRx → PendingRxSet → PendingRxSet
insert it s = record { bits = bit_or s.bits (into_mask it) }

unfoldable pub contains : PendingRx → PendingRxSet → Bool
contains it s = not (bit_and s.bits (into_mask it) == 0)

-- The set that `remove` leaves, with the complement of a 16-bit mask.
unfoldable pub without : PendingRx → PendingRxSet → PendingRxSet
without it s = record { bits = bit_and s.bits (2 ^ 16 - 1 - into_mask it) }

unfoldable pub remove : PendingRx → PendingRxSet → Bool × PendingRxSet
remove it s = (contains it s, without it s)

unfoldable pub is_empty : PendingRxSet → Bool
is_empty s = s.bits == 0

unfoldable pub from : PendingRx → PendingRxSet
from it = record { bits = into_mask it }
