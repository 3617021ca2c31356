-- ===== src/Vsock/PendingRx/Items.antt =====
-- `PendingRxSet`, src/devices/src/virtio/vsock/csm/mod.rs, as a set of indications.
use firecracker.Base.{
  ℕ, zero, suc, ◌-◌, ◌^◌, ◌≤◌, ◌<◌, ◌≡◌, inl, inr, ap, Bool, true, false, not, ◌&&◌, ◌||◌, ◌==◌,
  Bool-cases, arith,
}
use firecracker.Base.Bits.{
  bit, bit-and, bit-or, and_missing, and_found, bit_bound, bit-power_same, bit-power_other,
  bit-complement, no_bits,
}
use firecracker.Vsock.PendingRx.{
  PendingRx, request, response, rst, rw_data, credit_update, index, into_mask, PendingRxSet, insert,
  contains, without, is_empty, from,
}

abbrev has : PendingRx → PendingRxSet → ℕ
has it s = bit s.bits (index it)

contains-bit : (it : PendingRx) (s : PendingRxSet) → contains it s ≡ (has it s == 1)
unfolding contains
contains-bit it s =
    ground (
      arith,
      bit_bound (index it) s.bits,
      and_missing (index it) s.bits,
      and_found (index it) s.bits,
    )

index_bound : (it : PendingRx) → index it < 5
unfolding index
index_bound request = omega arith
index_bound response = omega arith
index_bound rst = omega arith
index_bound rw_data = omega arith
index_bound credit_update = omega arith

into_mask_bound : (it : PendingRx) → into_mask it < 2 ^ 16
unfolding index
into_mask_bound request = omega arith
into_mask_bound response = omega arith
into_mask_bound rst = omega arith
into_mask_bound rw_data = omega arith
into_mask_bound credit_update = omega arith

abbrev pub is_same : PendingRx → PendingRx → Bool
is_same it other = index it == index other

-- The bit of an item in the mask of another, and in its complement.
mask-has : (it other : PendingRx) → (bit (into_mask it) (index other) == 1) ≡ is_same it other
mask-has it other = elim (Bool-cases (is_same it other)) [
  | inl t ↦
      let same : index it ≡ index other = ground arith in
      let found = ap (λ (k : ℕ). bit (into_mask it) k) same in
      ground (arith, t, bit-power_same (index it), found)
  | inr t ↦
      ground
        (arith, t, bit-power_other (index it) (index other) (λ e. absurd (ground (arith, e, t))))
]

unmask-has :
    (it other : PendingRx)
    → bit (2 ^ 16 - 1 - into_mask it) (index other) ≡ 1 - bit (into_mask it) (index other)
unmask-has it other =
    bit-complement 16 (index other) (into_mask it) (omega (arith, index_bound other))
      (into_mask_bound it)

-- After an insertion the set has the item and what it had, and after a removal what it had but for
-- the item.
pub contains-update :
    (it other : PendingRx) (s : PendingRxSet)
    → (contains other (insert it s) ≡ (is_same it other || contains other s))
      × (contains other (without it s) ≡ (not (is_same it other) && contains other s))
unfolding insert without
contains-update it other s =
    let bound = bit_bound (index other) s.bits in
    let mask_bound = bit_bound (index other) (into_mask it) in
    (
      ground (
        arith,
        contains-bit other (insert it s),
        contains-bit other s,
        mask-has it other,
        bit-or (index other) s.bits (into_mask it),
      ),
      ground (
        arith,
        contains-bit other (without it s),
        contains-bit other s,
        mask-has it other,
        unmask-has it other,
        bit-and (index other) s.bits (2 ^ 16 - 1 - into_mask it),
      ),
    )

pub contains-insert : (it : PendingRx) (s : PendingRxSet) → contains it (insert it s) ≡ true
contains-insert it s = ground (arith, (contains-update it it s).0)

-- No bit stands for anything but an item.
abbrev pub HasItems : PendingRxSet → Type 0
HasItems s = (k : ℕ) → 5 ≤ k → bit s.bits k ≡ 0

pub without-HasItems : (it : PendingRx) (s : PendingRxSet) → HasItems s → HasItems (without it s)
unfolding without
without-HasItems it s f k le = omega (arith, f k le, bit-and k s.bits (2 ^ 16 - 1 - into_mask it))

missing : (it : PendingRx) (s : PendingRxSet) → contains it s ≡ false → has it s ≡ 0
missing it s e = ground (arith, e, contains-bit it s, bit_bound (index it) s.bits)

no_items :
    (s : PendingRxSet)
    → HasItems s
    → ((it : PendingRx) → contains it s ≡ false)
    → (k : ℕ) → bit s.bits k ≡ 0
unfolding index
no_items s f gone zero = missing request s (gone request)
no_items s f gone (suc zero) = missing response s (gone response)
no_items s f gone (suc (suc zero)) = missing rst s (gone rst)
no_items s f gone (suc (suc (suc zero))) = missing rw_data s (gone rw_data)
no_items s f gone (suc (suc (suc (suc zero)))) = missing credit_update s (gone credit_update)
no_items s f gone (suc (suc (suc (suc (suc k))))) = f (suc (suc (suc (suc (suc k))))) (omega arith)

pub no_items-empty :
    (s : PendingRxSet) → HasItems s → ((it : PendingRx) → contains it s ≡ false) → is_empty s ≡ true
unfolding is_empty
no_items-empty s f gone = ground (arith, no_bits s.bits (no_items s f gone))

pub from-HasItems : (it : PendingRx) → HasItems (from it)
unfolding from
from-HasItems it k le =
    bit-power_other (index it) k (λ e. absurd (omega (arith, e, le, index_bound it)))

pub insert-HasItems : (it : PendingRx) (s : PendingRxSet) → HasItems s → HasItems (insert it s)
unfolding insert
insert-HasItems it s f k le = omega (
  arith,
  f k le,
  bit-or k s.bits (into_mask it),
  bit-power_other (index it) k (λ e. absurd (omega (arith, e, le, index_bound it))),
)
