-- ===== src/Bus.antt =====
-- `Bus`, src/devices/src/bus.rs: which device has an address.
use firecracker.Base.{
  ℕ, ◌+◌, ◌-◌, Bool, true, false, not, ◌||◌, Option, none, some, List, [], ◌∷◌, ltb, leb, ◌==◌,
  if◌then◌else◌, u64, Result, ok, err,
}
pub mod Lookup
pub mod Owners
mod Examples

pub data Error : Type 0 where
  overlap : Error

-- An entry of the map, with the two numbers of its `BusRange`.
pub record Entry (D : Type 0) : Type 0 where
  pub start : ℕ
  pub len : ℕ
  pub device : D

-- The `BTreeMap` in the order of `iter().rev()`, the highest start first.
abbrev pub Bus : Type 0 → Type 0
Bus D = List (Entry D)

unfoldable pub is_some : {A : Type 0} → Option A → Bool
is_some none = false
is_some (some a) = true

module _ {D : Type 0} where
  unfoldable pub new : Bus D
  new = []

  unfoldable pub first_before : ℕ → Bus D → Option (Entry D)
  first_before addr [] = none
  first_before addr (e ∷ es) =
      let rest = first_before addr es in if leb e.start addr then some e else rest

  unfoldable pub owned : ℕ → Option (Entry D) → Option (ℕ × D)
  owned addr none = none
  owned addr (some e) = if ltb (addr - e.start) e.len then some (addr - e.start, e.device) else none

  unfoldable pub get_device : ℕ → Bus D → Option (ℕ × D)
  get_device addr bus = owned addr (first_before addr bus)

  -- `BTreeMap::insert`, which replaces the value of an equal key; keys compare by their start.
  unfoldable pub put : Entry D → Bus D → Bus D
  put new_entry [] = new_entry ∷ []
  put new_entry (e ∷ es) =
      let rest = put new_entry es in
      if ltb e.start new_entry.start
      then new_entry ∷ e ∷ es
      else if e.start == new_entry.start
      then new_entry ∷ es
      else e ∷ rest

  -- Whether the map has the key.
  unfoldable pub has_start : ℕ → Bus D → Bool
  has_start base [] = false
  has_start base (e ∷ es) = let rest = has_start base es in e.start == base || rest

  -- Whether the last device that starts before the end starts in the range.
  unfoldable pub starts_after : ℕ → Option (Entry D) → Bool
  starts_after base none = false
  starts_after base (some e) = leb base e.start

  unfoldable pub insert : D → ℕ → ℕ → Bus D → Result {0, 0} Error Unit × Bus D
  insert device base len bus =
      if len == 0
      then (err overlap, bus)
      else if is_some (get_device base bus)
      then (err overlap, bus)
      else if starts_after base (first_before (u64 (base + len - 1)) bus)
      then (err overlap, bus)
      else (
        if has_start base bus then err overlap else ok tt,
        put (record { start = base; len = len; device = device }) bus,
      )
