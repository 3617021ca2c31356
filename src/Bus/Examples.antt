-- ===== src/Bus/Examples.antt =====
-- A test of a bus with two devices, and its theorem at a concrete input.
use firecracker.Base.{◌≡◌, refl, [], ◌∷◌, ok, err, arith, ℕ}
use firecracker.Bus.{
  Bus, overlap, insert, is_some, get_device, owned, first_before, starts_after, has_start, put,
}
use firecracker.Bus.Owners.{OnInsert, insert-OnInsert}

-- The devices 7 at 0x1000 and 5 at 0x100.
abbrev two_devices : Bus ℕ
two_devices =
    record { start = 4_096; len = 16; device = 7 }
    ∷ record { start = 256; len = 256; device = 5 }
    ∷ []

insert_test : insert 9 512 3_584 two_devices ≡ (
  ok tt,
  record { start = 4_096; len = 16; device = 7 }
      ∷ record { start = 512; len = 3_584; device = 9 }
      ∷ record { start = 256; len = 256; device = 5 }
      ∷ [],
)
unfolding insert is_some get_device owned first_before starts_after has_start put
insert_test = refl

insert_overlap_test : insert 9 512 3_585 two_devices ≡ (err overlap, two_devices)
unfolding insert is_some get_device owned first_before starts_after has_start put
insert_overlap_test = refl

insert-OnInsert_example : OnInsert 9 512 3_584 two_devices (insert 9 512 3_584 two_devices)
insert-OnInsert_example =
    insert-OnInsert 9 512 3_584 two_devices (omega arith)
      (omega arith, omega arith, (omega arith, omega arith, tt))
