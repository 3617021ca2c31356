-- ===== src/Queue/Flat.antt =====
-- A guest memory of 65536 bytes for tests: numbers are little-endian, addresses wrap.
use firecracker.Base.{
  ℕ, ◌+◌, ◌*◌, ◌/◌, ◌%◌, ◌^◌, ◌<◌, ◌≡◌, ap, Option, none, some, arith, ltb, ◌==◌, if◌then◌else◌,
}
use mathlib.Core.Path.{subst}
use mathlib.Core.Option.{some_inj}
use firecracker.Queue.Memory.{GuestMemory, IsMemory, Apart}

-- Bytes, with little-endian numbers.
abbrev pub Bytes : Type 0
Bytes = ℕ → ℕ

abbrev pub put_u16 : Bytes → ℕ → ℕ → Bytes
put_u16 m a v x = if x == a then v % 256 else if x == a + 1 then v / 256 % 256 else m x

abbrev pub put_u32 : Bytes → ℕ → ℕ → Bytes
put_u32 m a v = put_u16 (put_u16 m a (v % 2 ^ 16)) (a + 2) (v / 2 ^ 16)

abbrev pub get_u16 : Bytes → ℕ → ℕ
get_u16 m a = (m a + 256 * m (a + 1)) % 2 ^ 16

abbrev pub get_u32 : Bytes → ℕ → ℕ
get_u32 m a = get_u16 m a + 2 ^ 16 * get_u16 m (a + 2)

abbrev pub within : ℕ → Option ℕ
within a = if ltb a 65_536 then some a else none

abbrev pub flat : GuestMemory Bytes
flat = record {
  read_u16 = λ m a. some (get_u16 m a);
  read_u32 = λ m a. some (get_u32 m a);
  read_descriptor = λ m a. some (record {
    addr = get_u32 m a + 2 ^ 32 * get_u32 m (a + 4);
    len = get_u32 m (a + 8);
    flags = get_u16 m (a + 12);
    next = get_u16 m (a + 14);
  });
  write_u16 = λ m a v. some (put_u16 m a v);
  write_u32 = λ m a v. some (put_u32 m a v);
  checked_offset = λ m a n. within (a + n);
  address_in_range = λ m a. ltb a 65_536;
  checked_add = λ a b. if ltb (a + b) (2 ^ 64) then some (a + b) else none;
  unchecked_add = λ a b. (a + b) % 2 ^ 64;
}

get-put_u16 : (m : Bytes) (a v : ℕ) → v < 2 ^ 16 → get_u16 (put_u16 m a v) a ≡ v
get-put_u16 m a v lt = ground arith

keep_u16 : (m : Bytes) (a v x : ℕ) → Apart x 1 a 2 → put_u16 m a v x ≡ m x
keep_u16 m a v x p = ground arith

keep_u32 : (m : Bytes) (a v x : ℕ) → Apart x 1 a 4 → put_u32 m a v x ≡ m x
keep_u32 m a v x p = ground arith

get-put_u32 : (m : Bytes) (a v : ℕ) → v < 2 ^ 32 → get_u32 (put_u32 m a v) a ≡ v
get-put_u32 m a v lt = ground arith

same_u32 :
    (n m : Bytes) (b : ℕ)
    → n b ≡ m b
    → n (b + 1) ≡ m (b + 1)
    → n (b + 2) ≡ m (b + 2)
    → n (b + 2 + 1) ≡ m (b + 2 + 1)
    → get_u32 n b ≡ get_u32 m b
same_u32 n m b p q r s = grind arith

get_u32-put_u16 : (m : Bytes) (a b v : ℕ) → Apart b 4 a 2 → get_u32 (put_u16 m a v) b ≡ get_u32 m b
get_u32-put_u16 m a b v p =
    let keep = keep_u16 m a v in
    same_u32 (put_u16 m a v) m b (keep b (grind arith)) (keep (b + 1) (grind arith))
      (keep (b + 2) (grind arith)) (keep (b + 2 + 1) (grind arith))

get_u32-put_u32 : (m : Bytes) (a b v : ℕ) → Apart b 4 a 4 → get_u32 (put_u32 m a v) b ≡ get_u32 m b
get_u32-put_u32 m a b v p =
    let keep = keep_u32 m a v in
    same_u32 (put_u32 m a v) m b (keep b (grind arith)) (keep (b + 1) (grind arith))
      (keep (b + 2) (grind arith)) (keep (b + 2 + 1) (grind arith))

pub flat-IsMemory : IsMemory flat
flat-IsMemory = record {
  read-write_u16 = λ {m} {m'} {a} {v} lt e.
      subst (λ n. some (get_u16 n a) ≡ some v) (some_inj.0 e) (ap some (get-put_u16 m a v lt));
  read-write_u32 = λ {m} {m'} {a} {v} lt e.
      subst (λ n. some (get_u32 n a) ≡ some v) (some_inj.0 e) (ap some (get-put_u32 m a v lt));
  read_u16_bound = λ e. omega (arith, some_inj.0 e);
  keep_u32-u16 = λ {m} {m'} {a} {b} {v} p e.
      subst (λ n. some (get_u32 n b) ≡ some (get_u32 m b)) (some_inj.0 e)
        (ap some (get_u32-put_u16 m a b v p));
  keep_u32-u32 = λ {m} {m'} {a} {b} {v} p e.
      subst (λ n. some (get_u32 n b) ≡ some (get_u32 m b)) (some_inj.0 e)
        (ap some (get_u32-put_u32 m a b v p));
  unchecked_add_lem = λ a b lt. omega arith;
}
