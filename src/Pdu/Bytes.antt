-- ===== src/Pdu/Bytes.antt =====
-- Slices of bytes in network order, src/dumbo/src/pdu/bytes.rs. `none` is a panic.
use firecracker.Base.{
  ℕ, ◌+◌, ◌-◌, ◌*◌, ◌/◌, ◌%◌, ◌^◌, ◌≤◌, ◌<◌, ◌≡◌, Bool, ◌&&◌, Option, none, some, ltb, leb, ◌==◌,
  if◌then◌else◌, if-keeps, arith,
}

-- What `at` has from `len` on is not part of the slice.
pub record Bytes : Type 0 where
  pub len : ℕ
  pub at : ℕ → ℕ

unfoldable pub bind {ℓ κ} : {A : Type ℓ} {B : Type κ} → Option A → (A → Option B) → Option B
bind none f = none
bind (some a) f = f a

unfoldable pub put : ℕ → ℕ → Bytes → Bytes
put i v b = record b { at = λ j. if i == j then v else b.at j }

-- `b[i]`, and `b[i] = v`.
unfoldable pub byte : ℕ → Bytes → Option ℕ
byte i b = if ltb i b.len then some (b.at i) else none

unfoldable pub set_byte : ℕ → ℕ → Bytes → Option Bytes
set_byte i v b = if ltb i b.len then some (put i v b) else none

-- `read_be_u16` and `read_be_u32` read 0 past the end, where the slice from the offset is short.
unfoldable pub byte_or_zero : ℕ → Bytes → ℕ
byte_or_zero i b = if ltb i b.len then b.at i else 0

unfoldable pub ntohs_unchecked : ℕ → Bytes → Option ℕ
ntohs_unchecked offset b =
    if ltb b.len offset
    then none
    else some (byte_or_zero offset b * 2 ^ 8 + byte_or_zero (offset + 1) b)

unfoldable pub ntohl_unchecked : ℕ → Bytes → Option ℕ
ntohl_unchecked offset b =
    if ltb b.len offset
    then none
    else some (
        byte_or_zero offset b * 2 ^ 24
        + byte_or_zero (offset + 1) b * 2 ^ 16
        + byte_or_zero (offset + 2) b * 2 ^ 8
        + byte_or_zero (offset + 3) b)

-- The difference in the assertion wraps; then the slice is taken.
unfoldable pub fits : ℕ → ℕ → ℕ → Bool
fits width offset n = leb offset ((n + 2 ^ 64 - width) % 2 ^ 64) && leb offset n

unfoldable pub put_be_u16 : ℕ → ℕ → Bytes → Bytes
put_be_u16 offset v b = put (offset + 1) (v % 2 ^ 8) (put offset (v / 2 ^ 8 % 2 ^ 8) b)

unfoldable pub put_be_u32 : ℕ → ℕ → Bytes → Bytes
put_be_u32 offset v b = put (offset + 3) (v % 2 ^ 8) (
    put (offset + 2) (v / 2 ^ 8 % 2 ^ 8)
      (put (offset + 1) (v / 2 ^ 16 % 2 ^ 8) (put offset (v / 2 ^ 24 % 2 ^ 8) b)))

unfoldable pub htons_unchecked : ℕ → ℕ → Bytes → Option Bytes
htons_unchecked offset v b = if fits 2 offset b.len then some (put_be_u16 offset v b) else none

unfoldable pub htonl_unchecked : ℕ → ℕ → Bytes → Option Bytes
htonl_unchecked offset v b = if fits 4 offset b.len then some (put_be_u32 offset v b) else none

unfoldable pub shrink_unchecked : ℕ → Bytes → Option Bytes
shrink_unchecked n b = if leb n b.len then some (record b { len = n }) else none

-- All values are bytes.
abbrev pub IsBytes : Bytes → Type 0
IsBytes b = (i : ℕ) → b.at i < 2 ^ 8

pub put-IsBytes : (i v : ℕ) (b : Bytes) → v < 2 ^ 8 → IsBytes b → IsBytes (put i v b)
unfolding put
put-IsBytes i v b lt h j = if-keeps (λ (x : ℕ). x < 2 ^ 8) (i == j) lt (h j)

pub put_be_u16-IsBytes : (offset v : ℕ) (b : Bytes) → IsBytes b → IsBytes (put_be_u16 offset v b)
unfolding put_be_u16
put_be_u16-IsBytes offset v b h =
    put-IsBytes (offset + 1) (v % 2 ^ 8) _ (omega arith)
      (put-IsBytes offset (v / 2 ^ 8 % 2 ^ 8) b (omega arith) h)

pub put_be_u32-IsBytes : (offset v : ℕ) (b : Bytes) → IsBytes b → IsBytes (put_be_u32 offset v b)
unfolding put_be_u32
put_be_u32-IsBytes offset v b h = put-IsBytes (offset + 3) (v % 2 ^ 8) _ (omega arith) (
    put-IsBytes (offset + 2) (v / 2 ^ 8 % 2 ^ 8) _ (omega arith) (
      put-IsBytes (offset + 1) (v / 2 ^ 16 % 2 ^ 8) _ (omega arith)
        (put-IsBytes offset (v / 2 ^ 24 % 2 ^ 8) b (omega arith) h)))

-- Reads and writes that are within the slice.
pub byte-within : (i : ℕ) (b : Bytes) → i < b.len → byte i b ≡ some (b.at i)
unfolding byte
byte-within i b lt = ground arith

pub set_byte-within : (i v : ℕ) (b : Bytes) → i < b.len → set_byte i v b ≡ some (put i v b)
unfolding set_byte
set_byte-within i v b lt = ground arith

pub ntohs-within :
    (offset : ℕ) (b : Bytes)
    → offset + 2 ≤ b.len
    → ntohs_unchecked offset b ≡ some (b.at offset * 2 ^ 8 + b.at (offset + 1))
unfolding ntohs_unchecked byte_or_zero
ntohs-within offset b le = ground arith

pub ntohl-within :
    (offset : ℕ) (b : Bytes)
    → offset + 4 ≤ b.len
    → ntohl_unchecked offset b
      ≡ some (
          b.at offset * 2 ^ 24
          + b.at (offset + 1) * 2 ^ 16
          + b.at (offset + 2) * 2 ^ 8
          + b.at (offset + 3))
unfolding ntohl_unchecked byte_or_zero
ntohl-within offset b le = ground arith

pub htons-within :
    (offset v : ℕ) (b : Bytes)
    → offset + 2 ≤ b.len
    → b.len < 2 ^ 64
    → htons_unchecked offset v b ≡ some (put_be_u16 offset v b)
unfolding htons_unchecked fits
htons-within offset v b le lt = ground arith

pub htonl-within :
    (offset v : ℕ) (b : Bytes)
    → offset + 4 ≤ b.len
    → b.len < 2 ^ 64
    → htonl_unchecked offset v b ≡ some (put_be_u32 offset v b)
unfolding htonl_unchecked fits
htonl-within offset v b le lt = ground arith

pub shrink-within :
    (n : ℕ) (b : Bytes) → n ≤ b.len → shrink_unchecked n b ≡ some (record b { len = n })
unfolding shrink_unchecked
shrink-within n b le = ground arith
