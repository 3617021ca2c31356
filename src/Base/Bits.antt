-- ===== src/Base/Bits.antt =====
-- Masks on words, by the digits that `bit_and` and `bit_or` stand for.
use Prim.Native.Nat.{
  ℕ, zero, suc, ◌+◌, ◌*◌, ◌/◌, ◌%◌, ◌-◌, ◌^◌, ◌≤◌, ◌<◌, min, max, digits, bit_and, bit_or,
  bit_and-bitwise, bit_or-bitwise,
}
use mathlib.Core.Path.{◌≡◌, refl, ap, ◌∙◌}
use mathlib.Core.Logic.{◌≢◌}
use native.Mathlib.Omega.{arith}

-- Any count of digits that is large enough gives the same.
module _ (rest : ℕ → ℕ) (digit : ℕ → ℕ → ℕ) where
  enough_digits : (a b m n : ℕ) → a ≤ m → a ≤ n → digits rest digit m a b ≡ digits rest digit n a b
  enough_digits zero b zero zero hm hn = refl
  enough_digits zero b zero (suc n) hm hn = refl
  enough_digits zero b (suc m) zero hm hn = refl
  enough_digits zero b (suc m) (suc n) hm hn = refl
  enough_digits (suc a) b zero n hm hn = absurd (omega arith)
  enough_digits (suc a) b (suc m) zero hm hn = absurd (omega arith)
  enough_digits (suc a) b (suc m) (suc n) hm hn =
      ap (λ (t : ℕ). t * 2 + digit (suc a % 2) (b % 2))
        (enough_digits (suc a / 2) (b / 2) m n (omega arith) (omega arith))

pub and_digit : (a b : ℕ) → bit_and a b ≡ bit_and (a / 2) (b / 2) * 2 + min (a % 2) (b % 2)
and_digit zero b = omega (arith, bit_and-bitwise 0 b, bit_and-bitwise 0 (b / 2))
and_digit (suc a) b = omega (
  arith,
  bit_and-bitwise (suc a) b,
  bit_and-bitwise (suc a / 2) (b / 2),
  enough_digits (λ _. 0) min (suc a / 2) (b / 2) a (suc a / 2) (omega arith) (omega arith),
)

pub or_digit : (a b : ℕ) → bit_or a b ≡ bit_or (a / 2) (b / 2) * 2 + max (a % 2) (b % 2)
or_digit zero b = omega (arith, bit_or-bitwise 0 b, bit_or-bitwise 0 (b / 2))
or_digit (suc a) b = omega (
  arith,
  bit_or-bitwise (suc a) b,
  bit_or-bitwise (suc a / 2) (b / 2),
  enough_digits (λ y. y) max (suc a / 2) (b / 2) a (suc a / 2) (omega arith) (omega arith),
)

-- The bit `k` of a word, as 0 or 1.
abbrev pub bit : ℕ → ℕ → ℕ
bit a zero = a % 2
bit a (suc k) = bit (a / 2) k

and_half : (a b : ℕ) → bit_and a b / 2 ≡ bit_and (a / 2) (b / 2)
and_half a b = omega (arith, and_digit a b)

or_half : (a b : ℕ) → bit_or a b / 2 ≡ bit_or (a / 2) (b / 2)
or_half a b = omega (arith, or_digit a b)

pub bit-and : (k a b : ℕ) → bit (bit_and a b) k ≡ min (bit a k) (bit b k)
bit-and zero a b = omega (arith, and_digit a b)
bit-and (suc k) a b = ap (λ t. bit t k) (and_half a b) ∙ bit-and k (a / 2) (b / 2)

pub bit-or : (k a b : ℕ) → bit (bit_or a b) k ≡ max (bit a k) (bit b k)
bit-or zero a b = omega (arith, or_digit a b)
bit-or (suc k) a b = ap (λ t. bit t k) (or_half a b) ∙ bit-or k (a / 2) (b / 2)

bit-zero : (k : ℕ) → bit 0 k ≡ 0
bit-zero zero = refl
bit-zero (suc k) = bit-zero k

and_zero_below : (n a b : ℕ) → a ≤ n → b ≡ 0 → bit_and a b ≡ 0
and_zero_below zero a b le e =
    ap (λ (t : ℕ). bit_and t b) {x = a} {y = 0} (omega arith) ∙ omega (arith, bit_and-bitwise 0 b)
and_zero_below (suc n) a b le e =
    omega (arith, and_digit a b, and_zero_below n (a / 2) (b / 2) (omega arith) (omega arith))

and_zero : (a : ℕ) → bit_and a 0 ≡ 0
and_zero a = and_zero_below a a 0 (omega arith) refl

-- A mask of one bit that the word does not have.
pub and_missing : (k a : ℕ) → bit a k ≡ 0 → bit_and a (2 ^ k) ≡ 0
and_missing zero a e = omega (arith, and_digit a 1, and_zero (a / 2))
and_missing (suc k) a e = omega (
  arith,
  and_digit a (2 ^ suc k),
  and_missing k (a / 2) e,
  ap (λ (t : ℕ). bit_and (a / 2) t) {x = 2 ^ suc k / 2} {y = 2 ^ k} (omega arith),
)

pub bit_bound : (k a : ℕ) → bit a k ≤ 1
bit_bound zero a = omega arith
bit_bound (suc k) a = bit_bound k (a / 2)

pub bit-power_same : (k : ℕ) → bit (2 ^ k) k ≡ 1
bit-power_same zero = refl
bit-power_same (suc k) =
    ap (λ (t : ℕ). bit t k) {x = 2 ^ suc k / 2} {y = 2 ^ k} (omega arith) ∙ bit-power_same k

pub bit-power_other : (j k : ℕ) → j ≢ k → bit (2 ^ j) k ≡ 0
bit-power_other zero zero ne = absurd (ne refl)
bit-power_other zero (suc k) ne = bit-zero k
bit-power_other (suc j) zero ne = omega arith
bit-power_other (suc j) (suc k) ne =
    ap (λ (t : ℕ). bit t k) {x = 2 ^ suc j / 2} {y = 2 ^ j} (omega arith)
    ∙ bit-power_other j k (λ e. ne (ap suc e))

-- The complement of a word of `n` bits.
pub bit-complement : (n k a : ℕ) → k < n → a < 2 ^ n → bit (2 ^ n - 1 - a) k ≡ 1 - bit a k
bit-complement zero k a lt fits = absurd (omega arith)
bit-complement (suc n) zero a lt fits = omega arith
bit-complement (suc n) (suc k) a lt fits =
    ap (λ (t : ℕ). bit t k) {x = (2 ^ suc n - 1 - a) / 2} {y = 2 ^ n - 1 - a / 2} (omega arith)
    ∙ bit-complement n k (a / 2) (omega arith) (omega arith)

-- A mask of one bit that the word has.
pub and_found : (k a : ℕ) → bit a k ≡ 1 → bit_and a (2 ^ k) ≢ 0
and_found k a e z = omega (
  arith,
  bit-and k a (2 ^ k),
  bit-power_same k,
  bit-zero k,
  ap (λ (t : ℕ). bit t k) {x = bit_and a (2 ^ k)} {y = 0} z,
)

no_bits_below : (n a : ℕ) → a ≤ n → ((k : ℕ) → bit a k ≡ 0) → a ≡ 0
no_bits_below zero a le f = omega arith
no_bits_below (suc n) a le f =
    omega (arith, f 0, no_bits_below n (a / 2) (omega arith) (λ k. f (suc k)))

pub no_bits : (a : ℕ) → ((k : ℕ) → bit a k ≡ 0) → a ≡ 0
no_bits a f = no_bits_below a a (omega arith) f
