-- ===== src/RateLimiter/Bucket/Gcd.antt =====
-- `gcd` of src/rate_limiter/src/lib.rs: the loop `while y != 0`, by recursion on `y`'s order.
use mathlib.Core.Logic.{dite, dif_pos, dif_neg}
use mathlib.Core.WellFounded.{Acc}
use native.Mathlib.Nat.{le_refl, div-add-mod, mul-sub, mod-lt}
use native.Mathlib.Bridge.{le_prop}
use firecracker.Base.{ℕ, zero, suc, ◌+◌, ◌*◌, ◌/◌, ◌%◌, ◌<◌, ◌≡◌, refl, ◌-◌, ap, arith, dec_lt}

acc_below : (k n : ℕ) → n < k → Acc ◌<◌ n
acc_below zero n h = absurd (omega arith)
acc_below (suc k) n h = Acc.intro n (λ m below. acc_below k m (omega arith))

gcd_acc : (x y : ℕ) → Acc ◌<◌ y → ℕ
gcd_acc x y (Acc.intro _ smaller) =
    dite (dec_lt 0 y) (λ h. gcd_acc y (x % y) (smaller (x % y) (mod-lt x h))) (λ _. x)

unfoldable pub gcd : ℕ → ℕ → ℕ
unfolding gcd_acc acc_below dec_lt
gcd x y = gcd_acc x y (acc_below (suc y) y (le_refl _))

-- `d` divides `n`, with the quotient.
abbrev pub Divides : ℕ → ℕ → Type 0
Divides d n = (q : ℕ) × (n ≡ d * q)

Divides-of_mod : (d x y : ℕ) → Divides d y → Divides d (x % y) → Divides d x
Divides-of_mod d x y (p, hp) (q, hq) =
    (x / y * p + q, omega (arith, div-add-mod x y, ap (λ (t : ℕ). x / y * t) hp))

mod-Divides : (d x y : ℕ) → Divides d x → Divides d y → Divides d (x % y)
mod-Divides d x y (p, hp) (q, hq) = (
  p - x / y * q,
  omega (arith, div-add-mod x y, ap (λ (t : ℕ). x / y * t) hq, hp, mul-sub d p (x / y * q)),
)

gcd_acc-Divides : (x y : ℕ) (w : Acc ◌<◌ y) → Divides (gcd_acc x y w) x × Divides (gcd_acc x y w) y
unfolding gcd_acc
gcd_acc-Divides x y (Acc.intro _ smaller) = elim (dec_lt 0 y) [
  | yes h ↦
      let (a, b) = gcd_acc-Divides y (x % y) (smaller (x % y) (mod-lt x h)) in
      rw (dif_pos (dec_lt 0 y) le_prop h) (Divides-of_mod _ x y a b, a)
  | no h ↦ rw (dif_neg (dec_lt 0 y) h) ((1, omega arith), (0, omega arith))
]

gcd_acc_greatest :
    (d x y : ℕ) (w : Acc ◌<◌ y) → Divides d x → Divides d y → Divides d (gcd_acc x y w)
unfolding gcd_acc
gcd_acc_greatest d x y (Acc.intro _ smaller) hx hy = elim (dec_lt 0 y) [
  | yes h ↦
      rw (dif_pos (dec_lt 0 y) le_prop h)
        (gcd_acc_greatest d y (x % y) (smaller (x % y) (mod-lt x h)) hy (mod-Divides d x y hx hy))
  | no h ↦ rw (dif_neg (dec_lt 0 y) h) hx
]

-- The result divides both numbers.
pub gcd-Divides : (x y : ℕ) → Divides (gcd x y) x × Divides (gcd x y) y
unfolding gcd
gcd-Divides x y = gcd_acc-Divides x y (acc_below (suc y) y (le_refl _))

-- Every common divisor divides the result.
pub gcd_greatest : (d x y : ℕ) → Divides d x → Divides d y → Divides d (gcd x y)
unfolding gcd
gcd_greatest d x y hx hy = gcd_acc_greatest d x y (acc_below (suc y) y (le_refl _)) hx hy

gcd_12_18 : gcd 12 18 ≡ 6
unfolding gcd
gcd_12_18 = refl
