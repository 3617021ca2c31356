-- ===== src/Base/Results.antt =====
-- Rust's `Result`, with its error type first.
use mathlib.Core.Path.{◌≡◌, ap}
use mathlib.Core.Logic.{◌≢◌}
use mathlib.Core.Bool.{Bool, true, false, true≢false}

pub data Result {ℓ κ} (E : Type ℓ) (A : Type κ) : Type (ℓ ⊔ κ) where
  ok : A → Result E A
  err : E → Result E A

module _ {ℓ κ} {E : Type ℓ} {A : Type κ} where
  -- The value, or `a` in place of an error.
  abbrev ok_or : A → Result E A → A
  ok_or a (ok b) = b
  ok_or a (err e) = a

  abbrev is_ok : Result E A → Bool
  is_ok (ok a) = true
  is_ok (err e) = false

  pub ok-inj : {a b : A} → Path (Result E A) (ok a) (ok b) → a ≡ b
  ok-inj {a} e = ap (ok_or a) e

  pub ok≢err : {a : A} {e : E} → ok a ≢ err e
  ok≢err h = true≢false (ap is_ok h)
