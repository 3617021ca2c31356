-- ===== src/Base/Maps.antt =====
-- Maps as association lists, by a test of equality of the keys.
use mathlib.Core.Path.{◌≡◌, refl, ap, sym, ◌∙◌}
use mathlib.Core.Logic.{◌↔◌, inl, inr}
use mathlib.Core.Bool.{Bool, true, false, true≢false}
use mathlib.Core.Option.{Option, none, some, none-ne-some}
use mathlib.Core.List.{List, [], ◌∷◌}
use Prim.Native.Nat.{ℕ, suc, ◌+◌, ◌≤◌}
use native.Mathlib.Omega.{arith}
use firecracker.Base.Tests.{if◌then◌else◌, if-split, Bool-cases, ◌==◌}
use firecracker.Base.Lists.{length}

pub record Eq {ℓ} (K : Type ℓ) : Type ℓ where
  pub beq : K → K → Bool
  pub beq_iff : (a b : K) → (beq a b ≡ true) ↔ (a ≡ b)

pub nat_iff : (a b : ℕ) → ((a == b) ≡ true) ↔ (a ≡ b)
nat_iff a b = ((λ h. ground arith), (λ h. ground arith))

instance abbrev pub nat_eq : Eq ℕ
nat_eq = record { beq = ◌==◌; beq_iff = nat_iff }

same_branches {ℓ} : {A : Type ℓ} (b : Bool) (x : A) → (if b then x else x) ≡ x
same_branches true x = refl
same_branches false x = refl

twice {ℓ} :
    {A : Type ℓ} (b : Bool) (x y z : A)
    → (if b then x else z) ≡ (if b then x else (if b then y else z))
twice true x y z = refl
twice false x y z = refl

swapped {ℓ κ} :
    {K : Type ℓ} ⦃e : Eq K⦄ {A : Type κ} (i j k : K) (x y z : A)
    → e.beq j k ≡ false
    → (if e.beq j i then y else (if e.beq k i then x else z))
      ≡ (if e.beq k i then x else (if e.beq j i then y else z))
swapped ⦃e⦄ i j k x y z t =
    if-split (λ r. r ≡ (if e.beq k i then x else (if e.beq j i then y else z))) (e.beq j i)
      (λ p.
        if-split (λ r. y ≡ r) (e.beq k i)
          (λ q. absurd (
            true≢false
              (sym ((e.beq_iff j k).1 ((e.beq_iff j i).0 p ∙ sym ((e.beq_iff k i).0 q))) ∙ t)))
          (λ q. rw p refl))
      (λ p.
        if-split (λ r. (if e.beq k i then x else z) ≡ (if e.beq k i then x else r)) (e.beq j i)
          (λ q. absurd (true≢false (sym q ∙ p))) (λ _. refl))

module _ {ℓ κ} {K : Type ℓ} {V : Type κ} ⦃e : Eq K⦄ where
  unfoldable pub get : K → List (K × V) → Option V
  get k [] = none
  get k ((j, v) ∷ m) = let rest = get k m in if e.beq j k then some v else rest

  -- A value at the key is replaced where it is.
  unfoldable pub insert : K → V → List (K × V) → List (K × V)
  insert k v [] = (k, v) ∷ []
  insert k v ((j, w) ∷ m) =
      let rest = insert k v m in if e.beq j k then (k, v) ∷ m else (j, w) ∷ rest

  unfoldable pub remove : K → List (K × V) → List (K × V)
  remove k [] = []
  remove k ((j, v) ∷ m) = let rest = remove k m in if e.beq j k then rest else (j, v) ∷ rest

  pub get-insert :
      (i k : K) (v : V) (m : List (K × V))
      → get i (insert k v m) ≡ (if e.beq k i then some v else get i m)
  unfolding get insert
  get-insert i k v [] = refl
  get-insert i k v ((j, w) ∷ m) = elim (Bool-cases (e.beq j k)) [
    | inl t ↦
        let same : e.beq j i ≡ e.beq k i = ap (λ x. e.beq x i) ((e.beq_iff j k).0 t) in
        rw (t, same) (twice (e.beq k i) (some v) (some w) (get i m))
    | inr t ↦ rw (t, get-insert i k v m) (swapped i j k (some v) (some w) (get i m) t)
  ]

  pub get-remove :
      (i k : K) (m : List (K × V)) → get i (remove k m) ≡ (if e.beq k i then none else get i m)
  unfolding get remove
  get-remove i k [] = sym (same_branches (e.beq k i) none)
  get-remove i k ((j, w) ∷ m) = elim (Bool-cases (e.beq j k)) [
    | inl t ↦
        let same : e.beq j i ≡ e.beq k i = ap (λ x. e.beq x i) ((e.beq_iff j k).0 t) in
        rw (t, same, get-remove i k m) (twice (e.beq k i) none (some w) (get i m))
    | inr t ↦ rw (t, get-remove i k m) (swapped i j k none (some w) (get i m) t)
  ]

  -- An insertion adds an entry at most, and none where the key is there.
  pub length-insert : (k : K) (v : V) (m : List (K × V)) → length (insert k v m) ≤ length m + 1
  unfolding insert
  length-insert k v [] = omega arith
  length-insert k v ((j, w) ∷ m) =
      if-split (λ (l : List (K × V)). length l ≤ length ((j, w) ∷ m) + 1) (e.beq j k)
        (λ _. omega arith) (λ _. omega (arith, length-insert k v m))

  pub length-insert_again :
      (k : K) (v w : V) (m : List (K × V)) → get k m ≡ some w → length (insert k v m) ≡ length m
  unfolding get insert
  length-insert_again k v w [] h = absurd (none-ne-some w h)
  length-insert_again k v w ((j, u) ∷ m) h = elim (Bool-cases (e.beq j k)) [
    | inl t ↦ rw t refl
    | inr t ↦ rw t (ap suc (length-insert_again k v w m (rw t at h)))
  ]

  pub length-remove : (k : K) (m : List (K × V)) → length (remove k m) ≤ length m
  unfolding remove
  length-remove k [] = omega arith
  length-remove k ((j, w) ∷ m) =
      if-split (λ (l : List (K × V)). length l ≤ length ((j, w) ∷ m)) (e.beq j k)
        (λ _. omega (arith, length-remove k m)) (λ _. omega (arith, length-remove k m))
