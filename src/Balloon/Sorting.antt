-- ===== src/Balloon/Sorting.antt =====
-- The sort of page numbers that src/devices/src/virtio/balloon/utils.rs starts with.
use firecracker.Base.{
  ℕ, ◌≤◌, ◌≡◌, ◌⊎◌, inl, inr, refl, List, [], ◌∷◌, leb, if-split, arith, length, suc, ap, ◌∙◌,
}
use firecracker.Balloon.{insert, sort_unstable}

abbrev pub Has : ℕ → List ℕ → Type 0
Has p [] = ⊥
Has p (x ∷ xs) = (p ≡ x) ⊎ Has p xs

abbrev pub Ascending : ℕ → List ℕ → Type 0
Ascending low [] = Unit
Ascending low (x ∷ xs) = (low ≤ x) × Ascending x xs

insert-Has : (p x : ℕ) (ys : List ℕ) → Has p (insert x ys) → (p ≡ x) ⊎ Has p ys
unfolding insert
insert-Has p x [] = λ h. h
insert-Has p x (y ∷ ys) =
    if-split (λ zs. Has p zs → (p ≡ x) ⊎ ((p ≡ y) ⊎ Has p ys)) (leb x y) (λ _ h. h)
      (λ _ h. elim h [
        | inl e ↦ inr (inl e)
        | inr t ↦ elim (insert-Has p x ys t) [ inl e ↦ inl e | inr u ↦ inr (inr u) ]
      ])

Has-insert : (p x : ℕ) (ys : List ℕ) → (p ≡ x) ⊎ Has p ys → Has p (insert x ys)
unfolding insert
Has-insert p x [] = λ h. h
Has-insert p x (y ∷ ys) =
    if-split (λ zs. (p ≡ x) ⊎ ((p ≡ y) ⊎ Has p ys) → Has p zs) (leb x y) (λ _ h. h)
      (λ _ h. elim h [
        | inl e ↦ inr (Has-insert p x ys (inl e))
        | inr (inl e) ↦ inl e
        | inr (inr u) ↦ inr (Has-insert p x ys (inr u))
      ])

insert-Ascending :
    (low x : ℕ) (ys : List ℕ) → low ≤ x → Ascending low ys → Ascending low (insert x ys)
unfolding insert
insert-Ascending low x [] le a = (le, tt)
insert-Ascending low x (y ∷ ys) le (lo, a) =
    if-split (Ascending low) (leb x y) (λ t. (le, (ground (arith, t), a)))
      (λ t. (lo, insert-Ascending y x ys (ground (arith, t)) a))

pub sort_unstable-Has :
    (p : ℕ) (v : List ℕ) → (Has p (sort_unstable v) → Has p v) × (Has p v → Has p (sort_unstable v))
unfolding sort_unstable
sort_unstable-Has p [] = ((λ h. h), (λ h. h))
sort_unstable-Has p (x ∷ xs) =
    let ih = sort_unstable-Has p xs in
    (
      (λ h. elim (insert-Has p x (sort_unstable xs) h) [ inl e ↦ inl e | inr t ↦ inr (ih.0 t) ]),
      (λ h. elim h [
        | inl e ↦ Has-insert p x (sort_unstable xs) (inl e)
        | inr t ↦ Has-insert p x (sort_unstable xs) (inr (ih.1 t))
      ]),
    )

pub sort_unstable-Ascending : (v : List ℕ) → Ascending 0 (sort_unstable v)
unfolding sort_unstable
sort_unstable-Ascending [] = tt
sort_unstable-Ascending (x ∷ xs) =
    insert-Ascending 0 x (sort_unstable xs) (omega arith) (sort_unstable-Ascending xs)

length-insert : (x : ℕ) (ys : List ℕ) → length (insert x ys) ≡ suc (length ys)
unfolding insert
length-insert x [] = refl
length-insert x (y ∷ ys) =
    if-split (λ (zs : List ℕ). length zs ≡ suc (length (y ∷ ys))) (leb x y) (λ _. refl)
      (λ _. ap suc (length-insert x ys))

pub length-sort_unstable : (v : List ℕ) → length (sort_unstable v) ≡ length v
unfolding sort_unstable
length-sort_unstable [] = refl
length-sort_unstable (x ∷ xs) =
    length-insert x (sort_unstable xs) ∙ ap suc (length-sort_unstable xs)
