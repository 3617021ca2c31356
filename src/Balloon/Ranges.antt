-- ===== src/Balloon/Ranges.antt =====
-- What `compact_page_frame_numbers`, src/devices/src/virtio/balloon/utils.rs, gives.
use firecracker.Base.{
  ℕ, ◌+◌, ◌^◌, ◌≤◌, ◌<◌, ◌≡◌, ◌⊎◌, inl, inr, refl, List, [], ◌∷◌, ◌==◌, u32, if-split, arith,
  lt-or-le, length,
}
use firecracker.Balloon.{sort_unstable, compact_from, compact_sorted, compact_page_frame_numbers}
use firecracker.Balloon.Sorting.{
  Has, Ascending, sort_unstable-Has, sort_unstable-Ascending, length-sort_unstable,
}

abbrev pub Covers : ℕ → List (ℕ × ℕ) → Type 0
Covers p [] = ⊥
Covers p (r ∷ rs) = ((r.0 ≤ p) × (p < r.0 + r.1)) ⊎ Covers p rs

-- Ranges that are not empty, in order, with a page between one and the next.
abbrev pub Spaced : ℕ → List (ℕ × ℕ) → Type 0
Spaced bound [] = Unit
Spaced bound (r ∷ rs) = (bound ≤ r.0) × (0 < r.1) × Spaced (r.0 + r.1 + 1) rs

-- The ranges cover those pages of the range at hand and of the list, and are spaced.
record IsCompact (low high : ℕ) (pages : List ℕ) (rs : List (ℕ × ℕ)) : Type 0 where
  covers : (p : ℕ) → Covers p rs → ((low ≤ p) × (p ≤ high)) ⊎ Has p pages
  covered : (p : ℕ) → ((low ≤ p) × (p ≤ high)) ⊎ Has p pages → Covers p rs
  spaced : Spaced low rs

higher : {low high : ℕ} (rs : List (ℕ × ℕ)) → low ≤ high → Spaced high rs → Spaced low rs
higher [] le s = tt
higher (r ∷ rs) le (lo, some_len, rest) = (omega (arith, lo, le), some_len, rest)

module _ (before previous count x : ℕ) (xs : List ℕ) (last : before + 1 ≡ previous + count)
    (pos : 0 < count) where
  -- The page at hand is the one before again, or the next.
  joined-IsCompact :
      {rs : List (ℕ × ℕ)}
      → before ≤ x
      → x ≤ before + 1
      → IsCompact previous x xs rs
      → IsCompact previous before (x ∷ xs) rs
  joined-IsCompact lo hi ih = record {
    covers = λ p h. elim (ih.covers p h) [
      | inl r ↦ elim (lt-or-le p x) [
        | inl lt ↦ inl (r.0, omega (arith, hi, lt))
        | inr le ↦ inr (inl (omega (arith, r.1, le)))
      ]
      | inr u ↦ inr (inr u)
    ];
    covered = λ p h. elim h [
      | inl r ↦ ih.covered p (inl (r.0, omega (arith, r.1, lo)))
      | inr (inl e) ↦ ih.covered p (inl (omega (arith, e, lo, last, pos), omega (arith, e)))
      | inr (inr u) ↦ ih.covered p (inr u)
    ];
    spaced = ih.spaced;
  }

  -- The page at hand starts a range.
  started-IsCompact :
      {rs : List (ℕ × ℕ)}
      → before + 1 < x
      → IsCompact x x xs rs
      → IsCompact previous before (x ∷ xs) ((previous, count) ∷ rs)
  started-IsCompact {rs} gap ih = record {
    covers = λ p h. elim h [
      | inl r ↦ inl (r.0, omega (arith, r.1, last))
      | inr u ↦ elim (ih.covers p u) [
        | inl r ↦ inr (inl (omega (arith, r.0, r.1)))
        | inr w ↦ inr (inr w)
      ]
    ];
    covered = λ p h. elim h [
      | inl r ↦ inl (r.0, omega (arith, r.1, last))
      | inr (inl e) ↦ inr (ih.covered p (inl (omega (arith, e), omega (arith, e))))
      | inr (inr u) ↦ inr (ih.covered p (inr u))
    ];
    spaced = (omega arith, pos, higher rs (omega (arith, gap, last)) ih.spaced);
  }

compact_from-IsCompact :
    (before previous count : ℕ) (pages : List ℕ)
    → before + 1 ≡ previous + count
    → 0 < count
    → Ascending before pages
    → ((p : ℕ) → Has p pages → p < 2 ^ 32)
    → before < 2 ^ 32
    → count + length pages < 2 ^ 32
    → IsCompact previous before pages (compact_from before previous count pages)
unfolding compact_from
compact_from-IsCompact before previous count [] last pos a small fits few = record {
  covers = λ p h. elim h [ inl r ↦ inl (r.0, omega (arith, r.1, last)) | inr u ↦ elim u [ ] ];
  covered = λ p h. elim h [ inl r ↦ inl (r.0, omega (arith, r.1, last)) | inr u ↦ elim u [ ] ];
  spaced = (omega arith, pos, tt);
}
compact_from-IsCompact before previous count (x ∷ xs) last pos (le, a) small fits few =
    let P = IsCompact previous before (x ∷ xs) in
    let x_fits = small x (inl refl) in
    if-split P (x == before)
      (λ t.
        let same : x ≡ before = ground (arith, t) in
        joined-IsCompact before previous count x xs last pos le (omega (arith, same)) (
          compact_from-IsCompact x previous count xs (omega (arith, last, same)) pos a
            (λ p h. small p (inr h)) x_fits (omega (arith, few))))
      (λ t.
        if-split P (x == u32 (previous + count))
          (λ u.
            let next : x ≡ before + 1 = ground (arith, u, last, le, x_fits, fits) in
            let grown : u32 (count + 1) ≡ count + 1 = omega (arith, few) in
            joined-IsCompact before previous count x xs last pos le (omega (arith, next)) (
              compact_from-IsCompact x previous (u32 (count + 1)) xs
                (omega (arith, last, next, grown)) (omega (arith, grown)) a (λ p h. small p (inr h))
                x_fits (omega (arith, few, grown))))
          (λ u.
            let gap : before + 1 < x = ground (arith, t, u, last, le, x_fits, fits) in
            started-IsCompact before previous count x xs last pos gap (
              compact_from-IsCompact x x 1 xs (omega arith) (omega arith) a (λ p h. small p (inr h))
                x_fits (omega (arith, few, pos)))))

-- The ranges of a list cover its pages and no other, and are spaced.
pub record IsCompacted (v : List ℕ) (rs : List (ℕ × ℕ)) : Type 0 where
  pub covers : (p : ℕ) → Covers p rs → Has p v
  pub covered : (p : ℕ) → Has p v → Covers p rs
  pub spaced : Spaced 0 rs

compact_sorted-IsCompacted :
    (v : List ℕ)
    → Ascending 0 v
    → ((p : ℕ) → Has p v → p < 2 ^ 32)
    → length v < 2 ^ 32
    → IsCompacted v (compact_sorted v)
unfolding compact_sorted
compact_sorted-IsCompacted [] a small few = record {
  covers = λ p h. h;
  covered = λ p h. h;
  spaced = tt;
}
compact_sorted-IsCompacted (x ∷ xs) (lo, a) small few =
    let c =
      compact_from-IsCompact x x 1 xs (omega arith) (omega arith) a (λ p h. small p (inr h))
        (small x (inl refl)) (omega (arith, few)) in
    record {
      covers = λ p h. elim (c.covers p h) [ inl r ↦ inl (omega (arith, r.0, r.1)) | inr u ↦ inr u ];
      covered = λ p h. elim h [
        | inl e ↦ c.covered p (inl (omega (arith, e), omega (arith, e)))
        | inr u ↦ c.covered p (inr u)
      ];
      spaced = higher (compact_from x x 1 xs) (omega arith) c.spaced;
    }

-- For fewer than 2 ^ 32 page frame numbers of 32 bits, in any order and with duplicates, the ranges
-- cover the pages given and no other; none is empty, and they are in order with a page or more
-- between one and the next, so that no two overlap or could be one.
pub compact_page_frame_numbers-IsCompacted :
    (v : List ℕ)
    → ((p : ℕ) → Has p v → p < 2 ^ 32)
    → length v < 2 ^ 32
    → IsCompacted v (compact_page_frame_numbers v)
unfolding compact_page_frame_numbers
compact_page_frame_numbers-IsCompacted v small few =
    let c =
      compact_sorted-IsCompacted (sort_unstable v) (sort_unstable-Ascending v)
        (λ p h. small p ((sort_unstable-Has p v).0 h))
        (omega (arith, few, length-sort_unstable v)) in
    record {
      covers = λ p h. (sort_unstable-Has p v).0 (c.covers p h);
      covered = λ p h. c.covered p ((sort_unstable-Has p v).1 h);
      spaced = c.spaced;
    }
