-- ===== src/Vsock/TxBuf/Copies.antt =====
-- The copies of `TxBuf::push`, src/devices/src/virtio/vsock/csm/txbuf.rs, position by position.
use firecracker.Base.{
  ℕ, ◌+◌, ◌-◌, ◌%◌, ◌≤◌, ◌<◌, ◌≡◌, ◌⊎◌, inl, inr, ap, ◌∙◌, List, length, get_or, take, drop, min,
  ltb, arith, if-split, ltb→lt, lt-or-le, length-take, length-drop,
}
use firecracker.Vsock.TxBuf.{size, copy_at, put}
use firecracker.Vsock.TxBuf.Ring.{
  get_or-take, get_or-drop, copy_at-within, copy_at-before, copy_at-after, length-copy_at,
}

module _ (xs : List ℕ) (ofs : ℕ) (src : List ℕ) (whole : length xs ≡ size) (inside : ofs < size)
    (room : length src ≤ size) where
  abbrev count : ℕ
  count = min (size - ofs) (length src)

  length-first : length (take count src) ≡ count
  length-first = length-take count src ∙ omega arith

  fits : ofs + length (take count src) ≤ length xs
  fits = omega (arith, length-first)

  abbrev first : List ℕ
  first = copy_at xs ofs (take count src)

  length-first_copy : length first ≡ size
  length-first_copy = length-copy_at xs ofs (take count src) fits ∙ whole

  length-second : length (drop count src) ≡ length src - count
  length-second = length-drop count src

  fits_second : 0 + length (drop count src) ≤ length first
  fits_second = omega (arith, length-second, length-first_copy)

  first-within : (k : ℕ) → k < count → get_or first (ofs + k) 0 ≡ get_or src k 0
  first-within k lt =
      copy_at-within xs ofs (take count src) fits k (omega (arith, length-first))
      ∙ get_or-take count src k lt

  abbrev second : List ℕ
  second = copy_at first 0 (drop count src)

  second-within : (i : ℕ) → i < length src - count → get_or second i 0 ≡ get_or src (count + i) 0
  second-within i lt =
      ap (λ (j : ℕ). get_or second j 0) {x = i} {y = 0 + i} (omega arith)
      ∙ copy_at-within first 0 (drop count src) fits_second i (omega (arith, length-second))
      ∙ get_or-drop count src i

  second-after : (i : ℕ) → length src - count ≤ i → get_or second i 0 ≡ get_or first i 0
  second-after i le =
      copy_at-after first 0 (drop count src) fits_second i (omega (arith, length-second))

  -- A position of the slice, wrapped around, has the slice's byte.
  pub put-within :
      (k : ℕ) → k < length src → get_or (put xs ofs src) ((ofs + k) % size) 0 ≡ get_or src k 0
  unfolding put
  put-within k lt =
      if-split (λ ys. get_or ys ((ofs + k) % size) 0 ≡ get_or src k 0) (ltb count (length src))
        (λ t.
          let wraps = ltb→lt count (length src) t in
          elim (lt-or-le k count) [
            | inl le ↦
                second-after ((ofs + k) % size) (omega arith)
                ∙ ap (λ (j : ℕ). get_or first j 0) {x = (ofs + k) % size} {y = ofs + k}
                    (omega arith)
                ∙ first-within k le
            | inr ge ↦
                second-within ((ofs + k) % size) (omega arith)
                ∙ ap (λ (j : ℕ). get_or src j 0) {x = count + (ofs + k) % size} {y = k}
                    (omega arith)
          ])
        (λ t.
          let stays : length src ≤ count = ground arith in
          ap (λ (j : ℕ). get_or first j 0) {x = (ofs + k) % size} {y = ofs + k} (omega arith)
          ∙ first-within k (omega arith))

  first-outside : (i : ℕ) → (i < ofs) ⊎ (ofs + count ≤ i) → get_or first i 0 ≡ get_or xs i 0
  first-outside i (inl lt) = copy_at-before xs ofs (take count src) fits i lt
  first-outside i (inr le) =
      copy_at-after xs ofs (take count src) fits i (omega (arith, length-first))

  -- A position past the slice, up to the buffer's size, keeps its byte.
  pub put-outside :
      (k : ℕ)
      → length src ≤ k
      → k < size
      → get_or (put xs ofs src) ((ofs + k) % size) 0 ≡ get_or xs ((ofs + k) % size) 0
  unfolding put
  put-outside k le lt =
      if-split (λ ys. get_or ys ((ofs + k) % size) 0 ≡ get_or xs ((ofs + k) % size) 0)
        (ltb count (length src))
        (λ t.
          let wraps = ltb→lt count (length src) t in
          second-after ((ofs + k) % size) (omega arith)
          ∙ first-outside ((ofs + k) % size) (inl (omega arith)))
        (λ t.
          let stays : length src ≤ count = ground arith in
          first-outside ((ofs + k) % size) (grind arith))

  pub length-put : length (put xs ofs src) ≡ size
  unfolding put
  length-put =
      if-split (λ (ys : List ℕ). length ys ≡ size) (ltb count (length src))
        (λ _. length-copy_at first 0 (drop count src) fits_second ∙ length-first_copy)
        (λ _. length-first_copy)
