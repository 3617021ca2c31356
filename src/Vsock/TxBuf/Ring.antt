-- ===== src/Vsock/TxBuf/Ring.antt =====
-- The bytes of a ring buffer from a position on, and what copies do to them.
use firecracker.Base.{
  ℕ, zero, suc, ◌+◌, ◌-◌, ◌%◌, ◌≤◌, ◌<◌, ◌≡◌, refl, ap, ap₂, sym, ◌∙◌, List, [], ◌∷◌, ◌++◌, length,
  get_or, take, drop, arith, length-append, length-take, length-drop,
}
use firecracker.Vsock.TxBuf.{size, copy_at}

abbrev pub ring : List ℕ → ℕ → ℕ → List ℕ
ring xs s zero = []
ring xs s (suc n) = get_or xs (s % size) 0 ∷ ring xs (s + 1) n

pub ring-append : (xs : List ℕ) (s m n : ℕ) → ring xs s (m + n) ≡ ring xs s m ++ ring xs (s + m) n
ring-append xs s zero n = ap₂ (λ a b. ring xs a b) (omega arith) (omega arith)
ring-append xs s (suc m) n =
    ap (λ (k : ℕ). ring xs s k) {x = suc m + n} {y = suc (m + n)} (omega arith)
    ∙ ap (λ ys. get_or xs (s % size) 0 ∷ ys)
        (ring-append xs (s + 1) m n ∙ ap (λ k. ring xs (s + 1) m ++ ring xs k n) (omega arith))

-- Equal at each position, two rings have the same bytes.
pub ring-ext :
    (xs ys : List ℕ) (s t n : ℕ)
    → ((k : ℕ) → k < n → get_or xs ((s + k) % size) 0 ≡ get_or ys ((t + k) % size) 0)
    → ring xs s n ≡ ring ys t n
ring-ext xs ys s t zero f = refl
ring-ext xs ys s t (suc n) f =
    ap₂ (λ a b. a ∷ b)
      (ap (λ k. get_or xs (k % size) 0) (omega arith)
        ∙ f 0 (omega arith)
        ∙ ap (λ k. get_or ys (k % size) 0) (omega arith))
      (ring-ext xs ys (s + 1) (t + 1) n (λ k lt.
        ap (λ i. get_or xs (i % size) 0) (omega arith)
        ∙ f (k + 1) (omega arith)
        ∙ ap (λ i. get_or ys (i % size) 0) (omega arith)))

pub ring-is :
    (xs : List ℕ) (s : ℕ) (src : List ℕ)
    → ((k : ℕ) → k < length src → get_or xs ((s + k) % size) 0 ≡ get_or src k 0)
    → ring xs s (length src) ≡ src
ring-is xs s [] f = refl
ring-is xs s (x ∷ src) f =
    ap₂ (λ a b. a ∷ b) (ap (λ k. get_or xs (k % size) 0) (omega arith) ∙ f 0 (omega arith))
      (ring-is xs (s + 1) src
        (λ k lt. ap (λ i. get_or xs (i % size) 0) (omega arith) ∙ f (suc k) (omega arith)))

get_or-append-left :
    (xs ys : List ℕ) (i : ℕ) → i < length xs → get_or (xs ++ ys) i 0 ≡ get_or xs i 0
get_or-append-left [] ys i lt = absurd (omega arith)
get_or-append-left (x ∷ xs) ys zero lt = refl
get_or-append-left (x ∷ xs) ys (suc i) lt = get_or-append-left xs ys i (omega arith)

get_or-append-right : (xs ys : List ℕ) (i : ℕ) → get_or (xs ++ ys) (length xs + i) 0 ≡ get_or ys i 0
get_or-append-right [] ys i = ap (λ k. get_or ys k 0) (omega arith)
get_or-append-right (x ∷ xs) ys i =
    ap (λ (k : ℕ). get_or (x ∷ xs ++ ys) k 0) {x = suc (length xs) + i} {y = suc (length xs + i)}
      (omega arith)
    ∙ get_or-append-right xs ys i

pub get_or-take : (n : ℕ) (xs : List ℕ) (i : ℕ) → i < n → get_or (take n xs) i 0 ≡ get_or xs i 0
get_or-take zero xs i lt = absurd (omega arith)
get_or-take (suc n) [] i lt = refl
get_or-take (suc n) (x ∷ xs) zero lt = refl
get_or-take (suc n) (x ∷ xs) (suc i) lt = get_or-take n xs i (omega arith)

pub get_or-drop : (n : ℕ) (xs : List ℕ) (i : ℕ) → get_or (drop n xs) i 0 ≡ get_or xs (n + i) 0
get_or-drop zero xs i = ap (λ k. get_or xs k 0) (omega arith)
get_or-drop (suc n) [] i = refl
get_or-drop (suc n) (x ∷ xs) i =
    get_or-drop n xs i
    ∙ ap (λ (k : ℕ). get_or (x ∷ xs) k 0) {x = suc (n + i)} {y = suc n + i} (omega arith)

module _ (xs : List ℕ) (ofs : ℕ) (src : List ℕ) (fits : ofs + length src ≤ length xs) where
  length-prefix : length (take ofs xs) ≡ ofs
  length-prefix = length-take ofs xs ∙ omega arith

  -- Copied, a position within is the slice's, and one outside is the old one.
  pub copy_at-within :
      (i : ℕ) → i < length src → get_or (copy_at xs ofs src) (ofs + i) 0 ≡ get_or src i 0
  unfolding copy_at
  copy_at-within i lt =
      ap (λ k. get_or (take ofs xs ++ (src ++ drop (ofs + length src) xs)) (k + i) 0)
        (sym length-prefix)
      ∙ get_or-append-right (take ofs xs) _ i
      ∙ get_or-append-left src _ i lt

  pub copy_at-before : (i : ℕ) → i < ofs → get_or (copy_at xs ofs src) i 0 ≡ get_or xs i 0
  unfolding copy_at
  copy_at-before i lt =
      get_or-append-left (take ofs xs) _ i (omega (arith, length-prefix)) ∙ get_or-take ofs xs i lt

  pub copy_at-after :
      (i : ℕ) → ofs + length src ≤ i → get_or (copy_at xs ofs src) i 0 ≡ get_or xs i 0
  unfolding copy_at
  copy_at-after i le =
      let j = i - (ofs + length src) in
      let tail = drop (ofs + length src) xs in
      ap (λ k. get_or (take ofs xs ++ (src ++ tail)) k 0)
        {y = length (take ofs xs) + (length src + j)} (omega (arith, length-prefix))
      ∙ get_or-append-right (take ofs xs) (src ++ tail) (length src + j)
      ∙ get_or-append-right src tail j
      ∙ get_or-drop (ofs + length src) xs j
      ∙ ap (λ (k : ℕ). get_or xs k 0) {x = ofs + length src + j} {y = i} (omega arith)

  pub length-copy_at : length (copy_at xs ofs src) ≡ length xs
  unfolding copy_at
  length-copy_at =
      length-append (take ofs xs) _
      ∙ omega (
        arith,
        length-append src (drop (ofs + length src) xs),
        length-prefix,
        length-drop (ofs + length src) xs,
      )

pub length-ring : (xs : List ℕ) (s n : ℕ) → length (ring xs s n) ≡ n
length-ring xs s zero = refl
length-ring xs s (suc n) = ap suc (length-ring xs (s + 1) n)
