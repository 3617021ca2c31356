-- ===== src/Vsock/Muxer/Ports/Fresh.antt =====
-- `VsockMuxer::allocate_local_port`, src/devices/src/virtio/vsock/unix/muxer.rs: the loop ends.
use mathlib.Core.Path.{subst}
use firecracker.Base.{
  ℕ, zero, suc, ◌+◌, ◌/◌, ◌%◌, ◌-◌, ◌^◌, ◌≤◌, ◌<◌, ◌≡◌, ◌≢◌, refl, sym, ap, ◌∙◌, inl, inr, bit_and,
  bit_or, true, false, Option, none, some, List, [], ◌∷◌, length, ◌==◌, u32, if◌then◌else◌,
  if-split, Bool-cases, lt-or-le, arith,
}
use firecracker.Base.Bits.{and_digit, or_digit}
use firecracker.Vsock.Muxer.{VsockMuxer, has_port, drop_port}
use firecracker.Vsock.Muxer.Ports.{port_after, find_port, allocated, allocate_local_port}

-- A mask of the low bits, and one bit above them, clear or set.
and_below : (k r : ℕ) → r < 2 ^ k → bit_and r (2 ^ k - 1) ≡ r
and_below zero r lt = ap (λ (t : ℕ). bit_and t 0) {x = r} {y = 0} (omega arith) ∙ omega arith
and_below (suc k) r lt = omega (
  arith,
  and_digit r (2 ^ suc k - 1),
  and_below k (r / 2) (omega arith),
  ap (λ (t : ℕ). bit_and (r / 2) t) {x = (2 ^ suc k - 1) / 2} {y = 2 ^ k - 1} (omega arith),
)

and_above : (k r : ℕ) → r < 2 ^ k → bit_and (2 ^ k + r) (2 ^ k - 1) ≡ r
and_above zero r lt = ap (λ (t : ℕ). bit_and t 0) {x = 1 + r} {y = 1} (omega arith) ∙ omega arith
and_above (suc k) r lt = omega (
  arith,
  and_digit (2 ^ suc k + r) (2 ^ suc k - 1),
  and_above k (r / 2) (omega arith),
  ap (λ (t : ℕ). bit_and t (2 ^ k - 1)) {x = (2 ^ suc k + r) / 2} {y = 2 ^ k + r / 2} (omega arith),
  ap (λ (t : ℕ). bit_and ((2 ^ suc k + r) / 2) t) {x = (2 ^ suc k - 1) / 2} {y = 2 ^ k - 1}
      (omega arith),
)

or_below : (k r : ℕ) → r < 2 ^ k → bit_or r (2 ^ k) ≡ 2 ^ k + r
or_below zero r lt = ap (λ (t : ℕ). bit_or t 1) {x = r} {y = 0} (omega arith) ∙ omega arith
or_below (suc k) r lt = omega (
  arith,
  or_digit r (2 ^ suc k),
  or_below k (r / 2) (omega arith),
  ap (λ (t : ℕ). bit_or (r / 2) t) {x = 2 ^ suc k / 2} {y = 2 ^ k} (omega arith),
)

or_above : (k r : ℕ) → r < 2 ^ k → bit_or (2 ^ k + r) (2 ^ k) ≡ 2 ^ k + r
or_above zero r lt = ap (λ (t : ℕ). bit_or t 1) {x = 1 + r} {y = 1} (omega arith) ∙ omega arith
or_above (suc k) r lt = omega (
  arith,
  or_digit (2 ^ suc k + r) (2 ^ suc k),
  or_above k (r / 2) (omega arith),
  ap (λ (t : ℕ). bit_or t (2 ^ k)) {x = (2 ^ suc k + r) / 2} {y = 2 ^ k + r / 2} (omega arith),
  ap (λ (t : ℕ). bit_or ((2 ^ suc k + r) / 2) t) {x = 2 ^ suc k / 2} {y = 2 ^ k} (omega arith),
)

masked : (x : ℕ) → x < 2 ^ 32 → bit_and x (2 ^ 32 - 1 - 2 ^ 31) ≡ x % 2 ^ 31
masked x lt = elim (lt-or-le x (2 ^ 31)) [
  | inl below ↦ omega (arith, and_below 31 x below)
  | inr above ↦ omega (
    arith,
    and_above 31 (x - 2 ^ 31) (omega arith),
    ap (λ (t : ℕ). bit_and t (2 ^ 31 - 1)) {x = 2 ^ 31 + (x - 2 ^ 31)} {y = x} (omega arith),
  )
]

topped : (x : ℕ) → x < 2 ^ 31 → bit_or x (2 ^ 30) ≡ 2 ^ 30 + x % 2 ^ 30
topped x lt = elim (lt-or-le x (2 ^ 30)) [
  | inl below ↦ omega (arith, or_below 30 x below)
  | inr above ↦ omega (
    arith,
    or_above 30 (x - 2 ^ 30) (omega arith),
    ap (λ (t : ℕ). bit_or t (2 ^ 30)) {x = 2 ^ 30 + (x - 2 ^ 30)} {y = x} (omega arith),
  )
]

-- The port `i` rounds on.
abbrev nth_port : ℕ → ℕ → ℕ
nth_port last i = 2 ^ 30 + (last + i) % 2 ^ 30

port_after-nth : (last : ℕ) → port_after last ≡ nth_port last 1
unfolding port_after
port_after-nth last =
    ap (λ (t : ℕ). bit_or t (2 ^ 30)) (masked (u32 (last + 1)) (omega arith))
    ∙ topped (u32 (last + 1) % 2 ^ 31) (omega arith)
    ∙ omega arith

nth_port-next : (last i : ℕ) → nth_port (port_after last) i ≡ nth_port last (suc i)
nth_port-next last i = omega (arith, port_after-nth last)

-- The loop looks at the ports of its rounds only.
find_port-agree :
    (fuel last : ℕ) (used used' : List ℕ)
    → ((i : ℕ)
        → 0 < i
        → i ≤ fuel
        → has_port (nth_port last i) used ≡ has_port (nth_port last i) used')
    → find_port fuel last used ≡ find_port fuel last used'
unfolding find_port
find_port-agree zero last used used' same = refl
find_port-agree (suc fuel) last used used' same =
    let port = port_after last in
    let here : has_port port used ≡ has_port port used' =
      ap (λ p. has_port p used) (port_after-nth last)
      ∙ same 1 (omega arith) (omega arith)
      ∙ ap (λ p. has_port p used') (sym (port_after-nth last)) in
    let later = find_port-agree fuel port used used' (λ i pos le.
      ap (λ p. has_port p used) (nth_port-next last i)
      ∙ same (suc i) (omega arith) (omega arith)
      ∙ ap (λ p. has_port p used') (sym (nth_port-next last i))) in
    rw (here, later) refl

has_port-drop : (p q : ℕ) (used : List ℕ) → p ≢ q → has_port q used ≡ has_port q (drop_port p used)
unfolding has_port drop_port
has_port-drop p q [] ne = refl
has_port-drop p q (x ∷ xs) ne =
    if-split (λ (ys : List ℕ). has_port q (x ∷ xs) ≡ has_port q ys) (x == p)
      (λ t.
        if-split (λ b. b ≡ has_port q (drop_port p xs)) (x == q)
          (λ u. absurd (ne (ground (arith, t, u)))) (λ _. has_port-drop p q xs ne))
      (λ t. ap (λ b. if x == q then true else b) (has_port-drop p q xs ne))

length-drop_le : (p : ℕ) (used : List ℕ) → length (drop_port p used) ≤ length used
unfolding drop_port
length-drop_le p [] = omega arith
length-drop_le p (x ∷ xs) =
    if-split (λ (ys : List ℕ). length ys ≤ length (x ∷ xs)) (x == p)
      (λ _. omega (arith, length-drop_le p xs)) (λ _. omega (arith, length-drop_le p xs))

length-drop_lt :
    (p : ℕ) (used : List ℕ) → has_port p used ≡ true → length (drop_port p used) < length used
unfolding drop_port has_port
length-drop_lt p [] h = ground (arith, h)
length-drop_lt p (x ∷ xs) h = elim (Bool-cases (x == p)) [
  | inl t ↦ rw t (omega (arith, length-drop_le p xs))
  | inr t ↦ rw t (omega (arith, length-drop_lt p xs (rw t at h)))
]

-- What is found is a port of the range that is not used.
abbrev IsFree : List ℕ → ℕ → Type 0
IsFree used port = (2 ^ 30 ≤ port) × ((port < 2 ^ 31) × (has_port port used ≡ false))

abbrev Finds : (ℕ → Type 0) → Type 0 → Option ℕ → Type 0
Finds P Q none = Q
Finds P Q (some port) = P port

find_port-IsFree :
    (fuel last : ℕ) (used : List ℕ) → Finds (IsFree used) Unit (find_port fuel last used)
unfolding find_port
find_port-IsFree zero last used = tt
find_port-IsFree (suc fuel) last used =
    if-split (Finds (IsFree used) Unit) (has_port (port_after last) used)
      (λ _. find_port-IsFree fuel (port_after last) used)
      (λ t. (omega (arith, port_after-nth last), (omega (arith, port_after-nth last), t)))

find_port-ends :
    (fuel last : ℕ) (used : List ℕ)
    → length used < fuel
    → fuel ≤ 2 ^ 30
    → Finds (λ _. Unit) ⊥ (find_port fuel last used)
unfolding find_port
find_port-ends zero last used lt le = absurd (omega (arith, lt))
find_port-ends (suc fuel) last used lt le =
    let port = port_after last in
    if-split (Finds (λ _. Unit) ⊥) (has_port port used)
      (λ t.
        let fewer = drop_port port used in
        let same : find_port fuel port used ≡ find_port fuel port fewer =
          find_port-agree fuel port used fewer (λ i pos bound.
            has_port-drop port (nth_port port i) used
              (λ e. absurd (omega (arith, e, port_after-nth last)))) in
        subst (Finds (λ _. Unit) ⊥) (sym same) (
          find_port-ends fuel port fewer (omega (arith, length-drop_lt port used t)) (omega arith)))
      (λ _. tt)

module _ {S W : Type 0} where
  -- A port that was not used, from 2 ^ 30 up to 2 ^ 31, which is used from now on.
  abbrev pub IsAllocated : VsockMuxer S W → Option (ℕ × VsockMuxer S W) → Type 0
  IsAllocated mx none = ⊥
  IsAllocated mx (some (port, mx')) =
      IsFree mx.local_port_set port
      × (mx' ≡ record mx { local_port_last = port; local_port_set = port ∷ mx.local_port_set })

  -- Where fewer than 2 ^ 30 ports are used the loop of `allocate_local_port` ends, after one round
  -- for each of them and one more at most, with a port from 2 ^ 30 up to 2 ^ 31 that was not used;
  -- the muxer then counts it as used, and has it as the last one.
  pub allocate_local_port-IsAllocated :
      (mx : VsockMuxer S W)
      → length mx.local_port_set < 2 ^ 30
      → IsAllocated mx (allocate_local_port mx)
  unfolding allocate_local_port allocated
  allocate_local_port-IsAllocated mx few =
      let used = mx.local_port_set in
      let fuel = suc (length used) in
      go (find_port fuel mx.local_port_last used) (find_port-IsFree fuel mx.local_port_last used)
        (find_port-ends fuel mx.local_port_last used (omega arith) (omega (arith, few)))
    where
      go :
          (o : Option ℕ)
          → Finds (IsFree mx.local_port_set) Unit o
          → Finds (λ _. Unit) ⊥ o
          → IsAllocated mx (allocated mx o)
      go none f g = absurd g
      go (some port) f g = (f, refl)
