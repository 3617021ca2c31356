-- ===== src/Pdu/Ipv4/Checksum.antt =====
-- The checksum of `IPv4Packet`, src/dumbo/src/pdu/ipv4.rs.
use firecracker.Base.{
  ℕ, zero, suc, ◌+◌, ◌-◌, ◌*◌, ◌/◌, ◌%◌, ◌^◌, ◌≤◌, ◌<◌, ◌≡◌, refl, ap, Option, none, some, u32,
  ◌==◌, if-split, arith,
}
use firecracker.Pdu.Bytes.{Bytes, bind, IsBytes, ntohs-within}
use firecracker.Pdu.Ipv4.{sum_words, add_carries, compute_checksum_unchecked}

-- The word at a place, and the sum of the first words, which does not wrap.
abbrev pub word : ℕ → Bytes → ℕ
word n b = b.at (n * 2) * 2 ^ 8 + b.at (n * 2 + 1)

abbrev pub total : ℕ → Bytes → ℕ
total zero b = 0
total (suc n) b = total n b + word n b

pub total_bound : (n : ℕ) (b : Bytes) → IsBytes b → total n b ≤ n * (2 ^ 16 - 1)
total_bound zero b h = omega arith
total_bound (suc n) b h = omega (arith, total_bound n b h, h (n * 2), h (n * 2 + 1))

sum_words-total :
    (n : ℕ) (b : Bytes) → n * 2 ≤ b.len → n ≤ 2 ^ 16 → IsBytes b → sum_words n b ≡ some (total n b)
unfolding sum_words bind
sum_words-total zero b le few h = refl
sum_words-total (suc n) b le few h =
    let within = ntohs-within (n * 2) b (omega (arith, le)) in
    let before = sum_words-total n b (omega (arith, le)) (omega (arith, few)) h in
    let exact : u32 (total n b + word n b) ≡ total n b + word n b =
      omega (arith, total_bound n b h, h (n * 2), h (n * 2 + 1), few) in
    rw (before, within) (ap some exact)

-- The carries are added: a word, which is the same up to a multiple of 2 ^ 16 - 1 and 0 only for 0.
pub record IsFolded (s f : ℕ) : Type 0 where
  pub bounded : f < 2 ^ 16
  pub same : f % (2 ^ 16 - 1) ≡ s % (2 ^ 16 - 1)
  pub positive : 0 < s → 0 < f

abbrev Folds : ℕ → Option ℕ → Type 0
Folds s none = ⊥
Folds s (some f) = IsFolded s f

add_carries-Folds : (s : ℕ) → s < 2 ^ 32 → Folds s (add_carries 3 s)
unfolding add_carries
add_carries-Folds s lt =
    if-split (Folds s) (s / 2 ^ 16 == 0)
      (λ t. record { bounded = ground arith; same = refl; positive = λ p. p })
      (λ t.
        let s1 = u32 (s % 2 ^ 16 + s / 2 ^ 16) in
        if-split (Folds s) (s1 / 2 ^ 16 == 0)
          (λ u. record {
            bounded = ground arith;
            same = omega (arith, lt);
            positive = λ p. omega arith;
          })
          (λ u.
            let s2 = u32 (s1 % 2 ^ 16 + s1 / 2 ^ 16) in
            if-split (Folds s) (s2 / 2 ^ 16 == 0)
              (λ v. record {
                bounded = ground arith;
                same = omega (arith, lt);
                positive = λ p. omega arith;
              })
              (λ v. absurd (ground (arith, lt)))))

IsFolded-value : (s : ℕ) (o : Option ℕ) → Folds s o → (f : ℕ) × ((o ≡ some f) × IsFolded s f)
IsFolded-value s none h = absurd h
IsFolded-value s (some f) h = (f, (refl, h))

pub add_carries-IsFolded :
    (s : ℕ) → s < 2 ^ 32 → (f : ℕ) × ((add_carries 3 s ≡ some f) × IsFolded s f)
add_carries-IsFolded s lt = IsFolded-value s (add_carries 3 s) (add_carries-Folds s lt)

-- The checksum is the complement of the sum with its carries.
pub compute_checksum-IsFolded :
    (n : ℕ) (b : Bytes)
    → n ≤ b.len
    → n ≤ 2 ^ 16
    → IsBytes b
    → (f : ℕ) × ((compute_checksum_unchecked n b ≡ some (2 ^ 16 - 1 - f))
        × IsFolded (total (n / 2) b) f)
unfolding compute_checksum_unchecked bind
compute_checksum-IsFolded n b le few h =
    let s = total (n / 2) b in
    let sum = sum_words-total (n / 2) b (omega (arith, le)) (omega (arith, few)) h in
    let fits : s < 2 ^ 32 = omega (arith, total_bound (n / 2) b h, few) in
    let (f, (e, folded)) = add_carries-IsFolded s fits in
    (f, (rw (sum, e) (ap (λ t. some (2 ^ 16 - 1 - t)) (omega (arith, folded.bounded))), folded))
