-- ===== src/Pdu/Udp/Checksum.antt =====
-- The checksum that UDP and TCP share, src/dumbo/src/pdu/mod.rs.
use firecracker.Base.{
  ℕ, zero, suc, ◌+◌, ◌-◌, ◌*◌, ◌/◌, ◌%◌, ◌^◌, ◌≤◌, ◌<◌, ◌≡◌, refl, ap, Option, some, u32, ◌==◌, ltb,
  if◌then◌else◌, if-split, arith,
}
use firecracker.Pdu.Bytes.{Bytes, bind, put, put_be_u16, IsBytes, ntohs-within, byte-within}
use firecracker.Pdu.Ipv4.Checksum.{word, total, total_bound, IsFolded, add_carries-IsFolded}
use firecracker.Pdu.Udp.{
  ChecksumProto, tcp, udp, protocol_of, pseudo_header, add_words, add_last, complemented,
  compute_checksum,
}

-- The byte that an odd length leaves.
abbrev pub last : Bytes → ℕ
last b = if b.len % 2 == 0 then 0 else b.at (b.len - 1) * 2 ^ 8

-- The whole sum, which does not wrap.
abbrev pub whole : ℕ → ℕ → ChecksumProto → Bytes → ℕ
whole src_addr dst_addr proto b =
    pseudo_header src_addr dst_addr proto b.len + total (b.len / 2) b + last b

pseudo_header_bound :
    (src_addr dst_addr n : ℕ) (proto : ChecksumProto)
    → src_addr < 2 ^ 32
    → dst_addr < 2 ^ 32
    → n < 2 ^ 16
    → pseudo_header src_addr dst_addr proto n < 2 ^ 19
unfolding pseudo_header protocol_of
pseudo_header_bound src_addr dst_addr n tcp s d lt = omega (arith, s, d, lt)
pseudo_header_bound src_addr dst_addr n udp s d lt = omega (arith, s, d, lt)

add_words-total :
    (sum n : ℕ) (b : Bytes)
    → sum < 2 ^ 19
    → n * 2 ≤ b.len
    → b.len < 2 ^ 16
    → IsBytes b
    → add_words sum n b ≡ some (sum + total n b)
unfolding add_words bind
add_words-total sum zero b small le lt h = ap some (omega arith)
add_words-total sum (suc n) b small le lt h =
    let within = ntohs-within (n * 2) b (omega (arith, le)) in
    let before = add_words-total sum n b small (omega (arith, le)) lt h in
    let exact : u32 (sum + total n b + word n b) ≡ sum + (total n b + word n b) =
      omega (arith, total_bound n b h, h (n * 2), h (n * 2 + 1), le, lt, small) in
    rw (before, within) (ap some exact)

add_last-last :
    (sum : ℕ) (b : Bytes)
    → sum < 2 ^ 31 + 2 ^ 20
    → b.len < 2 ^ 16
    → IsBytes b
    → add_last b sum ≡ some (sum + last b)
unfolding add_last bind
add_last-last sum b small lt h =
    if-split (λ (o : Option ℕ). o ≡ some (sum + last b)) (b.len % 2 == 0)
      (λ t. ap some (ground (arith, t)))
      (λ t.
        rw (byte-within (b.len - 1) b (ground (arith, t)))
          (ap some (ground (arith, t, small, h (b.len - 1)))))

pub compute_checksum-IsFolded :
    (src_addr dst_addr : ℕ) (proto : ChecksumProto) (b : Bytes)
    → src_addr < 2 ^ 32
    → dst_addr < 2 ^ 32
    → b.len < 2 ^ 16
    → IsBytes b
    → (f : ℕ) × ((compute_checksum src_addr dst_addr proto b ≡ some (complemented proto f))
        × IsFolded (whole src_addr dst_addr proto b) f)
unfolding compute_checksum bind
compute_checksum-IsFolded src_addr dst_addr proto b s d lt h =
    let start = pseudo_header src_addr dst_addr proto b.len in
    let small = pseudo_header_bound src_addr dst_addr b.len proto s d lt in
    let n = b.len / 2 in
    let words = add_words-total start n b small (omega arith) lt h in
    let partial : start + total n b < 2 ^ 31 + 2 ^ 20 =
      omega (arith, total_bound n b h, small, lt) in
    let all = add_last-last (start + total n b) b partial lt h in
    let fits : whole src_addr dst_addr proto b < 2 ^ 32 = ground (arith, partial, h (b.len - 1)) in
    let (f, (e, folded)) = add_carries-IsFolded (whole src_addr dst_addr proto b) fits in
    (f, (rw (words, all, e) refl, folded))

-- A checksum that is put in the fourth word, where it was 0, is added to the sum.
word-put :
    (c i : ℕ) (b : Bytes)
    → c < 2 ^ 16
    → b.at 6 ≡ 0
    → b.at 7 ≡ 0
    → word i (put_be_u16 6 c b) ≡ word i b + (if i == 3 then c else 0)
unfolding put_be_u16 put
word-put c i b lt e f = ground (arith, lt, e, f)

total-put :
    (c n : ℕ) (b : Bytes)
    → c < 2 ^ 16
    → b.at 6 ≡ 0
    → b.at 7 ≡ 0
    → total n (put_be_u16 6 c b) ≡ total n b + (if ltb 3 n then c else 0)
total-put c zero b lt e f = refl
total-put c (suc n) b lt e f = ground (arith, total-put c n b lt e f, word-put c n b lt e f)

last-put : (c : ℕ) (b : Bytes) → 8 ≤ b.len → last (put_be_u16 6 c b) ≡ last b
unfolding put_be_u16 put
last-put c b le = ground (arith, le)

pub whole-put :
    (src_addr dst_addr c : ℕ) (b : Bytes)
    → c < 2 ^ 16
    → b.at 6 ≡ 0
    → b.at 7 ≡ 0
    → 8 ≤ b.len
    → whole src_addr dst_addr udp (put_be_u16 6 c b) ≡ whole src_addr dst_addr udp b + c
unfolding put_be_u16 put
whole-put src_addr dst_addr c b lt e f le =
    ground (arith, le, total-put c (b.len / 2) b lt e f, last-put c b le)

pub whole-positive :
    (src_addr dst_addr : ℕ) (b : Bytes)
    → src_addr < 2 ^ 32
    → dst_addr < 2 ^ 32
    → b.len < 2 ^ 16
    → 0 < whole src_addr dst_addr udp b
unfolding pseudo_header protocol_of
whole-positive src_addr dst_addr b s d lt = omega (arith, s, d, lt)
