-- ===== src/Vsock/TxBuf/Refines.antt =====
-- `TxBuf`, src/devices/src/virtio/vsock/csm/txbuf.rs, as a bounded queue of bytes: pushes.
use firecracker.Base.{
  ℕ, ◌+◌, ◌-◌, ◌%◌, ◌^◌, ◌≤◌, ◌<◌, ◌≡◌, ap, ap₂, refl, ◌∙◌, Option, none, some, List, ◌++◌, length,
  get_or, ltb, u32, Result, ok, err, arith, if-split, ltb→lt, length-replicate,
}
use mathlib.Core.Path.{subst}
use firecracker.Vsock.TxBuf.{Error, tx_buf_full, TxBuf, size, len, allocated, put, new, push}
use firecracker.Vsock.TxBuf.Ring.{ring, ring-append, ring-ext, ring-is}
use firecracker.Vsock.TxBuf.Copies.{put-within, put-outside, length-put}

-- Data that is not allocated yet is empty.
abbrev pub IsSized : Option (List ℕ) → ℕ → Type 0
IsSized none n = n ≡ 0
IsSized (some xs) n = length xs ≡ size

pub record IsValid (b : TxBuf) : Type 0 where
  pub head_bound : b.head < 2 ^ 32
  pub tail_bound : b.tail < 2 ^ 32
  pub len_bound : len b ≤ size
  pub sized : IsSized b.data_of (len b)

-- The bytes pushed and not flushed, the oldest first.
abbrev pub contents : TxBuf → List ℕ
contents b = ring (allocated b.data_of) b.tail (len b)

pub data OnPush (b : TxBuf) (src : List ℕ) : Result Error TxBuf → Type 0 where
  refused : size < len b + length src → OnPush b src (err tx_buf_full)
  pushed : {b' : TxBuf} → IsValid b' → contents b' ≡ contents b ++ src → OnPush b src (ok b')

length-allocated : (o : Option (List ℕ)) (n : ℕ) → IsSized o n → length (allocated o) ≡ size
unfolding allocated
length-allocated none n e = length-replicate {A = ℕ} size 0
length-allocated (some xs) n e = e

module _ (b : TxBuf) (src : List ℕ) (v : IsValid b) (room : len b + length src ≤ size) where
  abbrev old : List ℕ
  old = allocated b.data_of

  abbrev ofs : ℕ
  ofs = b.head % size

  abbrev filled : List ℕ
  filled = put old ofs src

  abbrev after : TxBuf
  after = record b { data_of = some filled; head = u32 (b.head + u32 (length src)) }

  whole : length old ≡ size
  whole = length-allocated b.data_of (len b) v.sized

  len-after : len after ≡ len b + length src
  len-after = omega (arith, v.head_bound, v.tail_bound)

  -- The bytes that were there stay.
  kept : ring filled b.tail (len b) ≡ ring old b.tail (len b)
  kept = ring-ext filled old b.tail b.tail (len b) (λ k lt.
      let k' = size - len b + k in
      let same : (ofs + k') % size ≡ (b.tail + k) % size =
        omega (arith, v.head_bound, v.tail_bound, v.len_bound) in
      subst (λ i. get_or filled i 0 ≡ get_or old i 0) same
        (put-outside old ofs src whole (omega arith) (omega arith) k' (omega arith) (omega arith)))

  added : ring filled (b.tail + len b) (length src) ≡ src
  added = ring-is filled (b.tail + len b) src (λ k lt.
      let same : (ofs + k) % size ≡ (b.tail + len b + k) % size =
        omega (arith, v.head_bound, v.tail_bound) in
      subst (λ i. get_or filled i 0 ≡ get_or src k 0) same
        (put-within old ofs src whole (omega arith) (omega arith) k lt))

  after-OnPush : OnPush b src (ok after)
  unfolding allocated
  after-OnPush =
      pushed {b' = after}
        (record {
          head_bound = omega arith;
          tail_bound = v.tail_bound;
          len_bound = omega (arith, len-after);
          sized = length-put old ofs src whole (omega arith) (omega arith);
        })
        (ap (λ (n : ℕ). ring filled b.tail n) len-after
          ∙ ring-append filled b.tail (len b) (length src)
          ∙ ap₂ (λ xs ys. xs ++ ys) kept added)

-- A push to a valid buffer is refused exactly where the slice does not fit in what is left of the
-- 65536 bytes; otherwise the buffer is valid and its contents are the old ones, then the slice,
-- wherever the copies wrap around.
pub push-OnPush : (b : TxBuf) (src : List ℕ) → IsValid b → OnPush b src (push src b)
unfolding push
push-OnPush b src v =
    if-split (OnPush b src) (ltb size (len b + length src))
      (λ t. refused (ltb→lt size (len b + length src) t)) (λ t. after-OnPush b src v (ground arith))

-- A new buffer is valid and empty.
pub new-IsValid : IsValid new × (length (contents new) ≡ 0)
unfolding new
new-IsValid = (
  record {
    head_bound = omega arith;
    tail_bound = omega arith;
    len_bound = omega arith;
    sized = omega arith;
  },
  refl,
)
