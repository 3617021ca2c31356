-- ===== src/Vsock/TxBuf/Flush.antt =====
-- `TxBuf::flush_to`, src/devices/src/virtio/vsock/csm/txbuf.rs, into any sink of bytes.
use firecracker.Base.{
  ℕ, zero, suc, ◌+◌, ◌-◌, ◌%◌, ◌≤◌, ◌<◌, ◌≡◌, ◌⊎◌, inr, ap, refl, sym, ◌∙◌, Option, none, some,
  List, ◌++◌, length, get_or, take, drop, ltb, ◌==◌, u32, Result, ok, err, arith, if-split,
  length-take, length-drop,
}
use mathlib.Core.List.{append_assoc}
use mathlib.Core.Path.{subst}
use firecracker.Vsock.TxBuf.{
  IoErrorKind, Error, tx_buf_flush, TxBuf, size, len, first_len, allocated, Sink, Flushed,
  unwrap_or_zero, add_rest, after_write, write_first, flush_to,
}
use firecracker.Vsock.TxBuf.Ring.{ring, ring-append, ring-ext, ring-is, get_or-take, get_or-drop}
use firecracker.Vsock.TxBuf.Refines.{IsSized, IsValid, contents}

-- What `Write` promises of a sink: it takes a prefix of the slice and says how long it is, or fails
-- and takes nothing. `received` is what the sink has taken so far.
pub record IsSink {W : Type 0} (sink : Sink W) (received : W → List ℕ) : Type 0 where
  pub wrote :
      {w w' : W} {xs : List ℕ} {n : ℕ}
      → sink.write w xs ≡ (ok n, w')
      → (n ≤ length xs) × (received w' ≡ received w ++ take n xs)
  pub failed :
      {w w' : W} {xs : List ℕ} {kind : IoErrorKind}
      → sink.write w xs ≡ (err kind, w')
      → received w' ≡ received w

-- A flush that ended: no byte is lost, repeated or reordered, and the count is that of the bytes
-- that left the buffer.
pub record IsFlushed {W : Type 0} (received : W → List ℕ) (b : TxBuf) (w : W) (r : Result Error ℕ)
    (b' : TxBuf) (w' : W) : Type 0 where
  pub valid : IsValid b'
  pub stream : received w' ++ contents b' ≡ received w ++ contents b
  pub count : unwrap_or_zero r + len b' ≡ len b

pub data OnFlush {W : Type 0} (received : W → List ℕ) (b : TxBuf) (w : W) : Flushed W → Type 0 where
  ended :
      {r : Result Error ℕ} {b' : TxBuf} {w' : W}
      → IsFlushed received b w r b' w'
      → OnFlush received b w (some (r, (b', w')))

abbrev pub advanced : TxBuf → ℕ → TxBuf
advanced b n = record b { tail = u32 (b.tail + u32 n) }

module _ (b : TxBuf) (v : IsValid b) (n : ℕ) (le : n ≤ first_len b) where
  pub len-advanced : len (advanced b n) ≡ len b - n
  len-advanced = omega (arith, v.head_bound, v.tail_bound, v.len_bound)

  -- The oldest bytes leave, the others stay.
  contents-advanced : contents b ≡ ring (allocated b.data_of) b.tail n ++ contents (advanced b n)
  contents-advanced =
      let xs = allocated b.data_of in
      ap (λ (k : ℕ). ring xs b.tail k) {x = len b} {y = n + (len b - n)} (omega arith)
      ∙ ring-append xs b.tail n (len b - n)
      ∙ ap (λ ys. ring xs b.tail n ++ ys)
          (ring-ext xs xs (b.tail + n) (u32 (b.tail + u32 n)) (len b - n)
              (λ k lt. ap (λ (i : ℕ). get_or xs i 0) (omega arith))
            ∙ ap (λ (k : ℕ). ring xs (u32 (b.tail + u32 n)) k) (sym len-advanced))

  advanced-IsSized : (o : Option (List ℕ)) → IsSized o (len b) → IsSized o (len (advanced b n))
  advanced-IsSized none e = omega (arith, len-advanced)
  advanced-IsSized (some xs) e = e

  pub advanced-IsValid : IsValid (advanced b n)
  advanced-IsValid = record {
    head_bound = v.head_bound;
    tail_bound = omega arith;
    len_bound = omega (arith, len-advanced, v.len_bound);
    sized = advanced-IsSized b.data_of v.sized;
  }

-- The first bytes of the slice given to the sink are the oldest of the buffer.
pub taken :
    (xs : List ℕ) (tail n m : ℕ)
    → n ≤ m
    → tail % size + m ≤ size
    → length xs ≡ size
    → take n (take m (drop (tail % size) xs)) ≡ ring xs tail n
taken xs tail n m le fits whole =
    let ys = take n (take m (drop (tail % size) xs)) in
    let length-ys : length ys ≡ n = omega (
      arith,
      length-take n (take m (drop (tail % size) xs)),
      length-take m (drop (tail % size) xs),
      length-drop (tail % size) xs,
    ) in
    sym (
      ring-is xs tail ys (λ k lt.
        ap (λ (i : ℕ). get_or xs i 0) {x = (tail + k) % size} {y = tail % size + k}
          (omega (arith, length-ys))
        ∙ sym (get_or-drop (tail % size) xs k)
        ∙ sym (get_or-take m (drop (tail % size) xs) k (omega (arith, length-ys)))
        ∙ sym (get_or-take n (take m (drop (tail % size) xs)) k (omega (arith, length-ys)))))
    ∙ ap (λ (k : ℕ). ring xs tail k) length-ys

-- Fuel for the calls that are left: one more where there is something to write, and another where
-- the data wraps around.
abbrev Enough : ℕ → TxBuf → Type 0
Enough fuel b =
    (0 < fuel) × ((len b ≡ 0) ⊎ (1 < fuel)) × ((b.tail % size + len b ≤ size) ⊎ (2 < fuel))

module _ {W : Type 0} (sink : Sink W) (received : W → List ℕ) (law : IsSink sink received) where
  failed-IsFlushed :
      (b : TxBuf) (w w' : W) {xs : List ℕ} {kind : IoErrorKind}
      → IsValid b
      → sink.write w xs ≡ (err kind, w')
      → IsFlushed received b w (err (tx_buf_flush kind)) b w'
  unfolding unwrap_or_zero
  failed-IsFlushed b w w' v e = record {
    valid = v;
    stream = ap (λ ys. ys ++ contents b) (law.failed e);
    count = omega arith;
  }

  -- The first write took `n` bytes.
  wrote-IsFlushed :
      (b : TxBuf) (w w' : W) (xs : List ℕ) (n : ℕ)
      → IsValid b
      → b.data_of ≡ some xs
      → sink.write w (take (first_len b) (drop (b.tail % size) xs)) ≡ (ok n, w')
      → (n ≤ first_len b) × IsFlushed received b w (ok n) (advanced b n) w'
  unfolding unwrap_or_zero allocated
  wrote-IsFlushed b w w' xs n v d e =
      let (bound, got) = law.wrote e in
      let m = first_len b in
      let from = drop (b.tail % size) xs in
      let whole : length xs ≡ size = subst (λ o. IsSized o (len b)) d v.sized in
      let le : n ≤ m = omega (arith, bound, length-take m from) in
      let same : allocated b.data_of ≡ xs = ap allocated d in
      (
        le,
        record {
          valid = advanced-IsValid b v n le;
          stream =
              ap (λ ys. ys ++ contents (advanced b n))
                (got
                  ∙ ap (λ ys. received w ++ ys)
                      (taken xs b.tail n m le (omega arith) whole
                        ∙ ap (λ ys. ring ys b.tail n) (sym same)))
              ∙ append_assoc (received w) (ring (allocated b.data_of) b.tail n)
                  (contents (advanced b n))
              ∙ ap (λ ys. received w ++ ys) (sym (contents-advanced b v n le));
          count = omega (arith, len-advanced b v n le);
        },
      )

  rest-OnFlush :
      (b b' : TxBuf) (w w' : W) (n : ℕ) (o : Flushed W)
      → IsFlushed received b w (ok n) b' w'
      → OnFlush received b' w' o
      → OnFlush received b w (add_rest n o)
  unfolding add_rest unwrap_or_zero
  rest-OnFlush b b' w w' n none f g = elim g [ ]
  rest-OnFlush b b' w w' n (some (r, (c, u))) f (ended g) = ended (record {
    valid = g.valid;
    stream = g.stream ∙ f.stream;
    count = omega (arith, f.count, g.count);
  })

  -- After the first write, where the recursive call has enough fuel for what is left.
  after_write-OnFlush :
      (again : TxBuf → W → Flushed W) (b : TxBuf) (w : W) (xs : List ℕ)
      (o : Result IoErrorKind ℕ × W)
      → IsValid b
      → b.data_of ≡ some xs
      → sink.write w (take (first_len b) (drop (b.tail % size) xs)) ≡ o
      → ((w' : W)
          → IsValid (advanced b (first_len b))
          → OnFlush received (advanced b (first_len b)) w' (again (advanced b (first_len b)) w'))
      → OnFlush received b w (after_write (first_len b) b again o)
  unfolding after_write
  after_write-OnFlush again b w xs (err kind, w') v d e next = ended (failed-IsFlushed b w w' v e)
  after_write-OnFlush again b w xs (ok n, w') v d e next =
      let (le, f) = wrote-IsFlushed b w w' xs n v d e in
      if-split (OnFlush received b w) (ltb n (first_len b)) (λ _. ended f)
        (λ t.
          let all : first_len b ≡ n = ground arith in
          let rest =
            subst
              (λ (k : ℕ).
                IsValid (advanced b k)
                → OnFlush received (advanced b k) w' (again (advanced b k) w'))
              all (next w') in
          rest-OnFlush b (advanced b n) w w' n (again (advanced b n) w') f (rest f.valid))

  write_first-OnFlush :
      (again : TxBuf → W → Flushed W) (b : TxBuf) (w : W) (o : Option (List ℕ))
      → IsValid b
      → 0 < len b
      → b.data_of ≡ o
      → ((w' : W)
          → IsValid (advanced b (first_len b))
          → OnFlush received (advanced b (first_len b)) w' (again (advanced b (first_len b)) w'))
      → OnFlush received b w (write_first sink b w again o)
  unfolding write_first
  write_first-OnFlush again b w none v pos d next =
      let empty = subst (λ o. IsSized o (len b)) d v.sized in absurd (omega arith)
  write_first-OnFlush again b w (some xs) v pos d next =
      after_write-OnFlush again b w xs _ v d refl next

  pub Enough-advanced :
      (fuel : ℕ) (b : TxBuf)
      → IsValid b
      → 0 < len b
      → Enough (suc fuel) b
      → Enough fuel (advanced b (first_len b))
  Enough-advanced fuel b v pos (some_fuel, one, two) =
      let l = len-advanced b v (first_len b) (omega arith) in
      (grind arith, grind (arith, l), grind (arith, l))

  pub fueled-OnFlush :
      (fuel : ℕ) (b : TxBuf) (w : W)
      → IsValid b
      → Enough fuel b
      → OnFlush received b w (flush_to sink fuel b w)
  unfolding flush_to unwrap_or_zero
  fueled-OnFlush zero b w v (pos, one, two) = absurd (omega arith)
  fueled-OnFlush (suc fuel) b w v (some_fuel, one, two) =
      if-split (OnFlush received b w) (len b == 0)
        (λ _. ended (record { valid = v; stream = refl; count = omega arith }))
        (λ t.
          let pos : 0 < len b = ground arith in
          write_first-OnFlush (flush_to sink fuel) b w b.data_of v pos refl (λ w' v'.
            fueled-OnFlush fuel (advanced b (first_len b)) w' v'
              (Enough-advanced fuel b v pos (some_fuel, one, two))))

  -- On a valid buffer `flush_to` returns after at most three calls, whatever the sink takes. What the
  -- sink has received, followed by what the buffer holds, is the same as before; the buffer is valid;
  -- and the count returned, with 0 for an error, is that of the bytes that left the buffer.
  pub flush_to-OnFlush :
      (b : TxBuf) (w : W) → IsValid b → OnFlush received b w (flush_to sink 3 b w)
  flush_to-OnFlush b w v =
      fueled-OnFlush 3 b w v (omega arith, inr (omega arith), inr (omega arith))
