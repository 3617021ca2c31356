-- ===== src/Vsock/TxBuf/Progress.antt =====
-- `TxBuf::flush_to`, src/devices/src/virtio/vsock/csm/txbuf.rs: a flush gets on with the bytes that wait.
use firecracker.Base.{
  ℕ, zero, suc, ◌%◌, ◌≤◌, ◌<◌, ◌≡◌, inr, ap, refl, sym, ◌∙◌, Option, none, some, List, length, take,
  take-length, drop, ltb, ltb→lt, ◌==◌, Result, ok, err, arith, if-split, length-take, length-drop,
}
use mathlib.Core.Path.{subst}
use firecracker.Vsock.TxBuf.{
  IoErrorKind, TxBuf, size, len, first_len, allocated, Sink, Flushed, add_rest, after_write,
  write_first, flush_to,
}
use firecracker.Vsock.TxBuf.Ring.{ring, length-ring}
use firecracker.Vsock.TxBuf.Refines.{IsSized, IsValid}
use firecracker.Vsock.TxBuf.Flush.{
  IsSink, OnFlush, ended, advanced, len-advanced, advanced-IsValid, taken, Enough-advanced,
  fueled-OnFlush,
}

-- A write that takes none.
abbrev pub TakesNone : Result IoErrorKind ℕ → Type 0
TakesNone (ok n) = n ≡ 0
TakesNone (err kind) = Unit

module _ {W : Type 0} (sink : Sink W) where
  -- Bytes have left the buffer `b` for `b'`, or a write of its oldest bytes took none.
  pub data Progress (b : TxBuf) (w : W) (b' : TxBuf) : Type 0 where
    went : len b' < len b → Progress b w b'
    stalled :
        (k : ℕ) (o : Result IoErrorKind ℕ) (w' : W)
        → 0 < k
        → k ≤ len b
        → sink.write w (ring (allocated b.data_of) b.tail k) ≡ (o, w')
        → TakesNone o
        → Progress b w b'

  abbrev pub OnProgress : TxBuf → W → Flushed W → Type 0
  OnProgress b w none = Unit
  OnProgress b w (some (r, (b', w'))) = Progress b w b'

module _ {W : Type 0} (sink : Sink W) (received : W → List ℕ) (law : IsSink sink received) where
  rest-OnProgress :
      (b b₁ : TxBuf) (w w₁ : W) (n : ℕ) (o : Flushed W)
      → len b₁ < len b
      → OnFlush received b₁ w₁ o
      → OnProgress sink b w (add_rest n o)
  unfolding add_rest
  rest-OnProgress b b₁ w w₁ n none lt f = tt
  rest-OnProgress b b₁ w w₁ n (some (r, (b', w'))) lt (ended f) = went (omega (arith, lt, f.count))

  after_write-OnProgress :
      (again : TxBuf → W → Flushed W) (b : TxBuf) (w : W) (o : Result IoErrorKind ℕ × W)
      → IsValid b
      → 0 < len b
      → sink.write w (ring (allocated b.data_of) b.tail (first_len b)) ≡ o
      → ((w' : W)
          → IsValid (advanced b (first_len b))
          → OnFlush received (advanced b (first_len b)) w' (again (advanced b (first_len b)) w'))
      → OnProgress sink b w (after_write (first_len b) b again o)
  unfolding after_write
  after_write-OnProgress again b w (err kind, w') v pos e next =
      stalled (first_len b) (err kind) w' (omega (arith, pos)) (omega arith) e tt
  after_write-OnProgress again b w (ok n, w') v pos e next =
      if-split (OnProgress sink b w) (ltb n (first_len b)) (λ t. few n e (ltb→lt _ _ t))
        (λ t.
          let le : n ≤ first_len b =
            omega
              (arith, (law.wrote e).0, length-ring (allocated b.data_of) b.tail (first_len b)) in
          let all : first_len b ≡ n = ground arith in
          let less : len (advanced b n) < len b = omega (arith, len-advanced b v n le, all, pos) in
          let again_ends =
            subst
              (λ (k : ℕ).
                IsValid (advanced b k)
                → OnFlush received (advanced b k) w' (again (advanced b k) w'))
              all (next w') in
          rest-OnProgress b (advanced b n) w w' n _ less (again_ends (advanced-IsValid b v n le)))
    where
      few :
          (n : ℕ)
          → sink.write w (ring (allocated b.data_of) b.tail (first_len b)) ≡ (ok n, w')
          → n < first_len b
          → Progress sink b w (advanced b n)
      few zero e lt = stalled (first_len b) (ok zero) w' (omega (arith, lt)) (omega arith) e refl
      few (suc n) e lt = went (omega (arith, len-advanced b v (suc n) (omega (arith, lt)), lt))

  write_first-OnProgress :
      (again : TxBuf → W → Flushed W) (b : TxBuf) (w : W) (o : Option (List ℕ))
      → IsValid b
      → 0 < len b
      → b.data_of ≡ o
      → ((w' : W)
          → IsValid (advanced b (first_len b))
          → OnFlush received (advanced b (first_len b)) w' (again (advanced b (first_len b)) w'))
      → OnProgress sink b w (write_first sink b w again o)
  unfolding write_first allocated
  write_first-OnProgress again b w none v pos d next = tt
  write_first-OnProgress again b w (some xs) v pos d next =
      let m = first_len b in
      let from = drop (b.tail % size) xs in
      let whole : length xs ≡ size = subst (λ o. IsSized o (len b)) d v.sized in
      let same : m ≡ length (take m from) =
        omega (arith, length-take m from, length-drop (b.tail % size) xs, whole) in
      let oldest : ring (allocated b.data_of) b.tail m ≡ take m from =
        ap (λ o. ring (allocated o) b.tail m) d
        ∙ sym (taken xs b.tail m m (omega arith) (omega arith) whole)
        ∙ ap (λ (k : ℕ). take k (take m from)) same
        ∙ take-length (take m from) in
      after_write-OnProgress again b w _ v pos (ap (λ ys. sink.write w ys) oldest) next

  -- A flush of bytes that wait ends; some of them leave the buffer, or a write of the oldest took none.
  pub flush_to-OnProgress :
      (b : TxBuf) (w : W) → IsValid b → 0 < len b → OnProgress sink b w (flush_to sink 3 b w)
  unfolding flush_to
  flush_to-OnProgress b w v pos =
      if-split (OnProgress sink b w) (len b == 0) (λ t. absurd (ground (arith, t, pos)))
        (λ _. write_first-OnProgress (flush_to sink 2) b w b.data_of v pos refl (λ w' v'.
          fueled-OnFlush sink received law 2 (advanced b (first_len b)) w' v' (
            Enough-advanced sink received law 2 b v pos
              (omega arith, inr (omega arith), inr (omega arith)))))
