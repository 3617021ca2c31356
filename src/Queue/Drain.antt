-- ===== src/Queue/Drain.antt =====
-- Sequences of `Queue::pop` of src/devices/src/virtio/queue.rs, between two looks of the driver.
use firecracker.Base.{
  ℕ, zero, suc, ◌+◌, ◌-◌, ◌*◌, ◌%◌, ◌^◌, ◌≤◌, ◌<◌, ◌≡◌, refl, ap, ap₂, sym, ◌∙◌, Option, none, some,
  List, [], ◌∷◌, map, length, arith, if-split, ltb, ◌==◌, u16, sub16,
}
use mathlib.Core.Path.{subst}
use native.Mathlib.Nat.{mod-lt}
use firecracker.Queue.Memory.{GuestMemory}
use firecracker.Queue.Descriptor.{DescriptorChain, checked_new}
use firecracker.Queue.Chain.{IsHead, Found, found, checked_new-IsHead}
use firecracker.Queue.Rings.{
  Queue, Outcome, returns, panics, actual_size, avail_idx, len, slot_addr, advance, unwrap,
  and_then, do_pop_unchecked, pop_of, pop, undo_pop,
}

abbrev pub moved : Queue → ℕ → Queue
moved q k = record q { next_avail = u16 (q.next_avail + k) }

module _ {M : Type 0} (gm : GuestMemory M) (m : M) where
  -- A pop that found a chain, from a queue with `n` chains to come.
  pub record IsPop (q : Queue) (n : ℕ) (c : DescriptorChain) (q' : Queue) : Type 0 where
    pub some_left : 0 < n
    pub in_size : n ≤ actual_size q
    pub slot : gm.read_u16 m (slot_addr gm q q.next_avail) ≡ some c.index
    pub index_bound : c.index < actual_size q
    pub queue : q' ≡ moved q 1

  pub data OnPop (q : Queue) (n : ℕ) : Outcome (Option DescriptorChain × Queue) → Type 0 where
    panicked : OnPop q n panics
    nothing : OnPop q n (returns (none, q))
    popped : {c : DescriptorChain} {q' : Queue} → IsPop q n c q' → OnPop q n (returns (some c, q'))

  advance-OnPop :
      (q : Queue) (n i : ℕ) (o : Option DescriptorChain)
      → 0 < n
      → n ≤ actual_size q
      → gm.read_u16 m (slot_addr gm q q.next_avail) ≡ some i
      → Found (IsHead q.desc_table (actual_size q) i (actual_size q)) o
      → OnPop q n (returns (advance q o))
  unfolding advance
  advance-OnPop q n i none pos le e f = nothing
  advance-OnPop q n i (some c) pos le e (found h) = popped (record {
    some_left = pos;
    in_size = le;
    slot = rw (h.index_is) e;
    index_bound = rw (h.index_is) h.bound;
    queue = refl;
  })

  do_pop_unchecked-OnPop :
      (q : Queue) (n : ℕ) → 0 < n → n ≤ actual_size q → OnPop q n (do_pop_unchecked gm q m)
  unfolding do_pop_unchecked and_then unwrap
  do_pop_unchecked-OnPop q n pos le = go (gm.read_u16 m (slot_addr gm q q.next_avail)) refl
    where
      go :
          (o : Option ℕ)
          → gm.read_u16 m (slot_addr gm q q.next_avail) ≡ o
          → OnPop q n (
              and_then
                (unwrap o)
                (λ i. returns (advance q (checked_new gm m q.desc_table (actual_size q) i))))
      go none e = panicked
      go (some i) e =
          advance-OnPop q n i _ pos le e (checked_new-IsHead gm m q.desc_table (actual_size q) i)

  pop_of-OnPop : (q : Queue) (n : ℕ) → OnPop q n (pop_of gm q m n)
  unfolding pop_of
  pop_of-OnPop q n =
      if-split (OnPop q n) (ltb (actual_size q) n) (λ _. panicked)
        (λ le.
          if-split (OnPop q n) (n == 0) (λ _. nothing)
            (λ pos. do_pop_unchecked-OnPop q n (ground arith) (ground arith)))

  pop-OnPop : (q : Queue) (n : ℕ) → len gm q m ≡ returns n → OnPop q n (pop gm q m)
  unfolding pop and_then
  pop-OnPop q n e = rw (e) (pop_of-OnPop q n)

  is_pop :
      {q : Queue} {n : ℕ} {c : DescriptorChain} {q' : Queue}
      → OnPop q n (returns (some c, q'))
      → IsPop q n c q'
  is_pop (popped p) = p

  pub pop-IsPop :
      (q : Queue) (n : ℕ) {c : DescriptorChain} {q' : Queue}
      → len gm q m ≡ returns n
      → pop gm q m ≡ returns (some c, q')
      → IsPop q n c q'
  pop-IsPop q n l e = is_pop (subst (OnPop q n) e (pop-OnPop q n l))

  len-moved :
      (q : Queue) (n k : ℕ)
      → q.next_avail < 2 ^ 16
      → k ≤ n
      → len gm q m ≡ returns n
      → len gm (moved q k) m ≡ returns (n - k)
  unfolding len avail_idx and_then
  len-moved q n k hq le e = go (unwrap (gm.read_u16 m (gm.unchecked_add q.avail_ring 2))) e
    where
      go :
          (o : Outcome ℕ)
          → and_then o (λ i. returns (sub16 i q.next_avail)) ≡ returns n
          → and_then o (λ i. returns (sub16 i (u16 (q.next_avail + k)))) ≡ returns (n - k)
      go panics e = grind arith
      go (returns i) e = ap returns (grind arith)

  -- Successful pops one after the other.
  pub data Pops : Queue → List DescriptorChain → Queue → Type 0 where
    none_yet : {q : Queue} → Pops q [] q
    then_pop :
        {cs : List DescriptorChain} {c : DescriptorChain} {q q' q'' : Queue}
        → pop gm q m ≡ returns (some c, q')
        → Pops q' cs q''
        → Pops q (c ∷ cs) q''

  -- Where the available ring has its entries: two bytes each, after the flags and the index.
  abbrev pub entry : Queue → ℕ → ℕ
  entry q position = gm.unchecked_add q.avail_ring (4 + 2 * (position % actual_size q))

  slot_addr-entry :
      (q : Queue) (position : ℕ)
      → 0 < actual_size q
      → 4 + 2 * actual_size q ≤ 2 ^ 16
      → slot_addr gm q position ≡ entry q position
  unfolding slot_addr
  slot_addr-entry q position pos small =
      ap (λ (n : ℕ). gm.unchecked_add q.avail_ring n) (omega (arith, small, mod-lt position pos))

  -- The values in the available ring at `k` positions in a row.
  abbrev pub slots : Queue → ℕ → ℕ → List (Option ℕ)
  slots q position zero = []
  slots q position (suc k) = gm.read_u16 m (entry q position) ∷ slots q (u16 (position + 1)) k

  pub record IsDrained (q : Queue) (n : ℕ) (cs : List DescriptorChain) (q' : Queue) : Type 0 where
    pub at_most : length cs ≤ n
    pub heads : map (λ c. some c.index) cs ≡ slots q q.next_avail (length cs)
    pub left : len gm q' m ≡ returns (n - length cs)
    pub queue : q' ≡ moved q (length cs)

  slots-moved : (q : Queue) (p k : ℕ) → slots (moved q 1) p k ≡ slots q p k
  unfolding actual_size
  slots-moved q p zero = refl
  slots-moved q p (suc k) =
      ap (λ xs. gm.read_u16 m (entry q p) ∷ xs) (slots-moved q (u16 (p + 1)) k)

  then_pop-IsDrained :
      {q r q' : Queue} {n : ℕ} {c : DescriptorChain} {cs : List DescriptorChain}
      → 4 + 2 * actual_size q ≤ 2 ^ 16
      → IsPop q n c r
      → IsDrained (moved q 1) (n - 1) cs q'
      → IsDrained q n (c ∷ cs) q'
  then_pop-IsDrained {q} {n = n} {c = c} {cs = cs} small i d = record {
    at_most = grind (arith, d.at_most, i.some_left);
    heads =
        ap₂ (λ x xs. x ∷ xs)
          (sym (i.slot)
            ∙ ap (λ (a : ℕ). gm.read_u16 m a)
                (slot_addr-entry q q.next_avail (omega (arith, i.some_left, i.in_size)) small))
          (d.heads ∙ slots-moved q (u16 (q.next_avail + 1)) (length cs));
    left = d.left ∙ ap returns (omega arith);
    queue = d.queue ∙ ap (λ k. record q { next_avail = k }) (omega arith);
  }

  -- In a queue whose available ring has its offsets below 2 ^ 16, with `n` chains made available, any sequence of successful pops has at most `n` of them; they
  -- are the entries of the available ring, two bytes each from its fifth byte on, in the order of the ring, wrapped around; what is left
  -- decreases by one for each; and nothing but `next_avail` changes.
  pub Pops-IsDrained :
      (q : Queue) (n : ℕ) {cs : List DescriptorChain} {q' : Queue}
      → q.next_avail < 2 ^ 16
      → 4 + 2 * actual_size q ≤ 2 ^ 16
      → len gm q m ≡ returns n
      → Pops q cs q'
      → IsDrained q n cs q'
  unfolding actual_size
  Pops-IsDrained q n hq small l none_yet = record {
    at_most = omega arith;
    heads = refl;
    left = l ∙ ap returns (omega arith);
    queue = ap (λ k. record q { next_avail = k }) (omega arith);
  }
  Pops-IsDrained q n {cs = c ∷ cs} {q' = q'} hq small l (then_pop {q' = r} e p) =
      let i = pop-IsPop q n l e in
      let hr = subst (λ r. r.next_avail < 2 ^ 16) (sym (i.queue)) (omega arith) in
      let sr = subst (λ r. 4 + 2 * actual_size r ≤ 2 ^ 16) (sym (i.queue)) small in
      let lr =
        subst (λ r. len gm r m ≡ returns (n - 1)) (sym (i.queue))
          (len-moved q n 1 hq i.some_left l) in
      then_pop-IsDrained small i
        (subst (λ r. IsDrained r (n - 1) cs q') i.queue (Pops-IsDrained r (n - 1) hr sr lr p))

  -- Where the pop of a queue returns a chain, `undo_pop` gives the queue before it, so that the next
  -- pop returns the same.
  pub undo_pop-pop :
      (q : Queue) (n : ℕ) {c : DescriptorChain} {q' : Queue}
      → q.next_avail < 2 ^ 16
      → len gm q m ≡ returns n
      → pop gm q m ≡ returns (some c, q')
      → undo_pop q' ≡ q
  unfolding undo_pop
  undo_pop-pop q n hq l e =
      subst (λ r. undo_pop r ≡ q) (sym ((pop-IsPop q n l e).queue))
        (ap (λ k. record q { next_avail = k }) (omega arith))
