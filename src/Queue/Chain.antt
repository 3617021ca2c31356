-- ===== src/Queue/Chain.antt =====
-- Walking a descriptor chain of src/devices/src/virtio/queue.rs.
use firecracker.Base.{
  ℕ, suc, ◌+◌, ◌-◌, ◌<◌, ◌≡◌, refl, ◌∙◌, Option, none, some, arith, if-split, leb,
}
use mathlib.Core.Path.{subst}
use firecracker.Queue.Memory.{GuestMemory, Descriptor}
use firecracker.Queue.Descriptor.{
  DescriptorChain, has_next, is_valid_chain, chain_of, read_head, checked_new, count_down,
  next_descriptor,
}

-- What a chain has that was found at an index.
pub record IsHead (desc_table queue_size index ttl : ℕ) (c : DescriptorChain) : Type 0 where
  pub bound : index < queue_size
  pub index_is : c.index ≡ index
  pub table_is : c.desc_table ≡ desc_table
  pub size_is : c.queue_size ≡ queue_size
  pub ttl_is : c.ttl ≡ ttl

-- Of a chain that may be missing.
pub data Found (P : DescriptorChain → Type 0) : Option DescriptorChain → Type 0 where
  missing : Found P none
  found : {c : DescriptorChain} → P c → Found P (some c)

module _ {M : Type 0} (gm : GuestMemory M) (m : M) where
  chain_of-IsHead :
      (t n i : ℕ) (d : Option Descriptor) → i < n → Found (IsHead t n i n) (chain_of gm t n i d)
  unfolding chain_of
  chain_of-IsHead t n i none lt = missing
  chain_of-IsHead t n i (some d) lt =
      if-split (Found (IsHead t n i n)) (is_valid_chain _)
        (λ _.
          found (record {
            bound = lt;
            index_is = refl;
            table_is = refl;
            size_is = refl;
            ttl_is = refl;
          }))
        (λ _. missing)

  read_head-IsHead :
      (t n i : ℕ) (a : Option ℕ) → i < n → Found (IsHead t n i n) (read_head gm m t n i a)
  unfolding read_head
  read_head-IsHead t n i none lt = missing
  read_head-IsHead t n i (some a) lt = go (gm.checked_offset m a 16)
    where
      go :
          (o : Option ℕ)
          → Found
              (IsHead t n i n)
              (elim o [ none ↦ none | some _ ↦ chain_of gm t n i (gm.read_descriptor m a) ])
      go none = missing
      go (some _) = chain_of-IsHead t n i (gm.read_descriptor m a) lt

  pub checked_new-IsHead : (t n i : ℕ) → Found (IsHead t n i n) (checked_new gm m t n i)
  unfolding checked_new
  checked_new-IsHead t n i =
      if-split (Found (IsHead t n i n)) (leb n i) (λ _. missing)
        (λ gt. read_head-IsHead t n i (gm.checked_offset m t _) (ground arith))

  count_down-IsHead :
      (t n i ttl : ℕ) (o : Option DescriptorChain)
      → Found (IsHead t n i n) o
      → Found (IsHead t n i (ttl - 1)) (count_down gm ttl o)
  unfolding count_down
  count_down-IsHead t n i ttl none f = missing
  count_down-IsHead t n i ttl (some c) (found h) = found (record {
    bound = h.bound;
    index_is = h.index_is;
    table_is = h.table_is;
    size_is = h.size_is;
    ttl_is = refl;
  })

  -- A next descriptor is at the index `next` of the same table, with one less to go, and there is
  -- none where the count has come to 1.
  pub record IsNext (c d : DescriptorChain) : Type 0 where
    pub head : IsHead c.desc_table c.queue_size c.next (c.ttl - 1) d
    pub more : 1 < c.ttl

  next_descriptor-IsNext : (c : DescriptorChain) → Found (IsNext c) (next_descriptor gm m c)
  unfolding next_descriptor has_next
  next_descriptor-IsNext c =
      if-split (Found (IsNext c)) (has_next c)
        (λ t. go _ (ground arith) (count_down-IsHead _ _ _ c.ttl _ (checked_new-IsHead _ _ c.next)))
        (λ _. missing)
    where
      go :
          (o : Option DescriptorChain)
          → 1 < c.ttl
          → Found (IsHead c.desc_table c.queue_size c.next (c.ttl - 1)) o
          → Found (IsNext c) o
      go none lt f = missing
      go (some d) lt (found h) = found (record { head = h; more = lt })

  -- `d` is reached from `c` by `k` calls of `next_descriptor`.
  pub data Follows (c : DescriptorChain) : ℕ → DescriptorChain → Type 0 where
    here : Follows c 0 c
    then_next :
        {k : ℕ} {d e : DescriptorChain}
        → Follows c k d
        → next_descriptor gm m d ≡ some e
        → Follows c (suc k) e

  pub record IsWithin (t n k : ℕ) (d : DescriptorChain) : Type 0 where
    pub index_bound : d.index < n
    pub table : d.desc_table ≡ t
    pub size : d.queue_size ≡ n
    pub steps : d.ttl + k ≡ n
    pub left : 0 < d.ttl

  holds-found : {P : DescriptorChain → Type 0} {c : DescriptorChain} → Found P (some c) → P c
  holds-found (found h) = h

  -- From a chain that `checked_new` returned, every descriptor that any number of calls of
  -- `next_descriptor` reaches, whatever the guest wrote, has an index below the queue's size in the
  -- same table; and fewer calls succeed than the queue has descriptors, also when the links go round.
  pub Follows-IsWithin :
      (t n i : ℕ) {c d : DescriptorChain} {k : ℕ}
      → checked_new gm m t n i ≡ some c
      → Follows c k d
      → IsWithin t n k d × (k < n)
  Follows-IsWithin t n i e here =
      let h = holds-found (subst (Found (IsHead t n i n)) e (checked_new-IsHead t n i)) in
      (
        record {
          index_bound = rw (h.index_is) h.bound;
          table = h.table_is;
          size = h.size_is;
          steps = grind (arith, h.ttl_is);
          left = grind (arith, h.ttl_is, h.bound);
        },
        grind (arith, h.bound),
      )
  Follows-IsWithin t n i e (then_next {d = d} f g) =
      let (w, lt) = Follows-IsWithin t n i e f in
      let s = holds-found (subst (Found (IsNext d)) g (next_descriptor-IsNext d)) in
      (
        record {
          index_bound = grind (arith, s.head.index_is, s.head.bound, w.size);
          table = s.head.table_is ∙ w.table;
          size = s.head.size_is ∙ w.size;
          steps = grind (arith, s.head.ttl_is, s.more, w.steps);
          left = grind (arith, s.head.ttl_is, s.more);
        },
        grind (arith, w.steps, s.more),
      )
