-- ===== src/Vsock/KillQ/Deadlines.antt =====
-- The order of the deadlines in `MuxerKillQ`, src/devices/src/virtio/vsock/unix/muxer_killq.rs.
use firecracker.Base.{
  ℕ, ◌+◌, ◌≤◌, ◌<◌, ◌≡◌, ◌⊎◌, inl, inr, refl, true, false, not, ◌||◌, Option, none, some, List, [],
  ◌∷◌, ◌++◌, length, leb, ltb, ◌==◌, arith, if-split, ltb→lt, ap, ◌∙◌, sym, suc, leb→le,
}
use mathlib.Core.Path.{subst}
use mathlib.Core.Bool.{true≢false}
use firecracker.Vsock.RxQ.{ConnMapKey}
use firecracker.Vsock.KillQ.{
  MuxerKillQItem, MuxerKillQ, size, collect, insert, sort_by_kill_time, from_conn_map, is_full,
  push, pop_front, pop,
}

-- Kill times from `lo` on, in ascending order.
abbrev pub Ascending : ℕ → List MuxerKillQItem → Type 0
Ascending lo [] = Unit
Ascending lo (x ∷ xs) = (lo ≤ x.kill_time) × Ascending x.kill_time xs

abbrev pub Has : MuxerKillQItem → List MuxerKillQItem → Type 0
Has x [] = ⊥
Has x (y ∷ ys) = (x ≡ y) ⊎ Has x ys

Ascending-weaken :
    (lo lo' : ℕ) (xs : List MuxerKillQItem) → lo' ≤ lo → Ascending lo xs → Ascending lo' xs
Ascending-weaken lo lo' [] le a = tt
Ascending-weaken lo lo' (x ∷ xs) le (b, a) = (omega arith, a)

-- What a pop at time `now` does to a queue in ascending order.
pub data OnPop (now : ℕ) (r : MuxerKillQ) : Option ConnMapKey × MuxerKillQ → Type 0 where
  waiting : ((x : MuxerKillQItem) → Has x r.q → now ≤ x.kill_time) → OnPop now r (none, r)
  expired :
      {x : MuxerKillQItem} {xs : List MuxerKillQItem}
      → r.q ≡ x ∷ xs
      → x.kill_time < now
      → ((y : MuxerKillQItem) → Has y xs → x.kill_time ≤ y.kill_time)
      → OnPop now r (some x.key, record r { q = xs })

above :
    (lo : ℕ) (xs : List MuxerKillQItem)
    → Ascending lo xs
    → (x : MuxerKillQItem) → Has x xs
    → lo ≤ x.kill_time
above lo [] a x h = elim h [ ]
above lo (y ∷ ys) (b, a) x (inl e) = grind (arith, e)
above lo (y ∷ ys) (b, a) x (inr h) = above lo ys (Ascending-weaken y.kill_time lo ys b a) x h

-- A pop from a queue in ascending order takes the first to expire, where its time has passed;
-- otherwise it changes nothing, and no connection of the queue has expired.
pub pop-OnPop : (now lo : ℕ) (r : MuxerKillQ) → Ascending lo r.q → OnPop now r (pop now r)
unfolding pop pop_front
pop-OnPop now lo r a = go r.q refl a
  where
    go : (xs : List MuxerKillQItem) → r.q ≡ xs → Ascending lo xs → OnPop now r (pop_front now r xs)
    go [] e b = waiting (λ x h. elim (subst (Has x) e h) [ ])
    go (x ∷ xs) e (b, c) =
        if-split (OnPop now r) (ltb x.kill_time now)
          (λ t. expired e (ltb→lt x.kill_time now t) (above x.kill_time xs c))
          (λ t. waiting (λ y h.
            let le = above x.kill_time (x ∷ xs) (omega arith, c) y (subst (Has y) e h) in
            ground arith))

insert-Ascending :
    (lo : ℕ) (x : MuxerKillQItem) (xs : List MuxerKillQItem)
    → lo ≤ x.kill_time
    → Ascending lo xs
    → Ascending lo (insert x xs)
unfolding insert
insert-Ascending lo x [] le a = (le, tt)
insert-Ascending lo x (y ∷ ys) le (b, a) =
    if-split (Ascending lo) (leb x.kill_time y.kill_time)
      (λ t. (le, (leb→le x.kill_time y.kill_time t, a)))
      (λ t. (b, insert-Ascending y.kill_time x ys (ground arith) a))

insert-Has :
    (x y : MuxerKillQItem) (ys : List MuxerKillQItem) → (x ≡ y) ⊎ Has x ys → Has x (insert y ys)
unfolding insert
insert-Has x y [] h = h
insert-Has x y (z ∷ zs) (inl e) =
    if-split (Has x) (leb y.kill_time z.kill_time) (λ _. inl e)
      (λ _. inr (insert-Has x y zs (inl e)))
insert-Has x y (z ∷ zs) (inr (inl e)) =
    if-split (Has x) (leb y.kill_time z.kill_time) (λ _. inr (inl e)) (λ _. inl e)
insert-Has x y (z ∷ zs) (inr (inr k)) =
    if-split (Has x) (leb y.kill_time z.kill_time) (λ _. inr (inr k))
      (λ _. inr (insert-Has x y zs (inr k)))

length-insert :
    (y : MuxerKillQItem) (ys : List MuxerKillQItem) → length (insert y ys) ≡ suc (length ys)
unfolding insert
length-insert y [] = refl
length-insert y (z ∷ zs) =
    if-split (λ (xs : List MuxerKillQItem). length xs ≡ suc (suc (length zs)))
      (leb y.kill_time z.kill_time) (λ _. refl) (λ _. ap suc (length-insert y zs))

sort_by_kill_time-Ascending : (xs : List MuxerKillQItem) → Ascending 0 (sort_by_kill_time xs)
unfolding sort_by_kill_time
sort_by_kill_time-Ascending [] = tt
sort_by_kill_time-Ascending (x ∷ xs) =
    insert-Ascending 0 x (sort_by_kill_time xs) (omega arith) (sort_by_kill_time-Ascending xs)

sort_by_kill_time-Has :
    (x : MuxerKillQItem) (xs : List MuxerKillQItem) → Has x xs → Has x (sort_by_kill_time xs)
unfolding sort_by_kill_time
sort_by_kill_time-Has x [] h = elim h [ ]
sort_by_kill_time-Has x (y ∷ ys) (inl e) = insert-Has x y (sort_by_kill_time ys) (inl e)
sort_by_kill_time-Has x (y ∷ ys) (inr h) =
    insert-Has x y (sort_by_kill_time ys) (inr (sort_by_kill_time-Has x ys h))

length-sort_by_kill_time : (xs : List MuxerKillQItem) → length (sort_by_kill_time xs) ≡ length xs
unfolding sort_by_kill_time
length-sort_by_kill_time [] = refl
length-sort_by_kill_time (x ∷ xs) =
    length-insert x (sort_by_kill_time xs) ∙ ap suc (length-sort_by_kill_time xs)

-- The connections that will expire, in the order of the walk.
abbrev pub expiring : List (ConnMapKey × Option ℕ) → List MuxerKillQItem
expiring [] = []
expiring ((key, none) ∷ conns) = expiring conns
expiring ((key, some kill_time) ∷ conns) =
    record { key = key; kill_time = kill_time } ∷ expiring conns

record IsCollected (k : ℕ) (conns : List (ConnMapKey × Option ℕ)) (r : MuxerKillQ) : Type 0 where
  all_of_them : r.synced ≡ true → r.q ≡ expiring conns
  filled : r.synced ≡ false → length r.q + k ≡ size
  bounded : length r.q + k ≤ size

collect-IsCollected :
    (k : ℕ) (conns : List (ConnMapKey × Option ℕ))
    → k ≤ size
    → IsCollected k conns (collect k conns)
unfolding collect
collect-IsCollected k [] le = record {
  all_of_them = λ _. refl;
  filled = λ t. absurd (true≢false t);
  bounded = omega arith;
}
collect-IsCollected k ((key, none) ∷ conns) le =
    let c = collect-IsCollected k conns le in
    record { all_of_them = c.all_of_them; filled = c.filled; bounded = c.bounded }
collect-IsCollected k ((key, some t) ∷ conns) le =
    if-split (IsCollected k ((key, some t) ∷ conns)) (leb size k)
      (λ f. record {
        all_of_them = λ e. absurd (true≢false (sym e));
        filled = λ _. ground arith;
        bounded = omega arith;
      })
      (λ f.
        let c = collect-IsCollected (k + 1) conns (ground arith) in
        record {
          all_of_them = λ e. ap (λ xs. record { key = key; kill_time = t } ∷ xs) (c.all_of_them e);
          filled = λ e. omega (arith, c.filled e);
          bounded = omega (arith, c.bounded);
        })

pub record IsScheduled (conns : List (ConnMapKey × Option ℕ)) (r : MuxerKillQ) : Type 0 where
  pub order : Ascending 0 r.q
  pub bounded : length r.q ≤ size
  pub all_of_them : r.synced ≡ true → (x : MuxerKillQItem) → Has x (expiring conns) → Has x r.q
  pub filled : r.synced ≡ false → length r.q ≡ size

-- A queue built from the connections is in the order of their kill times and within its size.
-- Synchronized, it has every connection that will expire; otherwise it is full.
pub from_conn_map-IsScheduled :
    (conns : List (ConnMapKey × Option ℕ)) → IsScheduled conns (from_conn_map conns)
unfolding from_conn_map
from_conn_map-IsScheduled conns =
    let c = collect-IsCollected 0 conns (omega arith) in
    let found = (collect 0 conns).q in
    record {
      order = sort_by_kill_time-Ascending found;
      bounded = omega (arith, c.bounded, length-sort_by_kill_time found);
      all_of_them =
          λ t x h. sort_by_kill_time-Has x found (subst (Has x) (sym (c.all_of_them t)) h);
      filled = λ t. omega (arith, c.filled t, length-sort_by_kill_time found);
    }

append-Ascending :
    (lo : ℕ) (x : MuxerKillQItem) (xs : List MuxerKillQItem)
    → lo ≤ x.kill_time
    → ((y : MuxerKillQItem) → Has y xs → y.kill_time ≤ x.kill_time)
    → Ascending lo xs
    → Ascending lo (xs ++ x ∷ [])
append-Ascending lo x [] le f a = (le, tt)
append-Ascending lo x (y ∷ ys) le f (b, a) =
    (b, append-Ascending y.kill_time x ys (f y (inl refl)) (λ z h. f z (inr h)) a)

append-Has :
    (x y : MuxerKillQItem) (xs : List MuxerKillQItem) → Has y xs ⊎ (y ≡ x) → Has y (xs ++ x ∷ [])
append-Has x y [] (inl h) = elim h [ ]
append-Has x y [] (inr e) = inl e
append-Has x y (z ∷ zs) (inl (inl e)) = inl e
append-Has x y (z ∷ zs) (inl (inr h)) = inr (append-Has x y zs (inl h))
append-Has x y (z ∷ zs) (inr e) = inr (append-Has x y zs (inr e))

length-append-one :
    (x : MuxerKillQItem) (xs : List MuxerKillQItem) → length (xs ++ x ∷ []) ≡ suc (length xs)
length-append-one x [] = refl
length-append-one x (y ∷ ys) = ap suc (length-append-one x ys)

pub record IsOrdered (x : MuxerKillQItem) (r r' : MuxerKillQ) : Type 0 where
  pub order : Ascending 0 r'.q
  pub bounded : length r'.q ≤ size
  pub kept : (y : MuxerKillQItem) → Has y r.q → Has y r'.q
  pub present : r'.synced ≡ true → (r.synced ≡ true) × Has x r'.q

-- A push of a deadline no earlier than those of the queue keeps the order, the size and what the
-- queue has; and where the queue is still synchronized after it, it has the new connection too.
pub push-IsOrdered :
    (key : ConnMapKey) (kill_time : ℕ) (r : MuxerKillQ)
    → Ascending 0 r.q
    → length r.q ≤ size
    → ((y : MuxerKillQItem) → Has y r.q → y.kill_time ≤ kill_time)
    → IsOrdered (record { key = key; kill_time = kill_time }) r (push key kill_time r)
unfolding push is_full
push-IsOrdered key t r a b f =
    let x : MuxerKillQItem = record { key = key; kill_time = t } in
    if-split (IsOrdered x r) (not r.synced || (length r.q == size))
      (λ _. record {
        order = a;
        bounded = b;
        kept = λ y h. h;
        present = λ e. absurd (true≢false (sym e));
      })
      (λ e. record {
        order = append-Ascending 0 x r.q (omega arith) f a;
        bounded = grind (arith, length-append-one x r.q);
        kept = λ y h. append-Has x y r.q (inl h);
        present = λ s. (s, append-Has x x r.q (inr refl));
      })
