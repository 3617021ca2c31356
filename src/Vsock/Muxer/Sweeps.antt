-- ===== src/Vsock/Muxer/Sweeps.antt =====
-- `VsockMuxer::sweep_killq` and `add_connection`, src/devices/src/virtio/vsock/unix/muxer.rs: they end,
-- and the RX queue has the key of each connection with something pending.
use mathlib.Core.Bool.{true≢false}
use mathlib.Core.Path.{subst}
use firecracker.Base.{
  ℕ, zero, suc, ◌+◌, ◌≤◌, ◌<◌, ◌≡◌, ◌⊎◌, inl, inr, refl, ap, sym, ◌∙◌, Bool, true, false, not, ◌&&◌,
  Option, none, some, List, [], ◌∷◌, length, leb, ltb, ltb→lt, if-keeps, if-split, arith,
}
use firecracker.Base.Maps.{get, insert, length-insert}
use firecracker.Vsock.RxQ.{ConnMapKey}
use firecracker.Vsock.KillQ.{MuxerKillQItem, MuxerKillQ, collect, sort_by_kill_time, pop_front}
use firecracker.Vsock.KillQ
use firecracker.Vsock.KillQ.Deadlines.{from_conn_map-IsScheduled}
use firecracker.Vsock.Connection.{VsockConnection, has_pending_rx, will_expire, will_expire_at}
use firecracker.Vsock.Muxer.{
  EpollListener, Host, VsockMuxer, key_eq, max_connections, kill_walk, push_rx, add_listener, add,
  kill_found, kill_connection, listener_evset,
}
use firecracker.Vsock.Muxer.Sweep.{
  is_nil, expired_at, sweep_popped, sweep_loop, sweep_once, after_sweep, sweep_killq, connected,
  add_swept, add_connection,
}
use firecracker.Vsock.Muxer.Sound.{IsSound}
use firecracker.Vsock.Muxer.Queued.{push-OnConn}
use firecracker.Vsock.Muxer.Tracked.{insert-IsTracked, conn-IsTracked}
use firecracker.Vsock.Muxer.Kept.{Tracks, kill_connection-Tracks}

-- All kill times are after `now`.
abbrev After : ℕ → List MuxerKillQItem → Type 0
After now [] = Unit
After now (x ∷ xs) = (now < x.kill_time) × After now xs

insert-After :
    (now : ℕ) (x : MuxerKillQItem) (xs : List MuxerKillQItem)
    → now < x.kill_time
    → After now xs
    → After now (KillQ.insert x xs)
unfolding KillQ.insert
insert-After now x [] lt a = (lt, tt)
insert-After now x (y ∷ ys) lt (b, a) =
    if-keeps (After now) (leb x.kill_time y.kill_time) (lt, (b, a)) (b, insert-After now x ys lt a)

sort-After : (now : ℕ) (xs : List MuxerKillQItem) → After now xs → After now (sort_by_kill_time xs)
unfolding sort_by_kill_time
sort-After now [] a = tt
sort-After now (x ∷ xs) (b, a) = insert-After now x (sort_by_kill_time xs) b (sort-After now xs a)

collect_one-After :
    (now k : ℕ) (key : ConnMapKey) (o : Option ℕ) (rest : List (ConnMapKey × Option ℕ))
    → will_expire_at now o ≡ true
    → ((j : ℕ) → After now (collect j rest).q)
    → After now (collect k ((key, o) ∷ rest)).q
unfolding collect will_expire_at
collect_one-After now k key none rest t a = a k
collect_one-After now k key (some time) rest t a =
    if-keeps (λ (r : MuxerKillQ). After now r.q) (leb KillQ.size k) tt
      (ltb→lt now time t, a (k + 1))

collect-After :
    {S : Type 0} (now k : ℕ) (conns : List (ConnMapKey × VsockConnection S))
    → After now (collect k (kill_walk now conns)).q
unfolding collect kill_walk will_expire
collect-After now k [] = tt
collect-After now k ((key, c) ∷ conns) =
    if-split (λ (o : Option ℕ). After now (collect k ((key, o) ∷ kill_walk now conns)).q)
      (will_expire_at now c.expiry)
      (λ t.
        collect_one-After now k key c.expiry (kill_walk now conns) t
          (λ j. collect-After now j conns))
      (λ _. collect-After now k conns)

-- No connection of a queue that is built again has expired.
rebuilt-pop :
    (now : ℕ) (r : MuxerKillQ) (xs : List MuxerKillQItem)
    → After now xs
    → (pop_front now r xs).0 ≡ none
unfolding pop_front
rebuilt-pop now r [] a = refl
rebuilt-pop now r (x ∷ xs) (b, a) =
    if-split (λ (o : Option ConnMapKey × MuxerKillQ). o.0 ≡ none) (ltb x.kill_time now)
      (λ t. absurd (ground (arith, t, b))) (λ _. refl)

-- A pop gives nothing, or leaves one item less.
popped-shorter :
    (now : ℕ) (r : MuxerKillQ) (xs : List MuxerKillQItem)
    → ((pop_front now r xs).0 ≡ none) ⊎ (length (pop_front now r xs).1.q + 1 ≡ length xs)
unfolding pop_front
popped-shorter now r [] = inl refl
popped-shorter now r (x ∷ xs) =
    if-split
      (λ (o : Option ConnMapKey × MuxerKillQ). (o.0 ≡ none) ⊎ (length o.1.q + 1 ≡ length (x ∷ xs)))
      (ltb x.kill_time now) (λ _. inr (omega arith)) (λ _. inl refl)

long-is_nil : (xs : List MuxerKillQItem) → 0 < length xs → is_nil xs ≡ false
unfolding is_nil
long-is_nil [] lt = absurd (omega (arith, lt))
long-is_nil (x ∷ xs) lt = refl

module _ {S W : Type 0} where
  -- The muxer that a call leaves, which it does.
  abbrev pub Leaves : Option (VsockMuxer S W) → Type 0
  Leaves none = ⊥
  Leaves (some mx) = Tracks [] mx

  -- The same of an addition.
  abbrev pub OnAdd : Option (Bool × VsockMuxer S W) → Type 0
  OnAdd none = ⊥
  OnAdd (some (added, mx)) = Tracks [] mx

module _ {S W : Type 0} (now : ℕ) where
  rebuilt : VsockMuxer S W → VsockMuxer S W
  rebuilt mx = record mx { killq = KillQ.from_conn_map (kill_walk now mx.conn_map) }

  sweep_loop-idle :
      (rounds : ℕ) (mx : VsockMuxer S W)
      → (KillQ.pop now mx.killq).0 ≡ none
      → sweep_loop now (suc rounds) mx ≡ some mx
  unfolding sweep_loop
  sweep_loop-idle rounds mx e =
      ap
        (λ (o : Option ConnMapKey). elim o [
          | none ↦ some mx
          | some key ↦ sweep_loop now rounds (sweep_popped now (KillQ.pop now mx.killq) mx)
        ])
        e

  sweep_popped-Tracks :
      (popped : Option ConnMapKey × MuxerKillQ) (mx : VsockMuxer S W)
      → Tracks [] mx
      → Tracks [] (sweep_popped now popped mx)
  unfolding sweep_popped
  sweep_popped-Tracks (none, r) mx k = k
  sweep_popped-Tracks (some key, r) mx k =
      if-keeps (Tracks []) (expired_at now (get key mx.conn_map))
        (kill_connection-Tracks [] key (record mx { killq = r }) k) k

  kill_found-killq :
      (key : ConnMapKey) (mx : VsockMuxer S W) (o : Option (VsockConnection S))
      → (kill_found key mx o).killq ≡ mx.killq
  unfolding kill_found push_rx
  kill_found-killq key mx none = refl
  kill_found-killq key mx (some c) =
      if-keeps (λ (mx' : VsockMuxer S W). mx'.killq ≡ mx.killq) (has_pending_rx c) refl refl

  sweep_popped-killq :
      (popped : Option ConnMapKey × MuxerKillQ) (mx : VsockMuxer S W)
      → (sweep_popped now popped mx).killq ≡ popped.1
  unfolding sweep_popped kill_connection
  sweep_popped-killq (none, r) mx = refl
  sweep_popped-killq (some key, r) mx =
      if-keeps (λ (mx' : VsockMuxer S W). mx'.killq ≡ r) (expired_at now (get key mx.conn_map))
        (kill_found-killq key (record mx { killq = r }) (get key mx.conn_map)) refl

  -- Each round but the last takes an item from the queue.
  sweep_loop-Leaves :
      (rounds : ℕ) (mx : VsockMuxer S W)
      → Tracks [] mx
      → length mx.killq.q < rounds
      → Leaves (sweep_loop now rounds mx)
  unfolding sweep_loop KillQ.pop
  sweep_loop-Leaves zero mx k lt = absurd (omega (arith, lt))
  sweep_loop-Leaves (suc rounds) mx k lt =
      let popped = KillQ.pop now mx.killq in
      let next = sweep_popped now popped mx in
      elim (popped-shorter now mx.killq mx.killq.q) [
        | inl e ↦ subst Leaves (sym (sweep_loop-idle rounds mx e)) k
        | inr shorter ↦ go _ popped.0 (
            sweep_loop-Leaves rounds next (sweep_popped-Tracks popped mx k) (
              omega (
                arith,
                lt,
                shorter,
                ap (λ (r : MuxerKillQ). length r.q) (sweep_popped-killq popped mx),
              )))
      ]
    where
      go :
          (next : Option (VsockMuxer S W)) (o : Option ConnMapKey)
          → Leaves next
          → Leaves (elim o [ none ↦ some mx | some key ↦ next ])
      go next none h = k
      go next (some key) h = h

  second_sweep-Leaves :
      (mx : VsockMuxer S W) → Tracks [] mx → Leaves (sweep_killq now 1 (rebuilt mx))
  unfolding sweep_killq sweep_once after_sweep rebuilt KillQ.pop KillQ.from_conn_map
  second_sweep-Leaves mx k =
      let built = KillQ.from_conn_map (kill_walk now mx.conn_map) in
      let idle = sweep_loop-idle (length built.q) (rebuilt mx) (
        rebuilt-pop now built built.q (
          sort-After now (collect 0 (kill_walk now mx.conn_map)).q
            (collect-After now 0 mx.conn_map))) in
      rw idle (
        if-split Leaves (is_nil built.q && not built.synced)
          (λ t. absurd (
            ground (
              arith,
              t,
              (from_conn_map-IsScheduled (kill_walk now mx.conn_map)).filled,
              long-is_nil built.q,
            )))
          (λ _. k))

  after_sweep-Leaves :
      (o : Option (VsockMuxer S W)) → Leaves o → Leaves (after_sweep now (sweep_killq now 1) o)
  unfolding after_sweep rebuilt
  after_sweep-Leaves none h = h
  after_sweep-Leaves (some mx) k =
      if-keeps Leaves (is_nil mx.killq.q && not mx.killq.synced) (second_sweep-Leaves mx k) k

  pub sweep_killq-Leaves : (mx : VsockMuxer S W) → Tracks [] mx → Leaves (sweep_killq now 2 mx)
  unfolding sweep_killq sweep_once
  sweep_killq-Leaves mx k =
      after_sweep-Leaves (sweep_once now mx)
        (sweep_loop-Leaves (suc (length mx.killq.q)) mx k (omega arith))

  -- There is room for one more.
  abbrev Roomy : VsockMuxer S W → Type 0
  Roomy mx = Tracks [] mx × (length mx.conn_map < max_connections)

  add_listener-Roomy :
      (io : Host S W) (fd : ℕ) (l : EpollListener S) (mx : VsockMuxer S W)
      → Roomy mx
      → Roomy (add_listener io fd l mx).1
  unfolding add_listener
  add_listener-Roomy io fd l mx h =
      if-keeps (λ (r : Bool × VsockMuxer S W). Roomy r.1)
        (io.ctl (add fd (listener_evset l)) mx.host).0 h h

  connected-OnAdd :
      (key : ConnMapKey) (c : VsockConnection S) (r : Bool × VsockMuxer S W)
      → IsSound c
      → Roomy r.1
      → OnAdd (some (connected now key c r))
  unfolding connected push_rx
  connected-OnAdd key c (false, mx) s (k, room) = k
  connected-OnAdd key c (true, mx) s (k, room) =
      let (k', q) =
        conn-IsTracked [] key mx.conn_map mx.rxq _ (push-OnConn key mx.rxq k.bounded) k in
      let few : length (insert key c mx.conn_map) ≤ max_connections =
        omega (arith, room, length-insert key c mx.conn_map) in
      if-split
        (λ (mx' : VsockMuxer S W). Tracks [] (record mx' { conn_map = insert key c mx'.conn_map }))
        (has_pending_rx c) (λ _. insert-IsTracked [] key c mx.conn_map _ k' s few (λ t _. q t))
        (λ t.
          insert-IsTracked [] key c mx.conn_map mx.rxq k s few
            (λ _ p. absurd (true≢false (sym p ∙ t))))

  add_swept-OnAdd :
      (io : Host S W) (key : ConnMapKey) (c : VsockConnection S) (o : Option (VsockMuxer S W))
      → IsSound c
      → Leaves o
      → OnAdd (add_swept now io key c o)
  unfolding add_swept
  add_swept-OnAdd io key c none s h = h
  add_swept-OnAdd io key c (some mx) s k =
      if-split (λ (r : Bool × VsockMuxer S W). OnAdd (some r))
        (leb max_connections (length mx.conn_map)) (λ _. k)
        (λ t. connected-OnAdd key c _ s (add_listener-Roomy io _ _ mx (k, ground (arith, t))))

  pub add_connection-OnAdd :
      (io : Host S W) (key : ConnMapKey) (c : VsockConnection S) (mx : VsockMuxer S W)
      → IsSound c
      → Tracks [] mx
      → OnAdd (add_connection now io key c mx)
  unfolding add_connection
  add_connection-OnAdd io key c mx s k =
      add_swept-OnAdd io key c (sweep_killq now 2 mx) s (sweep_killq-Leaves mx k)
