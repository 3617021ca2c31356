-- ===== src/Vsock/Muxer/Turns.antt =====
-- A turn of the loop of `VsockMuxer::recv_pkt`, src/devices/src/virtio/vsock/unix/muxer.rs.
use mathlib.Core.Bool.{true≢false}
use mathlib.Core.Path.{subst}
use firecracker.Base.{
  ℕ, ◌≤◌, ◌≡◌, ◌⊎◌, inl, inr, refl, ap, sym, ◌∙◌, Bool, true, false, not, ◌&&◌, some, List, [], ◌∷◌,
  ◌++◌, length, if◌then◌else◌, if-keeps, if-split, Bool-cases, arith,
}
use firecracker.Base.Maps.{nat_eq, get, insert}
use firecracker.Vsock.PendingRx.{rst, contains}
use firecracker.Vsock.PendingRx.Items.{contains-insert}
use firecracker.Vsock.RxQ.{ConnMapKey, MuxerRx, conn_rx, rst_pkt, MuxerRxQ}
use firecracker.Vsock.RxQ
use firecracker.Vsock.Connection.{VsockConnection, has_pending_rx, will_expire, kill}
use firecracker.Vsock.Muxer.{
  same_key, same_key_iff, Host, VsockMuxer, key_eq, push_rx, kill_found, kill_connection,
}
use firecracker.Vsock.Muxer.Mutation.{is_local_init, is_established, queue_kill, settle, acked}
use firecracker.Vsock.Muxer.Queued.{
  Queued, Queued-split, append_assoc, length-append-conn, OnConn, queued, dropped, push-OnConn,
}
use firecracker.Vsock.Muxer.Tracked.{get-insert_same, get-insert_other}
use firecracker.Vsock.Muxer.Kept.{Holds, relisten-Holds, queue_kill-Holds}

module _ {S W : Type 0} (io : Host S W) where
  -- What follows a mutation that leaves nothing pending, but for the listener.
  pub settle_quiet-Holds :
      (P : List (ConnMapKey × VsockConnection S) → MuxerRxQ → Type 0) (now : ℕ) (key : ConnMapKey)
      (c d : VsockConnection S) (mx : VsockMuxer S W)
      → ((mx' : VsockMuxer S W) → Holds P mx' → Holds P (kill_connection key mx'))
      → has_pending_rx d ≡ false
      → P (insert key d mx.conn_map) mx.rxq
      → Holds P (settle io now key c d mx)
  unfolding settle
  settle_quiet-Holds P now key c d mx kills quiet h =
      let mx1 = record mx { conn_map = insert key d mx.conn_map } in
      let mx2 =
        if not (has_pending_rx c) && has_pending_rx d then push_rx (conn_rx key) mx1 else mx1 in
      let mx3 =
        if not (will_expire now c) && will_expire now d then queue_kill key d.expiry mx2 else mx2 in
      let h2 : Holds P mx2 =
        if-split (Holds P) (not (has_pending_rx c) && has_pending_rx d)
          (λ t. absurd (true≢false (sym (right (has_pending_rx c) (has_pending_rx d) t) ∙ quiet)))
          (λ _. h) in
      let h3 : Holds P mx3 =
        if-keeps (Holds P) (not (will_expire now c) && will_expire now d)
          (queue_kill-Holds P key d.expiry mx2 h2) h2 in
      relisten-Holds io P key kills d mx3 h3
    where
      right : (a b : Bool) → (not a && b) ≡ true → b ≡ true
      right true b t = absurd (true≢false (sym t))
      right false b t = t

  -- A connection that does not become established is not acknowledged.
  pub acked-same :
      (key : ConnMapKey) (c d : VsockConnection S)
      → (is_local_init c.state ≡ true → is_established d.state ≡ false)
      → acked io key c.state d ≡ d
  unfolding acked
  acked-same key c d w =
      if-split (λ (x : VsockConnection S). x ≡ d) (is_local_init c.state && is_established d.state)
        (λ t. absurd (no (is_local_init c.state) (is_established d.state) w t)) (λ _. refl)
    where
      no : (a b : Bool) → (a ≡ true → b ≡ false) → (a && b) ≡ true → ⊥
      no true b f t = true≢false (sym t ∙ f refl)
      no false b f t = true≢false (sym t)

-- A connection with a reset pending.
abbrev pub Resets : {S : Type 0} → ConnMapKey → List (ConnMapKey × VsockConnection S) → Type 0
Resets {S} key conns =
    (c : VsockConnection S) × ((get key conns ≡ some c) × (contains rst c.pending_rx ≡ true))

-- The queue has the key at its head, then `first`, and behind it only connections that will yield.
pub record IsBehind {S : Type 0} (key : ConnMapKey) (first : List MuxerRx)
    (conns : List (ConnMapKey × VsockConnection S)) (r : MuxerRxQ) : Type 0 where
  pub later : List MuxerRx
  pub parts : r.q ≡ conn_rx key ∷ (first ++ later)
  pub yields : (i : ConnMapKey) → Queued i later → Resets i conns
  pub present : (c : VsockConnection S) × (get key conns ≡ some c)
  pub bounded : length r.q ≤ RxQ.size

module _ {S : Type 0} (key : ConnMapKey) (first : List MuxerRx) where
  -- A connection that is inserted with a reset pending, or where none waits behind.
  pub insert-Resets :
      (d : VsockConnection S) (conns : List (ConnMapKey × VsockConnection S)) (later : List MuxerRx)
      → (contains rst d.pending_rx ≡ true) ⊎ (Resets key conns → ⊥)
      → ((i : ConnMapKey) → Queued i later → Resets i conns)
      → (i : ConnMapKey) → Queued i later
      → Resets i (insert key d conns)
  insert-Resets d conns later why f i h = elim (Bool-cases (same_key key i)) [
    | inl t ↦
        subst (λ j. Resets j (insert key d conns)) ((same_key_iff key i).0 t)
          (elim why [
            | inl y ↦ (d, (get-insert_same key d conns, y))
            | inr n ↦
                absurd (n (subst (λ j. Resets j conns) (sym ((same_key_iff key i).0 t)) (f i h)))
          ])
    | inr t ↦ ((f i h).0, (get-insert_other i key d conns t ∙ (f i h).1.0, (f i h).1.1))
  ]

  pushed-IsBehind :
      (conns : List (ConnMapKey × VsockConnection S)) (r r' : MuxerRxQ)
      → OnConn key r r'
      → Resets key conns
      → IsBehind key first conns r
      → IsBehind key first conns r'
  pushed-IsBehind conns r _ (queued s lt) y b = record {
    later = b.later ++ conn_rx key ∷ [];
    parts =
        ap (λ (t : List MuxerRx). t ++ conn_rx key ∷ []) b.parts
        ∙ append_assoc (conn_rx key ∷ first) b.later (conn_rx key ∷ []);
    yields = λ i h. elim (Queued-split i b.later (conn_rx key ∷ []) h) [
      | inl a ↦ b.yields i a
      | inr (inl e) ↦ subst (λ j. Resets j conns) e y
      | inr (inr none_is) ↦ absurd none_is
    ];
    present = b.present;
    bounded = omega (arith, lt, length-append-conn r.q (conn_rx key));
  }
  pushed-IsBehind conns r _ dropped y b = record {
    later = b.later;
    parts = b.parts;
    yields = b.yields;
    present = b.present;
    bounded = b.bounded;
  }

  pub kill_connection-IsBehind :
      {W : Type 0} (mx : VsockMuxer S W)
      → Holds (IsBehind key first) mx
      → Holds (IsBehind key first) (kill_connection key mx)
  unfolding kill_connection kill_found push_rx kill
  kill_connection-IsBehind {W} mx b =
      let c = b.present.0 in
      let conns = insert key (kill c) mx.conn_map in
      let rst_pending = contains-insert rst c.pending_rx in
      let same = get-insert_same key (kill c) mx.conn_map in
      let killed_b : IsBehind key first conns mx.rxq = record {
        later = b.later;
        parts = b.parts;
        yields = insert-Resets (kill c) mx.conn_map b.later (inl rst_pending) b.yields;
        present = (kill c, same);
        bounded = b.bounded;
      } in
      subst (λ o. Holds (IsBehind key first) (kill_found key mx o)) (sym b.present.1)
        (if-keeps (Holds (IsBehind key first)) (has_pending_rx c) killed_b (
          pushed-IsBehind conns mx.rxq _ (push-OnConn key mx.rxq b.bounded)
            (kill c, (same, rst_pending)) killed_b))
