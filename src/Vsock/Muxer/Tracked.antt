-- ===== src/Vsock/Muxer/Tracked.antt =====
-- The RX queue and the connections of `VsockMuxer`, src/devices/src/virtio/vsock/unix/muxer.rs.
use mathlib.Core.Bool.{true≢false}
use mathlib.Core.Path.{subst}
use mathlib.Core.Option.{none-ne-some}
use firecracker.Base.{
  ℕ, ◌≤◌, ◌≡◌, ◌⊎◌, inl, inr, refl, ap, sym, ◌∙◌, Bool, true, false, none, some, List, [], ◌∷◌,
  ◌++◌, length, Bool-cases, arith,
}
use firecracker.Base.Maps.{get, insert, remove, get-insert, get-remove, length-remove}
use firecracker.Vsock.RxQ.{
  ConnMapKey, MuxerRx, conn_rx, rst_pkt, MuxerRxQ, is_full, push_over, push-IsPushed, pending,
  from_conn_map, from_conn_map-IsBuilt, pop,
}
use firecracker.Vsock.RxQ
use firecracker.Vsock.Connection.{VsockConnection, has_pending_rx}
use firecracker.Vsock.Muxer.{same_key, same_key_iff, key_eq, max_connections, rx_walk}
use firecracker.Vsock.Muxer.Sound.{IsSound}
use firecracker.Vsock.Muxer.Queued.{
  Queued, Queued-append, length-append-conn, append_assoc, OnConn, pop-tail, queued, dropped,
}

-- The connections and the queue, of which `front` is left out: where the queue is synchronized, the
-- rest of it has the key of each connection that has something pending.
pub record IsTracked {S : Type 0} (front : List MuxerRx)
    (conns : List (ConnMapKey × VsockConnection S)) (r : MuxerRxQ) : Type 0 where
  pub rest : List MuxerRx
  pub parts : r.q ≡ front ++ rest
  pub bounded : length r.q ≤ RxQ.size
  pub few : length conns ≤ max_connections
  pub sound : (key : ConnMapKey) (c : VsockConnection S) → get key conns ≡ some c → IsSound c
  pub tracked :
      r.synced ≡ true
      → (key : ConnMapKey) (c : VsockConnection S) → get key conns ≡ some c
      → has_pending_rx c ≡ true
      → Queued key rest

pub some_inj : {A : Type 0} {x y : A} → some x ≡ some y → x ≡ y
some_inj {A} {x} e = ap (λ o. elim o [ none ↦ x | some z ↦ z ]) e

module _ {S : Type 0} where
  -- The connection at a key after an insertion is the new one, or what was there.
  pub get-insert_cases :
      (i key : ConnMapKey) (c c' : VsockConnection S)
      (conns : List (ConnMapKey × VsockConnection S))
      → get i (insert key c' conns) ≡ some c
      → ((key ≡ i) × (c' ≡ c)) ⊎ (get i conns ≡ some c)
  get-insert_cases i key c c' conns h = elim (Bool-cases (same_key key i)) [
    | inl t ↦
        inl ((same_key_iff key i).0 t, some_inj (sym (get-insert i key c' conns ∙ rw t refl) ∙ h))
    | inr t ↦ inr (sym (get-insert i key c' conns ∙ rw t refl) ∙ h)
  ]

  pub get-insert_same :
      (key : ConnMapKey) (c : VsockConnection S) (conns : List (ConnMapKey × VsockConnection S))
      → get key (insert key c conns) ≡ some c
  get-insert_same key c conns = get-insert key key c conns ∙ rw ((same_key_iff key key).1 refl) refl

  pub get-insert_other :
      (i key : ConnMapKey) (c : VsockConnection S) (conns : List (ConnMapKey × VsockConnection S))
      → same_key key i ≡ false
      → get i (insert key c conns) ≡ get i conns
  get-insert_other i key c conns t = get-insert i key c conns ∙ rw t refl

  -- A connection that is inserted, queued where it has something pending.
  pub insert-IsTracked :
      (front : List MuxerRx) (key : ConnMapKey) (c : VsockConnection S)
      (conns : List (ConnMapKey × VsockConnection S)) (r : MuxerRxQ) (k : IsTracked front conns r)
      → IsSound c
      → length (insert key c conns) ≤ max_connections
      → (r.synced ≡ true → has_pending_rx c ≡ true → Queued key k.rest)
      → IsTracked front (insert key c conns) r
  insert-IsTracked front key c conns r k s l q = record {
    rest = k.rest;
    parts = k.parts;
    bounded = k.bounded;
    few = l;
    sound = λ i d h. elim (get-insert_cases i key d c conns h) [
      | inl (e, f) ↦ subst IsSound f s
      | inr h' ↦ k.sound i d h'
    ];
    tracked = λ t i d h p. elim (get-insert_cases i key d c conns h) [
      | inl (e, f) ↦
          subst (λ j. Queued j k.rest) e
            (q t (subst (λ (x : VsockConnection S). has_pending_rx x ≡ true) (sym f) p))
      | inr h' ↦ k.tracked t i d h' p
    ];
  }

  pub remove-IsTracked :
      (key : ConnMapKey) (conns : List (ConnMapKey × VsockConnection S)) (r : MuxerRxQ)
      → IsTracked [] conns r
      → IsTracked [] (remove key conns) r
  remove-IsTracked key conns r k = record {
    rest = k.rest;
    parts = k.parts;
    bounded = k.bounded;
    few = omega (arith, k.few, length-remove key conns);
    sound = λ i d h. k.sound i d (kept i d h);
    tracked = λ t i d h p. k.tracked t i d (kept i d h) p;
  }
    where
      kept :
          (i : ConnMapKey) (d : VsockConnection S)
          → get i (remove key conns) ≡ some d
          → get i conns ≡ some d
      kept i d h = elim (Bool-cases (same_key key i)) [
        | inl t ↦ absurd (none-ne-some d (sym (get-remove i key conns ∙ rw t refl) ∙ h))
        | inr t ↦ sym (get-remove i key conns ∙ rw t refl) ∙ h
      ]

  -- A push keeps what is tracked, and the new item is queued where the queue is synchronized.
  pub conn-IsTracked :
      (front : List MuxerRx) (key : ConnMapKey) (conns : List (ConnMapKey × VsockConnection S))
      (r r' : MuxerRxQ)
      → OnConn key r r'
      → IsTracked front conns r
      → (k : IsTracked front conns r') × (r'.synced ≡ true → Queued key k.rest)
  conn-IsTracked front key conns r _ (queued s lt) k = (
    record {
      rest = k.rest ++ conn_rx key ∷ [];
      parts =
          ap (λ (t : List MuxerRx). t ++ conn_rx key ∷ []) k.parts
          ∙ append_assoc front k.rest (conn_rx key ∷ []);
      bounded = omega (arith, lt, length-append-conn r.q (conn_rx key));
      few = k.few;
      sound = k.sound;
      tracked = λ t i d h p. Queued-append i k.rest (conn_rx key ∷ []) (inl (k.tracked t i d h p));
    },
    λ t. Queued-append key k.rest (conn_rx key ∷ []) (inr (inl refl)),
  )
  conn-IsTracked front key conns r _ dropped k = (
    record {
      rest = k.rest;
      parts = k.parts;
      bounded = k.bounded;
      few = k.few;
      sound = k.sound;
      tracked = λ t. absurd (true≢false (sym t));
    },
    λ t. absurd (true≢false (sym t)),
  )

  pub rst-IsTracked :
      (l p : ℕ) (conns : List (ConnMapKey × VsockConnection S)) (r : MuxerRxQ)
      → IsTracked [] conns r
      → IsTracked [] conns (RxQ.push (rst_pkt l p) r).1
  rst-IsTracked l p conns r k =
      let o = RxQ.push (rst_pkt l p) r in
      let pushed = push-IsPushed (rst_pkt l p) r k.bounded in
      record {
        rest = o.1.q;
        parts = refl;
        bounded = pushed.bounded;
        few = k.few;
        sound = k.sound;
        tracked = λ t i d h f. elim (pushed.kept t) [
          | inl e ↦
              subst (λ (x : Bool × MuxerRxQ). Queued i x.1.q) (sym e)
                (Queued-append i r.q (rst_pkt l p ∷ []) (
                  inl (
                    subst (Queued i) (sym k.parts) (
                      k.tracked (subst (λ (x : Bool × MuxerRxQ). x.1.synced ≡ true) e t) i d h f))))
          | inr (e, g) ↦
              subst (λ (x : Bool × MuxerRxQ). Queued i x.1.q) (sym e)
                (subst (Queued i) (sym k.parts)
                  (k.tracked (subst (λ (x : Bool × MuxerRxQ). x.1.synced ≡ true) e t) i d h f))
        ];
      }

  -- The key at the head of the queue may go where its connection has nothing pending.
  pub head-IsTracked :
      (key : ConnMapKey) (xs : List MuxerRx) (conns : List (ConnMapKey × VsockConnection S))
      (r : MuxerRxQ)
      → r.q ≡ conn_rx key ∷ xs
      → ((c : VsockConnection S) → get key conns ≡ some c → has_pending_rx c ≡ false)
      → IsTracked [] conns r
      → IsTracked (conn_rx key ∷ []) conns r
  head-IsTracked key xs conns r e quiet k = record {
    rest = xs;
    parts = e;
    bounded = k.bounded;
    few = k.few;
    sound = k.sound;
    tracked = λ t i d h f. elim (subst (Queued i) (sym k.parts ∙ e) (k.tracked t i d h f)) [
      | inl same ↦
          absurd (true≢false (sym f ∙ quiet d (subst (λ j. get j conns ≡ some d) (sym same) h)))
      | inr q ↦ q
    ];
  }

  pub tail-IsTracked :
      (x : MuxerRx) (conns : List (ConnMapKey × VsockConnection S)) (r : MuxerRxQ)
      → IsTracked (x ∷ []) conns r
      → IsTracked [] conns (pop r).1
  tail-IsTracked x conns r k =
      subst (IsTracked [] conns) (sym (pop-tail r x k.rest k.parts)) (record {
        rest = k.rest;
        parts = refl;
        bounded = omega (arith, k.bounded, ap length k.parts);
        few = k.few;
        sound = k.sound;
        tracked = k.tracked;
      })

  -- A reset at the head of the queue.
  pub reset-IsTracked :
      (l p : ℕ) (xs : List MuxerRx) (conns : List (ConnMapKey × VsockConnection S)) (r : MuxerRxQ)
      → r.q ≡ rst_pkt l p ∷ xs
      → IsTracked [] conns r
      → IsTracked (rst_pkt l p ∷ []) conns r
  reset-IsTracked l p xs conns r e k = record {
    rest = xs;
    parts = e;
    bounded = k.bounded;
    few = k.few;
    sound = k.sound;
    tracked = λ t i d h f. subst (Queued i) (sym k.parts ∙ e) (k.tracked t i d h f);
  }

  walk-Queued :
      (key : ConnMapKey) (c : VsockConnection S) (conns : List (ConnMapKey × VsockConnection S))
      → get key conns ≡ some c
      → has_pending_rx c ≡ true
      → Queued key (pending (rx_walk conns))
  unfolding get rx_walk
  walk-Queued key c [] h f = absurd (none-ne-some c h)
  walk-Queued key c ((j, d) ∷ conns) h f = elim (Bool-cases (same_key j key)) [
    | inl t ↦
        let e : has_pending_rx d ≡ true =
          subst (λ (x : VsockConnection S). has_pending_rx x ≡ true) (sym (some_inj (rw t at h)))
            f in
        rw e (inl ((same_key_iff j key).0 t))
    | inr t ↦ later (has_pending_rx d) (walk-Queued key c conns (rw t at h) f)
  ]
    where
      later :
          (b : Bool)
          → Queued key (pending (rx_walk conns))
          → Queued key (pending ((j, b) ∷ rx_walk conns))
      later true h = inr h
      later false h = h

  pub built-IsTracked :
      (conns : List (ConnMapKey × VsockConnection S)) (r : MuxerRxQ)
      → IsTracked [] conns r
      → IsTracked [] conns (from_conn_map (rx_walk conns))
  built-IsTracked conns r k =
      let b = from_conn_map-IsBuilt (rx_walk conns) in
      record {
        rest = (from_conn_map (rx_walk conns)).q;
        parts = refl;
        bounded = omega (arith, b.bounded);
        few = k.few;
        sound = k.sound;
        tracked = λ t i d h f. subst (Queued i) (sym (b.all_of_them t)) (walk-Queued i d conns h f);
      }
