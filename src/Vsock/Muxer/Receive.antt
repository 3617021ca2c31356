-- ===== src/Vsock/Muxer/Receive.antt =====
-- `VsockMuxer::recv_pkt`, src/devices/src/virtio/vsock/unix/muxer.rs: its loop ends.
use mathlib.Core.Bool.{true≢false}
use mathlib.Core.Path.{subst}
use firecracker.Base.{
  ℕ, ◌≤◌, ◌≡◌, inl, inr, refl, ap, sym, ◌∙◌, false, not, Option, none, some, List, [], ◌∷◌, ◌++◌,
  length, if◌then◌else◌, if-split, arith,
}
use firecracker.Base.Maps.{nat_eq, get, insert, length-insert_again}
use firecracker.Vsock.PendingRx.{rst, contains}
use firecracker.Vsock.RxQ.{ConnMapKey, MuxerRx, conn_rx, MuxerRxQ}
use firecracker.Vsock.Packet.{GuestRegions, Source}
use firecracker.Vsock.Connection.{VsockConnection, has_pending_rx}
use firecracker.Vsock.Connection.Recv
use firecracker.Vsock.Muxer.{key_eq, Host, VsockMuxer, max_connections}
use firecracker.Vsock.Muxer.Mutation.{settle, acked}
use firecracker.Vsock.Muxer.Channel.{Delivery, pop_rx}
use firecracker.Vsock.Muxer.Heard.{IsHeard}
use firecracker.Vsock.Muxer.Queued.{Queued, pop-tail}
use firecracker.Vsock.Muxer.Tracked.{
  IsTracked, some_inj, get-insert_same, insert-IsTracked, head-IsTracked, tail-IsTracked,
}
use firecracker.Vsock.Muxer.Kept.{Holds, Tracks, kill_connection-Tracks, settle-Tracks}
use firecracker.Vsock.Muxer.Turns.{
  settle_quiet-Holds, acked-same, Resets, IsBehind, insert-Resets, kill_connection-IsBehind,
}

unfoldable pub tail_of : List MuxerRx → List MuxerRx
tail_of [] = []
tail_of (x ∷ xs) = xs

module _ {S W : Type 0} where
  -- The queue starts with `first`; behind it are only connections that will yield a reset.
  pub record IsTurn (first : List MuxerRx) (mx : VsockMuxer S W) : Type 0 where
    pub kept : Tracks [] mx
    pub later : List MuxerRx
    pub parts : mx.rxq.q ≡ first ++ later
    pub yields : (i : ConnMapKey) → Queued i later → Resets i mx.conn_map

  -- The head of the queue is one of the first, or will yield.
  pub head_first :
      (key : ConnMapKey) (xs first : List MuxerRx) (mx : VsockMuxer S W)
      → (t : IsTurn first mx) → mx.rxq.q ≡ conn_rx key ∷ xs
      → (Resets key mx.conn_map → ⊥)
      → (x : MuxerRx) × ((first' : List MuxerRx) × ((first ≡ x ∷ first')
            × (xs ≡ first' ++ t.later)))
  unfolding tail_of
  head_first key xs [] mx t e n =
      absurd (n (t.yields key (subst (Queued key) (sym e ∙ t.parts) (inl refl))))
  head_first key xs (x ∷ first') mx t e n = (x, (first', (refl, ap tail_of (sym e ∙ t.parts))))

  pub popped-IsTurn :
      (key : ConnMapKey) (first : List MuxerRx) (mx : VsockMuxer S W)
      → Tracks (conn_rx key ∷ []) mx
      → (later : List MuxerRx) → mx.rxq.q ≡ conn_rx key ∷ (first ++ later)
      → ((i : ConnMapKey) → Queued i later → Resets i mx.conn_map)
      → IsTurn first (pop_rx mx)
  unfolding pop_rx
  popped-IsTurn key first mx k later e y = record {
    kept = tail-IsTracked (conn_rx key) mx.conn_map mx.rxq k;
    later = later;
    parts = ap (λ (r : MuxerRxQ). r.q) (pop-tail mx.rxq (conn_rx key) (first ++ later) e);
    yields = y;
  }

  -- The loop has returned.
  abbrev pub Returns : {M : Type 0} → Option (Delivery S W M) → Type 0
  Returns none = ⊥
  Returns (some d) = Tracks [] d.muxer

module _ {S W M R : Type 0} (io : Host S W) (source : Source S) (gr : GuestRegions M R) (now : ℕ)
    (key : ConnMapKey) (c : VsockConnection S) (mx : VsockMuxer S W)
    (at : get key mx.conn_map ≡ some c) (k : Tracks [] mx) (r : Recv.Received S M)
    (h : IsHeard c r) where
  abbrev settled : VsockMuxer S W
  settled = settle io now key c (acked io key c.state r.conn) mx

  quiet-Tracks :
      (xs : List MuxerRx)
      → mx.rxq.q ≡ conn_rx key ∷ xs
      → has_pending_rx r.conn ≡ false
      → Tracks (conn_rx key ∷ []) settled
  quiet-Tracks xs e quiet =
      let few : length (insert key r.conn mx.conn_map) ≤ max_connections =
        omega (arith, k.few, length-insert_again key r.conn c mx.conn_map at) in
      let inserted =
        insert-IsTracked [] key r.conn mx.conn_map mx.rxq k h.sound few
          (λ _ p. absurd (true≢false (sym p ∙ quiet))) in
      subst (λ d. Tracks (conn_rx key ∷ []) (settle io now key c d mx))
        (sym (acked-same io key c r.conn h.waits))
        (settle_quiet-Holds io (IsTracked (conn_rx key ∷ [])) now key c r.conn mx
          (kill_connection-Tracks (conn_rx key ∷ []) key) quiet
          (head-IsTracked key xs (insert key r.conn mx.conn_map) mx.rxq e
            (λ d g.
              subst (λ (x : VsockConnection S). has_pending_rx x ≡ false)
                (some_inj (sym (get-insert_same key r.conn mx.conn_map) ∙ g)) quiet)
            inserted))

  -- The queue after the packet of a connection.
  pub heard-Tracks :
      (xs : List MuxerRx)
      → mx.rxq.q ≡ conn_rx key ∷ xs
      → Tracks [] (if not (has_pending_rx r.conn) then pop_rx settled else settled)
  unfolding pop_rx
  heard-Tracks xs e =
      if-split (Tracks []) (not (has_pending_rx r.conn))
        (λ t.
          tail-IsTracked (conn_rx key) settled.conn_map settled.rxq
            (quiet-Tracks xs e (ground (arith, t))))
        (λ _.
          subst (λ d. Tracks [] (settle io now key c d mx))
            (sym (acked-same io key c r.conn h.waits))
            (settle-Tracks io now [] key c r.conn mx at h.sound k))

  -- Without a packet, the next turn has one item less.
  pub silent-IsTurn :
      (xs first : List MuxerRx)
      → mx.rxq.q ≡ conn_rx key ∷ xs
      → (t : IsTurn first mx) → r.packet ≡ none
      → (x : MuxerRx) × ((first' : List MuxerRx) × ((first ≡ x ∷ first')
            × IsTurn first' (if not (has_pending_rx r.conn) then pop_rx settled else settled)))
  silent-IsTurn xs first e t none_yet =
      let (quiet, no_rst) = h.silent none_yet in
      let never : Resets key mx.conn_map → ⊥ = λ y. true≢false (
        sym y.1.1
        ∙ subst (λ (d : VsockConnection S). contains rst d.pending_rx ≡ false)
            (some_inj (sym at ∙ y.1.0)) no_rst) in
      let (x, (first', (e1, e2))) = head_first key xs first mx t e never in
      let start : IsBehind key first' (insert key r.conn mx.conn_map) mx.rxq = record {
        later = t.later;
        parts = e ∙ ap (λ ys. conn_rx key ∷ ys) e2;
        yields = insert-Resets key first' r.conn mx.conn_map t.later (inr never) t.yields;
        present = (r.conn, get-insert_same key r.conn mx.conn_map);
        bounded = k.bounded;
      } in
      let b : Holds (IsBehind key first') settled =
        subst (λ d. Holds (IsBehind key first') (settle io now key c d mx))
          (sym (acked-same io key c r.conn h.waits))
          (settle_quiet-Holds io (IsBehind key first') now key c r.conn mx
            (kill_connection-IsBehind key first') quiet start) in
      (
        x,
        (
          first',
          (
            e1,
            rw quiet (
                popped-IsTurn key first' settled (quiet-Tracks xs e quiet) b.later b.parts
                  b.yields),
          ),
        ),
      )
