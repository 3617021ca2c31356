-- ===== src/Vsock/Muxer/Queued.antt =====
-- The keys of the RX queue of `VsockMuxer`, src/devices/src/virtio/vsock/unix/muxer.rs.
use firecracker.Base.{
  ◌+◌, ◌≤◌, ◌<◌, ◌≡◌, ◌⊎◌, inl, inr, refl, ap, Bool, true, false, not, ◌&&◌, List, [], ◌∷◌, ◌++◌,
  length, ◌==◌, if-split, arith,
}
use firecracker.Vsock.RxQ.{
  ConnMapKey, MuxerRx, conn_rx, rst_pkt, MuxerRxQ, is_full, push_over, push-IsPushed, pending,
  from_conn_map, from_conn_map-IsBuilt, pop,
}
use firecracker.Vsock.RxQ
use firecracker.Vsock.Muxer.{key_eq}

abbrev pub Queued : ConnMapKey → List MuxerRx → Type 0
Queued key [] = ⊥
Queued key (conn_rx k ∷ xs) = (k ≡ key) ⊎ Queued key xs
Queued key (rst_pkt l p ∷ xs) = Queued key xs

pub Queued-append :
    (key : ConnMapKey) (xs ys : List MuxerRx)
    → Queued key xs ⊎ Queued key ys
    → Queued key (xs ++ ys)
Queued-append key [] ys (inl h) = elim h [ ]
Queued-append key [] ys (inr h) = h
Queued-append key (conn_rx k ∷ xs) ys (inl (inl e)) = inl e
Queued-append key (conn_rx k ∷ xs) ys (inl (inr h)) = inr (Queued-append key xs ys (inl h))
Queued-append key (conn_rx k ∷ xs) ys (inr h) = inr (Queued-append key xs ys (inr h))
Queued-append key (rst_pkt l p ∷ xs) ys h = Queued-append key xs ys h

pub Queued-split :
    (key : ConnMapKey) (xs ys : List MuxerRx)
    → Queued key (xs ++ ys)
    → Queued key xs ⊎ Queued key ys
Queued-split key [] ys h = inr h
Queued-split key (conn_rx k ∷ xs) ys (inl e) = inl (inl e)
Queued-split key (conn_rx k ∷ xs) ys (inr h) = elim (Queued-split key xs ys h) [
  | inl a ↦ inl (inr a)
  | inr b ↦ inr b
]
Queued-split key (rst_pkt l p ∷ xs) ys h = Queued-split key xs ys h

pub length-append-conn : (xs : List MuxerRx) (x : MuxerRx) → length (xs ++ x ∷ []) ≡ length xs + 1
length-append-conn [] x = refl
length-append-conn (y ∷ xs) x = omega (arith, length-append-conn xs x)

pub append_assoc : (xs ys zs : List MuxerRx) → (xs ++ ys) ++ zs ≡ xs ++ (ys ++ zs)
append_assoc [] ys zs = refl
append_assoc (x ∷ xs) ys zs = ap (λ t. x ∷ t) (append_assoc xs ys zs)

-- What a push of a connection's key does.
pub data OnConn (key : ConnMapKey) (r : MuxerRxQ) : MuxerRxQ → Type 0 where
  queued :
      r.synced ≡ true
      → length r.q < RxQ.size
      → OnConn key r (record r { q = r.q ++ conn_rx key ∷ [] })
  dropped : OnConn key r (record r { synced = false })

pub push-OnConn :
    (key : ConnMapKey) (r : MuxerRxQ)
    → length r.q ≤ RxQ.size
    → OnConn key r (RxQ.push (conn_rx key) r).1
unfolding RxQ.push push_over is_full
push-OnConn key r b =
    if-split (λ (o : Bool × MuxerRxQ). OnConn key r o.1) (r.synced && not (length r.q == RxQ.size))
      (λ t. queued (ground arith) (ground arith)) (λ t. dropped)

pub pop-tail :
    (r : MuxerRxQ) (x : MuxerRx) (xs : List MuxerRx)
    → r.q ≡ x ∷ xs
    → (pop r).1 ≡ record r { q = xs }
unfolding pop
pop-tail r x xs e = rw e refl
