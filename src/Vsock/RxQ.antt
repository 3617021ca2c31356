-- ===== src/Vsock/RxQ.antt =====
-- `MuxerRxQ`, src/devices/src/virtio/vsock/unix/muxer_rxq.rs.
use mathlib.Core.Bool.{true≢false}
use firecracker.Base.{
  ℕ, ◌+◌, ◌≤◌, ◌<◌, ◌≡◌, ◌⊎◌, inl, inr, refl, ap, sym, ◌∙◌, suc, Bool, true, false, not, ◌&&◌,
  Option, none, some, List, [], ◌∷◌, ◌++◌, length, leb, ◌==◌, if◌then◌else◌, arith, if-split,
}

pub record ConnMapKey : Type 0 where
  pub local_port : ℕ
  pub peer_port : ℕ

pub data MuxerRx : Type 0 where
  conn_rx : ConnMapKey → MuxerRx
  rst_pkt : ℕ → ℕ → MuxerRx

pub record MuxerRxQ : Type 0 where
  pub q : List MuxerRx
  pub synced : Bool

-- `MUXER_RXQ_SIZE`.
abbrev pub size : ℕ
size = 256

unfoldable pub new : MuxerRxQ
new = record { q = []; synced = true }

-- The connections in the order in which the map is walked, each with `has_pending_rx`; the queue
-- built so far has `k` items and is followed by what the walk still adds.
unfoldable pub from_conns : ℕ → List (ConnMapKey × Bool) → MuxerRxQ
from_conns k [] = record { q = []; synced = true }
from_conns k ((key, false) ∷ conns) = from_conns k conns
from_conns k ((key, true) ∷ conns) =
    let rest = from_conns (k + 1) conns in
    if leb size k
    then record { q = []; synced = false }
    else record rest { q = conn_rx key ∷ rest.q }

unfoldable pub from_conn_map : List (ConnMapKey × Bool) → MuxerRxQ
from_conn_map conns = from_conns 0 conns

unfoldable pub is_full : MuxerRxQ → Bool
is_full r = length r.q == size

abbrev pub is_conn : MuxerRx → Bool
is_conn (conn_rx key) = true
is_conn (rst_pkt local_port peer_port) = false

-- The last connection key of the queue, if there is one, gives way to `rx`.
unfoldable pub evict : MuxerRx → List MuxerRx → Option (List MuxerRx)
evict rx [] = none
evict rx (x ∷ xs) =
    let rest = evict rx xs in
    elim rest [ some ys ↦ some (x ∷ ys) | none ↦ if is_conn x then some (rx ∷ xs) else none ]

unfoldable pub evicted : MuxerRxQ → Option (List MuxerRx) → Bool × MuxerRxQ
evicted r none = (false, r)
evicted r (some xs) = (true, record { q = xs; synced = false })

unfoldable pub push_over : MuxerRx → MuxerRxQ → Bool × MuxerRxQ
push_over (conn_rx key) r = (false, record r { synced = false })
push_over (rst_pkt local_port peer_port) r = evicted r (evict (rst_pkt local_port peer_port) r.q)

unfoldable pub push : MuxerRx → MuxerRxQ → Bool × MuxerRxQ
push rx r =
    if r.synced && not (is_full r) then (true, record r { q = r.q ++ rx ∷ [] }) else push_over rx r

unfoldable pub pop : MuxerRxQ → Option MuxerRx × MuxerRxQ
pop r = pop_of r.q
  where
    pop_of : List MuxerRx → Option MuxerRx × MuxerRxQ
    pop_of [] = (none, r)
    pop_of (x ∷ xs) = (some x, record r { q = xs })

-- How many RST packets wait.
abbrev pub rst_count : List MuxerRx → ℕ
rst_count [] = 0
rst_count (conn_rx key ∷ xs) = rst_count xs
rst_count (rst_pkt l p ∷ xs) = 1 + rst_count xs

-- The RST packets that wait, each with a weight: where all weights agree, so do the packets and how
-- often each of them is there.
abbrev pub Weight : Type 0
Weight = ℕ → ℕ → ℕ

abbrev pub weight : Weight → List MuxerRx → ℕ
weight f [] = 0
weight f (conn_rx key ∷ xs) = weight f xs
weight f (rst_pkt l p ∷ xs) = f l p + weight f xs

abbrev pub gained : Weight → Bool → MuxerRx → ℕ
gained f true (rst_pkt l p) = f l p
gained f true (conn_rx key) = 0
gained f false rx = 0

-- Whether the queue is synchronized and not full.
abbrev pub has_room : MuxerRxQ → Bool
has_room r = r.synced && not (length r.q == size)

-- What a push does to a queue within its size.
pub record IsPushed (rx : MuxerRx) (r : MuxerRxQ) (o : Bool × MuxerRxQ) : Type 0 where
  pub bounded : length o.1.q ≤ size
  pub put : has_room r ≡ true → o ≡ (true, record r { q = r.q ++ rx ∷ [] })
  pub rsts : (f : Weight) → weight f o.1.q ≡ weight f r.q + gained f o.0 rx
  pub refused_rst : is_conn rx ≡ false → o.0 ≡ false → (rst_count r.q ≡ length r.q) × (o.1 ≡ r)
  pub refused_key :
      is_conn rx ≡ true → has_room r ≡ false → o ≡ (false, record r { synced = false })
  pub kept :
      o.1.synced ≡ true
      → (o ≡ (true, record r { q = r.q ++ rx ∷ [] })) ⊎ ((o ≡ (false, r)) × (is_conn rx ≡ false))

weight-append :
    (f : Weight) (xs : List MuxerRx) (rx : MuxerRx)
    → weight f (xs ++ rx ∷ []) ≡ weight f xs + gained f true rx
weight-append f [] (conn_rx key) = refl
weight-append f [] (rst_pkt l p) = omega arith
weight-append f (conn_rx key ∷ xs) rx = weight-append f xs rx
weight-append f (rst_pkt l p ∷ xs) rx = ap (λ n. f l p + n) (weight-append f xs rx) ∙ omega arith

length-append-one : (xs : List MuxerRx) (rx : MuxerRx) → length (xs ++ rx ∷ []) ≡ length xs + 1
length-append-one [] rx = refl
length-append-one (x ∷ xs) rx = ap suc (length-append-one xs rx) ∙ omega arith

-- What an eviction gives: the RST in as many places, or there are RSTs only.
abbrev OnEvict : ℕ → ℕ → List MuxerRx → Option (List MuxerRx) → Type 0
OnEvict l p xs none = rst_count xs ≡ length xs
OnEvict l p xs (some ys) =
    (length ys ≡ length xs) × ((f : Weight) → weight f ys ≡ weight f xs + f l p)

evict_lem : (l p : ℕ) (xs : List MuxerRx) → OnEvict l p xs (evict (rst_pkt l p) xs)
unfolding evict
evict_lem l p [] = refl
evict_lem l p (x ∷ xs) = step x (evict (rst_pkt l p) xs) (evict_lem l p xs)
  where
    step :
        (x : MuxerRx) (o : Option (List MuxerRx))
        → OnEvict l p xs o
        → OnEvict l p (x ∷ xs) (elim o [
          | some ys ↦ some (x ∷ ys)
          | none ↦ if is_conn x then some (rst_pkt l p ∷ xs) else none
        ])
    step (conn_rx key) none h = (refl, λ f. omega arith)
    step (rst_pkt l' p') none h = ap (λ n. 1 + n) h ∙ omega arith
    step (conn_rx key) (some ys) (e, f) = (ap suc e, f)
    step (rst_pkt l' p') (some ys) (e, w) =
        (ap suc e, λ f. ap (λ n. f l' p' + n) (w f) ∙ omega arith)

evicted-IsPushed :
    (l p : ℕ) (r : MuxerRxQ) (o : Option (List MuxerRx))
    → length r.q ≤ size
    → has_room r ≡ false
    → OnEvict l p r.q o
    → IsPushed (rst_pkt l p) r (evicted r o)
unfolding evicted
evicted-IsPushed l p r none b full h = record {
  bounded = b;
  put = λ t. absurd (true≢false (sym t ∙ full));
  rsts = λ f. omega arith;
  refused_rst = λ _ _. (h, refl);
  refused_key = λ t. absurd (true≢false (sym t));
  kept = λ _. inr (refl, refl);
}
evicted-IsPushed l p r (some xs) b full (e, w) = record {
  bounded = grind (arith, e);
  put = λ t. absurd (true≢false (sym t ∙ full));
  rsts = w;
  refused_rst = λ _ t. absurd (true≢false t);
  refused_key = λ t. absurd (true≢false (sym t));
  kept = λ t. absurd (true≢false (sym t));
}

push_over-IsPushed :
    (rx : MuxerRx) (r : MuxerRxQ)
    → length r.q ≤ size
    → has_room r ≡ false
    → IsPushed rx r (push_over rx r)
unfolding push_over
push_over-IsPushed (conn_rx key) r b full = record {
  bounded = b;
  put = λ t. absurd (true≢false (sym t ∙ full));
  rsts = λ f. omega arith;
  refused_rst = λ t. absurd (true≢false t);
  refused_key = λ _ _. refl;
  kept = λ t. absurd (true≢false (sym t));
}
push_over-IsPushed (rst_pkt l p) r b full = evicted-IsPushed l p r _ b full (evict_lem l p r.q)

-- A push to a queue within its size keeps it so. A queue that is synchronized and not full has the
-- item put at its end. Otherwise a connection key is refused and the queue goes out of sync, and an
-- RST is refused, with nothing changed, only where the queue holds RSTs alone, however few. The RSTs
-- in the queue are those before, each as often, and the one that was accepted. Where the queue is
-- still synchronized after it, the item was put at the end or was an RST that was refused.
pub push-IsPushed : (rx : MuxerRx) (r : MuxerRxQ) → length r.q ≤ size → IsPushed rx r (push rx r)
unfolding push is_full
push-IsPushed rx r b =
    if-split (IsPushed rx r) (r.synced && not (length r.q == size))
      (λ t. record {
        bounded = grind (arith, length-append-one r.q rx);
        put = λ _. refl;
        rsts = λ f. weight-append f r.q rx;
        refused_rst = λ _ e. absurd (true≢false e);
        refused_key = λ _ e. absurd (true≢false (sym t ∙ e));
        kept = λ _. inl refl;
      })
      (λ t. push_over-IsPushed rx r b t)

rst_count-le : (xs : List MuxerRx) → rst_count xs ≤ length xs
rst_count-le [] = omega arith
rst_count-le (conn_rx key ∷ xs) = grind (arith, rst_count-le xs)
rst_count-le (rst_pkt l p ∷ xs) = grind (arith, rst_count-le xs)

evict-none : (rx : MuxerRx) (xs : List MuxerRx) → rst_count xs ≡ length xs → evict rx xs ≡ none
unfolding evict
evict-none rx [] e = refl
evict-none rx (conn_rx key ∷ xs) e = grind (arith, rst_count-le xs)
evict-none rx (rst_pkt l p ∷ xs) e = rw (evict-none rx xs (omega arith)) refl

-- An out-of-sync queue that holds RSTs only refuses another RST however much room it has.
pub push-refused :
    (l p : ℕ) (r : MuxerRxQ)
    → r.synced ≡ false
    → rst_count r.q ≡ length r.q
    → push (rst_pkt l p) r ≡ (false, r)
unfolding push push_over evicted
push-refused l p r s e = simp (s, evict-none (rst_pkt l p) r.q e)

-- The keys of the connections with something pending, in their order.
abbrev pub pending : List (ConnMapKey × Bool) → List MuxerRx
pending [] = []
pending ((key, true) ∷ conns) = conn_rx key ∷ pending conns
pending ((key, false) ∷ conns) = pending conns

pub record IsBuilt (k : ℕ) (conns : List (ConnMapKey × Bool)) (r : MuxerRxQ) : Type 0 where
  pub all_of_them : r.synced ≡ true → r.q ≡ pending conns
  pub filled : r.synced ≡ false → (length r.q + k ≡ size) × (length r.q < length (pending conns))
  pub bounded : length r.q + k ≤ size

from_conns-IsBuilt :
    (k : ℕ) (conns : List (ConnMapKey × Bool)) → k ≤ size → IsBuilt k conns (from_conns k conns)
unfolding from_conns
from_conns-IsBuilt k [] le = record {
  all_of_them = λ _. refl;
  filled = λ t. absurd (true≢false t);
  bounded = omega arith;
}
from_conns-IsBuilt k ((key, false) ∷ conns) le =
    let b = from_conns-IsBuilt k conns le in
    record { all_of_them = b.all_of_them; filled = b.filled; bounded = b.bounded }
from_conns-IsBuilt k ((key, true) ∷ conns) le =
    if-split (IsBuilt k ((key, true) ∷ conns)) (leb size k)
      (λ t. record {
        all_of_them = λ f. absurd (true≢false (sym f));
        filled = λ _. (ground arith, ground arith);
        bounded = omega arith;
      })
      (λ t.
        let b = from_conns-IsBuilt (k + 1) conns (ground arith) in
        record {
          all_of_them = λ f. ap (λ xs. conn_rx key ∷ xs) (b.all_of_them f);
          filled = λ f. (omega (arith, (b.filled f).0), omega (arith, (b.filled f).1));
          bounded = omega (arith, b.bounded);
        })

-- A queue built from the connections is within its size. Synchronized, it has the key of every
-- connection with something pending, in the order of the walk; otherwise it is full, and there are
-- more such connections than it holds.
pub from_conn_map-IsBuilt :
    (conns : List (ConnMapKey × Bool)) → IsBuilt 0 conns (from_conn_map conns)
unfolding from_conn_map
from_conn_map-IsBuilt conns = from_conns-IsBuilt 0 conns (omega arith)
