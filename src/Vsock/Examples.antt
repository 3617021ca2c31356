-- ===== src/Vsock/Examples.antt =====
-- Tests of the parts of vsock, and their theorems at concrete inputs.
use firecracker.Base.{
  ℕ, ◌≡◌, refl, ap, sym, ◌∙◌, true, false, some, List, [], ◌∷◌, ◌++◌, length, take, min, replicate,
  arith, length-replicate, ok, ok-inj, ok≢err,
}
use firecracker.Vsock.RxQ.{
  ConnMapKey, conn_rx, rst_pkt, MuxerRxQ, push, evict, evicted, push_over, from_conn_map,
  from_conns, IsPushed, push-IsPushed,
}
use firecracker.Vsock.TxBuf.{TxBuf, size, Sink}
use firecracker.Vsock.TxBuf
use firecracker.Vsock.TxBuf.Refines.{IsValid, OnPush, push-OnPush}
use firecracker.Vsock.TxBuf.Flush.{IsSink, OnFlush, flush_to-OnFlush}

abbrev key : ConnMapKey
key = record { local_port = 1_025; peer_port = 52 }

-- Three items of a queue that is out of sync.
abbrev desynced : MuxerRxQ
desynced = record { q = rst_pkt 1 2 ∷ conn_rx key ∷ rst_pkt 3 4 ∷ []; synced = false }

push_test :
    push (rst_pkt 5 6) desynced
    ≡ (true, record { q = rst_pkt 1 2 ∷ rst_pkt 5 6 ∷ rst_pkt 3 4 ∷ []; synced = false })
unfolding push push_over evicted evict
push_test = refl

push-IsPushed_example : IsPushed (rst_pkt 5 6) desynced (push (rst_pkt 5 6) desynced)
push-IsPushed_example = push-IsPushed (rst_pkt 5 6) desynced (omega arith)

from_conn_map_test :
    from_conn_map ((key, true) ∷ (key, false) ∷ []) ≡ record { q = conn_rx key ∷ []; synced = true }
unfolding from_conn_map from_conns
from_conn_map_test = refl

-- Six bytes that wrap around, at the end of the counters.
abbrev wrapped : TxBuf
wrapped = record { data_of = some (replicate size 7); head = 4; tail = 4_294_967_294 }

wrapped-IsValid : IsValid wrapped
wrapped-IsValid = record {
  head_bound = omega arith;
  tail_bound = omega arith;
  len_bound = omega arith;
  sized = length-replicate {A = ℕ} size 7;
}

push-OnPush_example : OnPush wrapped (1 ∷ 2 ∷ []) (TxBuf.push (1 ∷ 2 ∷ []) wrapped)
push-OnPush_example = push-OnPush wrapped (1 ∷ 2 ∷ []) wrapped-IsValid

-- A sink that takes three bytes at a time.
abbrev slow : Sink (List ℕ)
slow = record { write = λ w xs. (ok (min 3 (length xs)), w ++ take (min 3 (length xs)) xs) }

slow-IsSink : IsSink slow (λ w. w)
slow-IsSink = record {
  wrote = λ {w} {w'} {xs} {n} e.
      let same : min 3 (length xs) ≡ n = ok-inj (ap (λ p. p.0) e) in
      (omega arith, sym (ap (λ p. p.1) e) ∙ ap (λ (k : ℕ). w ++ take k xs) same);
  failed = λ e. absurd (ok≢err (ap (λ p. p.0) e));
}

flush_to-OnFlush_example :
    OnFlush (λ w. w) wrapped (9 ∷ []) (TxBuf.flush_to slow 3 wrapped (9 ∷ []))
flush_to-OnFlush_example =
    flush_to-OnFlush slow (λ w. w) slow-IsSink wrapped (9 ∷ []) wrapped-IsValid
