-- ===== src/Vsock/KillQ.antt =====
-- `MuxerKillQ`, src/devices/src/virtio/vsock/unix/muxer_killq.rs. A time is a number, and the current
-- time an argument of the calls that read the clock.
use firecracker.Base.{
  ℕ, ◌+◌, ◌≤◌, ◌<◌, ◌≡◌, ◌⊎◌, inl, inr, refl, Bool, true, false, not, ◌||◌, Option, none, some,
  List, [], ◌∷◌, ◌++◌, length, leb, ltb, ◌==◌, if◌then◌else◌, arith, if-split, ltb→lt, ap, ◌∙◌, sym,
  suc, leb→le,
}
use firecracker.Vsock.RxQ.{ConnMapKey}
pub mod Deadlines

pub record MuxerKillQItem : Type 0 where
  pub key : ConnMapKey
  pub kill_time : ℕ

pub record MuxerKillQ : Type 0 where
  pub q : List MuxerKillQItem
  pub synced : Bool

-- `MUXER_KILLQ_SIZE`.
abbrev pub size : ℕ
size = 128

unfoldable pub new : MuxerKillQ
new = record { q = []; synced = true }

-- The connections in the order in which the map is walked, each with `expiry`, `none` where it will
-- not expire; `k` of them are in the buffer already. The result is the rest of the buffer.
unfoldable pub collect : ℕ → List (ConnMapKey × Option ℕ) → MuxerKillQ
collect k [] = record { q = []; synced = true }
collect k ((key, none) ∷ conns) = collect k conns
collect k ((key, some kill_time) ∷ conns) =
    let rest = collect (k + 1) conns in
    if leb size k
    then record { q = []; synced = false }
    else record rest { q = record { key = key; kill_time = kill_time } ∷ rest.q }

unfoldable pub insert : MuxerKillQItem → List MuxerKillQItem → List MuxerKillQItem
insert x [] = x ∷ []
insert x (y ∷ ys) =
    let rest = insert x ys in if leb x.kill_time y.kill_time then x ∷ y ∷ ys else y ∷ rest

-- `sort_unstable_by_key`: of its possible results the one that keeps the order of equals.
unfoldable pub sort_by_kill_time : List MuxerKillQItem → List MuxerKillQItem
sort_by_kill_time [] = []
sort_by_kill_time (x ∷ xs) = insert x (sort_by_kill_time xs)

unfoldable pub from_conn_map : List (ConnMapKey × Option ℕ) → MuxerKillQ
from_conn_map conns = let found = collect 0 conns in record found { q = sort_by_kill_time found.q }

unfoldable pub is_full : MuxerKillQ → Bool
is_full r = length r.q == size

unfoldable pub push : ConnMapKey → ℕ → MuxerKillQ → MuxerKillQ
push key kill_time r =
    if not r.synced || is_full r
    then record r { synced = false }
    else record r { q = r.q ++ record { key = key; kill_time = kill_time } ∷ [] }

unfoldable pub pop_front : ℕ → MuxerKillQ → List MuxerKillQItem → Option ConnMapKey × MuxerKillQ
pop_front now r [] = (none, r)
pop_front now r (x ∷ xs) =
    if ltb x.kill_time now then (some x.key, record r { q = xs }) else (none, r)

unfoldable pub pop : ℕ → MuxerKillQ → Option ConnMapKey × MuxerKillQ
pop now r = pop_front now r r.q
