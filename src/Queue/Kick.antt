-- ===== src/Queue/Kick.antt =====
-- `Queue::prepare_kick` of src/devices/src/virtio/queue.rs, against the rule for notifications.
use firecracker.Base.{ℕ, ◌+◌, ◌-◌, ◌^◌, ◌<◌, ◌≡◌, Bool, true, arith, u16, sub16, ltb→lt}
use firecracker.Queue.Memory.{GuestMemory}
use firecracker.Queue.Rings.{Queue, returns, needs_kick, and_then, used_event, prepare_kick}

-- The driver asked for a notification at one of the entries put into the used ring since the last
-- kick: `used_event` is the number of the `k`-th of them.
abbrev pub Crosses : Queue → ℕ → Type 0
Crosses q event = (k : ℕ) × ((k < q.num_added) × (event ≡ u16 (sub16 q.next_used q.num_added + k)))

needs_kick-Crosses :
    (q : Queue) (event : ℕ)
    → q.next_used < 2 ^ 16
    → q.num_added < 2 ^ 16
    → event < 2 ^ 16
    → (needs_kick q event ≡ true → Crosses q event) × (Crosses q event → needs_kick q event ≡ true)
unfolding needs_kick
needs_kick-Crosses q event hu ha he = (
  (λ t.
      let lt = ltb→lt _ _ t in
      (q.num_added - 1 - sub16 (sub16 q.next_used event) 1, (omega arith, omega arith))),
  (λ (k, (hk, e)). ground arith),
)

-- With notification suppression and a readable `used_event`, `prepare_kick` returns whether the
-- driver's value is among the entries added since the last kick, whatever the wrap-around of the
-- counters, which are 16 bits wide; and it starts a new count.
pub prepare_kick-Crosses :
    {M : Type 0} (gm : GuestMemory M) (q : Queue) (m : M) (event : ℕ)
    → q.uses_notif_suppression ≡ true
    → used_event gm q m ≡ returns event
    → q.next_used < 2 ^ 16
    → q.num_added < 2 ^ 16
    → event < 2 ^ 16
    → (b : Bool) × ((prepare_kick gm q m ≡ returns (b, record q { num_added = 0 }))
        × ((b ≡ true → Crosses q event) × (Crosses q event → b ≡ true)))
unfolding prepare_kick and_then
prepare_kick-Crosses gm q m event on read hu ha he =
    (needs_kick q event, (simp (on, read), needs_kick-Crosses q event hu ha he))
