-- ===== src/Vsock/Muxer/Reach.antt =====
-- `VsockMuxer`, src/devices/src/virtio/vsock/unix/muxer.rs: what holds of it at all times.
use mathlib.Core.Bool.{true≢false}
use mathlib.Core.Path.{subst}
use firecracker.Base.{
  ℕ, ◌≡◌, refl, sym, ◌∙◌, true, false, not, Option, none, some, List, [], ◌∷◌, Bool-cases, inl, inr,
  arith,
}
use firecracker.Base.Maps.{get}
use firecracker.Vsock.RxQ.{ConnMapKey, MuxerRx}
use firecracker.Vsock.Packet.{VsockPacket, GuestRegions, Source}
use firecracker.Vsock.Connection.{VsockConnection, has_pending_rx}
use firecracker.Vsock.Muxer.{Host, VsockMuxer, key_eq, new, muxer_has_pending_rx}
use firecracker.Vsock.Muxer.Channel.{Delivery, send_pkt, recv_pkt}
use firecracker.Vsock.Muxer.Events.{notify}
use firecracker.Vsock.Muxer.Queued.{Queued}
use firecracker.Vsock.Muxer.Kept.{Tracks}
use firecracker.Vsock.Muxer.Sweeps.{Leaves}
use firecracker.Vsock.Muxer.Upkeep.{new-Tracks, send_pkt-Leaves}
use firecracker.Vsock.Muxer.Noticed.{OnEvent, notify-OnEvent}
use firecracker.Vsock.Muxer.Receive.{Returns}
use firecracker.Vsock.Muxer.Loop.{recv_pkt-Returns}

module _ {S W M R : Type 0} (io : Host S W) (source : Source S) (gr : GuestRegions M R) where
  -- The muxers that calls lead to from a new one, at any times and with any packets.
  pub data Reached : VsockMuxer S W → Type 0 where
    started : (cid fd : ℕ) (w : W) → Reached (new io cid fd w).1
    sent :
        {mx mx' : VsockMuxer S W} (now : ℕ) (pkt : VsockPacket) (m : M)
        → Reached mx
        → send_pkt io gr now pkt m mx ≡ some mx'
        → Reached mx'
    received :
        {mx : VsockMuxer S W} {d : Delivery S W M} (now : ℕ) (pkt : VsockPacket) (m : M)
        → Reached mx
        → recv_pkt io source gr now pkt m mx ≡ some d
        → Reached d.muxer
    noticed :
        {mx mx' : VsockMuxer S W} (now : ℕ) → Reached mx → notify io now mx ≡ some mx' → Reached mx'

  -- At all times the RX queue has at most 256 items, there are at most 1,023 connections, and where
  -- the queue is synchronized it has the key of each connection with something pending.
  pub Reached-Tracks : (mx : VsockMuxer S W) → Reached mx → Tracks [] mx
  Reached-Tracks _ (started cid fd w) = new-Tracks io cid fd w
  Reached-Tracks _ (sent {mx} now pkt m before e) =
      subst Leaves e (send_pkt-Leaves io now gr pkt m mx (Reached-Tracks mx before))
  Reached-Tracks _ (received {mx} now pkt m before e) =
      subst Returns e (recv_pkt-Returns io source gr now pkt m mx (Reached-Tracks mx before))
  Reached-Tracks _ (noticed {mx} now before e) =
      subst OnEvent e (notify-OnEvent io now mx (Reached-Tracks mx before))

  -- At all times, where the muxer says that it has nothing for the guest, no connection has anything.
  pub no_rx_forgotten :
      (mx : VsockMuxer S W) (key : ConnMapKey) (c : VsockConnection S)
      → Reached mx
      → muxer_has_pending_rx mx ≡ false
      → get key mx.conn_map ≡ some c
      → has_pending_rx c ≡ false
  unfolding muxer_has_pending_rx
  no_rx_forgotten mx key c reached idle at = elim (Bool-cases (has_pending_rx c)) [
    | inl p ↦ absurd (go mx.rxq.q refl idle p)
    | inr p ↦ p
  ]
    where
      k : Tracks [] mx
      k = Reached-Tracks mx reached

      go :
          (q : List MuxerRx)
          → mx.rxq.q ≡ q
          → elim q [ [] ↦ not mx.rxq.synced | x ∷ xs ↦ true ] ≡ false
          → has_pending_rx c ≡ true
          → ⊥
      go [] e t p = subst (Queued key) (sym k.parts ∙ e) (k.tracked (ground (arith, t)) key c at p)
      go (x ∷ xs) e t p = true≢false t

  -- At all times `send_pkt` and `recv_pkt` return: the loops in them end.
  pub calls_return :
      (mx : VsockMuxer S W) (now : ℕ) (pkt : VsockPacket) (m : M)
      → Reached mx
      → ((mx' : VsockMuxer S W) × (send_pkt io gr now pkt m mx ≡ some mx'))
        × ((d : Delivery S W M) × (recv_pkt io source gr now pkt m mx ≡ some d))
  calls_return mx now pkt m reached = (
    left (send_pkt io gr now pkt m mx)
        (send_pkt-Leaves io now gr pkt m mx (Reached-Tracks mx reached)),
    returned (recv_pkt io source gr now pkt m mx)
        (recv_pkt-Returns io source gr now pkt m mx (Reached-Tracks mx reached)),
  )
    where
      left : (o : Option (VsockMuxer S W)) → Leaves o → (mx' : VsockMuxer S W) × (o ≡ some mx')
      left none h = absurd h
      left (some mx') h = (mx', refl)

      returned : (o : Option (Delivery S W M)) → Returns o → (d : Delivery S W M) × (o ≡ some d)
      returned none h = absurd h
      returned (some d) h = (d, refl)
