-- ===== src/Tcp/Connection/Receive/InOrder.antt =====
-- What `Connection::receive_segment` of src/dumbo/src/tcp/connection.rs hands out, and when.
use firecracker.Base.{
  ℕ, ◌+◌, ◌^◌, ◌<◌, ◌≡◌, ◌⊎◌, inl, inr, refl, Bool, true, false, not, ◌&&◌, ◌||◌, Option, none,
  some, List, [], ◌∷◌, take, drop, ◌==◌, if-keeps, u32, Result, ok, err, arith, take-append,
}
use mathlib.Core.Path.{subst}
use mathlib.Core.Option.{some_inj}
use firecracker.Tcp.Seq.{seq_after, seq_at_or_after}
use firecracker.Tcp.Segment.{TcpSegment, payload_len}
use firecracker.Tcp.Connection.{
  Connection, rst_pending, is_reset, is_established, reset_for_segment,
}
use firecracker.Tcp.Connection.Receive.{
  Received, RecvStatus, reset_for_segment_helper, connection_reset, conn_resetting,
  remote_rwnd_edge, deliver, receive_fin, receive_payload, receive_window, receive_ack, progress,
  receive_rst, after_handshake, handshake, continue, receive_segment, dup_ack, Handshake, repeated,
  resend, invalid, proceed, invalid_ack, RecvError, invalid_fin,
}

-- How many bytes a call returns.
abbrev pub count : Result RecvError (Option ℕ × List RecvStatus) → ℕ
count (ok (some n, _)) = n
count (ok (none, _)) = 0
count (err _) = 0

-- 1 where a FIN has been accepted.
abbrev pub fin_step : Option ℕ → Option ℕ → ℕ
fin_step none (some _) = 1
fin_step _ _ = 0

-- What a call delivers of segment `s`.
pub record IsInOrder (s : TcpSegment) (c : Connection) (out : Received) : Type 0 where
  pub moved :
      out.2.ack_to_send
      ≡ u32 (c.ack_to_send + count out.0 + fin_step c.fin_received out.2.fin_received)
  pub whole :
      (count out.0 ≡ 0)
      ⊎ ((count out.0 ≡ payload_len s)
          × (take (count out.0) out.1 ≡ s.payload)
          × (s.sequence_number ≡ c.ack_to_send))
  pub ended :
      (out.2.fin_received ≡ c.fin_received)
      ⊎ ((c.fin_received ≡ none)
          × (fin_step c.fin_received out.2.fin_received ≡ 1)
          × (s.flags.fin ≡ true)
          × (u32 (s.sequence_number + u32 (payload_len s)) ≡ u32 (c.ack_to_send + count out.0)))

deliver_lem :
    (enqueue_ack : Bool) (s : TcpSegment) (status : List RecvStatus) (buf : List ℕ) (c : Connection)
    → (enqueue_ack ≡ true) ⊎ (payload_len s ≡ 0)
    → let (r, buf', c') = deliver enqueue_ack s status buf c in
      (count r ≡ payload_len s)
      × (take (count r) buf' ≡ s.payload)
      × (c'.ack_to_send ≡ c.ack_to_send)
      × (c'.fin_received ≡ c.fin_received)
unfolding deliver
deliver_lem e s status buf c h = ground (arith, take-append s.payload (drop (payload_len s) buf))

receive_fin-IsInOrder :
    (enqueue_ack : Bool) (s : TcpSegment) (status : List RecvStatus) (buf : List ℕ) (c : Connection)
    → (enqueue_ack ≡ true) ⊎ (payload_len s ≡ 0)
    → let (r, buf', c') = receive_fin enqueue_ack s status buf c in
      (count r ≡ payload_len s)
      × (take (count r) buf' ≡ s.payload)
      × (((c'.ack_to_send ≡ c.ack_to_send) × (c'.fin_received ≡ c.fin_received))
          ⊎ ((c'.ack_to_send ≡ u32 (c.ack_to_send + 1))
              × (c.fin_received ≡ none)
              × (c'.fin_received ≡ some c.ack_to_send)
              × (s.flags.fin ≡ true)
              × (u32 (s.sequence_number + u32 (payload_len s)) ≡ c.ack_to_send)))
unfolding receive_fin
receive_fin-IsInOrder e s status buf c h =
    let fin_seq = u32 (s.sequence_number + u32 (payload_len s)) in
    let d1 =
      deliver_lem true s status buf
        (record c { fin_received = some fin_seq; ack_to_send = u32 (c.ack_to_send + 1) })
        (inl refl) in
    let d2 = deliver_lem e s (invalid_fin ∷ status) buf c h in
    let d3 = deliver_lem e s status buf c h in ground arith

-- The three ways in which the part for the payload treats a segment: it hands out nothing and leaves
-- `ack_to_send` alone, or it goes on to the FIN with no payload or with the next one.
receive_payload-cases :
    (s : TcpSegment) (status : List RecvStatus) (buf : List ℕ) (c : Connection)
    → let out = receive_payload s status buf c in
      ((count out.0 ≡ 0)
        × (out.2.ack_to_send ≡ c.ack_to_send)
        × (out.2.fin_received ≡ c.fin_received))
      ⊎ ((payload_len s ≡ 0) × (out ≡ receive_fin false s status buf c))
      ⊎ ((s.sequence_number ≡ c.ack_to_send)
          × (out
              ≡ receive_fin true s status buf
                  (record c { ack_to_send = u32 (s.sequence_number + u32 (payload_len s)) })))
unfolding receive_payload
receive_payload-cases s status buf c = ground arith

receive_payload-IsInOrder :
    (s : TcpSegment) (status : List RecvStatus) (buf : List ℕ) (c : Connection)
    → c.ack_to_send < 2 ^ 32
    → IsInOrder s c (receive_payload s status buf c)
receive_payload-IsInOrder s status buf c lt =
    let c2 = record c { ack_to_send = u32 (s.sequence_number + u32 (payload_len s)) } in
    elim (receive_payload-cases s status buf c) [
      | inl h ↦ ground arith
      | inr (inl (z, e)) ↦
          rw e (let f = receive_fin-IsInOrder false s status buf c (inr z) in ground arith)
      | inr (inr (q, e)) ↦
          rw e (let f = receive_fin-IsInOrder true s status buf c2 (inl refl) in ground arith)
    ]

module _ (s : TcpSegment) (buf : List ℕ) (c : Connection) (lt : c.ack_to_send < 2 ^ 32) where
  -- A call that hands out nothing and leaves the receiving half alone.
  ignored-IsInOrder :
      (c' : Connection) (status : List RecvStatus)
      → c'.ack_to_send ≡ c.ack_to_send
      → c'.fin_received ≡ c.fin_received
      → IsInOrder s c (ok (none, status), buf, c')
  ignored-IsInOrder c' status a f = ground arith

  same_receiver :
      (c' : Connection) (out : Received)
      → c'.ack_to_send ≡ c.ack_to_send
      → c'.fin_received ≡ c.fin_received
      → IsInOrder s c' out
      → IsInOrder s c out
  same_receiver c' out a f o = record {
    moved = rw (← a, ← f) o.moved;
    whole = rw (← a) o.whole;
    ended = rw (← a, ← f) o.ended;
  }

  moved_window : Connection
  moved_window = record c { remote_rwnd_edge = u32 (s.ack_number + s.window_size) }

  receive_window-IsInOrder :
      (status : List RecvStatus) → IsInOrder s c (receive_window s status buf c)
  unfolding receive_window moved_window
  receive_window-IsInOrder status =
      if-keeps (IsInOrder s c) (not (is_established c))
        (receive_payload-IsInOrder s status buf c lt)
        (if-keeps (IsInOrder s c)
          (seq_after (u32 (s.ack_number + s.window_size)) c.remote_rwnd_edge)
          (same_receiver moved_window (receive_payload s status buf moved_window) refl refl
            (receive_payload-IsInOrder s status buf moved_window lt))
          (if-keeps (IsInOrder s c) (not (u32 (s.ack_number + s.window_size) == c.remote_rwnd_edge))
            (receive_payload-IsInOrder s (remote_rwnd_edge ∷ status) buf c lt)
            (receive_payload-IsInOrder s status buf c lt)))

  helper-IsInOrder :
      (c' : Connection) (status : List RecvStatus)
      → c'.ack_to_send ≡ c.ack_to_send
      → c'.fin_received ≡ c.fin_received
      → IsInOrder s c (reset_for_segment_helper s status buf c')
  helper-IsInOrder c' status a f =
      ignored-IsInOrder (reset_for_segment c' s) (conn_resetting ∷ status) (ground arith)
        (ground arith)

module _ (now : ℕ) (s : TcpSegment) (buf : List ℕ) (c : Connection)
    (lt : c.ack_to_send < 2 ^ 32) where
  again : Connection
  again = record c { rto_count = 0; dup_ack = true }

  receive_ack-IsInOrder : IsInOrder s c (receive_ack now s buf c)
  unfolding receive_ack progress again
  receive_ack-IsInOrder =
      if-keeps (IsInOrder s c) (not s.flags.ack) (receive_payload-IsInOrder s [] buf c lt) (
        if-keeps (IsInOrder s c)
          (seq_at_or_after s.ack_number c.highest_ack_received
            && seq_at_or_after c.first_not_sent s.ack_number)
          (if-keeps (IsInOrder s c)
            (s.ack_number == c.highest_ack_received && not (s.ack_number == c.first_not_sent))
            (if-keeps (IsInOrder s c) (not (is_established c))
              (helper-IsInOrder s buf c lt (record c { rto_count = 0 }) (invalid_ack ∷ []) refl
                refl)
              (same_receiver s buf c lt (again) (receive_window s (dup_ack ∷ []) buf again) refl
                refl (receive_window-IsInOrder s buf again lt (dup_ack ∷ []))))
            (same_receiver s buf c lt (progress now s.ack_number c)
              (receive_window s [] buf (progress now s.ack_number c)) refl refl
              (receive_window-IsInOrder s buf (progress now s.ack_number c) lt [])))
          (if-keeps (IsInOrder s c) (not (is_established c))
            (helper-IsInOrder s buf c lt c (invalid_ack ∷ []) refl refl)
            (receive_payload-IsInOrder s (invalid_ack ∷ []) buf c lt)))

  after_handshake-IsInOrder : (h : Handshake) → IsInOrder s c (after_handshake now s buf c h)
  unfolding after_handshake
  after_handshake-IsInOrder repeated = ignored-IsInOrder s buf c lt c _ refl refl
  after_handshake-IsInOrder resend = ignored-IsInOrder s buf c lt _ _ refl refl
  after_handshake-IsInOrder invalid = helper-IsInOrder s buf c lt c _ refl refl
  after_handshake-IsInOrder proceed = receive_ack-IsInOrder

  refused-IsInOrder : IsInOrder s c (err connection_reset, buf, c)
  refused-IsInOrder = ground arith

  receive_rst-IsInOrder : IsInOrder s c (receive_rst s buf c)
  unfolding receive_rst
  receive_rst-IsInOrder = ground arith

  -- Whatever segment arrives, in whatever state: a call returns either no bytes, or the whole payload
  -- of a segment that starts at the next sequence number expected, written to the front of the buffer;
  -- and the acknowledgement moves by the number of bytes returned, plus one for an accepted FIN.
  pub receive_segment-IsInOrder :
      {out : Received} → receive_segment now s buf c ≡ some out → IsInOrder s c out
  unfolding receive_segment
  receive_segment-IsInOrder {out} =
      if-keeps (λ o. o ≡ some out → IsInOrder s c out) (rst_pending c || is_reset c)
        (λ e. subst (IsInOrder s c) (some_inj.0 e) refused-IsInOrder)
        (if-keeps (λ o. o ≡ some out → IsInOrder s c out) s.flags.rst
          (λ e. subst (IsInOrder s c) (some_inj.0 e) receive_rst-IsInOrder) (go (handshake s c)))
    where
      go : (h : Option Handshake) → continue now s buf c h ≡ some out → IsInOrder s c out
      go none e = cc
      go (some h) e = subst (IsInOrder s c) (some_inj.0 e) (after_handshake-IsInOrder h)
