-- ===== src/Tcp/Connection/Receive/Stream.antt =====
-- Over any sequence of calls, what `Connection::receive_segment` of
-- src/dumbo/src/tcp/connection.rs hands out is a prefix of the stream that the peer sends.
use firecracker.Base.{
  ℕ, ◌+◌, ◌-◌, ◌^◌, ◌≤◌, ◌<◌, ◌≡◌, ◌≢◌, ◌⊎◌, inl, inr, refl, true, Option, none, some, List, [],
  ◌++◌, length, take, drop, u32, Result, arith, take-append-take, take-length, length-append,
  length-take, length-drop, ap, ap₂, sym, ◌∙◌,
}
use firecracker.Tcp.Segment.{TcpSegment, payload_len}
use firecracker.Tcp.Connection.{Connection}
use firecracker.Tcp.Connection.Receive.{Received, RecvError, RecvStatus, receive_segment}
use firecracker.Tcp.Connection.Receive.InOrder.{
  count, fin_step, IsInOrder, receive_segment-IsInOrder,
}

-- A segment of a peer that sends `stream`, whose first byte has sequence number `base`: a slice of
-- the stream, from any offset and sent any number of times, and a FIN only at the stream's end.
pub record IsSlice (stream : List ℕ) (base : ℕ) (s : TcpSegment) : Type 0 where
  pub offset : ℕ
  pub numbered : s.sequence_number ≡ u32 (base + offset)
  pub within : offset + payload_len s ≤ length stream
  pub slice : s.payload ≡ take (payload_len s) (drop offset stream)
  pub closing : s.flags.fin ≡ true → offset + payload_len s ≡ length stream

-- A history of a connection with the bytes handed out: calls of `receive_segment` with slices of the
-- stream, between steps of any kind that leave `ack_to_send` and `fin_received` alone.
pub data History (stream : List ℕ) (base : ℕ) (start : Connection)
    : Connection → List ℕ → Type 0 where
  fresh : History stream base start start []
  receive :
      {c c' : Connection} {bytes : List ℕ} (now : ℕ) (s : TcpSegment) (buf : List ℕ)
      {r : Result RecvError (Option ℕ × List RecvStatus)} {buf' : List ℕ}
      → History stream base start c bytes
      → IsSlice stream base s
      → receive_segment now s buf c ≡ some (r, buf', c')
      → History stream base start c' (bytes ++ take (count r) buf')
  other :
      {c c' : Connection} {bytes : List ℕ}
      → History stream base start c bytes
      → c'.ack_to_send ≡ c.ack_to_send
      → c'.fin_received ≡ c.fin_received
      → History stream base start c' bytes

record IsPrefix (stream : List ℕ) (base : ℕ) (c : Connection) (bytes : List ℕ) : Type 0 where
  len : length bytes ≤ length stream
  prefix : bytes ≡ take (length bytes) stream
  state :
      ((c.fin_received ≡ none) × (c.ack_to_send ≡ u32 (base + length bytes)))
      ⊎ ((c.fin_received ≢ none)
          × (c.ack_to_send ≡ u32 (base + length bytes + 1))
          × (length bytes ≡ length stream))

fin_step_self : (f : Option ℕ) → fin_step f f ≡ 0
fin_step_self none = refl
fin_step_self (some n) = refl

fin_step-ne : (f g : Option ℕ) → f ≡ none → fin_step f g ≡ 1 → g ≢ none
fin_step-ne f g e h z = ground arith

module _ (stream : List ℕ) (base : ℕ) (small : length stream < 2 ^ 32 - 1) where
  module _ {c : Connection} {bytes : List ℕ} (s : TcpSegment) {out : Received}
      (p : IsPrefix stream base c bytes) (q : IsSlice stream base s) (o : IsInOrder s c out) where
    abbrev n : ℕ
    n = count out.0

    -- The bytes handed out are the next ones of the stream.
    next_chunk :
        (length bytes + n ≤ length stream) × (take n out.1 ≡ take n (drop (length bytes) stream))
    next_chunk = elim o.whole [
      | inl z ↦ (omega (arith, p.len), rw (z) refl)
      | inr (e, t, f) ↦ elim p.state [
        | inl (_, g) ↦
            let at : q.offset ≡ length bytes = omega arith in
            (omega arith, t ∙ q.slice ∙ ap₂ (λ (x y : ℕ). take x (drop y stream)) (sym e) at)
        | inr (_, g, h) ↦ absurd (omega arith)
      ]
    ]

    length-chunk : length (bytes ++ take n out.1) ≡ length bytes + n
    length-chunk = omega (
      arith,
      length-append bytes (take n out.1),
      ap (λ (t : List ℕ). length t) next_chunk.1,
      length-take n (drop (length bytes) stream),
      length-drop (length bytes) stream,
      next_chunk.0,
    )

    -- The receiving half after the call.
    abbrev Next : Type 0
    Next =
        ((out.2.fin_received ≡ none) × (out.2.ack_to_send ≡ u32 (base + (length bytes + n))))
        ⊎ ((out.2.fin_received ≢ none)
            × (out.2.ack_to_send ≡ u32 (base + (length bytes + n) + 1))
            × (length bytes + n ≡ length stream))

    unended : out.2.fin_received ≡ c.fin_received → Next
    unended e =
        let none_yet : fin_step c.fin_received out.2.fin_received ≡ 0 =
          rw e (fin_step_self c.fin_received) in
        elim p.state [
          | inl (f, g) ↦ inl (e ∙ f, omega (arith, o.moved))
          | inr (f, g, h) ↦ inr (
            (λ z. f (sym e ∙ z)),
            omega (arith, o.moved, next_chunk.0),
            omega (arith, next_chunk.0),
          )
        ]

    next_state : Next
    next_state = elim o.ended [
      | inl e ↦ unended e
      | inr (f, e, g, h) ↦ elim p.state [
        | inl (_, a) ↦ inr (
          fin_step-ne c.fin_received out.2.fin_received f e,
          omega (arith, o.moved),
          omega (arith, q.closing g, next_chunk.0),
        )
        | inr (k, _, _) ↦ absurd (k f)
      ]
    ]

    step-IsPrefix : IsPrefix stream base out.2 (bytes ++ take n out.1)
    step-IsPrefix = record {
      len = omega (arith, length-chunk, next_chunk.0);
      prefix =
          ap₂ ◌++◌ p.prefix next_chunk.1
          ∙ take-append-take (length bytes) n stream p.len
          ∙ ap (λ (k : ℕ). take k stream) (sym length-chunk);
      state = rw length-chunk next_state;
    }

  ack_small :
      {c : Connection} {bytes : List ℕ} → IsPrefix stream base c bytes → c.ack_to_send < 2 ^ 32
  ack_small p = omega arith

  whole_stream :
      {c : Connection} {bytes : List ℕ}
      → IsPrefix stream base c bytes
      → c.fin_received ≢ none
      → take (length bytes) stream ≡ stream
  whole_stream p ne = elim p.state [
    | inl (f, _) ↦ absurd (ne f)
    | inr (_, _, e) ↦ rw e (take-length stream)
  ]

  run-IsPrefix :
      {start c : Connection} {bytes : List ℕ}
      → start.fin_received ≡ none
      → start.ack_to_send ≡ u32 base
      → History stream base start c bytes
      → IsPrefix stream base c bytes
  run-IsPrefix f a fresh = record { len = omega arith; prefix = refl; state = inl (f, omega arith) }
  run-IsPrefix f a (receive now s buf h q e) =
      step-IsPrefix s (run-IsPrefix f a h) q
        (receive_segment-IsInOrder now s buf _ (ack_small (run-IsPrefix f a h)) e)
  run-IsPrefix f a (other h ea ef) =
      let p = run-IsPrefix f a h in
      record { len = p.len; prefix = p.prefix; state = rw (ea, ef) p.state }

  -- For a stream of less than 2 ^ 32 - 1 bytes: in every history of a connection that starts at the
  -- stream's first byte, with the segments lost, repeated or reordered in any way, the bytes handed
  -- out are a prefix of the stream; they are all of it where a FIN has been accepted.
  pub delivered_prefix :
      {start c : Connection} {bytes : List ℕ}
      → start.fin_received ≡ none
      → start.ack_to_send ≡ u32 base
      → History stream base start c bytes
      → (bytes ≡ take (length bytes) stream) × (c.fin_received ≢ none → bytes ≡ stream)
  delivered_prefix {c = c} {bytes = bytes} f a h =
      let p = run-IsPrefix f a h in (p.prefix, λ ne. p.prefix ∙ whole_stream p ne)
