-- ===== src/Vsock/Connection/Delivers.antt =====
-- `VsockConnection::send_bytes`, src/devices/src/virtio/vsock/csm/connection.rs: what becomes of the
-- bytes of a packet.
use firecracker.Base.{
  ℕ, ◌+◌, ◌-◌, ◌≤◌, ◌<◌, ◌≡◌, refl, ap, ap₂, sym, ◌∙◌, List, [], ◌++◌, length, take, drop, ltb,
  ◌==◌, u32, Result, ok, err, if-split, ltb→lt, arith, take-append-drop, take-length, length-drop,
  length-append,
}
use mathlib.Core.List.{append_assoc, append-nil}
use firecracker.Vsock.TxBuf.{
  IoErrorKind, would_block, other, Error, tx_buf_full, tx_buf_flush, stream_write, TxBuf, size, len,
  push, Sink, allocated,
}
use firecracker.Vsock.TxBuf.Ring.{ring, length-ring}
use firecracker.Vsock.TxBuf.Refines.{IsValid, contents, OnPush, push-OnPush, refused, pushed}
use firecracker.Vsock.TxBuf.Flush.{IsSink}
use firecracker.Vsock.Packet.{VsockError, GuestRegions, VsockPacket, buf_region_addr, map_err}
use firecracker.Vsock.Packet.Buffer.{
  IsRegions, payload, passed, OnWritten, no_slice, no_buffer, wrote, write_from_offset_to-OnWritten,
  drop-payload, length-payload_at,
}
use firecracker.Vsock.Packet.Unmapped.{Unmapped, buf_region_addr-Unmapped}
use firecracker.Vsock.Connection.{VsockConnection}
use firecracker.Vsock.Connection.Transfer.{
  tx_written, tx_sink, Sent, done, failed, buffered, written_or_err, buffer_rest, after_stream,
  send_bytes,
}

module _ {S M R : Type 0} (sink : Sink S) (received : S → List ℕ) (gr : GuestRegions M R)
    (bytes : M → ℕ → ℕ → List ℕ) (m : M) (pkt : VsockPacket) where
  -- The bytes that the packet brings.
  abbrev pub data_of_pkt : List ℕ
  data_of_pkt = payload gr bytes pkt m 0 pkt.hdr.len

  -- What the host has received and what waits for it.
  abbrev pub output : VsockConnection S → List ℕ
  output c = received c.stream ++ contents c.tx_buf

  -- All bytes are behind those before, and the counts agree.
  pub record IsDelivered (c c' : VsockConnection S) : Type 0 where
    pub valid : IsValid c'.tx_buf
    pub appended : output c' ≡ output c ++ data_of_pkt
    pub count :
        u32 (c'.fwd_cnt + len c'.tx_buf) ≡ u32 (c.fwd_cnt + len c.tx_buf + length data_of_pkt)
    pub same_state : (c'.state ≡ c.state) × (c'.last_fwd_cnt_to_peer ≡ c.last_fwd_cnt_to_peer)

  -- The first `k` bytes have gone to the stream: none without a write, or what a write took where
  -- nothing waited.
  pub data Took (c : VsockConnection S) : ℕ → Type 0 where
    no_write : Took c 0
    by_write :
        {k : ℕ} (s : S)
        → len c.tx_buf ≡ 0
        → sink.write c.stream data_of_pkt ≡ (ok k, s)
        → k < pkt.hdr.len
        → Took c k

  -- Why a packet is not delivered: what the stream has not taken of its buffer is empty or not in
  -- guest memory,
  -- the stream fails with nothing waiting for it, or the buffer of the connection has no room for
  -- what the stream has not taken.
  pub data Fault (c : VsockConnection S) : Type 0 where
    unreadable : (k : ℕ) → Took c k → Unmapped gr pkt m k (pkt.hdr.len - k) → Fault c
    stream_failed :
        (s : S) → len c.tx_buf ≡ 0 → sink.write c.stream data_of_pkt ≡ (err other, s) → Fault c
    no_room : (k : ℕ) → Took c k → size < len c.tx_buf + (length data_of_pkt - k) → Fault c

  -- A beginning of the bytes is behind those before.
  pub record IsCut (c c' : VsockConnection S) : Type 0 where
    pub taken : ℕ
    pub valid : IsValid c'.tx_buf
    pub appended : output c' ≡ output c ++ take taken data_of_pkt

  pub data OnSent (c : VsockConnection S) : Sent × VsockConnection S → Type 0 where
    sent : {c' : VsockConnection S} → IsDelivered c c' → OnSent c (done, c')
    broke :
        {e : VsockError} {c' : VsockConnection S} → Fault c → IsCut c c' → OnSent c (failed e, c')

  -- The first `k` bytes are behind those before.
  record IsPartly (c c' : VsockConnection S) (k : ℕ) : Type 0 where
    valid : IsValid c'.tx_buf
    bound : k ≤ length data_of_pkt
    appended : output c' ≡ output c ++ take k data_of_pkt
    count : u32 (c'.fwd_cnt + len c'.tx_buf) ≡ u32 (c.fwd_cnt + len c.tx_buf + k)
    same_buf : c'.tx_buf ≡ c.tx_buf
    same_state : (c'.state ≡ c.state) × (c'.last_fwd_cnt_to_peer ≡ c.last_fwd_cnt_to_peer)

  partly-IsCut : {c c' : VsockConnection S} {k : ℕ} → IsPartly c c' k → IsCut c c'
  partly-IsCut {k} p = record { taken = k; valid = p.valid; appended = p.appended }

  length-contents : (b : TxBuf) → length (contents b) ≡ len b
  length-contents b = length-ring (allocated b.data_of) b.tail (len b)

  -- The rest is pushed or refused.
  pushed-OnSent :
      {c c' : VsockConnection S} {k : ℕ} (src : List ℕ) (o : Result Error TxBuf)
      → IsPartly c c' k
      → src ≡ drop k data_of_pkt
      → Took c k
      → OnPush c'.tx_buf src o
      → OnSent c (buffered c' (map_err (passed (tx_written c'.tx_buf src o))))
  unfolding buffered map_err passed tx_written
  pushed-OnSent src (err (tx_buf_flush kind)) p is took h = elim h [ ]
  pushed-OnSent src (err (stream_write kind)) p is took h = elim h [ ]
  pushed-OnSent {c} {c'} {k} src (err tx_buf_full) p is took (refused lt) =
      broke
        (no_room k took (
          omega (
            arith,
            lt,
            ap (λ (xs : List ℕ). length xs) is,
            length-drop k data_of_pkt,
            ap (λ (b : TxBuf). len b) p.same_buf,
          )))
        (partly-IsCut p)
  pushed-OnSent {c} {c'} {k} src (ok b) p is took (pushed v app) = sent (record {
    valid = v;
    appended =
        ap (λ ys. received c'.stream ++ ys) app
        ∙ sym (append_assoc (received c'.stream) (contents c'.tx_buf) src)
        ∙ ap₂ (λ xs ys. xs ++ ys) p.appended is
        ∙ append_assoc (output c) (take k data_of_pkt) (drop k data_of_pkt)
        ∙ ap (λ ys. output c ++ ys) (take-append-drop k data_of_pkt);
    count = omega (
      arith,
      p.count,
      p.bound,
      ap (λ (xs : List ℕ). length xs) is,
      length-drop k data_of_pkt,
      ap (λ (xs : List ℕ). length xs) app,
      length-append (contents c'.tx_buf) src,
      length-contents b,
      length-contents c'.tx_buf,
    );
    same_state = p.same_state;
  })

  module _ (law : IsRegions gr bytes) where
    -- What a write to the buffer or the stream could not read.
    rest-Unmapped :
        (k n : ℕ) {e : VsockError}
        → n ≡ pkt.hdr.len - k
        → buf_region_addr gr pkt m k n ≡ err e
        → Unmapped gr pkt m k (pkt.hdr.len - k)
    rest-Unmapped k n is e =
        buf_region_addr-Unmapped gr pkt m k (pkt.hdr.len - k)
          (ap (λ (l : ℕ). buf_region_addr gr pkt m k l) (sym is) ∙ e)

    buffered-OnSent :
        {c c' : VsockConnection S} {k : ℕ}
        → IsPartly c c' k
        → Took c k
        → k ≤ pkt.hdr.len
        → (n : ℕ) → n ≡ pkt.hdr.len - k
        → (r : Result VsockError ℕ × TxBuf) → OnWritten gr bytes law pkt m k n tx_sink c'.tx_buf r
        → OnSent c (buffered c' r)
    unfolding buffered tx_sink
    buffered-OnSent {k = k} p took le n is r (no_slice e) =
        broke (unreadable k took (rest-Unmapped k n is e)) (partly-IsCut p)
    buffered-OnSent {k = k} p took le n is r (no_buffer e) =
        broke (unreadable k took (rest-Unmapped k n is e)) (partly-IsCut p)
    buffered-OnSent {c} {c'} {k} p took le n is r wrote =
        let src = payload gr bytes pkt m k n in
        let rest =
          ap (λ (l : ℕ). payload gr bytes pkt m k l) is
          ∙ sym (drop-payload gr bytes law pkt m k pkt.hdr.len le) in
        pushed-OnSent src (push src c'.tx_buf) p rest took (push-OnPush c'.tx_buf src p.valid)

    -- All that the stream was given, it has taken.
    partly-IsDelivered :
        {c c' : VsockConnection S} {k : ℕ} → IsPartly c c' k → pkt.hdr.len ≤ k → IsDelivered c c'
    partly-IsDelivered {c} {c'} {k} p le =
        let all : k ≡ length data_of_pkt =
          omega (arith, p.bound, length-payload_at gr bytes law m 0 pkt.hdr.len pkt.buf_addr) in
        record {
          valid = p.valid;
          appended =
              p.appended
              ∙ ap (λ ys. output c ++ ys)
                  (ap (λ (n : ℕ). take n data_of_pkt) all ∙ take-length data_of_pkt);
          count = omega (arith, p.count, all);
          same_state = p.same_state;
        }

    abbrev counted : VsockConnection S → ℕ → VsockConnection S
    counted c n = record c { fwd_cnt = u32 (c.fwd_cnt + u32 n) }

    buffer_rest-OnSent :
        {c : VsockConnection S} (c' : VsockConnection S) {k : ℕ}
        → IsPartly c (counted c' k) k
        → (k < pkt.hdr.len → Took c k)
        → OnSent c (buffer_rest sink gr m pkt c' k)
    unfolding buffer_rest
    buffer_rest-OnSent {c} c' {k} p took =
        if-split (OnSent c) (ltb k pkt.hdr.len)
          (λ t.
            let lt = ltb→lt k pkt.hdr.len t in
            buffered-OnSent p (took lt) (omega (arith, lt)) (pkt.hdr.len - k) refl _ (
              write_from_offset_to-OnWritten gr bytes law pkt m k (pkt.hdr.len - k) tx_sink
                c'.tx_buf))
          (λ t. sent (partly-IsDelivered p (ground arith)))

    start-IsPartly : (c : VsockConnection S) → IsValid c.tx_buf → IsPartly c c 0
    start-IsPartly c v = record {
      valid = v;
      bound = omega arith;
      appended = sym (append-nil (output c));
      count = omega arith;
      same_buf = refl;
      same_state = (refl, refl);
    }

    module _ (is_sink : IsSink sink received) (c : VsockConnection S) (v : IsValid c.tx_buf)
        (empty : len c.tx_buf ≡ 0) where
      abbrev moved : S → VsockConnection S
      moved s = record c { stream = s }

      none_waits : contents c.tx_buf ≡ []
      none_waits = ap (λ (n : ℕ). ring (allocated c.tx_buf.data_of) c.tx_buf.tail n) empty

      written-IsPartly :
          (s : S) (k : ℕ)
          → k ≤ length data_of_pkt
          → received s ≡ received c.stream ++ take k data_of_pkt
          → IsPartly c (counted (moved s) k) k
      written-IsPartly s k le got = record {
        valid = v;
        bound = le;
        appended =
            ap (λ ys. received s ++ ys) none_waits
            ∙ append-nil (received s)
            ∙ got
            ∙ ap (λ xs. xs ++ take k data_of_pkt)
                (sym (append-nil (received c.stream))
                  ∙ ap (λ ys. received c.stream ++ ys) (sym none_waits));
        count = omega arith;
        same_buf = refl;
        same_state = (refl, refl);
      }

      -- Nothing was written.
      unmoved-IsPartly :
          (s : S) {kind : IoErrorKind}
          → sink.write c.stream data_of_pkt ≡ (err kind, s)
          → IsPartly c (counted (moved s) 0) 0
      unmoved-IsPartly s e =
          written-IsPartly s 0 (omega arith)
            (is_sink.failed e ∙ sym (append-nil (received c.stream)))

      stream-OnSent :
          (o : Result IoErrorKind ℕ × S)
          → sink.write c.stream data_of_pkt ≡ o
          → OnSent c (
              let (r, s) = map_err (passed o) in
              after_stream sink gr m pkt (moved s) (written_or_err r))
      unfolding map_err passed after_stream written_or_err
      stream-OnSent (ok n, s) e =
          let (le, got) = is_sink.wrote e in
          buffer_rest-OnSent (moved s) (written-IsPartly s n le got) (by_write s empty e)
      stream-OnSent (err would_block, s) e =
          buffer_rest-OnSent (moved s) (unmoved-IsPartly s e) (λ _. no_write)
      stream-OnSent (err other, s) e =
          let p = unmoved-IsPartly s e in
          broke (stream_failed s empty e) (record { taken = 0; valid = v; appended = p.appended })

      unbuffered-OnSent :
          (r : Result VsockError ℕ × S)
          → OnWritten gr bytes law pkt m 0 pkt.hdr.len sink c.stream r
          → OnSent c (after_stream sink gr m pkt (moved r.1) (written_or_err r.0))
      unfolding after_stream written_or_err
      unbuffered-OnSent r (no_slice e) =
          broke (unreadable 0 no_write (rest-Unmapped 0 pkt.hdr.len (omega arith) e))
            (partly-IsCut (start-IsPartly c v))
      unbuffered-OnSent r (no_buffer e) =
          broke (unreadable 0 no_write (rest-Unmapped 0 pkt.hdr.len (omega arith) e))
            (partly-IsCut (start-IsPartly c v))
      unbuffered-OnSent r wrote = stream-OnSent (sink.write c.stream data_of_pkt) refl

    -- On a valid buffer `send_bytes` puts the bytes of the packet behind those that the stream has
    -- taken and those that wait.
    pub send_bytes-OnSent :
        IsSink sink received
        → (c : VsockConnection S) → IsValid c.tx_buf
        → OnSent c (send_bytes sink gr m pkt c)
    unfolding send_bytes
    send_bytes-OnSent is_sink c v =
        if-split (OnSent c) (len c.tx_buf == 0)
          (λ t.
            unbuffered-OnSent is_sink c v (ground arith) _
              (write_from_offset_to-OnWritten gr bytes law pkt m 0 pkt.hdr.len sink c.stream))
          (λ _.
            buffered-OnSent (start-IsPartly c v) no_write (omega arith) pkt.hdr.len (omega arith) _
              (write_from_offset_to-OnWritten gr bytes law pkt m 0 pkt.hdr.len tx_sink c.tx_buf))
