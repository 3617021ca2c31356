-- ===== src/Vsock/Connection/Drains.antt =====
-- `VsockConnection::notify`, src/devices/src/virtio/vsock/csm/connection.rs: the buffer is drained.
use firecracker.Base.{
  ℕ, ◌+◌, ◌≡◌, ◌⊎◌, true, false, not, ◌&&◌, Option, some, List, ◌++◌, ◌==◌, u32, Result,
}
use firecracker.Vsock.TxBuf.{Error, TxBuf, len, Sink, unwrap_or_zero}
use firecracker.Vsock.TxBuf.Refines.{IsValid, contents}
use firecracker.Vsock.TxBuf.Progress.{Progress}
use firecracker.Vsock.PendingRx.{PendingRx, contains, rst, rw_data, credit_update}
use firecracker.Vsock.Connection.{VsockConnection, peer_needs_credit_update}
use firecracker.Vsock.Connection.Notify.{EventSet, is_shut, flush_result}

module _ {S : Type 0} (sink : Sink S) (received : S → List ℕ) where
  -- No byte is lost, repeated or reordered, each byte that leaves is counted, and no indication goes.
  pub record IsMoved (c c' : VsockConnection S) : Type 0 where
    pub valid : IsValid c'.tx_buf
    pub output : received c'.stream ++ contents c'.tx_buf ≡ received c.stream ++ contents c.tx_buf
    pub count : u32 (c'.fwd_cnt + len c'.tx_buf) ≡ u32 (c.fwd_cnt + len c.tx_buf)
    pub stays :
        (it : PendingRx) → contains it c.pending_rx ≡ true → contains it c'.pending_rx ≡ true

  -- After a flush bytes have left the buffer, or a write of its oldest bytes took none; and pending is
  -- the reset that waited for the buffer to drain, or else the credit update that is due.
  pub record IsDrained (c c' : VsockConnection S) : Type 0 where
    pub moved : IsMoved c c'
    pub got_on : Progress sink c.tx_buf c.stream c'.tx_buf
    pub reset : is_shut c'.state ≡ true → len c'.tx_buf ≡ 0 → contains rst c'.pending_rx ≡ true
    pub credit :
        peer_needs_credit_update c' ≡ true
        → (contains rst c'.pending_rx ≡ true) ⊎ (contains credit_update c'.pending_rx ≡ true)

  pub data OnNotify (evset : EventSet) (c : VsockConnection S)
      : Option (VsockConnection S) → Type 0 where
    flushed :
        {c' : VsockConnection S}
        → evset.writable && not (len c.tx_buf == 0) ≡ true
        → IsDrained c c'
        → (evset.readable ≡ true → contains rw_data c'.pending_rx ≡ true)
        → OnNotify evset c (some c')
    unflushed :
        {c' : VsockConnection S}
        → evset.writable && not (len c.tx_buf == 0) ≡ false
        → IsMoved c c'
        → (evset.readable ≡ true → contains rw_data c'.pending_rx ≡ true)
        → OnNotify evset c (some c')

  module _ (c : VsockConnection S) (b : TxBuf) (s : S) where
    -- The connection between the flush and the last checks.
    abbrev flushed_conn : Result Error ℕ → VsockConnection S
    flushed_conn r =
        let c' = flush_result r (record c { tx_buf = b; stream = s }) in
        record c' { fwd_cnt = u32 (c'.fwd_cnt + u32 (unwrap_or_zero r)) }

  data OnOut (c : VsockConnection S) : Option (VsockConnection S) → Type 0 where
    out : {c' : VsockConnection S} → IsDrained c c' → OnOut c (some c')

  -- The connection with the indication that data can be read.
  record IsNoted (evset : EventSet) (c c' : VsockConnection S) : Type 0 where
    moved : IsMoved c c'
    same_buf : c'.tx_buf ≡ c.tx_buf
    same_stream : c'.stream ≡ c.stream
    rw : evset.readable ≡ true → contains rw_data c'.pending_rx ≡ true
