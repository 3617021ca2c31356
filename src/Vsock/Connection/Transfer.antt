-- ===== src/Vsock/Connection/Transfer.antt =====
-- `VsockConnection::send_bytes`, src/devices/src/virtio/vsock/csm/connection.rs.
use firecracker.Base.{ℕ, ◌+◌, ◌-◌, List, length, ltb, ◌==◌, if◌then◌else◌, u32, Result, ok, err}
use firecracker.Vsock.TxBuf.{
  IoErrorKind, would_block, other, Error, stream_write, TxBuf, len, push, Sink,
}
use firecracker.Vsock.Packet.{
  io_error, invalid_access, VsockError, guest_memory_mmap, guest_memory_bounds, invalid_pkt_len,
  buf_desc_too_small, buf_desc_missing, hdr_desc_too_small, unreadable_descriptor,
  unwritable_descriptor, no_data, pkt_buf_missing, VsockPacket, GuestRegions, write_from_offset_to,
}
use firecracker.Vsock.Connection.{VsockConnection}

-- `Write::write` of a buffer.
unfoldable pub tx_written : TxBuf → List ℕ → Result Error TxBuf → Result IoErrorKind ℕ × TxBuf
tx_written b src (ok b') = (ok (length src), b')
tx_written b src (err e) = (err other, b)

unfoldable pub tx_sink : Sink TxBuf
tx_sink = record { write = λ b src. tx_written b src (push src b) }

-- `Ok(())`, or the error that kills the connection.
pub data Sent : Type 0 where
  done : Sent
  failed : VsockError → Sent

-- Any error of the write but `WouldBlock`, which counts as a write of nothing.
unfoldable pub written_or_err : Result VsockError ℕ → Result VsockError ℕ
written_or_err (ok n) = ok n
written_or_err (err (guest_memory_mmap (io_error would_block))) = ok 0
written_or_err (err (guest_memory_mmap (io_error other))) = err (guest_memory_mmap (io_error other))
written_or_err (err (guest_memory_mmap invalid_access)) = err (guest_memory_mmap invalid_access)
written_or_err (err guest_memory_bounds) = err guest_memory_bounds
written_or_err (err (invalid_pkt_len n)) = err (invalid_pkt_len n)
written_or_err (err no_data) = err no_data
written_or_err (err buf_desc_too_small) = err buf_desc_too_small
written_or_err (err buf_desc_missing) = err buf_desc_missing
written_or_err (err (hdr_desc_too_small n)) = err (hdr_desc_too_small n)
written_or_err (err unreadable_descriptor) = err unreadable_descriptor
written_or_err (err unwritable_descriptor) = err unwritable_descriptor
written_or_err (err pkt_buf_missing) = err pkt_buf_missing

module _ {S : Type 0} where
  unfoldable pub raw_sent :
      VsockConnection S → Result IoErrorKind ℕ × S → Result Error ℕ × VsockConnection S
  raw_sent c (ok n, s) = (ok n, record c { stream = s })
  raw_sent c (err kind, s) = (err (stream_write kind), record c { stream = s })

  unfoldable pub buffered :
      VsockConnection S → Result VsockError ℕ × TxBuf → Sent × VsockConnection S
  buffered c (ok n, b) = (done, record c { tx_buf = b })
  buffered c (err e, b) = (failed e, record c { tx_buf = b })

-- A write past the state machine.
unfoldable pub send_bytes_raw :
    {S : Type 0} → Sink S → List ℕ → VsockConnection S → Result Error ℕ × VsockConnection S
send_bytes_raw sink buf c = raw_sent c (sink.write c.stream buf)

module _ {S M R : Type 0} (sink : Sink S) (gr : GuestRegions M R) (m : M) (pkt : VsockPacket) where
  -- The counter moves by what was written, and the rest goes to the buffer.
  unfoldable pub buffer_rest : VsockConnection S → ℕ → Sent × VsockConnection S
  buffer_rest c written =
      let c' = record c { fwd_cnt = u32 (c.fwd_cnt + u32 written) } in
      if ltb written pkt.hdr.len
      then buffered c'
          (write_from_offset_to gr pkt m written tx_sink (pkt.hdr.len - written) c'.tx_buf)
      else (done, c')

  unfoldable pub after_stream : VsockConnection S → Result VsockError ℕ → Sent × VsockConnection S
  after_stream c (ok written) = buffer_rest c written
  after_stream c (err e) = (failed e, c)

  unfoldable pub send_bytes : VsockConnection S → Sent × VsockConnection S
  send_bytes c =
      if len c.tx_buf == 0
      then (let (r, s) = write_from_offset_to gr pkt m 0 sink pkt.hdr.len c.stream in
          after_stream (record c { stream = s }) (written_or_err r))
      else buffered c (write_from_offset_to gr pkt m 0 tx_sink pkt.hdr.len c.tx_buf)
