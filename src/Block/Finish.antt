-- ===== src/Block/Finish.antt =====
-- How a request to a block device ends, src/devices/src/virtio/block/request.rs: the status and the
-- count of bytes, rate limiting, and the calls of the IO engine.
use firecracker.Base.{
  ℕ, ◌+◌, ◌*◌, ◌^◌, Bool, true, false, ◌||◌, Option, none, some, List, ◌==◌, if◌then◌else◌, u32,
  u64, Result, ok, err,
}
use firecracker.RateLimiter.Limiter.{
  F64, TimerFd, TokenType, bytes, ops, RateLimiter, consume, manual_replenish,
}
use firecracker.Block.Request.{
  RequestType, in_request, out_request, flush, get_device_id, unsupported, Request, BlockMemory,
  is_in, is_out, virtio_blk_id_bytes,
}
pub mod Process
pub mod Answers

-- The errors of an engine are its own; `true` is one that asks to try later.
pub data IoErr : Type 0 where
  get_id : IoErr
  partial_transfer : ℕ → ℕ → IoErr
  file_engine : Bool → IoErr

pub record FinishedRequest : Type 0 where
  pub num_bytes_to_mem : ℕ
  pub desc_idx : ℕ

pub data ProcessingResult : Type 0 where
  submitted : ProcessingResult
  throttled : ProcessingResult
  executed : FinishedRequest → ProcessingResult

pub data Status : Type 0 where
  status_ok : ℕ → Status
  status_io_err : ℕ → IoErr → Status
  status_unsupported : ℕ → Status

unfoldable pub from_data : ℕ → ℕ → Bool → Status
from_data data_len transferred_data_len data_to_mem =
    let num_bytes_to_mem = if data_to_mem then transferred_data_len else 0 in
    if transferred_data_len == data_len
    then status_ok num_bytes_to_mem
    else status_io_err num_bytes_to_mem (partial_transfer transferred_data_len data_len)

pub record PendingRequest : Type 0 where
  pub type_of : RequestType
  pub data_len : ℕ
  pub status_addr : ℕ
  pub desc_idx : ℕ

-- `VIRTIO_BLK_S_OK`, `VIRTIO_BLK_S_IOERR` and `VIRTIO_BLK_S_UNSUPP`.
unfoldable pub status_code : Status → ℕ
status_code (status_ok n) = 0
status_code (status_io_err n e) = 1
status_code (status_unsupported op) = 2

unfoldable pub status_bytes : Status → ℕ
status_bytes (status_ok n) = n
status_bytes (status_io_err n e) = n
status_bytes (status_unsupported op) = 0

unfoldable pub status_of : RequestType → ℕ → Result IoErr ℕ → Status
status_of in_request data_len (ok n) = from_data data_len n true
status_of out_request data_len (ok n) = from_data data_len n false
status_of flush data_len (ok n) = status_ok 0
status_of get_device_id data_len (ok n) = from_data data_len n true
status_of (unsupported op) data_len (ok n) = status_unsupported op
status_of (unsupported op) data_len (err e) = status_unsupported op
status_of in_request data_len (err e) = status_io_err 0 e
status_of out_request data_len (err e) = status_io_err 0 e
status_of flush data_len (err e) = status_io_err 0 e
status_of get_device_id data_len (err e) = status_io_err 0 e

-- What the engine of a disk does with a request: it queues it, does it for a count of bytes, or fails,
-- where `true` asks to try later. A read and a write have the place in the file, and where in guest
-- memory the data is and how long.
pub data Done : Type 0 where
  done_later : Done
  done_now : ℕ → Done
  not_done : Bool → Done

pub record FileEngine (E M : Type 0) : Type 0 where
  pub read : ℕ → ℕ → ℕ → PendingRequest → E → M → Done × (E × M)
  pub write : ℕ → ℕ → ℕ → PendingRequest → E → M → Done × (E × M)
  pub flush_file : PendingRequest → E → M → Done × (E × M)
  pub kick : E → E

-- The data type that the limiter counts bytes for.
unfoldable pub is_transfer : RequestType → Bool
is_transfer t = is_in t || is_out t

unfoldable pub offset : Request → ℕ
offset req = u64 (req.sector * 2 ^ 9)

unfoldable pub to_pending_request : ℕ → Request → PendingRequest
to_pending_request desc_idx req = record {
  type_of = req.type_of;
  data_len = req.data_len;
  status_addr = req.status_addr;
  desc_idx = desc_idx;
}

module _ {F T : Type 0} (f : F64 F) (fd : TimerFd T) where
  -- The operation is given back where the bytes are refused.
  unfoldable pub bytes_taken : Bool × RateLimiter T → Bool × RateLimiter T
  bytes_taken (true, l) = (false, l)
  bytes_taken (false, l) = (true, manual_replenish 1 ops l)

  unfoldable pub ops_taken : ℕ → Request → Bool × RateLimiter T → Bool × RateLimiter T
  ops_taken now req (false, l) = (true, l)
  ops_taken now req (true, l) =
      let charged = bytes_taken (consume f fd now req.data_len bytes l) in
      if is_transfer req.type_of then charged else (false, l)

  -- Whether the request has to wait.
  unfoldable pub rate_limit : ℕ → Request → RateLimiter T → Bool × RateLimiter T
  rate_limit now req l = ops_taken now req (consume f fd now 1 ops l)

module _ {M : Type 0} (bm : BlockMemory M) where
  unfoldable pub status_written : PendingRequest → ℕ → M → Option M → FinishedRequest × M
  status_written p n m none = (record { num_bytes_to_mem = 0; desc_idx = p.desc_idx }, m)
  status_written p n m (some m') =
      (record { num_bytes_to_mem = u32 (n + 1); desc_idx = p.desc_idx }, m')

  unfoldable pub write_status_and_finish : PendingRequest → Status → M → FinishedRequest × M
  write_status_and_finish p status m =
      status_written p (status_bytes status) m (bm.write_u8 m p.status_addr (status_code status))

  unfoldable pub finish : PendingRequest → Result IoErr ℕ → M → FinishedRequest × M
  finish p res m = write_status_and_finish p (status_of p.type_of p.data_len res) m
