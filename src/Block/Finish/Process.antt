-- ===== src/Block/Finish/Process.antt =====
-- `Request::process`, src/devices/src/virtio/block/request.rs. The disk is its IO engine and its id.
use firecracker.Base.{ℕ, true, false, Option, none, some, List, Result, ok, err}
use firecracker.Block.Request.{
  RequestType, in_request, out_request, flush, get_device_id, unsupported, Request, BlockMemory,
  virtio_blk_id_bytes,
}
use firecracker.Block.Finish.{
  IoErr, get_id, file_engine, ProcessingResult, submitted, throttled, executed, PendingRequest,
  Done, done_later, done_now, not_done, FileEngine, offset, to_pending_request, finish,
}

module _ {E M : Type 0} (bm : BlockMemory M) (fe : FileEngine E M)
    (write_slice : M → ℕ → List ℕ → Option M) where
  unfoldable pub finish_executed : PendingRequest → Result IoErr ℕ → M → ProcessingResult × M
  finish_executed p res m = let (r, m') = finish bm p res m in (executed r, m')

  unfoldable pub id_written : PendingRequest → M → Option M → ProcessingResult × M
  id_written p m none = finish_executed p (err get_id) m
  id_written p m (some m') = finish_executed p (ok virtio_blk_id_bytes) m'

  unfoldable pub engine_done : PendingRequest → Done × (E × M) → ProcessingResult × (E × M)
  engine_done p (done_later, (e, m)) = (submitted, (e, m))
  engine_done p (done_now n, (e, m)) = let (r, m') = finish_executed p (ok n) m in (r, (e, m'))
  engine_done p (not_done true, (e, m)) = (throttled, (e, m))
  engine_done p (not_done false, (e, m)) =
      let (r, m') = finish_executed p (err (file_engine false)) m in (r, (e, m'))

  unfoldable pub process_type :
      RequestType → Request → PendingRequest → List ℕ → E → M → ProcessingResult × (E × M)
  process_type in_request req p image_id e m =
      engine_done p (fe.read (offset req) req.data_addr req.data_len p e m)
  process_type out_request req p image_id e m =
      engine_done p (fe.write (offset req) req.data_addr req.data_len p e m)
  process_type flush req p image_id e m = engine_done p (fe.flush_file p e m)
  process_type get_device_id req p image_id e m =
      let (r, m') = id_written p m (write_slice m req.data_addr image_id) in (r, (e, m'))
  process_type (unsupported op) req p image_id e m =
      let (r, m') = finish_executed p (ok 0) m in (r, (e, m'))

  unfoldable pub process : Request → ℕ → List ℕ → E → M → ProcessingResult × (E × M)
  process req desc_idx image_id e m =
      process_type req.type_of req (to_pending_request desc_idx req) image_id e m
