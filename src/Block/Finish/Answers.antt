-- ===== src/Block/Finish/Answers.antt =====
-- `Request::process`, src/devices/src/virtio/block/request.rs: what the guest is told.
use firecracker.Base.{
  ℕ, ◌+◌, ◌*◌, ◌^◌, u64, ◌≤◌, ◌<◌, ◌≡◌, refl, ap, sym, ◌∙◌, Bool, true, false, Option, none, some,
  List, ◌==◌, if◌then◌else◌, if-split, Result, ok, err, arith,
}
use firecracker.Block.Request.{
  RequestType, in_request, out_request, flush, get_device_id, unsupported, Request, BlockMemory,
}
use firecracker.Block.Finish.{
  IoErr, get_id, file_engine, FinishedRequest, ProcessingResult, submitted, throttled, executed,
  Status, PendingRequest, Done, done_later, done_now, not_done, FileEngine, from_data, status_of,
  status_bytes, status_code, status_written, write_status_and_finish, finish,
}

-- The bytes that a result says were transferred.
abbrev pub transferred : Result IoErr ℕ → ℕ
transferred (ok n) = n
transferred (err e) = 0

-- Those of them that went into guest memory.
abbrev pub into_memory : RequestType → Result IoErr ℕ → ℕ
into_memory in_request res = transferred res
into_memory get_device_id res = transferred res
into_memory _ res = 0

-- The outcome by the virtio specification: all of the data was transferred, and the type is known.
abbrev pub is_done : RequestType → ℕ → Result IoErr ℕ → Bool
is_done in_request data_len (ok n) = n == data_len
is_done out_request data_len (ok n) = n == data_len
is_done get_device_id data_len (ok n) = n == data_len
is_done flush data_len (ok n) = true
is_done _ data_len _ = false

abbrev pub is_known : RequestType → Bool
is_known (unsupported op) = false
is_known _ = true

-- The status is 0 exactly where the request was done, and 2 exactly where its type is unknown; the
-- bytes are counted that went into guest memory.
pub record IsStatus (t : RequestType) (data_len : ℕ) (res : Result IoErr ℕ) (s : Status)
    : Type 0 where
  pub code : status_code s ≡ (if is_known t then (if is_done t data_len res then 0 else 1) else 2)
  pub bounded : status_bytes s ≤ transferred res
  pub counted : status_bytes s ≡ into_memory t res

from_data-IsStatus :
    (t : RequestType) (data_len n : ℕ) (to_mem : Bool)
    → is_known t ≡ true
    → is_done t data_len (ok n) ≡ (n == data_len)
    → into_memory t (ok n) ≡ (if to_mem then n else 0)
    → IsStatus t data_len (ok n) (from_data data_len n to_mem)
unfolding from_data status_code status_bytes
from_data-IsStatus t data_len n to_mem known done counts =
    if-split (IsStatus t data_len (ok n)) (n == data_len)
      (λ e. record {
        code = ground (arith, known, done, e);
        bounded = ground arith;
        counted = sym counts;
      })
      (λ e. record {
        code = ground (arith, known, done, e);
        bounded = ground arith;
        counted = sym counts;
      })

pub status_of-IsStatus :
    (t : RequestType) (data_len : ℕ) (res : Result IoErr ℕ)
    → IsStatus t data_len res (status_of t data_len res)
unfolding status_of status_code status_bytes
status_of-IsStatus in_request data_len (ok n) =
    from_data-IsStatus in_request data_len n true refl refl refl
status_of-IsStatus out_request data_len (ok n) =
    from_data-IsStatus out_request data_len n false refl refl refl
status_of-IsStatus flush data_len (ok n) = record {
  code = refl;
  bounded = omega arith;
  counted = refl;
}
status_of-IsStatus get_device_id data_len (ok n) =
    from_data-IsStatus get_device_id data_len n true refl refl refl
status_of-IsStatus (unsupported op) data_len (ok n) = record {
  code = refl;
  bounded = omega arith;
  counted = refl;
}
status_of-IsStatus (unsupported op) data_len (err e) = record {
  code = refl;
  bounded = omega arith;
  counted = refl;
}
status_of-IsStatus in_request data_len (err e) = record {
  code = refl;
  bounded = omega arith;
  counted = refl;
}
status_of-IsStatus out_request data_len (err e) = record {
  code = refl;
  bounded = omega arith;
  counted = refl;
}
status_of-IsStatus flush data_len (err e) = record {
  code = refl;
  bounded = omega arith;
  counted = refl;
}
status_of-IsStatus get_device_id data_len (err e) = record {
  code = refl;
  bounded = omega arith;
  counted = refl;
}

module _ {M : Type 0} (bm : BlockMemory M) (p : PendingRequest) (res : Result IoErr ℕ) (m : M) where
  abbrev pub code_of : ℕ
  code_of = if is_known p.type_of then (if is_done p.type_of p.data_len res then 0 else 1) else 2

  -- The status is in memory and counted with the bytes, or it could not be written and the guest is
  -- told of no byte.
  pub data OnFinish : FinishedRequest × M → Type 0 where
    told :
        {r : FinishedRequest} {m' : M}
        → bm.write_u8 m p.status_addr code_of ≡ some m'
        → r.desc_idx ≡ p.desc_idx
        → r.num_bytes_to_mem ≡ into_memory p.type_of res + 1
        → 0 < r.num_bytes_to_mem
        → r.num_bytes_to_mem ≤ transferred res + 1
        → OnFinish (r, m')
    discarded :
        {r : FinishedRequest}
        → bm.write_u8 m p.status_addr code_of ≡ none
        → r.desc_idx ≡ p.desc_idx
        → r.num_bytes_to_mem ≡ 0
        → OnFinish (r, m)

  pub finish-OnFinish : transferred res + 1 < 2 ^ 32 → OnFinish (finish bm p res m)
  unfolding finish write_status_and_finish status_written
  finish-OnFinish small = go (bm.write_u8 m p.status_addr (status_code s)) refl
    where
      s : Status
      s = status_of p.type_of p.data_len res

      h : IsStatus p.type_of p.data_len res s
      h = status_of-IsStatus p.type_of p.data_len res

      go :
          (o : Option M)
          → bm.write_u8 m p.status_addr (status_code s) ≡ o
          → OnFinish (status_written bm p (status_bytes s) m o)
      go none e = discarded (sym (ap (λ c. bm.write_u8 m p.status_addr c) h.code) ∙ e) refl refl
      go (some m') e =
          told (sym (ap (λ c. bm.write_u8 m p.status_addr c) h.code) ∙ e) refl
            (omega (arith, h.bounded, h.counted, small)) (omega (arith, h.bounded, small))
            (omega (arith, h.bounded, small))

-- What the engines promise: they transfer no more bytes than there are, and a flush none.
pub record IsFileEngine {E M : Type 0} (fe : FileEngine E M) : Type 0 where
  pub read_bound :
      {at addr len n : ℕ} {p : PendingRequest} {e : E} {m : M} {t : E × M}
      → fe.read at addr len p e m ≡ (done_now n, t)
      → n ≤ len
  pub write_bound :
      {at addr len n : ℕ} {p : PendingRequest} {e : E} {m : M} {t : E × M}
      → fe.write at addr len p e m ≡ (done_now n, t)
      → n ≤ len
  pub flush_none :
      {n : ℕ} {p : PendingRequest} {e : E} {m : M} {t : E × M}
      → fe.flush_file p e m ≡ (done_now n, t)
      → n ≡ 0

module _ {E M : Type 0} (bm : BlockMemory M) (fe : FileEngine E M) (law : IsFileEngine fe)
    (write_slice : M → ℕ → List ℕ → Option M) (req : Request) (desc_idx : ℕ)
    (small : req.data_len + 1 < 2 ^ 32) where
  abbrev pending : PendingRequest
  pending = record {
    type_of = req.type_of;
    data_len = req.data_len;
    status_addr = req.status_addr;
    desc_idx = desc_idx;
  }

  module _ (image_id : List ℕ) (e : E) (m : M) where
    -- The engine, called for the request's type at the byte of its sector, gave `o`.
    pub data Gave (o : Done × (E × M)) : Type 0 where
      of_read :
          req.type_of ≡ in_request
          → fe.read (u64 (req.sector * 512)) req.data_addr req.data_len pending e m ≡ o
          → Gave o
      of_write :
          req.type_of ≡ out_request
          → fe.write (u64 (req.sector * 512)) req.data_addr req.data_len pending e m ≡ o
          → Gave o
      of_flush : req.type_of ≡ flush → fe.flush_file pending e m ≡ o → Gave o

    -- What came of a request that was done or failed, and what it left.
    pub data Came : Result IoErr ℕ → E × M → Type 0 where
      moved : {t : E × M} (n : ℕ) → Gave (done_now n, t) → Came (ok n) t
      refused : {t : E × M} → Gave (not_done false, t) → Came (err (file_engine false)) t
      id_given :
          {m' : M}
          → req.type_of ≡ get_device_id
          → write_slice m req.data_addr image_id ≡ some m'
          → Came (ok 20) (e, m')
      id_lost :
          req.type_of ≡ get_device_id
          → write_slice m req.data_addr image_id ≡ none
          → Came (err get_id) (e, m)
      not_known : (op : ℕ) → req.type_of ≡ unsupported op → Came (ok 0) (e, m)

    pub data OnProcess : ProcessingResult × (E × M) → Type 0 where
      queued : {t : E × M} → Gave (done_later, t) → OnProcess (submitted, t)
      later : {t : E × M} → Gave (not_done true, t) → OnProcess (throttled, t)
      answered :
          {r : FinishedRequest} {e' : E} {m₁ m₂ : M} (res : Result IoErr ℕ)
          → Came res (e', m₁)
          → transferred res ≤ req.data_len
          → OnFinish bm pending res m₁ (r, m₂)
          → OnProcess (executed r, (e', m₂))
