-- ===== src/Vsock/TxBuf.antt =====
-- `TxBuf`, src/devices/src/virtio/vsock/csm/txbuf.rs: a ring buffer of 64 KiB.
use firecracker.Base.{
  ℕ, zero, suc, ◌+◌, ◌-◌, ◌%◌, ◌^◌, ◌≤◌, ◌<◌, Bool, Option, none, some, List, [], ◌∷◌, ◌++◌, length,
  take, drop, replicate, min, ltb, leb, ◌==◌, if◌then◌else◌, u32, sub32, Result, ok, err,
}
pub mod Ring
pub mod Copies
pub mod Refines
pub mod Flush
pub mod Progress

-- Of the kinds of `std::io::Error`, the one that the code tells from the others.
pub data IoErrorKind : Type 0 where
  would_block : IoErrorKind
  other : IoErrorKind

pub data Error : Type 0 where
  tx_buf_full : Error
  tx_buf_flush : IoErrorKind → Error
  stream_write : IoErrorKind → Error

pub record TxBuf : Type 0 where
  pub data_of : Option (List ℕ)
  pub head : ℕ
  pub tail : ℕ

-- `CONN_TX_BUF_SIZE`.
abbrev pub size : ℕ
size = 65_536

unfoldable pub new : TxBuf
new = record { data_of = none; head = 0; tail = 0 }

abbrev pub len : TxBuf → ℕ
len b = sub32 b.head b.tail

-- `copy_from_slice` at an offset.
unfoldable pub copy_at : List ℕ → ℕ → List ℕ → List ℕ
copy_at xs ofs src = take ofs xs ++ (src ++ drop (ofs + length src) xs)

-- The data, allocated on the first push.
unfoldable pub allocated : Option (List ℕ) → List ℕ
allocated none = replicate size 0
allocated (some xs) = xs

-- The one or two copies of a slice that has room.
unfoldable pub put : List ℕ → ℕ → List ℕ → List ℕ
put xs head_ofs src =
    let n = min (size - head_ofs) (length src) in
    let first = copy_at xs head_ofs (take n src) in
    if ltb n (length src) then copy_at first 0 (drop n src) else first

unfoldable pub push : List ℕ → TxBuf → Result Error TxBuf
push src b =
    if ltb size (len b + length src)
    then err tx_buf_full
    else ok (record {
      data_of = some (put (allocated b.data_of) (b.head % size) src);
      head = u32 (b.head + u32 (length src));
      tail = b.tail;
    })

-- `Write::write` of the sink, which is not of this file.
pub record Sink (W : Type 0) : Type 0 where
  pub write : W → List ℕ → Result IoErrorKind ℕ × W

-- The count of the bytes flushed or an error, and the two states; `none` is a panic, or a call for
-- which no fuel is left.
abbrev pub Flushed : Type 0 → Type 0
Flushed W = Option (Result Error ℕ × (TxBuf × W))

unfoldable pub unwrap_or_zero : Result Error ℕ → ℕ
unwrap_or_zero (ok n) = n
unwrap_or_zero (err e) = 0

-- The count of both writes, where an error of the second is absorbed.
unfoldable pub add_rest : {W : Type 0} → ℕ → Flushed W → Flushed W
add_rest written none = none
add_rest written (some (r, s)) = some (ok (written + unwrap_or_zero r), s)

-- What follows the first write, where `again` is the recursive call.
unfoldable pub after_write :
    {W : Type 0} → ℕ → TxBuf → (TxBuf → W → Flushed W) → Result IoErrorKind ℕ × W → Flushed W
after_write len_to_write b again (err kind, w) = some (err (tx_buf_flush kind), (b, w))
after_write len_to_write b again (ok written, w) =
    let b' : TxBuf = record b { tail = u32 (b.tail + u32 written) } in
    if ltb written len_to_write then some (ok written, (b', w)) else add_rest written (again b' w)

abbrev pub first_len : TxBuf → ℕ
first_len b = min (size - b.tail % size) (len b)

module _ {W : Type 0} (sink : Sink W) where
  -- The first write, from the allocated data.
  unfoldable pub write_first : TxBuf → W → (TxBuf → W → Flushed W) → Option (List ℕ) → Flushed W
  write_first b w again none = none
  write_first b w again (some xs) =
      after_write (first_len b) b again
        (sink.write w (take (first_len b) (drop (b.tail % size) xs)))

  -- `flush_to` calls itself after a write of all that it tried; the fuel counts the calls.
  unfoldable pub flush_to : ℕ → TxBuf → W → Flushed W
  flush_to zero b w = none
  flush_to (suc fuel) b w =
      if len b == 0 then some (ok 0, (b, w)) else write_first b w (flush_to fuel) b.data_of
