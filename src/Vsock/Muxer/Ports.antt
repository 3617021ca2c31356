-- ===== src/Vsock/Muxer/Ports.antt =====
-- The host-side ports of `VsockMuxer`, src/devices/src/virtio/vsock/unix/muxer.rs.
use firecracker.Base.{
  ℕ, zero, suc, ◌+◌, ◌-◌, ◌^◌, bit_and, bit_or, Bool, Option, none, some, List, [], ◌∷◌, ◌++◌,
  length, ◌==◌, if◌then◌else◌, u32,
}
use firecracker.Vsock.Muxer.{Host, VsockMuxer, has_port}
pub mod Fresh

-- The number after a port, with bit 31 cleared and bit 30 set.
unfoldable pub port_after : ℕ → ℕ
port_after last = bit_or (bit_and (u32 (last + 1)) (2 ^ 32 - 1 - 2 ^ 31)) (2 ^ 30)

-- The loop of `allocate_local_port`: the fuel counts its rounds.
unfoldable pub find_port : ℕ → ℕ → List ℕ → Option ℕ
find_port zero last used = none
find_port (suc fuel) last used =
    let port = port_after last in
    let rest = find_port fuel port used in if has_port port used then rest else some port

-- A round for each port that is used, and one more.
unfoldable pub allocated : {S W : Type 0} → VsockMuxer S W → Option ℕ → Option (ℕ × VsockMuxer S W)
allocated mx none = none
allocated mx (some port) =
    some (port, record mx { local_port_last = port; local_port_set = port ∷ mx.local_port_set })

unfoldable pub allocate_local_port : {S W : Type 0} → VsockMuxer S W → Option (ℕ × VsockMuxer S W)
allocate_local_port mx =
    allocated mx (find_port (suc (length mx.local_port_set)) mx.local_port_last mx.local_port_set)

unfoldable pub last_byte : List ℕ → ℕ
last_byte [] = 0
last_byte (x ∷ []) = x
last_byte (x ∷ y ∷ ys) = last_byte (y ∷ ys)

module _ {S W : Type 0} (io : Host S W) where
  unfoldable pub read_next :
      (List ℕ → S → Option (List ℕ) × S) → List ℕ → Option (List ℕ) × S → Option (List ℕ) × S
  read_next again bytes (none, s) = (none, s)
  read_next again bytes (some more, s) = again (bytes ++ more) s

  -- What is read one byte at a time, up to the end of the line or of the buffer.
  unfoldable pub read_line : ℕ → List ℕ → S → Option (List ℕ) × S
  read_line zero bytes s = (some bytes, s)
  read_line (suc room) bytes s =
      if last_byte bytes == b'\n'
      then (some bytes, s)
      else read_next (read_line room) bytes (io.read_exact 1 s)

  -- The second word, where the first is `connect`.
  unfoldable pub port_of_words : Option (List (List ℕ)) → Option ℕ
  port_of_words none = none
  port_of_words (some []) = none
  port_of_words (some (word ∷ [])) = none
  port_of_words (some (word ∷ port ∷ rest)) = if io.is_connect word then io.parse_u32 port else none

  unfoldable pub port_of_line : Option (List ℕ) × S → Option ℕ × S
  port_of_line (none, s) = (none, s)
  port_of_line (some line, s) = (port_of_words (io.words line), s)

  -- The buffer has 32 bytes, of which 10 are read at first.
  unfoldable pub read_local_stream_port : S → Option ℕ × S
  read_local_stream_port s = port_of_line (read_next (read_line (32 - 10)) [] (io.read_exact 10 s))
