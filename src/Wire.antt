-- ===== src/Wire.antt =====
-- src/wire.rs: messages in frames with a length before them, and the heartbeats between.
pub mod Streams
pub mod Frames
mod Tests
use happy_active_everywhere.Base.{
  ℕ, zero, suc, ◌+◌, ◌*◌, ◌/◌, ◌%◌, ◌^◌, Bool, true, false, List, [], ◌∷◌, ◌++◌, leb, length, take,
  if◌then◌else◌, Result, ok, err, ensure, ◌>>=◌, ◌>>◌, Option, none, some,
}
use happy_active_everywhere.Storage.FileBytes.{Bytes, drop}

-- `MAX_FRAME`.
abbrev pub max_frame : ℕ
max_frame = 80 * 1024 * 1024

-- `write_u32` and `read_u32`, most significant byte first.
unfoldable pub write_u32 : ℕ → Bytes
write_u32 n = n / 2 ^ 24 % 256 ∷ n / 2 ^ 16 % 256 ∷ n / 2 ^ 8 % 256 ∷ n % 256 ∷ []

unfoldable pub read_u32 : Bytes → Result (ℕ × Bytes)
read_u32 (a ∷ b ∷ c ∷ d ∷ rest) = ok (a * 2 ^ 24 + b * 2 ^ 16 + c * 2 ^ 8 + d, rest)
read_u32 _ = err "early eof"

-- `read_exact` of a stream: the bytes that were asked for, and those that follow.
unfoldable pub recv_exact : ℕ → Bytes → Result (Bytes × Bytes)
recv_exact n stream =
    if leb n (length stream) then ok (take n stream, drop n stream) else err "early eof"

pub data Packet (V : Type 0) : Type 0 where
  busy : Packet V
  ready : (value : V) → Packet V

-- `encode` and `decode` are the JSON text of a packet and its parser. `frame` is the limit.
module _ {V : Type 0} (encode : Packet V → Bytes) (decode : Bytes → Result (Packet V))
    (frame : ℕ) where
  -- What `packet` writes. The length is cut to 32 bits.
  unfoldable pub packet : Packet V → Result Bytes
  packet p = do
    let bytes = encode p
    ensure (leb (length bytes) frame) "frame too large"
    ok (write_u32 (length bytes % 2 ^ 32) ++ bytes)

  unfoldable pub send : V → Result Bytes
  send value = packet (ready value)

  -- What `work` writes while its operation runs, of which `ticks` heartbeats have come.
  unfoldable pub work : ℕ → Result Bytes
  work zero = ok []
  work (suc ticks) = do beat ← packet busy; rest ← work ticks; ok (beat ++ rest)

  -- One round of the loop of `read`: a packet, and the stream after it.
  unfoldable pub read_packet : Bytes → Result (Packet V × Bytes)
  unfolding read_u32 recv_exact
  read_packet stream = do
    (size, after) ← read_u32 stream
    ensure (leb size frame) "frame too large"
    (bytes, rest) ← recv_exact size after
    p ← decode bytes
    ok (p, rest)

  -- The loop of `read`, and `none` where the fuel is used up.
  unfoldable pub read_loop : ℕ → Bytes → Option (Result (V × Bytes))
  unfolding read_packet
  read_loop zero stream = none
  read_loop (suc fuel) stream = elim (read_packet stream) [
    | err message ↦ some (err message)
    | ok (p, rest) ↦ elim p [ ready value ↦ some (ok (value, rest)) | busy ↦ read_loop fuel rest ]
  ]

  -- Each round takes at least four bytes of the stream, so its length leaves fuel over.
  unfoldable pub read : Bytes → Option (Result (V × Bytes))
  unfolding read_loop
  read stream = read_loop (suc (length stream)) stream
