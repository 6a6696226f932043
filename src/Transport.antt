-- ===== src/Transport.antt =====
-- src/transport.rs: how the blocks of a file go over a stream, between `send_object` and
-- `receive_object`. A stream is the list of its bytes.
pub mod Words
pub mod Sending
pub mod Receiving
pub mod Content
pub mod Transfer
mod Tests
use happy_active_everywhere.Base.{
  ℕ, zero, suc, ◌+◌, ◌*◌, ◌/◌, ◌%◌, ◌^◌, Bool, true, false, ◌&&◌, List, [], ◌∷◌, ◌++◌, leb, ◌==◌,
  length, ascending, Result, ok, err, ensure, context, ◌>>=◌, ◌>>◌, Option, some,
}
use happy_active_everywhere.Base.Order.{◌≟◌, list_ord}
use happy_active_everywhere.Base.Text.{Text}
use happy_active_everywhere.Storage.{
  Manifest, block_len, validate, same_manifest, offset, Found, OpenFile, from_file, Receiver,
  matches, put, missing_from,
}
use happy_active_everywhere.Wire.{recv_exact}
use happy_active_everywhere.Storage.FileBytes.{Bytes, read_at}

-- `write_u64` and `read_u64`, most significant byte first.
unfoldable pub write_u64 : ℕ → Bytes
write_u64 n =
    n / 2 ^ 56 % 256
    ∷ n / 2 ^ 48 % 256
    ∷ n / 2 ^ 40 % 256
    ∷ n / 2 ^ 32 % 256
    ∷ n / 2 ^ 24 % 256
    ∷ n / 2 ^ 16 % 256
    ∷ n / 2 ^ 8 % 256
    ∷ n % 256
    ∷ []

unfoldable pub read_u64 : Bytes → Result (ℕ × Bytes)
read_u64 (a ∷ b ∷ c ∷ d ∷ e ∷ f ∷ g ∷ h ∷ rest) = ok (
  a * 2 ^ 56 + b * 2 ^ 48 + c * 2 ^ 40 + d * 2 ^ 32 + e * 2 ^ 24 + f * 2 ^ 16 + g * 2 ^ 8 + h,
  rest,
)
read_u64 _ = err "early eof"

-- What the sender checks of a request.
unfoldable pub check_request : Manifest → List ℕ → Result (Unit {0})
check_request manifest missing =
    ensure (leb (length missing) (length manifest.blocks) && ascending missing)
      "invalid block request"

-- The `receiving` half of `send_blocks`: the acknowledgements come in the order of the blocks.
unfoldable pub await_acks : List ℕ → List ℕ → Result (Unit {0})
await_acks [] acks = ok tt
await_acks (index ∷ missing) [] = err "early eof"
await_acks (index ∷ missing) (ack ∷ acks) = do
  ensure (ack == index) "unexpected acknowledgement"
  await_acks missing acks

module _ (hash : Bytes → Text) where
  -- `receive_object` up to its request: what the approval answers, the manifest that came, the part file
  -- that is there, and the files that blocks may be reused from.
  unfoldable pub open_request :
      Result (Unit {0})
      → Manifest
      → Text
      → Bytes
      → Found
      → Option Found
      → Result (List ℕ × Receiver)
  open_request approved manifest wanted part target basis = do
    validate manifest
    ensure (manifest.hash ≟ wanted) "unrequested content object"
    approved
    missing_from hash (record { part = part; manifest = manifest; finished = false }) target basis

  -- `send_object` up to the manifest it sends. The file is as `from_file` finds it.
  unfoldable pub offer : Result (Unit {0}) → OpenFile → Text → Result Manifest
  offer approved file wanted = do
    approved
    manifest ← from_file hash file
    ensure (manifest.hash ≟ wanted) "shared content object is corrupt"
    ok manifest

-- `check` is what the approval answers when a block's turn comes.
module _ (hash : Bytes → Text) (check : ℕ → Result (Unit {0})) where
  -- The `sending` half of `send_blocks`: what it writes. `source` is the content of the source file.
  unfoldable pub send_blocks : Bytes → Manifest → List ℕ → Result Bytes
  send_blocks source manifest [] = ok []
  send_blocks source manifest (index ∷ missing) = do
    check index
    n ← block_len manifest index
    bytes ← context (read_at (offset index) n source) "failed to fill whole buffer"
    ensure (matches hash manifest index (some bytes)) "source changed during transfer"
    rest ← send_blocks source manifest missing
    ok (write_u64 index ++ (bytes ++ rest))

  -- The loop of `receive_object`: the acknowledgements it sends, what it leaves in the stream, and the
  -- receiver.
  unfoldable pub receive_blocks : List ℕ → Bytes → Receiver → Result (List ℕ × Bytes × Receiver)
  receive_blocks [] stream r = ok ([], stream, r)
  receive_blocks (index ∷ missing) stream r = do
    check index
    (received, after) ← read_u64 stream
    ensure (received == index) "unexpected object block"
    n ← block_len r.manifest index
    (bytes, left) ← recv_exact n after
    r1 ← put hash r index bytes
    (acks, end, r2) ← receive_blocks missing left r1
    ok (index ∷ acks, end, r2)

  -- `send_object` from the request that came to the commit: what it writes in between. `again` is the
  -- file as `from_file` finds it afterwards, `approved` what the approval answers then.
  unfoldable pub deliver : Result (Unit {0}) → Bytes → OpenFile → Manifest → List ℕ → Result Bytes
  deliver approved source again manifest missing = do
    check_request manifest missing
    stream ← send_blocks source manifest missing
    now ← from_file hash again
    ensure (same_manifest now manifest) "shared object changed during transfer"
    approved
    ok stream
