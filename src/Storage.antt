-- ===== src/Storage.antt =====
-- src/storage.rs: the manifest of a file, its blocks, and the receiver that fills a part file block
-- by block. `hash` is the hexadecimal BLAKE3 hash of a sequence of bytes.
pub mod FileBytes
pub mod Blocks
pub mod Reading
pub mod Manifests
pub mod Puts
pub mod Rounds
pub mod Missing
pub mod Sample
mod Tests
use happy_active_everywhere.Base.{
  ℕ, zero, suc, ◌+◌, ◌-◌, ◌*◌, ◌/◌, ◌%◌, ◌^◌, min, Bool, true, false, ◌&&◌, not, Option, none, some,
  List, [], ◌∷◌, ◌++◌, ltb, leb, ◌==◌, if◌then◌else◌, length, get_elem?, take, all, Result, ok, err,
  ensure, context, ◌>>=◌, ◌>>◌, String,
}
use happy_active_everywhere.Base.Order.{◌≟◌, list_ord}
use happy_active_everywhere.Base.Text.{Text, valid_hash}
use happy_active_everywhere.Storage.FileBytes.{Bytes, read_at, write_at, drop}

abbrev pub block_size : ℕ
block_size = 1048576

abbrev pub max_size : ℕ
max_size = 1099511627776

pub record Manifest : Type 0 where
  pub size : ℕ
  pub hash : Text
  pub blocks : List Text

-- `u64` subtraction and multiplication, which wrap in a release build. (A debug build panics where
-- they would.)
unfoldable pub sub_u64 : ℕ → ℕ → ℕ
sub_u64 a b = (a + 2 ^ 64 - b) % 2 ^ 64

unfoldable pub mul_u64 : ℕ → ℕ → ℕ
mul_u64 a b = a * b % 2 ^ 64

-- `u64::div_ceil`.
abbrev pub div_ceil : ℕ → ℕ → ℕ
div_ceil a b = (a + (b - 1)) / b

unfoldable pub block_len : Manifest → ℕ → Result ℕ
unfolding sub_u64 mul_u64
block_len manifest index = do
  ensure (ltb index (length manifest.blocks)) "block out of range"
  ok (min (sub_u64 manifest.size (mul_u64 index block_size)) block_size)

unfoldable pub validate : Manifest → Result (Unit {0})
validate manifest = do
  ensure (leb manifest.size max_size) "file exceeds 1 TiB alpha limit"
  ensure (length manifest.blocks == div_ceil manifest.size block_size) "block count mismatch"
  ensure (valid_hash manifest.hash && all valid_hash manifest.blocks) "invalid hash"

-- `==` of manifests.
unfoldable pub same_blocks : List Text → List Text → Bool
same_blocks [] [] = true
same_blocks [] (y ∷ ys) = false
same_blocks (x ∷ xs) [] = false
same_blocks (x ∷ xs) (y ∷ ys) = (x ≟ y) && same_blocks xs ys

unfoldable pub same_manifest : Manifest → Manifest → Bool
unfolding same_blocks
same_manifest a b = a.size == b.size && (a.hash ≟ b.hash) && same_blocks a.blocks b.blocks

-- What `File::metadata` tells.
pub record Metadata : Type 0 where
  pub is_file : Bool
  pub len : ℕ
  pub modified : ℕ

-- An open file: its metadata when `from_file` asks first and last, and the bytes that reads deliver
-- in between.
pub record OpenFile : Type 0 where
  pub before : Metadata
  pub after : Metadata
  pub bytes : Bytes

-- `read_exact`: the bytes that were asked for, and those that follow.
unfoldable pub read_exact : ℕ → Bytes → Result (Bytes × Bytes)
read_exact n bytes =
    if leb n (length bytes)
    then ok (take n bytes, drop n bytes)
    else err "failed to fill whole buffer"

-- What `Receiver` holds in memory and in its part file. The target, the journal and the locks are
-- not part of this model.
pub record Receiver : Type 0 where
  pub part : Bytes
  pub manifest : Manifest
  pub finished : Bool

-- Where a block stands in a file.
unfoldable pub offset : ℕ → ℕ
unfolding mul_u64
offset index = mul_u64 index block_size

-- `missing.push(index)`, if the block is missing.
abbrev pub note : Bool → ℕ → List ℕ → List ℕ
note true index rest = index ∷ rest
note false index rest = rest

-- What stands at a path that `regular` looks at.
pub data Found : Type 0 where
  absent : Found
  irregular : Found
  file_of : (bytes : Bytes) → Found

-- `regular`, with the content of the file that is there, which is opened next.
unfoldable pub regular : Found → Result (Option Bytes)
regular absent = ok none
regular irregular = err "not a regular file"
regular (file_of bytes) = ok (some bytes)

-- The file of the optional basis.
unfoldable pub basis_file : Option Found → Result (Option Bytes)
unfolding regular
basis_file none = ok none
basis_file (some basis) = do
  file ← regular basis
  bytes ← context file "reuse basis must be a regular file"
  ok (some bytes)

-- The file that blocks are reused from: the target where there is one, else the basis.
unfoldable pub existing_file : Found → Option Found → Result (Option Bytes)
unfolding regular basis_file
existing_file target basis = do
  file ← regular target
  elim file [ some bytes ↦ ok (some bytes) | none ↦ basis_file basis ]

module _ (hash : Bytes → Text) where
  -- The `while` loop of `from_file`, with the bytes read so far, which the full hash is of. Each
  -- round reads at least one byte, so the number of bytes that remain is enough fuel.
  unfoldable pub read_blocks : ℕ → ℕ → Bytes → Bytes → Result (List Text × Bytes)
  unfolding read_exact
  read_blocks zero remaining bytes full = ok ([], full)
  read_blocks (suc fuel) remaining bytes full = elim (ltb 0 remaining) [
    | false ↦ ok ([], full)
    | true ↦ do
      (chunk, rest) ← read_exact (min remaining block_size) bytes
      (blocks, all_bytes) ←
          read_blocks fuel (remaining - min remaining block_size) rest (full ++ chunk)
      ok (hash chunk ∷ blocks, all_bytes)
  ]

  unfoldable pub from_file : OpenFile → Result Manifest
  unfolding read_blocks
  from_file file = do
    ensure file.before.is_file "source must be a regular file"
    ensure (leb file.before.len max_size) "file exceeds 1 TiB alpha limit"
    (blocks, full) ← read_blocks file.before.len file.before.len file.bytes []
    ensure (file.before.len == file.after.len && file.before.modified == file.after.modified)
        "source changed during hashing"
    ok (record { size = file.before.len; hash = hash full; blocks = blocks })

  -- Whether bytes have the hash of a block. Out of range the code panics; it asks `block_len` first.
  unfoldable pub matches : Manifest → ℕ → Option Bytes → Bool
  matches manifest index none = false
  matches manifest index (some bytes) = elim (get_elem? manifest.blocks index) [
    | none ↦ false
    | some expected ↦ hash bytes ≟ expected
  ]

  -- `Receiver::put`.
  unfoldable pub put : Receiver → ℕ → Bytes → Result Receiver
  unfolding block_len offset write_at matches
  put r index bytes = do
    ensure (not r.finished) "receiver already complete"
    n ← block_len r.manifest index
    ensure (length bytes == n) "block length mismatch"
    ensure (matches r.manifest index (some bytes)) "block hash mismatch"
    ok (record r { part = write_at (offset index) bytes r.part })

  -- One round of the loop of `missing_from`: whether the block is missing, and the receiver, which
  -- has taken the block from the existing file where that has it.
  unfoldable pub missing_block : ℕ → ℕ → Option Bytes → Receiver → Result (Bool × Receiver)
  missing_block index n existing r =
      elim (matches r.manifest index (read_at (offset index) n r.part)) [
        | true ↦ ok (false, r)
        | false ↦ elim existing [
          | none ↦ ok (true, r)
          | some file ↦ elim (read_at (offset index) n file) [
            | none ↦ ok (true, r)
            | some bytes ↦ elim (matches r.manifest index (some bytes)) [
              | true ↦ do r' ← put r index bytes; ok (false, r')
              | false ↦ ok (true, r)
            ]
          ]
        ]
      ]

  unfoldable pub missing_loop : ℕ → ℕ → Option Bytes → Receiver → Result (List ℕ × Receiver)
  missing_loop zero index existing r = ok ([], r)
  missing_loop (suc rounds) index existing r = do
    n ← block_len r.manifest index
    (lacks, r') ← missing_block index n existing r
    (rest, r'') ← missing_loop rounds (index + 1) existing r'
    ok (note lacks index rest, r'')

  -- `Receiver::missing_from`.
  unfoldable pub missing_from : Receiver → Found → Option Found → Result (List ℕ × Receiver)
  missing_from r target basis = do
    existing ← existing_file target basis
    missing_loop (length r.manifest.blocks) 0 existing r
