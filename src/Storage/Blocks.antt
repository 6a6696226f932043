-- ===== src/Storage/Blocks.antt =====
-- The blocks of a file: where `validate` accepts a manifest, its blocks tile the file.
use happy_active_everywhere.Base.{
  lt→ltb, ℕ, zero, suc, ◌+◌, ◌-◌, ◌*◌, ◌≤◌, ◌<◌, min, length, ◌≡◌, refl, arith, ap, ◌>>=◌, Result,
  ok, ◌∙◌,
}
use happy_active_everywhere.Storage.{
  Manifest, block_size, max_size, div_ceil, block_len, validate, sub_u64, mul_u64, offset,
}

-- What `validate` checks of the sizes.
pub validate-sizes :
    (m : Manifest)
    → validate m ≡ ok tt
    → (m.size ≤ max_size) × (length m.blocks ≡ div_ceil m.size block_size)
unfolding validate
validate-sizes m h = ground arith

no_wrap :
    (m : Manifest) (index : ℕ)
    → validate m ≡ ok tt
    → index < length m.blocks
    → sub_u64 m.size (mul_u64 index block_size) ≡ m.size - index * block_size
unfolding sub_u64 mul_u64
no_wrap m index h i = let (s, l) = validate-sizes m h in omega arith

pub block_len-bounds :
    (m : Manifest) (index : ℕ)
    → validate m ≡ ok tt
    → index < length m.blocks
    → (n : ℕ) × (block_len m index ≡ ok n)
      × (offset index ≡ index * block_size)
      × (0 < n)
      × (n ≤ block_size)
      × (n ≡ min (m.size - index * block_size) block_size)
      × (index * block_size + n ≤ m.size)
unfolding block_len offset mul_u64
block_len-bounds m index h i =
    let (s, l) = validate-sizes m h in
    (
      min (m.size - index * block_size) block_size,
      rw (lt→ltb index (length m.blocks) i, no_wrap m index h i),
      omega arith,
      omega arith,
      omega arith,
      refl,
      omega arith,
    )

-- The lengths of the first blocks, added up.
unfoldable pub total_len : Manifest → ℕ → Result ℕ
total_len m zero = ok 0
total_len m (suc k) = do before ← total_len m k; n ← block_len m k; ok (before + n)

total_len-min :
    (m : Manifest) (k : ℕ)
    → validate m ≡ ok tt
    → k ≤ length m.blocks
    → total_len m k ≡ ok (min (k * block_size) m.size)
unfolding total_len
total_len-min m zero h l = ap ok (omega arith)
total_len-min m (suc k) h l =
    let (n, e, _, _, _, q, _) = block_len-bounds m k h l in
    let ih = total_len-min m k h (omega arith) in rw (ih, e) (ap ok (omega arith))

-- The blocks of a valid manifest tile the file: their lengths add up to its size.
pub total_len-size : (m : Manifest) → validate m ≡ ok tt → total_len m (length m.blocks) ≡ ok m.size
total_len-size m h =
    let (s, l) = validate-sizes m h in
    total_len-min m (length m.blocks) h (omega arith) ∙ ap ok (omega arith)
