-- ===== src/Transport/Sending.antt =====
-- The sender of src/transport.rs, for a source that does not change.
use happy_active_everywhere.Base.{
  ℕ, ◌+◌, ◌-◌, ◌*◌, ◌≤◌, ◌<◌, min, true, some, List, [], ◌∷◌, ◌++◌, length, take, get_elem?, ◌≡◌,
  refl, arith, ap, Result, ok, ◌∙◌, lt→ltb, le→leb, ==_iff,
}
use happy_active_everywhere.Base.Text.{Text}
use happy_active_everywhere.Base.Order.{≟-refl, list_ord}
use happy_active_everywhere.Storage.{
  Manifest, block_size, block_len, validate, same_blocks, same_manifest, offset, OpenFile,
  from_file, matches,
}
use happy_active_everywhere.Storage.FileBytes.{Bytes, read_at, drop, length-drop, length-take}
use happy_active_everywhere.Storage.Blocks.{validate-sizes, block_len-bounds}
use happy_active_everywhere.Storage.Reading.{block_at}
use happy_active_everywhere.Storage.Manifests.{IsHexHash, from_file-manifest, from_file-enough}
use happy_active_everywhere.Transport.{write_u64, send_blocks}

read_at-eq :
    (o n : ℕ) (file : Bytes) → o + n ≤ length file → read_at o n file ≡ some (take n (drop o file))
unfolding read_at
read_at-eq o n file h = rw (le→leb n (length (drop o file)) (omega (arith, length-drop o file)))

module _ (hash : Bytes → Text) where
  -- The manifest is that of a file with this content.
  abbrev pub Describes : Manifest → Bytes → Type 0
  Describes m source =
      (validate m ≡ ok tt)
      × (m.size ≤ length source)
      × ((i : ℕ)
          → i < length m.blocks
          → get_elem? m.blocks i ≡ some (hash (block_at m.size i source)))

  pub from_file-Describes :
      (f : OpenFile) {m : Manifest} → from_file hash f ≡ ok m → IsHexHash hash → Describes m f.bytes
  from_file-Describes f {m} h hex =
      let (size, _, _, v) = from_file-manifest hash f 0 h hex in
      let (_, blocks) = validate-sizes m v in
      (
        v,
        rw size (from_file-enough hash f h),
        (λ i l.
            let (_, _, g, _) = from_file-manifest hash f i h hex in
            g ∙ rw (lt→ltb (i * block_size) m.size (omega arith))),
      )

  -- A block of the source is read, and has the hash of the manifest.
  pub Describes-block :
      (m : Manifest) (source : Bytes) (i : ℕ)
      → Describes m source
      → i < length m.blocks
      → (n : ℕ) × (block_len m i ≡ ok n)
        × (length (block_at m.size i source) ≡ n)
        × (read_at (offset i) n source ≡ some (block_at m.size i source))
        × (matches hash m i (some (block_at m.size i source)) ≡ true)
  unfolding matches
  Describes-block m source i (v, enough, each) l =
      let (n, e, o, _, small, q, ends) = block_len-bounds m i v l in
      let length_eq : length (block_at m.size i source) ≡ n =
        length-take (min (m.size - i * block_size) block_size) (drop (i * block_size) source)
        ∙ omega (arith, length-drop (i * block_size) source) in
      (
        n,
        e,
        length_eq,
        rw o (
            read_at-eq (i * block_size) n source (omega arith)
            ∙ ap (λ k. some (take k (drop (i * block_size) source))) q),
        rw (matches, each i l) (≟-refl (hash (block_at m.size i source))),
      )

  -- The first round of `send_blocks`.
  pub send_blocks-step :
      (check : ℕ → Result (Unit {0})) (m : Manifest) (source : Bytes) (i : ℕ) (missing : List ℕ)
      (rest : Bytes)
      → check i ≡ ok tt
      → Describes m source
      → i < length m.blocks
      → send_blocks hash check source m missing ≡ ok rest
      → send_blocks hash check source m (i ∷ missing)
        ≡ ok (write_u64 i ++ (block_at m.size i source ++ rest))
  unfolding send_blocks
  send_blocks-step check m source i missing rest c d l h =
      let (n, e, _, r, q) = Describes-block m source i d l in rw (send_blocks, c, e, r, q, h)

same_blocks_refl : (l : List Text) → same_blocks l l ≡ true
unfolding same_blocks
same_blocks_refl [] = refl
same_blocks_refl (x ∷ l) = rw (≟-refl x) (same_blocks_refl l)

pub same_manifest_refl : (m : Manifest) → same_manifest m m ≡ true
unfolding same_manifest
same_manifest_refl m = rw ((==_iff m.size m.size).1 refl, ≟-refl m.hash, same_blocks_refl m.blocks)
