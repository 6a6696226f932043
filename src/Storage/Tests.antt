-- ===== src/Storage/Tests.antt =====
-- The operations of src/storage.rs at a file of three bytes, and the theorems there.
use happy_active_everywhere.Base.{
  ℕ, ◌*◌, true, false, none, some, List, [], ◌∷◌, ◌≡◌, refl, arith, ok, take, ltb, get_elem?,
  if◌then◌else◌, inr, ◌⊎◌, ascending,
}
use happy_active_everywhere.Base.In.{In}
use happy_active_everywhere.Base.Order.{lex, list_ord}
use happy_active_everywhere.Base.Text.{valid_hash}
use happy_active_everywhere.Storage.{
  Receiver, block_size, block_len, validate, put, missing_from, offset, matches, existing_file,
  absent, file_of, regular, basis_file, missing_loop, missing_block,
}
use happy_active_everywhere.Storage.FileBytes.{read_at}
use happy_active_everywhere.Storage.Reading.{block_at}
use happy_active_everywhere.Storage.Manifests.{from_file-manifest}
use happy_active_everywhere.Storage.Sample.{
  sample, zeros, sample_hash, sample_hash-IsHexHash, sample_file, sample_manifest, from_file_sample,
}
use happy_active_everywhere.Storage.Puts.{IsStored, put-stores}
use happy_active_everywhere.Storage.Missing.{missing_from_complete, missing_from-reuses}

validate_sample : validate sample_manifest ≡ ok tt
unfolding validate valid_hash
validate_sample = refl

abbrev empty : Receiver
empty = record { part = []; manifest = sample_manifest; finished = false }

abbrev full : Receiver
full = record { part = sample; manifest = sample_manifest; finished = false }

put-sample : put sample_hash empty 0 sample ≡ ok full
unfolding put list_ord lex
put-sample = refl

missing_all : missing_from sample_hash empty absent none ≡ ok (0 ∷ [], empty)
unfolding missing_from list_ord lex existing_file missing_loop block_len missing_block matches
    read_at offset put
missing_all = refl

missing_nothing : missing_from sample_hash empty absent (some (file_of sample)) ≡ ok ([], full)
unfolding missing_from list_ord lex existing_file missing_loop block_len missing_block matches
    read_at offset put
missing_nothing = refl

sample-IsStored : IsStored sample_hash sample_manifest 0 sample
unfolding IsStored block_len matches read_at offset list_ord lex
sample-IsStored = (3, refl, refl)

reuse_nothing : existing_file absent none ≡ ok none
unfolding existing_file regular basis_file
reuse_nothing = refl

reuse_sample : existing_file absent (some (file_of sample)) ≡ ok (some sample)
unfolding existing_file regular basis_file
reuse_sample = refl

from_file-manifest_example :
    (sample_manifest.size ≡ 3)
    × (zeros ≡ sample_hash (take 3 sample))
    × (get_elem? (zeros ∷ []) 0
        ≡ (if ltb (0 * block_size) 3 then some (sample_hash (block_at 3 0 sample)) else none))
    × (validate sample_manifest ≡ ok tt)
from_file-manifest_example =
    from_file-manifest sample_hash sample_file 0 from_file_sample sample_hash-IsHexHash

put-stores_example :
    (read_at (offset 0) 3 sample ≡ some sample)
    × IsStored sample_hash sample_manifest 0 sample
    × ((¬ IsStored sample_hash sample_manifest 0 [])
        ⊎ IsStored sample_hash sample_manifest 0 sample)
    × (sample_manifest ≡ sample_manifest)
    × (false ≡ false)
put-stores_example = put-stores sample_hash empty 0 0 sample {r' = full} validate_sample put-sample

missing_from_complete_example :
    (missing : List ℕ) × (r' : Receiver) × (missing_from sample_hash empty absent none
      ≡ ok (missing, r'))
    × (r'.manifest ≡ sample_manifest)
    × (r'.finished ≡ false)
    × (ascending missing ≡ true)
    × (In 0 missing ⊎ IsStored sample_hash sample_manifest 0 r'.part)
missing_from_complete_example =
    missing_from_complete sample_hash empty absent none 0 validate_sample refl reuse_nothing
      (omega arith)

missing_from-reuses_example :
    (missing : List ℕ) × (r' : Receiver) × (missing_from sample_hash empty absent
        (some (file_of sample))
      ≡ ok (missing, r'))
    × (¬ In 0 missing)
    × IsStored sample_hash sample_manifest 0 r'.part
missing_from-reuses_example =
    missing_from-reuses sample_hash empty absent (some (file_of sample)) 0 validate_sample refl
      reuse_sample (omega arith) (inr sample-IsStored)
