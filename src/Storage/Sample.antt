-- ===== src/Storage/Sample.antt =====
-- A file of three bytes, its manifest, and a hash that tells it from all else.
use happy_active_everywhere.Base.{true, [], ◌∷◌, ◌≡◌, refl, ok, if◌then◌else◌, Bool-cases, inl, inr}
use happy_active_everywhere.Base.Order.{◌≟◌, lex, list_ord}
use happy_active_everywhere.Base.Text.{Text, text, valid_hash}
use happy_active_everywhere.Storage.{Manifest, Metadata, OpenFile, from_file}
use happy_active_everywhere.Storage.FileBytes.{Bytes}
use happy_active_everywhere.Storage.Manifests.{IsHexHash}

abbrev pub sample : Bytes
sample = 104 ∷ 97 ∷ 101 ∷ []

abbrev pub zeros : Text
zeros = text "0000000000000000000000000000000000000000000000000000000000000000"

abbrev pub ones : Text
ones = text "1111111111111111111111111111111111111111111111111111111111111111"

-- A hash that tells the sample from all else.
abbrev pub sample_hash : Bytes → Text
sample_hash x = if x ≟ sample then zeros else ones

pub sample_hash-IsHexHash : IsHexHash sample_hash
unfolding valid_hash
sample_hash-IsHexHash x = elim (Bool-cases (x ≟ sample)) [ inl e ↦ rw e refl | inr e ↦ rw e refl ]

abbrev unchanged : Metadata
unchanged = record { is_file = true; len = 3; modified = 7 }

abbrev pub sample_file : OpenFile
sample_file = record { before = unchanged; after = unchanged; bytes = sample }

abbrev pub sample_manifest : Manifest
sample_manifest = record { size = 3; hash = zeros; blocks = zeros ∷ [] }

pub from_file_sample : from_file sample_hash sample_file ≡ ok sample_manifest
unfolding from_file list_ord lex
from_file_sample = refl
