-- ===== src/Transport/Tests.antt =====
-- A transfer of the sample file, and the theorems of the parts there.
use happy_active_everywhere.Base.{
  Bool-cases, inl, inr, zero, suc, sym, ◌∙◌, ap, true≢false, arith, ℕ, none, some, List, [], ◌∷◌,
  ◌++◌, ◌≡◌, refl, Result, ok, take, ◌⊎◌,
}
use happy_active_everywhere.Base.Order.{◌≟◌, ≟-eq, ≟-refl, list_ord, lex}
use happy_active_everywhere.Base.Text.{Text}
use happy_active_everywhere.Storage.Reading.{block_at}
use happy_active_everywhere.Storage.{Receiver, existing_file, absent, regular, basis_file}
use happy_active_everywhere.Storage.FileBytes.{Bytes, read_at}
use happy_active_everywhere.Storage.Sample.{
  sample, zeros, ones, sample_hash, sample_hash-IsHexHash, sample_file, sample_manifest,
  from_file_sample,
}
use happy_active_everywhere.Transport.{offer, open_request, deliver, receive_blocks, await_acks}
use happy_active_everywhere.Transport.Content.{HasCollision}
use happy_active_everywhere.Transport.Transfer.{transfer-content}

offer_sample : offer sample_hash (ok tt) sample_file zeros ≡ ok sample_manifest
unfolding offer list_ord lex
offer_sample = rw (offer, from_file_sample) refl

reuse_nothing : existing_file absent none ≡ ok none
unfolding existing_file regular basis_file
reuse_nothing = refl

abbrev approve : ℕ → Result (Unit {0})
approve index = ok tt

-- The hash of the sample tells it from all else, so that no part file collides with it.
no_collision : (part : Bytes) → ¬ HasCollision sample_hash sample_manifest sample part
unfolding list_ord lex
no_collision part (zero, l, n, h, d) = elim (Bool-cases (block_at 3 0 part ≟ sample)) [
  | inl same ↦ d (≟-eq (block_at 3 0 part) sample same)
  | inr other ↦ ones≢zeros (sym (rw other) ∙ h)
]
  where
    ones≢zeros : ¬ (ones ≡ zeros)
    ones≢zeros e = true≢false (sym (≟-refl ones) ∙ ap (λ (x : Text). ones ≟ x) e)
no_collision part (suc i, l, n, h, d) = absurd (omega arith)

transfer-content_example :
    (missing : List ℕ) × (r : Receiver) × (stream : Bytes) × (r' : Receiver) × (open_request
        sample_hash
        (ok tt)
        sample_manifest
        zeros
        []
        absent
        none
      ≡ ok (missing, r))
    × (deliver sample_hash approve (ok tt) sample sample_file sample_manifest missing ≡ ok stream)
    × (receive_blocks sample_hash approve missing (stream ++ (9 ∷ [])) r ≡ ok (missing, 9 ∷ [], r'))
    × (await_acks missing missing ≡ ok tt)
    × ((read_at 0 3 r'.part ≡ some (take 3 sample))
        ⊎ HasCollision sample_hash sample_manifest sample r'.part)
transfer-content_example =
    transfer-content sample_hash sample_file zeros [] absent none (9 ∷ []) approve approve
      sample_hash-IsHexHash offer_sample reuse_nothing (λ j. refl) (λ j. refl)
