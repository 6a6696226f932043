-- ===== src/Identity/Tests.antt =====
-- A device that trusts one peer, and the theorems there.
use happy_active_everywhere.Base.{ℕ, Bool, true, some, List, [], ◌∷◌, ◌≡◌, refl}
use happy_active_everywhere.Base.Order.{list_ord, lex}
use happy_active_everywhere.Base.Text.{Text, text}
use happy_active_everywhere.Base.BTreeMap.{get}
use happy_active_everywhere.Model.Tests.{zeros}
use happy_active_everywhere.Identity.{Certificate, Peers, check, first}
use happy_active_everywhere.Identity.Trust.{IsTrusted, check-IsTrusted}

abbrev pub ones : Text
ones = text "1111111111111111111111111111111111111111111111111111111111111111"

-- Two fingerprints are enough.
abbrev pub sample_hash : List ℕ → Text
sample_hash [] = zeros
sample_hash (b ∷ bytes) = ones

abbrev pub accepts_all : List ℕ → Bool
accepts_all certificate = true

abbrev pub trusted : Peers
trusted = (zeros, []) ∷ (ones, 1 ∷ []) ∷ []

check-IsTrusted_example :
    IsTrusted sample_hash accepts_all trusted zeros
    × ((cert : Certificate) × (first (some ([] ∷ [])) ≡ some cert) × (sample_hash cert ≡ zeros))
unfolding check get list_ord lex
check-IsTrusted_example =
    check-IsTrusted sample_hash accepts_all trusted zeros (some ([] ∷ [])) refl
