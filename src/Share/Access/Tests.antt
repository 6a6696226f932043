-- ===== src/Share/Access/Tests.antt =====
-- Folders with few and with many peers, and the theorems there.
use happy_active_everywhere.Base.{
  ℕ, zero, suc, ◌+◌, ◌-◌, ◌/◌, ◌%◌, ◌++◌, ltb, String, true, false, not, some, [], ◌∷◌,
  if◌then◌else◌, ok, err, ◌≡◌, refl,
}
use happy_active_everywhere.Base.Order.{◌≟◌, list_ord, lex}
use happy_active_everywhere.Base.Text.{Text, text, valid_hash}
use happy_active_everywhere.Base.BTreeMap.{BTreeMap, get, contains_key, insert}
use happy_active_everywhere.Versions.{bidirectional}
use happy_active_everywhere.Model.Tests.{zeros}
use happy_active_everywhere.Identity.Tests.{ones, sample_hash, accepts_all, trusted}
use happy_active_everywhere.Share.Access.{Config, Shares, read_config, grant}
use happy_active_everywhere.Share.Access.Grants.{grant-permit, grant-too_many}

abbrev pub folder_of : BTreeMap Text (Unit {0}) → Config
folder_of peers = record {
  id = text "docs";
  root = text "/docs";
  is_absolute = true;
  identity = zeros;
  epoch = zeros;
  marker = zeros;
  mode = bidirectional;
  peers = peers;
}

abbrev pub one_folder : Shares
one_folder = (text "docs", ok (folder_of ((zeros, tt) ∷ []))) ∷ []

grant-permit_example :
    (before after : Config) × (read_config one_folder (text "docs") ≡ ok before)
    × (get
          (text "docs")
          (insert (text "docs") (ok (folder_of ((zeros, tt) ∷ (ones, tt) ∷ []))) one_folder)
        ≡ some (ok after))
    × (after ≡ record before { peers = after.peers })
    × (contains_key ones after.peers
        ≡ (if ones ≟ ones then not false else contains_key ones before.peers))
    × (get
          (text "other")
          (insert (text "docs") (ok (folder_of ((zeros, tt) ∷ (ones, tt) ∷ []))) one_folder)
        ≡ (if text "other" ≟ text "docs" then some (ok after) else get (text "other") one_folder))
unfolding grant valid_hash get list_ord lex insert
grant-permit_example =
    grant-permit sample_hash accepts_all (ok tt) (ok tt) false trusted one_folder (text "docs") ones
      false ones (text "other") refl

abbrev hex : ℕ → ℕ
hex d = if ltb d 10 then b'0' + d else b'a' + (d - 10)

-- The fingerprint with a number at its end.
abbrev peer_of : ℕ → Text
peer_of n =
    text "00000000000000000000000000000000000000000000000000000000000000"
    ++ (hex (n / 16) ∷ hex (n % 16) ∷ [])

abbrev many : ℕ → ℕ → BTreeMap Text (Unit {0})
many n zero = []
many n (suc more) = (peer_of n, tt) ∷ many (n + 1) more

abbrev full_folder : Shares
full_folder = (text "docs", ok (folder_of (many 0 128))) ∷ []

grant-too_many_example :
    (read_config
        (insert (text "docs") (ok (folder_of (insert ones tt (many 0 128)))) full_folder)
        (text "docs")
      ≡ err "too many approved peers")
    × ((message : String) × (grant sample_hash accepts_all
            (ok tt)
            (ok tt)
            false
            trusted
            (insert (text "docs") (ok (folder_of (insert ones tt (many 0 128)))) full_folder)
            (text "docs")
            (peer_of 3)
            true
          ≡ err message))
unfolding grant valid_hash get list_ord lex insert contains_key
grant-too_many_example =
    grant-too_many sample_hash accepts_all (ok tt) (ok tt) false trusted full_folder (text "docs")
      ones {config = folder_of (many 0 128)}
      {shares' = insert (text "docs") (ok (folder_of (insert ones tt (many 0 128)))) full_folder}
      (ok tt) (ok tt) false trusted (peer_of 3) true refl refl refl refl
