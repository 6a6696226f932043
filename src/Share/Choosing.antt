-- ===== src/Share/Choosing.antt =====
-- `Share::choose` and `Share::object_received` of src/share.rs: a user resolves a conflict, or restores
-- what the history has; and an object that was asked for has come.
pub mod Chosen
use happy_active_everywhere.Base.{
  ℕ, String, Bool, true, false, Option, none, some, List, [], ◌∷◌, if◌then◌else◌, Result, ok,
  ensure, context, ◌>>=◌, ◌>>◌, >>=-eq-ok, >>-eq-ok, ok-injective, err≢ok, some-injective, ◌≡◌,
  refl, sym, ap, subst, ◌∙◌,
}
use happy_active_everywhere.Base.In.{All}
use happy_active_everywhere.Base.Order.{◌≟◌, ≟-refl, list_ord}
use happy_active_everywhere.Base.Text.{Text}
use happy_active_everywhere.Base.BTreeMap.{BTreeMap, get, remove, get-remove}
use happy_active_everywhere.Versions.{relation, before}
use happy_active_everywhere.Model.{
  Content, file, directory, deleted, Revision, Versions, Codec, edit, selected, least,
}
use happy_active_everywhere.Model.Edit.{ClocksSorted, edit_supersedes}
use happy_active_everywhere.Model.FilePath.{validate_path}
use happy_active_everywhere.Share.{Entry, Index, object_path, save}
use happy_active_everywhere.Share.Saving.{IsValid, save-IsValid, save-get}
use happy_active_everywhere.Share.Scan.{unpend, scan}
use happy_active_everywhere.Share.Scan.Steps.{pend-IsValid}
use happy_active_everywhere.Share.Commit.{actual, object_of, apply_local}

-- The row of `history` for a path and a hash.
abbrev pub find_recorded : Option (BTreeMap Text Revision) → Text → Option Revision
find_recorded none revision = none
find_recorded (some revisions) revision = get revision revisions

-- `Share::object_received`; `object_hash` is the hash of the cached object.
unfoldable pub object_received : Result Text → Text → Index → Result Index
unfolding object_path
object_received object_hash hash index = do
  object_path hash
  found ← object_hash
  ensure (found ≟ hash) "received object hash mismatch"
  ok (record index { needed = remove hash index.needed })

-- The content of an object is what its name says; `object_hash` is the hash of the cached object.
unfoldable pub check_object : (Text → Result Text) → Content → Result (Unit {0})
unfolding object_path
check_object object_hash (file hash) = do
  object_path hash
  found ← object_hash hash
  ensure (found ≟ hash) "historical content is corrupt"
check_object object_hash directory = ok tt
check_object object_hash deleted = ok tt

module _ (codec : Codec) (collision_key : Text → Text) (replica : Text) where
  unfoldable pub find_head : Text → List Revision → Option Revision
  find_head revision [] = none
  find_head revision (h ∷ heads) =
      if codec.id h ≟ revision then some h else find_head revision heads

  -- The revision that is named: one of the history, or a head.
  unfoldable pub pick : Bool → Text → Text → Entry → Index → Result Revision
  unfolding find_head
  pick true path revision local index =
      context (find_recorded (get path index.history) revision) "unknown historical revision"
  pick false path revision local index =
      context (find_head revision local.versions.heads)
        "revision is no longer a current conflict head"

  -- `content` is `Root::content`; the other parameters are as in `commit_incoming`.
  module _ {Folder : Type 0} (check_root : Folder → Result (Unit {0}))
      (apply : Folder → Text → Option Content → Content → Result Folder)
      (authorized : Folder → Result (Unit {0})) (content : Folder → Text → Result (Option Content))
      (object_hash : Text → Result Text) where
    -- What follows once the row and the revision are found.
    unfoldable pub choose_revision :
        Folder → Index → Text → Entry → Revision → Result (Folder × Index)
    unfolding check_object save apply_local
    choose_revision folder index path local chosen = do
      check_object object_hash chosen.content
      versions ← edit codec local.versions replica chosen.content
      there ← content folder path
      next ← save codec collision_key index path versions there local.observed
      let cleared = unpend path next
      row ← context (get path cleared.entries) "unwrap of no row"
      apply_local codec collision_key check_root apply authorized folder cleared path row

    -- What follows the scan.
    unfoldable pub choose_scanned : Folder → Index → Text → Text → Bool → Result (Folder × Index)
    unfolding pick choose_revision
    choose_scanned folder index path revision historical = do
      local ← context (get path index.entries) "unknown path"
      chosen ← pick historical path revision local index
      choose_revision folder index path local chosen

    -- `Share::choose`.
    unfoldable pub choose :
        Result Bool
        → (ℕ → Result (Unit {0}))
        → Result (Unit {0})
        → Result (List (Text × Content))
        → Folder
        → Index
        → Text
        → Text
        → Bool
        → Result (Folder × Index)
    unfolding scan choose_scanned
    choose recovery_pending scan_root recover visited folder index path revision historical = do
      validate_path path
      (_, _, scanned) ←
          scan codec collision_key replica recovery_pending scan_root recover visited false index
      choose_scanned folder scanned path revision historical
