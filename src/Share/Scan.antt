-- ===== src/Share/Scan.antt =====
-- `Share::scan` of src/share.rs: it takes what is in the folder into the index.
pub mod Steps
pub mod Seen
pub mod Unseen
pub mod Folder
use happy_active_everywhere.Base.{
  ℕ, suc, ◌+◌, Bool, true, false, not, ◌&&◌, Option, none, some, List, [], ◌∷◌, any, select, map,
  length, if◌then◌else◌, Result, ok, err, ensure, ◌>>=◌, ◌>>◌,
}
use happy_active_everywhere.Base.Order.{◌≟◌, list_ord}
use happy_active_everywhere.Base.Text.{Text}
use happy_active_everywhere.Base.BTreeMap.{BTreeMap, get, insert, remove, contains_key, keys}
use happy_active_everywhere.Base.Paging.{pages, concat}
use happy_active_everywhere.Model.{
  Content, file, directory, deleted, same, Revision, Versions, no_versions, Codec, join, edit,
  selected,
}
use happy_active_everywhere.Model.Equality.{same_versions}
use happy_active_everywhere.Share.{Entry, Index, save}

-- `==` of an optional content with a content.
abbrev pub is_content : Option Content → Content → Bool
is_content none c = false
is_content (some b) c = same b c

-- The content of an optional revision.
abbrev pub content_of : Option Revision → Option Content
content_of none = none
content_of (some r) = some r.content

abbrev pub unpend : Text → Index → Index
unpend path index = record index { pending = remove path index.pending }

abbrev pub pend : Text → Index → Index
pend path index = record index { pending = insert path tt index.pending }

-- `INSERT INTO scan_seen`: a path and an alias stand there once.
unfoldable pub record_seen :
    (Text → Text) → BTreeMap Text Content → List (Text × Content) → Result (BTreeMap Text Content)
record_seen collision_key seen [] = ok seen
record_seen collision_key seen ((path, content) ∷ visited) = do
  ensure (not (any (λ (e : Text × Content). collision_key e.0 ≟ collision_key path) seen))
      "cannot record scanned path; check case/Unicode aliases and free space"
  record_seen collision_key (insert path content seen) visited

-- The paths of the index that are not in the folder.
unfoldable pub unseen : BTreeMap Text Content → BTreeMap Text Entry → BTreeMap Text Entry
unseen seen entries = select (λ (e : Text × Entry). not (contains_key e.0 seen)) entries

-- The rows of the pages of 256 that follow the empty path.
module _ {V : Type 0} where
  abbrev pub paged : BTreeMap Text V → BTreeMap Text V
  paged rows = concat (pages (length rows) 256 [] rows)

-- A row whose publication completed before the index was told: the folder has one of its heads.
unfoldable pub is_published : Entry → Content → Bool
is_published previous content =
    not (same_versions previous.versions previous.observed)
    && any (λ (r : Revision). same r.content content) previous.versions.heads

-- A row whose deletion completed before the index was told.
unfoldable pub is_removed : Codec → Entry → Bool
is_removed codec old =
    not (same_versions old.versions old.observed)
    && is_content (content_of (selected codec old.versions)) deleted

module _ (codec : Codec) (collision_key : Text → Text) (replica : Text) where
  -- A local edit of a path, on top of what was observed.
  unfoldable pub record_edit : Index → Text → Option Entry → Content → Option Content → Result Index
  record_edit index path none content materialized = do
    mine ← edit codec no_versions replica content
    save codec collision_key index path mine materialized mine
  record_edit index path (some old) content materialized = do
    mine ← edit codec old.observed replica content
    combined ← join codec old.versions mine
    save codec collision_key index path combined materialized mine

  -- One round of the first loop, on a row of the index that is there: how many paths have changed.
  unfoldable pub scan_known : Index → Text → Entry → Content → Result (ℕ × Index)
  unfolding is_published record_edit
  scan_known index path old content = elim (is_published old content) [
    | true ↦ do
      let chosen = is_content (content_of (selected codec old.versions)) content
      next ←
          save codec collision_key index path old.versions (some content)
            (if chosen then old.versions else old.observed)
      ok (0, next)
    | false ↦ elim (is_content old.materialized content) [
      | true ↦ ok (0, index)
      | false ↦ do next ← record_edit index path (some old) content (some content); ok (1, next)
    ]
  ]

  unfoldable pub scan_path : Index → Text → Content → Result (ℕ × Index)
  unfolding scan_known
  scan_path index path content = elim (get path index.entries) [
    | some old ↦ scan_known (unpend path index) path old content
    | none ↦ do
      next ← record_edit (unpend path index) path none content (some content)
      ok (1, next)
  ]

  unfoldable pub scan_seen : Index → BTreeMap Text Content → Result (ℕ × Index)
  unfolding scan_path
  scan_seen index [] = ok (0, index)
  scan_seen index ((path, content) ∷ rows) = do
    (n, next) ← scan_path index path content
    (m, after) ← scan_seen next rows
    ok (n + m, after)

  -- One round of the second loop, on a path that is not in the folder.
  unfoldable pub scan_absent : Bool → Index → Text → Entry → Result (ℕ × Index)
  unfolding is_removed record_edit
  scan_absent approve index path old = elim (is_removed codec old) [
    | true ↦ do
      next ← save codec collision_key index path old.versions none old.versions
      ok (0, unpend path next)
    | false ↦ elim old.materialized [
      | none ↦ ok (0, index)
      | some content ↦ elim approve [
        | true ↦ do next ← record_edit index path (some old) deleted none; ok (1, unpend path next)
        | false ↦ ok (0, pend path index)
      ]
    ]
  ]

  unfoldable pub scan_unseen : Bool → Index → List Text → Result (ℕ × Index)
  unfolding scan_absent
  scan_unseen approve index [] = ok (0, index)
  scan_unseen approve index (path ∷ paths) = elim (get path index.entries) [
    | none ↦ err "unwrap of no row"
    | some old ↦ do
      (n, next) ← scan_absent approve index path old
      (m, after) ← scan_unseen approve next paths
      ok (n + m, after)
  ]

  -- `scan_inner`. `check_root` answers the n-th check of the folder's identity; `recover` what
  -- `Root::recover` answers, and `visited` what `Root::visit` finds, with the hashes of the files.
  unfoldable pub scan_inner :
      (ℕ → Result (Unit {0}))
      → Result (Unit {0})
      → Result (List (Text × Content))
      → Bool
      → Index
      → Result (ℕ × ℕ × Index)
  unfolding scan_seen scan_unseen
  scan_inner check_root recover visited approve index = do
    check_root 0
    recover
    found ← visited
    seen ← record_seen collision_key [] found
    check_root 1
    (n, next) ← scan_seen index (paged seen)
    (m, after) ← scan_unseen approve next (keys (paged (unseen seen next.entries)))
    check_root 2
    ok (n + m, length after.pending, after)

  -- `scan`; `recovery_pending` is what the state of the recovery says.
  unfoldable pub scan :
      Result Bool
      → (ℕ → Result (Unit {0}))
      → Result (Unit {0})
      → Result (List (Text × Content))
      → Bool
      → Index
      → Result (ℕ × ℕ × Index)
  scan recovery_pending check_root recover visited approve index = do
    waiting ← recovery_pending
    ensure (not waiting)
        "restored state awaits full reconciliation with an approved peer; connect before scanning or approving deletions"
    scan_inner check_root recover visited approve index
