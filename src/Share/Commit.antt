-- ===== src/Share/Commit.antt =====
-- `Share::commit_incoming` of src/share.rs: the staged version sets join the index, and what they
-- select is published in the folder. `Folder` is the state outside of the index: what src/root.rs changes
-- and what the registration of the folder says.
pub mod Joining
pub mod Waiting
pub mod Applying
pub mod Whole
use happy_active_everywhere.Base.{
  ℕ, zero, suc, ◌+◌, Bool, true, false, not, ◌&&◌, ◌||◌, Option, none, some, List, [], ◌∷◌, any,
  select, map, length, take, if◌then◌else◌, ltb, ◌==◌, Result, ok, err, ensure, context, ◌>>=◌,
  ◌>>◌,
}
use happy_active_everywhere.Base.Order.{◌≟◌, list_ord}
use happy_active_everywhere.Base.Text.{Text}
use happy_active_everywhere.Base.BTreeMap.{BTreeMap, get, contains_key}
use happy_active_everywhere.Base.Paging.{precedes}
use happy_active_everywhere.Model.{
  Content, file, directory, deleted, same, Revision, Versions, no_versions, Codec, join, selected,
}
use happy_active_everywhere.Model.Equality.{same_versions}
use happy_active_everywhere.Share.{Entry, Index, save, object_path, missing_objects}
use happy_active_everywhere.Share.Scan.{paged, scan, scan_inner}

-- `e.versions!=e.observed` and no row of `pending`.
unfoldable pub is_waiting : BTreeMap Text (Unit {0}) → Text × Entry → Bool
is_waiting pending e =
    not (same_versions e.1.versions e.1.observed) && not (contains_key e.0 pending)

unfoldable pub waiting : Index → BTreeMap Text Entry
waiting index = select (is_waiting index.pending) index.entries

unfoldable pub removing : Entry → Bool
removing entry = not (any (λ (r : Revision). not (same r.content deleted)) entry.versions.heads)

-- How many `/` a path has.
abbrev pub depth : Text → ℕ
depth path = length (select (λ (c : ℕ). c == 47) path)

unfoldable pub before_at : Text → ℕ → Text → ℕ → Bool
before_at p m q n = ltb m n || ((m == n) && precedes p q)

-- `ORDER BY removing, CASE WHEN removing THEN -depth ELSE depth END, path`: the first row comes before.
unfoldable pub comes_before : Text × Entry → Text × Entry → Bool
unfolding before_at
comes_before (p, a) (q, b) = elim (removing a) [
  | false ↦ elim (removing b) [ true ↦ true | false ↦ before_at p (depth p) q (depth q) ]
  | true ↦ elim (removing b) [ false ↦ false | true ↦ before_at p (depth q) q (depth p) ]
]

unfoldable pub place_candidate : Text × Entry → List (Text × Entry) → List (Text × Entry)
unfolding comes_before
place_candidate e [] = e ∷ []
place_candidate e (f ∷ rows) =
    let after = f ∷ place_candidate e rows in if comes_before f e then after else e ∷ f ∷ rows

unfoldable pub order_rows : List (Text × Entry) → List (Text × Entry)
unfolding place_candidate
order_rows [] = []
order_rows (e ∷ rows) = place_candidate e (order_rows rows)

abbrev pub row_path : Text × Entry → Text
row_path e = e.0

unfoldable pub candidate_paths : Index → List Text
unfolding order_rows waiting
candidate_paths index = map row_path (take 256 (order_rows (waiting index)))

-- What the folder has of a path after the publication of a content.
unfoldable pub actual : Content → Option Content
actual content = if same content deleted then none else some content

-- The cached object of a content.
unfoldable pub object_of : Content → Result (Unit {0})
unfolding object_path
object_of (file hash) = object_path hash
object_of directory = ok tt
object_of deleted = ok tt

module _ (codec : Codec) (collision_key : Text → Text) where
  -- One round of the loop of `commit_incoming`.
  unfoldable pub commit_path : Index → Text → Versions → Result Index
  unfolding save
  commit_path index path remote = elim (get path index.entries) [
    | none ↦ save codec collision_key index path remote none no_versions
    | some old ↦ do
      versions ← join codec old.versions remote
      save codec collision_key index path versions old.materialized old.observed
  ]

  unfoldable pub commit_all : Index → BTreeMap Text Versions → Result Index
  unfolding commit_path
  commit_all index [] = ok index
  commit_all index ((path, remote) ∷ rows) = do
    next ← commit_path index path remote
    commit_all next rows

  -- `apply` is `Root::apply`, on the path, what the index says of the folder, and what is wanted.
  module _ {Folder : Type 0} (check_root : Folder → Result (Unit {0}))
      (apply : Folder → Text → Option Content → Content → Result Folder)
      (authorized : Folder → Result (Unit {0})) where
    unfoldable pub apply_local : Folder → Index → Text → Entry → Result (Folder × Index)
    unfolding object_of actual save
    apply_local folder index path local = do
      chosen ← context (selected codec local.versions) "empty version set"
      object_of chosen.content
      check_root folder
      published ← apply folder path local.materialized chosen.content
      next ←
          save codec collision_key index path local.versions (actual chosen.content) local.versions
      ok (published, next)

    -- The paths of one page.
    unfoldable pub apply_paths : Folder → Index → List Text → Result (Folder × Index)
    unfolding apply_local
    apply_paths folder index [] = ok (folder, index)
    apply_paths folder index (path ∷ paths) = elim (get path index.entries) [
      | none ↦ err "unwrap of no row"
      | some local ↦ do
        authorized folder
        (published, next) ← apply_local folder index path local
        apply_paths published next paths
    ]

    -- `none` when the fuel is used up.
    unfoldable pub apply_pending : ℕ → Folder → Index → Result (Option (Folder × Index))
    unfolding apply_paths candidate_paths
    apply_pending zero folder index = ok none
    apply_pending (suc fuel) folder index = elim (candidate_paths index) [
      | [] ↦ ok (some (folder, index))
      | path ∷ paths ↦ do
        (published, next) ← apply_paths folder index (path ∷ paths)
        apply_pending fuel published next
    ]

    -- Exactly one of the two scans takes place; its answers of the folder are `scan_root`, `recover`
    -- and `visited`. `recovery_pending` is what the index says of a recovery.
    module _ (replica : Text) (scan_root : ℕ → Result (Unit {0})) (recover : Result (Unit {0}))
        (visited : Result (List (Text × Content))) where
      unfoldable pub scan_before : Bool → Index → Result Index
      unfolding scan
      scan_before true index = ok index
      scan_before false index = do
        (_, _, after) ←
            scan codec collision_key replica (ok false) scan_root recover visited false index
        ok after

      unfoldable pub scan_after : Bool → Index → Result Index
      unfolding scan_inner
      scan_after false index = ok index
      scan_after true index = do
        (_, _, after) ← scan_inner codec collision_key replica scan_root recover visited false index
        ok after

      -- What follows when nothing is missing, given whether a recovery is pending.
      unfoldable pub commit_staged : Folder → Index → Bool → Result (Option (Folder × Index))
      unfolding scan_before scan_after commit_all apply_pending
      commit_staged folder index recovering = do
        before ← scan_before recovering index
        joined ← commit_all before (paged before.incoming)
        current ← scan_after recovering (record joined { incoming = [] })
        apply_pending (suc (length current.entries)) folder current

      unfoldable pub commit_incoming :
          Result Bool → Folder → Index → Result (Option (Folder × Index))
      unfolding commit_staged missing_objects
      commit_incoming recovery_pending folder index = do
        authorized folder
        check_root folder
        missing ← missing_objects index 1
        ensure (length missing == 0) "content objects are still missing"
        recovering ← recovery_pending
        commit_staged folder index recovering
