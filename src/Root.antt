-- ===== src/Root.antt =====
-- src/root.rs: the folder's files, and the journal by which a change of them is published. A file is
-- its path with the content that is read there, by the hash; links and special files, which
-- `read_content` refuses, are not in a tree. Each call of the operating system is a change of the disk.
pub mod Keeping
pub mod Publishing
pub mod Crash
mod Tests
use happy_active_everywhere.Base.{
  ℕ, String, Bool, true, false, not, ◌&&◌, ◌||◌, Option, none, some, List, [], ◌∷◌, ◌++◌, any, ◌==◌,
  if◌then◌else◌, Result, ok, err,
}
use happy_active_everywhere.Base.Order.{◌≟◌, list_ord}
use happy_active_everywhere.Base.Text.{Text}
use happy_active_everywhere.Base.BTreeMap.{BTreeMap, get, insert, remove, contains_key, keys}
use happy_active_everywhere.Model.{Content, file, directory, deleted, same}
use happy_active_everywhere.Model.FilePath.{validate_path}

pub record Intent : Type 0 where
  pub path : Text
  pub before : Option Content
  pub after : Content

-- `record.json` of a transaction: it is created first and then written, so that it can stand there
-- without the whole of its text.
pub data RecordFile : Type 0 where
  absent : RecordFile
  torn : RecordFile
  written : (intent : Intent) → RecordFile

-- A directory of `.everywhere-recovery`: its files.
pub record Transaction : Type 0 where
  pub record_file : RecordFile
  pub incoming : Option Content
  pub previous : Option Content
  pub done : Bool

pub record Disk : Type 0 where
  pub files : BTreeMap Text Content
  pub journal : BTreeMap Text Transaction

-- What a change of the disk comes to; a change that fails may have changed something.
pub data Outcome : Type 0 where
  finished : (disk : Disk) → Outcome
  failed : (message : String) (disk : Disk) → Outcome

abbrev pub and_then : Outcome → (Disk → Outcome) → Outcome
and_then outcome next = elim outcome [
  | finished disk ↦ next disk
  | failed message disk ↦ failed message disk
]

abbrev pub same_option : Option Content → Option Content → Bool
same_option none none = true
same_option none (some b) = false
same_option (some a) none = false
same_option (some a) (some b) = same a b

abbrev pub set_files : BTreeMap Text Content → Disk → Disk
set_files files disk = record disk { files = files }

abbrev pub set_transaction : Text → Transaction → Disk → Disk
set_transaction id t disk = record disk { journal = insert id t disk.journal }

abbrev pub no_transaction : Transaction
no_transaction = record { record_file = absent; incoming = none; previous = none; done = false }

-- The files of a transaction, of which there are none before it is made.
unfoldable pub transaction : Text → Disk → Transaction
transaction id disk = elim (get id disk.journal) [ none ↦ no_transaction | some t ↦ t ]

-- The path of each directory that a path is in, the outer ones first.
unfoldable pub parents : Text → Text → List Text
parents before [] = []
parents before (c ∷ path) =
    let rest = parents (before ++ (c ∷ [])) path in if c == 47 then before ∷ rest else rest

unfoldable pub ensure_parents : List Text → Disk → Outcome
ensure_parents [] disk = finished disk
ensure_parents (q ∷ qs) disk = elim (get q disk.files) [
  | none ↦ ensure_parents qs (set_files (insert q directory disk.files) disk)
  | some (file hash) ↦ failed "unsafe parent directory" disk
  | some directory ↦ ensure_parents qs disk
  | some deleted ↦ failed "unsafe parent directory" disk
]

abbrev pub starts_with : Text → Text → Bool
starts_with [] text = true
starts_with (c ∷ prefix) [] = false
starts_with (c ∷ prefix) (d ∷ text) = (c == d) && starts_with prefix text

-- `create_dir` and `remove_dir`: the operating system refuses the one where something is, and the
-- other for what is not a directory and for a directory that has entries.
unfoldable pub create_dir : Text → Disk → Outcome
create_dir path disk = elim (get path disk.files) [
  | none ↦ finished (set_files (insert path directory disk.files) disk)
  | some there ↦ failed "already exists" disk
]

abbrev pub is_directory : Option Content → Bool
is_directory (some directory) = true
is_directory _ = false

unfoldable pub remove_dir : Text → Disk → Outcome
remove_dir path disk =
    if is_directory (get path disk.files)
      && not (any (λ (e : Text × Content). starts_with (path ++ (47 ∷ [])) e.0) disk.files)
    then finished (set_files (remove path disk.files) disk)
    else failed "cannot remove directory" disk

-- `hard_link` of a file of a transaction to a path, which does not replace what is there.
unfoldable pub hard_link : Option Content → Text → Disk → Outcome
hard_link none path disk = failed "not found" disk
hard_link (some c) path disk = elim (get path disk.files) [
  | none ↦ finished (set_files (insert path c disk.files) disk)
  | some there ↦ failed "already exists" disk
]

-- What stands there after an attempt whose result is not looked at.
abbrev pub disk_of : Outcome → Disk
disk_of (finished disk) = disk
disk_of (failed message disk) = disk

-- The folder has of a path what is wanted.
abbrev pub is_applied : Option Content → Content → Bool
is_applied none after = same after deleted
is_applied (some there) after = same there after

module _ (id path : Text) where
  -- The directory of the transaction, of a name that no other has, and the copy of the object, which
  -- is what the file that was opened as `object` has.
  unfoldable pub copy_object : Content → Option Content → Disk → Outcome
  copy_object (file hash) none disk = failed "missing content object" disk
  copy_object (file hash) (some object) disk =
      let copied = set_transaction id (record no_transaction { incoming = some object }) disk in
      if same object (file hash) then finished copied else failed "content object is corrupt" copied
  copy_object directory object disk = finished disk
  copy_object deleted object disk = finished disk

  unfoldable pub open_transaction : Content → Option Content → Disk → Outcome
  unfolding copy_object
  open_transaction after object disk =
      if contains_key id disk.journal
      then failed "already exists" disk
      else copy_object after object (set_transaction id no_transaction disk)

  unfoldable pub create_record : Disk → Outcome
  unfolding transaction
  create_record disk =
      finished (set_transaction id (record (transaction id disk) { record_file = torn }) disk)

  -- The record, created and written.
  unfoldable pub write_record : Option Content → Content → Disk → Outcome
  unfolding transaction
  write_record current after disk = finished (
      set_transaction id
        (record (transaction id disk) {
          record_file = written (record { path = path; before = current; after = after });
        })
        disk)

  -- The file that stands at the path goes into the transaction. Should it not be the one that was seen,
  -- it is put back, if nothing else has taken its place, and stays in the transaction as well.
  unfoldable pub displace : Option Content → Disk → Outcome
  unfolding transaction hard_link
  displace none disk = finished disk
  displace (some current) disk = elim (get path disk.files) [
    | none ↦ failed "not found" disk
    | some there ↦
        let moved =
          set_transaction id (record (transaction id disk) { previous = some there })
            (set_files (remove path disk.files) disk) in
        if same there current
        then finished moved
        else failed "local edit preserved in recovery" (disk_of (hard_link (some there) path moved))
  ]

  -- After a link that failed the displaced file is put back, if nothing else has taken its place.
  unfoldable pub put_back : Option Content → Disk → Disk
  unfolding transaction hard_link
  put_back none disk = disk
  put_back (some current) disk = disk_of (hard_link (transaction id disk).previous path disk)

  unfoldable pub publish : Option Content → Content → Disk → Outcome
  unfolding transaction hard_link put_back
  publish current (file hash) disk = elim (hard_link (transaction id disk).incoming path disk) [
    | finished next ↦ finished next
    | failed message next ↦
        failed "destination appeared during publication; data preserved" (put_back current next)
  ]
  publish current directory disk = finished disk
  publish current deleted disk = elim (get path disk.files) [
    | none ↦ finished disk
    | some there ↦ failed "local file appeared during deletion; content preserved" disk
  ]

  unfoldable pub finish_record : Disk → Outcome
  unfolding transaction
  finish_record disk =
      finished
        (set_transaction id (record (transaction id disk) { incoming = none; done = true }) disk)

  -- The part of `apply` that goes by the journal.
  unfoldable pub replace : Option Content → Content → Option Content → Disk → Outcome
  unfolding open_transaction write_record displace publish finish_record
  replace current after object disk = and_then (open_transaction after object disk) (λ d1.
      and_then (write_record current after d1) (λ d2.
        and_then (displace current d2) (λ d3. and_then (publish current after d3) finish_record)))

  -- What follows the checks and the parents.
  unfoldable pub change : Option Content → Content → Option Content → Disk → Outcome
  unfolding replace remove_dir create_dir
  change current after object disk =
      if same after directory
      then elim current [
        | none ↦ create_dir path disk
        | some there ↦ failed "file/directory conflict needs explicit resolution" disk
      ]
      else if is_directory current
      then (if same after deleted
          then remove_dir path disk
          else failed "file/directory conflict needs explicit resolution" disk)
      else replace current after object disk

  -- `Root::apply`; `id` is the name that `random_id` gives.
  unfoldable pub apply : Option Content → Content → Option Content → Disk → Outcome
  unfolding ensure_parents change parents
  apply before after object disk = elim (validate_path path) [
    | err message ↦ failed message disk
    | ok u ↦
        let current = get path disk.files in
        if is_applied current after
        then finished disk
        else if same_option current before
        then and_then (ensure_parents (parents [] path) disk) (change current after object)
        else failed "local file changed before application" disk
  ]

-- One round of the loop of `recover`.
unfoldable pub recover_transaction : Text → Disk → Outcome
unfolding transaction hard_link finish_record
recover_transaction id disk =
    let t = transaction id disk in
    if t.done then finished disk else elim t.record_file [
      | absent ↦ finished disk
      | torn ↦ failed "EOF while parsing a value" disk
      | written intent ↦ elim (validate_path intent.path) [
        | err message ↦ failed message disk
        | ok u ↦
            let actual = get intent.path disk.files in
            if is_applied actual intent.after || same_option actual intent.before
            then finish_record id intent.path disk
            else elim actual [
              | some there ↦ failed "ambiguous interrupted application" disk
              | none ↦ elim t.previous [
                | none ↦ failed "ambiguous interrupted application" disk
                | some previous ↦
                    and_then (hard_link (some previous) intent.path disk)
                      (finish_record id intent.path)
              ]
            ]
      ]
    ]

unfoldable pub recover_all : List Text → Disk → Outcome
unfolding recover_transaction
recover_all [] disk = finished disk
recover_all (id ∷ ids) disk = and_then (recover_transaction id disk) (recover_all ids)

-- `Root::recover`.
unfoldable pub recover : Disk → Outcome
unfolding recover_all
recover disk = recover_all (keys disk.journal) disk
