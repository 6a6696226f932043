-- ===== src/Share.antt =====
-- src/share.rs: the index of a shared folder, which is a database, and what writes it. A transaction
-- that fails leaves the index as it was, so that an operation on it returns the new index or an error.
pub mod Saving
pub mod Remembering
pub mod Staging
pub mod Scan
pub mod Commit
pub mod Access
pub mod Review
pub mod Choosing
pub mod Tests
use happy_active_everywhere.Base.{
  ℕ, zero, suc, ◌+◌, ◌-◌, ◌^◌, Bool, true, false, not, ◌&&◌, ◌||◌, Option, none, some, List, [],
  ◌∷◌, ◌++◌, ltb, leb, ◌==◌, if◌then◌else◌, length, take, any, map, Result, ok, err, ensure,
  context, ◌>>=◌, ◌>>◌,
}
use happy_active_everywhere.Base.Order.{◌≟◌, list_ord, nat_ord}
use happy_active_everywhere.Base.Text.{Text, valid_hash}
use happy_active_everywhere.Base.BTreeMap.{BTreeMap, get, insert, remove, contains_key, keys}
use happy_active_everywhere.Base.Paging.{rows_after}
use happy_active_everywhere.Model.{
  Content, file, directory, deleted, Revision, Versions, no_versions, Codec, join,
}
use happy_active_everywhere.Model.Equality.{same_versions}
use happy_active_everywhere.Model.FilePath.{validate_path}

pub record Record : Type 0 where
  pub path : Text
  pub versions : Versions
  pub seq : ℕ

-- A row of the table `entries`, but for its path: also what `local` reads of it.
pub record Entry : Type 0 where
  pub alias : Text
  pub versions : Versions
  pub materialized : Option Content
  pub observed : Versions
  pub seq : ℕ

-- The tables. `history` has for each path the revisions by their hash.
pub record Index : Type 0 where
  pub sequence : ℕ
  pub entries : BTreeMap Text Entry
  pub pending : BTreeMap Text (Unit {0})
  pub incoming : BTreeMap Text Versions
  pub needed : BTreeMap Text (Unit {0})
  pub cursors : BTreeMap Text (Text × ℕ)
  pub history : BTreeMap Text (BTreeMap Text Revision)

abbrev pub History : Type 0
History = BTreeMap Text (BTreeMap Text Revision)

-- `i64::try_from`.
abbrev pub in_i64 : ℕ → Result (Unit {0})
in_i64 n = ensure (ltb n (2 ^ 63)) "out of range integral type conversion attempted"

-- `sequence()?.checked_add(1)` with the check that follows it.
unfoldable pub next_sequence : ℕ → Result ℕ
next_sequence sequence = do
  ensure (ltb sequence (2 ^ 64 - 1)) "share sequence exhausted"
  ensure (leb (sequence + 1) (2 ^ 63 - 1)) "share sequence exhausted"
  ok (sequence + 1)

abbrev pub heads_of : Option Entry → List Revision
heads_of none = []
heads_of (some entry) = entry.versions.heads

-- The number of the row, and what the counter is afterwards.
unfoldable pub number : ℕ → Option Entry → Versions → Result (ℕ × ℕ)
unfolding next_sequence
number sequence none versions = do n ← next_sequence sequence; ok (n, n)
number sequence (some prior) versions = elim (same_versions prior.versions versions) [
  | true ↦ ok (prior.seq, sequence)
  | false ↦ do n ← next_sequence sequence; ok (n, n)
]

-- `UNIQUE` of the column `alias`: another path has it.
unfoldable pub alias_taken : Text → Text → BTreeMap Text Entry → Bool
alias_taken path alias entries =
    any (λ (e : Text × Entry). not (e.0 ≟ path) && (e.1.alias ≟ alias)) entries

abbrev pub alias_of : Text → Option Entry → Text
alias_of fresh none = fresh
alias_of fresh (some prior) = prior.alias

-- The revisions of a path in the history.
abbrev pub revisions_of : Text → History → BTreeMap Text Revision
revisions_of path history = elim (get path history) [ none ↦ [] | some m ↦ m ]

-- `ORDER BY seq`, of the rows with their number in front.
unfoldable pub place_row : ℕ → Record → BTreeMap ℕ Record → BTreeMap ℕ Record
place_row seq r [] = (seq, r) ∷ []
place_row seq r ((n, q) ∷ rows) =
    let after = (n, q) ∷ place_row seq r rows in
    if ltb n seq then after else (seq, r) ∷ (n, q) ∷ rows

abbrev pub record_of : Text → Entry → Record
record_of path entry = record { path = path; versions = entry.versions; seq = entry.seq }

unfoldable pub by_seq : BTreeMap Text Entry → BTreeMap ℕ Record
unfolding place_row
by_seq [] = []
by_seq ((path, entry) ∷ entries) = place_row entry.seq (record_of path entry) (by_seq entries)

-- `seq<=?2`.
unfoldable pub up_to : ℕ → BTreeMap ℕ Record → BTreeMap ℕ Record
up_to ceiling [] = []
up_to ceiling ((n, r) ∷ rows) =
    let rest = up_to ceiling rows in if leb n ceiling then (n, r) ∷ rest else rest

abbrev pub row_record : ℕ × Record → Record
row_record row = row.1

unfoldable pub records : Index → ℕ → ℕ → ℕ → Result (List Record)
records index since ceiling limit = do
  ensure (leb limit 256) "metadata page too large"
  in_i64 since
  in_i64 ceiling
  ok (map row_record (take limit (rows_after since (up_to ceiling (by_seq index.entries)))))

-- The check of `object_path`.
unfoldable pub object_path : Text → Result (Unit {0})
object_path hash = ensure (valid_hash hash) "invalid object identifier"

-- `cursor` and `set_cursor`.
unfoldable pub cursor : Index → Text → Text × ℕ
cursor index peer = elim (get peer index.cursors) [ none ↦ ([], 0) | some c ↦ c ]

unfoldable pub set_cursor : Index → Text → Text → ℕ → Result Index
set_cursor index peer epoch sequence = do
  in_i64 sequence
  ok (record index { cursors = insert peer (epoch, sequence) index.cursors })

unfoldable pub begin_incoming : Index → Index
begin_incoming index = record index { incoming = []; needed = [] }

unfoldable pub missing_objects : Index → ℕ → Result (List Text)
missing_objects index limit = do
  ensure (leb limit 64) "object request page too large"
  ok (take limit (keys index.needed))

module _ (codec : Codec) where
  -- `INSERT OR IGNORE INTO history`.
  unfoldable pub remember : Text → Revision → History → History
  remember path r history =
      let revisions = revisions_of path history in
      if contains_key (codec.id r) revisions
      then history
      else insert path (insert (codec.id r) r revisions) history

  unfoldable pub remember_all : Text → List Revision → History → History
  unfolding remember
  remember_all path [] history = history
  remember_all path (r ∷ rs) history = remember_all path rs (remember path r history)

  -- `Share::save`. `collision_key` is the form of a path that case and Unicode variants share.
  unfoldable pub save :
      (Text → Text) → Index → Text → Versions → Option Content → Versions → Result Index
  unfolding number alias_taken remember_all
  save collision_key index path versions materialized observed = do
    validate_path path
    let prior = get path index.entries
    (seq, sequence) ← number index.sequence prior versions
    ensure (not (alias_taken path (collision_key path) index.entries))
        "UNIQUE constraint failed: entries.alias"
    ok (record index {
      sequence = sequence;
      history = remember_all path (heads_of prior ++ versions.heads) index.history;
      entries =
          insert path
            (record {
              alias = alias_of (collision_key path) prior;
              versions = versions;
              materialized = materialized;
              observed = observed;
              seq = seq;
            })
            index.entries;
    })

module _ (codec : Codec) (has_object : Text → Bool) where
  -- The objects of a staged version set that have to be fetched.
  unfoldable pub need_objects :
      List Revision → BTreeMap Text (Unit {0}) → Result (BTreeMap Text (Unit {0}))
  unfolding object_path
  need_objects [] needed = ok needed
  need_objects (h ∷ heads) needed = elim h.content [
    | file hash ↦ do
      object_path hash
      let more = if has_object hash then needed else insert hash tt needed
      need_objects heads more
    | directory ↦ need_objects heads needed
    | deleted ↦ need_objects heads needed
  ]

  unfoldable pub stage_record : Index → Record → Result Index
  unfolding need_objects
  stage_record index r = do
    validate_path r.path
    validated ← join codec no_versions r.versions
    ensure (not (length validated.heads == 0)) "empty remote version set"
    needed ← need_objects validated.heads index.needed
    ok (record index { incoming = insert r.path validated index.incoming; needed = needed })

  unfoldable pub stage_all : Index → List Record → Result Index
  unfolding stage_record
  stage_all index [] = ok index
  stage_all index (r ∷ rs) = do next ← stage_record index r; stage_all next rs

  -- `Share::stage`, given what `authorize` answers.
  unfoldable pub stage : Result (Unit {0}) → Index → List Record → Result Index
  unfolding stage_all
  stage authorized index rs = do
    authorized
    ensure (leb (length rs) 256) "metadata page too large"
    stage_all index rs
