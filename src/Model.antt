-- ===== src/Model.antt =====
-- src/model.rs: the versions of a path. A version set holds concurrent heads; `join` unites two
-- sets and keeps what no other head supersedes, `edit` supersedes all heads, `selected` picks the
-- head that the file system shows.
pub mod Equality
pub mod Sorting
pub mod Join
pub mod Maximal
pub mod Converge
pub mod Normal
pub mod Grouping
pub mod Fixpoint
pub mod Edit
pub mod Selected
pub mod FilePath
pub mod Tests
use Prim.Native.Nat.Ordering.{lt, eq, gt}
use happy_active_everywhere.Base.{
  ℕ, ◌^◌, Bool, true, false, ◌&&◌, ◌||◌, not, Option, none, some, List, [], ◌∷◌, ◌++◌, map, leb,
  compare, Ordering, if◌then◌else◌, Result, ok, err, ensure, ◌>>=◌, ◌>>◌, all, any, select, length,
}
use happy_active_everywhere.Base.Order.{◌≟◌, lex, list_ord, Ord}
use happy_active_everywhere.Base.Text.{Text, valid_hash}
use happy_active_everywhere.Versions.{
  Clock, Relation, before, after, equal, concurrent, relation, merge, advance, validate,
}

pub data Content : Type 0 where
  file : Text → Content
  directory : Content
  deleted : Content

pub record Revision : Type 0 where
  pub clock : Clock
  pub content : Content

pub record Versions : Type 0 where
  pub heads : List Revision

-- `Versions::default()`.
abbrev pub no_versions : Versions
no_versions = record { heads = [] }

abbrev pub versions_of : List Revision → Versions
versions_of heads = record { heads = heads }

-- What the code takes from `serde_json` and `blake3`: the hash of a revision's JSON text in
-- hexadecimal (`Revision::id`), and the length of the JSON text of a version set.
pub record Codec : Type 0 where
  pub id : Revision → Text
  pub encoded_len : Versions → ℕ

-- `==` of contents.
abbrev pub same : Content → Content → Bool
same (file a) (file b) = a ≟ b
same directory directory = true
same deleted deleted = true
same _ _ = false

abbrev pub is_before : Relation → Bool
is_before before = true
is_before _ = false

abbrev pub is_equal : Relation → Bool
is_equal equal = true
is_equal _ = false

-- Metadata of more bytes than this is refused.
abbrev pub metadata_limit : ℕ
metadata_limit = 65536

unfoldable pub check_content : Content → Result (Unit {0})
check_content (file hash) = ensure (valid_hash hash) "invalid content hash"
check_content directory = ok tt
check_content deleted = ok tt

-- A candidate that another supersedes.
unfoldable pub superseded : List (Text × Revision) → Text × Revision → Bool
superseded found (k, r) =
    any (λ (e : Text × Revision). is_before (relation r.clock e.1.clock)) found

-- Two candidates with equal clocks have the same content.
unfoldable pub consistent : List (Text × Revision) → Bool
consistent found =
    all
      (λ (a : Text × Revision).
        all
          (λ (b : Text × Revision).
            not (is_equal (relation a.1.clock b.1.clock)) || same a.1.content b.1.content)
          found)
      found

abbrev pub second : Text × Revision → Revision
second e = e.1

unfoldable pub maximal_heads : List (Text × Revision) → List Revision
unfolding superseded
maximal_heads found = map second (select (λ e. not (superseded found e)) found)

-- `sort_by` of the standard library, which is stable: a candidate goes before the first that is not
-- smaller.
unfoldable pub place : Text × Revision → List (Text × Revision) → List (Text × Revision)
place (k, r) [] = (k, r) ∷ []
place (k, r) ((j, s) ∷ found) = elim (lex j k) [
  | lt ↦ (j, s) ∷ place (k, r) found
  | _ ↦ (k, r) ∷ (j, s) ∷ found
]

unfoldable pub sort : List (Text × Revision) → List (Text × Revision)
unfolding place
sort [] = []
sort (e ∷ found) = place e (sort found)

-- `dedup_by`: of neighbours with one id the first stays.
unfoldable pub dedup_after : Text → List (Text × Revision) → List (Text × Revision)
dedup_after k [] = []
dedup_after k ((j, s) ∷ found) =
    let keep = (j, s) ∷ dedup_after j found in
    let drop = dedup_after k found in if j ≟ k then drop else keep

unfoldable pub dedup : List (Text × Revision) → List (Text × Revision)
unfolding dedup_after
dedup [] = []
dedup ((k, r) ∷ found) = (k, r) ∷ dedup_after k found

module _ (codec : Codec) where
  open codec use {id, encoded_len}

  abbrev pub with_id : Revision → Text × Revision
  with_id r = (id r, r)

  -- The loop that checks each revision and computes its id.
  unfoldable pub candidates : List Revision → Result (List (Text × Revision))
  unfolding check_content
  candidates [] = ok []
  candidates (r ∷ revisions) = do
    validate r.clock
    check_content r.content
    rest ← candidates revisions
    ok (with_id r ∷ rest)

  -- The end of `join`, from the sorted candidates.
  unfoldable pub settle : List (Text × Revision) → Result Versions
  unfolding consistent maximal_heads
  settle sorted = do
    ensure (consistent sorted) "equal clock with different content"
    let result = versions_of (maximal_heads sorted)
    ensure (leb (length result.heads) 128) "too many concurrent versions"
    ensure (leb (encoded_len result) metadata_limit) "version metadata exceeds the per-path limit"
    ok result

  -- `Versions::join`.
  unfoldable pub join : Versions → Versions → Result Versions
  unfolding sort dedup settle
  join mine other = do
    ensure (leb (encoded_len mine) metadata_limit && leb (encoded_len other) metadata_limit)
        "version metadata exceeds the per-path limit"
    ensure (leb (length mine.heads) 128 && leb (length other.heads) 128)
        "too many concurrent versions"
    found ← candidates (mine.heads ++ other.heads)
    settle (dedup (sort found))

  -- The fold of `edit`: a clock that has seen all heads.
  unfoldable pub merge_heads : Clock → List Revision → Clock
  merge_heads clock [] = clock
  merge_heads clock (h ∷ heads) = merge_heads (merge clock h.clock) heads

  -- `Versions::edit`.
  unfoldable pub edit : Versions → Text → Content → Result Versions
  unfolding merge_heads join
  edit mine device content = do
    clock ← advance (merge_heads [] mine.heads) device
    join no_versions (record { heads = record { clock = clock; content = content } ∷ [] })

  unfoldable pub rank : Content → ℕ
  rank (file hash) = 0
  rank directory = 1
  rank deleted = 2

  -- The key of `min_by_key`, compared.
  unfoldable pub compare_key : Revision → Revision → Ordering
  unfolding rank
  compare_key a b = elim (compare (rank a.content) (rank b.content)) [
    | lt ↦ lt
    | eq ↦ lex (id a) (id b)
    | gt ↦ gt
  ]

  abbrev pub smaller : Revision → Revision → Revision
  smaller best r = elim (compare_key r best) [ lt ↦ r | _ ↦ best ]

  unfoldable pub least : Revision → List Revision → Revision
  unfolding compare_key
  least best [] = best
  least best (r ∷ heads) = least (smaller best r) heads

  -- `Versions::selected`: of several least heads the first.
  unfoldable pub selected : Versions → Option Revision
  unfolding least
  selected mine = elim mine.heads [ [] ↦ none | r ∷ heads ↦ some (least r heads) ]
