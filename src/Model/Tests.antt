-- ===== src/Model/Tests.antt =====
-- The operations of src/model.rs at small version sets, with a codec that spells a revision out, and
-- the theorems there.
use happy_active_everywhere.Base.{
  ◌+◌, ◌*◌, some, List, [], ◌∷◌, ◌++◌, ◌≡◌, ◌↔◌, ◌⊎◌, inl, inr, refl, sym, ◌∙◌, arith, ok, err,
  length, map,
}
use mathlib.Core.Option.{some-injective}
use mathlib.Core.List.{reverse}
use happy_active_everywhere.Base.In.{In, In-map}
use happy_active_everywhere.Base.Order.{lex, list_ord}
use happy_active_everywhere.Base.Text.{Text, text, valid_hash, split}
use happy_active_everywhere.Base.BTreeMap.{IsSorted, get-of-In}
use happy_active_everywhere.Versions.{Clock, relation, before, validate, advance, merge}
use happy_active_everywhere.Model.{
  Content, file, directory, deleted, Revision, Versions, versions_of, no_versions, Codec, with_id,
  join, edit, selected, candidates, settle, superseded, place, dedup_after,
}
use happy_active_everywhere.Model.Join.{Distinct, NoneAfter, join-In}
use happy_active_everywhere.Model.Maximal.{join_covers}
use happy_active_everywhere.Model.Converge.{join_comm}
use happy_active_everywhere.Model.Grouping.{join_assoc}
use happy_active_everywhere.Model.Edit.{ClocksSorted}
use happy_active_everywhere.Model.FilePath.{validate_path, check_name}
use happy_active_everywhere.Model.FilePath.Safe.{walk, walk-validate_path}

abbrev pub spell : Clock → Text
spell [] = []
spell ((device, n) ∷ c) = device ++ n ∷ spell c

abbrev pub kind : Content → Text
kind (file hash) = text "f" ++ hash
kind directory = text "d"
kind deleted = text "x"

-- The text of a revision in place of its hash, and a length for each head.
abbrev pub sample_codec : Codec
sample_codec = record {
  id = λ r. spell r.clock ++ kind r.content;
  encoded_len = λ v. 11 + 40 * length v.heads;
}

abbrev pub zeros : Text
zeros = text "0000000000000000000000000000000000000000000000000000000000000000"

abbrev pub alpha : Revision
alpha = record { clock = (text "a", 1) ∷ []; content = file zeros }

abbrev pub beta : Revision
beta = record { clock = (text "b", 1) ∷ []; content = deleted }

abbrev pub gamma : Revision
gamma = record { clock = (text "c", 1) ∷ []; content = directory }

abbrev newest : Revision
newest = record { clock = (text "a", 2) ∷ (text "b", 1) ∷ []; content = directory }

abbrev pub only : Revision → Versions
only r = versions_of (r ∷ [])

joined : join sample_codec (only alpha) (only beta) ≡ ok (versions_of (alpha ∷ beta ∷ []))
unfolding join candidates settle place dedup_after superseded list_ord lex validate relation
    valid_hash
joined = refl

joined_three :
    join sample_codec (versions_of (alpha ∷ beta ∷ [])) (only gamma)
    ≡ ok (versions_of (alpha ∷ beta ∷ gamma ∷ []))
unfolding joined
joined_three = refl

joined_tail : join sample_codec (only beta) (only gamma) ≡ ok (versions_of (beta ∷ gamma ∷ []))
unfolding joined
joined_tail = refl

joined_right :
    join sample_codec (only alpha) (versions_of (beta ∷ gamma ∷ []))
    ≡ ok (versions_of (alpha ∷ beta ∷ gamma ∷ []))
unfolding joined
joined_right = refl

superseding : join sample_codec (versions_of (alpha ∷ beta ∷ [])) (only newest) ≡ ok (only newest)
unfolding joined
superseding = refl

refused_hash :
    join sample_codec no_versions (only (record { clock = (text "a", 1) ∷ []; content = file [] }))
    ≡ err "invalid content hash"
unfolding joined
refused_hash = refl

refused_clock :
    join sample_codec (only alpha) (only (record { clock = (text "a", 1) ∷ []; content = deleted }))
    ≡ err "equal clock with different content"
unfolding joined
refused_clock = refl

edited : edit sample_codec (versions_of (alpha ∷ beta ∷ [])) (text "a") directory ≡ ok (only newest)
unfolding joined edit advance merge
edited = refl

shown : selected sample_codec (versions_of (beta ∷ alpha ∷ [])) ≡ some alpha
unfolding selected list_ord lex
shown = refl

-- Ids in strict order tell the revisions apart.
IsSorted-Distinct :
    (l : List Revision) → IsSorted (map (with_id sample_codec) l) → Distinct sample_codec l
IsSorted-Distinct l s x y i j e = some-injective x y (
    sym (get-of-In (sample_codec.id x) x _ s (In-map (with_id sample_codec) x l i))
    ∙ get-of-In (sample_codec.id x) y _ s (rw e (In-map (with_id sample_codec) y l j)))

three-Distinct : Distinct sample_codec (alpha ∷ beta ∷ gamma ∷ [])
unfolding list_ord lex
three-Distinct =
    IsSorted-Distinct (alpha ∷ beta ∷ gamma ∷ []) ((refl, (refl, tt)), ((refl, tt), (tt, tt)))

two-Distinct : Distinct sample_codec (alpha ∷ beta ∷ [])
unfolding list_ord lex
two-Distinct = IsSorted-Distinct (alpha ∷ beta ∷ []) ((refl, tt), (tt, tt))

edit-Distinct : Distinct sample_codec (alpha ∷ newest ∷ beta ∷ [])
unfolding list_ord lex
edit-Distinct =
    IsSorted-Distinct (alpha ∷ newest ∷ beta ∷ []) ((refl, (refl, tt)), ((refl, tt), (tt, tt)))

clocks : ClocksSorted (alpha ∷ beta ∷ [])
clocks = ((tt, tt), ((tt, tt), tt))

join-In_example :
    In alpha (alpha ∷ beta ∷ [])
    ↔ (In alpha (alpha ∷ beta ∷ []) × NoneAfter alpha (alpha ∷ beta ∷ []))
join-In_example = join-In sample_codec (only alpha) (only beta) alpha joined two-Distinct

join_covers_example :
    (y : Revision) × In y (alpha ∷ beta ∷ [])
    × ((beta ≡ y) ⊎ (relation beta.clock y.clock ≡ before))
join_covers_example =
    join_covers sample_codec (only alpha) (only beta) beta joined two-Distinct (inr (inl refl))

join_comm_example :
    join sample_codec (only beta) (only alpha) ≡ ok (versions_of (alpha ∷ beta ∷ []))
join_comm_example = join_comm sample_codec (only alpha) (only beta) joined two-Distinct

join_assoc_example :
    versions_of (alpha ∷ beta ∷ gamma ∷ []) ≡ versions_of (alpha ∷ beta ∷ gamma ∷ [])
join_assoc_example =
    join_assoc sample_codec (only alpha) (only beta) (only gamma) joined joined_three joined_tail
      joined_right three-Distinct

swapped : (x : Revision) → In x (beta ∷ alpha ∷ []) ↔ In x (alpha ∷ beta ∷ [])
swapped x = (λ i. ground arith, λ i. ground arith)

shown_first : selected sample_codec (versions_of (alpha ∷ beta ∷ [])) ≡ some alpha
unfolding selected list_ord lex
shown_first = refl

accepted : validate_path (text "notes/a.txt") ≡ ok tt
unfolding validate_path check_name
accepted = refl

refused_up : validate_path (text "notes/../a") ≡ err "unsafe path component"
unfolding validate_path check_name
refused_up = refl

refused_reserved : validate_path (text "a/.Everywhere-x") ≡ err "reserved application path"
unfolding validate_path check_name
refused_reserved = refl

refused_device : validate_path (text "com7.txt") ≡ err "reserved Windows filename"
unfolding validate_path check_name
refused_device = refl

walk-validate_path_example :
    walk [] (split 47 (text "notes/a.txt")) ≡ some (reverse (split 47 (text "notes/a.txt")))
walk-validate_path_example = walk-validate_path (text "notes/a.txt") accepted
