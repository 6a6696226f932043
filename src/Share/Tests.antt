-- ===== src/Share/Tests.antt =====
-- The operations of src/share.rs at a small index, and the theorems there.
use happy_active_everywhere.Base.{
  ℕ, zero, suc, String, ◌+◌, ◌<◌, ◌≤◌, Bool, true, false, Option, none, some, List, [], ◌∷◌, ◌++◌,
  Result, ok, err, ◌≡◌, ◌≢◌, refl, sym, ap, arith, ◌⊎◌, inl, inr, length, if◌then◌else◌,
}
use happy_active_everywhere.Base.In.{In}
use happy_active_everywhere.Base.Order.{lex, list_ord}
use happy_active_everywhere.Base.Text.{Text, text, valid_hash}
use happy_active_everywhere.Base.BTreeMap.{BTreeMap, IsSorted, get, insert, contains_key}
use happy_active_everywhere.Model.{
  Content, file, directory, deleted, Revision, Versions, versions_of, no_versions, join,
}
use happy_active_everywhere.Model.Tests.{sample_codec, zeros, alpha, beta, gamma, only}
use happy_active_everywhere.Model.FilePath.{validate_path, check_name}
use happy_active_everywhere.Share.{
  Record, Entry, Index, History, heads_of, save, stage_all, row_record,
}
use happy_active_everywhere.Share.Choosing.{choose_scanned, pick}
use happy_active_everywhere.Share.Choosing.Chosen.{IsChosen, choose_scanned-IsChosen}
use happy_active_everywhere.Share.Saving.{IsValid}
use happy_active_everywhere.Share.Remembering.{IsRecorded, recorded, save-history}
use happy_active_everywhere.Share.Staging.{AllFetched, IsUntouched, stage_all-incoming}
use happy_active_everywhere.Share.Scan.{scan_inner, is_removed}
use happy_active_everywhere.Share.Scan.Seen.{IsTaken}
use happy_active_everywhere.Share.Scan.Unseen.{IsPending}
use happy_active_everywhere.Share.Scan.Folder.{
  scan_inner-IsTaken, scan_inner-IsPending, scan_inner-IsValid,
}
use happy_active_everywhere.Share.Review.{review_deletion, IsDeleted, review_deletion-IsDeleted}
use happy_active_everywhere.Share.Commit.{commit_all, commit_incoming}
use happy_active_everywhere.Share.Commit.Joining.{IsCommitted, commit_all-joined}
use happy_active_everywhere.Share.Commit.Whole.{HasCommitted, commit_incoming-done}

abbrev pub empty_index : Index
empty_index = record {
  sequence = 0;
  entries = [];
  pending = [];
  incoming = [];
  needed = [];
  cursors = [];
  history = [];
}

abbrev pub empty-IsValid : IsValid empty_index
empty-IsValid = record { sorted = tt; at_most = tt; seqs = tt; aliases = tt }

abbrev same_key : Text → Text
same_key p = p

-- A file that was taken in from the folder.
abbrev pub index_a : Index
index_a = record empty_index {
  sequence = 1;
  entries =
      (
        text "a",
        record {
          alias = text "a";
          versions = only alpha;
          materialized = some (file zeros);
          observed = only alpha;
          seq = 1;
        },
      )
      ∷ [];
  history = (text "a", (sample_codec.id alpha, alpha) ∷ []) ∷ [];
}

abbrev pub index_a-IsValid : IsValid index_a
index_a-IsValid = record {
  sorted = (tt, tt);
  at_most = (omega arith, tt);
  seqs = (tt, tt);
  aliases = (tt, tt);
}

saved :
    save sample_codec same_key empty_index (text "a") (only alpha) (some (file zeros)) (only alpha)
    ≡ ok index_a
unfolding save validate_path check_name get insert contains_key
saved = refl

save-history_example :
    IsRecorded sample_codec
      (text "a")
      alpha
      (heads_of (get (text "a") empty_index.entries) ++ (alpha ∷ []))
      []
      index_a.history
    × ((recorded (text "a") [] [] ≡ none)
        ⊎ (recorded (text "a") [] index_a.history ≡ recorded (text "a") [] []))
unfolding get
save-history_example =
    save-history sample_codec same_key empty_index (text "a") (only alpha) (some (file zeros))
      (only alpha) alpha (text "a") [] saved (inl refl)

abbrev record_b : Record
record_b = record { path = text "b"; versions = only gamma; seq = 1 }

abbrev staged : Index
staged = record index_a { incoming = (text "b", only gamma) ∷ [] }

abbrev staged-IsValid : IsValid staged
staged-IsValid = record {
  sorted = (tt, tt);
  at_most = (omega arith, tt);
  seqs = (tt, tt);
  aliases = (tt, tt);
}

staged_run : stage_all sample_codec (λ hash. false) index_a ([] ++ (record_b ∷ [])) ≡ ok staged
unfolding stage_all validate_path check_name join happy_active_everywhere.Model.candidates
    happy_active_everywhere.Versions.validate happy_active_everywhere.Versions.relation insert
staged_run = refl

stage_all-incoming_example :
    (validated : Versions) × (join sample_codec no_versions (only gamma) ≡ ok validated)
    × (get (text "b") staged.incoming ≡ some validated)
    × AllFetched sample_codec (λ hash. false) staged.needed validated.heads
    × IsUntouched sample_codec (λ hash. false) index_a staged
stage_all-incoming_example =
    stage_all-incoming sample_codec (λ hash. false) index_a [] [] record_b staged_run tt

-- What is found in the folder: `a` is gone, and there is a directory `b`.
abbrev found : List (Text × Content)
found = (text "b", directory) ∷ []

abbrev first_char : Text → ℕ
first_char [] = 0
first_char (c ∷ p) = c

abbrev made_b : Revision
made_b = record { clock = (text "d", 1) ∷ []; content = directory }

abbrev after_scan : Index
after_scan = record index_a {
  sequence = 2;
  entries =
      index_a.entries
      ++ ((
        text "b",
        record {
          alias = text "b";
          versions = only made_b;
          materialized = some directory;
          observed = only made_b;
          seq = 2;
        },
      )
          ∷ []);
  pending = (text "a", tt) ∷ [];
  history = index_a.history ++ ((text "b", (sample_codec.id made_b, made_b) ∷ []) ∷ []);
}

scan_run :
    scan_inner sample_codec same_key (text "d") (λ n. ok tt) (ok tt) (ok found) false index_a
    ≡ ok (1, 1, after_scan)
unfolding scan_inner happy_active_everywhere.Share.Scan.record_seen
    happy_active_everywhere.Base.Paging.pages happy_active_everywhere.Base.Paging.rows_after insert
    list_ord lex get happy_active_everywhere.Model.edit happy_active_everywhere.Versions.advance
    happy_active_everywhere.Model.candidates happy_active_everywhere.Versions.validate
    happy_active_everywhere.Versions.relation save validate_path check_name
    happy_active_everywhere.Share.Scan.unseen contains_key
    happy_active_everywhere.Base.BTreeMap.remove
    happy_active_everywhere.Model.Equality.same_versions
scan_run = refl

scan_inner-IsTaken_example : IsValid after_scan × IsTaken (text "b") directory after_scan
scan_inner-IsTaken_example =
    scan_inner-IsTaken sample_codec same_key (text "d") (λ n. ok tt) (ok tt) found false index_a
      (text "b") directory index_a-IsValid (inl refl) (λ e. cc) scan_run

scan_inner-IsPending_example :
    IsPending
      (text "a")
      (record {
        alias = text "a";
        versions = only alpha;
        materialized = some (file zeros);
        observed = only alpha;
        seq = 1;
      })
      after_scan
    × (0 < 1)
unfolding get is_removed happy_active_everywhere.Model.Equality.same_versions list_ord lex
scan_inner-IsPending_example =
    scan_inner-IsPending sample_codec same_key (text "d") (λ n. ok tt) (ok tt) found index_a
      (text "a")
      (record {
        alias = text "a";
        versions = only alpha;
        materialized = some (file zeros);
        observed = only alpha;
        seq = 1;
      })
      index_a-IsValid (λ e. cc) not_found refl (not_removed, (file zeros, refl)) scan_run
  where
    not_found : (c : Content) → In (text "a", c) found → ⊥
    not_found c (inl e) = absurd (omega (arith, ap (λ (x : Text × Content). first_char x.0) e))
    not_found c (inr e) = e

    not_removed :
        is_removed sample_codec (record {
          alias = text "a";
          versions = only alpha;
          materialized = some (file zeros);
          observed = only alpha;
          seq = 1;
        })
        ≡ false
    not_removed = refl

-- A row that waits: what another device has made of `b`.
abbrev index_b : Index
index_b = record empty_index {
  sequence = 1;
  entries =
      (
        text "b",
        record {
          alias = text "b";
          versions = only gamma;
          materialized = none;
          observed = no_versions;
          seq = 1;
        },
      )
      ∷ [];
}

abbrev index_b-IsValid : IsValid index_b
index_b-IsValid = record {
  sorted = (tt, tt);
  at_most = (omega arith, tt);
  seqs = (tt, tt);
  aliases = (tt, tt);
}

abbrev both : Versions
both = versions_of (alpha ∷ beta ∷ [])

abbrev joined : Index
joined = record index_a {
  sequence = 2;
  entries =
      (
        text "a",
        record {
          alias = text "a";
          versions = both;
          materialized = some (file zeros);
          observed = only alpha;
          seq = 2;
        },
      )
      ∷ [];
  history = (text "a", (sample_codec.id alpha, alpha) ∷ (sample_codec.id beta, beta) ∷ []) ∷ [];
}

commit_run : commit_all sample_codec same_key index_a ((text "a", only beta) ∷ []) ≡ ok joined
unfolding commit_all get list_ord lex join happy_active_everywhere.Model.candidates
    happy_active_everywhere.Versions.validate valid_hash happy_active_everywhere.Versions.relation
    validate_path check_name happy_active_everywhere.Model.Equality.same_versions insert
    contains_key
commit_run = refl

commit_all-joined_example :
    IsValid joined
    × IsCommitted sample_codec same_key
        (get (text "a") ((text "a", only beta) ∷ []))
        (text "a")
        index_a
        joined
    × (joined.pending ≡ index_a.pending)
commit_all-joined_example =
    commit_all-joined sample_codec same_key index_a ((text "a", only beta) ∷ []) (text "a")
      index_a-IsValid (tt, tt) commit_run

commit_incoming-done_example :
    ((message : String) × (commit_incoming sample_codec same_key
          (λ folder. ok tt)
          (λ folder path before after. ok tt)
          (λ folder. ok tt)
          (text "d")
          (λ n. ok tt)
          (ok tt)
          (ok found)
          (ok false)
          tt
          staged
        ≡ err message))
    ⊎ ((out : Option (Unit {0} × Index)) × (commit_incoming sample_codec same_key
            (λ folder. ok tt)
            (λ folder path before after. ok tt)
            (λ folder. ok tt)
            (text "d")
            (λ n. ok tt)
            (ok tt)
            (ok found)
            (ok false)
            tt
            staged
          ≡ ok out)
        × HasCommitted out)
commit_incoming-done_example =
    commit_incoming-done sample_codec same_key (λ folder. ok tt) (λ folder path before after. ok tt)
      (λ folder. ok tt) (text "d") (λ n. ok tt) (ok tt) (ok found) (ok false) tt staged
      staged-IsValid

abbrev deleted_a : Revision
deleted_a = record { clock = (text "a", 1) ∷ (text "d", 1) ∷ []; content = deleted }

-- The index after the deletion of `a` was approved.
abbrev after_review : Index
after_review = record after_scan {
  sequence = 3;
  entries =
      (
        text "a",
        record {
          alias = text "a";
          versions = only deleted_a;
          materialized = none;
          observed = only deleted_a;
          seq = 3;
        },
      )
      ∷ (
        text "b",
        record {
          alias = text "b";
          versions = only made_b;
          materialized = some directory;
          observed = only made_b;
          seq = 2;
        },
      )
      ∷ [];
  pending = [];
  history =
      (text "a", (sample_codec.id deleted_a, deleted_a) ∷ (sample_codec.id alpha, alpha) ∷ [])
      ∷ (text "b", (sample_codec.id made_b, made_b) ∷ [])
      ∷ [];
}

review_run :
    review_deletion sample_codec same_key
      (text "d")
      (ok tt)
      (ok none)
      (text "a")
      (only alpha)
      after_scan
    ≡ ok after_review
unfolding review_deletion get list_ord lex happy_active_everywhere.Model.edit join
    happy_active_everywhere.Versions.advance happy_active_everywhere.Model.candidates
    happy_active_everywhere.Versions.validate valid_hash happy_active_everywhere.Versions.relation
    save validate_path check_name insert contains_key happy_active_everywhere.Base.BTreeMap.remove
    happy_active_everywhere.Model.Equality.same_versions happy_active_everywhere.Versions.merge
review_run = refl

abbrev no_content : Result (Option Content)
no_content = ok none

after_scan-IsValid : IsValid after_scan
after_scan-IsValid =
    scan_inner-IsValid sample_codec same_key (text "d") (λ n. ok tt) (ok tt) (ok found) false
      index_a index_a-IsValid scan_run

review_deletion-IsDeleted_example :
    IsValid after_review
    × (no_content ≡ ok none)
    × IsDeleted sample_codec same_key (text "d") (text "a") (only alpha) after_scan after_review
review_deletion-IsDeleted_example =
    review_deletion-IsDeleted sample_codec same_key (text "d") (ok tt) (ok none) (text "a")
      (only alpha) after_scan after_scan-IsValid review_run

-- A conflict of two heads, and the choice of the second one.
abbrev conflict : Index
conflict = record index_a {
  entries =
      (
        text "a",
        record {
          alias = text "a";
          versions = versions_of (alpha ∷ gamma ∷ []);
          materialized = some (file zeros);
          observed = versions_of (alpha ∷ gamma ∷ []);
          seq = 1;
        },
      )
      ∷ [];
}

abbrev conflict-IsValid : IsValid conflict
conflict-IsValid = record {
  sorted = (tt, tt);
  at_most = (omega arith, tt);
  seqs = (tt, tt);
  aliases = (tt, tt);
}

abbrev chosen : Revision
chosen = record { clock = (text "a", 1) ∷ (text "c", 1) ∷ (text "d", 1) ∷ []; content = directory }

abbrev after_choice : Index
after_choice = record conflict {
  sequence = 2;
  entries =
      (
        text "a",
        record {
          alias = text "a";
          versions = only chosen;
          materialized = some directory;
          observed = only chosen;
          seq = 2;
        },
      )
      ∷ [];
  history =
      (
        text "a",
        (sample_codec.id chosen, chosen)
            ∷ (sample_codec.id alpha, alpha)
            ∷ (sample_codec.id gamma, gamma)
            ∷ [],
      )
      ∷ [];
}

choice_run :
    choose_scanned sample_codec same_key
      (text "d")
      {Folder = ℕ}
      (λ f. ok tt)
      (λ f path there wanted. ok 1)
      (λ f. ok tt)
      (λ f path. ok (some (file zeros)))
      (λ hash. ok hash)
      0
      conflict
      (text "a")
      (sample_codec.id gamma)
      false
    ≡ ok (1, after_choice)
unfolding choose_scanned get list_ord lex happy_active_everywhere.Model.edit join
    happy_active_everywhere.Versions.advance happy_active_everywhere.Model.candidates
    happy_active_everywhere.Versions.validate valid_hash happy_active_everywhere.Versions.relation
    save validate_path check_name insert contains_key happy_active_everywhere.Base.BTreeMap.remove
    happy_active_everywhere.Model.Equality.same_versions happy_active_everywhere.Versions.merge
    happy_active_everywhere.Model.selected
choice_run = refl

choose_scanned-IsChosen_example :
    IsValid after_choice
    × ((picked : Revision) × (entry : Entry) × (pick sample_codec same_key
            (text "d")
            false
            (text "a")
            (sample_codec.id gamma)
            record {
              alias = text "a";
              versions = versions_of (alpha ∷ gamma ∷ []);
              materialized = some (file zeros);
              observed = versions_of (alpha ∷ gamma ∷ []);
              seq = 1;
            }
            conflict
          ≡ ok picked)
        × (get (text "a") after_choice.entries ≡ some entry)
        × IsChosen sample_codec same_key (text "d") (alpha ∷ gamma ∷ []) picked.content entry)
    × (get (text "a") after_choice.pending ≡ none)
unfolding get list_ord lex
choose_scanned-IsChosen_example =
    choose_scanned-IsChosen sample_codec same_key (text "d") {Folder = ℕ} (λ f. ok tt)
      (λ f path there wanted. ok 1) (λ f. ok tt) (λ f path. ok (some (file zeros)))
      (λ hash. ok hash) 0 conflict (text "a") (sample_codec.id gamma) false
      {out = (1, after_choice)} conflict-IsValid refl ((tt, tt), ((tt, tt), tt)) choice_run
