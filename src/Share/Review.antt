-- ===== src/Share/Review.antt =====
-- `Share::approve_deletion` of src/share.rs: the deletion of a path that a user has reviewed.
use happy_active_everywhere.Base.{
  ℕ, String, Bool, true, false, ◌&&◌, Option, none, some, List, Result, ok, ensure, context, ◌>>=◌,
  ◌>>◌, >>=-eq-ok, >>-eq-ok, ensure-eq-ok, ok-injective, ◌≡◌, refl, sym, ap, subst, ◌∙◌, arith,
}
use happy_active_everywhere.Base.Order.{≟-refl, list_ord}
use happy_active_everywhere.Base.Text.{Text}
use happy_active_everywhere.Base.BTreeMap.{get, remove, get-remove, contains_key}
use happy_active_everywhere.Model.{Content, deleted, Versions, Codec, join, edit}
use happy_active_everywhere.Model.Equality.{same_versions, same_versions-eq}
use happy_active_everywhere.Model.FilePath.{validate_path}
use happy_active_everywhere.Share.{Entry, Index, save}
use happy_active_everywhere.Share.Saving.{IsValid, save-IsValid, save-get}
use happy_active_everywhere.Share.Scan.{unpend, scan}
use happy_active_everywhere.Share.Scan.Steps.{pend-IsValid}

abbrev pub is_absent : Option Content → Bool
is_absent none = true
is_absent (some c) = false

module _ (codec : Codec) (collision_key : Text → Text) (replica : Text) where
  -- What follows the checks of the review.
  unfoldable pub delete_reviewed : Index → Text → Entry → Result Index
  unfolding save
  delete_reviewed index path local = do
    deletion ← edit codec local.observed replica deleted
    combined ← join codec local.versions deletion
    next ← save codec collision_key index path combined none deletion
    ok (unpend path next)

  -- What follows the scan; `content` is what `Root::content` answers for the path.
  unfoldable pub review_deletion :
      Result (Unit {0}) → Result (Option Content) → Text → Versions → Index → Result Index
  unfolding delete_reviewed
  review_deletion check_root content path expected index = do
    local ← context (get path index.entries) "unknown deletion path"
    ensure (contains_key path index.pending && same_versions local.versions expected)
        "deletion review is stale; review the current state again"
    check_root
    there ← content
    ensure (is_absent there) "local path reappeared after deletion review"
    delete_reviewed index path local

  unfoldable pub approve_deletion :
      Result Bool
      → (ℕ → Result (Unit {0}))
      → Result (Unit {0})
      → Result (List (Text × Content))
      → Result (Option Content)
      → Text
      → Versions
      → Index
      → Result Index
  unfolding scan review_deletion
  approve_deletion recovery_pending check_root recover visited content path expected index = do
    validate_path path
    (_, _, scanned) ←
        scan codec collision_key replica recovery_pending check_root recover visited false index
    review_deletion (check_root 3) content path expected scanned

  -- What the row of the path is after its deletion, and before it.
  abbrev pub IsDeleted : Text → Versions → Index → Index → Type 0
  IsDeleted path expected index index' =
      (local : Entry) × (entry : Entry) × (deletion : Versions) × (get path index.entries
        ≡ some local)
      × (local.versions ≡ expected)
      × (contains_key path index.pending ≡ true)
      × (edit codec local.observed replica deleted ≡ ok deletion)
      × (get path index'.entries ≡ some entry)
      × (join codec expected deletion ≡ ok entry.versions)
      × (entry.observed ≡ deletion)
      × (entry.materialized ≡ none)
      × (get path index'.pending ≡ none)

  context-eq-ok :
      (found : Option Entry) (message : String) (next : Entry → Result Index) {out : Index}
      → (context found message >>= next) ≡ ok out
      → (local : Entry) × (found ≡ some local) × (next local ≡ ok out)
  context-eq-ok none message next h = cc
  context-eq-ok (some local) message next h = (local, refl, h)

  -- A deletion that is approved after the scan was of a path that was pending, with exactly the version
  -- set that was reviewed, and that the folder does not have. Afterwards the row has the join of that
  -- set with a deletion of what was observed, the folder has nothing according to the row, the path is
  -- not pending, and the index is valid.
  pub review_deletion-IsDeleted :
      (check_root : Result (Unit {0})) (content : Result (Option Content)) (path : Text)
      (expected : Versions) (index : Index) {index' : Index}
      → IsValid index
      → review_deletion check_root content path expected index ≡ ok index'
      → IsValid index' × (content ≡ ok none) × IsDeleted path expected index index'
  unfolding review_deletion delete_reviewed
  review_deletion-IsDeleted check_root content path expected index {index'} v h =
      let (local, g, h1) = context-eq-ok (get path index.entries) "unknown deletion path" _ h in
      let (t, h2) =
        ensure-eq-ok (contains_key path index.pending && same_versions local.versions expected) _ _
          h1 in
      let (_, h3) = >>-eq-ok check_root _ h2 in
      let (there, c, h4) = >>=-eq-ok content _ h3 in
      let (a, h5) = ensure-eq-ok (is_absent there) _ _ h4 in
      let (deletion, e, h6) = >>=-eq-ok (edit codec local.observed replica deleted) _ h5 in
      let (combined, j, h7) = >>=-eq-ok (join codec local.versions deletion) _ h6 in
      let (next, s, h8) =
        >>=-eq-ok (save codec collision_key index path combined none deletion) _ h7 in
      let (entry, f, b, m, o, _, _, _, _, _) =
        save-get codec collision_key index path path combined none deletion s in
      let same : local.versions ≡ expected =
        same_versions-eq local.versions expected (ground arith) in
      let found : get path next.entries ≡ some entry = f ∙ rw (≟-refl path) refl in
      let absent : there ≡ none = absent_none there a in
      (
        subst IsValid (ok-injective h8) (
            pend-IsValid codec collision_key next (remove path next.pending)
              (save-IsValid codec collision_key index path combined none deletion v s)),
        c ∙ ap (λ (x : Option Content). ok x) absent,
        subst (IsDeleted path expected index) (ok-injective h8) (
          local,
          entry,
          deletion,
          g,
          same,
          ground arith,
          e,
          found,
          ap (λ (x : Versions). join codec x deletion) (sym same)
              ∙ j
              ∙ ap (λ (x : Versions). ok x) (sym b),
          o,
          m,
          get-remove path path next.pending ∙ rw (≟-refl path) refl,
        ),
      )
    where
      absent_none : (o : Option Content) → is_absent o ≡ true → o ≡ none
      absent_none none h = refl
      absent_none (some c) h = cc
