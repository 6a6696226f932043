-- ===== src/Share/Staging.antt =====
-- `Share::stage`: what is staged of the records that come, and the objects it asks for.
use happy_active_everywhere.Base.{
  Bool, true, false, not, ◌||◌, ◌==◌, some, List, [], ◌∷◌, ◌++◌, length, if◌then◌else◌, ok,
  >>=-eq-ok, >>-eq-ok, ensure-eq-ok, ok-injective, ◌≡◌, ◌≢◌, refl, sym, ap, subst, ◌∙◌, arith, ◌⊎◌,
  inl, inr, Bool-cases,
}
use happy_active_everywhere.Base.In.{All}
use happy_active_everywhere.Base.Order.{◌≟◌, ≟-eq, ≟-refl, list_ord}
use happy_active_everywhere.Base.Text.{Text}
use happy_active_everywhere.Base.BTreeMap.{BTreeMap, get, insert, get-insert, contains_key}
use happy_active_everywhere.Model.{
  Content, file, directory, deleted, Revision, Versions, no_versions, Codec, join,
}
use happy_active_everywhere.Model.FilePath.{validate_path}
use happy_active_everywhere.Share.{
  Record, Index, object_path, need_objects, stage_record, stage_all,
}

differs : (a b : Text) → a ≢ b → (a ≟ b) ≡ false
differs a b d = elim (Bool-cases (a ≟ b)) [ inl e ↦ absurd (d (≟-eq a b e)) | inr e ↦ e ]

content_cases :
    (c : Content) → ((hash : Text) × (c ≡ file hash)) ⊎ ((c ≡ directory) ⊎ (c ≡ deleted))
content_cases (file hash) = inl (hash, refl)
content_cases directory = inr (inl refl)
content_cases deleted = inr (inr refl)

module _ (codec : Codec) (has_object : Text → Bool) where
  -- The object of a content is there, or asked for.
  abbrev pub IsFetched : BTreeMap Text (Unit {0}) → Content → Type 0
  IsFetched needed (file hash) = (has_object hash || contains_key hash needed) ≡ true
  IsFetched needed directory = Unit
  IsFetched needed deleted = Unit

  contains_key-insert :
      (k j : Text) (m : BTreeMap Text (Unit {0}))
      → contains_key k m ≡ true
      → contains_key k (insert j tt m) ≡ true
  unfolding contains_key
  contains_key-insert k j m h = ground (arith, get-insert j k tt m)

  contains_key-insert_self :
      (k : Text) (m : BTreeMap Text (Unit {0})) → contains_key k (insert k tt m) ≡ true
  unfolding contains_key
  contains_key-insert_self k m = rw (contains_key, get-insert k k tt m, ≟-refl k)

  add_hash : Text → BTreeMap Text (Unit {0}) → BTreeMap Text (Unit {0})
  add_hash hash needed = if has_object hash then needed else insert hash tt needed

  add_hash-IsFetched :
      (hash : Text) (needed : BTreeMap Text (Unit {0})) (c : Content)
      → IsFetched needed c
      → IsFetched (add_hash hash needed) c
  unfolding add_hash
  add_hash-IsFetched hash needed (file k) f = ground (arith, contains_key-insert k hash needed)
  add_hash-IsFetched hash needed directory f = tt
  add_hash-IsFetched hash needed deleted f = tt

  add_hash_self :
      (hash : Text) (needed : BTreeMap Text (Unit {0}))
      → IsFetched (add_hash hash needed) (file hash)
  unfolding add_hash
  add_hash_self hash needed = ground (arith, contains_key-insert_self hash needed)

  abbrev pub AllFetched : BTreeMap Text (Unit {0}) → List Revision → Type 0
  AllFetched needed heads = All (λ (h : Revision). IsFetched needed h.content) heads

  need_nothing :
      (needed : BTreeMap Text (Unit {0})) {after : BTreeMap Text (Unit {0})}
      → need_objects codec has_object [] needed ≡ ok after
      → needed ≡ after
  unfolding need_objects
  need_nothing needed h = ok-injective h

  -- The set after a head.
  abbrev after_head : Content → BTreeMap Text (Unit {0}) → BTreeMap Text (Unit {0})
  after_head (file hash) needed = add_hash hash needed
  after_head directory needed = needed
  after_head deleted needed = needed

  after_head-IsFetched :
      (b c : Content) (needed : BTreeMap Text (Unit {0}))
      → IsFetched needed c
      → IsFetched (after_head b needed) c
  after_head-IsFetched (file hash) c needed f = add_hash-IsFetched hash needed c f
  after_head-IsFetched directory c needed f = f
  after_head-IsFetched deleted c needed f = f

  after_head_self :
      (c : Content) (needed : BTreeMap Text (Unit {0})) → IsFetched (after_head c needed) c
  after_head_self (file hash) needed = add_hash_self hash needed
  after_head_self directory needed = tt
  after_head_self deleted needed = tt

  need_objects-head :
      (h : Revision) (heads : List Revision) (needed : BTreeMap Text (Unit {0}))
      {after : BTreeMap Text (Unit {0})}
      → need_objects codec has_object (h ∷ heads) needed ≡ ok after
      → need_objects codec has_object heads (after_head h.content needed) ≡ ok after
  unfolding need_objects add_hash
  need_objects-head h heads needed e = elim (content_cases h.content) [
    | inl (hash, c) ↦ rw c ((>>-eq-ok (object_path hash) _ (rw (need_objects, c) at e)).1)
    | inr (inl c) ↦ rw c (rw (need_objects, c) at e)
    | inr (inr c) ↦ rw c (rw (need_objects, c) at e)
  ]

  -- `need_objects` keeps what was there, and adds the objects of the heads.
  need_objects-IsFetched :
      (heads : List Revision) (needed : BTreeMap Text (Unit {0})) (c : Content)
      {after : BTreeMap Text (Unit {0})}
      → need_objects codec has_object heads needed ≡ ok after
      → IsFetched needed c
      → IsFetched after c
  need_objects-IsFetched [] needed c e f =
      subst (λ (x : BTreeMap Text (Unit {0})). IsFetched x c) (need_nothing needed e) f
  need_objects-IsFetched (h ∷ heads) needed c e f =
      need_objects-IsFetched heads (after_head h.content needed) c
        (need_objects-head h heads needed e) (after_head-IsFetched h.content c needed f)

  need_objects-AllFetched :
      (heads : List Revision) (needed : BTreeMap Text (Unit {0})) {after : BTreeMap Text (Unit {0})}
      → need_objects codec has_object heads needed ≡ ok after
      → AllFetched after heads
  need_objects-AllFetched [] needed e = tt
  need_objects-AllFetched (h ∷ heads) needed e =
      let rest = need_objects-head h heads needed e in
      (
        need_objects-IsFetched heads (after_head h.content needed) h.content rest
            (after_head_self h.content needed),
        need_objects-AllFetched heads (after_head h.content needed) rest,
      )

  stage_record-checks :
      (index : Index) (r : Record) {index' : Index}
      → stage_record codec has_object index r ≡ ok index'
      → (validated : Versions) × (needed : BTreeMap Text (Unit {0})) × (join codec no_versions
            r.versions
          ≡ ok validated)
        × (need_objects codec has_object validated.heads index.needed ≡ ok needed)
        × (index'
            ≡ record index { incoming = insert r.path validated index.incoming; needed = needed })
  unfolding stage_record
  stage_record-checks index r h =
      let (_, h1) = >>-eq-ok (validate_path r.path) _ h in
      let (validated, j, h2) = >>=-eq-ok (join codec no_versions r.versions) _ h1 in
      let (_, h3) = ensure-eq-ok (not (length validated.heads == 0)) _ _ h2 in
      let (needed, n, h4) =
        >>=-eq-ok (need_objects codec has_object validated.heads index.needed) _ h3 in
      (validated, needed, j, n, sym (ok-injective h4))

  stage_nothing :
      (index : Index) {index' : Index}
      → stage_all codec has_object index [] ≡ ok index'
      → index ≡ index'
  unfolding stage_all
  stage_nothing index h = ok-injective h

  stage_all-head :
      (index : Index) (r : Record) (rs : List Record) {index' : Index}
      → stage_all codec has_object index (r ∷ rs) ≡ ok index'
      → (next : Index) × (stage_record codec has_object index r ≡ ok next)
        × (stage_all codec has_object next rs ≡ ok index')
  unfolding stage_all
  stage_all-head index r rs h = >>=-eq-ok (stage_record codec has_object index r) _ h

  -- The tables but those of what comes in.
  abbrev pub IsUntouched : Index → Index → Type 0
  IsUntouched index index' =
      (index'.entries ≡ index.entries)
      × (index'.sequence ≡ index.sequence)
      × (index'.history ≡ index.history)
      × (index'.pending ≡ index.pending)
      × (index'.cursors ≡ index.cursors)

  IsUntouched-trans : (a b c : Index) → IsUntouched a b → IsUntouched b c → IsUntouched a c
  IsUntouched-trans a b c (e, f, g, h, i) (e', f', g', h', i') =
      (e' ∙ e, f' ∙ f, g' ∙ g, h' ∙ h, i' ∙ i)

  stage_record-IsUntouched :
      (index : Index) (r : Record) (path : Text) {next : Index}
      → stage_record codec has_object index r ≡ ok next
      → IsUntouched index next
        × ((validated : Versions) × (join codec no_versions r.versions ≡ ok validated)
            × (get path next.incoming
                ≡ (if path ≟ r.path then some validated else get path index.incoming))
            × AllFetched next.needed validated.heads)
  stage_record-IsUntouched index r path h =
      let (validated, needed, j, n, q) = stage_record-checks index r h in
      (
        (
          ap (λ (x : Index). x.entries) q,
          ap (λ (x : Index). x.sequence) q,
          ap (λ (x : Index). x.history) q,
          ap (λ (x : Index). x.pending) q,
          ap (λ (x : Index). x.cursors) q,
        ),
        (
          validated,
          j,
          ap (λ (x : Index). get path x.incoming) q
              ∙ get-insert r.path path validated index.incoming,
          subst (λ (x : Index). AllFetched x.needed validated.heads) (sym q)
              (need_objects-AllFetched validated.heads index.needed n),
        ),
      )

  stage_record-IsFetched :
      (index : Index) (r : Record) (c : Content) {next : Index}
      → stage_record codec has_object index r ≡ ok next
      → IsFetched index.needed c
      → IsFetched next.needed c
  stage_record-IsFetched index r c h f =
      let (validated, needed, j, n, q) = stage_record-checks index r h in
      subst (λ (x : Index). IsFetched x.needed c) (sym q)
        (need_objects-IsFetched validated.heads index.needed c n f)

  stage_all-IsFetched :
      (index : Index) (rs : List Record) (heads : List Revision) {index' : Index}
      → stage_all codec has_object index rs ≡ ok index'
      → AllFetched index.needed heads
      → AllFetched index'.needed heads
  stage_all-IsFetched index rs [] h a = tt
  stage_all-IsFetched index rs (x ∷ heads) h a =
      (stage_all-one index rs x.content h a.0, stage_all-IsFetched index rs heads h a.1)
    where
      stage_all-one :
          (index : Index) (rs : List Record) (c : Content) {index' : Index}
          → stage_all codec has_object index rs ≡ ok index'
          → IsFetched index.needed c
          → IsFetched index'.needed c
      stage_all-one index [] c h f =
          subst (λ (x : Index). IsFetched x.needed c) (stage_nothing index h) f
      stage_all-one index (r ∷ rs) c h f =
          let (next, e, rest) = stage_all-head index r rs h in
          stage_all-one next rs c rest (stage_record-IsFetched index r c e f)

  -- Records of other paths leave what is staged for a path.
  stage_all_others :
      (index : Index) (path : Text) (rs : List Record) {index' : Index}
      → stage_all codec has_object index rs ≡ ok index'
      → All (λ (q : Record). path ≢ q.path) rs
      → (get path index'.incoming ≡ get path index.incoming) × IsUntouched index index'
  stage_all_others index path [] h a =
      subst (λ (x : Index). (get path x.incoming ≡ get path index.incoming) × IsUntouched index x)
        (stage_nothing index h) (refl, (refl, refl, refl, refl, refl))
  stage_all_others index path (r ∷ rs) {index'} h a =
      let (next, e, rest) = stage_all-head index r rs h in
      let (u, (validated, _, g, _)) = stage_record-IsUntouched index r path e in
      let (same, v) = stage_all_others next path rs rest a.1 in
      (same ∙ g ∙ rw (differs path r.path a.0), IsUntouched-trans index next index' u v)

  -- Where some records are staged, none of a path after a certain one: the version set of that one has
  -- been checked by `join`, and the result is what is staged for the path; the object of each file among
  -- its heads is there or will be asked for; and no table but those of what comes in has changed.
  pub stage_all-incoming :
      (index : Index) (before after : List Record) (r : Record) {index' : Index}
      → stage_all codec has_object index (before ++ (r ∷ after)) ≡ ok index'
      → All (λ (q : Record). r.path ≢ q.path) after
      → (validated : Versions) × (join codec no_versions r.versions ≡ ok validated)
        × (get r.path index'.incoming ≡ some validated)
        × AllFetched index'.needed validated.heads
        × IsUntouched index index'
  stage_all-incoming index [] after r {index'} h a =
      let (next, e, rest) = stage_all-head index r after h in
      let (u, (validated, j, g, f)) = stage_record-IsUntouched index r r.path e in
      let (same, v) = stage_all_others next r.path after rest a in
      (
        validated,
        j,
        same ∙ g ∙ rw (≟-refl r.path),
        stage_all-IsFetched next after validated.heads rest f,
        IsUntouched-trans index next index' u v,
      )
  stage_all-incoming index (q ∷ before) after r {index'} h a =
      let (next, e, rest) = stage_all-head index q (before ++ (r ∷ after)) h in
      let (u, _) = stage_record-IsUntouched index q r.path e in
      let (validated, j, g, f, v) = stage_all-incoming next before after r rest a in
      (validated, j, g, f, IsUntouched-trans index next index' u v)
