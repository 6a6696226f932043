-- ===== src/Share/Scan/Steps.antt =====
-- One round of the loops of `scan`: what it does to the row of its path, and that it leaves the others.
use happy_active_everywhere.Base.{
  ℕ, Bool, true, false, Option, none, some, if◌then◌else◌, ok, >>=-eq-ok, ok-injective, ◌≡◌, refl,
  ap, subst, ◌∙◌, ◌⊎◌, inl, inr, Bool-cases, Option-cases,
}
use happy_active_everywhere.Base.Order.{◌≟◌, ≟-refl, list_ord}
use happy_active_everywhere.Base.Text.{Text}
use happy_active_everywhere.Base.BTreeMap.{BTreeMap, get, insert, remove, get-insert, get-remove}
use happy_active_everywhere.Model.{
  Content, deleted, same, Versions, no_versions, Codec, join, edit, selected,
}
use happy_active_everywhere.Model.Equality.{same-eq}
use happy_active_everywhere.Share.{Entry, Index, save}
use happy_active_everywhere.Share.Saving.{IsValid, save-IsValid, save-get}
use happy_active_everywhere.Share.Scan.{
  is_content, content_of, unpend, pend, is_published, is_removed, record_edit, scan_known,
  scan_path, scan_absent,
}

-- The rows of other paths, and whether they are pending, are as before.
abbrev pub Elsewhere : Text → Index → Index → Type 0
Elsewhere path index index' =
    (p : Text)
    → (p ≟ path) ≡ false
    → (get p index'.entries ≡ get p index.entries) × (get p index'.pending ≡ get p index.pending)

-- The row of the path has this content in the folder.
abbrev pub HasRow : Text → Option Content → Index → Type 0
HasRow path materialized index =
    (entry : Entry) × (get path index.entries ≡ some entry) × (entry.materialized ≡ materialized)

is_content-eq : (o : Option Content) (c : Content) → is_content o c ≡ true → o ≡ some c
is_content-eq none c h = cc
is_content-eq (some b) c h = ap some (same-eq b c h)

-- What a round does: the invariant is kept, other paths are left, and the row is as the folder is.
abbrev pub RoundDone : Text → Option Content → Index → Index → Type 0
RoundDone path materialized index index' =
    IsValid index'
    × Elsewhere path index index'
    × HasRow path materialized index'
    × (get path index'.pending ≡ none)

module _ (codec : Codec) where
  -- A round of the second loop without approval: the row keeps its versions; if the folder had a
  -- content that no remote deletion explains, the row stays as it is and the path is pending.
  abbrev pub RowKept : Text → Entry → Index → Type 0
  RowKept path old index' =
      (entry : Entry) × (get path index'.entries ≡ some entry)
      × (entry.versions ≡ old.versions)
      × ((is_removed codec old ≡ true)
          ⊎ ((entry ≡ old) × ((old.materialized ≡ none) ⊎ (get path index'.pending ≡ some tt))))

  abbrev pub AbsentDone : Bool → Text → Entry → Index → Index → Type 0
  AbsentDone approve path old index index' =
      IsValid index' × Elsewhere path index index' × ((approve ≡ true) ⊎ RowKept path old index')

module _ (codec : Codec) (collision_key : Text → Text) where
  -- What `save` does, in these terms.
  pub save-Elsewhere :
      (index : Index) (path : Text) (versions : Versions) (materialized : Option Content)
      (observed : Versions) {index' : Index}
      → IsValid index
      → save codec collision_key index path versions materialized observed ≡ ok index'
      → IsValid index'
        × Elsewhere path index index'
        × ((entry : Entry) × (get path index'.entries ≡ some entry)
            × (entry.materialized ≡ materialized)
            × (entry.versions ≡ versions))
        × (index'.pending ≡ index.pending)
  save-Elsewhere index path versions materialized observed v h =
      let (entry, g, a, b, _, _, pend_same, _, _, _) =
        save-get codec collision_key index path path versions materialized observed h in
      (
        save-IsValid codec collision_key index path versions materialized observed v h,
        (λ p d.
            let (e, g', _, _, _, _, same, _, _, _) =
              save-get codec collision_key index path p versions materialized observed h in
            (g' ∙ rw d, ap (get p) same)),
        (entry, g ∙ rw (≟-refl path), b, a),
        pend_same,
      )

  unpend-Elsewhere : (path : Text) (index : Index) → Elsewhere path index (unpend path index)
  unpend-Elsewhere path index p d = (refl, get-remove path p index.pending ∙ rw d)

  pend-Elsewhere : (path : Text) (index : Index) → Elsewhere path index (pend path index)
  pend-Elsewhere path index p d = (refl, get-insert path p tt index.pending ∙ rw d)

  Elsewhere-trans :
      (path : Text) (a b c : Index) → Elsewhere path a b → Elsewhere path b c → Elsewhere path a c
  Elsewhere-trans path a b c f g p d = ((g p d).0 ∙ (f p d).0, (g p d).1 ∙ (f p d).1)

  -- A change of the table `pending` alone keeps the invariant.
  pub pend-IsValid :
      (index : Index) (pending : BTreeMap Text (Unit {0}))
      → IsValid index
      → IsValid (record index { pending = pending })
  pend-IsValid index pending v = record {
    sorted = v.sorted;
    at_most = v.at_most;
    seqs = v.seqs;
    aliases = v.aliases;
  }

  module _ (replica : Text) where
    record_edit-save :
        (index : Index) (path : Text) (old : Option Entry) (content : Content)
        (materialized : Option Content) {index' : Index}
        → record_edit codec collision_key replica index path old content materialized ≡ ok index'
        → (versions : Versions) × (observed : Versions) × (save codec collision_key index path
              versions materialized observed
            ≡ ok index')
    unfolding record_edit
    record_edit-save index path none content materialized h =
        let (mine, _, h1) = >>=-eq-ok (edit codec no_versions replica content) _ h in
        (mine, mine, h1)
    record_edit-save index path (some old) content materialized h =
        let (mine, _, h1) = >>=-eq-ok (edit codec old.observed replica content) _ h in
        let (combined, _, h2) = >>=-eq-ok (join codec old.versions mine) _ h1 in
        (combined, mine, h2)

    save-RoundDone :
        (index : Index) (path : Text) (versions : Versions) (materialized : Option Content)
        (observed : Versions) {index' : Index}
        → IsValid index
        → get path index.pending ≡ none
        → save codec collision_key index path versions materialized observed ≡ ok index'
        → RoundDone path materialized index index'
    save-RoundDone index path versions materialized observed v n h =
        let (v', e, (entry, g, m, _), same) =
          save-Elsewhere index path versions materialized observed v h in
        (v', e, (entry, g, m), ap (get path) same ∙ n)

    scan_known-RoundDone :
        (index : Index) (path : Text) (old : Entry) (content : Content) {out : ℕ × Index}
        → IsValid index
        → get path index.pending ≡ none
        → get path index.entries ≡ some old
        → scan_known codec collision_key replica index path old content ≡ ok out
        → RoundDone path (some content) index out.1
    unfolding scan_known
    scan_known-RoundDone index path old content {out} v n g h =
        elim (Bool-cases (is_published old content)) [
          | inl e ↦
              let observed =
                if is_content (content_of (selected codec old.versions)) content
                then old.versions
                else old.observed in
              let (next, s, q) =
                >>=-eq-ok (save codec collision_key index path old.versions (some content) observed)
                  _ (rw (scan_known, e) at h) in
              subst (RoundDone path (some content) index)
                (ap (λ (x : ℕ × Index). x.1) (ok-injective q))
                (save-RoundDone index path old.versions (some content) observed v n s)
          | inr e ↦ elim (Bool-cases (is_content old.materialized content)) [
            | inl m ↦
                subst (RoundDone path (some content) index)
                  (ap (λ (x : ℕ × Index). x.1) (ok-injective (rw (scan_known, e, m) at h)))
                  (v, (λ p d. (refl, refl)), (old, g, is_content-eq old.materialized content m), n)
            | inr m ↦
                let (next, s, q) =
                  >>=-eq-ok
                    (record_edit codec collision_key replica index path (some old) content
                      (some content))
                    _ (rw (scan_known, e, m) at h) in
                let (versions, observed, s') =
                  record_edit-save index path (some old) content (some content) s in
                subst (RoundDone path (some content) index)
                  (ap (λ (x : ℕ × Index). x.1) (ok-injective q))
                  (save-RoundDone index path versions (some content) observed v n s')
          ]
        ]

    not_pending : (path : Text) (index : Index) → get path (unpend path index).pending ≡ none
    not_pending path index = get-remove path path index.pending ∙ rw (≟-refl path)

    pub scan_path-RoundDone :
        (index : Index) (path : Text) (content : Content) {out : ℕ × Index}
        → IsValid index
        → scan_path codec collision_key replica index path content ≡ ok out
        → RoundDone path (some content) index out.1
    unfolding scan_path
    scan_path-RoundDone index path content {out} v h =
        let start = unpend path index in
        let v' : IsValid start = pend-IsValid index (remove path index.pending) v in
        let (w, e, r, n) : RoundDone path (some content) start out.1 =
          elim (Option-cases (get path index.entries)) [
            | inl g ↦
                let (next, s, q) =
                  >>=-eq-ok
                    (record_edit codec collision_key replica start path none content (some content))
                    _ (rw (scan_path, g) at h) in
                let (versions, observed, s') =
                  record_edit-save start path none content (some content) s in
                subst (RoundDone path (some content) start)
                  (ap (λ (x : ℕ × Index). x.1) (ok-injective q))
                  (save-RoundDone start path versions (some content) observed v'
                    (not_pending path index) s')
            | inr (old, g) ↦
                scan_known-RoundDone start path old content v' (not_pending path index) g
                  (rw (scan_path, g) at h)
          ] in
        (w, Elsewhere-trans path index start out.1 (unpend-Elsewhere path index) e, r, n)

    pub scan_absent-AbsentDone :
        (approve : Bool) (index : Index) (path : Text) (old : Entry) {out : ℕ × Index}
        → IsValid index
        → get path index.entries ≡ some old
        → scan_absent codec collision_key replica approve index path old ≡ ok out
        → AbsentDone codec approve path old index out.1
    unfolding scan_absent
    scan_absent-AbsentDone approve index path old {out} v g h =
        elim (Bool-cases (is_removed codec old)) [
          | inl e ↦
              let (next, s, q) =
                >>=-eq-ok (save codec collision_key index path old.versions none old.versions) _
                  (rw (scan_absent, e) at h) in
              let (w, away, (entry, found, _, same), _) =
                save-Elsewhere index path old.versions none old.versions v s in
              subst (AbsentDone codec approve path old index)
                (ap (λ (x : ℕ × Index). x.1) (ok-injective q))
                (
                  pend-IsValid next (remove path next.pending) w,
                  Elsewhere-trans path index next (unpend path next) away
                      (unpend-Elsewhere path next),
                  inr (entry, found, same, inl e),
                )
          | inr e ↦ elim (Option-cases old.materialized) [
            | inl m ↦
                subst (AbsentDone codec approve path old index)
                  (ap (λ (x : ℕ × Index). x.1) (ok-injective (rw (scan_absent, e, m) at h)))
                  (v, (λ p d. (refl, refl)), inr (old, g, refl, inr (refl, inl m)))
            | inr (c, m) ↦ elim (Bool-cases approve) [
              | inl t ↦
                  let (next, s, q) =
                    >>=-eq-ok
                      (record_edit codec collision_key replica index path (some old) deleted none) _
                      (rw (scan_absent, e, m, t) at h) in
                  let (versions, observed, s') =
                    record_edit-save index path (some old) deleted none s in
                  let (w, away, _, _) = save-Elsewhere index path versions none observed v s' in
                  subst (AbsentDone codec approve path old index)
                    (ap (λ (x : ℕ × Index). x.1) (ok-injective q))
                    (
                      pend-IsValid next (remove path next.pending) w,
                      Elsewhere-trans path index next (unpend path next) away
                          (unpend-Elsewhere path next),
                      inl t,
                    )
              | inr t ↦
                  subst (AbsentDone codec approve path old index)
                    (ap (λ (x : ℕ × Index). x.1) (ok-injective (rw (scan_absent, e, m, t) at h)))
                    (
                      pend-IsValid index (insert path tt index.pending) v,
                      pend-Elsewhere path index,
                      inr (
                        old,
                        g,
                        refl,
                        inr (refl, inr (get-insert path path tt index.pending ∙ rw (≟-refl path))),
                      ),
                    )
            ]
          ]
        ]
