-- ===== src/Share/Commit/Joining.antt =====
-- The loop of `commit_incoming`: what the staged version sets do to the index.
use happy_active_everywhere.Base.{
  false, Option, none, some, [], ◌∷◌, ok, >>=-eq-ok, ok-injective, ◌≡◌, refl, sym, ap, subst, ◌∙◌,
  ◌⊎◌, inl, inr, Bool-cases, Option-cases, some-injective, none≢some,
}
use happy_active_everywhere.Base.Order.{◌≟◌, ≟-eq, ≟-refl, list_ord}
use happy_active_everywhere.Base.Text.{Text}
use happy_active_everywhere.Base.BTreeMap.{BTreeMap, IsSorted, get, get-Above}
use happy_active_everywhere.Model.{Content, Versions, no_versions, Codec, join}
use happy_active_everywhere.Share.{Entry, Index, save}
use happy_active_everywhere.Share.Saving.{IsValid, save-IsValid, save-get}
use happy_active_everywhere.Share.Commit.{commit_path, commit_all}

module _ (codec : Codec) where
  -- The row of a path has joined a version set: a path that had no row has the set itself, and nothing
  -- in the folder; else what the index says of the folder is as it was.
  abbrev pub RowJoined : Option Entry → Versions → Entry → Type 0
  RowJoined prior remote entry =
      ((prior ≡ none)
        × (entry.versions ≡ remote)
        × (entry.materialized ≡ none)
        × (entry.observed ≡ no_versions))
      ⊎ ((old : Entry) × (prior ≡ some old)
          × (join codec old.versions remote ≡ ok entry.versions)
          × (entry.materialized ≡ old.materialized)
          × (entry.observed ≡ old.observed))

  abbrev pub IsJoined : Text → Versions → Index → Index → Type 0
  IsJoined p remote index index' =
      (entry : Entry) × (get p index'.entries ≡ some entry)
      × RowJoined (get p index.entries) remote entry

  abbrev pub AllJoined : BTreeMap Text Versions → Index → Index → Type 0
  AllJoined rows index index' =
      IsValid index'
      × ((p : Text) → get p rows ≡ none → get p index'.entries ≡ get p index.entries)
      × ((p : Text) (remote : Versions) → get p rows ≡ some remote → IsJoined p remote index index')
      × (index'.pending ≡ index.pending)

  module _ (collision_key : Text → Text) where
    abbrev pub RoundJoined : Text → Versions → Index → Index → Type 0
    RoundJoined path remote index next =
        IsValid next
        × ((p : Text) → (p ≟ path) ≡ false → get p next.entries ≡ get p index.entries)
        × IsJoined path remote index next
        × (next.pending ≡ index.pending)

    save-RoundJoined :
        (index : Index) (path : Text) (remote versions : Versions) (materialized : Option Content)
        (observed : Versions) {next : Index}
        → IsValid index
        → save codec collision_key index path versions materialized observed ≡ ok next
        → ((entry : Entry)
            → entry.versions ≡ versions
            → entry.materialized ≡ materialized
            → entry.observed ≡ observed
            → RowJoined (get path index.entries) remote entry)
        → RoundJoined path remote index next
    save-RoundJoined index path remote versions materialized observed v h f =
        let (entry, g, a, b, c, _, same, _, _, _) =
          save-get codec collision_key index path path versions materialized observed h in
        (
          save-IsValid codec collision_key index path versions materialized observed v h,
          (λ p d.
              let (_, g', _, _, _, _, _, _, _, _) =
                save-get codec collision_key index path p versions materialized observed h in
              g' ∙ rw d),
          (entry, g ∙ rw (≟-refl path), f entry a b c),
          same,
        )

    pub commit_path-RoundJoined :
        (index : Index) (path : Text) (remote : Versions) {next : Index}
        → IsValid index
        → commit_path codec collision_key index path remote ≡ ok next
        → RoundJoined path remote index next
    unfolding commit_path
    commit_path-RoundJoined index path remote v h = elim (Option-cases (get path index.entries)) [
      | inl g ↦
          save-RoundJoined index path remote remote none no_versions v (rw (commit_path, g) at h)
            (λ e a b c. inl (g, a, b, c))
      | inr (old, g) ↦
          let (versions, e, h1) =
            >>=-eq-ok (join codec old.versions remote) _ (rw (commit_path, g) at h) in
          save-RoundJoined index path remote versions old.materialized old.observed v h1
            (λ entry a b c. inr (old, g, e ∙ ap (λ (x : Versions). ok x) (sym a), b, c))
    ]

    pub commit_all-AllJoined :
        (index : Index) (rows : BTreeMap Text Versions) {index' : Index}
        → IsValid index
        → IsSorted rows
        → commit_all codec collision_key index rows ≡ ok index'
        → AllJoined rows index index'
    unfolding commit_all get
    commit_all-AllJoined index [] v s h =
        subst (AllJoined [] index) (ok-injective h)
          (v, (λ p e. refl), (λ p r e. absurd (none≢some e)), refl)
    commit_all-AllJoined index ((path, remote) ∷ rows) {index'} v s h =
        let (next, e, h1) = >>=-eq-ok (commit_path codec collision_key index path remote) _ h in
        let (w, away, (entry, found, made), same) = commit_path-RoundJoined index path remote v e in
        let (w', left, joined, same') = commit_all-AllJoined next rows w s.1 h1 in
        (
          w',
          (λ p g. elim (Bool-cases (p ≟ path)) [
            | inl t ↦ absurd (none≢some {a = remote} (sym (rw t at g)))
            | inr t ↦ left p (rw t at g) ∙ away p t
          ]),
          (λ p r g. elim (Bool-cases (p ≟ path)) [
            | inl t ↦
                let here : IsJoined path remote index index' =
                  (entry, left path (get-Above path rows s.0) ∙ found, made) in
                subst (λ (x : Text). IsJoined x r index index') (sym (≟-eq p path t))
                  (subst (λ (x : Versions). IsJoined path x index index')
                    (some-injective (rw t at g)) here)
            | inr t ↦
                let (after, g', m) = joined p r (rw t at g) in
                (after, g', subst (λ (x : Option Entry). RowJoined x r after) (away p t) m)
          ]),
          same' ∙ same,
        )

    -- What the loop does to the row of a path, given what was staged for the path.
    abbrev pub IsCommitted : Option Versions → Text → Index → Index → Type 0
    IsCommitted none p index index' = get p index'.entries ≡ get p index.entries
    IsCommitted (some remote) p index index' = IsJoined p remote index index'

    -- After the loop over the staged rows, each path once and in order, the index is valid, a path for
    -- which a set was staged has a row that has joined it, a path for which none was has the row that it
    -- had, and the same paths are pending.
    pub commit_all-joined :
        (index : Index) (rows : BTreeMap Text Versions) (p : Text) {index' : Index}
        → IsValid index
        → IsSorted rows
        → commit_all codec collision_key index rows ≡ ok index'
        → IsValid index'
          × IsCommitted (get p rows) p index index'
          × (index'.pending ≡ index.pending)
    commit_all-joined index rows p {index'} v s h =
        let (w, left, joined, same) = commit_all-AllJoined index rows v s h in
        elim (Option-cases (get p rows)) [
          | inl e ↦ (w, rw e (left p e), same)
          | inr (remote, e) ↦ (w, rw e (joined p remote e), same)
        ]
