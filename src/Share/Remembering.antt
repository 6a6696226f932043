-- ===== src/Share/Remembering.antt =====
-- The history that `Share::save` keeps: it only grows, and has every revision that was a head.
use happy_active_everywhere.Base.{
  Bool, true, false, Option, none, some, ◌&&◌, List, [], ◌∷◌, ◌++◌, if◌then◌else◌, ok, ◌≡◌, refl,
  sym, ap, subst, ◌∙◌, ◌⊎◌, inl, inr, arith, Option-cases, some-injective,
}
use happy_active_everywhere.Base.In.{In}
use happy_active_everywhere.Base.Order.{◌≟◌, ≟-eq, ≟-refl, list_ord}
use happy_active_everywhere.Base.Text.{Text}
use happy_active_everywhere.Base.BTreeMap.{get, insert, get-insert, contains_key}
use happy_active_everywhere.Model.{Content, Revision, Versions, Codec}
use happy_active_everywhere.Share.{
  Index, History, heads_of, remember, remember_all, revisions_of, save,
}
use happy_active_everywhere.Share.Saving.{save-checks}

-- The revision that the history has of a path under a hash.
unfoldable pub recorded : Text → Text → History → Option Revision
recorded path k history = get k (revisions_of path history)

added-cases :
    (a b : Bool) (r x : Revision)
    → (if a && b then some r else none) ≡ some x
    → (x ≡ r) × (b ≡ true)
added-cases true true r x h = (sym (some-injective h), refl)
added-cases true false r x h = cc
added-cases false b r x h = cc

module _ (codec : Codec) where
  abbrev first_kept : Option Revision → Bool → Revision → Option Revision
  first_kept (some x) here r = some x
  first_kept none here r = if here then some r else none

  -- A revision is added under its hash if the hash is new.
  recorded-remember :
      (path : Text) (r : Revision) (history : History) (p k : Text)
      → recorded p k (remember codec path r history)
        ≡ first_kept (recorded p k history) ((p ≟ path) && (k ≟ codec.id r)) r
  unfolding recorded remember contains_key
  recorded-remember path r history p k = ground (
    arith,
    get-insert path p (insert (codec.id r) r (revisions_of path history)) history,
    get-insert (codec.id r) k r (revisions_of path history),
    ≟-eq p path,
    ≟-eq k (codec.id r),
  )

  remember_kept :
      (path : Text) (r : Revision) (history : History) (p k : Text) {x : Revision}
      → recorded p k history ≡ some x
      → recorded p k (remember codec path r history) ≡ some x
  remember_kept path r history p k h = rw (recorded-remember path r history p k, h)

  recorded-earlier :
      (path : Text) (r : Revision) (history : History) (p k : Text) (x : Revision)
      → recorded p k (remember codec path r history) ≡ some x
      → (recorded p k history ≡ some x) ⊎ ((x ≡ r) × (codec.id r ≡ k))
  recorded-earlier path r history p k x h = elim (Option-cases (recorded p k history)) [
    | inl e ↦
        let (same, t) =
          added-cases (p ≟ path) (k ≟ codec.id r) r x
            (rw (recorded-remember path r history p k, e) at h) in
        inr (same, sym (≟-eq k (codec.id r) t))
    | inr (y, e) ↦ inl (e ∙ rw (recorded-remember path r history p k, e) at h)
  ]

  remember_all_kept :
      (path : Text) (rs : List Revision) (history : History) (p k : Text) {x : Revision}
      → recorded p k history ≡ some x
      → recorded p k (remember_all codec path rs history) ≡ some x
  unfolding remember_all
  remember_all_kept path [] history p k h = h
  remember_all_kept path (r ∷ rs) history p k h =
      remember_all_kept path rs (remember codec path r history) p k
        (remember_kept path r history p k h)

  -- Where a revision of the list is recorded, it is by one with its hash.
  abbrev pub IsRecorded : Text → Revision → List Revision → History → History → Type 0
  IsRecorded path r rs before after =
      (x : Revision) × (recorded path (codec.id r) after ≡ some x)
      × ((recorded path (codec.id r) before ≡ some x) ⊎ (In x rs × (codec.id x ≡ codec.id r)))

  remember-IsRecorded :
      (path : Text) (r : Revision) (rs : List Revision) (history : History)
      → IsRecorded path r (r ∷ rs) history (remember codec path r history)
  remember-IsRecorded path r rs history = elim (Option-cases (recorded path (codec.id r) history)) [
    | inl e ↦ (
      r,
      rw (recorded-remember path r history path (codec.id r), e, ≟-refl path, ≟-refl (codec.id r)),
      inr (inl refl, refl),
    )
    | inr (x, e) ↦ (x, remember_kept path r history path (codec.id r) e, inl e)
  ]

  remember_all-IsRecorded :
      (path : Text) (r : Revision) (rs : List Revision) (history : History)
      → In r rs
      → IsRecorded path r rs history (remember_all codec path rs history)
  unfolding remember_all
  remember_all-IsRecorded path r [] history i = absurd i
  remember_all-IsRecorded path r (q ∷ rs) history (inl e) =
      let (x, found, how) = remember-IsRecorded path r rs history in
      subst
        (λ (y : Revision).
          IsRecorded path r (y ∷ rs) history
            (remember_all codec path rs (remember codec path y history)))
        e
        (x, remember_all_kept path rs (remember codec path r history) path (codec.id r) found, how)
  remember_all-IsRecorded path r (q ∷ rs) history (inr i) =
      let (x, found, how) = remember_all-IsRecorded path r rs (remember codec path q history) i in
      (
        x,
        found,
        elim how [
          | inl before ↦ elim (recorded-earlier path q history path (codec.id r) x before) [
            | inl e ↦ inl e
            | inr (e, k) ↦ inr (inl e, ap codec.id e ∙ k)
          ]
          | inr (j, k) ↦ inr (inr j, k)
        ],
      )

  -- `save` never loses a revision: each head that the path had and each that it is given can be found
  -- in the history under its hash, as what the history had there or as one of these heads; and what the
  -- history had under any path and hash it still has.
  pub save-history :
      (collision_key : Text → Text) (index : Index) (path : Text) (versions : Versions)
      (materialized : Option Content) (observed : Versions) (r : Revision) (p k : Text)
      {index' : Index}
      → save codec collision_key index path versions materialized observed ≡ ok index'
      → In r (heads_of (get path index.entries) ++ versions.heads)
      → IsRecorded path r
          (heads_of (get path index.entries) ++ versions.heads)
          index.history
          index'.history
        × ((recorded p k index.history ≡ none)
            ⊎ (recorded p k index'.history ≡ recorded p k index.history))
  save-history collision_key index path versions materialized observed r p k {index'} h i =
      let (_, n, e, a, q) =
        save-checks codec collision_key index path versions materialized observed h in
      let rs = heads_of (get path index.entries) ++ versions.heads in
      let same : index'.history ≡ remember_all codec path rs index.history =
        ap (λ (x : Index). x.history) q in
      (
        subst (λ (x : History). IsRecorded path r rs index.history x) (sym same)
            (remember_all-IsRecorded path r rs index.history i),
        elim (Option-cases (recorded p k index.history)) [
          | inl e ↦ inl e
          | inr (x, e) ↦
              inr (ap (recorded p k) same ∙ remember_all_kept path rs index.history p k e ∙ sym e)
        ],
      )
