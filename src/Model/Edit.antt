-- ===== src/Model/Edit.antt =====
-- `edit`: a local change supersedes every head that it has seen.
use happy_active_everywhere.Base.{
  List, [], ◌∷◌, ◌++◌, ◌≡◌, ◌≢◌, refl, ap, sym, ◌∙◌, ok, >>=-eq-ok, inl, inr, map, subst,
}
use happy_active_everywhere.Base.In.{In-append-split, In-append-right, In, All, All-In, All-intro}
use happy_active_everywhere.Base.Order.{list_ord}
use happy_active_everywhere.Base.Text.{Text}
use happy_active_everywhere.Base.BTreeMap.{IsSorted}
use happy_active_everywhere.Model.Normal.{InIdOrder-eq, join-InIdOrder}
use happy_active_everywhere.Versions.{Clock, relation, before, merge, advance}
use happy_active_everywhere.Versions.Causality.{
  before_irrefl, before_trans, Le, Le_refl, Le_trans, relation-Le,
}
use happy_active_everywhere.Versions.Advance.{advance-before}
use happy_active_everywhere.Versions.Merge.{merge_lub}
use happy_active_everywhere.Model.{
  Content, Revision, Versions, Codec, join, edit, merge_heads, maximal_heads, versions_of,
  no_versions, with_id, sort, place, dedup, dedup_after, superseded,
}
use happy_active_everywhere.Model.Join.{
  not_before, Distinct, NoneAfter, join-In, canonical, join-eq, settle-eq,
}

-- Each head's clock is in key order, as every `BTreeMap` is.
abbrev pub ClocksSorted : List Revision → Type 0
ClocksSorted l = All (λ (h : Revision). IsSorted h.clock) l

Le_before : (a b c : Clock) → Le a b → relation b c ≡ before → relation a c ≡ before
Le_before a b c h k =
    let (p, q) = (relation-Le b c).0.0 k in
    (relation-Le a c).0.1 (Le_trans a b c h p, λ r. q (Le_trans c a b r h))

In-one : (x h : Revision) → In x (h ∷ []) → x ≡ h
In-one x h (inl e) = e
In-one x h (inr i) = absurd i

module _ (codec : Codec) where
  merge_heads-Le : (c : Clock) (l : List Revision) → ClocksSorted l → Le c (merge_heads codec c l)
  unfolding merge_heads
  merge_heads-Le c [] s = Le_refl c
  merge_heads-Le c (h ∷ l) s =
      Le_trans c (merge c h.clock) _ ((merge_lub c h.clock (merge c h.clock) s.0).0 (Le_refl _)).0
        (merge_heads-Le (merge c h.clock) l s.1)

  merge_heads-seen :
      (c : Clock) (l : List Revision) (h : Revision)
      → ClocksSorted l
      → In h l
      → Le h.clock (merge_heads codec c l)
  unfolding merge_heads
  merge_heads-seen c [] h s i = absurd i
  merge_heads-seen c (g ∷ l) h s (inl e) =
      Le_trans h.clock (merge c g.clock) _
        (rw e ((merge_lub c g.clock (merge c g.clock) s.0).0 (Le_refl _)).1)
        (merge_heads-Le (merge c g.clock) l s.1)
  merge_heads-seen c (g ∷ l) h s (inr i) = merge_heads-seen (merge c g.clock) l h s.1 i

  single : (k : Text) (h : Revision) → maximal_heads ((k, h) ∷ []) ≡ h ∷ []
  unfolding maximal_heads superseded
  single k h = rw (not_before (relation h.clock h.clock) (before_irrefl h.clock))

  canonical_single : (h : Revision) → canonical codec (h ∷ []) ≡ with_id codec h ∷ []
  unfolding sort place dedup dedup_after
  canonical_single h = refl

  -- An edit that succeeds has advanced the merged clock, and leaves one head with it.
  edit-eq :
      (v : Versions) (device : Text) (content : Content) {r : Versions}
      → edit codec v device content ≡ ok r
      → (clock : Clock) × (advance (merge_heads codec [] v.heads) device ≡ ok clock)
        × (r ≡ versions_of (record { clock = clock; content = content } ∷ []))
  unfolding edit
  edit-eq v device content {r} e =
      let (clock, a, j) : (clock : Clock) × (advance (merge_heads codec [] v.heads) device
            ≡ ok clock)
          × (join codec no_versions (versions_of (record { clock = clock; content = content } ∷ []))
              ≡ ok r) =
        >>=-eq-ok (advance (merge_heads codec [] v.heads) device)
          (λ clock.
            join codec no_versions (versions_of (record { clock = clock; content = content } ∷ [])))
          e in
      let h : Revision = record { clock = clock; content = content } in
      let q =
        (settle-eq codec (canonical codec (h ∷ []))
          (join-eq codec no_versions (versions_of (h ∷ [])) j).1).0 in
      (
        clock,
        a,
        q
            ∙ ap (λ t. versions_of (maximal_heads t)) (canonical_single h)
            ∙ ap versions_of (single (codec.id h) h),
      )

  -- An edit that succeeds leaves one head: it has the content that was given, and every head that
  -- there was is before it. The clocks are in key order.
  pub edit_supersedes :
      (v : Versions) (device : Text) (content : Content) {r : Versions}
      → edit codec v device content ≡ ok r
      → ClocksSorted v.heads
      → (h : Revision) × (r.heads ≡ h ∷ [])
        × (h.content ≡ content)
        × All (λ (old : Revision). relation old.clock h.clock ≡ before) v.heads
  edit_supersedes v device content e s =
      let (clock, a, q) = edit-eq v device content e in
      (
        record { clock = clock; content = content },
        ap (λ (t : Versions). t.heads) q,
        refl,
        All-intro (λ (old : Revision). relation old.clock clock ≡ before) v.heads
            (λ old i.
              Le_before old.clock (merge_heads codec [] v.heads) clock
                (merge_heads-seen [] v.heads old s i)
                (advance-before (merge_heads codec [] v.heads) device device a).0),
      )

  newest_is_edit :
      (l : List Revision) (h x : Revision)
      → All (λ (old : Revision). relation old.clock h.clock ≡ before) l
      → In x (l ++ h ∷ [])
      → NoneAfter x (l ++ h ∷ [])
      → In x (h ∷ [])
  newest_is_edit l h x a i n = elim (In-append-split x l (h ∷ []) i) [
    | inl j ↦ absurd (
        All-In (λ (y : Revision). relation x.clock y.clock ≢ before) h (l ++ h ∷ []) n
          (In-append-right h l (h ∷ []) (inl refl))
          (All-In (λ (old : Revision). relation old.clock h.clock ≡ before) x l a j))
    | inr j ↦ j
  ]

  edit_is_newest :
      (l : List Revision) (h : Revision)
      → All (λ (old : Revision). relation old.clock h.clock ≡ before) l
      → NoneAfter h (l ++ h ∷ [])
  edit_is_newest l h a =
      All-intro (λ (y : Revision). relation h.clock y.clock ≢ before) (l ++ h ∷ [])
        (λ y i e. elim (In-append-split y l (h ∷ []) i) [
          | inl j ↦ before_irrefl h.clock (
              before_trans h.clock y.clock h.clock e
                (All-In (λ (old : Revision). relation old.clock h.clock ≡ before) y l a j))
          | inr (inl q) ↦ before_irrefl h.clock (rw q at e)
          | inr (inr z) ↦ z
        ])

  -- A device that has the old heads and receives the edit keeps the edit alone: where the join of the
  -- old version set and the edited one succeeds, it is the edited one. The clocks are in key order,
  -- and the hash tells the revisions apart.
  pub join-edit :
      (v : Versions) (device : Text) (content : Content) {r s : Versions}
      → edit codec v device content ≡ ok r
      → join codec v r ≡ ok s
      → ClocksSorted v.heads
      → Distinct codec (v.heads ++ r.heads)
      → s ≡ r
  join-edit v device content {r} {s} e j c d =
      let (h, q, _, a) = edit_supersedes v device content e c in
      let heads = λ (x : Revision). join-In codec v r x j d in
      InIdOrder-eq codec s r (join-InIdOrder codec v r j)
        (subst (λ (l : List Revision). IsSorted (map (with_id codec) l)) (sym q) (tt, tt))
        (λ x i. let (k, n) = rw q at ((heads x).0 i) in rw q (newest_is_edit v.heads h x a k n))
        (λ x i. (heads x).1 (
          In-append-right x v.heads r.heads i,
          rw q (rw (In-one x h (rw q at i)) (edit_is_newest v.heads h a)),
        ))
