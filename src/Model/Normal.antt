-- ===== src/Model/Normal.antt =====
-- The heads of a join in the order of their ids: version sets with the same heads are equal.
use happy_active_everywhere.Base.{
  Bool, not, List, [], ◌∷◌, ◌++◌, ◌≡◌, refl, ◌∙◌, sym, ap, subst, inl, inr, ok, map, select,
  Bool-cases,
}
use happy_active_everywhere.Base.In.{In, In-map, In-map-inv}
use happy_active_everywhere.Base.Order.{list_ord, ◌≺◌}
use happy_active_everywhere.Base.Text.{Text}
use happy_active_everywhere.Base.BTreeMap
use happy_active_everywhere.Base.BTreeMap.{IsSorted, Above}
use happy_active_everywhere.Model.{
  Revision, Versions, Codec, with_id, join, second, maximal_heads, superseded, versions_of,
}
use happy_active_everywhere.Model.Join.{
  canonical, canonical-IsSorted, canonical-In, join-eq, settle-eq,
}

abbrev Entries : Type 0
Entries = List (Text × Revision)

module _ (codec : Codec) where
  -- Heads stand in the order of their ids, each id once.
  abbrev pub InIdOrder : Versions → Type 0
  InIdOrder v = IsSorted (map (with_id codec) v.heads)

  Keyed : Entries → Type 0
  Keyed l = (e : Text × Revision) → In e l → e ≡ with_id codec e.1

  select-Above :
      (p : Text × Revision → Bool) (k : Text) (l : Entries)
      → Keyed l
      → Above k l
      → Above k (map (with_id codec) (map second (select p l)))
  unfolding Keyed
  select-Above p k [] w a = tt
  select-Above p k ((j, r) ∷ l) w a = elim (Bool-cases (p (j, r))) [
    | inl e ↦ rw e (
      subst (λ (t : Text). k ≺ t) (ap (λ t. t.0) (w (j, r) (inl refl))) a.0,
      select-Above p k l (λ e i. w e (inr i)) a.1,
    )
    | inr e ↦ rw e (select-Above p k l (λ e i. w e (inr i)) a.1)
  ]

  select-IsSorted :
      (p : Text × Revision → Bool) (l : Entries)
      → Keyed l
      → IsSorted l
      → IsSorted (map (with_id codec) (map second (select p l)))
  unfolding Keyed
  select-IsSorted p [] w s = tt
  select-IsSorted p ((j, r) ∷ l) w s = elim (Bool-cases (p (j, r))) [
    | inl e ↦ rw e (
      subst (λ t. Above t (map (with_id codec) (map second (select p l))))
          (ap (λ t. t.0) (w (j, r) (inl refl))) (select-Above p j l (λ e i. w e (inr i)) s.0),
      select-IsSorted p l (λ e i. w e (inr i)) s.1,
    )
    | inr e ↦ rw e (select-IsSorted p l (λ e i. w e (inr i)) s.1)
  ]

  pub maximal_heads-InIdOrder :
      (l : List Revision) → InIdOrder (versions_of (maximal_heads (canonical codec l)))
  unfolding maximal_heads Keyed
  maximal_heads-InIdOrder l =
      select-IsSorted (λ e. not (superseded (canonical codec l) e)) _
        (λ e i. (canonical-In codec l e i).0) (canonical-IsSorted codec l)

  pub join-InIdOrder : (a b : Versions) {r : Versions} → join codec a b ≡ ok r → InIdOrder r
  join-InIdOrder a b h =
      rw (settle-eq codec _ (join-eq codec a b h).1).0
        (maximal_heads-InIdOrder (a.heads ++ b.heads))

  without_id : (l : List Revision) → map second (map (with_id codec) l) ≡ l
  without_id [] = refl
  without_id (x ∷ l) = ap (λ t. x ∷ t) (without_id l)

  with_id-le :
      (l m : List Revision)
      → ((x : Revision) → In x l → In x m)
      → (e : Text × Revision) → In e (map (with_id codec) l)
      → In e (map (with_id codec) m)
  with_id-le l m f e i =
      let (x, j, p) = In-map-inv (with_id codec) e l i in
      subst (λ z. In z (map (with_id codec) m)) (sym p) (In-map (with_id codec) x m (f x j))

  -- Version sets in the order of the ids are equal if they have the same heads.
  pub InIdOrder-eq :
      (v w : Versions)
      → InIdOrder v
      → InIdOrder w
      → ((x : Revision) → In x v.heads → In x w.heads)
      → ((x : Revision) → In x w.heads → In x v.heads)
      → v ≡ w
  InIdOrder-eq v w s t f g =
      let e =
        BTreeMap.ext-In (map (with_id codec) v.heads) (map (with_id codec) w.heads) s t
          (with_id-le v.heads w.heads f) (with_id-le w.heads v.heads g) in
      ap versions_of (sym (without_id v.heads) ∙ ap (map second) e ∙ without_id w.heads)
