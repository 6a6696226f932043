-- ===== src/Model/Join.antt =====
-- The heads of a join: the revisions of both sets that no other of them supersedes.
use happy_active_everywhere.Base.{
  true, false, not, List, [], ◌∷◌, ◌++◌, ◌≡◌, ◌≢◌, refl, ◌∙◌, sym, ap, subst, arith, ◌↔◌, ok,
  >>=-eq-ok, map, select, leb, length,
}
use happy_active_everywhere.Base.In.{
  In, All, All-In, All-intro, In-map, In-map-inv, In-select, select-In, any-false, any-none,
}
use happy_active_everywhere.Base.Order.{list_ord}
use happy_active_everywhere.Base.Text.{Text}
use happy_active_everywhere.Base.BTreeMap.{IsSorted}
use happy_active_everywhere.Versions.{
  Relation, before, after, equal, concurrent, relation, validate,
}
use happy_active_everywhere.Model.{
  Revision, Versions, Codec, with_id, candidates, sort, dedup, superseded, consistent,
  maximal_heads, join, second, check_content, is_before, metadata_limit, settle, versions_of,
}
use happy_active_everywhere.Model.Sorting.{
  sort-In, In-sort, sort-IsOrdered, dedup-In, In-dedup, dedup-IsSorted,
}

-- No listed revision is newer than `x`.
abbrev pub NoneAfter : Revision → List Revision → Type 0
NoneAfter x l = All (λ (y : Revision). relation x.clock y.clock ≢ before) l

pub not_before : (r : Relation) → r ≢ before → is_before r ≡ false
not_before before h = absurd (h refl)
not_before after h = refl
not_before equal h = refl
not_before concurrent h = refl

module _ (codec : Codec) where
  open codec use {id}

  -- Among these revisions the hash tells any two apart.
  abbrev pub Distinct : List Revision → Type 0
  Distinct l = (x y : Revision) → In x l → In y l → id x ≡ id y → x ≡ y

  -- The candidates of a join, sorted by id and without repeats.
  abbrev pub canonical : List Revision → List (Text × Revision)
  canonical l = dedup (sort (map (with_id codec) l))

  pub candidates-eq :
      (l : List Revision) {found : List (Text × Revision)}
      → candidates codec l ≡ ok found
      → found ≡ map (with_id codec) l
  unfolding candidates
  candidates-eq [] h = ground arith
  candidates-eq (r ∷ l) h =
      let (_, _, h1) = >>=-eq-ok (validate r.clock) _ h in
      let (_, _, h2) = >>=-eq-ok (check_content r.content) _ h1 in
      let (rest, e, h3) = >>=-eq-ok (candidates codec l) _ h2 in ground (arith, candidates-eq l e)

  pub settle-eq :
      (sorted : List (Text × Revision)) {r : Versions}
      → settle codec sorted ≡ ok r
      → (r ≡ versions_of (maximal_heads sorted))
        × (consistent sorted ≡ true)
        × (leb (length r.heads) 128 ≡ true)
        × (leb (codec.encoded_len r) metadata_limit ≡ true)
  unfolding settle
  settle-eq sorted h = ground arith

  -- A join that succeeds has passed its checks and settled the candidates.
  pub join-eq :
      (a b : Versions) {r : Versions}
      → join codec a b ≡ ok r
      → (candidates codec (a.heads ++ b.heads) ≡ ok (map (with_id codec) (a.heads ++ b.heads)))
        × (settle codec (canonical (a.heads ++ b.heads)) ≡ ok r)
  unfolding join
  join-eq a b {r} h =
      let (found, e, s) : (found : List (Text × Revision)) × (candidates codec (a.heads ++ b.heads)
            ≡ ok found)
          × (settle codec (dedup (sort found)) ≡ ok r) =
        >>=-eq-ok (candidates codec (a.heads ++ b.heads))
          (λ found. settle codec (dedup (sort found))) (ground arith) in
      let f = candidates-eq (a.heads ++ b.heads) e in (rw f at e, rw f at s)

  pub canonical-IsSorted : (l : List Revision) → IsSorted (canonical l)
  canonical-IsSorted l = dedup-IsSorted _ (sort-IsOrdered (map (with_id codec) l))

  pub In-canonical :
      (l : List Revision)
      → Distinct l
      → (x : Revision) → In x l
      → In (with_id codec x) (canonical l)
  In-canonical l d x i =
      let (s, p) = In-dedup (id x) x _ (In-sort _ _ (In-map (with_id codec) x l i)) in
      let (y, j, e) = In-map-inv (with_id codec) (id x, s) l (sort-In _ _ (dedup-In _ _ p)) in
      subst (λ z. In (id x, z) (canonical l)) (ap second e ∙ sym (d x y i j (ap (λ t. t.0) e))) p

  pub canonical-In :
      (l : List Revision) (e : Text × Revision)
      → In e (canonical l)
      → (e ≡ with_id codec e.1) × In e.1 l
  canonical-In l e i =
      let (y, j, p) = In-map-inv (with_id codec) e l (sort-In _ _ (dedup-In _ _ i)) in
      let q : e.1 ≡ y = ap second p in
      (p ∙ ap (with_id codec) (sym q), subst (λ z. In z l) (sym q) j)

  superseded-NoneAfter :
      (l : List Revision) (x : Revision)
      → Distinct l
      → superseded (canonical l) (with_id codec x) ≡ false
      → NoneAfter x l
  unfolding superseded
  superseded-NoneAfter l x d h =
      All-intro (λ (y : Revision). relation x.clock y.clock ≢ before) l
        (λ y i e.
          let f =
            any-false (λ (t : Text × Revision). is_before (relation x.clock t.1.clock))
              (with_id codec y) (canonical l) h (In-canonical l d y i) in
          let g = ap is_before e in cc)

  NoneAfter-superseded :
      (l : List Revision) (x : Revision)
      → NoneAfter x l
      → superseded (canonical l) (with_id codec x) ≡ false
  unfolding superseded
  NoneAfter-superseded l x n =
      any-none (λ (t : Text × Revision). is_before (relation x.clock t.1.clock)) (canonical l)
        (λ t i. not_before (relation x.clock t.1.clock) (
          All-In (λ (y : Revision). relation x.clock y.clock ≢ before) t.1 l n
            (canonical-In l t i).1))

  pub maximal_heads-In :
      (l : List Revision) (x : Revision)
      → Distinct l
      → In x (maximal_heads (canonical l))
      → In x l × NoneAfter x l
  unfolding maximal_heads
  maximal_heads-In l x d i =
      let (t, j, e) =
        In-map-inv second x (select (λ t. not (superseded (canonical l) t)) (canonical l)) i in
      let (k, s) = In-select (λ t. not (superseded (canonical l) t)) t (canonical l) j in
      let (p, m) = canonical-In l t k in
      (
        rw e m,
        rw e (
            superseded-NoneAfter l t.1 d
              (subst (λ z. superseded (canonical l) z ≡ false) p (ground arith))),
      )

  pub In-maximal_heads :
      (l : List Revision) (x : Revision)
      → Distinct l
      → In x l
      → NoneAfter x l
      → In x (maximal_heads (canonical l))
  unfolding maximal_heads
  In-maximal_heads l x d i n = In-map second (with_id codec x) _ (
      select-In (λ t. not (superseded (canonical l) t)) (with_id codec x) (canonical l)
        (In-canonical l d x i) (rw (NoneAfter-superseded l x n)))

  -- The heads of a join that succeeds are exactly the revisions of the two sets than which no other
  -- revision of the two sets is newer. The hash tells the revisions of the two sets apart.
  pub join-In :
      (a b : Versions) {r : Versions} (x : Revision)
      → join codec a b ≡ ok r
      → Distinct (a.heads ++ b.heads)
      → In x r.heads ↔ (In x (a.heads ++ b.heads) × NoneAfter x (a.heads ++ b.heads))
  join-In a b {r} x h d =
      let e = ap (λ (v : Versions). v.heads) (settle-eq _ (join-eq a b h).1).0 in
      rw e (
        maximal_heads-In (a.heads ++ b.heads) x d,
        λ (i, n). In-maximal_heads (a.heads ++ b.heads) x d i n,
      )
