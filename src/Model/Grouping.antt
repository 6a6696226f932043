-- ===== src/Model/Grouping.antt =====
-- `join` in another grouping, and of a result with nothing: replicas that have joined the same
-- revisions hold the same heads, and a result of `join` is accepted again as it is.
use mathlib.Core.List.{append_assoc}
use happy_active_everywhere.Base.{List, ◌++◌, ◌≡◌, ◌≢◌, ◌⊎◌, inl, inr, ◌↔◌, ok}
use happy_active_everywhere.Base.In.{
  In, All-In, All-intro, In-append-left, In-append-right, In-append-split,
}
use happy_active_everywhere.Base.Order.{list_ord}
use happy_active_everywhere.Versions.{relation, before}
use happy_active_everywhere.Versions.Causality.{before_trans}
use happy_active_everywhere.Model.{Revision, Versions, Codec, join}
use happy_active_everywhere.Model.Join.{Distinct, NoneAfter, join-In}
use happy_active_everywhere.Model.Converge.{In-swap, join_comm}
use happy_active_everywhere.Model.Normal.{join-InIdOrder, InIdOrder-eq}
use happy_active_everywhere.Model.Maximal.{join_covers}

-- In the list, and no other of the list is newer.
abbrev pub Newest : List Revision → Revision → Type 0
Newest l x = In x l × NoneAfter x l

Newest-same :
    (l m : List Revision) (x : Revision)
    → ((y : Revision) → In y l → In y m)
    → ((y : Revision) → In y m → In y l)
    → Newest l x
    → Newest m x
Newest-same l m x f g (i, n) = (
  f x i,
  All-intro (λ (y : Revision). relation x.clock y.clock ≢ before) m
      (λ y j. All-In (λ (y : Revision). relation x.clock y.clock ≢ before) y l n (g y j)),
)

-- Replacing a part of a list by its newest members leaves the newest of the whole.
module _ (l m c : List Revision) (members : (x : Revision) → In x m ↔ Newest l x)
    (covers : (x : Revision)
      → In x l
      → (y : Revision) × In y m × ((x ≡ y) ⊎ (relation x.clock y.clock ≡ before))) where
  sub : (x : Revision) → In x (m ++ c) → In x (l ++ c)
  sub x i = elim (In-append-split x m c i) [
    | inl j ↦ In-append-left x l c ((members x).0 j).0
    | inr j ↦ In-append-right x l c j
  ]

  none_above :
      (x y : Revision) → NoneAfter x (m ++ c) → In y (l ++ c) → relation x.clock y.clock ≢ before
  none_above x y n i e = elim (In-append-split y l c i) [
    | inl j ↦
        let (z, k, above) = covers y j in
        All-In (λ (z : Revision). relation x.clock z.clock ≢ before) z (m ++ c) n
          (In-append-left z m c k) (up above e)
    | inr j ↦
        All-In (λ (z : Revision). relation x.clock z.clock ≢ before) y (m ++ c) n
          (In-append-right y m c j) e
  ]
    where
      up :
          {z : Revision}
          → (y ≡ z) ⊎ (relation y.clock z.clock ≡ before)
          → relation x.clock y.clock ≡ before
          → relation x.clock z.clock ≡ before
      up (inl q) f = rw q at f
      up {z} (inr q) f = before_trans x.clock y.clock z.clock f q

  pub Newest-outer : (x : Revision) → Newest (m ++ c) x → Newest (l ++ c) x
  Newest-outer x (i, n) = (
    sub x i,
    All-intro (λ (y : Revision). relation x.clock y.clock ≢ before) (l ++ c)
        (λ y j. none_above x y n j),
  )

  pub Newest-inner : (x : Revision) → Newest (l ++ c) x → Newest (m ++ c) x
  Newest-inner x (i, n) =
      let keep =
        All-intro (λ (y : Revision). relation x.clock y.clock ≢ before) (m ++ c)
          (λ y j.
            All-In (λ (y : Revision). relation x.clock y.clock ≢ before) y (l ++ c) n (sub y j)) in
      elim (In-append-split x l c i) [
        | inl j ↦ (
          In-append-left x m c (
              (members x).1 (
                j,
                All-intro (λ (y : Revision). relation x.clock y.clock ≢ before) l
                    (λ y k.
                      All-In (λ (y : Revision). relation x.clock y.clock ≢ before) y (l ++ c) n
                        (In-append-left y l c k)),
              )),
          keep,
        )
        | inr j ↦ (In-append-right x m c j, keep)
      ]

module _ (codec : Codec) where
  pub Distinct-sub :
      (l m : List Revision)
      → ((x : Revision) → In x l → In x m)
      → Distinct codec m
      → Distinct codec l
  Distinct-sub l m f d x y i j = d x y (f x i) (f y j)

  -- The heads after joining `c` to the join of `a` and `b`.
  join-join-In :
      (a b c : Versions) {ab r : Versions}
      → join codec a b ≡ ok ab
      → join codec ab c ≡ ok r
      → Distinct codec ((a.heads ++ b.heads) ++ c.heads)
      → (x : Revision) → In x r.heads ↔ Newest ((a.heads ++ b.heads) ++ c.heads) x
  join-join-In a b c {ab} {r} h k d x =
      let l = a.heads ++ b.heads in
      let dl = Distinct-sub l (l ++ c.heads) (λ x. In-append-left x l c.heads) d in
      let members = λ (y : Revision). join-In codec a b y h dl in
      let covers = λ (y : Revision). join_covers codec a b y h dl in
      let dr =
        Distinct-sub (ab.heads ++ c.heads) (l ++ c.heads) (sub l ab.heads c.heads members covers)
          d in
      let outer = join-In codec ab c x k dr in
      (
        λ i. Newest-outer l ab.heads c.heads members covers x (outer.0 i),
        λ n. outer.1 (Newest-inner l ab.heads c.heads members covers x n),
      )

  regroup : (a b c : List Revision) (x : Revision) → In x (a ++ (b ++ c)) → In x ((a ++ b) ++ c)
  regroup a b c x i = rw append_assoc i

  turn : (a b c : List Revision) (x : Revision) → In x ((b ++ c) ++ a) → In x ((a ++ b) ++ c)
  turn a b c x i = regroup a b c x (In-swap x (b ++ c) a i)

  turn_back : (a b c : List Revision) (x : Revision) → In x ((a ++ b) ++ c) → In x ((b ++ c) ++ a)
  turn_back a b c x i = In-swap x a (b ++ c) (rw append_assoc at i)

  inner :
      (a b c : Versions) {bc : Versions}
      → join codec b c ≡ ok bc
      → Distinct codec ((a.heads ++ b.heads) ++ c.heads)
      → (x : Revision) → In x (a.heads ++ bc.heads)
      → In x ((a.heads ++ b.heads) ++ c.heads)
  inner a b c {bc} h d x i =
      let bs = b.heads ++ c.heads in
      let l = (a.heads ++ b.heads) ++ c.heads in
      let up = λ (y : Revision) (j : In y bs).
        regroup a.heads b.heads c.heads y (In-append-right y a.heads bs j) in
      elim (In-append-split x a.heads bc.heads i) [
        | inl j ↦ regroup a.heads b.heads c.heads x (In-append-left x a.heads bs j)
        | inr j ↦ up x ((join-In codec b c x h (Distinct-sub bs l up d)).0 j).0
      ]

  -- Joins in another grouping have the same result: where both `(a, b), c` and `a, (b, c)` can be
  -- joined, the heads are the same, in the same order. The hash tells the revisions apart.
  pub join_assoc :
      (a b c : Versions) {ab bc r s : Versions}
      → join codec a b ≡ ok ab
      → join codec ab c ≡ ok r
      → join codec b c ≡ ok bc
      → join codec a bc ≡ ok s
      → Distinct codec ((a.heads ++ b.heads) ++ c.heads)
      → r ≡ s
  join_assoc a b c {bc} {r} {s} hab hr hbc hs d =
      let l = (a.heads ++ b.heads) ++ c.heads in
      let m = (b.heads ++ c.heads) ++ a.heads in
      let dm = Distinct-sub m l (turn a.heads b.heads c.heads) d in
      let back =
        join_comm codec a bc hs (Distinct-sub (a.heads ++ bc.heads) l (inner a b c hbc d) d) in
      let left = join-join-In a b c hab hr d in
      let right = join-join-In b c a hbc back dm in
      InIdOrder-eq codec r s (join-InIdOrder codec _ c hr) (join-InIdOrder codec a bc hs)
        (λ x i. (right x).1 (
          Newest-same l m x (turn_back a.heads b.heads c.heads) (turn a.heads b.heads c.heads)
            ((left x).0 i)))
        (λ x i. (left x).1 (
          Newest-same m l x (turn a.heads b.heads c.heads) (turn_back a.heads b.heads c.heads)
            ((right x).0 i)))
