-- ===== src/Model/Converge.antt =====
-- `join` converges: its result depends only on which revisions were joined, not on the order, the
-- grouping or the repetition of the joins.
use happy_active_everywhere.Base.{
  true, List, [], ◌∷◌, ◌++◌, ◌≡◌, refl, sym, subst, inl, inr, arith, ok, >>=-eq-ok, map, leb,
  length,
}
use happy_active_everywhere.Base.In.{
  In, All, All-In, All-intro, In-append-left, In-append-right, In-append-split,
}
use happy_active_everywhere.Base.Order.{list_ord}
use happy_active_everywhere.Base.Text.{Text}
use happy_active_everywhere.Base.BTreeMap
use happy_active_everywhere.Base.BTreeMap.{IsSorted, Above}
use happy_active_everywhere.Versions.{validate}
use happy_active_everywhere.Model.{
  Revision, Versions, Codec, with_id, candidates, join, settle, check_content, metadata_limit,
}
use happy_active_everywhere.Model.Join.{
  Distinct, canonical, canonical-IsSorted, In-canonical, canonical-In, join-eq,
}

pub In-swap : (x : Revision) (a b : List Revision) → In x (a ++ b) → In x (b ++ a)
In-swap x a b i = elim (In-append-split x a b i) [
  | inl j ↦ In-append-right x b a j
  | inr j ↦ In-append-left x b a j
]

module _ (codec : Codec) where
  Distinct-swap : (a b : List Revision) → Distinct codec (a ++ b) → Distinct codec (b ++ a)
  Distinct-swap a b d x y i j = d x y (In-swap x b a i) (In-swap y b a j)

  pub canonical-le :
      (l m : List Revision)
      → Distinct codec m
      → ((x : Revision) → In x l → In x m)
      → (e : Text × Revision) → In e (canonical codec l)
      → In e (canonical codec m)
  canonical-le l m d f e i =
      let (p, j) = canonical-In codec l e i in
      subst (λ z. In z (canonical codec m)) (sym p) (In-canonical codec m d e.1 (f e.1 j))

  -- The candidates depend on the revisions alone.
  canonical_same :
      (l m : List Revision)
      → Distinct codec l
      → Distinct codec m
      → ((x : Revision) → In x l → In x m)
      → ((x : Revision) → In x m → In x l)
      → canonical codec l ≡ canonical codec m
  canonical_same l m d d' f g =
      BTreeMap.ext-In _ _ (canonical-IsSorted codec l) (canonical-IsSorted codec m)
        (canonical-le l m d' f) (canonical-le m l d g)

  -- The checks of the candidate loop.
  abbrev pub IsAccepted : Revision → Type 0
  IsAccepted r = (validate r.clock ≡ ok tt) × (check_content r.content ≡ ok tt)

  pub candidates-IsAccepted :
      (l : List Revision) {found : List (Text × Revision)}
      → candidates codec l ≡ ok found
      → All IsAccepted l
  unfolding candidates
  candidates-IsAccepted [] h = tt
  candidates-IsAccepted (r ∷ l) h =
      let (u, p, h1) = >>=-eq-ok (validate r.clock) _ h in
      let (v, q, h2) = >>=-eq-ok (check_content r.content) _ h1 in
      let (rest, e, h3) = >>=-eq-ok (candidates codec l) _ h2 in ((p, q), candidates-IsAccepted l e)

  accepted-candidates :
      (l : List Revision) → All IsAccepted l → candidates codec l ≡ ok (map (with_id codec) l)
  unfolding candidates
  accepted-candidates [] a = refl
  accepted-candidates (r ∷ l) a = ground (arith, accepted-candidates l a.1)

  pub join-limits :
      (a b : Versions) {r : Versions}
      → join codec a b ≡ ok r
      → (leb (codec.encoded_len a) metadata_limit ≡ true)
        × (leb (codec.encoded_len b) metadata_limit ≡ true)
        × (leb (length a.heads) 128 ≡ true)
        × (leb (length b.heads) 128 ≡ true)
  unfolding join
  join-limits a b h = ground arith

  pub join_intro :
      (a b : Versions) {r : Versions}
      → leb (codec.encoded_len a) metadata_limit ≡ true
      → leb (codec.encoded_len b) metadata_limit ≡ true
      → leb (length a.heads) 128 ≡ true
      → leb (length b.heads) 128 ≡ true
      → All IsAccepted (a.heads ++ b.heads)
      → settle codec (canonical codec (a.heads ++ b.heads)) ≡ ok r
      → join codec a b ≡ ok r
  unfolding join
  join_intro a b p q m n acc s = rw (p, q, m, n, accepted-candidates (a.heads ++ b.heads) acc) s

  -- Joining in the other order succeeds as well, with the same heads in the same order.
  pub join_comm :
      (a b : Versions) {r : Versions}
      → join codec a b ≡ ok r
      → Distinct codec (a.heads ++ b.heads)
      → join codec b a ≡ ok r
  join_comm a b {r} h d =
      let (p, q, m, n) = join-limits a b h in
      let (c, s) = join-eq codec a b h in
      let acc = candidates-IsAccepted (a.heads ++ b.heads) c in
      let same =
        canonical_same (b.heads ++ a.heads) (a.heads ++ b.heads) (Distinct-swap a.heads b.heads d) d
          (λ x. In-swap x b.heads a.heads) (λ x. In-swap x a.heads b.heads) in
      join_intro b a q p n m
        (All-intro IsAccepted (b.heads ++ a.heads)
          (λ x i. All-In IsAccepted x (a.heads ++ b.heads) acc (In-swap x b.heads a.heads i)))
        (rw same s)
