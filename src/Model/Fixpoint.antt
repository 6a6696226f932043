-- ===== src/Model/Fixpoint.antt =====
-- A result of `join` is accepted again as it is, as the check of a checkpoint's version sets needs.
use happy_active_everywhere.Base.{
  Bool, true, List, ◌++◌, ◌≡◌, ◌≢◌, refl, arith, ok, leb, length, not, ◌||◌,
}
use happy_active_everywhere.Base.In.{In, All-In, All-intro, all-In, all-intro}
use happy_active_everywhere.Base.Text.{Text}
use happy_active_everywhere.Versions.{relation, before}
use happy_active_everywhere.Model.{
  Revision, Versions, Codec, join, settle, metadata_limit, maximal_heads, consistent, versions_of,
  no_versions, is_equal, same,
}
use happy_active_everywhere.Model.Join.{
  Distinct, join-In, canonical, join-eq, settle-eq, maximal_heads-In, In-maximal_heads,
}
use happy_active_everywhere.Model.Converge.{
  IsAccepted, candidates-IsAccepted, join_intro, canonical-le,
}
use happy_active_everywhere.Model.Normal.{join-InIdOrder, InIdOrder-eq, maximal_heads-InIdOrder}
use happy_active_everywhere.Model.Grouping.{Distinct-sub}

abbrev agree : Text × Revision → Text × Revision → Bool
agree a b = not (is_equal (relation a.1.clock b.1.clock)) || same a.1.content b.1.content

consistent_sub :
    (l m : List (Text × Revision))
    → ((e : Text × Revision) → In e l → In e m)
    → consistent m ≡ true
    → consistent l ≡ true
unfolding consistent
consistent_sub l m f h =
    all-intro _ l
      (λ a i. all-intro (agree a) l (λ b j. all-In (agree a) b m (all-In _ a m h (f a i)) (f b j)))

module _ (codec : Codec) where
  settle_intro :
      (sorted : List (Text × Revision)) (r : Versions)
      → consistent sorted ≡ true
      → versions_of (maximal_heads sorted) ≡ r
      → leb (length r.heads) 128 ≡ true
      → leb (codec.encoded_len r) metadata_limit ≡ true
      → settle codec sorted ≡ ok r
  unfolding settle
  settle_intro sorted r c e m n = ground arith

  -- A result of `join` is a fixed point: joined to the empty version set, as a checkpoint's version
  -- sets are when they are read, it comes back unchanged. The hash tells the revisions apart, and the
  -- text of the empty set is not too long.
  pub join-no_versions :
      (a b : Versions) {r : Versions}
      → join codec a b ≡ ok r
      → Distinct codec (a.heads ++ b.heads)
      → leb (codec.encoded_len no_versions) metadata_limit ≡ true
      → join codec no_versions r ≡ ok r
  join-no_versions a b {r} h d e =
      let l = a.heads ++ b.heads in
      let (found, settled) = join-eq codec a b h in
      let (q, c, m, n) = settle-eq codec (canonical codec l) settled in
      let sub = λ (x : Revision) (i : In x r.heads). ((join-In codec a b x h d).0 i).0 in
      let dr = Distinct-sub codec r.heads l sub d in
      let acc = candidates-IsAccepted codec l found in
      let same_heads =
        InIdOrder-eq codec (versions_of (maximal_heads (canonical codec r.heads))) r
          (maximal_heads-InIdOrder codec r.heads) (join-InIdOrder codec a b h)
          (λ x i. (maximal_heads-In codec r.heads x dr i).0)
          (λ x i. In-maximal_heads codec r.heads x dr i (
            All-intro (λ (y : Revision). relation x.clock y.clock ≢ before) r.heads
              (λ y j.
                All-In (λ (y : Revision). relation x.clock y.clock ≢ before) y l
                  ((join-In codec a b x h d).0 i).1 (sub y j)))) in
      join_intro codec no_versions r e n refl m
        (All-intro (IsAccepted codec) r.heads (λ x i. All-In (IsAccepted codec) x l acc (sub x i)))
        (settle_intro (canonical codec r.heads) r
          (consistent_sub _ _ (canonical-le codec r.heads l d sub) c) same_heads m n)
