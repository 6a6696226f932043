-- ===== src/Model/Selected.antt =====
-- `selected`: the head that the file system shows is the least by kind and id, whatever the order
-- of the heads, so that all devices with the same heads show the same one.
use Prim.Native.Nat.Ordering.{lt, eq}
use mathlib.Core.Option.{some-injective}
use happy_active_everywhere.Base.{
  some, List, [], ◌∷◌, ◌≡◌, ◌≢◌, refl, ap, ◌∙◌, arith, compare, inl, inr, ◌⊎◌, subst, ◌↔◌,
}
use happy_active_everywhere.Base.In.{In, All, All-In}
use happy_active_everywhere.Base.Order.{
  lex_refl, lex-eq, lex-swap, lex_trans, reversed, list_ord, nat_swap,
}
use happy_active_everywhere.Model.{
  Content, file, directory, deleted, Revision, Versions, Codec, compare_key, rank, least, smaller,
  selected, versions_of,
}
use happy_active_everywhere.Model.Join.{Distinct}

module _ (codec : Codec) where
  key_refl : (a : Revision) → compare_key codec a a ≡ eq
  unfolding compare_key
  key_refl a = ground (arith, lex_refl (codec.id a))

  key_swap : (a b : Revision) → compare_key codec b a ≡ reversed (compare_key codec a b)
  unfolding compare_key
  key_swap a b = ground (
    arith,
    nat_swap (rank codec a.content) (rank codec b.content),
    lex-swap (codec.id a) (codec.id b),
  )

  key_trans :
      (a b c : Revision)
      → compare_key codec a b ≡ lt
      → compare_key codec b c ≡ lt
      → compare_key codec a c ≡ lt
  unfolding compare_key
  key_trans a b c h k = ground (arith, lex_trans (codec.id a) (codec.id b) (codec.id c))

  key_eq : (a b : Revision) → compare_key codec a b ≡ eq → codec.id a ≡ codec.id b
  unfolding compare_key
  key_eq a b h = ground (arith, lex-eq (codec.id a) (codec.id b))

  -- `a` does not come before `b`.
  abbrev pub NotBefore : Revision → Revision → Type 0
  NotBefore a b = compare_key codec a b ≢ lt

  key_cong :
      (a b c : Revision)
      → compare_key codec a b ≡ eq
      → compare_key codec a c ≡ compare_key codec b c
  unfolding compare_key
  key_cong a b c h = ground (arith, lex-eq (codec.id a) (codec.id b))

  NotBefore-trans : (a b c : Revision) → NotBefore a b → NotBefore b c → NotBefore a c
  NotBefore-trans a b c h k = ground (arith, key_swap a b, key_cong a b c, key_trans b a c)

  -- `b` is a least one of the list.
  abbrev IsLeast : Revision → List Revision → Type 0
  IsLeast b l = All (λ (h : Revision). NotBefore h b) l

  smaller_lem :
      (b r : Revision)
      → ((smaller codec b r ≡ b) ⊎ (smaller codec b r ≡ r))
        × NotBefore b (smaller codec b r)
        × NotBefore r (smaller codec b r)
  smaller_lem b r = ground (arith, key_refl b, key_refl r, key_swap r b)

  In-pick :
      (b r s : Revision) (l : List Revision) (x : Revision)
      → (s ≡ b) ⊎ (s ≡ r)
      → In x (s ∷ l)
      → In x (b ∷ r ∷ l)
  In-pick b r s l x (inl e) (inl i) = inl (i ∙ e)
  In-pick b r s l x (inr e) (inl i) = inr (inl (i ∙ e))
  In-pick b r s l x e (inr i) = inr (inr i)

  least_lem :
      (b : Revision) (l : List Revision)
      → In (least codec b l) (b ∷ l) × NotBefore b (least codec b l) × IsLeast (least codec b l) l
  unfolding least
  least_lem b [] = (inl refl, λ e. ground (arith, key_refl b), tt)
  least_lem b (r ∷ l) =
      let s = smaller codec b r in
      let (i, n, all) = least_lem s l in
      let (pick, p, q) = smaller_lem b r in
      (
        In-pick b r s l (least codec s l) pick i,
        NotBefore-trans b s (least codec s l) p n,
        (NotBefore-trans r s (least codec s l) q n, all),
      )

  -- The selected revision is a head, and no head has a smaller kind and id.
  selected_heads :
      (l : List Revision) {r : Revision}
      → selected codec (versions_of l) ≡ some r
      → In r l × IsLeast r l
  unfolding selected
  selected_heads [] h = cc
  selected_heads (b ∷ l) h =
      let e = some-injective _ _ h in
      let (i, n, all) = least_lem b l in
      subst (λ (x : Revision). In x (b ∷ l) × IsLeast x (b ∷ l)) e (i, (n, all))

  pub selected-IsLeast :
      (v : Versions) {r : Revision}
      → selected codec v ≡ some r
      → In r v.heads × All (λ (h : Revision). NotBefore h r) v.heads
  selected-IsLeast v h = selected_heads v.heads h

  live-rank : (c : Content) → c ≢ deleted → compare (rank codec c) 2 ≡ lt
  unfolding rank
  live-rank (file t) n = refl
  live-rank directory n = refl
  live-rank deleted n = absurd (n refl)

  -- Kinds are ranked file, directory, deletion: a head of a smaller kind is never passed over.
  rank-NotBefore : (a b : Revision) → NotBefore a b → a.content ≢ deleted → b.content ≢ deleted
  unfolding compare_key rank
  rank-NotBefore a b h n e = h (ground (arith, live-rank a.content n, ap (rank codec) e))

  -- No deletion hides a live head: where some head is a file or a directory, what is selected is not a
  -- deletion.
  pub selected-live :
      (v : Versions) {r : Revision} (h : Revision)
      → selected codec v ≡ some r
      → In h v.heads
      → h.content ≢ deleted
      → r.content ≢ deleted
  selected-live v {r} h e i =
      rank-NotBefore h r
        (All-In (λ (h : Revision). NotBefore h r) h v.heads (selected-IsLeast v e).1 i)

  -- Two version sets with the same heads, in any order, select the same revision. The hash tells the
  -- heads apart.
  pub selected-same :
      (v w : Versions) {r s : Revision}
      → selected codec v ≡ some r
      → selected codec w ≡ some s
      → Distinct codec v.heads
      → ((x : Revision) → In x v.heads ↔ In x w.heads)
      → r ≡ s
  selected-same v w {r} {s} e f d same =
      let (i, m) = selected-IsLeast v e in
      let (j, n) = selected-IsLeast w f in
      let j' = (same s).1 j in
      let p = All-In (λ (h : Revision). NotBefore h r) s v.heads m j' in
      let q = All-In (λ (h : Revision). NotBefore h s) r w.heads n ((same r).0 i) in
      d r s i j' (key_eq r s (ground (arith, key_swap r s)))
