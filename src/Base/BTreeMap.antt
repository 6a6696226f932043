-- ===== src/Base/BTreeMap.antt =====
-- `std::collections::BTreeMap` as an association list in the order of its keys: the operations that
-- the program calls, their lookups, the order, and equality from equal lookups.
use Prim.Native.Nat.Ordering.{lt, eq, gt}
use mathlib.Core.Path.{◌≡◌, refl}
use mathlib.Core.Logic.{inl, inr}
use mathlib.Core.Bool.{Bool, true, false}
use mathlib.Core.Option.{Option, none, some}
use mathlib.Core.List.{List, [], ◌∷◌}
use native.Mathlib.Omega.{arith}
use happy_active_everywhere.Base.Tests.{if◌then◌else◌, Option-cases}
use happy_active_everywhere.Base.In.{In, All, All-In}
use happy_active_everywhere.Base.Order.{Ord, ◌≺◌, ◌≟◌}

abbrev pub BTreeMap : Type 0 → Type 0 → Type 0
BTreeMap K V = List (K × V)

module _ {K V : Type 0} where
  abbrev pub keys : BTreeMap K V → List K
  keys [] = []
  keys ((k, v) ∷ m) = k ∷ keys m

  abbrev pub values : BTreeMap K V → List V
  values [] = []
  values ((k, v) ∷ m) = v ∷ values m

module _ {K V : Type 0} ⦃o : Ord K⦄ where
  unfoldable pub get : K → BTreeMap K V → Option V
  get k [] = none
  get k ((j, v) ∷ m) = if k ≟ j then some v else get k m

  unfoldable pub contains_key : K → BTreeMap K V → Bool
  unfolding get
  contains_key k m = elim (get k m) [ none ↦ false | some _ ↦ true ]

  unfoldable pub insert : K → V → BTreeMap K V → BTreeMap K V
  insert k v [] = (k, v) ∷ []
  insert k v ((j, w) ∷ m) = elim (o.cmp k j) [
    | lt ↦ (k, v) ∷ (j, w) ∷ m
    | eq ↦ (k, v) ∷ m
    | gt ↦ (j, w) ∷ insert k v m
  ]

  unfoldable pub remove : K → BTreeMap K V → BTreeMap K V
  remove k [] = []
  remove k ((j, w) ∷ m) = let rest = remove k m in if k ≟ j then rest else (j, w) ∷ rest

  abbrev pub Above : K → BTreeMap K V → Type 0
  Above k m = All (λ (e : K × V). k ≺ e.0) m

  abbrev pub IsSorted : BTreeMap K V → Type 0
  IsSorted [] = Unit
  IsSorted ((k, v) ∷ m) = Above k m × IsSorted m

  pub get-insert :
      (k j : K) (v : V) (m : BTreeMap K V)
      → get j (insert k v m) ≡ (if j ≟ k then some v else get j m)
  unfolding get insert
  get-insert k j v [] = refl
  get-insert k j v ((i, w) ∷ m) = ground (
    arith,
    o.cmp_eq k i,
    o.cmp_eq j i,
    o.cmp_eq j k,
    o.cmp_refl i,
    o.cmp_refl k,
    get-insert k j v m,
  )

  pub get-remove :
      (k j : K) (m : BTreeMap K V) → get j (remove k m) ≡ (if j ≟ k then none else get j m)
  unfolding get remove
  get-remove k j [] = ground arith
  get-remove k j ((i, w) ∷ m) = ground (
    arith,
    o.cmp_eq k i,
    o.cmp_eq j i,
    o.cmp_eq j k,
    o.cmp_refl i,
    o.cmp_refl k,
    get-remove k j m,
  )

  Above-insert : (l k : K) (v : V) (m : BTreeMap K V) → l ≺ k → Above l m → Above l (insert k v m)
  unfolding insert
  Above-insert l k v [] h a = (h, tt)
  Above-insert l k v ((j, w) ∷ m) h a = ground (arith, Above-insert l k v m h a.1)

  pub Above-trans : (l k : K) (m : BTreeMap K V) → l ≺ k → Above k m → Above l m
  Above-trans l k [] h a = tt
  Above-trans l k ((j, w) ∷ m) h a = (o.cmp_trans l k j h a.0, Above-trans l k m h a.1)

  pub insert-IsSorted : (k : K) (v : V) (m : BTreeMap K V) → IsSorted m → IsSorted (insert k v m)
  unfolding insert
  insert-IsSorted k v [] s = (tt, tt)
  insert-IsSorted k v ((j, w) ∷ m) s = ground (
    arith,
    o.cmp_eq k j,
    o.cmp_swap k j,
    insert-IsSorted k v m s.1,
    Above-insert j k v m,
    Above-trans k j m,
  )

  Above-remove : (l k : K) (m : BTreeMap K V) → Above l m → Above l (remove k m)
  unfolding remove
  Above-remove l k [] a = tt
  Above-remove l k ((j, w) ∷ m) a = ground (arith, Above-remove l k m a.1)

  pub remove-IsSorted : (k : K) (m : BTreeMap K V) → IsSorted m → IsSorted (remove k m)
  unfolding remove
  remove-IsSorted k [] s = tt
  remove-IsSorted k ((j, w) ∷ m) s = ground (arith, remove-IsSorted k m s.1, Above-remove j k m s.0)

  pub get-Above : (k : K) (m : BTreeMap K V) → Above k m → get k m ≡ none
  unfolding get
  get-Above k [] a = refl
  get-Above k ((j, w) ∷ m) a = ground (arith, get-Above k m a.1)

  get-Above_lt : (l k : K) (m : BTreeMap K V) → l ≺ k → Above k m → get l m ≡ none
  get-Above_lt l k m h a = get-Above l m (Above-trans l k m h a)

  pub In-of-get : (k : K) (v : V) (m : BTreeMap K V) → get k m ≡ some v → In (k, v) m
  unfolding get
  In-of-get k v [] h = cc
  In-of-get k v ((j, w) ∷ m) h = ground (arith, o.cmp_eq k j, In-of-get k v m)

  All-Above : (l k : K) (v : V) (m : BTreeMap K V) → Above l m → In (k, v) m → l ≺ k
  All-Above l k v m a i = All-In (λ (e : K × V). l ≺ e.0) (k, v) m a i

  pub get-of-In : (k : K) (v : V) (m : BTreeMap K V) → IsSorted m → In (k, v) m → get k m ≡ some v
  unfolding get
  get-of-In k v [] s i = absurd i
  get-of-In k v ((j, w) ∷ m) s (inl e) = ground (arith, o.cmp_refl k)
  get-of-In k v ((j, w) ∷ m) s (inr i) =
      ground (arith, get-of-In k v m s.1 i, All-Above j k v m s.0 i, o.cmp_eq k j, o.cmp_refl k)

  heads_agree :
      (k j : K) (v w : V) (a b : BTreeMap K V)
      → Above k a
      → Above j b
      → get k ((k, v) ∷ a) ≡ get k ((j, w) ∷ b)
      → get j ((k, v) ∷ a) ≡ get j ((j, w) ∷ b)
      → (k ≡ j) × (v ≡ w)
  unfolding get
  heads_agree k j v w a b s t h g = ground (
    arith,
    o.cmp_eq k j,
    o.cmp_refl k,
    o.cmp_refl j,
    o.cmp_swap k j,
    get-Above_lt k j b,
    get-Above_lt j k a,
  )

  tails_agree :
      (k j : K) (v w : V) (a b : BTreeMap K V)
      → Above k a
      → Above j b
      → k ≡ j
      → (l : K) → get l ((k, v) ∷ a) ≡ get l ((j, w) ∷ b)
      → get l a ≡ get l b
  unfolding get
  tails_agree k j v w a b s t e l h =
      ground (arith, o.cmp_eq l k, o.cmp_eq l j, get-Above k a s, get-Above j b t)

  -- Two maps in key order with the same lookups are equal.
  pub ext : (a b : BTreeMap K V) → IsSorted a → IsSorted b → ((k : K) → get k a ≡ get k b) → a ≡ b
  unfolding get
  ext [] [] s t h = refl
  ext [] ((k, v) ∷ b) s t h = ground (arith, h k, o.cmp_refl k)
  ext ((k, v) ∷ a) [] s t h = ground (arith, h k, o.cmp_refl k)
  ext ((k, v) ∷ a) ((j, w) ∷ b) s t h =
      let first = heads_agree k j v w a b s.0 t.0 (h k) (h j) in
      let rest = ext a b s.1 t.1 (λ l. tails_agree k j v w a b s.0 t.0 first.0 l (h l)) in
      λ i. (first.0 i, first.1 i) ∷ rest i

  -- Two maps in key order with the same members are equal.
  pub ext-In :
      (a b : BTreeMap K V)
      → IsSorted a
      → IsSorted b
      → ((e : K × V) → In e a → In e b)
      → ((e : K × V) → In e b → In e a)
      → a ≡ b
  ext-In a b s t f g = ext a b s t (λ k. elim (Option-cases (get k a)) [
    | inl e ↦ elim (Option-cases (get k b)) [
      | inl h ↦ cc
      | inr (v, h) ↦ ground (arith, get-of-In k v a s (g (k, v) (In-of-get k v b h)))
    ]
    | inr (v, e) ↦ ground (arith, get-of-In k v b t (f (k, v) (In-of-get k v a e)))
  ])
