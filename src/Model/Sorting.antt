-- ===== src/Model/Sorting.antt =====
-- The candidates of a join, sorted by id and without repeats: their order and their members.
use Prim.Native.Nat.Ordering.{lt}
use happy_active_everywhere.Base.{false, List, [], ◌∷◌, ◌≡◌, refl, ◌⊎◌, inl, inr, arith, Bool-cases}
use happy_active_everywhere.Base.In.{In, All}
use happy_active_everywhere.Base.Order.{◌≟◌, ≟-eq, lex, lex-eq, lex-swap, lex_trans, list_ord}
use happy_active_everywhere.Base.Text.{Text}
use happy_active_everywhere.Base.BTreeMap.{IsSorted, Above, Above-trans}
use happy_active_everywhere.Model.{Revision, place, sort, dedup, dedup_after}

abbrev Entry : Type 0
Entry = Text × Revision

-- `j` does not come after `k`.
abbrev AtMost : Text → Text → Type 0
AtMost j k = ¬ (lex k j ≡ lt)

-- Sorted by id, repeats allowed.
abbrev pub IsOrdered : List Entry → Type 0
IsOrdered [] = Unit
IsOrdered ((k, r) ∷ l) = All (λ (e : Entry). AtMost k e.0) l × IsOrdered l

place-In : (x y : Entry) (l : List Entry) → In y (place x l) → (y ≡ x) ⊎ In y l
unfolding place
place-In (k, r) y [] i = i
place-In (k, r) y ((j, s) ∷ l) i = ground (arith, place-In (k, r) y l)

In-place_self : (x : Entry) (l : List Entry) → In x (place x l)
unfolding place
In-place_self (k, r) [] = inl refl
In-place_self (k, r) ((j, s) ∷ l) = ground (arith, In-place_self (k, r) l)

In-place : (x y : Entry) (l : List Entry) → In y l → In y (place x l)
unfolding place
In-place (k, r) y [] i = absurd i
In-place (k, r) y ((j, s) ∷ l) i = ground (arith, In-place (k, r) y l)

pub sort-In : (y : Entry) (l : List Entry) → In y (sort l) → In y l
unfolding sort
sort-In y [] i = i
sort-In y (x ∷ l) i = ground (arith, place-In x y (sort l), sort-In y l)

pub In-sort : (y : Entry) (l : List Entry) → In y l → In y (sort l)
unfolding sort
In-sort y [] i = i
In-sort y (x ∷ l) (inl e) = rw e (In-place_self x (sort l))
In-sort y (x ∷ l) (inr i) = In-place x y (sort l) (In-sort y l i)

AtMost-trans : (a b c : Text) → AtMost a b → AtMost b c → AtMost a c
AtMost-trans a b c h k = ground (arith, lex-eq b a, lex-swap b a, lex_trans c a b)

All-AtMost_trans :
    (k j : Text) (l : List Entry)
    → AtMost k j
    → All (λ (e : Entry). AtMost j e.0) l
    → All (λ (e : Entry). AtMost k e.0) l
All-AtMost_trans k j [] h a = tt
All-AtMost_trans k j ((i, s) ∷ l) h a = (AtMost-trans k j i h a.0, All-AtMost_trans k j l h a.1)

All-place :
    (j : Text) (x : Entry) (l : List Entry)
    → AtMost j x.0
    → All (λ (e : Entry). AtMost j e.0) l
    → All (λ (e : Entry). AtMost j e.0) (place x l)
unfolding place
All-place j (k, r) [] h a = (h, tt)
All-place j (k, r) ((i, s) ∷ l) h a = ground (arith, All-place j (k, r) l h a.1)

place-IsOrdered : (x : Entry) (l : List Entry) → IsOrdered l → IsOrdered (place x l)
unfolding place
place-IsOrdered (k, r) [] s = (tt, tt)
place-IsOrdered (k, r) ((j, s) ∷ l) o =
    ground
      (arith, All-place j (k, r) l, place-IsOrdered (k, r) l, All-AtMost_trans k j l, lex-swap j k)

pub sort-IsOrdered : (l : List Entry) → IsOrdered (sort l)
unfolding sort
sort-IsOrdered [] = tt
sort-IsOrdered (x ∷ l) = place-IsOrdered x (sort l) (sort-IsOrdered l)

dedup_after-In : (k : Text) (y : Entry) (l : List Entry) → In y (dedup_after k l) → In y l
unfolding dedup_after
dedup_after-In k y [] i = i
dedup_after-In k y ((j, s) ∷ l) i = ground (arith, dedup_after-In j y l, dedup_after-In k y l)

pub dedup-In : (y : Entry) (l : List Entry) → In y (dedup l) → In y l
unfolding dedup
dedup-In y [] i = i
dedup-In y ((k, r) ∷ l) i = ground (arith, dedup_after-In k y l)

AtMost-ne : (k j : Text) → AtMost k j → (j ≟ k) ≡ false → lex k j ≡ lt
unfolding list_ord
AtMost-ne k j h n = ground (arith, lex-swap j k, lex-eq j k)

dedup_after-IsSorted :
    (k : Text) (l : List Entry)
    → All (λ (e : Entry). AtMost k e.0) l
    → IsOrdered l
    → Above k (dedup_after k l) × IsSorted (dedup_after k l)
unfolding dedup_after list_ord
dedup_after-IsSorted k [] a o = (tt, tt)
dedup_after-IsSorted k ((j, s) ∷ l) a o =
    let kept = dedup_after-IsSorted j l o.0 o.1 in
    let dropped = dedup_after-IsSorted k l a.1 o.1 in
    elim (Bool-cases (j ≟ k)) [
      | inl e ↦ rw e dropped
      | inr e ↦
          let lt = AtMost-ne k j a.0 e in
          rw e ((lt, Above-trans k j (dedup_after j l) lt kept.0), kept)
    ]

pub dedup-IsSorted : (l : List Entry) → IsOrdered l → IsSorted (dedup l)
unfolding dedup
dedup-IsSorted [] o = tt
dedup-IsSorted ((k, r) ∷ l) o = dedup_after-IsSorted k l o.0 o.1

In-dedup_after :
    (k j : Text) (r : Revision) (l : List Entry)
    → In (j, r) l
    → (j ≡ k) ⊎ ((s : Revision) × In (j, s) (dedup_after k l))
unfolding dedup_after
In-dedup_after k j r [] i = absurd i
In-dedup_after k j r ((m, t) ∷ l) (inl e) = elim (Bool-cases (m ≟ k)) [
  | inl h ↦ inl (ground (arith, ≟-eq m k))
  | inr h ↦ inr (t, rw h (inl (ground arith)))
]
In-dedup_after k j r ((m, t) ∷ l) (inr i) = elim (Bool-cases (m ≟ k)) [
  | inl h ↦ rw h (In-dedup_after k j r l i)
  | inr h ↦ inr (elim (In-dedup_after m j r l i) [
    | inl e ↦ (t, rw h (inl (ground arith)))
    | inr (s, p) ↦ (s, rw h (inr p))
  ])
]

-- Some candidate of each id is kept.
pub In-dedup :
    (j : Text) (r : Revision) (l : List Entry) → In (j, r) l → (s : Revision) × In (j, s) (dedup l)
unfolding dedup
In-dedup j r [] i = absurd i
In-dedup j r ((k, t) ∷ l) (inl e) = (t, inl (ground arith))
In-dedup j r ((k, t) ∷ l) (inr i) = elim (In-dedup_after k j r l i) [
  | inl e ↦ (t, inl (ground arith))
  | inr (s, p) ↦ (s, inr p)
]
