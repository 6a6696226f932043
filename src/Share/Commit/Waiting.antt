-- ===== src/Share/Commit/Waiting.antt =====
-- The rows that wait for a publication: how many there are, and what a page of them is.
use happy_active_everywhere.Base.{
  ℕ, ◌+◌, Bool, true, false, not, ◌&&◌, Option, none, some, List, [], ◌∷◌, select, map, length,
  take, if◌then◌else◌, List-cases, ◌≡◌, refl, sym, ap, subst, ◌∙◌, arith, ◌⊎◌, inl, inr, Bool-cases,
  some-injective, none≢some,
}
use happy_active_everywhere.Base.In.{In, All, All-intro, In-select, select-In}
use happy_active_everywhere.Base.Order.{◌≟◌, ≟-refl, list_ord, cmp-cases}
use happy_active_everywhere.Base.Text.{Text}
use happy_active_everywhere.Base.BTreeMap.{
  BTreeMap, IsSorted, get, insert, contains_key, get-of-In, get-Above, Above-trans,
}
use happy_active_everywhere.Model.{Versions}
use happy_active_everywhere.Model.Equality.{same_versions, same_versions-eq, same_versions_refl}
use happy_active_everywhere.Share.{Entry, Index}
use happy_active_everywhere.Share.Saving.{IsValid}
use happy_active_everywhere.Share.Commit.{
  is_waiting, waiting, comes_before, place_candidate, order_rows, candidate_paths, row_path,
}

-- How many rows a test takes, before and after the row of a key is replaced by one that it does not take.
pub length-select-insert :
    {V : Type 0} (q : Text × V → Bool) (k : Text) (old new : V) (m : BTreeMap Text V)
    → IsSorted m
    → get k m ≡ some old
    → q (k, new) ≡ false
    → length (select q (insert k new m)) + (if q (k, old) then 1 else 0) ≡ length (select q m)
unfolding insert get
length-select-insert q k old new [] s g f = cc
length-select-insert {V = V} q k old new ((j, w) ∷ m) s g f = elim (cmp-cases k j) [
  | inl e ↦
      absurd (none≢some {a = old} (sym (get-Above k ((j, w) ∷ m) (e, Above-trans k j m e s.0)) ∙ g))
  | inr (inl e) ↦
      let q1 : k ≡ j = list_ord.cmp_eq k j e in
      let g' : (if k ≟ j then some w else get k m) ≡ some old = g in
      let t : (k ≟ j) ≡ true = ap (λ (x : Text). k ≟ x) (sym q1) ∙ ≟-refl k in
      let same : w ≡ old = some-injective (rw t at g') in
      let q2 : q (j, w) ≡ q (k, old) = λ i. q (sym q1 i, same i) in
      rw (insert, e) (count (q (k, new)) (q (j, w)) (q (k, old)) f q2)
  | inr (inr e) ↦
      let g' : get k m ≡ some old = ground (arith, list_ord.cmp_refl k) in
      rw (insert, e) (ground (arith, length-select-insert q k old new m s.1 g' f))
]
  where
    count :
        (a b c : Bool)
        → a ≡ false
        → b ≡ c
        → length (if a then (k, new) ∷ select q m else select q m) + (if c then 1 else 0)
          ≡ length (if b then (j, w) ∷ select q m else select q m)
    count a b c h e = ground arith

-- What was placed in the order.
pub In-place_candidate :
    (x e : Text × Entry) (rows : List (Text × Entry))
    → In x (place_candidate e rows)
    → (x ≡ e) ⊎ In x rows
unfolding place_candidate
In-place_candidate x e [] i = i
In-place_candidate x e (f ∷ rows) i = elim (Bool-cases (comes_before f e)) [
  | inl t ↦ elim (the_placed (rw (place_candidate, t) at i)) [
    | inl q ↦ inr (inl q)
    | inr j ↦ elim (In-place_candidate x e rows j) [ inl q ↦ inl q | inr k ↦ inr (inr k) ]
  ]
  | inr t ↦ rw (place_candidate, t) at i
]
  where
    the_placed : In x (f ∷ place_candidate e rows) → (x ≡ f) ⊎ In x (place_candidate e rows)
    the_placed j = j

pub In-order_rows :
    (x : Text × Entry) (rows : List (Text × Entry)) → In x (order_rows rows) → In x rows
unfolding order_rows
In-order_rows x [] i = i
In-order_rows x (e ∷ rows) i = elim (In-place_candidate x e (order_rows rows) i) [
  | inl q ↦ inl q
  | inr j ↦ inr (In-order_rows x rows j)
]

pub place_candidate-some :
    (e : Text × Entry) (rows : List (Text × Entry)) → place_candidate e rows ≡ [] → ⊥
unfolding place_candidate
place_candidate-some e [] h = cc
place_candidate-some e (f ∷ rows) h = ground arith

pub order_rows-empty : (rows : List (Text × Entry)) → order_rows rows ≡ [] → rows ≡ []
unfolding order_rows
order_rows-empty [] h = refl
order_rows-empty (e ∷ rows) h = absurd (place_candidate-some e (order_rows rows) h)

-- A path of a page is the path of a row that waits; without a page no row waits.
pub candidate_paths-cons :
    (index : Index) (path : Text) (paths : List Text)
    → IsValid index
    → candidate_paths index ≡ path ∷ paths
    → (local : Entry) × (get path index.entries ≡ some local)
      × (is_waiting index.pending (path, local) ≡ true)
unfolding candidate_paths waiting
candidate_paths-cons index path paths v h = elim (List-cases (order_rows (waiting index))) [
  | inl e ↦
      absurd (cons≢nil (sym h ∙ ap (λ (r : List (Text × Entry)). map row_path (take 256 r)) e))
  | inr ((p, local), rest, e) ↦
      let same : p ≡ path =
        cons-head (sym (ap (λ (r : List (Text × Entry)). map row_path (take 256 r)) e) ∙ h) in
      let i : In (p, local) (waiting index) =
        In-order_rows (p, local) (waiting index) (subst (In (p, local)) (sym e) (inl refl)) in
      let (j, t) = In-select (is_waiting index.pending) (p, local) index.entries i in
      subst
        (λ (x : Text).
          (l : Entry) × (get x index.entries ≡ some l) × (is_waiting index.pending (x, l) ≡ true))
        same (local, get-of-In p local index.entries v.sorted j, t)
]
  where
    cons≢nil : {x : Text} {xs : List Text} → x ∷ xs ≡ [] → ⊥
    cons≢nil e = cc

    cons-head : {x y : Text} {xs ys : List Text} → x ∷ xs ≡ y ∷ ys → x ≡ y
    cons-head e = cc

pub candidate_paths-empty : (index : Index) → candidate_paths index ≡ [] → waiting index ≡ []
unfolding candidate_paths
candidate_paths-empty index h = elim (List-cases (order_rows (waiting index))) [
  | inl e ↦ order_rows-empty (waiting index) e
  | inr (e, rest, q) ↦
      absurd (nil≢cons (sym h ∙ ap (λ (r : List (Text × Entry)). map row_path (take 256 r)) q))
]
  where
    nil≢cons : {x : Text} {xs : List Text} → [] ≡ x ∷ xs → ⊥
    nil≢cons e = cc

-- A row whose version set is what was observed does not wait.
pub observed-is_waiting :
    (pending : BTreeMap Text (Unit {0})) (p : Text) (e : Entry)
    → e.observed ≡ e.versions
    → is_waiting pending (p, e) ≡ false
unfolding is_waiting
observed-is_waiting pending p e h =
    ap (λ (x : Versions). not (same_versions e.versions x) && not (contains_key p pending)) h
    ∙ rw (same_versions_refl e.versions) refl

-- A row that does not wait has been observed, or waits for an approval.
pub not-is_waiting :
    (pending : BTreeMap Text (Unit {0})) (p : Text) (e : Entry)
    → is_waiting pending (p, e) ≡ false
    → (e.observed ≡ e.versions) ⊎ (contains_key p pending ≡ true)
unfolding is_waiting
not-is_waiting pending p e h = elim (Bool-cases (same_versions e.versions e.observed)) [
  | inl s ↦ inl (sym (same_versions-eq e.versions e.observed s))
  | inr s ↦ inr (ground arith)
]

abbrev pub versions_of_row : Option Entry → Option Versions
versions_of_row none = none
versions_of_row (some e) = some e.versions

abbrev pub versions_at : Text → Index → Option Versions
versions_at p index = versions_of_row (get p index.entries)

-- Rows keep their version sets, and none comes or goes.
abbrev pub KeepsVersions : Index → Index → Type 0
KeepsVersions index index' = (p : Text) → versions_at p index' ≡ versions_at p index

abbrev pub waiting_count : Index → ℕ
waiting_count index = length (waiting index)

-- Nothing waits any more: each row has been observed, or waits for an approval.
abbrev pub AllObserved : Index → Type 0
AllObserved index =
    All
      (λ (e : Text × Entry).
        (e.1.observed ≡ e.1.versions) ⊎ (contains_key e.0 index.pending ≡ true))
      index.entries

pub no_waiting-AllObserved : (index : Index) → waiting index ≡ [] → AllObserved index
unfolding waiting
no_waiting-AllObserved index h =
    All-intro
      (λ (e : Text × Entry).
        (e.1.observed ≡ e.1.versions) ⊎ (contains_key e.0 index.pending ≡ true))
      index.entries
      (λ e i. elim (Bool-cases (is_waiting index.pending e)) [
        | inl t ↦ absurd (subst (In e) h (select-In (is_waiting index.pending) e index.entries i t))
        | inr t ↦ not-is_waiting index.pending e.0 e.1 t
      ])
