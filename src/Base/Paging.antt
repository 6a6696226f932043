-- ===== src/Base/Paging.antt =====
-- Keyset pagination, `WHERE key > ?1 ORDER BY key LIMIT ?2` in a loop that goes on from the last key:
-- it visits the rows after the first key, each once and in order.
use Prim.Native.Nat.Ordering.{lt}
use Prim.Native.Nat.{ℕ, zero, suc, ◌≤◌, ◌<◌}
use mathlib.Core.Path.{◌≡◌, refl, sym, ap, ◌∙◌, subst}
use mathlib.Core.Bool.{Bool, true, false}
use mathlib.Core.Option.{none}
use mathlib.Core.List.{List, [], ◌∷◌, ◌++◌}
use native.Mathlib.Omega.{arith}
use happy_active_everywhere.Base.Tests.{if◌then◌else◌, Bool-cases}
use mathlib.Core.Logic.{inl, inr}
use happy_active_everywhere.Base.Lists.{length, take, select, length-append, List-cases}
use happy_active_everywhere.Base.Order.{Ord, ◌≺◌, ◌≟◌, ≟-eq}
use happy_active_everywhere.Base.BTreeMap.{BTreeMap, IsSorted, Above, get}

abbrev pub concat {ℓ} : {A : Type ℓ} → List (List A) → List A
concat [] = []
concat (xs ∷ rest) = xs ++ concat rest

module _ {K : Type 0} ⦃o : Ord K⦄ where
  abbrev pub precedes : K → K → Bool
  precedes a b = elim (o.cmp a b) [ lt ↦ true | _ ↦ false ]

  precedes-≺ : (k j : K) → k ≺ j → precedes k j ≡ true
  precedes-≺ k j h = ground arith

module _ {K V : Type 0} ⦃o : Ord K⦄ where
  -- The rows that a page is taken from.
  unfoldable pub rows_after : K → BTreeMap K V → BTreeMap K V
  rows_after k rows = select (λ (e : K × V). precedes k e.0) rows

  abbrev pub last_key : K × V → BTreeMap K V → K
  last_key e [] = e.0
  last_key e (f ∷ rows) = last_key f rows

  unfoldable pub pages : ℕ → ℕ → K → BTreeMap K V → List (BTreeMap K V)
  pages zero limit k rows = []
  pages (suc fuel) limit k rows = elim (take limit (rows_after k rows)) [
    | [] ↦ []
    | e ∷ page ↦ (e ∷ page) ∷ pages fuel limit (last_key e page) rows
  ]

  rows_after-Above : (k : K) (rows : BTreeMap K V) → Above k rows → rows_after k rows ≡ rows
  unfolding rows_after
  rows_after-Above k [] a = refl
  rows_after-Above k (e ∷ rows) a = ground (arith, rows_after-Above k rows a.1)

  Above-last_key :
      (k : K) (e : K × V) (page rest : BTreeMap K V)
      → Above k ((e ∷ page) ++ rest)
      → k ≺ last_key e page
  Above-last_key k e [] rest a = a.0
  Above-last_key k e (f ∷ page) rest a = Above-last_key k f page rest a.1

  rows_after-last_key :
      (e : K × V) (page rest : BTreeMap K V)
      → IsSorted ((e ∷ page) ++ rest)
      → rows_after (last_key e page) ((e ∷ page) ++ rest) ≡ rest
  unfolding rows_after
  rows_after-last_key e [] rest s = ground (arith, o.cmp_refl e.0, rows_after-Above e.0 rest s.0)
  rows_after-last_key e (f ∷ page) rest s = ground (
    arith,
    rows_after-last_key f page rest s.1,
    Above-last_key e.0 f page rest s.0,
    o.cmp_swap e.0 (last_key f page),
  )

  rows_after-rows_after :
      (k l : K) (rows : BTreeMap K V) → k ≺ l → rows_after l (rows_after k rows) ≡ rows_after l rows
  unfolding rows_after
  rows_after-rows_after k l [] h = refl
  rows_after-rows_after k l (e ∷ rows) h =
      ground (arith, rows_after-rows_after k l rows h, o.cmp_trans k l e.0)

  Above-rows_after : (l k : K) (rows : BTreeMap K V) → Above l rows → Above l (rows_after k rows)
  unfolding rows_after
  Above-rows_after l k [] a = tt
  Above-rows_after l k (e ∷ rows) a = ground (arith, Above-rows_after l k rows a.1)

  pub rows_after-IsSorted :
      (k : K) (rows : BTreeMap K V) → IsSorted rows → IsSorted (rows_after k rows)
  unfolding rows_after
  rows_after-IsSorted k [] s = tt
  rows_after-IsSorted k (e ∷ rows) s =
      ground (arith, rows_after-IsSorted k rows s.1, Above-rows_after e.0 k rows s.0)

  pub Above-rows_after_self : (k : K) (rows : BTreeMap K V) → Above k (rows_after k rows)
  unfolding rows_after
  Above-rows_after_self k [] = tt
  Above-rows_after_self k (e ∷ rows) = ground (arith, Above-rows_after_self k rows)

  take-rest : (n : ℕ) (xs : BTreeMap K V) → (rest : BTreeMap K V) × (xs ≡ take n xs ++ rest)
  take-rest zero xs = (xs, refl)
  take-rest (suc n) [] = ([], refl)
  take-rest (suc n) (x ∷ xs) = let (rest, e) = take-rest n xs in (rest, ap (λ t. x ∷ t) e)

  -- A page that is not empty is followed by the rows after its last key.
  pub page-rows_after :
      (limit : ℕ) (k : K) (rows : BTreeMap K V) (e : K × V) (page : BTreeMap K V)
      → IsSorted rows
      → take limit (rows_after k rows) ≡ e ∷ page
      → rows_after k rows ≡ (e ∷ page) ++ rows_after (last_key e page) rows
  page-rows_after limit k rows e page s h =
      let (rest, q) = take-rest limit (rows_after k rows) in
      let split : rows_after k rows ≡ (e ∷ page) ++ rest = q ∙ ap (λ t. t ++ rest) h in
      let sorted : IsSorted ((e ∷ page) ++ rest) =
        subst IsSorted split (rows_after-IsSorted k rows s) in
      let above : Above k ((e ∷ page) ++ rest) =
        subst (Above k) split (Above-rows_after_self k rows) in
      let tail : rows_after (last_key e page) rows ≡ rest =
        sym (rows_after-rows_after k (last_key e page) rows (Above-last_key k e page rest above))
        ∙ ap (rows_after (last_key e page)) split
        ∙ rows_after-last_key e page rest sorted in
      split ∙ ap (λ t. (e ∷ page) ++ t) (sym tail)

  pub take-empty : (limit : ℕ) (xs : BTreeMap K V) → 0 < limit → take limit xs ≡ [] → xs ≡ []
  take-empty zero xs p h = absurd (omega arith)
  take-empty (suc n) [] p h = refl
  take-empty (suc n) (x ∷ xs) p h = cc

  -- With as much fuel as there are rows after the key, the pages are those rows, in order.
  pub concat-pages :
      (fuel limit : ℕ) (k : K) (rows : BTreeMap K V)
      → IsSorted rows
      → 0 < limit
      → length (rows_after k rows) ≤ fuel
      → concat (pages fuel limit k rows) ≡ rows_after k rows
  unfolding pages
  concat-pages zero limit k rows s p h = none_left (rows_after k rows) h
    where
      none_left : (xs : BTreeMap K V) → length xs ≤ 0 → [] ≡ xs
      none_left [] l = refl
      none_left (x ∷ xs) l = absurd (omega arith)
  concat-pages (suc fuel) limit k rows s p h = elim (List-cases (take limit (rows_after k rows))) [
    | inl e ↦ rw (pages, e) (sym (take-empty limit (rows_after k rows) p e))
    | inr (r, page, e) ↦
        let split = page-rows_after limit k rows r page s e in
        rw (pages, e)
          (ap (λ t. (r ∷ page) ++ t)
              (concat-pages fuel limit (last_key r page) rows s p (
                omega
                  (arith, ap length split, length-append page (rows_after (last_key r page) rows))))
            ∙ sym split)
  ]

  -- A selection by the key keeps or drops the whole row.
  pub get-select :
      (p : K → Bool) (k : K) (m : BTreeMap K V)
      → get k (select (λ (e : K × V). p e.0) m) ≡ (if p k then get k m else none)
  unfolding get
  get-select p k [] = ground arith
  get-select p k (e ∷ m) = elim (Bool-cases (k ≟ e.0)) [
    | inl t ↦ let q = ap p (≟-eq k e.0 t) in ground (arith, get-select p k m)
    | inr t ↦ ground (arith, get-select p k m)
  ]

  select-IsSorted : (k : K) (p : K × V → Bool) (m : BTreeMap K V) → Above k m → Above k (select p m)
  select-IsSorted k p [] a = tt
  select-IsSorted k p (e ∷ m) a = ground (arith, select-IsSorted k p m a.1)

  pub IsSorted-select : (p : K × V → Bool) (m : BTreeMap K V) → IsSorted m → IsSorted (select p m)
  IsSorted-select p [] s = tt
  IsSorted-select p (e ∷ m) s = ground (arith, IsSorted-select p m s.1, select-IsSorted e.0 p m s.0)

  pub length-select : (p : K × V → Bool) (m : BTreeMap K V) → length (select p m) ≤ length m
  length-select p [] = omega arith
  length-select p (e ∷ m) = ground (arith, length-select p m)

  -- What a reader by pages of a positive size finds of a key that follows its first key.
  pub get-pages :
      (limit : ℕ) (k j : K) (m : BTreeMap K V)
      → IsSorted m
      → 0 < limit
      → k ≺ j
      → get j (concat (pages (length m) limit k m)) ≡ get j m
  unfolding rows_after
  get-pages limit k j m s p h =
      ap (get j)
        (concat-pages (length m) limit k m s p (length-select (λ (e : K × V). precedes k e.0) m))
      ∙ get-select (precedes k) j m
      ∙ ap (λ (b : Bool). if b then get j m else none) (precedes-≺ k j h)

  pub pages-IsSorted :
      (limit : ℕ) (k : K) (m : BTreeMap K V)
      → IsSorted m
      → 0 < limit
      → IsSorted (concat (pages (length m) limit k m))
  unfolding rows_after
  pages-IsSorted limit k m s p =
      subst IsSorted
        (sym
          (concat-pages (length m) limit k m s p (length-select (λ (e : K × V). precedes k e.0) m)))
        (rows_after-IsSorted k m s)
