-- ===== src/Base/Unique.antt =====
-- A column of a table, given by a function of the rows, in which no value stands twice; and what
-- `insert` does to all rows.
use Prim.Native.Nat.Ordering.{gt}
use mathlib.Core.Path.{◌≡◌, sym, subst}
use mathlib.Core.Logic.{◌⊎◌, ◌≢◌, inl, inr}
use mathlib.Core.Option.{some}
use happy_active_everywhere.Base.Tests.{Bool-cases, some-injective}
use mathlib.Core.List.{[], ◌∷◌}
use native.Mathlib.Omega.{arith}
use happy_active_everywhere.Base.In.{All, All-In}
use happy_active_everywhere.Base.Order.{Ord, ◌≺◌, ◌≟◌, ≺-irrefl, cmp-cases, ≟-eq}
use happy_active_everywhere.Base.BTreeMap.{
  BTreeMap, IsSorted, Above-trans, Above, get, insert, In-of-get,
}

module _ {K V : Type 0} ⦃o : Ord K⦄ where
  pub All-insert :
      (P : K × V → Type 0) (k : K) (v : V) (m : BTreeMap K V)
      → P (k, v)
      → All P m
      → All P (insert k v m)
  unfolding insert
  All-insert P k v [] p a = (p, tt)
  All-insert P k v ((j, w) ∷ m) p a = elim (cmp-cases k j) [
    | inl e ↦ rw (insert, e) (p, a)
    | inr (inl e) ↦ rw (insert, e) (p, a.1)
    | inr (inr e) ↦ rw (insert, e) (a.0, All-insert P k v m p a.1)
  ]

  pub All-get :
      (P : K × V → Type 0) (k : K) (v : V) (m : BTreeMap K V)
      → All P m
      → get k m ≡ some v
      → P (k, v)
  All-get P k v m a h = All-In P (k, v) m a (In-of-get k v m h)

module _ {K V B : Type 0} ⦃o : Ord K⦄ (column : V → B) where
  -- No row has the value.
  abbrev pub Apart : B → BTreeMap K V → Type 0
  Apart b m = All (λ (e : K × V). column e.1 ≢ b) m

  abbrev pub IsUnique : BTreeMap K V → Type 0
  IsUnique [] = Unit
  IsUnique ((k, v) ∷ m) = Apart (column v) m × IsUnique m

  -- No row of another key has the value.
  abbrev pub OthersApart : B → K → BTreeMap K V → Type 0
  OthersApart b k m = All (λ (e : K × V). (e.0 ≡ k) ⊎ (column e.1 ≢ b)) m

  pub Apart-OthersApart : (b : B) (k : K) (m : BTreeMap K V) → Apart b m → OthersApart b k m
  Apart-OthersApart b k [] a = tt
  Apart-OthersApart b k (e ∷ m) a = (inr a.0, Apart-OthersApart b k m a.1)

  OthersApart-Above : (b : B) (k : K) (m : BTreeMap K V) → Above k m → OthersApart b k m → Apart b m
  OthersApart-Above b k [] a h = tt
  OthersApart-Above b k (e ∷ m) a (inl q, h) = absurd (≺-irrefl k (subst (λ (x : K). k ≺ x) q a.0))
  OthersApart-Above b k (e ∷ m) a (inr q, h) = (q, OthersApart-Above b k m a.1 h)

  first_apart : (b : B) (j k : K) (w : V) → k ≺ j → (j ≡ k) ⊎ (column w ≢ b) → column w ≢ b
  first_apart b j k w l (inl q) = absurd (≺-irrefl k (subst (λ (x : K). k ≺ x) q l))
  first_apart b j k w l (inr q) = q

  second_apart :
      (b : B) (j k : K) (w : V) → o.cmp k j ≡ gt → (j ≡ k) ⊎ (column w ≢ b) → column w ≢ b
  second_apart b j k w g (inl q) = absurd (ground (arith, o.cmp_refl k))
  second_apart b j k w g (inr q) = q

  pub insert-IsUnique :
      (k : K) (v : V) (m : BTreeMap K V)
      → IsSorted m
      → OthersApart (column v) k m
      → IsUnique m
      → IsUnique (insert k v m)
  unfolding insert
  insert-IsUnique k v [] s h u = (tt, tt)
  insert-IsUnique k v ((j, w) ∷ m) s h u = elim (cmp-cases k j) [
    | inl e ↦
        rw (insert, e)
          (
            (
              first_apart (column v) j k w e h.0,
              OthersApart-Above (column v) k m (Above-trans k j m e s.0) h.1,
            ),
            u,
          )
    | inr (inl e) ↦
        rw (insert, e)
          (
            OthersApart-Above (column v) k m
                (subst (λ (x : K). Above x m) (sym (o.cmp_eq k j e)) s.0) h.1,
            u.1,
          )
    | inr (inr e) ↦
        rw (insert, e)
          (
            All-insert (λ (x : K × V). column x.1 ≢ column w) k v m
                (λ q. second_apart (column v) j k w e h.0 (sym q)) u.0,
            insert-IsUnique k v m s.1 h.1 u.1,
          )
  ]

  -- The value of a row stands in no other row.
  pub get-OthersApart :
      (k : K) (v : V) (m : BTreeMap K V)
      → IsUnique m
      → get k m ≡ some v
      → OthersApart (column v) k m
  unfolding get
  get-OthersApart k v [] u h = tt
  get-OthersApart k v ((j, w) ∷ m) u h = elim (Bool-cases (k ≟ j)) [
    | inl e ↦
        let same : w ≡ v = some-injective (rw e at h) in
        (
          inl (sym (≟-eq k j e)),
          Apart-OthersApart (column v) k m (subst (λ (x : V). Apart (column x) m) same u.0),
        )
    | inr e ↦
        let found : get k m ≡ some v = rw e at h in
        (
          inr (λ q. All-get (λ (x : K × V). column x.1 ≢ column w) k v m u.0 found (sym q)),
          get-OthersApart k v m u.1 found,
        )
  ]
