-- ===== src/Base/Keys.antt =====
-- The keys of a map after `insert` and `remove`, and its size.
use Prim.Native.Nat.{suc}
use mathlib.Core.Path.{◌≡◌, refl}
use mathlib.Core.Logic.{inl, inr}
use mathlib.Core.Bool.{true, false}
use mathlib.Core.Option.{some}
use mathlib.Core.List.{[], ◌∷◌}
use native.Mathlib.Omega.{arith}
use happy_active_everywhere.Base.Lists.{length}
use happy_active_everywhere.Base.Tests.{if◌then◌else◌, Bool-cases}
use happy_active_everywhere.Base.Order.{Ord, ◌≟◌}
use happy_active_everywhere.Base.BTreeMap.{
  BTreeMap, IsSorted, get, insert, remove, contains_key, get-insert, get-remove, get-Above,
  Above-trans,
}

module _ {K V : Type 0} ⦃o : Ord K⦄ where
  pub contains_key-insert :
      (j k : K) (v : V) (m : BTreeMap K V)
      → contains_key j (insert k v m) ≡ (if j ≟ k then true else contains_key j m)
  unfolding contains_key
  contains_key-insert j k v m =
      let e = get-insert k j v m in
      elim (Bool-cases (j ≟ k)) [ inl t ↦ ground arith | inr t ↦ ground arith ]

  pub contains_key-remove :
      (j k : K) (m : BTreeMap K V)
      → contains_key j (remove k m) ≡ (if j ≟ k then false else contains_key j m)
  unfolding contains_key
  contains_key-remove j k m =
      let e = get-remove k j m in
      elim (Bool-cases (j ≟ k)) [ inl t ↦ ground arith | inr t ↦ ground arith ]

  pub length-insert :
      (k : K) (v : V) (m : BTreeMap K V)
      → contains_key k m ≡ false
      → length (insert k v m) ≡ suc (length m)
  unfolding contains_key get insert
  length-insert k v [] h = refl
  length-insert k v ((j, w) ∷ m) h = ground (arith, length-insert k v m, o.cmp_eq k j, o.cmp_refl j)

  pub length-insert_known :
      (k : K) (v u : V) (m : BTreeMap K V)
      → IsSorted m
      → get k m ≡ some u
      → length (insert k v m) ≡ length m
  unfolding get insert
  length-insert_known k v u [] s h = cc
  length-insert_known k v u ((j, w) ∷ m) s h = ground (
    arith,
    length-insert_known k v u m s.1,
    o.cmp_eq k j,
    o.cmp_refl j,
    get-Above k m,
    Above-trans k j m,
  )
