-- ===== src/Base/Order.antt =====
-- The trait `Ord`, with the laws that it asks of `cmp`.
use Prim.Native.Nat.{◌<◌, ℕ, compare, Ordering}
use Prim.Native.Nat.Ordering.{lt, eq, gt}
use mathlib.Core.Logic.{◌⊎◌, inl, inr}
use mathlib.Core.Path.{◌≡◌, refl}
use mathlib.Core.Bool.{Bool, true, false}
use mathlib.Core.List.{List, [], ◌∷◌}
use native.Mathlib.Omega.{arith}

abbrev pub reversed : Ordering → Ordering
reversed lt = gt
reversed eq = eq
reversed gt = lt

pub record Ord {ℓ} (K : Type ℓ) : Type ℓ where
  pub cmp : K → K → Ordering
  pub cmp_refl : (a : K) → cmp a a ≡ eq
  pub cmp_eq : (a b : K) → cmp a b ≡ eq → a ≡ b
  pub cmp_swap : (a b : K) → cmp b a ≡ reversed (cmp a b)
  pub cmp_trans : (a b c : K) → cmp a b ≡ lt → cmp b c ≡ lt → cmp a c ≡ lt

pub nat_refl : (a : ℕ) → compare a a ≡ eq
nat_refl a = ground arith

pub nat_eq : (a b : ℕ) → compare a b ≡ eq → a ≡ b
nat_eq a b h = ground arith

pub nat_swap : (a b : ℕ) → compare b a ≡ reversed (compare a b)
nat_swap a b = ground arith

pub nat_trans : (a b c : ℕ) → compare a b ≡ lt → compare b c ≡ lt → compare a c ≡ lt
nat_trans a b c h k = ground arith

-- Lexicographic comparison of sequences of numbers, as of strings.
unfoldable pub lex : List ℕ → List ℕ → Ordering
lex [] [] = eq
lex [] (y ∷ ys) = lt
lex (x ∷ xs) [] = gt
lex (x ∷ xs) (y ∷ ys) = elim (compare x y) [ lt ↦ lt | eq ↦ lex xs ys | gt ↦ gt ]

pub lex_refl : (a : List ℕ) → lex a a ≡ eq
unfolding lex
lex_refl [] = refl
lex_refl (x ∷ xs) = ground (arith, nat_refl x, lex_refl xs)

pub lex-eq : (a b : List ℕ) → lex a b ≡ eq → a ≡ b
unfolding lex
lex-eq [] [] h = refl
lex-eq [] (y ∷ ys) h = cc
lex-eq (x ∷ xs) [] h = cc
lex-eq (x ∷ xs) (y ∷ ys) h = ground (arith, lex-eq xs ys)

pub lex-swap : (a b : List ℕ) → lex b a ≡ reversed (lex a b)
unfolding lex
lex-swap [] [] = refl
lex-swap [] (y ∷ ys) = refl
lex-swap (x ∷ xs) [] = refl
lex-swap (x ∷ xs) (y ∷ ys) = ground (arith, lex-swap xs ys)

pub lex_trans : (a b c : List ℕ) → lex a b ≡ lt → lex b c ≡ lt → lex a c ≡ lt
unfolding lex
lex_trans [] [] c h k = cc
lex_trans [] (y ∷ ys) [] h k = cc
lex_trans [] (y ∷ ys) (z ∷ zs) h k = refl
lex_trans (x ∷ xs) [] c h k = cc
lex_trans (x ∷ xs) (y ∷ ys) [] h k = cc
lex_trans (x ∷ xs) (y ∷ ys) (z ∷ zs) h k = ground (arith, lex_trans xs ys zs)

instance unfoldable pub list_ord : Ord (List ℕ)
list_ord = record {
  cmp = lex;
  cmp_refl = lex_refl;
  cmp_eq = lex-eq;
  cmp_swap = lex-swap;
  cmp_trans = lex_trans;
}

ordering_cases : (c : Ordering) → (c ≡ lt) ⊎ ((c ≡ eq) ⊎ (c ≡ gt))
ordering_cases lt = inl refl
ordering_cases eq = inr (inl refl)
ordering_cases gt = inr (inr refl)

module _ {ℓ} {K : Type ℓ} ⦃o : Ord K⦄ where
  infix 50 ◌≺◌ ◌≟◌
  abbrev pub ◌≺◌ : K → K → Type 0
  a ≺ b = o.cmp a b ≡ lt

  -- `a == b`.
  abbrev pub ◌≟◌ : K → K → Bool
  a ≟ b = elim (o.cmp a b) [ eq ↦ true | _ ↦ false ]

  pub cmp-cases : (a b : K) → (o.cmp a b ≡ lt) ⊎ ((o.cmp a b ≡ eq) ⊎ (o.cmp a b ≡ gt))
  cmp-cases a b = ordering_cases (o.cmp a b)

  pub ≺-irrefl : (a : K) → ¬ (a ≺ a)
  ≺-irrefl a h = ground (arith, o.cmp_refl a)

  pub ≟-eq : (a b : K) → (a ≟ b) ≡ true → a ≡ b
  ≟-eq a b h = ground (arith, o.cmp_eq a b)

  pub ≟-refl : (a : K) → (a ≟ a) ≡ true
  ≟-refl a = ground (arith, o.cmp_refl a)

instance unfoldable pub nat_ord : Ord ℕ
nat_ord = record {
  cmp = compare;
  cmp_refl = nat_refl;
  cmp_eq = nat_eq;
  cmp_swap = nat_swap;
  cmp_trans = nat_trans;
}

pub lt→≺ : (a b : ℕ) → a < b → a ≺ b
unfolding nat_ord
lt→≺ a b h = ground arith

pub ≺→lt : (a b : ℕ) → a ≺ b → a < b
unfolding nat_ord
≺→lt a b h = ground arith
