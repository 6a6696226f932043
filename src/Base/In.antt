-- ===== src/Base/In.antt =====
-- Membership and bounded quantifiers by recursion, which the tactics take apart.
use mathlib.Core.Path.{◌≡◌, refl, sym, subst}
use mathlib.Core.Logic.{◌⊎◌, inl, inr}
use mathlib.Core.Bool.{Bool, true, false}
use mathlib.Core.List.{List, [], ◌∷◌, ◌++◌, map}
use native.Mathlib.Omega.{arith}
use happy_active_everywhere.Base.Lists.{any, all, select}
use happy_active_everywhere.Base.Tests.{if◌then◌else◌, Bool-cases}

module _ {A : Type 0} where
  abbrev pub In : A → List A → Type 0
  In a [] = ⊥
  In a (x ∷ xs) = (a ≡ x) ⊎ In a xs

  -- Every member has the property.
  abbrev pub All {ℓ} : (A → Type ℓ) → List A → Type ℓ
  All P [] = Unit
  All P (x ∷ xs) = P x × All P xs

  pub All-In {ℓ} : (P : A → Type ℓ) (x : A) (xs : List A) → All P xs → In x xs → P x
  All-In P x [] h i = absurd i
  All-In P x (y ∷ ys) h (inl e) = subst P (sym e) h.0
  All-In P x (y ∷ ys) h (inr i) = All-In P x ys h.1 i

  pub All-intro {ℓ} : (P : A → Type ℓ) (xs : List A) → ((x : A) → In x xs → P x) → All P xs
  All-intro P [] h = tt
  All-intro P (x ∷ xs) h = (h x (inl refl), All-intro P xs (λ y i. h y (inr i)))

  pub In-append-left : (x : A) (xs ys : List A) → In x xs → In x (xs ++ ys)
  In-append-left x [] ys i = absurd i
  In-append-left x (y ∷ xs) ys (inl e) = inl e
  In-append-left x (y ∷ xs) ys (inr i) = inr (In-append-left x xs ys i)

  pub In-append-right : (x : A) (xs ys : List A) → In x ys → In x (xs ++ ys)
  In-append-right x [] ys i = i
  In-append-right x (y ∷ xs) ys i = inr (In-append-right x xs ys i)

  pub In-append-split : (x : A) (xs ys : List A) → In x (xs ++ ys) → In x xs ⊎ In x ys
  In-append-split x [] ys i = inr i
  In-append-split x (y ∷ xs) ys (inl e) = inl (inl e)
  In-append-split x (y ∷ xs) ys (inr i) = elim (In-append-split x xs ys i) [
    | inl j ↦ inl (inr j)
    | inr j ↦ inr j
  ]

  In-select_kept :
      (p : A → Bool) (x y : A) (ys : List A)
      → p y ≡ true
      → (In x (select p ys) → In x ys × (p x ≡ true))
      → In x (y ∷ select p ys)
      → In x (y ∷ ys) × (p x ≡ true)
  In-select_kept p x y ys e rest (inl q) = (inl q, subst (λ z. p z ≡ true) (sym q) e)
  In-select_kept p x y ys e rest (inr j) = let r = rest j in (inr r.0, r.1)

  pub In-select : (p : A → Bool) (x : A) (xs : List A) → In x (select p xs) → In x xs × (p x ≡ true)
  In-select p x [] i = absurd i
  In-select p x (y ∷ ys) i = elim (Bool-cases (p y)) [
    | inl e ↦ In-select_kept p x y ys e (In-select p x ys) (rw e at i)
    | inr e ↦ let r = In-select p x ys (rw e at i) in (inr r.0, r.1)
  ]

  pub select-In : (p : A → Bool) (x : A) (xs : List A) → In x xs → p x ≡ true → In x (select p xs)
  select-In p x [] i h = absurd i
  select-In p x (y ∷ ys) (inl e) h =
      subst (λ (b : Bool). In x (if b then y ∷ select p ys else select p ys))
        (sym (subst (λ z. p z ≡ true) e h)) (inl e)
  select-In p x (y ∷ ys) (inr i) h = elim (Bool-cases (p y)) [
    | inl e ↦
        subst (λ (b : Bool). In x (if b then y ∷ select p ys else select p ys)) (sym e)
          (inr (select-In p x ys i h))
    | inr e ↦
        subst (λ (b : Bool). In x (if b then y ∷ select p ys else select p ys)) (sym e)
          (select-In p x ys i h)
  ]

  -- A Boolean search that fails refutes its test at every member, and one that succeeds has a
  -- member that passes.
  pub any-false : (p : A → Bool) (x : A) (xs : List A) → any p xs ≡ false → In x xs → p x ≡ false
  any-false p x [] h i = absurd i
  any-false p x (y ∷ ys) h (inl e) = subst (λ z. p z ≡ false) (sym e) (ground arith)
  any-false p x (y ∷ ys) h (inr i) = any-false p x ys (ground arith) i

  pub any-true : (p : A → Bool) (xs : List A) → any p xs ≡ true → (x : A) × In x xs × (p x ≡ true)
  any-true p [] h = cc
  any-true p (y ∷ ys) h = elim (Bool-cases (p y)) [
    | inl e ↦ (y, inl refl, e)
    | inr e ↦ let r = any-true p ys (ground arith) in (r.0, inr r.1, r.2)
  ]

  pub any-none : (p : A → Bool) (xs : List A) → ((x : A) → In x xs → p x ≡ false) → any p xs ≡ false
  any-none p [] h = refl
  any-none p (x ∷ xs) h = ground (arith, h x (inl refl), any-none p xs (λ y i. h y (inr i)))

  pub all-In : (p : A → Bool) (x : A) (xs : List A) → all p xs ≡ true → In x xs → p x ≡ true
  all-In p x [] h i = absurd i
  all-In p x (y ∷ ys) h (inl e) = subst (λ z. p z ≡ true) (sym e) (ground arith)
  all-In p x (y ∷ ys) h (inr i) = all-In p x ys (ground arith) i

  pub all-intro : (p : A → Bool) (xs : List A) → ((x : A) → In x xs → p x ≡ true) → all p xs ≡ true
  all-intro p [] h = refl
  all-intro p (x ∷ xs) h = ground (arith, h x (inl refl), all-intro p xs (λ y i. h y (inr i)))

module _ {A B : Type 0} where
  pub In-map : (f : A → B) (x : A) (xs : List A) → In x xs → In (f x) (map f xs)
  In-map f x [] i = absurd i
  In-map f x (y ∷ ys) (inl e) = inl (λ k. f (e k))
  In-map f x (y ∷ ys) (inr i) = inr (In-map f x ys i)

  pub In-map-inv :
      (f : A → B) (y : B) (xs : List A) → In y (map f xs) → (x : A) × In x xs × (y ≡ f x)
  In-map-inv f y [] i = absurd i
  In-map-inv f y (x ∷ xs) (inl e) = (x, inl refl, e)
  In-map-inv f y (x ∷ xs) (inr i) = let r = In-map-inv f y xs i in (r.0, inr r.1, r.2)
