-- ===== src/Model/Maximal.antt =====
-- Every revision has a newest one above it: nothing that a join was given is lost.
use happy_active_everywhere.Base.{
  ℕ, suc, zero, ◌≤◌, ◌<◌, Bool, true, false, List, [], ◌∷◌, ◌++◌, ◌≡◌, ◌≢◌, refl, ap, ◌⊎◌, inl, inr,
  arith, Bool-cases, ok, any, select, length,
}
use happy_active_everywhere.Base.In.{In, All-intro, any-false, any-true}
use happy_active_everywhere.Versions.{before, relation}
use happy_active_everywhere.Versions.Causality.{before_trans, before_irrefl}
use happy_active_everywhere.Model.{Revision, Versions, Codec, join, is_before}
use happy_active_everywhere.Model.Join.{Distinct, NoneAfter, join-In}

pub newer : Revision → Revision → Bool
newer x y = is_before (relation x.clock y.clock)

pub newer-before : (x y : Revision) → newer x y ≡ true → relation x.clock y.clock ≡ before
unfolding newer
newer-before x y h = ground arith

pub before-newer : (x y : Revision) → relation x.clock y.clock ≡ before → newer x y ≡ true
unfolding newer
before-newer x y h = rw h

-- A test that implies another, and fails where the other passes, selects fewer.
length-select-le :
    {A : Type 0} (p q : A → Bool) (l : List A)
    → ((z : A) → p z ≡ true → q z ≡ true)
    → length (select p l) ≤ length (select q l)
length-select-le p q [] h = omega arith
length-select-le p q (x ∷ l) h = ground (arith, h x, length-select-le p q l h)

length-select-lt :
    {A : Type 0} (p q : A → Bool) (y : A) (l : List A)
    → ((z : A) → p z ≡ true → q z ≡ true)
    → In y l
    → p y ≡ false
    → q y ≡ true
    → length (select p l) < length (select q l)
length-select-lt p q y [] h i u v = absurd i
length-select-lt p q y (x ∷ l) h (inl e) u v =
    ground (arith, ap p e, ap q e, length-select-le p q l h)
length-select-lt p q y (x ∷ l) h (inr i) u v = ground (arith, h x, length-select-lt p q y l h i u v)

newer_trans : (x y z : Revision) → newer x y ≡ true → newer y z ≡ true → newer x z ≡ true
newer_trans x y z h k =
    before-newer x z
      (before_trans x.clock y.clock z.clock (newer-before x y h) (newer-before y z k))

newer_irrefl : (x : Revision) → newer x x ≡ false
newer_irrefl x = elim (Bool-cases (newer x x)) [
  | inl e ↦ absurd (before_irrefl x.clock (newer-before x x e))
  | inr e ↦ e
]

-- At the revision itself, or above one that is newer.
abbrev AtOrAbove : Revision → Revision → Type 0
AtOrAbove x y = (x ≡ y) ⊎ (relation x.clock y.clock ≡ before)

AtOrAbove-newer : (x y z : Revision) → newer x y ≡ true → AtOrAbove y z → AtOrAbove x z
AtOrAbove-newer x y z h (inl e) = inr (rw e at (newer-before x y h))
AtOrAbove-newer x y z h (inr k) = inr (before_trans x.clock y.clock z.clock (newer-before x y h) k)

NoneAfter-none : (l : List Revision) (x : Revision) → any (newer x) l ≡ false → NoneAfter x l
NoneAfter-none l x h =
    All-intro (λ (y : Revision). relation x.clock y.clock ≢ before) l
      (λ y i e. let f = any-false (newer x) y l h i in let g = before-newer x y e in cc)

-- Going up ends: each step leaves fewer revisions above.
newest_above :
    (n : ℕ) (l : List Revision) (x : Revision)
    → In x l
    → length (select (newer x) l) < n
    → (y : Revision) × In y l × AtOrAbove x y × NoneAfter y l
newest_above zero l x i h = absurd (omega arith)
newest_above (suc n) l x i h = elim (Bool-cases (any (newer x) l)) [
  | inl e ↦
      let (y, j, up) = any-true (newer x) l e in
      let fewer =
        length-select-lt (newer y) (newer x) y l (λ z. newer_trans x y z up) j (newer_irrefl y)
          up in
      let (z, k, above, top) = newest_above n l y j (omega arith) in
      (z, k, AtOrAbove-newer x y z up above, top)
  | inr e ↦ (x, i, inl refl, NoneAfter-none l x e)
]

module _ (codec : Codec) where
  -- Nothing is lost: each revision that a join was given is a head of the result, or is older than
  -- some head of the result. The hash tells the revisions apart.
  pub join_covers :
      (a b : Versions) {r : Versions} (x : Revision)
      → join codec a b ≡ ok r
      → Distinct codec (a.heads ++ b.heads)
      → In x (a.heads ++ b.heads)
      → (y : Revision) × In y r.heads × ((x ≡ y) ⊎ (relation x.clock y.clock ≡ before))
  join_covers a b x h d i =
      let (y, j, above, top) =
        newest_above (suc (length (select (newer x) (a.heads ++ b.heads)))) (a.heads ++ b.heads) x i
          (omega arith) in
      (y, (join-In codec a b y h d).1 (j, top), above)
