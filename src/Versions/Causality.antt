-- ===== src/Versions/Causality.antt =====
-- `relation` decides the causal order of two clocks: the order of their counters, device by device.
use happy_active_everywhere.Base.{◌⊎◌, inl, inr, refl}
use happy_active_everywhere.Base.{
  ℕ, ◌≤◌, ◌<◌, Bool, true, false, ◌||◌, some, List, [], ◌∷◌, ◌++◌, ltb, ◌≡◌, ◌↔◌, ◌≢◌, inl, inr,
  arith, any, Option-cases, ok, all,
}
use happy_active_everywhere.Base.In.{
  In, In-append-left, In-append-right, any-false, any-none, all-In,
}
use happy_active_everywhere.Base.Order.{list_ord, ≟-eq}
use happy_active_everywhere.Base.Text.{Text}
use happy_active_everywhere.Base.BTreeMap
use happy_active_everywhere.Base.BTreeMap.{keys, get, IsSorted, In-of-get, get-of-In}
use happy_active_everywhere.Versions.{
  Clock, Relation, before, after, equal, concurrent, count, relation, relation_flags, of_flags,
  validate, valid_entry,
}

-- `a` has seen no more than `b`.
abbrev pub Le : Clock → Clock → Type 0
Le a b = (device : Text) → count device a ≤ count device b

pub Le_refl : (a : Clock) → Le a a
Le_refl a d = omega arith

pub Le_trans : (a b c : Clock) → Le a b → Le b c → Le a c
Le_trans a b c h k d = omega (arith, h d, k d)

exceeds : Clock → Clock → Text → Bool
exceeds a b d = ltb (count d a) (count d b)

In-keys-of-get : (d : Text) (n : ℕ) (c : Clock) → get d c ≡ some n → In d (keys c)
unfolding get
In-keys-of-get d n [] h = cc
In-keys-of-get d n ((e, k) ∷ c) h = ground (arith, ≟-eq d e, In-keys-of-get d n c)

relation_flags_lem :
    (ds : List Text) (a b : Clock) (less greater : Bool)
    → relation_flags ds a b less greater
      ≡ (less || any (exceeds a b) ds, greater || any (exceeds b a) ds)
unfolding relation_flags exceeds
relation_flags_lem [] a b less greater = ground arith
relation_flags_lem (d ∷ ds) a b less greater = ground (
  arith,
  relation_flags_lem ds a b (less || ltb (count d a) (count d b))
      (greater || ltb (count d b) (count d a)),
)

-- No listed device exceeds, and every counted device is listed: the clocks are ordered.
any-exceeds-Le :
    (ds : List Text) (a b : Clock)
    → ((d : Text) → In d (keys b) → In d ds)
    → any (exceeds a b) ds ≡ false
    → Le b a
unfolding exceeds count
any-exceeds-Le ds a b listed h d = elim (Option-cases (get d b)) [
  | inl e ↦ ground arith
  | inr (n, e) ↦ ground (arith, any-false (exceeds a b) d ds h (listed d (In-keys-of-get d n b e)))
]

Le-any-exceeds : (ds : List Text) (a b : Clock) → Le b a → any (exceeds a b) ds ≡ false
unfolding exceeds
Le-any-exceeds ds a b h = any-none (exceeds a b) ds (λ d i. ground (arith, h d))

-- The two flags of a relation, read as the two directions of the order.
split_flags :
    {P Q : Type 0} (less greater : Bool)
    → (less ≡ false) ↔ Q
    → (greater ≡ false) ↔ P
    → let r = of_flags (less, greater) in
      ((r ≡ before) ↔ (P × (¬ Q)))
      × ((r ≡ after) ↔ (Q × (¬ P)))
      × ((r ≡ equal) ↔ (P × Q))
      × ((r ≡ concurrent) ↔ ((¬ P) × (¬ Q)))
split_flags true true q p = grind arith
split_flags true false q p = grind arith
split_flags false true q p = grind arith
split_flags false false q p = grind arith

less-Le : (a b : Clock) → (any (exceeds a b) (keys a ++ keys b) ≡ false) ↔ Le b a
less-Le a b = (
  any-exceeds-Le (keys a ++ keys b) a b (λ d i. In-append-right d (keys a) (keys b) i),
  Le-any-exceeds (keys a ++ keys b) a b,
)

greater-Le : (a b : Clock) → (any (exceeds b a) (keys a ++ keys b) ≡ false) ↔ Le a b
greater-Le a b = (
  any-exceeds-Le (keys a ++ keys b) b a (λ d i. In-append-left d (keys a) (keys b) i),
  Le-any-exceeds (keys a ++ keys b) b a,
)

-- Each outcome of `relation` is taken exactly when the counters stand so: before when no counter
-- of the first clock is larger and some counter of the second is, after when the reverse holds,
-- equal when all counters agree, concurrent when each clock has a larger counter than the other.
pub relation-Le :
    (a b : Clock)
    → ((relation a b ≡ before) ↔ (Le a b × (¬ Le b a)))
      × ((relation a b ≡ after) ↔ (Le b a × (¬ Le a b)))
      × ((relation a b ≡ equal) ↔ (Le a b × Le b a))
      × ((relation a b ≡ concurrent) ↔ ((¬ Le a b) × (¬ Le b a)))
unfolding relation
relation-Le a b = rw (relation_flags_lem (keys a ++ keys b) a b false false) (
    split_flags (any (exceeds a b) (keys a ++ keys b)) (any (exceeds b a) (keys a ++ keys b))
      (less-Le a b) (greater-Le a b))

pub before_trans :
    (a b c : Clock) → relation a b ≡ before → relation b c ≡ before → relation a c ≡ before
before_trans a b c h k =
    let p = (relation-Le a b).0.0 h in
    let q = (relation-Le b c).0.0 k in
    (relation-Le a c).0.1 (Le_trans a b c p.0 q.0, λ r. p.1 (Le_trans b c a q.0 r))

pub before_irrefl : (a : Clock) → relation a a ≢ before
before_irrefl a h = ((relation-Le a a).0.0 h).1 (Le_refl a)

-- Clocks that pass `validate` have no zero counter, so equal counters make equal clocks.
positive : (c : Clock) → all valid_entry c ≡ true → (d : Text) (n : ℕ) → In (d, n) c → 0 < n
unfolding valid_entry
positive c h d n i = let e = all-In valid_entry (d, n) c h i in ground arith

get-of-count :
    (a b : Clock)
    → all valid_entry a ≡ true
    → all valid_entry b ≡ true
    → (d : Text) → count d a ≡ count d b
    → get d a ≡ get d b
unfolding count
get-of-count a b va vb d h = elim (Option-cases (get d a)) [
  | inl e ↦ elim (Option-cases (get d b)) [
    | inl f ↦ cc
    | inr (n, f) ↦ ground (arith, positive b vb d n (In-of-get d n b f))
  ]
  | inr (n, e) ↦ elim (Option-cases (get d b)) [
    | inl f ↦ ground (arith, positive a va d n (In-of-get d n a e))
    | inr (m, f) ↦ ground arith
  ]
]

pub entries_valid : (c : Clock) → validate c ≡ ok tt → all valid_entry c ≡ true
unfolding validate
entries_valid c h = ground arith

-- Two clocks that pass `validate`, each in key order, and relate as equal are the same clock.
pub relation-equal :
    (a b : Clock)
    → IsSorted a
    → IsSorted b
    → validate a ≡ ok tt
    → validate b ≡ ok tt
    → relation a b ≡ equal
    → a ≡ b
relation-equal a b s t va vb h =
    let (p, q) = (relation-Le a b).2.0 h in
    BTreeMap.ext a b s t
      (λ d. get-of-count a b (entries_valid a va) (entries_valid b vb) d (omega (arith, p d, q d)))

Relation-cases : (r : Relation) → (r ≡ before) ⊎ ((r ≡ after) ⊎ ((r ≡ equal) ⊎ (r ≡ concurrent)))
Relation-cases before = inl refl
Relation-cases after = inr (inl refl)
Relation-cases equal = inr (inr (inl refl))
Relation-cases concurrent = inr (inr (inr refl))

-- The relation seen from the other side.
abbrev pub converse : Relation → Relation
converse before = after
converse after = before
converse equal = equal
converse concurrent = concurrent

pub relation-converse : (a b : Clock) → relation b a ≡ converse (relation a b)
relation-converse a b = elim (Relation-cases (relation a b)) [
  | inl e ↦ rw e ((relation-Le b a).1.1 ((relation-Le a b).0.0 e))
  | inr (inl e) ↦ rw e ((relation-Le b a).0.1 ((relation-Le a b).1.0 e))
  | inr (inr (inl e)) ↦ let (p, q) = (relation-Le a b).2.0 e in rw e ((relation-Le b a).2.1 (q, p))
  | inr (inr (inr e)) ↦ let (p, q) = (relation-Le a b).3.0 e in rw e ((relation-Le b a).3.1 (q, p))
]
