-- ===== src/Versions/Merge.antt =====
-- `merge`: the least upper bound of two clocks in the causal order.
use happy_active_everywhere.Base.{◌↔◌}
use happy_active_everywhere.Base.{
  ℕ, max, none, some, ◌∷◌, [], ◌≡◌, arith, if◌then◌else◌, Option, ◌∙◌,
}
use happy_active_everywhere.Base.Order.{◌≟◌, list_ord, ≟-eq}
use happy_active_everywhere.Base.Text.{Text}
use happy_active_everywhere.Base.BTreeMap
use happy_active_everywhere.Base.BTreeMap.{
  get, IsSorted, get-insert, insert-IsSorted, get-Above, Above,
}
use happy_active_everywhere.Versions.{Clock, count, merge, raise}
use happy_active_everywhere.Versions.Causality.{Le}

abbrev max_of : Option ℕ → Option ℕ → Option ℕ
max_of none o = o
max_of (some a) none = some a
max_of (some a) (some b) = some (max a b)

get-raise :
    (d e : Text) (n : ℕ) (c : Clock)
    → get e (raise d n c) ≡ (if e ≟ d then max_of (get e c) (some n) else get e c)
unfolding raise count
get-raise d e n c = rw (get-insert d e (max (count d c) n) c) (ground (arith, ≟-eq e d))

-- The entry of a device in a merged clock is the larger of its entries, or its only one.
pub get-merge :
    (d : Text) (a b : Clock) → IsSorted b → get d (merge a b) ≡ max_of (get d a) (get d b)
unfolding merge get
get-merge d a [] s = ground arith
get-merge d a ((e, n) ∷ b) s =
    get-merge d (raise e n a) b s.1
    ∙ rw (get-raise e d n a) (ground (arith, ≟-eq d e, get-Above e b s.0))

pub count-merge :
    (d : Text) (a b : Clock) → IsSorted b → count d (merge a b) ≡ max (count d a) (count d b)
unfolding count
count-merge d a b s = rw (count, get-merge d a b s) (ground arith)

pub merge-IsSorted : (a b : Clock) → IsSorted a → IsSorted (merge a b)
unfolding merge raise count
merge-IsSorted a [] s = s
merge-IsSorted a ((d, n) ∷ b) s = merge-IsSorted (raise d n a) b (insert-IsSorted d _ a s)

-- The merge of two clocks is their least upper bound: a clock has seen what the merge has exactly
-- when it has seen what both have. The second clock is in key order.
pub merge_lub : (a b c : Clock) → IsSorted b → Le (merge a b) c ↔ (Le a c × Le b c)
merge_lub a b c s = (
  λ h. (λ d. omega (arith, count-merge d a b s, h d), λ d. omega (arith, count-merge d a b s, h d)),
  λ (p, q) d. omega (arith, count-merge d a b s, p d, q d),
)

-- Merging clocks in key order gives the same clock in any order and grouping, and twice.
pub merge_laws :
    (a b c : Clock)
    → IsSorted a
    → IsSorted b
    → IsSorted c
    → (merge a b ≡ merge b a) × (merge (merge a b) c ≡ merge a (merge b c)) × (merge a a ≡ a)
merge_laws a b c s t u = (
  BTreeMap.ext _ _ (merge-IsSorted a b s) (merge-IsSorted b a t)
      (λ d. rw (get-merge d a b t, get-merge d b a s) (ground arith)),
  BTreeMap.ext _ _ (merge-IsSorted (merge a b) c (merge-IsSorted a b s))
      (merge-IsSorted a (merge b c) s)
      (λ d.
        rw
          (
            get-merge d (merge a b) c u,
            get-merge d a b t,
            get-merge d a (merge b c) (merge-IsSorted b c t),
            get-merge d b c u,
          )
          (ground arith)),
  BTreeMap.ext _ _ (merge-IsSorted a a s) s (λ d. rw (get-merge d a a s) (ground arith)),
)
