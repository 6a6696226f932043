-- ===== src/Model/Equality.antt =====
-- `==` of version sets, which the program derives: it tells version sets apart.
use happy_active_everywhere.Base.{
  Bool, true, false, ◌&&◌, List, [], ◌∷◌, ◌≡◌, refl, arith, ◌==◌, &&-split, ap,
}
use happy_active_everywhere.Base.Order.{◌≟◌, ≟-eq, ≟-refl, list_ord}
use happy_active_everywhere.Versions.{Clock}
use happy_active_everywhere.Model.{Content, file, directory, deleted, same, Revision, Versions}

unfoldable pub same_clock : Clock → Clock → Bool
same_clock [] [] = true
same_clock [] (y ∷ b) = false
same_clock (x ∷ a) [] = false
same_clock ((d, m) ∷ a) ((e, n) ∷ b) = (d ≟ e) && ((m == n) && same_clock a b)

unfoldable pub same_heads : List Revision → List Revision → Bool
unfolding same_clock
same_heads [] [] = true
same_heads [] (y ∷ b) = false
same_heads (x ∷ a) [] = false
same_heads (x ∷ a) (y ∷ b) =
    same_clock x.clock y.clock && (same x.content y.content && same_heads a b)

unfoldable pub same_versions : Versions → Versions → Bool
unfolding same_heads
same_versions a b = same_heads a.heads b.heads

same_clock-eq : (a b : Clock) → same_clock a b ≡ true → a ≡ b
unfolding same_clock
same_clock-eq [] [] h = refl
same_clock-eq [] (y ∷ b) h = cc
same_clock-eq (x ∷ a) [] h = cc
same_clock-eq ((d, m) ∷ a) ((e, n) ∷ b) h = ground (arith, ≟-eq d e, same_clock-eq a b)

same_clock_refl : (a : Clock) → same_clock a a ≡ true
unfolding same_clock
same_clock_refl [] = refl
same_clock_refl ((d, m) ∷ a) = ground (arith, ≟-refl d, same_clock_refl a)

pub same-eq : (a b : Content) → same a b ≡ true → a ≡ b
same-eq (file a) (file b) h = ap file (≟-eq a b h)
same-eq (file a) directory h = cc
same-eq (file a) deleted h = cc
same-eq directory (file b) h = cc
same-eq directory directory h = refl
same-eq directory deleted h = cc
same-eq deleted (file b) h = cc
same-eq deleted directory h = cc
same-eq deleted deleted h = refl

pub same_refl : (a : Content) → same a a ≡ true
same_refl (file a) = ≟-refl a
same_refl directory = refl
same_refl deleted = refl

same_heads-eq : (a b : List Revision) → same_heads a b ≡ true → a ≡ b
unfolding same_heads
same_heads-eq [] [] h = refl
same_heads-eq [] (y ∷ b) h = cc
same_heads-eq (x ∷ a) [] h = cc
same_heads-eq (x ∷ a) (y ∷ b) h =
    let (p, h1) = &&-split (same_clock x.clock y.clock) _ h in
    let (q, r) = &&-split (same x.content y.content) (same_heads a b) h1 in
    ground
      (arith, same_clock-eq x.clock y.clock p, same-eq x.content y.content q, same_heads-eq a b r)

same_heads_refl : (a : List Revision) → same_heads a a ≡ true
unfolding same_heads
same_heads_refl [] = refl
same_heads_refl (x ∷ a) = rw (same_clock_refl x.clock, same_refl x.content) (same_heads_refl a)

pub same_versions-eq : (a b : Versions) → same_versions a b ≡ true → a ≡ b
unfolding same_versions
same_versions-eq a b h = ground (arith, same_heads-eq a.heads b.heads h)

pub same_versions_refl : (a : Versions) → same_versions a a ≡ true
unfolding same_versions
same_versions_refl a = same_heads_refl a.heads
