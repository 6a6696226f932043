-- ===== src/Transport/Content.antt =====
-- A part file that has every block has the content, unless two inputs of the hash collide.
use happy_active_everywhere.Base.{true≢false}
use happy_active_everywhere.Base.{
  ℕ, zero, suc, ◌+◌, ◌-◌, ◌*◌, ◌≤◌, ◌<◌, min, true, Option, none, some, ◌++◌, length, take,
  get_elem?, ◌≡◌, refl, arith, ap, ok, ◌∙◌, sym, subst, ◌⊎◌, inl, inr, Bool-cases, le→leb,
}
use happy_active_everywhere.Base.Order.{◌≟◌, ≟-eq, ≟-refl, list_ord}
use happy_active_everywhere.Base.Text.{Text}
use happy_active_everywhere.Storage.{Manifest, block_size, block_len, offset, matches}
use happy_active_everywhere.Storage.FileBytes.{
  Bytes, drop, read_at, take-add, length-drop, length-take,
}
use happy_active_everywhere.Storage.Blocks.{validate-sizes, block_len-bounds}
use happy_active_everywhere.Base.{ok-injective}
use happy_active_everywhere.Storage.Reading.{block_at}
use happy_active_everywhere.Storage.Puts.{IsStored}
use happy_active_everywhere.Transport.Sending.{Describes}

read_at-checks :
    (o n : ℕ) (file : Bytes) {found : Bytes}
    → read_at o n file ≡ some found
    → (n ≤ length (drop o file)) × (found ≡ take n (drop o file))
unfolding read_at
read_at-checks o n file h = ground arith

glue :
    (a n : ℕ) (xs ys : Bytes)
    → take a xs ≡ take a ys
    → take n (drop a xs) ≡ take n (drop a ys)
    → take (a + n) xs ≡ take (a + n) ys
glue a n xs ys p q =
    sym (take-add a n xs)
    ∙ ap (λ t. t ++ take n (drop a xs)) p
    ∙ ap (λ t. take a ys ++ t) q
    ∙ take-add a n ys

agree_at :
    (m : Manifest) (k at : ℕ) (source part : Bytes)
    → min (k * block_size) m.size ≡ at
    → take at part ≡ take at source
    → take (min (k * block_size) m.size) part ≡ take (min (k * block_size) m.size) source
agree_at m k at source part e h = subst (λ (x : ℕ). take x part ≡ take x source) (sym e) h

agree_before :
    (m : Manifest) (k : ℕ) (source part : Bytes)
    → k * block_size ≤ m.size
    → take (min (k * block_size) m.size) part ≡ take (min (k * block_size) m.size) source
    → take (k * block_size) part ≡ take (k * block_size) source
agree_before m k source part l h =
    subst (λ (x : ℕ). take x part ≡ take x source)
      (let e : min (k * block_size) m.size ≡ k * block_size = omega arith in e) h

same_length :
    (n : ℕ) (xs ys : Bytes)
    → n ≤ length xs
    → n ≤ length ys
    → length (take n xs) ≡ length (take n ys)
same_length n xs ys p q = omega (arith, length-take n xs, length-take n ys)

module _ (hash : Bytes → Text) where
  -- A block of the manifest at which the part file has other bytes than the source, of the same length and
  -- with the same hash.
  abbrev pub HasCollision : Manifest → Bytes → Bytes → Type 0
  HasCollision m source part =
      (i : ℕ) × (i < length m.blocks)
      × (length (block_at m.size i part) ≡ length (block_at m.size i source))
      × (hash (block_at m.size i part) ≡ hash (block_at m.size i source))
      × ¬ (block_at m.size i part ≡ block_at m.size i source)

  matches-checks :
      (m : Manifest) (i : ℕ) (found : Option Bytes) (expected : Text)
      → matches hash m i found ≡ true
      → get_elem? m.blocks i ≡ some expected
      → (x : Bytes) × (found ≡ some x) × (hash x ≡ expected)
  unfolding matches
  matches-checks m i none expected h g = absurd (true≢false (sym h))
  matches-checks m i (some x) expected h g =
      (x, refl, ≟-eq (hash x) expected (rw (matches, g) at h))

  same_block :
      (m : Manifest) (source part : Bytes) (i n : ℕ)
      → Describes hash m source
      → i < length m.blocks
      → block_len m i ≡ ok n
      → IsStored hash m i part
      → ((n ≤ length (drop (i * block_size) part))
          × (take n (drop (i * block_size) part) ≡ take n (drop (i * block_size) source)))
        ⊎ HasCollision m source part
  unfolding IsStored
  same_block m source part i n (v, enough, each) l e (k, f, t) =
      let (n', e', o, _, _, q, ends) = block_len-bounds m i v l in
      let nn : n ≡ n' = ok-injective (sym e ∙ e') in
      let nk : k ≡ n = ok-injective (sym f ∙ e) in
      let (x, found, h) =
        matches-checks m i (read_at (offset i) k part) (hash (block_at m.size i source)) t
          (each i l) in
      let (le, at) = read_at-checks (i * block_size) n part (
        subst (λ (a : ℕ). read_at a n part ≡ some x) o
          (subst (λ (a : ℕ). read_at (offset i) a part ≡ some x) nk found)) in
      let here : x ≡ block_at m.size i part =
        at ∙ ap (λ (a : ℕ). take a (drop (i * block_size) part)) (nn ∙ q) in
      elim (Bool-cases (x ≟ block_at m.size i source)) [
        | inl same ↦ inl (
          le,
          sym at
              ∙ ≟-eq x (block_at m.size i source) same
              ∙ ap (λ (a : ℕ). take a (drop (i * block_size) source)) (sym (nn ∙ q)),
        )
        | inr other ↦ inr (
          i,
          l,
          same_length (min (m.size - i * block_size) block_size) (drop (i * block_size) part)
              (drop (i * block_size) source) (omega arith)
              (omega (arith, length-drop (i * block_size) source)),
          ap hash (sym here) ∙ h,
          λ same. true≢false (sym (rw (here ∙ same) (≟-refl (block_at m.size i source))) ∙ other),
        )
      ]

  -- The first `k` blocks of the part file are those of the source.
  same_start :
      (m : Manifest) (source part : Bytes) (k : ℕ)
      → Describes hash m source
      → ((j : ℕ) → j < length m.blocks → IsStored hash m j part)
      → k ≤ length m.blocks
      → ((min (k * block_size) m.size ≤ length part)
          × (take (min (k * block_size) m.size) part ≡ take (min (k * block_size) m.size) source))
        ⊎ HasCollision m source part
  same_start m source part zero d stored l =
      inl (omega arith, agree_at m 0 0 source part (omega arith) refl)
  same_start m source part (suc k) d stored l =
      let (_, few) = validate-sizes m d.0 in
      let (n, e, _, _, _, q, _) = block_len-bounds m k d.0 (omega arith) in
      elim (same_start m source part k d stored (omega arith)) [
        | inr c ↦ inr c
        | inl (a, s) ↦
            elim (same_block m source part k n d (omega arith) e (stored k (omega arith))) [
              | inr c ↦ inr c
              | inl (b, t) ↦ inl (
                omega (arith, length-drop (k * block_size) part),
                agree_at m (suc k) (k * block_size + n) source part (omega arith) (
                    glue (k * block_size) n part source
                      (agree_before m k source part (omega arith) s) t),
              )
            ]
      ]

  -- A part file that has every block has the content of the source, or there is a collision.
  pub stored-content :
      (m : Manifest) (source part : Bytes)
      → Describes hash m source
      → ((j : ℕ) → j < length m.blocks → IsStored hash m j part)
      → (read_at 0 m.size part ≡ some (take m.size source)) ⊎ HasCollision m source part
  unfolding read_at
  stored-content m source part d stored =
      let (_, few) = validate-sizes m d.0 in
      let whole : min (length m.blocks * block_size) m.size ≡ m.size = omega arith in
      elim (same_start m source part (length m.blocks) d stored (omega arith)) [
        | inr c ↦ inr c
        | inl (a, s) ↦ inl (
            rw (le→leb m.size (length part) (omega arith))
              (ap some (subst (λ (x : ℕ). take x part ≡ take x source) whole s)))
      ]
