-- ===== src/Storage/Puts.antt =====
-- `Receiver::put`: a block that is put is stored, and the blocks that were stored stay so.
use happy_active_everywhere.Base.{◌↔◌}
use happy_active_everywhere.Base.{
  ℕ, ◌+◌, ◌≤◌, ◌<◌, true, false, Option, none, some, ltb, ◌==◌, length, ◌≡◌, refl, arith, ap, subst,
  ok, ◌∙◌, sym, ◌⊎◌, inl, inr, ==_iff, ltb→lt, Bool-cases, Result-cases, err≢ok, true≢false,
}
use happy_active_everywhere.Base.Text.{Text}
use happy_active_everywhere.Storage.{Manifest, block_len, validate, offset, Receiver, matches, put}
use happy_active_everywhere.Storage.FileBytes.{
  Bytes, read_at, write_at, read_at-write_at, read_at-write_at_disjoint,
}
use happy_active_everywhere.Storage.Blocks.{block_len-bounds}
use happy_active_everywhere.Base.{ok-injective}

-- An index that has a length is in range.
pub block_len_in_range : (m : Manifest) (i : ℕ) {n : ℕ} → block_len m i ≡ ok n → i < length m.blocks
unfolding block_len
block_len_in_range m i e = ground arith

ltb_lt : (i j : ℕ) → ¬ (i ≡ j) → ltb i j ≡ false → j < i
ltb_lt i j d l = ground arith

differ : (i j : ℕ) → (i == j) ≡ false → ¬ (i ≡ j)
differ i j e same = ground arith

either_side :
    (n k i j l : ℕ)
    → l ≡ n
    → (offset i + n ≤ offset j) ⊎ (offset j + k ≤ offset i)
    → (offset j + k ≤ offset i) ⊎ (offset i + l ≤ offset j)
either_side n k i j l e (inl h) = inr (omega arith)
either_side n k i j l e (inr h) = inl h

-- Two different blocks of a valid manifest do not overlap.
pub blocks_apart :
    (m : Manifest) (i j : ℕ) {n k : ℕ}
    → validate m ≡ ok tt
    → ¬ (i ≡ j)
    → block_len m i ≡ ok n
    → block_len m j ≡ ok k
    → (offset i + n ≤ offset j) ⊎ (offset j + k ≤ offset i)
blocks_apart m i j {n} {k} v d e f =
    let (n', e', oi, _, ni, _, _) = block_len-bounds m i v (block_len_in_range m i e) in
    let (k', f', oj, _, kj, _, _) = block_len-bounds m j v (block_len_in_range m j f) in
    let en : n ≡ n' = ok-injective (sym e ∙ e') in
    let fk : k ≡ k' = ok-injective (sym f ∙ f') in
    elim (Bool-cases (ltb i j)) [
      | inl l ↦ inl (omega (arith, ltb→lt i j l))
      | inr l ↦ inr (omega (arith, ltb_lt i j d l))
    ]

module _ (hash : Bytes → Text) where
  -- The part file has block `i`, with the hash that the manifest asks for.
  unfoldable pub IsStored : Manifest → ℕ → Bytes → Type 0
  IsStored m i part =
      (n : ℕ) × (block_len m i ≡ ok n) × (matches hash m i (read_at (offset i) n part) ≡ true)

  pub not-IsStored :
      (m : Manifest) (i n : ℕ) (part : Bytes)
      → block_len m i ≡ ok n
      → matches hash m i (read_at (offset i) n part) ≡ false
      → ¬ IsStored m i part
  unfolding IsStored
  not-IsStored m i n part e fails (k, f, holds) =
      let same : n ≡ k = ok-injective (sym e ∙ f) in true≢false (sym (rw same holds) ∙ fails)

  pub put-checks :
      (r : Receiver) (i : ℕ) (bytes : Bytes) {r' : Receiver}
      → put hash r i bytes ≡ ok r'
      → (r.finished ≡ false)
        × (n : ℕ) × (block_len r.manifest i ≡ ok n)
        × (length bytes ≡ n)
        × (matches hash r.manifest i (some bytes) ≡ true)
        × (r' ≡ record r { part = write_at (offset i) bytes r.part })
  unfolding put
  put-checks r i bytes {r'} h = ground arith

  -- A block that `put` takes is stored, the manifest stays, and so does the receiver's state.
  pub put-IsStored :
      (r : Receiver) (i : ℕ) (bytes : Bytes) {r' : Receiver}
      → put hash r i bytes ≡ ok r'
      → IsStored r.manifest i r'.part
  unfolding IsStored
  put-IsStored r i bytes {r'} h =
      let (_, n, e, l, q, eq) = put-checks r i bytes h in
      (
        n,
        e,
        subst (λ (part : Bytes). matches hash r.manifest i (read_at (offset i) n part) ≡ true)
            (sym (ap (λ (x : Receiver). x.part) eq))
            (rw (sym l, read_at-write_at (offset i) bytes r.part) q),
      )

  matches-some :
      (m : Manifest) (i : ℕ) (found : Option Bytes)
      → matches hash m i found ≡ true
      → (bytes : Bytes) × (found ≡ some bytes)
  unfolding matches
  matches-some m i none h = absurd cc
  matches-some m i (some bytes) h = (bytes, refl)

  pub put_keeps :
      (r : Receiver) (i j : ℕ) (bytes : Bytes) {r' : Receiver}
      → validate r.manifest ≡ ok tt
      → put hash r i bytes ≡ ok r'
      → IsStored r.manifest j r.part
      → IsStored r.manifest j r'.part
  unfolding IsStored
  put_keeps r i j bytes {r'} v h (k, f, s) = elim (Bool-cases (i == j)) [
    | inl same ↦
        subst (λ (x : ℕ). IsStored r.manifest x r'.part) ((==_iff i j).0 same)
          (put-IsStored r i bytes h)
    | inr other ↦
        let (_, n, e, l, q, eq) = put-checks r i bytes h in
        let (found, w) = matches-some r.manifest j (read_at (offset j) k r.part) s in
        let apart = blocks_apart r.manifest i j v (differ i j other) e f in
        let kept =
          read_at-write_at_disjoint (offset j) k (offset i) bytes r.part
            (either_side n k i j (length bytes) l apart) w in
        (
          k,
          f,
          subst (λ (part : Bytes). matches hash r.manifest j (read_at (offset j) k part) ≡ true)
              (sym (ap (λ (x : Receiver). x.part) eq)) (rw kept (rw (sym w) s)),
        )
  ]

  pub put-eq :
      (r : Receiver) (i n : ℕ) (bytes : Bytes)
      → r.finished ≡ false
      → block_len r.manifest i ≡ ok n
      → length bytes ≡ n
      → matches hash r.manifest i (some bytes) ≡ true
      → put hash r i bytes ≡ ok (record r { part = write_at (offset i) bytes r.part })
  unfolding put
  put-eq r i n bytes f e l q = rw (f, e, (==_iff (length bytes) n).1 l, q)

  stays :
      (r : Receiver) (i j : ℕ) (bytes : Bytes) {r' : Receiver}
      → validate r.manifest ≡ ok tt
      → put hash r i bytes ≡ ok r'
      → (¬ IsStored r.manifest j r.part) ⊎ IsStored r.manifest j r'.part
  unfolding IsStored
  stays r i j bytes v h = elim (Result-cases (block_len r.manifest j)) [
    | inr (_, wrong) ↦ inl (λ (_, e, _). err≢ok (sym wrong ∙ e))
    | inl (n, e) ↦ elim (Bool-cases (matches hash r.manifest j (read_at (offset j) n r.part))) [
      | inl there ↦ inr (put_keeps r i j bytes v h (n, e, there))
      | inr gone ↦ inl (not-IsStored r.manifest j n r.part e gone)
    ]
  ]

  -- Where `put` takes a block of a receiver with a valid manifest, whatever the part file has: the block's
  -- bytes are read back at its place, that block is then stored, each block was not stored before or is
  -- stored still, and neither the manifest nor the state changes.
  pub put-stores :
      (r : Receiver) (i j : ℕ) (bytes : Bytes) {r' : Receiver}
      → validate r.manifest ≡ ok tt
      → put hash r i bytes ≡ ok r'
      → (read_at (offset i) (length bytes) r'.part ≡ some bytes)
        × IsStored r.manifest i r'.part
        × ((¬ IsStored r.manifest j r.part) ⊎ IsStored r.manifest j r'.part)
        × (r'.manifest ≡ r.manifest)
        × (r'.finished ≡ r.finished)
  put-stores r i j bytes v h =
      let (_, _, _, _, _, eq) = put-checks r i bytes h in
      (
        subst (λ (part : Bytes). read_at (offset i) (length bytes) part ≡ some bytes)
            (sym (ap (λ (x : Receiver). x.part) eq)) (read_at-write_at (offset i) bytes r.part),
        put-IsStored r i bytes h,
        stays r i j bytes v h,
        ap (λ (x : Receiver). x.manifest) eq,
        ap (λ (x : Receiver). x.finished) eq,
      )

  -- `put` takes a block exactly when the receiver is not complete, the index is in range, the bytes have
  -- the block's length and they have the hash that the manifest asks for.
  pub put-accepts :
      (r : Receiver) (i : ℕ) (bytes : Bytes)
      → ((r' : Receiver) × (put hash r i bytes ≡ ok r')) ↔ (
          (r.finished ≡ false)
          × (block_len r.manifest i ≡ ok (length bytes))
          × (matches hash r.manifest i (some bytes) ≡ true))
  put-accepts r i bytes = (
    (λ (r', h). let (f, n, e, l, m, _) = put-checks r i bytes h in (f, e ∙ ap ok (sym l), m)),
    (λ (f, e, m). (
      record r { part = write_at (offset i) bytes r.part },
      put-eq r i (length bytes) bytes f e refl m,
    )),
  )
