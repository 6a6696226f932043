-- ===== src/Storage/Reading.antt =====
-- The loop of `from_file`: the hashes of a file's blocks.
use mathlib.Core.List.{append_assoc, append-nil}
use happy_active_everywhere.Base.{>>=-eq-ok, ◌>>=◌}
use happy_active_everywhere.Base.{
  ℕ, zero, suc, ◌-◌, ◌*◌, ◌≤◌, ◌<◌, min, some, List, [], ◌∷◌, ◌++◌, length, take, get_elem?, ◌≡◌,
  refl, arith, ap, Result, ok, ◌∙◌, le→leb, lt→ltb, sym,
}
use happy_active_everywhere.Base.Text.{Text}
use happy_active_everywhere.Storage.{block_size, div_ceil, read_blocks, read_exact}
use happy_active_everywhere.Storage.FileBytes.{Bytes, drop, length-drop, drop-drop, take-add}

-- The bytes of block `i` of a file of `n` bytes.
abbrev pub block_at : ℕ → ℕ → Bytes → Bytes
block_at n i bytes = take (min (n - i * block_size) block_size) (drop (i * block_size) bytes)

pub read_exact-eq :
    (n : ℕ) (bytes : Bytes)
    → n ≤ length bytes
    → read_exact n bytes ≡ ok (take n bytes, drop n bytes)
unfolding read_exact
read_exact-eq n bytes h = rw (le→leb n (length bytes) h)

module _ (hash : Bytes → Text) where
  -- The hashes of the blocks of a file of `n` bytes, in order.
  abbrev pub AreHashes : List Text → ℕ → Bytes → Type 0
  AreHashes blocks n bytes =
      (i : ℕ) → i < div_ceil n block_size → get_elem? blocks i ≡ some (hash (block_at n i bytes))

  AreHashes-cons :
      (blocks : List Text) (n : ℕ) (bytes : Bytes)
      → 0 < n
      → AreHashes blocks (n - min n block_size) (drop (min n block_size) bytes)
      → AreHashes (hash (take (min n block_size) bytes) ∷ blocks) n bytes
  AreHashes-cons blocks n bytes p h zero l =
      ap (λ (k : ℕ). some (hash (take k bytes))) (omega arith)
  AreHashes-cons blocks n bytes p h (suc i) l =
      let c = min n block_size in
      h i (omega arith)
      ∙ ap (λ t. some (hash (take (min (n - c - i * block_size) block_size) t)))
          (drop-drop (i * block_size) c bytes ∙ ap (λ k. drop k bytes) (omega arith))
      ∙ ap (λ k. some (hash (take k (drop (suc i * block_size) bytes)))) (omega arith)

  read_blocks-step :
      (fuel n : ℕ) (bytes full : Bytes) (blocks : List Text)
      → 0 < n
      → n ≤ length bytes
      → let c = min n block_size in
        read_blocks hash fuel (n - c) (drop c bytes) (full ++ take c bytes)
          ≡ ok (blocks, (full ++ take c bytes) ++ take (n - c) (drop c bytes))
        → read_blocks hash (suc fuel) n bytes full
          ≡ ok (hash (take (min n block_size) bytes) ∷ blocks, full ++ take n bytes)
  unfolding read_blocks
  read_blocks-step fuel n bytes full blocks p l r =
      let c = min n block_size in
      rw (read_blocks, lt→ltb 0 n p, read_exact-eq c bytes (omega arith), r)
        (ap (λ t. ok (hash (take c bytes) ∷ blocks, t))
          (append_assoc full (take c bytes) (take (n - c) (drop c bytes))
            ∙ ap (λ t. full ++ t)
                (take-add c (n - c) bytes ∙ ap (λ (k : ℕ). take k bytes) (omega arith))))

  read_blocks_done :
      (fuel : ℕ) (bytes full : Bytes)
      → read_blocks hash fuel 0 bytes full ≡ ok ([], full ++ take 0 bytes)
  unfolding read_blocks
  read_blocks_done zero bytes full = rw append-nil
  read_blocks_done (suc fuel) bytes full = rw append-nil

  -- The loop of `from_file` on enough bytes.
  pub read_blocks-eq :
      (fuel n : ℕ) (bytes full : Bytes)
      → n ≤ fuel
      → n ≤ length bytes
      → (blocks : List Text) × (read_blocks hash fuel n bytes full
          ≡ ok (blocks, full ++ take n bytes))
        × (length blocks ≡ div_ceil n block_size)
        × AreHashes blocks n bytes
  read_blocks-eq fuel zero bytes full h l =
      ([], read_blocks_done fuel bytes full, refl, λ i j. absurd (omega arith))
  read_blocks-eq zero (suc n) bytes full h l = absurd (omega arith)
  read_blocks-eq (suc fuel) (suc m) bytes full h l =
      let n = suc m in
      let c = min n block_size in
      let (blocks, r, k, a) =
        read_blocks-eq fuel (n - c) (drop c bytes) (full ++ take c bytes) (omega arith)
          (omega (arith, length-drop c bytes)) in
      (
        hash (take c bytes) ∷ blocks,
        read_blocks-step fuel n bytes full blocks (omega arith) l r,
        omega arith,
        AreHashes-cons blocks n bytes (omega arith) a,
      )

  read_exact-enough :
      (n : ℕ) (bytes : Bytes) {out : Bytes × Bytes}
      → read_exact n bytes ≡ ok out
      → (n ≤ length bytes) × (out.1 ≡ drop n bytes)
  unfolding read_exact
  read_exact-enough n bytes h = ground arith

  -- What a round of the loop does with the bytes it has read, and with what the rest gives.
  abbrev add_block : Bytes → List Text × Bytes → Result (List Text × Bytes)
  add_block chunk out = ok (hash chunk ∷ out.0, out.1)

  abbrev round : ℕ → ℕ → Bytes → Bytes × Bytes → Result (List Text × Bytes)
  round fuel n full cut =
      read_blocks hash fuel (n - min n block_size) cut.1 (full ++ cut.0) >>= add_block cut.0

  read_blocks-round :
      (fuel n : ℕ) (bytes full : Bytes)
      → 0 < n
      → read_blocks hash (suc fuel) n bytes full
        ≡ (read_exact (min n block_size) bytes >>= round fuel n full)
  unfolding read_blocks
  read_blocks-round fuel n bytes full p = rw (read_blocks, lt→ltb 0 n p)

  pub read_blocks-enough :
      (fuel n : ℕ) (bytes full : Bytes) {out : List Text × Bytes}
      → n ≤ fuel
      → read_blocks hash fuel n bytes full ≡ ok out
      → n ≤ length bytes
  read_blocks-enough fuel zero bytes full h r = omega arith
  read_blocks-enough zero (suc n) bytes full h r = absurd (omega arith)
  read_blocks-enough (suc fuel) (suc m) bytes full {out} h r =
      let n : ℕ = suc m in
      let c = min n block_size in
      let (v, e, r1) =
        >>=-eq-ok (read_exact c bytes) (round fuel n full)
          (sym (read_blocks-round fuel n bytes full (omega arith)) ∙ r) in
      let (w, e2, _) =
        >>=-eq-ok (read_blocks hash fuel (n - c) v.1 (full ++ v.0)) (add_block v.0) r1 in
      let (le, tail) = read_exact-enough c bytes e in
      let more = read_blocks-enough fuel (n - c) v.1 (full ++ v.0) (omega arith) e2 in
      omega (arith, ap length tail, length-drop c bytes)
