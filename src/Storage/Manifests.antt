-- ===== src/Storage/Manifests.antt =====
-- `from_file`: the manifest of a file that does not change while it is read.
use happy_active_everywhere.Base.{some-injective, none≢some}
use happy_active_everywhere.Base.{
  ==_iff, none, ltb→lt, >>=-eq-ok, ensure-eq-ok, ◌>>=◌, ◌>>◌, ensure, leb→le,
}
use happy_active_everywhere.Base.{
  ℕ, zero, suc, ◌*◌, ◌≤◌, Bool, true, some, List, [], ◌∷◌, ltb, leb, ◌==◌, ◌&&◌, all, length, take,
  get_elem?, ◌≡◌, refl, arith, ap, Result, ok, if◌then◌else◌, ◌∙◌, le→leb, sym, Bool-cases, subst,
  inl, inr,
}
use happy_active_everywhere.Base.Text.{Text, valid_hash}
use happy_active_everywhere.Storage.{
  Manifest, block_size, max_size, div_ceil, validate, read_blocks, from_file, OpenFile,
}
use happy_active_everywhere.Storage.FileBytes.{Bytes}
use happy_active_everywhere.Base.{ok-injective}
use happy_active_everywhere.Storage.Reading.{
  block_at, AreHashes, read_blocks-eq, read_blocks-enough,
}

get_elem?-none : {A : Type 0} (l : List A) (i : ℕ) → length l ≤ i → get_elem? l i ≡ none
get_elem?-none [] i h = refl
get_elem?-none (x ∷ l) zero h = absurd (omega arith)
get_elem?-none (x ∷ l) (suc i) h = get_elem?-none l i (omega arith)

all-get_elem? :
    {A : Type 0} (p : A → Bool) (l : List A)
    → ((i : ℕ) (x : A) → get_elem? l i ≡ some x → p x ≡ true)
    → all p l ≡ true
all-get_elem? p [] h = refl
all-get_elem? p (x ∷ l) h = ground (arith, h 0 x refl, all-get_elem? p l (λ i y e. h (suc i) y e))

module _ (hash : Bytes → Text) where
  -- What the code relies on: a hash in hexadecimal has 64 lower-case digits.
  abbrev pub IsHexHash : Type 0
  IsHexHash = (x : Bytes) → valid_hash (hash x) ≡ true

  -- The last steps of `from_file`.
  abbrev conclude : OpenFile → List Text × Bytes → Result Manifest
  conclude f out =
      ensure (f.before.len == f.after.len && f.before.modified == f.after.modified)
        "source changed during hashing"
      >> ok (record { size = f.before.len; hash = hash out.1; blocks = out.0 })

  -- What `from_file` has found where it succeeds.
  from_file-checks :
      (f : OpenFile) {m : Manifest}
      → from_file hash f ≡ ok m
      → (f.before.len ≤ max_size)
        × (out : List Text × Bytes) × (read_blocks hash f.before.len f.before.len f.bytes []
            ≡ ok out)
        × (m ≡ record { size = f.before.len; hash = hash out.1; blocks = out.0 })
  unfolding from_file
  from_file-checks f {m} h =
      let read = read_blocks hash f.before.len f.before.len f.bytes [] in
      let (_, h1) =
        ensure-eq-ok f.before.is_file _
          (ensure (leb f.before.len max_size) "file exceeds 1 TiB alpha limit"
            >> (read >>= conclude f))
          h in
      let (small, h2) = ensure-eq-ok (leb f.before.len max_size) _ (read >>= conclude f) h1 in
      let (out, e, h3) = >>=-eq-ok read (conclude f) h2 in
      let (_, h4) =
        ensure-eq-ok (f.before.len == f.after.len && f.before.modified == f.after.modified)
          "source changed during hashing"
          (ok (record { size = f.before.len; hash = hash out.1; blocks = out.0 })) h3 in
      (leb→le f.before.len max_size small, out, e, cc)

  -- A file that `from_file` accepts has at least as many bytes as its length says.
  pub from_file-enough :
      (f : OpenFile) {m : Manifest} → from_file hash f ≡ ok m → f.before.len ≤ length f.bytes
  from_file-enough f h =
      let (_, out, r, _) = from_file-checks f h in
      read_blocks-enough hash f.before.len f.before.len f.bytes [] (omega arith) r

  AreHashes-get :
      (blocks : List Text) (n i : ℕ) (bytes : Bytes)
      → length blocks ≡ div_ceil n block_size
      → AreHashes hash blocks n bytes
      → get_elem? blocks i
        ≡ (if ltb (i * block_size) n then some (hash (block_at n i bytes)) else none)
  AreHashes-get blocks n i bytes k a = elim (Bool-cases (ltb (i * block_size) n)) [
    | inl e ↦ rw e (a i (omega (arith, ltb→lt (i * block_size) n e)))
    | inr e ↦ rw e (get_elem?-none blocks i (ground arith))
  ]

  AreHashes-valid_hash :
      (blocks : List Text) (n i : ℕ) (bytes : Bytes) {x : Text}
      → IsHexHash
      → length blocks ≡ div_ceil n block_size
      → AreHashes hash blocks n bytes
      → get_elem? blocks i ≡ some x
      → valid_hash x ≡ true
  AreHashes-valid_hash blocks n i bytes {x} hex k a e = elim (Bool-cases (ltb i (length blocks))) [
    | inl l ↦
        let here = a i (omega (arith, k, ltb→lt i (length blocks) l)) in
        let same : x ≡ hash (block_at n i bytes) = some-injective (sym e ∙ here) in
        rw same (hex (block_at n i bytes))
    | inr l ↦ absurd (none≢some (sym (get_elem?-none blocks i (ground arith)) ∙ e))
  ]

  validate-AreHashes :
      (blocks : List Text) (n : ℕ) (whole bytes : Bytes)
      → IsHexHash
      → n ≤ max_size
      → length blocks ≡ div_ceil n block_size
      → AreHashes hash blocks n bytes
      → validate (record { size = n; hash = hash whole; blocks = blocks }) ≡ ok tt
  unfolding validate
  validate-AreHashes blocks n whole bytes hex small k a =
      let every =
        all-get_elem? valid_hash blocks
          (λ i x e. AreHashes-valid_hash blocks n i bytes hex k a e) in
      rw (
        le→leb n max_size small,
        (==_iff (length blocks) (div_ceil n block_size)).1 k,
        hex whole,
        every,
      )

  -- Whenever `from_file` succeeds, the manifest is that of the bytes it was given up to the file's
  -- length: the size is the length, the hash is that of the bytes, and there is a block for each
  -- started mebibyte, with the hash of its bytes. Such a manifest passes `validate`, where a hash has
  -- 64 hexadecimal digits.
  pub from_file-manifest :
      (f : OpenFile) (i : ℕ) {m : Manifest}
      → from_file hash f ≡ ok m
      → IsHexHash
      → (m.size ≡ f.before.len)
        × (m.hash ≡ hash (take m.size f.bytes))
        × (get_elem? m.blocks i ≡ (
            if ltb (i * block_size) m.size then some (hash (block_at m.size i f.bytes)) else none))
        × (validate m ≡ ok tt)
  from_file-manifest f i {m} h hex =
      let n = f.before.len in
      let (small, out, r, e) = from_file-checks f h in
      let enough = from_file-enough f h in
      let (blocks, q, k, a) = read_blocks-eq hash n n f.bytes [] (omega arith) enough in
      let same : out ≡ (blocks, take n f.bytes) = ok-injective (sym r ∙ q) in
      let got : m ≡ record { size = n; hash = hash (take n f.bytes); blocks = blocks } =
        e
        ∙ ap (λ (o : List Text × Bytes). record { size = n; hash = hash o.1; blocks = o.0 }) same in
      subst
        (λ (x : Manifest).
          (x.size ≡ n)
          × (x.hash ≡ hash (take x.size f.bytes))
          × (get_elem? x.blocks i ≡ (
              if ltb (i * block_size) x.size
              then some (hash (block_at x.size i f.bytes))
              else none))
          × (validate x ≡ ok tt))
        (sym got)
        (
          refl,
          refl,
          AreHashes-get blocks n i f.bytes k a,
          validate-AreHashes blocks n (take n f.bytes) f.bytes hex small k a,
        )
