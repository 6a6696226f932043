-- ===== src/Storage/Rounds.antt =====
-- A round of the loop of `Receiver::missing_from`.
use happy_active_everywhere.Base.{
  ℕ, Bool, true, false, Option, none, some, length, ◌≡◌, refl, arith, ok, ◌⊎◌, inl, inr, Bool-cases,
}
use happy_active_everywhere.Base.Text.{Text}
use happy_active_everywhere.Storage.{
  Manifest, block_len, validate, offset, Receiver, matches, missing_block,
}
use happy_active_everywhere.Storage.FileBytes.{Bytes, read_at, write_at, length-take, drop}
use happy_active_everywhere.Storage.Puts.{not-IsStored, IsStored, put-IsStored, put_keeps, put-eq}

length-read_at :
    (o n : ℕ) (file : Bytes) {bytes : Bytes} → read_at o n file ≡ some bytes → length bytes ≡ n
unfolding read_at
length-read_at o n file h = ground (arith, length-take n (drop o file))

Option-cases : {A : Type 0} (o : Option A) → (o ≡ none) ⊎ ((x : A) × (o ≡ some x))
Option-cases none = inl refl
Option-cases (some x) = inr (x, refl)

module _ (hash : Bytes → Text) where
  -- The file that blocks are reused from has block `i`.
  abbrev pub IsReusable : Manifest → ℕ → Option Bytes → Type 0
  IsReusable m i none = ⊥
  IsReusable m i (some file) = IsStored hash m i file

  -- What a round of the loop leaves: the receiver is as before but for its part file, a block it does
  -- not note is stored, and a block it notes was stored neither in the part file nor in the other file.
  abbrev pub RoundDone : ℕ → Option Bytes → Receiver → Bool → Receiver → Type 0
  RoundDone i existing r lacks r' =
      (r'.manifest ≡ r.manifest)
      × (r'.finished ≡ r.finished)
      × ((j : ℕ) → IsStored hash r.manifest j r.part → IsStored hash r.manifest j r'.part)
      × (((lacks ≡ true)
            × (r' ≡ r)
            × (¬ IsStored hash r.manifest i r.part)
            × (¬ IsReusable r.manifest i existing))
          ⊎ ((lacks ≡ false) × IsStored hash r.manifest i r'.part))

  reuse :
      (i n : ℕ) (existing : Option Bytes) (r : Receiver)
      → validate r.manifest ≡ ok tt
      → r.finished ≡ false
      → block_len r.manifest i ≡ ok n
      → matches hash r.manifest i (read_at (offset i) n r.part) ≡ false
      → (out : Bool × Receiver) × (missing_block hash i n existing r ≡ ok out)
        × RoundDone i existing r out.0 out.1
  unfolding missing_block matches
  reuse i n none r v f e fails = (
    (true, r),
    rw (missing_block, fails),
    (
      refl,
      refl,
      (λ j s. s),
      inl (refl, refl, not-IsStored hash r.manifest i n r.part e fails, λ x. x),
    ),
  )
  reuse i n (some file) r v f e fails = elim (Option-cases (read_at (offset i) n file)) [
    | inl short ↦ (
      (true, r),
      rw (missing_block, fails, short),
      (
        refl,
        refl,
        (λ j s. s),
        inl (
          refl,
          refl,
          not-IsStored hash r.manifest i n r.part e fails,
          not-IsStored hash r.manifest i n file e (rw short),
        ),
      ),
    )
    | inr (bytes, found) ↦ elim (Bool-cases (matches hash r.manifest i (some bytes))) [
      | inl holds ↦
          let eq = put-eq hash r i n bytes f e (length-read_at (offset i) n file found) holds in
          (
            (false, record r { part = write_at (offset i) bytes r.part }),
            rw (missing_block, fails, found, holds, eq),
            (
              refl,
              refl,
              (λ j s. put_keeps hash r i j bytes v eq s),
              inr (refl, put-IsStored hash r i bytes eq),
            ),
          )
      | inr other ↦ (
        (true, r),
        rw (missing_block, fails, found, other),
        (
          refl,
          refl,
          (λ j s. s),
          inl (
            refl,
            refl,
            not-IsStored hash r.manifest i n r.part e fails,
            not-IsStored hash r.manifest i n file e (rw found other),
          ),
        ),
      )
    ]
  ]

  pub missing_block-RoundDone :
      (i n : ℕ) (existing : Option Bytes) (r : Receiver)
      → validate r.manifest ≡ ok tt
      → r.finished ≡ false
      → block_len r.manifest i ≡ ok n
      → (out : Bool × Receiver) × (missing_block hash i n existing r ≡ ok out)
        × RoundDone i existing r out.0 out.1
  unfolding missing_block IsStored
  missing_block-RoundDone i n existing r v f e =
      elim (Bool-cases (matches hash r.manifest i (read_at (offset i) n r.part))) [
        | inl holds ↦ (
          (false, r),
          rw (missing_block, holds),
          (refl, refl, (λ j s. s), inr (refl, (n, e, holds))),
        )
        | inr fails ↦ reuse i n existing r v f e fails
      ]
