-- ===== src/Storage/Missing.antt =====
-- `Receiver::missing_from`: which blocks it asks for, and which it has afterwards.
use happy_active_everywhere.Base.{true≢false}
use happy_active_everywhere.Base.{
  ℕ, zero, suc, ◌+◌, ◌≤◌, ◌<◌, Bool, true, false, Option, List, [], ◌∷◌, ◌==◌, length, ◌≡◌, refl,
  arith, subst, ok, ◌∙◌, sym, ◌⊎◌, ascending, lt→ltb, ==_iff, inl, inr, Bool-cases,
}
use happy_active_everywhere.Base.In.{In}
use happy_active_everywhere.Base.Text.{Text}
use happy_active_everywhere.Storage.{
  Manifest, validate, Receiver, note, missing_loop, missing_from, existing_file, Found,
}
use happy_active_everywhere.Storage.FileBytes.{Bytes}
use happy_active_everywhere.Storage.Blocks.{block_len-bounds}
use happy_active_everywhere.Storage.Puts.{IsStored}
use happy_active_everywhere.Storage.Rounds.{IsReusable, missing_block-RoundDone}

In-note :
    (j i : ℕ) (lacks : Bool) (rest : List ℕ)
    → In j (note lacks i rest)
    → ((lacks ≡ true) × (j ≡ i)) ⊎ In j rest
In-note j i true rest (inl e) = inl (refl, e)
In-note j i true rest (inr k) = inr k
In-note j i false rest k = inr k

note-In : (j i : ℕ) (lacks : Bool) (rest : List ℕ) → In j rest → In j (note lacks i rest)
note-In j i true rest k = inr k
note-In j i false rest k = k

ascending-note :
    (i : ℕ) (lacks : Bool) (rest : List ℕ)
    → ((j : ℕ) → In j rest → i < j)
    → ascending rest ≡ true
    → ascending (note lacks i rest) ≡ true
ascending-note i false rest h a = a
ascending-note i true [] h a = refl
ascending-note i true (y ∷ rest) h a = rw (lt→ltb i y (h y (inl refl))) a

module _ (hash : Bytes → Text) where
  -- What the loop leaves: it keeps the blocks that are stored, every block from `index` on is asked for
  -- or stored, a block that is asked for was found nowhere, and the list is ascending.
  abbrev pub LoopDone : Manifest → ℕ → Option Bytes → Bytes → List ℕ → Receiver → Type 0
  LoopDone m index existing part missing r' =
      (r'.manifest ≡ m)
      × (r'.finished ≡ false)
      × ((j : ℕ) → IsStored hash m j part → IsStored hash m j r'.part)
      × ((j : ℕ) → index ≤ j → j < length m.blocks → In j missing ⊎ IsStored hash m j r'.part)
      × ((j : ℕ)
          → In j missing
          → (index ≤ j)
            × (j < length m.blocks)
            × (¬ IsStored hash m j part)
            × (¬ IsReusable hash m j existing))
      × (ascending missing ≡ true)

  abbrev Here : Manifest → ℕ → Option Bytes → Bytes → Bool → Bytes → Type 0
  Here m index existing part lacks part1 =
      ((lacks ≡ true) × (¬ IsStored hash m index part) × (¬ IsReusable hash m index existing))
      ⊎ ((lacks ≡ false) × IsStored hash m index part1)

  asked_or_IsStored :
      (m : Manifest) (index j : ℕ) (existing : Option Bytes) (part : Bytes) (lacks : Bool)
      (part1 : Bytes) (rest : List ℕ) (part2 : Bytes)
      → Here m index existing part lacks part1
      → (IsStored hash m index part1 → IsStored hash m index part2)
      → (index < j → In j rest ⊎ IsStored hash m j part2)
      → index ≤ j
      → In j (note lacks index rest) ⊎ IsStored hash m j part2
  asked_or_IsStored m index j existing part lacks part1 rest part2 here keep later ge =
      elim (Bool-cases (j == index)) [
        | inl same ↦ elim here [
          | inl (t, _, _) ↦ inl (rw t (inl ((==_iff j index).0 same)))
          | inr (_, s) ↦
              inr (
                subst (λ (x : ℕ). IsStored hash m x part2) (sym ((==_iff j index).0 same)) (keep s))
        ]
        | inr other ↦ elim (later (ground arith)) [
          | inl a ↦ inl (note-In j index lacks rest a)
          | inr s ↦ inr s
        ]
      ]

  asked_nowhere :
      (m : Manifest) (index j : ℕ) (existing : Option Bytes) (part : Bytes) (lacks : Bool)
      (part1 : Bytes) (rest : List ℕ)
      → Here m index existing part lacks part1
      → (In j rest → (¬ IsStored hash m j part) × (¬ IsReusable hash m j existing))
      → In j (note lacks index rest)
      → (¬ IsStored hash m j part) × (¬ IsReusable hash m j existing)
  asked_nowhere m index j existing part lacks part1 rest here later a =
      elim (In-note j index lacks rest a) [
        | inl (t, e) ↦ elim here [
          | inl (_, s, b) ↦
              subst (λ (x : ℕ). (¬ IsStored hash m x part) × (¬ IsReusable hash m x existing))
                (sym e) (s, b)
          | inr (o, _) ↦ absurd (true≢false (sym t ∙ o))
        ]
        | inr b ↦ later b
      ]

  asked-In :
      (index j n : ℕ) (lacks : Bool) (rest : List ℕ)
      → index < n
      → (In j rest → (index < j) × (j < n))
      → In j (note lacks index rest)
      → (index ≤ j) × (j < n)
  asked-In index j n lacks rest l later a = elim (In-note j index lacks rest a) [
    | inl (t, e) ↦ (omega arith, omega arith)
    | inr b ↦ let (g, k) = later b in (omega arith, k)
  ]

  LoopDone-note :
      (m : Manifest) (index : ℕ) (existing : Option Bytes) (part : Bytes) (lacks : Bool)
      (part1 : Bytes) (rest : List ℕ) (r' : Receiver)
      → index < length m.blocks
      → ((j : ℕ) → IsStored hash m j part → IsStored hash m j part1)
      → Here m index existing part lacks part1
      → LoopDone m (index + 1) existing part1 rest r'
      → LoopDone m index existing part (note lacks index rest) r'
  LoopDone-note m index existing part lacks part1 rest r' l keep here
        (q, f, keeps, each, asked, up) =
      (
        q,
        f,
        (λ j s. keeps j (keep j s)),
        (λ j ge lt.
            asked_or_IsStored m index j existing part lacks part1 rest r'.part here (keeps index)
              (λ g. each j (omega arith) lt) ge),
        (λ j a.
            let (ge, lt) =
              asked-In index j (length m.blocks) lacks rest l
                (λ b. let (g, k, _, _) = asked j b in (omega arith, k)) a in
            let (s, b) =
              asked_nowhere m index j existing part lacks part1 rest here
                (λ b.
                  let (_, _, s, x) = asked j b in
                  ((λ (t : IsStored hash m j part). s (keep j t)), x))
                a in
            (ge, lt, s, b)),
        ascending-note index lacks rest (λ j a. omega (arith, (asked j a).0)) up,
      )

  round-Here :
      (m : Manifest) (index : ℕ) (existing : Option Bytes) (r : Receiver) (lacks : Bool)
      (r1 : Receiver)
      → ((lacks ≡ true)
          × (r1 ≡ r)
          × (¬ IsStored hash m index r.part)
          × (¬ IsReusable hash m index existing))
        ⊎ ((lacks ≡ false) × IsStored hash m index r1.part)
      → Here m index existing r.part lacks r1.part
  round-Here m index existing r lacks r1 (inl (t, _, s, b)) = inl (t, s, b)
  round-Here m index existing r lacks r1 (inr h) = inr h

  missing_loop-LoopDone :
      (rounds index : ℕ) (existing : Option Bytes) (r : Receiver)
      → validate r.manifest ≡ ok tt
      → r.finished ≡ false
      → index + rounds ≡ length r.manifest.blocks
      → (out : List ℕ × Receiver) × (missing_loop hash rounds index existing r ≡ ok out)
        × LoopDone r.manifest index existing r.part out.0 out.1
  unfolding missing_loop
  missing_loop-LoopDone zero index existing r v f e = (
    ([], r),
    refl,
    (refl, f, (λ j s. s), (λ j l g. absurd (omega arith)), (λ j a. absurd a), refl),
  )
  missing_loop-LoopDone (suc rounds) index existing r v f e =
      let (n, b, _, _, _, _, _) = block_len-bounds r.manifest index v (omega arith) in
      let ((lacks, r1), q, (m_same, f_same, keep, here)) =
        missing_block-RoundDone hash index n existing r v f b in
      let (out, q2, done) =
        missing_loop-LoopDone rounds (index + 1) existing r1 (rw m_same v) (f_same ∙ f)
          (rw m_same (omega arith)) in
      (
        (note lacks index out.0, out.1),
        rw (missing_loop, b, q, q2),
        LoopDone-note r.manifest index existing r.part lacks r1.part out.0 out.1 (omega arith) keep
            (round-Here r.manifest index existing r lacks r1 here)
            (subst (λ (m : Manifest). LoopDone m (index + 1) existing r1.part out.0 out.1) m_same
              done),
      )

  pub missing_from-LoopDone :
      (r : Receiver) (target : Found) (basis : Option Found) {existing : Option Bytes}
      → validate r.manifest ≡ ok tt
      → r.finished ≡ false
      → existing_file target basis ≡ ok existing
      → (out : List ℕ × Receiver) × (missing_from hash r target basis ≡ ok out)
        × LoopDone r.manifest 0 existing r.part out.0 out.1
  unfolding missing_from
  missing_from-LoopDone r target basis {existing} v f e =
      let (out, q, done) =
        missing_loop-LoopDone (length r.manifest.blocks) 0 existing r v f (omega arith) in
      (out, rw (missing_from, e) q, done)

  -- For a valid manifest and a receiver that is not complete, `missing_from` returns whenever the file
  -- to reuse can be opened, and it leaves the manifest and the state. The indices it returns ascend,
  -- and each block of the manifest is among them or is stored.
  pub missing_from_complete :
      (r : Receiver) (target : Found) (basis : Option Found) (j : ℕ) {existing : Option Bytes}
      → validate r.manifest ≡ ok tt
      → r.finished ≡ false
      → existing_file target basis ≡ ok existing
      → j < length r.manifest.blocks
      → (missing : List ℕ) × (r' : Receiver) × (missing_from hash r target basis ≡ ok (missing, r'))
        × (r'.manifest ≡ r.manifest)
        × (r'.finished ≡ false)
        × (ascending missing ≡ true)
        × (In j missing ⊎ IsStored hash r.manifest j r'.part)
  missing_from_complete r target basis j v f e l =
      let ((missing, r'), q, (same, fin, keeps, each, asked, up)) =
        missing_from-LoopDone r target basis v f e in
      (missing, r', q, same, fin, up, each j (omega arith) l)

  IsStored-kept :
      (m : Manifest) (j : ℕ) (existing : Option Bytes) (part part' : Bytes) (missing : List ℕ)
      → (IsStored hash m j part → IsStored hash m j part')
      → (In j missing ⊎ IsStored hash m j part')
      → (In j missing → (¬ IsStored hash m j part) × (¬ IsReusable hash m j existing))
      → IsStored hash m j part ⊎ IsReusable hash m j existing
      → (¬ In j missing) × IsStored hash m j part'
  IsStored-kept m j existing part part' missing keep each asked (inl s) =
      ((λ a. (asked a).0 s), keep s)
  IsStored-kept m j existing part part' missing keep (inl a) asked (inr t) = absurd ((asked a).1 t)
  IsStored-kept m j existing part part' missing keep (inr s) asked (inr t) =
      ((λ a. (asked a).1 t), s)

  -- A block that the part file has already, or the file to reuse, is not asked for, and is stored
  -- after `missing_from`.
  pub missing_from-reuses :
      (r : Receiver) (target : Found) (basis : Option Found) (j : ℕ) {existing : Option Bytes}
      → validate r.manifest ≡ ok tt
      → r.finished ≡ false
      → existing_file target basis ≡ ok existing
      → j < length r.manifest.blocks
      → IsStored hash r.manifest j r.part ⊎ IsReusable hash r.manifest j existing
      → (missing : List ℕ) × (r' : Receiver) × (missing_from hash r target basis ≡ ok (missing, r'))
        × (¬ In j missing)
        × IsStored hash r.manifest j r'.part
  missing_from-reuses r target basis j {existing} v f e l s =
      let ((missing, r'), q, (same, fin, keeps, each, asked, up)) =
        missing_from-LoopDone r target basis v f e in
      let (n, k) =
        IsStored-kept r.manifest j existing r.part r'.part missing (keeps j)
          (each j (omega arith) l) (λ a. let (_, _, x, y) = asked j a in (x, y)) s in
      (missing, r', q, n, k)
