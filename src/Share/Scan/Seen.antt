-- ===== src/Share/Scan/Seen.antt =====
-- The first loop of `scan`: afterwards the index has what is in the folder.
use happy_active_everywhere.Base.{
  ℕ, false, none, some, List, [], ◌∷◌, any, if◌then◌else◌, ok, >>=-eq-ok, ok-injective,
  ensure-eq-ok, ◌≡◌, refl, sym, ap, subst, ◌∙◌, ◌⊎◌, inl, inr, Bool-cases, some-injective,
  none≢some, neither, not-true, true≢false,
}
use happy_active_everywhere.Base.In.{In}
use happy_active_everywhere.Base.Order.{◌≟◌, ≟-eq, ≟-refl, list_ord}
use happy_active_everywhere.Base.Text.{Text}
use happy_active_everywhere.Base.BTreeMap.{
  BTreeMap, IsSorted, get, insert, get-insert, insert-IsSorted, get-Above,
}
use happy_active_everywhere.Model.{Content, Codec}
use happy_active_everywhere.Share.{Index}
use happy_active_everywhere.Share.Saving.{IsValid}
use happy_active_everywhere.Share.Scan.{scan_path, scan_seen, record_seen}
use happy_active_everywhere.Share.Scan.Steps.{scan_path-RoundDone, HasRow}

-- The row of a path, and whether it is pending, are as before.
abbrev pub IsLeft : Text → Index → Index → Type 0
IsLeft p index index' =
    (get p index'.entries ≡ get p index.entries) × (get p index'.pending ≡ get p index.pending)

-- The row of a path is as the folder is, and the path is not pending.
abbrev pub IsTaken : Text → Content → Index → Type 0
IsTaken path content index = HasRow path (some content) index × (get path index.pending ≡ none)

abbrev pub LoopDone : BTreeMap Text Content → Index → Index → Type 0
LoopDone rows index index' =
    IsValid index'
    × ((p : Text) → get p rows ≡ none → IsLeft p index index')
    × ((p : Text) (c : Content) → get p rows ≡ some c → IsTaken p c index')

pub IsTaken-IsLeft :
    (p : Text) (c : Content) (a b : Index) → IsTaken p c a → IsLeft p a b → IsTaken p c b
IsTaken-IsLeft p c a b ((entry, g, m), n) (same, pending) = ((entry, same ∙ g, m), pending ∙ n)

-- What was visited, or was there before, and nothing else.
abbrev pub IsSeen : BTreeMap Text Content → List (Text × Content) → Text → Content → Type 0
IsSeen seen visited p c = (get p seen ≡ some c) ⊎ In (p, c) visited

module _ (codec : Codec) (collision_key : Text → Text) (replica : Text) where
  pub scan_seen-LoopDone :
      (index : Index) (rows : BTreeMap Text Content) {out : ℕ × Index}
      → IsValid index
      → IsSorted rows
      → scan_seen codec collision_key replica index rows ≡ ok out
      → LoopDone rows index out.1
  unfolding scan_seen get
  scan_seen-LoopDone index [] v s h =
      subst (LoopDone [] index) (ap (λ (x : ℕ × Index). x.1) (ok-injective h))
        (v, (λ p e. (refl, refl)), (λ p c e. absurd (none≢some e)))
  scan_seen-LoopDone index ((path, content) ∷ rows) {out} v s h =
      let ((n, next), e, h1) =
        >>=-eq-ok (scan_path codec collision_key replica index path content) _ h in
      let ((m, after), e1, h2) = >>=-eq-ok (scan_seen codec collision_key replica next rows) _ h1 in
      let (w, away, row, clear) =
        scan_path-RoundDone codec collision_key replica index path content v e in
      let (w', left, taken) = scan_seen-LoopDone next rows w s.1 e1 in
      subst (LoopDone ((path, content) ∷ rows) index)
        (ap (λ (x : ℕ × Index). x.1) (ok-injective h2))
        (
          w',
          (λ p g. elim (Bool-cases (p ≟ path)) [
            | inl t ↦ absurd (none≢some {a = content} (sym (rw t at g)))
            | inr t ↦ let (a, b) = left p (rw t at g) in let (c, d) = away p t in (a ∙ c, b ∙ d)
          ]),
          (λ p c g. elim (Bool-cases (p ≟ path)) [
            | inl t ↦
                let same : content ≡ c = some-injective (rw t at g) in
                let q : p ≡ path = ≟-eq p path t in
                subst (λ (x : Text). IsTaken x c after) (sym q)
                  (subst (λ (x : Content). IsTaken path x after) same
                    (IsTaken-IsLeft path content next after (row, clear)
                      (left path (get-Above path rows s.0))))
            | inr t ↦ taken p c (rw t at g)
          ]),
        )

  -- A path that `record_seen` takes is not there before.
  visited_once :
      (path : Text) (seen : BTreeMap Text Content)
      → any (λ (e : Text × Content). collision_key e.0 ≟ collision_key path) seen ≡ false
      → get path seen ≡ none
  unfolding get
  visited_once path [] h = refl
  visited_once path (e ∷ seen) h =
      let (here, rest) = neither (collision_key e.0 ≟ collision_key path) _ h in
      elim (Bool-cases (path ≟ e.0)) [
        | inl t ↦ absurd (
            true≢false (
              sym (≟-refl (collision_key path))
              ∙ ap (λ (x : Text). collision_key x ≟ collision_key path) (≟-eq path e.0 t)
              ∙ here))
        | inr t ↦ rw t (visited_once path seen rest)
      ]

  IsSeen-cons :
      (seen : BTreeMap Text Content) (path : Text) (content : Content)
      (visited : List (Text × Content)) (p : Text) (c : Content)
      → get path seen ≡ none
      → IsSeen seen ((path, content) ∷ visited) p c
      → IsSeen (insert path content seen) visited p c
  IsSeen-cons seen path content visited p c n (inl g) = elim (Bool-cases (p ≟ path)) [
    | inl t ↦ absurd (none≢some (sym n ∙ ap (λ (x : Text). get x seen) (sym (≟-eq p path t)) ∙ g))
    | inr t ↦ inl (get-insert path p content seen ∙ rw t g)
  ]
  IsSeen-cons seen path content visited p c n (inr (inl e)) = inl (
      get-insert path p content seen
      ∙ rw (ap (λ (x : Text × Content). x.0) e, ≟-refl path)
          (ap some (sym (ap (λ (x : Text × Content). x.1) e))))
  IsSeen-cons seen path content visited p c n (inr (inr i)) = inr i

  IsSeen-insert :
      (seen : BTreeMap Text Content) (path : Text) (content : Content)
      (visited : List (Text × Content)) (p : Text) (c : Content)
      → IsSeen (insert path content seen) visited p c
      → IsSeen seen ((path, content) ∷ visited) p c
  IsSeen-insert seen path content visited p c (inl g) =
      let g' : (if p ≟ path then some content else get p seen) ≡ some c =
        sym (get-insert path p content seen) ∙ g in
      elim (Bool-cases (p ≟ path)) [
        | inl t ↦ inr (inl (λ i. (≟-eq p path t i, some-injective (sym (rw t at g')) i)))
        | inr t ↦ inl (rw t at g')
      ]
  IsSeen-insert seen path content visited p c (inr i) = inr (inr i)

  pub record_seen-get :
      (seen : BTreeMap Text Content) (visited : List (Text × Content))
      {rows : BTreeMap Text Content}
      → IsSorted seen
      → record_seen collision_key seen visited ≡ ok rows
      → IsSorted rows
        × ((p : Text) (c : Content) → IsSeen seen visited p c → get p rows ≡ some c)
        × ((p : Text) (c : Content) → get p rows ≡ some c → IsSeen seen visited p c)
  unfolding record_seen
  record_seen-get seen [] {rows} s h =
      subst
        (λ (r : BTreeMap Text Content).
          IsSorted r
          × ((p : Text) (c : Content) → IsSeen seen [] p c → get p r ≡ some c)
          × ((p : Text) (c : Content) → get p r ≡ some c → IsSeen seen [] p c))
        (ok-injective h) (s, (λ p c i. elim i [ inl g ↦ g | inr e ↦ absurd e ]), (λ p c g. inl g))
  record_seen-get seen ((path, content) ∷ visited) {rows} s h =
      let (fresh, h1) = ensure-eq-ok _ _ _ h in
      let n = visited_once path seen (
        not-true (any (λ (e : Text × Content). collision_key e.0 ≟ collision_key path) seen)
          fresh) in
      let (s', into, from) =
        record_seen-get (insert path content seen) visited (insert-IsSorted path content seen s)
          h1 in
      (
        s',
        (λ p c i. into p c (IsSeen-cons seen path content visited p c n i)),
        (λ p c g. IsSeen-insert seen path content visited p c (from p c g)),
      )
