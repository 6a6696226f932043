-- ===== src/Share/Scan/Unseen.antt =====
-- The second loop of `scan`: the rows whose path is not in the folder.
use happy_active_everywhere.Base.{
  ℕ, Bool, false, some, List, [], ◌∷◌, ok, >>=-eq-ok, ok-injective, err≢ok, ◌≡◌, refl, sym, ap,
  subst, ◌∙◌, ◌⊎◌, inl, inr, Bool-cases, Option-cases, some-injective, none≢some, true≢false,
}
use happy_active_everywhere.Base.In.{In}
use happy_active_everywhere.Base.Order.{◌≟◌, ≟-eq, ≟-refl, list_ord}
use happy_active_everywhere.Base.Text.{Text}
use happy_active_everywhere.Base.BTreeMap.{get}
use happy_active_everywhere.Model.{Content, Codec}
use happy_active_everywhere.Share.{Entry, Index}
use happy_active_everywhere.Share.Saving.{IsValid}
use happy_active_everywhere.Share.Scan.{is_removed, scan_absent, scan_unseen}
use happy_active_everywhere.Share.Scan.Steps.{AbsentDone, RowKept, scan_absent-AbsentDone}
use happy_active_everywhere.Share.Scan.Seen.{IsLeft}

-- A row, as it was, and that its path is pending.
abbrev pub IsPending : Text → Entry → Index → Type 0
IsPending p old index = (get p index.entries ≡ some old) × (get p index.pending ≡ some tt)

module _ (codec : Codec) where
  -- A row that the folder had a content for, and no remote deletion explains that it is absent.
  abbrev pub IsMissing : Entry → Type 0
  IsMissing old =
      (is_removed codec old ≡ false) × ((content : Content) × (old.materialized ≡ some content))

  RowKept-IsPending :
      (p : Text) (old : Entry) (index : Index)
      → IsMissing old
      → RowKept codec p old index
      → IsPending p old index
  RowKept-IsPending p old index (k, (c, m)) (entry, g, v, inl e) = absurd (true≢false (sym e ∙ k))
  RowKept-IsPending p old index (k, (c, m)) (entry, g, v, inr (same, inl n)) =
      absurd (none≢some (sym n ∙ m))
  RowKept-IsPending p old index (k, (c, m)) (entry, g, v, inr (same, inr t)) = (g ∙ ap some same, t)

  -- What the loop does to a path: it is left if it is none of the paths of the loop, and an absent row
  -- is pending, and as it was, if the path was in the loop or is pending already.
  abbrev pub AbsentHandled : Bool → List Text → Text → Index → Index → Type 0
  AbsentHandled approve paths p index index' =
      ((In p paths → ⊥) → IsLeft p index index')
      × ((old : Entry)
          → approve ≡ false
          → IsMissing old
          → get p index.entries ≡ some old
          → In p paths ⊎ (get p index.pending ≡ some tt)
          → IsPending p old index')

module _ (codec : Codec) (collision_key : Text → Text) (replica : Text) where
  round-AbsentHandled :
      (approve : Bool) (path : Text) (paths : List Text) (old : Entry) (p : Text) (a b c : Index)
      → get path a.entries ≡ some old
      → AbsentDone codec approve path old a b
      → AbsentHandled codec approve paths p b c
      → AbsentHandled codec approve (path ∷ paths) p a c
  round-AbsentHandled approve path paths old p a b c g (v, away, kept) (left, absent) =
      elim (Bool-cases (p ≟ path)) [
        | inl t ↦
            let q : p ≡ path = ≟-eq p path t in
            (
              (λ out. absurd (out (inl q))),
              (λ e f m h i.
                  let same : e ≡ old =
                    some-injective (sym h ∙ ap (λ (x : Text). get x a.entries) q ∙ g) in
                  let now : IsPending path old b = elim kept [
                    | inl y ↦ absurd (true≢false (sym y ∙ f))
                    | inr k ↦ RowKept-IsPending codec path old b (subst (IsMissing codec) same m) k
                  ] in
                  let (r, s) =
                    subst (λ (x : Text). IsPending x e b) (sym q)
                      (subst (λ (x : Entry). IsPending path x b) (sym same) now) in
                  absent e f m r (inr s)),
            )
        | inr t ↦
            let (r, s) = away p t in
            (
              (λ out. let (r', s') = left (λ i. out (inr i)) in (r' ∙ r, s' ∙ s)),
              (λ e f m h i. absent e f m (r ∙ h) (elim i [
                | inl (inl q) ↦
                    absurd
                      (true≢false (sym (≟-refl path) ∙ ap (λ (x : Text). x ≟ path) (sym q) ∙ t))
                | inl (inr j) ↦ inl j
                | inr k ↦ inr (s ∙ k)
              ])),
            )
      ]

  pub scan_unseen-AbsentHandled :
      (approve : Bool) (index : Index) (paths : List Text) {out : ℕ × Index}
      → IsValid index
      → scan_unseen codec collision_key replica approve index paths ≡ ok out
      → IsValid out.1 × ((p : Text) → AbsentHandled codec approve paths p index out.1)
  unfolding scan_unseen
  scan_unseen-AbsentHandled approve index [] {out} v h =
      subst
        (λ (x : ℕ × Index). IsValid x.1 × ((p : Text) → AbsentHandled codec approve [] p index x.1))
        (ok-injective h)
        (
          v,
          (λ p. ((λ n. (refl, refl)), (λ e f m g i. elim i [ inl j ↦ absurd j | inr k ↦ (g, k) ]))),
        )
  scan_unseen-AbsentHandled approve index (path ∷ paths) {out} v h =
      elim (Option-cases (get path index.entries)) [
        | inl g ↦ absurd (err≢ok (rw (scan_unseen, g) at h))
        | inr (old, g) ↦
            let ((n, next), e, h1) =
              >>=-eq-ok (scan_absent codec collision_key replica approve index path old) _
                (rw (scan_unseen, g) at h) in
            let ((m, after), e1, h2) =
              >>=-eq-ok (scan_unseen codec collision_key replica approve next paths) _ h1 in
            let done =
              scan_absent-AbsentDone codec collision_key replica approve index path old v g e in
            let (w, handled) = scan_unseen-AbsentHandled approve next paths done.0 e1 in
            subst
              (λ (x : ℕ × Index).
                IsValid x.1 × ((p : Text) → AbsentHandled codec approve (path ∷ paths) p index x.1))
              (ok-injective h2)
              (
                w,
                (λ p.
                    round-AbsentHandled approve path paths old p index next after g done
                      (handled p)),
              )
      ]
