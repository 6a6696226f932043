-- ===== src/Share/Commit/Applying.antt =====
-- The loop of `apply_pending`: it ends, and no row waits for a publication afterwards.
use happy_active_everywhere.Base.{
  ℕ, zero, suc, String, ◌+◌, ◌≤◌, ◌<◌, true, Option, some, List, [], ◌∷◌, if◌then◌else◌, Result, ok,
  err, context, >>=-eq-ok, >>-eq-ok, ok-injective, err≢ok, Result-cases, List-cases, ◌≡◌, refl, sym,
  ap, subst, ◌∙◌, arith, ◌⊎◌, inl, inr, Bool-cases, Option-cases, some-injective,
}
use happy_active_everywhere.Base.Order.{◌≟◌, ≟-eq, list_ord}
use happy_active_everywhere.Base.Text.{Text}
use happy_active_everywhere.Base.BTreeMap.{get}
use happy_active_everywhere.Model.{Content, Codec, selected}
use happy_active_everywhere.Share.{Entry, Index, save}
use happy_active_everywhere.Share.Saving.{IsValid, save-IsValid, save-checks, save-get, row}
use happy_active_everywhere.Share.Commit.{
  is_waiting, waiting, candidate_paths, actual, object_of, apply_local, apply_paths, apply_pending,
}
use happy_active_everywhere.Share.Commit.Waiting.{
  length-select-insert, candidate_paths-cons, candidate_paths-empty, observed-is_waiting,
  versions_of_row, versions_at, KeepsVersions, waiting_count, AllObserved, no_waiting-AllObserved,
}

module _ (codec : Codec) (collision_key : Text → Text) where
  save-waiting_count :
      (index : Index) (path : Text) (local : Entry) (materialized : Option Content) {next : Index}
      → IsValid index
      → get path index.entries ≡ some local
      → save codec collision_key index path local.versions materialized local.versions ≡ ok next
      → IsValid next
        × (next.pending ≡ index.pending)
        × (waiting_count next + (if is_waiting index.pending (path, local) then 1 else 0)
            ≡ waiting_count index)
        × KeepsVersions index next
  unfolding waiting
  save-waiting_count index path local materialized {next} v g h =
      let (_, n, _, _, q) =
        save-checks codec collision_key index path local.versions materialized local.versions h in
      let new =
        row codec collision_key (get path index.entries) path local.versions materialized
          local.versions n.0 in
      (
        save-IsValid codec collision_key index path local.versions materialized local.versions v h,
        ap (λ (x : Index). x.pending) q,
        ap
              (λ (x : Index).
                waiting_count x + (if is_waiting index.pending (path, local) then 1 else 0))
              q
            ∙ length-select-insert (is_waiting index.pending) path local new index.entries v.sorted
                g (observed-is_waiting index.pending path new refl),
        (λ p.
            let (entry, found, same, _, _, _, _, _, _, _) =
              save-get codec collision_key index path p local.versions materialized local.versions
                h in
            elim (Bool-cases (p ≟ path)) [
              | inl t ↦
                  let now : get p next.entries ≡ some entry = found ∙ rw t refl in
                  ap versions_of_row now
                  ∙ ap some same
                  ∙ sym (
                      ap versions_of_row
                        (ap (λ (x : Text). get x index.entries) (≟-eq p path t) ∙ g))
              | inr t ↦
                  let left : get p next.entries ≡ get p index.entries = found ∙ rw t refl in
                  ap versions_of_row left
            ]),
      )

  module _ {Folder : Type 0} (check_root : Folder → Result (Unit {0}))
      (apply : Folder → Text → Option Content → Content → Result Folder)
      (authorized : Folder → Result (Unit {0})) where
    apply_local-save :
        (folder : Folder) (index : Index) (path : Text) (local : Entry) {out : Folder × Index}
        → apply_local codec collision_key check_root apply authorized folder index path local
          ≡ ok out
        → (materialized : Option Content) × (save codec collision_key index path local.versions
              materialized local.versions
            ≡ ok out.1)
    unfolding apply_local
    apply_local-save folder index path local {out} h =
        let (chosen, _, h1) =
          >>=-eq-ok (context (selected codec local.versions) "empty version set") _ h in
        let (_, h2) = >>-eq-ok (object_of chosen.content) _ h1 in
        let (_, h3) = >>-eq-ok (check_root folder) _ h2 in
        let (published, _, h4) =
          >>=-eq-ok (apply folder path local.materialized chosen.content) _ h3 in
        let (next, e, h5) =
          >>=-eq-ok
            (save codec collision_key index path local.versions (actual chosen.content)
              local.versions)
            _ h4 in
        (actual chosen.content, e ∙ ap (λ (x : Folder × Index). ok x.1) (ok-injective h5))

    abbrev PageDone : Index → Index → Type 0
    PageDone index next =
        IsValid next
        × (waiting_count next ≤ waiting_count index)
        × KeepsVersions index next
        × (next.pending ≡ index.pending)

    apply_paths-first :
        (folder : Folder) (index : Index) (path : Text) (paths : List Text) {out : Folder × Index}
        → IsValid index
        → apply_paths codec collision_key check_root apply authorized folder index (path ∷ paths)
          ≡ ok out
        → (local : Entry) × (get path index.entries ≡ some local)
          × ((published : Folder) × (next : Index) × (apply_paths codec collision_key check_root
                  apply authorized published next paths
                ≡ ok out)
              × PageDone index next
              × (waiting_count next + (if is_waiting index.pending (path, local) then 1 else 0)
                  ≡ waiting_count index))
    unfolding apply_paths
    apply_paths-first folder index path paths {out} v h =
        elim (Option-cases (get path index.entries)) [
          | inl g ↦ absurd (err≢ok (rw (apply_paths, g) at h))
          | inr (local, g) ↦
              let (_, h1) = >>-eq-ok (authorized folder) _ (rw (apply_paths, g) at h) in
              let ((published, next), e, h2) =
                >>=-eq-ok
                  (apply_local codec collision_key check_root apply authorized folder index path
                    local)
                  _ h1 in
              let (materialized, s) = apply_local-save folder index path local e in
              let (w, p, count, keeps) = save-waiting_count index path local materialized v g s in
              (local, g, (published, next, h2, (w, omega (arith, count), keeps, p), count))
        ]

    PageDone-trans : (a b c : Index) → PageDone a b → PageDone b c → PageDone a c
    PageDone-trans a b c (v, l, k, p) (v', l', k', p') =
        (v', omega arith, (λ q. k' q ∙ k q), p' ∙ p)

    apply_paths-PageDone :
        (folder : Folder) (index : Index) (paths : List Text) {out : Folder × Index}
        → IsValid index
        → apply_paths codec collision_key check_root apply authorized folder index paths ≡ ok out
        → PageDone index out.1
    unfolding apply_paths
    apply_paths-PageDone folder index [] {out} v h =
        subst (λ (x : Folder × Index). PageDone index x.1) (ok-injective h)
          (v, omega arith, (λ p. refl), refl)
    apply_paths-PageDone folder index (path ∷ paths) {out} v h =
        let (local, g, (published, next, h1, done, _)) =
          apply_paths-first folder index path paths v h in
        PageDone-trans index next out.1 done (apply_paths-PageDone published next paths done.0 h1)

    -- A page takes at least its first row from those that wait.
    candidate_paths-PageDone :
        (folder : Folder) (index : Index) (path : Text) (paths : List Text) {out : Folder × Index}
        → IsValid index
        → candidate_paths index ≡ path ∷ paths
        → apply_paths codec collision_key check_root apply authorized folder index (path ∷ paths)
          ≡ ok out
        → PageDone index out.1 × (waiting_count out.1 < waiting_count index)
    candidate_paths-PageDone folder index path paths {out} v c h =
        let (old, g, t) = candidate_paths-cons index path paths v c in
        let (local, g', (published, next, h1, done, count)) =
          apply_paths-first folder index path paths v h in
        let same : local ≡ old = some-injective (sym g' ∙ g) in
        let waits : is_waiting index.pending (path, local) ≡ true =
          ap (λ (x : Entry). is_waiting index.pending (path, x)) same ∙ t in
        let fewer : waiting_count next < waiting_count index = ground (arith, count) in
        let rest = apply_paths-PageDone published next paths done.0 h1 in
        (PageDone-trans index next out.1 done rest, omega (arith, rest.1))

    -- With more fuel than rows that wait, the loop ends: some step fails, or it succeeds, and then each
    -- row has been observed or waits for an approval, the index is valid, a path has the version set that
    -- it had, or no row as before, and the same paths are pending as before.
    pub apply_pending-done :
        (fuel : ℕ) (folder : Folder) (index : Index) (p : Text)
        → IsValid index
        → waiting_count index < fuel
        → ((message : String) × (apply_pending codec collision_key check_root apply authorized fuel
                folder index
              ≡ err message))
          ⊎ ((folder' : Folder) × (index' : Index) × (apply_pending codec collision_key check_root
                  apply authorized fuel folder index
                ≡ ok (some (folder', index')))
              × IsValid index'
              × AllObserved index'
              × (versions_at p index' ≡ versions_at p index)
              × (index'.pending ≡ index.pending))
    unfolding apply_pending
    apply_pending-done zero folder index p v l = absurd (omega arith)
    apply_pending-done (suc fuel) folder index p v l = elim (List-cases (candidate_paths index)) [
      | inl c ↦ inr (
        folder,
        index,
        rw (apply_pending, c) refl,
        v,
        no_waiting-AllObserved index (candidate_paths-empty index c),
        refl,
        refl,
      )
      | inr (path, paths, c) ↦
          elim (Result-cases (
            apply_paths codec collision_key check_root apply authorized folder index
              (path ∷ paths))) [
                | inl ((published, next), e) ↦
                    let ((w, _, keeps, same), fewer) =
                      candidate_paths-PageDone folder index path paths v c e in
                    elim (apply_pending-done fuel published next p w (omega (arith, fewer))) [
                      | inl (message, f) ↦ inl (message, rw (apply_pending, c, e) f)
                      | inr (folder', index', f, w', all, keeps', same') ↦ inr (
                        folder',
                        index',
                        rw (apply_pending, c, e) f,
                        w',
                        all,
                        keeps' ∙ keeps p,
                        same' ∙ same,
                      )
                    ]
                | inr (message, e) ↦ inl (message, rw (apply_pending, c, e) refl)
              ]
    ]
