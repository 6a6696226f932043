-- ===== src/Share/Choosing/Chosen.antt =====
-- What the row of a path is after a choice.
use happy_active_everywhere.Base.{
  String, Bool, Option, none, some, List, [], ◌∷◌, Result, ok, context, >>=-eq-ok, >>-eq-ok,
  ok-injective, err≢ok, some-injective, ◌≡◌, refl, sym, ap, subst, ◌∙◌,
}
use happy_active_everywhere.Base.In.{All}
use happy_active_everywhere.Base.Order.{≟-refl, list_ord}
use happy_active_everywhere.Base.Text.{Text}
use happy_active_everywhere.Base.BTreeMap.{get, remove, get-remove}
use happy_active_everywhere.Versions.{relation, before}
use happy_active_everywhere.Model.{Content, Revision, Versions, Codec, edit, selected, least}
use happy_active_everywhere.Model.Edit.{ClocksSorted, edit_supersedes}
use happy_active_everywhere.Share.{Entry, Index, save}
use happy_active_everywhere.Share.Saving.{IsValid, save-IsValid, save-get}
use happy_active_everywhere.Share.Scan.{unpend}
use happy_active_everywhere.Share.Scan.Steps.{pend-IsValid}
use happy_active_everywhere.Share.Commit.{actual, object_of, apply_local}
use happy_active_everywhere.Share.Choosing.{check_object, pick, choose_revision, choose_scanned}

context-ok :
    {A : Type 0} (found : Option A) (message : String) {a : A}
    → context found message ≡ ok a
    → found ≡ some a
context-ok none message h = absurd (err≢ok h)
context-ok (some a) message h = ap some (ok-injective h)

module _ (codec : Codec) (collision_key : Text → Text) (replica : Text) where
  -- The row after the choice: one head, with the content that was chosen, newer than all heads before;
  -- it has been observed, and the folder has its content.
  abbrev pub IsChosen : List Revision → Content → Entry → Type 0
  IsChosen heads chosen entry =
      (h : Revision) × (entry.versions.heads ≡ h ∷ [])
      × (h.content ≡ chosen)
      × All (λ (old : Revision). relation old.clock h.clock ≡ before) heads
      × (entry.observed ≡ entry.versions)
      × (entry.materialized ≡ actual chosen)

  selected-one :
      (versions : Versions) (h r : Revision)
      → versions.heads ≡ h ∷ []
      → selected codec versions ≡ some r
      → r ≡ h
  unfolding selected least
  selected-one versions h r e s =
      let one : selected codec (record { heads = h ∷ [] }) ≡ some r =
        subst (λ (l : List Revision). selected codec (record { heads = l }) ≡ some r) e s in
      sym (some-injective one)

  module _ {Folder : Type 0} (check_root : Folder → Result (Unit {0}))
      (apply : Folder → Text → Option Content → Content → Result Folder)
      (authorized : Folder → Result (Unit {0})) (content : Folder → Text → Result (Option Content))
      (object_hash : Text → Result Text) where
    apply_local-IsChosen :
        (folder : Folder) (index : Index) (path : Text) (row : Entry) (h : Revision)
        {out : Folder × Index}
        → IsValid index
        → row.versions.heads ≡ h ∷ []
        → apply_local codec collision_key check_root apply authorized folder index path row ≡ ok out
        → IsValid out.1
          × ((entry : Entry) × (get path out.1.entries ≡ some entry)
              × (entry.versions ≡ row.versions)
              × (entry.observed ≡ entry.versions)
              × (entry.materialized ≡ actual h.content))
          × (out.1.pending ≡ index.pending)
    unfolding apply_local
    apply_local-IsChosen folder index path row h {out} v e a =
        let (chosen, c, a1) =
          >>=-eq-ok (context (selected codec row.versions) "empty version set") _ a in
        let (_, a2) = >>-eq-ok (object_of chosen.content) _ a1 in
        let (_, a3) = >>-eq-ok (check_root folder) _ a2 in
        let (published, _, a4) =
          >>=-eq-ok (apply folder path row.materialized chosen.content) _ a3 in
        let (next, s, a5) =
          >>=-eq-ok
            (save codec collision_key index path row.versions (actual chosen.content) row.versions)
            _ a4 in
        let same =
          selected-one row.versions h chosen e (context-ok (selected codec row.versions) _ c) in
        let (entry, f, b, m, o, _, p, _, _, _) =
          save-get codec collision_key index path path row.versions (actual chosen.content)
            row.versions s in
        subst
          (λ (x : Folder × Index).
            IsValid x.1
            × ((entry : Entry) × (get path x.1.entries ≡ some entry)
                × (entry.versions ≡ row.versions)
                × (entry.observed ≡ entry.versions)
                × (entry.materialized ≡ actual h.content))
            × (x.1.pending ≡ index.pending))
          (ok-injective a5)
          (
            save-IsValid codec collision_key index path row.versions (actual chosen.content)
                row.versions v s,
            (
              entry,
              f ∙ rw (≟-refl path) refl,
              b,
              o ∙ sym b,
              m ∙ ap (λ (r : Revision). actual r.content) same,
            ),
            p,
          )

    choose_revision-IsChosen :
        (folder : Folder) (index : Index) (path : Text) (local : Entry) (chosen : Revision)
        {out : Folder × Index}
        → IsValid index
        → ClocksSorted local.versions.heads
        → choose_revision codec collision_key replica check_root apply authorized content
            object_hash folder index path local chosen
          ≡ ok out
        → IsValid out.1
          × ((entry : Entry) × (get path out.1.entries ≡ some entry)
              × IsChosen local.versions.heads chosen.content entry)
          × (get path out.1.pending ≡ none)
    unfolding choose_revision
    choose_revision-IsChosen folder index path local chosen {out} v k e =
        let (_, e1) = >>-eq-ok (check_object object_hash chosen.content) _ e in
        let (versions, ed, e2) =
          >>=-eq-ok (edit codec local.versions replica chosen.content) _ e1 in
        let (there, _, e3) = >>=-eq-ok (content folder path) _ e2 in
        let (next, s, e4) =
          >>=-eq-ok (save codec collision_key index path versions there local.observed) _ e3 in
        let (row, r, e5) = >>=-eq-ok (context (get path next.entries) "unwrap of no row") _ e4 in
        let (h, one, content_of, newer) =
          edit_supersedes codec local.versions replica chosen.content ed k in
        let (saved, f, b, _, _, _, _, _, _, _) =
          save-get codec collision_key index path path versions there local.observed s in
        let same : row ≡ saved =
          some-injective
            (sym (context-ok (get path next.entries) _ r) ∙ f ∙ rw (≟-refl path) refl) in
        let heads : row.versions.heads ≡ h ∷ [] =
          ap (λ (x : Entry). x.versions.heads) same ∙ ap (λ (x : Versions). x.heads) b ∙ one in
        let valid =
          pend-IsValid codec collision_key next (remove path next.pending)
            (save-IsValid codec collision_key index path versions there local.observed v s) in
        let (v', (entry, g, w, o, m), p) =
          apply_local-IsChosen folder (unpend path next) path row h valid heads e5 in
        (
          v',
          (
            entry,
            g,
            (
              h,
              ap (λ (x : Versions). x.heads) w ∙ heads,
              content_of,
              newer,
              o,
              m ∙ ap actual content_of,
            ),
          ),
          ap (get path) p ∙ get-remove path path next.pending ∙ rw (≟-refl path) refl,
        )

    -- A choice that succeeds after the scan, on a valid index where the clocks of the row's heads are in
    -- key order, is of a revision that the history has under this name, or of a head with this name.
    -- Afterwards the index is valid, the path is not pending, and its row has a single head, with the
    -- content of that revision and newer than every head that there was, which has been observed and
    -- published.
    pub choose_scanned-IsChosen :
        (folder : Folder) (index : Index) (path revision : Text) (historical : Bool) {local : Entry}
        {out : Folder × Index}
        → IsValid index
        → get path index.entries ≡ some local
        → ClocksSorted local.versions.heads
        → choose_scanned codec collision_key replica check_root apply authorized content object_hash
            folder index path revision historical
          ≡ ok out
        → IsValid out.1
          × ((chosen : Revision) × (entry : Entry) × (pick codec collision_key replica historical
                  path revision local index
                ≡ ok chosen)
              × (get path out.1.entries ≡ some entry)
              × IsChosen local.versions.heads chosen.content entry)
          × (get path out.1.pending ≡ none)
    unfolding choose_scanned
    choose_scanned-IsChosen folder index path revision historical {local} {out} v g k e =
        let (found, f, e1) = >>=-eq-ok (context (get path index.entries) "unknown path") _ e in
        let same : found ≡ local =
          some-injective (sym (context-ok (get path index.entries) _ f) ∙ g) in
        let (chosen, c, e2) =
          >>=-eq-ok (pick codec collision_key replica historical path revision found index) _ e1 in
        let step =
          subst
            (λ (x : Entry).
              choose_revision codec collision_key replica check_root apply authorized content
                object_hash folder index path x chosen
              ≡ ok out)
            same e2 in
        let (v', (entry, h, i), p) =
          choose_revision-IsChosen folder index path local chosen v k step in
        (
          v',
          (
            chosen,
            entry,
            subst
                (λ (x : Entry).
                  pick codec collision_key replica historical path revision x index ≡ ok chosen)
                same c,
            h,
            i,
          ),
          p,
        )
