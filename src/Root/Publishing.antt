-- ===== src/Root/Publishing.antt =====
-- What `apply` leaves at the path when it succeeds.
use happy_active_everywhere.Base.{
  String, true, false, not, ◌&&◌, Option, none, some, [], ◌∷◌, any, ◌++◌, ◌≡◌, refl, sym, ap, subst,
  ◌∙◌, inl, inr, Bool-cases, Option-cases, Result-cases,
}
use happy_active_everywhere.Base.Order.{≟-refl, list_ord}
use happy_active_everywhere.Base.Text.{Text}
use happy_active_everywhere.Base.BTreeMap.{get, remove, get-insert, get-remove, contains_key}
use happy_active_everywhere.Model.{Content, file, directory, deleted, same}
use happy_active_everywhere.Model.Equality.{same-eq, same_refl}
use happy_active_everywhere.Model.FilePath.{validate_path}
use happy_active_everywhere.Root.{
  written, Transaction, Disk, Outcome, finished, failed, and_then, disk_of, set_files,
  set_transaction, no_transaction, transaction, parents, ensure_parents, create_dir, remove_dir,
  is_directory, starts_with, hard_link, copy_object, open_transaction, write_record, displace,
  put_back, publish, finish_record, replace, change, is_applied, same_option, apply,
}
use happy_active_everywhere.Root.Keeping.{transaction-set}

pub failed≢finished : {m : String} {a b : Disk} → failed m a ≡ finished b → ⊥
failed≢finished e = cc

pub finished-injective : {a b : Disk} → finished a ≡ finished b → a ≡ b
finished-injective e = ap disk_of e

and_then-eq-finished :
    (outcome : Outcome) (next : Disk → Outcome) {out : Disk}
    → and_then outcome next ≡ finished out
    → (disk : Disk) × (outcome ≡ finished disk) × (next disk ≡ finished out)
and_then-eq-finished (finished disk) next h = (disk, refl, h)
and_then-eq-finished (failed message disk) next h = absurd (failed≢finished h)

module _ (id path : Text) where
  -- The path has what is wanted.
  abbrev pub IsPublished : Content → Disk → Type 0
  IsPublished after disk = is_applied (get path disk.files) after ≡ true

  linked :
      (o : Option Content) (disk : Disk) {out : Disk}
      → hard_link o path disk ≡ finished out
      → (get path out.files ≡ o)
  unfolding hard_link
  linked none disk h = absurd (failed≢finished h)
  linked (some c) disk h = elim (Option-cases (get path disk.files)) [
    | inl e ↦
        ap (λ (x : Disk). get path x.files) (sym (finished-injective (rw (hard_link, e) at h)))
        ∙ get-insert path path c disk.files
        ∙ rw (≟-refl path) refl
    | inr (there, e) ↦ absurd (failed≢finished (rw (hard_link, e) at h))
  ]

  -- The copy in the transaction is what is wanted.
  abbrev pub IsCopied : Content → Disk → Type 0
  IsCopied (file hash) disk = (transaction id disk).incoming ≡ some (file hash)
  IsCopied directory disk = Unit
  IsCopied deleted disk = Unit

  copy_object-IsCopied :
      (after : Content) (object : Option Content) (disk : Disk) {out : Disk}
      → copy_object id path after object disk ≡ finished out
      → IsCopied after out
  unfolding copy_object
  copy_object-IsCopied directory object disk h = tt
  copy_object-IsCopied deleted object disk h = tt
  copy_object-IsCopied (file hash) none disk h = absurd (failed≢finished h)
  copy_object-IsCopied (file hash) (some object) disk h =
      elim (Bool-cases (same object (file hash))) [
        | inl e ↦
            ap (λ (x : Disk). (transaction id x).incoming)
              (sym (finished-injective (rw (copy_object, e) at h)))
            ∙ ap (λ (x : Transaction). x.incoming)
                (transaction-set id path (record no_transaction { incoming = some object }) disk)
            ∙ ap some (same-eq object (file hash) e)
        | inr e ↦ absurd (failed≢finished (rw (copy_object, e) at h))
      ]

  pub open_transaction-IsCopied :
      (after : Content) (object : Option Content) (disk : Disk) {out : Disk}
      → open_transaction id path after object disk ≡ finished out
      → IsCopied after out
  unfolding open_transaction
  open_transaction-IsCopied after object disk h = elim (Bool-cases (contains_key id disk.journal)) [
    | inl e ↦ absurd (failed≢finished (rw (open_transaction, e) at h))
    | inr e ↦
        copy_object-IsCopied after object (set_transaction id no_transaction disk)
          (rw (open_transaction, e) at h)
  ]

  -- What changes a transaction in other files than `incoming`.
  IsCopied-incoming :
      (after : Content) (disk out : Disk)
      → (transaction id out).incoming ≡ (transaction id disk).incoming
      → IsCopied after disk
      → IsCopied after out
  IsCopied-incoming (file hash) disk out e c = e ∙ c
  IsCopied-incoming directory disk out e c = tt
  IsCopied-incoming deleted disk out e c = tt

  pub write_record-IsCopied :
      (current : Option Content) (after : Content) (disk : Disk) {out : Disk}
      → IsCopied after disk
      → write_record id path current after disk ≡ finished out
      → IsCopied after out
  unfolding write_record
  write_record-IsCopied current after disk {out} c h =
      let t : Transaction = record (transaction id disk) {
        record_file = written (record { path = path; before = current; after = after });
      } in
      IsCopied-incoming after disk out
        (ap (λ (x : Disk). (transaction id x).incoming) (sym (finished-injective h))
          ∙ ap (λ (x : Transaction). x.incoming) (transaction-set id path t disk))
        c

  pub displace-IsCopied :
      (current : Option Content) (after : Content) (disk : Disk) {out : Disk}
      → IsCopied after disk
      → displace id path current disk ≡ finished out
      → IsCopied after out
  unfolding displace
  displace-IsCopied none after disk {out} c h = subst (IsCopied after) (finished-injective h) c
  displace-IsCopied (some current) after disk {out} c h =
      elim (Option-cases (get path disk.files)) [
        | inl e ↦ absurd (failed≢finished (rw (displace, e) at h))
        | inr (there, e) ↦ elim (Bool-cases (same there current)) [
          | inr q ↦ absurd (failed≢finished (rw (displace, e, q) at h))
          | inl q ↦
              let t : Transaction = record (transaction id disk) { previous = some there } in
              IsCopied-incoming after disk out
                (ap (λ (x : Disk). (transaction id x).incoming)
                    (sym (finished-injective (rw (displace, e, q) at h)))
                  ∙ ap (λ (x : Transaction). x.incoming)
                      (transaction-set id path t (set_files (remove path disk.files) disk)))
                c
        ]
      ]

  pub publish-IsPublished :
      (current : Option Content) (after : Content) (disk : Disk) {out : Disk}
      → same after directory ≡ false
      → IsCopied after disk
      → publish id path current after disk ≡ finished out
      → IsPublished after out
  unfolding publish
  publish-IsPublished current directory disk d c h = cc
  publish-IsPublished current deleted disk {out} d c h = elim (Option-cases (get path disk.files)) [
    | inl e ↦
        let gone : get path out.files ≡ none =
          ap (λ (x : Disk). get path x.files) (sym (finished-injective (rw (publish, e) at h)))
          ∙ e in
        ap (λ (o : Option Content). is_applied o deleted) gone
    | inr (there, e) ↦ absurd (failed≢finished (rw (publish, e) at h))
  ]
  publish-IsPublished current (file hash) disk {out} d c h =
      let made : get path out.files ≡ some (file hash) =
        placed (hard_link (transaction id disk).incoming path disk) h
          (λ e. linked (transaction id disk).incoming disk e)
        ∙ c in
      ap (λ (o : Option Content). is_applied o (file hash)) made ∙ same_refl (file hash)
    where
      placed :
          (o : Outcome)
          → elim o [
            | finished next ↦ finished next
            | failed message next ↦
                failed "destination appeared during publication; data preserved"
                  (put_back id path current next)
          ]
            ≡ finished out
          → (o ≡ finished out → get path out.files ≡ (transaction id disk).incoming)
          → get path out.files ≡ (transaction id disk).incoming
      placed (finished next) h f = f h
      placed (failed message next) h f = absurd (failed≢finished h)

  replace-IsPublished :
      (current : Option Content) (after : Content) (object : Option Content) (disk : Disk)
      {out : Disk}
      → same after directory ≡ false
      → replace id path current after object disk ≡ finished out
      → IsPublished after out
  unfolding replace finish_record
  replace-IsPublished current after object disk {out} d h =
      let (d1, e1, h1) = and_then-eq-finished (open_transaction id path after object disk) _ h in
      let (d2, e2, h2) =
        and_then-eq-finished (write_record id path current after d1)
          (λ x.
            and_then (displace id path current x)
              (λ y. and_then (publish id path current after y) (finish_record id path)))
          h1 in
      let (d3, e3, h3) =
        and_then-eq-finished (displace id path current d2)
          (λ x. and_then (publish id path current after x) (finish_record id path)) h2 in
      let (d4, e4, h4) =
        and_then-eq-finished (publish id path current after d3) (finish_record id path) h3 in
      let copied =
        displace-IsCopied current after d2
          (write_record-IsCopied current after d1 (open_transaction-IsCopied after object disk e1)
            e2)
          e3 in
      subst (IsPublished after) (finished-injective h4)
        (publish-IsPublished current after d3 d copied e4)

  created :
      (disk : Disk) {out : Disk} → create_dir path disk ≡ finished out → IsPublished directory out
  unfolding create_dir
  created disk {out} h = elim (Option-cases (get path disk.files)) [
    | inr (there, e) ↦ absurd (failed≢finished (rw (create_dir, e) at h))
    | inl e ↦
        let made : get path out.files ≡ some directory =
          ap (λ (x : Disk). get path x.files) (sym (finished-injective (rw (create_dir, e) at h)))
          ∙ get-insert path path directory disk.files
          ∙ rw (≟-refl path) refl in
        ap (λ (o : Option Content). is_applied o directory) made ∙ same_refl directory
  ]

  removed :
      (disk : Disk) {out : Disk} → remove_dir path disk ≡ finished out → IsPublished deleted out
  unfolding remove_dir
  removed disk {out} h =
      let entries = any (λ (e : Text × Content). starts_with (path ++ (47 ∷ [])) e.0) disk.files in
      elim (Bool-cases (is_directory (get path disk.files) && not entries)) [
        | inr e ↦ absurd (failed≢finished (rw (remove_dir, e) at h))
        | inl e ↦
            let gone : get path out.files ≡ none =
              ap (λ (x : Disk). get path x.files)
                (sym (finished-injective (rw (remove_dir, e) at h)))
              ∙ get-remove path path disk.files
              ∙ rw (≟-refl path) refl in
            ap (λ (o : Option Content). is_applied o deleted) gone
      ]

  change-IsPublished :
      (current : Option Content) (after : Content) (object : Option Content) (disk : Disk)
      {out : Disk}
      → change id path current after object disk ≡ finished out
      → IsPublished after out
  unfolding change create_dir remove_dir
  change-IsPublished current after object disk {out} h = elim (Bool-cases (same after directory)) [
    | inl e ↦ elim (Option-cases current) [
      | inl c ↦
          subst (λ (x : Content). IsPublished x out) (sym (same-eq after directory e))
            (created disk (rw (change, e, c) at h))
      | inr (there, c) ↦ absurd (failed≢finished (rw (change, e, c) at h))
    ]
    | inr e ↦ elim (Bool-cases (is_directory current)) [
      | inl d ↦ elim (Bool-cases (same after deleted)) [
        | inl f ↦
            subst (λ (x : Content). IsPublished x out) (sym (same-eq after deleted f))
              (removed disk (rw (change, e, d, f) at h))
        | inr f ↦ absurd (failed≢finished (rw (change, e, d, f) at h))
      ]
      | inr d ↦ replace-IsPublished current after object disk e (rw (change, e, d) at h)
    ]
  ]

  -- When `apply` succeeds the path has the content that was wanted, or nothing if a deletion was wanted.
  pub apply-IsPublished :
      (before : Option Content) (after : Content) (object : Option Content) (disk : Disk)
      {out : Disk}
      → apply id path before after object disk ≡ finished out
      → IsPublished after out
  unfolding apply
  apply-IsPublished before after object disk {out} h = elim (Result-cases (validate_path path)) [
    | inr (message, e) ↦ absurd (failed≢finished (rw (apply, e) at h))
    | inl (u, e) ↦ elim (Bool-cases (is_applied (get path disk.files) after)) [
      | inl a ↦ subst (IsPublished after) (finished-injective (rw (apply, e, a) at h)) a
      | inr a ↦ elim (Bool-cases (same_option (get path disk.files) before)) [
        | inl b ↦
            let (d, _, h1) =
              and_then-eq-finished (ensure_parents (parents [] path) disk)
                (change id path (get path disk.files) after object) (rw (apply, e, a, b) at h) in
            change-IsPublished (get path disk.files) after object d h1
        | inr b ↦ absurd (failed≢finished (rw (apply, e, a, b) at h))
      ]
    ]
  ]
