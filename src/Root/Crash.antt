-- ===== src/Root/Crash.antt =====
-- A process that stops in the middle of `apply`, and what `recover` then does.
use happy_active_everywhere.Base.{
  String, Bool, true, false, ◌||◌, Option, none, some, ok, ◌≡◌, refl, sym, ap, subst, ◌∙◌, arith,
  ◌⊎◌, inl, inr, Bool-cases, Option-cases, true≢false,
}
use happy_active_everywhere.Base.Order.{≟-refl, list_ord}
use happy_active_everywhere.Base.Text.{Text}
use happy_active_everywhere.Base.BTreeMap.{
  BTreeMap, get, insert, remove, get-insert, get-remove, contains_key,
}
use happy_active_everywhere.Model.{Content, file, directory, deleted, same}
use happy_active_everywhere.Model.Equality.{same-eq, same_refl}
use happy_active_everywhere.Model.FilePath.{validate_path}
use happy_active_everywhere.Root.{
  Intent, RecordFile, absent, torn, written, Transaction, create_record, Disk, finished, failed,
  disk_of, set_files, set_transaction, no_transaction, transaction, hard_link, copy_object,
  open_transaction, write_record, displace, publish, finish_record, is_applied, same_option,
  recover_transaction,
}
use happy_active_everywhere.Root.Keeping.{transaction-set}
use happy_active_everywhere.Root.Publishing.{
  failed≢finished, finished-injective, open_transaction-IsCopied, write_record-IsCopied,
  displace-IsCopied, publish-IsPublished,
}

same_option_refl : (o : Option Content) → same_option o o ≡ true
same_option_refl none = refl
same_option_refl (some c) = same_refl c

module _ (id path : Text) where
  -- The disk when `apply`, on its way by the journal, has stopped between two of its steps.
  pub data Stopped (current : Option Content) (after : Content) (object : Option Content)
      (disk : Disk) : Disk → Type 0 where
    opened :
        {d1 : Disk}
        → open_transaction id path after object disk ≡ finished d1
        → Stopped current after object disk d1
    recorded :
        {d1 d2 : Disk}
        → open_transaction id path after object disk ≡ finished d1
        → write_record id path current after d1 ≡ finished d2
        → Stopped current after object disk d2
    displaced :
        {d1 d2 d3 : Disk}
        → open_transaction id path after object disk ≡ finished d1
        → write_record id path current after d1 ≡ finished d2
        → displace id path current d2 ≡ finished d3
        → Stopped current after object disk d3
    published :
        {d1 d2 d3 d4 : Disk}
        → open_transaction id path after object disk ≡ finished d1
        → write_record id path current after d1 ≡ finished d2
        → displace id path current d2 ≡ finished d3
        → publish id path current after d3 ≡ finished d4
        → Stopped current after object disk d4

  -- The disk when it has stopped between the creation of the record and the end of its writing.
  abbrev pub StoppedTorn : Content → Option Content → Disk → Disk → Type 0
  StoppedTorn after object disk stopped =
      (d1 : Disk) × (open_transaction id path after object disk ≡ finished d1)
      × (create_record id path d1 ≡ finished stopped)

  -- `recover` succeeds for the transaction, and the path has what it had, or what is wanted.
  abbrev pub IsRecovered : Option Content → Content → Disk → Type 0
  IsRecovered current after disk =
      (out : Disk) × (recover_transaction id disk ≡ finished out)
      × ((get path out.files ≡ current) ⊎ (is_applied (get path out.files) after ≡ true))

  -- The transaction that is there after each change.
  abbrev Has : RecordFile → Option Content → Disk → Type 0
  Has content previous disk =
      ((transaction id disk).record_file ≡ content)
      × ((transaction id disk).previous ≡ previous)
      × ((transaction id disk).done ≡ false)

  set-Has :
      (t : Transaction) (disk : Disk)
      → t.done ≡ false
      → Has t.record_file t.previous (set_transaction id t disk)
  set-Has t disk h =
      let e = transaction-set id path t disk in
      (
        ap (λ (x : Transaction). x.record_file) e,
        ap (λ (x : Transaction). x.previous) e,
        ap (λ (x : Transaction). x.done) e ∙ h,
      )

  open_transaction-Has :
      (after : Content) (object : Option Content) (disk : Disk) {out : Disk}
      → open_transaction id path after object disk ≡ finished out
      → Has absent none out × (out.files ≡ disk.files)
  unfolding open_transaction copy_object
  open_transaction-Has after object disk {out} h =
      elim (Bool-cases (contains_key id disk.journal)) [
        | inl e ↦ absurd (failed≢finished (rw (open_transaction, e) at h))
        | inr e ↦ copied after object (rw (open_transaction, e) at h)
      ]
    where
      copied :
          (after : Content) (object : Option Content)
          → copy_object id path after object (set_transaction id no_transaction disk) ≡ finished out
          → Has absent none out × (out.files ≡ disk.files)
      copied directory object h =
          subst (λ (x : Disk). Has absent none x × (x.files ≡ disk.files)) (finished-injective h)
            (set-Has no_transaction disk refl, refl)
      copied deleted object h =
          subst (λ (x : Disk). Has absent none x × (x.files ≡ disk.files)) (finished-injective h)
            (set-Has no_transaction disk refl, refl)
      copied (file hash) none h = absurd (failed≢finished h)
      copied (file hash) (some object) h = elim (Bool-cases (same object (file hash))) [
        | inr e ↦ absurd (failed≢finished (rw (copy_object, e) at h))
        | inl e ↦
            subst (λ (x : Disk). Has absent none x × (x.files ≡ disk.files))
              (finished-injective (rw (copy_object, e) at h))
              (
                set-Has (record no_transaction { incoming = some object })
                    (set_transaction id no_transaction disk) refl,
                refl,
              )
      ]

  abbrev intent_of : Option Content → Content → Intent
  intent_of current after = record { path = path; before = current; after = after }

  write_record-Has :
      (current : Option Content) (after : Content) (disk : Disk) {out : Disk}
      → Has absent none disk
      → write_record id path current after disk ≡ finished out
      → Has (written (intent_of current after)) none out × (out.files ≡ disk.files)
  unfolding write_record
  write_record-Has current after disk {out} (i, p, d) h =
      let t : Transaction = record (transaction id disk) {
        record_file = written (intent_of current after);
      } in
      let (a, b, c) = set-Has t disk d in
      subst (λ (x : Disk). Has (written (intent_of current after)) none x × (x.files ≡ disk.files))
        (finished-injective h) ((a, b ∙ p, c), refl)

  displace-Has :
      (intent : Intent) (current : Option Content) (disk : Disk) {out : Disk}
      → Has (written intent) none disk
      → get path disk.files ≡ current
      → displace id path current disk ≡ finished out
      → Has (written intent) current out × (get path out.files ≡ none)
  unfolding displace
  displace-Has intent none disk {out} v g h =
      subst (λ (x : Disk). Has (written intent) none x × (get path x.files ≡ none))
        (finished-injective h) (v, g)
  displace-Has intent (some current) disk {out} (i, p, d) g h =
      elim (Bool-cases (same current current)) [
        | inr q ↦ absurd (true≢false (sym (same_refl current) ∙ q))
        | inl q ↦
            let t : Transaction = record (transaction id disk) { previous = some current } in
            let files = remove path disk.files in
            let (a, b, c) = set-Has t (set_files files disk) d in
            subst (λ (x : Disk). Has (written intent) (some current) x × (get path x.files ≡ none))
              (finished-injective (rw (displace, g, q) at h))
              ((a ∙ i, b, c), get-remove path path disk.files ∙ rw (≟-refl path) refl)
      ]

  publish-Has :
      (intent : Intent) (previous current : Option Content) (after : Content) (disk : Disk)
      {out : Disk}
      → Has (written intent) previous disk
      → publish id path current after disk ≡ finished out
      → Has (written intent) previous out
  unfolding publish hard_link
  publish-Has intent previous current directory disk {out} v h =
      subst (Has (written intent) previous) (finished-injective h) v
  publish-Has intent previous current deleted disk {out} v h =
      elim (Option-cases (get path disk.files)) [
        | inl e ↦
            subst (Has (written intent) previous) (finished-injective (rw (publish, e) at h)) v
        | inr (there, e) ↦ absurd (failed≢finished (rw (publish, e) at h))
      ]
  publish-Has intent previous current (file hash) disk {out} v h =
      elim (Option-cases (transaction id disk).incoming) [
        | inl e ↦ absurd (failed≢finished (rw (publish, e) at h))
        | inr (c, e) ↦ elim (Option-cases (get path disk.files)) [
          | inr (there, g) ↦ absurd (failed≢finished (rw (publish, e, g) at h))
          | inl g ↦
              subst (Has (written intent) previous) (finished-injective (rw (publish, e, g) at h)) v
        ]
      ]

  recover-opened :
      (disk : Disk) → Has absent none disk → recover_transaction id disk ≡ finished disk
  unfolding recover_transaction
  recover-opened disk (i, p, d) = rw (recover_transaction, d, i) refl

  -- The path has what it had, or what is wanted.
  abbrev is_settled : Option Content → Content → Option Content → Bool
  is_settled current after there = is_applied there after || same_option there current

  same_option-eq : (a b : Option Content) → same_option a b ≡ true → a ≡ b
  same_option-eq none none h = refl
  same_option-eq none (some b) h = cc
  same_option-eq (some a) none h = cc
  same_option-eq (some a) (some b) h = ap some (same-eq a b h)

  closed : Disk → Disk
  closed disk = disk_of (finish_record id path disk)

  finish_record-closed :
      (disk : Disk)
      → (finish_record id path disk ≡ finished (closed disk)) × ((closed disk).files ≡ disk.files)
  unfolding finish_record closed
  finish_record-closed disk = (refl, refl)

  recover-is_settled :
      (current previous : Option Content) (after : Content) (disk : Disk)
      → validate_path path ≡ ok tt
      → Has (written (intent_of current after)) previous disk
      → is_settled current after (get path disk.files) ≡ true
      → IsRecovered current after disk
  unfolding recover_transaction
  recover-is_settled current previous after disk ok_path (i, p, d) s =
      let (c, f) = finish_record-closed disk in
      (
        closed disk,
        rw (recover_transaction, d, i, ok_path, s) c,
        elim (Bool-cases (is_applied (get path disk.files) after)) [
          | inl a ↦ inr (ap (λ (x : BTreeMap Text Content). is_applied (get path x) after) f ∙ a)
          | inr a ↦
              inl (ap (get path) f ∙ same_option-eq (get path disk.files) current (ground arith))
        ],
      )

  put_back-linked :
      (previous : Content) (disk : Disk)
      → get path disk.files ≡ none
      → hard_link (some previous) path disk
        ≡ finished (set_files (insert path previous disk.files) disk)
  unfolding hard_link
  put_back-linked previous disk g = rw (hard_link, g) refl

  recover-displaced :
      (previous current : Content) (after : Content) (disk : Disk)
      → validate_path path ≡ ok tt
      → Has (written (intent_of (some current) after)) (some previous) disk
      → get path disk.files ≡ none
      → is_settled (some current) after none ≡ false
      → (out : Disk) × (recover_transaction id disk ≡ finished out)
        × (get path out.files ≡ some previous)
  unfolding recover_transaction
  recover-displaced previous current after disk ok_path (i, p, d) g s =
      let back = set_files (insert path previous disk.files) disk in
      let (c, f) = finish_record-closed back in
      (
        closed back,
        rw (recover_transaction, d, i, ok_path, g, s, p, put_back-linked previous disk g) c,
        ap (get path) f ∙ get-insert path path previous disk.files ∙ rw (≟-refl path) refl,
      )

  displaced-IsRecovered :
      (current : Option Content) (after : Content) (disk : Disk)
      → validate_path path ≡ ok tt
      → Has (written (intent_of current after)) current disk
      → get path disk.files ≡ none
      → IsRecovered current after disk
  displaced-IsRecovered current after disk ok_path v g =
      elim (Bool-cases (is_settled current after none)) [
        | inl s ↦
            recover-is_settled current current after disk ok_path v
              (ap (is_settled current after) g ∙ s)
        | inr s ↦ not_settled current s v
      ]
    where
      not_settled :
          (now : Option Content)
          → is_settled now after none ≡ false
          → Has (written (intent_of now after)) now disk
          → IsRecovered now after disk
      not_settled none s v = absurd (ground arith)
      not_settled (some c) s v =
          let (out, e, f) = recover-displaced c c after disk ok_path v g s in (out, e, inl f)

  -- Where `apply`, on its way by the journal to a file or a deletion, stops after it has prepared the
  -- transaction, written the record, displaced the file that was there or published the content, and no
  -- other program changes the disk: `recover` succeeds for the transaction, and the path has what it had
  -- before, or what is wanted.
  pub recover-stopped :
      (current : Option Content) (after : Content) (object : Option Content) (disk stopped : Disk)
      → validate_path path ≡ ok tt
      → get path disk.files ≡ current
      → same after directory ≡ false
      → Stopped current after object disk stopped
      → IsRecovered current after stopped
  recover-stopped current after object disk stopped ok_path g n (opened e1) =
      let (v, f) = open_transaction-Has after object disk e1 in
      (stopped, recover-opened stopped v, inl (ap (get path) f ∙ g))
  recover-stopped current after object disk stopped ok_path g n (recorded e1 e2) =
      let (v1, f1) = open_transaction-Has after object disk e1 in
      let (v2, f2) = write_record-Has current after _ v1 e2 in
      let now : get path stopped.files ≡ current = ap (get path) (f2 ∙ f1) ∙ g in
      recover-is_settled current none after stopped ok_path v2
        (ap (is_settled current after) now ∙ settled_refl current)
    where
      settled_refl : (now : Option Content) → is_settled now after now ≡ true
      settled_refl now = let e = same_option_refl now in ground arith
  recover-stopped current after object disk stopped ok_path g n (displaced e1 e2 e3) =
      let (v1, f1) = open_transaction-Has after object disk e1 in
      let (v2, f2) = write_record-Has current after _ v1 e2 in
      let (v3, f3) =
        displace-Has (intent_of current after) current _ v2 (ap (get path) (f2 ∙ f1) ∙ g) e3 in
      displaced-IsRecovered current after stopped ok_path v3 f3
  recover-stopped current after object disk stopped ok_path g n (published e1 e2 e3 e4) =
      let (v1, f1) = open_transaction-Has after object disk e1 in
      let (v2, f2) = write_record-Has current after _ v1 e2 in
      let (v3, f3) =
        displace-Has (intent_of current after) current _ v2 (ap (get path) (f2 ∙ f1) ∙ g) e3 in
      let v4 = publish-Has (intent_of current after) current current after _ v3 e4 in
      let copied =
        displace-IsCopied id path current after _
          (write_record-IsCopied id path current after _
            (open_transaction-IsCopied id path after object disk e1) e2)
          e3 in
      let done : is_applied (get path stopped.files) after ≡ true =
        publish-IsPublished id path current after _ n copied e4 in
      recover-is_settled current current after stopped ok_path v4 (ground arith)

  -- Where `apply` stops after the record was created and before it is written, `recover` fails for the
  -- transaction; it changes nothing, and the files are those that there were.
  pub recover-torn :
      (after : Content) (object : Option Content) (disk stopped : Disk)
      → StoppedTorn after object disk stopped
      → ((message : String) × (recover_transaction id stopped ≡ failed message stopped))
        × (stopped.files ≡ disk.files)
  unfolding recover_transaction create_record
  recover-torn after object disk stopped (d1, e1, e2) =
      let ((_, _, d), f) = open_transaction-Has after object disk e1 in
      let t : Transaction = record (transaction id d1) { record_file = torn } in
      let (a, b, c) = set-Has t d1 d in
      subst
        (λ (x : Disk).
          ((message : String) × (recover_transaction id x ≡ failed message x))
          × (x.files ≡ disk.files))
        (finished-injective e2)
        (("EOF while parsing a value", rw (recover_transaction, c, a) refl), f)
