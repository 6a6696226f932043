-- ===== src/Root/Keeping.antt =====
-- No file is lost: what an operation of the program removes from the folder stays in the journal.
use happy_active_everywhere.Base.{
  String, true, false, not, ◌&&◌, ◌||◌, Option, none, some, List, [], ◌∷◌, any, ◌++◌, ◌≡◌, refl,
  sym, ap, ◌∙◌, arith, ◌⊎◌, inl, inr, Bool-cases, Option-cases, Result-cases, some-injective,
  none≢some, true≢false,
}
use happy_active_everywhere.Base.Order.{◌≟◌, ≟-eq, ≟-refl, list_ord}
use happy_active_everywhere.Base.Text.{Text}
use happy_active_everywhere.Base.BTreeMap.{
  BTreeMap, get, insert, remove, get-insert, get-remove, contains_key, keys,
}
use happy_active_everywhere.Model.{Content, file, directory, deleted, same}
use happy_active_everywhere.Model.FilePath.{validate_path}
use happy_active_everywhere.Root.{
  Intent, RecordFile, absent, torn, written, Transaction, Disk, Outcome, finished, failed, and_then,
  disk_of, set_files, set_transaction, no_transaction, transaction, parents, ensure_parents,
  create_dir, remove_dir, is_directory, starts_with, hard_link, copy_object, open_transaction,
  write_record, displace, put_back, publish, finish_record, replace, change, is_applied,
  same_option, apply, recover_transaction, recover_all, recover,
}

-- A file with this content is at the path, or was displaced into the journal.
abbrev pub IsDisplaced : Text → BTreeMap Text Transaction → Type 0
IsDisplaced hash journal =
    (id : Text) × (t : Transaction) × (get id journal ≡ some t) × (t.previous ≡ some (file hash))

abbrev pub IsHeld : Text → Text → Disk → Type 0
IsHeld p hash disk = (get p disk.files ≡ some (file hash)) ⊎ IsDisplaced hash disk.journal

abbrev pub Holds : Disk → Disk → Type 0
Holds disk disk' = (p hash : Text) → IsHeld p hash disk → IsHeld p hash disk'

and_then-Holds :
    (disk : Disk) (outcome : Outcome) (next : Disk → Outcome)
    → Holds disk (disk_of outcome)
    → ((d : Disk) → outcome ≡ finished d → Holds d (disk_of (next d)))
    → Holds disk (disk_of (and_then outcome next))
and_then-Holds disk (finished d) next h k p hash i = k d refl p hash (h p hash i)
and_then-Holds disk (failed message d) next h k p hash i = h p hash i

-- A transaction may change in all but the file that it holds.
IsDisplaced-insert :
    (id : Text) (t : Transaction) (disk : Disk) (hash : Text)
    → (((transaction id disk).previous ≡ none) ⊎ (t.previous ≡ (transaction id disk).previous))
    → IsDisplaced hash disk.journal
    → IsDisplaced hash (insert id t disk.journal)
unfolding transaction
IsDisplaced-insert id t disk hash e (j, u, g, h) = elim (Bool-cases (j ≟ id)) [
  | inl q ↦
      let here : get id disk.journal ≡ some u =
        ap (λ (x : Text). get x disk.journal) (sym (≟-eq j id q)) ∙ g in
      let was : (transaction id disk).previous ≡ some (file hash) = rw (transaction, here) h in
      elim e [
        | inl n ↦ absurd (none≢some (sym n ∙ was))
        | inr s ↦ (j, t, get-insert id j t disk.journal ∙ rw q refl, s ∙ was)
      ]
  | inr q ↦ (j, u, get-insert id j t disk.journal ∙ rw q g, h)
]

set_transaction-Holds :
    (id : Text) (t : Transaction) (disk : Disk)
    → (((transaction id disk).previous ≡ none) ⊎ (t.previous ≡ (transaction id disk).previous))
    → Holds disk (set_transaction id t disk)
set_transaction-Holds id t disk e p hash (inl g) = inl g
set_transaction-Holds id t disk e p hash (inr j) = inr (IsDisplaced-insert id t disk hash e j)

-- Something new at a path where nothing is.
insert-Holds :
    (path : Text) (c : Content) (disk : Disk)
    → get path disk.files ≡ none
    → Holds disk (set_files (insert path c disk.files) disk)
insert-Holds path c disk n p hash (inr j) = inr j
insert-Holds path c disk n p hash (inl g) = elim (Bool-cases (p ≟ path)) [
  | inl q ↦
      absurd (none≢some (sym n ∙ ap (λ (x : Text). get x disk.files) (sym (≟-eq p path q)) ∙ g))
  | inr q ↦ inl (get-insert path p c disk.files ∙ rw q g)
]

hard_link-Holds :
    (o : Option Content) (path : Text) (disk : Disk) → Holds disk (disk_of (hard_link o path disk))
unfolding hard_link
hard_link-Holds none path disk = λ p hash i. i
hard_link-Holds (some c) path disk = elim (Option-cases (get path disk.files)) [
  | inl e ↦ rw (hard_link, e) (insert-Holds path c disk e)
  | inr (there, e) ↦ rw (hard_link, e) (λ p hash i. i)
]

create_dir-Holds : (path : Text) (disk : Disk) → Holds disk (disk_of (create_dir path disk))
unfolding create_dir
create_dir-Holds path disk = elim (Option-cases (get path disk.files)) [
  | inl e ↦ rw (create_dir, e) (insert-Holds path directory disk e)
  | inr (there, e) ↦ rw (create_dir, e) (λ p hash i. i)
]

ensure_parents-Holds :
    (qs : List Text) (disk : Disk) → Holds disk (disk_of (ensure_parents qs disk))
unfolding ensure_parents
ensure_parents-Holds [] disk p hash i = i
ensure_parents-Holds (q ∷ qs) disk p hash i = elim (Option-cases (get q disk.files)) [
  | inl e ↦
      rw (ensure_parents, e)
        (ensure_parents-Holds qs (set_files (insert q directory disk.files) disk) p hash
          (insert-Holds q directory disk e p hash i))
  | inr (file h, e) ↦ rw (ensure_parents, e) i
  | inr (directory, e) ↦ rw (ensure_parents, e) (ensure_parents-Holds qs disk p hash i)
  | inr (deleted, e) ↦ rw (ensure_parents, e) i
]

is_directory-eq : (o : Option Content) → is_directory o ≡ true → o ≡ some directory
is_directory-eq none h = cc
is_directory-eq (some (file x)) h = cc
is_directory-eq (some directory) h = refl
is_directory-eq (some deleted) h = cc

remove-Holds :
    (path : Text) (disk : Disk)
    → get path disk.files ≡ some directory
    → Holds disk (set_files (remove path disk.files) disk)
remove-Holds path disk n p hash (inr j) = inr j
remove-Holds path disk n p hash (inl g) = elim (Bool-cases (p ≟ path)) [
  | inl q ↦ absurd (
      not_file hash
        (some-injective (sym n ∙ ap (λ (x : Text). get x disk.files) (sym (≟-eq p path q)) ∙ g)))
  | inr q ↦ inl (get-remove path p disk.files ∙ rw q g)
]
  where
    not_file : (h : Text) → directory ≡ file h → ⊥
    not_file h e = cc

remove_dir-Holds : (path : Text) (disk : Disk) → Holds disk (disk_of (remove_dir path disk))
unfolding remove_dir
remove_dir-Holds path disk =
    let entries = any (λ (e : Text × Content). starts_with (path ++ (47 ∷ [])) e.0) disk.files in
    elim (Bool-cases (is_directory (get path disk.files) && not entries)) [
      | inl e ↦
          rw (remove_dir, e)
            (remove-Holds path disk (is_directory-eq (get path disk.files) (ground arith)))
      | inr e ↦ rw (remove_dir, e) (λ p hash i. i)
    ]

-- The file that stands at the path is moved into a transaction that holds nothing.
move-Holds :
    (id path : Text) (there : Content) (disk : Disk)
    → get path disk.files ≡ some there
    → (transaction id disk).previous ≡ none
    → Holds disk (
        set_transaction id
          (record (transaction id disk) { previous = some there })
          (set_files (remove path disk.files) disk))
move-Holds id path there disk g n p hash i =
    let t : Transaction = record (transaction id disk) { previous = some there } in
    elim i [
      | inr j ↦ inr (IsDisplaced-insert id t disk hash (inl n) j)
      | inl q ↦ elim (Bool-cases (p ≟ path)) [
        | inl e ↦ inr (
          id,
          t,
          get-insert id id t disk.journal ∙ rw (≟-refl id) refl,
          sym g ∙ ap (λ (x : Text). get x disk.files) (sym (≟-eq p path e)) ∙ q,
        )
        | inr e ↦ inl (get-remove path p disk.files ∙ rw e q)
      ]
    ]

module _ (id path : Text) where
  unchanged : (disk : Disk) → Holds disk disk
  unchanged disk p hash i = i

  -- A transaction that was just made holds nothing.
  pub transaction-set :
      (t : Transaction) (disk : Disk) → transaction id (set_transaction id t disk) ≡ t
  unfolding transaction
  transaction-set t disk =
      let g : get id (insert id t disk.journal) ≡ some t =
        get-insert id id t disk.journal ∙ rw (≟-refl id) refl in
      rw (transaction, g) refl

  fresh :
      (disk : Disk) → contains_key id disk.journal ≡ false → (transaction id disk).previous ≡ none
  unfolding contains_key transaction
  fresh disk h = elim (Option-cases (get id disk.journal)) [
    | inl e ↦ rw (transaction, e) refl
    | inr (t, e) ↦ absurd (true≢false (rw (contains_key, e) at h))
  ]

  abbrev pub HoldsFresh : Disk → Outcome → Type 0
  HoldsFresh disk outcome =
      Holds disk (disk_of outcome) × ((transaction id (disk_of outcome)).previous ≡ none)

  copy_object-HoldsFresh :
      (after : Content) (object : Option Content) (disk : Disk)
      → (transaction id disk).previous ≡ none
      → HoldsFresh disk (copy_object id path after object disk)
  unfolding copy_object
  copy_object-HoldsFresh directory object disk n = (unchanged disk, n)
  copy_object-HoldsFresh deleted object disk n = (unchanged disk, n)
  copy_object-HoldsFresh (file hash) none disk n = (unchanged disk, n)
  copy_object-HoldsFresh (file hash) (some object) disk n =
      let t : Transaction = record no_transaction { incoming = some object } in
      let held = set_transaction-Holds id t disk (inl n) in
      let free = ap (λ (x : Transaction). x.previous) (transaction-set t disk) in
      elim (Bool-cases (same object (file hash))) [
        | inl e ↦ rw (copy_object, e) (held, free)
        | inr e ↦ rw (copy_object, e) (held, free)
      ]

  Holds-trans : (a b c : Disk) → Holds a b → Holds b c → Holds a c
  Holds-trans a b c f g p hash i = g p hash (f p hash i)

  open_transaction-HoldsFresh :
      (after : Content) (object : Option Content) (disk : Disk)
      → Holds disk (disk_of (open_transaction id path after object disk))
        × ((d : Disk)
            → open_transaction id path after object disk ≡ finished d
            → (transaction id d).previous ≡ none)
  unfolding open_transaction
  open_transaction-HoldsFresh after object disk = elim (Bool-cases (contains_key id disk.journal)) [
    | inl e ↦ rw (open_transaction, e) (unchanged disk, (λ d q. absurd (finished≢failed q)))
    | inr e ↦
        let opened = set_transaction id no_transaction disk in
        let (held, free) =
          copy_object-HoldsFresh after object opened
            (ap (λ (x : Transaction). x.previous) (transaction-set no_transaction disk)) in
        rw (open_transaction, e)
          (
            Holds-trans disk opened _
                (set_transaction-Holds id no_transaction disk (inl (fresh disk e))) held,
            (λ d q. ap (λ (x : Outcome). (transaction id (disk_of x)).previous) (sym q) ∙ free),
          )
  ]
    where
      finished≢failed : {m : String} {a b : Disk} → failed m a ≡ finished b → ⊥
      finished≢failed e = cc

  write_record-HoldsFresh :
      (current : Option Content) (after : Content) (disk : Disk)
      → (transaction id disk).previous ≡ none
      → HoldsFresh disk (write_record id path current after disk)
  unfolding write_record
  write_record-HoldsFresh current after disk n =
      let t : Transaction = record (transaction id disk) {
        record_file = written (record { path = path; before = current; after = after });
      } in
      (
        set_transaction-Holds id t disk (inr refl),
        ap (λ (x : Transaction). x.previous) (transaction-set t disk) ∙ n,
      )

  displace-Holds :
      (current : Option Content) (disk : Disk)
      → (transaction id disk).previous ≡ none
      → Holds disk (disk_of (displace id path current disk))
  unfolding displace
  displace-Holds none disk n = unchanged disk
  displace-Holds (some current) disk n = elim (Option-cases (get path disk.files)) [
    | inl e ↦ rw (displace, e) (unchanged disk)
    | inr (there, e) ↦
        let moved : Disk =
          set_transaction id (record (transaction id disk) { previous = some there })
            (set_files (remove path disk.files) disk) in
        let held : Holds disk moved = move-Holds id path there disk e n in
        elim (Bool-cases (same there current)) [
          | inl q ↦ rw (displace, e, q) held
          | inr q ↦
              rw (displace, e, q)
                (Holds-trans disk moved _ held (hard_link-Holds (some there) path moved))
        ]
  ]

  put_back-Holds :
      (current : Option Content) (disk : Disk) → Holds disk (put_back id path current disk)
  unfolding put_back
  put_back-Holds none disk = unchanged disk
  put_back-Holds (some current) disk = hard_link-Holds (transaction id disk).previous path disk

  publish-Holds :
      (current : Option Content) (after : Content) (disk : Disk)
      → Holds disk (disk_of (publish id path current after disk))
  unfolding publish
  publish-Holds current directory disk = unchanged disk
  publish-Holds current deleted disk = elim (Option-cases (get path disk.files)) [
    | inl e ↦ rw (publish, e) (unchanged disk)
    | inr (there, e) ↦ rw (publish, e) (unchanged disk)
  ]
  publish-Holds current (file hash) disk =
      linked (hard_link (transaction id disk).incoming path disk)
        (hard_link-Holds (transaction id disk).incoming path disk)
    where
      linked :
          (o : Outcome)
          → Holds disk (disk_of o)
          → Holds disk (
              disk_of (elim o [
                | finished next ↦ finished next
                | failed message next ↦
                    failed "destination appeared during publication; data preserved"
                      (put_back id path current next)
              ]))
      linked (finished next) h = h
      linked (failed message next) h =
          Holds-trans disk next (put_back id path current next) h (put_back-Holds current next)

  finish_record-Holds : (disk : Disk) → Holds disk (disk_of (finish_record id path disk))
  unfolding finish_record
  finish_record-Holds disk =
      set_transaction-Holds id (record (transaction id disk) { incoming = none; done = true }) disk
        (inr refl)

  replace-Holds :
      (current : Option Content) (after : Content) (object : Option Content) (disk : Disk)
      → Holds disk (disk_of (replace id path current after object disk))
  unfolding replace
  replace-Holds current after object disk =
      let (opened, free) = open_transaction-HoldsFresh after object disk in
      and_then-Holds disk (open_transaction id path after object disk) _ opened (λ d1 e1.
        let (w, n) = write_record-HoldsFresh current after d1 (free d1 e1) in
        and_then-Holds d1 (write_record id path current after d1)
          (λ x.
            and_then (displace id path current x)
              (λ y. and_then (publish id path current after y) (finish_record id path)))
          w
          (λ d2 e2.
            and_then-Holds d2 (displace id path current d2)
              (λ x. and_then (publish id path current after x) (finish_record id path))
              (displace-Holds current d2
                (ap (λ (x : Outcome). (transaction id (disk_of x)).previous) (sym e2) ∙ n))
              (λ d3 e3.
                and_then-Holds d3 (publish id path current after d3) (finish_record id path)
                  (publish-Holds current after d3) (λ d4 e4. finish_record-Holds d4))))

  change-Holds :
      (current : Option Content) (after : Content) (object : Option Content) (disk : Disk)
      → Holds disk (disk_of (change id path current after object disk))
  unfolding change
  change-Holds current after object disk = elim (Bool-cases (same after directory)) [
    | inl e ↦ elim (Option-cases current) [
      | inl c ↦ rw (change, e, c) (create_dir-Holds path disk)
      | inr (there, c) ↦ rw (change, e, c) (unchanged disk)
    ]
    | inr e ↦ elim (Bool-cases (is_directory current)) [
      | inl d ↦ elim (Bool-cases (same after deleted)) [
        | inl f ↦ rw (change, e, d, f) (remove_dir-Holds path disk)
        | inr f ↦ rw (change, e, d, f) (unchanged disk)
      ]
      | inr d ↦ rw (change, e, d) (replace-Holds current after object disk)
    ]
  ]

  -- Whether `apply` succeeds or fails, no file is lost: a file that was at some path with some content,
  -- or held by the journal, is there still, or the journal holds it.
  pub apply-IsHeld :
      (before : Option Content) (after : Content) (object : Option Content) (disk : Disk)
      (p hash : Text)
      → IsHeld p hash disk
      → IsHeld p hash (disk_of (apply id path before after object disk))
  unfolding apply
  apply-IsHeld before after object disk p hash i = elim (Result-cases (validate_path path)) [
    | inr (message, e) ↦ rw (apply, e) i
    | inl (u, e) ↦ elim (Bool-cases (is_applied (get path disk.files) after)) [
      | inl a ↦ rw (apply, e, a) i
      | inr a ↦ elim (Bool-cases (same_option (get path disk.files) before)) [
        | inl b ↦
            rw (apply, e, a, b)
              (and_then-Holds disk (ensure_parents (parents [] path) disk)
                (change id path (get path disk.files) after object)
                (ensure_parents-Holds (parents [] path) disk)
                (λ d q. change-Holds (get path disk.files) after object d) p hash i)
        | inr b ↦ rw (apply, e, a, b) i
      ]
    ]
  ]

RecordFile-cases :
    (r : RecordFile) → (r ≡ absent) ⊎ ((r ≡ torn) ⊎ ((intent : Intent) × (r ≡ written intent)))
RecordFile-cases absent = inl refl
RecordFile-cases torn = inr (inl refl)
RecordFile-cases (written intent) = inr (inr (intent, refl))

recover_transaction-Holds :
    (id : Text) (disk : Disk) → Holds disk (disk_of (recover_transaction id disk))
unfolding recover_transaction
recover_transaction-Holds id disk = elim (Bool-cases (transaction id disk).done) [
  | inl d ↦ rw (recover_transaction, d) (λ p hash i. i)
  | inr d ↦ elim (RecordFile-cases (transaction id disk).record_file) [
    | inl n ↦ rw (recover_transaction, d, n) (λ p hash i. i)
    | inr (inl n) ↦ rw (recover_transaction, d, n) (λ p hash i. i)
    | inr (inr (intent, n)) ↦ elim (Result-cases (validate_path intent.path)) [
      | inr (message, e) ↦ rw (recover_transaction, d, n, e) (λ p hash i. i)
      | inl (u, e) ↦
          elim (Bool-cases (
            is_applied (get intent.path disk.files) intent.after
            || same_option (get intent.path disk.files) intent.before)) [
              | inl a ↦
                  rw (recover_transaction, d, n, e, a) (finish_record-Holds id intent.path disk)
              | inr a ↦ elim (Option-cases (get intent.path disk.files)) [
                | inr (there, g) ↦ rw (recover_transaction, d, n, e, a, g) (λ p hash i. i)
                | inl g ↦ elim (Option-cases (transaction id disk).previous) [
                  | inl w ↦ rw (recover_transaction, d, n, e, a, g, w) (λ p hash i. i)
                  | inr (previous, w) ↦
                      rw (recover_transaction, d, n, e, a, g, w)
                        (and_then-Holds disk (hard_link (some previous) intent.path disk)
                          (finish_record id intent.path)
                          (hard_link-Holds (some previous) intent.path disk)
                          (λ x q. finish_record-Holds id intent.path x))
                ]
              ]
            ]
    ]
  ]
]

recover_all-Holds : (ids : List Text) (disk : Disk) → Holds disk (disk_of (recover_all ids disk))
unfolding recover_all
recover_all-Holds [] disk p hash i = i
recover_all-Holds (id ∷ ids) disk p hash i =
    and_then-Holds disk (recover_transaction id disk) (recover_all ids)
      (recover_transaction-Holds id disk) (λ d e. recover_all-Holds ids d) p hash i

-- Nor does `recover` lose a file, whether it succeeds or fails.
pub recover-IsHeld :
    (disk : Disk) (p hash : Text) → IsHeld p hash disk → IsHeld p hash (disk_of (recover disk))
unfolding recover
recover-IsHeld disk p hash i = recover_all-Holds (keys disk.journal) disk p hash i
