-- ===== src/Central/Handing.antt =====
-- What a poll answers, and what it does with the tables: the results that it records and the command that
-- it hands out.
use happy_active_everywhere.Base.{
  ℕ, true, false, ◌&&◌, Option, none, some, List, [], ◌∷◌, ◌++◌, leb, length, map, if◌then◌else◌,
  ok, context, >>=-eq-ok, >>-eq-ok, ensure-eq-ok, ok-injective, Bool-cases, inl, inr, ◌⊎◌, ◌≡◌,
  refl, sym, ap, subst, ◌∙◌, &&-split, true≢false, some-injective, none≢some, arith,
}
use happy_active_everywhere.Base.In.{All}
use happy_active_everywhere.Base.Order.{≟-refl, list_ord}
use happy_active_everywhere.Base.Text.{Text}
use happy_active_everywhere.Base.BTreeMap.{get, get-insert}
use happy_active_everywhere.Identity.{valid_peer}
use happy_active_everywhere.Central.{
  Value, Envelope, State, registered, pending, approved, revoked, CommandResult, Reply, Device,
  delivered, Command, Tables, Outside,
}
use happy_active_everywhere.Central.Store.{hand_out, poll, seen_at}
use happy_active_everywhere.Central.Rows.{
  equal_secret, is_approved, record_results, is_waiting, first_waiting, deliver, is_idle,
}
use happy_active_everywhere.Central.Enrolling.{context-some}
use happy_active_everywhere.Central.Delivering.{Distinct, deliver_first, update-deliver_first}
use happy_active_everywhere.Central.Polling.{
  equal_secret-eq, AreFinished, record_results-AreFinished,
}
use happy_active_everywhere.Central.Telling.{AreTold, record_results-AreTold}
use happy_active_everywhere.Central.Recording.{
  settled, record_results-settled, record_results-Distinct,
}

-- No command of the table is pending for the device.
abbrev pub IsQuiet : Text → List Command → Type 0
IsQuiet device cs = All (λ (c : Command). is_waiting device c ≡ false) cs

-- Where the first command stands that is pending for the device.
abbrev IsFirst : Text → List Command → List Command → Command → List Command → Type 0
IsFirst device cs earlier c later =
    (cs ≡ earlier ++ (c ∷ later)) × IsQuiet device earlier × (is_waiting device c ≡ true)

first_waiting-IsFirst :
    (now : ℕ) (device : Text) (cs : List Command) {c : Command}
    → first_waiting device cs ≡ some c
    → (earlier : List Command) × (later : List Command) × IsFirst device cs earlier c later
      × (deliver_first now device cs ≡ earlier ++ (deliver now c ∷ later))
unfolding first_waiting deliver_first
first_waiting-IsFirst now device [] h = cc
first_waiting-IsFirst now device (d ∷ cs) {c} h = elim (Bool-cases (is_waiting device d)) [
  | inl t ↦
      let e : d ≡ c = some-injective (rw (first_waiting, t) at h) in
      (
        [],
        cs,
        (
          ap (λ (x : Command). x ∷ cs) e,
          tt,
          subst (λ (x : Command). is_waiting device x ≡ true) e t,
        ),
        rw (deliver_first, t) (ap (λ (x : Command). deliver now x ∷ cs) e),
      )
  | inr t ↦
      let (earlier, later, (split, quiet, w), q) =
        first_waiting-IsFirst now device cs (rw (first_waiting, t) at h) in
      (
        d ∷ earlier,
        later,
        (ap (λ (x : List Command). d ∷ x) split, (t, quiet), w),
        rw (deliver_first, t) (ap (λ (x : List Command). d ∷ x) q),
      )
]

first_waiting-IsQuiet :
    (device : Text) (cs : List Command) → first_waiting device cs ≡ none → IsQuiet device cs
unfolding first_waiting
first_waiting-IsQuiet device [] h = tt
first_waiting-IsQuiet device (d ∷ cs) h = elim (Bool-cases (is_waiting device d)) [
  | inl t ↦ absurd (none≢some (sym (rw (first_waiting, t) at h)))
  | inr t ↦ (t, first_waiting-IsQuiet device cs (rw (first_waiting, t) at h))
]

only_approved : (s : State) → is_approved s ≡ true → s ≡ approved
only_approved registered h = cc
only_approved pending h = cc
only_approved approved h = refl
only_approved revoked h = cc

only_idle : (active : Option Text) → is_idle active ≡ true → active ≡ none
only_idle none h = refl
only_idle (some id) h = cc

asked_not :
    (s : State) (active : Option Text)
    → (is_approved s && is_idle active) ≡ false
    → (¬ (s ≡ approved)) ⊎ (¬ (active ≡ none))
asked_not s active h = elim (Bool-cases (is_approved s)) [
  | inl t ↦ inr (λ e. true≢false (sym (ap is_idle e) ∙ second t))
  | inr t ↦ inl (λ e. true≢false (sym (ap is_approved e) ∙ t))
]
  where
    second : is_approved s ≡ true → is_idle active ≡ false
    second t = ground arith

module _ {Operation : Type 0} (outside : Outside Operation) where
  -- What an approved device without an active command gets of the commands `cs`, and the commands
  -- afterwards: none where none is pending for it, else the first that is, which is then delivered.
  abbrev pub IsGiven : ℕ → Text → List Command → Option (Envelope Operation) → List Command → Type 0
  IsGiven now device cs command cs' =
      (IsQuiet device cs × (command ≡ none) × (cs' ≡ cs))
      ⊎ ((earlier : List Command) × (c : Command) × (later : List Command) × (operation : Operation)
          × (cs ≡ earlier ++ (c ∷ later))
          × IsQuiet device earlier
          × (is_waiting device c ≡ true)
          × (outside.parse c.body ≡ ok operation)
          × (command ≡ some (record { id = c.id; operation = operation }))
          × (cs' ≡ earlier ++ (record c { status = delivered; updated = now } ∷ later)))

  hand_out-IsGiven :
      (now : ℕ) (device : Text) (cs : List Command) (next : Option Command)
      {handed : Option (Envelope Operation) × List Command}
      → Distinct cs
      → first_waiting device cs ≡ next
      → hand_out outside now next cs ≡ ok handed
      → IsGiven now device cs handed.0 handed.1
  unfolding hand_out
  hand_out-IsGiven now device cs none {handed} d e h =
      let made = sym (ok-injective h) in
      inl (
        first_waiting-IsQuiet device cs e,
        ap (λ (x : Option (Envelope Operation) × List Command). x.0) made,
        ap (λ (x : Option (Envelope Operation) × List Command). x.1) made,
      )
  hand_out-IsGiven now device cs (some c) {handed} d e h =
      let (operation, p, h1) = >>=-eq-ok (outside.parse c.body) _ h in
      let made = sym (ok-injective h1) in
      let (earlier, later, (split, quiet, w), q) = first_waiting-IsFirst now device cs e in
      inr (
        earlier,
        c,
        later,
        operation,
        split,
        quiet,
        w,
        p,
        ap (λ (x : Option (Envelope Operation) × List Command). x.0) made,
        ap (λ (x : Option (Envelope Operation) × List Command). x.1) made
            ∙ update-deliver_first now device cs d e
            ∙ q,
      )

  -- The answer for a device in the state `state`, of the recorded commands `cs`.
  abbrev pub IsHanded :
      ℕ
      → Text
      → State
      → Option Text
      → List Command
      → Option (Envelope Operation)
      → List Command
      → Type 0
  IsHanded now device state active cs command cs' =
      ((state ≡ approved) × (active ≡ none) × IsGiven now device cs command cs')
      ⊎ (((¬ (state ≡ approved)) ⊎ (¬ (active ≡ none))) × (command ≡ none) × (cs' ≡ cs))

  asked-IsHanded :
      (now : ℕ) (device : Text) (state : State) (active : Option Text) (cs : List Command)
      {handed : Option (Envelope Operation) × List Command}
      → Distinct cs
      → hand_out outside now
          (if is_approved state && is_idle active then first_waiting device cs else none)
          cs
        ≡ ok handed
      → IsHanded now device state active cs handed.0 handed.1
  unfolding hand_out
  asked-IsHanded now device state active cs {handed} d h =
      elim (Bool-cases (is_approved state && is_idle active)) [
        | inl t ↦
            let (may, idle) = &&-split (is_approved state) (is_idle active) t in
            inl (
              only_approved state may,
              only_idle active idle,
              hand_out-IsGiven now device cs (first_waiting device cs) d refl (rw t at h),
            )
        | inr t ↦
            let made = sym (ok-injective (rw t at h)) in
            inr (
              asked_not state active t,
              ap (λ (x : Option (Envelope Operation) × List Command). x.0) made,
              ap (λ (x : Option (Envelope Operation) × List Command). x.1) made,
            )
      ]

  -- A poll that succeeds is of a device that is enrolled, with a credential that has the hash that is
  -- stored; it answers the state of the device, notes when it was seen, and keeps its state, credential
  -- and certificate. For a table where no identifier stands twice: the results are recorded first, so
  -- that each command in flight has the first result that is for it and the other commands are
  -- unchanged; a result is acknowledged if its command is finished there, and
  -- whatever is acknowledged is finished there. A device that is approved and has no active
  -- command is then given the first command that is pending for it, with its identifier and the
  -- operation that is stored, and that command alone is marked as delivered; it is given none only if
  -- none is pending. Any other device, also one that was revoked, is given none, and no command changes.
  pub poll-IsHanded :
      (now : ℕ) (device credential : Text) (report : Value) (results : List CommandResult)
      (active : Option Text) (tables : Tables) {answer : Reply Operation × Tables}
      → Distinct tables.commands
      → poll outside now device credential report results active tables ≡ ok answer
      → (row : Device) × (after : Device) × (cs : List Command) × (get device tables.devices
          ≡ some row)
        × (row.credential ≡ outside.secret_hash credential)
        × (answer.0.state ≡ row.state)
        × (get device answer.1.devices ≡ some after)
        × (after.seen ≡ now)
        × (after.state ≡ row.state)
        × (after.credential ≡ row.credential)
        × (after.certificate ≡ row.certificate)
        × (cs ≡ map (settled now device results) tables.commands)
        × AreFinished device answer.0.acknowledged cs
        × AreTold device results answer.0.acknowledged cs
        × IsHanded now device row.state active cs answer.0.command answer.1.commands
  unfolding poll
  poll-IsHanded now device credential report results active tables {answer} d h =
      let (_, h1) = >>-eq-ok (valid_peer device) _ h in
      let (_, h2) = >>-eq-ok (valid_peer credential) _ h1 in
      let (_, h3) = ensure-eq-ok (leb (length results) 16) _ _ h2 in
      let (row, e, h4) =
        >>=-eq-ok (context (get device tables.devices) "agent is not enrolled") _ h3 in
      let (s, h5) =
        ensure-eq-ok (equal_secret row.credential (outside.secret_hash credential)) _ _ h4 in
      let recorded = record_results now device results tables.commands in
      let next =
        if is_approved row.state && is_idle active then first_waiting device recorded.1 else none in
      let (handed, g, h6) = >>=-eq-ok (hand_out outside now next recorded.1) _ h5 in
      let made = sym (ok-injective h6) in
      (
        row,
        seen_at outside now report row,
        recorded.1,
        context-some outside (get device tables.devices) _ e,
        equal_secret-eq row.credential (outside.secret_hash credential) s,
        ap (λ (x : Reply Operation × Tables). x.0.state) made,
        ap (λ (x : Reply Operation × Tables). get device x.1.devices) made
            ∙ get-insert device device (seen_at outside now report row) tables.devices
            ∙ rw (≟-refl device),
        refl,
        refl,
        refl,
        refl,
        record_results-settled now device results tables.commands,
        subst (λ (ids : List Text). AreFinished device ids recorded.1)
            (sym (ap (λ (x : Reply Operation × Tables). x.0.acknowledged) made))
            (record_results-AreFinished now device results tables.commands),
        subst (λ (ids : List Text). AreTold device results ids recorded.1)
            (sym (ap (λ (x : Reply Operation × Tables). x.0.acknowledged) made))
            (record_results-AreTold now device results tables.commands),
        subst
            (λ (x : Reply Operation × Tables).
              IsHanded now device row.state active recorded.1 x.0.command x.1.commands)
            (sym made)
            (asked-IsHanded now device row.state active recorded.1
              (record_results-Distinct now device results tables.commands d) g),
      )
