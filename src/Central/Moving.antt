-- ===== src/Central/Moving.antt =====
-- Every operation lets the table `commands` evolve along the diagram.
use happy_active_everywhere.Base.{
  ℕ, Bool, true, false, ◌&&◌, Option, none, some, List, [], ◌∷◌, leb, length, if◌then◌else◌, ok,
  context, >>=-eq-ok, >>-eq-ok, ensure-eq-ok, ok-injective, Bool-cases, inl, inr, ◌≡◌, refl, sym,
  ap, subst, arith, &&-split,
}
use happy_active_everywhere.Base.Order.{◌≟◌, list_ord}
use happy_active_everywhere.Base.Text.{Text}
use happy_active_everywhere.Base.BTreeMap.{get}
use happy_active_everywhere.Identity.{valid_peer}
use happy_active_everywhere.Central.{
  Value, Envelope, reported_completed, reported_failed, reported_uncertain, ResultState,
  CommandResult, Reply, Status, queued, delivered, completed, failed, uncertain, cancelled, Command,
  Tables, Outside,
}
use happy_active_everywhere.Central.Store.{hand_out, poll}
use happy_active_everywhere.Central.Rows.{
  is_approved, is_queued, is_delivered, is_pending, status_of, update, is_in_flight, finish,
  record_result, record_results, is_waiting, first_waiting, has_id, deliver, is_idle, equal_secret,
}
use happy_active_everywhere.Central.Diagram.{
  sends, calls_off, reports, ◌⟶*◌, here, onward, Row, Evolves, all_unchanged, unchanged,
  Evolves-trans, update-Evolves,
}
use happy_active_everywhere.Central.Delivering.{
  Distinct, InOrder, update-Distinct, update-InOrder, deliver_first, update-deliver_first,
  deliver_first-InOrder,
}
use happy_active_everywhere.Central.Calls.{}

delivered_only : (s : Status) → is_delivered s ≡ true → s ≡ delivered
delivered_only queued h = cc
delivered_only delivered h = refl
delivered_only completed h = cc
delivered_only failed h = cc
delivered_only uncertain h = cc
delivered_only cancelled h = cc

queued_only : (s : Status) → is_queued s ≡ true → s ≡ queued
queued_only queued h = refl
queued_only delivered h = cc
queued_only completed h = cc
queued_only failed h = cc
queued_only uncertain h = cc
queued_only cancelled h = cc

finish-Row :
    (now : ℕ) (result : CommandResult) (c : Command)
    → is_delivered c.status ≡ true
    → Row c (finish now result c)
finish-Row now result c h =
    let e = delivered_only c.status h in
    (
      refl,
      refl,
      refl,
      refl,
      subst (λ (s : Status). s ⟶* status_of result.status) (sym e)
          (onward (reports result.status) here),
      inl (ap is_pending e),
    )

cancel-Row :
    (now : ℕ) (c : Command)
    → is_queued c.status ≡ true
    → Row c (record c { status = cancelled; updated = now })
cancel-Row now c h =
    let e = queued_only c.status h in
    (
      refl,
      refl,
      refl,
      refl,
      subst (λ (s : Status). s ⟶* cancelled) (sym e) (onward calls_off here),
      inl (ap is_pending e),
    )

deliver-Row : (now : ℕ) (c : Command) → is_pending c.status ≡ true → Row c (deliver now c)
deliver-Row now c h = (refl, refl, refl, refl, moved c.status h, inl h)
  where
    moved : (s : Status) → is_pending s ≡ true → s ⟶* delivered
    moved queued h = onward sends here
    moved delivered h = here
    moved completed h = cc
    moved failed h = cc
    moved uncertain h = cc
    moved cancelled h = cc

-- The invariant of the table, and a change that keeps it.
abbrev pub IsTable : List Command → Type 0
IsTable cs = Distinct cs × InOrder cs

abbrev pub Keeps : List Command → List Command → Type 0
Keeps cs ds = Evolves cs ds × IsTable ds

pub Keeps-trans : (xs ys zs : List Command) → Keeps xs ys → Keeps ys zs → Keeps xs zs
Keeps-trans xs ys zs (e, _) (f, t) = (Evolves-trans xs ys zs e f, t)

record_result-Keeps :
    (now : ℕ) (device : Text) (result : CommandResult) (cs : List Command)
    → IsTable cs
    → Keeps cs (record_result now device result cs).1
unfolding record_result
record_result-Keeps now device result cs (d, o) = (
  update-Evolves (is_in_flight device result.id) (finish now result) cs
      (λ c h. finish-Row now result c (ground arith)),
  (
    update-Distinct (is_in_flight device result.id) (finish now result) cs (λ c. refl) d,
    update-InOrder (is_in_flight device result.id) (finish now result) cs (λ c. over result.status)
        o,
  ),
)
  where
    over : (r : ResultState) → is_pending (status_of r) ≡ false
    over reported_completed = refl
    over reported_failed = refl
    over reported_uncertain = refl

pub record_results-Keeps :
    (now : ℕ) (device : Text) (results : List CommandResult) (cs : List Command)
    → IsTable cs
    → Keeps cs (record_results now device results cs).1
unfolding record_results
record_results-Keeps now device [] cs t = (all_unchanged cs, t)
record_results-Keeps now device (result ∷ results) cs t =
    let cs1 = (record_result now device result cs).1 in
    let first = record_result-Keeps now device result cs t in
    Keeps-trans cs cs1 (record_results now device results cs1).1 first
      (record_results-Keeps now device results cs1 first.1)

deliver_first-Evolves :
    (now : ℕ) (device : Text) (cs : List Command) → Evolves cs (deliver_first now device cs)
unfolding deliver_first
deliver_first-Evolves now device [] = tt
deliver_first-Evolves now device (c ∷ cs) = elim (Bool-cases (is_waiting device c)) [
  | inl t ↦
      rw (deliver_first, t)
        (deliver-Row now c (&&-split (c.device ≟ device) _ t).1, all_unchanged cs)
  | inr t ↦ rw (deliver_first, t) (unchanged c, deliver_first-Evolves now device cs)
]

pub cancelled-Keeps :
    (now : ℕ) (matches : Command → Bool) (cs : List Command)
    → ((c : Command) → matches c ≡ true → is_queued c.status ≡ true)
    → IsTable cs
    → Keeps cs (update matches (λ (c : Command). record c { status = cancelled; updated = now }) cs)
cancelled-Keeps now matches cs f (d, o) =
    let change = λ (c : Command). record c { status = cancelled; updated = now } in
    (
      update-Evolves matches change cs (λ c h. cancel-Row now c (f c h)),
      (
        update-Distinct matches change cs (λ c. refl) d,
        update-InOrder matches change cs (λ c. refl) o,
      ),
    )

module _ {Operation : Type 0} (outside : Outside Operation) where
  handed_to :
      (now : ℕ) (device : Text) (cs : List Command) (next : Option Command)
      {handed : Option (Envelope Operation) × List Command}
      → IsTable cs
      → first_waiting device cs ≡ next
      → hand_out outside now next cs ≡ ok handed
      → Keeps cs handed.1
  unfolding hand_out
  handed_to now device cs none t e h =
      subst (λ (x : Option (Envelope Operation) × List Command). Keeps cs x.1) (ok-injective h)
        (all_unchanged cs, t)
  handed_to now device cs (some c) (d, o) e h =
      let (operation, p, h1) = >>=-eq-ok (outside.parse c.body) _ h in
      let same = update-deliver_first now device cs d e in
      subst (λ (x : Option (Envelope Operation) × List Command). Keeps cs x.1) (ok-injective h1)
        (
          subst (λ (x : List Command). Evolves cs x) (sym same)
              (deliver_first-Evolves now device cs),
          (
            update-Distinct (has_id c.id) (deliver now) cs (λ c. refl) d,
            subst InOrder (sym same) (deliver_first-InOrder now device cs o),
          ),
        )

  hand_out-Keeps :
      (now : ℕ) (device : Text) (asked : Bool) (cs : List Command)
      {handed : Option (Envelope Operation) × List Command}
      → IsTable cs
      → hand_out outside now (if asked then first_waiting device cs else none) cs ≡ ok handed
      → Keeps cs handed.1
  unfolding hand_out
  hand_out-Keeps now device false cs t h =
      subst (λ (x : Option (Envelope Operation) × List Command). Keeps cs x.1) (ok-injective h)
        (all_unchanged cs, t)
  hand_out-Keeps now device true cs t h = handed_to now device cs (first_waiting device cs) t refl h

  pub poll-Keeps :
      (now : ℕ) (device credential : Text) (report : Value) (results : List CommandResult)
      (active : Option Text) (tables : Tables) {answer : Reply Operation × Tables}
      → IsTable tables.commands
      → poll outside now device credential report results active tables ≡ ok answer
      → Keeps tables.commands answer.1.commands
  unfolding poll
  poll-Keeps now device credential report results active tables t h =
      let (_, h1) = >>-eq-ok (valid_peer device) _ h in
      let (_, h2) = >>-eq-ok (valid_peer credential) _ h1 in
      let (_, h3) = ensure-eq-ok (leb (length results) 16) _ _ h2 in
      let (row, e, h4) =
        >>=-eq-ok (context (get device tables.devices) "agent is not enrolled") _ h3 in
      let (_, h5) =
        ensure-eq-ok (equal_secret row.credential (outside.secret_hash credential)) _ _ h4 in
      let recorded = record_results now device results tables.commands in
      let first = record_results-Keeps now device results tables.commands t in
      let next =
        if is_approved row.state && is_idle active then first_waiting device recorded.1 else none in
      let (handed, g, h6) = >>=-eq-ok (hand_out outside now next recorded.1) _ h5 in
      subst (λ (x : Reply Operation × Tables). Keeps tables.commands x.1.commands) (ok-injective h6)
        (Keeps-trans tables.commands recorded.1 handed.1 first (
          hand_out-Keeps now device (is_approved row.state && is_idle active) recorded.1 first.1 g))
