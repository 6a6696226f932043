-- ===== src/Central/Commands.antt =====
-- What any sequence of operations does to the table `commands`.
use happy_active_everywhere.Base.{
  ℕ, Bool, true, false, not, Option, none, some, List, [], ◌∷◌, ◌++◌, ltb, leb, length, any,
  if◌then◌else◌, Result, ok, err, context, >>=-eq-ok, >>-eq-ok, ensure-eq-ok, ok-injective, err≢ok,
  ◌≡◌, refl, sym, ap, subst, ◌∙◌, &&-split, not-true,
}
use happy_active_everywhere.Base.Order.{◌≟◌, list_ord}
use happy_active_everywhere.Base.Text.{Text}
use happy_active_everywhere.Base.BTreeMap.{get, contains_key}
use happy_active_everywhere.Identity.{valid_peer}
use happy_active_everywhere.Jobs.{SocketAddr}
use happy_active_everywhere.Central.{
  Invitation, Request, enroll_request, poll_request, Reply, Invite, Command, Tables, Outside,
}
use happy_active_everywhere.Central.Store.{
  invite, register, enroll, exchange, set_device, queued_row, queue, cancel,
}
use happy_active_everywhere.Central.Rows.{update, has_id, is_queued_for, cancel_at, is_cancellable}
use happy_active_everywhere.Central.Diagram.{here, Evolves, all_unchanged, append-Evolves}
use happy_active_everywhere.Central.Delivering.{Distinct, InOrder, append-Distinct, append-InOrder}
use happy_active_everywhere.Central.Moving.{
  IsTable, Keeps, Keeps-trans, cancelled-Keeps, poll-Keeps,
}
use happy_active_everywhere.Central.Calls.{
  Call, call_invite, call_exchange, call_set_device, call_queue, call_cancel, committed, replaced,
  call, call_all,
}

module _ {Operation : Type 0} (outside : Outside Operation) where
  same_commands : (cs : List Command) {ds : List Command} → IsTable cs → ds ≡ cs → Keeps cs ds
  same_commands cs t e = subst (Keeps cs) (sym e) (all_unchanged cs, t)

  register-commands :
      (now : ℕ) (invitation credential name : Text) (certificate : List ℕ) (device : Text)
      (row : Invite) (used : Option Text) (tables : Tables) {tables' : Tables}
      → register outside now invitation credential name certificate device row used tables
        ≡ ok tables'
      → tables'.commands ≡ tables.commands
  unfolding register
  register-commands now invitation credential name certificate device row (some used) tables h =
      let (_, h1) = ensure-eq-ok _ "invitation already used" (ok tables) h in
      sym (ap (λ (t : Tables). t.commands) (ok-injective h1))
  register-commands now invitation credential name certificate device row none tables h =
      let (_, h1) = ensure-eq-ok (leb now row.expires) _ _ h in
      let (_, h2) = ensure-eq-ok (ltb (length tables.devices) 128) _ _ h1 in
      let (_, h3) = ensure-eq-ok (not (contains_key device tables.devices)) _ _ h2 in
      sym (ap (λ (t : Tables). t.commands) (ok-injective h3))

  pub enroll-register :
      (now : ℕ) (invitation credential name : Text) (certificate : List ℕ) (tables : Tables)
      {answer : Reply Operation × Tables}
      → enroll outside now invitation credential name certificate tables ≡ ok answer
      → (row : Invite) × (get (outside.secret_hash invitation) tables.invites ≡ some row)
        × (register outside now invitation credential name certificate
              (outside.fingerprint certificate)
              row
              row.device
              tables
            ≡ ok answer.1)
  unfolding enroll
  enroll-register now invitation credential name certificate tables h =
      let (_, h1) = >>-eq-ok (valid_peer invitation) _ h in
      let (_, h2) = >>-eq-ok (valid_peer credential) _ h1 in
      let (_, h3) = ensure-eq-ok _ "invalid device name" _ h2 in
      let (_, h4) = ensure-eq-ok (leb (length certificate) 8192) _ _ h3 in
      let (_, h5) = ensure-eq-ok (outside.accepts certificate) _ _ h4 in
      let (row, e, h6) =
        >>=-eq-ok
          (context (get (outside.secret_hash invitation) tables.invites)
            "invalid enrollment invitation")
          _ h5 in
      let (tables', g, h7) =
        >>=-eq-ok
          (register outside now invitation credential name certificate
            (outside.fingerprint certificate) row row.device tables)
          _ h6 in
      (
        row,
        context-some (get (outside.secret_hash invitation) tables.invites) e,
        g ∙ ap (λ (x : Reply Operation × Tables). ok x.1) (ok-injective h7),
      )
    where
      context-some :
          (o : Option Invite) {i : Invite}
          → context o "invalid enrollment invitation" ≡ ok i
          → o ≡ some i
      context-some none e = absurd (err≢ok e)
      context-some (some i) e = ap some (ok-injective e)

  invite-Keeps :
      (now : ℕ) (random : Result Text) (label : Text) (address : SocketAddr) (certificate : List ℕ)
      (tables : Tables) {answer : Invitation × Tables}
      → IsTable tables.commands
      → invite outside now random label address certificate tables ≡ ok answer
      → Keeps tables.commands answer.1.commands
  unfolding invite
  invite-Keeps now random label address certificate tables t h =
      let (_, h1) = ensure-eq-ok _ "invitation name required (120 bytes maximum)" _ h in
      let (_, h2) = ensure-eq-ok _ "use an address reachable from the agent" _ h1 in
      let (token, e, h3) = >>=-eq-ok random _ h2 in
      let (_, h4) =
        ensure-eq-ok (not (contains_key (outside.secret_hash token) tables.invites)) _ _ h3 in
      same_commands tables.commands t
        (sym (ap (λ (x : Invitation × Tables). x.1.commands) (ok-injective h4)))

  exchange-Keeps :
      (now : ℕ) (request : Request) (tables : Tables) {answer : Reply Operation × Tables}
      → IsTable tables.commands
      → exchange outside now request tables ≡ ok answer
      → Keeps tables.commands answer.1.commands
  unfolding exchange
  exchange-Keeps now (poll_request device credential report results active) tables t h =
      poll-Keeps outside now device credential report results active tables t h
  exchange-Keeps now (enroll_request invitation credential name certificate) tables t h =
      let (row, _, g) = enroll-register now invitation credential name certificate tables h in
      same_commands tables.commands t (
        register-commands now invitation credential name certificate
          (outside.fingerprint certificate) row row.device tables g)

  set_device-Keeps :
      (now : ℕ) (device : Text) (approve : Bool) (tables : Tables) {tables' : Tables}
      → IsTable tables.commands
      → set_device outside now device approve tables ≡ ok tables'
      → Keeps tables.commands tables'.commands
  unfolding set_device
  set_device-Keeps now device approve tables t h =
      let (_, h1) = >>-eq-ok (valid_peer device) _ h in
      let (row, _, h2) = >>=-eq-ok (context (get device tables.devices) "unknown device") _ h1 in
      subst (λ (x : Tables). Keeps tables.commands x.commands) (ok-injective h2) (set approve)
    where
      set :
          (on : Bool)
          → Keeps tables.commands (
              if on
              then tables.commands
              else update (is_queued_for device) (cancel_at now) tables.commands)
      set true = (all_unchanged tables.commands, t)
      set false =
          cancelled-Keeps now (is_queued_for device) tables.commands
            (λ c m. (&&-split (c.device ≟ device) _ m).1) t

  cancel-Keeps :
      (now : ℕ) (id : Text) (tables : Tables) {tables' : Tables}
      → IsTable tables.commands
      → cancel outside now id tables ≡ ok tables'
      → Keeps tables.commands tables'.commands
  unfolding cancel
  cancel-Keeps now id tables t h =
      let (_, h1) = ensure-eq-ok _ "only an undispatched command can be cancelled" _ h in
      subst (λ (x : Tables). Keeps tables.commands x.commands) (ok-injective h1)
        (cancelled-Keeps now (is_cancellable id) tables.commands
          (λ c m. (&&-split (c.id ≟ id) _ m).1) t)

  queue-Keeps :
      (now : ℕ) (requests : List (Text × Operation × Result Text)) (tables : Tables)
      {answer : List Text × Tables}
      → IsTable tables.commands
      → queue outside now requests tables ≡ ok answer
      → Keeps tables.commands answer.1.commands
  unfolding queue
  queue-Keeps now [] tables t h =
      same_commands tables.commands t
        (sym (ap (λ (x : List Text × Tables). x.1.commands) (ok-injective h)))
  queue-Keeps now ((device, operation, random) ∷ requests) tables (d, o) h =
      let (_, h1) = ensure-eq-ok _ "device is not approved" _ h in
      let (_, h2) = ensure-eq-ok _ "too many pending commands on this device" _ h1 in
      let (id, e, h3) = >>=-eq-ok random _ h2 in
      let (n, h4) = ensure-eq-ok (not (any (has_id id) tables.commands)) _ _ h3 in
      let row = queued_row outside now device operation id in
      let more : Tables = record tables { commands = tables.commands ++ (row ∷ []) } in
      let (rest, g, h5) = >>=-eq-ok (queue outside now requests more) _ h4 in
      let first : Keeps tables.commands more.commands = (
        append-Evolves tables.commands (row ∷ []) (here, tt),
        (
          append-Distinct tables.commands row (not-true _ n) d,
          append-InOrder tables.commands row refl o,
        ),
      ) in
      subst (λ (x : List Text × Tables). Keeps tables.commands x.1.commands) (ok-injective h5)
        (Keeps-trans tables.commands more.commands rest.1.commands first
          (queue-Keeps now requests more first.1 g))

  committed-Keeps :
      {A : Type 0} (tables : Tables) (tried : Result (A × Tables))
      → IsTable tables.commands
      → ((answer : A × Tables) → tried ≡ ok answer → Keeps tables.commands answer.1.commands)
      → Keeps tables.commands (committed tables tried).commands
  committed-Keeps tables (ok answer) t f = f answer refl
  committed-Keeps tables (err message) t f = (all_unchanged tables.commands, t)

  replaced-Keeps :
      (tables : Tables) (tried : Result Tables)
      → IsTable tables.commands
      → ((tables' : Tables) → tried ≡ ok tables' → Keeps tables.commands tables'.commands)
      → Keeps tables.commands (replaced tables tried).commands
  replaced-Keeps tables (ok tables') t f = f tables' refl
  replaced-Keeps tables (err message) t f = (all_unchanged tables.commands, t)

  call-Keeps :
      (c : Call Operation) (tables : Tables)
      → IsTable tables.commands
      → Keeps tables.commands (call outside c tables).commands
  unfolding call
  call-Keeps (call_invite now random label address certificate) tables t =
      committed-Keeps tables (invite outside now random label address certificate tables) t
        (λ answer h. invite-Keeps now random label address certificate tables t h)
  call-Keeps (call_exchange now request) tables t =
      committed-Keeps tables (exchange outside now request tables) t
        (λ answer h. exchange-Keeps now request tables t h)
  call-Keeps (call_set_device now device approve) tables t =
      replaced-Keeps tables (set_device outside now device approve tables) t
        (λ tables' h. set_device-Keeps now device approve tables t h)
  call-Keeps (call_queue now requests) tables t =
      committed-Keeps tables (queue outside now requests tables) t
        (λ answer h. queue-Keeps now requests tables t h)
  call-Keeps (call_cancel now id) tables t =
      replaced-Keeps tables (cancel outside now id tables) t
        (λ tables' h. cancel-Keeps now id tables t h)

  -- Whatever operations follow, whether they succeed or fail, on a table where no identifier stands twice
  -- and where no device was given a command before one that was queued earlier and is pending: this holds
  -- afterwards, no command is lost, each is the same operation for the same device, its state has
  -- followed the diagram, it is unchanged if it was not pending, and new commands have been queued.
  pub call_all-Evolves :
      (calls : List (Call Operation)) (tables : Tables)
      → IsTable tables.commands
      → Evolves tables.commands (call_all outside calls tables).commands
        × (Distinct (call_all outside calls tables).commands
            × InOrder (call_all outside calls tables).commands)
  unfolding call_all
  call_all-Evolves [] tables t = (all_unchanged tables.commands, t)
  call_all-Evolves (c ∷ calls) tables t =
      let first = call-Keeps c tables t in
      Keeps-trans tables.commands (call outside c tables).commands
        (call_all outside calls (call outside c tables)).commands first
        (call_all-Evolves calls (call outside c tables) first.1)
