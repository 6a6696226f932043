-- ===== src/Central/Store.antt =====
-- src/central/store.rs: the operations on the tables. A
-- transaction that fails leaves the tables as they were, so that an operation returns the new tables or
-- an error. `now` is the time of the operation, in seconds.
use happy_active_everywhere.Base.{
  ℕ, ◌+◌, ◌*◌, Bool, false, not, ◌&&◌, Option, none, some, List, [], ◌∷◌, ◌++◌, ltb, leb, ◌==◌,
  length, all, any, select, if◌then◌else◌, Result, ok, ensure, context, ◌>>=◌, ◌>>◌,
}
use happy_active_everywhere.Base.Order.{◌≟◌, list_ord}
use happy_active_everywhere.Base.Text.{Text, len, is_control}
use happy_active_everywhere.Base.BTreeMap.{get, insert, contains_key}
use happy_active_everywhere.Identity.{valid_peer}
use happy_active_everywhere.Jobs.{SocketAddr}
use happy_active_everywhere.Central.{
  Value, Invitation, Envelope, CommandResult, registered, pending, Request, enroll_request,
  poll_request, Reply, reply_state, Invite, Device, Status, queued, Command, Tables, Outside,
}
use happy_active_everywhere.Central.Rows.{
  equal_secret, is_approved, update, record_results, is_waiting, first_waiting, has_id, deliver,
  is_idle, is_queued_for, cancel_at, state_of, approved_row, is_some, is_cancellable, find_id,
}

module _ {Operation : Type 0} (outside : Outside Operation) where
  -- `Store::invite`; `random` is what `random_id` answers.
  unfoldable pub invite :
      ℕ → Result Text → Text → SocketAddr → List ℕ → Tables → Result (Invitation × Tables)
  invite now random label address certificate tables = do
    ensure (not (all outside.is_whitespace label) && leb (len label) 120)
        "invitation name required (120 bytes maximum)"
    ensure (not (address.port == 0) && outside.is_usable address.ip)
        "use an address reachable from the agent"
    token ← random
    let expires = now + 24 * 60 * 60
    ensure (not (contains_key (outside.secret_hash token) tables.invites))
        "UNIQUE constraint failed: invites.hash"
    ok (
      record {
        format = 1;
        address = address;
        certificate = certificate;
        token = token;
        expires = expires;
      },
      record tables {
        invites =
            insert (outside.secret_hash token)
              (record { label = label; expires = expires; device = none }) tables.invites;
      },
    )

  abbrev pub has_credential : Option Device → Text → Bool
  has_credential none hash = false
  has_credential (some row) hash = row.credential ≟ hash

  -- The two branches on the device of the invitation.
  unfoldable pub register :
      ℕ → Text → Text → Text → List ℕ → Text → Invite → Option Text → Tables → Result Tables
  register now invitation credential name certificate device row (some used) tables = do
    ensure
        ((used ≟ device)
          && has_credential (get device tables.devices) (outside.secret_hash credential))
        "invitation already used"
    ok tables
  register now invitation credential name certificate device row none tables = do
    ensure (leb now row.expires) "enrollment invitation expired"
    ensure (ltb (length tables.devices) 128) "device limit reached"
    ensure (not (contains_key device tables.devices))
        "device already enrolled; use its existing agent configuration"
    ok record tables {
      devices =
          insert device
            record {
              name = name;
              credential = outside.secret_hash credential;
              certificate = certificate;
              state = pending;
              seen = now;
              report = b'{' ∷ b'}' ∷ [];
            }
            tables.devices;
      invites =
          insert (outside.secret_hash invitation) (record row { device = some device })
            tables.invites;
    }

  -- `Request::Enroll` of `Store::exchange`.
  unfoldable pub enroll :
      ℕ → Text → Text → Text → List ℕ → Tables → Result (Reply Operation × Tables)
  unfolding valid_peer register
  enroll now invitation credential name certificate tables = do
    valid_peer invitation
    valid_peer credential
    ensure (not (all outside.is_whitespace name) && leb (len name) 120 && not (any is_control name))
        "invalid device name"
    ensure (leb (length certificate) 8192) "certificate too large"
    ensure (outside.accepts certificate) "invalid certificate"
    row ←
        context (get (outside.secret_hash invitation) tables.invites)
          "invalid enrollment invitation"
    tables' ←
        register now invitation credential name certificate (outside.fingerprint certificate) row
          row.device tables
    ok (reply_state registered, tables')

  abbrev pub bounded : Value → Value
  bounded report =
      if ltb (768 * 1024) (outside.json_len report) then outside.truncated_report else report

  -- What a poll changes in the row of its device.
  abbrev pub seen_at : ℕ → Value → Device → Device
  seen_at now report row = record row {
    seen = now;
    report = if is_approved row.state then bounded report else row.report;
  }

  -- The command that a poll gives out, and the table.
  unfoldable pub hand_out :
      ℕ → Option Command → List Command → Result (Option (Envelope Operation) × List Command)
  unfolding update
  hand_out now none commands = ok (none, commands)
  hand_out now (some c) commands = do
    operation ← outside.parse c.body
    ok (
      some (record { id = c.id; operation = operation }),
      update (has_id c.id) (deliver now) commands,
    )

  -- `Request::Poll` of `Store::exchange`.
  unfoldable pub poll :
      ℕ
      → Text
      → Text
      → Value
      → List CommandResult
      → Option Text
      → Tables
      → Result (Reply Operation × Tables)
  unfolding valid_peer equal_secret record_results first_waiting hand_out
  poll now device credential report results active tables = do
    valid_peer device
    valid_peer credential
    ensure (leb (length results) 16) "too many command results"
    row ← context (get device tables.devices) "agent is not enrolled"
    ensure (equal_secret row.credential (outside.secret_hash credential))
        "agent authentication rejected"
    let recorded = record_results now device results tables.commands
    let next =
        if is_approved row.state && is_idle active then first_waiting device recorded.1 else none
    handed ← hand_out now next recorded.1
    ok (
      record { state = row.state; command = handed.0; acknowledged = recorded.0 },
      record tables {
        devices = insert device (seen_at now report row) tables.devices;
        commands = handed.1;
      },
    )

  unfoldable pub exchange : ℕ → Request → Tables → Result (Reply Operation × Tables)
  unfolding enroll poll
  exchange now (enroll_request invitation credential name certificate) tables =
      enroll now invitation credential name certificate tables
  exchange now (poll_request device credential report results active) tables =
      poll now device credential report results active tables

  -- `Store::set_device`.
  unfoldable pub set_device : ℕ → Text → Bool → Tables → Result Tables
  unfolding valid_peer update
  set_device now device approve tables = do
    valid_peer device
    row ← context (get device tables.devices) "unknown device"
    ok record tables {
      devices = insert device (record row { state = state_of approve }) tables.devices;
      commands =
          if approve
          then tables.commands
          else update (is_queued_for device) (cancel_at now) tables.commands;
      audit =
          tables.audit
          ++ (record { action = state_of approve; device = device; created = now } ∷ []);
    }

  -- `Store::certificate`.
  unfoldable pub certificate : Text → Tables → Result (List ℕ)
  unfolding valid_peer
  certificate device tables = do
    valid_peer device
    row ← context (approved_row (get device tables.devices)) "device is not approved"
    ok row.certificate

  -- The row that `Store::queue` inserts.
  abbrev pub queued_row : ℕ → Text → Operation → Text → Command
  queued_row now device operation id = record {
    id = id;
    device = device;
    body = outside.print operation;
    status = queued;
    result = none;
    created = now;
    updated = now;
  }

  -- The loop of `Store::queue`, on the commands with what `random_id` answers for each.
  unfoldable pub queue :
      ℕ → List (Text × Operation × Result Text) → Tables → Result (List Text × Tables)
  queue now [] tables = ok ([], tables)
  queue now ((device, operation, random) ∷ commands) tables = do
    ensure (is_some (approved_row (get device tables.devices))) "device is not approved"
    ensure (ltb (length (select (is_waiting device) tables.commands)) 256)
        "too many pending commands on this device"
    id ← random
    ensure (not (any (has_id id) tables.commands)) "UNIQUE constraint failed: commands.id"
    rest ←
        queue now commands (record tables {
          commands = tables.commands ++ (queued_row now device operation id ∷ []);
        })
    ok (id ∷ rest.0, rest.1)

  -- `Store::cancel`.
  unfoldable pub cancel : ℕ → Text → Tables → Result Tables
  unfolding update
  cancel now id tables = do
    ensure (length (select (is_cancellable id) tables.commands) == 1)
        "only an undispatched command can be cancelled"
    ok record tables { commands = update (is_cancellable id) (cancel_at now) tables.commands }

  -- `Store::command`.
  unfoldable pub command : Text → Tables → Result (Status × Option Value)
  command id tables = do
    c ← context (find_id id tables.commands) "unknown command"
    ok (c.status, c.result)
