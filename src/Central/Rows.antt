-- ===== src/Central/Rows.antt =====
-- src/central/store.rs and `equal_secret` of src/management.rs: what the statements of the store do with
-- the rows of a table. `now` is the time of the operation, in seconds.
use Prim.Native.Nat.{bit_or, bit_xor}
use happy_active_everywhere.Base.{
  ℕ, Bool, true, false, ◌&&◌, ◌||◌, Option, none, some, List, [], ◌∷◌, ◌++◌, ◌==◌, length, any,
  select, if◌then◌else◌,
}
use happy_active_everywhere.Base.Order.{◌≟◌, list_ord}
use happy_active_everywhere.Base.Text.{Text}
use happy_active_everywhere.Central.{
  ResultState, reported_completed, reported_failed, reported_uncertain, CommandResult, State,
  approved, revoked, Device, Status, queued, delivered, completed, failed, uncertain, cancelled,
  Command,
}

-- The fold over the pairs of bytes; a character below 128 is its byte.
unfoldable pub difference : ℕ → Text → Text → ℕ
difference a (x ∷ left) (y ∷ right) = difference (bit_or a (bit_xor x y)) left right
difference a _ _ = a

unfoldable pub equal_secret : Text → Text → Bool
unfolding difference
equal_secret left right = (length left == length right) && (difference 0 left right == 0)

abbrev pub is_approved : State → Bool
is_approved approved = true
is_approved _ = false

abbrev pub is_queued : Status → Bool
is_queued queued = true
is_queued _ = false

abbrev pub is_delivered : Status → Bool
is_delivered delivered = true
is_delivered _ = false

-- `status IN ('queued','delivered')` and `status IN ('completed','failed','uncertain')`.
abbrev pub is_pending : Status → Bool
is_pending status = is_queued status || is_delivered status

abbrev pub is_terminal : Status → Bool
is_terminal completed = true
is_terminal failed = true
is_terminal uncertain = true
is_terminal _ = false

abbrev pub status_of : ResultState → Status
status_of reported_completed = completed
status_of reported_failed = failed
status_of reported_uncertain = uncertain

-- `UPDATE commands ... WHERE`.
unfoldable pub update : (Command → Bool) → (Command → Command) → List Command → List Command
update matches change [] = []
update matches change (c ∷ commands) =
    let rest = update matches change commands in if matches c then change c ∷ rest else c ∷ rest

abbrev pub is_in_flight : Text → Text → Command → Bool
is_in_flight device id c = (c.id ≟ id) && (c.device ≟ device) && is_delivered c.status

abbrev pub is_finished : Text → Text → Command → Bool
is_finished device id c = (c.id ≟ id) && (c.device ≟ device) && is_terminal c.status

abbrev pub finish : ℕ → CommandResult → Command → Command
finish now result c = record c {
  status = status_of result.status;
  result = some result.value;
  updated = now;
}

-- One result of a poll: the identifiers that are acknowledged, and the table.
unfoldable pub record_result : ℕ → Text → CommandResult → List Command → List Text × List Command
unfolding update
record_result now device result commands =
    let commands' = update (is_in_flight device result.id) (finish now result) commands in
    let changed = length (select (is_in_flight device result.id) commands) in
    (
      if (changed == 1) || any (is_finished device result.id) commands' then result.id ∷ [] else [],
      commands',
    )

unfoldable pub record_results :
    ℕ → Text → List CommandResult → List Command → List Text × List Command
unfolding record_result
record_results now device [] commands = ([], commands)
record_results now device (result ∷ results) commands =
    let (first, commands1) = record_result now device result commands in
    let (others, commands2) = record_results now device results commands1 in
    (first ++ others, commands2)

abbrev pub is_waiting : Text → Command → Bool
is_waiting device c = (c.device ≟ device) && is_pending c.status

-- `ORDER BY seq LIMIT 1`.
unfoldable pub first_waiting : Text → List Command → Option Command
first_waiting device [] = none
first_waiting device (c ∷ commands) =
    let rest = first_waiting device commands in if is_waiting device c then some c else rest

abbrev pub has_id : Text → Command → Bool
has_id id c = c.id ≟ id

abbrev pub deliver : ℕ → Command → Command
deliver now c = record c { status = delivered; updated = now }

abbrev pub is_idle : Option Text → Bool
is_idle none = true
is_idle (some id) = false

abbrev pub is_queued_for : Text → Command → Bool
is_queued_for device c = (c.device ≟ device) && is_queued c.status

abbrev pub cancel_at : ℕ → Command → Command
cancel_at now c = record c { status = cancelled; updated = now }

abbrev pub state_of : Bool → State
state_of approve = if approve then approved else revoked

abbrev pub approved_row : Option Device → Option Device
approved_row none = none
approved_row (some row) = if is_approved row.state then some row else none

abbrev pub is_some : Option Device → Bool
is_some none = false
is_some (some row) = true

abbrev pub is_cancellable : Text → Command → Bool
is_cancellable id c = (c.id ≟ id) && is_queued c.status

abbrev pub find_id : Text → List Command → Option Command
find_id id [] = none
find_id id (c ∷ commands) = if c.id ≟ id then some c else find_id id commands
