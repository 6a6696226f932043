-- ===== src/Central/Tests.antt =====
-- A server with one device, an agent, and the theorems there.
use happy_active_everywhere.Base.{
  ℕ, Bool, true, false, not, ◌&&◌, Option, none, some, List, [], ◌∷◌, if◌then◌else◌, Result, ok,
  err, ◌≡◌, refl,
}
use happy_active_everywhere.Base.In.{All}
use happy_active_everywhere.Base.Order.{list_ord}
use happy_active_everywhere.Base.Text.{Text, text}
use happy_active_everywhere.Base.BTreeMap.{get}
use happy_active_everywhere.Model.Tests.{zeros}
use happy_active_everywhere.Identity.Tests.{ones, sample_hash, accepts_all}
use happy_active_everywhere.Central.{
  reported_completed, CommandResult, pending, approved, registered, enroll_request, poll_request,
  Reply, reply_state, Invite, Device, Status, queued, delivered, completed, Command, Tables,
  Outside,
}
use happy_active_everywhere.Central.Store.{enroll, poll}
use happy_active_everywhere.Central.Rows.{record_results}
use happy_active_everywhere.Central.Calls.{
  Call, call_exchange, call_set_device, call_queue, call_cancel, call_all,
}
use happy_active_everywhere.Central.Diagram.{Evolves}
use happy_active_everywhere.Central.Delivering.{Distinct, InOrder}
use happy_active_everywhere.Central.Commands.{call_all-Evolves}
use happy_active_everywhere.Central.Owners.{enroll-once}
use happy_active_everywhere.Central.Polling.{AreFinished, record_results-AreFinished}
use happy_active_everywhere.Central.Telling.{AreTold}
use happy_active_everywhere.Central.Recording.{settled}
use happy_active_everywhere.Central.Handing.{IsHanded, poll-IsHanded}
use happy_active_everywhere.Base.{map}
use happy_active_everywhere.Central.Agent.{returned, Agent, Event, rounded, restarted, executions}
use happy_active_everywhere.Central.Executions.{IsNew}
use happy_active_everywhere.Central.Once.{OnlyOnce, executions-OnlyOnce}

abbrev outside : Outside Text
outside = record {
  secret_hash = λ secret. secret;
  fingerprint = sample_hash;
  accepts = accepts_all;
  is_whitespace = λ c. false;
  is_usable = λ ip. true;
  json_len = λ value. 10;
  truncated_report = [];
  print = λ operation. operation;
  parse = λ body. ok body;
}

abbrev laptop : Device
laptop = record {
  name = text "laptop";
  credential = ones;
  certificate = [];
  state = approved;
  seen = 0;
  report = [];
}

abbrev command_of : Text → Status → Command
command_of id status = record {
  id = id;
  device = zeros;
  body = text "scan";
  status = status;
  result = none;
  created = 1;
  updated = 1;
}

abbrev tables : Tables
tables = record {
  invites = (ones, record { label = text "office"; expires = 90; device = none }) ∷ [];
  devices = (zeros, laptop) ∷ [];
  commands = command_of (text "a") delivered ∷ command_of (text "b") queued ∷ [];
  audit = [];
}

abbrev result_a : CommandResult
result_a = record { id = text "a"; status = reported_completed; value = text "done" }

abbrev calls : List (Call Text)
calls =
    call_exchange 5 (poll_request zeros ones [] (result_a ∷ []) none)
    ∷ call_queue 6 ((zeros, text "pull", ok (text "c")) ∷ [])
    ∷ call_cancel 7 (text "c")
    ∷ call_set_device 8 zeros false
    ∷ []

abbrev polled : Tables
polled = record tables {
  devices = (zeros, record laptop { seen = 5 }) ∷ [];
  commands =
      record (command_of (text "a") completed) { result = some (text "done"); updated = 5 }
      ∷ record (command_of (text "b") delivered) { updated = 5 }
      ∷ [];
}

call_all-Evolves_example :
    Evolves tables.commands (call_all outside calls tables).commands
    × (Distinct (call_all outside calls tables).commands
        × InOrder (call_all outside calls tables).commands)
unfolding list_ord happy_active_everywhere.Base.Order.lex
call_all-Evolves_example =
    call_all-Evolves outside calls tables (((refl, tt), (tt, tt)), ((refl, tt), (tt, tt)))

abbrev waiting_room : Tables
waiting_room = record tables { devices = [] }

abbrev enrolled : Tables
enrolled = record waiting_room {
  invites = (ones, record { label = text "office"; expires = 90; device = some zeros }) ∷ [];
  devices =
      (
        zeros,
        record laptop { name = text "desk"; state = pending; seen = 9; report = b'{' ∷ b'}' ∷ [] },
      )
      ∷ [];
}

enroll-once_example :
    (outside.fingerprint [] ≡ outside.fingerprint [])
    × (outside.secret_hash ones ≡ outside.secret_hash ones)
    × (call_all outside [] enrolled ≡ call_all outside [] enrolled)
unfolding enroll happy_active_everywhere.Base.Text.valid_hash
    happy_active_everywhere.Base.Text.is_control get list_ord happy_active_everywhere.Base.Order.lex
    happy_active_everywhere.Base.BTreeMap.contains_key happy_active_everywhere.Base.BTreeMap.insert
    call_all
enroll-once_example =
    enroll-once outside 9 ones ones (text "desk") [] waiting_room
      {answer = (reply_state registered, enrolled)} [] 100 ones (text "again") []
      {answer' = (reply_state registered, enrolled)} refl refl

poll-IsHanded_example :
    (row : Device) × (after : Device) × (cs : List Command) × (get zeros tables.devices ≡ some row)
    × (row.credential ≡ ones)
    × (approved ≡ row.state)
    × (get zeros polled.devices ≡ some after)
    × (after.seen ≡ 5)
    × (after.state ≡ row.state)
    × (after.credential ≡ row.credential)
    × (after.certificate ≡ row.certificate)
    × (cs ≡ map (settled 5 zeros (result_a ∷ [])) tables.commands)
    × AreFinished zeros (text "a" ∷ []) cs
    × AreTold zeros (result_a ∷ []) (text "a" ∷ []) cs
    × IsHanded outside 5 zeros row.state none cs
        (some (record { id = text "b"; operation = text "scan" }))
        polled.commands
unfolding poll happy_active_everywhere.Base.Text.valid_hash get list_ord
    happy_active_everywhere.Base.Order.lex happy_active_everywhere.Base.BTreeMap.insert
poll-IsHanded_example =
    poll-IsHanded outside 5 zeros ones [] (result_a ∷ []) none tables
      {answer = (
        record {
          state = approved;
          command = some (record { id = text "b"; operation = text "scan" });
          acknowledged = text "a" ∷ [];
        },
        polled,
      )}
      ((refl, tt), (tt, tt)) refl

record_results-AreFinished_example :
    AreFinished zeros
      (record_results 5 zeros (result_a ∷ []) tables.commands).0
      (record_results 5 zeros (result_a ∷ []) tables.commands).1
record_results-AreFinished_example =
    record_results-AreFinished 5 zeros (result_a ∷ []) tables.commands

abbrev order_of : Text → Result (Reply Text)
order_of id = ok (record {
  state = approved;
  command = some (record { id = id; operation = text "scan" });
  acknowledged = [];
})

abbrev events : List (Event outside [] [])
events =
    rounded none (order_of zeros)
    ∷ restarted
    ∷ rounded none (order_of zeros)
    ∷ rounded none (order_of ones)
    ∷ rounded (some (returned (text "done"))) (err "unreachable")
    ∷ []

abbrev idle_agent : Agent
idle_agent = record { journal = []; worker = none }

executions-OnlyOnce_example :
    OnlyOnce (executions outside [] [] events idle_agent)
    × All (IsNew idle_agent.journal) (executions outside [] [] events idle_agent)
executions-OnlyOnce_example = executions-OnlyOnce outside [] [] events idle_agent

-- Both commands are executed, the first before the stop.
executions_run : executions outside [] [] events idle_agent ≡ zeros ∷ ones ∷ []
unfolding executions happy_active_everywhere.Base.Text.valid_hash get
    happy_active_everywhere.Central.Agent.acknowledge happy_active_everywhere.Base.BTreeMap.insert
    list_ord happy_active_everywhere.Base.Order.lex
executions_run = refl
