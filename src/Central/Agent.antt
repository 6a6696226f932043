-- ===== src/Central/Agent.antt =====
-- src/central/agent.rs: the journal of a device's agent, and the loop that polls the server. The journal
-- is a table that survives a stop of the program; each statement on it is a transaction of its own.
use happy_active_everywhere.Base.{
  ◌*◌, Bool, true, false, ◌&&◌, Option, none, some, List, [], ◌∷◌, ltb, if◌then◌else◌, Result, ok,
  err, ensure, ◌>>◌,
}
use happy_active_everywhere.Base.Order.{◌≟◌, list_ord}
use happy_active_everywhere.Base.Text.{Text}
use happy_active_everywhere.Base.BTreeMap.{BTreeMap, get, insert}
use happy_active_everywhere.Identity.{valid_peer}
use happy_active_everywhere.Central.{
  Value, Envelope, reported_completed, reported_failed, reported_uncertain, CommandResult, Reply,
  State, Outside,
}
use happy_active_everywhere.Central.Rows.{is_approved, is_idle}

pub data Execution : Type 0 where
  executing : Execution
  done : Execution

-- A row of `executed`, under the identifier of the command.
pub record Entry : Type 0 where
  pub body : Text
  pub state : Execution
  pub result : Option CommandResult
  pub ack : Bool

abbrev pub Journal : Type 0
Journal = BTreeMap Text Entry

-- What becomes of a worker: its value, its error as a value, or that it stopped.
pub data Outcome : Type 0 where
  returned : (value : Value) → Outcome
  erred : (value : Value) → Outcome
  stopped : (value : Value) → Outcome

abbrev pub outcome_result : Text → Outcome → CommandResult
outcome_result id (returned value) = record { id = id; status = reported_completed; value = value }
outcome_result id (erred value) = record { id = id; status = reported_failed; value = value }
outcome_result id (stopped value) = record { id = id; status = reported_uncertain; value = value }

-- The agent: its journal, and the command that its worker executes.
pub record Agent : Type 0 where
  pub journal : Journal
  pub worker : Option Text

abbrev pub is_done : Execution → Bool
is_done executing = false
is_done done = true

-- `UPDATE executed SET ack=1 WHERE id AND state='done'`.
abbrev pub acknowledge_row : Text → Option Entry → Journal → Journal
acknowledge_row id none journal = journal
acknowledge_row id (some row) journal =
    if is_done row.state then insert id (record row { ack = true }) journal else journal

unfoldable pub acknowledge : List Text → Journal → Journal
acknowledge [] journal = journal
acknowledge (id ∷ ids) journal = acknowledge ids (acknowledge_row id (get id journal) journal)

-- `too_long` and `interrupted` are the values that the program writes for a result that is too long, and
-- for a command whose execution was interrupted.
module _ {Operation : Type 0} (outside : Outside Operation) (too_long interrupted : Value) where
  abbrev pub limited : CommandResult → CommandResult
  limited result =
      if ltb (512 * 1024) (outside.json_len result.value)
      then record result { status = reported_failed; value = too_long }
      else result

  abbrev pub done_row : CommandResult → Option Entry → Option Entry
  done_row result none = none
  done_row result (some row) =
      some (record row { state = done; result = some (limited result); ack = false })

  -- `Journal::finish`.
  unfoldable pub finish : CommandResult → Journal → Journal
  finish result journal = elim (done_row result (get result.id journal)) [
    | none ↦ journal
    | some row ↦ insert result.id row journal
  ]

  -- The loop of `Journal::open` over the rows that it has read.
  unfoldable pub finish_interrupted : List (Text × Entry) → Journal → Journal
  unfolding finish
  finish_interrupted [] journal = journal
  finish_interrupted ((id, row) ∷ rows) journal = elim row.state [
    | executing ↦
        finish_interrupted rows
          (finish (record { id = id; status = reported_uncertain; value = interrupted }) journal)
    | done ↦ finish_interrupted rows journal
  ]

  -- `Journal::open`, on the table that is there.
  unfoldable pub open_journal : Journal → Journal
  unfolding finish_interrupted
  open_journal journal = finish_interrupted journal journal

  abbrev pub start_row : Text → Text → Option Entry → Journal → Result (Bool × Journal)
  start_row id body none journal = ok (
    true,
    insert id (record { body = body; state = executing; result = none; ack = false }) journal,
  )
  start_row id body (some row) journal = do
    ensure (row.body ≟ body) "central reused a command ID with different content"
    ok (false, insert id (record row { ack = false }) journal)

  -- `Journal::start`.
  unfoldable pub start : Envelope Operation → Journal → Result (Bool × Journal)
  unfolding valid_peer
  start command journal = do
    valid_peer command.id
    start_row command.id (outside.print command.operation) (get command.id journal) journal

  -- The begin of a round of `run`: the worker has finished, with an outcome, or there is none that has.
  unfoldable pub collect : Option Outcome → Agent → Agent
  unfolding finish
  collect none agent = agent
  collect (some outcome) agent = elim agent.worker [
    | none ↦ agent
    | some id ↦ record { journal = finish (outcome_result id outcome) agent.journal; worker = none }
  ]

  -- What the agent does with the command of a reply: the agent, the command whose execution starts, and
  -- whether the loop goes on.
  unfoldable pub obey :
      State → Option (Envelope Operation) → Agent → Agent × Option Text × Result (Unit {0})
  unfolding start
  obey state none agent = (agent, none, ok tt)
  obey state (some command) agent =
      if is_approved state && is_idle agent.worker
      then elim (start command agent.journal) [
        | ok (true, journal) ↦
            (record { journal = journal; worker = some command.id }, some command.id, ok tt)
        | ok (false, journal) ↦ (record agent { journal = journal }, none, ok tt)
        | err message ↦ (agent, none, err message)
      ]
      else (agent, none, err "unexpected central command")

  -- A round of `run`; the response is an error where the server can not be reached.
  unfoldable pub round :
      Option Outcome → Result (Reply Operation) → Agent → Agent × Option Text × Result (Unit {0})
  unfolding collect obey
  round outcome (err message) agent = (collect outcome agent, none, ok tt)
  round outcome (ok reply) agent =
      let collected = collect outcome agent in
      obey reply.state reply.command
        (record collected { journal = acknowledge reply.acknowledged collected.journal })

  -- A round, or a stop of the program with a new start.
  pub data Event : Type 0 where
    rounded : (outcome : Option Outcome) (response : Result (Reply Operation)) → Event
    restarted : Event

  abbrev pub reopened : Agent → Agent
  reopened agent = record { journal = open_journal agent.journal; worker = none }

  -- An error ends the loop, and the program has to be started again.
  abbrev pub after_round : Agent × Option Text × Result (Unit {0}) → Agent
  after_round (agent, started, ok _) = agent
  after_round (agent, started, err message) = reopened agent

  abbrev pub with_started : Option Text → List Text → List Text
  with_started none ids = ids
  with_started (some id) ids = id ∷ ids

  -- The commands whose execution starts, in their order.
  unfoldable pub executions : List Event → Agent → List Text
  unfolding round open_journal
  executions [] agent = []
  executions (restarted ∷ events) agent = executions events (reopened agent)
  executions (rounded outcome response ∷ events) agent =
      let end = round outcome response agent in
      with_started end.1 (executions events (after_round end))
