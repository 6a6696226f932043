-- ===== src/Central.antt =====
-- src/central: the server that many devices report to and take commands from. This file has the types
-- of mod.rs and of the tables of store.rs.
pub mod Rows
pub mod Store
pub mod Diagram
pub mod Calls
pub mod Moving
pub mod Commands
pub mod Delivering
pub mod Enrolling
pub mod Owners
pub mod Polling
pub mod Telling
pub mod Recording
pub mod Handing
pub mod Agent
pub mod Executions
pub mod Once
mod Tests
use happy_active_everywhere.Base.{
  ℕ, ◌+◌, Bool, true, false, Option, none, List, [], Result, ok, err,
}
use happy_active_everywhere.Base.Text.{Text}
use happy_active_everywhere.Base.BTreeMap.{BTreeMap}
use happy_active_everywhere.Jobs.{SocketAddr}

-- A JSON value, by its text.
abbrev pub Value : Type 0
Value = Text

pub record Invitation : Type 0 where
  pub format : ℕ
  pub address : SocketAddr
  pub certificate : List ℕ
  pub token : Text
  pub expires : ℕ

pub record Envelope (Operation : Type 0) : Type 0 where
  pub id : Text
  pub operation : Operation

pub data ResultState : Type 0 where
  reported_completed : ResultState
  reported_failed : ResultState
  reported_uncertain : ResultState

pub record CommandResult : Type 0 where
  pub id : Text
  pub status : ResultState
  pub value : Value

-- The states of a device, which are texts in the table, and `registered` of a reply.
pub data State : Type 0 where
  registered : State
  pending : State
  approved : State
  revoked : State

pub data Request : Type 0 where
  enroll_request : (invitation credential name : Text) (certificate : List ℕ) → Request
  poll_request :
      (device credential : Text) (report : Value) (results : List CommandResult)
      (active : Option Text)
      → Request

pub record Reply (Operation : Type 0) : Type 0 where
  pub state : State
  pub command : Option (Envelope Operation)
  pub acknowledged : List Text

-- `Reply::state`. A reply of the server has no error; tls.rs makes one of the error of `exchange`.
abbrev pub reply_state : {Operation : Type 0} → State → Reply Operation
reply_state state = record { state = state; command = none; acknowledged = [] }

-- A row of `invites`, under the hash of its token.
pub record Invite : Type 0 where
  pub label : Text
  pub expires : ℕ
  pub device : Option Text

-- A row of `devices`, under its identifier.
pub record Device : Type 0 where
  pub name : Text
  pub credential : Text
  pub certificate : List ℕ
  pub state : State
  pub seen : ℕ
  pub report : Value

pub data Status : Type 0 where
  queued : Status
  delivered : Status
  completed : Status
  failed : Status
  uncertain : Status
  cancelled : Status

-- A row of `commands`, but for its number.
pub record Command : Type 0 where
  pub id : Text
  pub device : Text
  pub body : Text
  pub status : Status
  pub result : Option Value
  pub created : ℕ
  pub updated : ℕ

pub record Audit : Type 0 where
  pub action : State
  pub device : Text
  pub created : ℕ

-- The tables; `commands` and `audit` are in the order of their numbers.
pub record Tables : Type 0 where
  pub invites : BTreeMap Text Invite
  pub devices : BTreeMap Text Device
  pub commands : List Command
  pub audit : List Audit

-- What the store takes from outside: the hash of a secret, the fingerprint of a certificate and whether
-- the TLS library accepts it as a root, `char::is_whitespace`, whether an address is neither unspecified
-- nor multicast, the length of a JSON text in bytes, and the printer and the parser of operations.
pub record Outside (Operation : Type 0) : Type 0 where
  pub secret_hash : Text → Text
  pub fingerprint : List ℕ → Text
  pub accepts : List ℕ → Bool
  pub is_whitespace : ℕ → Bool
  pub is_usable : Text → Bool
  pub json_len : Value → ℕ
  pub truncated_report : Value
  pub print : Operation → Text
  pub parse : Text → Result Operation
