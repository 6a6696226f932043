-- ===== src/Central/Calls.antt =====
-- src/central/store.rs: the operations that change the tables, in any order. The server has the store
-- behind a mutex, so that they come one after the other.
use happy_active_everywhere.Base.{ℕ, Bool, List, [], ◌∷◌, Result, ok, err}
use happy_active_everywhere.Base.Text.{Text}
use happy_active_everywhere.Jobs.{SocketAddr}
use happy_active_everywhere.Central.{Request, Tables, Outside}
use happy_active_everywhere.Central.Store.{invite, exchange, set_device, queue, cancel}

pub data Call (Operation : Type 0) : Type 0 where
  call_invite :
      (now : ℕ) (random : Result Text) (label : Text) (address : SocketAddr) (certificate : List ℕ)
      → Call Operation
  call_exchange : (now : ℕ) (request : Request) → Call Operation
  call_set_device : (now : ℕ) (device : Text) (approve : Bool) → Call Operation
  call_queue : (now : ℕ) (commands : List (Text × Operation × Result Text)) → Call Operation
  call_cancel : (now : ℕ) (id : Text) → Call Operation

-- A transaction that fails is rolled back.
abbrev pub committed : {A : Type 0} → Tables → Result (A × Tables) → Tables
committed tables (ok (answer, tables')) = tables'
committed tables (err message) = tables

abbrev pub replaced : Tables → Result Tables → Tables
replaced tables (ok tables') = tables'
replaced tables (err message) = tables

module _ {Operation : Type 0} (outside : Outside Operation) where
  unfoldable pub call : Call Operation → Tables → Tables
  unfolding invite exchange set_device queue cancel
  call (call_invite now random label address certificate) tables =
      committed tables (invite outside now random label address certificate tables)
  call (call_exchange now request) tables = committed tables (exchange outside now request tables)
  call (call_set_device now device approve) tables =
      replaced tables (set_device outside now device approve tables)
  call (call_queue now commands) tables = committed tables (queue outside now commands tables)
  call (call_cancel now id) tables = replaced tables (cancel outside now id tables)

  unfoldable pub call_all : List (Call Operation) → Tables → Tables
  unfolding call
  call_all [] tables = tables
  call_all (c ∷ calls) tables = call_all calls (call c tables)
