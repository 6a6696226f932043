-- ===== src/Jobs.antt =====
-- src/jobs.rs: the supervisor of the jobs that keep folders in synchronization. A job is a child
-- process; what the operating system answers is a parameter of each operation.
pub mod Saving
pub mod Turns
pub mod Reader
pub mod Supervision
pub mod Changing
pub mod Ticking
pub mod Histories
pub mod Permission
pub mod Deploying
mod Tests
use happy_active_everywhere.Base.{
  ℕ, ◌+◌, String, Bool, true, false, not, ◌&&◌, ◌||◌, Option, none, some, List, [], ◌∷◌, ltb, leb,
  ◌==◌, length, all, any, if◌then◌else◌, Result, ok, err, ensure, context, ◌>>=◌, ◌>>◌,
}
use happy_active_everywhere.Base.Order.{◌≟◌, list_ord}
use happy_active_everywhere.Base.Text.{Text, is_empty, len}
use happy_active_everywhere.Base.BTreeMap.{BTreeMap, get, insert, remove, contains_key, values}
use happy_active_everywhere.Identity.{Certificate, Peers, valid_peer, new}
use happy_active_everywhere.Share.Access.{Shares, is_id_byte, check_access}

pub data Direction : Type 0 where
  connect : Direction
  listen : Direction

pub record SocketAddr : Type 0 where
  pub ip : Text
  pub port : ℕ

pub record Config : Type 0 where
  pub id : Text
  pub folder : Text
  pub peer : Text
  pub address : SocketAddr
  pub direction : Direction
  pub enabled : Bool

abbrev pub Configs : Type 0
Configs = BTreeMap Text Config

unfoldable pub is_identifier : Text → Bool
is_identifier id = not (is_empty id) && leb (len id) 64 && all is_id_byte id

-- `Config::validate`.
unfoldable pub validate : Config → Result (Unit {0})
unfolding is_identifier valid_peer
validate config = do
  ensure (is_identifier config.id) "invalid job or folder identifier"
  ensure (is_identifier config.folder) "invalid job or folder identifier"
  valid_peer config.peer
  ensure (not (config.address.port == 0)) "managed jobs require an explicit nonzero port"

pub record Progress : Type 0 where
  pub last_message : String
  pub last_success : Option ℕ

-- `Progress::default`.
abbrev pub no_progress : Progress
no_progress = record { last_message = ""; last_success = none }

-- The command line of the child.
pub data Arguments : Type 0 where
  sync : (address : SocketAddr) (folder peer : Text) → Arguments
  sync_serve : (address : SocketAddr) (folder peer : Text) → Arguments

pub record Running : Type 0 where
  pub pid : ℕ
  pub arguments : Arguments

-- Times are in seconds.
pub record Inner : Type 0 where
  pub configs : Configs
  pub running : BTreeMap Text Running
  pub progress : BTreeMap Text Progress
  pub retry : BTreeMap Text ℕ

-- The supervisor, and what the file `jobs.json` parses to.
pub record Jobs : Type 0 where
  pub stored : Option (Result Configs)
  pub inner : Inner

abbrev pub none_of : Configs → Inner
none_of configs = record { configs = configs; running = []; progress = []; retry = [] }

abbrev pub parsed : Option (Result Configs) → Result Configs
parsed none = ok []
parsed (some read) = read

unfoldable pub check_configs : Configs → Result (Unit {0})
unfolding validate
check_configs [] = ok tt
check_configs ((id, config) ∷ configs) = do
  validate config
  ensure (id ≟ config.id) "job identifier mismatch"
  check_configs configs

-- `Jobs::open`.
unfoldable pub open_jobs : Option (Result Configs) → Result Jobs
unfolding check_configs
open_jobs stored = do
  configs ← parsed stored
  ensure (leb (length configs) 32) "too many managed jobs"
  check_configs configs
  ok (record { stored = stored; inner = none_of configs })

-- What becomes of `persist`: it fails before the file has its name, or after that, or it succeeds.
pub data Persisting : Type 0 where
  unwritten : (message : String) → Persisting
  unsynced : (message : String) → Persisting
  persisted : Persisting

unfoldable pub persist : Persisting → Configs → Jobs → Jobs × Result (Unit {0})
persist (unwritten message) configs jobs = (jobs, err message)
persist (unsynced message) configs jobs = (record jobs { stored = some (ok configs) }, err message)
persist persisted configs jobs = (record jobs { stored = some (ok configs) }, ok tt)

abbrev pub is_listen : Direction → Bool
is_listen connect = false
is_listen listen = true

abbrev pub same_direction : Direction → Direction → Bool
same_direction connect connect = true
same_direction listen listen = true
same_direction _ _ = false

abbrev pub same_enabled : Bool → Bool → Bool
same_enabled a b = if a then b else not b

-- The comparison of two configurations as JSON values.
unfoldable pub same_config : Config → Config → Bool
same_config a b =
    (a.id ≟ b.id)
    && (a.folder ≟ b.folder)
    && (a.peer ≟ b.peer)
    && (a.address.ip ≟ b.address.ip)
    && (a.address.port == b.address.port)
    && same_direction a.direction b.direction
    && same_enabled a.enabled b.enabled

abbrev pub check_binding : Option Config → Config → Result (Unit {0})
check_binding none config = ok tt
check_binding (some existing) config =
    ensure (same_config existing (record config { enabled = existing.enabled }))
      "existing job has a different binding; choose a new job ID"

abbrev pub is_other_listener : Config → Config → Bool
is_other_listener config other =
    not (other.id ≟ config.id)
    && is_listen other.direction
    && (other.address.port == config.address.port)

unfoldable pub check_deployment : Inner → Config → Result (Unit {0})
unfolding same_config
check_deployment inner config = do
  check_binding (get config.id inner.configs) config
  ensure (not (is_listen config.direction && any (is_other_listener config) (values inner.configs)))
      "another listening job already uses this port"

-- `Jobs::validate_deployment`.
unfoldable pub validate_deployment : Jobs → Config → Result (Unit {0})
unfolding validate check_deployment
validate_deployment jobs config = do validate config; check_deployment jobs.inner config

-- After `persist`.
abbrev pub adopt : (Inner → Inner) → Jobs × Result (Unit {0}) → Jobs × Result (Unit {0})
adopt change (jobs, ok _) = (record jobs { inner = change jobs.inner }, ok tt)
adopt change (jobs, err message) = (jobs, err message)

-- `?` before anything is changed.
abbrev pub unless_failed : Jobs → Result (Jobs × Result (Unit {0})) → Jobs × Result (Unit {0})
unless_failed jobs (ok done) = done
unless_failed jobs (err message) = (jobs, err message)

module _ (hash : Certificate → Text) (accepts : Certificate → Bool) where
  -- The two checks before a job is saved, enabled or started.
  unfoldable pub permitted : Peers → Shares → Config → Result (Unit {0})
  unfolding new check_access
  permitted peers shares config = do
    new hash accepts peers config.peer
    check_access shares config.folder config.peer false
