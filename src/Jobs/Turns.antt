-- ===== src/Jobs/Turns.antt =====
-- src/jobs.rs: `tick`, and the operations of the supervisor in any order.
use happy_active_everywhere.Base.{
  ℕ, ◌+◌, Bool, true, false, not, ◌||◌, Option, none, some, List, [], ◌∷◌, ltb, if◌then◌else◌,
  Result, ok, err, ◌>>=◌, ◌>>◌,
}
use happy_active_everywhere.Base.Order.{list_ord}
use happy_active_everywhere.Base.Text.{Text}
use happy_active_everywhere.Base.BTreeMap.{get, insert, remove, contains_key, values}
use happy_active_everywhere.Identity.{Certificate, Peers}
use happy_active_everywhere.Share.Access.{Shares}
use happy_active_everywhere.Jobs.{
  connect, listen, Config, Progress, no_progress, Arguments, sync, sync_serve, Running, Inner, Jobs,
  Persisting, permitted,
}
use happy_active_everywhere.Jobs.Saving.{save_inner, set_enabled}

-- What the world answers in the turn of a job in `tick`: the time, whether a child has ended, what the
-- directories `peers` and `shares` have, and the identifier of the process that is started.
pub record Turn : Type 0 where
  pub now : ℕ
  pub try_wait : ℕ → Result Bool
  pub peers : Peers
  pub shares : Shares
  pub spawn : Arguments → Result ℕ

abbrev pub arguments_of : Config → Arguments
arguments_of config = elim config.direction [
  | connect ↦ sync config.address config.folder config.peer
  | listen ↦ sync_serve config.address config.folder config.peer
]

-- The child of a job has ended.
abbrev pub has_ended : Turn → Option Running → Result Bool
has_ended turn none = ok false
has_ended turn (some running) = turn.try_wait running.pid

abbrev pub settle : Turn → Text → Bool → Inner → Inner
settle turn id ended inner =
    if ended
    then record inner {
      running = remove id inner.running;
      retry = insert id (turn.now + 5) inner.retry;
    }
    else inner

abbrev pub is_later : ℕ → Option ℕ → Bool
is_later now none = false
is_later now (some t) = ltb now t

abbrev pub or_default : Option Progress → Progress
or_default none = no_progress
or_default (some progress) = progress

-- What `launch` gives is kept, or its error and the time of the next attempt.
abbrev pub launched : Turn → Text → Inner → Result Running → Inner
launched turn id inner (ok running) = record inner { running = insert id running inner.running }
launched turn id inner (err message) = record inner {
  progress =
      insert id (record (or_default (get id inner.progress)) { last_message = message })
        inner.progress;
  retry = insert id (turn.now + 5) inner.retry;
}

abbrev pub is_idle : Turn → Config → Inner → Bool
is_idle turn config inner =
    not config.enabled
    || contains_key config.id inner.running
    || is_later turn.now (get config.id inner.retry)

module _ (hash : Certificate → Text) (accepts : Certificate → Bool) where
  unfoldable pub launch : Turn → Config → Result Running
  unfolding permitted
  launch turn config = do
    permitted hash accepts turn.peers turn.shares config
    pid ← turn.spawn (arguments_of config)
    ok (record { pid = pid; arguments = arguments_of config })

  unfoldable pub start : Turn → Config → Inner → Inner
  unfolding launch
  start turn config inner =
      if is_idle turn config inner
      then inner
      else launched turn config.id
          (record inner {
            progress = insert config.id (or_default (get config.id inner.progress)) inner.progress;
          })
          (launch turn config)

  -- The turn of one job.
  unfoldable pub take_turn : Turn → Config → Inner → Result Inner
  unfolding start
  take_turn turn config inner = do
    ended ← has_ended turn (get config.id inner.running)
    ok (start turn config (settle turn config.id ended inner))

  unfoldable pub take_turns : (Text → Turn) → List Config → Inner → Inner × Result (Unit {0})
  unfolding take_turn
  take_turns turns [] inner = (inner, ok tt)
  take_turns turns (config ∷ configs) inner = elim (take_turn (turns config.id) config inner) [
    | ok inner' ↦ take_turns turns configs inner'
    | err message ↦ (inner, err message)
  ]

  unfoldable pub tick : (Text → Turn) → Jobs → Jobs × Result (Unit {0})
  unfolding take_turns
  tick turns jobs =
      let (inner, done) = take_turns turns (values jobs.inner.configs) jobs.inner in
      (record jobs { inner = inner }, done)

  -- `save`, `save_deployment`, `set_enabled`, `tick` and `shutdown`, with what the world answers.
  pub data Operation : Type 0 where
    save : (writing : Persisting) (peers : Peers) (shares : Shares) (config : Config) → Operation
    save_deployment :
        (writing : Persisting) (peers : Peers) (shares : Shares) (config : Config) → Operation
    enable :
        (writing : Persisting) (peers : Peers) (shares : Shares) (id : Text) (enabled : Bool)
        → Operation
    ticked : (turns : Text → Turn) → Operation
    shutdown : Operation

  unfoldable pub operate : Operation → Jobs → Jobs × Result (Unit {0})
  unfolding save_inner set_enabled tick
  operate (save writing peers shares config) jobs =
      save_inner hash accepts writing peers shares jobs config false
  operate (save_deployment writing peers shares config) jobs =
      save_inner hash accepts writing peers shares jobs config true
  operate (enable writing peers shares id enabled) jobs =
      set_enabled hash accepts writing peers shares jobs id enabled
  operate (ticked turns) jobs = tick turns jobs
  operate shutdown jobs = (record jobs { inner = record (jobs.inner) { running = [] } }, ok tt)

  unfoldable pub operate_all : List Operation → Jobs → Jobs
  unfolding operate
  operate_all [] jobs = jobs
  operate_all (operation ∷ operations) jobs = operate_all operations (operate operation jobs).0
