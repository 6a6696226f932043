-- ===== src/Jobs/Tests.antt =====
-- A supervisor with one job, and the theorems there.
use happy_active_everywhere.Base.{
  ℕ, ◌*◌, ◌-◌, String, Bool, true, false, not, ◌&&◌, Option, none, some, List, [], ◌∷◌, ◌++◌, any,
  if◌then◌else◌, take, Result, ok, err, ◌≡◌, refl, ◌⊎◌, ◌+◌,
}
use happy_active_everywhere.Base.Order.{◌≟◌, list_ord, lex}
use happy_active_everywhere.Base.Text.{Text, text, valid_hash}
use happy_active_everywhere.Base.BTreeMap.{BTreeMap, get, insert, values}
use happy_active_everywhere.Model.Tests.{zeros}
use happy_active_everywhere.Identity.Tests.{sample_hash, accepts_all, trusted}
use happy_active_everywhere.Share.Access.Tests.{one_folder}
use happy_active_everywhere.Jobs.{
  connect, listen, SocketAddr, Config, Progress, Running, sync, Jobs, none_of, open_jobs, persisted,
  unsynced, is_listen, is_other_listener,
}
use happy_active_everywhere.Jobs.Turns.{
  Turn, tick, Operation, save, enable, ticked, shutdown, operate_all,
}
use happy_active_everywhere.Jobs.Saving.{save_inner}
use happy_active_everywhere.Jobs.Reader.{reader, reader-line}
use happy_active_everywhere.Jobs.Supervision.{IsValid}
use happy_active_everywhere.Jobs.Histories.{
  open_jobs-IsValid, operate_all-IsValid, operate_all-open_jobs,
}
use happy_active_everywhere.Jobs.Permission.{IsStarted, tick-IsStarted}
use happy_active_everywhere.Jobs.Deploying.{save_deployment-kept}

abbrev address : ℕ → SocketAddr
address port = record { ip = text "10.0.0.2"; port = port }

abbrev job : Config
job = record {
  id = text "nightly";
  folder = text "docs";
  peer = zeros;
  address = address 7000;
  direction = connect;
  enabled = true;
}

abbrev listener : Config
listener = record job { id = text "server"; direction = listen }

abbrev turn : Text → Turn
turn id = record {
  now = 100;
  try_wait = λ pid. ok false;
  peers = trusted;
  shares = one_folder;
  spawn = λ arguments. ok 42;
}

abbrev stored : Option (Result (BTreeMap Text Config))
stored = some (ok ((text "nightly", job) ∷ []))

abbrev opened : Jobs
opened = record { stored = stored; inner = none_of ((text "nightly", job) ∷ []) }

abbrev operations : List (Operation sample_hash accepts_all)
operations =
    ticked turn
    ∷ save persisted trusted one_folder listener
    ∷ enable (unsynced "disk full") trusted one_folder (text "nightly") false
    ∷ shutdown
    ∷ []

operate_all-IsValid_example : IsValid (operate_all sample_hash accepts_all operations opened)
unfolding open_jobs happy_active_everywhere.Base.Text.len valid_hash list_ord lex
operate_all-IsValid_example =
    operate_all-IsValid sample_hash accepts_all operations stored (tt, tt) refl

operate_all-open_jobs_example :
    (again : Jobs) × (open_jobs (operate_all sample_hash accepts_all operations opened).stored
      ≡ ok again)
unfolding open_jobs happy_active_everywhere.Base.Text.len valid_hash list_ord lex
operate_all-open_jobs_example =
    operate_all-open_jobs sample_hash accepts_all operations stored (tt, tt) refl

abbrev process : Running
process = record { pid = 42; arguments = sync (address 7000) (text "docs") zeros }

tick-IsStarted_example :
    (get (text "nightly") opened.inner.running ≡ some process)
    ⊎ IsStarted sample_hash accepts_all turn opened.inner.configs (text "nightly") process
unfolding open_jobs happy_active_everywhere.Base.Text.len valid_hash list_ord lex get tick
    happy_active_everywhere.Base.BTreeMap.contains_key insert
tick-IsStarted_example =
    tick-IsStarted sample_hash accepts_all turn opened (text "nightly") {running = process}
      (open_jobs-IsValid stored (tt, tt) refl) refl

save_deployment-kept_example :
    ((is_listen job.direction && any (is_other_listener job) (values opened.inner.configs)) ≡ false)
    × (((existing : Config) × (get job.id opened.inner.configs ≡ some existing)
          × (existing ≡ record job { enabled = existing.enabled })
          × (opened ≡ opened))
        ⊎ ((get job.id opened.inner.configs ≡ none)
            × (opened.stored ≡ some (ok opened.inner.configs))
            × (get (text "x") opened.inner.configs
                ≡ (if text "x" ≟ job.id then some job else get (text "x") opened.inner.configs))
            × (get (text "x") opened.inner.running
                ≡ (if text "x" ≟ job.id then none else get (text "x") opened.inner.running))))
unfolding save_inner happy_active_everywhere.Base.Text.len valid_hash get list_ord lex
    happy_active_everywhere.Base.BTreeMap.contains_key
save_deployment-kept_example =
    save_deployment-kept sample_hash accepts_all persisted trusted one_folder opened job (text "x")
      {jobs' = opened} refl

-- A line in two pieces, with some of the next one.
abbrev quiet : Progress
quiet = record { last_message = ""; last_success = none }

abbrev length_of : List ℕ → String
length_of [] = "empty"
length_of (b ∷ bytes) = "a line"

abbrev no_line : List ℕ → Bool
no_line bytes = false

abbrev pieces : List (Option ℕ × List ℕ)
pieces = (some 1, 65 ∷ []) ∷ (some 2, 66 ∷ 10 ∷ 67 ∷ []) ∷ []

reader-line_example :
    ((reader length_of no_line pieces record { status = quiet; line = [] }).status.last_message
      ≡ length_of (take 4096 (65 ∷ 66 ∷ [])))
    × ((reader length_of no_line pieces record { status = quiet; line = [] }).line
        ≡ take 4096 (67 ∷ []))
reader-line_example =
    reader-line length_of no_line pieces quiet (65 ∷ 66 ∷ []) (67 ∷ []) refl (refl, (refl, tt))
      (refl, tt)
