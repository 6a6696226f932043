-- ===== src/Jobs/Histories.antt =====
-- What holds of the supervisor after any operations, and of its next start.
use happy_active_everywhere.Base.{
  ◌≤◌, Bool, true, false, Option, none, some, List, [], ◌∷◌, leb, leb→le, le→leb, length, Result,
  ok, err, >>=-eq-ok, >>-eq-ok, ensure-eq-ok, ok-injective, err≢ok, ◌≡◌, refl, sym, subst, arith,
}
use happy_active_everywhere.Base.Text.{Text}
use happy_active_everywhere.Base.BTreeMap.{IsSorted, get}
use happy_active_everywhere.Base.Order.{list_ord}
use happy_active_everywhere.Identity.{Certificate}
use happy_active_everywhere.Jobs.{Configs, Jobs, none_of, parsed, check_configs, open_jobs}
use happy_active_everywhere.Jobs.Turns.{
  Operation, save, save_deployment, enable, ticked, shutdown, operate, operate_all,
}
use happy_active_everywhere.Jobs.Supervision.{
  AreFormed, IsStored, IsValid, check_configs-IsFormed, formed-check_configs,
}
use happy_active_everywhere.Jobs.Ticking.{tick-IsValid}
use happy_active_everywhere.Jobs.Changing.{save_inner-IsValid, set_enabled-IsValid}

-- A map that was read has its keys in order.
abbrev pub IsOrdered : Option (Result Configs) → Type 0
IsOrdered (some (ok configs)) = IsSorted configs
IsOrdered _ = Unit

opened-IsValid :
    (stored : Option (Result Configs)) (configs : Configs)
    → IsOrdered stored
    → parsed stored ≡ ok configs
    → length configs ≤ 32
    → check_configs configs ≡ ok tt
    → IsStored stored × AreFormed configs
opened-IsValid none configs o e l c =
    let made : AreFormed [] = record { sorted = tt; formed = tt; few = ground arith } in
    (tt, subst AreFormed (ok-injective e) made)
opened-IsValid (some (err message)) configs o e l c = absurd (err≢ok e)
opened-IsValid (some (ok read)) configs o e l c =
    let same = ok-injective e in
    let made : AreFormed configs = record {
      sorted = subst IsSorted same o;
      formed = check_configs-IsFormed configs c;
      few = l;
    } in
    (subst AreFormed (sym same) made, made)

pub open_jobs-IsValid :
    (stored : Option (Result Configs)) {jobs : Jobs}
    → IsOrdered stored
    → open_jobs stored ≡ ok jobs
    → IsValid jobs
unfolding open_jobs get
open_jobs-IsValid stored {jobs} o h =
    let (configs, e, h1) = >>=-eq-ok (parsed stored) _ h in
    let (t, h2) = ensure-eq-ok (leb (length configs) 32) _ _ h1 in
    let (c, h3) = >>-eq-ok (check_configs configs) _ h2 in
    let (s, f) = opened-IsValid stored configs o e (leb→le (length configs) 32 t) c in
    subst IsValid (ok-injective h3) (s, record { configured = f; supervised = λ id. tt })

stored-open_jobs :
    (stored : Option (Result Configs))
    → IsStored stored
    → (again : Jobs) × (open_jobs stored ≡ ok again)
unfolding open_jobs check_configs
stored-open_jobs none s = (record { stored = none; inner = none_of [] }, refl)
stored-open_jobs (some (err message)) s = absurd s
stored-open_jobs (some (ok configs)) s = (
  record { stored = some (ok configs); inner = none_of configs },
  rw (le→leb (length configs) 32 s.few, formed-check_configs configs s.formed) refl,
)

module _ (hash : Certificate → Text) (accepts : Certificate → Bool) where
  operate-IsValid :
      (operation : Operation hash accepts) (jobs : Jobs)
      → IsValid jobs
      → IsValid (operate hash accepts operation jobs).0
  unfolding operate get
  operate-IsValid (save writing peers shares config) jobs v =
      save_inner-IsValid hash accepts writing peers shares jobs config false v
  operate-IsValid (save_deployment writing peers shares config) jobs v =
      save_inner-IsValid hash accepts writing peers shares jobs config true v
  operate-IsValid (enable writing peers shares id enabled) jobs v =
      set_enabled-IsValid hash accepts writing peers shares jobs id enabled v
  operate-IsValid (ticked turns) jobs v = tick-IsValid hash accepts turns jobs v
  operate-IsValid shutdown jobs v =
      (v.0, record { configured = v.1.configured; supervised = λ id. tt })

  all-IsValid :
      (operations : List (Operation hash accepts)) (jobs : Jobs)
      → IsValid jobs
      → IsValid (operate_all hash accepts operations jobs)
  unfolding operate_all
  all-IsValid [] jobs v = v
  all-IsValid (operation ∷ operations) jobs v =
      all-IsValid operations (operate hash accepts operation jobs).0
        (operate-IsValid operation jobs v)

  -- Whatever operations follow the start of the supervisor, whether they succeed or fail: each
  -- configuration is valid and under its identifier, there are at most 32, what is stored is such a map
  -- too, and a job that runs has a configuration that is enabled, and was started with its command line.
  pub operate_all-IsValid :
      (operations : List (Operation hash accepts)) (stored : Option (Result Configs)) {jobs : Jobs}
      → IsOrdered stored
      → open_jobs stored ≡ ok jobs
      → IsValid (operate_all hash accepts operations jobs)
  operate_all-IsValid operations stored {jobs} o h =
      all-IsValid operations jobs (open_jobs-IsValid stored o h)

  -- Whatever operations follow the start of the supervisor, whether they succeed or fail: it can be
  -- started again from what is stored.
  pub operate_all-open_jobs :
      (operations : List (Operation hash accepts)) (stored : Option (Result Configs)) {jobs : Jobs}
      → IsOrdered stored
      → open_jobs stored ≡ ok jobs
      → (again : Jobs) × (open_jobs (operate_all hash accepts operations jobs).stored ≡ ok again)
  operate_all-open_jobs operations stored {jobs} o h =
      stored-open_jobs (operate_all hash accepts operations jobs).stored
        (operate_all-IsValid operations stored o h).0
