-- ===== src/Jobs/Saving.antt =====
-- src/jobs.rs: `save_inner` and `set_enabled`.
use happy_active_everywhere.Base.{
  Bool, ◌&&◌, leb, length, if◌then◌else◌, Result, ok, ensure, context, ◌>>=◌, ◌>>◌,
}
use happy_active_everywhere.Base.Order.{list_ord}
use happy_active_everywhere.Base.Text.{Text}
use happy_active_everywhere.Base.BTreeMap.{get, insert, remove, contains_key}
use happy_active_everywhere.Identity.{Certificate, Peers}
use happy_active_everywhere.Share.Access.{Shares}
use happy_active_everywhere.Jobs.{
  Config, Configs, validate, Inner, Jobs, Persisting, persist, check_deployment, adopt,
  unless_failed, permitted,
}

-- What `save_inner` and `set_enabled` do when the new configurations are persisted.
abbrev pub saved : Text → Configs → Inner → Inner
saved id configs inner = record inner {
  running = remove id inner.running;
  retry = remove id inner.retry;
  configs = configs;
}

abbrev pub switched : Text → Bool → Configs → Inner → Inner
switched id enabled configs inner = record inner {
  configs = configs;
  running = if enabled then inner.running else remove id inner.running;
  retry = remove id inner.retry;
}

-- From the new map of configurations on.
unfoldable pub insert_config : Persisting → Jobs → Config → Result (Jobs × Result (Unit {0}))
unfolding persist
insert_config writing jobs config = do
  let configs = insert config.id config jobs.inner.configs
  ensure (leb (length configs) 32) "too many managed jobs"
  ok (adopt (saved config.id configs) (persist writing configs jobs))

-- From `if deployment` on.
unfoldable pub save_checked : Persisting → Jobs → Config → Bool → Result (Jobs × Result (Unit {0}))
unfolding check_deployment insert_config
save_checked writing jobs config deployment = do
  (if deployment then check_deployment jobs.inner config else ok tt)
  if deployment && contains_key config.id jobs.inner.configs
      then ok (jobs, ok tt)
      else insert_config writing jobs config

module _ (hash : Certificate → Text) (accepts : Certificate → Bool) where
  unfoldable pub save_inner :
      Persisting → Peers → Shares → Jobs → Config → Bool → Jobs × Result (Unit {0})
  unfolding validate permitted save_checked
  save_inner writing peers shares jobs config deployment = unless_failed jobs (do
    validate config
    permitted hash accepts peers shares config
    save_checked writing jobs config deployment)

  -- `set_enabled` on a job that is known.
  unfoldable pub switch :
      Persisting → Peers → Shares → Jobs → Text → Bool → Config → Result (Jobs × Result (Unit {0}))
  unfolding permitted persist
  switch writing peers shares jobs id enabled config = do
    (if enabled then permitted hash accepts peers shares config else ok tt)
    let configs = insert id (record config { enabled = enabled }) jobs.inner.configs
    ok (adopt (switched id enabled configs) (persist writing configs jobs))

  unfoldable pub set_enabled :
      Persisting → Peers → Shares → Jobs → Text → Bool → Jobs × Result (Unit {0})
  unfolding switch
  set_enabled writing peers shares jobs id enabled = unless_failed jobs (do
    config ← context (get id jobs.inner.configs) "unknown job"
    switch writing peers shares jobs id enabled config)
