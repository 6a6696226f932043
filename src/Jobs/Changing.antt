-- ===== src/Jobs/Changing.antt =====
-- That `save_inner` and `set_enabled` keep the invariant of the supervisor.
use happy_active_everywhere.Base.{
  ◌≤◌, Bool, true, false, ◌&&◌, Option, none, some, leb, leb→le, length, if◌then◌else◌, Result, ok,
  context, ◌>>=◌, >>-eq-ok, ensure-eq-ok, ok-injective, err≢ok, Bool-cases, inl, inr, ◌≡◌, refl,
  sym, subst,
}
use happy_active_everywhere.Base.Order.{list_ord}
use happy_active_everywhere.Base.Text.{Text}
use happy_active_everywhere.Base.BTreeMap.{get, insert, remove, contains_key}
use happy_active_everywhere.Base.Unique.{All-get}
use happy_active_everywhere.Base.Keys.{length-insert_known}
use happy_active_everywhere.Identity.{Certificate, Peers}
use happy_active_everywhere.Share.Access.{Shares}
use happy_active_everywhere.Jobs.{Config, Jobs, Persisting, validate, permitted, check_deployment}
use happy_active_everywhere.Jobs.Saving.{
  insert_config, saved, switched, switch, save_checked, save_inner, set_enabled,
}
use happy_active_everywhere.Jobs.Supervision.{
  Runs, IsFormed, AreFormed, IsValid, removed, kept, insert-AreFormed, persist-IsValid,
  unless_failed-IsValid,
}

module _ (hash : Certificate → Text) (accepts : Certificate → Bool) where
  insert_config-IsValid :
      (writing : Persisting) (jobs : Jobs) (config : Config) {done : Jobs × Result (Unit {0})}
      → IsValid jobs
      → validate config ≡ ok tt
      → insert_config writing jobs config ≡ ok done
      → IsValid done.0
  unfolding insert_config
  insert_config-IsValid writing jobs config v c h =
      let configs = insert config.id config jobs.inner.configs in
      let (t, h1) = ensure-eq-ok (leb (length configs) 32) _ _ h in
      let formed =
        insert-AreFormed config jobs.inner.configs v.1.configured c
          (leb→le (length configs) 32 t) in
      subst (λ (d : Jobs × Result (Unit {0})). IsValid d.0) (ok-injective h1)
        (persist-IsValid writing configs jobs (saved config.id configs) v formed record {
          configured = formed;
          supervised =
              removed config.id config jobs.inner.configs jobs.inner.running v.1.supervised;
        })

  save_checked-IsValid :
      (writing : Persisting) (jobs : Jobs) (config : Config) (deployment : Bool)
      {done : Jobs × Result (Unit {0})}
      → IsValid jobs
      → validate config ≡ ok tt
      → save_checked writing jobs config deployment ≡ ok done
      → IsValid done.0
  unfolding save_checked
  save_checked-IsValid writing jobs config deployment v c h =
      let (_, h1) =
        >>-eq-ok (if deployment then check_deployment jobs.inner config else ok tt) _ h in
      elim (Bool-cases (deployment && contains_key config.id jobs.inner.configs)) [
        | inl t ↦
            subst (λ (d : Jobs × Result (Unit {0})). IsValid d.0) (ok-injective (rw t at h1)) v
        | inr t ↦ insert_config-IsValid writing jobs config v c (rw t at h1)
      ]

  pub save_inner-IsValid :
      (writing : Persisting) (peers : Peers) (shares : Shares) (jobs : Jobs) (config : Config)
      (deployment : Bool)
      → IsValid jobs
      → IsValid (save_inner hash accepts writing peers shares jobs config deployment).0
  unfolding save_inner
  save_inner-IsValid writing peers shares jobs config deployment v =
      unless_failed-IsValid jobs _ v λ done h.
        let (c, h1) = >>-eq-ok (validate config) _ h in
        let (_, h2) = >>-eq-ok (permitted hash accepts peers shares config) _ h1 in
        save_checked-IsValid writing jobs config deployment v c h2

  switch-IsValid :
      (writing : Persisting) (peers : Peers) (shares : Shares) (jobs : Jobs) (id : Text)
      (enabled : Bool) (config : Config) {done : Jobs × Result (Unit {0})}
      → IsValid jobs
      → get id jobs.inner.configs ≡ some config
      → switch hash accepts writing peers shares jobs id enabled config ≡ ok done
      → IsValid done.0
  unfolding switch validate
  switch-IsValid writing peers shares jobs id enabled config v g h =
      let (_, h1) =
        >>-eq-ok (if enabled then permitted hash accepts peers shares config else ok tt) _ h in
      let (c, e) = All-get IsFormed id config jobs.inner.configs v.1.configured.formed g in
      let new = record config { enabled = enabled } in
      let configs = insert id new jobs.inner.configs in
      let size : length configs ≤ 32 =
        rw (length-insert_known id new config jobs.inner.configs v.1.configured.sorted g)
          v.1.configured.few in
      let formed =
        subst
          (λ (i : Text).
            length (insert i new jobs.inner.configs) ≤ 32
            → AreFormed (insert i new jobs.inner.configs))
          (sym e) (insert-AreFormed new jobs.inner.configs v.1.configured c) size in
      subst (λ (d : Jobs × Result (Unit {0})). IsValid d.0) (ok-injective h1)
        (persist-IsValid writing configs jobs (switched id enabled configs) v formed
          record { configured = formed; supervised = supervised enabled })
    where
      supervised :
          (on : Bool) (j : Text)
          → Runs
              (get j (insert id (record config { enabled = on }) jobs.inner.configs))
              (get j (if on then jobs.inner.running else remove id jobs.inner.running))
      supervised true = kept id config jobs.inner.configs jobs.inner.running g v.1.supervised
      supervised false =
          removed id (record config { enabled = false }) jobs.inner.configs jobs.inner.running
            v.1.supervised

  pub set_enabled-IsValid :
      (writing : Persisting) (peers : Peers) (shares : Shares) (jobs : Jobs) (id : Text)
      (enabled : Bool)
      → IsValid jobs
      → IsValid (set_enabled hash accepts writing peers shares jobs id enabled).0
  unfolding set_enabled
  set_enabled-IsValid writing peers shares jobs id enabled v =
      unless_failed-IsValid jobs _ v (found (get id jobs.inner.configs) refl)
    where
      found :
          (o : Option Config)
          → get id jobs.inner.configs ≡ o
          → (done : Jobs × Result (Unit {0}))
          → (context o "unknown job" >>= switch hash accepts writing peers shares jobs id enabled)
            ≡ ok done
          → IsValid done.0
      found none g done h = absurd (err≢ok h)
      found (some config) g done h =
          switch-IsValid writing peers shares jobs id enabled config v g h
