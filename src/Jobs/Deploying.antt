-- ===== src/Jobs/Deploying.antt =====
-- What `save_deployment` promises: it never changes a job that there is, and two jobs that it saves do
-- not listen on one port.
use happy_active_everywhere.Base.{
  String, Bool, true, false, ◌&&◌, none, some, ◌==◌, any, leb, length, if◌then◌else◌, Result, ok,
  err, ensure, >>-eq-ok, ensure-eq-ok, ok-injective, err≢ok, Bool-cases, Option-cases, inl, inr,
  ◌≡◌, refl, sym, ap, ◌∙◌, arith, ==_iff, not-true, true≢false, ◌⊎◌,
}
use happy_active_everywhere.Base.Order.{◌≟◌, ≟-eq, list_ord}
use happy_active_everywhere.Base.Text.{Text}
use happy_active_everywhere.Base.BTreeMap.{
  BTreeMap, get-insert, get-remove, get, insert, contains_key, values,
}
use happy_active_everywhere.Identity.{Certificate, Peers}
use happy_active_everywhere.Share.Access.{Shares}
use happy_active_everywhere.Jobs.{
  Direction, connect, listen, Config, Inner, Jobs, Persisting, unwritten, unsynced, persisted,
  persist, adopt, unless_failed, validate, permitted, same_direction, same_enabled, same_config,
  check_binding, is_listen, is_other_listener, check_deployment,
}
use happy_active_everywhere.Jobs.Saving.{insert_config, saved, save_checked, save_inner}

same_direction-eq : (a b : Direction) → same_direction a b ≡ true → a ≡ b
same_direction-eq connect connect h = refl
same_direction-eq connect listen h = cc
same_direction-eq listen connect h = cc
same_direction-eq listen listen h = refl

same_enabled-eq : (a b : Bool) → same_enabled a b ≡ true → a ≡ b
same_enabled-eq true b h = sym h
same_enabled-eq false b h = sym (not-true b h)

same_config-eq : (a b : Config) → same_config a b ≡ true → a ≡ b
unfolding same_config
same_config-eq a b h =
    let id : (a.id ≟ b.id) ≡ true = ground arith in
    let folder : (a.folder ≟ b.folder) ≡ true = ground arith in
    let peer : (a.peer ≟ b.peer) ≡ true = ground arith in
    let ip : (a.address.ip ≟ b.address.ip) ≡ true = ground arith in
    let port : (a.address.port == b.address.port) ≡ true = ground arith in
    let direction : same_direction a.direction b.direction ≡ true = ground arith in
    let enabled : same_enabled a.enabled b.enabled ≡ true = ground arith in
    λ i. record {
      id = ≟-eq a.id b.id id i;
      folder = ≟-eq a.folder b.folder folder i;
      peer = ≟-eq a.peer b.peer peer i;
      address = record {
        ip = ≟-eq a.address.ip b.address.ip ip i;
        port = (==_iff a.address.port b.address.port).0 port i;
      };
      direction = same_direction-eq a.direction b.direction direction i;
      enabled = same_enabled-eq a.enabled b.enabled enabled i;
    }

test-ok : (test : Bool) (message : String) → ensure test message ≡ ok tt → test ≡ true
test-ok true message h = refl
test-ok false message h = absurd (err≢ok h)

unless_failed-ok :
    (jobs : Jobs) (tried : Result (Jobs × Result (Unit {0}))) {jobs' : Jobs}
    → unless_failed jobs tried ≡ (jobs', ok tt)
    → tried ≡ ok (jobs', ok tt)
unless_failed-ok jobs (ok done) h = ap ok h
unless_failed-ok jobs (err message) h =
    absurd (err≢ok (ap (λ (d : Jobs × Result (Unit {0})). d.1) h))

persist-ok :
    (writing : Persisting) (configs : BTreeMap Text Config) (jobs : Jobs) (change : Inner → Inner)
    {jobs' : Jobs}
    → adopt change (persist writing configs jobs) ≡ (jobs', ok tt)
    → jobs' ≡ record { stored = some (ok configs); inner = change jobs.inner }
unfolding persist
persist-ok (unwritten message) configs jobs change h =
    absurd (err≢ok (ap (λ (d : Jobs × Result (Unit {0})). d.1) h))
persist-ok (unsynced message) configs jobs change h =
    absurd (err≢ok (ap (λ (d : Jobs × Result (Unit {0})). d.1) h))
persist-ok persisted configs jobs change h = sym (ap (λ (d : Jobs × Result (Unit {0})). d.0) h)

known :
    (configs : BTreeMap Text Config) (config : Config)
    → contains_key config.id configs ≡ true
    → check_binding (get config.id configs) config ≡ ok tt
    → (existing : Config) × (get config.id configs ≡ some existing)
      × (existing ≡ record config { enabled = existing.enabled })
unfolding contains_key
known configs config t h = elim (Option-cases (get config.id configs)) [
  | inl n ↦ absurd (true≢false (sym (rw (contains_key, n) at t)))
  | inr (existing, g) ↦
      let other = record config { enabled = existing.enabled } in
      (
        existing,
        g,
        same_config-eq existing other (test-ok (same_config existing other) _ (rw g at h)),
      )
]

unknown :
    (configs : BTreeMap Text Config) (id : Text)
    → contains_key id configs ≡ false
    → get id configs ≡ none
unfolding contains_key
unknown configs id t = elim (Option-cases (get id configs)) [
  | inl n ↦ n
  | inr (existing, g) ↦ absurd (true≢false (rw (contains_key, g) at t))
]

module _ (hash : Certificate → Text) (accepts : Certificate → Bool) where
  -- Where save_deployment succeeds, no other job listens on the port of a job that listens, and either
  -- the job was there with the same binding, whether enabled or not, and nothing changes, or it was not
  -- there: then it is added as given, what is stored are the new configurations, all other
  -- configurations and their processes are as they were, and no process runs for it.
  pub save_deployment-kept :
      (writing : Persisting) (peers : Peers) (shares : Shares) (jobs : Jobs) (config : Config)
      (other : Text) {jobs' : Jobs}
      → save_inner hash accepts writing peers shares jobs config true ≡ (jobs', ok tt)
      → ((is_listen config.direction && any (is_other_listener config) (values jobs.inner.configs))
          ≡ false)
        × (((existing : Config) × (get config.id jobs.inner.configs ≡ some existing)
              × (existing ≡ record config { enabled = existing.enabled })
              × (jobs' ≡ jobs))
            ⊎ ((get config.id jobs.inner.configs ≡ none)
                × (jobs'.stored ≡ some (ok jobs'.inner.configs))
                × (get other jobs'.inner.configs
                    ≡ (if other ≟ config.id then some config else get other jobs.inner.configs))
                × (get other jobs'.inner.running
                    ≡ (if other ≟ config.id then none else get other jobs.inner.running))))
  unfolding save_inner save_checked check_deployment insert_config
  save_deployment-kept writing peers shares jobs config other {jobs'} h =
      let (_, h1) = >>-eq-ok (validate config) _ (unless_failed-ok jobs _ h) in
      let (_, h2) = >>-eq-ok (permitted hash accepts peers shares config) _ h1 in
      let (d, h3) = >>-eq-ok (check_deployment jobs.inner config) _ h2 in
      let (b, d1) = >>-eq-ok (check_binding (get config.id jobs.inner.configs) config) _ d in
      let listener = not-true _ (test-ok _ _ d1) in
      (
        listener,
        elim (Bool-cases (contains_key config.id jobs.inner.configs)) [
          | inl t ↦
              let (existing, g, e) = known jobs.inner.configs config t b in
              inl (
                existing,
                g,
                e,
                sym (ap (λ (x : Jobs × Result (Unit {0})). x.0) (ok-injective (rw t at h3))),
              )
          | inr t ↦
              let configs = insert config.id config jobs.inner.configs in
              let (_, h4) = ensure-eq-ok (leb (length configs) 32) _ _ (rw t at h3) in
              let made =
                persist-ok writing configs jobs (saved config.id configs) (ok-injective h4) in
              inr (
                unknown jobs.inner.configs config.id t,
                ap (λ (x : Jobs). x.stored) made
                    ∙ sym (ap (λ (x : Jobs). some (ok x.inner.configs)) made),
                ap (λ (x : Jobs). get other x.inner.configs) made
                    ∙ get-insert config.id other config jobs.inner.configs,
                ap (λ (x : Jobs). get other x.inner.running) made
                    ∙ get-remove config.id other jobs.inner.running,
              )
        ],
      )
