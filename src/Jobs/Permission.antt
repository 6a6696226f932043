-- ===== src/Jobs/Permission.antt =====
-- Which jobs `tick` starts.
use happy_active_everywhere.Base.{
  Bool, true, false, some, List, [], ◌∷◌, Result, ok, err, >>=-eq-ok, >>-eq-ok, ensure-eq-ok,
  ok-injective, Result-cases, Bool-cases, ◌⊎◌, inl, inr, ◌≡◌, sym, ap, subst, ◌∙◌, arith,
  some-injective, none≢some,
}
use happy_active_everywhere.Base.In.{All}
use happy_active_everywhere.Base.Order.{◌≟◌, ≟-eq, list_ord}
use happy_active_everywhere.Base.Text.{Text}
use happy_active_everywhere.Base.BTreeMap.{
  get, insert, contains_key, values, get-insert, get-remove,
}
use happy_active_everywhere.Identity.{Certificate, Peers, valid_peer, roots, new}
use happy_active_everywhere.Identity.Trust.{IsTrusted, roots-IsTrusted}
use happy_active_everywhere.Share.Access.{Shares, valid_id, read_config, permit, check_access}
use happy_active_everywhere.Jobs.{Config, Configs, Running, Inner, Jobs, permitted}
use happy_active_everywhere.Jobs.Turns.{
  arguments_of, Turn, has_ended, settle, or_default, launch, launched, is_idle, start, take_turn,
  take_turns, tick,
}
use happy_active_everywhere.Jobs.Supervision.{IsValid, values-configured}
use happy_active_everywhere.Jobs.Ticking.{launch-arguments}

module _ (hash : Certificate → Text) (accepts : Certificate → Bool) where
  -- The device trusts the peer, and the folder can be read and lists it.
  abbrev pub IsPermitted : Peers → Shares → Config → Type 0
  IsPermitted peers shares config =
      IsTrusted hash accepts peers config.peer
      × ((folder : happy_active_everywhere.Share.Access.Config) × (read_config shares config.folder
            ≡ ok folder)
          × (contains_key config.peer folder.peers ≡ true))

  permitted-IsPermitted :
      (peers : Peers) (shares : Shares) (config : Config)
      → permitted hash accepts peers shares config ≡ ok tt
      → IsPermitted peers shares config
  unfolding permitted new check_access permit
  permitted-IsPermitted peers shares config h =
      let (n, h1) = >>-eq-ok (new hash accepts peers config.peer) _ h in
      let (_, n1) = >>-eq-ok (valid_peer config.peer) _ n in
      let (der, r, _) = >>=-eq-ok (roots hash accepts peers config.peer) _ n1 in
      let (_, h2) = >>-eq-ok (valid_id config.folder) _ h1 in
      let (folder, f, h3) = >>=-eq-ok (read_config shares config.folder) _ h2 in
      let (t, _) = ensure-eq-ok (contains_key config.peer folder.peers) _ _ h3 in
      (roots-IsTrusted hash accepts peers config.peer r, (folder, f, t))

  -- The job was started in its turn: it is enabled, and was permitted at that time.
  abbrev pub IsStarted : (Text → Turn) → Configs → Text → Running → Type 0
  IsStarted turns configs id running =
      (config : Config) × (get id configs ≡ some config)
      × (config.enabled ≡ true)
      × (arguments_of config ≡ running.arguments)
      × IsPermitted (turns id).peers (turns id).shares config

  launched-started :
      (turn : Turn) (config : Config) (inner : Inner) (tried : Result Running) (id : Text)
      {running : Running}
      → get id (launched turn config.id inner tried).running ≡ some running
      → (get id inner.running ≡ some running) ⊎ ((id ≡ config.id) × (tried ≡ ok running))
  launched-started turn config inner (err message) id h = inl h
  launched-started turn config inner (ok made) id h =
      let e = sym (get-insert config.id id made inner.running) ∙ h in
      elim (Bool-cases (id ≟ config.id)) [
        | inl t ↦ inr (≟-eq id config.id t, ap ok (some-injective (rw t at e)))
        | inr t ↦ inl (rw t at e)
      ]

  settled :
      (turn : Turn) (j id : Text) (ended : Bool) (inner : Inner) {running : Running}
      → get id (settle turn j ended inner).running ≡ some running
      → get id inner.running ≡ some running
  settled turn j id false inner h = h
  settled turn j id true inner h =
      let e = sym (get-remove j id inner.running) ∙ h in
      elim (Bool-cases (id ≟ j)) [ inl t ↦ absurd (none≢some (rw t at e)) | inr t ↦ rw t at e ]

  start-started :
      (turn : Turn) (config : Config) (inner : Inner) (id : Text) {running : Running}
      → get id (start hash accepts turn config inner).running ≡ some running
      → (get id inner.running ≡ some running)
        ⊎ ((id ≡ config.id)
            × (config.enabled ≡ true)
            × (launch hash accepts turn config ≡ ok running))
  unfolding start
  start-started turn config inner id h = elim (Bool-cases (is_idle turn config inner)) [
    | inl t ↦ inl (rw t at h)
    | inr t ↦
        let enabled : config.enabled ≡ true = ground arith in
        elim (launched-started turn config
          (record inner {
            progress = insert config.id (or_default (get config.id inner.progress)) inner.progress;
          })
          (launch hash accepts turn config) id (rw t at h)) [
            | inl e ↦ inl e
            | inr (e, l) ↦ inr (e, enabled, l)
          ]
  ]

  take_turn-started :
      (turn : Turn) (config : Config) (inner : Inner) (id : Text) {inner' : Inner}
      {running : Running}
      → take_turn hash accepts turn config inner ≡ ok inner'
      → get id inner'.running ≡ some running
      → (get id inner.running ≡ some running)
        ⊎ ((id ≡ config.id)
            × (config.enabled ≡ true)
            × (launch hash accepts turn config ≡ ok running))
  unfolding take_turn
  take_turn-started turn config inner id {inner'} {running} h g =
      let (ended, e, h1) = >>=-eq-ok (has_ended turn (get config.id inner.running)) _ h in
      elim (start-started turn config (settle turn config.id ended inner) id
        (ap (λ (x : Inner). get id x.running) (ok-injective h1) ∙ g)) [
          | inl k ↦ inl (settled turn config.id id ended inner k)
          | inr s ↦ inr s
        ]

  launch-IsStarted :
      (turns : Text → Turn) (config : Config) (configs : Configs) (id : Text) {running : Running}
      → get config.id configs ≡ some config
      → config.enabled ≡ true
      → id ≡ config.id
      → launch hash accepts (turns config.id) config ≡ ok running
      → IsStarted turns configs id running
  launch-IsStarted turns config configs id {running} g n e l =
      let (p, a) = launch-arguments hash accepts (turns config.id) config l in
      subst (λ (i : Text). IsStarted turns configs i running) (sym e)
        (
          config,
          g,
          n,
          a,
          permitted-IsPermitted (turns config.id).peers (turns config.id).shares config p,
        )

  take_turns-IsStarted :
      (turns : Text → Turn) (configs : Configs) (jobs : List Config) (inner : Inner) (id : Text)
      {running : Running}
      → All (λ (c : Config). get c.id configs ≡ some c) jobs
      → get id (take_turns hash accepts turns jobs inner).0.running ≡ some running
      → (get id inner.running ≡ some running) ⊎ IsStarted turns configs id running
  unfolding take_turns
  take_turns-IsStarted turns configs [] inner id a h = inl h
  take_turns-IsStarted turns configs (config ∷ jobs) inner id (g, a) h =
      elim (Result-cases (take_turn hash accepts (turns config.id) config inner)) [
        | inr (message, e) ↦ inl (rw (take_turns, e) at h)
        | inl (inner', e) ↦
            elim (take_turns-IsStarted turns configs jobs inner' id a (rw (take_turns, e) at h)) [
              | inr s ↦ inr s
              | inl k ↦ elim (take_turn-started (turns config.id) config inner id e k) [
                | inl before ↦ inl before
                | inr (i, n, l) ↦ inr (launch-IsStarted turns config configs id g n i l)
              ]
            ]
      ]

  -- A job that runs after `tick`, on a valid supervisor, ran before it as the same process, or was
  -- started in its turn, whatever became of the turns of the others: then it has a configuration, which
  -- is enabled, the process has its command line, and at that time the device trusted a certificate of
  -- the peer and the folder's configuration could be read and listed the peer.
  pub tick-IsStarted :
      (turns : Text → Turn) (jobs : Jobs) (id : Text) {running : Running}
      → IsValid jobs
      → get id (tick hash accepts turns jobs).0.inner.running ≡ some running
      → (get id jobs.inner.running ≡ some running) ⊎ IsStarted turns jobs.inner.configs id running
  unfolding tick
  tick-IsStarted turns jobs id v h =
      take_turns-IsStarted turns jobs.inner.configs (values jobs.inner.configs) jobs.inner id
        (values-configured jobs.inner.configs v.1.configured) h
