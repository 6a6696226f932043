-- ===== src/Jobs/Ticking.antt =====
-- That `tick` keeps the invariant of the supervisor.
use happy_active_everywhere.Base.{
  Bool, true, false, Option, some, List, [], ◌∷◌, Result, ok, err, >>=-eq-ok, >>-eq-ok,
  ok-injective, Result-cases, Bool-cases, inl, inr, ◌≡◌, refl, sym, ap, subst, ◌∙◌, arith,
}
use happy_active_everywhere.Base.In.{All}
use happy_active_everywhere.Base.Order.{◌≟◌, ≟-eq, list_ord}
use happy_active_everywhere.Base.Text.{Text}
use happy_active_everywhere.Base.BTreeMap.{get, insert, values, get-insert, get-remove}
use happy_active_everywhere.Identity.{Certificate}
use happy_active_everywhere.Jobs.{Config, Configs, Running, Inner, Jobs, permitted}
use happy_active_everywhere.Jobs.Turns.{
  arguments_of, Turn, has_ended, settle, or_default, launch, launched, is_idle, start, take_turn,
  take_turns, tick,
}
use happy_active_everywhere.Jobs.Supervision.{Runs, IsSupervised, IsValid, values-configured}

module _ (hash : Certificate → Text) (accepts : Certificate → Bool) where
  settle-IsSupervised :
      (turn : Turn) (id : Text) (ended : Bool) (inner : Inner)
      → IsSupervised inner
      → IsSupervised (settle turn id ended inner)
        × ((settle turn id ended inner).configs ≡ inner.configs)
  settle-IsSupervised turn id false inner s = (s, refl)
  settle-IsSupervised turn id true inner s = (
    record {
      configured = s.configured;
      supervised = λ j.
          rw (get-remove id j inner.running)
            (elim (Bool-cases (j ≟ id)) [ inl t ↦ rw t tt | inr t ↦ rw t (s.supervised j) ]);
    },
    refl,
  )

  pub launch-arguments :
      (turn : Turn) (config : Config) {running : Running}
      → launch hash accepts turn config ≡ ok running
      → (permitted hash accepts turn.peers turn.shares config ≡ ok tt)
        × (arguments_of config ≡ running.arguments)
  unfolding launch
  launch-arguments turn config h =
      let (p, h1) = >>-eq-ok (permitted hash accepts turn.peers turn.shares config) _ h in
      let (pid, e, h2) = >>=-eq-ok (turn.spawn (arguments_of config)) _ h1 in
      (p, ap (λ (r : Running). r.arguments) (ok-injective h2))

  launched-IsSupervised :
      (turn : Turn) (config : Config) (inner : Inner) (tried : Result Running)
      → IsSupervised inner
      → get config.id inner.configs ≡ some config
      → config.enabled ≡ true
      → ((running : Running) → tried ≡ ok running → arguments_of config ≡ running.arguments)
      → IsSupervised (launched turn config.id inner tried)
        × ((launched turn config.id inner tried).configs ≡ inner.configs)
  launched-IsSupervised turn config inner (err message) s g n a =
      (record { configured = s.configured; supervised = s.supervised }, refl)
  launched-IsSupervised turn config inner (ok running) s g n a = (
    record {
      configured = s.configured;
      supervised = λ j.
          rw (get-insert config.id j running inner.running) (elim (Bool-cases (j ≟ config.id)) [
            | inl t ↦ rw t (
                subst (λ (o : Option Config). Runs o (some running))
                  (sym (ap (λ (i : Text). get i inner.configs) (≟-eq j config.id t) ∙ g))
                  (n, a running refl))
            | inr t ↦ rw t (s.supervised j)
          ]);
    },
    refl,
  )

  start-IsSupervised :
      (turn : Turn) (config : Config) (inner : Inner)
      → IsSupervised inner
      → get config.id inner.configs ≡ some config
      → IsSupervised (start hash accepts turn config inner)
        × ((start hash accepts turn config inner).configs ≡ inner.configs)
  unfolding start
  start-IsSupervised turn config inner s g = elim (Bool-cases (is_idle turn config inner)) [
    | inl t ↦ rw t (s, refl)
    | inr t ↦
        let enabled : config.enabled ≡ true = ground arith in
        rw t (
          launched-IsSupervised turn config
            (record inner {
              progress =
                  insert config.id (or_default (get config.id inner.progress)) inner.progress;
            })
            (launch hash accepts turn config)
            (record { configured = s.configured; supervised = s.supervised }) g enabled
            (λ running h. (launch-arguments turn config h).1))
  ]

  take_turn-IsSupervised :
      (turn : Turn) (config : Config) (inner : Inner) {inner' : Inner}
      → IsSupervised inner
      → get config.id inner.configs ≡ some config
      → take_turn hash accepts turn config inner ≡ ok inner'
      → IsSupervised inner' × (inner'.configs ≡ inner.configs)
  unfolding take_turn
  take_turn-IsSupervised turn config inner {inner'} s g h =
      let (ended, e, h1) = >>=-eq-ok (has_ended turn (get config.id inner.running)) _ h in
      let (s1, c1) = settle-IsSupervised turn config.id ended inner s in
      let (s2, c2) =
        start-IsSupervised turn config (settle turn config.id ended inner) s1
          (ap (get config.id) c1 ∙ g) in
      subst (λ (x : Inner). IsSupervised x × (x.configs ≡ inner.configs)) (ok-injective h1)
        (s2, c2 ∙ c1)

  take_turns-IsSupervised :
      (turns : Text → Turn) (jobs : List Config) (inner : Inner)
      → IsSupervised inner
      → All (λ (c : Config). get c.id inner.configs ≡ some c) jobs
      → IsSupervised (take_turns hash accepts turns jobs inner).0
  unfolding take_turns
  take_turns-IsSupervised turns [] inner s a = s
  take_turns-IsSupervised turns (config ∷ jobs) inner s (g, a) =
      elim (Result-cases (take_turn hash accepts (turns config.id) config inner)) [
        | inr (message, e) ↦ rw (take_turns, e) s
        | inl (inner', e) ↦
            let (s', c) = take_turn-IsSupervised (turns config.id) config inner s g e in
            rw (take_turns, e)
              (take_turns-IsSupervised turns jobs inner' s'
                (subst (λ (m : Configs). All (λ (c : Config). get c.id m ≡ some c) jobs) (sym c) a))
      ]

  pub tick-IsValid :
      (turns : Text → Turn) (jobs : Jobs) → IsValid jobs → IsValid (tick hash accepts turns jobs).0
  unfolding tick
  tick-IsValid turns jobs v = (
    v.0,
    take_turns-IsSupervised turns (values jobs.inner.configs) jobs.inner v.1
        (values-configured jobs.inner.configs v.1.configured),
  )
