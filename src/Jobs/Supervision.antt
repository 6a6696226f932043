-- ===== src/Jobs/Supervision.antt =====
-- The invariant of the supervisor, and that each operation keeps it.
use happy_active_everywhere.Base.{
  ◌≤◌, true, Option, none, some, [], ◌∷◌, length, Result, ok, err, >>-eq-ok, ensure-eq-ok,
  Bool-cases, inl, inr, ◌≡◌, refl, sym, ap, subst, ◌∙◌,
}
use happy_active_everywhere.Base.In.{In, All, All-In, All-intro}
use happy_active_everywhere.Base.Order.{◌≟◌, ≟-eq, ≟-refl, list_ord}
use happy_active_everywhere.Base.Text.{Text}
use happy_active_everywhere.Base.BTreeMap.{
  BTreeMap, IsSorted, get, insert, remove, values, get-insert, get-remove, get-of-In,
  insert-IsSorted,
}
use happy_active_everywhere.Base.Unique.{All-insert}
use happy_active_everywhere.Jobs.{
  Config, Configs, Running, Inner, Jobs, Persisting, unwritten, unsynced, persisted, validate,
  check_configs, persist, adopt, unless_failed,
}
use happy_active_everywhere.Jobs.Turns.{arguments_of}

-- A job that runs has a configuration, which is enabled, and the command line that belongs to it.
abbrev pub Runs : Option Config → Option Running → Type 0
Runs config none = Unit
Runs none (some running) = ⊥
Runs (some config) (some running) =
    (config.enabled ≡ true) × (arguments_of config ≡ running.arguments)

abbrev pub IsFormed : Text × Config → Type 0
IsFormed (id, config) = (validate config ≡ ok tt) × (id ≡ config.id)

-- Each configuration is valid and under its identifier, and there are at most 32.
pub record AreFormed (configs : Configs) : Type 0 where
  pub sorted : IsSorted configs
  pub formed : All IsFormed configs
  pub few : length configs ≤ 32

abbrev pub IsStored : Option (Result Configs) → Type 0
IsStored none = Unit
IsStored (some (err message)) = ⊥
IsStored (some (ok configs)) = AreFormed configs

pub record IsSupervised (inner : Inner) : Type 0 where
  pub configured : AreFormed inner.configs
  pub supervised : (id : Text) → Runs (get id inner.configs) (get id inner.running)

-- The supervisor is as it should be, and what is stored can be opened.
abbrev pub IsValid : Jobs → Type 0
IsValid jobs = IsStored jobs.stored × IsSupervised jobs.inner

pub check_configs-IsFormed :
    (configs : Configs) → check_configs configs ≡ ok tt → All IsFormed configs
unfolding check_configs
check_configs-IsFormed [] h = tt
check_configs-IsFormed ((id, config) ∷ configs) h =
    let (v, h1) = >>-eq-ok (validate config) _ h in
    let (t, h2) = ensure-eq-ok (id ≟ config.id) _ _ h1 in
    ((v, ≟-eq id config.id t), check_configs-IsFormed configs h2)

pub formed-check_configs :
    (configs : Configs) → All IsFormed configs → check_configs configs ≡ ok tt
unfolding check_configs
formed-check_configs [] a = refl
formed-check_configs ((id, config) ∷ configs) ((v, e), a) =
    rw (v, e, ≟-refl config.id, formed-check_configs configs a) refl

pub removed :
    (id : Text) (config : Config) (configs : Configs) (running : BTreeMap Text Running)
    → ((j : Text) → Runs (get j configs) (get j running))
    → (j : Text) → Runs (get j (insert id config configs)) (get j (remove id running))
removed id config configs running s j =
    rw (get-insert id j config configs, get-remove id j running)
      (elim (Bool-cases (j ≟ id)) [ inl t ↦ rw t tt | inr t ↦ rw t (s j) ])

pub switched_on :
    (c : Config) (o : Option Running)
    → Runs (some c) o
    → Runs (some (record c { enabled = true })) o
switched_on c none r = tt
switched_on c (some running) r = (refl, r.1)

pub kept :
    (id : Text) (c : Config) (configs : Configs) (running : BTreeMap Text Running)
    → get id configs ≡ some c
    → ((j : Text) → Runs (get j configs) (get j running))
    → (j : Text) → Runs (get j (insert id (record c { enabled = true }) configs)) (get j running)
kept id c configs running g s j =
    rw (get-insert id j (record c { enabled = true }) configs) (elim (Bool-cases (j ≟ id)) [
      | inl t ↦ rw t (
          switched_on c (get j running) (
            subst (λ (o : Option Config). Runs o (get j running))
              (ap (λ (i : Text). get i configs) (≟-eq j id t) ∙ g) (s j)))
      | inr t ↦ rw t (s j)
    ])

pub insert-AreFormed :
    (config : Config) (configs : Configs)
    → AreFormed configs
    → validate config ≡ ok tt
    → length (insert config.id config configs) ≤ 32
    → AreFormed (insert config.id config configs)
insert-AreFormed config configs f v l = record {
  sorted = insert-IsSorted config.id config configs f.sorted;
  formed = All-insert IsFormed config.id config configs (v, refl) f.formed;
  few = l;
}

-- Whatever becomes of `persist`, the invariant is kept if the new configurations and the new state have it.
pub persist-IsValid :
    (writing : Persisting) (configs : Configs) (jobs : Jobs) (change : Inner → Inner)
    → IsValid jobs
    → AreFormed configs
    → IsSupervised (change jobs.inner)
    → IsValid (adopt change (persist writing configs jobs)).0
unfolding persist
persist-IsValid (unwritten message) configs jobs change v f s = v
persist-IsValid (unsynced message) configs jobs change v f s = (f, v.1)
persist-IsValid persisted configs jobs change v f s = (f, s)

pub unless_failed-IsValid :
    (jobs : Jobs) (tried : Result (Jobs × Result (Unit {0})))
    → IsValid jobs
    → ((done : Jobs × Result (Unit {0})) → tried ≡ ok done → IsValid done.0)
    → IsValid (unless_failed jobs tried).0
unless_failed-IsValid jobs (ok done) v f = f done refl
unless_failed-IsValid jobs (err message) v f = v

In-values :
    (c : Config) (configs : Configs) → In c (values configs) → (id : Text) × In (id, c) configs
In-values c [] i = absurd i
In-values c ((id, d) ∷ configs) (inl e) = (id, inl (ap (λ (x : Config). (id, x)) e))
In-values c ((id, d) ∷ configs) (inr i) = let (id', j) = In-values c configs i in (id', inr j)

pub values-configured :
    (configs : Configs)
    → AreFormed configs
    → All (λ (c : Config). get c.id configs ≡ some c) (values configs)
values-configured configs f =
    All-intro (λ (c : Config). get c.id configs ≡ some c) (values configs)
      λ c i.
        let (id, j) = In-values c configs i in
        let (_, e) = All-In IsFormed (id, c) configs f.formed j in
        ap (λ (k : Text). get k configs) (sym e) ∙ get-of-In id c configs f.sorted j
