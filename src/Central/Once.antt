-- ===== src/Central/Once.antt =====
-- No command is executed twice, whatever the server answers and whenever the program stops.
use happy_active_everywhere.Base.{
  false, Option, none, some, List, [], ◌∷◌, Result, ok, err, Bool-cases, inl, inr, ◌≡◌, refl, sym,
  ap, subst, ◌∙◌, true≢false, some-injective, none≢some,
}
use happy_active_everywhere.Base.In.{In, All, All-In, All-intro}
use happy_active_everywhere.Base.Order.{◌≟◌, ≟-eq, ≟-refl, list_ord}
use happy_active_everywhere.Base.Text.{Text}
use happy_active_everywhere.Base.BTreeMap.{contains_key}
use happy_active_everywhere.Central.{Value, Reply, Outside}
use happy_active_everywhere.Central.Agent.{
  Journal, Outcome, Agent, acknowledge, collect, obey, round, Event, rounded, restarted, reopened,
  after_round, with_started, executions,
}
use happy_active_everywhere.Central.Executions.{
  IsKnown, IsNew, IsObeyed, acknowledge-IsKnown, open_journal-IsKnown, collect-IsKnown,
  obey-IsKnown, obey-IsObeyed,
}

abbrev pub OnlyOnce : List Text → Type 0
OnlyOnce [] = Unit
OnlyOnce (x ∷ xs) = All (λ (y : Text). (x ≟ y) ≡ false) xs × OnlyOnce xs

module _ {Operation : Type 0} (outside : Outside Operation) (too_long interrupted : Value) where
  round-IsKnown :
      (id : Text) (outcome : Option Outcome) (response : Result (Reply Operation)) (agent : Agent)
      → IsKnown id agent.journal
      → IsKnown id (round outside too_long interrupted outcome response agent).0.journal
  unfolding round
  round-IsKnown id outcome (err message) agent h =
      collect-IsKnown outside too_long interrupted id outcome agent h
  round-IsKnown id outcome (ok reply) agent h =
      let collected = collect outside too_long interrupted outcome agent in
      obey-IsKnown outside too_long interrupted id reply.state reply.command
        (record collected { journal = acknowledge reply.acknowledged collected.journal })
        (acknowledge-IsKnown id reply.acknowledged collected.journal
          (collect-IsKnown outside too_long interrupted id outcome agent h))

  after_round-IsKnown :
      (id : Text) (ended : Agent × Option Text × Result (Unit {0}))
      → IsKnown id ended.0.journal
      → IsKnown id (after_round outside too_long interrupted ended).journal
  after_round-IsKnown id (agent, started, ok u) h = h
  after_round-IsKnown id (agent, started, err message) h =
      open_journal-IsKnown outside too_long interrupted id agent.journal h

  not_known :
      (id x : Text) (journal : Journal) → IsKnown id journal → IsNew journal x → (id ≟ x) ≡ false
  not_known id x journal h n = elim (Bool-cases (id ≟ x)) [
    | inr t ↦ t
    | inl t ↦
        absurd (true≢false (sym h ∙ ap (λ (k : Text). contains_key k journal) (≟-eq id x t) ∙ n))
  ]

  -- What starts in a round was not known when it began, and is known after it.
  AreNew : Text → Option Text → Type 0
  AreNew id none = Unit
  AreNew id (some x) = (id ≟ x) ≡ false

  round-new :
      (id : Text) (outcome : Option Outcome) (response : Result (Reply Operation)) (agent : Agent)
      → IsKnown id agent.journal
      → AreNew id (round outside too_long interrupted outcome response agent).1
  unfolding round AreNew
  round-new id outcome (err message) agent h = tt
  round-new id outcome (ok reply) agent h =
      let collected = collect outside too_long interrupted outcome agent in
      let before : Agent = record collected {
        journal = acknowledge reply.acknowledged collected.journal;
      } in
      apart before (obey outside too_long interrupted reply.state reply.command before)
        (acknowledge-IsKnown id reply.acknowledged collected.journal
          (collect-IsKnown outside too_long interrupted id outcome agent h))
        (obey-IsObeyed outside too_long interrupted reply.state reply.command before)
    where
      apart :
          (before : Agent) (ended : Agent × Option Text × Result (Unit {0}))
          → IsKnown id before.journal
          → IsObeyed outside too_long interrupted before ended
          → AreNew id ended.1
      apart before (after, none, end) k o = tt
      apart before (after, some x, end) k (n, _) = not_known id x before.journal k n

  executions-fresh :
      (id : Text) (events : List (Event outside too_long interrupted)) (agent : Agent)
      → IsKnown id agent.journal
      → All (λ (x : Text). (id ≟ x) ≡ false) (executions outside too_long interrupted events agent)
  unfolding executions AreNew
  executions-fresh id [] agent h = tt
  executions-fresh id (restarted ∷ events) agent h =
      executions-fresh id events (reopened outside too_long interrupted agent)
        (open_journal-IsKnown outside too_long interrupted id agent.journal h)
  executions-fresh id (rounded outcome response ∷ events) agent h =
      let end = round outside too_long interrupted outcome response agent in
      both end.1 _ (round-new id outcome response agent h) (
        executions-fresh id events (after_round outside too_long interrupted end)
          (after_round-IsKnown id end (round-IsKnown id outcome response agent h)))
    where
      both :
          (o : Option Text) (xs : List Text)
          → AreNew id o
          → All (λ (x : Text). (id ≟ x) ≡ false) xs
          → All (λ (x : Text). (id ≟ x) ≡ false) (with_started outside too_long interrupted o xs)
      both none xs n a = a
      both (some x) xs n a = (n, a)

  round-IsObeyed :
      (outcome : Option Outcome) (response : Result (Reply Operation)) (agent : Agent) (x : Text)
      → (round outside too_long interrupted outcome response agent).1 ≡ some x
      → IsKnown x (round outside too_long interrupted outcome response agent).0.journal
  unfolding round
  round-IsObeyed outcome (err message) agent x h = absurd (none≢some h)
  round-IsObeyed outcome (ok reply) agent x h =
      let collected = collect outside too_long interrupted outcome agent in
      let before : Agent = record collected {
        journal = acknowledge reply.acknowledged collected.journal;
      } in
      known before (obey outside too_long interrupted reply.state reply.command before)
        (obey-IsObeyed outside too_long interrupted reply.state reply.command before) h
    where
      known :
          (before : Agent) (ended : Agent × Option Text × Result (Unit {0}))
          → IsObeyed outside too_long interrupted before ended
          → ended.1 ≡ some x
          → IsKnown x ended.0.journal
      known before (after, none, end) o e = absurd (none≢some e)
      known before (after, some y, end) (_, k) e =
          subst (λ (z : Text). IsKnown z after.journal) (some-injective e) k

  once :
      (events : List (Event outside too_long interrupted)) (agent : Agent)
      → OnlyOnce (executions outside too_long interrupted events agent)
  unfolding executions
  once [] agent = tt
  once (restarted ∷ events) agent = once events (reopened outside too_long interrupted agent)
  once (rounded outcome response ∷ events) agent =
      let end = round outside too_long interrupted outcome response agent in
      let later = after_round outside too_long interrupted end in
      both end.1 _
        (λ x h.
          executions-fresh x events later
            (after_round-IsKnown x end (round-IsObeyed outcome response agent x h)))
        (once events later)
    where
      both :
          (o : Option Text) (xs : List Text)
          → ((x : Text) → o ≡ some x → All (λ (y : Text). (x ≟ y) ≡ false) xs)
          → OnlyOnce xs
          → OnlyOnce (with_started outside too_long interrupted o xs)
      both none xs n a = a
      both (some x) xs n a = (n x refl, a)

  -- Whatever the server answers in each round, whatever becomes of the workers, and whenever the program
  -- stops or the loop ends with an error and is started again: no two executions that start are of
  -- commands with one identifier, and none is of a command that the journal had from the begin.
  pub executions-OnlyOnce :
      (events : List (Event outside too_long interrupted)) (agent : Agent)
      → OnlyOnce (executions outside too_long interrupted events agent)
        × All (IsNew agent.journal) (executions outside too_long interrupted events agent)
  executions-OnlyOnce events agent = (
    once events agent,
    All-intro (IsNew agent.journal) (executions outside too_long interrupted events agent) new,
  )
    where
      new :
          (x : Text)
          → In x (executions outside too_long interrupted events agent)
          → IsNew agent.journal x
      new x i = elim (Bool-cases (contains_key x agent.journal)) [
        | inr t ↦ t
        | inl t ↦ absurd (
            true≢false (
              sym (≟-refl x)
              ∙ All-In (λ (y : Text). (x ≟ y) ≡ false) x
                  (executions outside too_long interrupted events agent)
                  (executions-fresh x events agent t) i))
      ]
