-- ===== src/Central/Executions.antt =====
-- What each step of the agent does to the commands that the journal has.
use happy_active_everywhere.Base.{
  Bool, true, false, ◌&&◌, Option, none, some, List, [], ◌∷◌, Result, ok, >>-eq-ok, ensure-eq-ok,
  ok-injective, Result-cases, Bool-cases, inl, inr, ◌≡◌, refl, sym, ap, subst, ◌∙◌, true≢false,
}
use happy_active_everywhere.Base.Order.{◌≟◌, ≟-refl, list_ord}
use happy_active_everywhere.Base.Text.{Text}
use happy_active_everywhere.Base.BTreeMap.{get, insert, contains_key}
use happy_active_everywhere.Base.Keys.{contains_key-insert}
use happy_active_everywhere.Identity.{valid_peer}
use happy_active_everywhere.Central.{
  Value, Envelope, CommandResult, reported_uncertain, State, Outside,
}
use happy_active_everywhere.Central.Rows.{is_approved, is_idle}
use happy_active_everywhere.Central.Agent.{
  Execution, executing, done, Entry, Journal, Outcome, outcome_result, Agent, is_done,
  acknowledge_row, acknowledge, done_row, finish, finish_interrupted, open_journal, start_row,
  start, collect, obey,
}

-- The journal has the command.
abbrev pub IsKnown : Text → Journal → Type 0
IsKnown id journal = contains_key id journal ≡ true

insert-IsKnown :
    (id k : Text) (row : Entry) (journal : Journal)
    → IsKnown id journal
    → IsKnown id (insert k row journal)
insert-IsKnown id k row journal h =
    contains_key-insert id k row journal
    ∙ (elim (Bool-cases (id ≟ k)) [ inl t ↦ rw t refl | inr t ↦ rw t h ])

inserted : (id : Text) (row : Entry) (journal : Journal) → IsKnown id (insert id row journal)
inserted id row journal = contains_key-insert id id row journal ∙ rw (≟-refl id) refl

acknowledge_row-IsKnown :
    (id k : Text) (row : Option Entry) (journal : Journal)
    → IsKnown id journal
    → IsKnown id (acknowledge_row k row journal)
acknowledge_row-IsKnown id k none journal h = h
acknowledge_row-IsKnown id k (some row) journal h = elim (Bool-cases (is_done row.state)) [
  | inl t ↦ rw t (insert-IsKnown id k (record row { ack = true }) journal h)
  | inr t ↦ rw t h
]

pub acknowledge-IsKnown :
    (id : Text) (ids : List Text) (journal : Journal)
    → IsKnown id journal
    → IsKnown id (acknowledge ids journal)
unfolding acknowledge
acknowledge-IsKnown id [] journal h = h
acknowledge-IsKnown id (k ∷ ids) journal h =
    acknowledge-IsKnown id ids (acknowledge_row k (get k journal) journal)
      (acknowledge_row-IsKnown id k (get k journal) journal h)

-- The journal has not the command.
abbrev pub IsNew : Journal → Text → Type 0
IsNew journal id = contains_key id journal ≡ false

module _ {Operation : Type 0} (outside : Outside Operation) (too_long interrupted : Value) where
  finish-IsKnown :
      (id : Text) (result : CommandResult) (journal : Journal)
      → IsKnown id journal
      → IsKnown id (finish outside too_long interrupted result journal)
  unfolding finish
  finish-IsKnown id result journal h =
      put (done_row outside too_long interrupted result (get result.id journal))
    where
      put :
          (o : Option Entry)
          → IsKnown id (elim o [ none ↦ journal | some row ↦ insert result.id row journal ])
      put none = h
      put (some row) = insert-IsKnown id result.id row journal h

  abbrev interrupt : Text → Journal → Journal
  interrupt k journal =
      finish outside too_long interrupted
        (record { id = k; status = reported_uncertain; value = interrupted }) journal

  finish_interrupted-IsKnown :
      (id : Text) (rows : List (Text × Entry)) (journal : Journal)
      → IsKnown id journal
      → IsKnown id (finish_interrupted outside too_long interrupted rows journal)
  unfolding finish_interrupted
  finish_interrupted-IsKnown id [] journal h = h
  finish_interrupted-IsKnown id ((k, row) ∷ rows) journal h =
      by_state row.state
        (finish_interrupted-IsKnown id rows (interrupt k journal) (
          finish-IsKnown id (record { id = k; status = reported_uncertain; value = interrupted })
            journal h))
        (finish_interrupted-IsKnown id rows journal h)
    where
      by_state :
          (e : Execution)
          → IsKnown id (finish_interrupted outside too_long interrupted rows (interrupt k journal))
          → IsKnown id (finish_interrupted outside too_long interrupted rows journal)
          → IsKnown id (elim e [
            | executing ↦ finish_interrupted outside too_long interrupted rows (interrupt k journal)
            | done ↦ finish_interrupted outside too_long interrupted rows journal
          ])
      by_state executing a b = a
      by_state done a b = b

  pub open_journal-IsKnown :
      (id : Text) (journal : Journal)
      → IsKnown id journal
      → IsKnown id (open_journal outside too_long interrupted journal)
  unfolding open_journal
  open_journal-IsKnown id journal h = finish_interrupted-IsKnown id journal journal h

  pub collect-IsKnown :
      (id : Text) (outcome : Option Outcome) (agent : Agent)
      → IsKnown id agent.journal
      → IsKnown id (collect outside too_long interrupted outcome agent).journal
  unfolding collect
  collect-IsKnown id none agent h = h
  collect-IsKnown id (some outcome) agent h = by_worker agent.worker
    where
      by_worker :
          (w : Option Text)
          → IsKnown id
              (elim w as (λ _. Agent) [
                | none ↦ agent
                | some k ↦ record {
                  journal =
                      finish outside too_long interrupted (outcome_result k outcome) agent.journal;
                  worker = none;
                }
              ]).journal
      by_worker none = h
      by_worker (some k) = finish-IsKnown id (outcome_result k outcome) agent.journal h

  start_row-IsKnown :
      (id k body : Text) (row : Option Entry) (journal : Journal) {begins : Bool}
      {journal' : Journal}
      → IsKnown id journal
      → start_row outside too_long interrupted k body row journal ≡ ok (begins, journal')
      → IsKnown id journal'
  start_row-IsKnown id k body none journal h e =
      subst (λ (x : Bool × Journal). IsKnown id x.1) (ok-injective e)
        (insert-IsKnown id k _ journal h)
  start_row-IsKnown id k body (some row) journal h e =
      let (_, e1) = ensure-eq-ok (row.body ≟ body) _ _ e in
      subst (λ (x : Bool × Journal). IsKnown id x.1) (ok-injective e1)
        (insert-IsKnown id k _ journal h)

  start_row-IsNew :
      (k body : Text) (row : Option Entry) (journal : Journal) {journal' : Journal}
      → get k journal ≡ row
      → start_row outside too_long interrupted k body row journal ≡ ok (true, journal')
      → IsNew journal k × IsKnown k journal'
  unfolding contains_key
  start_row-IsNew k body none journal g e = (
    rw (contains_key, g) refl,
    subst (λ (x : Bool × Journal). IsKnown k x.1) (ok-injective e) (inserted k _ journal),
  )
  start_row-IsNew k body (some row) journal g e =
      let (_, e1) = ensure-eq-ok (row.body ≟ body) _ _ e in
      absurd (true≢false (sym (ap (λ (x : Bool × Journal). x.0) (ok-injective e1))))

  start-steps :
      (command : Envelope Operation) (journal : Journal) {answer : Bool × Journal}
      → start outside too_long interrupted command journal ≡ ok answer
      → start_row outside too_long interrupted command.id
          (outside.print command.operation)
          (get command.id journal)
          journal
        ≡ ok answer
  unfolding start
  start-steps command journal h = (>>-eq-ok (valid_peer command.id) _ h).1

  -- Whatever is obeyed, the journal keeps what it has, and an execution that starts is of a command that
  -- it had not, and has then.
  abbrev pub IsObeyed : Agent → Agent × Option Text × Result (Unit {0}) → Type 0
  IsObeyed agent (agent', none, end) = Unit
  IsObeyed agent (agent', some x, end) = IsNew agent.journal x × IsKnown x agent'.journal

  pub obey-IsKnown :
      (id : Text) (state : State) (command : Option (Envelope Operation)) (agent : Agent)
      → IsKnown id agent.journal
      → IsKnown id (obey outside too_long interrupted state command agent).0.journal
  unfolding obey
  obey-IsKnown id state none agent h = h
  obey-IsKnown id state (some command) agent h =
      elim (Bool-cases (is_approved state && is_idle agent.worker)) [
        | inr t ↦ rw t h
        | inl t ↦ elim (Result-cases (start outside too_long interrupted command agent.journal)) [
          | inr (message, e) ↦ rw (t, e) h
          | inl ((true, journal), e) ↦
              rw (t, e)
                (start_row-IsKnown id command.id (outside.print command.operation)
                  (get command.id agent.journal) agent.journal h
                  (start-steps command agent.journal e))
          | inl ((false, journal), e) ↦
              rw (t, e)
                (start_row-IsKnown id command.id (outside.print command.operation)
                  (get command.id agent.journal) agent.journal h
                  (start-steps command agent.journal e))
        ]
      ]

  pub obey-IsObeyed :
      (state : State) (command : Option (Envelope Operation)) (agent : Agent)
      → IsObeyed agent (obey outside too_long interrupted state command agent)
  unfolding obey
  obey-IsObeyed state none agent = tt
  obey-IsObeyed state (some command) agent =
      elim (Bool-cases (is_approved state && is_idle agent.worker)) [
        | inr t ↦ rw t tt
        | inl t ↦ elim (Result-cases (start outside too_long interrupted command agent.journal)) [
          | inr (message, e) ↦ rw (t, e) tt
          | inl ((false, journal), e) ↦ rw (t, e) tt
          | inl ((true, journal), e) ↦
              rw (t, e)
                (start_row-IsNew command.id (outside.print command.operation)
                  (get command.id agent.journal) agent.journal refl
                  (start-steps command agent.journal e))
        ]
      ]
