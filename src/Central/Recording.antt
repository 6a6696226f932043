-- ===== src/Central/Recording.antt =====
-- What the results of a poll make of each row of the table.
use happy_active_everywhere.Base.{
  ℕ, false, List, [], ◌∷◌, map, if◌then◌else◌, Bool-cases, inl, inr, ◌≡◌, refl, ap, ◌∙◌, arith,
}
use happy_active_everywhere.Base.Order.{list_ord}
use happy_active_everywhere.Base.Text.{Text}
use happy_active_everywhere.Central.{CommandResult, Command}
use happy_active_everywhere.Central.Rows.{
  is_delivered, update, is_in_flight, finish, record_result, record_results,
}
use happy_active_everywhere.Central.Delivering.{Distinct, update-Distinct}
use happy_active_everywhere.Central.Polling.{outcome_over}

-- A row of the table after the results of a poll: a command in flight is finished with the first result
-- that is for it, and any other is as it was.
unfoldable pub settled : ℕ → Text → List CommandResult → Command → Command
settled now device [] c = c
settled now device (r ∷ results) c =
    let rest = settled now device results c in
    if is_in_flight device r.id c then finish now r c else rest

settled_ended :
    (now : ℕ) (device : Text) (results : List CommandResult) (c : Command)
    → is_delivered c.status ≡ false
    → settled now device results c ≡ c
unfolding settled
settled_ended now device [] c h = refl
settled_ended now device (r ∷ results) c h =
    let other : is_in_flight device r.id c ≡ false = ground arith in
    rw (settled, other) (settled_ended now device results c h)

settled-update :
    (now : ℕ) (device : Text) (r : CommandResult) (results : List CommandResult) (cs : List Command)
    → map (settled now device results) (update (is_in_flight device r.id) (finish now r) cs)
      ≡ map (settled now device (r ∷ results)) cs
unfolding settled update
settled-update now device r results [] = refl
settled-update now device r results (c ∷ cs) =
    let rest = settled-update now device r results cs in
    elim (Bool-cases (is_in_flight device r.id c)) [
      | inl t ↦
          rw
            (
              update,
              settled,
              t,
              settled_ended now device results (finish now r c) (outcome_over r.status),
            )
            (ap (λ (x : List Command). finish now r c ∷ x) rest)
      | inr t ↦
          rw (update, settled, t) (ap (λ (x : List Command). settled now device results c ∷ x) rest)
    ]

-- What is recorded, row by row.
pub record_results-settled :
    (now : ℕ) (device : Text) (results : List CommandResult) (cs : List Command)
    → (record_results now device results cs).1 ≡ map (settled now device results) cs
unfolding record_results record_result settled
record_results-settled now device [] cs = map_same cs
  where
    map_same : (ds : List Command) → ds ≡ map (λ (c : Command). c) ds
    map_same [] = refl
    map_same (d ∷ ds) = ap (λ (x : List Command). d ∷ x) (map_same ds)
record_results-settled now device (r ∷ results) cs =
    record_results-settled now device results (update (is_in_flight device r.id) (finish now r) cs)
    ∙ settled-update now device r results cs

pub record_results-Distinct :
    (now : ℕ) (device : Text) (results : List CommandResult) (cs : List Command)
    → Distinct cs
    → Distinct (record_results now device results cs).1
unfolding record_results record_result
record_results-Distinct now device [] cs d = d
record_results-Distinct now device (r ∷ results) cs d =
    record_results-Distinct now device results (update (is_in_flight device r.id) (finish now r) cs)
      (update-Distinct (is_in_flight device r.id) (finish now r) cs (λ c. refl) d)
