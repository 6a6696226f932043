-- ===== src/Central/Telling.antt =====
-- Which results of a poll are not acknowledged: those whose command the table does not know as finished.
use happy_active_everywhere.Base.{
  ℕ, false, ◌&&◌, ◌||◌, List, [], ◌∷◌, ◌++◌, ◌==◌, length, any, select, Bool-cases, inl, inr, ◌⊎◌,
  neither, ◌≡◌, refl, arith,
}
use happy_active_everywhere.Base.In.{In, All, In-append-right}
use happy_active_everywhere.Base.Order.{◌≟◌, list_ord}
use happy_active_everywhere.Base.Text.{Text}
use happy_active_everywhere.Central.{CommandResult, Command}
use happy_active_everywhere.Central.Rows.{
  is_delivered, status_of, update, is_in_flight, is_finished, finish, record_result, record_results,
}
use happy_active_everywhere.Central.Polling.{outcome_over}

-- No command in flight has the identifier, and none is finished.
abbrev IsUnknown : Text → Text → List Command → Type 0
IsUnknown device id cs =
    (any (is_in_flight device id) cs ≡ false) × (any (is_finished device id) cs ≡ false)

update-IsUnknown :
    (now : ℕ) (device id : Text) (r : CommandResult) (cs : List Command)
    → IsUnknown device id cs
    → IsUnknown device id (update (is_in_flight device r.id) (finish now r) cs)
unfolding update
update-IsUnknown now device id r [] u = u
update-IsUnknown now device id r (c ∷ cs) (f, t) =
    let (f0, f1) = neither (is_in_flight device id c) _ f in
    let (t0, t1) = neither (is_finished device id c) _ t in
    let (g, w) = update-IsUnknown now device id r cs (f1, t1) in
    elim (Bool-cases (is_in_flight device r.id c)) [
      | inl here ↦
          let other : ((c.id ≟ id) && (c.device ≟ device)) ≡ false = ground arith in
          rw (update, here, other, g, w) (refl, refl)
      | inr gone ↦ rw (update, gone, f0, t0, g, w) (refl, refl)
    ]

record_results-IsUnknown :
    (now : ℕ) (device id : Text) (results : List CommandResult) (cs : List Command)
    → IsUnknown device id cs
    → IsUnknown device id (record_results now device results cs).1
unfolding record_results record_result
record_results-IsUnknown now device id [] cs u = u
record_results-IsUnknown now device id (r ∷ results) cs u =
    record_results-IsUnknown now device id results
      (update (is_in_flight device r.id) (finish now r) cs) (update-IsUnknown now device id r cs u)

-- After a result is recorded its command is not in flight.
update-in_flight :
    (now : ℕ) (device : Text) (r : CommandResult) (cs : List Command)
    → any (is_in_flight device r.id) (update (is_in_flight device r.id) (finish now r) cs) ≡ false
unfolding update
update-in_flight now device r [] = refl
update-in_flight now device r (c ∷ cs) =
    let rest = update-in_flight now device r cs in
    elim (Bool-cases (is_in_flight device r.id c)) [
      | inl t ↦
          let over : is_delivered (status_of r.status) ≡ false = outcome_over r.status in
          let ended : is_in_flight device r.id (finish now r c) ≡ false = ground arith in
          rw (update, t, ended, rest) refl
      | inr t ↦ rw (update, t, t, rest) refl
    ]

-- Each result is acknowledged, or the table has no result for its command.
abbrev pub AreTold : Text → List CommandResult → List Text → List Command → Type 0
AreTold device results ids cs =
    All (λ (r : CommandResult). In r.id ids ⊎ (any (is_finished device r.id) cs ≡ false)) results

AreTold-append :
    (device : Text) (results : List CommandResult) (xs ys : List Text) (cs : List Command)
    → AreTold device results ys cs
    → AreTold device results (xs ++ ys) cs
AreTold-append device [] xs ys cs a = tt
AreTold-append device (r ∷ results) xs ys cs (inl i, a) =
    (inl (In-append-right r.id xs ys i), AreTold-append device results xs ys cs a)
AreTold-append device (r ∷ results) xs ys cs (inr n, a) =
    (inr n, AreTold-append device results xs ys cs a)

pub record_results-AreTold :
    (now : ℕ) (device : Text) (results : List CommandResult) (cs : List Command)
    → AreTold device results
        (record_results now device results cs).0
        (record_results now device results cs).1
unfolding record_results record_result
record_results-AreTold now device [] cs = tt
record_results-AreTold now device (r ∷ results) cs =
    let cs1 = update (is_in_flight device r.id) (finish now r) cs in
    let first = (record_result now device r cs).0 in
    let (others, final) = record_results now device results cs1 in
    let later =
      AreTold-append device results first others final
        (record_results-AreTold now device results cs1) in
    elim (Bool-cases
      ((length (select (is_in_flight device r.id) cs) == 1) || any (is_finished device r.id) cs1)) [
        | inl t ↦ (inl (rw t (inl refl)), later)
        | inr t ↦
            let (_, gone) = neither (length (select (is_in_flight device r.id) cs) == 1) _ t in
            (
              inr
                  (record_results-IsUnknown now device r.id results cs1
                    (update-in_flight now device r cs, gone)).1,
              later,
            )
      ]
