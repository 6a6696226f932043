-- ===== src/Central/Polling.antt =====
-- Which secrets a poll accepts, and which results it acknowledges.
use happy_active_everywhere.Base.{
  ℕ, Bool, true, false, ◌&&◌, ◌||◌, List, [], ◌∷◌, ◌++◌, ◌==◌, ==_iff, length, any, select,
  if◌then◌else◌, Bool-cases, inl, inr, ◌≡◌, refl, sym, ap, subst, ◌∙◌, arith, &&-split,
}
use Prim.Native.Nat.{bit_or, bit_xor}
use happy_active_everywhere.Base.Bits.{bit_or_zero, bit_xor_zero}
use happy_active_everywhere.Base.In.{All}
use happy_active_everywhere.Base.Order.{◌≟◌, list_ord}
use happy_active_everywhere.Base.Text.{Text}
use happy_active_everywhere.Central.{
  ResultState, reported_completed, reported_failed, reported_uncertain, CommandResult, Status,
  queued, delivered, completed, failed, uncertain, cancelled, Command,
}
use happy_active_everywhere.Central.Rows.{
  difference, equal_secret, is_terminal, is_delivered, status_of, update, is_in_flight, is_finished,
  finish, record_result, record_results,
}

difference_zero :
    (a : ℕ) (left right : Text)
    → length left ≡ length right
    → difference a left right ≡ 0
    → (a ≡ 0) × (left ≡ right)
unfolding difference
difference_zero a [] [] l h = (h, refl)
difference_zero a [] (y ∷ right) l h = absurd (omega (arith, l))
difference_zero a (x ∷ left) [] l h = absurd (omega (arith, l))
difference_zero a (x ∷ left) (y ∷ right) l h =
    let (zeros, rest) = difference_zero (bit_or a (bit_xor x y)) left right (omega (arith, l)) h in
    let (before, here) = bit_or_zero a (bit_xor x y) zeros in
    (before, λ i. bit_xor_zero x y here i ∷ rest i)

pub equal_secret-eq : (a b : Text) → equal_secret a b ≡ true → a ≡ b
unfolding equal_secret
equal_secret-eq a b h =
    let (l, s) = &&-split (length a == length b) (difference 0 a b == 0) h in
    (difference_zero 0 a b ((==_iff (length a) (length b)).0 l)
      ((==_iff (difference 0 a b) 0).0 s)).1

not_both : (s : Status) → is_delivered s ≡ true → is_terminal s ≡ false
not_both queued h = cc
not_both delivered h = refl
not_both completed h = cc
not_both failed h = cc
not_both uncertain h = cc
not_both cancelled h = cc

pub outcome_over : (r : ResultState) → is_delivered (status_of r) ≡ false
outcome_over reported_completed = refl
outcome_over reported_failed = refl
outcome_over reported_uncertain = refl

outcome_terminal : (r : ResultState) → is_terminal (status_of r) ≡ true
outcome_terminal reported_completed = refl
outcome_terminal reported_failed = refl
outcome_terminal reported_uncertain = refl

-- An update does not touch what is finished.
any_finished :
    (device id : Text) (result : CommandResult) (now : ℕ) (cs : List Command)
    → any (is_finished device id) cs ≡ true
    → any (is_finished device id) (update (is_in_flight device result.id) (finish now result) cs)
      ≡ true
unfolding update
any_finished device id result now [] h = cc
any_finished device id result now (c ∷ cs) h = elim (Bool-cases (is_in_flight device result.id c)) [
  | inl t ↦
      let over =
        not_both c.status
          (&&-split ((c.id ≟ result.id) && (c.device ≟ device)) (is_delivered c.status) t).1 in
      let rest : any (is_finished device id) cs ≡ true = ground arith in
      let later = any_finished device id result now cs rest in
      rw (update, t, later) (either (is_finished device id (finish now result c)))
  | inr t ↦ elim (Bool-cases (is_finished device id c)) [
    | inl u ↦ rw (update, t) (ground arith)
    | inr u ↦
        let rest : any (is_finished device id) cs ≡ true = ground arith in
        let later = any_finished device id result now cs rest in
        rw (update, t, later) (either (is_finished device id c))
  ]
]
  where
    either : (b : Bool) → (b || true) ≡ true
    either true = refl
    either false = refl

-- A command that was in flight is finished.
in_flight-finished :
    (device : Text) (result : CommandResult) (now : ℕ) (cs : List Command)
    → (length (select (is_in_flight device result.id) cs) == 1) ≡ true
    → any
        (is_finished device result.id)
        (update (is_in_flight device result.id) (finish now result) cs)
      ≡ true
unfolding update
in_flight-finished device result now [] h = cc
in_flight-finished device result now (c ∷ cs) h =
    elim (Bool-cases (is_in_flight device result.id c)) [
      | inl t ↦
          let terminal = outcome_terminal result.status in
          let (same, _) =
            &&-split ((c.id ≟ result.id) && (c.device ≟ device)) (is_delivered c.status) t in
          rw (update, t, same, terminal) refl
      | inr t ↦
          let later = in_flight-finished device result now cs (rw t at h) in
          rw (update, t, later) (either (is_finished device result.id c))
    ]
  where
    either : (b : Bool) → (b || true) ≡ true
    either true = refl
    either false = refl

abbrev pub AreFinished : Text → List Text → List Command → Type 0
AreFinished device ids cs = All (λ (id : Text). any (is_finished device id) cs ≡ true) ids

AreFinished-append :
    (device : Text) (xs ys : List Text) (cs : List Command)
    → AreFinished device xs cs
    → AreFinished device ys cs
    → AreFinished device (xs ++ ys) cs
AreFinished-append device [] ys cs a b = b
AreFinished-append device (x ∷ xs) ys cs (p, a) b = (p, AreFinished-append device xs ys cs a b)

-- What is finished remains so while results are recorded.
any_finished_all :
    (now : ℕ) (device id : Text) (results : List CommandResult) (cs : List Command)
    → any (is_finished device id) cs ≡ true
    → any (is_finished device id) (record_results now device results cs).1 ≡ true
unfolding record_results record_result
any_finished_all now device id [] cs h = h
any_finished_all now device id (result ∷ results) cs h =
    any_finished_all now device id results (record_result now device result cs).1
      (any_finished device id result now cs h)

AreFinished-record_results :
    (now : ℕ) (device : Text) (ids : List Text) (results : List CommandResult) (cs : List Command)
    → AreFinished device ids cs
    → AreFinished device ids (record_results now device results cs).1
AreFinished-record_results now device [] results cs a = tt
AreFinished-record_results now device (id ∷ ids) results cs (p, a) = (
  any_finished_all now device id results cs p,
  AreFinished-record_results now device ids results cs a,
)

record_result-AreFinished :
    (now : ℕ) (device : Text) (result : CommandResult) (cs : List Command)
    → AreFinished device
        (record_result now device result cs).0
        (record_result now device result cs).1
unfolding record_result
record_result-AreFinished now device result cs =
    let cs' = update (is_in_flight device result.id) (finish now result) cs in
    elim (Bool-cases (length (select (is_in_flight device result.id) cs) == 1)) [
      | inl t ↦ rw t (in_flight-finished device result now cs t, tt)
      | inr t ↦ elim (Bool-cases (any (is_finished device result.id) cs')) [
        | inl u ↦
            subst (λ (b : Bool). AreFinished device (if b then result.id ∷ [] else []) cs')
              (sym (ap (λ (b : Bool). b || any (is_finished device result.id) cs') t ∙ u)) (u, tt)
        | inr u ↦ rw (t, u) tt
      ]
    ]

-- A result is acknowledged only if the table has a result for this command of this device when all are
-- recorded: what the agent may forget is known here.
pub record_results-AreFinished :
    (now : ℕ) (device : Text) (results : List CommandResult) (cs : List Command)
    → AreFinished device
        (record_results now device results cs).0
        (record_results now device results cs).1
unfolding record_results
record_results-AreFinished now device [] cs = tt
record_results-AreFinished now device (result ∷ results) cs =
    let (first, cs1) = record_result now device result cs in
    let (others, cs2) = record_results now device results cs1 in
    AreFinished-append device first others cs2
      (AreFinished-record_results now device first results cs1
        (record_result-AreFinished now device result cs))
      (record_results-AreFinished now device results cs1)
