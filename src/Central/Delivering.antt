-- ===== src/Central/Delivering.antt =====
-- Rows with their own identifiers, and commands of a device that are given out in their order.
use happy_active_everywhere.Base.{
  ℕ, Bool, true, false, ◌&&◌, some, List, [], ◌∷◌, ◌++◌, any, if◌then◌else◌, Bool-cases, inl, inr,
  ◌≡◌, refl, sym, ap, subst, ◌∙◌, arith, true≢false, some-injective, neither, &&-split,
}
use happy_active_everywhere.Base.In.{In, All, All-In}
use happy_active_everywhere.Base.Order.{◌≟◌, ≟-eq, ≟-refl, list_ord}
use happy_active_everywhere.Base.Text.{Text}
use happy_active_everywhere.Central.{queued, Command}
use happy_active_everywhere.Central.Rows.{
  is_queued, is_delivered, is_pending, update, is_waiting, first_waiting, has_id, deliver,
}

apart-sym : (a b : Text) → (a ≟ b) ≡ false → (b ≟ a) ≡ false
apart-sym a b h = elim (Bool-cases (b ≟ a)) [
  | inl t ↦ absurd (true≢false (sym (≟-refl a) ∙ ap (λ (x : Text). a ≟ x) (sym (≟-eq b a t)) ∙ h))
  | inr t ↦ t
]

-- No identifier stands twice.
abbrev pub Distinct : List Command → Type 0
Distinct [] = Unit
Distinct (c ∷ cs) = All (λ (d : Command). (c.id ≟ d.id) ≡ false) cs × Distinct cs

-- Where a command is pending, one that was queued later for the same device has not been delivered.
abbrev pub IsBefore : Command → Command → Type 0
IsBefore c d = (is_pending c.status && (d.device ≟ c.device) && is_delivered d.status) ≡ false

abbrev pub InOrder : List Command → Type 0
InOrder [] = Unit
InOrder (c ∷ cs) = All (IsBefore c) cs × InOrder cs

All-update :
    (P : Command → Type 0) (matches : Command → Bool) (change : Command → Command)
    (cs : List Command)
    → ((c : Command) → matches c ≡ true → P c → P (change c))
    → All P cs
    → All P (update matches change cs)
unfolding update
All-update P matches change [] f a = tt
All-update P matches change (c ∷ cs) f (p, a) = elim (Bool-cases (matches c)) [
  | inl t ↦ rw (update, t) (f c t p, All-update P matches change cs f a)
  | inr t ↦ rw (update, t) (p, All-update P matches change cs f a)
]

pub update-Distinct :
    (matches : Command → Bool) (change : Command → Command) (cs : List Command)
    → ((c : Command) → (change c).id ≡ c.id)
    → Distinct cs
    → Distinct (update matches change cs)
unfolding update
update-Distinct matches change [] f d = tt
update-Distinct matches change (c ∷ cs) f (a, d) =
    let others =
      All-update (λ (e : Command). (c.id ≟ e.id) ≡ false) matches change cs
        (λ e t p. ap (λ (i : Text). c.id ≟ i) (f e) ∙ p) a in
    elim (Bool-cases (matches c)) [
      | inl t ↦
          rw (update, t)
            (
              subst
                  (λ (i : Text).
                    All (λ (e : Command). (i ≟ e.id) ≡ false) (update matches change cs))
                  (sym (f c)) others,
              update-Distinct matches change cs f d,
            )
      | inr t ↦ rw (update, t) (others, update-Distinct matches change cs f d)
    ]

ended_later : (c d e : Command) → is_pending e.status ≡ false → IsBefore c e
ended_later c d e h =
    let (_, n) = neither (is_queued e.status) (is_delivered e.status) h in ground arith

-- An update after which the rows that it changes are not pending.
pub update-InOrder :
    (matches : Command → Bool) (change : Command → Command) (cs : List Command)
    → ((c : Command) → is_pending (change c).status ≡ false)
    → InOrder cs
    → InOrder (update matches change cs)
unfolding update
update-InOrder matches change [] f o = tt
update-InOrder matches change (c ∷ cs) f (a, o) =
    let rest = update-InOrder matches change cs f o in
    elim (Bool-cases (matches c)) [
      | inl t ↦ rw (update, t) (All-all (change c) (update matches change cs) (f c), rest)
      | inr t ↦
          rw (update, t)
            (
              All-update (IsBefore c) matches change cs (λ d u p. ended_later c d (change d) (f d))
                  a,
              rest,
            )
    ]
  where
    All-all : (c : Command) (ds : List Command) → is_pending c.status ≡ false → All (IsBefore c) ds
    All-all c [] h = tt
    All-all c (d ∷ ds) h = (ground arith, All-all c ds h)

-- The table with the first row that waits for the device delivered.
unfoldable pub deliver_first : ℕ → Text → List Command → List Command
deliver_first now device [] = []
deliver_first now device (c ∷ cs) =
    let rest = deliver_first now device cs in
    if is_waiting device c then deliver now c ∷ cs else c ∷ rest

update_none :
    (id : Text) (change : Command → Command) (cs : List Command)
    → All (λ (d : Command). (id ≟ d.id) ≡ false) cs
    → update (has_id id) change cs ≡ cs
unfolding update
update_none id change [] a = refl
update_none id change (d ∷ cs) (h, a) =
    rw (update, apart-sym id d.id h) (ap (λ (x : List Command). d ∷ x) (update_none id change cs a))

pub first_waiting-In :
    (device : Text) (cs : List Command) {c : Command}
    → first_waiting device cs ≡ some c
    → In c cs × (is_waiting device c ≡ true)
unfolding first_waiting
first_waiting-In device [] h = cc
first_waiting-In device (d ∷ cs) {c} h = elim (Bool-cases (is_waiting device d)) [
  | inl t ↦
      let e : d ≡ c = some-injective (rw (first_waiting, t) at h) in
      (inl (sym e), subst (λ (x : Command). is_waiting device x ≡ true) e t)
  | inr t ↦ let (i, w) = first_waiting-In device cs (rw (first_waiting, t) at h) in (inr i, w)
]

pub update-deliver_first :
    (now : ℕ) (device : Text) (cs : List Command) {c : Command}
    → Distinct cs
    → first_waiting device cs ≡ some c
    → update (has_id c.id) (deliver now) cs ≡ deliver_first now device cs
unfolding first_waiting update deliver_first
update-deliver_first now device [] d h = cc
update-deliver_first now device (b ∷ cs) {c} (a, d) h = elim (Bool-cases (is_waiting device b)) [
  | inl t ↦
      subst
        (λ (x : Command).
          update (has_id x.id) (deliver now) (b ∷ cs) ≡ deliver_first now device (b ∷ cs))
        (some-injective (rw (first_waiting, t) at h))
        (rw (update, deliver_first, t, ≟-refl b.id)
          (ap (λ (x : List Command). deliver now b ∷ x) (update_none b.id (deliver now) cs a)))
  | inr t ↦
      let h1 = rw (first_waiting, t) at h in
      let (i, _) = first_waiting-In device cs h1 in
      let apart = All-In (λ (e : Command). (b.id ≟ e.id) ≡ false) c cs a i in
      rw (update, deliver_first, t, apart)
        (ap (λ (x : List Command). b ∷ x) (update-deliver_first now device cs d h1))
]

other_device :
    (device : Text) (b d : Command)
    → is_waiting device b ≡ false
    → is_waiting device d ≡ true
    → (is_pending b.status && (d.device ≟ b.device)) ≡ false
other_device device b d n w = elim (Bool-cases (d.device ≟ b.device)) [
  | inr t ↦ ground arith
  | inl t ↦
      let (e, _) = &&-split (d.device ≟ device) _ w in
      let same : b.device ≡ device = sym (≟-eq d.device b.device t) ∙ ≟-eq d.device device e in
      let equal : (b.device ≟ device) ≡ true = ap (λ (x : Text). x ≟ device) same ∙ ≟-refl device in
      ground arith
]

passed_over :
    (now : ℕ) (device : Text) (b : Command) (cs : List Command)
    → is_waiting device b ≡ false
    → All (IsBefore b) cs
    → All (IsBefore b) (deliver_first now device cs)
unfolding deliver_first
passed_over now device b [] n a = tt
passed_over now device b (d ∷ cs) n (h, a) = elim (Bool-cases (is_waiting device d)) [
  | inl t ↦ rw (deliver_first, t) (let e = other_device device b d n t in ground arith, a)
  | inr t ↦ rw (deliver_first, t) (h, passed_over now device b cs n a)
]

given_out :
    (now : ℕ) (b : Command) (cs : List Command)
    → is_pending b.status ≡ true
    → All (IsBefore b) cs
    → All (IsBefore (deliver now b)) cs
given_out now b [] p a = tt
given_out now b (d ∷ cs) p (h, a) = (ground arith, given_out now b cs p a)

pub deliver_first-InOrder :
    (now : ℕ) (device : Text) (cs : List Command)
    → InOrder cs
    → InOrder (deliver_first now device cs)
unfolding deliver_first
deliver_first-InOrder now device [] o = tt
deliver_first-InOrder now device (b ∷ cs) (a, o) = elim (Bool-cases (is_waiting device b)) [
  | inl t ↦ rw (deliver_first, t) (given_out now b cs (&&-split (b.device ≟ device) _ t).1 a, o)
  | inr t ↦
      rw (deliver_first, t) (passed_over now device b cs t a, deliver_first-InOrder now device cs o)
]

pub append-Distinct :
    (cs : List Command) (row : Command)
    → any (has_id row.id) cs ≡ false
    → Distinct cs
    → Distinct (cs ++ (row ∷ []))
append-Distinct [] row n d = (tt, tt)
append-Distinct (c ∷ cs) row n (a, d) =
    let (h, n1) = neither (c.id ≟ row.id) (any (has_id row.id) cs) n in
    (All-append cs a h, append-Distinct cs row n1 d)
  where
    All-append :
        (ds : List Command)
        → All (λ (e : Command). (c.id ≟ e.id) ≡ false) ds
        → (c.id ≟ row.id) ≡ false
        → All (λ (e : Command). (c.id ≟ e.id) ≡ false) (ds ++ (row ∷ []))
    All-append [] p q = (q, tt)
    All-append (x ∷ ds) (p, ps) q = (p, All-append ds ps q)

pub append-InOrder :
    (cs : List Command) (row : Command)
    → row.status ≡ queued
    → InOrder cs
    → InOrder (cs ++ (row ∷ []))
append-InOrder [] row q o = (tt, tt)
append-InOrder (c ∷ cs) row q (a, o) = (All-append cs a, append-InOrder cs row q o)
  where
    All-append : (ds : List Command) → All (IsBefore c) ds → All (IsBefore c) (ds ++ (row ∷ []))
    All-append [] p =
        (let e : is_delivered row.status ≡ false = ap is_delivered q in ground arith, tt)
    All-append (x ∷ ds) (p, ps) = (p, All-append ds ps)
