-- ===== src/Central/Diagram.antt =====
-- How the rows of the table `commands` may change: the diagram of their states, and tables that follow it.
use happy_active_everywhere.Base.{
  Bool, true, List, [], ◌∷◌, ◌++◌, Bool-cases, ◌⊎◌, inl, inr, ◌≡◌, refl, sym, ap, ◌∙◌,
}
use happy_active_everywhere.Base.In.{All}
use happy_active_everywhere.Central.{ResultState, Status, queued, delivered, cancelled, Command}
use happy_active_everywhere.Central.Rows.{is_pending, status_of, update}

pub data ◌⟶◌ : Status → Status → Type 0 where
  sends : queued ⟶ delivered
  calls_off : queued ⟶ cancelled
  reports : (outcome : ResultState) → delivered ⟶ status_of outcome

pub data ◌⟶*◌ : Status → Status → Type 0 where
  here : {a : Status} → a ⟶* a
  onward : {a b c : Status} → a ⟶ b → b ⟶* c → a ⟶* c

infix 4 ◌⟶◌
infix 4 ◌⟶*◌
pub ⟶*-trans : {a b c : Status} → a ⟶* b → b ⟶* c → a ⟶* c
⟶*-trans here q = q
⟶*-trans (onward s p) q = onward s (⟶*-trans p q)

-- A row and what has become of it: the same command of the same device, whose state has followed the
-- diagram, and which does not change at all where it is not pending.
abbrev pub Row : Command → Command → Type 0
Row c d =
    (d.id ≡ c.id)
    × (d.device ≡ c.device)
    × (d.body ≡ c.body)
    × (d.created ≡ c.created)
    × (c.status ⟶* d.status)
    × ((is_pending c.status ≡ true) ⊎ (d ≡ c))

-- No row is lost, each becomes what it may become, and rows that are added have been queued.
abbrev pub Evolves : List Command → List Command → Type 0
Evolves [] ds = All (λ (d : Command). queued ⟶* d.status) ds
Evolves (c ∷ cs) [] = ⊥
Evolves (c ∷ cs) (d ∷ ds) = Row c d × Evolves cs ds

pub unchanged : (c : Command) → Row c c
unchanged c = (refl, refl, refl, refl, here, inr refl)

pub Row-trans : (c d e : Command) → Row c d → Row d e → Row c e
Row-trans c d e (i, v, b, t, s, f) (i', v', b', t', s', f') =
    (i' ∙ i, v' ∙ v, b' ∙ b, t' ∙ t, ⟶*-trans s s', latest f f')
  where
    latest :
        (is_pending c.status ≡ true) ⊎ (d ≡ c)
        → (is_pending d.status ≡ true) ⊎ (e ≡ d)
        → (is_pending c.status ≡ true) ⊎ (e ≡ c)
    latest (inl p) q = inl p
    latest (inr p) (inl q) = inl (ap (λ (x : Command). is_pending x.status) (sym p) ∙ q)
    latest (inr p) (inr q) = inr (q ∙ p)

pub all_unchanged : (cs : List Command) → Evolves cs cs
all_unchanged [] = tt
all_unchanged (c ∷ cs) = (unchanged c, all_unchanged cs)

All-Evolves :
    (cs ds : List Command)
    → All (λ (d : Command). queued ⟶* d.status) cs
    → Evolves cs ds
    → All (λ (d : Command). queued ⟶* d.status) ds
All-Evolves [] ds a e = e
All-Evolves (c ∷ cs) [] a e = absurd e
All-Evolves (c ∷ cs) (d ∷ ds) (q, a) ((_, _, _, _, s, _), e) = (⟶*-trans q s, All-Evolves cs ds a e)

pub Evolves-trans : (xs bs cs : List Command) → Evolves xs bs → Evolves bs cs → Evolves xs cs
Evolves-trans [] bs cs e f = All-Evolves bs cs e f
Evolves-trans (a ∷ xs) [] cs e f = absurd e
Evolves-trans (a ∷ xs) (b ∷ bs) [] e f = absurd f
Evolves-trans (a ∷ xs) (b ∷ bs) (c ∷ cs) (r, e) (s, f) =
    (Row-trans a b c r s, Evolves-trans xs bs cs e f)

pub update-Evolves :
    (matches : Command → Bool) (change : Command → Command) (cs : List Command)
    → ((c : Command) → matches c ≡ true → Row c (change c))
    → Evolves cs (update matches change cs)
unfolding update
update-Evolves matches change [] f = tt
update-Evolves matches change (c ∷ cs) f = elim (Bool-cases (matches c)) [
  | inl t ↦ rw (update, t) (f c t, update-Evolves matches change cs f)
  | inr t ↦ rw (update, t) (unchanged c, update-Evolves matches change cs f)
]

pub append-Evolves :
    (cs ds : List Command) → All (λ (d : Command). queued ⟶* d.status) ds → Evolves cs (cs ++ ds)
append-Evolves [] ds a = a
append-Evolves (c ∷ cs) ds a = (unchanged c, append-Evolves cs ds a)
