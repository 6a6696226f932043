-- ===== src/Central/Enrolling.antt =====
-- Who enrolled with an invitation remains the only one.
use happy_active_everywhere.Base.{
  ℕ, String, true, false, not, ◌&&◌, Option, none, some, List, ltb, leb, length, if◌then◌else◌, ok,
  context, >>=-eq-ok, >>-eq-ok, ensure-eq-ok, ok-injective, err≢ok, Bool-cases, Option-cases, inl,
  inr, ◌≡◌, refl, sym, ap, subst, ◌∙◌, true≢false, none≢some, &&-split, not-true,
}
use happy_active_everywhere.Base.Order.{◌≟◌, ≟-eq, ≟-refl, list_ord}
use happy_active_everywhere.Base.Text.{Text}
use happy_active_everywhere.Base.BTreeMap.{BTreeMap, get, insert, contains_key, get-insert}
use happy_active_everywhere.Identity.{valid_peer}
use happy_active_everywhere.Central.{Value, CommandResult, Reply, Invite, Device, Tables, Outside}
use happy_active_everywhere.Central.Store.{has_credential, register, hand_out, seen_at, poll}
use happy_active_everywhere.Central.Rows.{
  is_approved, record_results, first_waiting, is_idle, equal_secret,
}
use happy_active_everywhere.Central.Calls.{}

-- The invitation was used by the device.
abbrev pub IsUsedBy : Text → Option Invite → Type 0
IsUsedBy device none = ⊥
IsUsedBy device (some row) = row.device ≡ some device

pub insert-IsUsedBy :
    (hash k device : Text) (row : Invite) (invites : BTreeMap Text Invite)
    → (IsUsedBy device (get k invites) → ⊥)
    → IsUsedBy device (get hash invites)
    → IsUsedBy device (get hash (insert k row invites))
insert-IsUsedBy hash k device row invites n u =
    rw (get-insert k hash row invites) (elim (Bool-cases (hash ≟ k)) [
      | inl t ↦ absurd (n (subst (λ (x : Text). IsUsedBy device (get x invites)) (≟-eq hash k t) u))
      | inr t ↦ rw t u
    ])

pub missing :
    (k : Text) (V : Type 0) (m : BTreeMap Text V) → contains_key k m ≡ false → get k m ≡ none
unfolding contains_key
missing k V m h = elim (Option-cases (get k m)) [
  | inl n ↦ n
  | inr (v, e) ↦ absurd (true≢false (rw (contains_key, e) at h))
]

module _ {Operation : Type 0} (outside : Outside Operation) where
  -- The invitation was used by the device, and the device has the credential.
  abbrev pub IsOwner : Text → Text → Text → Tables → Type 0
  IsOwner hash device secret tables =
      IsUsedBy device (get hash tables.invites)
      × (has_credential outside (get device tables.devices) secret ≡ true)

  pub same_credential :
      (device d secret : Text) (row row' : Device) (devices : BTreeMap Text Device)
      → get d devices ≡ some row
      → row'.credential ≡ row.credential
      → has_credential outside (get device devices) secret ≡ true
      → has_credential outside (get device (insert d row' devices)) secret ≡ true
  same_credential device d secret row row' devices g e h =
      rw (get-insert d device row' devices) (elim (Bool-cases (device ≟ d)) [
        | inr t ↦ rw t h
        | inl t ↦
            let found : get device devices ≡ some row =
              ap (λ (x : Text). get x devices) (≟-eq device d t) ∙ g in
            rw t (ap (λ (x : Text). x ≟ secret) e ∙ rw found at h)
      ])

  pub context-some :
      {A : Type 0} (o : Option A) (message : String) {a : A} → context o message ≡ ok a → o ≡ some a
  context-some none message e = absurd (err≢ok e)
  context-some (some a) message e = ap some (ok-injective e)

  pub poll-IsOwner :
      (now : ℕ) (d credential : Text) (report : Value) (results : List CommandResult)
      (active : Option Text) (hash device secret : Text) (tables : Tables)
      {answer : Reply Operation × Tables}
      → IsOwner hash device secret tables
      → poll outside now d credential report results active tables ≡ ok answer
      → IsOwner hash device secret answer.1
  unfolding poll
  poll-IsOwner now d credential report results active hash device secret tables (u, c) h =
      let (_, h1) = >>-eq-ok (valid_peer d) _ h in
      let (_, h2) = >>-eq-ok (valid_peer credential) _ h1 in
      let (_, h3) = ensure-eq-ok (leb (length results) 16) _ _ h2 in
      let (row, e, h4) = >>=-eq-ok (context (get d tables.devices) "agent is not enrolled") _ h3 in
      let (_, h5) =
        ensure-eq-ok (equal_secret row.credential (outside.secret_hash credential)) _ _ h4 in
      let recorded = record_results now d results tables.commands in
      let next =
        if is_approved row.state && is_idle active then first_waiting d recorded.1 else none in
      let (handed, g, h6) = >>=-eq-ok (hand_out outside now next recorded.1) _ h5 in
      let found = context-some (get d tables.devices) _ e in
      subst (λ (x : Reply Operation × Tables). IsOwner hash device secret x.1) (ok-injective h6)
        (
          u,
          same_credential device d secret row (seen_at outside now report row) tables.devices found
              refl c,
        )

  pub register-IsOwner :
      (now : ℕ) (invitation credential name : Text) (certificate : List ℕ) (d : Text) (row : Invite)
      (used : Option Text) (hash device secret : Text) (tables : Tables) {tables' : Tables}
      → get (outside.secret_hash invitation) tables.invites ≡ some row
      → row.device ≡ used
      → IsOwner hash device secret tables
      → register outside now invitation credential name certificate d row used tables ≡ ok tables'
      → IsOwner hash device secret tables'
  unfolding register
  register-IsOwner now invitation credential name certificate d row (some used) hash device secret
        tables g e o h =
      let (_, h1) = ensure-eq-ok _ "invitation already used" (ok tables) h in
      subst (IsOwner hash device secret) (ok-injective h1) o
  register-IsOwner now invitation credential name certificate d row none hash device secret tables g
        e (u, c) h =
      let (_, h1) = ensure-eq-ok (leb now row.expires) _ _ h in
      let (_, h2) = ensure-eq-ok (ltb (length tables.devices) 128) _ _ h1 in
      let (n, h3) = ensure-eq-ok (not (contains_key d tables.devices)) _ _ h2 in
      let absent = missing d Device tables.devices (not-true _ n) in
      let k = outside.secret_hash invitation in
      subst (IsOwner hash device secret) (ok-injective h3) (
        insert-IsUsedBy hash k device (record row { device = some d }) tables.invites
            (λ x. none≢some (sym e ∙ subst (IsUsedBy device) g x)) u,
        rw (get-insert d device _ tables.devices) (elim (Bool-cases (device ≟ d)) [
          | inr t ↦ rw t c
          | inl t ↦ absurd (
              true≢false (
                sym c
                ∙ ap (λ (x : Option Device). has_credential outside x secret)
                    (ap (λ (x : Text). get x tables.devices) (≟-eq device d t) ∙ absent)))
        ]),
      )

  -- After an enrollment the device of the certificate is the owner.
  pub register_claims :
      (now : ℕ) (invitation credential name : Text) (certificate : List ℕ) (d : Text) (row : Invite)
      (used : Option Text) (tables : Tables) {tables' : Tables}
      → get (outside.secret_hash invitation) tables.invites ≡ some row
      → row.device ≡ used
      → register outside now invitation credential name certificate d row used tables ≡ ok tables'
      → IsOwner (outside.secret_hash invitation) d (outside.secret_hash credential) tables'
  unfolding register
  register_claims now invitation credential name certificate d row (some used) tables g e h =
      let (t, h1) = ensure-eq-ok _ "invitation already used" (ok tables) h in
      let (same, c) = &&-split (used ≟ d) _ t in
      subst (IsOwner (outside.secret_hash invitation) d (outside.secret_hash credential))
        (ok-injective h1) (subst (IsUsedBy d) (sym g) (e ∙ ap some (≟-eq used d same)), c)
  register_claims now invitation credential name certificate d row none tables g e h =
      let (_, h1) = ensure-eq-ok (leb now row.expires) _ _ h in
      let (_, h2) = ensure-eq-ok (ltb (length tables.devices) 128) _ _ h1 in
      let (_, h3) = ensure-eq-ok (not (contains_key d tables.devices)) _ _ h2 in
      let k = outside.secret_hash invitation in
      let secret = outside.secret_hash credential in
      subst (IsOwner k d secret) (ok-injective h3) (
        rw (get-insert k k (record row { device = some d }) tables.invites, ≟-refl k) refl,
        rw (get-insert d d _ tables.devices, ≟-refl d) (≟-refl secret),
      )
