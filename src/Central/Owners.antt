-- ===== src/Central/Owners.antt =====
-- An invitation serves one device and one credential, whatever else happens.
use happy_active_everywhere.Base.{
  ℕ, ◌+◌, ◌*◌, Bool, true, not, Option, none, some, List, [], ◌∷◌, ◌++◌, any, Result, ok, err,
  context, >>=-eq-ok, >>-eq-ok, ensure-eq-ok, ok-injective, ◌≡◌, refl, sym, subst, ◌∙◌,
  some-injective, none≢some, &&-split, not-true,
}
use happy_active_everywhere.Base.Order.{◌≟◌, ≟-eq, list_ord}
use happy_active_everywhere.Base.Text.{Text}
use happy_active_everywhere.Base.BTreeMap.{get, contains_key}
use happy_active_everywhere.Identity.{valid_peer}
use happy_active_everywhere.Jobs.{SocketAddr}
use happy_active_everywhere.Central.{
  Invitation, Request, enroll_request, poll_request, Reply, Invite, Device, Tables, Outside,
}
use happy_active_everywhere.Central.Store.{
  invite, has_credential, register, enroll, exchange, set_device, queue, queued_row, cancel,
}
use happy_active_everywhere.Central.Rows.{has_id, state_of}
use happy_active_everywhere.Central.Calls.{
  Call, call_invite, call_exchange, call_set_device, call_queue, call_cancel, committed, replaced,
  call, call_all,
}
use happy_active_everywhere.Central.Commands.{enroll-register}
use happy_active_everywhere.Central.Enrolling.{
  IsUsedBy, IsOwner, insert-IsUsedBy, missing, same_credential, context-some, poll-IsOwner,
  register-IsOwner, register_claims,
}

module _ {Operation : Type 0} (outside : Outside Operation) where
  invite-IsOwner :
      (now : ℕ) (random : Result Text) (label : Text) (address : SocketAddr) (certificate : List ℕ)
      (hash device secret : Text) (tables : Tables) {answer : Invitation × Tables}
      → IsOwner outside hash device secret tables
      → invite outside now random label address certificate tables ≡ ok answer
      → IsOwner outside hash device secret answer.1
  unfolding invite
  invite-IsOwner now random label address certificate hash device secret tables (u, c) h =
      let (_, h1) = ensure-eq-ok _ "invitation name required (120 bytes maximum)" _ h in
      let (_, h2) = ensure-eq-ok _ "use an address reachable from the agent" _ h1 in
      let (token, e, h3) = >>=-eq-ok random _ h2 in
      let k = outside.secret_hash token in
      let (n, h4) = ensure-eq-ok (not (contains_key k tables.invites)) _ _ h3 in
      let absent = missing k Invite tables.invites (not-true _ n) in
      subst (λ (x : Invitation × Tables). IsOwner outside hash device secret x.1) (ok-injective h4)
        (
          insert-IsUsedBy hash k device
              (record { label = label; expires = now + 24 * 60 * 60; device = none }) tables.invites
              (λ x. subst (IsUsedBy device) absent x) u,
          c,
        )

  set_device-IsOwner :
      (now : ℕ) (d : Text) (approve : Bool) (hash device secret : Text) (tables : Tables)
      {tables' : Tables}
      → IsOwner outside hash device secret tables
      → set_device outside now d approve tables ≡ ok tables'
      → IsOwner outside hash device secret tables'
  unfolding set_device
  set_device-IsOwner now d approve hash device secret tables (u, c) h =
      let (_, h1) = >>-eq-ok (valid_peer d) _ h in
      let (row, e, h2) = >>=-eq-ok (context (get d tables.devices) "unknown device") _ h1 in
      let found = context-some outside (get d tables.devices) _ e in
      subst (IsOwner outside hash device secret) (ok-injective h2) (
        u,
        same_credential outside device d secret row (record row { state = state_of approve })
            tables.devices found refl c,
      )

  queue-IsOwner :
      (now : ℕ) (requests : List (Text × Operation × Result Text)) (hash device secret : Text)
      (tables : Tables) {answer : List Text × Tables}
      → IsOwner outside hash device secret tables
      → queue outside now requests tables ≡ ok answer
      → IsOwner outside hash device secret answer.1
  unfolding queue
  queue-IsOwner now [] hash device secret tables o h =
      subst (λ (x : List Text × Tables). IsOwner outside hash device secret x.1) (ok-injective h) o
  queue-IsOwner now ((d, operation, random) ∷ requests) hash device secret tables o h =
      let (_, h1) = ensure-eq-ok _ "device is not approved" _ h in
      let (_, h2) = ensure-eq-ok _ "too many pending commands on this device" _ h1 in
      let (id, e, h3) = >>=-eq-ok random _ h2 in
      let (n, h4) = ensure-eq-ok (not (any (has_id id) tables.commands)) _ _ h3 in
      let more : Tables = record tables {
        commands = tables.commands ++ (queued_row outside now d operation id ∷ []);
      } in
      let (rest, g, h5) = >>=-eq-ok (queue outside now requests more) _ h4 in
      subst (λ (x : List Text × Tables). IsOwner outside hash device secret x.1) (ok-injective h5)
        (queue-IsOwner now requests hash device secret more o g)

  cancel-IsOwner :
      (now : ℕ) (id : Text) (hash device secret : Text) (tables : Tables) {tables' : Tables}
      → IsOwner outside hash device secret tables
      → cancel outside now id tables ≡ ok tables'
      → IsOwner outside hash device secret tables'
  unfolding cancel
  cancel-IsOwner now id hash device secret tables o h =
      let (_, h1) = ensure-eq-ok _ "only an undispatched command can be cancelled" _ h in
      subst (IsOwner outside hash device secret) (ok-injective h1) o

  exchange-IsOwner :
      (now : ℕ) (request : Request) (hash device secret : Text) (tables : Tables)
      {answer : Reply Operation × Tables}
      → IsOwner outside hash device secret tables
      → exchange outside now request tables ≡ ok answer
      → IsOwner outside hash device secret answer.1
  unfolding exchange
  exchange-IsOwner now (poll_request d credential report results active) hash device secret tables o
        h =
      poll-IsOwner outside now d credential report results active hash device secret tables o h
  exchange-IsOwner now (enroll_request invitation credential name certificate) hash device secret
        tables o h =
      let (row, g, r) =
        enroll-register outside now invitation credential name certificate tables h in
      register-IsOwner outside now invitation credential name certificate
        (outside.fingerprint certificate) row row.device hash device secret tables g refl o r

  committed-IsOwner :
      {A : Type 0} (hash device secret : Text) (tables : Tables) (tried : Result (A × Tables))
      → IsOwner outside hash device secret tables
      → ((answer : A × Tables) → tried ≡ ok answer → IsOwner outside hash device secret answer.1)
      → IsOwner outside hash device secret (committed tables tried)
  committed-IsOwner hash device secret tables (ok answer) o f = f answer refl
  committed-IsOwner hash device secret tables (err message) o f = o

  replaced-IsOwner :
      (hash device secret : Text) (tables : Tables) (tried : Result Tables)
      → IsOwner outside hash device secret tables
      → ((tables' : Tables) → tried ≡ ok tables' → IsOwner outside hash device secret tables')
      → IsOwner outside hash device secret (replaced tables tried)
  replaced-IsOwner hash device secret tables (ok tables') o f = f tables' refl
  replaced-IsOwner hash device secret tables (err message) o f = o

  call-IsOwner :
      (c : Call Operation) (hash device secret : Text) (tables : Tables)
      → IsOwner outside hash device secret tables
      → IsOwner outside hash device secret (call outside c tables)
  unfolding call
  call-IsOwner (call_invite now random label address certificate) hash device secret tables o =
      committed-IsOwner hash device secret tables
        (invite outside now random label address certificate tables) o
        (λ answer h.
          invite-IsOwner now random label address certificate hash device secret tables o h)
  call-IsOwner (call_exchange now request) hash device secret tables o =
      committed-IsOwner hash device secret tables (exchange outside now request tables) o
        (λ answer h. exchange-IsOwner now request hash device secret tables o h)
  call-IsOwner (call_set_device now d approve) hash device secret tables o =
      replaced-IsOwner hash device secret tables (set_device outside now d approve tables) o
        (λ tables' h. set_device-IsOwner now d approve hash device secret tables o h)
  call-IsOwner (call_queue now requests) hash device secret tables o =
      committed-IsOwner hash device secret tables (queue outside now requests tables) o
        (λ answer h. queue-IsOwner now requests hash device secret tables o h)
  call-IsOwner (call_cancel now id) hash device secret tables o =
      replaced-IsOwner hash device secret tables (cancel outside now id tables) o
        (λ tables' h. cancel-IsOwner now id hash device secret tables o h)

  call_all-IsOwner :
      (calls : List (Call Operation)) (hash device secret : Text) (tables : Tables)
      → IsOwner outside hash device secret tables
      → IsOwner outside hash device secret (call_all outside calls tables)
  unfolding call_all
  call_all-IsOwner [] hash device secret tables o = o
  call_all-IsOwner (c ∷ calls) hash device secret tables o =
      call_all-IsOwner calls hash device secret (call outside c tables)
        (call-IsOwner c hash device secret tables o)

  one_credential :
      (o : Option Device) (a b : Text)
      → has_credential outside o a ≡ true
      → has_credential outside o b ≡ true
      → a ≡ b
  one_credential none a b g h = cc
  one_credential (some row) a b g h = sym (≟-eq row.credential a g) ∙ ≟-eq row.credential b h

  again :
      (now : ℕ) (invitation credential name : Text) (certificate : List ℕ) (device secret d : Text)
      (row : Invite) (used : Option Text) (tables : Tables) {tables' : Tables}
      → used ≡ some device
      → has_credential outside (get device tables.devices) secret ≡ true
      → register outside now invitation credential name certificate d row used tables ≡ ok tables'
      → (d ≡ device) × (outside.secret_hash credential ≡ secret) × (tables' ≡ tables)
  unfolding register
  again now invitation credential name certificate device secret d row none tables e c h =
      absurd (none≢some e)
  again now invitation credential name certificate device secret d row (some used) tables e c h =
      let (t, h1) = ensure-eq-ok _ "invitation already used" (ok tables) h in
      let (same, c') = &&-split (used ≟ d) _ t in
      let who : d ≡ device = sym (≟-eq used d same) ∙ some-injective e in
      (
        who,
        one_credential (get device tables.devices) (outside.secret_hash credential) secret
            (subst
              (λ (x : Text).
                has_credential outside (get x tables.devices) (outside.secret_hash credential)
                ≡ true)
              who c')
            c,
        sym (ok-injective h1),
      )

  -- Where two enrollments with one invitation succeed, with any operations between them: the second is of
  -- the same device with the same credential, up to the hash of the credential, and changes nothing.
  pub enroll-once :
      (now : ℕ) (invitation credential name : Text) (certificate : List ℕ) (tables : Tables)
      {answer : Reply Operation × Tables} (calls : List (Call Operation)) (now' : ℕ)
      (credential' name' : Text) (certificate' : List ℕ) {answer' : Reply Operation × Tables}
      → enroll outside now invitation credential name certificate tables ≡ ok answer
      → enroll outside now' invitation credential' name' certificate'
          (call_all outside calls answer.1)
        ≡ ok answer'
      → (outside.fingerprint certificate' ≡ outside.fingerprint certificate)
        × (outside.secret_hash credential' ≡ outside.secret_hash credential)
        × (answer'.1 ≡ call_all outside calls answer.1)
  enroll-once now invitation credential name certificate tables {answer} calls now' credential'
        name' certificate' {answer'} h h' =
      let hash = outside.secret_hash invitation in
      let device = outside.fingerprint certificate in
      let secret = outside.secret_hash credential in
      let (row, g, r) =
        enroll-register outside now invitation credential name certificate tables h in
      let owner =
        register_claims outside now invitation credential name certificate device row row.device
          tables g refl r in
      let (u, c) = call_all-IsOwner calls hash device secret answer.1 owner in
      let (row', g', r') =
        enroll-register outside now' invitation credential' name' certificate'
          (call_all outside calls answer.1) h' in
      again now' invitation credential' name' certificate' device secret
        (outside.fingerprint certificate') row' row'.device (call_all outside calls answer.1)
        (subst (IsUsedBy device) g' u) c r'
