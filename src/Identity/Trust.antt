-- ===== src/Identity/Trust.antt =====
-- Who passes `check`, and what `revoke` does to it.
use happy_active_everywhere.Base.{
  String, Bool, true, Option, none, some, List, leb, length, if◌then◌else◌, ◌≤◌, leb→le, Result, ok,
  err, ensure, context, ◌>>=◌, >>=-eq-ok, >>-eq-ok, ensure-eq-ok, ok-injective, err≢ok, ◌≡◌, refl,
  ap, ◌∙◌, subst, Bool-cases, inl, inr,
}
use happy_active_everywhere.Base.Order.{◌≟◌, ≟-refl, ≟-eq, list_ord}
use happy_active_everywhere.Base.Text.{Text}
use happy_active_everywhere.Base.BTreeMap.{get, remove, get-remove}
use happy_active_everywhere.Identity.{
  Certificate, Peers, valid_peer, regular_read, first, roots, new, check, revoke,
}

module _ (hash : Certificate → Text) (accepts : Certificate → Bool) where
  -- The device has a file for the peer, whose certificate has the peer's fingerprint.
  abbrev pub IsTrusted : Peers → Text → Type 0
  IsTrusted peers peer =
      (der : Certificate) × (get peer peers ≡ some der)
      × (hash der ≡ peer)
      × (accepts der ≡ true)
      × (length der ≤ 65536)

  regular_read-ok :
      (o : Option Certificate) {der : Certificate}
      → regular_read o ≡ ok der
      → (o ≡ some der) × (length der ≤ 65536)
  unfolding regular_read
  regular_read-ok none h = cc
  regular_read-ok (some bytes) {der} h =
      let (t, e) =
        ensure-eq-ok (leb (length bytes) 65536) "certificate/key too large" (ok bytes) h in
      (
        ap some (ok-injective e),
        subst (λ (x : Certificate). length x ≤ 65536) (ok-injective e)
            (leb→le (length bytes) 65536 t),
      )

  pub roots-IsTrusted :
      (peers : Peers) (peer : Text) {der : Certificate}
      → roots hash accepts peers peer ≡ ok der
      → IsTrusted peers peer
  unfolding roots
  roots-IsTrusted peers peer h =
      let (bytes, e, h1) = >>=-eq-ok (regular_read (get peer peers)) _ h in
      let (t, h2) = ensure-eq-ok (hash bytes ≟ peer) "trust file fingerprint mismatch" _ h1 in
      let (a, h3) = ensure-eq-ok (accepts bytes) "invalid certificate" _ h2 in
      let (g, l) = regular_read-ok (get peer peers) e in (bytes, g, ≟-eq (hash bytes) peer t, a, l)

  -- A peer that passes `check` has presented a certificate with its fingerprint, and the device trusts
  -- a certificate with this fingerprint.
  pub check-IsTrusted :
      (peers : Peers) (peer : Text) (certificates : Option (List Certificate))
      → check hash accepts peers peer certificates ≡ ok tt
      → IsTrusted peers peer
        × ((cert : Certificate) × (first certificates ≡ some cert) × (hash cert ≡ peer))
  unfolding check
  check-IsTrusted peers peer certificates h =
      let (der, e, h1) = >>=-eq-ok (roots hash accepts peers peer) _ h in
      (roots-IsTrusted peers peer e, presented (first certificates) h1)
    where
      presented :
          (o : Option Certificate)
          → (context o "peer certificate does not match approval" >>= (λ (c : Certificate).
              ensure (hash c ≟ peer) "peer certificate does not match approval"))
            ≡ ok tt
          → (cert : Certificate) × (o ≡ some cert) × (hash cert ≡ peer)
      presented none h = cc
      presented (some cert) h = elim (Bool-cases (hash cert ≟ peer)) [
        | inl t ↦ (cert, refl, ≟-eq (hash cert) peer t)
        | inr t ↦ absurd (err≢ok (rw t at h))
      ]

  -- After a peer was revoked neither a new identity nor any check of certificates succeeds for it, and
  -- every other peer has the file that it had.
  pub revoke-check :
      (guard : Result (Unit {0})) (peers : Peers) (peer other : Text)
      (certificates : Option (List Certificate)) {peers' : Peers}
      → revoke hash accepts guard peers peer ≡ ok peers'
      → ((message : String) × (check hash accepts peers' peer certificates ≡ err message))
        × ((message : String) × (new hash accepts peers' peer ≡ err message))
        × (get other peers' ≡ (if other ≟ peer then none else get other peers))
  unfolding revoke check roots regular_read new
  revoke-check guard peers peer other certificates {peers'} h =
      let (_, h1) = >>-eq-ok guard _ h in
      let (v, h2) = >>-eq-ok (valid_peer peer) _ h1 in
      let (_, h3) = ensure-eq-ok _ "no such file" (ok (remove peer peers)) h2 in
      let gone : get peer (remove peer peers) ≡ none =
        get-remove peer peer peers ∙ rw (≟-refl peer) refl in
      subst
        (λ (x : Peers).
          ((message : String) × (check hash accepts x peer certificates ≡ err message))
          × ((message : String) × (new hash accepts x peer ≡ err message))
          × (get other x ≡ (if other ≟ peer then none else get other peers)))
        (ok-injective h3)
        (
          ("no such file", rw gone refl),
          ("no such file", rw (v, gone) refl),
          get-remove peer other peers,
        )
