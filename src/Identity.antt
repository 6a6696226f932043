-- ===== src/Identity.antt =====
-- src/identity.rs: which peers a device trusts. The directory `peers` has a certificate for each of
-- them, under its fingerprint; `hash` is the fingerprint, and `accepts` what the TLS library says of a
-- certificate as a root.
pub mod Trust
pub mod Tests
use happy_active_everywhere.Base.{
  ℕ, Bool, true, false, not, Option, none, some, List, [], ◌∷◌, leb, length, if◌then◌else◌, Result,
  ok, err, ensure, context, ◌>>=◌, ◌>>◌,
}
use happy_active_everywhere.Base.Order.{◌≟◌, list_ord}
use happy_active_everywhere.Base.Text.{Text, valid_hash}
use happy_active_everywhere.Base.BTreeMap.{BTreeMap, get, insert, remove, contains_key}

abbrev pub Certificate : Type 0
Certificate = List ℕ

abbrev pub Peers : Type 0
Peers = BTreeMap Text Certificate

unfoldable pub valid_peer : Text → Result (Unit {0})
valid_peer peer = ensure (valid_hash peer) "invalid peer fingerprint"

-- A file of the directory, if it is there.
unfoldable pub regular_read : Option Certificate → Result Certificate
regular_read none = err "no such file"
regular_read (some bytes) = do
  ensure (leb (length bytes) 65536) "certificate/key too large"
  ok bytes

-- `certificates.and_then(|c| c.first())`.
abbrev pub first : Option (List Certificate) → Option Certificate
first none = none
first (some []) = none
first (some (c ∷ cs)) = some c

module _ (hash : Certificate → Text) (accepts : Certificate → Bool) where
  -- `Identity::roots`: the one root that the peer may present.
  unfoldable pub roots : Peers → Text → Result Certificate
  unfolding regular_read
  roots peers peer = do
    bytes ← regular_read (get peer peers)
    ensure (hash bytes ≟ peer) "trust file fingerprint mismatch"
    ensure (accepts bytes) "invalid certificate"
    ok bytes

  -- `Identity::new`.
  unfoldable pub new : Peers → Text → Result (Unit {0})
  unfolding valid_peer roots
  new peers peer = do valid_peer peer; root ← roots peers peer; ok tt

  -- `Identity::check`.
  unfoldable pub check : Peers → Text → Option (List Certificate) → Result (Unit {0})
  unfolding roots
  check peers peer certificates = do
    root ← roots peers peer
    presented ← context (first certificates) "peer certificate does not match approval"
    ensure (hash presented ≟ peer) "peer certificate does not match approval"

  -- `trust` and `revoke`; `guard` is what the lock of the device's configuration answers. A file that
  -- is there already is not replaced.
  unfoldable pub trust : Result (Unit {0}) → Peers → Option Certificate → Result (Text × Peers)
  unfolding regular_read
  trust guard peers cert = do
    guard
    der ← regular_read cert
    ensure (accepts der) "invalid certificate"
    ensure (not (contains_key (hash der) peers)) "file exists"
    ok (hash der, insert (hash der) der peers)

  unfoldable pub revoke : Result (Unit {0}) → Peers → Text → Result Peers
  unfolding valid_peer
  revoke guard peers peer = do
    guard
    valid_peer peer
    ensure (contains_key peer peers) "no such file"
    ok (remove peer peers)
