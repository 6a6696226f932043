-- ===== src/Share/Access.antt =====
-- src/share.rs: the registration of a folder, and who may read and write it. `shares` has for each
-- folder what the file `config.json` in its directory parses to.
pub mod Grants
pub mod Tests
use happy_active_everywhere.Base.{
  ℕ, Bool, true, false, not, ◌&&◌, ◌||◌, Option, none, some, List, [], ◌∷◌, leb, ◌==◌, length, all,
  if◌then◌else◌, Result, ok, err, ensure, ◌>>=◌, ◌>>◌,
}
use happy_active_everywhere.Base.Order.{◌≟◌, list_ord}
use happy_active_everywhere.Base.Text.{Text, is_empty, len}
use happy_active_everywhere.Base.BTreeMap.{BTreeMap, get, insert, remove, contains_key, keys}
use happy_active_everywhere.Versions.{Mode, send_only, receive_only, bidirectional}
use happy_active_everywhere.Identity.{Certificate, Peers, valid_peer, new}

-- A path of the operating system, with whether it is absolute, and a set of peers.
pub record Config : Type 0 where
  pub id : Text
  pub root : Text
  pub is_absolute : Bool
  pub identity : Text
  pub epoch : Text
  pub marker : Text
  pub mode : Mode
  pub peers : BTreeMap Text (Unit {0})

abbrev pub Shares : Type 0
Shares = BTreeMap Text (Result Config)

-- `b.is_ascii_alphanumeric() || b == b'-' || b == b'_'`.
abbrev pub is_id_byte : ℕ → Bool
is_id_byte b =
    (leb b'0' b && leb b b'9')
    || (leb b'a' b && leb b b'z')
    || (leb b'A' b && leb b b'Z')
    || (b == b'-')
    || (b == b'_')

unfoldable pub valid_id : Text → Result (Unit {0})
valid_id id =
    ensure (not (is_empty id) && leb (len id) 64 && all is_id_byte id) "invalid share identifier"

unfoldable pub valid_peers : List Text → Result (Unit {0})
unfolding valid_peer
valid_peers [] = ok tt
valid_peers (peer ∷ peers) = do valid_peer peer; valid_peers peers

-- The checks of `read_config`, on what was parsed.
unfoldable pub check_config : Config → Result (Unit {0})
unfolding valid_id valid_peers
check_config config = do
  valid_id config.id
  valid_peers (config.identity ∷ config.epoch ∷ config.marker ∷ [])
  ensure config.is_absolute "share root must be absolute"
  ensure (leb (length config.peers) 128) "too many approved peers"
  valid_peers (keys config.peers)

-- What stands in the file, if it is there.
abbrev pub parsed : Option (Result Config) → Result Config
parsed none = err "no such file"
parsed (some file) = file

-- `read_config` of the directory of a folder.
unfoldable pub read_config : Shares → Text → Result Config
unfolding check_config
read_config shares id = do config ← parsed (get id shares); check_config config; ok config

abbrev pub is_send_only : Mode → Bool
is_send_only send_only = true
is_send_only _ = false

-- The checks that `check_access` and `authorize` share.
unfoldable pub permit : Config → Text → Bool → Result (Unit {0})
permit config peer writing = do
  ensure (contains_key peer config.peers) "peer is not approved for this share"
  ensure (not writing || not (is_send_only config.mode)) "share is send-only"

unfoldable pub check_access : Shares → Text → Text → Bool → Result (Unit {0})
unfolding valid_id read_config permit
check_access shares id peer writing = do
  valid_id id
  config ← read_config shares id
  permit config peer writing

abbrev pub with_peer : Bool → Text → Config → Config
with_peer removing peer config = record config {
  peers = if removing then remove peer config.peers else insert peer tt config.peers;
}

module _ (hash : Certificate → Text) (accepts : Certificate → Bool) where
  -- `Share::authorize`.
  unfoldable pub authorize : Peers → Shares → Text → Text → Bool → Result (Unit {0})
  unfolding new read_config permit
  authorize trusted shares id peer writing = do
    new hash accepts trusted peer
    current ← read_config shares id
    permit current peer writing

  -- `grant`; `guard` is what the lock of the device's configuration answers, `lock` that of the folder's,
  -- and `recovering` whether a recovery of the folder's state is under way.
  unfoldable pub grant :
      Result (Unit {0})
      → Result (Unit {0})
      → Bool
      → Peers
      → Shares
      → Text
      → Text
      → Bool
      → Result Shares
  unfolding valid_peer new valid_id read_config
  grant guard lock recovering trusted shares id peer removing = do
    guard
    valid_peer peer
    (if removing then ok tt else new hash accepts trusted peer)
    valid_id id
    lock
    ensure (not recovering) "share state recovery must finish before changing folder grants"
    config ← read_config shares id
    ok (insert id (ok (with_peer removing peer config)) shares)
