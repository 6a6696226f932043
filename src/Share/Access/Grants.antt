-- ===== src/Share/Access/Grants.antt =====
-- What `grant` changes, and how many peers it can grant.
use happy_active_everywhere.Base.{
  suc, String, Bool, false, not, some, [], ◌∷◌, length, if◌then◌else◌, Result, ok, err, >>=-eq-ok,
  >>-eq-ok, ensure-eq-ok, ok-injective, err≢ok, ◌≡◌, refl, sym, ap, subst, ◌∙◌, Bool-cases,
  Result-cases, inl, inr,
}
use happy_active_everywhere.Base.Order.{◌≟◌, ≟-refl, list_ord}
use happy_active_everywhere.Base.Text.{Text}
use happy_active_everywhere.Base.BTreeMap.{get, insert, remove, contains_key, get-insert}
use happy_active_everywhere.Base.Keys.{contains_key-insert, contains_key-remove, length-insert}
use happy_active_everywhere.Identity.{Certificate, Peers, valid_peer, new}
use happy_active_everywhere.Share.Access.{
  Config, Shares, valid_id, valid_peers, check_config, parsed, read_config, with_peer, grant,
}

module _ (hash : Certificate → Text) (accepts : Certificate → Bool) where
  grant-steps :
      (guard lock : Result (Unit {0})) (recovering : Bool) (trusted : Peers) (shares : Shares)
      (id peer : Text) (removing : Bool) {shares' : Shares}
      → grant hash accepts guard lock recovering trusted shares id peer removing ≡ ok shares'
      → (config : Config) × (read_config shares id ≡ ok config)
        × (insert id (ok (with_peer removing peer config)) shares ≡ shares')
  unfolding grant
  grant-steps guard lock recovering trusted shares id peer removing h =
      let (_, h1) = >>-eq-ok guard _ h in
      let (_, h2) = >>-eq-ok (valid_peer peer) _ h1 in
      let (_, h3) = >>-eq-ok (if removing then ok tt else new hash accepts trusted peer) _ h2 in
      let (_, h4) = >>-eq-ok (valid_id id) _ h3 in
      let (_, h5) = >>-eq-ok lock _ h4 in
      let (_, h6) = ensure-eq-ok (not recovering) _ _ h5 in
      let (config, e, h7) = >>=-eq-ok (read_config shares id) _ h6 in (config, e, ok-injective h7)

  -- After a grant, or its removal, the folder's file is as it was but for its peers; a peer is approved
  -- exactly if it is the one that was granted, or it is another that was approved; and every other
  -- folder has the file that it had.
  pub grant-permit :
      (guard lock : Result (Unit {0})) (recovering : Bool) (trusted : Peers) (shares : Shares)
      (id peer : Text) (removing : Bool) (p other : Text) {shares' : Shares}
      → grant hash accepts guard lock recovering trusted shares id peer removing ≡ ok shares'
      → (before after : Config) × (read_config shares id ≡ ok before)
        × (get id shares' ≡ some (ok after))
        × (after ≡ record before { peers = after.peers })
        × (contains_key p after.peers
            ≡ (if p ≟ peer then not removing else contains_key p before.peers))
        × (get other shares' ≡ (if other ≟ id then some (ok after) else get other shares))
  grant-permit guard lock recovering trusted shares id peer removing p other {shares'} h =
      let (config, e, q) = grant-steps guard lock recovering trusted shares id peer removing h in
      let after = with_peer removing peer config in
      subst
        (λ (x : Shares).
          (before after : Config) × (read_config shares id ≡ ok before)
          × (get id x ≡ some (ok after))
          × (after ≡ record before { peers = after.peers })
          × (contains_key p after.peers
              ≡ (if p ≟ peer then not removing else contains_key p before.peers))
          × (get other x ≡ (if other ≟ id then some (ok after) else get other shares)))
        q
        (
          config,
          after,
          e,
          get-insert id id (ok after) shares ∙ rw (≟-refl id) refl,
          refl,
          approved config,
          get-insert id other (ok after) shares,
        )
    where
      approved :
          (c : Config)
          → contains_key p (if removing then remove peer c.peers else insert peer tt c.peers)
            ≡ (if p ≟ peer then not removing else contains_key p c.peers)
      approved c = elim (Bool-cases removing) [
        | inl t ↦ rw t (contains_key-remove p peer c.peers)
        | inr t ↦ rw t (contains_key-insert p peer tt c.peers)
      ]

check_config-too_many :
    (c d : Config)
    → check_config c ≡ ok tt
    → d ≡ record c { peers = d.peers }
    → length d.peers ≡ 129
    → check_config d ≡ err "too many approved peers"
unfolding check_config
check_config-too_many c d h e l =
    let (a, h1) = >>-eq-ok (valid_id c.id) _ h in
    let (b, h2) = >>-eq-ok (valid_peers (c.identity ∷ c.epoch ∷ c.marker ∷ [])) _ h1 in
    let (t, _) = ensure-eq-ok c.is_absolute _ _ h2 in rw (e, a, b, t, l) refl

module _ (hash : Certificate → Text) (accepts : Certificate → Bool) where
  -- Where a folder has 128 approved peers and grant adds another, its file can not be read any more, and
  -- no later grant succeeds, also none that removes a peer.
  pub grant-too_many :
      (guard lock : Result (Unit {0})) (recovering : Bool) (trusted : Peers) (shares : Shares)
      (id peer : Text) {config : Config} {shares' : Shares} (guard' lock' : Result (Unit {0}))
      (recovering' : Bool) (trusted' : Peers) (peer' : Text) (removing : Bool)
      → read_config shares id ≡ ok config
      → length config.peers ≡ 128
      → contains_key peer config.peers ≡ false
      → grant hash accepts guard lock recovering trusted shares id peer false ≡ ok shares'
      → (read_config shares' id ≡ err "too many approved peers")
        × ((message : String) × (grant hash accepts guard' lock' recovering' trusted' shares' id
                peer' removing
              ≡ err message))
  unfolding read_config
  grant-too_many guard lock recovering trusted shares id peer {config} {shares'} guard' lock'
        recovering' trusted' peer' removing r l n h =
      let (before, e, q) =
        grant-steps hash accepts guard lock recovering trusted shares id peer false h in
      let same : before ≡ config = ok-injective (sym e ∙ r) in
      let after = with_peer false peer before in
      let (c, p, h1) = >>=-eq-ok (parsed (get id shares)) _ e in
      let (checked, h2) = >>-eq-ok (check_config c) (ok c) h1 in
      let valid = subst (λ (x : Config). check_config x ≡ ok tt) (ok-injective h2) checked in
      let size : length after.peers ≡ 129 =
        length-insert peer tt before.peers
          (subst (λ (x : Config). contains_key peer x.peers ≡ false) (sym same) n)
        ∙ ap (λ (x : Config). suc (length x.peers)) same
        ∙ ap suc l in
      let found : get id shares' ≡ some (ok after) =
        subst (λ (x : Shares). get id x ≡ some (ok after)) q
          (get-insert id id (ok after) shares ∙ rw (≟-refl id) refl) in
      let broken : read_config shares' id ≡ err "too many approved peers" =
        rw (found, check_config-too_many before after valid refl size) refl in
      (
        broken,
        elim (Result-cases
            (grant hash accepts guard' lock' recovering' trusted' shares' id peer' removing)) [
              | inr failed ↦ failed
              | inl (s, worked) ↦
                  let (d, e', _) =
                    grant-steps hash accepts guard' lock' recovering' trusted' shares' id peer'
                      removing worked in
                  absurd (err≢ok (sym broken ∙ e'))
            ],
      )
