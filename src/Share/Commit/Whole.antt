-- ===== src/Share/Commit/Whole.antt =====
-- `commit_incoming` as a whole.
use happy_active_everywhere.Base.{
  ℕ, suc, String, ◌<◌, ◌≤◌, Bool, true, false, Option, some, List, [], ◌∷◌, length, ◌==◌, Result,
  ok, err, ensure, ◌>>=◌, ◌>>◌, >>=-eq-ok, >>-eq-ok, ensure-eq-ok, ok-injective, err≢ok,
  Result-cases, ◌≡◌, sym, subst, ◌∙◌, arith, ◌⊎◌, inl, inr,
}
use happy_active_everywhere.Base.Order.{list_ord}
use happy_active_everywhere.Base.Text.{Text}
use happy_active_everywhere.Base.BTreeMap.{BTreeMap}
use happy_active_everywhere.Base.Paging.{length-select}
use happy_active_everywhere.Model.{Content, Versions, Codec}
use happy_active_everywhere.Share.{Index, missing_objects}
use happy_active_everywhere.Share.Saving.{IsValid}
use happy_active_everywhere.Share.Scan.{paged, scan_inner}
use happy_active_everywhere.Share.Scan.Folder.{scan_inner-IsValid}
use happy_active_everywhere.Share.Commit.{
  waiting, is_waiting, commit_path, commit_all, scan_before, scan_after, commit_staged,
  commit_incoming, apply_pending,
}
use happy_active_everywhere.Share.Commit.Joining.{commit_path-RoundJoined}
use happy_active_everywhere.Share.Commit.Waiting.{AllObserved, waiting_count}
use happy_active_everywhere.Share.Commit.Applying.{apply_pending-done}

commit_all-IsValid :
    (codec : Codec) (collision_key : Text → Text) (index : Index) (rows : BTreeMap Text Versions)
    {index' : Index}
    → IsValid index
    → commit_all codec collision_key index rows ≡ ok index'
    → IsValid index'
unfolding commit_all
commit_all-IsValid codec collision_key index [] v h = subst IsValid (ok-injective h) v
commit_all-IsValid codec collision_key index ((path, remote) ∷ rows) v h =
    let (next, e, h1) = >>=-eq-ok (commit_path codec collision_key index path remote) _ h in
    commit_all-IsValid codec collision_key next rows
      (commit_path-RoundJoined codec collision_key index path remote v e).0 h1

waiting_count-length : (index : Index) → waiting_count index < suc (length index.entries)
unfolding waiting
waiting_count-length index = below (length-select (is_waiting index.pending) index.entries)
  where
    below : {n m : ℕ} → n ≤ m → n < suc m
    below h = omega arith

cleared-IsValid :
    (index : Index) (incoming : BTreeMap Text Versions)
    → IsValid index
    → IsValid (record index { incoming = incoming })
cleared-IsValid index incoming v = record {
  sorted = v.sorted;
  at_most = v.at_most;
  seqs = v.seqs;
  aliases = v.aliases;
}

module _ {Folder : Type 0} where
  -- What a success leaves.
  abbrev pub HasCommitted : Option (Folder × Index) → Type 0
  HasCommitted out =
      (folder' : Folder) × (index' : Index) × (out ≡ some (folder', index'))
      × IsValid index'
      × AllObserved index'

module _ (codec : Codec) (collision_key : Text → Text) {Folder : Type 0}
    (check_root : Folder → Result (Unit {0}))
    (apply : Folder → Text → Option Content → Content → Result Folder)
    (authorized : Folder → Result (Unit {0})) (replica : Text) (scan_root : ℕ → Result (Unit {0}))
    (recover : Result (Unit {0})) (visited : Result (List (Text × Content))) where
  scan_before-IsValid :
      (recovering : Bool) (index : Index) {after : Index}
      → IsValid index
      → scan_before codec collision_key check_root apply authorized replica scan_root recover
          visited recovering index
        ≡ ok after
      → IsValid after
  unfolding scan_before
  scan_before-IsValid true index v h = subst IsValid (ok-injective h) v
  scan_before-IsValid false index v h =
      let (out, e, h1) =
        >>=-eq-ok (scan_inner codec collision_key replica scan_root recover visited false index) _
          h in
      subst IsValid (ok-injective h1)
        (scan_inner-IsValid codec collision_key replica scan_root recover visited false index v e)

  scan_after-IsValid :
      (recovering : Bool) (index : Index) {after : Index}
      → IsValid index
      → scan_after codec collision_key check_root apply authorized replica scan_root recover visited
          recovering index
        ≡ ok after
      → IsValid after
  unfolding scan_after
  scan_after-IsValid false index v h = subst IsValid (ok-injective h) v
  scan_after-IsValid true index v h =
      let (out, e, h1) =
        >>=-eq-ok (scan_inner codec collision_key replica scan_root recover visited false index) _
          h in
      subst IsValid (ok-injective h1)
        (scan_inner-IsValid codec collision_key replica scan_root recover visited false index v e)

  apply_pending-HasCommitted :
      (folder : Folder) (current : Index) {out : Option (Folder × Index)}
      → IsValid current
      → apply_pending codec collision_key check_root apply authorized
          (suc (length current.entries))
          folder
          current
        ≡ ok out
      → HasCommitted out
  apply_pending-HasCommitted folder current v h =
      elim (apply_pending-done codec collision_key check_root apply authorized
        (suc (length current.entries)) folder current [] v (waiting_count-length current)) [
          | inl (message, f) ↦ absurd (err≢ok (sym f ∙ h))
          | inr (folder', index', f, w, all, _, _) ↦
              (folder', index', ok-injective (sym h ∙ f), w, all)
        ]

  commit_staged-HasCommitted :
      (folder : Folder) (index : Index) (recovering : Bool) {out : Option (Folder × Index)}
      → IsValid index
      → commit_staged codec collision_key check_root apply authorized replica scan_root recover
          visited folder index recovering
        ≡ ok out
      → HasCommitted out
  unfolding commit_staged
  commit_staged-HasCommitted folder index recovering v h =
      let (before, b, h1) =
        >>=-eq-ok
          (scan_before codec collision_key check_root apply authorized replica scan_root recover
            visited recovering index)
          _ h in
      let (joined, j, h2) =
        >>=-eq-ok (commit_all codec collision_key before (paged before.incoming)) _ h1 in
      let (current, c, h3) =
        >>=-eq-ok
          (scan_after codec collision_key check_root apply authorized replica scan_root recover
            visited recovering (record joined { incoming = [] }))
          _ h2 in
      let v1 = scan_before-IsValid recovering index v b in
      let v2 = commit_all-IsValid codec collision_key before (paged before.incoming) v1 j in
      apply_pending-HasCommitted folder current
        (scan_after-IsValid recovering (record joined { incoming = [] })
          (cleared-IsValid joined [] v2) c)
        h3

  -- On a valid index `commit_incoming` ends, with an error of one of its steps or with success; after
  -- success the index is valid, and each row of it has been observed or waits for an approval.
  pub commit_incoming-done :
      (recovery_pending : Result Bool) (folder : Folder) (index : Index)
      → IsValid index
      → ((message : String) × (commit_incoming codec collision_key check_root apply authorized
              replica scan_root recover visited recovery_pending folder index
            ≡ err message))
        ⊎ ((out : Option (Folder × Index)) × (commit_incoming codec collision_key check_root apply
                authorized replica scan_root recover visited recovery_pending folder index
              ≡ ok out)
            × HasCommitted out)
  unfolding commit_incoming
  commit_incoming-done recovery_pending folder index v =
      elim (Result-cases (
        commit_incoming codec collision_key check_root apply authorized replica scan_root recover
          visited recovery_pending folder index)) [
            | inr e ↦ inl e
            | inl (out, e) ↦
                let (_, h1) = >>-eq-ok (authorized folder) _ e in
                let (_, h2) = >>-eq-ok (check_root folder) _ h1 in
                let (missing, _, h3) =
                  >>=-eq-ok (missing_objects index 1)
                    (λ (missing : List Text).
                      ensure (length missing == 0) "content objects are still missing"
                      >> (recovery_pending
                          >>= commit_staged codec collision_key check_root apply authorized replica
                              scan_root recover visited folder index))
                    h2 in
                let (_, h4) =
                  ensure-eq-ok (length missing == 0) "content objects are still missing"
                    (recovery_pending
                      >>= commit_staged codec collision_key check_root apply authorized replica
                          scan_root recover visited folder index)
                    h3 in
                let (recovering, _, h5) =
                  >>=-eq-ok recovery_pending
                    (commit_staged codec collision_key check_root apply authorized replica scan_root
                      recover visited folder index)
                    h4 in
                inr (out, e, commit_staged-HasCommitted folder index recovering v h5)
          ]
