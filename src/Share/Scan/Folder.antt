-- ===== src/Share/Scan/Folder.antt =====
-- A whole scan that succeeds, of what is in the folder and of what is not.
use happy_active_everywhere.Base.{
  ℕ, ◌+◌, ◌<◌, Bool, false, not, none, some, List, [], ◌∷◌, Result, ok, >>=-eq-ok, >>-eq-ok,
  ok-injective, ◌≡◌, ◌≢◌, refl, sym, ap, subst, ◌∙◌, arith, inl, inr, Bool-cases, Option-cases,
  none≢some, true≢false, if◌then◌else◌, length,
}
use happy_active_everywhere.Base.In.{In}
use happy_active_everywhere.Base.Order.{◌≟◌, ≟-eq, ≟-refl, list_ord, lex, ◌≺◌}
use happy_active_everywhere.Base.Text.{Text}
use happy_active_everywhere.Base.BTreeMap.{BTreeMap, IsSorted, get, keys, contains_key}
use happy_active_everywhere.Base.Paging.{get-pages, pages-IsSorted, get-select, IsSorted-select}
use happy_active_everywhere.Model.{Content, Codec}
use happy_active_everywhere.Share.{Entry, Index}
use happy_active_everywhere.Share.Saving.{IsValid}
use happy_active_everywhere.Share.Scan.{
  scan_inner, scan_seen, scan_unseen, record_seen, unseen, paged,
}
use happy_active_everywhere.Share.Scan.Seen.{
  IsTaken, IsSeen, record_seen-get, scan_seen-LoopDone, IsTaken-IsLeft,
}
use happy_active_everywhere.Share.Scan.Unseen.{IsMissing, IsPending, scan_unseen-AbsentHandled}

[]-≺ : (p : Text) → p ≢ [] → [] ≺ p
unfolding list_ord lex
[]-≺ [] n = absurd (n refl)
[]-≺ (x ∷ p) n = refl

get-paged :
    {V : Type 0} (p : Text) (m : BTreeMap Text V) → IsSorted m → p ≢ [] → get p (paged m) ≡ get p m
get-paged p m s n = get-pages 256 [] p m s (omega arith) ([]-≺ p n)

module _ {V : Type 0} where
  keys-In : (p : Text) (v : V) (m : BTreeMap Text V) → get p m ≡ some v → In p (keys m)
  unfolding get
  keys-In p v [] h = cc
  keys-In p v ((j, w) ∷ m) h = elim (Bool-cases (p ≟ j)) [
    | inl t ↦ inl (≟-eq p j t)
    | inr t ↦ inr (keys-In p v m (rw t at h))
  ]

  In-keys : (p : Text) (m : BTreeMap Text V) → get p m ≡ none → In p (keys m) → ⊥
  unfolding get
  In-keys p [] h i = i
  In-keys p ((j, w) ∷ m) h i = elim (Bool-cases (p ≟ j)) [
    | inl t ↦ none≢some (sym (rw t at h))
    | inr t ↦ elim i [
      | inl e ↦ true≢false (sym (≟-refl j) ∙ ap (λ (x : Text). x ≟ j) (sym e) ∙ t)
      | inr k ↦ In-keys p m (rw t at h) k
    ]
  ]

  some-length : (p : Text) (v : V) (m : BTreeMap Text V) → get p m ≡ some v → 0 < length m
  unfolding get
  some-length p v [] h = cc
  some-length p v (e ∷ m) h = omega arith

get-unseen :
    (p : Text) (seen : BTreeMap Text Content) (entries : BTreeMap Text Entry)
    → get p (unseen seen entries) ≡ (if not (contains_key p seen) then get p entries else none)
unfolding unseen
get-unseen p seen entries = get-select (λ (x : Text). not (contains_key x seen)) p entries

unseen_left :
    (p : Text) (c : Content) (seen : BTreeMap Text Content) (entries : BTreeMap Text Entry)
    → get p seen ≡ some c
    → get p (unseen seen entries) ≡ none
unfolding contains_key
unseen_left p c seen entries h = get-unseen p seen entries ∙ rw (contains_key, h) refl

unseen_kept :
    (p : Text) (seen : BTreeMap Text Content) (entries : BTreeMap Text Entry)
    → get p seen ≡ none
    → get p (unseen seen entries) ≡ get p entries
unfolding contains_key
unseen_kept p seen entries h = get-unseen p seen entries ∙ rw (contains_key, h) refl

module _ (codec : Codec) (collision_key : Text → Text) (replica : Text) where
  -- The steps of a scan that succeeds.
  scan_inner-steps :
      (check_root : ℕ → Result (Unit {0})) (recover : Result (Unit {0}))
      (found : List (Text × Content)) (approve : Bool) (index : Index) {out : ℕ × ℕ × Index}
      → scan_inner codec collision_key replica check_root recover (ok found) approve index ≡ ok out
      → (seen : BTreeMap Text Content) × (record_seen collision_key [] found ≡ ok seen)
        × ((n : ℕ) × (next : Index) × (scan_seen codec collision_key replica index (paged seen)
              ≡ ok (n, next))
            × ((m : ℕ) × (after : Index) × (scan_unseen codec collision_key replica approve next
                    (keys (paged (unseen seen next.entries)))
                  ≡ ok (m, after))
                × (out ≡ (n + m, length after.pending, after))))
  unfolding scan_inner
  scan_inner-steps check_root recover found approve index h =
      let (_, h1) = >>-eq-ok (check_root 0) _ h in
      let (_, h2) = >>-eq-ok recover _ h1 in
      let (seen, e, h3) = >>=-eq-ok (record_seen collision_key [] found) _ h2 in
      let (_, h4) = >>-eq-ok (check_root 1) _ h3 in
      let ((n, next), e1, h5) =
        >>=-eq-ok (scan_seen codec collision_key replica index (paged seen)) _ h4 in
      let ((m, after), e2, h6) =
        >>=-eq-ok
          (scan_unseen codec collision_key replica approve next
            (keys (paged (unseen seen next.entries))))
          _ h5 in
      let (_, h7) = >>-eq-ok (check_root 2) _ h6 in
      (seen, e, (n, next, e1, (m, after, e2, sym (ok-injective h7))))

  seen_none :
      (found : List (Text × Content)) (seen : BTreeMap Text Content) (p : Text)
      → ((c : Content) → get p seen ≡ some c → IsSeen [] found p c)
      → ((c : Content) → In (p, c) found → ⊥)
      → get p seen ≡ none
  unfolding get
  seen_none found seen p from out = elim (Option-cases (get p seen)) [
    | inl g ↦ g
    | inr (c, g) ↦ elim (from c g) [ inl e ↦ absurd (none≢some e) | inr i ↦ absurd (out c i) ]
  ]

  -- A scan that succeeds leaves a valid index. Whatever was found in the folder is afterwards the
  -- content that its row says the folder has, and its path does not wait for an approval.
  pub scan_inner-IsTaken :
      (check_root : ℕ → Result (Unit {0})) (recover : Result (Unit {0}))
      (found : List (Text × Content)) (approve : Bool) (index : Index) (p : Text) (c : Content)
      {out : ℕ × ℕ × Index}
      → IsValid index
      → In (p, c) found
      → p ≢ []
      → scan_inner codec collision_key replica check_root recover (ok found) approve index ≡ ok out
      → IsValid out.2 × IsTaken p c out.2
  unfolding unseen
  scan_inner-IsTaken check_root recover found approve index p c v i w h =
      let (seen, e, (n, next, e1, (m, after, e2, q))) =
        scan_inner-steps check_root recover found approve index h in
      let (s, into, _) = record_seen-get codec collision_key replica [] found tt e in
      let here : get p seen ≡ some c = into p c (inr i) in
      let (v1, _, taken) =
        scan_seen-LoopDone codec collision_key replica index (paged seen) v
          (pages-IsSorted 256 [] seen s (omega arith)) e1 in
      let sorted =
        IsSorted-select (λ (x : Text × Entry). not (contains_key x.0 seen)) next.entries
          v1.sorted in
      let gone =
        get-paged p (unseen seen next.entries) sorted w ∙ unseen_left p c seen next.entries here in
      let (v2, handled) =
        scan_unseen-AbsentHandled codec collision_key replica approve next
          (keys (paged (unseen seen next.entries))) v1 e2 in
      let left = (handled p).0 (In-keys p (paged (unseen seen next.entries)) gone) in
      subst (λ (x : ℕ × ℕ × Index). IsValid x.2 × IsTaken p c x.2) (sym q)
        (v2, IsTaken-IsLeft p c next after (taken p c (get-paged p seen s w ∙ here)) left)

  -- A scan without approval deletes nothing: a path that was not found in the folder, whose row had a
  -- content there and was not deleted by a revision of another device, keeps its row as it was,
  -- is pending afterwards, and the scan reports that something is pending.
  pub scan_inner-IsPending :
      (check_root : ℕ → Result (Unit {0})) (recover : Result (Unit {0}))
      (found : List (Text × Content)) (index : Index) (p : Text) (old : Entry) {out : ℕ × ℕ × Index}
      → IsValid index
      → p ≢ []
      → ((c : Content) → In (p, c) found → ⊥)
      → get p index.entries ≡ some old
      → IsMissing codec old
      → scan_inner codec collision_key replica check_root recover (ok found) false index ≡ ok out
      → IsPending p old out.2 × (0 < out.1)
  unfolding unseen
  scan_inner-IsPending check_root recover found index p old v w absent g missing h =
      let (seen, e, (n, next, e1, (m, after, e2, q))) =
        scan_inner-steps check_root recover found false index h in
      let (s, _, from) = record_seen-get codec collision_key replica [] found tt e in
      let here : get p seen ≡ none = seen_none found seen p (from p) absent in
      let (v1, kept, _) =
        scan_seen-LoopDone codec collision_key replica index (paged seen) v
          (pages-IsSorted 256 [] seen s (omega arith)) e1 in
      let row : get p next.entries ≡ some old = (kept p (get-paged p seen s w ∙ here)).0 ∙ g in
      let sorted =
        IsSorted-select (λ (x : Text × Entry). not (contains_key x.0 seen)) next.entries
          v1.sorted in
      let listed =
        get-paged p (unseen seen next.entries) sorted w
        ∙ unseen_kept p seen next.entries here
        ∙ row in
      let (_, handled) =
        scan_unseen-AbsentHandled codec collision_key replica false next
          (keys (paged (unseen seen next.entries))) v1 e2 in
      let (r, t) =
        (handled p).1 old refl missing row
          (inl (keys-In p old (paged (unseen seen next.entries)) listed)) in
      subst (λ (x : ℕ × ℕ × Index). IsPending p old x.2 × (0 < x.1)) (sym q)
        ((r, t), some-length p tt after.pending t)

  pub scan_inner-IsValid :
      (check_root : ℕ → Result (Unit {0})) (recover : Result (Unit {0}))
      (visited : Result (List (Text × Content))) (approve : Bool) (index : Index)
      {out : ℕ × ℕ × Index}
      → IsValid index
      → scan_inner codec collision_key replica check_root recover visited approve index ≡ ok out
      → IsValid out.2
  unfolding scan_inner
  scan_inner-IsValid check_root recover visited approve index {out} v h =
      let (_, h1) = >>-eq-ok (check_root 0) _ h in
      let (_, h2) = >>-eq-ok recover _ h1 in
      let (found, e, _) = >>=-eq-ok visited _ h2 in
      let again : scan_inner codec collision_key replica check_root recover (ok found) approve index
          ≡ ok out =
        ap
          (λ (x : Result (List (Text × Content))).
            scan_inner codec collision_key replica check_root recover x approve index)
          (sym e)
        ∙ h in
      let (seen, s, (n, next, e1, (m, after, e2, q))) =
        scan_inner-steps check_root recover found approve index again in
      let (sorted, _, _) = record_seen-get codec collision_key replica [] found tt s in
      let (v1, _, _) =
        scan_seen-LoopDone codec collision_key replica index (paged seen) v
          (pages-IsSorted 256 [] seen sorted (omega arith)) e1 in
      let (v2, _) =
        scan_unseen-AbsentHandled codec collision_key replica approve next
          (keys (paged (unseen seen next.entries))) v1 e2 in
      subst (λ (x : ℕ × ℕ × Index). IsValid x.2) (sym q) v2
