-- ===== src/Versions/Reconcile.antt =====
-- `reconcile` of src/versions.rs: the decision on a remote version of a path.
use happy_active_everywhere.Base.{
  ◌⊎◌, Bool, true, false, Option, none, some, if◌then◌else◌, ◌≡◌, refl, arith, ◌↔◌, ◌≢◌,
}
use happy_active_everywhere.Base.Order.{◌≟◌, list_ord}
use happy_active_everywhere.Base.Text.{Text}
use happy_active_everywhere.Versions.{
  Clock, Mode, send_only, receive_only, bidirectional, Relation, before, after, equal, concurrent,
  relation,
}
use happy_active_everywhere.Versions.Causality.{converse, relation-converse}

pub data Decision : Type 0 where
  apply ignore conflict merge invalid : Decision

-- `==` of `Option<&str>`.
abbrev pub same_content : Option Text → Option Text → Bool
same_content none none = true
same_content none (some b) = false
same_content (some a) none = false
same_content (some a) (some b) = a ≟ b

-- The `match` on the relation of the two clocks.
unfoldable pub decide : Relation → Bool → Decision
decide equal same = if same then ignore else invalid
decide after same = ignore
decide before same = apply
decide concurrent same = if same then merge else conflict

unfoldable pub reconcile : Mode → Option (Clock × Option Text) → Clock × Option Text → Decision
unfolding relation decide
reconcile send_only local remote = ignore
reconcile receive_only none remote = apply
reconcile receive_only (some (clock, content)) (remote, theirs) =
    decide (relation clock remote) (same_content content theirs)
reconcile bidirectional none remote = apply
reconcile bidirectional (some (clock, content)) (remote, theirs) =
    decide (relation clock remote) (same_content content theirs)

same_content_comm : (x y : Option Text) → same_content x y ≡ same_content y x
same_content_comm none none = refl
same_content_comm none (some b) = refl
same_content_comm (some a) none = refl
same_content_comm (some a) (some b) = ground (arith, list_ord.cmp_swap a b)

-- What the other device decides when this one decides `d`, where both hold a version.
abbrev pub Mirrors : Decision → Decision → Type 0
Mirrors apply e = e ≡ ignore
Mirrors ignore e = (e ≡ apply) ⊎ (e ≡ ignore)
Mirrors conflict e = e ≡ conflict
Mirrors merge e = e ≡ merge
Mirrors invalid e = e ≡ invalid

decide-converse : (r : Relation) (same : Bool) → Mirrors (decide r same) (decide (converse r) same)
unfolding decide
decide-converse before same = ground arith
decide-converse after same = ground arith
decide-converse equal same = ground arith
decide-converse concurrent same = ground arith

reconcile-decide :
    (m : Mode) (a b : Clock) (x y : Option Text)
    → m ≢ send_only
    → reconcile m (some (a, x)) (b, y) ≡ decide (relation a b) (same_content x y)
unfolding reconcile
reconcile-decide send_only a b x y h = absurd (h refl)
reconcile-decide receive_only a b x y h = refl
reconcile-decide bidirectional a b x y h = refl

decide_when :
    (r : Relation) (same : Bool)
    → ((decide r same ≡ apply) ↔ (r ≡ before))
      × ((decide r same ≡ conflict) ↔ ((r ≡ concurrent) × (same ≡ false)))
unfolding decide
decide_when before same = grind arith
decide_when after same = grind arith
decide_when equal same = grind arith
decide_when concurrent same = grind arith

module _ (mine theirs : Mode) (a b : Clock) (x y : Option Text) where
  -- Where neither of two devices only sends and each holds a version of a path, their decisions on
  -- each other's version fit together: if one applies, the other ignores; if one ignores, the other
  -- applies or ignores; a conflict, a merge and an invalid version are found by both.
  pub reconcile_mirror :
      mine ≢ send_only
      → theirs ≢ send_only
      → Mirrors (reconcile mine (some (a, x)) (b, y)) (reconcile theirs (some (b, y)) (a, x))
  reconcile_mirror m t =
      rw
        (
          reconcile-decide mine a b x y m,
          reconcile-decide theirs b a y x t,
          relation-converse a b,
          same_content_comm y x,
        )
        (decide-converse (relation a b) (same_content x y))

module _ (mine : Mode) (a b : Clock) (x y : Option Text) where
  -- Where the mode is not send-only and a version is held, the remote version is applied exactly
  -- when its clock is newer, and reported as a conflict exactly when the clocks are concurrent and
  -- the contents differ.
  pub reconcile_when :
      mine ≢ send_only
      → ((reconcile mine (some (a, x)) (b, y) ≡ apply) ↔ (relation a b ≡ before))
        × ((reconcile mine (some (a, x)) (b, y) ≡ conflict)
            ↔ ((relation a b ≡ concurrent) × (same_content x y ≡ false)))
  reconcile_when m =
      rw (reconcile-decide mine a b x y m) (decide_when (relation a b) (same_content x y))
