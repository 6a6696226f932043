-- ===== src/Versions/Advance.antt =====
-- `advance`: an edit on a device moves its clock strictly forward, in that device's counter alone.
use happy_active_everywhere.Base.{ℕ, ◌+◌, ◌^◌, ◌<◌, true, ltb, ◌≡◌, arith, ok, err, if◌then◌else◌}
use happy_active_everywhere.Base.Order.{◌≟◌, list_ord, ≟-eq, ≟-refl}
use happy_active_everywhere.Base.Text.{Text}
use happy_active_everywhere.Base.BTreeMap.{IsSorted, insert, get-insert, insert-IsSorted}
use happy_active_everywhere.Versions.{
  Clock, before, count, relation, valid_device, checked_add, advance,
}
use happy_active_everywhere.Versions.Causality.{relation-Le}

pub count-insert :
    (d e : Text) (n : ℕ) (c : Clock) → count e (insert d n c) ≡ (if e ≟ d then n else count e c)
unfolding count
count-insert d e n c = rw (get-insert d e n c, count) (ground arith)

advance-eq :
    (c : Clock) (d : Text) {c' : Clock}
    → advance c d ≡ ok c'
    → (c' ≡ insert d (count d c + 1) c) × (valid_device d ≡ true) × (count d c + 1 < 2 ^ 64)
unfolding advance checked_add
advance-eq c d h = ground arith

insert-before : (c : Clock) (d : Text) (n : ℕ) → count d c < n → relation c (insert d n c) ≡ before
insert-before c d n h = (relation-Le c (insert d n c)).0.1 (
  λ e. ground (arith, count-insert d e n c, ≟-eq e d),
  λ back. ground (arith, count-insert d d n c, ≟-refl d, back d),
)

-- Where `advance` succeeds, the old clock is before the new one, whose counters are the old ones
-- but for the device's own, which is one larger.
pub advance-before :
    (c : Clock) (d e : Text) {c' : Clock}
    → advance c d ≡ ok c'
    → (relation c c' ≡ before) × (count e c' ≡ (if e ≟ d then count d c + 1 else count e c))
advance-before c d e h =
    let (eq, _, _) = advance-eq c d h in
    (
      rw eq (insert-before c d (count d c + 1) (omega arith)),
      rw eq (count-insert d e (count d c + 1) c),
    )

-- `advance` succeeds exactly when the device's name has 1 to 128 bytes and its counter is not the
-- largest 64-bit number; otherwise it returns the error of the first of these that fails.
pub advance-result :
    (c : Clock) (d : Text)
    → advance c d ≡ (
        if valid_device d
        then if ltb (count d c + 1) (2 ^ 64)
          then ok (insert d (count d c + 1) c)
          else err "device counter exhausted"
        else err "invalid device identifier")
unfolding advance checked_add
advance-result c d = ground arith

pub advance-IsSorted :
    (c : Clock) (d : Text) {c' : Clock} → IsSorted c → advance c d ≡ ok c' → IsSorted c'
advance-IsSorted c d s h =
    let (e, _, _) = advance-eq c d h in rw e (insert-IsSorted d (count d c + 1) c s)
