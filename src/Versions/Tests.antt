-- ===== src/Versions/Tests.antt =====
-- The functions of src/versions.rs at the inputs of tests/versions.rs and others, and the theorems
-- at concrete clocks.
use happy_active_everywhere.Base.{◌≡◌, refl, ◌↔◌, ok, err, none, some, [], ◌∷◌}
use happy_active_everywhere.Base.Order.{lex, list_ord}
use happy_active_everywhere.Base.Text.{Text, text}
use happy_active_everywhere.Base.BTreeMap.{IsSorted}
use happy_active_everywhere.Versions.{
  Clock, before, after, equal, concurrent, send_only, bidirectional, receive_only, count, relation,
  merge, advance, validate,
}
use happy_active_everywhere.Versions.Causality.{Le}
use happy_active_everywhere.Versions.Merge.{merge_lub}
use happy_active_everywhere.Versions.Reconcile.{conflict, apply, ignore, reconcile}

abbrev laptop : Text
laptop = text "laptop"

abbrev phone : Text
phone = text "phone"

abbrev older : Clock
older = (laptop, 1) ∷ (phone, 2) ∷ []

abbrev newer : Clock
newer = (laptop, 3) ∷ (phone, 2) ∷ []

abbrev other : Clock
other = (laptop, 1) ∷ (phone, 5) ∷ []

relations :
    (relation older newer ≡ before)
    × (relation newer older ≡ after)
    × (relation older older ≡ equal)
    × (relation newer other ≡ concurrent)
unfolding relation list_ord lex count
relations = (refl, refl, refl, refl)

merged : merge newer other ≡ (laptop, 3) ∷ (phone, 5) ∷ []
unfolding merge list_ord lex
merged = refl

advanced : advance older laptop ≡ ok ((laptop, 2) ∷ (phone, 2) ∷ [])
unfolding advance list_ord lex
advanced = refl

exhausted : advance ((laptop, 18446744073709551615) ∷ []) laptop ≡ err "device counter exhausted"
unfolding advance list_ord lex
exhausted = refl

nameless : advance older [] ≡ err "invalid device identifier"
unfolding advance
nameless = refl

older-valid : validate older ≡ ok tt
unfolding validate
older-valid = refl

older-IsSorted : IsSorted older
unfolding list_ord lex
older-IsSorted = ((refl, tt), (tt, tt))

other-IsSorted : IsSorted other
unfolding list_ord lex
other-IsSorted = ((refl, tt), (tt, tt))

newer-IsSorted : IsSorted newer
unfolding list_ord lex
newer-IsSorted = ((refl, tt), (tt, tt))

merge_lub_example : Le (merge newer other) newer ↔ (Le newer newer × Le other newer)
merge_lub_example = merge_lub newer other newer other-IsSorted

decided :
    (reconcile send_only none (newer, none) ≡ ignore)
    × (reconcile bidirectional (some (newer, some laptop)) (other, none) ≡ conflict)
    × (reconcile receive_only (some (older, some laptop)) (newer, none) ≡ apply)
unfolding reconcile list_ord lex
decided = (refl, refl, refl)
