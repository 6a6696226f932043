-- ===== src/Versions.antt =====
-- src/versions.rs: vector clocks and their causal relation. The decision on a remote version is
-- in the child `Reconcile`.
pub mod Causality
pub mod Advance
pub mod Merge
pub mod Reconcile
mod Tests
use happy_active_everywhere.Base.{
  ℕ, ◌+◌, ◌^◌, max, Bool, true, false, ◌&&◌, ◌||◌, not, Option, none, some, List, [], ◌∷◌, ◌++◌,
  ltb, leb, if◌then◌else◌, Result, ok, err, ensure, context, ◌>>=◌, ◌>>◌, all, length,
}
use happy_active_everywhere.Base.Order.{◌≟◌, list_ord}
use happy_active_everywhere.Base.Text.{Text, len, is_empty}
use happy_active_everywhere.Base.BTreeMap.{BTreeMap, keys, get, insert}

-- The counters of a clock, by device.
abbrev pub Clock : Type 0
Clock = BTreeMap Text ℕ

pub data Relation : Type 0 where
  before after equal concurrent : Relation

pub data Mode : Type 0 where
  send_only receive_only bidirectional : Mode

-- `self.0.get(device).copied().unwrap_or(0)`.
unfoldable pub count : Text → Clock → ℕ
unfolding get
count device c = elim (get device c) [ none ↦ 0 | some n ↦ n ]

unfoldable pub valid_device : Text → Bool
unfolding len
valid_device device = not (is_empty device) && leb (len device) 128

-- `u64::checked_add`.
unfoldable pub checked_add : ℕ → ℕ → Option ℕ
checked_add a b = if ltb (a + b) (2 ^ 64) then some (a + b) else none

unfoldable pub valid_entry : Text × ℕ → Bool
unfolding valid_device
valid_entry (device, counter) = valid_device device && ltb 0 counter

unfoldable pub validate : Clock → Result (Unit {0})
unfolding valid_entry
validate c = do
  ensure (ltb 0 (length c) && leb (length c) 128) "invalid clock size"
  ensure (all valid_entry c) "invalid clock entry"

unfoldable pub advance : Clock → Text → Result Clock
unfolding valid_device count checked_add insert
advance c device = do
  ensure (valid_device device) "invalid device identifier"
  value ← context (checked_add (count device c) 1) "device counter exhausted"
  ok (insert device value c)

-- One round of `merge` raises the counter of a device to that of the other clock.
unfoldable pub raise : Text → ℕ → Clock → Clock
unfolding count insert
raise device n c = insert device (max (count device c) n) c

unfoldable pub merge : Clock → Clock → Clock
unfolding raise
merge c [] = c
merge c ((device, n) ∷ other) = merge (raise device n c) other

-- The loop of `relation`, with its two flags.
unfoldable pub relation_flags : List Text → Clock → Clock → Bool → Bool → Bool × Bool
unfolding count
relation_flags [] a b less greater = (less, greater)
relation_flags (device ∷ rest) a b less greater =
    relation_flags rest a b (less || ltb (count device a) (count device b))
      (greater || ltb (count device b) (count device a))

abbrev pub of_flags : Bool × Bool → Relation
of_flags (true, true) = concurrent
of_flags (true, false) = before
of_flags (false, true) = after
of_flags (false, false) = equal

unfoldable pub relation : Clock → Clock → Relation
unfolding relation_flags
relation a b = of_flags (relation_flags (keys a ++ keys b) a b false false)
