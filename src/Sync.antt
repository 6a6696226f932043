-- ===== src/Sync.antt =====
-- src/sync.rs: a session between two devices on a shared folder. Messages are the values that
-- src/wire.rs carries.
pub mod Rows
pub mod Exchange
mod Tests
use happy_active_everywhere.Base.{
  ℕ, zero, suc, ◌+◌, ◌^◌, Bool, true, false, not, ◌&&◌, List, [], ◌∷◌, ltb, leb, ◌==◌, length,
  if◌then◌else◌, Result, ok, err, ensure, ◌>>=◌, ◌>>◌,
}
use happy_active_everywhere.Base.Order.{◌≟◌, list_ord}
use happy_active_everywhere.Base.Text.{Text}
use happy_active_everywhere.Versions.{Mode, send_only, receive_only, bidirectional}
use happy_active_everywhere.Model.{Codec}
use happy_active_everywhere.Share.{Record, Index, records, stage}

pub record Hello : Type 0 where
  pub folder : Text
  pub epoch : Text
  pub sequence : ℕ
  pub seen_epoch : Text
  pub seen_sequence : ℕ
  pub mode : Mode

pub data Metadata : Type 0 where
  page : List Record → Metadata
  end : Metadata

abbrev pub is_send_only : Mode → Bool
is_send_only send_only = true
is_send_only _ = false

abbrev pub is_receive_only : Mode → Bool
is_receive_only receive_only = true
is_receive_only _ = false

-- `page.last().unwrap().seq`.
abbrev pub last_seq : Record → List Record → ℕ
last_seq r [] = r.seq
last_seq r (q ∷ rs) = last_seq q rs

-- The records of a page have growing numbers, after the last one and up to the peer's.
unfoldable pub in_order : ℕ → ℕ → List Record → Result ℕ
in_order last limit [] = ok last
in_order last limit (r ∷ rs) = do
  ensure (ltb last r.seq && leb r.seq limit) "unordered metadata sequence"
  in_order r.seq limit rs

-- Where the sender starts.
unfoldable pub start_after : Hello → Hello → ℕ
start_after mine remote = if remote.seen_epoch ≟ mine.epoch then remote.seen_sequence else 0

-- `check` is what the approval answers when the round after a number begins.
module _ (check : ℕ → Result (Unit {0})) where
  -- The loop of `send_metadata`. A page goes on to a larger number, so one round more than there are
  -- rows is enough fuel.
  unfoldable pub send_pages : ℕ → Index → ℕ → ℕ → Result (List Metadata)
  send_pages zero index since ceiling = err "no fuel"
  send_pages (suc fuel) index since ceiling = do
    check since
    rs ← records index since ceiling 32
    elim rs [
      | [] ↦ ok (end ∷ [])
      | r ∷ rest ↦ do
        more ← send_pages fuel index (last_seq r rest) ceiling
        ok (page (r ∷ rest) ∷ more)
    ]

  -- `send_metadata`: the messages.
  unfoldable pub send_metadata : Index → Hello → Hello → Result (List Metadata)
  unfolding send_pages start_after
  send_metadata index mine remote =
      if not (is_receive_only mine.mode) && not (is_send_only remote.mode)
      then (do
        ensure (leb (start_after mine remote) mine.sequence)
            "peer cursor exceeds local sequence; index rollback requires a new epoch"
        send_pages (suc (length index.entries)) index (start_after mine remote) mine.sequence)
      else ok (end ∷ [])

  -- `read_metadata`, from the messages that come. `authorized` is what `authorize` answers in `stage`.
  module _ (codec : Codec) (has_object : Text → Bool) (authorized : Result (Unit {0}))
      (remote : Hello) where
    unfoldable pub read_metadata : ℕ → List Metadata → Index → Result Index
    unfolding in_order
    read_metadata last [] index = do check last; err "early eof"
    read_metadata last (end ∷ messages) index = do check last; ok index
    read_metadata last (page rs ∷ messages) index = do
      check last
      ensure (not (length rs == 0) && leb (length rs) 32) "invalid metadata page"
      last' ← in_order last remote.sequence rs
      next ← stage codec has_object authorized index rs
      read_metadata last' messages next
