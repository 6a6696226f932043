-- ===== src/Root/Tests.antt =====
-- The operations of src/root.rs on a folder with one file, and the theorems there.
use happy_active_everywhere.Base.{String, true, false, none, some, [], ◌∷◌, ◌≡◌, refl, inl}
use happy_active_everywhere.Base.Order.{list_ord, lex}
use happy_active_everywhere.Base.Text.{text}
use happy_active_everywhere.Base.BTreeMap.{get, insert, remove, contains_key}
use happy_active_everywhere.Model.{Content, file}
use happy_active_everywhere.Model.Tests.{zeros}
use happy_active_everywhere.Model.FilePath.{validate_path, check_name}
use happy_active_everywhere.Root.{
  Disk, Intent, written, torn, finished, create_record, failed, disk_of, no_transaction, apply,
  recover_transaction, open_transaction, write_record, displace,
}
use happy_active_everywhere.Root.Keeping.{IsHeld, apply-IsHeld}
use happy_active_everywhere.Root.Publishing.{IsPublished, apply-IsPublished}
use happy_active_everywhere.Root.Crash.{
  Stopped, StoppedTorn, displaced, IsRecovered, recover-stopped, recover-torn,
}

abbrev newer : Content
newer = file (text "1")

-- A folder with a file `a`.
abbrev disk_a : Disk
disk_a = record { files = (text "a", file zeros) ∷ []; journal = [] }

abbrev intent_a : Intent
intent_a = record { path = text "a"; before = some (file zeros); after = newer }

abbrev opened_a : Disk
opened_a = record {
  files = (text "a", file zeros) ∷ [];
  journal = (text "t", record no_transaction { incoming = some newer }) ∷ [];
}

abbrev recorded_a : Disk
recorded_a = record {
  files = (text "a", file zeros) ∷ [];
  journal =
      (
        text "t",
        record {
          record_file = written intent_a;
          incoming = some newer;
          previous = none;
          done = false;
        },
      )
      ∷ [];
}

abbrev displaced_a : Disk
displaced_a = record {
  files = [];
  journal =
      (
        text "t",
        record {
          record_file = written intent_a;
          incoming = some newer;
          previous = some (file zeros);
          done = false;
        },
      )
      ∷ [];
}

abbrev applied_a : Disk
applied_a = record {
  files = (text "a", newer) ∷ [];
  journal =
      (
        text "t",
        record {
          record_file = written intent_a;
          incoming = none;
          previous = some (file zeros);
          done = true;
        },
      )
      ∷ [];
}

apply_run :
    apply (text "t") (text "a") (some (file zeros)) newer (some newer) disk_a ≡ finished applied_a
unfolding apply validate_path check_name get contains_key insert remove
apply_run = refl

apply-IsHeld_example :
    IsHeld
      (text "a")
      zeros
      (disk_of (apply (text "t") (text "a") (some (file zeros)) newer (some newer) disk_a))
unfolding get list_ord lex
apply-IsHeld_example =
    apply-IsHeld (text "t") (text "a") (some (file zeros)) newer (some newer) disk_a (text "a")
      zeros (inl refl)

apply-IsPublished_example : IsPublished (text "t") (text "a") newer applied_a
apply-IsPublished_example =
    apply-IsPublished (text "t") (text "a") (some (file zeros)) newer (some newer) disk_a apply_run

stopped_a : Stopped (text "t") (text "a") (some (file zeros)) newer (some newer) disk_a displaced_a
unfolding open_transaction write_record displace contains_key list_ord lex insert remove
stopped_a = displaced {d1 = opened_a} {d2 = recorded_a} refl refl refl

recover-stopped_example : IsRecovered (text "t") (text "a") (some (file zeros)) newer displaced_a
unfolding get list_ord lex validate_path check_name
recover-stopped_example =
    recover-stopped (text "t") (text "a") (some (file zeros)) newer (some newer) disk_a displaced_a
      refl refl refl stopped_a

abbrev torn_a : Disk
torn_a = record {
  files = (text "a", file zeros) ∷ [];
  journal = (text "t", record no_transaction { record_file = torn; incoming = some newer }) ∷ [];
}

stopped_torn : StoppedTorn (text "t") (text "a") newer (some newer) disk_a torn_a
unfolding open_transaction create_record contains_key list_ord lex insert
stopped_torn = (opened_a, refl, refl)

recover-torn_example :
    ((message : String) × (recover_transaction (text "t") torn_a ≡ failed message torn_a))
    × (torn_a.files ≡ disk_a.files)
recover-torn_example =
    recover-torn (text "t") (text "a") newer (some newer) disk_a torn_a stopped_torn
