-- ===== src/Execution/Intents/Files.antt =====
-- The JSON file of backend/app/submission_intent_store.py, with its backup. A file is absent, does
-- not hold a JSON object, or holds the intents.
use ai_trading_platform_mobi.Prelude.{
  ℕ, not, Option, none, some, List, [], ◌∷◌, if◌then◌else◌, is_some, keep, ok, err, ◌>>=◌, Text,
  lookup, insert, values, sort_keys,
}
use ai_trading_platform_mobi.Execution.Intents.{
  Intent, Request, IntentError, Outcome, Store, replay, new_intent, is_resolved, is_bound_to_other,
  bind_broker,
}

pub data File : Type 0 where
  absent : File
  unreadable : File
  holds : Store → File

pub record Disk : Type 0 where
  pub path : File
  pub backup_path : File

abbrev read : File → Outcome Store
read File.absent = err IntentError.invalid_persisted_state
read File.unreadable = err IntentError.invalid_persisted_state
read (File.holds d) = ok d

-- `_load_unlocked`, by the contents of the two files
unfoldable pub load_from : File → File → Outcome Store
load_from File.absent File.absent = ok []
load_from File.absent File.unreadable = read File.unreadable
load_from File.absent (File.holds d) = ok d
load_from File.unreadable backup = read backup
load_from (File.holds d) backup = ok d

abbrev pub load : Disk → Outcome Store
load disk = load_from disk.path disk.backup_path

-- The replacements of `_save_unlocked`, in which the files change: the old file becomes the backup, if
-- there is one, and the written file, whose keys are sorted, takes its place.
pub data Replacement : Type 0 where
  of_backup : Replacement
  of_path : Store → Replacement

abbrev pub backed_up : File → File → File
backed_up File.absent backup = backup
backed_up File.unreadable backup = File.unreadable
backed_up (File.holds d) backup = File.holds d

unfoldable pub replace : Disk → Replacement → Disk
replace disk Replacement.of_backup = record disk {
  backup_path = backed_up disk.path disk.backup_path;
}
replace disk (Replacement.of_path d) = record disk { path = File.holds (sort_keys d) }

unfoldable pub replace_all : Disk → List Replacement → Disk
replace_all disk [] = disk
replace_all disk (r ∷ rs) = replace_all (replace disk r) rs

-- `_save_unlocked`; a save that is interrupted has made the first ones.
unfoldable pub replacements : Store → List Replacement
replacements d = Replacement.of_backup ∷ Replacement.of_path d ∷ []

abbrev pub save : Store → Disk → Disk
save d disk = replace_all disk (replacements d)

-- `create` on the file
unfoldable pub create_file : Request → ℕ → Disk → Outcome (Intent × Disk)
create_file r now disk = do
  saved ← load disk
  elim (lookup r.client_order_id saved) [
    | some existing ↦ replay existing r.request_fingerprint >>= λ i. ok (i, disk)
    | none ↦ ok (new_intent r now, save (insert r.client_order_id (new_intent r now) saved) disk)
  ]

-- `get_unresolved` on the file
unfoldable pub get_file : Text → Disk → Outcome (Option Intent)
get_file client_order_id disk = do
  saved ← load disk
  elim (lookup client_order_id saved) [
    | none ↦ ok none
    | some i ↦ if is_resolved i then ok none else ok (some i)
  ]

-- `record_broker_order` on the file
unfoldable pub record_broker_file : Text → Text → Text → ℕ → Disk → Outcome Disk
record_broker_file client_order_id b status now disk = do
  saved ← load disk
  elim (lookup client_order_id saved) [
    | none ↦ err IntentError.unknown_order
    | some i ↦
        if is_resolved i
        then err IntentError.immutable
        else (if is_bound_to_other i.broker_order_id b
            then err IntentError.bound_to_other_broker_order
            else ok (save (insert client_order_id (bind_broker i b status now) saved) disk))
  ]

-- `resolve` on the file
unfoldable pub resolve_file : Text → ℕ → Disk → Outcome Disk
resolve_file client_order_id now disk = do
  saved ← load disk
  elim (lookup client_order_id saved) [
    | none ↦ err IntentError.unknown_order
    | some i ↦
        if not (is_some i.broker_order_id)
        then err IntentError.not_bound
        else (if is_resolved i
            then ok disk
            else ok
                (save (insert client_order_id (record i { resolved_at = some now }) saved) disk))
  ]

-- `unresolved` on the file
unfoldable pub unresolved_file : Disk → Outcome (List Intent)
unresolved_file disk = do saved ← load disk; ok (keep (λ i. not (is_resolved i)) (values saved))
