-- ===== src/Execution/Intents/Tests.antt =====
-- Runs of the submission intents.
use ai_trading_platform_mobi.Prelude.{
  String, ◌≡◌, refl, ◌⊎◌, none, some, List, [], ◌∷◌, ◌++◌, arith, ok, err, Ensures, pos, codes,
  strip, upper, sort_keys,
}
use ai_trading_platform_mobi.Execution.Intents.{
  Intent, Request, IntentError, Store, validate_broker_status, replay_on, new_intent,
  to_quantity_column, create_database,
}
use ai_trading_platform_mobi.Execution.Intents.Files.{
  File, Disk, load_from, load, replace, replace_all, replacements, save, create_file, get_file,
  record_broker_file, resolve_file,
}
use ai_trading_platform_mobi.Execution.Intents.Kept.{Later-refl}
use ai_trading_platform_mobi.Execution.Intents.Backends.{
  Backend, create_on, create, get_on, get_unresolved, record_on, record_broker_order, resolve,
}
use ai_trading_platform_mobi.Execution.Intents.Calls.{Call, Reply, or_raised, execute, replies}
use ai_trading_platform_mobi.Execution.Intents.History.{KeepsIn, run, run-KeepsIn}
use ai_trading_platform_mobi.Execution.Intents.Recovery.{
  save_interrupted, save_steps, save_loses_backup, unstripped_id_is_not_found,
}

abbrev request : String → Request
request id = record {
  client_order_id = codes id;
  route = codes "dhan";
  account_id = some (codes "1");
  symbol = codes "tcs";
  side = codes "buy";
  quantity = pos 5000000501;
  request_fingerprint = codes "f1";
}

abbrev intent : Intent
intent = record (new_intent (request "o1") 3) {
  broker_order_id = some (codes "b1");
  broker_status = some (codes "NEW");
  recovered_at = some 4;
}

abbrev table : Store
table = (codes "o1", intent) ∷ []

abbrev disk : Disk
disk = record { path = File.unreadable; backup_path = File.holds table }

abbrev session : List Call
session =
    Call.creating (request "o2") 5
    ∷ Call.recording (codes "o2") (codes " b2 ") (codes "filled") 6
    ∷ Call.recording (codes "o1") (codes "b3") (codes "NEW") 6
    ∷ Call.resolving (codes "o2") 7
    ∷ Call.creating (request "o2") 8
    ∷ Call.getting (codes "o2")
    ∷ Call.getting (codes "o1")
    ∷ []

session-replies :
    replies session (Backend.files disk)
    ≡ Reply.made (record (new_intent (request "o2") 5) { symbol = codes "TCS"; side = codes "BUY" })
      ∷ Reply.done
      ∷ Reply.raised IntentError.bound_to_other_broker_order
      ∷ Reply.done
      ∷ Reply.raised IntentError.already_resolved
      ∷ Reply.found none
      ∷ Reply.found (some intent)
      ∷ []
unfolding replies execute create create_on create_file record_broker_order record_on
    record_broker_file resolve resolve_file get_unresolved get_on get_file load_from replay_on
    validate_broker_status or_raised strip upper replace_all replacements replace
session-replies = refl

-- The database rounds the quantity of the row, and the file sorts its keys.
stores-request :
    (execute (Call.creating (request "a1") 5) (Backend.database table)).1
    ≡ Backend.database (
        table
        ++ ((
          codes "a1",
          record (new_intent (request "a1") 5) {
            symbol = codes "TCS";
            side = codes "BUY";
            quantity = pos 5000001000;
          },
        )
            ∷ []))
unfolding execute create create_on create_database to_quantity_column strip upper
stores-request = refl

sorts-keys :
    (execute (Call.creating (request "a1") 5) (Backend.files disk)).1
    ≡ Backend.files (record {
      path = File.holds (
          (
            codes "a1",
            record (new_intent (request "a1") 5) { symbol = codes "TCS"; side = codes "BUY" },
          )
          ∷ table);
      backup_path = File.unreadable;
    })
unfolding execute create create_on create_file load_from replace_all replace replacements strip
    upper
sorts-keys = refl

run-KeepsIn_example : KeepsIn (codes "o1") intent (run session (Backend.files disk))
unfolding load_from
run-KeepsIn_example =
    run-KeepsIn (codes "o1") intent session (Backend.files disk) (table, refl, Later-refl intent)

abbrev saved_disk : Disk
saved_disk = record { path = File.holds table; backup_path = File.absent }

save_steps_example :
    ((load (save_interrupted 1 [] saved_disk) ≡ ok table)
      ⊎ (load (save_interrupted 1 [] saved_disk) ≡ ok (sort_keys [])))
    × (load (save [] saved_disk) ≡ ok (sort_keys []))
    × (load (record (save [] saved_disk) { path = File.unreadable }) ≡ ok table)
    × (load (record (save [] saved_disk) { path = File.absent }) ≡ ok table)
save_steps_example = save_steps [] table saved_disk 1 refl

save_loses_backup_example :
    (load disk ≡ ok table)
    × (load (save_interrupted 1 [] disk) ≡ err IntentError.invalid_persisted_state)
save_loses_backup_example = save_loses_backup [] table disk refl refl

unstripped_id_is_not_found_example :
    Ensures
      (create (request " o3") 5 (Backend.database table))
      (λ x. get_unresolved (codes " o3") x.1 ≡ ok none)
unfolding strip upper
unstripped_id_is_not_found_example =
    unstripped_id_is_not_found (request " o3") 5 table (λ e. ground (arith, e)) refl
