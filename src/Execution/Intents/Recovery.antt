-- ===== src/Execution/Intents/Recovery.antt =====
-- Saving the file of backend/app/submission_intent_store.py, and looking an intent up by its id.
use ai_trading_platform_mobi.Prelude.{
  ℕ, zero, suc, ◌≡◌, refl, sym, ◌≢◌, ◌⊎◌, inl, inr, false, none, arith, ok, err, Ensures,
  text_eq_iff, strip, lookup, contains, lookup-insert, subst, take, sort_keys,
}
use ai_trading_platform_mobi.Execution.Intents.{
  Request, IntentError, Store, new_row, create_database, get_database,
}
use ai_trading_platform_mobi.Execution.Intents.Files.{
  File, Disk, load_from, load, replace, replace_all, replacements, save,
}
use ai_trading_platform_mobi.Execution.Intents.Backends.{
  Backend, create_on, create, get_on, get_unresolved,
}

-- The files as an interrupted save leaves them, after its first `n` replacements
abbrev pub save_interrupted : ℕ → Store → Disk → Disk
save_interrupted n d disk = replace_all disk (take n (replacements d))

loads_old_or_new :
    (d t : Store) (backup : File) (n : ℕ)
    → (load (save_interrupted n d (record { path = File.holds t; backup_path = backup })) ≡ ok t)
      ⊎ (load (save_interrupted n d (record { path = File.holds t; backup_path = backup }))
          ≡ ok (sort_keys d))
unfolding replacements replace_all replace load_from
loads_old_or_new d t backup zero = inl refl
loads_old_or_new d t backup (suc zero) = inl refl
loads_old_or_new d t backup (suc (suc zero)) = inr refl
loads_old_or_new d t backup (suc (suc (suc n))) = inr refl

-- A save over a readable file, interrupted after any of its replacements, leaves files that load as
-- the old intents or as the new ones with sorted keys. The finished save loads as the new ones, and
-- has a backup of the old ones, which are loaded where the new file is damaged or lost.
pub save_steps :
    (d t : Store) (disk : Disk) (n : ℕ)
    → disk.path ≡ File.holds t
    → ((load (save_interrupted n d disk) ≡ ok t)
        ⊎ (load (save_interrupted n d disk) ≡ ok (sort_keys d)))
      × (load (save d disk) ≡ ok (sort_keys d))
      × (load (record (save d disk) { path = File.unreadable }) ≡ ok t)
      × (load (record (save d disk) { path = File.absent }) ≡ ok t)
unfolding replacements replace_all replace load_from
save_steps d t disk n e = (
  subst
      (λ p.
        (load (save_interrupted n d (record disk { path = p })) ≡ ok t)
        ⊎ (load (save_interrupted n d (record disk { path = p })) ≡ ok (sort_keys d)))
      (sym e) (loads_old_or_new d t disk.backup_path n),
  refl,
  rw e refl,
  rw e refl,
)

-- Where the file is unreadable and the backup holds the intents, they load; a save of new intents that
-- is interrupted after its first replacement has copied the unreadable file over the backup, and
-- nothing loads any more.
pub save_loses_backup :
    (d t : Store) (disk : Disk)
    → disk.path ≡ File.unreadable
    → disk.backup_path ≡ File.holds t
    → (load disk ≡ ok t)
      × (load (save_interrupted 1 d disk) ≡ err IntentError.invalid_persisted_state)
unfolding replacements replace_all replace load_from
save_loses_backup d t disk e k = (rw (e, k) refl, rw e refl)

-- An id with spaces around it is accepted by `create`, and `get_unresolved` does not find the intent
-- by it: whatever intent it returns stands under the id without the spaces.
pub unstripped_id_is_not_found :
    (r : Request) (now : ℕ) (t : Store)
    → strip r.client_order_id ≢ r.client_order_id
    → contains (strip r.client_order_id) t ≡ false
    → Ensures
        (create r now (Backend.database t))
        (λ x. get_unresolved r.client_order_id x.1 ≡ ok none)
unfolding create create_on create_database get_unresolved get_on get_database
unstripped_id_is_not_found r now t h absent = ground (
  arith,
  text_eq_iff (strip r.client_order_id) r.client_order_id,
  lookup-insert r.client_order_id (strip r.client_order_id) (new_row r now) t,
)

-- A creation whose insertion conflicts with a row that another worker has written since the
-- transaction read the table behaves like one that starts after that row.
pub create_after_conflict :
    (r : Request) (now : ℕ) (seen t : Store)
    → lookup r.client_order_id seen ≡ none
    → create_database r now seen t ≡ create_database r now t t
unfolding create_database
create_after_conflict r now seen t h = ground arith
