-- ===== src/Execution/Intents/Backends.antt =====
-- The methods of `SubmissionIntentStore` in backend/app/submission_intent_store.py, which work on a
-- database where there is a session factory and on the file otherwise.
use ai_trading_platform_mobi.Prelude.{
  ℕ, Bool, ◌||◌, Option, List, length, is_empty, ok, ◌>>=◌, ◌>>◌, raise_if, pos, leb_ℤ, Text, strip,
}
use ai_trading_platform_mobi.Execution.Intents.{
  Intent, Request, IntentError, Outcome, Store, validate_broker_status, create_database,
  get_database, record_broker_database, resolve_database, unresolved_database,
}
use ai_trading_platform_mobi.Execution.Intents.Files.{
  Disk, load, create_file, get_file, record_broker_file, resolve_file, unresolved_file,
}

pub data Backend : Type 0 where
  database : Store → Backend
  files : Disk → Backend

-- What the backend holds.
abbrev pub contents : Backend → Outcome Store
contents (Backend.database table) = ok table
contents (Backend.files disk) = load disk

abbrev pub is_blank : Text → Bool
is_blank t = is_empty (strip t)

unfoldable pub create_on : Request → ℕ → Backend → Outcome (Intent × Backend)
create_on r now (Backend.database table) = do
  made ← create_database r now table table
  ok (made.0, Backend.database made.1)
create_on r now (Backend.files disk) = do
  made ← create_file r now disk
  ok (made.0, Backend.files made.1)

-- `create`, in a transaction that nothing else writes to
unfoldable pub create : Request → ℕ → Backend → Outcome (Intent × Backend)
unfolding create_on
create r now b = do
  raise_if (is_blank r.client_order_id || is_blank r.route || is_blank r.symbol || is_blank r.side)
      IntentError.identity_required
  raise_if (leb_ℤ r.quantity (pos 0)) IntentError.quantity_not_positive
  raise_if (is_blank r.request_fingerprint) IntentError.fingerprint_required
  create_on r now b

unfoldable pub get_on : Text → Backend → Outcome (Option Intent)
get_on client_order_id (Backend.database table) = ok (get_database client_order_id table)
get_on client_order_id (Backend.files disk) = get_file client_order_id disk

unfoldable pub get_unresolved : Text → Backend → Outcome (Option Intent)
unfolding get_on
get_unresolved client_order_id b = do
  let id = strip client_order_id
  raise_if (is_empty id) IntentError.identity_required
  get_on id b

unfoldable pub record_on : Text → Text → Text → ℕ → Backend → Outcome Backend
record_on client_order_id broker_order_id status now (Backend.database table) = do
  recorded ← record_broker_database client_order_id broker_order_id status now table
  ok (Backend.database recorded)
record_on client_order_id broker_order_id status now (Backend.files disk) = do
  recorded ← record_broker_file client_order_id broker_order_id status now disk
  ok (Backend.files recorded)

unfoldable pub record_broker_order : Text → Text → Text → ℕ → Backend → Outcome Backend
unfolding record_on
record_broker_order client_order_id broker_order_id broker_status now b = do
  let id = strip broker_order_id
  raise_if (is_empty id) IntentError.broker_order_required
  status ← validate_broker_status broker_status
  record_on client_order_id id status now b

unfoldable pub resolve : Text → ℕ → Backend → Outcome Backend
resolve client_order_id now (Backend.database table) = do
  resolved ← resolve_database client_order_id now table
  ok (Backend.database resolved)
resolve client_order_id now (Backend.files disk) = do
  resolved ← resolve_file client_order_id now disk
  ok (Backend.files resolved)

unfoldable pub unresolved : Backend → Outcome (List Intent)
unresolved (Backend.database table) = ok (unresolved_database table)
unresolved (Backend.files disk) = unresolved_file disk

unfoldable pub unresolved_count : Backend → Outcome ℕ
unresolved_count b = do intents ← unresolved b; ok (length intents)
