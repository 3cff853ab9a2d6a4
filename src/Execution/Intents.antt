-- ===== src/Execution/Intents.antt =====
-- Submission intents, from backend/app/submission_intent_store.py: what the store keeps, and its
-- operations on a database table. Intents.Files has the JSON file, Intents.Backends the methods that
-- choose between the two.
pub mod Files
pub mod Backends
pub mod Calls
pub mod Kept
pub mod History
pub mod Recovery
mod Tests
use ai_trading_platform_mobi.Prelude.{
  ℕ, zero, suc, ◌+◌, ◌-◌, ◌*◌, ◌/◌, sym, ap, Bool, false, not, Option, none, some, List, [], ◌∷◌,
  if◌then◌else◌, is_some, is_empty, any, all, keep, Result, ok, err, ◌>>=◌, ◌>>◌, raise_if, ℤ, pos,
  negsuc, neg, Text, codes, text_eq, strip, upper, Dict, lookup, insert, num, take, values, den,
}

-- `float(quantity)` is an integer in units of 1e-9; an instant is a number.
pub record Intent : Type 0 where
  pub client_order_id : Text
  pub route : Text
  pub account_id : Option Text
  pub symbol : Text
  pub side : Text
  pub quantity : ℤ
  pub request_fingerprint : Text
  pub created_at : ℕ
  pub resolved_at : Option ℕ
  pub broker_order_id : Option Text
  pub broker_status : Option Text
  pub recovered_at : Option ℕ

-- The arguments of `create`.
pub record Request : Type 0 where
  pub client_order_id : Text
  pub route : Text
  pub account_id : Option Text
  pub symbol : Text
  pub side : Text
  pub quantity : ℤ
  pub request_fingerprint : Text

pub data IntentError : Type 0 where
  identity_required : IntentError
  quantity_not_positive : IntentError
  fingerprint_required : IntentError
  fingerprint_mismatch : IntentError
  already_resolved : IntentError
  unknown_order : IntentError
  immutable : IntentError
  bound_to_other_broker_order : IntentError
  not_bound : IntentError
  broker_order_required : IntentError
  unsupported_status : IntentError
  invalid_persisted_state : IntentError

abbrev pub Outcome : Type 0 → Type 0
Outcome A = Result IntentError A

-- The intents by client order id.
abbrev pub Store : Type 0
Store = Dict Intent

-- `_ALLOWED_BROKER_STATUSES`
abbrev pub allowed_statuses : List Text
allowed_statuses =
    codes "NEW"
    ∷ codes "PARTIALLY_FILLED"
    ∷ codes "FILLED"
    ∷ codes "REJECTED"
    ∷ codes "CANCELLED"
    ∷ []

-- `_validate_broker_status`
unfoldable pub validate_broker_status : Text → Outcome Text
validate_broker_status value =
    let status = upper (strip value) in
    if any (text_eq status) allowed_statuses then ok status else err IntentError.unsupported_status

-- `_validate_replay`
abbrev pub validate_replay : Intent → Text → Outcome Intent
validate_replay existing fingerprint =
    if text_eq existing.request_fingerprint fingerprint
    then ok existing
    else err IntentError.fingerprint_mismatch

-- What `create` does with an intent that is there: one that is resolved is not used again.
unfoldable pub replay_on : Option ℕ → Intent → Text → Outcome Intent
replay_on none existing fingerprint = validate_replay existing fingerprint
replay_on (some _) existing fingerprint = err IntentError.already_resolved

abbrev pub replay : Intent → Text → Outcome Intent
replay existing fingerprint = replay_on existing.resolved_at existing fingerprint

abbrev pub new_intent : Request → ℕ → Intent
new_intent r now = record {
  client_order_id = r.client_order_id;
  route = r.route;
  account_id = r.account_id;
  symbol = upper r.symbol;
  side = upper r.side;
  quantity = r.quantity;
  request_fingerprint = r.request_fingerprint;
  created_at = now;
  resolved_at = none;
  broker_order_id = none;
  broker_status = none;
  recovered_at = none;
}

-- What the column `quantity`, a Numeric(20, 6), keeps of a quantity in units of 1e-9: PostgreSQL rounds
-- to six places, halves away from zero.
unfoldable pub to_quantity_column : ℤ → ℤ
to_quantity_column (pos n) = pos ((n + 500) / 1000 * 1000)
to_quantity_column (negsuc n) = neg (pos ((suc n + 500) / 1000 * 1000))

-- The row of a new intent
abbrev pub new_row : Request → ℕ → Intent
new_row r now = record (new_intent r now) { quantity = to_quantity_column r.quantity }

-- `_create_database`: `seen` is the table as the transaction read it, and `table` the one that the
-- insertion meets, where the primary key may have been taken meanwhile. The intent that is returned has
-- the quantity as it was given, and the row as the column rounds it.
unfoldable pub create_database : Request → ℕ → Store → Store → Outcome (Intent × Store)
create_database r now seen table = elim (lookup r.client_order_id seen) [
  | some existing ↦ replay existing r.request_fingerprint >>= λ i. ok (i, table)
  | none ↦ elim (lookup r.client_order_id table) [
    | some existing ↦ replay existing r.request_fingerprint >>= λ i. ok (i, table)
    | none ↦ ok (new_intent r now, insert r.client_order_id (new_row r now) table)
  ]
]

abbrev pub is_resolved : Intent → Bool
is_resolved i = is_some i.resolved_at

-- `_get_database`
unfoldable pub get_database : Text → Store → Option Intent
get_database client_order_id table = elim (lookup client_order_id table) [
  | none ↦ none
  | some i ↦ if is_resolved i then none else some i
]

-- `record.broker_order_id is not None and record.broker_order_id != broker_order_id`
abbrev pub is_bound_to_other : Option Text → Text → Bool
is_bound_to_other none b = false
is_bound_to_other (some a) b = not (text_eq a b)

abbrev pub bind_broker : Intent → Text → Text → ℕ → Intent
bind_broker i b status now = record i {
  broker_order_id = some b;
  broker_status = some status;
  recovered_at = some now;
}

-- `_record_broker_database`
unfoldable pub record_broker_database : Text → Text → Text → ℕ → Store → Outcome Store
record_broker_database client_order_id broker_order_id broker_status now table = do
  let b = strip broker_order_id
  raise_if (is_empty b) IntentError.broker_order_required
  status ← validate_broker_status broker_status
  elim (lookup client_order_id table) [
    | none ↦ err IntentError.unknown_order
    | some i ↦
        if is_resolved i
        then err IntentError.immutable
        else (if is_bound_to_other i.broker_order_id b
            then err IntentError.bound_to_other_broker_order
            else ok (insert client_order_id (bind_broker i b status now) table))
  ]

-- `_resolve_database`
unfoldable pub resolve_database : Text → ℕ → Store → Outcome Store
resolve_database client_order_id now table = elim (lookup client_order_id table) [
  | none ↦ err IntentError.unknown_order
  | some i ↦
      if not (is_some i.broker_order_id)
      then err IntentError.not_bound
      else (if is_resolved i
          then ok table
          else ok (insert client_order_id (record i { resolved_at = some now }) table))
]

-- The values of a table that are not resolved.
unfoldable pub unresolved_database : Store → List Intent
unresolved_database [] = []
unresolved_database ((_, i) ∷ table) =
    if is_resolved i then unresolved_database table else i ∷ unresolved_database table
