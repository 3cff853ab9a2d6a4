-- ===== src/Execution/Repository/Identities.antt =====
-- Broker identities of orders in backend/app/transactional_execution_repository.py.
pub mod Unique
use ai_trading_platform_mobi.Prelude.{
  ◌-◌, ◌/◌, ap, Bool, true, not, ◌&&◌, ◌||◌, Option, none, some, [], ◌∷◌, ltb, leb, if◌then◌else◌,
  is_empty, ok, err, ◌>>=◌, ◌>>◌, raise_if, ℤ, pos, neg, ltb_ℤ, leb_ℤ, eq_ℤ, Text, text_eq, Dict,
  lookup, contains, insert, num,
}
use ai_trading_platform_mobi.Execution.Repository.{
  Order, OrderIdentity, Database, RepositoryError, Outcome,
}
use ai_trading_platform_mobi.Execution.Repository.Events.{
  apply_event_tx, apply_event, apply_broker_event,
}

unfoldable pub identity_eq : OrderIdentity → OrderIdentity → Bool
identity_eq a b =
    text_eq a.broker b.broker
    && text_eq a.broker_order_id b.broker_order_id
    && eq_ℤ a.broker_account_id b.broker_account_id
    && text_eq a.broker_route b.broker_route

-- `SELECT client_order_id ... WHERE broker, broker_order_id, account and route`
unfoldable pub find_client : OrderIdentity → Dict OrderIdentity → Option Text
find_client i [] = none
find_client i ((c, j) ∷ rows) = if identity_eq i j then some c else find_client i rows

-- The client's row, if there is one, is this identity.
abbrev pub client_fits : OrderIdentity → Option OrderIdentity → Bool
client_fits i none = true
client_fits i (some j) = identity_eq j i

-- The broker's order, if it has a row, is this client's.
abbrev pub broker_fits : Text → Option Text → Bool
broker_fits client none = true
broker_fits client (some c) = text_eq c client

-- `INSERT OR IGNORE`
unfoldable pub insert_identity : Text → OrderIdentity → Database → Database
insert_identity client i db =
    if contains client db.identities
    then db
    else record db { identities = insert client i db.identities }

-- `_bind_identity_tx`, once the order's row is known.
unfoldable pub bind_row : Text → OrderIdentity → Order → Database → Outcome Database
bind_row client i o db = do
  raise_if
      (not (eq_ℤ o.broker_account_id i.broker_account_id)
        || not (text_eq o.broker_route i.broker_route))
      RepositoryError.identity_mismatch
  raise_if (not (client_fits i (lookup client db.identities))) RepositoryError.client_already_bound
  raise_if (not (broker_fits client (find_client i db.identities)))
      RepositoryError.broker_already_bound
  ok (insert_identity client i db)

unfoldable pub order_row : Text → Database → Outcome Order
order_row id db = elim (lookup id db.orders) [
  | none ↦ err RepositoryError.unknown_order
  | some o ↦ ok o
]

-- `bind_identity`
unfoldable pub bind_identity : Text → OrderIdentity → Database → Outcome Database
bind_identity client i db = do
  raise_if (is_empty client || is_empty i.broker || is_empty i.broker_order_id)
      RepositoryError.missing_identity
  raise_if (leb_ℤ i.broker_account_id (pos 0) || is_empty i.broker_route)
      RepositoryError.missing_identity
  o ← order_row client db
  bind_row client i o db

-- `get_identity_by_broker`: the client order that has the identity.
unfoldable pub client_of_broker : OrderIdentity → Database → Option Text
client_of_broker i db = find_client i db.identities

-- `bind_identity_and_apply_event`: both in one transaction.
unfoldable pub bind_and_apply :
    Text
    → OrderIdentity
    → Text
    → Text
    → ℤ
    → Text
    → Option ℤ
    → ℤ
    → Option ℤ
    → Database
    → Outcome (Bool × Database)
bind_and_apply client i event_id kind account route price quantity sequence db = do
  raise_if (not (eq_ℤ i.broker_account_id account) || not (text_eq i.broker_route route))
      RepositoryError.identity_mismatch
  bound ← bind_identity client i db
  apply_event_tx event_id client kind account route price quantity sequence bound

-- `bind_identity_and_apply_broker_event`: a live event must have a sequence number.
unfoldable pub bind_and_apply_live :
    Text
    → OrderIdentity
    → Text
    → Text
    → ℤ
    → Text
    → Option ℤ
    → ℤ
    → ℤ
    → Database
    → Outcome (Bool × Database)
bind_and_apply_live client i event_id kind account route price quantity sequence db =
    if ltb_ℤ sequence (pos 0)
    then err RepositoryError.negative_sequence
    else bind_and_apply client i event_id kind account route price quantity (some sequence) db
