-- ===== src/Execution/Repository.antt =====
-- `TransactionalExecutionRepository`, backend/app/transactional_execution_repository.py: its tables.
-- A table keyed by a text is a dictionary, the others are lists of rows. Quantities and prices
-- count units of 1e-9, times are instants on one clock. Each public method is one transaction: an
-- exception rolls back, so a call either returns a new database or an error.
pub mod Scopes
pub mod Events
pub mod Identities
pub mod Submissions
pub mod Outbox
mod Tests
use ai_trading_platform_mobi.Prelude.{
  ℕ, ◌+◌, ◌-◌, ◌/◌, sym, ap, Bool, not, ◌&&◌, ◌||◌, Option, none, some, List, [], ◌∷◌, leb,
  if◌then◌else◌, is_some, is_empty, all, Result, ok, err, ◌>>=◌, ◌>>◌, raise_if, ℤ, pos, ◌+ℤ◌, neg,
  leb_ℤ, eq_ℤ, Text, text_eq, upper, Dict, lookup, contains, insert,
}

-- `OrderStatus` of backend/app/execution_lifecycle.py.
pub data OrderStatus : Type 0 where
  created risk_approved submitted partially_filled filled cancelled rejected closed : OrderStatus

-- A row of `orders`.
pub record Order : Type 0 where
  pub symbol : Text
  pub side : Text
  pub quantity : ℤ
  pub filled_quantity : ℤ
  pub status : OrderStatus
  pub broker_account_id : ℤ
  pub broker_route : Text

-- The kinds of event that the repository supports.
pub data Kind : Type 0 where
  partial_fill fill_complete fill submit cancel reject : Kind

-- The payload that is stored as JSON with sorted keys.
pub record Payload : Type 0 where
  pub broker_account_id : ℤ
  pub broker_route : Text
  pub price : Option ℤ
  pub quantity : ℤ
  pub kind : Kind
  pub event_sequence : Option ℤ

-- A row of `execution_events`, without its key.
pub record Event : Type 0 where
  pub order_id : Text
  pub payload : Payload

-- The key of `positions` and of `execution_event_cursors`: an account, a route, and a symbol or an
-- order id.
pub record Scope : Type 0 where
  pub account : ℤ
  pub route : Text
  pub name : Text

unfoldable pub scope_eq : Scope → Scope → Bool
scope_eq a b = eq_ℤ a.account b.account && text_eq a.route b.route && text_eq a.name b.name

pub record Cursor : Type 0 where
  pub last_sequence : ℤ
  pub last_event_id : Text

-- A row of `execution_outbox`; its id is its place in the list, from 1.
pub record OutboxRow : Type 0 where
  pub event_id : Text
  pub payload : Payload
  pub published : Bool
  pub claim : Option (Text × ℕ)

pub record OrderIdentity : Type 0 where
  pub broker : Text
  pub broker_order_id : Text
  pub broker_account_id : ℤ
  pub broker_route : Text

-- A row of `order_submissions`, without its key and its times; `PENDING` has no broker order id.
pub record Submission : Type 0 where
  pub client_order_id : Text
  pub broker_account_id : ℤ
  pub broker_route : Text
  pub submitted : Bool
  pub broker_order_id : Option Text

pub record Database : Type 0 where
  pub orders : Dict Order
  pub positions : List (Scope × ℤ)
  pub events : Dict Event
  pub cursors : List (Scope × Cursor)
  pub outbox : List OutboxRow
  pub identities : Dict OrderIdentity
  pub submissions : Dict Submission

pub data RepositoryError : Type 0 where
  missing_identity negative_sequence unknown_order account_mismatch unsupported_kind
        event_bound_to_other_order conflicting_payload stale_sequence sequence_consumed invalid_fill
        integrity identity_mismatch client_already_bound broker_already_bound other_order_scope
        unknown_submission bound_to_other_broker_order bad_claim claim_not_owned invalid_order :
      RepositoryError

abbrev pub Outcome : Type 0 → Type 0
Outcome A = Result RepositoryError A

module _ {V : Type 0} where
  -- `SELECT ... WHERE` on a key of three columns
  unfoldable pub find_row : Scope → List (Scope × V) → Option V
  find_row k [] = none
  find_row k ((j, v) ∷ rows) = if scope_eq k j then some v else find_row k rows

  -- `INSERT` on a primary key: a second row with the key is an integrity error.
  unfoldable pub insert_row : Scope → V → List (Scope × V) → Outcome (List (Scope × V))
  insert_row k v rows =
      if is_some (find_row k rows) then err RepositoryError.integrity else ok ((k, v) ∷ rows)

-- `INSERT ... ON CONFLICT DO UPDATE SET quantity = quantity + excluded.quantity`
unfoldable pub add_position : Scope → ℤ → List (Scope × ℤ) → List (Scope × ℤ)
add_position k d [] = (k, d) ∷ []
add_position k d ((j, v) ∷ rows) =
    if scope_eq k j then (j, v +ℤ d) ∷ rows else (j, v) ∷ add_position k d rows

-- `create_order`, with the id that `uuid4` gives.
unfoldable pub create_order : Text → Text → Text → ℤ → ℤ → Text → Database → Outcome Database
create_order order_id symbol side quantity account route db = do
  raise_if (leb_ℤ quantity (pos 0) || leb_ℤ account (pos 0) || is_empty route)
      RepositoryError.invalid_order
  raise_if (contains order_id db.orders) RepositoryError.integrity
  ok (record db {
    orders =
        insert order_id
          (record {
            symbol = upper symbol;
            side = upper side;
            quantity = quantity;
            filled_quantity = pos 0;
            status = OrderStatus.created;
            broker_account_id = account;
            broker_route = route;
          })
          db.orders;
  })

-- `get_order`
unfoldable pub get_order : Text → Database → Option Order
get_order order_id db = if is_empty order_id then none else lookup order_id db.orders
