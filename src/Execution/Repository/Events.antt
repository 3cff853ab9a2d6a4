-- ===== src/Execution/Repository/Events.antt =====
-- `apply_event` of backend/app/transactional_execution_repository.py.
pub mod Effect
pub mod Replay
pub mod Ledger
pub mod Sequence
use ai_trading_platform_mobi.Prelude.{
  ℕ, ◌+◌, ◌-◌, ◌/◌, sym, ap, Bool, true, false, not, ◌&&◌, ◌||◌, Option, none, some, List, [], ◌∷◌,
  ◌++◌, ltb, leb, ◌==◌, if◌then◌else◌, is_empty, any, all, ok, err, ◌>>=◌, ◌>>◌, raise_if, ℤ, pos,
  ◌+ℤ◌, neg, ltb_ℤ, leb_ℤ, eq_ℤ, Text, codes, text_eq, upper, lookup, insert, num,
}
use ai_trading_platform_mobi.Execution.Repository.{
  OrderStatus, Order, Kind, Payload, Event, Scope, Cursor, OutboxRow, Database, RepositoryError,
  Outcome, find_row, insert_row, add_position,
}

-- The normalized kind, from the upper-cased text.
unfoldable pub parse_kind : Text → Option Kind
parse_kind t =
    let k = upper t in
    if text_eq k (codes "PARTIAL_FILL")
    then some Kind.partial_fill
    else (if text_eq k (codes "FILLED")
        then some Kind.fill_complete
        else (if text_eq k (codes "FILL")
            then some Kind.fill
            else (if text_eq k (codes "SUBMITTED")
                then some Kind.submit
                else (if text_eq k (codes "CANCELLED")
                    then some Kind.cancel
                    else (if text_eq k (codes "REJECTED") then some Kind.reject else none)))))

unfoldable pub is_fill : Kind → Bool
is_fill Kind.partial_fill = true
is_fill Kind.fill_complete = true
is_fill Kind.fill = true
is_fill _ = false

ordinal : Kind → ℕ
ordinal Kind.partial_fill = 0
ordinal Kind.fill_complete = 1
ordinal Kind.fill = 2
ordinal Kind.submit = 3
ordinal Kind.cancel = 4
ordinal Kind.reject = 5

abbrev pub opt_eq : Option ℤ → Option ℤ → Bool
opt_eq none none = true
opt_eq none (some _) = false
opt_eq (some _) none = false
opt_eq (some a) (some b) = eq_ℤ a b

-- Two payloads have the same JSON text.
unfoldable pub payload_eq : Payload → Payload → Bool
unfolding ordinal
payload_eq p q =
    eq_ℤ p.broker_account_id q.broker_account_id
    && text_eq p.broker_route q.broker_route
    && opt_eq p.price q.price
    && eq_ℤ p.quantity q.quantity
    && (ordinal p.kind == ordinal q.kind)
    && opt_eq p.event_sequence q.event_sequence

abbrev pub is_negative : Option ℤ → Bool
is_negative none = false
is_negative (some s) = ltb_ℤ s (pos 0)

-- An event whose id is known: it is a replay, or it is bound to something else.
unfoldable pub check_replay : Event → Text → Payload → Database → Outcome (Bool × Database)
check_replay known order_id p db = do
  raise_if
      (not (text_eq known.order_id order_id)
        || not (opt_eq known.payload.event_sequence p.event_sequence))
      RepositoryError.event_bound_to_other_order
  raise_if (not (payload_eq known.payload p)) RepositoryError.conflicting_payload
  ok (false, db)

-- The check against the cursor of the order, where the event has a sequence number.
unfoldable pub check_cursor : Option ℤ → Option Cursor → Outcome (Unit {0})
check_cursor none c = ok tt
check_cursor (some s) none = ok tt
check_cursor (some s) (some c) = do
  raise_if (ltb_ℤ s c.last_sequence) RepositoryError.stale_sequence
  raise_if (eq_ℤ s c.last_sequence) RepositoryError.sequence_consumed

abbrev pub order_scope : Payload → Text → Scope
order_scope p order_id = record {
  account = p.broker_account_id;
  route = p.broker_route;
  name = order_id;
}

abbrev pub symbol_scope : Payload → Order → Scope
symbol_scope p o = record { account = p.broker_account_id; route = p.broker_route; name = o.symbol }

-- `quantity if side == "BUY" else -quantity`
unfoldable pub signed : Text → ℤ → ℤ
signed side quantity = if text_eq side (codes "BUY") then quantity else neg quantity

-- A fill: the order's row and the position move together.
unfoldable pub apply_fill : Text → Order → Payload → Database → Outcome Database
apply_fill order_id o p db =
    let filled = o.filled_quantity +ℤ p.quantity in
    if leb_ℤ p.quantity (pos 0) || ltb_ℤ o.quantity filled
    then err RepositoryError.invalid_fill
    else ok (record db {
      orders =
          insert order_id
            (record o {
              filled_quantity = filled;
              status =
                  if eq_ℤ filled o.quantity
                  then OrderStatus.filled
                  else OrderStatus.partially_filled;
            })
            db.orders;
      positions = add_position (symbol_scope p o) (signed o.side p.quantity) db.positions;
    })

abbrev set_status : Text → Order → OrderStatus → Database → Database
set_status order_id o s db = record db {
  orders = insert order_id (record o { status = s }) db.orders;
}

-- What the event does to the order and to the position, by its kind.
unfoldable pub apply_kind : Kind → Text → Order → Payload → Database → Outcome Database
apply_kind Kind.partial_fill order_id o p db = apply_fill order_id o p db
apply_kind Kind.fill_complete order_id o p db = apply_fill order_id o p db
apply_kind Kind.fill order_id o p db = apply_fill order_id o p db
apply_kind Kind.submit order_id o p db = ok (set_status order_id o OrderStatus.submitted db)
apply_kind Kind.cancel order_id o p db = ok (set_status order_id o OrderStatus.cancelled db)
apply_kind Kind.reject order_id o p db = ok (set_status order_id o OrderStatus.rejected db)

-- `INSERT INTO execution_event_cursors`, which has one row for each order.
unfoldable pub insert_cursor : Text → Scope → Option ℤ → Database → Outcome Database
insert_cursor event_id k none db = ok db
insert_cursor event_id k (some s) db = do
  cursors ← insert_row k (record { last_sequence = s; last_event_id = event_id }) db.cursors
  ok (record db { cursors = cursors })

unfoldable pub store_cursor : Text → Text → Payload → Database → Outcome Database
store_cursor event_id order_id p db =
    insert_cursor event_id (order_scope p order_id) p.event_sequence db

abbrev pub outbox_ids : List OutboxRow → Text → Bool
outbox_ids rows event_id = any (λ r. text_eq event_id r.event_id) rows

-- The rows that record the event: `execution_events`, the cursor and the outbox.
unfoldable pub record_event : Text → Text → Payload → Database → Outcome Database
record_event event_id order_id p db = do
  let logged = record db {
    events = insert event_id (record { order_id = order_id; payload = p }) db.events;
  }
  moved ← store_cursor event_id order_id p logged
  raise_if (outbox_ids moved.outbox event_id) RepositoryError.integrity
  ok (record moved {
    outbox =
        moved.outbox
        ++ record { event_id = event_id; payload = p; published = false; claim = none } ∷ [];
  })

-- An event whose id is new.
unfoldable pub apply_new : Text → Text → Order → Payload → Database → Outcome (Bool × Database)
apply_new event_id order_id o p db = do
  check_cursor p.event_sequence (find_row (order_scope p order_id) db.cursors)
  applied ← apply_kind p.kind order_id o p db
  recorded ← record_event event_id order_id p applied
  ok (true, recorded)

-- `_apply_event_tx`, once the order's row and the kind are known.
unfoldable pub apply_payload : Text → Text → Order → Payload → Database → Outcome (Bool × Database)
apply_payload event_id order_id o p db = elim (lookup event_id db.events) [
  | some known ↦ check_replay known order_id p db
  | none ↦ apply_new event_id order_id o p db
]

or_raise : {A : Type 0} → Option A → RepositoryError → Outcome A
or_raise none e = err e
or_raise (some a) e = ok a

-- The payload of the arguments.
abbrev pub make_payload : ℤ → Text → Option ℤ → ℤ → Option ℤ → Kind → Payload
make_payload account route price quantity sequence kind = record {
  broker_account_id = account;
  broker_route = route;
  price = price;
  quantity = quantity;
  kind = kind;
  event_sequence = sequence;
}

-- `_apply_event_tx`
unfoldable pub apply_event_tx :
    Text → Text → Text → ℤ → Text → Option ℤ → ℤ → Option ℤ → Database → Outcome (Bool × Database)
unfolding or_raise
apply_event_tx event_id order_id kind account route price quantity sequence db = do
  raise_if (is_negative sequence) RepositoryError.negative_sequence
  o ← or_raise (lookup order_id db.orders) RepositoryError.unknown_order
  raise_if (not (eq_ℤ o.broker_account_id account) || not (text_eq o.broker_route route))
      RepositoryError.account_mismatch
  k ← or_raise (parse_kind kind) RepositoryError.unsupported_kind
  apply_payload event_id order_id o (make_payload account route price quantity sequence k) db

-- `apply_event`
unfoldable pub apply_event :
    Text → Text → Text → ℤ → Text → Option ℤ → ℤ → Option ℤ → Database → Outcome (Bool × Database)
apply_event event_id order_id kind account route price quantity sequence db = do
  raise_if (is_empty event_id || is_empty order_id || leb_ℤ account (pos 0) || is_empty route)
      RepositoryError.missing_identity
  apply_event_tx event_id order_id kind account route price quantity sequence db

-- `apply_broker_event`: a live event must have a sequence number.
unfoldable pub apply_broker_event :
    Text → Text → Text → ℤ → Text → Option ℤ → ℤ → ℤ → Database → Outcome (Bool × Database)
apply_broker_event event_id order_id kind account route price quantity sequence db =
    if ltb_ℤ sequence (pos 0)
    then err RepositoryError.negative_sequence
    else apply_event event_id order_id kind account route price quantity (some sequence) db
