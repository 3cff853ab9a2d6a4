-- ===== src/Orders/Reconciler.antt =====
-- OrderReconciler of backend/app/order_reconciliation.py: what a broker says of its orders and how the
-- local order of each is found and checked. An account is the text of its number, and the two orders
-- of a lifecycle are the same where their ids are.
pub mod Loop
pub mod Pending
pub mod Found
pub mod Books
pub mod Answers
pub mod Foreign
pub mod Others
pub mod Waiting
mod Tests
use ai_trading_platform_mobi.Prelude.{
  ◌+◌, ◌-◌, ◌/◌, sym, ap, Bool, true, false, not, ◌&&◌, ◌||◌, Option, none, some, List, [], ◌∷◌,
  ◌++◌, ltb, if◌then◌else◌, is_empty, any, keep, Result, ok, err, ℤ, ◌-ℤ◌, abs, Text, text_eq,
  strip, upper, lookup, num, values, Fraction, den,
}
use ai_trading_platform_mobi.Orders.Lifecycle.{
  OrderStatus, OrderRecord, OrderLifecycle, LifecycleError,
}
use ai_trading_platform_mobi.Orders.Lifecycle.Positions.{opt_text_eq}

pub record BrokerOrder : Type 0 where
  pub order_id : Text
  pub symbol : Text
  pub side : Text
  pub quantity : ℤ
  pub status : OrderStatus
  pub filled_quantity : ℤ
  pub average_fill_price : Option Fraction
  pub client_order_id : Option Text
  pub broker_account_id : Option Text
  pub broker_route : Option Text

pub data ReconciliationAction : Type 0 where
  noop create update alert pending : ReconciliationAction

-- The reasons of an event. `ambiguous_identity` is AmbiguousBrokerOrderIdentity, and
-- `update_rejected` and `resolution_rejected` carry what was raised.
pub data Reason : Type 0 where
  duplicate_broker_update : Reason
  ambiguous_identity : Reason
  client_order_id_collision : Reason
  account_identity_missing : Reason
  account_id_missing : Reason
  account_id_mismatch : Reason
  route_missing : Reason
  route_mismatch : Reason
  symbol_mismatch : Reason
  side_mismatch : Reason
  quantity_mismatch : Reason
  client_order_id_mismatch : Reason
  update_rejected : LifecycleError → Reason
  resolution_rejected : LifecycleError → Reason
  missing_local_order : Reason
  already_in_sync : Reason
  local_state_reconciled : Reason
  pending_order_resolved : Reason
  broker_order_not_found : Reason

pub record ReconciliationEvent : Type 0 where
  pub order_id : Text
  pub action : ReconciliationAction
  pub reason : Reason

abbrev pub event : Text → ReconciliationAction → Reason → ReconciliationEvent
event id action reason = record { order_id = id; action = action; reason = reason }

-- A text that is there and is not empty
abbrev pub is_given : Option Text → Bool
is_given none = false
is_given (some t) = not (is_empty t)

unfoldable pub account_id_error : Option Text → Option Text → Option Reason
account_id_error none remote = none
account_id_error (some _) none = some Reason.account_id_missing
account_id_error (some l) (some r) =
    if text_eq (strip l) (strip r) then none else some Reason.account_id_mismatch

unfoldable pub route_error : Option Text → Option Text → Option Reason
route_error none remote = none
route_error (some l) remote =
    if not (is_given remote)
    then some Reason.route_missing
    else if opt_text_eq (some l) remote
    then none
    else some Reason.route_mismatch

-- The first of two errors
abbrev pub first_error : Option Reason → Option Reason → Option Reason
first_error (some reason) next = some reason
first_error none next = next

-- `_validate_account_identity`
unfoldable pub account_error : OrderRecord → BrokerOrder → Option Reason
unfolding account_id_error route_error
account_error o remote =
    first_error (account_id_error o.broker_account_id remote.broker_account_id)
      (route_error o.broker_route remote.broker_route)

-- The remote has a client order id, and it is not the one given.
abbrev pub is_other_client : Option Text → Text → Bool
is_other_client none id = false
is_other_client (some client) id = not (is_empty client) && not (text_eq id client)

-- `_validate_identity`, with the tolerance 1e-9 of the quantities
unfoldable pub identity_error : OrderRecord → BrokerOrder → Option Reason
identity_error o remote = first_error (account_error o remote) (
    if not (text_eq (upper o.symbol) (upper remote.symbol))
    then some Reason.symbol_mismatch
    else if not (text_eq (upper o.side) (upper remote.side))
    then some Reason.side_mismatch
    else if ltb 1 (abs (o.quantity -ℤ remote.quantity))
    then some Reason.quantity_mismatch
    else if is_other_client remote.client_order_id o.order_id
    then some Reason.client_order_id_mismatch
    else none)

-- The remote names the order by the broker's id or by the client's.
abbrev pub is_client : Option Text → Text → Bool
is_client none id = false
is_client (some client) id = not (is_empty client) && text_eq id client

unfoldable pub names : BrokerOrder → OrderRecord → Bool
names remote o =
    opt_text_eq o.broker_order_id (some remote.order_id)
    || is_client remote.client_order_id o.order_id

-- The loop of `_find_local` over the orders, onto the candidates so far
unfoldable pub add_candidates : BrokerOrder → List OrderRecord → List OrderRecord → List OrderRecord
add_candidates remote found [] = found
add_candidates remote found (o ∷ orders) =
    if names remote o && not (any (λ c. text_eq c.order_id o.order_id) found)
    then add_candidates remote (found ++ (o ∷ [])) orders
    else add_candidates remote found orders

abbrev pub direct : Option OrderRecord → List OrderRecord
direct none = []
direct (some o) = o ∷ []

unfoldable pub candidates : BrokerOrder → OrderLifecycle → List OrderRecord
candidates remote s =
    add_candidates remote (direct (lookup remote.order_id s.orders)) (values s.orders)

pub data AmbiguousBrokerOrderIdentity : Type 0 where
  multiple_local_orders : AmbiguousBrokerOrderIdentity

abbrev pub is_absent : Option Reason → Bool
is_absent none = true
is_absent (some _) = false

-- The one valid candidate, or the first candidate where none is valid
abbrev pub pick :
    List OrderRecord → List OrderRecord → Result AmbiguousBrokerOrderIdentity (Option OrderRecord)
pick (_ ∷ _ ∷ _) found = err AmbiguousBrokerOrderIdentity.multiple_local_orders
pick (o ∷ []) found = ok (some o)
pick [] (o ∷ _) = ok (some o)
pick [] [] = ok none

-- `_find_local`
unfoldable pub find_local :
    BrokerOrder → OrderLifecycle → Result AmbiguousBrokerOrderIdentity (Option OrderRecord)
find_local remote s =
    pick (keep (λ o. is_absent (account_error o remote)) (candidates remote s))
      (candidates remote s)
