-- ===== src/Orders/Identities.antt =====
-- OrderIdentityRegistry of backend/app/order_identity_registry.py: the table that maps the orders of
-- clients to those of brokers. `client_order_id` is its key and `broker_order_id` is UNIQUE.
pub mod Binding
mod Tests
use ai_trading_platform_mobi.Prelude.{
  ◌+◌, ◌-◌, ◌/◌, ap, Bool, true, false, not, ◌&&◌, ◌||◌, Option, none, some, List, [], ◌∷◌, ◌++◌,
  map, leb, if◌then◌else◌, is_some, is_empty, any, Result, ok, ◌>>=◌, ◌>>◌, raise_if, ℤ, pos, leb_ℤ,
  eq_ℤ, Text, text_eq, insert, den, first?,
}
use ai_trading_platform_mobi.Orders.Lifecycle.Positions.{opt_text_eq}

pub record OrderIdentity : Type 0 where
  pub client_order_id : Text
  pub broker : Text
  pub broker_order_id : Text
  pub broker_account_id : Option ℤ
  pub broker_route : Option Text

pub data IdentityError : Type 0 where
  ids_required : IdentityError
  account_not_positive : IdentityError
  route_required : IdentityError
  account_required : IdentityError
  client_bound : IdentityError
  broker_order_bound : IdentityError

abbrev pub opt_int_eq : Option ℤ → Option ℤ → Bool
opt_int_eq none none = true
opt_int_eq none (some _) = false
opt_int_eq (some _) none = false
opt_int_eq (some a) (some b) = eq_ℤ a b

abbrev pub is_route : Option Text → Bool
is_route none = false
is_route (some r) = not (is_empty r)

abbrev pub is_not_positive : Option ℤ → Bool
is_not_positive none = false
is_not_positive (some a) = leb_ℤ a (pos 0)

-- `_validate_scope`
unfoldable pub validate_scope : OrderIdentity → Result IdentityError (Unit {0})
validate_scope i = do
  raise_if (is_not_positive i.broker_account_id) IdentityError.account_not_positive
  raise_if (is_some i.broker_account_id && not (is_route i.broker_route))
      IdentityError.route_required
  raise_if (is_route i.broker_route && not (is_some i.broker_account_id))
      IdentityError.account_required

abbrev pub same_scope : OrderIdentity → OrderIdentity → Bool
same_scope i j =
    opt_int_eq i.broker_account_id j.broker_account_id && opt_text_eq i.broker_route j.broker_route

-- The rows of a client's order and of a broker's order
abbrev pub is_client_row : Text → OrderIdentity → Bool
is_client_row id row = text_eq row.client_order_id id

abbrev pub is_broker_row : Text → Text → OrderIdentity → Bool
is_broker_row broker id row = text_eq row.broker broker && text_eq row.broker_order_id id

-- The row of the client says something else.
abbrev pub differs_for_client : OrderIdentity → Option OrderIdentity → Bool
differs_for_client i none = false
differs_for_client i (some row) = not (
    text_eq row.broker i.broker
    && text_eq row.broker_order_id i.broker_order_id
    && same_scope row i)

-- The row of the broker's order says something else.
abbrev pub differs_for_broker : OrderIdentity → Option OrderIdentity → Bool
differs_for_broker i none = false
differs_for_broker i (some row) =
    not (text_eq row.client_order_id i.client_order_id && same_scope row i)

-- A row that the constraints of the table exclude beside `i`
abbrev pub conflicts : OrderIdentity → OrderIdentity → Bool
conflicts i row =
    text_eq row.client_order_id i.client_order_id || text_eq row.broker_order_id i.broker_order_id

-- `INSERT OR IGNORE`
unfoldable pub insert_or_ignore : OrderIdentity → List OrderIdentity → List OrderIdentity
insert_or_ignore i rows = if any (conflicts i) rows then rows else rows ++ (i ∷ [])

-- `bind`
unfoldable pub bind : OrderIdentity → List OrderIdentity → Result IdentityError (List OrderIdentity)
bind i rows = do
  raise_if (is_empty i.client_order_id || is_empty i.broker || is_empty i.broker_order_id)
      IdentityError.ids_required
  validate_scope i
  raise_if (differs_for_client i (first? (is_client_row i.client_order_id) rows))
      IdentityError.client_bound
  raise_if (differs_for_broker i (first? (is_broker_row i.broker i.broker_order_id) rows))
      IdentityError.broker_order_bound
  ok (insert_or_ignore i rows)

-- A row that is asked for with an account has that account and route.
abbrev pub scoped : Option ℤ → Option Text → Option OrderIdentity → Option OrderIdentity
scoped account route none = none
scoped account route (some i) =
    if is_some account
      && (not (opt_int_eq i.broker_account_id account) || not (opt_text_eq i.broker_route route))
    then none
    else some i

-- `by_client`
unfoldable pub by_client : Text → Option ℤ → Option Text → List OrderIdentity → Option OrderIdentity
by_client id account route rows = scoped account route (first? (is_client_row id) rows)

-- `by_broker`
unfoldable pub by_broker :
    Text → Text → Option ℤ → Option Text → List OrderIdentity → Option OrderIdentity
by_broker broker id account route rows =
    scoped account route (first? (is_broker_row broker id) rows)
