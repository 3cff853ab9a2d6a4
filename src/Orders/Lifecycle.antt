-- ===== src/Orders/Lifecycle.antt =====
-- OrderLifecycle of backend/app/order_lifecycle.py: the orders of one process, their state machines
-- and the positions that their fills make. Quantities are integers and prices fractions, both in
-- units of 1e-9. A method that raises leaves what it has changed before, so it gives a state also
-- then. The audit log and the times of an update are left out.
pub mod Positions
pub mod Updates
pub mod Effect
pub mod Closing
pub mod Moves
pub mod Books
pub mod Invariant
pub mod Calls
pub mod Rejected
pub mod Known
pub mod Frame
mod Tests
use ai_trading_platform_mobi.Prelude.{
  ℕ, ◌-◌, ◌/◌, min, sym, ap, Bool, true, false, not, ◌||◌, Option, none, some, List, [], leb, ◌==◌,
  if◌then◌else◌, is_empty, any, all, Result, ok, err, ◌>>=◌, ◌>>◌, raise_if, ℤ, pos, leb_ℤ, Text,
  codes, text_eq, strip, upper, Dict, lookup, contains, insert, Value, finite, Fraction, whole,
}
use ai_trading_platform_mobi.Orders.StateMachine.{
  OrderState, OrderStateMachine, InvalidOrderTransition, transition, terminal,
}

pub data OrderStatus : Type 0 where
  created submission_intent submitted opened partially_filled filled cancelled rejected
        pending_reconciliation :
      OrderStatus

ordinal : OrderStatus → ℕ
ordinal OrderStatus.created = 0
ordinal OrderStatus.submission_intent = 1
ordinal OrderStatus.submitted = 2
ordinal OrderStatus.opened = 3
ordinal OrderStatus.partially_filled = 4
ordinal OrderStatus.filled = 5
ordinal OrderStatus.cancelled = 6
ordinal OrderStatus.rejected = 7
ordinal OrderStatus.pending_reconciliation = 8

unfoldable pub status_eq : OrderStatus → OrderStatus → Bool
unfolding ordinal
status_eq a b = ordinal a == ordinal b

-- The fields of an OrderRecord that the methods read or write.
pub record OrderRecord : Type 0 where
  pub order_id : Text
  pub symbol : Text
  pub side : Text
  pub quantity : ℤ
  pub status : OrderStatus
  pub filled_quantity : ℤ
  pub average_fill_price : Option Fraction
  pub applied_fill_quantity : ℤ
  pub applied_fill_value : Fraction
  pub broker_order_id : Option Text
  pub owner_user_id : Option ℤ
  pub broker_account_id : Option Text
  pub broker_route : Option Text

-- A position that is there is OPEN.
pub record PositionRecord : Type 0 where
  pub symbol : Text
  pub side : Text
  pub quantity : ℤ
  pub entry_price : Fraction
  pub exit_price : Option Fraction
  pub realized_pnl : Fraction
  pub broker_account_id : Option Text
  pub broker_route : Option Text

-- `_STATUS_TO_STATE`
unfoldable pub state_of : OrderStatus → OrderState
state_of OrderStatus.created = OrderState.created
state_of OrderStatus.submission_intent = OrderState.submitting
state_of OrderStatus.submitted = OrderState.opened
state_of OrderStatus.opened = OrderState.opened
state_of OrderStatus.partially_filled = OrderState.partially_filled
state_of OrderStatus.filled = OrderState.filled
state_of OrderStatus.cancelled = OrderState.cancelled
state_of OrderStatus.rejected = OrderState.rejected
state_of OrderStatus.pending_reconciliation = OrderState.pending_reconciliation

pub record OrderLifecycle : Type 0 where
  pub orders : Dict OrderRecord
  pub positions : Dict PositionRecord
  pub realized_pnl_by_symbol : Dict Fraction
  pub realized_pnl_by_day : Dict Fraction
  pub applied_fill_ids : List Text
  pub machines : Dict OrderStateMachine

abbrev pub empty_lifecycle : OrderLifecycle
empty_lifecycle = record {
  orders = [];
  positions = [];
  realized_pnl_by_symbol = [];
  realized_pnl_by_day = [];
  applied_fill_ids = [];
  machines = [];
}

-- `unknown_order` is a KeyError, the others are ValueErrors.
pub data LifecycleError : Type 0 where
  unknown_order : LifecycleError
  order_id_required : LifecycleError
  duplicate_order : LifecycleError
  symbol_required : LifecycleError
  invalid_side : LifecycleError
  invalid_quantity : LifecycleError
  invalid_owner : LifecycleError
  empty_account : LifecycleError
  empty_route : LifecycleError
  terminal_order : LifecycleError
  invalid_transition : LifecycleError
  fill_not_positive : LifecycleError
  price_not_positive : LifecycleError
  invalid_fill : LifecycleError
  moves_backwards : LifecycleError
  price_changed : LifecycleError
  price_required : LifecycleError
  value_backwards : LifecycleError
  context_mismatch : LifecycleError

-- A KeyError
unfoldable pub is_key_error : LifecycleError → Bool
is_key_error LifecycleError.unknown_order = true
is_key_error _ = false

abbrev pub Outcome : Type 0 → Type 0
Outcome A = Result LifecycleError A

abbrev pub put_order : Text → OrderRecord → OrderLifecycle → OrderLifecycle
put_order id o s = record s { orders = insert id o s.orders }

abbrev pub opt_strip : Option Text → Option Text
opt_strip none = none
opt_strip (some t) = some (strip t)

abbrev pub is_blank_text : Option Text → Bool
is_blank_text none = false
is_blank_text (some t) = is_empty (strip t)

abbrev pub is_bad_owner : Option ℤ → Bool
is_bad_owner none = false
is_bad_owner (some n) = leb_ℤ n (pos 0)

abbrev pub given_quantity : Option ℤ → Outcome ℤ
given_quantity none = err LifecycleError.invalid_quantity
given_quantity (some q) = if leb_ℤ q (pos 0) then err LifecycleError.invalid_quantity else ok q

-- A new order.
abbrev pub new_order : Text → Text → Text → ℤ → Option ℤ → Option Text → Option Text → OrderRecord
new_order id symbol side quantity owner account route = record {
  order_id = id;
  symbol = symbol;
  side = side;
  quantity = quantity;
  status = OrderStatus.created;
  filled_quantity = pos 0;
  average_fill_price = none;
  applied_fill_quantity = pos 0;
  applied_fill_value = whole (pos 0);
  broker_order_id = none;
  owner_user_id = owner;
  broker_account_id = account;
  broker_route = route;
}

-- `create`, with the metadata that it checks. It raises before it changes anything.
unfoldable pub create :
    Text
    → Text
    → Text
    → Value
    → Option ℤ
    → Option Text
    → Option Text
    → OrderLifecycle
    → Outcome OrderLifecycle
create id symbol side quantity owner account route s = do
  raise_if (is_empty (strip id)) LifecycleError.order_id_required
  raise_if (contains id s.orders) LifecycleError.duplicate_order
  let normalized_symbol = upper (strip symbol)
  raise_if (is_empty normalized_symbol) LifecycleError.symbol_required
  let normalized_side = upper (strip side)
  raise_if (not (text_eq normalized_side (codes "BUY") || text_eq normalized_side (codes "SELL")))
      LifecycleError.invalid_side
  normalized_quantity ← given_quantity (finite quantity)
  raise_if (is_bad_owner owner) LifecycleError.invalid_owner
  raise_if (is_blank_text account) LifecycleError.empty_account
  raise_if (is_blank_text route) LifecycleError.empty_route
  ok (record s {
    orders =
        insert id
          (new_order id normalized_symbol normalized_side normalized_quantity owner
            (opt_strip account) (opt_strip route))
          s.orders;
    machines = insert id (record { state = OrderState.created }) s.machines;
  })

-- A machine that has turned, or its InvalidOrderTransition as a ValueError
abbrev pub store_machine :
    Text → OrderLifecycle → Result InvalidOrderTransition OrderStateMachine → Outcome OrderLifecycle
store_machine id s (err _) = err LifecycleError.invalid_transition
store_machine id s (ok m) = ok (record s { machines = insert id m s.machines })

abbrev pub turn_machine :
    Text → OrderStatus → OrderLifecycle → Option OrderStateMachine → Outcome OrderLifecycle
turn_machine id status s none = err LifecycleError.unknown_order
turn_machine id status s (some m) = store_machine id s (transition m (state_of status))

-- `_transition_machine`: the status moves the machine of an order, which raises before it changes.
unfoldable pub transition_machine : Text → OrderStatus → OrderLifecycle → Outcome OrderLifecycle
transition_machine id status s = turn_machine id status s (lookup id s.machines)

unfoldable pub is_terminal : OrderStatus → Bool
is_terminal OrderStatus.filled = true
is_terminal OrderStatus.cancelled = true
is_terminal OrderStatus.rejected = true
is_terminal _ = false

abbrev pub mark_order : Text → OrderLifecycle → Option OrderRecord → Outcome OrderLifecycle
mark_order id s none = err LifecycleError.unknown_order
mark_order id s (some o) = if is_terminal o.status then err LifecycleError.terminal_order else (do
  moved ← transition_machine id OrderStatus.pending_reconciliation s
  ok (put_order id (record o { status = OrderStatus.pending_reconciliation }) moved))

-- `mark_pending_reconciliation`
unfoldable pub mark_pending_reconciliation : Text → OrderLifecycle → Outcome OrderLifecycle
mark_pending_reconciliation id s = mark_order id s (lookup id s.orders)
