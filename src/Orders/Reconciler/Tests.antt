-- ===== src/Orders/Reconciler/Tests.antt =====
-- Runs of the reconciler on one order that the broker has filled in part.
use ai_trading_platform_mobi.Orders.Lifecycle.Updates.{
  is_fill_status, check_price, check_update, book_value, book_delta, book_price, update_order,
  update,
}
use ai_trading_platform_mobi.Orders.Lifecycle.Positions.{
  opt_text_eq, apply_to, apply_position_delta,
}
use ai_trading_platform_mobi.Prelude.{
  ◌≡◌, refl, ◌≢◌, none, some, List, [], ◌∷◌, arith, ok, pos, ◌+ℤ◌, ◌-ℤ◌, ◌*ℤ◌, Text, codes,
  text_eq_iff, strip, upper, lookup, num, Ensures-ok, whole, frac_add, frac_sub, frac_scale,
  frac_div, is_positive, frac_eq,
}
use ai_trading_platform_mobi.Orders.StateMachine.{OrderState, transition}
use ai_trading_platform_mobi.Orders.Lifecycle.{
  OrderStatus, status_eq, OrderRecord, state_of, OrderLifecycle, empty_lifecycle, is_key_error,
  new_order, create, transition_machine, is_terminal, mark_pending_reconciliation,
}
use ai_trading_platform_mobi.Orders.Lifecycle.Books.{net_applied, IsBooked}
use ai_trading_platform_mobi.Orders.Lifecycle.Calls.{mark_pending-IsBooked, create-IsBooked}
use ai_trading_platform_mobi.Orders.Reconciler.{
  BrokerOrder, ReconciliationAction, Reason, event, account_id_error, route_error, account_error,
  identity_error, names, add_candidates, candidates, find_local,
}
use ai_trading_platform_mobi.Orders.Reconciler.Foreign.{IsForeign}
use ai_trading_platform_mobi.Orders.Reconciler.Loop.{
  is_in_sync, follow, reconcile_one, answer_next, reconcile_from, reconcile,
}
use ai_trading_platform_mobi.Orders.Reconciler.Pending.{turns, unmatched, reconcile_pending}
use ai_trading_platform_mobi.Orders.Reconciler.Books.{reconcile-IsBooked}
use ai_trading_platform_mobi.Orders.Reconciler.Answers.{Answers, reconcile-Answers}
use ai_trading_platform_mobi.Orders.Reconciler.Others.{reconcile-foreign}
use ai_trading_platform_mobi.Orders.Reconciler.Waiting.{reconcile_pending-SameRow}

abbrev local_order : OrderRecord
local_order =
    new_order (codes "A1") (codes "INFY") (codes "BUY") (pos 10) none (some (codes "7"))
      (some (codes "DHAN"))

abbrev local_orders : OrderLifecycle
local_orders = record empty_lifecycle {
  orders = (codes "A1", local_order) ∷ [];
  machines = (codes "A1", record { state = OrderState.created }) ∷ [];
}

abbrev remote_of : Text → Text → BrokerOrder
remote_of id account = record {
  order_id = id;
  symbol = codes "INFY";
  side = codes "BUY";
  quantity = pos 10;
  status = OrderStatus.partially_filled;
  filled_quantity = pos 4;
  average_fill_price = some (whole (pos 100));
  client_order_id = some (codes "A1");
  broker_account_id = some account;
  broker_route = some (codes "DHAN");
}

abbrev remotes : List BrokerOrder
remotes = remote_of (codes "B9") (codes "7") ∷ remote_of (codes "B9") (codes "7") ∷ []

abbrev foreign_remotes : List BrokerOrder
foreign_remotes = remote_of (codes "B9") (codes "8") ∷ []

no_orders-IsBooked : IsBooked empty_lifecycle
unfolding net_applied
no_orders-IsBooked = record {
  unique = tt;
  sound = λ id. tt;
  open_positions = (tt, λ symbol. tt);
  position_is = λ symbol. refl;
}

create_gives :
    create
      (codes "A1")
      (codes "INFY")
      (codes "BUY")
      (num (pos 10))
      none
      (some (codes "7"))
      (some (codes "DHAN"))
      empty_lifecycle
    ≡ ok local_orders
unfolding create strip upper
create_gives = refl

local_orders-IsBooked : IsBooked local_orders
local_orders-IsBooked =
    Ensures-ok IsBooked _
      (create-IsBooked (codes "A1") (codes "INFY") (codes "BUY") (num (pos 10)) none
        (some (codes "7")) (some (codes "DHAN")) empty_lifecycle no_orders-IsBooked)
      create_gives

-- The first remote updates the order, and the second one is a duplicate.
reconciles :
    (reconcile (codes "d") remotes local_orders).0
    ≡ ok (
        event (codes "B9") ReconciliationAction.update Reason.local_state_reconciled
        ∷ event (codes "B9") ReconciliationAction.alert Reason.duplicate_broker_update
        ∷ [])
unfolding reconcile reconcile_from answer_next reconcile_one find_local candidates add_candidates
    names opt_text_eq account_error strip identity_error upper ◌-ℤ◌ follow is_in_sync status_eq
    update apply_position_delta apply_to book_delta book_price book_value check_price check_update
    is_fill_status update_order is_key_error state_of transition_machine transition frac_add
    frac_div frac_eq frac_scale frac_sub is_positive ◌*ℤ◌ ◌+ℤ◌
reconciles = refl

alerts_foreign :
    (reconcile (codes "d") foreign_remotes local_orders).0
    ≡ ok (event (codes "B9") ReconciliationAction.alert Reason.account_id_mismatch ∷ [])
unfolding reconcile reconcile_from answer_next reconcile_one find_local candidates add_candidates
    names opt_text_eq account_error strip identity_error
alerts_foreign = refl

reconcile-IsBooked_example : IsBooked (reconcile (codes "d") remotes local_orders).1
reconcile-IsBooked_example =
    reconcile-IsBooked (codes "d") remotes local_orders local_orders-IsBooked

reconcile-Answers_example : Answers remotes (reconcile (codes "d") remotes local_orders)
reconcile-Answers_example = reconcile-Answers (codes "d") remotes local_orders local_orders-IsBooked

-- A remote of another account, and one of the account by another route
abbrev other_remotes : List BrokerOrder
other_remotes =
    remote_of (codes "B9") (codes "8")
    ∷ record (remote_of (codes "B10") (codes "7")) { broker_route = some (codes "KITE") }
    ∷ []

other_account : strip (codes "7") ≢ strip (codes "8")
unfolding strip
other_account same = absurd (ground (arith, text_eq_iff (codes "7") (codes "8"), same))

other_route : codes "DHAN" ≢ codes "KITE"
other_route same = absurd (ground (arith, text_eq_iff (codes "DHAN") (codes "KITE"), same))

reconcile-foreign_example :
    lookup (codes "A1") (reconcile (codes "d") other_remotes local_orders).1.orders
    ≡ some local_order
reconcile-foreign_example =
    reconcile-foreign (codes "d") other_remotes (codes "A1") local_order local_orders
      local_orders-IsBooked refl
      (
        IsForeign.other_account refl refl other_account,
        (IsForeign.other_route refl refl other_route, tt),
      )

-- Two orders, of which the second waits.
abbrev waiting_order : OrderRecord
waiting_order =
    record (new_order (codes "A2") (codes "INFY") (codes "BUY") (pos 10) none (some (codes "7"))
      (some (codes "DHAN"))) { status = OrderStatus.pending_reconciliation }

abbrev waiting_orders : OrderLifecycle
waiting_orders = record empty_lifecycle {
  orders = (codes "A1", local_order) ∷ (codes "A2", waiting_order) ∷ [];
  machines =
      (codes "A1", record { state = OrderState.created })
      ∷ (codes "A2", record { state = OrderState.pending_reconciliation })
      ∷ [];
}

abbrev second_remote : BrokerOrder
second_remote = record (remote_of (codes "B2") (codes "7")) { client_order_id = some (codes "A2") }

abbrev two_orders : OrderLifecycle
two_orders = record empty_lifecycle {
  orders =
      (codes "A1", local_order)
      ∷ (codes "A2", record waiting_order { status = OrderStatus.created })
      ∷ [];
  machines =
      (codes "A1", record { state = OrderState.created })
      ∷ (codes "A2", record { state = OrderState.created })
      ∷ [];
}

second_gives :
    create
      (codes "A2")
      (codes "INFY")
      (codes "BUY")
      (num (pos 10))
      none
      (some (codes "7"))
      (some (codes "DHAN"))
      local_orders
    ≡ ok two_orders
unfolding create strip upper
second_gives = refl

mark_gives : mark_pending_reconciliation (codes "A2") two_orders ≡ ok waiting_orders
unfolding mark_pending_reconciliation is_terminal transition_machine transition state_of
mark_gives = refl

waiting_orders-IsBooked : IsBooked waiting_orders
waiting_orders-IsBooked =
    Ensures-ok IsBooked _
      (mark_pending-IsBooked (codes "A2") two_orders (
        Ensures-ok IsBooked _
          (create-IsBooked (codes "A2") (codes "INFY") (codes "BUY") (num (pos 10)) none
            (some (codes "7")) (some (codes "DHAN")) local_orders local_orders-IsBooked)
          second_gives))
      mark_gives

-- The order that waits is resolved.
resolves :
    (reconcile_pending (codes "d") (second_remote ∷ []) waiting_orders).0
    ≡ ok (event (codes "B2") ReconciliationAction.update Reason.pending_order_resolved ∷ [])
unfolding reconcile_pending turns unmatched find_local candidates add_candidates names opt_text_eq
    account_error account_id_error route_error strip identity_error upper ◌-ℤ◌ status_eq update
    apply_position_delta apply_to book_delta book_price book_value check_price check_update
    is_fill_status update_order is_key_error state_of transition_machine transition frac_add
    frac_div frac_eq frac_scale frac_sub is_positive ◌*ℤ◌ ◌+ℤ◌
resolves = refl

reconcile_pending-SameRow_example :
    lookup (codes "A1") (reconcile_pending (codes "d") (second_remote ∷ []) waiting_orders).1.orders
    ≡ some local_order
reconcile_pending-SameRow_example =
    reconcile_pending-SameRow (codes "d") (second_remote ∷ []) (codes "A1") local_order
      waiting_orders waiting_orders-IsBooked refl (λ e. absurd (ground (arith, e)))
