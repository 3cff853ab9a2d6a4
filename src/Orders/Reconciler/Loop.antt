-- ===== src/Orders/Reconciler/Loop.antt =====
-- `reconcile` of backend/app/order_reconciliation.py. A ValueError of the lifecycle becomes an alert, a
-- KeyError ends the loop, and what was changed before stays in both cases.
use ai_trading_platform_mobi.Prelude.{
  Bool, true, false, not, ◌&&◌, ◌||◌, Option, none, some, List, [], ◌∷◌, if◌then◌else◌, is_some,
  is_empty, any, Result, ok, err, eq_ℤ, Text, text_eq, lookup, contains, num, Fraction, frac_eq,
}
use ai_trading_platform_mobi.Orders.Lifecycle.{
  status_eq, OrderRecord, OrderLifecycle, LifecycleError, is_key_error, Outcome, put_order, create,
}
use ai_trading_platform_mobi.Orders.Lifecycle.Updates.{Step, update}
use ai_trading_platform_mobi.Orders.Reconciler.{
  BrokerOrder, ReconciliationAction, Reason, ReconciliationEvent, event, is_given, identity_error,
  AmbiguousBrokerOrderIdentity, find_local,
}

-- What a remote is answered with, and the state that it leaves
abbrev pub Answer : Type 0
Answer = Outcome ReconciliationEvent × OrderLifecycle

-- `except (TypeError, ValueError, RuntimeError)` around an update
abbrev pub answer : Text → ReconciliationEvent → (LifecycleError → Reason) → Step → Answer
answer id done rejected (ok _, s) = (ok done, s)
answer id done rejected (err e, s) =
    (if is_key_error e then err e else ok (event id ReconciliationAction.alert (rejected e)), s)

abbrev pub alert_of : BrokerOrder → Reason → OrderLifecycle → Answer
alert_of remote reason s = (ok (event remote.order_id ReconciliationAction.alert reason), s)

-- `remote.client_order_id or remote.order_id`
abbrev pub local_id : BrokerOrder → Text
local_id remote = elim remote.client_order_id [
  | none ↦ remote.order_id
  | some client ↦ if is_empty client then remote.order_id else client
]

-- The new order takes the broker's id, then its state.
abbrev pub follow_created : Text → BrokerOrder → OrderLifecycle → Option OrderRecord → Step
follow_created day remote s none = (err LifecycleError.unknown_order, s)
follow_created day remote s (some o) =
    update day (local_id remote) remote.status remote.filled_quantity remote.average_fill_price
      (put_order (local_id remote) (record o { broker_order_id = some remote.order_id }) s)

abbrev pub created_step : Text → BrokerOrder → OrderLifecycle → Outcome OrderLifecycle → Step
created_step day remote s (err e) = (err e, s)
created_step day remote s (ok t) = follow_created day remote t (lookup (local_id remote) t.orders)

unfoldable pub create_local : Text → BrokerOrder → OrderLifecycle → Step
create_local day remote s = created_step day remote s (
    create (local_id remote) remote.symbol remote.side (num remote.quantity) none
      remote.broker_account_id remote.broker_route s)

-- A remote that no order matches
unfoldable pub answer_missing : Text → BrokerOrder → OrderLifecycle → Answer
answer_missing day remote s =
    if contains (local_id remote) s.orders
    then alert_of remote Reason.client_order_id_collision s
    else if not (is_some remote.broker_account_id) || not (is_given remote.broker_route)
    then alert_of remote Reason.account_identity_missing s
    else answer remote.order_id
        (event remote.order_id ReconciliationAction.create Reason.missing_local_order)
        Reason.update_rejected (create_local day remote s)

-- `if local.broker_order_id is None: local.broker_order_id = remote.order_id`
abbrev pub keep_broker_id : Text → OrderRecord → OrderRecord
keep_broker_id id o = record o {
  broker_order_id = elim o.broker_order_id [ none ↦ some id | some known ↦ some known ];
}

abbrev pub opt_frac_eq : Option Fraction → Option Fraction → Bool
opt_frac_eq none none = true
opt_frac_eq none (some _) = false
opt_frac_eq (some _) none = false
opt_frac_eq (some x) (some y) = frac_eq x y

-- `current == incoming`
unfoldable pub is_in_sync : OrderRecord → BrokerOrder → Bool
is_in_sync o remote =
    status_eq o.status remote.status
    && eq_ℤ o.filled_quantity remote.filled_quantity
    && opt_frac_eq o.average_fill_price remote.average_fill_price

-- The remote of an order, once its broker id is kept
unfoldable pub follow : Text → BrokerOrder → OrderRecord → OrderLifecycle → Answer
follow day remote o s =
    if is_in_sync o remote
    then (ok (event remote.order_id ReconciliationAction.noop Reason.already_in_sync), s)
    else answer remote.order_id
        (event remote.order_id ReconciliationAction.update Reason.local_state_reconciled)
        Reason.update_rejected
        (update day o.order_id remote.status remote.filled_quantity remote.average_fill_price s)

abbrev pub answer_checked :
    Text → BrokerOrder → OrderRecord → OrderLifecycle → Option Reason → Answer
answer_checked day remote o s (some reason) = alert_of remote reason s
answer_checked day remote o s none =
    follow day remote (keep_broker_id remote.order_id o)
      (put_order o.order_id (keep_broker_id remote.order_id o) s)

abbrev pub answer_found :
    Text
    → BrokerOrder
    → OrderLifecycle
    → Result AmbiguousBrokerOrderIdentity (Option OrderRecord)
    → Answer
answer_found day remote s (err _) = alert_of remote Reason.ambiguous_identity s
answer_found day remote s (ok none) = answer_missing day remote s
answer_found day remote s (ok (some o)) = answer_checked day remote o s (identity_error o remote)

-- One remote that was not seen before
unfoldable pub reconcile_one : Text → BrokerOrder → OrderLifecycle → Answer
reconcile_one day remote s = answer_found day remote s (find_local remote s)

abbrev pub Report : Type 0
Report = Outcome (List ReconciliationEvent) × OrderLifecycle

abbrev pub report : Answer → Report → Report
report (err e, s) rest = (err e, s)
report (ok e, s) (err x, t) = (err x, t)
report (ok e, s) (ok events, t) = (ok (e ∷ events), t)

-- One remote, where `seen` are the ids before it
unfoldable pub answer_next : Text → List Text → BrokerOrder → OrderLifecycle → Answer
answer_next day seen remote s =
    if any (text_eq remote.order_id) seen
    then alert_of remote Reason.duplicate_broker_update s
    else reconcile_one day remote s

-- The loop. A KeyError ends it with the state of its remote.
unfoldable pub reconcile_from : Text → List Text → List BrokerOrder → OrderLifecycle → Report
reconcile_from day seen [] s = (ok [], s)
reconcile_from day seen (remote ∷ remotes) s =
    let answered = answer_next day seen remote s in
    report answered (reconcile_from day (remote.order_id ∷ seen) remotes answered.1)

-- `reconcile`
unfoldable pub reconcile : Text → List BrokerOrder → OrderLifecycle → Report
reconcile day remotes s = reconcile_from day [] remotes s
