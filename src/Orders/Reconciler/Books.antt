-- ===== src/Orders/Reconciler/Books.antt =====
-- `reconcile` of backend/app/order_reconciliation.py keeps the books of the lifecycle.
use ai_trading_platform_mobi.Prelude.{
  ◌≡◌, refl, inl, inr, not, ◌||◌, Option, none, some, List, [], ◌∷◌, is_some, Bool-cases, any,
  Result, ok, err, Ensures, Text, text_eq, lookup, contains, num,
}
use ai_trading_platform_mobi.Orders.Lifecycle.{
  OrderRecord, OrderLifecycle, LifecycleError, Outcome, put_order,
}
use ai_trading_platform_mobi.Orders.Lifecycle.Updates.{Step, update}
use ai_trading_platform_mobi.Orders.Lifecycle.Books.{IsBooked}
use ai_trading_platform_mobi.Orders.Lifecycle.Invariant.{rewritten-IsBooked, update-IsBooked}
use ai_trading_platform_mobi.Orders.Lifecycle.Calls.{create-IsBooked}
use ai_trading_platform_mobi.Orders.Reconciler.{
  BrokerOrder, ReconciliationAction, Reason, ReconciliationEvent, event, is_given, identity_error,
  AmbiguousBrokerOrderIdentity, find_local,
}
use ai_trading_platform_mobi.Orders.Reconciler.Loop.{
  Answer, answer, local_id, follow_created, created_step, create_local, answer_missing,
  keep_broker_id, is_in_sync, follow, answer_checked, answer_found, reconcile_one, Report, report,
  answer_next, reconcile_from, reconcile,
}
use ai_trading_platform_mobi.Orders.Reconciler.Found.{IsStored, OfFound, find_local-IsStored}

answer_state :
    (id : Text) (done : ReconciliationEvent) (rejected : LifecycleError → Reason) (step : Step)
    → IsBooked step.1
    → IsBooked (answer id done rejected step).1
answer_state id done rejected (ok _, s) b = b
answer_state id done rejected (err e, s) b = b

-- The broker's id is written on an order.
pub with_broker_id-IsBooked :
    (id : Text) (o : OrderRecord) (known : Option Text) (s : OrderLifecycle)
    → IsBooked s
    → lookup id s.orders ≡ some o
    → IsBooked (put_order id (record o { broker_order_id = known }) s)
with_broker_id-IsBooked id o known s b found =
    rewritten-IsBooked id o (record o { broker_order_id = known }) s b found refl refl refl refl
      refl

follow_created-IsBooked :
    (day : Text) (remote : BrokerOrder) (s : OrderLifecycle) (r : Option OrderRecord)
    → IsBooked s
    → lookup (local_id remote) s.orders ≡ r
    → IsBooked (follow_created day remote s r).1
follow_created-IsBooked day remote s none b found = b
follow_created-IsBooked day remote s (some o) b found =
    update-IsBooked day (local_id remote) remote.status remote.filled_quantity
      remote.average_fill_price
      (put_order (local_id remote) (record o { broker_order_id = some remote.order_id }) s)
      (with_broker_id-IsBooked (local_id remote) o (some remote.order_id) s b found)

created_step-IsBooked :
    (day : Text) (remote : BrokerOrder) (s : OrderLifecycle) (m : Outcome OrderLifecycle)
    → IsBooked s
    → Ensures m IsBooked
    → IsBooked (created_step day remote s m).1
created_step-IsBooked day remote s (err _) b h = b
created_step-IsBooked day remote s (ok t) b h =
    follow_created-IsBooked day remote t (lookup (local_id remote) t.orders) h refl

create_local-IsBooked :
    (day : Text) (remote : BrokerOrder) (s : OrderLifecycle)
    → IsBooked s
    → IsBooked (create_local day remote s).1
unfolding create_local
create_local-IsBooked day remote s b = created_step-IsBooked day remote s _ b (
    create-IsBooked (local_id remote) remote.symbol remote.side (num remote.quantity) none
      remote.broker_account_id remote.broker_route s b)

answer_missing-IsBooked :
    (day : Text) (remote : BrokerOrder) (s : OrderLifecycle)
    → IsBooked s
    → IsBooked (answer_missing day remote s).1
unfolding answer_missing
answer_missing-IsBooked day remote s b = elim (Bool-cases (contains (local_id remote) s.orders)) [
  | inl e ↦ rw e b
  | inr e ↦
      rw e
        (elim (Bool-cases
          (not (is_some remote.broker_account_id) || not (is_given remote.broker_route))) [
            | inl k ↦ rw k b
            | inr k ↦ rw k (
                answer_state remote.order_id
                  (event remote.order_id ReconciliationAction.create Reason.missing_local_order)
                  Reason.update_rejected (create_local day remote s)
                  (create_local-IsBooked day remote s b))
          ])
]

follow-IsBooked :
    (day : Text) (remote : BrokerOrder) (o : OrderRecord) (s : OrderLifecycle)
    → IsBooked s
    → IsBooked (follow day remote o s).1
unfolding follow
follow-IsBooked day remote o s b = elim (Bool-cases (is_in_sync o remote)) [
  | inl e ↦ rw e b
  | inr e ↦ rw e (
      answer_state remote.order_id
        (event remote.order_id ReconciliationAction.update Reason.local_state_reconciled)
        Reason.update_rejected
        (update day o.order_id remote.status remote.filled_quantity remote.average_fill_price s)
        (update-IsBooked day o.order_id remote.status remote.filled_quantity
          remote.average_fill_price s b))
]

answer_checked-IsBooked :
    (day : Text) (remote : BrokerOrder) (o : OrderRecord) (s : OrderLifecycle) (r : Option Reason)
    → IsBooked s
    → IsStored s o
    → IsBooked (answer_checked day remote o s r).1
answer_checked-IsBooked day remote o s (some _) b found = b
answer_checked-IsBooked day remote o s none b found =
    follow-IsBooked day remote (keep_broker_id remote.order_id o)
      (put_order o.order_id (keep_broker_id remote.order_id o) s)
      (with_broker_id-IsBooked o.order_id o _ s b found)

answer_found-IsBooked :
    (day : Text) (remote : BrokerOrder) (s : OrderLifecycle)
    (r : Result AmbiguousBrokerOrderIdentity (Option OrderRecord))
    → IsBooked s
    → Ensures r (OfFound (IsStored s))
    → IsBooked (answer_found day remote s r).1
answer_found-IsBooked day remote s (err _) b h = b
answer_found-IsBooked day remote s (ok none) b h = answer_missing-IsBooked day remote s b
answer_found-IsBooked day remote s (ok (some o)) b h =
    answer_checked-IsBooked day remote o s (identity_error o remote) b h

pub answer_next-IsBooked :
    (day : Text) (seen : List Text) (remote : BrokerOrder) (s : OrderLifecycle)
    → IsBooked s
    → IsBooked (answer_next day seen remote s).1
unfolding answer_next reconcile_one
answer_next-IsBooked day seen remote s b = elim (Bool-cases (any (text_eq remote.order_id) seen)) [
  | inl e ↦ rw e b
  | inr e ↦
      rw e (
        answer_found-IsBooked day remote s (find_local remote s) b (find_local-IsStored remote s b))
]

report_state :
    (a : Answer) (rest : Report) → IsBooked a.1 → IsBooked rest.1 → IsBooked (report a rest).1
report_state (err _, s) rest b h = b
report_state (ok _, s) (err _, t) b h = h
report_state (ok _, s) (ok _, t) b h = h

reconcile_from-IsBooked :
    (day : Text) (seen : List Text) (remotes : List BrokerOrder) (s : OrderLifecycle)
    → IsBooked s
    → IsBooked (reconcile_from day seen remotes s).1
unfolding reconcile_from
reconcile_from-IsBooked day seen [] s b = b
reconcile_from-IsBooked day seen (remote ∷ remotes) s b =
    let answered = answer_next-IsBooked day seen remote s b in
    report_state (answer_next day seen remote s)
      (reconcile_from day (remote.order_id ∷ seen) remotes (answer_next day seen remote s).1)
      answered
      (reconcile_from-IsBooked day (remote.order_id ∷ seen) remotes
        (answer_next day seen remote s).1 answered)

-- A snapshot of the broker's orders, whatever it says and in whatever order, keeps the books, also
-- where updates are rejected.
pub reconcile-IsBooked :
    (day : Text) (remotes : List BrokerOrder) (s : OrderLifecycle)
    → IsBooked s
    → IsBooked (reconcile day remotes s).1
unfolding reconcile
reconcile-IsBooked day remotes s b = reconcile_from-IsBooked day [] remotes s b
