-- ===== src/Orders/Reconciler/Answers.antt =====
-- `reconcile` of backend/app/order_reconciliation.py answers every order of the broker.
use ai_trading_platform_mobi.Prelude.{
  ◌≡◌, refl, ap, inl, inr, true, not, ◌||◌, Option, none, some, List, [], ◌∷◌, map, arith, is_some,
  Bool-cases, any, Result, ok, err, Ensures, Text, text_eq, lookup, contains, lookup-insert_self,
  num, Raises,
}
use ai_trading_platform_mobi.Orders.Lifecycle.{
  OrderRecord, OrderLifecycle, LifecycleError, Outcome, put_order,
}
use ai_trading_platform_mobi.Orders.Lifecycle.Updates.{Step, update}
use ai_trading_platform_mobi.Orders.Lifecycle.Books.{IsBooked}
use ai_trading_platform_mobi.Orders.Lifecycle.Calls.{create-IsBooked}
use ai_trading_platform_mobi.Orders.Lifecycle.Known.{
  IsCaught, update-IsCaught, create-IsCaught, create_known,
}
use ai_trading_platform_mobi.Orders.Reconciler.{
  BrokerOrder, ReconciliationAction, Reason, ReconciliationEvent, event, is_given, identity_error,
  AmbiguousBrokerOrderIdentity, find_local,
}
use ai_trading_platform_mobi.Orders.Reconciler.Loop.{
  Answer, answer, local_id, follow_created, created_step, create_local, answer_missing,
  keep_broker_id, is_in_sync, follow, answer_checked, answer_found, reconcile_one, Report, report,
  answer_next, reconcile_from, reconcile,
}
use ai_trading_platform_mobi.Orders.Reconciler.Found.{IsStored, OfFound, find_local-IsStored}
use ai_trading_platform_mobi.Orders.Reconciler.Books.{with_broker_id-IsBooked, answer_next-IsBooked}

-- No exception, and an event of the remote
abbrev pub IsAnswer : Text → Answer → Type 0
IsAnswer id a = (e : ReconciliationEvent) × (a.0 ≡ ok e) × (e.order_id ≡ id)

answer-IsAnswer :
    (id : Text) (done : ReconciliationEvent) (rejected : LifecycleError → Reason) (step : Step)
    → done.order_id ≡ id
    → Raises step.0 IsCaught
    → IsAnswer id (answer id done rejected step)
answer-IsAnswer id done rejected (ok _, s) h k = (done, refl, h)
answer-IsAnswer id done rejected (err e, s) h k =
    (event id ReconciliationAction.alert (rejected e), rw k refl, refl)

follow_created-IsCaught :
    (day : Text) (remote : BrokerOrder) (s : OrderLifecycle) (r : Option OrderRecord)
    → IsBooked s
    → lookup (local_id remote) s.orders ≡ r
    → is_some r ≡ true
    → Raises (follow_created day remote s r).0 IsCaught
follow_created-IsCaught day remote s none b found known = absurd (ground arith)
follow_created-IsCaught day remote s (some o) b found known =
    let named : OrderRecord = record o { broker_order_id = some remote.order_id } in
    update-IsCaught day (local_id remote) remote.status remote.filled_quantity
      remote.average_fill_price (put_order (local_id remote) named s)
      (with_broker_id-IsBooked (local_id remote) o (some remote.order_id) s b found)
      (ap is_some (lookup-insert_self (local_id remote) named s.orders))

created_step-IsCaught :
    (day : Text) (remote : BrokerOrder) (s : OrderLifecycle) (m : Outcome OrderLifecycle)
    → Raises m IsCaught
    → Ensures m IsBooked
    → Ensures m (λ t. contains (local_id remote) t.orders ≡ true)
    → Raises (created_step day remote s m).0 IsCaught
created_step-IsCaught day remote s (err _) h b known = h
created_step-IsCaught day remote s (ok t) h b known =
    follow_created-IsCaught day remote t (lookup (local_id remote) t.orders) b refl known

create_local-IsCaught :
    (day : Text) (remote : BrokerOrder) (s : OrderLifecycle)
    → IsBooked s
    → Raises (create_local day remote s).0 IsCaught
unfolding create_local
create_local-IsCaught day remote s b =
    created_step-IsCaught day remote s _
      (create-IsCaught (local_id remote) remote.symbol remote.side (num remote.quantity) none
        remote.broker_account_id remote.broker_route s)
      (create-IsBooked (local_id remote) remote.symbol remote.side (num remote.quantity) none
        remote.broker_account_id remote.broker_route s b)
      (create_known (local_id remote) remote.symbol remote.side (num remote.quantity) none
        remote.broker_account_id remote.broker_route s)

answer_missing-IsAnswer :
    (day : Text) (remote : BrokerOrder) (s : OrderLifecycle)
    → IsBooked s
    → IsAnswer remote.order_id (answer_missing day remote s)
unfolding answer_missing
answer_missing-IsAnswer day remote s b = elim (Bool-cases (contains (local_id remote) s.orders)) [
  | inl e ↦ rw e (_, refl, refl)
  | inr e ↦
      rw e
        (elim (Bool-cases
          (not (is_some remote.broker_account_id) || not (is_given remote.broker_route))) [
            | inl k ↦ rw k (_, refl, refl)
            | inr k ↦ rw k (
                answer-IsAnswer remote.order_id
                  (event remote.order_id ReconciliationAction.create Reason.missing_local_order)
                  Reason.update_rejected (create_local day remote s) refl
                  (create_local-IsCaught day remote s b))
          ])
]

follow-IsAnswer :
    (day : Text) (remote : BrokerOrder) (o : OrderRecord) (s : OrderLifecycle)
    → IsBooked s
    → contains o.order_id s.orders ≡ true
    → IsAnswer remote.order_id (follow day remote o s)
unfolding follow
follow-IsAnswer day remote o s b known = elim (Bool-cases (is_in_sync o remote)) [
  | inl e ↦ rw e (_, refl, refl)
  | inr e ↦ rw e (
      answer-IsAnswer remote.order_id
        (event remote.order_id ReconciliationAction.update Reason.local_state_reconciled)
        Reason.update_rejected
        (update day o.order_id remote.status remote.filled_quantity remote.average_fill_price s)
        refl
        (update-IsCaught day o.order_id remote.status remote.filled_quantity
          remote.average_fill_price s b known))
]

answer_checked-IsAnswer :
    (day : Text) (remote : BrokerOrder) (o : OrderRecord) (s : OrderLifecycle) (r : Option Reason)
    → IsBooked s
    → IsStored s o
    → IsAnswer remote.order_id (answer_checked day remote o s r)
answer_checked-IsAnswer day remote o s (some _) b found = (_, refl, refl)
answer_checked-IsAnswer day remote o s none b found =
    follow-IsAnswer day remote (keep_broker_id remote.order_id o)
      (put_order o.order_id (keep_broker_id remote.order_id o) s)
      (with_broker_id-IsBooked o.order_id o _ s b found)
      (ap is_some (lookup-insert_self o.order_id (keep_broker_id remote.order_id o) s.orders))

answer_found-IsAnswer :
    (day : Text) (remote : BrokerOrder) (s : OrderLifecycle)
    (r : Result AmbiguousBrokerOrderIdentity (Option OrderRecord))
    → IsBooked s
    → Ensures r (OfFound (IsStored s))
    → IsAnswer remote.order_id (answer_found day remote s r)
answer_found-IsAnswer day remote s (err _) b h = (_, refl, refl)
answer_found-IsAnswer day remote s (ok none) b h = answer_missing-IsAnswer day remote s b
answer_found-IsAnswer day remote s (ok (some o)) b h =
    answer_checked-IsAnswer day remote o s (identity_error o remote) b h

answer_next-IsAnswer :
    (day : Text) (seen : List Text) (remote : BrokerOrder) (s : OrderLifecycle)
    → IsBooked s
    → IsAnswer remote.order_id (answer_next day seen remote s)
unfolding answer_next reconcile_one
answer_next-IsAnswer day seen remote s b = elim (Bool-cases (any (text_eq remote.order_id) seen)) [
  | inl e ↦ rw e (_, refl, refl)
  | inr e ↦
      rw e (
        answer_found-IsAnswer day remote s (find_local remote s) b (find_local-IsStored remote s b))
]

-- Every remote has its event, in order.
abbrev pub Answers : List BrokerOrder → Report → Type 0
Answers remotes r =
    (events : List ReconciliationEvent) × (r.0 ≡ ok events)
    × (map (λ e. e.order_id) events ≡ map (λ b. b.order_id) remotes)

report-Answers :
    (remote : BrokerOrder) (remotes : List BrokerOrder) (a : Answer) (rest : Report)
    → IsAnswer remote.order_id a
    → Answers remotes rest
    → Answers (remote ∷ remotes) (report a rest)
report-Answers remote remotes (err _, s) rest (e, h, k) (es, hs, ks) = absurd (ground arith)
report-Answers remote remotes (ok _, s) (err _, t) (e, h, k) (es, hs, ks) = absurd (ground arith)
report-Answers remote remotes (ok x, s) (ok xs, t) (e, h, k) (es, hs, ks) =
    (x ∷ xs, refl, ground (arith, h, k, hs, ks))

reconcile_from-Answers :
    (day : Text) (seen : List Text) (remotes : List BrokerOrder) (s : OrderLifecycle)
    → IsBooked s
    → Answers remotes (reconcile_from day seen remotes s)
unfolding reconcile_from
reconcile_from-Answers day seen [] s b = ([], refl, refl)
reconcile_from-Answers day seen (remote ∷ remotes) s b =
    report-Answers remote remotes (answer_next day seen remote s)
      (reconcile_from day (remote.order_id ∷ seen) remotes (answer_next day seen remote s).1)
      (answer_next-IsAnswer day seen remote s b)
      (reconcile_from-Answers day (remote.order_id ∷ seen) remotes (answer_next day seen remote s).1
        (answer_next-IsBooked day seen remote s b))

-- On kept books `reconcile` raises nothing: it returns one event for each order of the broker, in
-- the broker's order.
pub reconcile-Answers :
    (day : Text) (remotes : List BrokerOrder) (s : OrderLifecycle)
    → IsBooked s
    → Answers remotes (reconcile day remotes s)
unfolding reconcile
reconcile-Answers day remotes s b = reconcile_from-Answers day [] remotes s b
