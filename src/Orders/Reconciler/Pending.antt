-- ===== src/Orders/Reconciler/Pending.antt =====
-- `reconcile_pending` of backend/app/order_reconciliation.py, which resolves the orders that wait for
-- the broker, and OrderReconciliationResult with the calls of OrderReconciliationService on it.
use ai_trading_platform_mobi.Prelude.{
  Bool, true, false, not, ◌&&◌, ◌||◌, Option, none, some, List, [], ◌∷◌, ◌++◌, map, if◌then◌else◌,
  is_empty, any, keep, Result, ok, err, Text, text_eq, values, text_leb,
}
use ai_trading_platform_mobi.Orders.Lifecycle.{
  OrderStatus, status_eq, OrderRecord, OrderLifecycle, LifecycleError, Outcome,
}
use ai_trading_platform_mobi.Orders.Lifecycle.Updates.{update}
use ai_trading_platform_mobi.Orders.Reconciler.{
  BrokerOrder, ReconciliationAction, Reason, ReconciliationEvent, event, identity_error,
  AmbiguousBrokerOrderIdentity, find_local,
}
use ai_trading_platform_mobi.Orders.Reconciler.Loop.{Answer, answer, alert_of, Report, reconcile}

-- The ids of the orders in PENDING_RECONCILIATION
abbrev pub pending_ids : List OrderRecord → List Text
pending_ids orders =
    map (λ o. o.order_id) (keep (λ o. status_eq o.status OrderStatus.pending_reconciliation) orders)

-- What a remote of `reconcile_pending` does: an event or none, and the id that it has matched
pub record Turn : Type 0 where
  pub events : Outcome (List ReconciliationEvent)
  pub matched : List Text
  pub left : OrderLifecycle

abbrev pub one_event : Outcome ReconciliationEvent → Outcome (List ReconciliationEvent)
one_event (err e) = err e
one_event (ok e) = ok (e ∷ [])

-- An order that waits, with the remote that was found for it
abbrev pub resolve : Text → BrokerOrder → OrderRecord → OrderLifecycle → Option Reason → Answer
resolve day remote o s (some reason) = alert_of remote reason s
resolve day remote o s none =
    answer remote.order_id
      (event remote.order_id ReconciliationAction.update Reason.pending_order_resolved)
      Reason.resolution_rejected
      (update day o.order_id remote.status remote.filled_quantity remote.average_fill_price s)

abbrev pub turn_found :
    Text
    → List Text
    → BrokerOrder
    → OrderLifecycle
    → Result AmbiguousBrokerOrderIdentity (Option OrderRecord)
    → Turn
turn_found day waiting remote s (err _) = record {
  events = ok (event remote.order_id ReconciliationAction.alert Reason.ambiguous_identity ∷ []);
  matched = [];
  left = s;
}
turn_found day waiting remote s (ok none) = record { events = ok []; matched = []; left = s }
turn_found day waiting remote s (ok (some o)) =
    if any (text_eq o.order_id) waiting
    then (let resolved = resolve day remote o s (identity_error o remote) in
        record { events = one_event resolved.0; matched = o.order_id ∷ []; left = resolved.1 })
    else record { events = ok []; matched = []; left = s }

abbrev pub turn_then : Turn → Turn → Turn
turn_then turn rest = elim turn.events [
  | err e ↦ turn
  | ok events ↦ record {
    events = elim rest.events [ err e ↦ err e | ok more ↦ ok (events ++ more) ];
    matched = turn.matched ++ rest.matched;
    left = rest.left;
  }
]

-- The loop over the remotes
unfoldable pub turns : Text → List Text → List BrokerOrder → OrderLifecycle → Turn
turns day waiting [] s = record { events = ok []; matched = []; left = s }
turns day waiting (remote ∷ remotes) s =
    let turn = turn_found day waiting remote s (find_local remote s) in
    turn_then turn (turns day waiting remotes turn.left)

abbrev pub insert_sorted : Text → List Text → List Text
insert_sorted x [] = x ∷ []
insert_sorted x (y ∷ ys) = if text_leb x y then x ∷ y ∷ ys else y ∷ insert_sorted x ys

-- `sorted` of a set of texts
abbrev pub sorted : List Text → List Text
sorted [] = []
sorted (x ∷ xs) = insert_sorted x (sorted xs)

-- `sorted(pending - matched)`
unfoldable pub unmatched : List Text → List Text → List Text
unmatched waiting matched = sorted (keep (λ id. not (any (text_eq id) matched)) waiting)

abbrev pub pending_events : List Text → List ReconciliationEvent
pending_events ids =
    map (λ id. event id ReconciliationAction.pending Reason.broker_order_not_found) ids

abbrev pub close_turns : List Text → Turn → Report
close_turns waiting turn = elim turn.events [
  | err e ↦ (err e, turn.left)
  | ok events ↦ (ok (events ++ pending_events (unmatched waiting turn.matched)), turn.left)
]

-- `reconcile_pending`
unfoldable pub reconcile_pending : Text → List BrokerOrder → OrderLifecycle → Report
reconcile_pending day remotes s =
    let waiting = pending_ids (values s.orders) in
    if is_empty waiting then (ok [], s) else close_turns waiting (turns day waiting remotes s)

abbrev pub is_alert : ReconciliationEvent → Bool
is_alert e = elim e.action [ ReconciliationAction.alert ↦ true | _ ↦ false ]

abbrev pub is_pending : ReconciliationEvent → Bool
is_pending e = elim e.action [ ReconciliationAction.pending ↦ true | _ ↦ false ]

abbrev pub is_change : ReconciliationEvent → Bool
is_change e = elim e.action [
  | ReconciliationAction.create ↦ true
  | ReconciliationAction.update ↦ true
  | _ ↦ false
]

-- OrderReconciliationResult.alerts
unfoldable pub alerts : List ReconciliationEvent → List ReconciliationEvent
alerts events = keep is_alert events

-- OrderReconciliationResult.changed
unfoldable pub changed : List ReconciliationEvent → Bool
changed events = any is_change events

-- OrderReconciliationResult.resolved
unfoldable pub resolved : List ReconciliationEvent → Bool
resolved events = not (is_empty events) && not (any (λ e. is_pending e || is_alert e) events)

pub data ReconciliationFailed : Type 0 where
  lifecycle_raised : LifecycleError → ReconciliationFailed
  produced_alerts : List Reason → ReconciliationFailed

abbrev pub raise_alerts :
    Outcome (List ReconciliationEvent) → Result ReconciliationFailed (List ReconciliationEvent)
raise_alerts (err e) = err (ReconciliationFailed.lifecycle_raised e)
raise_alerts (ok events) =
    if is_empty (alerts events)
    then ok events
    else err (ReconciliationFailed.produced_alerts (map (λ e. e.reason) (alerts events)))

-- `reconcile_or_raise` of OrderReconciliationService
unfoldable pub reconcile_or_raise :
    Text
    → List BrokerOrder
    → OrderLifecycle
    → Result ReconciliationFailed (List ReconciliationEvent) × OrderLifecycle
reconcile_or_raise day remotes s =
    let reported = reconcile day remotes s in (raise_alerts reported.0, reported.1)

-- The answer of the broker's lookup of one order
pub data Lookup : Type 0 where
  raised : Lookup
  not_found : Lookup
  broker_order : BrokerOrder → Lookup

-- The result of a single order: an exception of the lookup or the lifecycle is one alert.
pub data SingleEvent : Type 0 where
  broker_order_missing : SingleEvent
  lookup_failed : SingleEvent
  reconciled : List ReconciliationEvent → SingleEvent

abbrev pub single_of : Report → SingleEvent × OrderLifecycle
single_of (err _, s) = (SingleEvent.lookup_failed, s)
single_of (ok events, s) = (SingleEvent.reconciled events, s)

-- `reconcile` of OrderReconciliationService for one order, where the broker gives BrokerOrders
unfoldable pub reconcile_single :
    (Text → Lookup) → Text → Text → OrderLifecycle → SingleEvent × OrderLifecycle
reconcile_single lookup_one day id s = elim (lookup_one id) [
  | Lookup.raised ↦ (SingleEvent.lookup_failed, s)
  | Lookup.not_found ↦ (SingleEvent.broker_order_missing, s)
  | Lookup.broker_order remote ↦ single_of (reconcile day (remote ∷ []) s)
]
