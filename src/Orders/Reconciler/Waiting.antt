-- ===== src/Orders/Reconciler/Waiting.antt =====
-- `reconcile_pending` of backend/app/order_reconciliation.py keeps the books and changes only the
-- orders that wait.
use ai_trading_platform_mobi.Prelude.{
  ◌≡◌, refl, sym, ap, ◌∙◌, ◌≢◌, inl, inr, true, false, Option, none, some, List, [], ◌∷◌, arith,
  Bool-cases, is_empty, any, Result, ok, err, ℤ, Text, text_eq, text_eq_iff, lookup, values,
  Fraction, All, All-mono, values-lookup,
}
use ai_trading_platform_mobi.Orders.Lifecycle.{
  OrderStatus, status_eq, OrderRecord, OrderLifecycle, LifecycleError, Outcome,
}
use ai_trading_platform_mobi.Orders.Lifecycle.Updates.{Step, update}
use ai_trading_platform_mobi.Orders.Lifecycle.Books.{IsBooked}
use ai_trading_platform_mobi.Orders.Lifecycle.Invariant.{update-IsBooked}
use ai_trading_platform_mobi.Orders.Lifecycle.Frame.{SameRow, update-SameRow}
use ai_trading_platform_mobi.Orders.Reconciler.{
  BrokerOrder, ReconciliationAction, Reason, ReconciliationEvent, event, identity_error,
  AmbiguousBrokerOrderIdentity, find_local,
}
use ai_trading_platform_mobi.Orders.Reconciler.Found.{IsStored, row_of_key}
use ai_trading_platform_mobi.Orders.Reconciler.Loop.{answer}
use ai_trading_platform_mobi.Orders.Reconciler.Pending.{
  pending_ids, Turn, resolve, turn_found, turn_then, turns, close_turns, reconcile_pending,
}

-- What every remote keeps holds after all of them.
module _ (P : OrderLifecycle → Type 0) (day : Text) (waiting : List Text)
    (step : (id : Text) (status : OrderStatus) (filled : ℤ) (price : Option Fraction)
        (s : OrderLifecycle)
      → any (text_eq id) waiting ≡ true
      → P s
      → P (update day id status filled price s).1) where
  answer_keeps :
      (id : Text) (done : ReconciliationEvent) (rejected : LifecycleError → Reason) (u : Step)
      → P u.1
      → P (answer id done rejected u).1
  answer_keeps id done rejected (ok _, s) h = h
  answer_keeps id done rejected (err _, s) h = h

  resolve_keeps :
      (remote : BrokerOrder) (o : OrderRecord) (s : OrderLifecycle) (r : Option Reason)
      → any (text_eq o.order_id) waiting ≡ true
      → P s
      → P (resolve day remote o s r).1
  resolve_keeps remote o s (some _) waits h = h
  resolve_keeps remote o s none waits h =
      answer_keeps remote.order_id
        (event remote.order_id ReconciliationAction.update Reason.pending_order_resolved)
        Reason.resolution_rejected _
        (step o.order_id remote.status remote.filled_quantity remote.average_fill_price s waits h)

  turn_keeps :
      (remote : BrokerOrder) (s : OrderLifecycle)
      (r : Result AmbiguousBrokerOrderIdentity (Option OrderRecord))
      → P s
      → P (turn_found day waiting remote s r).left
  turn_keeps remote s (err _) h = h
  turn_keeps remote s (ok none) h = h
  turn_keeps remote s (ok (some o)) h = elim (Bool-cases (any (text_eq o.order_id) waiting)) [
    | inl e ↦ rw e (resolve_keeps remote o s (identity_error o remote) e h)
    | inr e ↦ rw e h
  ]

  turn_then_keeps : (turn rest : Turn) → P turn.left → P rest.left → P (turn_then turn rest).left
  turn_then_keeps turn rest h k = kept turn.events refl
    where
      kept :
          (r : Outcome (List ReconciliationEvent)) → turn.events ≡ r → P (turn_then turn rest).left
      kept (err _) e = rw e h
      kept (ok _) e = rw e k

  turns_keep :
      (remotes : List BrokerOrder) (s : OrderLifecycle) → P s → P (turns day waiting remotes s).left
  unfolding turns
  turns_keep [] s h = h
  turns_keep (remote ∷ remotes) s h =
      let turned = turn_keeps remote s (find_local remote s) h in
      turn_then_keeps (turn_found day waiting remote s (find_local remote s)) _ turned
        (turns_keep remotes (turn_found day waiting remote s (find_local remote s)).left turned)

  close_keeps : (turn : Turn) → P turn.left → P (close_turns waiting turn).1
  close_keeps turn h = kept turn.events refl
    where
      kept :
          (r : Outcome (List ReconciliationEvent))
          → turn.events ≡ r
          → P (close_turns waiting turn).1
      kept (err _) e = rw e h
      kept (ok _) e = rw e h

pending_keeps :
    (P : OrderLifecycle → Type 0) (day : Text) (remotes : List BrokerOrder) (s : OrderLifecycle)
    → ((id : Text) (status : OrderStatus) (filled : ℤ) (price : Option Fraction)
          (t : OrderLifecycle)
        → any (text_eq id) (pending_ids (values s.orders)) ≡ true
        → P t
        → P (update day id status filled price t).1)
    → P s
    → P (reconcile_pending day remotes s).1
unfolding reconcile_pending
pending_keeps P day remotes s step h =
    elim (Bool-cases (is_empty (pending_ids (values s.orders)))) [
      | inl e ↦ rw e h
      | inr e ↦ rw e (
          close_keeps P day (pending_ids (values s.orders)) step
            (turns day (pending_ids (values s.orders)) remotes s)
            (turns_keep P day (pending_ids (values s.orders)) step remotes s h))
    ]

pub reconcile_pending-IsBooked :
    (day : Text) (remotes : List BrokerOrder) (s : OrderLifecycle)
    → IsBooked s
    → IsBooked (reconcile_pending day remotes s).1
reconcile_pending-IsBooked day remotes s b =
    pending_keeps IsBooked day remotes s
      (λ id status filled price t waits h. update-IsBooked day id status filled price t h) b

-- Every order of the books is found at its own id.
rows-IsStored : (s : OrderLifecycle) → IsBooked s → All (IsStored s) (values s.orders)
rows-IsStored s b =
    All-mono (values s.orders) (λ o at. row_of_key at.0 o s b at.1)
      (values-lookup s.orders b.unique)

status_eq_pending :
    (status : OrderStatus)
    → status_eq status OrderStatus.pending_reconciliation ≡ true
    → status ≡ OrderStatus.pending_reconciliation
unfolding status_eq
status_eq_pending OrderStatus.pending_reconciliation h = refl
status_eq_pending _ h = absurd (ground arith)

-- The id of an order of another status is not one of those that wait.
not_waiting :
    (j : Text) (p : OrderRecord) (s : OrderLifecycle) (rows : List OrderRecord)
    → lookup j s.orders ≡ some p
    → p.status ≢ OrderStatus.pending_reconciliation
    → All (IsStored s) rows
    → any (text_eq j) (pending_ids rows) ≡ false
not_waiting j p s [] at other h = refl
not_waiting j p s (o ∷ rows) at other h =
    elim (Bool-cases (status_eq o.status OrderStatus.pending_reconciliation)) [
      | inl e ↦ elim (Bool-cases (text_eq j o.order_id)) [
        | inl same ↦ absurd (
            other (
              ap status_of
                (sym at ∙ ap (λ k. lookup k s.orders) ((text_eq_iff j o.order_id).0 same) ∙ h.0)
              ∙ status_eq_pending o.status e))
        | inr differs ↦ rw (e, differs) (not_waiting j p s rows at other h.1)
      ]
      | inr e ↦ rw e (not_waiting j p s rows at other h.1)
    ]
  where
    status_of : Option OrderRecord → OrderStatus
    status_of none = p.status
    status_of (some o) = o.status

-- On kept books, an order of another status than PENDING_RECONCILIATION is not changed, whatever the
-- broker says.
pub reconcile_pending-SameRow :
    (day : Text) (remotes : List BrokerOrder) (j : Text) (p : OrderRecord) (s : OrderLifecycle)
    → IsBooked s
    → lookup j s.orders ≡ some p
    → p.status ≢ OrderStatus.pending_reconciliation
    → lookup j (reconcile_pending day remotes s).1.orders ≡ some p
reconcile_pending-SameRow day remotes j p s b at other =
    let quiet = not_waiting j p s (values s.orders) at other (rows-IsStored s b) in
    pending_keeps (SameRow j s) day remotes s
      (λ id status filled price t waits h.
        update-SameRow j id
          (λ same. absurd (
            ground (
              arith,
              quiet,
              waits,
              ap (λ k. any (text_eq k) (pending_ids (values s.orders))) same,
            )))
          day status filled price t
        ∙ h)
      refl
    ∙ at
