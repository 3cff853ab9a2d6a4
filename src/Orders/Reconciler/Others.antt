-- ===== src/Orders/Reconciler/Others.antt =====
-- `reconcile` of backend/app/order_reconciliation.py leaves the orders of other accounts as they are.
use ai_trading_platform_mobi.Prelude.{
  ◌≡◌, refl, sym, ap, ◌∙◌, ◌≢◌, inl, inr, true, false, not, ◌||◌, Option, none, some, List, [], ◌∷◌,
  arith, is_some, Bool-cases, any, all, Result, ok, err, Ensures, Text, text_eq, lookup, contains,
  lookup-insert_ne, num, All,
}
use ai_trading_platform_mobi.Orders.Lifecycle.{
  OrderRecord, OrderLifecycle, LifecycleError, Outcome, put_order,
}
use ai_trading_platform_mobi.Orders.Lifecycle.Updates.{Step}
use ai_trading_platform_mobi.Orders.Lifecycle.Books.{IsBooked}
use ai_trading_platform_mobi.Orders.Lifecycle.Frame.{SameRow, update-SameRow, create-SameRow}
use ai_trading_platform_mobi.Orders.Reconciler.{
  BrokerOrder, ReconciliationAction, Reason, ReconciliationEvent, event, is_given, first_error,
  account_error, identity_error, AmbiguousBrokerOrderIdentity, find_local,
}
use ai_trading_platform_mobi.Orders.Reconciler.Foreign.{IsForeign, all_foreign}
use ai_trading_platform_mobi.Orders.Reconciler.Loop.{
  Answer, answer, local_id, follow_created, created_step, create_local, answer_missing,
  keep_broker_id, is_in_sync, follow, answer_checked, answer_found, reconcile_one, Report, report,
  answer_next, reconcile_from, reconcile,
}
use ai_trading_platform_mobi.Orders.Reconciler.Found.{IsStored, OfFound, find_local-IsStored}
use ai_trading_platform_mobi.Orders.Reconciler.Books.{answer_next-IsBooked}

answer_row :
    (j id : Text) (done : ReconciliationEvent) (rejected : LifecycleError → Reason) (step : Step)
    (s : OrderLifecycle)
    → SameRow j s step.1
    → SameRow j s (answer id done rejected step).1
answer_row j id done rejected (ok _, t) s h = h
answer_row j id done rejected (err e, t) s h = h

first_error-none : (e next : Option Reason) → first_error e next ≡ none → e ≡ none
first_error-none none next h = refl
first_error-none (some reason) next h = absurd (ground arith)

module _ (day : Text) (remote : BrokerOrder) (j : Text) where
  follow_created-SameRow :
      (s : OrderLifecycle) (r : Option OrderRecord)
      → j ≢ local_id remote
      → SameRow j s (follow_created day remote s r).1
  follow_created-SameRow s none other = refl
  follow_created-SameRow s (some o) other =
      update-SameRow j (local_id remote) other day remote.status remote.filled_quantity
        remote.average_fill_price
        (put_order (local_id remote) (record o { broker_order_id = some remote.order_id }) s)
      ∙ lookup-insert_ne (local_id remote) j (record o { broker_order_id = some remote.order_id })
          s.orders other

  created_step-SameRow :
      (s : OrderLifecycle) (m : Outcome OrderLifecycle)
      → j ≢ local_id remote
      → Ensures m (SameRow j s)
      → SameRow j s (created_step day remote s m).1
  created_step-SameRow s (err _) other h = refl
  created_step-SameRow s (ok t) other h =
      follow_created-SameRow t (lookup (local_id remote) t.orders) other ∙ h

  -- A remote that creates an order creates one that was not there.
  answer_missing-SameRow :
      (s : OrderLifecycle)
      → contains j s.orders ≡ true
      → SameRow j s (answer_missing day remote s).1
  unfolding answer_missing create_local
  answer_missing-SameRow s known = elim (Bool-cases (contains (local_id remote) s.orders)) [
    | inl e ↦ rw e refl
    | inr e ↦
        rw e
          (elim (Bool-cases
            (not (is_some remote.broker_account_id) || not (is_given remote.broker_route))) [
              | inl k ↦ rw k refl
              | inr k ↦ rw k (
                  answer_row j remote.order_id
                    (event remote.order_id ReconciliationAction.create Reason.missing_local_order)
                    Reason.update_rejected _ s
                    (created_step-SameRow s _ (other e) (
                      create-SameRow j (local_id remote) (other e) remote.symbol remote.side
                        (num remote.quantity) none remote.broker_account_id remote.broker_route s)))
            ])
  ]
    where
      other : contains (local_id remote) s.orders ≡ false → j ≢ local_id remote
      other absent same = absurd (ground (arith, known, absent, ap (λ k. contains k s.orders) same))

  follow-SameRow :
      (o : OrderRecord) (s : OrderLifecycle)
      → j ≢ o.order_id
      → SameRow j s (follow day remote o s).1
  unfolding follow
  follow-SameRow o s other = elim (Bool-cases (is_in_sync o remote)) [
    | inl e ↦ rw e refl
    | inr e ↦ rw e (
        answer_row j remote.order_id
          (event remote.order_id ReconciliationAction.update Reason.local_state_reconciled)
          Reason.update_rejected _ s
          (update-SameRow j o.order_id other day remote.status remote.filled_quantity
            remote.average_fill_price s))
  ]

  answer_checked-SameRow :
      (o : OrderRecord) (s : OrderLifecycle) (r : Option Reason)
      → (r ≡ none → j ≢ o.order_id)
      → SameRow j s (answer_checked day remote o s r).1
  answer_checked-SameRow o s (some _) other = refl
  answer_checked-SameRow o s none other =
      follow-SameRow (keep_broker_id remote.order_id o)
        (put_order o.order_id (keep_broker_id remote.order_id o) s) (other refl)
      ∙ lookup-insert_ne o.order_id j (keep_broker_id remote.order_id o) s.orders (other refl)

  -- An order that passes the identity check is of the remote's account.
  identity_error-account :
      (o : OrderRecord) → identity_error o remote ≡ none → account_error o remote ≡ none
  unfolding identity_error
  identity_error-account o h = first_error-none (account_error o remote) _ h

  answer_found-SameRow :
      (p : OrderRecord) (s : OrderLifecycle)
      (r : Result AmbiguousBrokerOrderIdentity (Option OrderRecord))
      → lookup j s.orders ≡ some p
      → is_some (account_error p remote) ≡ true
      → Ensures r (OfFound (IsStored s))
      → SameRow j s (answer_found day remote s r).1
  answer_found-SameRow p s (err _) at foreign h = refl
  answer_found-SameRow p s (ok none) at foreign h = answer_missing-SameRow s (ap is_some at)
  answer_found-SameRow p s (ok (some o)) at foreign h =
      answer_checked-SameRow o s (identity_error o remote) (λ passed same. absurd (
        ground (
          arith,
          foreign,
          identity_error-account o passed,
          sym at ∙ ap (λ k. lookup k s.orders) same ∙ h,
        )))

  answer_next-SameRow :
      (seen : List Text) (p : OrderRecord) (s : OrderLifecycle)
      → IsBooked s
      → lookup j s.orders ≡ some p
      → is_some (account_error p remote) ≡ true
      → SameRow j s (answer_next day seen remote s).1
  unfolding answer_next reconcile_one
  answer_next-SameRow seen p s b at foreign =
      elim (Bool-cases (any (text_eq remote.order_id) seen)) [
        | inl e ↦ rw e refl
        | inr e ↦ rw e (
            answer_found-SameRow p s (find_local remote s) at foreign
              (find_local-IsStored remote s b))
      ]

report_row :
    (j : Text) (p : OrderRecord) (a : Answer) (rest : Report)
    → lookup j a.1.orders ≡ some p
    → lookup j rest.1.orders ≡ some p
    → lookup j (report a rest).1.orders ≡ some p
report_row j p (err _, s) rest h k = h
report_row j p (ok _, s) (err _, t) h k = k
report_row j p (ok _, s) (ok _, t) h k = k

reconcile_from-foreign :
    (day : Text) (seen : List Text) (remotes : List BrokerOrder) (j : Text) (p : OrderRecord)
    (s : OrderLifecycle)
    → IsBooked s
    → lookup j s.orders ≡ some p
    → all (λ r. is_some (account_error p r)) remotes ≡ true
    → lookup j (reconcile_from day seen remotes s).1.orders ≡ some p
unfolding reconcile_from
reconcile_from-foreign day seen [] j p s b at foreign = at
reconcile_from-foreign day seen (remote ∷ remotes) j p s b at foreign =
    let kept : lookup j (answer_next day seen remote s).1.orders ≡ some p =
      answer_next-SameRow day remote j seen p s b at (ground arith) ∙ at in
    report_row j p (answer_next day seen remote s)
      (reconcile_from day (remote.order_id ∷ seen) remotes (answer_next day seen remote s).1) kept
      (reconcile_from-foreign day (remote.order_id ∷ seen) remotes j p
        (answer_next day seen remote s).1 (answer_next-IsBooked day seen remote s b) kept
        (ground arith))

-- On kept books, an order whose account or route no order of the snapshot has stands after
-- `reconcile` as before, whatever ids the snapshot names.
pub reconcile-foreign :
    (day : Text) (remotes : List BrokerOrder) (j : Text) (p : OrderRecord) (s : OrderLifecycle)
    → IsBooked s
    → lookup j s.orders ≡ some p
    → All (IsForeign p) remotes
    → lookup j (reconcile day remotes s).1.orders ≡ some p
unfolding reconcile
reconcile-foreign day remotes j p s b at foreign =
    reconcile_from-foreign day [] remotes j p s b at (all_foreign p remotes foreign)
