-- ===== src/Orders/Lifecycle/Rejected.antt =====
-- What `apply_fill` and `transition` of backend/app/order_lifecycle.py leave when they raise after
-- the row of the order is written.
use ai_trading_platform_mobi.Prelude.{
  ◌≡◌, refl, ap, ◌∙◌, ◌≢◌, ◌⊎◌, inl, inr, false, Option, none, some, arith, Bool-cases, Result, ok,
  err, ◌>>=◌, Ensures, ℤ, ◌+ℤ◌, eq_ℤ, Text, lookup, insert, lookup-insert_self, lookup-insert_ne,
  Ensures-then, Fraction, frac_add, frac_scale, frac_div, is_positive, eq_ℤ_path,
}
use ai_trading_platform_mobi.Orders.StateMachine.{
  OrderStateMachine, InvalidOrderTransition, transition,
}
use ai_trading_platform_mobi.Orders.Lifecycle.{
  OrderStatus, OrderRecord, state_of, OrderLifecycle, LifecycleError, Outcome, put_order,
  store_machine, turn_machine, transition_machine,
}
use ai_trading_platform_mobi.Orders.Lifecycle.Updates.{
  fill_status, filled_order, is_known_fill, check_fill, settle_fill, book_fill, turned_fill,
  fill_order, apply_fill, check_update, book_price, written_order, turned_update, update_order,
  update,
}
use ai_trading_platform_mobi.Orders.Lifecycle.Invariant.{Turned, transition_machine-Turned}

transition_machine-raises :
    (id : Text) (status : OrderStatus) (s : OrderLifecycle) (e : LifecycleError)
    → transition_machine id status s ≡ err e
    → (e ≡ LifecycleError.unknown_order) ⊎ (e ≡ LifecycleError.invalid_transition)
unfolding transition_machine
transition_machine-raises id status s e h = raised (lookup id s.machines) h
  where
    stored :
        (r : Result InvalidOrderTransition OrderStateMachine)
        → store_machine id s r ≡ err e
        → (e ≡ LifecycleError.unknown_order) ⊎ (e ≡ LifecycleError.invalid_transition)
    stored (err _) k = inr (ground arith)
    stored (ok m) k = absurd (ground arith)

    raised :
        (m : Option OrderStateMachine)
        → turn_machine id status s m ≡ err e
        → (e ≡ LifecycleError.unknown_order) ⊎ (e ≡ LifecycleError.invalid_transition)
    raised none k = inl (ground arith)
    raised (some m) k = stored (transition m (state_of status)) k

turned_fill-mismatch :
    (day id : Text) (o : OrderRecord) (quantity : ℤ) (price : Fraction) (fill_id : Option Text)
    (s : OrderLifecycle) (m : Outcome OrderLifecycle)
    → Ensures m (Turned id (fill_status o (o.filled_quantity +ℤ quantity)) s)
    → m ≢ err LifecycleError.context_mismatch
    → (turned_fill day id o quantity price fill_id s m).0 ≡ err LifecycleError.context_mismatch
    → ((turned_fill day id o quantity price fill_id s m).1.orders
        ≡ insert id (filled_order o quantity price) s.orders)
      × ((turned_fill day id o quantity price fill_id s m).1.positions ≡ s.positions)
unfolding book_fill
turned_fill-mismatch day id o quantity price fill_id s (err e) h n r =
    absurd (n (ground (arith, r)))
turned_fill-mismatch day id o quantity price fill_id s (ok t) h n r = settled _ r
  where
    settled :
        (u : Outcome OrderLifecycle)
        → (settle_fill fill_id (put_order id (filled_order o quantity price) t) u).0
          ≡ err LifecycleError.context_mismatch
        → ((settle_fill fill_id (put_order id (filled_order o quantity price) t) u).1.orders
            ≡ insert id (filled_order o quantity price) s.orders)
          × ((settle_fill fill_id (put_order id (filled_order o quantity price) t) u).1.positions
              ≡ s.positions)
    settled (err _) k =
        (ap (insert id (filled_order o quantity price)) h.orders_same, h.positions_same)
    settled (ok _) k = absurd (ground arith)

checked-mismatch :
    (id : Text) (o : OrderRecord) (quantity : ℤ) (price : Fraction) (s : OrderLifecycle)
    → (check_fill o quantity price >>= λ _.
        transition_machine id (fill_status o (o.filled_quantity +ℤ quantity)) s)
      ≢ err LifecycleError.context_mismatch
unfolding check_fill
checked-mismatch id o quantity price s h = ground (
  arith,
  transition_machine-raises id (fill_status o (o.filled_quantity +ℤ quantity)) s
      LifecycleError.context_mismatch,
)

written_fill :
    (day id : Text) (quantity : ℤ) (price : Fraction) (fill_id : Option Text) (s : OrderLifecycle)
    (o : OrderRecord)
    → lookup id s.orders ≡ some o
    → (apply_fill day id quantity price fill_id s).0 ≡ err LifecycleError.context_mismatch
    → ((apply_fill day id quantity price fill_id s).1.orders
        ≡ insert id (filled_order o quantity price) s.orders)
      × ((apply_fill day id quantity price fill_id s).1.positions ≡ s.positions)
unfolding apply_fill fill_order
written_fill day id quantity price fill_id s o found raised =
    elim (Bool-cases (is_known_fill fill_id s)) [
      | inl e ↦ absurd (ground (arith, rw (apply_fill, found, e) at raised))
      | inr e ↦
          rw (apply_fill, found, e)
            (turned_fill-mismatch day id o quantity price fill_id s _
              (Ensures-then (Turned id (fill_status o (o.filled_quantity +ℤ quantity)) s)
                (check_fill o quantity price) _
                (λ _.
                  transition_machine-Turned id (fill_status o (o.filled_quantity +ℤ quantity)) s))
              (checked-mismatch id o quantity price s) (rw (apply_fill, found, e) at raised))
    ]

-- The row of an order that has a fill of the quantity and the price in it: what is filled and what
-- is applied have grown by it, the value by quantity times price, and the price is their quotient.
pub record HasFill (o : OrderRecord) (quantity : ℤ) (price : Fraction) (p : OrderRecord)
    : Type 0 where
  pub filled_grown : p.filled_quantity ≡ o.filled_quantity +ℤ quantity
  pub applied_is : p.applied_fill_quantity ≡ o.filled_quantity +ℤ quantity
  pub value_grown : p.applied_fill_value ≡ frac_add o.applied_fill_value (frac_scale price quantity)
  pub average_is :
      p.average_fill_price ≡ some (frac_div p.applied_fill_value p.applied_fill_quantity)
  pub side_same : p.side ≡ o.side
  pub quantity_same : p.quantity ≡ o.quantity

filled_order-HasFill :
    (o : OrderRecord) (quantity : ℤ) (price : Fraction)
    → HasFill o quantity price (filled_order o quantity price)
unfolding filled_order
filled_order-HasFill o quantity price = record {
  filled_grown = refl;
  applied_is = refl;
  value_grown = refl;
  average_is = refl;
  side_same = refl;
  quantity_same = refl;
}

-- A fill that raises for a position of another account has already filled the order: its row has the
-- fill in its quantities, value and price, the rows of all other orders are the old ones, and so are
-- the positions.
pub apply_fill-mismatch :
    (day id : Text) (quantity : ℤ) (price : Fraction) (fill_id : Option Text) (s : OrderLifecycle)
    (o : OrderRecord) (j : Text)
    → lookup id s.orders ≡ some o
    → j ≢ id
    → (apply_fill day id quantity price fill_id s).0 ≡ err LifecycleError.context_mismatch
    → ((p : OrderRecord) × (lookup id (apply_fill day id quantity price fill_id s).1.orders
          ≡ some p)
        × HasFill o quantity price p)
      × (lookup j (apply_fill day id quantity price fill_id s).1.orders ≡ lookup j s.orders)
      × ((apply_fill day id quantity price fill_id s).1.positions ≡ s.positions)
apply_fill-mismatch day id quantity price fill_id s o j found other raised =
    let (orders, positions) = written_fill day id quantity price fill_id s o found raised in
    (
      (
        filled_order o quantity price,
        ap (lookup id) orders ∙ lookup-insert_self id (filled_order o quantity price) s.orders,
        filled_order-HasFill o quantity price,
      ),
      ap (lookup j) orders ∙ lookup-insert_ne id j (filled_order o quantity price) s.orders other,
      positions,
    )

turned_update-unpriced :
    (day id : Text) (o : OrderRecord) (status : OrderStatus) (filled : ℤ) (price : Fraction)
    (s : OrderLifecycle) (m : Outcome OrderLifecycle)
    → is_positive price ≡ false
    → Ensures m (Turned id status s)
    → m ≢ err LifecycleError.price_not_positive
    → (turned_update day id o status filled (some price) s m).0
      ≡ err LifecycleError.price_not_positive
    → (turned_update day id o status filled (some price) s m).1.orders
      ≡ insert id (written_order o status filled) s.orders
unfolding book_price
turned_update-unpriced day id o status filled price s (err e) low h n r =
    absurd (n (ground (arith, r)))
turned_update-unpriced day id o status filled price s (ok t) low h n r =
    rw low (ap (insert id (written_order o status filled)) h.orders_same)

checked-unpriced :
    (id : Text) (o : OrderRecord) (status : OrderStatus) (filled : ℤ) (price : Option Fraction)
    (s : OrderLifecycle)
    → eq_ℤ filled o.applied_fill_quantity ≡ false
    → (check_update o status filled price >>= λ _. transition_machine id status s)
      ≢ err LifecycleError.price_not_positive
unfolding check_update
checked-unpriced id o status filled price s more h =
    ground (arith, transition_machine-raises id status s LifecycleError.price_not_positive)

written_update :
    (day id : Text) (status : OrderStatus) (filled : ℤ) (price : Fraction) (s : OrderLifecycle)
    (o : OrderRecord)
    → lookup id s.orders ≡ some o
    → is_positive price ≡ false
    → eq_ℤ filled o.applied_fill_quantity ≡ false
    → (update day id status filled (some price) s).0 ≡ err LifecycleError.price_not_positive
    → (update day id status filled (some price) s).1.orders
      ≡ insert id (written_order o status filled) s.orders
unfolding update update_order
written_update day id status filled price s o found low more raised =
    rw (update, found)
      (turned_update-unpriced day id o status filled price s _ low
        (Ensures-then (Turned id status s) (check_update o status filled (some price)) _
          (λ _. transition_machine-Turned id status s))
        (checked-unpriced id o status filled (some price) s more) (rw (update, found) at raised))

-- The row of an order whose status and filled quantity are new, and nothing else
pub record HasUpdate (o : OrderRecord) (status : OrderStatus) (filled : ℤ) (p : OrderRecord)
    : Type 0 where
  pub status_is : p.status ≡ status
  pub filled_is : p.filled_quantity ≡ filled
  pub applied_same : p.applied_fill_quantity ≡ o.applied_fill_quantity
  pub value_same : p.applied_fill_value ≡ o.applied_fill_value
  pub average_same : p.average_fill_price ≡ o.average_fill_price

-- A transition to another filled quantity than the applied one that raises because its fill price is
-- not positive has already given the order the new status and filled quantity, while what is applied
-- and its value and price are the old ones. The rows of all other orders are the old ones.
pub update-unpriced :
    (day id : Text) (status : OrderStatus) (filled : ℤ) (price : Fraction) (s : OrderLifecycle)
    (o : OrderRecord) (j : Text)
    → lookup id s.orders ≡ some o
    → j ≢ id
    → is_positive price ≡ false
    → filled ≢ o.applied_fill_quantity
    → (update day id status filled (some price) s).0 ≡ err LifecycleError.price_not_positive
    → ((p : OrderRecord) × (lookup id (update day id status filled (some price) s).1.orders
          ≡ some p)
        × HasUpdate o status filled p)
      × (lookup j (update day id status filled (some price) s).1.orders ≡ lookup j s.orders)
update-unpriced day id status filled price s o j found other low more raised =
    let written = written_update day id status filled price s o found low differs raised in
    (
      (
        written_order o status filled,
        ap (lookup id) written ∙ lookup-insert_self id (written_order o status filled) s.orders,
        record {
          status_is = refl;
          filled_is = refl;
          applied_same = refl;
          value_same = refl;
          average_same = refl;
        },
      ),
      ap (lookup j) written ∙ lookup-insert_ne id j (written_order o status filled) s.orders other,
    )
  where
    differs : eq_ℤ filled o.applied_fill_quantity ≡ false
    differs = ground (arith, more, eq_ℤ_path filled o.applied_fill_quantity)
