-- ===== src/Orders/Lifecycle/Calls.antt =====
-- `create`, `mark_pending_reconciliation` and `apply_fill` of backend/app/order_lifecycle.py and the
-- books.
use ai_trading_platform_mobi.Orders.Lifecycle.Moves.{Moved, apply_position_delta-Moved}
use ai_trading_platform_mobi.Orders.StateMachine.{OrderState}
use ai_trading_platform_mobi.Orders.Lifecycle.{
  OrderStatus, OrderRecord, state_of, OrderLifecycle, LifecycleError, Outcome, put_order, opt_strip,
  is_blank_text, is_bad_owner, given_quantity, new_order, create, transition_machine, is_terminal,
  mark_order, mark_pending_reconciliation,
}
use ai_trading_platform_mobi.Orders.Lifecycle.Updates.{
  fill_status, filled_order, is_known_fill, add_fill_id, check_fill, settle_fill, book_fill,
  turned_fill, fill_order, apply_fill,
}
use ai_trading_platform_mobi.Orders.Lifecycle.Effect.{is_side, signed, AreOpen, Adds}
use ai_trading_platform_mobi.Orders.Lifecycle.Books.{
  share, net_applied, IsBooked, net_applied-new, written-IsBooked,
}
use ai_trading_platform_mobi.Orders.Lifecycle.Invariant.{
  Turned, transition_machine-Turned, after_machine-IsBooked, side_at,
}
use ai_trading_platform_mobi.Prelude.{
  ◌≡◌, refl, sym, ap, ◌∙◌, inl, inr, true, false, not, Option, none, some, arith, Bool-cases,
  is_empty, ok, err, raise_if, Ensures, ℤ, pos, ◌+ℤ◌, ◌-ℤ◌, ◌<ℤ◌, neg, leb_ℤ, int_laws, Text,
  text_eq, text_eq_iff, strip, upper, lookup, contains, insert, lookup-insert, insert-HasUniqueKeys,
  Value, finite, Ensures-bind, Ensures-then, subst, Fraction, Ensures-guard, plus_zero,
}

pub mark_pending-IsBooked :
    (id : Text) (s : OrderLifecycle)
    → IsBooked s
    → Ensures (mark_pending_reconciliation id s) IsBooked
unfolding mark_pending_reconciliation
mark_pending-IsBooked id s b = marked (lookup id s.orders) refl
  where
    marked :
        (r : Option OrderRecord) → lookup id s.orders ≡ r → Ensures (mark_order id s r) IsBooked
    marked none found = tt
    marked (some o) found = elim (Bool-cases (is_terminal o.status)) [
      | inl e ↦ rw e tt
      | inr e ↦ rw e (
          Ensures-bind IsBooked (transition_machine id OrderStatus.pending_reconciliation s) _
            (transition_machine-Turned id OrderStatus.pending_reconciliation s)
            (λ t turned.
              after_machine-IsBooked id o (record o { status = OrderStatus.pending_reconciliation })
                s t b found turned refl refl refl refl))
    ]

share_new :
    (k id symbol side : Text) (quantity : ℤ) (owner : Option ℤ) (account route : Option Text)
    → share k (new_order id symbol side quantity owner account route) ≡ pos 0
unfolding share signed neg
share_new k id symbol side quantity owner account route = ground arith

-- A new order has applied nothing.
new_order-IsBooked :
    (id symbol side : Text) (quantity : ℤ) (owner : Option ℤ) (account route : Option Text)
    (s : OrderLifecycle)
    → IsBooked s
    → contains id s.orders ≡ false
    → is_side side ≡ true
    → IsBooked (record s {
      orders = insert id (new_order id symbol side quantity owner account route) s.orders;
      machines = insert id (record { state = OrderState.created }) s.machines;
    })
unfolding state_of
new_order-IsBooked id symbol side quantity owner account route s b new sided = record {
  unique =
      insert-HasUniqueKeys id (new_order id symbol side quantity owner account route) s.orders
        b.unique;
  sound = λ j. elim (Bool-cases (text_eq j id)) [
    | inl e ↦
        rw
          (
            lookup-insert id j (new_order id symbol side quantity owner account route) s.orders,
            lookup-insert id j (record { state = OrderState.created }) s.machines,
            e,
          )
          (record { id_is = sym ((text_eq_iff j id).0 e); side_is = sided; machine_is = refl })
    | inr e ↦
        rw
          (
            lookup-insert id j (new_order id symbol side quantity owner account route) s.orders,
            lookup-insert id j (record { state = OrderState.created }) s.machines,
            e,
          )
          (b.sound j)
  ];
  open_positions = b.open_positions;
  position_is = λ k.
      b.position_is k
      ∙ plus_zero (net_applied k s.orders)
      ∙ sym (
          net_applied-new k id (new_order id symbol side quantity owner account route) s.orders
            (ground arith)
          ∙ ap (λ x. net_applied k s.orders +ℤ x)
              (share_new k id symbol side quantity owner account route));
}

pub create-IsBooked :
    (id symbol side : Text) (quantity : Value) (owner : Option ℤ) (account route : Option Text)
    (s : OrderLifecycle)
    → IsBooked s
    → Ensures (create id symbol side quantity owner account route s) IsBooked
unfolding create
create-IsBooked id symbol side quantity owner account route s b =
    Ensures-then IsBooked (raise_if (is_empty (strip id)) LifecycleError.order_id_required) _ (λ _.
      Ensures-guard IsBooked (contains id s.orders) LifecycleError.duplicate_order _ (λ new.
        Ensures-then IsBooked
          (raise_if (is_empty (upper (strip symbol))) LifecycleError.symbol_required) _
          (λ _.
            Ensures-guard IsBooked (not (is_side (upper (strip side)))) LifecycleError.invalid_side
              _
              (λ sided. Ensures-then IsBooked (given_quantity (finite quantity)) _ (λ q.
                Ensures-then IsBooked (raise_if (is_bad_owner owner) LifecycleError.invalid_owner) _
                  (λ _.
                    Ensures-then IsBooked
                      (raise_if (is_blank_text account) LifecycleError.empty_account) _
                      (λ _.
                        Ensures-then IsBooked
                          (raise_if (is_blank_text route) LifecycleError.empty_route) _
                          (λ _.
                            new_order-IsBooked id (upper (strip symbol)) (upper (strip side)) q
                              owner (opt_strip account) (opt_strip route) s b new
                              (ground arith)))))))))

add_fill_id-IsBooked :
    (fill_id : Option Text) (s : OrderLifecycle) → IsBooked s → IsBooked (add_fill_id fill_id s)
add_fill_id-IsBooked none s b = b
add_fill_id-IsBooked (some fill) s b = record {
  unique = b.unique;
  sound = b.sound;
  open_positions = b.open_positions;
  position_is = b.position_is;
}

applied_more :
    (o : OrderRecord) (quantity : ℤ)
    → o.filled_quantity ≡ o.applied_fill_quantity
    → quantity ≡ (o.filled_quantity +ℤ quantity) -ℤ o.applied_fill_quantity
applied_more o quantity settled = rw settled (omega int_laws)

-- The order is written with its fill, and its position has moved.
filled-IsBooked :
    (id : Text) (o : OrderRecord) (quantity : ℤ) (price : Fraction) (s t u : OrderLifecycle)
    → IsBooked s
    → lookup id s.orders ≡ some o
    → o.filled_quantity ≡ o.applied_fill_quantity
    → Turned id (fill_status o (o.filled_quantity +ℤ quantity)) s t
    → Moved
        (filled_order o quantity price)
        quantity
        (put_order id (filled_order o quantity price) t)
        u
    → IsBooked u
unfolding filled_order
filled-IsBooked id o quantity price s t u b found settled turned moved =
    written-IsBooked id o (filled_order o quantity price) s u b found
      (moved.orders_same ∙ ap (insert id (filled_order o quantity price)) turned.orders_same)
      (λ j.
        ap (lookup j) (moved.machines_same ∙ turned.machines_are)
        ∙ lookup-insert id j
            (record { state = state_of (fill_status o (o.filled_quantity +ℤ quantity)) })
            s.machines)
      refl refl refl
      (subst
        (λ d.
          Adds o.symbol (signed o.side (o.filled_quantity +ℤ quantity -ℤ o.applied_fill_quantity)) d
            u.positions)
        turned.positions_same
        (subst (λ q. Adds o.symbol (signed o.side q) t.positions u.positions)
          (applied_more o quantity settled) moved.adds))

settle_fill-IsBooked :
    (id : Text) (o : OrderRecord) (quantity : ℤ) (price : Fraction) (fill_id : Option Text)
    (s t : OrderLifecycle) (m : Outcome OrderLifecycle)
    → IsBooked s
    → lookup id s.orders ≡ some o
    → o.filled_quantity ≡ o.applied_fill_quantity
    → Turned id (fill_status o (o.filled_quantity +ℤ quantity)) s t
    → Ensures m (
        Moved
          (filled_order o quantity price)
          quantity
          (put_order id (filled_order o quantity price) t))
    → (settle_fill fill_id (put_order id (filled_order o quantity price) t) m).0 ≡ ok tt
    → IsBooked (settle_fill fill_id (put_order id (filled_order o quantity price) t) m).1
settle_fill-IsBooked id o quantity price fill_id s t (err _) b found settled turned h returned =
    absurd (ground arith)
settle_fill-IsBooked id o quantity price fill_id s t (ok u) b found settled turned h returned =
    add_fill_id-IsBooked fill_id u
      (filled-IsBooked id o quantity price s t u b found settled turned h)

turned_fill-IsBooked :
    (day id : Text) (o : OrderRecord) (quantity : ℤ) (price : Fraction) (fill_id : Option Text)
    (s : OrderLifecycle) (m : Outcome OrderLifecycle)
    → IsBooked s
    → lookup id s.orders ≡ some o
    → o.filled_quantity ≡ o.applied_fill_quantity
    → pos 0 <ℤ quantity
    → Ensures m (Turned id (fill_status o (o.filled_quantity +ℤ quantity)) s)
    → (turned_fill day id o quantity price fill_id s m).0 ≡ ok tt
    → IsBooked (turned_fill day id o quantity price fill_id s m).1
unfolding book_fill filled_order
turned_fill-IsBooked day id o quantity price fill_id s (err _) b found settled more h returned = b
turned_fill-IsBooked day id o quantity price fill_id s (ok t) b found settled more h returned =
    settle_fill-IsBooked id o quantity price fill_id s t _ b found settled h
      (apply_position_delta-Moved day (filled_order o quantity price) quantity price
        (put_order id (filled_order o quantity price) t) more (side_at id o s b found)
        (subst AreOpen (sym h.positions_same) b.open_positions))
      returned

fill_order-IsBooked :
    (day id : Text) (o : OrderRecord) (quantity : ℤ) (price : Fraction) (fill_id : Option Text)
    (s : OrderLifecycle)
    → IsBooked s
    → lookup id s.orders ≡ some o
    → o.filled_quantity ≡ o.applied_fill_quantity
    → (fill_order day id o quantity price fill_id s).0 ≡ ok tt
    → IsBooked (fill_order day id o quantity price fill_id s).1
unfolding fill_order check_fill
fill_order-IsBooked day id o quantity price fill_id s b found settled returned =
    elim (Bool-cases (leb_ℤ quantity (pos 0))) [
      | inl e ↦ rw e b
      | inr e ↦
          turned_fill-IsBooked day id o quantity price fill_id s _ b found settled (ground arith)
            (Ensures-then (Turned id (fill_status o (o.filled_quantity +ℤ quantity)) s)
              (check_fill o quantity price) _
              (λ _. transition_machine-Turned id (fill_status o (o.filled_quantity +ℤ quantity)) s))
            returned
    ]

-- A fill that returns keeps the books, where all that the order says is filled is applied.
pub apply_fill-IsBooked :
    (day id : Text) (quantity : ℤ) (price : Fraction) (fill_id : Option Text) (s : OrderLifecycle)
    (o : OrderRecord)
    → IsBooked s
    → lookup id s.orders ≡ some o
    → o.filled_quantity ≡ o.applied_fill_quantity
    → (apply_fill day id quantity price fill_id s).0 ≡ ok tt
    → IsBooked (apply_fill day id quantity price fill_id s).1
unfolding apply_fill
apply_fill-IsBooked day id quantity price fill_id s o b found settled returned =
    elim (Bool-cases (is_known_fill fill_id s)) [
      | inl e ↦ rw (apply_fill, found, e) b
      | inr e ↦
          rw (apply_fill, found, e)
            (fill_order-IsBooked day id o quantity price fill_id s b found settled
              (rw (apply_fill, found, e) at returned))
    ]
