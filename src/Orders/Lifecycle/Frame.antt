-- ===== src/Orders/Lifecycle/Frame.antt =====
-- A call of backend/app/order_lifecycle.py changes the row of its own order only.
use ai_trading_platform_mobi.Prelude.{
  ◌≡◌, refl, ap, ◌∙◌, ◌≢◌, inl, inr, not, ◌||◌, Option, none, some, Bool-cases, Option-cases,
  is_empty, ok, err, raise_if, Ensures, ℤ, pos, ◌-ℤ◌, ltb_ℤ, Text, text_eq, strip, upper, lookup,
  contains, lookup-insert_ne, Value, finite, Ensures-then, Fraction, frac_sub, frac_scale,
  is_positive,
}
use ai_trading_platform_mobi.Orders.Lifecycle.{
  OrderStatus, OrderRecord, OrderLifecycle, LifecycleError, Outcome, put_order, opt_strip,
  is_blank_text, is_bad_owner, given_quantity, new_order, create,
}
use ai_trading_platform_mobi.Orders.Lifecycle.Positions.{
  opt_text_eq, record_realized_pnl, apply_to, apply_position_delta,
}
use ai_trading_platform_mobi.Orders.Lifecycle.Updates.{
  check_update, booked_order, settle_value, book_value, book_delta, book_price, written_order,
  turned_update, update_order, update,
}
use ai_trading_platform_mobi.Orders.Lifecycle.Invariant.{Turned, transition_machine-Turned}
use ai_trading_platform_mobi.Orders.Lifecycle.Effect.{is_side}

-- The row of `j` is the one before.
abbrev pub SameRow : Text → OrderLifecycle → OrderLifecycle → Type 0
SameRow j s t = lookup j t.orders ≡ lookup j s.orders

apply_position_delta-orders :
    (day : Text) (o : OrderRecord) (quantity : ℤ) (price : Fraction) (s : OrderLifecycle)
    → Ensures (apply_position_delta day o quantity price s) (λ t. t.orders ≡ s.orders)
unfolding apply_position_delta apply_to record_realized_pnl
apply_position_delta-orders day o quantity price s =
    elim (Option-cases (lookup o.symbol s.positions)) [
      | inl absent ↦ rw absent refl
      | inr (p, found) ↦
          rw found
            (elim (Bool-cases (
              not (opt_text_eq p.broker_account_id o.broker_account_id)
              || not (opt_text_eq p.broker_route o.broker_route))) [
                | inl e ↦ rw e tt
                | inr e ↦ rw e (elim (Bool-cases (text_eq p.side o.side)) [
                  | inl k ↦ rw k refl
                  | inr k ↦ rw k refl
                ])
              ])
    ]

module _ (j id : Text) (other : j ≢ id) where
  put_order-SameRow : (o : OrderRecord) (s : OrderLifecycle) → SameRow j s (put_order id o s)
  put_order-SameRow o s = lookup-insert_ne id j o s.orders other

  settle_value-SameRow :
      (o : OrderRecord) (value : Fraction) (s : OrderLifecycle) (m : Outcome OrderLifecycle)
      → Ensures m (λ t. t.orders ≡ s.orders)
      → SameRow j s (settle_value id o value s m).1
  settle_value-SameRow o value s (err _) h = refl
  settle_value-SameRow o value s (ok t) h =
      put_order-SameRow (booked_order o o.filled_quantity value) t ∙ ap (lookup j) h

  book_value-SameRow :
      (day : Text) (o : OrderRecord) (average : Fraction) (s : OrderLifecycle)
      → SameRow j s (book_value day id o average s).1
  unfolding book_value
  book_value-SameRow day o average s =
      elim (Bool-cases
        (is_positive (frac_sub (frac_scale average o.filled_quantity) o.applied_fill_value))) [
          | inr e ↦ rw e refl
          | inl e ↦ rw e (
              settle_value-SameRow o (frac_scale average o.filled_quantity) s _ (
                apply_position_delta-orders day o (o.filled_quantity -ℤ o.applied_fill_quantity) _
                  s))
        ]

  book_delta-SameRow :
      (day : Text) (o : OrderRecord) (s : OrderLifecycle) → SameRow j s (book_delta day id o s).1
  unfolding book_delta
  book_delta-SameRow day o s =
      elim (Bool-cases (ltb_ℤ (pos 0) (o.filled_quantity -ℤ o.applied_fill_quantity))) [
        | inr e ↦ rw e refl
        | inl e ↦ rw e (elim (Option-cases o.average_fill_price) [
          | inl absent ↦ rw absent refl
          | inr (average, given) ↦ rw given (book_value-SameRow day o average s)
        ])
      ]

  book_price-SameRow :
      (day : Text) (o : OrderRecord) (price : Option Fraction) (s : OrderLifecycle)
      → SameRow j s (book_price day id o price s).1
  unfolding book_price
  book_price-SameRow day o none s = book_delta-SameRow day o s
  book_price-SameRow day o (some price) s = elim (Bool-cases (is_positive price)) [
    | inr e ↦ rw e refl
    | inl e ↦ rw e (
        book_delta-SameRow day (record o { average_fill_price = some price })
          (put_order id (record o { average_fill_price = some price }) s)
        ∙ put_order-SameRow (record o { average_fill_price = some price }) s)
  ]

  turned_update-SameRow :
      (day : Text) (o : OrderRecord) (status : OrderStatus) (filled : ℤ) (price : Option Fraction)
      (s : OrderLifecycle) (m : Outcome OrderLifecycle)
      → Ensures m (Turned id status s)
      → SameRow j s (turned_update day id o status filled price s m).1
  turned_update-SameRow day o status filled price s (err _) h = refl
  turned_update-SameRow day o status filled price s (ok t) h =
      book_price-SameRow day (written_order o status filled) price
        (put_order id (written_order o status filled) t)
      ∙ put_order-SameRow (written_order o status filled) t
      ∙ ap (lookup j) h.orders_same

  -- `transition` of another order
  pub update-SameRow :
      (day : Text) (status : OrderStatus) (filled : ℤ) (price : Option Fraction)
      (s : OrderLifecycle)
      → SameRow j s (update day id status filled price s).1
  unfolding update update_order
  update-SameRow day status filled price s = elim (Option-cases (lookup id s.orders)) [
    | inl absent ↦ rw (update, absent) refl
    | inr (o, found) ↦
        rw (update, found)
          (turned_update-SameRow day o status filled price s _ (
            Ensures-then (Turned id status s) (check_update o status filled price) _
              (λ _. transition_machine-Turned id status s)))
  ]

  pub create-SameRow :
      (symbol side : Text) (quantity : Value) (owner : Option ℤ) (account route : Option Text)
      (s : OrderLifecycle)
      → Ensures (create id symbol side quantity owner account route s) (SameRow j s)
  unfolding create
  create-SameRow symbol side quantity owner account route s =
      Ensures-then (SameRow j s) (raise_if (is_empty (strip id)) LifecycleError.order_id_required) _
        (λ _.
          Ensures-then (SameRow j s)
            (raise_if (contains id s.orders) LifecycleError.duplicate_order) _
            (λ _.
              Ensures-then (SameRow j s)
                (raise_if (is_empty (upper (strip symbol))) LifecycleError.symbol_required) _
                (λ _.
                  Ensures-then (SameRow j s)
                    (raise_if (not (is_side (upper (strip side)))) LifecycleError.invalid_side) _
                    (λ _. Ensures-then (SameRow j s) (given_quantity (finite quantity)) _ (λ q.
                      Ensures-then (SameRow j s)
                        (raise_if (is_bad_owner owner) LifecycleError.invalid_owner) _
                        (λ _.
                          Ensures-then (SameRow j s)
                            (raise_if (is_blank_text account) LifecycleError.empty_account) _
                            (λ _.
                              Ensures-then (SameRow j s)
                                (raise_if (is_blank_text route) LifecycleError.empty_route) _
                                (λ _.
                                  put_order-SameRow
                                    (new_order id (upper (strip symbol)) (upper (strip side)) q
                                      owner (opt_strip account) (opt_strip route))
                                    s))))))))
