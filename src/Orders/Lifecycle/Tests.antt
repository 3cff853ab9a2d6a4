-- ===== src/Orders/Lifecycle/Tests.antt =====
-- Runs of the order lifecycle on two orders of one symbol.
use ai_trading_platform_mobi.Prelude.{
  ◌≡◌, refl, ◌≢◌, none, some, [], ◌∷◌, arith, ok, err, pos, ◌+ℤ◌, Text, codes, text_eq_iff, strip,
  upper, lookup, num, Ensures-ok, whole, is_positive,
}
use ai_trading_platform_mobi.Orders.StateMachine.{OrderState, transition}
use ai_trading_platform_mobi.Orders.Lifecycle.{
  OrderStatus, OrderRecord, state_of, OrderLifecycle, empty_lifecycle, LifecycleError, new_order,
  create, transition_machine,
}
use ai_trading_platform_mobi.Orders.Lifecycle.Updates.{
  filled_order, check_fill, book_fill, fill_order, apply_fill, is_fill_status, check_update,
  book_price, update_order, update,
}
use ai_trading_platform_mobi.Orders.Lifecycle.Books.{net_applied, IsBooked}
use ai_trading_platform_mobi.Orders.Lifecycle.Calls.{create-IsBooked}
use ai_trading_platform_mobi.Orders.Lifecycle.Invariant.{update-IsBooked}
use ai_trading_platform_mobi.Orders.Lifecycle.Rejected.{
  HasFill, apply_fill-mismatch, HasUpdate, update-unpriced,
}
use ai_trading_platform_mobi.Orders.Lifecycle.Positions.{
  opt_text_eq, new_position, apply_to, apply_position_delta,
}

abbrev order : Text → OrderRecord
order account =
    new_order (codes "A1") (codes "INFY") (codes "BUY") (pos 10) none (some account)
      (some (codes "DHAN"))

abbrev one_order : OrderLifecycle
one_order = record empty_lifecycle {
  orders = (codes "A1", order (codes "7")) ∷ [];
  machines = (codes "A1", record { state = OrderState.created }) ∷ [];
}

create_runs :
    create
      (codes "A1")
      (codes " infy")
      (codes "buy")
      (num (pos 10))
      none
      (some (codes "7"))
      (some (codes "DHAN"))
      empty_lifecycle
    ≡ ok one_order
unfolding create strip upper
create_runs = refl

empty-IsBooked : IsBooked empty_lifecycle
unfolding net_applied
empty-IsBooked = record {
  unique = tt;
  sound = λ id. tt;
  open_positions = (tt, λ symbol. tt);
  position_is = λ symbol. refl;
}

one_order-IsBooked : IsBooked one_order
one_order-IsBooked =
    Ensures-ok IsBooked _
      (create-IsBooked (codes "A1") (codes " infy") (codes "buy") (num (pos 10)) none
        (some (codes "7")) (some (codes "DHAN")) empty_lifecycle empty-IsBooked)
      create_runs

-- The position of another account stands at the symbol of the order.
abbrev taken_symbol : OrderLifecycle
taken_symbol = record one_order {
  positions = (codes "INFY", new_position (order (codes "8")) (pos 3) (whole (pos 100))) ∷ [];
}

other_id : codes "A2" ≢ codes "A1"
other_id same = absurd (ground (arith, text_eq_iff (codes "A2") (codes "A1"), same))

fills_halves :
    (apply_fill (codes "d") (codes "A1") (pos 4) (whole (pos 100)) none one_order).0 ≡ ok tt
unfolding apply_fill fill_order check_fill transition_machine transition book_fill filled_order
    apply_position_delta apply_to is_positive ◌+ℤ◌ state_of
fills_halves = refl

mismatches :
    (apply_fill (codes "d") (codes "A1") (pos 4) (whole (pos 100)) none taken_symbol).0
    ≡ err LifecycleError.context_mismatch
unfolding apply_fill fill_order check_fill transition_machine transition book_fill filled_order
    apply_position_delta apply_to is_positive opt_text_eq ◌+ℤ◌ state_of
mismatches = refl

rejects_price :
    (update (codes "d") (codes "A1") OrderStatus.filled (pos 10) (some (whole (pos 0))) one_order).0
    ≡ err LifecycleError.price_not_positive
unfolding update update_order check_update is_fill_status transition_machine transition book_price
    is_positive state_of
rejects_price = refl

update-IsBooked_example :
    IsBooked
      (update
        (codes "d")
        (codes "A1")
        OrderStatus.filled
        (pos 10)
        (some (whole (pos 100)))
        one_order).1
update-IsBooked_example =
    update-IsBooked (codes "d") (codes "A1") OrderStatus.filled (pos 10) (some (whole (pos 100)))
      one_order one_order-IsBooked

apply_fill-mismatch_example :
    ((p : OrderRecord) × (lookup
          (codes "A1")
          (apply_fill (codes "d") (codes "A1") (pos 4) (whole (pos 100)) none taken_symbol).1.orders
        ≡ some p)
      × HasFill (order (codes "7")) (pos 4) (whole (pos 100)) p)
    × (lookup
          (codes "A2")
          (apply_fill (codes "d") (codes "A1") (pos 4) (whole (pos 100)) none taken_symbol).1.orders
        ≡ none)
    × ((apply_fill (codes "d") (codes "A1") (pos 4) (whole (pos 100)) none taken_symbol).1.positions
        ≡ taken_symbol.positions)
apply_fill-mismatch_example =
    apply_fill-mismatch (codes "d") (codes "A1") (pos 4) (whole (pos 100)) none taken_symbol
      (order (codes "7")) (codes "A2") refl other_id mismatches

update-unpriced_example :
    ((p : OrderRecord) × (lookup
          (codes "A1")
          (update
            (codes "d")
            (codes "A1")
            OrderStatus.filled
            (pos 10)
            (some (whole (pos 0)))
            one_order).1.orders
        ≡ some p)
      × HasUpdate (order (codes "7")) OrderStatus.filled (pos 10) p)
    × (lookup
          (codes "A2")
          (update
            (codes "d")
            (codes "A1")
            OrderStatus.filled
            (pos 10)
            (some (whole (pos 0)))
            one_order).1.orders
        ≡ none)
unfolding is_positive
update-unpriced_example =
    update-unpriced (codes "d") (codes "A1") OrderStatus.filled (pos 10) (whole (pos 0)) one_order
      (order (codes "7")) (codes "A2") refl other_id refl (λ e. absurd (ground (arith, e)))
      rejects_price
