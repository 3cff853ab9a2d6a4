-- ===== src/Orders/BrokerLifecycle/Tests.antt =====
-- Runs of the broker order lifecycle.
use ai_trading_platform_mobi.Prelude.{
  ℕ, ◌≡◌, refl, none, some, List, [], ◌∷◌, arith, length, Ensures, pos, ◌+ℤ◌, codes, strip, num,
}
use ai_trading_platform_mobi.Orders.BrokerLifecycle.{
  OrderStatus, can_move, OrderLifecycleEvent, OrderLifecycle, positive, non_negative,
  optional_positive, broker_id, exceeds, make, moves_backwards, id_changes, apply,
}
use ai_trading_platform_mobi.Orders.BrokerLifecycle.Laws.{IsValid, make-IsValid, apply-IsValid}
use ai_trading_platform_mobi.Orders.BrokerLifecycle.History.{run, Extends, run-Extends}

abbrev fresh : OrderLifecycle
fresh = record {
  status = OrderStatus.accepted;
  requested_quantity = some (pos 100);
  filled_quantity = pos 0;
  average_price = none;
  events = [];
  broker_order_id = none;
}

abbrev report : OrderStatus → ℕ → ℕ → OrderLifecycleEvent
report s t n = record {
  status = s;
  timestamp = t;
  broker_order_id = some (codes " B7 ");
  filled_quantity = num (pos n);
  average_price = some (num (pos 5));
  reason = none;
}

abbrev history : List OrderLifecycleEvent
history =
    report OrderStatus.partially_filled 3 40
    ∷ report OrderStatus.partially_filled 4 30
    ∷ report OrderStatus.filled 2 100
    ∷ report OrderStatus.filled 5 100
    ∷ report OrderStatus.cancelled 6 100
    ∷ []

history_ends :
    let o = run fresh history in
    (o.status ≡ OrderStatus.filled)
    × (o.filled_quantity ≡ pos 100)
    × (o.broker_order_id ≡ some (codes "B7"))
    × (length o.events ≡ 2)
unfolding run apply can_move non_negative optional_positive positive exceeds moves_backwards
    id_changes broker_id strip ◌+ℤ◌
history_ends = (refl, refl, refl, refl)

fresh-IsValid : IsValid fresh
unfolding ◌+ℤ◌
fresh-IsValid = ground arith

make-IsValid_example :
    Ensures (make OrderStatus.submitted (some (num (pos 9))) (num (pos 0)) none [] none) IsValid
make-IsValid_example =
    make-IsValid OrderStatus.submitted (some (num (pos 9))) (num (pos 0)) none [] none

apply-IsValid_example : Ensures (apply fresh (report OrderStatus.partially_filled 3 40)) IsValid
apply-IsValid_example = apply-IsValid fresh (report OrderStatus.partially_filled 3 40) fresh-IsValid

run-Extends_example : Extends fresh (run fresh history)
run-Extends_example = run-Extends fresh history fresh-IsValid tt

abbrev done : OrderLifecycle
done = record fresh { status = OrderStatus.filled }
