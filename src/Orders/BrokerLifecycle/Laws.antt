-- ===== src/Orders/BrokerLifecycle/Laws.antt =====
-- What a lifecycle keeps as events are applied (backend/app/broker_order_lifecycle.py).
use ai_trading_platform_mobi.Prelude.{
  ◌≡◌, true, false, Option, none, some, List, [], ◌∷◌, ◌++◌, arith, last?, err, Ensures, ℤ, pos,
  ◌+ℤ◌, ◌≤ℤ◌, ◌<ℤ◌, Text, text_eq_iff, Value,
}
use ai_trading_platform_mobi.Orders.BrokerLifecycle.{
  OrderStatus, can_move, OrderLifecycleEvent, LifecycleError, OrderLifecycle, positive,
  non_negative, optional_positive, exceeds, make, moves_backwards, id_changes, or_old, apply,
  terminal,
}

abbrev IsPositive : Option ℤ → Type 0
IsPositive none = Unit
IsPositive (some x) = pos 0 <ℤ x

-- The quantity filled is at most the quantity requested, up to 1e-9.
abbrev FitsRequest : ℤ → Option ℤ → Type 0
FitsRequest quantity none = Unit
FitsRequest quantity (some requested) = quantity ≤ℤ requested +ℤ pos 1

pub record IsValid (o : OrderLifecycle) : Type 0 where
  pub filled_nonneg : pos 0 ≤ℤ o.filled_quantity
  pub requested_positive : IsPositive o.requested_quantity
  pub filled_fits : FitsRequest o.filled_quantity o.requested_quantity

non_negative-nonneg :
    (e : LifecycleError) (v : Value) → Ensures (non_negative e v) (λ x. pos 0 ≤ℤ x)
unfolding non_negative
non_negative-nonneg e v = ground arith

optional_positive-pos :
    (e : LifecycleError) (v : Option Value) → Ensures (optional_positive e v) (λ x. IsPositive x)
unfolding optional_positive positive
optional_positive-pos e v = ground arith

exceeds-fits : (x : ℤ) (r : Option ℤ) → IsPositive r → exceeds x r ≡ false → FitsRequest x r
unfolding exceeds ◌+ℤ◌
exceeds-fits x none h e = tt
exceeds-fits x (some r) h e = ground arith

-- A lifecycle that the constructor returns is valid.
pub make-IsValid :
    (status : OrderStatus) (requested : Option Value) (done : Value) (price : Option ℤ)
    (events : List OrderLifecycleEvent) (broker : Option Text)
    → Ensures (make status requested done price events broker) IsValid
unfolding make
make-IsValid status requested done price events broker = grind (
  arith,
  optional_positive-pos LifecycleError.bad_requested_quantity requested,
  non_negative-nonneg LifecycleError.bad_filled_quantity done,
  exceeds-fits,
)

pub apply-IsValid :
    (o : OrderLifecycle) (e : OrderLifecycleEvent) → IsValid o → Ensures (apply o e) IsValid
unfolding apply
apply-IsValid o e v =
    grind (
      arith,
      non_negative-nonneg LifecycleError.bad_filled_quantity e.filled_quantity,
      exceeds-fits,
    )

-- What an accepted event does to a lifecycle: it follows the table, never takes back a fill,
-- never rebinds a known broker id, and is appended to the log.
pub record Follows (o : OrderLifecycle) (e : OrderLifecycleEvent) (p : OrderLifecycle)
    : Type 0 where
  pub moved : can_move o.status e.status ≡ true
  pub status_is : p.status ≡ e.status
  pub grows : o.filled_quantity ≤ℤ p.filled_quantity
  pub request_kept : p.requested_quantity ≡ o.requested_quantity
  pub id_kept : (t : Text) → o.broker_order_id ≡ some t → p.broker_order_id ≡ some t
  pub logged : p.events ≡ o.events ++ e ∷ []
  pub in_time : moves_backwards e.timestamp (last? o.events) ≡ false

id_changes-or_old :
    (new old : Option Text) (t : Text)
    → id_changes new old ≡ false
    → old ≡ some t
    → or_old new old ≡ some t
unfolding id_changes
id_changes-or_old none old t h k = k
id_changes-or_old (some a) none t h k = cc
id_changes-or_old (some a) (some b) t h k = ground (arith, text_eq_iff a b)

-- An event is refused, or it is followed in all of these ways.
pub apply-Follows :
    (o : OrderLifecycle) (e : OrderLifecycleEvent) → Ensures (apply o e) (Follows o e)
unfolding apply
apply-Follows o e = grind (arith, id_changes-or_old)

-- A lifecycle in a terminal state refuses every event.
pub apply_of_terminal :
    (o : OrderLifecycle) (e : OrderLifecycleEvent)
    → terminal o ≡ true
    → apply o e ≡ err LifecycleError.cannot_transition
unfolding apply terminal can_move
apply_of_terminal o e h = ground arith
