-- ===== src/Orders/BrokerLifecycle.antt =====
-- The broker's view of one order, backend/app/broker_order_lifecycle.py.
-- Quantities and prices count units of 1e-9, timestamps are instants on one clock.
pub mod Laws
pub mod History
mod Tests
use ai_trading_platform_mobi.Prelude.{
  ℕ, ◌==◌, ◌+◌, Bool, true, false, List, [], ◌∷◌, ◌++◌, any, is_empty, last?, Option, none, some,
  Result, ok, err, ◌>>=◌, ◌>>◌, raise_if, if◌then◌else◌, ltb, not, ◌&&◌, ℤ, pos, ◌+ℤ◌, ltb_ℤ, leb_ℤ,
  Value, finite, Text, text_eq, strip,
}

pub data OrderStatus : Type 0 where
  submitted accepted partially_filled filled rejected cancelled : OrderStatus

ordinal : OrderStatus → ℕ
ordinal OrderStatus.submitted = 0
ordinal OrderStatus.accepted = 1
ordinal OrderStatus.partially_filled = 2
ordinal OrderStatus.filled = 3
ordinal OrderStatus.rejected = 4
ordinal OrderStatus.cancelled = 5

status_eq : OrderStatus → OrderStatus → Bool
unfolding ordinal
status_eq a b = ordinal a == ordinal b

-- The table `_ALLOWED`.
allowed : OrderStatus → List OrderStatus
allowed OrderStatus.submitted =
    OrderStatus.accepted ∷ OrderStatus.rejected ∷ OrderStatus.cancelled ∷ []
allowed OrderStatus.accepted =
    OrderStatus.partially_filled ∷ OrderStatus.filled ∷ OrderStatus.rejected ∷ OrderStatus.cancelled
    ∷ []
allowed OrderStatus.partially_filled =
    OrderStatus.partially_filled ∷ OrderStatus.filled ∷ OrderStatus.cancelled ∷ OrderStatus.rejected
    ∷ []
allowed OrderStatus.filled = []
allowed OrderStatus.rejected = []
allowed OrderStatus.cancelled = []

-- `target in _ALLOWED[source]`
unfoldable pub can_move : OrderStatus → OrderStatus → Bool
unfolding status_eq allowed
can_move source target = any (status_eq target) (allowed source)

pub record OrderLifecycleEvent : Type 0 where
  pub status : OrderStatus
  pub timestamp : ℕ
  pub broker_order_id : Option Text
  pub filled_quantity : Value
  pub average_price : Option Value
  pub reason : Option Text

pub data LifecycleError : Type 0 where
  bad_requested_quantity bad_filled_quantity filled_exceeds_requested empty_broker_order_id
        cannot_transition filled_decreases timestamp_backwards bad_average_price
        broker_order_id_changes :
      LifecycleError

pub record OrderLifecycle : Type 0 where
  pub status : OrderStatus
  pub requested_quantity : Option ℤ
  pub filled_quantity : ℤ
  pub average_price : Option ℤ
  pub events : List OrderLifecycleEvent
  pub broker_order_id : Option Text

abbrev pub Outcome : Type 0 → Type 0
Outcome A = Result LifecycleError A

-- A finite number that is positive, or the error.
pub positive : LifecycleError → Value → Outcome ℤ
positive e v = elim (finite v) [ none ↦ err e | some x ↦ if leb_ℤ x (pos 0) then err e else ok x ]

-- A finite number that is not negative, or the error.
pub non_negative : LifecycleError → Value → Outcome ℤ
non_negative e v = elim (finite v) [
  | none ↦ err e
  | some x ↦ if ltb_ℤ x (pos 0) then err e else ok x
]

-- The same where `None` is let through.
pub optional_positive : LifecycleError → Option Value → Outcome (Option ℤ)
unfolding positive
optional_positive e none = ok none
optional_positive e (some v) = positive e v >>= λ x. ok (some x)

-- A broker's order id is stripped and must not be empty then.
pub broker_id : Option Text → Outcome (Option Text)
broker_id none = ok none
broker_id (some t) =
    if is_empty (strip t) then err LifecycleError.empty_broker_order_id else ok (some (strip t))

-- `filled > requested + 1e-9`, where a requested quantity is known
pub exceeds : ℤ → Option ℤ → Bool
exceeds quantity none = false
exceeds quantity (some requested) = ltb_ℤ (requested +ℤ pos 1) quantity

-- `OrderLifecycle(...)` with `__post_init__`
unfoldable pub make :
    OrderStatus
    → Option Value
    → Value
    → Option ℤ
    → List OrderLifecycleEvent
    → Option Text
    → Outcome OrderLifecycle
make status requested done price events broker = do
  limit ← optional_positive LifecycleError.bad_requested_quantity requested
  quantity ← non_negative LifecycleError.bad_filled_quantity done
  raise_if (exceeds quantity limit) LifecycleError.filled_exceeds_requested
  broker_order_id ← broker_id broker
  ok (record {
    status = status;
    requested_quantity = limit;
    filled_quantity = quantity;
    average_price = price;
    events = events;
    broker_order_id = broker_order_id;
  })

-- `self.events and event.timestamp < self.events[-1].timestamp`
pub moves_backwards : ℕ → Option OrderLifecycleEvent → Bool
moves_backwards t none = false
moves_backwards t (some e) = ltb t e.timestamp

-- The event's id differs from the one that is known.
pub id_changes : Option Text → Option Text → Bool
id_changes (some new) (some old) = not (text_eq new old)
id_changes (some _) none = false
id_changes none _ = false

-- `new` if it is given, else `old`
abbrev pub or_old {ℓ} : {A : Type ℓ} → Option A → Option A → Option A
or_old none old = old
or_old (some a) _ = some a

unfoldable pub apply : OrderLifecycle → OrderLifecycleEvent → Outcome OrderLifecycle
apply o event = do
  raise_if (not (can_move o.status event.status)) LifecycleError.cannot_transition
  quantity ← non_negative LifecycleError.bad_filled_quantity event.filled_quantity
  raise_if (ltb_ℤ quantity o.filled_quantity) LifecycleError.filled_decreases
  raise_if (exceeds quantity o.requested_quantity) LifecycleError.filled_exceeds_requested
  raise_if (moves_backwards event.timestamp (last? o.events)) LifecycleError.timestamp_backwards
  price ← optional_positive LifecycleError.bad_average_price event.average_price
  event_broker_order_id ← broker_id event.broker_order_id
  raise_if (id_changes event_broker_order_id o.broker_order_id)
      LifecycleError.broker_order_id_changes
  ok (record o {
    status = event.status;
    filled_quantity = quantity;
    average_price = or_old price o.average_price;
    broker_order_id = or_old event_broker_order_id o.broker_order_id;
    events = o.events ++ event ∷ [];
  })

unfoldable pub terminal : OrderLifecycle → Bool
unfolding status_eq
terminal o =
    any (status_eq o.status)
      (OrderStatus.filled ∷ OrderStatus.rejected ∷ OrderStatus.cancelled ∷ [])
