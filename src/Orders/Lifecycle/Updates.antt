-- ===== src/Orders/Lifecycle/Updates.antt =====
-- `apply_fill` and `transition` of backend/app/order_lifecycle.py. Both change the order before all
-- their checks are done, so a result stands beside the state that the call leaves.
use ai_trading_platform_mobi.Prelude.{
  Bool, true, false, not, ◌&&◌, Option, none, some, ◌∷◌, if◌then◌else◌, any, ok, err, ◌>>=◌, ◌>>◌,
  raise_if, ℤ, pos, ◌+ℤ◌, ◌-ℤ◌, ltb_ℤ, leb_ℤ, eq_ℤ, Text, text_eq, lookup, Fraction, frac_add,
  frac_sub, frac_scale, frac_div, is_positive, frac_apart,
}
use ai_trading_platform_mobi.Orders.Lifecycle.{
  OrderStatus, OrderRecord, OrderLifecycle, LifecycleError, Outcome, put_order, transition_machine,
}
use ai_trading_platform_mobi.Orders.Lifecycle.Positions.{apply_position_delta}

abbrev pub Step : Type 0
Step = Outcome (Unit {0}) × OrderLifecycle

abbrev pub fill_status : OrderRecord → ℤ → OrderStatus
fill_status o filled =
    if eq_ℤ filled o.quantity then OrderStatus.filled else OrderStatus.partially_filled

-- The order after a fill
unfoldable pub filled_order : OrderRecord → ℤ → Fraction → OrderRecord
filled_order o quantity price =
    let filled = o.filled_quantity +ℤ quantity in
    let value = frac_add o.applied_fill_value (frac_scale price quantity) in
    record o {
      filled_quantity = filled;
      average_fill_price = some (frac_div value filled);
      applied_fill_quantity = filled;
      applied_fill_value = value;
      status = fill_status o filled;
    }

abbrev pub is_known_fill : Option Text → OrderLifecycle → Bool
is_known_fill none s = false
is_known_fill (some id) s = any (text_eq id) s.applied_fill_ids

abbrev pub add_fill_id : Option Text → OrderLifecycle → OrderLifecycle
add_fill_id none s = s
add_fill_id (some id) s = record s { applied_fill_ids = id ∷ s.applied_fill_ids }

-- The tests of `apply_fill` on the numbers
unfoldable pub check_fill : OrderRecord → ℤ → Fraction → Outcome (Unit {0})
check_fill o quantity price = do
  raise_if (leb_ℤ quantity (pos 0)) LifecycleError.fill_not_positive
  raise_if (not (is_positive price)) LifecycleError.price_not_positive
  raise_if (ltb_ℤ o.quantity (o.filled_quantity +ℤ quantity)) LifecycleError.invalid_fill

-- The position is moved after the order's row is written.
abbrev pub settle_fill : Option Text → OrderLifecycle → Outcome OrderLifecycle → Step
settle_fill fill_id written (err e) = (err e, written)
settle_fill fill_id written (ok moved) = (ok tt, add_fill_id fill_id moved)

unfoldable pub book_fill :
    Text → Text → OrderRecord → ℤ → Fraction → Option Text → OrderLifecycle → Step
book_fill day id o quantity price fill_id s =
    let written = put_order id (filled_order o quantity price) s in
    settle_fill fill_id written
      (apply_position_delta day (filled_order o quantity price) quantity price written)

abbrev pub turned_fill :
    Text
    → Text
    → OrderRecord
    → ℤ
    → Fraction
    → Option Text
    → OrderLifecycle
    → Outcome OrderLifecycle
    → Step
turned_fill day id o quantity price fill_id s (err e) = (err e, s)
turned_fill day id o quantity price fill_id s (ok moved) =
    book_fill day id o quantity price fill_id moved

unfoldable pub fill_order :
    Text → Text → OrderRecord → ℤ → Fraction → Option Text → OrderLifecycle → Step
fill_order day id o quantity price fill_id s = turned_fill day id o quantity price fill_id s (
    check_fill o quantity price >>= λ _.
    transition_machine id (fill_status o (o.filled_quantity +ℤ quantity)) s)

-- `apply_fill`; a fill id that was seen before changes nothing.
unfoldable pub apply_fill : Text → Text → ℤ → Fraction → Option Text → OrderLifecycle → Step
apply_fill day id quantity price fill_id s = elim (lookup id s.orders) [
  | none ↦ (err LifecycleError.unknown_order, s)
  | some o ↦
      if is_known_fill fill_id s then (ok tt, s) else fill_order day id o quantity price fill_id s
]

-- `status in (FILLED, PARTIALLY_FILLED)`
unfoldable pub is_fill_status : OrderStatus → Bool
is_fill_status OrderStatus.filled = true
is_fill_status OrderStatus.partially_filled = true
is_fill_status _ = false

-- The price of an update that fills nothing more
unfoldable pub check_price : Option Fraction → Option Fraction → Outcome (Unit {0})
check_price none average = ok tt
check_price (some price) none = ok tt
check_price (some price) (some average) = do
  raise_if (not (is_positive price)) LifecycleError.price_not_positive
  raise_if (frac_apart price average) LifecycleError.price_changed

-- The tests of `transition` before it changes anything
unfoldable pub check_update : OrderRecord → OrderStatus → ℤ → Option Fraction → Outcome (Unit {0})
check_update o status filled price = do
  raise_if (is_fill_status status && not (leb_ℤ (pos 0) filled && leb_ℤ filled o.quantity))
      LifecycleError.invalid_fill
  raise_if (ltb_ℤ filled o.applied_fill_quantity) LifecycleError.moves_backwards
  if eq_ℤ filled o.applied_fill_quantity then check_price price o.average_fill_price else ok tt

-- The order with what is filled booked
abbrev pub booked_order : OrderRecord → ℤ → Fraction → OrderRecord
booked_order o filled value = record o {
  applied_fill_quantity = filled;
  applied_fill_value = value;
}

-- The last part of `transition`, on the order as it is written: what is newly filled moves the position.
abbrev pub settle_value :
    Text → OrderRecord → Fraction → OrderLifecycle → Outcome OrderLifecycle → Step
settle_value id o value s (err e) = (err e, s)
settle_value id o value s (ok moved) =
    (ok tt, put_order id (booked_order o o.filled_quantity value) moved)

unfoldable pub book_value : Text → Text → OrderRecord → Fraction → OrderLifecycle → Step
book_value day id o average s =
    let delta = o.filled_quantity -ℤ o.applied_fill_quantity in
    let value = frac_scale average o.filled_quantity in
    let delta_value = frac_sub value o.applied_fill_value in
    if not (is_positive delta_value)
    then (err LifecycleError.value_backwards, s)
    else settle_value id o value s (apply_position_delta day o delta (frac_div delta_value delta) s)

unfoldable pub book_delta : Text → Text → OrderRecord → OrderLifecycle → Step
book_delta day id o s =
    if ltb_ℤ (pos 0) (o.filled_quantity -ℤ o.applied_fill_quantity)
    then (elim o.average_fill_price [
      | none ↦ (err LifecycleError.price_required, s)
      | some average ↦ book_value day id o average s
    ])
    else (ok tt, s)

-- The fill price of the update, on the order with its new status and quantity
unfoldable pub book_price : Text → Text → OrderRecord → Option Fraction → OrderLifecycle → Step
book_price day id o none s = book_delta day id o s
book_price day id o (some price) s =
    if not (is_positive price)
    then (err LifecycleError.price_not_positive, s)
    else (let priced = record o { average_fill_price = some price } in
        book_delta day id priced (put_order id priced s))

-- The order as `transition` writes it first
abbrev pub written_order : OrderRecord → OrderStatus → ℤ → OrderRecord
written_order o status filled = record o { status = status; filled_quantity = filled }

abbrev pub turned_update :
    Text
    → Text
    → OrderRecord
    → OrderStatus
    → ℤ
    → Option Fraction
    → OrderLifecycle
    → Outcome OrderLifecycle
    → Step
turned_update day id o status filled price s (err e) = (err e, s)
turned_update day id o status filled price s (ok moved) =
    book_price day id (written_order o status filled) price
      (put_order id (written_order o status filled) moved)

unfoldable pub update_order :
    Text → Text → OrderRecord → OrderStatus → ℤ → Option Fraction → OrderLifecycle → Step
update_order day id o status filled price s =
    turned_update day id o status filled price s
      (check_update o status filled price >>= λ _. transition_machine id status s)

-- OrderLifecycle.transition
unfoldable pub update : Text → Text → OrderStatus → ℤ → Option Fraction → OrderLifecycle → Step
update day id status filled price s = elim (lookup id s.orders) [
  | none ↦ (err LifecycleError.unknown_order, s)
  | some o ↦ update_order day id o status filled price s
]
