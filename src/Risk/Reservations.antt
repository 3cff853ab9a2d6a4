-- ===== src/Risk/Reservations.antt =====
-- `ExposureReservationBook` of backend/app/risk_gate.py: signed quantities reserved by client order.
-- A quantity counts units of 1e-9. The lock makes each method one step.
pub mod Bounds
pub mod Rebuild
mod Tests
use ai_trading_platform_mobi.Prelude.{
  ◌+◌, ◌-◌, ◌/◌, ◌<◌, max, ap, Bool, true, false, not, Option, none, some, [], ◌∷◌, leb,
  if◌then◌else◌, ok, ℤ, pos, ◌+ℤ◌, ◌-ℤ◌, neg, abs, leb_ℤ, Text, text_eq, Dict, lookup, contains,
  insert, erase,
}

abbrev pub Book : Type 0
Book = Dict ℤ

-- `sum(values)`
unfoldable pub total : Book → ℤ
total [] = pos 0
total ((_, v) ∷ b) = v +ℤ total b

-- `sum(v for k, v in items if k != key)`
unfoldable pub total_except : Text → Book → ℤ
total_except key [] = pos 0
total_except key ((k, v) ∷ b) =
    if text_eq k key then total_except key b else v +ℤ total_except key b

-- `abs(x) <= bound + 1e-9`
abbrev pub within : ℤ → ℤ → Bool
within bound x = leb_ℤ (pos (abs x)) (bound +ℤ pos 1)

-- `abs(x) <= 1e-9`
abbrev pub is_negligible : ℤ → Bool
is_negligible x = leb (abs x) 1

unfoldable pub reserve : Text → ℤ → ℤ → ℤ → Book → Bool × Book
reserve client_order_id signed_quantity current_position max_position b =
    elim (lookup client_order_id b) [
      | some existing ↦ (is_negligible (existing -ℤ signed_quantity), b)
      | none ↦
          if within max_position (current_position +ℤ total b +ℤ signed_quantity)
          then (true, insert client_order_id signed_quantity b)
          else (false, b)
    ]

unfoldable pub update : Text → ℤ → ℤ → ℤ → Book → Bool × Book
update client_order_id signed_quantity current_position max_position b =
    if not (contains client_order_id b)
    then (false, b)
    else (if not (
          within max_position
            (current_position +ℤ total_except client_order_id b +ℤ signed_quantity))
        then (false, b)
        else (if is_negligible signed_quantity
            then (true, erase client_order_id b)
            else (true, insert client_order_id signed_quantity b)))

abbrev pub release : Text → Book → Book
release client_order_id b = erase client_order_id b

-- `get`
abbrev pub reserved : Text → Book → Option ℤ
reserved client_order_id b = lookup client_order_id b
