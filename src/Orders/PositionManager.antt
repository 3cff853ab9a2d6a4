-- ===== src/Orders/PositionManager.antt =====
-- PositionManager of backend/app/position_manager.py: open positions, their exits and the drift
-- against the positions of a broker. Amounts of profit are in units of 1e-18. The metrics keep the
-- profits that they are given; the audit log and the times are left out.
pub mod Reading
pub mod Drift
pub mod Levels
mod Tests
use ai_trading_platform_mobi.Prelude.{
  zero, suc, ◌+◌, ◌-◌, ◌*◌, ◌/◌, sym, ap, Bool, true, false, not, ◌&&◌, ◌||◌, Option, none, some,
  List, [], ◌∷◌, ◌++◌, ltb, leb, ◌==◌, if◌then◌else◌, is_empty, keep, Result, ok, err, ◌>>=◌, ◌>>◌,
  raise_if, ℤ, pos, negsuc, ◌+ℤ◌, ◌-ℤ◌, ◌*ℤ◌, neg, ltb_ℤ, leb_ℤ, eq_ℤ, Text, codes, text_eq, strip,
  upper, Dict, lookup, contains, insert, Value, finite, take,
}

pub record Position : Type 0 where
  pub symbol : Text
  pub side : Text
  pub quantity : ℤ
  pub avg_entry : ℤ
  pub stop : Option ℤ
  pub target : Option ℤ
  pub realized_pnl : ℤ
  pub unrealized_pnl : ℤ
  pub is_open : Bool

pub record PositionManager : Type 0 where
  pub positions : Dict Position
  pub recorded_pnl : List ℤ

-- `no_position` is a KeyError, the others are ValueErrors.
pub data PositionError : Type 0 where
  no_position : PositionError
  invalid_position : PositionError
  invalid_side : PositionError
  level_not_positive : PositionError
  long_stop : PositionError
  long_target : PositionError
  short_stop : PositionError
  short_target : PositionError
  already_open : PositionError
  price_not_positive : PositionError
  invalid_exit : PositionError
  symbol_missing : PositionError
  duplicate_position : PositionError
  invalid_quantity : PositionError

-- A level that is given and passes a test
abbrev pub given : (ℤ → Bool) → Option ℤ → Bool
given test none = false
given test (some x) = test x

abbrev pub is_buy : Text → Bool
is_buy side = text_eq side (codes "BUY")

abbrev pub is_open_at : Option Position → Bool
is_open_at none = false
is_open_at (some p) = p.is_open

abbrev pub new_position : Text → Text → ℤ → ℤ → Option ℤ → Option ℤ → Position
new_position key direction quantity price stop target = record {
  symbol = key;
  side = direction;
  quantity = quantity;
  avg_entry = price;
  stop = stop;
  target = target;
  realized_pnl = pos 0;
  unrealized_pnl = pos 0;
  is_open = true;
}

-- `open`
unfoldable pub open_position :
    Text
    → Text
    → ℤ
    → ℤ
    → Option ℤ
    → Option ℤ
    → PositionManager
    → Result PositionError PositionManager
open_position symbol side quantity price stop target s = do
  raise_if (leb_ℤ quantity (pos 0) || leb_ℤ price (pos 0)) PositionError.invalid_position
  let key = upper symbol
  let direction = upper side
  raise_if (not (is_buy direction || text_eq direction (codes "SELL"))) PositionError.invalid_side
  raise_if (given (λ x. leb_ℤ x (pos 0)) stop || given (λ x. leb_ℤ x (pos 0)) target)
      PositionError.level_not_positive
  raise_if (is_buy direction && given (λ x. leb_ℤ price x) stop) PositionError.long_stop
  raise_if (is_buy direction && given (λ x. leb_ℤ x price) target) PositionError.long_target
  raise_if (not (is_buy direction) && given (λ x. leb_ℤ x price) stop) PositionError.short_stop
  raise_if (not (is_buy direction) && given (λ x. leb_ℤ price x) target) PositionError.short_target
  raise_if (is_open_at (lookup key s.positions)) PositionError.already_open
  ok (record s {
    positions = insert key (new_position key direction quantity price stop target) s.positions;
  })

-- `1 if p.side == "BUY" else -1`
abbrev pub direction_of : Position → ℤ
direction_of p = if is_buy p.side then pos 1 else negsuc 0

abbrev pub profit : Position → ℤ → ℤ → ℤ
profit p quantity price = (price -ℤ p.avg_entry) *ℤ quantity *ℤ direction_of p

-- `mark`
unfoldable pub mark : Text → ℤ → PositionManager → Result PositionError PositionManager
mark symbol price s =
    raise_if (leb_ℤ price (pos 0)) PositionError.price_not_positive
    >> (elim (lookup (upper symbol) s.positions) [
      | none ↦ err PositionError.no_position
      | some p ↦ ok (record s {
        positions =
            insert (upper symbol) (record p { unrealized_pnl = profit p p.quantity price })
              s.positions;
      })
    ])

pub data ExitSignal : Type 0 where
  stop_loss take_profit : ExitSignal

-- The exit of an open position, between the low and the high of a bar
unfoldable pub exit_of : Position → ℤ → ℤ → Option ExitSignal
exit_of p high low =
    if is_buy p.side
    then (if given (λ x. leb_ℤ low x) p.stop
        then some ExitSignal.stop_loss
        else if given (λ x. leb_ℤ x high) p.target
        then some ExitSignal.take_profit
        else none)
    else (if given (λ x. leb_ℤ x high) p.stop
        then some ExitSignal.stop_loss
        else if given (λ x. leb_ℤ low x) p.target
        then some ExitSignal.take_profit
        else none)

abbrev pub exit_at : Option Position → ℤ → ℤ → Option ExitSignal
exit_at none high low = none
exit_at (some p) high low = if p.is_open then exit_of p high low else none

-- `check_exit`
unfoldable pub check_exit : Text → ℤ → ℤ → PositionManager → Option ExitSignal
check_exit symbol high low s = exit_at (lookup (upper symbol) s.positions) high low

-- A position after an exit; one that is empty is closed.
unfoldable pub exited : Position → ℤ → ℤ → Position
exited p quantity price =
    let left = record p {
      realized_pnl = p.realized_pnl +ℤ profit p quantity price;
      quantity = p.quantity -ℤ quantity;
    } in
    if eq_ℤ left.quantity (pos 0)
    then record left { is_open = false; unrealized_pnl = pos 0 }
    else left

abbrev pub exit_position :
    Text → ℤ → ℤ → PositionManager → Option Position → Result PositionError PositionManager
exit_position key quantity price s none = err PositionError.no_position
exit_position key quantity price s (some p) =
    raise_if
      (not p.is_open || leb_ℤ quantity (pos 0) || ltb_ℤ p.quantity quantity || leb_ℤ price (pos 0))
      PositionError.invalid_exit
    >> ok (record s {
      positions = insert key (exited p quantity price) s.positions;
      recorded_pnl = profit p quantity price ∷ s.recorded_pnl;
    })

-- `partial_exit`
unfoldable pub partial_exit : Text → ℤ → ℤ → PositionManager → Result PositionError PositionManager
partial_exit symbol quantity price s =
    exit_position (upper symbol) quantity price s (lookup (upper symbol) s.positions)

pub record BrokerPosition : Type 0 where
  pub symbol : Text
  pub quantity : Value

abbrev pub broker_quantity : Option ℤ → Result PositionError ℤ
broker_quantity none = err PositionError.invalid_quantity
broker_quantity (some q) = ok q

-- The loop that reads the broker's positions
unfoldable pub read_broker : List BrokerPosition → Dict ℤ → Result PositionError (Dict ℤ)
read_broker [] broker = ok broker
read_broker (item ∷ items) broker = do
  let symbol = upper (strip item.symbol)
  raise_if (is_empty symbol) PositionError.symbol_missing
  raise_if (contains symbol broker) PositionError.duplicate_position
  quantity ← broker_quantity (finite item.quantity)
  read_broker items (insert symbol quantity broker)

pub record DriftItem : Type 0 where
  pub symbol : Text
  pub internal_quantity : ℤ
  pub broker_quantity : ℤ

abbrev pub or_zero : Option ℤ → ℤ
or_zero none = pos 0
or_zero (some q) = q

-- The signed quantity of an open position
abbrev pub signed_quantity : Position → ℤ
signed_quantity p = if is_buy p.side then p.quantity else neg p.quantity

-- The drift of the positions here
unfoldable pub internal_drift : Dict Position → Dict ℤ → List DriftItem
internal_drift [] broker = []
internal_drift ((symbol, p) ∷ positions) broker =
    let rest = internal_drift positions broker in
    if p.is_open && not (eq_ℤ (or_zero (lookup symbol broker)) (signed_quantity p))
    then (record {
      symbol = symbol;
      internal_quantity = signed_quantity p;
      broker_quantity = or_zero (lookup symbol broker);
    })
      ∷ rest
    else rest

-- The drift of the broker's positions that are not open here
unfoldable pub unknown_drift : Dict Position → Dict ℤ → List DriftItem
unknown_drift positions [] = []
unknown_drift positions ((symbol, q) ∷ broker) =
    let rest = unknown_drift positions broker in
    if not (is_open_at (lookup symbol positions)) && not (eq_ℤ q (pos 0))
    then (record { symbol = symbol; internal_quantity = pos 0; broker_quantity = q }) ∷ rest
    else rest

-- `reconcile`: the drift, which is empty where the result is "ok"
unfoldable pub reconcile_positions :
    List BrokerPosition → PositionManager → Result PositionError (List DriftItem)
reconcile_positions items s = do
  broker ← read_broker items []
  ok (internal_drift s.positions broker ++ unknown_drift s.positions broker)
