-- ===== src/Risk/Gate.antt =====
-- `PreTradeRiskGate` and `RiskGate` of backend/app/risk_gate.py. Quantities and money count units of
-- 1e-9. The reconciliation store, where the gate has one, is a function that answers whether trading is
-- blocked for an account, a route and an age in seconds, or `none` where it raises.
pub mod Conditions
pub mod Sound
mod Tests
use ai_trading_platform_mobi.Prelude.{
  ℕ, suc, ◌+◌, ◌-◌, ◌*◌, ◌/◌, max, ap, Bool, true, false, not, ◌&&◌, ◌||◌, Option, none, some, List,
  [], ◌∷◌, ltb, leb, if◌then◌else◌, is_empty, any, all, Result, ok, err, ◌>>=◌, ◌>>◌, raise_if, ℤ,
  pos, negsuc, ◌+ℤ◌, ◌-ℤ◌, ◌*ℤ◌, neg, ltb_ℤ, leb_ℤ, eq_ℤ, Text, codes, text_eq, strip, upper, Value,
  num, non_finite, not_numeric, finite,
}
use ai_trading_platform_mobi.Risk.Reservations
use ai_trading_platform_mobi.Risk.Reservations.{Book, within, update}

pub record RiskLimits : Type 0 where
  pub max_order_quantity : ℤ
  pub max_position_quantity : ℤ
  pub max_daily_loss : ℤ
  pub max_trade_loss : ℤ

pub record RiskSnapshot : Type 0 where
  pub position_quantity : Value
  pub daily_pnl : Value
  pub projected_trade_loss : Value
  pub kill_switch : Bool
  pub broker_ready : Bool
  pub broker_snapshot_fingerprint : Option Text

-- The fields of a `BrokerOrderRequest` that the gate reads.
pub record Request : Type 0 where
  pub client_order_id : Text
  pub side : Text
  pub quantity : Value
  pub broker_account_id : Option Text
  pub broker_route : Option Text

pub data Reason : Type 0 where
  reconciliation_required kill_switch_active broker_not_ready invalid_numeric_input invalid_quantity
        over_order_quantity invalid_side over_position_quantity daily_loss_limit trade_loss_limit
        exposure_reservation :
      Reason

-- `RiskDecision`: allowed, or refused for a reason.
pub data RiskDecision : Type 0 where
  allowed : RiskDecision
  refused : Reason → RiskDecision

abbrev pub StateStore : Type 0
StateStore = Text → Text → ℤ → Option Bool

pub record PreTradeRiskGate : Type 0 where
  pub limits : RiskLimits
  pub reservations : Book
  pub reconciliation_state_store : Option StateStore
  pub reconciliation_max_age : ℤ

pub data GateError : Type 0 where
  limits_not_finite quantity_limits_not_positive loss_limits_negative max_age_invalid : GateError

abbrev or_raise : Option ℤ → GateError → Result GateError ℤ
or_raise none e = err e
or_raise (some x) e = ok x

-- `PreTradeRiskGate.__init__`
unfoldable pub make :
    Value
    → Value
    → Value
    → Value
    → Book
    → Option StateStore
    → Value
    → Result GateError PreTradeRiskGate
make order position daily trade book store max_age = do
  order_limit ← or_raise (finite order) GateError.limits_not_finite
  position_limit ← or_raise (finite position) GateError.limits_not_finite
  daily_limit ← or_raise (finite daily) GateError.limits_not_finite
  trade_limit ← or_raise (finite trade) GateError.limits_not_finite
  raise_if (leb_ℤ order_limit (pos 0) || leb_ℤ position_limit (pos 0))
      GateError.quantity_limits_not_positive
  raise_if (ltb_ℤ daily_limit (pos 0) || ltb_ℤ trade_limit (pos 0)) GateError.loss_limits_negative
  age ← or_raise (finite max_age) GateError.max_age_invalid
  raise_if (leb_ℤ age (pos 0)) GateError.max_age_invalid
  ok (record {
    limits = record {
      max_order_quantity = order_limit;
      max_position_quantity = position_limit;
      max_daily_loss = daily_limit;
      max_trade_loss = trade_limit;
    };
    reservations = book;
    reconciliation_state_store = store;
    reconciliation_max_age = age;
  })

unfoldable pub is_one_of : Text → List Text → Bool
is_one_of t ts = any (text_eq t) ts

-- `_side_sign`
unfoldable pub side_sign : Text → ℤ
unfolding is_one_of
side_sign side =
    let normalized = upper (strip side) in
    if is_one_of normalized (codes "BUY" ∷ codes "B" ∷ codes "LONG" ∷ [])
    then pos 1
    else (if is_one_of normalized (codes "SELL" ∷ codes "S" ∷ codes "SHORT" ∷ [])
        then negsuc 0
        else pos 0)

-- Whether the reconciliation store lets the request pass; without a store it does.
unfoldable pub reconciled : Option StateStore → ℤ → Request → Bool
reconciled none age r = true
reconciled (some store) age r = elim r.broker_account_id [
  | none ↦ false
  | some account ↦ elim r.broker_route [
    | none ↦ false
    | some route ↦
        if is_empty (strip route)
        then false
        else (elim (store account route age) [ none ↦ false | some blocked ↦ not blocked ])
  ]
]

-- The tests of `evaluate` on the four numbers, once they are known to be finite.
unfoldable pub check_numbers : RiskLimits → Text → ℤ → ℤ → ℤ → ℤ → RiskDecision
check_numbers limits side quantity position daily_pnl trade_loss =
    if leb_ℤ quantity (pos 0)
    then RiskDecision.refused Reason.invalid_quantity
    else (if ltb_ℤ limits.max_order_quantity quantity
        then RiskDecision.refused Reason.over_order_quantity
        else (if eq_ℤ (side_sign side) (pos 0)
            then RiskDecision.refused Reason.invalid_side
            else (if not
                  (within limits.max_position_quantity (position +ℤ side_sign side *ℤ quantity))
                then RiskDecision.refused Reason.over_position_quantity
                else (if leb_ℤ limits.max_daily_loss (neg daily_pnl)
                    then RiskDecision.refused Reason.daily_loss_limit
                    else (if ltb_ℤ (limits.max_trade_loss +ℤ pos 1) trade_loss
                        then RiskDecision.refused Reason.trade_loss_limit
                        else RiskDecision.allowed)))))

unfoldable pub check_values :
    RiskLimits → Text → Option ℤ → Option ℤ → Option ℤ → Option ℤ → RiskDecision
check_values limits side (some q) (some p) (some d) (some t) = check_numbers limits side q p d t
check_values limits side _ _ _ _ = RiskDecision.refused Reason.invalid_numeric_input

unfoldable pub evaluate : PreTradeRiskGate → Request → RiskSnapshot → RiskDecision
evaluate g r s =
    if not (reconciled g.reconciliation_state_store g.reconciliation_max_age r)
    then RiskDecision.refused Reason.reconciliation_required
    else (if s.kill_switch
        then RiskDecision.refused Reason.kill_switch_active
        else (if not s.broker_ready
            then RiskDecision.refused Reason.broker_not_ready
            else check_values g.limits r.side (finite r.quantity) (finite s.position_quantity)
                (finite s.daily_pnl) (finite s.projected_trade_loss)))

-- `float(v)` of a value that `evaluate` has found to be finite.
abbrev pub number : Value → ℤ
number (num x) = x
number non_finite = pos 0
number not_numeric = pos 0

-- What `reserve` does once `evaluate` has allowed the request.
unfoldable pub reserve_allowed :
    PreTradeRiskGate → Request → RiskSnapshot → RiskDecision → RiskDecision × PreTradeRiskGate
reserve_allowed g r s (RiskDecision.refused reason) = (RiskDecision.refused reason, g)
reserve_allowed g r s RiskDecision.allowed =
    let (done, book) =
      Reservations.reserve r.client_order_id (side_sign r.side *ℤ number r.quantity)
        (number s.position_quantity) g.limits.max_position_quantity g.reservations in
    if done
    then (RiskDecision.allowed, record g { reservations = book })
    else (RiskDecision.refused Reason.exposure_reservation, g)

unfoldable pub reserve : PreTradeRiskGate → Request → RiskSnapshot → RiskDecision × PreTradeRiskGate
reserve g r s = reserve_allowed g r s (evaluate g r s)

-- `update_after_fill`, on numbers: the remaining quantity, signed, replaces the reservation.
unfoldable pub update_after_fill :
    PreTradeRiskGate → Text → Text → ℤ → ℤ → ℤ → Bool × PreTradeRiskGate
update_after_fill g client_order_id side quantity filled position =
    let left = quantity -ℤ filled in
    let remaining = if ltb_ℤ (pos 0) left then left else pos 0 in
    let (done, book) =
      update client_order_id (side_sign side *ℤ remaining) position g.limits.max_position_quantity
        g.reservations in
    (done, record g { reservations = book })

pub record RiskGateDecision : Type 0 where
  pub approved : Bool
  pub exposure_limit : Bool
  pub position_count_limit : Bool

-- `RiskGate.evaluate`: `positions` is their number, or `none` where the portfolio has no such field.
unfoldable pub portfolio_check : ℤ → ℤ → Option ℕ → ℤ → RiskGateDecision
portfolio_check max_gross_exposure max_positions positions requested_notional =
    let exposure_ok =
      ltb_ℤ (pos 0) max_gross_exposure && leb_ℤ requested_notional max_gross_exposure in
    let position_count_ok : Bool = elim positions [
      | none ↦ false
      | some n ↦ ltb_ℤ (pos n) max_positions
    ] in
    record {
      approved = exposure_ok && position_count_ok;
      exposure_limit = exposure_ok;
      position_count_limit = position_count_ok;
    }
