-- ===== src/Risk/Gate/Sound.antt =====
-- The pre-trade gate of backend/app/risk_gate.py fails closed.
use ai_trading_platform_mobi.Prelude.{
  ◌≡◌, refl, sym, ◌∙◌, ◌≢◌, ◌↔◌, true, false, none, arith, ℤ, pos, ◌+ℤ◌, ◌*ℤ◌, ◌≤ℤ◌, ◌<ℤ◌, neg, abs,
  eq_of_parts, Text, lookup, Value, num, finite,
}
use ai_trading_platform_mobi.Risk.Reservations.Bounds.{IsWithin, reserve-IsWithin}
use ai_trading_platform_mobi.Risk.Gate.{
  RiskLimits, RiskSnapshot, Request, Reason, RiskDecision, PreTradeRiskGate, side_sign, reconciled,
  check_numbers, check_values, evaluate, number, reserve_allowed, reserve,
}
use ai_trading_platform_mobi.Risk.Gate.Conditions.{
  IsUnblocked, HasSign, reconciled-IsUnblocked, IsUnblocked-reconciled, side_sign-HasSign,
  HasSign-side_sign, sign_nonzero,
}
use ai_trading_platform_mobi.Risk.Reservations.{total}

-- What a request and a snapshot must satisfy, independently of the order of the tests.
pub record IsAdmissible (g : PreTradeRiskGate) (r : Request) (s : RiskSnapshot) (q p d t sign : ℤ)
    : Type 0 where
  pub unblocked : IsUnblocked g r
  pub not_killed : s.kill_switch ≡ false
  pub ready : s.broker_ready ≡ true
  pub quantity_is : r.quantity ≡ num q
  pub position_is : s.position_quantity ≡ num p
  pub daily_is : s.daily_pnl ≡ num d
  pub trade_is : s.projected_trade_loss ≡ num t
  pub quantity_positive : pos 0 <ℤ q
  pub quantity_fits : q ≤ℤ g.limits.max_order_quantity
  pub sign_is : HasSign r.side sign
  pub position_fits : pos (abs (p +ℤ sign *ℤ q)) ≤ℤ g.limits.max_position_quantity +ℤ pos 1
  pub daily_loss_fits : neg d <ℤ g.limits.max_daily_loss
  pub trade_loss_fits : t ≤ℤ g.limits.max_trade_loss +ℤ pos 1

check_numbers-allowed :
    (l : RiskLimits) (side : Text) (q p d t : ℤ)
    → (check_numbers l side q p d t ≡ RiskDecision.allowed) ↔ (
        (pos 0 <ℤ q)
        × (q ≤ℤ l.max_order_quantity)
        × (side_sign side ≢ pos 0)
        × (pos (abs (p +ℤ side_sign side *ℤ q)) ≤ℤ l.max_position_quantity +ℤ pos 1)
        × (neg d <ℤ l.max_daily_loss)
        × (t ≤ℤ l.max_trade_loss +ℤ pos 1))
unfolding check_numbers
check_numbers-allowed l side q p d t = (
  λ h. ground (arith, eq_of_parts (side_sign side) (pos 0)),
  λ h. ground (arith, eq_of_parts (side_sign side) (pos 0)),
)

check_values-allowed :
    (l : RiskLimits) (side : Text) (q p d t : Value)
    → check_values l side (finite q) (finite p) (finite d) (finite t) ≡ RiskDecision.allowed
    → (x y z w : ℤ) × (q ≡ num x)
      × (p ≡ num y)
      × (d ≡ num z)
      × (t ≡ num w)
      × (check_numbers l side x y z w ≡ RiskDecision.allowed)
unfolding check_values
check_values-allowed l side (num x) (num y) (num z) (num w) h =
    (x, y, z, w, refl, refl, refl, refl, h)
check_values-allowed l side _ _ _ _ h = cc

-- The four numbers of a request and a snapshot, where all are finite, and the sign of the side.
abbrev pub Admits : PreTradeRiskGate → Request → RiskSnapshot → Type 0
Admits g r s = (q : ℤ) × (p : ℤ) × (d : ℤ) × (t : ℤ) × (sign : ℤ) × IsAdmissible g r s q p d t sign

evaluate_opens :
    (g : PreTradeRiskGate) (r : Request) (s : RiskSnapshot)
    → evaluate g r s ≡ RiskDecision.allowed
    → (reconciled g.reconciliation_state_store g.reconciliation_max_age r ≡ true)
      × (s.kill_switch ≡ false)
      × (s.broker_ready ≡ true)
      × (check_values g.limits r.side
            (finite r.quantity)
            (finite s.position_quantity)
            (finite s.daily_pnl)
            (finite s.projected_trade_loss)
          ≡ RiskDecision.allowed)
unfolding evaluate
evaluate_opens g r s h = ground arith

admitted :
    (g : PreTradeRiskGate) (r : Request) (s : RiskSnapshot) (q p d t sign : ℤ)
    → IsAdmissible g r s q p d t sign
    → evaluate g r s ≡ RiskDecision.allowed
unfolding evaluate check_values
admitted g r s q p d t sign a =
    let sign_is : side_sign r.side ≡ sign = HasSign-side_sign r.side sign a.sign_is in
    rw
      (
        IsUnblocked-reconciled g r a.unblocked,
        a.not_killed,
        a.ready,
        a.quantity_is,
        a.position_is,
        a.daily_is,
        a.trade_is,
      )
      ((check_numbers-allowed g.limits r.side q p d t).1 (
        a.quantity_positive,
        a.quantity_fits,
        (λ none_. sign_nonzero r.side sign a.sign_is (sym sign_is ∙ none_)),
        rw sign_is a.position_fits,
        a.daily_loss_fits,
        a.trade_loss_fits,
      ))

-- The gate allows a request exactly when every condition holds: no reconciliation store, or one that
-- answers for the request's account and route that trading is not blocked; no kill switch, a ready
-- broker, finite numbers, a positive quantity within its limit, a side that buys or sells, the
-- position with the signed order within its limit up to 1e-9, and both losses within theirs.
pub evaluate_allows_iff :
    (g : PreTradeRiskGate) (r : Request) (s : RiskSnapshot)
    → (evaluate g r s ≡ RiskDecision.allowed) ↔ Admits g r s
evaluate_allows_iff g r s = (opens, closes)
  where
    opens : evaluate g r s ≡ RiskDecision.allowed → Admits g r s
    opens h =
        let (un, nk, rd, cv) = evaluate_opens g r s h in
        let (q, p, d, t, eq, ep, ed, et, cn) =
          check_values-allowed g.limits r.side r.quantity s.position_quantity s.daily_pnl
            s.projected_trade_loss cv in
        let (h₁, h₂, h₃, h₄, h₅, h₆) = (check_numbers-allowed g.limits r.side q p d t).0 cn in
        (
          q,
          p,
          d,
          t,
          side_sign r.side,
          record {
            unblocked = reconciled-IsUnblocked g r un;
            not_killed = nk;
            ready = rd;
            quantity_is = eq;
            position_is = ep;
            daily_is = ed;
            trade_is = et;
            quantity_positive = h₁;
            quantity_fits = h₂;
            sign_is = side_sign-HasSign r.side h₃;
            position_fits = h₄;
            daily_loss_fits = h₅;
            trade_loss_fits = h₆;
          },
        )

    closes : Admits g r s → evaluate g r s ≡ RiskDecision.allowed
    closes (q, p, d, t, sign, a) = admitted g r s q p d t sign a

reserve_allowed-IsWithin :
    (g : PreTradeRiskGate) (r : Request) (s : RiskSnapshot) (p : ℤ) (d : RiskDecision)
    → s.position_quantity ≡ num p
    → lookup r.client_order_id g.reservations ≡ none
    → (reserve_allowed g r s d).0 ≡ RiskDecision.allowed
    → (d ≡ RiskDecision.allowed)
      × IsWithin p g.limits.max_position_quantity 1 (total (reserve_allowed g r s d).1.reservations)
unfolding reserve_allowed
reserve_allowed-IsWithin g r s p (RiskDecision.refused x) e new done = cc
reserve_allowed-IsWithin g r s p RiskDecision.allowed e new done = ground (
  arith,
  e,
  reserve-IsWithin r.client_order_id (side_sign r.side *ℤ number r.quantity)
      (number s.position_quantity) g.limits.max_position_quantity g.reservations new,
)

reserve_allowed_refused :
    (g : PreTradeRiskGate) (r : Request) (s : RiskSnapshot) (d : RiskDecision) {x : Reason}
    → (reserve_allowed g r s d).0 ≡ RiskDecision.refused x
    → (reserve_allowed g r s d).1 ≡ g
unfolding reserve_allowed
reserve_allowed_refused g r s (RiskDecision.refused y) h = refl
reserve_allowed_refused g r s RiskDecision.allowed h = ground arith

-- A reservation that the gate makes for a new order passed every check, and leaves the position
-- with all reservations within the limit, up to 1e-9.
pub gate_reserve-IsWithin :
    (g : PreTradeRiskGate) (r : Request) (s : RiskSnapshot) {p : ℤ}
    → s.position_quantity ≡ num p
    → lookup r.client_order_id g.reservations ≡ none
    → (reserve g r s).0 ≡ RiskDecision.allowed
    → Admits g r s
      × IsWithin p g.limits.max_position_quantity 1 (total (reserve g r s).1.reservations)
unfolding reserve
gate_reserve-IsWithin g r s {p} e new done =
    let (allows, bound) = reserve_allowed-IsWithin g r s p (evaluate g r s) e new done in
    ((evaluate_allows_iff g r s).0 allows, bound)

-- A refused request leaves the gate and its reservations as they were.
pub reserve_refused :
    (g : PreTradeRiskGate) (r : Request) (s : RiskSnapshot) {x : Reason}
    → (reserve g r s).0 ≡ RiskDecision.refused x
    → (reserve g r s).1 ≡ g
unfolding reserve
reserve_refused g r s h = reserve_allowed_refused g r s (evaluate g r s) h
