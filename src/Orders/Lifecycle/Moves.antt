-- ===== src/Orders/Lifecycle/Moves.antt =====
-- `_apply_position_delta` of backend/app/order_lifecycle.py moves the signed quantity of its symbol.
use ai_trading_platform_mobi.Prelude.{
  ◌≡◌, refl, inl, inr, true, not, ◌||◌, none, Bool-cases, Option-cases, Ensures, ℤ, pos, ◌<ℤ◌,
  int_laws, Text, text_eq, Dict, lookup, insert, Fraction,
}
use ai_trading_platform_mobi.Orders.Lifecycle.{OrderRecord, PositionRecord, OrderLifecycle}
use ai_trading_platform_mobi.Orders.Lifecycle.Positions.{
  opt_text_eq, record_realized_pnl, new_position, apply_to, apply_position_delta,
}
use ai_trading_platform_mobi.Orders.Lifecycle.Effect.{
  is_side, signed, AreOpen, Adds, insert-Adds, same_side-Adds,
}
use ai_trading_platform_mobi.Orders.Lifecycle.Closing.{close-Adds}

-- What `_apply_position_delta` that returns has done
pub record Moved (o : OrderRecord) (quantity : ℤ) (s t : OrderLifecycle) : Type 0 where
  pub orders_same : t.orders ≡ s.orders
  pub machines_same : t.machines ≡ s.machines
  pub adds : Adds o.symbol (signed o.side quantity) s.positions t.positions

new-Adds :
    (o : OrderRecord) (quantity : ℤ) (price : Fraction) (d : Dict PositionRecord)
    → pos 0 <ℤ quantity
    → is_side o.side ≡ true
    → AreOpen d
    → lookup o.symbol d ≡ none
    → Adds o.symbol (signed o.side quantity) d (insert o.symbol (new_position o quantity price) d)
new-Adds o quantity price d q side h absent =
    insert-Adds o.symbol (signed o.side quantity) (new_position o quantity price) d h (q, side)
      (rw absent (omega int_laws))

pub apply_position_delta-Moved :
    (day : Text) (o : OrderRecord) (quantity : ℤ) (price : Fraction) (s : OrderLifecycle)
    → pos 0 <ℤ quantity
    → is_side o.side ≡ true
    → AreOpen s.positions
    → Ensures (apply_position_delta day o quantity price s) (Moved o quantity s)
unfolding apply_position_delta apply_to record_realized_pnl
apply_position_delta-Moved day o quantity price s q side h =
    elim (Option-cases (lookup o.symbol s.positions)) [
      | inl absent ↦ rw absent (record {
        orders_same = refl;
        machines_same = refl;
        adds = new-Adds o quantity price s.positions q side h absent;
      })
      | inr (p, found) ↦
          rw found
            (elim (Bool-cases (
              not (opt_text_eq p.broker_account_id o.broker_account_id)
              || not (opt_text_eq p.broker_route o.broker_route))) [
                | inl other ↦ rw other tt
                | inr same ↦ rw same (elim (Bool-cases (text_eq p.side o.side)) [
                  | inl e ↦ rw e (record {
                    orders_same = refl;
                    machines_same = refl;
                    adds = same_side-Adds o p quantity price s.positions q h found e;
                  })
                  | inr e ↦ rw e (record {
                    orders_same = refl;
                    machines_same = refl;
                    adds = close-Adds o p quantity price s.positions side h found e;
                  })
                ])
              ])
    ]
