-- ===== src/Risk/Gate/Tests.antt =====
-- Runs of the pre-trade gate.
use ai_trading_platform_mobi.Risk.Reservations
use ai_trading_platform_mobi.Risk.Reservations.{total, within}
use ai_trading_platform_mobi.Prelude.{
  ◌≡◌, refl, ◌↔◌, true, false, not, none, some, [], ◌∷◌, if◌then◌else◌, pos, negsuc, ◌+ℤ◌, ◌-ℤ◌,
  ◌*ℤ◌, neg, codes, text_eq, strip, upper, num, non_finite,
}
use ai_trading_platform_mobi.Risk.Reservations.Bounds.{IsWithin}
use ai_trading_platform_mobi.Risk.Gate.{
  RiskSnapshot, Request, Reason, RiskDecision, StateStore, PreTradeRiskGate, side_sign, reconciled,
  check_numbers, check_values, evaluate, reserve_allowed, reserve,
}
use ai_trading_platform_mobi.Risk.Gate.Sound.{Admits, evaluate_allows_iff, gate_reserve-IsWithin}

-- A store that knows one reconciled account and raises for another route.
abbrev state_store : StateStore
state_store account route age =
    if text_eq route (codes "down") then none else some (not (text_eq account (codes "7")))

abbrev gate : PreTradeRiskGate
gate = record {
  limits = record {
    max_order_quantity = pos 50;
    max_position_quantity = pos 100;
    max_daily_loss = pos 1000;
    max_trade_loss = pos 200;
  };
  reservations = (codes "a", pos 20) ∷ [];
  reconciliation_state_store = some state_store;
  reconciliation_max_age = pos 30;
}

abbrev snapshot : RiskSnapshot
snapshot = record {
  position_quantity = num (pos 40);
  daily_pnl = num (negsuc 99);
  projected_trade_loss = num (pos 150);
  kill_switch = false;
  broker_ready = true;
  broker_snapshot_fingerprint = none;
}

abbrev request : Request
request = record {
  client_order_id = codes "b";
  side = codes " buy ";
  quantity = num (pos 30);
  broker_account_id = some (codes "7");
  broker_route = some (codes "dhan");
}

gate_runs :
    ((reserve gate request snapshot).0 ≡ RiskDecision.allowed)
    × ((reserve gate (record request { broker_route = some (codes "down") }) snapshot).0
        ≡ RiskDecision.refused Reason.reconciliation_required)
    × ((reserve gate (record request { quantity = non_finite }) snapshot).0
        ≡ RiskDecision.refused Reason.invalid_numeric_input)
    × ((reserve gate (record request { quantity = num (pos 45) }) snapshot).0
        ≡ RiskDecision.refused Reason.exposure_reservation)
unfolding reserve reserve_allowed evaluate reconciled check_values check_numbers side_sign strip
    upper neg Reservations.reserve total ◌+ℤ◌ ◌-ℤ◌ ◌*ℤ◌
gate_runs = (refl, refl, refl, refl)

evaluate_allows_iff_example :
    (evaluate gate request snapshot ≡ RiskDecision.allowed) ↔ Admits gate request snapshot
evaluate_allows_iff_example = evaluate_allows_iff gate request snapshot

gate_reserve-IsWithin_example :
    Admits gate request snapshot
    × IsWithin
        (pos 40)
        gate.limits.max_position_quantity
        1
        (total (reserve gate request snapshot).1.reservations)
gate_reserve-IsWithin_example = gate_reserve-IsWithin gate request snapshot refl refl gate_runs.0
