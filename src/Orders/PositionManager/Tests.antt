-- ===== src/Orders/PositionManager/Tests.antt =====
-- Runs of the position manager on one long position.
use ai_trading_platform_mobi.Orders.PositionManager.Reading.{broker_at}
use ai_trading_platform_mobi.Prelude.{
  ◌≡◌, refl, ◌↔◌, true, some, List, [], ◌∷◌, is_empty, ok, pos, negsuc, ◌+ℤ◌, ◌-ℤ◌, ◌*ℤ◌, Text,
  codes, strip, upper, lookup, num,
}
use ai_trading_platform_mobi.Orders.PositionManager.{
  Position, PositionManager, new_position, open_position, mark, ExitSignal, exit_of, check_exit,
  exited, partial_exit, BrokerPosition, read_broker, DriftItem, internal_drift, unknown_drift,
  reconcile_positions,
}
use ai_trading_platform_mobi.Orders.PositionManager.Drift.{internal_at, no_drift_iff}
use ai_trading_platform_mobi.Orders.PositionManager.Levels.{
  AreWellFormed, Call, run, run-AreWellFormed,
}

abbrev no_positions : PositionManager
no_positions = record { positions = []; recorded_pnl = [] }

abbrev long_position : Position
long_position =
    new_position (codes "INFY") (codes "BUY") (pos 10) (pos 100) (some (pos 90)) (some (pos 120))

abbrev one_position : PositionManager
one_position = record { positions = (codes "INFY", long_position) ∷ []; recorded_pnl = [] }

abbrev trades : List Call
trades =
    Call.open_call (codes "infy") (codes "buy") (pos 10) (pos 100) (some (pos 90)) (some (pos 120))
    ∷ Call.mark_call (codes "INFY") (pos 110)
    ∷ Call.exit_call (codes "INFY") (pos 4) (pos 110)
    ∷ Call.exit_call (codes "INFY") (pos 7) (pos 110)
    ∷ Call.exit_call (codes "INFY") (pos 6) (pos 95)
    ∷ []

abbrev reported : List BrokerPosition
reported = record { symbol = codes " infy "; quantity = num (pos 10) } ∷ []

opens :
    open_position
      (codes "infy")
      (codes "buy")
      (pos 10)
      (pos 100)
      (some (pos 90))
      (some (pos 120))
      no_positions
    ≡ ok one_position
unfolding open_position upper
opens = refl

stops : check_exit (codes "infy") (pos 125) (pos 90) one_position ≡ some ExitSignal.stop_loss
unfolding check_exit exit_of upper
stops = refl

records_profits : (run trades no_positions).recorded_pnl ≡ negsuc 29 ∷ pos 40 ∷ []
unfolding open_position mark partial_exit exited upper ◌-ℤ◌ ◌+ℤ◌ ◌*ℤ◌
records_profits = refl

agrees : reconcile_positions reported one_position ≡ ok []
unfolding reconcile_positions read_broker internal_drift unknown_drift upper strip
agrees = refl

run-AreWellFormed_example : AreWellFormed (run trades no_positions)
run-AreWellFormed_example = run-AreWellFormed trades no_positions (λ symbol. tt)

no_drift_iff_example : (is_empty {A = DriftItem} [] ≡ true) ↔ (
    (symbol : Text)
    → broker_at symbol reported ≡ internal_at (lookup symbol one_position.positions))
no_drift_iff_example = no_drift_iff reported one_position [] (refl, tt) agrees
