-- ===== src/Orders/StateMachine/Tests.antt =====
-- Runs of the order state machine on concrete requests.
use ai_trading_platform_mobi.Prelude.{◌≡◌, refl, List, [], ◌∷◌, ok, arith}
use ai_trading_platform_mobi.Orders.StateMachine.{
  OrderState, opened, partially_filled, filled, cancel_pending, cancelled, pending_reconciliation,
  OrderStateMachine, transition, terminal,
}
use ai_trading_platform_mobi.Orders.StateMachine.Laws.{
  run, IsSubmitted, run_of_terminal, live_can_fill_and_reconcile, run-IsSubmitted,
}

abbrev in_state : OrderState → OrderStateMachine
in_state s = record { state = s }

abbrev requests : List OrderState
requests = partially_filled ∷ cancelled ∷ cancel_pending ∷ cancelled ∷ opened ∷ []

run_cancels : run (in_state opened) requests ≡ in_state cancelled
unfolding run transition
run_cancels = refl

run_of_terminal_example : run (in_state cancelled) requests ≡ in_state cancelled
unfolding terminal
run_of_terminal_example = run_of_terminal (in_state cancelled) requests refl

live_can_fill_and_reconcile_example :
    (transition (in_state cancel_pending) filled ≡ ok (in_state filled))
    × (transition (in_state cancel_pending) pending_reconciliation
        ≡ ok (in_state pending_reconciliation))
unfolding terminal
live_can_fill_and_reconcile_example = live_can_fill_and_reconcile (in_state cancel_pending) refl

run-IsSubmitted_example : IsSubmitted (run (in_state opened) requests)
run-IsSubmitted_example = run-IsSubmitted (in_state opened) requests (ground arith)
