-- ===== src/Orders/StateMachine/Laws.antt =====
-- What the transition table of backend/app/order_state_machine.py guarantees.
use ai_trading_platform_mobi.Prelude.{
  ◌≡◌, refl, ◌≢◌, ◌↔◌, Bool, true, false, List, [], ◌∷◌, Result, ok, err, arith, any, Bool-cases,
  inl, inr,
}
use ai_trading_platform_mobi.Orders.StateMachine.{
  OrderState, created, submitting, opened, partially_filled, filled, cancel_pending,
  pending_reconciliation, OrderStateMachine, InvalidOrderTransition, transition, can_transition,
  terminal,
}

-- Requests in order; a refused one leaves the machine as it was.
abbrev after :
    OrderStateMachine → Result InvalidOrderTransition OrderStateMachine → OrderStateMachine
after m (ok n) = n
after m (err _) = m

unfoldable pub run : OrderStateMachine → List OrderState → OrderStateMachine
run m [] = m
run m (t ∷ ts) = run (after m (transition m t)) ts

-- A state is terminal exactly when no transition out of it is allowed.
pub terminal-iff_stuck :
    (m : OrderStateMachine) → (terminal m ≡ true) ↔ ((t : OrderState) → can_transition m t ≡ false)
unfolding terminal can_transition
terminal-iff_stuck m = (λ h t. ground arith, λ h. ground (arith, h filled))

-- The machine moves to the target and nowhere else, and only where `can_transition` says so.
pub transition_lem :
    (m : OrderStateMachine) (t : OrderState)
    → transition m t ≡ (elim (can_transition m t) [
      | true ↦ ok (record { state = t })
      | false ↦ err (InvalidOrderTransition.invalid_transition m.state t)
    ])
unfolding transition can_transition
transition_lem m t = ground arith

step_of_terminal :
    (m : OrderStateMachine) (t : OrderState) → terminal m ≡ true → after m (transition m t) ≡ m
unfolding terminal transition
step_of_terminal m t h = ground arith

-- A terminal order stays as it is, whatever is requested of it.
pub run_of_terminal :
    (m : OrderStateMachine) (ts : List OrderState) → terminal m ≡ true → run m ts ≡ m
unfolding run
run_of_terminal m [] h = refl
run_of_terminal m (t ∷ ts) h = rw (step_of_terminal m t h) (run_of_terminal m ts h)

-- An order that is not terminal can always be filled, and can always be sent to reconciliation.
pub live_can_fill_and_reconcile :
    (m : OrderStateMachine)
    → terminal m ≡ false
    → (transition m filled ≡ ok (record { state = filled }))
      × (transition m pending_reconciliation ≡ ok (record { state = pending_reconciliation }))
unfolding transition terminal
live_can_fill_and_reconcile m h = ground arith

abbrev pub IsSubmitted : OrderStateMachine → Type 0
IsSubmitted m = (m.state ≢ created) × (m.state ≢ submitting)

step-IsSubmitted :
    (m : OrderStateMachine) (t : OrderState)
    → IsSubmitted m
    → IsSubmitted (after m (transition m t))
unfolding transition
step-IsSubmitted m t h = ground arith

-- Once an order is past submission, no sequence of requests brings it back to CREATED or to
-- SUBMITTING.
pub run-IsSubmitted :
    (m : OrderStateMachine) (ts : List OrderState) → IsSubmitted m → IsSubmitted (run m ts)
unfolding run
run-IsSubmitted m [] h = h
run-IsSubmitted m (t ∷ ts) h =
    run-IsSubmitted (after m (transition m t)) ts (step-IsSubmitted m t h)

-- The requests on whose way alone a cancellation lies.
abbrev pub asks_first : OrderState → Bool
asks_first cancel_pending = true
asks_first pending_reconciliation = true
asks_first _ = false

-- The states of an order at the broker that nobody has asked to cancel.
abbrev pub is_working : OrderState → Bool
is_working opened = true
is_working partially_filled = true
is_working filled = true
is_working _ = false

step_working :
    (m : OrderStateMachine) (t : OrderState)
    → is_working m.state ≡ true
    → asks_first t ≡ false
    → is_working (after m (transition m t)).state ≡ true
unfolding transition
step_working m t h k = ground arith

-- An order that is OPEN, PARTIALLY_FILLED or FILLED is CANCELLED or REJECTED later only if
-- CANCEL_PENDING or PENDING_RECONCILIATION was requested in between.
pub closing_needs_request :
    (m : OrderStateMachine) (ts : List OrderState)
    → is_working m.state ≡ true
    → is_working (run m ts).state ≡ false
    → any asks_first ts ≡ true
unfolding run
closing_needs_request m [] h k = cc
closing_needs_request m (t ∷ ts) h k = elim (Bool-cases (asks_first t)) [
  | inl e ↦ rw e refl
  | inr e ↦ rw e (closing_needs_request (after m (transition m t)) ts (step_working m t h e) k)
]
