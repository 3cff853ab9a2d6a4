-- ===== src/Orders/StateMachine.antt =====
-- The order state machine, backend/app/order_state_machine.py.
-- `raise InvalidOrderTransition` is an `err`; the machine is the record of its one field.
pub mod Laws
mod Tests
use ai_trading_platform_mobi.Prelude.{
  ℕ, ◌==◌, Bool, List, [], ◌∷◌, any, Result, ok, err, if◌then◌else◌,
}

-- `OrderState.OPEN` is `opened`: `open` is a reserved word.
pub data OrderState : Type 0 where
  created submitting opened partially_filled filled cancel_pending cancelled rejected
        pending_reconciliation :
      OrderState

ordinal : OrderState → ℕ
ordinal OrderState.created = 0
ordinal OrderState.submitting = 1
ordinal OrderState.opened = 2
ordinal OrderState.partially_filled = 3
ordinal OrderState.filled = 4
ordinal OrderState.cancel_pending = 5
ordinal OrderState.cancelled = 6
ordinal OrderState.rejected = 7
ordinal OrderState.pending_reconciliation = 8

unfoldable pub state_eq : OrderState → OrderState → Bool
unfolding ordinal
state_eq a b = ordinal a == ordinal b

-- The table `_ALLOWED`.
unfoldable pub allowed : OrderState → List OrderState
allowed OrderState.created =
    OrderState.submitting ∷ OrderState.opened ∷ OrderState.partially_filled ∷ OrderState.filled
    ∷ OrderState.rejected ∷ OrderState.cancelled ∷ OrderState.pending_reconciliation ∷ []
allowed OrderState.submitting =
    OrderState.opened ∷ OrderState.partially_filled ∷ OrderState.filled ∷ OrderState.rejected
    ∷ OrderState.pending_reconciliation ∷ []
allowed OrderState.opened =
    OrderState.partially_filled ∷ OrderState.filled ∷ OrderState.cancel_pending
    ∷ OrderState.pending_reconciliation ∷ []
allowed OrderState.partially_filled =
    OrderState.partially_filled ∷ OrderState.filled ∷ OrderState.cancel_pending
    ∷ OrderState.pending_reconciliation ∷ []
allowed OrderState.filled = []
allowed OrderState.cancel_pending =
    OrderState.cancelled ∷ OrderState.partially_filled ∷ OrderState.filled
    ∷ OrderState.pending_reconciliation ∷ []
allowed OrderState.cancelled = []
allowed OrderState.rejected = []
allowed OrderState.pending_reconciliation =
    OrderState.opened ∷ OrderState.partially_filled ∷ OrderState.filled ∷ OrderState.cancelled
    ∷ OrderState.rejected ∷ OrderState.pending_reconciliation ∷ []

pub record OrderStateMachine : Type 0 where
  pub state : OrderState

-- The two states that the exception's message names.
pub data InvalidOrderTransition : Type 0 where
  invalid_transition : OrderState → OrderState → InvalidOrderTransition

unfoldable pub can_transition : OrderStateMachine → OrderState → Bool
unfolding state_eq allowed
can_transition m target = any (state_eq target) (allowed m.state)

unfoldable pub transition :
    OrderStateMachine → OrderState → Result InvalidOrderTransition OrderStateMachine
unfolding state_eq allowed
transition m target =
    if any (state_eq target) (allowed m.state)
    then ok (record { state = target })
    else err (InvalidOrderTransition.invalid_transition m.state target)

unfoldable pub terminal : OrderStateMachine → Bool
unfolding state_eq
terminal m =
    any (state_eq m.state) (OrderState.filled ∷ OrderState.cancelled ∷ OrderState.rejected ∷ [])
