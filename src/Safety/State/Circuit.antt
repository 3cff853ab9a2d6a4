-- ===== src/Safety/State/Circuit.antt =====
-- Resetting the risk circuit (backend/app/safety_state.py).
use ai_trading_platform_mobi.Prelude.{
  ℕ, ◌≤◌, ◌≡◌, refl, Bool, true, false, not, Option, none, some, List, [], ◌∷◌, arith, ltb, leb,
  any, all, raise_if, Ensures, Text, Dict, insert, Ensures-bind, Ensures-then,
}
use ai_trading_platform_mobi.Safety.Context.{Context, same_key, Reconciliation}
use ai_trading_platform_mobi.Safety.State.{
  AccountRecord, SafetyState, SafetyError, Disk, halted, engaged, is_later_account, is_later,
  reset_ready, reset, context_record, is_before_halt, Clearing, clear_one, clear_loop, cleared,
}
use ai_trading_platform_mobi.Safety.State.Calls.{Call, run, Holds, effect, run-Holds}

-- The circuit is blocked since `at` or later, and no reconciliation is later than `at`.
abbrev pub IsBlocked : ℕ → SafetyState → Type 0
IsBlocked at s =
    (s.risk_circuit_blocked ≡ true)
    × (is_later at s.last_reconciliation_at ≡ false)
    × (is_later_account at s.reconciliation_by_account ≡ false)
    × (t : ℕ) × (s.risk_circuit_engaged_at ≡ some t)
    × (at ≤ t)

-- A call that brings no reconciliation later than `at`
unfoldable pub keeps_block : ℕ → Call → Bool
keeps_block at (Call.halting reason now) = true
keeps_block at (Call.engaging reason now) = leb at now
keeps_block at Call.resetting = true
keeps_block at (Call.clearing rs) = not (any (λ p. ltb at p.0.reconciled_at) rs)

is_later_account-insert :
    (at : ℕ) (k : Text) (r : AccountRecord) (d : Dict AccountRecord)
    → ltb at r.last_reconciliation_at ≡ false
    → is_later_account at d ≡ false
    → is_later_account at (insert k r d) ≡ false
unfolding is_later_account
is_later_account-insert at k r [] h e = ground arith
is_later_account-insert at k r ((j, q) ∷ d) h e = ground (arith, is_later_account-insert at k r d h)

is_later_account-later :
    (at t : ℕ) (d : Dict AccountRecord)
    → at ≤ t
    → is_later_account at d ≡ false
    → is_later_account t d ≡ false
unfolding is_later_account
is_later_account-later at t [] l e = refl
is_later_account-later at t ((_, r) ∷ d) l e = ground (arith, is_later_account-later at t d l)

is_later-later : (at t : ℕ) (o : Option ℕ) → at ≤ t → is_later at o ≡ false → is_later t o ≡ false
is_later-later at t none l e = refl
is_later-later at t (some u) l e = ground arith

-- Nothing that the loop of `clear_all` carries is later than `at`.
abbrev NotLater : ℕ → Clearing → Type 0
NotLater at x = (is_later at x.latest_at ≡ false) × (is_later_account at x.account_states ≡ false)

clear_one-NotLater :
    (at : ℕ) (s : SafetyState) (r : Reconciliation) (c : Context) (x : Clearing)
    → ltb at r.reconciled_at ≡ false
    → NotLater at x
    → NotLater at (clear_one s r c x)
unfolding clear_one
clear_one-NotLater at s r c x e h =
    ground
      (arith, is_later_account-insert at c.account_id (context_record r c) x.account_states e h.1)

clear_loop-NotLater :
    (at : ℕ) (s : SafetyState) (rs : List (Reconciliation × Context)) (x : Clearing)
    → any (λ p. ltb at p.0.reconciled_at) rs ≡ false
    → NotLater at x
    → Ensures (clear_loop s rs x) (NotLater at)
unfolding clear_loop
clear_loop-NotLater at s [] x e h = h
clear_loop-NotLater at s ((r, c) ∷ rs) x e h =
    Ensures-then (NotLater at) (raise_if (not r.has_token) SafetyError.not_verified) _ (λ _.
      Ensures-then (NotLater at)
        (raise_if (not (same_key r.context c)) SafetyError.context_mismatch) _
        (λ _.
          Ensures-then (NotLater at)
            (raise_if (is_before_halt s.trading_halted s.halted_at r.reconciled_at)
              SafetyError.before_halt)
            _
            (λ _.
              clear_loop-NotLater at s rs (clear_one s r c x) (ground arith)
                (clear_one-NotLater at s r c x (ground arith) h))))

cleared-IsBlocked :
    (at : ℕ) (rs : List (Reconciliation × Context)) (s : SafetyState)
    → any (λ p. ltb at p.0.reconciled_at) rs ≡ false
    → IsBlocked at s
    → Ensures (cleared rs s) (IsBlocked at)
unfolding cleared
cleared-IsBlocked at [] s e h = tt
cleared-IsBlocked at ((r, c) ∷ rs) s e (blocked, last, accounts, t, since, le) =
    Ensures-bind (IsBlocked at) (clear_loop s ((r, c) ∷ rs) _) _
      (clear_loop-NotLater at s ((r, c) ∷ rs) _ e (last, accounts))
      (λ x h. (blocked, h.0, h.1, t, since, le))

-- A blocked circuit is not ready for a reset.
reset_ready-IsBlocked : (at : ℕ) (s : SafetyState) → IsBlocked at s → reset_ready s ≡ false
unfolding reset_ready
reset_ready-IsBlocked at s (blocked, last, accounts, t, e, l) = ground (
  arith,
  is_later_account-later at t s.reconciliation_by_account l accounts,
  is_later-later at t s.last_reconciliation_at l last,
)

effect-IsBlocked :
    (at : ℕ) (c : Call) (s : SafetyState)
    → keeps_block at c ≡ true
    → IsBlocked at s
    → Ensures (effect c s) (IsBlocked at)
unfolding effect keeps_block halted engaged reset
effect-IsBlocked at (Call.halting reason now) s e h = (h.0, refl, h.2, h.3, h.4, h.5)
effect-IsBlocked at (Call.engaging reason now) s e h = (refl, h.1, h.2, now, refl, ground arith)
effect-IsBlocked at Call.resetting s e h = let ready = reset_ready-IsBlocked at s h in ground arith
effect-IsBlocked at (Call.clearing rs) s e h = cleared-IsBlocked at rs s (ground arith) h

-- A risk circuit that is blocked since `at`, with no reconciliation later than `at`, stays blocked
-- through any history of calls, resets included, in which the circuit is not engaged at an earlier
-- time and no reconciliation that `clear_all` is given is later than `at`.
pub run-IsBlocked :
    (at : ℕ) (cs : List Call) (d : Disk)
    → all (keeps_block at) cs ≡ true
    → Holds (IsBlocked at) d
    → Holds (IsBlocked at) (run d cs)
run-IsBlocked at cs d e h = run-Holds (IsBlocked at) (keeps_block at) (effect-IsBlocked at) cs d e h
