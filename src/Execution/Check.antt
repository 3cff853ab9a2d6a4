-- ===== src/Execution/Check.antt =====
-- ExecutionAuthorization of backend/app/execution_authorization.py: the check before an order is
-- executed. The session gate, the risk gate and the snapshot provider are given by their answers
-- during one check, and each read of the safety store by what it reads. The audit log is left out.
pub mod Verified
mod Tests
use ai_trading_platform_mobi.Prelude.{
  ◌-◌, ◌/◌, ap, Bool, true, false, not, Option, none, some, if◌then◌else◌, is_some, all, Result, ok,
  err, ◌>>=◌, ◌>>◌, raise_if, Text, text_eq, lookup, take,
}
use ai_trading_platform_mobi.Safety.State.{SafetyState, Outcome, halted}

-- `account_reconciliation` of backend/app/safety_state.py, of which a check reads the fingerprint
unfoldable pub account_reconciliation : Text → SafetyState → Option (Option Text)
account_reconciliation account s = elim (lookup account s.reconciliation_by_account) [
  | some r ↦ some (some r.broker_snapshot_fingerprint)
  | none ↦ elim s.reconciliation_account_id [
    | none ↦ none
    | some own ↦ if text_eq own account then some s.broker_snapshot_fingerprint else none
  ]
]

pub data AuthorizationCode : Type 0 where
  trading_halted : AuthorizationCode
  reconciliation_context_unavailable : AuthorizationCode
  session_clock_unavailable : AuthorizationCode
  session_risk_rejected : AuthorizationCode
  session_risk_gate_error : AuthorizationCode
  risk_reservation_binding_error : AuthorizationCode
  risk_snapshot_unavailable : AuthorizationCode
  risk_rejected : AuthorizationCode
  risk_broker_snapshot_unverifiable : AuthorizationCode
  risk_broker_snapshot_changed : AuthorizationCode
  reconciliation_snapshot_mismatch : AuthorizationCode
  risk_gate_error : AuthorizationCode

-- An answer that is there, or the code of a refusal
abbrev pub taken {ℓ} : {A : Type ℓ} → Option A → AuthorizationCode → Result AuthorizationCode A
taken none code = err code
taken (some a) code = ok a

-- The answer of the session gate
pub data SessionAnswer : Type 0 where
  clock_missing : SessionAnswer
  gate_raised : SessionAnswer
  evaluated : Bool → SessionAnswer

abbrev pub session_check : Option SessionAnswer → Result AuthorizationCode (Unit {0})
session_check none = ok tt
session_check (some SessionAnswer.clock_missing) = err AuthorizationCode.session_clock_unavailable
session_check (some SessionAnswer.gate_raised) = err AuthorizationCode.session_risk_gate_error
session_check (some (SessionAnswer.evaluated allowed)) =
    raise_if (not allowed) AuthorizationCode.session_risk_rejected

-- `bind_request` of the reservations, which may be missing, return or raise
pub data Binding : Type 0 where
  no_binding bound binding_raised : Binding

abbrev pub is_raised : Binding → Bool
is_raised Binding.binding_raised = true
is_raised _ = false

-- The answers of the snapshot provider and of the risk gate on both snapshots; `none` is a raise.
pub record Answers (Snapshot : Type 0) : Type 0 where
  pub first_snapshot : Option Snapshot
  pub first_decision : Snapshot → Option Bool
  pub second_snapshot : Option Snapshot
  pub second_decision : Snapshot → Option Bool

pub record RiskGate (Snapshot : Type 0) : Type 0 where
  pub binding : Binding
  pub provider : Option (Answers Snapshot)

-- The reads of the safety store, in the order of the calls
pub record Reads : Type 0 where
  pub halt : Outcome SafetyState
  pub account : Outcome SafetyState
  pub fingerprint : Outcome SafetyState

abbrev pub joined {ℓ} : {A : Type ℓ} → Option (Option A) → Option A
joined none = none
joined (some o) = o

-- The fingerprint that was reconciled, of the account or of the store
abbrev pub reconciled_fingerprint :
    Option Text → Outcome SafetyState → Result AuthorizationCode Text
reconciled_fingerprint account (err _) = err AuthorizationCode.risk_gate_error
reconciled_fingerprint none (ok s) =
    taken s.broker_snapshot_fingerprint AuthorizationCode.reconciliation_context_unavailable
reconciled_fingerprint (some account) (ok s) =
    taken (joined (account_reconciliation account s))
      AuthorizationCode.reconciliation_context_unavailable

-- The account of a request has been reconciled.
abbrev pub check_account :
    Option Text → Outcome SafetyState → Outcome (Result AuthorizationCode (Unit {0}))
check_account none read = ok (ok tt)
check_account (some account) read = read >>= λ s. ok (
    raise_if (not (is_some (account_reconciliation account s)))
      AuthorizationCode.reconciliation_context_unavailable)

-- `check_safety`, for the account of the request; what a read raises is raised.
unfoldable pub check_safety : Option Text → Reads → Outcome (Result AuthorizationCode (Unit {0}))
check_safety account reads = reads.halt >>= λ s.
    if s.trading_halted
    then ok (err AuthorizationCode.trading_halted)
    else check_account account reads.account

module _ {Snapshot : Type 0} (snapshot_fingerprint : Snapshot → Option Text) where
  -- The two snapshots of a check and the decisions on them
  unfoldable pub check_snapshots :
      Option Text
      → Outcome SafetyState
      → Answers Snapshot
      → Result AuthorizationCode (Option Snapshot)
  check_snapshots account read p = do
    first ← taken p.first_snapshot AuthorizationCode.risk_gate_error
    first_allowed ← taken (p.first_decision first) AuthorizationCode.risk_gate_error
    raise_if (not first_allowed) AuthorizationCode.risk_rejected
    second ← taken p.second_snapshot AuthorizationCode.risk_gate_error
    a ← taken (snapshot_fingerprint first) AuthorizationCode.risk_broker_snapshot_unverifiable
    b ← taken (snapshot_fingerprint second) AuthorizationCode.risk_broker_snapshot_unverifiable
    raise_if (not (text_eq a b)) AuthorizationCode.risk_broker_snapshot_changed
    expected ← reconciled_fingerprint account read
    raise_if (not (text_eq b expected)) AuthorizationCode.reconciliation_snapshot_mismatch
    second_allowed ← taken (p.second_decision second) AuthorizationCode.risk_gate_error
    raise_if (not second_allowed) AuthorizationCode.risk_rejected
    ok (some second)

  unfoldable pub check_risk :
      Option Text
      → Outcome SafetyState
      → Option (RiskGate Snapshot)
      → Result AuthorizationCode (Option Snapshot)
  check_risk account read none = ok none
  check_risk account read (some gate) = do
    raise_if (is_raised gate.binding) AuthorizationCode.risk_reservation_binding_error
    p ← taken gate.provider AuthorizationCode.risk_snapshot_unavailable
    check_snapshots account read p

  -- `check`: the code of a refusal, or the snapshot that was authorized
  unfoldable pub check :
      Option Text
      → Reads
      → Option SessionAnswer
      → Option (RiskGate Snapshot)
      → Outcome (Result AuthorizationCode (Option Snapshot))
  check account reads session gate = check_safety account reads >>= λ safety.
      ok (safety >> (session_check session >> check_risk account reads.fingerprint gate))
