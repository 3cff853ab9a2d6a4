-- ===== src/Safety/State.antt =====
-- SafetyStateStore of backend/app/safety_state.py: the halt of trading and the risk circuit, in a file
-- with a backup.
pub mod Calls
pub mod Halt
pub mod Circuit
mod Tests
use ai_trading_platform_mobi.Prelude.{
  ℕ, ◌-◌, ◌/◌, ◌<◌, ap, Bool, true, false, not, ◌&&◌, ◌||◌, Option, none, some, List, [], ◌∷◌, ltb,
  leb, if◌then◌else◌, is_empty, all, Result, ok, err, ◌>>=◌, ◌>>◌, raise_if, ℤ, abs, Text, strip,
  Dict, insert,
}
use ai_trading_platform_mobi.Safety.Context.{Context, same_key, Reconciliation}

-- One record of `reconciliation_by_account`
pub record AccountRecord : Type 0 where
  pub last_reconciliation_at : ℕ
  pub reconciliation_generation : ℤ
  pub broker_route : Text
  pub route_generation : Text
  pub broker_snapshot_fingerprint : Text

pub record SafetyState : Type 0 where
  pub trading_halted : Bool
  pub halt_reason : Option Text
  pub last_reconciliation_at : Option ℕ
  pub halted_at : Option ℕ
  pub reconciliation_generation : Option ℤ
  pub reconciliation_account_id : Option Text
  pub broker_snapshot_fingerprint : Option Text
  pub reconciliation_by_account : Dict AccountRecord
  pub risk_circuit_blocked : Bool
  pub risk_circuit_reason : Option Text
  pub risk_circuit_engaged_at : Option ℕ

-- `SafetyState()`
abbrev pub initial : SafetyState
initial = record {
  trading_halted = false;
  halt_reason = none;
  last_reconciliation_at = none;
  halted_at = none;
  reconciliation_generation = none;
  reconciliation_account_id = none;
  broker_snapshot_fingerprint = none;
  reconciliation_by_account = [];
  risk_circuit_blocked = false;
  risk_circuit_reason = none;
  risk_circuit_engaged_at = none;
}

pub data SafetyError : Type 0 where
  reason_required : SafetyError
  reconciliation_required : SafetyError
  not_verified : SafetyError
  context_mismatch : SafetyError
  before_halt : SafetyError
  reset_not_ready : SafetyError
  invalid_persisted_state : SafetyError

abbrev pub Outcome : Type 0 → Type 0
Outcome A = Result SafetyError A

pub data File : Type 0 where
  absent : File
  unreadable : File
  holds : SafetyState → File

pub record Disk : Type 0 where
  pub path : File
  pub backup_path : File

-- `_decode`
abbrev decode : File → Outcome SafetyState
decode File.absent = err SafetyError.invalid_persisted_state
decode File.unreadable = err SafetyError.invalid_persisted_state
decode (File.holds s) = ok s

unfoldable pub load_from : File → File → Outcome SafetyState
load_from File.absent File.absent = ok initial
load_from File.absent File.unreadable = decode File.unreadable
load_from File.absent (File.holds s) = ok s
load_from File.unreadable backup = decode backup
load_from (File.holds s) backup = ok s

abbrev pub load : Disk → Outcome SafetyState
load d = load_from d.path d.backup_path

abbrev pub backed_up : File → File → File
backed_up File.absent backup = backup
backed_up File.unreadable backup = File.unreadable
backed_up (File.holds s) backup = File.holds s

-- `_save_unlocked`
abbrev pub save : SafetyState → Disk → Disk
save s d = record { path = File.holds s; backup_path = backed_up d.path d.backup_path }

-- A new state from the loaded one, under the mutation lock
abbrev pub mutate : (SafetyState → Outcome SafetyState) → Disk → Outcome (SafetyState × Disk)
mutate f d = do state ← load d; s ← f state; ok (s, save s d)

-- `halt`
unfoldable pub halted : Text → ℕ → SafetyState → SafetyState
halted reason now s = record s {
  trading_halted = true;
  halt_reason = some reason;
  last_reconciliation_at = none;
  halted_at = some now;
  reconciliation_generation = none;
  reconciliation_account_id = none;
  broker_snapshot_fingerprint = none;
}

unfoldable pub halt : Text → ℕ → Disk → Outcome (SafetyState × Disk)
halt reason now d = do
  raise_if (is_empty (strip reason)) SafetyError.reason_required
  mutate (λ s. ok (halted reason now s)) d

-- `engage_risk_circuit`
unfoldable pub engaged : Text → ℕ → SafetyState → SafetyState
engaged reason now s = record s {
  risk_circuit_blocked = true;
  risk_circuit_reason = some (strip reason);
  risk_circuit_engaged_at = some now;
}

unfoldable pub engage_risk_circuit : Text → ℕ → Disk → Outcome (SafetyState × Disk)
engage_risk_circuit reason now d = do
  raise_if (is_empty (strip reason)) SafetyError.reason_required
  mutate (λ s. ok (engaged reason now s)) d

-- `risk_circuit_reset_ready`: some reconciliation is later than the circuit.
unfoldable pub is_later_account : ℕ → Dict AccountRecord → Bool
is_later_account at [] = false
is_later_account at ((_, r) ∷ d) = ltb at r.last_reconciliation_at || is_later_account at d

abbrev pub is_later : ℕ → Option ℕ → Bool
is_later at none = false
is_later at (some t) = ltb at t

unfoldable pub reset_ready : SafetyState → Bool
reset_ready s = elim s.risk_circuit_engaged_at [
  | none ↦ false
  | some at ↦
      s.risk_circuit_blocked
      && (is_later at s.last_reconciliation_at || is_later_account at s.reconciliation_by_account)
]

-- `reset_risk_circuit`
unfoldable pub reset : SafetyState → Outcome SafetyState
reset s = do
  raise_if (s.risk_circuit_blocked && not (reset_ready s)) SafetyError.reset_not_ready
  ok (record s {
    risk_circuit_blocked = false;
    risk_circuit_reason = none;
    risk_circuit_engaged_at = none;
  })

unfoldable pub reset_risk_circuit : Disk → Outcome (SafetyState × Disk)
reset_risk_circuit d = mutate reset d

-- `_context_record`
abbrev pub context_record : Reconciliation → Context → AccountRecord
context_record r c = record {
  last_reconciliation_at = r.reconciled_at;
  reconciliation_generation = c.generation;
  broker_route = c.broker_route;
  route_generation = c.route_generation;
  broker_snapshot_fingerprint = c.snapshot_fingerprint;
}

-- `state.trading_halted and state.halted_at is not None and at <= state.halted_at`
abbrev pub is_before_halt : Bool → Option ℕ → ℕ → Bool
is_before_halt h none at = false
is_before_halt h (some t) at = h && leb at t

-- What the loop of `clear_all` carries
pub record Clearing : Type 0 where
  pub account_states : Dict AccountRecord
  pub latest_at : Option ℕ
  pub latest_context : Option Context

abbrev is_newer : ℕ → Option ℕ → Bool
is_newer at none = true
is_newer at (some t) = ltb t at

unfoldable pub clear_one : SafetyState → Reconciliation → Context → Clearing → Clearing
clear_one s r c x =
    let accounts = insert c.account_id (context_record r c) x.account_states in
    if is_newer r.reconciled_at x.latest_at
    then record {
      account_states = accounts;
      latest_at = some r.reconciled_at;
      latest_context = some c;
    }
    else record x { account_states = accounts }

unfoldable pub clear_loop :
    SafetyState → List (Reconciliation × Context) → Clearing → Outcome Clearing
clear_loop s [] x = ok x
clear_loop s ((r, c) ∷ rest) x = do
  raise_if (not r.has_token) SafetyError.not_verified
  raise_if (not (same_key r.context c)) SafetyError.context_mismatch
  raise_if (is_before_halt s.trading_halted s.halted_at r.reconciled_at) SafetyError.before_halt
  clear_loop s rest (clear_one s r c x)

-- `reconciliations[-1][1]`
last_context : List (Reconciliation × Context) → Context → Context
last_context [] c = c
last_context ((_, d) ∷ rest) c = last_context rest d

-- `clear_all` on the state
unfoldable pub cleared : List (Reconciliation × Context) → SafetyState → Outcome SafetyState
unfolding last_context
cleared [] s = err SafetyError.reconciliation_required
cleared ((r, c) ∷ rest) s = do
  x ← clear_loop s ((r, c) ∷ rest) (record {
    account_states = s.reconciliation_by_account;
    latest_at = s.last_reconciliation_at;
    latest_context = none;
  })
  let last : Context = elim x.latest_context [ none ↦ last_context rest c | some d ↦ d ]
  ok (record s {
    trading_halted = false;
    halt_reason = none;
    last_reconciliation_at = x.latest_at;
    halted_at = none;
    reconciliation_generation = some last.generation;
    reconciliation_account_id = some last.account_id;
    broker_snapshot_fingerprint = some last.snapshot_fingerprint;
    reconciliation_by_account = x.account_states;
  })

unfoldable pub clear_all : List (Reconciliation × Context) → Disk → Outcome (SafetyState × Disk)
clear_all reconciliations d = do
  raise_if (is_empty reconciliations) SafetyError.reconciliation_required
  mutate (cleared reconciliations) d

unfoldable pub clear : Reconciliation → Context → Disk → Outcome (SafetyState × Disk)
clear r c d = clear_all ((r, c) ∷ []) d
