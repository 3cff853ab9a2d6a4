-- ===== src/Execution/Authorizations.antt =====
-- ExecutionAuthorizationStore of backend/app/execution_authorization_store.py, and the gate of
-- backend/app/execution_safety_gate.py. SHA-256 is a parameter.
pub mod Single
mod Tests
use ai_trading_platform_mobi.Prelude.{
  ℕ, ◌-◌, ◌/◌, ap, Bool, false, not, ◌||◌, Option, none, some, ltb, if◌then◌else◌, is_some,
  is_empty, all, Result, ok, err, ◌>>=◌, ◌>>◌, raise_if, ℤ, Text, text_eq, strip, Dict, lookup,
  contains, insert,
}

-- A `datetime`, with or without a time zone
pub data Instant : Type 0 where
  aware : ℕ → Instant
  naive : ℕ → Instant

-- A row of `execution_authorizations`, by the hash of its nonce
pub record Row : Type 0 where
  pub order_fingerprint : Text
  pub context_key : Text
  pub expires_at : Instant
  pub consumed_at : Option ℕ

abbrev pub Table : Type 0
Table = Dict Row

pub record Authorization : Type 0 where
  pub nonce : Text
  pub order_fingerprint : Text
  pub context_key : Text
  pub expires_at : Instant

pub data AuthorizationError : Type 0 where
  context_required : AuthorizationError
  clock_not_aware : AuthorizationError
  already_issued : AuthorizationError

-- What `consume` returns
pub data Consumption : Type 0 where
  missing : Consumption
  consumed : Consumption
  order_mismatch : Consumption
  context_mismatch : Consumption
  invalid_expiry : Consumption
  expired : Consumption
  consumed_now : Consumption

abbrev pub Outcome : Type 0 → Type 0
Outcome A = Result AuthorizationError A

-- The tests on a row that is not consumed, at a time
unfoldable pub check_expiry : Instant → ℕ → Consumption
check_expiry (naive _) now = Consumption.invalid_expiry
check_expiry (aware expiry) now =
    if ltb expiry now then Consumption.expired else Consumption.consumed_now

unfoldable pub check_row : Row → Text → Text → ℕ → Consumption
check_row row fingerprint key now =
    if is_some row.consumed_at
    then Consumption.consumed
    else (if not (text_eq row.order_fingerprint fingerprint)
        then Consumption.order_mismatch
        else (if not (text_eq row.context_key key)
            then Consumption.context_mismatch
            else check_expiry row.expires_at now))

-- The update, where the row is consumed now, and the rollback otherwise
unfoldable pub settle : Consumption → Text → Row → ℕ → Table → Table
settle Consumption.consumed_now k row now t = insert k (record row { consumed_at = some now }) t
settle Consumption.missing k row now t = t
settle Consumption.consumed k row now t = t
settle Consumption.order_mismatch k row now t = t
settle Consumption.context_mismatch k row now t = t
settle Consumption.invalid_expiry k row now t = t
settle Consumption.expired k row now t = t

unfoldable pub consume_at : Text → Text → Text → ℕ → Table → Consumption × Table
consume_at k fingerprint key now t = elim (lookup k t) [
  | none ↦ (Consumption.missing, t)
  | some row ↦
      (check_row row fingerprint key now, settle (check_row row fingerprint key now) k row now t)
]

module _ (hash : Text → Text) where
  -- `issue`
  unfoldable pub issue : Authorization → Table → Outcome Table
  issue a t = do
    raise_if (is_empty (strip a.context_key)) AuthorizationError.context_required
    raise_if (contains (hash a.nonce) t) AuthorizationError.already_issued
    ok (
        insert (hash a.nonce)
          (record {
            order_fingerprint = a.order_fingerprint;
            context_key = a.context_key;
            expires_at = a.expires_at;
            consumed_at = none;
          })
          t)

  -- `consume`
  unfoldable pub consume : Text → Text → Text → Instant → Table → Outcome (Consumption × Table)
  consume nonce fingerprint key (naive _) t = err AuthorizationError.clock_not_aware
  consume nonce fingerprint key (aware now) t = do
    raise_if (is_empty (strip key)) AuthorizationError.context_required
    ok (consume_at (hash nonce) fingerprint key now t)

pub data BlockReason : Type 0 where
  emergency_halt : BlockReason
  reconciliation_not_ready : BlockReason
  broker_unhealthy : BlockReason
  risk_limit_breach : BlockReason
  invalid_scope : BlockReason

-- ExecutionSafetyContext
pub record SafetyContext : Type 0 where
  pub emergency_halt : Bool
  pub reconciliation_ready : Bool
  pub broker_healthy : Bool
  pub risk_allowed : Bool
  pub broker_account_id : Option ℤ
  pub broker_route : Option Text

abbrev pub has_route : Option Text → Bool
has_route none = false
has_route (some t) = not (is_empty t)

-- `ExecutionSafetyGate.authorize`: the reason that blocks, and none where execution is allowed
unfoldable pub authorize : SafetyContext → Option BlockReason
authorize c =
    if c.emergency_halt
    then some BlockReason.emergency_halt
    else (if not c.reconciliation_ready
        then some BlockReason.reconciliation_not_ready
        else (if not c.broker_healthy
            then some BlockReason.broker_unhealthy
            else (if not c.risk_allowed
                then some BlockReason.risk_limit_breach
                else (if not (is_some c.broker_account_id) || not (has_route c.broker_route)
                    then some BlockReason.invalid_scope
                    else none))))
