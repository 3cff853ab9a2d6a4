-- ===== src/Safety/Context.antt =====
-- BrokerExecutionContext of backend/app/broker_execution_context.py and ReconciliationResult of
-- backend/app/reconciliation_result.py. Instants are numbers, so a naive time does not occur.
use ai_trading_platform_mobi.Prelude.{
  ℕ, Bool, not, ◌&&◌, ◌||◌, ltb, is_empty, Result, ok, ◌>>◌, raise_if, ℤ, pos, ltb_ℤ, eq_ℤ, Text,
  text_eq, strip,
}

pub record Context : Type 0 where
  pub account_id : Text
  pub broker_route : Text
  pub route_generation : Text
  pub generation : ℤ
  pub snapshot_fingerprint : Text
  pub observed_at : ℕ
  pub attestation : Text

pub data ContextError : Type 0 where
  account_required : ContextError
  route_required : ContextError
  route_generation_required : ContextError
  negative_generation : ContextError
  fingerprint_required : ContextError
  observed_in_future : ContextError
  not_verified : ContextError
  reconciled_in_future : ContextError
  negative_intents : ContextError
  broker_not_ready : ContextError
  not_reconciled : ContextError
  reconciled_before_observation : ContextError

-- `__post_init__` at the time `now`
unfoldable pub make_context :
    Text → Text → Text → ℤ → Text → ℕ → Text → ℕ → Result ContextError Context
make_context account route route_generation generation fingerprint observed attestation now = do
  raise_if (is_empty (strip account)) ContextError.account_required
  raise_if (is_empty (strip route)) ContextError.route_required
  raise_if (is_empty (strip route_generation)) ContextError.route_generation_required
  raise_if (ltb_ℤ generation (pos 0)) ContextError.negative_generation
  raise_if (is_empty (strip fingerprint)) ContextError.fingerprint_required
  raise_if (ltb now observed) ContextError.observed_in_future
  ok (record {
    account_id = account;
    broker_route = route;
    route_generation = route_generation;
    generation = generation;
    snapshot_fingerprint = fingerprint;
    observed_at = observed;
    attestation = attestation;
  })

-- Equality of `canonical_key`
unfoldable pub same_key : Context → Context → Bool
same_key c d =
    text_eq c.account_id d.account_id
    && text_eq c.broker_route d.broker_route
    && text_eq c.route_generation d.route_generation
    && eq_ℤ c.generation d.generation
    && text_eq c.snapshot_fingerprint d.snapshot_fingerprint

-- `has_token` tells whether the object carries the module's private token.
pub record Reconciliation : Type 0 where
  pub context : Context
  pub reconciled_at : ℕ
  pub open_orders_reconciled : Bool
  pub positions_reconciled : Bool
  pub submission_intents_resolved : ℤ
  pub broker_ready : Bool
  pub has_token : Bool

-- `ReconciliationResult.__init__` at the time `now`
unfoldable pub make_reconciliation :
    Context → ℕ → Bool → Bool → ℤ → Bool → Bool → ℕ → Result ContextError Reconciliation
make_reconciliation context at orders positions intents ready token now = do
  raise_if (not token) ContextError.not_verified
  raise_if (ltb now at) ContextError.reconciled_in_future
  raise_if (ltb_ℤ intents (pos 0)) ContextError.negative_intents
  raise_if (not ready) ContextError.broker_not_ready
  raise_if (not orders || not positions) ContextError.not_reconciled
  raise_if (ltb at context.observed_at) ContextError.reconciled_before_observation
  ok (record {
    context = context;
    reconciled_at = at;
    open_orders_reconciled = orders;
    positions_reconciled = positions;
    submission_intents_resolved = intents;
    broker_ready = ready;
    has_token = token;
  })
