-- ===== src/Execution/Authorizations/Tests.antt =====
-- Runs of the authorization store, where a nonce is its own hash.
use ai_trading_platform_mobi.Prelude.{
  ℕ, ◌≡◌, refl, true, false, Option, none, some, [], ◌∷◌, ok, Ensures, pos, Text, codes, strip,
}
use ai_trading_platform_mobi.Execution.Authorizations.{
  Instant, Row, Table, Authorization, Consumption, check_expiry, check_row, settle, consume_at,
  issue, consume, SafetyContext,
}
use ai_trading_platform_mobi.Execution.Authorizations.Single.{Call, run, consumed_once}

abbrev hash : Text → Text
hash t = t

abbrev authorization : Authorization
authorization = record {
  nonce = codes "n1";
  order_fingerprint = codes "f1";
  context_key = codes "k1";
  expires_at = Instant.aware 9;
}

abbrev row : Option ℕ → Row
row used = record {
  order_fingerprint = codes "f1";
  context_key = codes "k1";
  expires_at = Instant.aware 9;
  consumed_at = used;
}

abbrev fresh : Table
fresh = (codes "n1", row none) ∷ []

abbrev used : Table
used = (codes "n1", row (some 7)) ∷ []

consume-runs :
    (issue hash authorization [] ≡ ok fresh)
    × (consume hash (codes "n1") (codes "f1") (codes "k1") (Instant.aware 7) fresh
        ≡ ok (Consumption.consumed_now, used))
    × (consume hash (codes "n1") (codes "f1") (codes "k1") (Instant.aware 10) fresh
        ≡ ok (Consumption.expired, fresh))
    × (consume hash (codes "n1") (codes "f2") (codes "k1") (Instant.aware 7) fresh
        ≡ ok (Consumption.order_mismatch, fresh))
unfolding issue consume consume_at check_row check_expiry settle strip
consume-runs = (refl, refl, refl, refl)

consumed_once_example :
    Ensures
      (consume hash (codes "n1") (codes "f1") (codes "k1") (Instant.aware 8) (
        run hash used (
          Call.issuing authorization
          ∷ Call.consuming (codes "n1") (codes "f1") (codes "k2") (Instant.aware 8)
          ∷ [])))
      (λ x. x.0 ≡ Consumption.consumed)
unfolding consume consume_at check_row check_expiry settle strip
consumed_once_example =
    consumed_once hash (codes "n1") (codes "f1") (codes "k1") (Instant.aware 7) fresh used refl
      (Call.issuing authorization
        ∷ Call.consuming (codes "n1") (codes "f1") (codes "k2") (Instant.aware 8)
        ∷ [])
      (codes "f1") (codes "k1") (Instant.aware 8)

abbrev context : SafetyContext
context = record {
  emergency_halt = false;
  reconciliation_ready = true;
  broker_healthy = true;
  risk_allowed = true;
  broker_account_id = some (pos 1);
  broker_route = some (codes "dhan");
}
