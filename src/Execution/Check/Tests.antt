-- ===== src/Execution/Check/Tests.antt =====
-- Runs of the execution check, with snapshots that are their fingerprints.
use ai_trading_platform_mobi.Prelude.{◌≡◌, refl, true, Option, some, ok, err, Text, codes}
use ai_trading_platform_mobi.Safety.State.{SafetyState, initial}
use ai_trading_platform_mobi.Execution.Check.{
  account_reconciliation, AuthorizationCode, SessionAnswer, Binding, RiskGate, Reads, check_safety,
  check_snapshots, check_risk, check,
}
use ai_trading_platform_mobi.Execution.Check.Verified.{IsAllowed, check-IsAllowed}

abbrev reconciled_state : SafetyState
reconciled_state = record initial {
  reconciliation_account_id = some (codes "7");
  broker_snapshot_fingerprint = some (codes "f1");
}

abbrev steady_reads : Reads
steady_reads = record {
  halt = ok reconciled_state;
  account = ok reconciled_state;
  fingerprint = ok reconciled_state;
}

abbrev gate_on : Text → RiskGate Text
gate_on second = record {
  binding = Binding.bound;
  provider = some (record {
    first_snapshot = some (codes "f1");
    first_decision = λ _. some true;
    second_snapshot = some second;
    second_decision = λ _. some true;
  });
}

abbrev session_open : Option SessionAnswer
session_open = some (SessionAnswer.evaluated true)

allows :
    check some (some (codes "7")) steady_reads session_open (some (gate_on (codes "f1")))
    ≡ ok (ok (some (codes "f1")))
unfolding check check_safety check_risk check_snapshots account_reconciliation
allows = refl

refuses_change :
    check some (some (codes "7")) steady_reads session_open (some (gate_on (codes "f2")))
    ≡ ok (err AuthorizationCode.risk_broker_snapshot_changed)
unfolding check check_safety check_risk check_snapshots account_reconciliation
refuses_change = refl

check-IsAllowed_example :
    IsAllowed some
      (some (codes "7"))
      steady_reads
      session_open
      (gate_on (codes "f1"))
      (some (codes "f1"))
check-IsAllowed_example =
    check-IsAllowed some (some (codes "7")) steady_reads session_open (gate_on (codes "f1"))
      (some (codes "f1")) allows
