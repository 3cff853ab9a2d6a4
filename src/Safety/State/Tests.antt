-- ===== src/Safety/State/Tests.antt =====
-- Runs of the safety store.
use ai_trading_platform_mobi.Prelude.{
  ℕ, ◌≡◌, refl, ◌≢◌, ◌↔◌, true, false, none, some, List, [], ◌∷◌, arith, ok, err, is_ok, pos, codes,
  strip, All,
}
use ai_trading_platform_mobi.Safety.Context.{
  Context, ContextError, make_context, same_key, Reconciliation, make_reconciliation,
}
use ai_trading_platform_mobi.Safety.State.{
  SafetyState, initial, File, Disk, load_from, is_later_account, reset_ready, reset,
  reset_risk_circuit, context_record, clear_one, clear_loop, cleared, clear_all,
}
use ai_trading_platform_mobi.Safety.State.Calls.{Call, execute, run, Holds}
use ai_trading_platform_mobi.Safety.State.Halt.{
  IsAcceptable, clear_all_iff, IsHalted, keeps_halt, run-IsHalted,
}
use ai_trading_platform_mobi.Safety.State.Circuit.{IsBlocked, keeps_block, run-IsBlocked}

abbrev context : Context
context = record {
  account_id = codes "a1";
  broker_route = codes "dhan";
  route_generation = codes "g1";
  generation = pos 2;
  snapshot_fingerprint = codes "fp";
  observed_at = 4;
  attestation = [];
}

abbrev reconciliation : ℕ → Reconciliation
reconciliation at = record {
  context = context;
  reconciled_at = at;
  open_orders_reconciled = true;
  positions_reconciled = true;
  submission_intents_resolved = pos 0;
  broker_ready = true;
  has_token = true;
}

contexts_made :
    (make_context (codes "a1") (codes "dhan") (codes "g1") (pos 2) (codes "fp") 4 [] 9 ≡ ok context)
    × (make_reconciliation context 7 true true (pos 0) true true 9 ≡ ok (reconciliation 7))
    × (make_reconciliation context 3 true true (pos 0) true true 9
        ≡ err ContextError.reconciled_before_observation)
unfolding make_context make_reconciliation strip
contexts_made = (refl, refl, refl)

-- Trading is halted at 5 and the circuit engaged at 6.
abbrev stopped : SafetyState
stopped = record initial {
  trading_halted = true;
  halt_reason = some (codes "stop");
  halted_at = some 5;
  risk_circuit_blocked = true;
  risk_circuit_reason = some (codes "loss");
  risk_circuit_engaged_at = some 6;
}

abbrev disk : Disk
disk = record { path = File.holds stopped; backup_path = File.absent }

abbrev trials : List Call
trials =
    Call.clearing ((reconciliation 5, context) ∷ [])
    ∷ Call.resetting
    ∷ Call.halting (codes "again") 6
    ∷ Call.clearing ((reconciliation 4, context) ∷ (reconciliation 5, context) ∷ [])
    ∷ []

-- After a reconciliation at 7, both are lifted.
lifted :
    run disk (Call.clearing ((reconciliation 7, context) ∷ []) ∷ Call.resetting ∷ []) ≡ record {
      path = File.holds (record initial {
        last_reconciliation_at = some 7;
        reconciliation_generation = some (pos 2);
        reconciliation_account_id = some (codes "a1");
        broker_snapshot_fingerprint = some (codes "fp");
        reconciliation_by_account = (codes "a1", context_record (reconciliation 7) context) ∷ [];
      });
      backup_path = File.holds (record stopped {
        trading_halted = false;
        halt_reason = none;
        halted_at = none;
        last_reconciliation_at = some 7;
        reconciliation_generation = some (pos 2);
        reconciliation_account_id = some (codes "a1");
        broker_snapshot_fingerprint = some (codes "fp");
        reconciliation_by_account = (codes "a1", context_record (reconciliation 7) context) ∷ [];
      });
    }
unfolding run execute clear_all cleared clear_loop clear_one same_key load_from reset_risk_circuit
    reset reset_ready is_later_account
lifted = refl

abbrev cure : List (Reconciliation × Context)
cure = (reconciliation 7, context) ∷ []

clear_all_iff_example :
    (is_ok (clear_all cure disk) ≡ true) ↔ ((cure ≢ []) × All (IsAcceptable stopped) cure)
unfolding load_from
clear_all_iff_example = clear_all_iff cure disk stopped refl

run-IsHalted_example : Holds (IsHalted 5) (run disk trials)
unfolding keeps_halt same_key load_from
run-IsHalted_example = run-IsHalted 5 trials disk refl (stopped, refl, (refl, 5, refl, omega arith))

run-IsBlocked_example : Holds (IsBlocked 6) (run disk trials)
unfolding keeps_block load_from is_later_account
run-IsBlocked_example =
    run-IsBlocked 6 trials disk refl (stopped, refl, (refl, refl, refl, 6, refl, omega arith))
