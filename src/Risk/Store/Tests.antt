-- ===== src/Risk/Store/Tests.antt =====
-- Runs of the reservation store.
use ai_trading_platform_mobi.Prelude.{
  ℕ, String, ◌≡◌, refl, Bool, true, false, none, some, List, [], ◌∷◌, arith, pos, ◌+ℤ◌, codes,
  strip, upper, num,
}
use ai_trading_platform_mobi.Risk.Store.{
  Row, to_column, find_client, find_id, active_sum, reserve_existing, reserve_new, reserve,
  update_row, release, normalize_status, is_terminal, reconcile_partial, reconcile_row, reconcile,
  reconcile_client_order,
}
use ai_trading_platform_mobi.Risk.Store.Exposure.{IsSafe}
use ai_trading_platform_mobi.Risk.Store.History.{Call, execute, run, asks_within, run-IsSafe}

abbrev reserving : String → ℕ → Call
reserving client amount =
    Call.reserving none (codes client) (codes client) (codes "a1") (codes "dhan") (num (pos amount))
      (num (pos 100)) (pos 1000)

-- The reserved amounts of c4 and, after its partial fill, of c1 are rounded.
abbrev session : List Call
session =
    reserving "c1" 400
    ∷ reserving "c1" 400
    ∷ reserving "c2" 510
    ∷ reserving "c3" 500
    ∷ Call.reconciling (codes "c1") (codes "partially filled") (some (num (pos 154)))
    ∷ Call.reconciling_client (codes "c3") (codes "Cancelled") none
    ∷ reserving "c3" 50
    ∷ reserving "c4" 745
    ∷ Call.releasing (codes "c5")
    ∷ []

abbrev row : String → ℕ → Bool → Row
row client amount active = record {
  reservation_id = codes client;
  client_order_id = codes client;
  broker_account_id = codes "a1";
  broker_route = codes "dhan";
  amount = pos amount;
  is_active = active;
}

session-run : run [] session ≡ row "c1" 150 true ∷ row "c3" 500 false ∷ row "c4" 750 true ∷ []
unfolding run execute reserve reserve_new reserve_existing find_client find_id active_sum update_row
    reconcile reconcile_row reconcile_partial reconcile_client_order release normalize_status
    is_terminal strip upper to_column ◌+ℤ◌
session-run = refl

-- A remaining amount of 1e-9 is stored as nothing, and the reservation stays active.
dust-run :
    run [] (
      reserving "c1" 400
      ∷ Call.reconciling (codes "c1") (codes "PARTIALLY_FILLED") (some (num (pos 1)))
      ∷ [])
    ≡ row "c1" 0 true ∷ []
unfolding run execute reserve reserve_new find_client find_id active_sum update_row reconcile
    reconcile_row reconcile_partial normalize_status is_terminal strip upper to_column ◌+ℤ◌
dust-run = refl

run-IsSafe_example : IsSafe (pos 1000 +ℤ pos 5) (run [] session)
unfolding asks_within active_sum ◌+ℤ◌
run-IsSafe_example = run-IsSafe (pos 1000) [] session refl (tt, λ _ _. omega arith)
