-- ===== src/Risk/Store/History.antt =====
-- Histories of calls of backend/app/risk_reservation_store.py.
use ai_trading_platform_mobi.Prelude.{
  ◌≡◌, Bool, true, Option, List, [], ◌∷◌, arith, all, ok, err, Ensures, ℤ, pos, ◌+ℤ◌, ◌≤ℤ◌, leb_ℤ,
  int_laws, Text, Value, num,
}
use ai_trading_platform_mobi.Risk.Store.{
  Table, Outcome, reserve, release, reconcile, reconcile_client_order,
}
use ai_trading_platform_mobi.Risk.Store.Exposure.{IsSafe}
use ai_trading_platform_mobi.Risk.Store.Steps.{
  release-IsSafe, reconcile-IsSafe, reserve-IsSafe, reconcile_client_order-IsSafe,
}

-- The calls of the store, where the limit of a reservation is a number.
pub data Call : Type 0 where
  reserving : Option Text → Text → Text → Text → Text → Value → Value → ℤ → Call
  releasing : Text → Call
  reconciling : Text → Text → Option Value → Call
  reconciling_client : Text → Text → Option Value → Call

abbrev kept : {A : Type 0} → (A → Table) → Table → Outcome A → Table
kept f t (ok a) = f a
kept f t (err _) = t

unfoldable pub execute : Table → Call → Table
execute t (Call.reserving id fresh client account route amount current limit) =
    kept (λ x. x.1) t (reserve id fresh client account route amount current (num limit) t)
execute t (Call.releasing id) = kept (λ x. x) t (release id t)
execute t (Call.reconciling id status remaining) =
    kept (λ x. x.1) t (reconcile id status remaining t)
execute t (Call.reconciling_client client status remaining) =
    kept (λ x. x.1) t (reconcile_client_order client status remaining t)

unfoldable pub run : Table → List Call → Table
run t [] = t
run t (c ∷ cs) = run (execute t c) cs

-- A reservation asks for at most `m`.
unfoldable pub asks_within : ℤ → Call → Bool
asks_within m (Call.reserving _ _ _ _ _ _ _ limit) = leb_ℤ limit m
asks_within m _ = true

limit_up : (m limit : ℤ) → leb_ℤ limit m ≡ true → limit +ℤ pos 5 ≤ℤ m +ℤ pos 5
limit_up m limit h = grind int_laws

kept-IsSafe :
    {A : Type 0} (m : ℤ) (f : A → Table) (t : Table) (r : Outcome A)
    → IsSafe m t
    → Ensures r (λ a. IsSafe m (f a))
    → IsSafe m (kept f t r)
kept-IsSafe m f t (ok a) s k = k
kept-IsSafe m f t (err _) s k = s

execute-IsSafe :
    (m : ℤ) (t : Table) (c : Call)
    → asks_within m c ≡ true
    → IsSafe (m +ℤ pos 5) t
    → IsSafe (m +ℤ pos 5) (execute t c)
unfolding execute asks_within
execute-IsSafe m t (Call.reserving id fresh client account route amount current limit) e s =
    kept-IsSafe (m +ℤ pos 5) _ t
      (reserve id fresh client account route amount current (num limit) t) s
      (reserve-IsSafe (m +ℤ pos 5) id fresh client account route amount current limit t
        (limit_up m limit e) s)
execute-IsSafe m t (Call.releasing id) e s =
    kept-IsSafe (m +ℤ pos 5) _ t (release id t) s (release-IsSafe (m +ℤ pos 5) id t s)
execute-IsSafe m t (Call.reconciling id status remaining) e s =
    kept-IsSafe (m +ℤ pos 5) _ t (reconcile id status remaining t) s
      (reconcile-IsSafe (m +ℤ pos 5) id status remaining t s)
execute-IsSafe m t (Call.reconciling_client client status remaining) e s =
    kept-IsSafe (m +ℤ pos 5) _ t (reconcile_client_order client status remaining t) s
      (reconcile_client_order-IsSafe (m +ℤ pos 5) client status remaining t s)

-- From a table whose amounts are those of the column and in which at most `m`, up to half a unit of
-- the column, is reserved for any account and route, any history of reservations with limits up to
-- `m`, releases and reconciliations, where a refused call changes nothing, leads to such a table.
pub run-IsSafe :
    (m : ℤ) (t : Table) (cs : List Call)
    → all (asks_within m) cs ≡ true
    → IsSafe (m +ℤ pos 5) t
    → IsSafe (m +ℤ pos 5) (run t cs)
unfolding run
run-IsSafe m t [] e s = s
run-IsSafe m t (c ∷ cs) e s =
    run-IsSafe m (execute t c) cs (ground arith) (execute-IsSafe m t c (ground arith) s)
