-- ===== src/Risk/Store/Steps.antt =====
-- Single calls of backend/app/risk_reservation_store.py and the exposure.
use ai_trading_platform_mobi.Prelude.{
  ◌≡◌, inl, inr, not, ◌||◌, Option, none, some, [], ◌∷◌, ◌++◌, arith, is_some, Bool-cases,
  Option-cases, is_empty, raise_if, Ensures, ℤ, pos, ◌+ℤ◌, ◌≤ℤ◌, ◌<ℤ◌, ltb_ℤ, leb_ℤ, eq_ℤ, int_laws,
  Text, codes, text_eq, text_eq_iff, strip, Value, num, non_finite, not_numeric, Ensures-bind,
  Ensures-then, subst, Ensures-guard,
}
use ai_trading_platform_mobi.Risk.Store.{
  Row, Table, StoreError, to_column, find_client, find_id, in_scope, active_sum, given_or,
  reserve_existing, reserve_new, reserve, update_row, released, with_amount, release,
  normalize_status, is_terminal, reconcile_partial, reconcile_row, reconcile,
  reconcile_client_order,
}
use ai_trading_platform_mobi.Risk.Store.Exposure.{
  to_column-IsColumn, to_column_up, to_column_below, IsColumn_nonneg, active_sum-append,
  AreColumns-append, find_id-IsColumn, IsSafe, update-IsSafe,
}

released-IsSafe :
    (m : ℤ) (k : Text) (t : Table) (row : Row)
    → find_id k t ≡ some row
    → IsSafe m t
    → IsSafe m (update_row k released t)
released-IsSafe m k t row h s =
    let column = find_id-IsColumn k t row h s.0 in
    let nonneg = IsColumn_nonneg row.amount column in
    update-IsSafe m k released t row h column (λ a r. grind arith) s

with_amount-IsSafe :
    (m x : ℤ) (k : Text) (t : Table) (row : Row)
    → find_id k t ≡ some row
    → pos 0 ≤ℤ x
    → x ≤ℤ row.amount
    → IsSafe m t
    → IsSafe m (update_row k (with_amount (to_column x)) t)
with_amount-IsSafe m x k t row h p l s =
    let less = to_column_below x row.amount p (find_id-IsColumn k t row h s.0) l in
    update-IsSafe m k (with_amount (to_column x)) t row h (to_column-IsColumn x p)
      (λ a r. grind arith) s

pub release-IsSafe : (m : ℤ) (k : Text) (t : Table) → IsSafe m t → Ensures (release k t) (IsSafe m)
unfolding release
release-IsSafe m k t s =
    Ensures-then (IsSafe m) (raise_if (is_empty (strip k)) StoreError.reservation_id_required) _
      (λ _. elim (Option-cases (find_id (strip k) t)) [
        | inl absent ↦ ground arith
        | inr (row, found) ↦ elim (Bool-cases row.is_active) [
          | inl e ↦ rw (found, e) (released-IsSafe m (strip k) t row found s)
          | inr e ↦ rw (found, e) s
        ]
      ])

reconcile_partial-IsSafe :
    (m : ℤ) (row : Row) (k : Text) (remaining : Option Value) (t : Table)
    → find_id k t ≡ some row
    → IsSafe m t
    → Ensures (reconcile_partial row k remaining t) (λ x. IsSafe m x.1)
unfolding reconcile_partial
reconcile_partial-IsSafe m row k none t h s = tt
reconcile_partial-IsSafe m row k (some non_finite) t h s = tt
reconcile_partial-IsSafe m row k (some not_numeric) t h s = tt
reconcile_partial-IsSafe m row k (some (num x)) t h s = elim (Bool-cases (ltb_ℤ x (pos 0))) [
  | inl e ↦ rw e tt
  | inr small ↦ rw small (elim (Bool-cases (ltb_ℤ row.amount x)) [
    | inl e ↦ rw e tt
    | inr big ↦ rw big (elim (Bool-cases (eq_ℤ x (pos 0))) [
      | inl e ↦ rw e (released-IsSafe m k t row h s)
      | inr e ↦ rw e (with_amount-IsSafe m x k t row h (grind int_laws) (grind int_laws) s)
    ])
  ])
]

reconcile_row-IsSafe :
    (m : ℤ) (row : Row) (k status : Text) (remaining : Option Value) (t : Table)
    → find_id k t ≡ some row
    → IsSafe m t
    → Ensures (reconcile_row row k status remaining t) (λ x. IsSafe m x.1)
unfolding reconcile_row reconcile_partial
reconcile_row-IsSafe m row k status remaining t h s = elim (Bool-cases row.is_active) [
  | inr e ↦ rw e s
  | inl e ↦ rw e (elim (Bool-cases (is_terminal status)) [
    | inl e ↦ rw e (released-IsSafe m k t row h s)
    | inr e ↦ rw e (elim (Bool-cases (text_eq status (codes "PARTIALLY_FILLED"))) [
      | inl e ↦ rw e (reconcile_partial-IsSafe m row k remaining t h s)
      | inr e ↦ rw e tt
    ])
  ])
]

pub reconcile-IsSafe :
    (m : ℤ) (k status : Text) (remaining : Option Value) (t : Table)
    → IsSafe m t
    → Ensures (reconcile k status remaining t) (λ x. IsSafe m x.1)
unfolding reconcile
reconcile-IsSafe m k status remaining t s =
    Ensures-then (λ x. IsSafe m x.1)
      (raise_if (is_empty (strip k)) StoreError.reservation_id_required) _
      (λ _. elim (Option-cases (find_id (strip k) t)) [
        | inl absent ↦ ground arith
        | inr (row, found) ↦
            rw found
              (reconcile_row-IsSafe m row (strip k) (normalize_status status) remaining t found s)
      ])

-- A new row in its own scope and in every other one.
new_row-sum :
    (m amount : ℤ) (row : Row) (a r : Text) (t : Table)
    → active_sum row.broker_account_id row.broker_route t +ℤ row.amount ≤ℤ m
    → active_sum a r t ≤ℤ m
    → active_sum a r (t ++ (row ∷ [])) ≤ℤ m
new_row-sum m amount row a r t own other =
    rw (active_sum-append a r t row) (elim (Bool-cases (in_scope a r row)) [
      | inr e ↦ rw e (grind int_laws)
      | inl e ↦ rw e (
          subst (λ x. active_sum x r t +ℤ row.amount ≤ℤ m)
            ((text_eq_iff row.broker_account_id a).0 (ground arith))
            (subst (λ x. active_sum row.broker_account_id x t +ℤ row.amount ≤ℤ m)
              ((text_eq_iff row.broker_route r).0 (ground arith)) own))
    ])

reserve_new-IsSafe :
    (m : ℤ) (rid client account route : Text) (amount current limit : ℤ) (t : Table)
    → pos 0 <ℤ amount
    → pos 0 ≤ℤ current
    → limit +ℤ pos 5 ≤ℤ m
    → IsSafe m t
    → Ensures (reserve_new rid client account route amount current limit t) (λ x. IsSafe m x.1)
unfolding reserve_new
reserve_new-IsSafe m rid client account route amount current limit t p c l s =
    let up = to_column_up amount (grind int_laws) in
    elim (Bool-cases (ltb_ℤ limit (current +ℤ active_sum account route t +ℤ amount))) [
      | inl e ↦ rw e tt
      | inr fits ↦ rw fits (
          Ensures-then (λ x. IsSafe m x.1)
            (raise_if (is_some (find_id rid t)) StoreError.not_created_safely) _
            (λ _. (
              AreColumns-append t _ s.0 (to_column-IsColumn amount (grind int_laws)),
              λ a r. new_row-sum m amount _ a r t (grind int_laws) (s.1 a r),
            )))
    ]

reserve_existing-IsSafe :
    (m : ℤ) (row : Row) (account route : Text) (amount : ℤ) (t : Table)
    → IsSafe m t
    → Ensures (reserve_existing row account route amount t) (λ x. IsSafe m x.1)
unfolding reserve_existing
reserve_existing-IsSafe m row account route amount t s =
    Ensures-then (λ x. IsSafe m x.1) (raise_if (not row.is_active) StoreError.already_released) _
      (λ _.
        Ensures-then (λ x. IsSafe m x.1)
          (raise_if
            (not (text_eq row.broker_account_id account)
              || not (text_eq row.broker_route route)
              || not (eq_ℤ row.amount amount))
            StoreError.already_reserved)
          _ (λ _. s))

pub reserve-IsSafe :
    (m : ℤ) (id : Option Text) (fresh client account route : Text) (amount current : Value)
    (limit : ℤ) (t : Table)
    → limit +ℤ pos 5 ≤ℤ m
    → IsSafe m t
    → Ensures
        (reserve id fresh client account route amount current (num limit) t)
        (λ x. IsSafe m x.1)
unfolding reserve
reserve-IsSafe m id fresh client account route (num amount) (num current) limit t l s =
    let Q : Text × Table → Type 0 = λ x. IsSafe m x.1 in
    Ensures-then Q (raise_if (is_empty (strip client)) StoreError.client_order_required) _ (λ _.
      Ensures-guard Q (leb_ℤ amount (pos 0) || ltb_ℤ current (pos 0) || ltb_ℤ limit (pos 0))
        StoreError.bad_amount _
        (λ good.
          Ensures-then Q (raise_if (ltb_ℤ limit (current +ℤ amount)) StoreError.over_limit) _ (λ _.
            Ensures-then Q
              (raise_if (is_empty (strip account) || is_empty (strip route))
                StoreError.scope_required)
              _
              (λ _.
                Ensures-then Q
                  (raise_if (is_empty (strip (given_or id fresh)))
                    StoreError.reservation_id_required)
                  _
                  (λ _. elim (Option-cases (find_client (strip client) t)) [
                    | inl absent ↦ rw absent (
                        reserve_new-IsSafe m (strip (given_or id fresh)) (strip client)
                          (strip account) (strip route) amount current limit t (ground arith)
                          (ground arith) l s)
                    | inr (row, found) ↦
                        rw found
                          (reserve_existing-IsSafe m row (strip account) (strip route) amount t s)
                  ])))))
reserve-IsSafe m id fresh client account route (num amount) non_finite limit t l s =
    Ensures-then (λ x. IsSafe m x.1)
      (raise_if (is_empty (strip client)) StoreError.client_order_required) _ (λ _. tt)
reserve-IsSafe m id fresh client account route (num amount) not_numeric limit t l s =
    Ensures-then (λ x. IsSafe m x.1)
      (raise_if (is_empty (strip client)) StoreError.client_order_required) _ (λ _. tt)
reserve-IsSafe m id fresh client account route non_finite current limit t l s =
    Ensures-then (λ x. IsSafe m x.1)
      (raise_if (is_empty (strip client)) StoreError.client_order_required) _ (λ _. tt)
reserve-IsSafe m id fresh client account route not_numeric current limit t l s =
    Ensures-then (λ x. IsSafe m x.1)
      (raise_if (is_empty (strip client)) StoreError.client_order_required) _ (λ _. tt)

pub reconcile_client_order-IsSafe :
    (m : ℤ) (client status : Text) (remaining : Option Value) (t : Table)
    → IsSafe m t
    → Ensures (reconcile_client_order client status remaining t) (λ x. IsSafe m x.1)
unfolding reconcile_client_order
reconcile_client_order-IsSafe m client status remaining t s =
    Ensures-then (λ x. IsSafe m x.1)
      (raise_if (is_empty (strip client)) StoreError.client_order_required) _
      (λ _. elim (Option-cases (find_client (strip client) t)) [
        | inl absent ↦ rw absent s
        | inr (row, found) ↦ rw found (
            Ensures-bind (λ x. IsSafe m x.1) (reconcile row.reservation_id status remaining t) _
              (reconcile-IsSafe m row.reservation_id status remaining t s) (λ x k. k))
      ])
