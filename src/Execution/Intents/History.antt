-- ===== src/Execution/Intents/History.antt =====
-- What the intents of backend/app/submission_intent_store.py keep through any calls.
use ai_trading_platform_mobi.Prelude.{
  ℕ, ◌≡◌, refl, sym, ap, inl, inr, ◌||◌, some, List, [], ◌∷◌, arith, is_some, Bool-cases,
  Option-cases, is_empty, ok, err, raise_if, Ensures, pos, leb_ℤ, Text, strip, lookup, Ensures-bind,
  Ensures-then, subst,
}
use ai_trading_platform_mobi.Execution.Intents.Calls.{Call, Reply, changed, execute}
use ai_trading_platform_mobi.Execution.Intents.{
  Intent, Request, IntentError, Outcome, Store, validate_broker_status, replay, new_row,
  create_database, is_resolved, is_bound_to_other, bind_broker, record_broker_database,
  resolve_database,
}
use ai_trading_platform_mobi.Execution.Intents.Backends.{
  Backend, contents, is_blank, create_on, create, record_on, record_broker_order, resolve,
}
use ai_trading_platform_mobi.Execution.Intents.Files.{
  Disk, create_file, record_broker_file, resolve_file,
}
use ai_trading_platform_mobi.Execution.Intents.Kept.{
  Keeps, update-Keeps, new-Keeps, bind_broker-Later, resolved-Later, KeepsOn, create_file-KeepsOn,
  record_broker_file-KeepsOn, resolve_file-KeepsOn,
}

create-Keeps :
    (id : Text) (i : Intent) (r : Request) (now : ℕ) (t : Store)
    → Keeps id i t
    → Ensures (create_database r now t t) (λ x. Keeps id i x.1)
unfolding create_database
create-Keeps id i r now t h = elim (Option-cases (lookup r.client_order_id t)) [
  | inl absent ↦
      rw (Ensures, absent, absent) (new-Keeps id r.client_order_id i (new_row r now) t h absent)
  | inr (row, found) ↦
      rw (Ensures, found)
        (Ensures-then (λ x. Keeps id i x.1) (replay row r.request_fingerprint) _ (λ _. h))
]

resolve-Keeps :
    (id : Text) (i : Intent) (k : Text) (now : ℕ) (t : Store)
    → Keeps id i t
    → Ensures (resolve_database k now t) (Keeps id i)
unfolding resolve_database
resolve-Keeps id i k now t h = elim (Option-cases (lookup k t)) [
  | inl absent ↦ ground arith
  | inr (row, found) ↦ elim (Bool-cases (is_some row.broker_order_id)) [
    | inr unbound ↦ ground arith
    | inl bound ↦ elim (Bool-cases (is_resolved row)) [
      | inl resolved ↦ ground arith
      | inr live ↦ ground (
        arith,
        update-Keeps id k i row (record row { resolved_at = some now }) t h found
            (resolved-Later row now live bound),
      )
    ]
  ]
]

record-Keeps :
    (id : Text) (i : Intent) (k b v : Text) (now : ℕ) (t : Store)
    → Keeps id i t
    → Ensures (record_broker_database k b v now t) (Keeps id i)
unfolding record_broker_database
record-Keeps id i k b v now t h =
    Ensures-then (Keeps id i) (raise_if (is_empty (strip b)) IntentError.broker_order_required) _
      (λ _. Ensures-then (Keeps id i) (validate_broker_status v) _ (λ status.
        elim (Option-cases (lookup k t)) [
          | inl absent ↦ ground arith
          | inr (row, found) ↦ elim (Bool-cases (is_resolved row)) [
            | inl resolved ↦ ground arith
            | inr live ↦ elim (Bool-cases (is_bound_to_other row.broker_order_id (strip b))) [
              | inl other ↦ ground arith
              | inr same ↦
                  simp (found, live, same)
                    (update-Keeps id k i row (bind_broker row (strip b) status now) t h found
                      (bind_broker-Later row (strip b) status now live same))
            ]
          ]
        ]))

-- The backend holds the intent, as it was or later.
abbrev pub KeepsIn : Text → Intent → Backend → Type 0
KeepsIn id i y = (t : Store) × (contents y ≡ ok t) × Keeps id i t

changed-KeepsIn :
    {A : Type 0} (id : Text) (i : Intent) (y : Backend) (f : A → Reply × Backend) (m : Outcome A)
    → KeepsIn id i y
    → Ensures m (λ a. KeepsIn id i (f a).1)
    → KeepsIn id i (changed y f m).1
changed-KeepsIn id i y f (ok a) h k = k
changed-KeepsIn id i y f (err e) h k = h

execute-KeepsIn :
    (id : Text) (i : Intent) (c : Call) (t : Store)
    → Keeps id i t
    → KeepsIn id i (execute c (Backend.database t)).1
unfolding execute create create_on record_broker_order record_on resolve
execute-KeepsIn id i (Call.creating r now) t h =
    changed-KeepsIn id i (Backend.database t) _ (create r now (Backend.database t)) (t, refl, h)
      (Ensures-then _
        (raise_if
          (is_blank r.client_order_id || is_blank r.route || is_blank r.symbol || is_blank r.side)
          IntentError.identity_required)
        _
        (λ _.
          Ensures-then _ (raise_if (leb_ℤ r.quantity (pos 0)) IntentError.quantity_not_positive) _
            (λ _.
              Ensures-then _
                (raise_if (is_blank r.request_fingerprint) IntentError.fingerprint_required) _
                (λ _.
                  Ensures-bind _ (create_database r now t t) _ (create-Keeps id i r now t h)
                    (λ x k. (x.1, refl, k))))))
execute-KeepsIn id i (Call.getting k) t h = (t, refl, h)
execute-KeepsIn id i (Call.recording k b v now) t h =
    changed-KeepsIn id i (Backend.database t) _ (record_broker_order k b v now (Backend.database t))
      (t, refl, h)
      (Ensures-then _ (raise_if (is_empty (strip b)) IntentError.broker_order_required) _ (λ _.
        Ensures-then _ (validate_broker_status v) _ (λ status.
          Ensures-bind _ (record_broker_database k (strip b) status now t) _
            (record-Keeps id i k (strip b) status now t h) (λ x k. (x, refl, k)))))
execute-KeepsIn id i (Call.resolving k now) t h =
    changed-KeepsIn id i (Backend.database t) _ (resolve k now (Backend.database t)) (t, refl, h)
      (Ensures-bind _ (resolve_database k now t) _ (resolve-Keeps id i k now t h)
        (λ x k. (x, refl, k)))
execute-KeepsIn id i Call.listing t h = (t, refl, h)

unfoldable pub run : List Call → Backend → Backend
run [] y = y
run (c ∷ cs) y = run cs (execute c y).1

or_empty : Outcome Store → Store
or_empty (ok t) = t
or_empty (err _) = []

ok_once : {t u : Store} → ◌≡◌ {A = Outcome Store} (ok t) (ok u) → t ≡ u
unfolding or_empty
ok_once e = ap or_empty e

files-KeepsIn :
    (id : Text) (i : Intent) (c : Call) (d : Disk)
    → KeepsOn id i d
    → KeepsIn id i (execute c (Backend.files d)).1
unfolding execute create create_on record_broker_order record_on resolve
files-KeepsIn id i (Call.creating r now) d h =
    changed-KeepsIn id i (Backend.files d) _ (create r now (Backend.files d)) h (
      Ensures-then _
        (raise_if
          (is_blank r.client_order_id || is_blank r.route || is_blank r.symbol || is_blank r.side)
          IntentError.identity_required)
        _
        (λ _.
          Ensures-then _ (raise_if (leb_ℤ r.quantity (pos 0)) IntentError.quantity_not_positive) _
            (λ _.
              Ensures-then _
                (raise_if (is_blank r.request_fingerprint) IntentError.fingerprint_required) _
                (λ _.
                  Ensures-bind _ (create_file r now d) _ (create_file-KeepsOn id i r now d h)
                    (λ x k. k)))))
files-KeepsIn id i (Call.getting k) d h = h
files-KeepsIn id i (Call.recording k b v now) d h =
    changed-KeepsIn id i (Backend.files d) _ (record_broker_order k b v now (Backend.files d)) h (
      Ensures-then _ (raise_if (is_empty (strip b)) IntentError.broker_order_required) _ (λ _.
        Ensures-then _ (validate_broker_status v) _ (λ status.
          Ensures-bind _ (record_broker_file k (strip b) status now d) _
            (record_broker_file-KeepsOn id i k (strip b) status now d h) (λ x kept. kept))))
files-KeepsIn id i (Call.resolving k now) d h =
    changed-KeepsIn id i (Backend.files d) _ (resolve k now (Backend.files d)) h (
      Ensures-bind _ (resolve_file k now d) _ (resolve_file-KeepsOn id i k now d h)
        (λ x kept. kept))
files-KeepsIn id i Call.listing d h = h

-- Through any calls on either backend, where a refused call changes nothing, the contents stay
-- readable and an intent stays: its request and its broker order do not change, nothing of it changes
-- once it is resolved, and it is resolved only with a broker order.
pub run-KeepsIn :
    (id : Text) (i : Intent) (cs : List Call) (y : Backend)
    → KeepsIn id i y
    → KeepsIn id i (run cs y)
unfolding run
run-KeepsIn id i [] y h = h
run-KeepsIn id i (c ∷ cs) (Backend.database u) h =
    run-KeepsIn id i cs (execute c (Backend.database u)).1
      (execute-KeepsIn id i c u (subst (Keeps id i) (sym (ok_once h.1)) h.2))
run-KeepsIn id i (c ∷ cs) (Backend.files d) h =
    run-KeepsIn id i cs (execute c (Backend.files d)).1 (files-KeepsIn id i c d h)
