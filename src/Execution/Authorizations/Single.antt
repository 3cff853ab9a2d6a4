-- ===== src/Execution/Authorizations/Single.antt =====
-- An authorization is used once (backend/app/execution_authorization_store.py), and only by the order
-- and in the context it was issued for.
use ai_trading_platform_mobi.Prelude.{
  ℕ, ◌≡◌, refl, sym, ap, inl, inr, true, false, not, ◌&&◌, Option, none, some, List, [], ◌∷◌, arith,
  is_some, Bool-cases, Option-cases, is_empty, ok, err, raise_if, Ensures, Text, text_eq_iff, strip,
  lookup, lookup-insert, lookup-insert_self, Ensures-then, subst,
}
use ai_trading_platform_mobi.Execution.Authorizations.{
  Instant, Row, Table, Authorization, AuthorizationError, Consumption, Outcome, check_row, settle,
  consume_at, issue, consume, SafetyContext, has_route, authorize,
}

-- A nonce is there and consumed.
abbrev pub IsUsed : Option Row → Type 0
IsUsed none = true ≡ false
IsUsed (some row) = is_some row.consumed_at ≡ true

settle-IsUsed :
    (c : Consumption) (j k : Text) (row : Row) (now : ℕ) (t : Table)
    → IsUsed (lookup k t)
    → IsUsed (lookup k (settle c j row now t))
unfolding settle
settle-IsUsed Consumption.consumed_now j k row now t h =
    ground (arith, lookup-insert j k (record row { consumed_at = some now }) t)
settle-IsUsed Consumption.missing j k row now t h = h
settle-IsUsed Consumption.consumed j k row now t h = h
settle-IsUsed Consumption.order_mismatch j k row now t h = h
settle-IsUsed Consumption.context_mismatch j k row now t h = h
settle-IsUsed Consumption.invalid_expiry j k row now t h = h
settle-IsUsed Consumption.expired j k row now t h = h

consume_at-IsUsed :
    (j k fingerprint key : Text) (now : ℕ) (t : Table)
    → IsUsed (lookup k t)
    → IsUsed (lookup k (consume_at j fingerprint key now t).1)
unfolding consume_at
consume_at-IsUsed j k fingerprint key now t h = elim (Option-cases (lookup j t)) [
  | inl absent ↦ ground arith
  | inr (row, found) ↦
      ground (arith, settle-IsUsed (check_row row fingerprint key now) j k row now t h)
]

settled_now :
    (c : Consumption) (k : Text) (row : Row) (now : ℕ) (t : Table)
    → c ≡ Consumption.consumed_now
    → IsUsed (lookup k (settle c k row now t))
unfolding settle
settled_now c k row now t e =
    subst (λ d. IsUsed (lookup k (settle d k row now t))) (sym e)
      (rw (lookup-insert_self k (record row { consumed_at = some now }) t) refl)

-- A row that is consumed now is used.
consumed_now-IsUsed :
    (k fingerprint key : Text) (now : ℕ) (t : Table)
    → (consume_at k fingerprint key now t).0 ≡ Consumption.consumed_now
    → IsUsed (lookup k (consume_at k fingerprint key now t).1)
unfolding consume_at
consumed_now-IsUsed k fingerprint key now t h = elim (Option-cases (lookup k t)) [
  | inl absent ↦ ground arith
  | inr (row, found) ↦ ground (arith, settled_now (check_row row fingerprint key now) k row now t)
]

used_at :
    (k fingerprint key : Text) (now : ℕ) (t : Table)
    → IsUsed (lookup k t)
    → (consume_at k fingerprint key now t).0 ≡ Consumption.consumed
unfolding consume_at check_row
used_at k fingerprint key now t h = ground arith

module _ (hash : Text → Text) where
  consumed-IsUsed :
      (nonce fingerprint key : Text) (now : Instant) (t u : Table)
      → consume hash nonce fingerprint key now t ≡ ok (Consumption.consumed_now, u)
      → IsUsed (lookup (hash nonce) u)
  unfolding consume
  consumed-IsUsed nonce fingerprint key (Instant.naive _) t u h = ground arith
  consumed-IsUsed nonce fingerprint key (Instant.aware now) t u h =
      elim (Bool-cases (is_empty (strip key))) [
        | inl e ↦ ground arith
        | inr e ↦
            let same : consume_at (hash nonce) fingerprint key now t
                ≡ (Consumption.consumed_now, u) =
              ground arith in
            subst (λ x. IsUsed (lookup (hash nonce) x)) (ap (λ x. x.1) same)
              (consumed_now-IsUsed (hash nonce) fingerprint key now t (ap (λ x. x.0) same))
      ]

  used_again :
      (nonce fingerprint key : Text) (now : Instant) (t : Table)
      → IsUsed (lookup (hash nonce) t)
      → Ensures (consume hash nonce fingerprint key now t) (λ x. x.0 ≡ Consumption.consumed)
  unfolding consume
  used_again nonce fingerprint key (Instant.naive _) t h = tt
  used_again nonce fingerprint key (Instant.aware now) t h =
      Ensures-then (λ x. x.0 ≡ Consumption.consumed)
        (raise_if (is_empty (strip key)) AuthorizationError.context_required) _
        (λ _. used_at (hash nonce) fingerprint key now t h)

  pub data Call : Type 0 where
    issuing : Authorization → Call
    consuming : Text → Text → Text → Instant → Call

  issued : Table → Outcome Table → Table
  issued t (ok u) = u
  issued t (err _) = t

  settled : Table → Outcome (Consumption × Table) → Table
  settled t (ok x) = x.1
  settled t (err _) = t

  unfoldable pub execute : Table → Call → Table
  unfolding issued settled
  execute t (issuing a) = issued t (issue hash a t)
  execute t (consuming nonce fingerprint key at) =
      settled t (consume hash nonce fingerprint key at t)

  unfoldable pub run : Table → List Call → Table
  run t [] = t
  run t (c ∷ cs) = run (execute t c) cs

  execute-IsUsed :
      (k : Text) (t : Table) (c : Call) → IsUsed (lookup k t) → IsUsed (lookup k (execute t c))
  unfolding execute issued settled issue consume
  execute-IsUsed k t (issuing a) h = ground (
    arith,
    text_eq_iff k (hash a.nonce),
    lookup-insert (hash a.nonce) k
        (record {
          order_fingerprint = a.order_fingerprint;
          context_key = a.context_key;
          expires_at = a.expires_at;
          consumed_at = none;
        })
        t,
  )
  execute-IsUsed k t (consuming nonce fingerprint key (Instant.naive _)) h = h
  execute-IsUsed k t (consuming nonce fingerprint key (Instant.aware now)) h =
      elim (Bool-cases (is_empty (strip key))) [
        | inl e ↦ rw e h
        | inr e ↦ rw e (consume_at-IsUsed (hash nonce) k fingerprint key now t h)
      ]

  run-IsUsed :
      (k : Text) (t : Table) (cs : List Call) → IsUsed (lookup k t) → IsUsed (lookup k (run t cs))
  unfolding run
  run-IsUsed k t [] h = h
  run-IsUsed k t (c ∷ cs) h = run-IsUsed k (execute t c) cs (execute-IsUsed k t c h)

  -- After an authorization is consumed, and whatever is issued and consumed then, its nonce is not
  -- consumed again: a call of `consume` for it, for any order, context and time, raises or returns
  -- that it was consumed before.
  pub consumed_once :
      (nonce fingerprint key : Text) (now : Instant) (t u : Table)
      → consume hash nonce fingerprint key now t ≡ ok (Consumption.consumed_now, u)
      → (cs : List Call) (fingerprint' key' : Text) (now' : Instant)
      → Ensures
          (consume hash nonce fingerprint' key' now' (run u cs))
          (λ x. x.0 ≡ Consumption.consumed)
  consumed_once nonce fingerprint key now t u h cs fingerprint' key' now' =
      used_again nonce fingerprint' key' now' (run u cs)
        (run-IsUsed (hash nonce) u cs (consumed-IsUsed nonce fingerprint key now t u h))

-- The gate allows execution exactly when there is no emergency halt, the reconciliation is ready, the
-- broker is healthy, the risk is allowed, and an account and a route that is not empty are given.
pub authorize_iff :
    (c : SafetyContext)
    → is_some (authorize c)
      ≡ not (
          not c.emergency_halt
          && c.reconciliation_ready
          && c.broker_healthy
          && c.risk_allowed
          && is_some c.broker_account_id
          && has_route c.broker_route)
unfolding authorize
authorize_iff c = ground arith
