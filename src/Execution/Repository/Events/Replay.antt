-- ===== src/Execution/Repository/Events/Replay.antt =====
-- Delivering an event twice (backend/app/transactional_execution_repository.py).
use ai_trading_platform_mobi.Prelude.{
  ℕ, ◌≡◌, refl, sym, ap, ◌∙◌, ◌⊎◌, inl, inr, Bool, true, false, ◌||◌, Option, none, some, arith,
  ◌==◌, Bool-cases, Option-cases, is_empty, ok, err, Ensures, ℤ, pos, leb_ℤ, eq_ℤ, Text, text_eq,
  text_eq_refl, lookup, lookup-insert_self, Ensures-mono, subst,
}
use ai_trading_platform_mobi.Execution.Repository.{
  Order, Kind, Payload, Event, Database, RepositoryError,
}
use ai_trading_platform_mobi.Execution.Repository.Events.{
  parse_kind, opt_eq, payload_eq, is_negative, check_replay, apply_new, apply_payload, make_payload,
  apply_event_tx, apply_event,
}
use ai_trading_platform_mobi.Execution.Repository.Events.Effect.{
  next_order, Applied, apply_new-Applied,
}

eq_ℤ_refl : (x : ℤ) → eq_ℤ x x ≡ true
eq_ℤ_refl x = ground arith

opt_eq_refl : (x : Option ℤ) → opt_eq x x ≡ true
opt_eq_refl none = refl
opt_eq_refl (some x) = eq_ℤ_refl x

nat_eq_refl : (n : ℕ) → (n == n) ≡ true
nat_eq_refl n = ground arith

payload_eq_refl : (p : Payload) → payload_eq p p ≡ true
unfolding payload_eq
payload_eq_refl p = ground (
  arith,
  eq_ℤ_refl p.broker_account_id,
  text_eq_refl p.broker_route,
  opt_eq_refl p.price,
  eq_ℤ_refl p.quantity,
  opt_eq_refl p.event_sequence,
)

check_replay_same :
    (id : Text) (p : Payload) (db : Database)
    → check_replay (record { order_id = id; payload = p }) id p db ≡ ok (false, db)
unfolding check_replay
check_replay_same id p db =
    rw (text_eq_refl id, opt_eq_refl p.event_sequence, payload_eq_refl p) refl

next_order_scope :
    (k : Kind) (o : Order) (p : Payload)
    → ((next_order k o p).broker_account_id ≡ o.broker_account_id)
      × ((next_order k o p).broker_route ≡ o.broker_route)
unfolding next_order
next_order_scope k o p = ground arith

pub apply_payload_known :
    (e id : Text) (o : Order) (p : Payload) (db : Database) {known : Event}
    → lookup e db.events ≡ some known
    → apply_payload e id o p db ≡ check_replay known id p db
unfolding apply_payload
apply_payload_known e id o p db h = ground arith

pub apply_payload_new :
    (e id : Text) (o : Order) (p : Payload) (db : Database)
    → lookup e db.events ≡ none
    → apply_payload e id o p db ≡ apply_new e id o p db
unfolding apply_payload
apply_payload_new e id o p db h = ground arith

pub check_replay-ok :
    (known : Event) (id : Text) (p : Payload) (db : Database)
    → Ensures
        (check_replay known id p db)
        (λ r. (r ≡ (false, db)) × (check_replay known id p db ≡ ok (false, db)))
unfolding check_replay
check_replay-ok known id p db = ground arith

-- The order is still there in the same account, and the event is answered as a duplicate.
record Settled (e id : Text) (o : Order) (p : Payload) (r : Bool × Database) : Type 0 where
  row : Order
  found : lookup id r.1.orders ≡ some row
  account_same : row.broker_account_id ≡ o.broker_account_id
  route_same : row.broker_route ≡ o.broker_route
  again : (o' : Order) → apply_payload e id o' p r.1 ≡ ok (false, r.1)

apply_new-Settled :
    (e id : Text) (o : Order) (p : Payload) (db db' : Database)
    → Applied e id o p db db'
    → Settled e id o p (true, db')
apply_new-Settled e id o p db db' a = record {
  row = next_order p.kind o p;
  found = rw a.orders_are (lookup-insert_self id (next_order p.kind o p) db.orders);
  account_same = (next_order_scope p.kind o p).0;
  route_same = (next_order_scope p.kind o p).1;
  again = λ o'.
      apply_payload_known e id o' p db' (
        ap (lookup e) a.logged
        ∙ lookup-insert_self e (record { order_id = id; payload = p }) db.events)
      ∙ check_replay_same id p db';
}

settle :
    (e id : Text) (o : Order) (p : Payload) (db : Database)
    → lookup id db.orders ≡ some o
    → ((o' : Order) → apply_payload e id o' p db ≡ ok (false, db))
    → (r : Bool × Database) → r ≡ (false, db)
    → Settled e id o p r
settle e id o p db here again r same =
    subst (Settled e id o p) (sym same)
      (record { row = o; found = here; account_same = refl; route_same = refl; again = again })

apply_payload-Settled :
    (e id : Text) (o : Order) (p : Payload) (db : Database)
    → lookup id db.orders ≡ some o
    → Ensures (apply_payload e id o p db) (Settled e id o p)
apply_payload-Settled e id o p db here = elim (Option-cases (lookup e db.events)) [
  | inl new ↦ rw (apply_payload_new e id o p db new) (
      Ensures-mono (apply_new e id o p db)
        (λ r h.
          subst (λ b. Settled e id o p (b, r.1)) (sym h.0) (apply_new-Settled e id o p db r.1 h.1))
        (apply_new-Applied e id o p db))
  | inr (known, old) ↦ rw (apply_payload_known e id o p db old) (
      Ensures-mono (check_replay known id p db)
        (λ r h. settle e id o p db here (λ o'. apply_payload_known e id o' p db old ∙ h.1) r h.0)
        (check_replay-ok known id p db))
]

-- The arguments of a call, past its guards: the call is that of the payload.
pub tx_of_row :
    (e id kind : Text) (account : ℤ) (route : Text) (price : Option ℤ) (quantity : ℤ)
    (sequence : Option ℤ) (db : Database) {o : Order} {k : Kind}
    → is_negative sequence ≡ false
    → lookup id db.orders ≡ some o
    → eq_ℤ o.broker_account_id account ≡ true
    → text_eq o.broker_route route ≡ true
    → parse_kind kind ≡ some k
    → apply_event_tx e id kind account route price quantity sequence db
      ≡ apply_payload e id o (make_payload account route price quantity sequence k) db
unfolding apply_event_tx
tx_of_row e id kind account route price quantity sequence db h₁ h₂ h₃ h₄ h₅ = ground arith

-- A call fails at a guard, or its guards hold.
abbrev pub Guarded : Text → Text → ℤ → Text → Option ℤ → Database → Order → Kind → Type 0
Guarded id kind account route sequence db o k =
    (is_negative sequence ≡ false)
    × (lookup id db.orders ≡ some o)
    × (eq_ℤ o.broker_account_id account ≡ true)
    × (text_eq o.broker_route route ≡ true)
    × (parse_kind kind ≡ some k)

pub tx-cases :
    (e id kind : Text) (account : ℤ) (route : Text) (price : Option ℤ) (quantity : ℤ)
    (sequence : Option ℤ) (db : Database)
    → ((x : RepositoryError) × (apply_event_tx e id kind account route price quantity sequence db
          ≡ err x))
      ⊎ ((o : Order) × (k : Kind) × Guarded id kind account route sequence db o k)
unfolding apply_event_tx
tx-cases e id kind account route price quantity sequence db =
    elim (Bool-cases (is_negative sequence)) [
      | inl bad ↦ inl (RepositoryError.negative_sequence, ground arith)
      | inr h₁ ↦ elim (Option-cases (lookup id db.orders)) [
        | inl bad ↦ inl (RepositoryError.unknown_order, ground arith)
        | inr (o, h₂) ↦ elim (Bool-cases (eq_ℤ o.broker_account_id account)) [
          | inr bad ↦ inl (RepositoryError.account_mismatch, ground arith)
          | inl h₃ ↦ elim (Bool-cases (text_eq o.broker_route route)) [
            | inr bad ↦ inl (RepositoryError.account_mismatch, ground arith)
            | inl h₄ ↦ elim (Option-cases (parse_kind kind)) [
              | inl bad ↦ inl (RepositoryError.unsupported_kind, ground arith)
              | inr (k, h₅) ↦ inr (o, k, (h₁, h₂, h₃, h₄, h₅))
            ]
          ]
        ]
      ]
    ]

tx-replay :
    (e id kind : Text) (account : ℤ) (route : Text) (price : Option ℤ) (quantity : ℤ)
    (sequence : Option ℤ) (db : Database)
    → Ensures
        (apply_event_tx e id kind account route price quantity sequence db)
        (λ r. apply_event_tx e id kind account route price quantity sequence r.1 ≡ ok (false, r.1))
tx-replay e id kind account route price quantity sequence db =
    elim (tx-cases e id kind account route price quantity sequence db) [
      | inl (x, failed) ↦ rw failed tt
      | inr (o, k, (h₁, h₂, h₃, h₄, h₅)) ↦
          rw (tx_of_row e id kind account route price quantity sequence db h₁ h₂ h₃ h₄ h₅) (
            Ensures-mono
              (apply_payload e id o (make_payload account route price quantity sequence k) db)
              (λ r s.
                tx_of_row e id kind account route price quantity sequence r.1 h₁ s.found
                  (ap (λ x. eq_ℤ x account) s.account_same ∙ h₃)
                  (ap (λ x. text_eq x route) s.route_same ∙ h₄) h₅
                ∙ s.again s.row)
              (apply_payload-Settled e id o (make_payload account route price quantity sequence k)
                db h₂))
    ]

-- Delivering an event a second time, with the same arguments, changes nothing: after a call that
-- returned, the same call returns False and leaves the database as it is.
pub apply_event-replay :
    (e id kind : Text) (account : ℤ) (route : Text) (price : Option ℤ) (quantity : ℤ)
    (sequence : Option ℤ) (db : Database)
    → Ensures
        (apply_event e id kind account route price quantity sequence db)
        (λ r. apply_event e id kind account route price quantity sequence r.1 ≡ ok (false, r.1))
unfolding apply_event
apply_event-replay e id kind account route price quantity sequence db =
    elim (Bool-cases (is_empty e || is_empty id || leb_ℤ account (pos 0) || is_empty route)) [
      | inl bad ↦ rw bad tt
      | inr good ↦ rw good (tx-replay e id kind account route price quantity sequence db)
    ]
