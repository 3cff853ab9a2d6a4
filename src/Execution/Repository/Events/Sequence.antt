-- ===== src/Execution/Repository/Events/Sequence.antt =====
-- Sequence numbers of events (backend/app/transactional_execution_repository.py): the cursor of an
-- order is inserted, never updated, and its table has one row for each order.
use ai_trading_platform_mobi.Prelude.{
  ◌≡◌, refl, ap, ◌∙◌, inl, inr, Bool, true, false, ◌||◌, Option, none, some, List, arith,
  Bool-cases, Option-cases, is_empty, ok, err, raise_if, is_ok, Ensures, ℤ, pos, leb_ℤ, Text,
  lookup, insert, Ensures-mono, Ensures-bind, Ensures-then, Ensures-ok,
}
use ai_trading_platform_mobi.Execution.Repository.{
  Order, Payload, Scope, Cursor, Database, RepositoryError, Outcome, find_row, insert_row,
}
use ai_trading_platform_mobi.Execution.Repository.Scopes.{find_row-head}
use ai_trading_platform_mobi.Execution.Repository.Events.{
  check_replay, check_cursor, order_scope, apply_kind, insert_cursor, store_cursor, outbox_ids,
  record_event, apply_new, apply_payload, make_payload, apply_event,
}
use ai_trading_platform_mobi.Execution.Repository.Events.Effect.{apply_kind-Moved}
use ai_trading_platform_mobi.Execution.Repository.Events.Replay.{
  apply_payload_known, apply_payload_new, check_replay-ok, tx_of_row, tx-cases,
}

-- A call that does not return.
abbrev Refuses : {A : Type 0} → Outcome A → Type 0
Refuses r = Ensures r (λ _. ⊥)

Refuses-is_ok : {A : Type 0} (r : Outcome A) → Refuses r → is_ok r ≡ false
Refuses-is_ok (ok a) h = absurd h
Refuses-is_ok (err e) h = refl

record_event-Refuses :
    (e id : Text) (p : Payload) (db : Database) {s : ℤ} {c : Cursor}
    → p.event_sequence ≡ some s
    → find_row (order_scope p id) db.cursors ≡ some c
    → Refuses (record_event e id p db)
unfolding record_event store_cursor insert_cursor insert_row
record_event-Refuses e id p db h k = ground arith

apply_new-Refuses :
    (e id : Text) (o : Order) (p : Payload) (db : Database) {s : ℤ} {c : Cursor}
    → p.event_sequence ≡ some s
    → find_row (order_scope p id) db.cursors ≡ some c
    → Refuses (apply_new e id o p db)
unfolding apply_new
apply_new-Refuses e id o p db h k =
    Ensures-then _ (check_cursor p.event_sequence (find_row (order_scope p id) db.cursors)) _ λ _.
      Ensures-bind _ (apply_kind p.kind id o p db) _ (apply_kind-Moved p.kind id o p db refl)
        λ db₁ m.
          Ensures-bind _ (record_event e id p db₁) _
            (record_event-Refuses e id p db₁ h
              (ap (find_row (order_scope p id)) m.cursors_kept ∙ k))
            λ db₂ r. absurd r

-- Once the order has a cursor, a new event with a sequence number is refused, whatever its number.
pub apply_event-Refuses :
    (e id kind : Text) (account : ℤ) (route : Text) (price : Option ℤ) (quantity s : ℤ)
    (db : Database) {c : Cursor}
    → find_row (record { account = account; route = route; name = id }) db.cursors ≡ some c
    → lookup e db.events ≡ none
    → is_ok (apply_event e id kind account route price quantity (some s) db) ≡ false
unfolding apply_event
apply_event-Refuses e id kind account route price quantity s db k new =
    elim (Bool-cases (is_empty e || is_empty id || leb_ℤ account (pos 0) || is_empty route)) [
      | inl bad ↦ rw bad refl
      | inr good ↦ rw good (elim (tx-cases e id kind account route price quantity (some s) db) [
        | inl (x, failed) ↦ rw failed refl
        | inr (o, kd, (h₁, h₂, h₃, h₄, h₅)) ↦
            rw
              (
                tx_of_row e id kind account route price quantity (some s) db h₁ h₂ h₃ h₄ h₅,
                apply_payload_new e id o (make_payload account route price quantity (some s) kd) db
                    new,
              )
              (Refuses-is_ok
                (apply_new e id o (make_payload account route price quantity (some s) kd) db)
                (apply_new-Refuses e id o (make_payload account route price quantity (some s) kd) db
                  refl k))
      ])
    ]

-- The order of a call has a cursor.
abbrev HasCursor : ℤ → Text → Text → Database → Type 0
HasCursor account route id db =
    (c : Cursor) × (find_row (record { account = account; route = route; name = id }) db.cursors
      ≡ some c)

insert_row-find :
    {V : Type 0} (k : Scope) (v : V) (rows : List (Scope × V))
    → Ensures (insert_row k v rows) (λ rows'. find_row k rows' ≡ some v)
unfolding insert_row
insert_row-find k v rows = ground (arith, find_row-head k v rows)

inserted_cursor :
    (e : Text) (k : Scope) (q : Option ℤ) (db : Database) {s : ℤ}
    → q ≡ some s
    → Ensures (insert_cursor e k q db) (λ d. (c : Cursor) × (find_row k d.cursors ≡ some c))
unfolding insert_cursor
inserted_cursor e k none db h = cc
inserted_cursor e k (some s) db h =
    let c : Cursor = record { last_sequence = s; last_event_id = e } in
    Ensures-bind _ (insert_row k c db.cursors) _ (insert_row-find k c db.cursors)
      λ rows found. (c, found)

stored_cursor :
    (e id : Text) (p : Payload) (db : Database) {s : ℤ}
    → p.event_sequence ≡ some s
    → Ensures (store_cursor e id p db) (HasCursor p.broker_account_id p.broker_route id)
unfolding store_cursor
stored_cursor e id p db h = inserted_cursor e (order_scope p id) p.event_sequence db h

record_event-HasCursor :
    (e id : Text) (p : Payload) (db : Database) {s : ℤ}
    → p.event_sequence ≡ some s
    → Ensures (record_event e id p db) (HasCursor p.broker_account_id p.broker_route id)
unfolding record_event
record_event-HasCursor e id p db h =
    let logged : Database = record db {
      events = insert e (record { order_id = id; payload = p }) db.events;
    } in
    Ensures-bind _ (store_cursor e id p logged) _ (stored_cursor e id p logged h) λ moved k.
      Ensures-then _ (raise_if (outbox_ids moved.outbox e) RepositoryError.integrity) _ λ _. k

-- A call either is a replay, or leaves a cursor for its order.
abbrev Leaves : ℤ → Text → Text → Bool × Database → Type 0
Leaves account route id r = r.0 ≡ true → HasCursor account route id r.1

false_first : (r : Bool × Database) {db : Database} → r ≡ (false, db) → r.0 ≡ true → ⊥
false_first r h t = cc (ap (λ (x : Bool × Database). x.0) h)

apply_payload-Leaves :
    (e id : Text) (o : Order) (p : Payload) (db : Database) {s : ℤ}
    → p.event_sequence ≡ some s
    → Ensures (apply_payload e id o p db) (Leaves p.broker_account_id p.broker_route id)
unfolding apply_new
apply_payload-Leaves e id o p db h = elim (Option-cases (lookup e db.events)) [
  | inl new ↦
      rw (apply_payload_new e id o p db new, apply_new)
        (Ensures-then _ (check_cursor p.event_sequence (find_row (order_scope p id) db.cursors)) _
          λ _. Ensures-then _ (apply_kind p.kind id o p db) _ λ db₁.
            Ensures-bind _ (record_event e id p db₁) _ (record_event-HasCursor e id p db₁ h)
              λ db₂ c _. c)
  | inr (known, old) ↦ rw (apply_payload_known e id o p db old) (
      Ensures-mono (check_replay known id p db) (λ r f t. absurd (false_first r f.0 t))
        (check_replay-ok known id p db))
]

apply_event-Leaves :
    (e id kind : Text) (account : ℤ) (route : Text) (price : Option ℤ) (quantity s : ℤ)
    (db : Database)
    → Ensures
        (apply_event e id kind account route price quantity (some s) db)
        (Leaves account route id)
unfolding apply_event
apply_event-Leaves e id kind account route price quantity s db =
    Ensures-then _
      (raise_if (is_empty e || is_empty id || leb_ℤ account (pos 0) || is_empty route)
        RepositoryError.missing_identity)
      _
      λ _. (elim (tx-cases e id kind account route price quantity (some s) db) [
        | inl (x, failed) ↦ rw failed tt
        | inr (o, k, (h₁, h₂, h₃, h₄, h₅)) ↦
            rw (tx_of_row e id kind account route price quantity (some s) db h₁ h₂ h₃ h₄ h₅) (
              apply_payload-Leaves e id o (make_payload account route price quantity (some s) k) db
                refl)
      ])

-- After one new event with a sequence number on an order, every further new event with a sequence
-- number on it is refused, whatever its kind, its quantity and its number.
pub one_sequenced_event :
    (e e' id kind kind' : Text) (account : ℤ) (route : Text) (price price' : Option ℤ)
    (quantity quantity' s s' : ℤ) (db : Database) {db' : Database}
    → apply_event e id kind account route price quantity (some s) db ≡ ok (true, db')
    → lookup e' db'.events ≡ none
    → is_ok (apply_event e' id kind' account route price' quantity' (some s') db') ≡ false
one_sequenced_event e e' id kind kind' account route price price' quantity quantity' s s' db {db'} h
      new =
    let (c, found) =
      Ensures-ok (Leaves account route id)
        (apply_event e id kind account route price quantity (some s) db)
        (apply_event-Leaves e id kind account route price quantity s db) h refl in
    apply_event-Refuses e' id kind' account route price' quantity' s' db' found new
