-- ===== src/Execution/Repository/Tests.antt =====
-- Runs of the repository.
use ai_trading_platform_mobi.Prelude.{
  ℕ, ◌≤◌, String, ◌≡◌, refl, sym, ap, Bool, true, false, Option, none, some, List, [], ◌∷◌, arith,
  length, ok, err, is_ok, Ensures, ℤ, pos, ◌+ℤ◌, ◌≤ℤ◌, neg, Text, codes, upper, lookup, subst, All,
}
use ai_trading_platform_mobi.Execution.Repository.{
  OrderStatus, Order, Kind, scope_eq, OutboxRow, OrderIdentity, Submission, Database,
  RepositoryError, Outcome, find_row, insert_row, add_position,
}
use ai_trading_platform_mobi.Execution.Repository.Scopes.{quantity_at}
use ai_trading_platform_mobi.Execution.Repository.Events.{
  parse_kind, payload_eq, check_replay, check_cursor, signed, apply_fill, apply_kind, insert_cursor,
  store_cursor, record_event, apply_new, apply_payload, make_payload, apply_event_tx, apply_event,
}
use ai_trading_platform_mobi.Execution.Repository.Events.Replay.{apply_event-replay}
use ai_trading_platform_mobi.Execution.Repository.Events.Sequence.{one_sequenced_event}
use ai_trading_platform_mobi.Execution.Repository.Events.Ledger.{
  contribution, net_filled, events_fill, IsBalanced, apply_event-IsBalanced,
}
use ai_trading_platform_mobi.Execution.Repository.Identities.{bind_identity}
use ai_trading_platform_mobi.Execution.Repository.Identities.Unique.{Binds, bind_identity-Binds}
use ai_trading_platform_mobi.Execution.Repository.Submissions.Binding.{
  SubmissionCall, calls, IsBound, calls-IsBound,
}
use ai_trading_platform_mobi.Execution.Repository.Outbox.{
  is_free, claim_rows, claimed_rows, claim_outbox, is_held, publish_row, mark_published,
}
use ai_trading_platform_mobi.Execution.Repository.Outbox.Once
use ai_trading_platform_mobi.Execution.Repository.Outbox.Once.{published_once}
use ai_trading_platform_mobi.Execution.Repository.Outbox.Lease.{IsClaimed, claim_outbox-IsFree}

abbrev order : Order
order = record {
  symbol = codes "TCS";
  side = codes "BUY";
  quantity = pos 10;
  filled_quantity = pos 0;
  status = OrderStatus.created;
  broker_account_id = pos 1;
  broker_route = codes "dhan";
}

abbrev database : Database
database = record {
  orders = (codes "o1", order) ∷ [];
  positions = [];
  events = [];
  cursors = [];
  outbox = [];
  identities = [];
  submissions = [];
}

abbrev deliver : String → String → ℕ → Option ℤ → Database → Outcome (Bool × Database)
deliver e kind n s db =
    apply_event (codes e) (codes "o1") (codes kind) (pos 1) (codes "dhan") none (pos n) s db

-- The database after a call that returns.
abbrev after : Outcome (Bool × Database) → Database
after (ok r) = r.1
after (err _) = database

deliveries :
    let db = after (deliver "e1" "partial_fill" 4 (some (pos 10)) database) in
    (db.positions
      ≡ (record { account = pos 1; route = codes "dhan"; name = codes "TCS" }, pos 4) ∷ [])
    × (deliver "e1" "partial_fill" 4 (some (pos 10)) db ≡ ok (false, db))
    × (deliver "e1" "partial_fill" 5 (some (pos 10)) db ≡ err RepositoryError.conflicting_payload)
    × (deliver "e2" "fill" 6 (some (pos 11)) db ≡ err RepositoryError.integrity)
    × (deliver "e2" "fill" 7 none db ≡ err RepositoryError.invalid_fill)
    × (lookup (codes "o1") (after (deliver "e2" "fill" 6 none db)).orders
        ≡ some (record order { filled_quantity = pos 10; status = OrderStatus.filled }))
unfolding apply_event apply_event_tx apply_payload apply_new apply_kind apply_fill record_event
    store_cursor insert_cursor check_cursor check_replay payload_eq parse_kind upper find_row
    insert_row add_position signed scope_eq ◌+ℤ◌ neg
deliveries = (refl, refl, refl, refl, refl, refl)

apply_event-replay_example :
    Ensures
      (deliver "e1" "partial_fill" 4 none database)
      (λ r. deliver "e1" "partial_fill" 4 none r.1 ≡ ok (false, r.1))
apply_event-replay_example =
    apply_event-replay (codes "e1") (codes "o1") (codes "partial_fill") (pos 1) (codes "dhan") none
      (pos 4) none database

one_sequenced_event_example :
    is_ok (
      deliver "e2" "fill" 6
        (some (pos 11))
        (after (deliver "e1" "partial_fill" 4 (some (pos 10)) database)))
    ≡ false
unfolding apply_event apply_event_tx apply_payload apply_new apply_kind apply_fill record_event
    store_cursor insert_cursor check_cursor parse_kind upper find_row insert_row add_position signed
    ◌+ℤ◌ neg
one_sequenced_event_example =
    one_sequenced_event (codes "e1") (codes "e2") (codes "o1") (codes "partial_fill") (codes "fill")
      (pos 1) (codes "dhan") none none (pos 4) (pos 6) (pos 10) (pos 11) database
      {db' = after (deliver "e1" "partial_fill" 4 (some (pos 10)) database)} refl refl

only_order : (id : Text) (o : Order) → lookup id database.orders ≡ some o → o ≡ order
only_order id o h = ground arith

database-IsBalanced : IsBalanced database
unfolding events_fill quantity_at find_row net_filled contribution signed ◌+ℤ◌ neg
database-IsBalanced = record {
  filled_is = λ id o h. ap (λ (x : Order). x.filled_quantity) (only_order id o h);
  filled_fits = λ id o h.
      subst (λ x. (pos 0 ≤ℤ x.filled_quantity) × (x.filled_quantity ≤ℤ x.quantity))
        (sym (only_order id o h)) (omega arith);
  position_is = λ k. ground arith;
  orders_known = tt;
}

apply_event-IsBalanced_example : Ensures (deliver "e1" "FILL" 4 none database) (λ r. IsBalanced r.1)
apply_event-IsBalanced_example =
    apply_event-IsBalanced (codes "e1") (codes "o1") (codes "FILL") (pos 1) (codes "dhan") none
      (pos 4) none database database-IsBalanced

abbrev identity : OrderIdentity
identity = record {
  broker = codes "dhan";
  broker_order_id = codes "B7";
  broker_account_id = pos 1;
  broker_route = codes "dhan";
}

bind_identity-Binds_example :
    Ensures (bind_identity (codes "o1") identity database) (Binds (codes "o1") identity database)
bind_identity-Binds_example =
    bind_identity-Binds (codes "o1") identity database tt (λ c d i h k. cc)

abbrev sent : Submission
sent = record {
  client_order_id = codes "o1";
  broker_account_id = pos 1;
  broker_route = codes "dhan";
  submitted = true;
  broker_order_id = some (codes "B7");
}

abbrev with_submission : Database
with_submission = record database { submissions = (codes "k", sent) ∷ [] }

abbrev later_calls : List SubmissionCall
later_calls =
    SubmissionCall.marking (codes "k") (codes "B8")
    ∷ SubmissionCall.registering (codes "k") (codes "o1") (pos 1) (codes "dhan")
    ∷ []

calls-IsBound_example : IsBound (codes "k") sent (calls with_submission later_calls)
calls-IsBound_example = calls-IsBound (codes "k") sent with_submission later_calls (refl, refl)

abbrev pending : Database
pending = record database {
  submissions = (codes "k", record sent { submitted = false; broker_order_id = none }) ∷ [];
}

abbrev row : OutboxRow
row = record {
  event_id = codes "e1";
  payload = make_payload (pos 1) (codes "dhan") none (pos 4) none Kind.fill;
  published = false;
  claim = some (codes "t", 50);
}

abbrev with_outbox : Database
with_outbox = record database { outbox = row ∷ record row { claim = none } ∷ [] }

-- The first row is still leased; the second one is claimed.
claims-second :
    claim_outbox 5 30 40 (codes "u") with_outbox
    ≡ ok (
      record { id = 1; row = record row { claim = none }; claim_token = codes "u" } ∷ [],
      record database { outbox = row ∷ record row { claim = some (codes "u", 70) } ∷ [] },
    )
unfolding claim_outbox claimed_rows claim_rows is_free
claims-second = refl

claim_outbox-IsFree_example :
    Ensures
      (claim_outbox 5 30 40 (codes "u") with_outbox)
      (λ r. (length r.0 ≤ 5) × All (IsClaimed 40 70 (codes "u") with_outbox.outbox r.1.outbox) r.0)
claim_outbox-IsFree_example = claim_outbox-IsFree 5 30 40 (codes "u") with_outbox

-- The row that is leased is published by the holder of its lease.
publishes-first : is_ok (mark_published 0 (codes "t") with_outbox) ≡ true
unfolding mark_published publish_row is_held
publishes-first = refl

published_once_example : Ensures (mark_published 0 (codes "t") with_outbox) (λ db'.
    is_ok (
      mark_published 0 (codes "t") (
        Once.run db'
          (Once.Call.claiming 5 30 90 (codes "u") ∷ Once.Call.publishing 1 (codes "u") ∷ [])))
    ≡ false)
published_once_example =
    published_once 0 (codes "t") (codes "t") with_outbox
      (Once.Call.claiming 5 30 90 (codes "u") ∷ Once.Call.publishing 1 (codes "u") ∷ [])
