-- ===== src/Execution/Repository/Events/Effect.antt =====
-- What one accepted event does to the tables of
-- backend/app/transactional_execution_repository.py, in one place for the proofs that follow.
use ai_trading_platform_mobi.Prelude.{
  ◌≡◌, refl, ap, ◌∙◌, true, List, arith, if◌then◌else◌, Ensures, ℤ, pos, ◌+ℤ◌, ◌≤ℤ◌, ◌<ℤ◌, eq_ℤ,
  Text, insert, Ensures-bind, Ensures-then,
}
use ai_trading_platform_mobi.Execution.Repository.{
  OrderStatus, Order, Kind, Payload, Scope, Database, find_row, add_position,
}
use ai_trading_platform_mobi.Execution.Repository.Events.{
  is_fill, check_cursor, order_scope, symbol_scope, signed, apply_fill, apply_kind, insert_cursor,
  store_cursor, record_event, apply_new,
}

-- The order's row after an event.
unfoldable pub next_order : Kind → Order → Payload → Order
next_order k o p =
    if is_fill k
    then record o {
      filled_quantity = o.filled_quantity +ℤ p.quantity;
      status =
          if eq_ℤ (o.filled_quantity +ℤ p.quantity) o.quantity
          then OrderStatus.filled
          else OrderStatus.partially_filled;
    }
    else record o {
      status = elim k [
        | Kind.cancel ↦ OrderStatus.cancelled
        | Kind.reject ↦ OrderStatus.rejected
        | _ ↦ OrderStatus.submitted
      ];
    }

-- The positions after an event.
unfoldable pub next_positions : Kind → Order → Payload → List (Scope × ℤ) → List (Scope × ℤ)
next_positions k o p rows =
    if is_fill k then add_position (symbol_scope p o) (signed o.side p.quantity) rows else rows

-- A new event `e` on the order `id` with row `o` has taken `db` to `db'`.
pub record Applied (e id : Text) (o : Order) (p : Payload) (db db' : Database) : Type 0 where
  pub logged : db'.events ≡ insert e (record { order_id = id; payload = p }) db.events
  pub orders_are : db'.orders ≡ insert id (next_order p.kind o p) db.orders
  pub positions_are : db'.positions ≡ next_positions p.kind o p db.positions
  pub fill_positive : is_fill p.kind ≡ true → pos 0 <ℤ p.quantity
  pub fill_fits : is_fill p.kind ≡ true → o.filled_quantity +ℤ p.quantity ≤ℤ o.quantity
  pub identities_kept : db'.identities ≡ db.identities
  pub submissions_kept : db'.submissions ≡ db.submissions

-- The three tables that the kind of the event bears on, and those that it leaves alone.
pub record Moved (id : Text) (o : Order) (p : Payload) (db db' : Database) : Type 0 where
  pub orders_are : db'.orders ≡ insert id (next_order p.kind o p) db.orders
  pub positions_are : db'.positions ≡ next_positions p.kind o p db.positions
  pub fill_positive : is_fill p.kind ≡ true → pos 0 <ℤ p.quantity
  pub fill_fits : is_fill p.kind ≡ true → o.filled_quantity +ℤ p.quantity ≤ℤ o.quantity
  pub events_kept : db'.events ≡ db.events
  pub cursors_kept : db'.cursors ≡ db.cursors
  pub identities_kept : db'.identities ≡ db.identities
  pub submissions_kept : db'.submissions ≡ db.submissions

apply_fill-Moved :
    (id : Text) (o : Order) (p : Payload) (db : Database)
    → is_fill p.kind ≡ true
    → Ensures (apply_fill id o p db) (Moved id o p db)
unfolding apply_fill next_order next_positions
apply_fill-Moved id o p db h = ground arith

pub apply_kind-Moved :
    (k : Kind) (id : Text) (o : Order) (p : Payload) (db : Database)
    → p.kind ≡ k
    → Ensures (apply_kind k id o p db) (Moved id o p db)
unfolding apply_kind is_fill next_order next_positions
apply_kind-Moved Kind.partial_fill id o p db e = apply_fill-Moved id o p db (rw e refl)
apply_kind-Moved Kind.fill_complete id o p db e = apply_fill-Moved id o p db (rw e refl)
apply_kind-Moved Kind.fill id o p db e = apply_fill-Moved id o p db (rw e refl)
apply_kind-Moved Kind.submit id o p db e = ground arith
apply_kind-Moved Kind.cancel id o p db e = ground arith
apply_kind-Moved Kind.reject id o p db e = ground arith

record Recorded (e id : Text) (p : Payload) (db db' : Database) : Type 0 where
  logged : db'.events ≡ insert e (record { order_id = id; payload = p }) db.events
  orders_kept : db'.orders ≡ db.orders
  positions_kept : db'.positions ≡ db.positions
  identities_kept : db'.identities ≡ db.identities
  submissions_kept : db'.submissions ≡ db.submissions

record_event-Recorded :
    (e id : Text) (p : Payload) (db : Database)
    → Ensures (record_event e id p db) (Recorded e id p db)
unfolding record_event store_cursor insert_cursor
record_event-Recorded e id p db = ground arith

-- An event whose id is new is refused, or has exactly this effect.
pub apply_new-Applied :
    (e id : Text) (o : Order) (p : Payload) (db : Database)
    → Ensures (apply_new e id o p db) (λ r. (r.0 ≡ true) × Applied e id o p db r.1)
unfolding apply_new
apply_new-Applied e id o p db =
    Ensures-then _ (check_cursor p.event_sequence (find_row (order_scope p id) db.cursors)) _ λ _.
      Ensures-bind _ (apply_kind p.kind id o p db) _ (apply_kind-Moved p.kind id o p db refl)
        λ db₁ m.
          Ensures-bind _ (record_event e id p db₁) _ (record_event-Recorded e id p db₁) λ db₂ r. (
            refl,
            record {
              logged =
                  r.logged ∙ ap (insert e (record { order_id = id; payload = p })) m.events_kept;
              orders_are = r.orders_kept ∙ m.orders_are;
              positions_are = r.positions_kept ∙ m.positions_are;
              fill_positive = m.fill_positive;
              fill_fits = m.fill_fits;
              identities_kept = r.identities_kept ∙ m.identities_kept;
              submissions_kept = r.submissions_kept ∙ m.submissions_kept;
            },
          )
