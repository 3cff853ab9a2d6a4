-- ===== src/Execution/Repository/Events/Ledger.antt =====
-- The books balance (backend/app/transactional_execution_repository.py): what an order has filled
-- is what its events say, and a position is what its orders have filled.
use ai_trading_platform_mobi.Prelude.{
  ◌≡◌, refl, sym, ap, ◌∙◌, ◌⊎◌, inl, inr, Bool, true, false, ◌&&◌, ◌||◌, Option, none, some, List,
  [], ◌∷◌, arith, if◌then◌else◌, is_some, Bool-cases, Option-cases, is_empty, raise_if, Ensures, ℤ,
  pos, ◌+ℤ◌, ◌≤ℤ◌, ◌<ℤ◌, leb_ℤ, int_laws, Text, codes, text_eq, text_eq_iff, text_eq_refl, Dict,
  lookup, contains, insert, lookup-insert, lookup-insert_self, Ensures-mono, Ensures-then, subst,
  ap₂, cancel_middle, plus_zero,
}
use ai_trading_platform_mobi.Execution.Repository.{
  Order, Payload, Event, Scope, scope_eq, Database, RepositoryError,
}
use ai_trading_platform_mobi.Execution.Repository.Scopes.{
  eq_ℤ_iff, quantity_at, quantity_at-add_position,
}
use ai_trading_platform_mobi.Execution.Repository.Events.{
  is_fill, check_replay, symbol_scope, signed, apply_new, apply_payload, make_payload, apply_event,
}
use ai_trading_platform_mobi.Execution.Repository.Events.Effect.{
  next_order, next_positions, Applied, apply_new-Applied,
}
use ai_trading_platform_mobi.Execution.Repository.Events.Replay.{
  apply_payload_known, apply_payload_new, check_replay-ok, tx_of_row, tx-cases,
}

abbrev home : Order → Scope
home o = record { account = o.broker_account_id; route = o.broker_route; name = o.symbol }

-- What an order adds to the position of a key.
unfoldable pub contribution : Scope → Order → ℤ
contribution k o = if scope_eq k (home o) then signed o.side o.filled_quantity else pos 0

-- The net filled quantity of all orders of an account, a route and a symbol.
unfoldable pub net_filled : Scope → Dict Order → ℤ
net_filled k [] = pos 0
net_filled k ((_, o) ∷ orders) = contribution k o +ℤ net_filled k orders

-- What one event fills of an order.
unfoldable pub event_fill : Text → Event → ℤ
event_fill id ev =
    if text_eq id ev.order_id && is_fill ev.payload.kind then ev.payload.quantity else pos 0

-- What the recorded events have filled of an order.
unfoldable pub events_fill : Text → Dict Event → ℤ
events_fill id [] = pos 0
events_fill id ((_, ev) ∷ events) = event_fill id ev +ℤ events_fill id events

-- Every recorded event is of an order that is there.
abbrev pub OrdersKnown : Dict Order → Dict Event → Type 0
OrdersKnown orders [] = Unit
OrdersKnown orders ((_, ev) ∷ events) =
    (contains ev.order_id orders ≡ true) × OrdersKnown orders events

pub record IsBalanced (db : Database) : Type 0 where
  pub filled_is :
      (id : Text) (o : Order)
      → lookup id db.orders ≡ some o
      → o.filled_quantity ≡ events_fill id db.events
  pub filled_fits :
      (id : Text) (o : Order)
      → lookup id db.orders ≡ some o
      → (pos 0 ≤ℤ o.filled_quantity) × (o.filled_quantity ≤ℤ o.quantity)
  pub position_is : (k : Scope) → quantity_at k db.positions ≡ net_filled k db.orders
  pub orders_known : OrdersKnown db.orders db.events

signed_sum : (side : Text) (a b : ℤ) → signed side (a +ℤ b) ≡ signed side a +ℤ signed side b
unfolding signed
signed_sum side a b = elim (Bool-cases (text_eq side (codes "BUY"))) [
  | inl e ↦ rw e refl
  | inr e ↦ rw e (omega int_laws)
]

-- Replacing the row of an order changes the net quantity by the difference of the two rows.
net_filled-insert :
    (k : Scope) (id : Text) (o o' : Order) (orders : Dict Order)
    → lookup id orders ≡ some o
    → net_filled k (insert id o' orders) +ℤ contribution k o
      ≡ net_filled k orders +ℤ contribution k o'
unfolding net_filled
net_filled-insert k id o o' [] h = cc
net_filled-insert k id o o' (e ∷ orders) h = grind (int_laws, net_filled-insert k id o o' orders)

events_fill-insert :
    (id e : Text) (ev : Event) (events : Dict Event)
    → lookup e events ≡ none
    → events_fill id (insert e ev events) ≡ events_fill id events +ℤ event_fill id ev
unfolding events_fill
events_fill-insert id e ev [] h = omega int_laws
events_fill-insert id e ev (x ∷ events) h = grind (int_laws, events_fill-insert id e ev events)

OrdersKnown-insert_order :
    (id : Text) (o : Order) (orders : Dict Order) (events : Dict Event)
    → OrdersKnown orders events
    → OrdersKnown (insert id o orders) events
OrdersKnown-insert_order id o orders [] h = tt
OrdersKnown-insert_order id o orders (x ∷ events) h = (
  ground (arith, lookup-insert id x.1.order_id o orders),
  OrdersKnown-insert_order id o orders events h.1,
)

OrdersKnown-insert_event :
    (e : Text) (ev : Event) (orders : Dict Order) (events : Dict Event)
    → OrdersKnown orders events
    → contains ev.order_id orders ≡ true
    → OrdersKnown orders (insert e ev events)
OrdersKnown-insert_event e ev orders [] h k = (k, tt)
OrdersKnown-insert_event e ev orders (x ∷ events) h k =
    ground (arith, OrdersKnown-insert_event e ev orders events h.1 k)

-- How the row of the order itself moves, seen from a key.
contribution-next_order :
    (k : Scope) (o : Order) (p : Payload)
    → contribution k (next_order p.kind o p)
      ≡ contribution k o
        +ℤ (if is_fill p.kind
            then (if scope_eq k (home o) then signed o.side p.quantity else pos 0)
            else pos 0)
unfolding contribution next_order
contribution-next_order k o p = elim (Bool-cases (is_fill p.kind)) [
  | inl e ↦ rw e (elim (Bool-cases (scope_eq k (home o))) [
    | inl f ↦ rw f (signed_sum o.side o.filled_quantity p.quantity)
    | inr f ↦ rw f (omega int_laws)
  ])
  | inr e ↦ rw e (omega int_laws)
]

next_order_filled :
    (o : Order) (p : Payload)
    → (next_order p.kind o p).filled_quantity
      ≡ o.filled_quantity +ℤ (if is_fill p.kind then p.quantity else pos 0)
unfolding next_order
next_order_filled o p = elim (Bool-cases (is_fill p.kind)) [
  | inl e ↦ rw e refl
  | inr e ↦ rw e (omega int_laws)
]

event_fill_self :
    (id : Text) (p : Payload)
    → event_fill id (record { order_id = id; payload = p })
      ≡ (if is_fill p.kind then p.quantity else pos 0)
unfolding event_fill
event_fill_self id p = rw (text_eq_refl id) refl

event_fill_other :
    (j id : Text) (p : Payload)
    → text_eq j id ≡ false
    → event_fill j (record { order_id = id; payload = p }) ≡ pos 0
unfolding event_fill
event_fill_other j id p h = rw h refl

some_same : {A : Type 0} (a b : A) → some a ≡ some b → a ≡ b
some_same a b h = cc

next_order_fits :
    (o : Order) (p : Payload)
    → pos 0 ≤ℤ o.filled_quantity
    → o.filled_quantity ≤ℤ o.quantity
    → (is_fill p.kind ≡ true → pos 0 <ℤ p.quantity)
    → (is_fill p.kind ≡ true → o.filled_quantity +ℤ p.quantity ≤ℤ o.quantity)
    → (pos 0 ≤ℤ (next_order p.kind o p).filled_quantity)
      × ((next_order p.kind o p).filled_quantity ≤ℤ (next_order p.kind o p).quantity)
unfolding next_order
next_order_fits o p h k f g = elim (Bool-cases (is_fill p.kind)) [
  | inl e ↦ let x = f e in let y = g e in rw e (omega int_laws, y)
  | inr e ↦ rw e (h, k)
]

-- What an event adds to the position of a key.
abbrev moved_by : Scope → Order → Payload → Scope → ℤ
moved_by k o p j =
    if is_fill p.kind then (if scope_eq k j then signed o.side p.quantity else pos 0) else pos 0

quantity_at-next_positions :
    (k : Scope) (o : Order) (p : Payload) (rows : List (Scope × ℤ))
    → quantity_at k (next_positions p.kind o p rows)
      ≡ quantity_at k rows +ℤ moved_by k o p (symbol_scope p o)
unfolding next_positions
quantity_at-next_positions k o p rows = elim (Bool-cases (is_fill p.kind)) [
  | inr e ↦ rw e (plus_zero (quantity_at k rows))
  | inl e ↦
      rw (e, quantity_at-add_position k (symbol_scope p o) (signed o.side p.quantity) rows)
        (elim (Bool-cases (scope_eq k (symbol_scope p o))) [
          | inl f ↦ rw f refl
          | inr f ↦ rw f (plus_zero (quantity_at k rows))
        ])
]

net_filled-next :
    (k : Scope) (id : Text) (o : Order) (p : Payload) (orders : Dict Order)
    → lookup id orders ≡ some o
    → net_filled k (insert id (next_order p.kind o p) orders)
      ≡ net_filled k orders +ℤ moved_by k o p (home o)
net_filled-next k id o p orders found =
    cancel_middle (net_filled k (insert id (next_order p.kind o p) orders)) (net_filled k orders)
      (contribution k o) (moved_by k o p (home o))
      (net_filled-insert k id o (next_order p.kind o p) orders found
        ∙ ap (λ x. net_filled k orders +ℤ x) (contribution-next_order k o p))

-- One accepted event on a database whose books balance.
module _ (e id : Text) (o : Order) (p : Payload) (db db' : Database) (a : Applied e id o p db db')
    (found : lookup id db.orders ≡ some o) (new : lookup e db.events ≡ none) (v : IsBalanced db)
    (account_same : p.broker_account_id ≡ o.broker_account_id)
    (route_same : p.broker_route ≡ o.broker_route) where
  filled_now :
      (j : Text)
      → events_fill j db'.events
        ≡ events_fill j db.events +ℤ event_fill j (record { order_id = id; payload = p })
  filled_now j =
      ap (events_fill j) a.logged
      ∙ events_fill-insert j e (record { order_id = id; payload = p }) db.events new

  row_now :
      (j : Text)
      → lookup j db'.orders
        ≡ (if text_eq j id then some (next_order p.kind o p) else lookup j db.orders)
  row_now j = ap (lookup j) a.orders_are ∙ lookup-insert id j (next_order p.kind o p) db.orders

  -- A row that is there now is the order's new row, or was there before.
  row_cases :
      (j : Text) (r : Order)
      → lookup j db'.orders ≡ some r
      → ((j ≡ id) × (r ≡ next_order p.kind o p))
        ⊎ ((text_eq j id ≡ false) × (lookup j db.orders ≡ some r))
  row_cases j r h = elim (Bool-cases (text_eq j id)) [
    | inl t ↦ inl (
      (text_eq_iff j id).0 t,
      some_same r (next_order p.kind o p) (sym h ∙ row_now j ∙ rw t refl),
    )
    | inr t ↦ inr (t, sym (rw t at (row_now j)) ∙ h)
  ]

  filled_is_now :
      (j : Text) (r : Order)
      → lookup j db'.orders ≡ some r
      → r.filled_quantity ≡ events_fill j db'.events
  filled_is_now j r h = elim (row_cases j r h) [
    | inl (here, same) ↦
        ap (λ (x : Order). x.filled_quantity) same
        ∙ next_order_filled o p
        ∙ ap₂ (λ (x y : ℤ). x +ℤ y) (v.filled_is id o found) (sym (event_fill_self id p))
        ∙ sym (filled_now id)
        ∙ ap (λ x. events_fill x db'.events) (sym here)
    | inr (t, before) ↦
        v.filled_is j r before
        ∙ plus_zero (events_fill j db.events)
        ∙ ap (λ x. events_fill j db.events +ℤ x) (sym (event_fill_other j id p t))
        ∙ sym (filled_now j)
  ]

  filled_fits_now :
      (j : Text) (r : Order)
      → lookup j db'.orders ≡ some r
      → (pos 0 ≤ℤ r.filled_quantity) × (r.filled_quantity ≤ℤ r.quantity)
  filled_fits_now j r h = elim (row_cases j r h) [
    | inl (here, same) ↦
        subst (λ x. (pos 0 ≤ℤ x.filled_quantity) × (x.filled_quantity ≤ℤ x.quantity)) (sym same)
          (next_order_fits o p (v.filled_fits id o found).0 (v.filled_fits id o found).1
            a.fill_positive a.fill_fits)
    | inr (t, before) ↦ v.filled_fits j r before
  ]

  scope_same : symbol_scope p o ≡ home o
  scope_same = λ i. record { account = account_same i; route = route_same i; name = o.symbol }

  position_is_now : (k : Scope) → quantity_at k db'.positions ≡ net_filled k db'.orders
  position_is_now k =
      ap (quantity_at k) a.positions_are
      ∙ quantity_at-next_positions k o p db.positions
      ∙ ap₂ (λ (x y : ℤ). x +ℤ y) (v.position_is k) (ap (moved_by k o p) scope_same)
      ∙ sym (net_filled-next k id o p db.orders found)
      ∙ ap (net_filled k) (sym a.orders_are)

  OrdersKnown-now : OrdersKnown db'.orders db'.events
  OrdersKnown-now =
      subst (λ os. OrdersKnown os db'.events) (sym a.orders_are)
        (subst (OrdersKnown (insert id (next_order p.kind o p) db.orders)) (sym a.logged) (
          OrdersKnown-insert_event e (record { order_id = id; payload = p })
            (insert id (next_order p.kind o p) db.orders) db.events
            (OrdersKnown-insert_order id (next_order p.kind o p) db.orders db.events v.orders_known)
            (ap is_some (lookup-insert_self id (next_order p.kind o p) db.orders))))

  Applied-IsBalanced : IsBalanced db'
  Applied-IsBalanced = record {
    filled_is = filled_is_now;
    filled_fits = filled_fits_now;
    position_is = position_is_now;
    orders_known = OrdersKnown-now;
  }

apply_payload-IsBalanced :
    (e id : Text) (o : Order) (p : Payload) (db : Database)
    → lookup id db.orders ≡ some o
    → p.broker_account_id ≡ o.broker_account_id
    → p.broker_route ≡ o.broker_route
    → IsBalanced db
    → Ensures (apply_payload e id o p db) (λ r. IsBalanced r.1)
apply_payload-IsBalanced e id o p db found h k v = elim (Option-cases (lookup e db.events)) [
  | inl new ↦ rw (apply_payload_new e id o p db new) (
      Ensures-mono (apply_new e id o p db)
        (λ r a. Applied-IsBalanced e id o p db r.1 a.1 found new v h k)
        (apply_new-Applied e id o p db))
  | inr (known, old) ↦ rw (apply_payload_known e id o p db old) (
      Ensures-mono (check_replay known id p db)
        (λ r f. subst IsBalanced (sym (ap (λ (x : Bool × Database). x.1) f.0)) v)
        (check_replay-ok known id p db))
]

-- Whatever an event does, the books balance after it if they did before: the filled quantity of
-- every order is the sum of its recorded fills and lies between 0 and the order's quantity, and
-- every position is the net filled quantity of its account, route and symbol.
pub apply_event-IsBalanced :
    (e id kind : Text) (account : ℤ) (route : Text) (price : Option ℤ) (quantity : ℤ)
    (sequence : Option ℤ) (db : Database)
    → IsBalanced db
    → Ensures (apply_event e id kind account route price quantity sequence db) (λ r. IsBalanced r.1)
unfolding apply_event
apply_event-IsBalanced e id kind account route price quantity sequence db v =
    Ensures-then _
      (raise_if (is_empty e || is_empty id || leb_ℤ account (pos 0) || is_empty route)
        RepositoryError.missing_identity)
      _
      λ _. (elim (tx-cases e id kind account route price quantity sequence db) [
        | inl (x, failed) ↦ rw failed tt
        | inr (o, k, (h₁, h₂, h₃, h₄, h₅)) ↦
            rw (tx_of_row e id kind account route price quantity sequence db h₁ h₂ h₃ h₄ h₅) (
              apply_payload-IsBalanced e id o (make_payload account route price quantity sequence k)
                db h₂ (sym ((eq_ℤ_iff o.broker_account_id account).0 h₃))
                (sym ((text_eq_iff o.broker_route route).0 h₄)) v)
      ])
