-- ===== src/Orders/Lifecycle/Books.antt =====
-- The books of backend/app/order_lifecycle.py: positions are what the orders have applied, and every
-- order has a machine in the state of its status.
use ai_trading_platform_mobi.Prelude.{
  ◌≡◌, refl, sym, ap, ◌∙◌, inl, inr, true, Option, none, some, [], ◌∷◌, if◌then◌else◌, Bool-cases,
  ℤ, pos, ◌+ℤ◌, ◌-ℤ◌, int_laws, Text, text_eq, text_eq_iff, Dict, lookup, insert, HasUniqueKeys,
  lookup-insert, insert-HasUniqueKeys, subst, cancel_middle,
}
use ai_trading_platform_mobi.Orders.StateMachine.{OrderStateMachine}
use ai_trading_platform_mobi.Orders.Lifecycle.{OrderRecord, state_of, OrderLifecycle}
use ai_trading_platform_mobi.Orders.Lifecycle.Effect.{
  is_side, signed, position_at, AreOpen, Adds, signed_sum,
}

-- What an order has added to the position of a symbol
unfoldable pub share : Text → OrderRecord → ℤ
share symbol o = if text_eq symbol o.symbol then signed o.side o.applied_fill_quantity else pos 0

-- The net quantity that all orders of a symbol have applied
unfoldable pub net_applied : Text → Dict OrderRecord → ℤ
net_applied symbol [] = pos 0
net_applied symbol ((_, o) ∷ orders) = share symbol o +ℤ net_applied symbol orders

-- An order has a known side, its own id, and a machine in the state of its status.
pub record IsSound (id : Text) (o : OrderRecord) (m : Option OrderStateMachine) : Type 0 where
  pub id_is : o.order_id ≡ id
  pub side_is : is_side o.side ≡ true
  pub machine_is : m ≡ some (record { state = state_of o.status })

abbrev pub IsSoundAt : Text → Option OrderRecord → Option OrderStateMachine → Type 0
IsSoundAt id none m = Unit
IsSoundAt id (some o) m = IsSound id o m

pub record IsBooked (s : OrderLifecycle) : Type 0 where
  pub unique : HasUniqueKeys s.orders
  pub sound : (id : Text) → IsSoundAt id (lookup id s.orders) (lookup id s.machines)
  pub open_positions : AreOpen s.positions
  pub position_is : (symbol : Text) → position_at symbol s.positions ≡ net_applied symbol s.orders

net_applied-insert :
    (symbol id : Text) (o o' : OrderRecord) (orders : Dict OrderRecord)
    → lookup id orders ≡ some o
    → net_applied symbol (insert id o' orders) +ℤ share symbol o
      ≡ net_applied symbol orders +ℤ share symbol o'
unfolding net_applied
net_applied-insert symbol id o o' [] h = cc
net_applied-insert symbol id o o' (e ∷ orders) h =
    grind (int_laws, net_applied-insert symbol id o o' orders)

pub net_applied-new :
    (symbol id : Text) (o : OrderRecord) (orders : Dict OrderRecord)
    → lookup id orders ≡ none
    → net_applied symbol (insert id o orders) ≡ net_applied symbol orders +ℤ share symbol o
unfolding net_applied
net_applied-new symbol id o [] h = omega int_laws
net_applied-new symbol id o (e ∷ orders) h = grind (int_laws, net_applied-new symbol id o orders)

share_step :
    (symbol : Text) (o o' : OrderRecord)
    → o'.symbol ≡ o.symbol
    → o'.side ≡ o.side
    → share symbol o'
      ≡ share symbol o
        +ℤ (if text_eq symbol o.symbol
            then signed o.side (o'.applied_fill_quantity -ℤ o.applied_fill_quantity)
            else pos 0)
unfolding share
share_step symbol o o' same_symbol same_side = elim (Bool-cases (text_eq symbol o.symbol)) [
  | inl e ↦
      rw (same_symbol, same_side, e)
        (ap (signed o.side) difference
          ∙ signed_sum o.side o.applied_fill_quantity
              (o'.applied_fill_quantity -ℤ o.applied_fill_quantity))
  | inr e ↦ rw (same_symbol, e) (omega int_laws)
]
  where
    difference :
        o'.applied_fill_quantity
        ≡ o.applied_fill_quantity +ℤ (o'.applied_fill_quantity -ℤ o.applied_fill_quantity)
    difference = grind int_laws

-- A row is written, with the machine of the order, and the positions move by what it has applied.
module _ (id : Text) (o o' : OrderRecord) (s t : OrderLifecycle) (b : IsBooked s)
    (found : lookup id s.orders ≡ some o) (orders : t.orders ≡ insert id o' s.orders)
    (machines : (j : Text)
      → lookup j t.machines ≡ (
          if text_eq j id
          then some (record { state = state_of o'.status })
          else lookup j s.machines))
    (same_id : o'.order_id ≡ o.order_id) (same_symbol : o'.symbol ≡ o.symbol)
    (same_side : o'.side ≡ o.side)
    (adds : Adds o.symbol
      (signed o.side (o'.applied_fill_quantity -ℤ o.applied_fill_quantity))
      s.positions
      t.positions) where
  checked_before : IsSound id o (lookup id s.machines)
  checked_before = subst (λ r. IsSoundAt id r (lookup id s.machines)) found (b.sound id)

  row_at : (j : Text) → lookup j t.orders ≡ (if text_eq j id then some o' else lookup j s.orders)
  row_at j = ap (lookup j) orders ∙ lookup-insert id j o' s.orders

  sound_now : (j : Text) → IsSoundAt j (lookup j t.orders) (lookup j t.machines)
  sound_now j = elim (Bool-cases (text_eq j id)) [
    | inl e ↦
        rw (row_at j, machines j, e)
          (record {
            id_is = same_id ∙ checked_before.id_is ∙ sym ((text_eq_iff j id).0 e);
            side_is = ap is_side same_side ∙ checked_before.side_is;
            machine_is = refl;
          })
    | inr e ↦ rw (row_at j, machines j, e) (b.sound j)
  ]

  abbrev delta : Text → ℤ
  delta symbol =
      if text_eq symbol o.symbol
      then signed o.side (o'.applied_fill_quantity -ℤ o.applied_fill_quantity)
      else pos 0

  position_now : (symbol : Text) → position_at symbol t.positions ≡ net_applied symbol t.orders
  position_now symbol =
      let step = share_step symbol o o' same_symbol same_side in
      let net = net_applied-insert symbol id o o' s.orders found in
      let moved = adds.1 symbol in
      let before = b.position_is symbol in
      moved
      ∙ ap (λ x. x +ℤ delta symbol) before
      ∙ sym (
          cancel_middle (net_applied symbol (insert id o' s.orders)) (net_applied symbol s.orders)
            (share symbol o) (delta symbol) (net ∙ ap (λ x. net_applied symbol s.orders +ℤ x) step))
      ∙ ap (net_applied symbol) (sym orders)

  pub written-IsBooked : IsBooked t
  written-IsBooked = record {
    unique = subst HasUniqueKeys (sym orders) (insert-HasUniqueKeys id o' s.orders b.unique);
    sound = sound_now;
    open_positions = adds.0;
    position_is = position_now;
  }
