-- ===== src/Orders/Lifecycle/Invariant.antt =====
-- `transition`, `apply_fill`, `create` and `mark_pending_reconciliation` of
-- backend/app/order_lifecycle.py keep the books.
use ai_trading_platform_mobi.Orders.Lifecycle.Moves.{Moved, apply_position_delta-Moved}
use ai_trading_platform_mobi.Prelude.{
  ◌≡◌, refl, sym, ap, ◌∙◌, inl, inr, true, Option, none, some, arith, if◌then◌else◌, Bool-cases,
  Option-cases, any, ok, err, Ensures, ℤ, pos, ◌+ℤ◌, ◌-ℤ◌, ◌<ℤ◌, ltb_ℤ, int_laws, Text, codes,
  text_eq, text_eq_iff, Dict, lookup, insert, lookup-insert, lookup-insert_self, Ensures-then,
  subst, Fraction, frac_sub, frac_scale, is_positive,
}
use ai_trading_platform_mobi.Orders.StateMachine.{state_eq, allowed, OrderStateMachine, transition}
use ai_trading_platform_mobi.Orders.Lifecycle.{
  OrderStatus, OrderRecord, PositionRecord, state_of, OrderLifecycle, Outcome, put_order,
  turn_machine, transition_machine,
}
use ai_trading_platform_mobi.Orders.Lifecycle.Updates.{
  check_update, booked_order, settle_value, book_value, book_delta, book_price, written_order,
  turned_update, update_order, update,
}
use ai_trading_platform_mobi.Orders.Lifecycle.Effect.{is_side, signed, position_at, AreOpen, Adds}
use ai_trading_platform_mobi.Orders.Lifecycle.Books.{IsSoundAt, IsBooked, written-IsBooked}

-- What `_transition_machine` that returns has done
pub record Turned (id : Text) (status : OrderStatus) (s t : OrderLifecycle) : Type 0 where
  pub orders_same : t.orders ≡ s.orders
  pub positions_same : t.positions ≡ s.positions
  pub machines_are : t.machines ≡ insert id (record { state = state_of status }) s.machines

pub transition_machine-Turned :
    (id : Text) (status : OrderStatus) (s : OrderLifecycle)
    → Ensures (transition_machine id status s) (Turned id status s)
unfolding transition_machine transition
transition_machine-Turned id status s = turned (lookup id s.machines)
  where
    turned :
        (m : Option OrderStateMachine) → Ensures (turn_machine id status s m) (Turned id status s)
    turned none = tt
    turned (some m) = elim (Bool-cases (any (state_eq (state_of status)) (allowed m.state))) [
      | inl e ↦ rw e (record { orders_same = refl; positions_same = refl; machines_are = refl })
      | inr e ↦ rw e tt
    ]

signed_none : (x : ℤ) (side : Text) (a : ℤ) → x ≡ x +ℤ signed side (a -ℤ a)
unfolding signed
signed_none x side a = elim (Bool-cases (text_eq side (codes "BUY"))) [
  | inl e ↦ rw e (omega int_laws)
  | inr e ↦ rw e (omega int_laws)
]

-- Positions that stay, where an order applies nothing more
same-Adds :
    (k side : Text) (a b : ℤ) (d : Dict PositionRecord)
    → AreOpen d
    → a ≡ b
    → Adds k (signed side (a -ℤ b)) d d
same-Adds k side a b d h e = (
  h,
  λ symbol. elim (Bool-cases (text_eq symbol k)) [
    | inl t ↦ rw (t, e) (signed_none (position_at symbol d) side b)
    | inr t ↦ rw t (omega int_laws)
  ],
)

-- An order is written with another status, quantity or price, after its machine has turned.
pub after_machine-IsBooked :
    (id : Text) (o o' : OrderRecord) (s t : OrderLifecycle)
    → IsBooked s
    → lookup id s.orders ≡ some o
    → Turned id o'.status s t
    → o'.order_id ≡ o.order_id
    → o'.symbol ≡ o.symbol
    → o'.side ≡ o.side
    → o'.applied_fill_quantity ≡ o.applied_fill_quantity
    → IsBooked (put_order id o' t)
after_machine-IsBooked id o o' s t b found turned same_id same_symbol same_side same_applied =
    written-IsBooked id o o' s (put_order id o' t) b found (ap (insert id o') turned.orders_same)
      (λ j.
        ap (lookup j) turned.machines_are
        ∙ lookup-insert id j (record { state = state_of o'.status }) s.machines)
      same_id same_symbol same_side
      (subst
        (Adds o.symbol (signed o.side (o'.applied_fill_quantity -ℤ o.applied_fill_quantity))
          s.positions)
        (sym turned.positions_same)
        (same-Adds o.symbol o.side o'.applied_fill_quantity o.applied_fill_quantity s.positions
          b.open_positions same_applied))

pub machine_at :
    (id : Text) (o : OrderRecord) (s : OrderLifecycle)
    → IsBooked s
    → lookup id s.orders ≡ some o
    → (j : Text)
    → lookup j s.machines
      ≡ (if text_eq j id then some (record { state = state_of o.status }) else lookup j s.machines)
machine_at id o s b found j = elim (Bool-cases (text_eq j id)) [
  | inl e ↦ rw e (
      ap (λ k. lookup k s.machines) ((text_eq_iff j id).0 e)
      ∙ (subst (λ r. IsSoundAt id r (lookup id s.machines)) found (b.sound id)).machine_is)
  | inr e ↦ rw e refl
]

-- An order is written at the same status.
pub rewritten-IsBooked :
    (id : Text) (o o' : OrderRecord) (s : OrderLifecycle)
    → IsBooked s
    → lookup id s.orders ≡ some o
    → o'.status ≡ o.status
    → o'.order_id ≡ o.order_id
    → o'.symbol ≡ o.symbol
    → o'.side ≡ o.side
    → o'.applied_fill_quantity ≡ o.applied_fill_quantity
    → IsBooked (put_order id o' s)
rewritten-IsBooked id o o' s b found same_status same_id same_symbol same_side same_applied =
    written-IsBooked id o o' s (put_order id o' s) b found refl
      (λ j. rw same_status (machine_at id o s b found j)) same_id same_symbol same_side
      (same-Adds o.symbol o.side o'.applied_fill_quantity o.applied_fill_quantity s.positions
        b.open_positions same_applied)

pub side_at :
    (id : Text) (o : OrderRecord) (s : OrderLifecycle)
    → IsBooked s
    → lookup id s.orders ≡ some o
    → is_side o.side ≡ true
side_at id o s b found =
    (subst (λ r. IsSoundAt id r (lookup id s.machines)) found (b.sound id)).side_is

settle_value-IsBooked :
    (id : Text) (o : OrderRecord) (value : Fraction) (s : OrderLifecycle)
    (m : Outcome OrderLifecycle)
    → IsBooked s
    → lookup id s.orders ≡ some o
    → Ensures m (Moved o (o.filled_quantity -ℤ o.applied_fill_quantity) s)
    → IsBooked (settle_value id o value s m).1
settle_value-IsBooked id o value s (err _) b found h = b
settle_value-IsBooked id o value s (ok t) b found h =
    written-IsBooked id o (booked_order o o.filled_quantity value) s
      (put_order id (booked_order o o.filled_quantity value) t) b found
      (ap (insert id (booked_order o o.filled_quantity value)) h.orders_same)
      (λ j. ap (lookup j) h.machines_same ∙ machine_at id o s b found j) refl refl refl h.adds

book_value-IsBooked :
    (day id : Text) (o : OrderRecord) (average : Fraction) (s : OrderLifecycle)
    → IsBooked s
    → lookup id s.orders ≡ some o
    → pos 0 <ℤ (o.filled_quantity -ℤ o.applied_fill_quantity)
    → IsBooked (book_value day id o average s).1
unfolding book_value
book_value-IsBooked day id o average s b found more =
    elim (Bool-cases
      (is_positive (frac_sub (frac_scale average o.filled_quantity) o.applied_fill_value))) [
        | inr e ↦ rw e b
        | inl e ↦ rw e (
            settle_value-IsBooked id o (frac_scale average o.filled_quantity) s _ b found (
              apply_position_delta-Moved day o (o.filled_quantity -ℤ o.applied_fill_quantity) _ s
                more (side_at id o s b found) b.open_positions))
      ]

book_delta-IsBooked :
    (day id : Text) (o : OrderRecord) (s : OrderLifecycle)
    → IsBooked s
    → lookup id s.orders ≡ some o
    → IsBooked (book_delta day id o s).1
unfolding book_delta
book_delta-IsBooked day id o s b found =
    elim (Bool-cases (ltb_ℤ (pos 0) (o.filled_quantity -ℤ o.applied_fill_quantity))) [
      | inr e ↦ rw e b
      | inl e ↦ rw e (elim (Option-cases o.average_fill_price) [
        | inl absent ↦ rw absent b
        | inr (average, given) ↦
            rw given (book_value-IsBooked day id o average s b found (ground arith))
      ])
    ]

book_price-IsBooked :
    (day id : Text) (o : OrderRecord) (price : Option Fraction) (s : OrderLifecycle)
    → IsBooked s
    → lookup id s.orders ≡ some o
    → IsBooked (book_price day id o price s).1
unfolding book_price
book_price-IsBooked day id o none s b found = book_delta-IsBooked day id o s b found
book_price-IsBooked day id o (some price) s b found = elim (Bool-cases (is_positive price)) [
  | inr e ↦ rw e b
  | inl e ↦ rw e (
      book_delta-IsBooked day id (record o { average_fill_price = some price })
        (put_order id (record o { average_fill_price = some price }) s)
        (rewritten-IsBooked id o (record o { average_fill_price = some price }) s b found refl refl
          refl refl refl)
        (lookup-insert_self id (record o { average_fill_price = some price }) s.orders))
]

turned_update-IsBooked :
    (day id : Text) (o : OrderRecord) (status : OrderStatus) (filled : ℤ) (price : Option Fraction)
    (s : OrderLifecycle) (m : Outcome OrderLifecycle)
    → IsBooked s
    → lookup id s.orders ≡ some o
    → Ensures m (Turned id status s)
    → IsBooked (turned_update day id o status filled price s m).1
turned_update-IsBooked day id o status filled price s (err _) b found h = b
turned_update-IsBooked day id o status filled price s (ok t) b found h =
    book_price-IsBooked day id (written_order o status filled) price
      (put_order id (written_order o status filled) t)
      (after_machine-IsBooked id o (written_order o status filled) s t b found h refl refl refl
        refl)
      (lookup-insert_self id (written_order o status filled) t.orders)

-- `transition` keeps the books, also when it raises.
pub update-IsBooked :
    (day id : Text) (status : OrderStatus) (filled : ℤ) (price : Option Fraction)
    (s : OrderLifecycle)
    → IsBooked s
    → IsBooked (update day id status filled price s).1
unfolding update update_order
update-IsBooked day id status filled price s b = elim (Option-cases (lookup id s.orders)) [
  | inl absent ↦ rw (update, absent) b
  | inr (o, found) ↦
      rw (update, found)
        (turned_update-IsBooked day id o status filled price s _ b found (
          Ensures-then (Turned id status s) (check_update o status filled price) _
            (λ _. transition_machine-Turned id status s)))
]
