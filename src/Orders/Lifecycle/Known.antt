-- ===== src/Orders/Lifecycle/Known.antt =====
-- `transition` of backend/app/order_lifecycle.py raises a KeyError only where the order is unknown.
use ai_trading_platform_mobi.Prelude.{
  ◌≡◌, refl, sym, ap, inl, inr, Bool, true, false, not, ◌&&◌, ◌||◌, Option, none, some, arith,
  is_some, Bool-cases, Option-cases, is_empty, any, ok, err, ◌>>=◌, raise_if, Ensures, ℤ, pos, ◌-ℤ◌,
  ltb_ℤ, leb_ℤ, eq_ℤ, Text, text_eq, strip, upper, lookup, contains, lookup-insert_self, Value,
  finite, Ensures-then, subst, Fraction, frac_sub, frac_scale, is_positive, Raises, Raises-then,
  Raises-raise_if,
}
use ai_trading_platform_mobi.Orders.StateMachine.{state_eq, allowed, OrderStateMachine, transition}
use ai_trading_platform_mobi.Orders.Lifecycle.{
  OrderStatus, OrderRecord, state_of, OrderLifecycle, LifecycleError, is_key_error, Outcome,
  opt_strip, is_blank_text, is_bad_owner, given_quantity, new_order, create, turn_machine,
  transition_machine,
}
use ai_trading_platform_mobi.Orders.Lifecycle.Positions.{
  opt_text_eq, apply_to, apply_position_delta,
}
use ai_trading_platform_mobi.Orders.Lifecycle.Updates.{
  is_fill_status, check_price, check_update, settle_value, book_value, book_delta, book_price,
  turned_update, update_order, update,
}
use ai_trading_platform_mobi.Orders.Lifecycle.Books.{IsSoundAt, IsBooked}
use ai_trading_platform_mobi.Orders.Lifecycle.Effect.{is_side}

-- An error that is a ValueError
abbrev pub IsCaught : LifecycleError → Type 0
IsCaught e = is_key_error e ≡ false

apply_position_delta-IsCaught :
    (day : Text) (o : OrderRecord) (quantity : ℤ) (price : Fraction) (s : OrderLifecycle)
    → Raises (apply_position_delta day o quantity price s) IsCaught
unfolding apply_position_delta apply_to is_key_error
apply_position_delta-IsCaught day o quantity price s =
    elim (Option-cases (lookup o.symbol s.positions)) [
      | inl absent ↦ rw absent tt
      | inr (p, found) ↦
          rw found
            (elim (Bool-cases (
              not (opt_text_eq p.broker_account_id o.broker_account_id)
              || not (opt_text_eq p.broker_route o.broker_route))) [
                | inl e ↦ rw e refl
                | inr e ↦ rw e (elim (Bool-cases (text_eq p.side o.side)) [
                  | inl k ↦ rw k tt
                  | inr k ↦ rw k tt
                ])
              ])
    ]

settle_value-IsCaught :
    (id : Text) (o : OrderRecord) (value : Fraction) (s : OrderLifecycle)
    (m : Outcome OrderLifecycle)
    → Raises m IsCaught
    → Raises (settle_value id o value s m).0 IsCaught
settle_value-IsCaught id o value s (err _) h = h
settle_value-IsCaught id o value s (ok _) h = tt

book_delta-IsCaught :
    (day id : Text) (o : OrderRecord) (s : OrderLifecycle)
    → Raises (book_delta day id o s).0 IsCaught
unfolding book_delta book_value is_key_error
book_delta-IsCaught day id o s =
    elim (Bool-cases (ltb_ℤ (pos 0) (o.filled_quantity -ℤ o.applied_fill_quantity))) [
      | inr e ↦ rw e tt
      | inl e ↦ rw e (elim (Option-cases o.average_fill_price) [
        | inl absent ↦ rw absent refl
        | inr (average, given) ↦ rw given (valued average)
      ])
    ]
  where
    valued : (average : Fraction) → Raises (book_value day id o average s).0 IsCaught
    valued average =
        elim (Bool-cases
          (is_positive (frac_sub (frac_scale average o.filled_quantity) o.applied_fill_value))) [
            | inr e ↦ rw e refl
            | inl e ↦ rw e (
                settle_value-IsCaught id o (frac_scale average o.filled_quantity) s _ (
                  apply_position_delta-IsCaught day o (o.filled_quantity -ℤ o.applied_fill_quantity)
                    _ s))
          ]

book_price-IsCaught :
    (day id : Text) (o : OrderRecord) (price : Option Fraction) (s : OrderLifecycle)
    → Raises (book_price day id o price s).0 IsCaught
unfolding book_price is_key_error
book_price-IsCaught day id o none s = book_delta-IsCaught day id o s
book_price-IsCaught day id o (some price) s = elim (Bool-cases (is_positive price)) [
  | inr e ↦ rw e refl
  | inl e ↦ rw e (book_delta-IsCaught day id _ _)
]

turned_update-IsCaught :
    (day id : Text) (o : OrderRecord) (status : OrderStatus) (filled : ℤ) (price : Option Fraction)
    (s : OrderLifecycle) (m : Outcome OrderLifecycle)
    → Raises m IsCaught
    → Raises (turned_update day id o status filled price s m).0 IsCaught
turned_update-IsCaught day id o status filled price s (err _) h = h
turned_update-IsCaught day id o status filled price s (ok t) h =
    book_price-IsCaught day id _ price _

check_price-IsCaught :
    (price average : Option Fraction) → Raises (check_price price average) IsCaught
unfolding check_price is_key_error
check_price-IsCaught none average = tt
check_price-IsCaught (some price) none = tt
check_price-IsCaught (some price) (some average) =
    Raises-then IsCaught (raise_if (not (is_positive price)) LifecycleError.price_not_positive) _
      (Raises-raise_if IsCaught _ LifecycleError.price_not_positive refl)
      (λ _. Raises-raise_if IsCaught _ LifecycleError.price_changed refl)

check_update-IsCaught :
    (o : OrderRecord) (status : OrderStatus) (filled : ℤ) (price : Option Fraction)
    → Raises (check_update o status filled price) IsCaught
unfolding check_update is_key_error
check_update-IsCaught o status filled price =
    Raises-then IsCaught
      (raise_if (is_fill_status status && not (leb_ℤ (pos 0) filled && leb_ℤ filled o.quantity))
        LifecycleError.invalid_fill)
      _ (Raises-raise_if IsCaught _ LifecycleError.invalid_fill refl)
      (λ _.
        Raises-then IsCaught
          (raise_if (ltb_ℤ filled o.applied_fill_quantity) LifecycleError.moves_backwards) _
          (Raises-raise_if IsCaught _ LifecycleError.moves_backwards refl)
          (λ _. elim (Bool-cases (eq_ℤ filled o.applied_fill_quantity)) [
            | inl e ↦ rw e (check_price-IsCaught price o.average_fill_price)
            | inr e ↦ rw e tt
          ]))

turn_machine-IsCaught :
    (id : Text) (status : OrderStatus) (s : OrderLifecycle) (m : OrderStateMachine)
    → Raises (turn_machine id status s (some m)) IsCaught
unfolding transition is_key_error
turn_machine-IsCaught id status s m =
    elim (Bool-cases (any (state_eq (state_of status)) (allowed m.state))) [
      | inl e ↦ rw e tt
      | inr e ↦ rw e refl
    ]

-- Where the books are kept, `transition` of a known order raises ValueErrors only.
pub update-IsCaught :
    (day id : Text) (status : OrderStatus) (filled : ℤ) (price : Option Fraction)
    (s : OrderLifecycle)
    → IsBooked s
    → contains id s.orders ≡ true
    → Raises (update day id status filled price s).0 IsCaught
unfolding update update_order transition_machine
update-IsCaught day id status filled price s b known = elim (Option-cases (lookup id s.orders)) [
  | inl absent ↦ absurd (ground arith)
  | inr (o, found) ↦
      rw (update, found)
        (turned_update-IsCaught day id o status filled price s _ (
          Raises-then IsCaught (check_update o status filled price) _
            (check_update-IsCaught o status filled price)
            (λ _.
              subst (λ m. Raises (turn_machine id status s m) IsCaught)
                (sym
                  (subst (λ r. IsSoundAt id r (lookup id s.machines)) found
                    (b.sound id)).machine_is)
                (turn_machine-IsCaught id status s (record { state = state_of o.status })))))
]

given_quantity-IsCaught : (q : Option ℤ) → Raises (given_quantity q) IsCaught
unfolding is_key_error
given_quantity-IsCaught none = refl
given_quantity-IsCaught (some q) = elim (Bool-cases (leb_ℤ q (pos 0))) [
  | inl e ↦ rw e refl
  | inr e ↦ rw e tt
]

caught :
    {A : Type 0} (b : Bool) (e : LifecycleError) (f : Unit {0} → Outcome A)
    → IsCaught e
    → ((u : Unit {0}) → Raises (f u) IsCaught)
    → Raises (raise_if b e >>= f) IsCaught
caught b e f h k = Raises-then IsCaught (raise_if b e) f (Raises-raise_if IsCaught b e h) k

-- `create` raises ValueErrors only, and it returns a lifecycle that has the order.
pub create-IsCaught :
    (id symbol side : Text) (quantity : Value) (owner : Option ℤ) (account route : Option Text)
    (s : OrderLifecycle)
    → Raises (create id symbol side quantity owner account route s) IsCaught
unfolding create is_key_error
create-IsCaught id symbol side quantity owner account route s =
    caught (is_empty (strip id)) LifecycleError.order_id_required _ refl (λ _.
      caught (contains id s.orders) LifecycleError.duplicate_order _ refl (λ _.
        caught (is_empty (upper (strip symbol))) LifecycleError.symbol_required _ refl (λ _.
          caught (not (is_side (upper (strip side)))) LifecycleError.invalid_side _ refl (λ _.
            Raises-then IsCaught (given_quantity (finite quantity)) _
              (given_quantity-IsCaught (finite quantity))
              (λ q. caught (is_bad_owner owner) LifecycleError.invalid_owner _ refl (λ _.
                caught (is_blank_text account) LifecycleError.empty_account _ refl (λ _.
                  caught (is_blank_text route) LifecycleError.empty_route _ refl (λ _. tt))))))))

pub create_known :
    (id symbol side : Text) (quantity : Value) (owner : Option ℤ) (account route : Option Text)
    (s : OrderLifecycle)
    → Ensures
        (create id symbol side quantity owner account route s)
        (λ t. contains id t.orders ≡ true)
unfolding create
create_known id symbol side quantity owner account route s =
    Ensures-then (λ t. contains id t.orders ≡ true)
      (raise_if (is_empty (strip id)) LifecycleError.order_id_required) _
      (λ _.
        Ensures-then (λ t. contains id t.orders ≡ true)
          (raise_if (contains id s.orders) LifecycleError.duplicate_order) _
          (λ _.
            Ensures-then (λ t. contains id t.orders ≡ true)
              (raise_if (is_empty (upper (strip symbol))) LifecycleError.symbol_required) _
              (λ _.
                Ensures-then (λ t. contains id t.orders ≡ true)
                  (raise_if (not (is_side (upper (strip side)))) LifecycleError.invalid_side) _
                  (λ _.
                    Ensures-then (λ t. contains id t.orders ≡ true)
                      (given_quantity (finite quantity)) _
                      (λ q.
                        Ensures-then (λ t. contains id t.orders ≡ true)
                          (raise_if (is_bad_owner owner) LifecycleError.invalid_owner) _
                          (λ _.
                            Ensures-then (λ t. contains id t.orders ≡ true)
                              (raise_if (is_blank_text account) LifecycleError.empty_account) _
                              (λ _.
                                Ensures-then (λ t. contains id t.orders ≡ true)
                                  (raise_if (is_blank_text route) LifecycleError.empty_route) _
                                  (λ _. ap is_some (
                                    lookup-insert_self id
                                      (new_order id (upper (strip symbol)) (upper (strip side)) q
                                        owner (opt_strip account) (opt_strip route))
                                      s.orders)))))))))
