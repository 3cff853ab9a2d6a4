-- ===== src/Orders/PositionManager/Reading.antt =====
-- What `reconcile` of backend/app/position_manager.py reads from the broker's list.
use ai_trading_platform_mobi.Prelude.{
  ◌≡◌, refl, ap, ◌∙◌, inl, inr, false, Option, none, some, List, [], ◌∷◌, if◌then◌else◌, Bool-cases,
  Option-cases, is_empty, ◌>>=◌, raise_if, Ensures, ℤ, pos, Text, text_eq, text_eq_iff, strip,
  upper, Dict, lookup, contains, insert, HasUniqueKeys, lookup-insert, insert-HasUniqueKeys, finite,
  Ensures-mono, Ensures-then, Ensures-guard,
}
use ai_trading_platform_mobi.Orders.PositionManager.{
  PositionError, BrokerPosition, broker_quantity, read_broker, or_zero,
}

-- What the broker's list says of a symbol
abbrev pub broker_at : Text → List BrokerPosition → ℤ
broker_at symbol [] = pos 0
broker_at symbol (item ∷ items) =
    if text_eq symbol (upper (strip item.symbol))
    then or_zero (finite item.quantity)
    else broker_at symbol items

-- The table that is read from a list, onto another one
pub record IsRead (items : List BrokerPosition) (before broker : Dict ℤ) : Type 0 where
  pub unique : HasUniqueKeys broker
  pub quantity_is :
      (symbol : Text)
      → or_zero (lookup symbol broker) ≡ (
          if contains symbol before then or_zero (lookup symbol before) else broker_at symbol items)

first_item :
    (item : BrokerPosition) (items : List BrokerPosition) (before : Dict ℤ) (q : ℤ)
    → HasUniqueKeys before
    → contains (upper (strip item.symbol)) before ≡ false
    → finite item.quantity ≡ some q
    → (broker : Dict ℤ) → IsRead items (insert (upper (strip item.symbol)) q before) broker
    → IsRead (item ∷ items) before broker
first_item item items before q unique new number broker r = record {
  unique = r.unique;
  quantity_is = λ symbol. r.quantity_is symbol ∙ step symbol;
}
  where
    step :
        (symbol : Text)
        → (if contains symbol (insert (upper (strip item.symbol)) q before)
            then or_zero (lookup symbol (insert (upper (strip item.symbol)) q before))
            else broker_at symbol items)
          ≡ (if contains symbol before
              then or_zero (lookup symbol before)
              else broker_at symbol (item ∷ items))
    step symbol = elim (Bool-cases (text_eq symbol (upper (strip item.symbol)))) [
      | inl e ↦
          let same = (text_eq_iff symbol (upper (strip item.symbol))).0 e in
          let absent : contains symbol before ≡ false = ap (λ k. contains k before) same ∙ new in
          rw (lookup-insert (upper (strip item.symbol)) symbol q before, e, absent, number) refl
      | inr e ↦ rw (lookup-insert (upper (strip item.symbol)) symbol q before, e) refl
    ]

item_quantity :
    (item : BrokerPosition) (items : List BrokerPosition) (before : Dict ℤ) (r : Option ℤ)
    → HasUniqueKeys before
    → contains (upper (strip item.symbol)) before ≡ false
    → finite item.quantity ≡ r
    → ((q : ℤ)
        → Ensures
            (read_broker items (insert (upper (strip item.symbol)) q before))
            (IsRead items (insert (upper (strip item.symbol)) q before)))
    → Ensures
        (broker_quantity r >>= λ q. read_broker items (insert (upper (strip item.symbol)) q before))
        (IsRead (item ∷ items) before)
item_quantity item items before none unique new number rest = tt
item_quantity item items before (some q) unique new number rest =
    Ensures-mono (read_broker items (insert (upper (strip item.symbol)) q before))
      (first_item item items before q unique new number) (rest q)

pub read_broker-IsRead :
    (items : List BrokerPosition) (before : Dict ℤ)
    → HasUniqueKeys before
    → Ensures (read_broker items before) (IsRead items before)
unfolding read_broker
read_broker-IsRead [] before unique = record {
  unique = unique;
  quantity_is = λ symbol. elim (Option-cases (lookup symbol before)) [
    | inl absent ↦ rw absent refl
    | inr (q, found) ↦ rw found refl
  ];
}
read_broker-IsRead (item ∷ items) before unique =
    Ensures-then (IsRead (item ∷ items) before)
      (raise_if (is_empty (upper (strip item.symbol))) PositionError.symbol_missing) _
      (λ _.
        Ensures-guard (IsRead (item ∷ items) before) (contains (upper (strip item.symbol)) before)
          PositionError.duplicate_position _
          (λ new. item_quantity item items before (finite item.quantity) unique new refl (λ q.
            read_broker-IsRead items (insert (upper (strip item.symbol)) q before)
              (insert-HasUniqueKeys (upper (strip item.symbol)) q before unique))))
