-- ===== src/Orders/Reconciler/Found.antt =====
-- `_find_local` of backend/app/order_reconciliation.py gives an order of the lifecycle.
use ai_trading_platform_mobi.Prelude.{
  ◌≡◌, refl, ap, ◌∙◌, inl, inr, not, ◌&&◌, Option, none, some, List, [], ◌∷◌, ◌++◌, Bool-cases, any,
  keep, Ensures, Text, text_eq, lookup, subst, values, All, All-mono, All-snoc, All-keep,
  values-lookup,
}
use ai_trading_platform_mobi.Orders.Lifecycle.{OrderRecord, OrderLifecycle}
use ai_trading_platform_mobi.Orders.Lifecycle.Books.{IsSoundAt, IsBooked}
use ai_trading_platform_mobi.Orders.Reconciler.{
  BrokerOrder, account_error, names, add_candidates, direct, candidates, is_absent, pick,
  find_local,
}

-- The order stands at its own id.
abbrev pub IsStored : OrderLifecycle → OrderRecord → Type 0
IsStored s o = lookup o.order_id s.orders ≡ some o

pub row_of_key :
    (k : Text) (o : OrderRecord) (s : OrderLifecycle)
    → IsBooked s
    → lookup k s.orders ≡ some o
    → IsStored s o
row_of_key k o s b found =
    ap (λ j. lookup j s.orders)
      (subst (λ r. IsSoundAt k r (lookup k s.machines)) found (b.sound k)).id_is
    ∙ found

add_candidates-All {κ} :
    (P : OrderRecord → Type κ) (remote : BrokerOrder) (found orders : List OrderRecord)
    → All P found
    → All P orders
    → All P (add_candidates remote found orders)
unfolding add_candidates
add_candidates-All P remote found [] h k = h
add_candidates-All P remote found (o ∷ orders) h k =
    elim (Bool-cases (names remote o && not (any (λ c. text_eq c.order_id o.order_id) found))) [
      | inl e ↦
          rw e (add_candidates-All P remote (found ++ (o ∷ [])) orders (All-snoc P found h k.0) k.1)
      | inr e ↦ rw e (add_candidates-All P remote found orders h k.1)
    ]

-- Every candidate is an order of the lifecycle.
candidates-IsStored :
    (remote : BrokerOrder) (s : OrderLifecycle)
    → IsBooked s
    → All (IsStored s) (candidates remote s)
unfolding candidates
candidates-IsStored remote s b =
    add_candidates-All (IsStored s) remote (direct (lookup remote.order_id s.orders))
      (values s.orders) (direct-All (lookup remote.order_id s.orders) refl)
      (All-mono (values s.orders) (λ o at. row_of_key at.0 o s b at.1)
        (values-lookup s.orders b.unique))
  where
    direct-All :
        (r : Option OrderRecord) → lookup remote.order_id s.orders ≡ r → All (IsStored s) (direct r)
    direct-All none found = tt
    direct-All (some o) found = (row_of_key remote.order_id o s b found, tt)

-- What holds of the order that is found, if there is one
abbrev pub OfFound {κ} : (OrderRecord → Type κ) → Option OrderRecord → Type κ
OfFound P none = Unit
OfFound P (some o) = P o

pick-All {κ} :
    (P : OrderRecord → Type κ) (valid found : List OrderRecord)
    → All P valid
    → All P found
    → Ensures (pick valid found) (OfFound P)
pick-All P (_ ∷ _ ∷ _) found h k = tt
pick-All P (_ ∷ []) found h k = h.0
pick-All P [] (_ ∷ _) h k = k.0
pick-All P [] [] h k = tt

pub find_local-IsStored :
    (remote : BrokerOrder) (s : OrderLifecycle)
    → IsBooked s
    → Ensures (find_local remote s) (OfFound (IsStored s))
unfolding find_local
find_local-IsStored remote s b =
    pick-All (IsStored s) (keep (λ o. is_absent (account_error o remote)) (candidates remote s))
      (candidates remote s)
      (All-keep (IsStored s) (λ o. is_absent (account_error o remote)) (candidates remote s)
        (candidates-IsStored remote s b))
      (candidates-IsStored remote s b)
