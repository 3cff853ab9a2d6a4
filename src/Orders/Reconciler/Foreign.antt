-- ===== src/Orders/Reconciler/Foreign.antt =====
-- When an order is of another account or route than a broker's order, for the account check of
-- backend/app/order_reconciliation.py.
use ai_trading_platform_mobi.Prelude.{
  ◌≡◌, refl, ◌≢◌, ◌⊎◌, inl, inr, true, Option, none, some, List, [], ◌∷◌, arith, is_some, all, Text,
  text_eq_iff, strip, All,
}
use ai_trading_platform_mobi.Orders.Lifecycle.{OrderRecord}
use ai_trading_platform_mobi.Orders.Lifecycle.Positions.{opt_text_eq}
use ai_trading_platform_mobi.Orders.Reconciler.{
  BrokerOrder, Reason, account_id_error, route_error, first_error, account_error,
}

-- The order has an account or a route that the broker's order does not: it has none, an empty route
-- or another one. Accounts are compared without the blanks around them.
pub data IsForeign (p : OrderRecord) (remote : BrokerOrder) : Type 0 where
  account_missing :
      {a : Text}
      → p.broker_account_id ≡ some a
      → remote.broker_account_id ≡ none
      → IsForeign p remote
  other_account :
      {a b : Text}
      → p.broker_account_id ≡ some a
      → remote.broker_account_id ≡ some b
      → strip a ≢ strip b
      → IsForeign p remote
  route_missing :
      {x : Text} → p.broker_route ≡ some x → remote.broker_route ≡ none → IsForeign p remote
  route_empty :
      {x : Text} → p.broker_route ≡ some x → remote.broker_route ≡ some [] → IsForeign p remote
  other_route :
      {x y : Text}
      → p.broker_route ≡ some x
      → remote.broker_route ≡ some y
      → x ≢ y
      → IsForeign p remote

either_error :
    (e next : Option Reason)
    → (is_some e ≡ true) ⊎ (is_some next ≡ true)
    → is_some (first_error e next) ≡ true
either_error none next (inl h) = absurd (ground arith)
either_error none next (inr h) = h
either_error (some reason) next h = refl

account_error-IsForeign :
    (p : OrderRecord) (remote : BrokerOrder)
    → IsForeign p remote
    → is_some (account_error p remote) ≡ true
unfolding account_error account_id_error route_error opt_text_eq
account_error-IsForeign p remote (IsForeign.account_missing h k) =
    either_error (account_id_error p.broker_account_id remote.broker_account_id) _
      (inl (rw (h, k) refl))
account_error-IsForeign p remote (IsForeign.other_account {a = a} {b = b} h k ne) =
    either_error (account_id_error p.broker_account_id remote.broker_account_id) _
      (inl (rw (h, k) (ground (arith, ne, text_eq_iff (strip a) (strip b)))))
account_error-IsForeign p remote (IsForeign.route_missing h k) =
    either_error _ (route_error p.broker_route remote.broker_route) (inr (rw (h, k) refl))
account_error-IsForeign p remote (IsForeign.route_empty h k) =
    either_error _ (route_error p.broker_route remote.broker_route) (inr (rw (h, k) refl))
account_error-IsForeign p remote (IsForeign.other_route {x = x} {y = y} h k ne) =
    either_error _ (route_error p.broker_route remote.broker_route)
      (inr (rw (h, k) (ground (arith, ne, text_eq_iff x y))))

pub all_foreign :
    (p : OrderRecord) (remotes : List BrokerOrder)
    → All (IsForeign p) remotes
    → all (λ r. is_some (account_error p r)) remotes ≡ true
all_foreign p [] h = refl
all_foreign p (remote ∷ remotes) h =
    ground (arith, account_error-IsForeign p remote h.0, all_foreign p remotes h.1)
