-- ===== src/Orders/Identities/Tests.antt =====
-- Runs of the identity registry on two brokers.
use ai_trading_platform_mobi.Prelude.{◌≡◌, refl, none, some, [], ◌∷◌, ok, pos, Text, codes}
use ai_trading_platform_mobi.Orders.Identities.{
  OrderIdentity, validate_scope, insert_or_ignore, bind, by_client, by_broker,
}
use ai_trading_platform_mobi.Orders.Identities.Binding.{bind-lookups, bind-ignored}

abbrev identity : Text → Text → OrderIdentity
identity client broker = record {
  client_order_id = client;
  broker = broker;
  broker_order_id = codes "42";
  broker_account_id = some (pos 7);
  broker_route = some broker;
}

abbrev dhan : OrderIdentity
dhan = identity (codes "C1") (codes "DHAN")

abbrev upstox : OrderIdentity
upstox = identity (codes "C2") (codes "UPSTOX")

binds_first : bind dhan [] ≡ ok (dhan ∷ [])
unfolding bind validate_scope insert_or_ignore
binds_first = refl

ignores_second : bind upstox (dhan ∷ []) ≡ ok (dhan ∷ [])
unfolding bind validate_scope insert_or_ignore
ignores_second = refl

bind-lookups_example :
    (by_client (codes "C1") (some (pos 7)) (some (codes "DHAN")) (dhan ∷ []) ≡ some dhan)
    × (by_broker (codes "DHAN") (codes "42") (some (pos 7)) (some (codes "DHAN")) (dhan ∷ [])
        ≡ some dhan)
bind-lookups_example = bind-lookups dhan [] (dhan ∷ []) binds_first refl

bind-ignored_example :
    (dhan ∷ [] ≡ dhan ∷ []) × (by_client (codes "C2") none none (dhan ∷ []) ≡ none)
bind-ignored_example = bind-ignored upstox (dhan ∷ []) (dhan ∷ []) ignores_second refl refl
