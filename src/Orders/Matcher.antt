-- ===== src/Orders/Matcher.antt =====
-- ReconciliationMatcher of backend/app/reconciliation_matcher.py: the one internal order that a
-- broker's order can be. Times are in microseconds.
pub mod Order
mod Tests
use ai_trading_platform_mobi.Prelude.{
  ◌-◌, ◌/◌, sym, ap, Bool, not, ◌&&◌, Option, none, some, List, [], ◌∷◌, leb, if◌then◌else◌,
  is_some, is_empty, keep, ok, ℤ, ◌-ℤ◌, abs, eq_ℤ, Text, text_eq, upper, den,
}
use ai_trading_platform_mobi.Orders.Lifecycle.Positions.{opt_text_eq}
use ai_trading_platform_mobi.Orders.Identities.{opt_int_eq, is_route, scoped}

pub record InternalOrderCandidate : Type 0 where
  pub client_order_id : Text
  pub symbol : Text
  pub side : Text
  pub quantity : ℤ
  pub created_at : ℤ
  pub broker_order_id : Option Text
  pub broker_account_id : Option ℤ
  pub broker_route : Option Text

pub record BrokerOrderSnapshot : Type 0 where
  pub broker_order_id : Text
  pub symbol : Text
  pub side : Text
  pub quantity : ℤ
  pub timestamp : ℤ
  pub client_order_id : Option Text
  pub broker_account_id : Option ℤ
  pub broker_route : Option Text

pub data MatchMethod : Type 0 where
  client_order_id broker_order_id strict_attributes : MatchMethod

pub record ReconciliationMatch : Type 0 where
  pub client_order_id : Text
  pub broker_order_id : Text
  pub method : MatchMethod
  pub broker_account_id : Option ℤ
  pub broker_route : Option Text

-- `_identity_matches`
unfoldable pub identity_matches : BrokerOrderSnapshot → InternalOrderCandidate → Bool
identity_matches b c =
    not (is_some b.broker_account_id && not (opt_int_eq c.broker_account_id b.broker_account_id))
    && not (is_some b.broker_route && not (opt_text_eq c.broker_route b.broker_route))

-- A client order id that is there and not empty
abbrev pub has_client : BrokerOrderSnapshot → Bool
has_client b = is_route b.client_order_id

-- The tests of the three tiers
unfoldable pub is_exact : BrokerOrderSnapshot → InternalOrderCandidate → Bool
is_exact b c = opt_text_eq (some c.client_order_id) b.client_order_id

unfoldable pub is_broker_id : BrokerOrderSnapshot → InternalOrderCandidate → Bool
is_broker_id b c = opt_text_eq c.broker_order_id (some b.broker_order_id)

unfoldable pub is_strict : BrokerOrderSnapshot → InternalOrderCandidate → Bool
is_strict b c =
    text_eq (upper c.symbol) (upper b.symbol)
    && text_eq (upper c.side) (upper b.side)
    && eq_ℤ c.quantity b.quantity
    && leb (abs (c.created_at -ℤ b.timestamp)) 300000000

-- None, one or several candidates
pub data Tier : Type 0 where
  nobody : Tier
  one : InternalOrderCandidate → Tier
  several : Tier

abbrev pub tier : List InternalOrderCandidate → Tier
tier [] = Tier.nobody
tier (c ∷ []) = Tier.one c
tier (_ ∷ _ ∷ _) = Tier.several

abbrev pub matched :
    BrokerOrderSnapshot → MatchMethod → InternalOrderCandidate → ReconciliationMatch
matched b method c = record {
  client_order_id = c.client_order_id;
  broker_order_id = b.broker_order_id;
  method = method;
  broker_account_id = b.broker_account_id;
  broker_route = b.broker_route;
}

abbrev pub match_strict : BrokerOrderSnapshot → Tier → Option ReconciliationMatch
match_strict b (Tier.one c) = some (matched b MatchMethod.strict_attributes c)
match_strict b _ = none

abbrev pub match_broker_id :
    BrokerOrderSnapshot → Tier → Option ReconciliationMatch → Option ReconciliationMatch
match_broker_id b (Tier.one c) next = some (matched b MatchMethod.broker_order_id c)
match_broker_id b Tier.several next = none
match_broker_id b Tier.nobody next = next

abbrev pub match_client :
    BrokerOrderSnapshot → Tier → Option ReconciliationMatch → Option ReconciliationMatch
match_client b (Tier.one c) next = some (matched b MatchMethod.client_order_id c)
match_client b Tier.several next = none
match_client b Tier.nobody next = next

abbrev pub scoped_to :
    BrokerOrderSnapshot → List InternalOrderCandidate → List InternalOrderCandidate
scoped_to b candidates = keep (identity_matches b) candidates

-- The tiers after the client order id
unfoldable pub match_rest :
    BrokerOrderSnapshot → List InternalOrderCandidate → Option ReconciliationMatch
match_rest b scoped =
    match_broker_id b (tier (keep (is_broker_id b) scoped))
      (match_strict b (tier (keep (is_strict b) scoped)))

-- `match`
unfoldable pub match_order :
    BrokerOrderSnapshot → List InternalOrderCandidate → Option ReconciliationMatch
match_order b candidates =
    let scoped = scoped_to b candidates in
    if is_empty scoped
    then none
    else if has_client b
    then match_client b (tier (keep (is_exact b) scoped)) (match_rest b scoped)
    else match_rest b scoped
