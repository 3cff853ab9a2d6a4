-- ===== src/Orders/Matcher/Tests.antt =====
-- Runs of the matcher on two candidates.
use mathlib.Core.List.{Memᴰ, Permᴰ}
use ai_trading_platform_mobi.Prelude.{
  ◌≡◌, refl, Option, none, some, [], ◌∷◌, pos, ◌-ℤ◌, Text, codes, upper,
}
use ai_trading_platform_mobi.Orders.Matcher.{
  InternalOrderCandidate, BrokerOrderSnapshot, MatchMethod, ReconciliationMatch, identity_matches,
  is_broker_id, is_strict, matched, match_rest, match_order,
}
use ai_trading_platform_mobi.Orders.Lifecycle.Positions.{opt_text_eq}
use ai_trading_platform_mobi.Orders.Matcher.Order.{match_order-Perm, IsOwn, match_order-IsMatchIn}

abbrev candidate : Text → Option Text → InternalOrderCandidate
candidate client broker = record {
  client_order_id = client;
  symbol = codes "INFY";
  side = codes "BUY";
  quantity = pos 10;
  created_at = pos 0;
  broker_order_id = broker;
  broker_account_id = some (pos 7);
  broker_route = none;
}

abbrev snapshot : BrokerOrderSnapshot
snapshot = record {
  broker_order_id = codes "B1";
  symbol = codes "infy";
  side = codes "buy";
  quantity = pos 10;
  timestamp = pos 1000000;
  client_order_id = none;
  broker_account_id = some (pos 7);
  broker_route = none;
}

abbrev first_candidate : InternalOrderCandidate
first_candidate = candidate (codes "A1") (some (codes "B1"))

abbrev second_candidate : InternalOrderCandidate
second_candidate = candidate (codes "A2") none

abbrev found_match : ReconciliationMatch
found_match = matched snapshot MatchMethod.broker_order_id first_candidate

matches_first : match_order snapshot (first_candidate ∷ second_candidate ∷ []) ≡ some found_match
unfolding match_order identity_matches match_rest is_broker_id opt_text_eq
matches_first = refl

-- Two strict candidates are not told apart.
matches_nobody : match_order snapshot (second_candidate ∷ second_candidate ∷ []) ≡ none
unfolding match_order identity_matches match_rest is_broker_id is_strict opt_text_eq upper ◌-ℤ◌
matches_nobody = refl

match_order-Perm_example :
    match_order snapshot (first_candidate ∷ second_candidate ∷ [])
    ≡ match_order snapshot (second_candidate ∷ first_candidate ∷ [])
match_order-Perm_example =
    match_order-Perm snapshot (first_candidate ∷ second_candidate ∷ [])
      (second_candidate ∷ first_candidate ∷ []) (Permᴰ.swap refl refl)

match_order-IsMatchIn_example :
    ((c : InternalOrderCandidate) × Memᴰ c (first_candidate ∷ second_candidate ∷ [])
      × IsOwn snapshot found_match c)
    × (found_match.broker_order_id ≡ snapshot.broker_order_id)
match_order-IsMatchIn_example =
    match_order-IsMatchIn snapshot (first_candidate ∷ second_candidate ∷ []) found_match
      matches_first
