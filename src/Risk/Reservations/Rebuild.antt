-- ===== src/Risk/Reservations/Rebuild.antt =====
-- `rebuild_from_lifecycle` of backend/app/risk_gate.py: after a restart the reservations are those of
-- the orders that are still live.
use ai_trading_platform_mobi.Prelude.{
  ◌≡◌, refl, ◌∙◌, ◌⊎◌, inl, inr, Bool, true, false, Option, none, some, [], ◌∷◌, arith,
  if◌then◌else◌, Option-cases, Result, ok, err, ◌>>=◌, Ensures, ℤ, pos, negsuc, ◌-ℤ◌, ◌*ℤ◌, ◌≤ℤ◌,
  ◌<ℤ◌, neg, ltb_ℤ, leb_ℤ, eq_ℤ, Text, codes, text_eq, text_eq_iff, upper, Dict, lookup, contains,
  insert, HasUniqueKeys, lookup-insert, Ensures-mono,
}
use ai_trading_platform_mobi.Risk.Reservations.{Book}

-- `OrderStatus` of backend/app/order_lifecycle.py.
pub data OrderStatus : Type 0 where
  created submission_intent submitted opened partially_filled filled cancelled rejected
        pending_reconciliation :
      OrderStatus

-- The fields of an `OrderRecord` that the rebuild reads.
pub record OrderView : Type 0 where
  pub side : Text
  pub quantity : ℤ
  pub status : OrderStatus
  pub filled_quantity : ℤ

pub data RebuildError : Type 0 where
  invalid_side : RebuildError

unfoldable pub is_closed : OrderStatus → Bool
is_closed OrderStatus.filled = true
is_closed OrderStatus.cancelled = true
is_closed OrderStatus.rejected = true
is_closed _ = false

-- `1 if side == "BUY" else -1 if side == "SELL" else 0`, on the upper-cased side
unfoldable pub order_sign : Text → ℤ
order_sign side =
    if text_eq (upper side) (codes "BUY")
    then pos 1
    else (if text_eq (upper side) (codes "SELL") then negsuc 0 else pos 0)

-- `max(0.0, quantity - filled)`
unfoldable pub remaining : OrderView → ℤ
remaining o =
    let left = o.quantity -ℤ o.filled_quantity in if ltb_ℤ (pos 0) left then left else pos 0

-- One round of the loop: what it stores for an order, if anything.
unfoldable pub exposure : OrderView → Result RebuildError (Option ℤ)
exposure o =
    if is_closed o.status
    then ok none
    else (if leb_ℤ (remaining o) (pos 1)
        then ok none
        else (if eq_ℤ (order_sign o.side) (pos 0)
            then err RebuildError.invalid_side
            else ok (some (order_sign o.side *ℤ remaining o))))

store : Text → Option ℤ → Book → Book
store k none b = b
store k (some x) b = insert k x b

-- The loop over `lifecycle.orders`, with `rebuilt` so far.
unfoldable pub rebuild_from : Dict OrderView → Book → Result RebuildError Book
unfolding store
rebuild_from [] rebuilt = ok rebuilt
rebuild_from ((order_id, o) ∷ orders) rebuilt =
    exposure o >>= λ x. rebuild_from orders (store order_id x rebuilt)

unfoldable pub rebuild : Dict OrderView → Result RebuildError Book
rebuild orders = rebuild_from orders []

-- What the loop stores for an order that does not raise.
unfoldable contribution : OrderView → Option ℤ
contribution o = elim (exposure o) [ ok x ↦ x | err _ ↦ none ]

abbrev first_some : Option ℤ → Option ℤ → Option ℤ
first_some none y = y
first_some (some x) _ = some x

-- The entry of `j` after the loop, from the order `j` and the entry before.
abbrev entry : Option OrderView → Option ℤ → Option ℤ
entry none old = old
entry (some o) old = first_some (contribution o) old

first_some-none : (x : Option ℤ) → first_some x none ≡ x
first_some-none none = refl
first_some-none (some x) = refl

lookup-store :
    (k j : Text) (x : Option ℤ) (b : Book)
    → lookup j (store k x b) ≡ (if text_eq j k then first_some x (lookup j b) else lookup j b)
unfolding store
lookup-store k j none b = ground arith
lookup-store k j (some x) b = ground (arith, lookup-insert k j x b)

entry-store :
    (k j : Text) (o : OrderView) (orders : Dict OrderView) (rebuilt : Book) {x : Option ℤ}
    → exposure o ≡ ok x
    → contains k orders ≡ false
    → entry (lookup j orders) (lookup j (store k x rebuilt))
      ≡ entry (lookup j ((k, o) ∷ orders)) (lookup j rebuilt)
unfolding contribution
entry-store k j o orders rebuilt {x} e h =
    ground (arith, lookup-store k j x rebuilt, text_eq_iff j k)

-- What the loop leaves: for each key, the entry of its order, or what was there before.
abbrev IsRebuilt : Dict OrderView → Book → Result RebuildError Book → Type 0
IsRebuilt orders rebuilt r =
    Ensures r (λ b. (j : Text) → lookup j b ≡ entry (lookup j orders) (lookup j rebuilt))

rebuild_from-step :
    (k : Text) (o : OrderView) (orders : Dict OrderView) (rebuilt : Book)
    (r : Result RebuildError (Option ℤ))
    → exposure o ≡ r
    → contains k orders ≡ false
    → ((x : Option ℤ)
        → IsRebuilt orders (store k x rebuilt) (rebuild_from orders (store k x rebuilt)))
    → IsRebuilt ((k, o) ∷ orders) rebuilt (r >>= λ x. rebuild_from orders (store k x rebuilt))
rebuild_from-step k o orders rebuilt (err e) p h ih = tt
rebuild_from-step k o orders rebuilt (ok x) p h ih =
    Ensures-mono (rebuild_from orders (store k x rebuilt))
      (λ b found j. found j ∙ entry-store k j o orders rebuilt p h) (ih x)

rebuild_from-lookup :
    (orders : Dict OrderView) (rebuilt : Book)
    → HasUniqueKeys orders
    → IsRebuilt orders rebuilt (rebuild_from orders rebuilt)
unfolding rebuild_from
rebuild_from-lookup [] rebuilt h = λ j. refl
rebuild_from-lookup ((k, o) ∷ orders) rebuilt h =
    rebuild_from-step k o orders rebuilt (exposure o) refl h.0
      (λ x. rebuild_from-lookup orders (store k x rebuilt) h.1)

-- What the book holds for an order, spelled out from the order itself.
pub record Reserves (o : OrderView) (found : Option ℤ) : Type 0 where
  pub closed_none : is_closed o.status ≡ true → found ≡ none
  pub done_none : o.quantity -ℤ o.filled_quantity ≤ℤ pos 1 → found ≡ none
  pub live_buy :
      is_closed o.status ≡ false
      → pos 1 <ℤ o.quantity -ℤ o.filled_quantity
      → upper o.side ≡ codes "BUY"
      → found ≡ some (o.quantity -ℤ o.filled_quantity)
  pub live_sell :
      is_closed o.status ≡ false
      → pos 1 <ℤ o.quantity -ℤ o.filled_quantity
      → upper o.side ≡ codes "SELL"
      → found ≡ some (neg (o.quantity -ℤ o.filled_quantity))

one-times : (x : ℤ) → pos 1 *ℤ x ≡ x
unfolding ◌*ℤ◌
one-times x = ground arith

minus_one-times : (x : ℤ) → negsuc 0 *ℤ x ≡ neg x
unfolding ◌*ℤ◌ neg
minus_one-times x = ground arith

order_sign-buy : (s : Text) → upper s ≡ codes "BUY" → order_sign s ≡ pos 1
unfolding order_sign
order_sign-buy s h = rw h

order_sign-sell : (s : Text) → upper s ≡ codes "SELL" → order_sign s ≡ negsuc 0
unfolding order_sign
order_sign-sell s h = rw h

contribution-Reserves : (o : OrderView) → Reserves o (contribution o)
unfolding contribution exposure remaining
contribution-Reserves o = record {
  closed_none = λ h. ground arith;
  done_none = λ h. ground arith;
  live_buy =
      λ h k e. ground (arith, order_sign-buy o.side e, one-times (o.quantity -ℤ o.filled_quantity));
  live_sell = λ h k e.
      ground (arith, order_sign-sell o.side e, minus_one-times (o.quantity -ℤ o.filled_quantity));
}

-- A rebuild that succeeds has for each order what the order itself says: nothing for a closed or
-- a fully filled order, the signed remainder for a live one; and nothing for an unknown id.
pub rebuild-Reserves :
    (orders : Dict OrderView)
    → HasUniqueKeys orders
    → Ensures (rebuild orders) (λ b.
      (j : Text)
      → ((lookup j orders ≡ none) × (lookup j b ≡ none))
        ⊎ ((o : OrderView) × (lookup j orders ≡ some o) × Reserves o (lookup j b)))
unfolding rebuild
rebuild-Reserves orders h =
    Ensures-mono (rebuild_from orders [])
      (λ b found j. elim (Option-cases (lookup j orders)) [
        | inl absent ↦ inl (absent, found j ∙ rw absent refl)
        | inr (o, here) ↦
            inr (o, here, rw (found j, here, first_some-none) (contribution-Reserves o))
      ])
      (rebuild_from-lookup orders [] h)
