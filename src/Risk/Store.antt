-- ===== src/Risk/Store.antt =====
-- RiskReservationStore of backend/app/risk_reservation_store.py: durable reservations of exposure for
-- a broker account and route. Its table is a list of rows, and a transaction is one step. Decimals
-- count units of 1e-9 and are exact, and a row keeps what the column rounds them to.
pub mod Exposure
pub mod Steps
pub mod History
mod Tests
use ai_trading_platform_mobi.Prelude.{
  ℕ, zero, suc, ◌+◌, ◌-◌, ◌*◌, ◌/◌, min, ap, Bool, true, false, not, ◌&&◌, ◌||◌, Option, none, some,
  List, [], ◌∷◌, ◌++◌, map, ltb, leb, ◌==◌, if◌then◌else◌, is_some, is_empty, any, keep, Result, ok,
  err, ◌>>=◌, ◌>>◌, raise_if, ℤ, pos, negsuc, ◌+ℤ◌, neg, ltb_ℤ, leb_ℤ, eq_ℤ, Text, codes, text_eq,
  strip, upper, insert, Value, num, non_finite, not_numeric, finite,
}

pub record Row : Type 0 where
  pub reservation_id : Text
  pub client_order_id : Text
  pub broker_account_id : Text
  pub broker_route : Text
  -- As the column has it
  pub amount : ℤ
  -- ACTIVE, and RELEASED otherwise
  pub is_active : Bool

abbrev pub Table : Type 0
Table = List Row

pub data StoreError : Type 0 where
  scope_required : StoreError
  client_order_required : StoreError
  not_finite : StoreError
  bad_amount : StoreError
  over_limit : StoreError
  over_concurrent_limit : StoreError
  reservation_id_required : StoreError
  already_reserved : StoreError
  already_released : StoreError
  not_created_safely : StoreError
  unknown_reservation : StoreError
  ambiguous_state : StoreError
  remaining_required : StoreError
  negative_remaining : StoreError
  increased : StoreError

abbrev pub Outcome : Type 0 → Type 0
Outcome A = Result StoreError A

-- `_decimal`
abbrev pub decimal : Value → Outcome ℤ
decimal (num x) = ok x
decimal non_finite = err StoreError.not_finite
decimal not_numeric = err StoreError.not_finite

-- What the column `amount`, a Numeric(24, 8), keeps of a decimal: PostgreSQL rounds to eight places,
-- halves away from zero.
unfoldable pub to_column : ℤ → ℤ
to_column (pos n) = pos ((n + 5) / 10 * 10)
to_column (negsuc n) = neg (pos ((suc n + 5) / 10 * 10))

-- The row of a client order, and the row of a reservation.
unfoldable pub find_client : Text → Table → Option Row
find_client k [] = none
find_client k (r ∷ t) = if text_eq k r.client_order_id then some r else find_client k t

unfoldable pub find_id : Text → Table → Option Row
find_id k [] = none
find_id k (r ∷ t) = if text_eq k r.reservation_id then some r else find_id k t

abbrev pub in_scope : Text → Text → Row → Bool
in_scope account route r =
    text_eq r.broker_account_id account && text_eq r.broker_route route && r.is_active

-- The sum over the active rows of an account and route
unfoldable pub active_sum : Text → Text → Table → ℤ
active_sum account route [] = pos 0
active_sum account route (r ∷ t) =
    if in_scope account route r
    then r.amount +ℤ active_sum account route t
    else active_sum account route t

-- `active_amount`
unfoldable pub active_amount : Text → Text → Table → Outcome ℤ
active_amount account route t = do
  let a = strip account
  let r = strip route
  raise_if (is_empty a || is_empty r) StoreError.scope_required
  ok (active_sum a r t)

abbrev pub given_or : Option Text → Text → Text
given_or none fresh = fresh
given_or (some t) fresh = if is_empty t then fresh else t

-- What `reserve` does with the row of a client order that is there
unfoldable pub reserve_existing : Row → Text → Text → ℤ → Table → Outcome (Text × Table)
reserve_existing r account route amount t = do
  raise_if (not r.is_active) StoreError.already_released
  raise_if
      (not (text_eq r.broker_account_id account)
        || not (text_eq r.broker_route route)
        || not (eq_ℤ r.amount amount))
      StoreError.already_reserved
  ok (r.reservation_id, t)

-- Its insertion, once the client order has no row
unfoldable pub reserve_new : Text → Text → Text → Text → ℤ → ℤ → ℤ → Table → Outcome (Text × Table)
reserve_new rid client account route amount current limit t = do
  raise_if (ltb_ℤ limit (current +ℤ active_sum account route t +ℤ amount))
      StoreError.over_concurrent_limit
  raise_if (is_some (find_id rid t)) StoreError.not_created_safely
  ok (
    rid,
    t
        ++ (record {
          reservation_id = rid;
          client_order_id = client;
          broker_account_id = account;
          broker_route = route;
          amount = to_column amount;
          is_active = true;
        }
            ∷ []),
  )

-- `reserve`; `fresh` is the id that `uuid4` makes.
unfoldable pub reserve :
    Option Text → Text → Text → Text → Text → Value → Value → Value → Table → Outcome (Text × Table)
reserve reservation_id fresh client account route amount current limit t = do
  let c = strip client
  raise_if (is_empty c) StoreError.client_order_required
  amount_d ← decimal amount
  current_d ← decimal current
  limit_d ← decimal limit
  raise_if (leb_ℤ amount_d (pos 0) || ltb_ℤ current_d (pos 0) || ltb_ℤ limit_d (pos 0))
      StoreError.bad_amount
  raise_if (ltb_ℤ limit_d (current_d +ℤ amount_d)) StoreError.over_limit
  let a = strip account
  let r = strip route
  raise_if (is_empty a || is_empty r) StoreError.scope_required
  let rid = strip (given_or reservation_id fresh)
  raise_if (is_empty rid) StoreError.reservation_id_required
  elim (find_client c t) [
    | some existing ↦ reserve_existing existing a r amount_d t
    | none ↦ reserve_new rid c a r amount_d current_d limit_d t
  ]

-- A change of the row of a reservation
unfoldable pub update_row : Text → (Row → Row) → Table → Table
update_row k f [] = []
update_row k f (r ∷ t) = if text_eq k r.reservation_id then f r ∷ t else r ∷ update_row k f t

abbrev pub released : Row → Row
released r = record r { is_active = false }

abbrev pub with_amount : ℤ → Row → Row
with_amount x r = record r { amount = x }

-- `release`
unfoldable pub release : Text → Table → Outcome Table
release reservation_id t = do
  let rid = strip reservation_id
  raise_if (is_empty rid) StoreError.reservation_id_required
  elim (find_id rid t) [
    | none ↦ err StoreError.unknown_reservation
    | some r ↦ if r.is_active then ok (update_row rid released t) else ok t
  ]

-- `.replace("-", "_").replace(" ", "_")`
underscore : ℕ → ℕ
underscore c = if c == 45 || c == 32 then 95 else c

unfoldable pub normalize_status : Text → Text
unfolding underscore
normalize_status s = map underscore (upper (strip s))

-- `TERMINAL`
unfoldable pub is_terminal : Text → Bool
is_terminal s = any (text_eq s) (codes "FILLED" ∷ codes "CANCELLED" ∷ codes "REJECTED" ∷ [])

-- The last part of `reconcile`: a partial fill. The flag tells whether the reservation is active.
unfoldable pub reconcile_partial : Row → Text → Option Value → Table → Outcome (Bool × Table)
reconcile_partial r rid none t = err StoreError.remaining_required
reconcile_partial r rid (some value) t = do
  remaining ← decimal value
  raise_if (ltb_ℤ remaining (pos 0)) StoreError.negative_remaining
  raise_if (ltb_ℤ r.amount remaining) StoreError.increased
  if eq_ℤ remaining (pos 0)
      then ok (false, update_row rid released t)
      else ok (true, update_row rid (with_amount (to_column remaining)) t)

unfoldable pub reconcile_row : Row → Text → Text → Option Value → Table → Outcome (Bool × Table)
reconcile_row r rid status remaining t =
    if not r.is_active
    then ok (false, t)
    else (if is_terminal status
        then ok (false, update_row rid released t)
        else (if not (text_eq status (codes "PARTIALLY_FILLED"))
            then err StoreError.ambiguous_state
            else reconcile_partial r rid remaining t))

-- `reconcile`
unfoldable pub reconcile : Text → Text → Option Value → Table → Outcome (Bool × Table)
reconcile reservation_id broker_status remaining t = do
  let rid = strip reservation_id
  raise_if (is_empty rid) StoreError.reservation_id_required
  elim (find_id rid t) [
    | none ↦ err StoreError.unknown_reservation
    | some r ↦ reconcile_row r rid (normalize_status broker_status) remaining t
  ]

-- `reconcile_client_order`
unfoldable pub reconcile_client_order :
    Text → Text → Option Value → Table → Outcome (Option Bool × Table)
reconcile_client_order client broker_status remaining t = do
  let c = strip client
  raise_if (is_empty c) StoreError.client_order_required
  elim (find_client c t) [
    | none ↦ ok (none, t)
    | some r ↦ reconcile r.reservation_id broker_status remaining t >>= λ x. ok (some x.0, x.1)
  ]
