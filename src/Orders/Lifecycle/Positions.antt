-- ===== src/Orders/Lifecycle/Positions.antt =====
-- `_apply_position_delta` of backend/app/order_lifecycle.py: how a fill moves the position of its
-- symbol. It raises before it changes anything.
use ai_trading_platform_mobi.Prelude.{
  Bool, true, false, not, ◌||◌, Option, none, some, if◌then◌else◌, ok, err, ℤ, pos, negsuc, ◌+ℤ◌,
  ◌-ℤ◌, ltb_ℤ, Text, codes, text_eq, Dict, lookup, insert, erase, Fraction, whole, frac_add,
  frac_sub, frac_scale, frac_div,
}
use ai_trading_platform_mobi.Orders.Lifecycle.{
  OrderRecord, PositionRecord, OrderLifecycle, LifecycleError, Outcome,
}

unfoldable pub opt_text_eq : Option Text → Option Text → Bool
opt_text_eq none none = true
opt_text_eq none (some _) = false
opt_text_eq (some _) none = false
opt_text_eq (some a) (some b) = text_eq a b

-- `d[k] = d.get(k, 0.0) + x`
unfoldable pub add_at : Text → Fraction → Dict Fraction → Dict Fraction
add_at k x d = insert k (frac_add (elim (lookup k d) [ none ↦ whole (pos 0) | some y ↦ y ]) x) d

-- `_record_realized_pnl`, where `day` is the date of the call
unfoldable pub record_realized_pnl : Text → Text → Fraction → OrderLifecycle → OrderLifecycle
record_realized_pnl day symbol pnl s = record s {
  realized_pnl_by_symbol = add_at symbol pnl s.realized_pnl_by_symbol;
  realized_pnl_by_day = add_at day pnl s.realized_pnl_by_day;
}

-- A position that a fill opens
abbrev pub new_position : OrderRecord → ℤ → Fraction → PositionRecord
new_position o quantity price = record {
  symbol = o.symbol;
  side = o.side;
  quantity = quantity;
  entry_price = price;
  exit_price = none;
  realized_pnl = whole (pos 0);
  broker_account_id = o.broker_account_id;
  broker_route = o.broker_route;
}

-- A fill on the side of the position
unfoldable pub enlarged : PositionRecord → ℤ → Fraction → PositionRecord
enlarged p quantity price =
    let total = p.quantity +ℤ quantity in
    record p {
      entry_price =
          frac_div (frac_add (frac_scale p.entry_price p.quantity) (frac_scale price quantity))
            total;
      quantity = total;
    }

unfoldable pub min_ℤ : ℤ → ℤ → ℤ
min_ℤ a b = if ltb_ℤ b a then b else a

unfoldable pub close_pnl : PositionRecord → ℤ → Fraction → Fraction
close_pnl p quantity price =
    frac_scale (frac_scale (frac_sub price p.entry_price) quantity)
      (if text_eq p.side (codes "BUY") then pos 1 else negsuc 0)

-- A fill on the other side closes the position, in part or whole, and what is left of it opens the
-- opposite one.
unfoldable pub close_position :
    OrderRecord → PositionRecord → ℤ → Fraction → Dict PositionRecord → Dict PositionRecord
close_position o p quantity price positions =
    let closing = min_ℤ p.quantity quantity in
    let left = quantity -ℤ closing in
    let kept = p.quantity -ℤ closing in
    if ltb_ℤ (pos 0) kept
    then insert o.symbol
        (record p {
          quantity = kept;
          realized_pnl = frac_add p.realized_pnl (close_pnl p closing price);
          exit_price = some price;
        })
        positions
    else (if ltb_ℤ (pos 0) left
        then insert o.symbol (new_position o left price) (erase o.symbol positions)
        else erase o.symbol positions)

-- `_apply_position_delta`, once the position of the symbol is known
unfoldable pub apply_to :
    Text
    → OrderRecord
    → ℤ
    → Fraction
    → Option PositionRecord
    → OrderLifecycle
    → Outcome OrderLifecycle
apply_to day o quantity price none s =
    ok (record s { positions = insert o.symbol (new_position o quantity price) s.positions })
apply_to day o quantity price (some p) s =
    if not (opt_text_eq p.broker_account_id o.broker_account_id)
      || not (opt_text_eq p.broker_route o.broker_route)
    then err LifecycleError.context_mismatch
    else (if text_eq p.side o.side
        then ok (record s { positions = insert o.symbol (enlarged p quantity price) s.positions })
        else ok
            (record (record_realized_pnl day o.symbol
              (close_pnl p (min_ℤ p.quantity quantity) price) s) {
                positions = close_position o p quantity price s.positions;
              }))

unfoldable pub apply_position_delta :
    Text → OrderRecord → ℤ → Fraction → OrderLifecycle → Outcome OrderLifecycle
apply_position_delta day o quantity price s =
    apply_to day o quantity price (lookup o.symbol s.positions) s
