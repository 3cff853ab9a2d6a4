-- ===== src/Risk/CircuitBreaker.antt =====
-- The circuit breaker, backend/app/risk_circuit_breaker.py. Money counts units of 1e-9; the lock
-- makes each method one step.
pub mod Latch
mod Tests
use ai_trading_platform_mobi.Prelude.{
  ◌+◌, ◌-◌, ◌/◌, max, ap, Bool, true, false, not, ◌&&◌, List, [], ◌∷◌, ◌++◌, ltb, leb,
  if◌then◌else◌, is_empty, Result, ok, err, ℤ, pos, neg, abs, ltb_ℤ, leb_ℤ, Text, codes,
}

pub record CircuitBreakerConfig : Type 0 where
  pub max_daily_loss : ℤ
  pub max_drawdown : ℤ
  pub max_consecutive_losses : ℤ
  pub block_on_reconciliation_drift : Bool
  pub block_on_stale_data : Bool

pub record CircuitBreakerStatus : Type 0 where
  pub blocked : Bool
  pub reason : Text

pub record Breaker : Type 0 where
  pub config : CircuitBreakerConfig
  pub is_blocked : Bool
  pub why : Text

-- The arguments of `evaluate`.
pub record Conditions : Type 0 where
  pub daily_pnl : ℤ
  pub drawdown : ℤ
  pub consecutive_losses : ℤ
  pub reconciliation_drift : Bool
  pub stale_data : Bool

unfoldable pub daily_loss_hit : CircuitBreakerConfig → Conditions → Bool
daily_loss_hit f c =
    ltb_ℤ (pos 0) f.max_daily_loss && leb_ℤ c.daily_pnl (neg (pos (abs f.max_daily_loss)))

unfoldable pub drawdown_hit : CircuitBreakerConfig → Conditions → Bool
drawdown_hit f c = ltb_ℤ (pos 0) f.max_drawdown && leb_ℤ (pos (abs f.max_drawdown)) c.drawdown

unfoldable pub losses_hit : CircuitBreakerConfig → Conditions → Bool
losses_hit f c =
    ltb_ℤ (pos 0) f.max_consecutive_losses && leb_ℤ f.max_consecutive_losses c.consecutive_losses

-- `if hit: reasons.append(name)`, before the reasons that come later
abbrev note : Bool → Text → List Text → List Text
note hit name later = if hit then name ∷ later else later

unfoldable pub reasons : CircuitBreakerConfig → Conditions → List Text
reasons f c = note (daily_loss_hit f c) (codes "max_daily_loss") (
    note (drawdown_hit f c) (codes "max_drawdown") (
      note (losses_hit f c) (codes "max_consecutive_losses") (
        note (f.block_on_reconciliation_drift && c.reconciliation_drift)
          (codes "reconciliation_drift")
          (note (f.block_on_stale_data && c.stale_data) (codes "stale_data") []))))

-- `",".join(reasons)`
pub join_comma : List Text → Text
join_comma [] = []
join_comma (t ∷ []) = t
join_comma (t ∷ u ∷ ts) = t ++ b',' ∷ join_comma (u ∷ ts)

unfoldable pub status : Breaker → CircuitBreakerStatus
status b = record { blocked = b.is_blocked; reason = b.why }

unfoldable pub evaluate : Breaker → Conditions → Breaker × CircuitBreakerStatus
unfolding status
evaluate b c =
    let found = reasons b.config c in
    let b' = if is_empty found then b else record b { is_blocked = true; why = join_comma found } in
    (b', status b')

unfoldable pub can_trade : Breaker → Bool
can_trade b = not b.is_blocked

pub data ReasonRequired : Type 0 where
  reason_required : ReasonRequired

unfoldable pub engage : Breaker → Text → Result ReasonRequired Breaker
engage b reason =
    if is_empty reason
    then err ReasonRequired.reason_required
    else ok (record b { is_blocked = true; why = reason })

unfoldable pub reset : Breaker → Breaker
reset b = record b { is_blocked = false; why = [] }

-- `TradingRiskCircuitBreaker(config)`
unfoldable pub make : CircuitBreakerConfig → Breaker
make f = record { config = f; is_blocked = false; why = [] }
