-- ===== src/Risk/CircuitBreaker/Tests.antt =====
-- Runs of the circuit breaker.
use ai_trading_platform_mobi.Prelude.{
  ◌≡◌, refl, true, false, List, [], ◌∷◌, pos, negsuc, neg, codes,
}
use ai_trading_platform_mobi.Risk.CircuitBreaker.{
  CircuitBreakerConfig, Breaker, Conditions, daily_loss_hit, drawdown_hit, losses_hit, reasons,
  join_comma, evaluate, can_trade, make,
}
use ai_trading_platform_mobi.Risk.CircuitBreaker.Latch.{Call, calls, blocked_until_reset}

abbrev config : CircuitBreakerConfig
config = record {
  max_daily_loss = pos 500;
  max_drawdown = pos 0;
  max_consecutive_losses = pos 3;
  block_on_reconciliation_drift = true;
  block_on_stale_data = false;
}

abbrev calm : Conditions
calm = record {
  daily_pnl = pos 10;
  drawdown = pos 90;
  consecutive_losses = pos 2;
  reconciliation_drift = false;
  stale_data = true;
}

abbrev loss : Conditions
loss = record calm { daily_pnl = negsuc 499; consecutive_losses = pos 4 }

evaluate_runs :
    (can_trade (evaluate (make config) calm).0 ≡ true)
    × ((evaluate (make config) loss).1.reason ≡ codes "max_daily_loss,max_consecutive_losses")
unfolding can_trade evaluate reasons make daily_loss_hit drawdown_hit losses_hit join_comma neg
evaluate_runs = (refl, refl)

abbrev tripped : Breaker
tripped = record { config = config; is_blocked = true; why = codes "manual" }

abbrev later : List Call
later = Call.evaluating calm ∷ Call.engaging [] ∷ Call.evaluating loss ∷ []

blocked_until_reset_example : can_trade (calls tripped later) ≡ false
unfolding can_trade
blocked_until_reset_example = blocked_until_reset tripped later refl refl
