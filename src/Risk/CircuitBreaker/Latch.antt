-- ===== src/Risk/CircuitBreaker/Latch.antt =====
-- The circuit breaker of backend/app/risk_circuit_breaker.py latches.
use ai_trading_platform_mobi.Prelude.{
  ◌≡◌, ◌↔◌, ◌⊎◌, inl, inr, Bool, true, false, List, [], ◌∷◌, arith, is_empty, any, Result, ok, err,
  pos, ◌+ℤ◌, ◌≤ℤ◌, ◌<ℤ◌, neg, Text,
}
use ai_trading_platform_mobi.Risk.CircuitBreaker.{
  CircuitBreakerConfig, Breaker, Conditions, daily_loss_hit, drawdown_hit, losses_hit, reasons,
  evaluate, can_trade, ReasonRequired, engage, reset,
}

-- A call of the breaker.
pub data Call : Type 0 where
  evaluating : Conditions → Call
  engaging : Text → Call
  resetting : Call

engaged : Breaker → Result ReasonRequired Breaker → Breaker
engaged b (ok b') = b'
engaged b (err _) = b

unfoldable pub call : Breaker → Call → Breaker
unfolding engaged
call b (Call.evaluating c) = (evaluate b c).0
call b (Call.engaging t) = engaged b (engage b t)
call b Call.resetting = reset b

unfoldable pub calls : Breaker → List Call → Breaker
calls b [] = b
calls b (c ∷ cs) = calls (call b c) cs

abbrev pub is_reset : Call → Bool
is_reset Call.resetting = true
is_reset _ = false

-- A limit is breached: the condition that is configured holds of what is observed.
abbrev pub Breaches : CircuitBreakerConfig → Conditions → Type 0
Breaches f c =
    ((pos 0 <ℤ f.max_daily_loss) × (c.daily_pnl +ℤ f.max_daily_loss ≤ℤ pos 0))
    ⊎ ((pos 0 <ℤ f.max_drawdown) × (f.max_drawdown ≤ℤ c.drawdown))
    ⊎ ((pos 0 <ℤ f.max_consecutive_losses) × (f.max_consecutive_losses ≤ℤ c.consecutive_losses))
    ⊎ ((f.block_on_reconciliation_drift ≡ true) × (c.reconciliation_drift ≡ true))
    ⊎ ((f.block_on_stale_data ≡ true) × (c.stale_data ≡ true))

daily_loss_hit_lem :
    (f : CircuitBreakerConfig) (c : Conditions)
    → (daily_loss_hit f c ≡ true)
      ↔ ((pos 0 <ℤ f.max_daily_loss) × (c.daily_pnl +ℤ f.max_daily_loss ≤ℤ pos 0))
unfolding daily_loss_hit neg ◌+ℤ◌
daily_loss_hit_lem f c = (λ h. ground arith, λ h. ground arith)

drawdown_hit_lem :
    (f : CircuitBreakerConfig) (c : Conditions)
    → (drawdown_hit f c ≡ true) ↔ ((pos 0 <ℤ f.max_drawdown) × (f.max_drawdown ≤ℤ c.drawdown))
unfolding drawdown_hit
drawdown_hit_lem f c = (λ h. ground arith, λ h. ground arith)

losses_hit_lem :
    (f : CircuitBreakerConfig) (c : Conditions)
    → (losses_hit f c ≡ true)
      ↔ ((pos 0 <ℤ f.max_consecutive_losses) × (f.max_consecutive_losses ≤ℤ c.consecutive_losses))
unfolding losses_hit
losses_hit_lem f c = (λ h. ground arith, λ h. ground arith)

-- Some reason is noted exactly when one of the five tests passes.
reasons_found :
    (f : CircuitBreakerConfig) (c : Conditions)
    → (is_empty (reasons f c) ≡ false) ↔ (
        (daily_loss_hit f c ≡ true)
        ⊎ (drawdown_hit f c ≡ true)
        ⊎ (losses_hit f c ≡ true)
        ⊎ ((f.block_on_reconciliation_drift ≡ true) × (c.reconciliation_drift ≡ true))
        ⊎ ((f.block_on_stale_data ≡ true) × (c.stale_data ≡ true)))
unfolding reasons
reasons_found f c = (λ h. ground arith, λ h. ground arith)

-- Some reason is noted exactly when a limit is breached.
reasons-Breaches :
    (f : CircuitBreakerConfig) (c : Conditions) → (is_empty (reasons f c) ≡ false) ↔ Breaches f c
reasons-Breaches f c = (
  λ h. elim ((reasons_found f c).0 h) [
    | inl x ↦ inl ((daily_loss_hit_lem f c).0 x)
    | inr (inl x) ↦ inr (inl ((drawdown_hit_lem f c).0 x))
    | inr (inr (inl x)) ↦ inr (inr (inl ((losses_hit_lem f c).0 x)))
    | inr (inr (inr x)) ↦ inr (inr (inr x))
  ],
  λ h. (reasons_found f c).1 (elim h [
    | inl x ↦ inl ((daily_loss_hit_lem f c).1 x)
    | inr (inl x) ↦ inr (inl ((drawdown_hit_lem f c).1 x))
    | inr (inr (inl x)) ↦ inr (inr (inl ((losses_hit_lem f c).1 x)))
    | inr (inr (inr x)) ↦ inr (inr (inr x))
  ]),
)

evaluate-blocked :
    (b : Breaker) (c : Conditions)
    → (can_trade (evaluate b c).0 ≡ false)
      ↔ ((b.is_blocked ≡ true) ⊎ (is_empty (reasons b.config c) ≡ false))
unfolding can_trade evaluate
evaluate-blocked b c = (λ h. ground arith, λ h. ground arith)

-- After an evaluation the breaker blocks trading exactly when it did before or a limit is
-- breached: a configured loss or drawdown limit is reached, or a configured drift or stale-data
-- signal is on.
pub evaluate_blocks_iff :
    (b : Breaker) (c : Conditions)
    → (can_trade (evaluate b c).0 ≡ false) ↔ ((b.is_blocked ≡ true) ⊎ Breaches b.config c)
evaluate_blocks_iff b c = (
  λ h. elim ((evaluate-blocked b c).0 h) [
    | inl x ↦ inl x
    | inr x ↦ inr ((reasons-Breaches b.config c).0 x)
  ],
  λ h.
      (evaluate-blocked b c).1
        (elim h [ inl x ↦ inl x | inr x ↦ inr ((reasons-Breaches b.config c).1 x) ]),
)

call-blocked :
    (b : Breaker) (c : Call)
    → is_reset c ≡ false
    → can_trade b ≡ false
    → can_trade (call b c) ≡ false
unfolding can_trade call evaluate engage
call-blocked b (Call.evaluating c) h k = ground arith
call-blocked b (Call.engaging t) h k = ground arith
call-blocked b Call.resetting h k = cc

-- Once trading is blocked, it stays blocked through any calls among which there is no reset.
pub blocked_until_reset :
    (b : Breaker) (cs : List Call)
    → can_trade b ≡ false
    → any is_reset cs ≡ false
    → can_trade (calls b cs) ≡ false
unfolding calls
blocked_until_reset b [] k h = k
blocked_until_reset b (c ∷ cs) k h =
    blocked_until_reset (call b c) cs (call-blocked b c (ground arith) k) (ground arith)
