-- ===== src/Orders/PositionManager/Levels.antt =====
-- `open`, `mark` and `partial_exit` of backend/app/position_manager.py keep positions well formed.
use ai_trading_platform_mobi.Prelude.{
  ◌≡◌, refl, inl, inr, true, false, not, ◌&&◌, ◌||◌, Option, none, some, List, [], ◌∷◌, arith,
  Bool-cases, Option-cases, Result, ok, err, raise_if, Ensures, ℤ, pos, negsuc, ◌-ℤ◌, ◌*ℤ◌, ◌<ℤ◌,
  ltb_ℤ, leb_ℤ, eq_ℤ, int_laws, Text, codes, text_eq, upper, Dict, lookup, insert, lookup-insert,
  Ensures-then, subst, Ensures-guard, eq_ℤ_path,
}
use ai_trading_platform_mobi.Orders.PositionManager.{
  Position, PositionManager, PositionError, given, is_buy, is_open_at, new_position, open_position,
  direction_of, profit, mark, exited, exit_position, partial_exit,
}

-- The stop is on the side of a loss and the target on the side of a profit.
abbrev pub HasLevels : Position → Type 0
HasLevels p =
    (is_buy p.side ≡ true
      → (given (λ x. leb_ℤ p.avg_entry x) p.stop ≡ false)
        × (given (λ x. leb_ℤ x p.avg_entry) p.target ≡ false))
    × (is_buy p.side ≡ false
        → (given (λ x. leb_ℤ x p.avg_entry) p.stop ≡ false)
          × (given (λ x. leb_ℤ p.avg_entry x) p.target ≡ false))

-- An open position holds something, and a closed one nothing, also no unrealized profit.
pub record IsWellFormed (p : Position) : Type 0 where
  pub side_is : (is_buy p.side || text_eq p.side (codes "SELL")) ≡ true
  pub held : p.is_open ≡ true → pos 0 <ℤ p.quantity
  pub empty : p.is_open ≡ false → (p.quantity ≡ pos 0) × (p.unrealized_pnl ≡ pos 0)
  pub levels : HasLevels p

abbrev pub IsWellFormedAt : Option Position → Type 0
IsWellFormedAt none = Unit
IsWellFormedAt (some p) = IsWellFormed p

abbrev pub AreWellFormed : PositionManager → Type 0
AreWellFormed s = (symbol : Text) → IsWellFormedAt (lookup symbol s.positions)

written_at :
    (k : Text) (p : Position) (d : Dict Position)
    → ((symbol : Text) → IsWellFormedAt (lookup symbol d))
    → IsWellFormed p
    → (symbol : Text) → IsWellFormedAt (lookup symbol (insert k p d))
written_at k p d h new symbol = elim (Bool-cases (text_eq symbol k)) [
  | inl e ↦ rw (lookup-insert k symbol p d, e) new
  | inr e ↦ rw (lookup-insert k symbol p d, e) (h symbol)
]

open_position-AreWellFormed :
    (symbol side : Text) (quantity price : ℤ) (stop target : Option ℤ) (s : PositionManager)
    → AreWellFormed s
    → Ensures (open_position symbol side quantity price stop target s) AreWellFormed
unfolding open_position
open_position-AreWellFormed symbol side quantity price stop target s h =
    Ensures-guard AreWellFormed (leb_ℤ quantity (pos 0) || leb_ℤ price (pos 0))
      PositionError.invalid_position _
      (λ some_held.
        Ensures-guard AreWellFormed
          (not (is_buy (upper side) || text_eq (upper side) (codes "SELL")))
          PositionError.invalid_side _
          (λ sided.
            Ensures-then AreWellFormed
              (raise_if (given (λ x. leb_ℤ x (pos 0)) stop || given (λ x. leb_ℤ x (pos 0)) target)
                PositionError.level_not_positive)
              _
              (λ _.
                Ensures-guard AreWellFormed (is_buy (upper side) && given (λ x. leb_ℤ price x) stop)
                  PositionError.long_stop _
                  (λ a.
                    Ensures-guard AreWellFormed
                      (is_buy (upper side) && given (λ x. leb_ℤ x price) target)
                      PositionError.long_target _
                      (λ b.
                        Ensures-guard AreWellFormed
                          (not (is_buy (upper side)) && given (λ x. leb_ℤ x price) stop)
                          PositionError.short_stop _
                          (λ c.
                            Ensures-guard AreWellFormed
                              (not (is_buy (upper side)) && given (λ x. leb_ℤ price x) target)
                              PositionError.short_target _
                              (λ d.
                                Ensures-then AreWellFormed
                                  (raise_if (is_open_at (lookup (upper symbol) s.positions))
                                    PositionError.already_open)
                                  _
                                  (λ _.
                                    written_at (upper symbol)
                                      (new_position (upper symbol) (upper side) quantity price stop
                                        target)
                                      s.positions h
                                      (record {
                                        side_is = ground arith;
                                        held = λ _. ground arith;
                                        empty = λ closed. absurd (ground arith);
                                        levels = (
                                          λ buy. (ground arith, ground arith),
                                          λ sell. (ground arith, ground arith),
                                        );
                                      })))))))))

times_zero : (a : ℤ) → a *ℤ pos 0 ≡ pos 0
unfolding ◌*ℤ◌
times_zero (pos n) = ground arith
times_zero (negsuc n) = ground arith

zero_times : (a : ℤ) → pos 0 *ℤ a ≡ pos 0
unfolding ◌*ℤ◌
zero_times (pos n) = ground arith
zero_times (negsuc n) = ground arith

no_profit : (p : Position) (quantity price : ℤ) → quantity ≡ pos 0 → profit p quantity price ≡ pos 0
no_profit p quantity price e =
    rw (e, times_zero (price -ℤ p.avg_entry)) (zero_times (direction_of p))

mark-AreWellFormed :
    (symbol : Text) (price : ℤ) (s : PositionManager)
    → AreWellFormed s
    → Ensures (mark symbol price s) AreWellFormed
unfolding mark
mark-AreWellFormed symbol price s h =
    Ensures-then AreWellFormed (raise_if (leb_ℤ price (pos 0)) PositionError.price_not_positive) _
      (λ _. elim (Option-cases (lookup (upper symbol) s.positions)) [
        | inl absent ↦ rw absent tt
        | inr (p, found) ↦
            let old : IsWellFormed p = subst IsWellFormedAt found (h (upper symbol)) in
            rw found (
              written_at (upper symbol) (record p { unrealized_pnl = profit p p.quantity price })
                s.positions h
                (record {
                  side_is = old.side_is;
                  held = old.held;
                  empty = λ closed.
                      ((old.empty closed).0, no_profit p p.quantity price (old.empty closed).0);
                  levels = old.levels;
                }))
      ])

exited-IsWellFormed :
    (p : Position) (quantity price : ℤ)
    → IsWellFormed p
    → ltb_ℤ p.quantity quantity ≡ false
    → p.is_open ≡ true
    → IsWellFormed (exited p quantity price)
unfolding exited
exited-IsWellFormed p quantity price old enough opened =
    elim (Bool-cases (eq_ℤ (p.quantity -ℤ quantity) (pos 0))) [
      | inl e ↦ rw e (record {
        side_is = old.side_is;
        held = λ o. absurd (ground arith);
        empty = λ _. (eq_ℤ_path (p.quantity -ℤ quantity) (pos 0) e, refl);
        levels = old.levels;
      })
      | inr e ↦ rw e (record {
        side_is = old.side_is;
        held = λ _. grind int_laws;
        empty = λ closed. absurd (ground arith);
        levels = old.levels;
      })
    ]

partial_exit-AreWellFormed :
    (symbol : Text) (quantity price : ℤ) (s : PositionManager)
    → AreWellFormed s
    → Ensures (partial_exit symbol quantity price s) AreWellFormed
unfolding partial_exit
partial_exit-AreWellFormed symbol quantity price s h =
    exits (lookup (upper symbol) s.positions) refl
  where
    exits :
        (r : Option Position)
        → lookup (upper symbol) s.positions ≡ r
        → Ensures (exit_position (upper symbol) quantity price s r) AreWellFormed
    exits none found = tt
    exits (some p) found =
        Ensures-guard AreWellFormed
          (not p.is_open
            || leb_ℤ quantity (pos 0)
            || ltb_ℤ p.quantity quantity
            || leb_ℤ price (pos 0))
          PositionError.invalid_exit _
          (λ passed. written_at (upper symbol) (exited p quantity price) s.positions h (
            exited-IsWellFormed p quantity price (subst IsWellFormedAt found (h (upper symbol)))
              (ground arith) (ground arith)))

pub data Call : Type 0 where
  open_call : Text → Text → ℤ → ℤ → Option ℤ → Option ℤ → Call
  mark_call : Text → ℤ → Call
  exit_call : Text → ℤ → ℤ → Call

abbrev pub execute : Call → PositionManager → Result PositionError PositionManager
execute (Call.open_call symbol side quantity price stop target) s =
    open_position symbol side quantity price stop target s
execute (Call.mark_call symbol price) s = mark symbol price s
execute (Call.exit_call symbol quantity price) s = partial_exit symbol quantity price s

-- A call that raises changes nothing.
abbrev pub kept : PositionManager → Result PositionError PositionManager → PositionManager
kept s (ok t) = t
kept s (err _) = s

abbrev pub run : List Call → PositionManager → PositionManager
run [] s = s
run (c ∷ calls) s = run calls (kept s (execute c s))

kept-AreWellFormed :
    (s : PositionManager) (r : Result PositionError PositionManager)
    → AreWellFormed s
    → Ensures r AreWellFormed
    → AreWellFormed (kept s r)
kept-AreWellFormed s (ok t) h k = k
kept-AreWellFormed s (err _) h k = h

execute-AreWellFormed :
    (c : Call) (s : PositionManager) → AreWellFormed s → Ensures (execute c s) AreWellFormed
execute-AreWellFormed (Call.open_call symbol side quantity price stop target) s h =
    open_position-AreWellFormed symbol side quantity price stop target s h
execute-AreWellFormed (Call.mark_call symbol price) s h = mark-AreWellFormed symbol price s h
execute-AreWellFormed (Call.exit_call symbol quantity price) s h =
    partial_exit-AreWellFormed symbol quantity price s h

-- Positions stay well formed through any calls.
pub run-AreWellFormed :
    (calls : List Call) (s : PositionManager) → AreWellFormed s → AreWellFormed (run calls s)
run-AreWellFormed [] s h = h
run-AreWellFormed (c ∷ calls) s h =
    run-AreWellFormed calls (kept s (execute c s))
      (kept-AreWellFormed s (execute c s) h (execute-AreWellFormed c s h))
