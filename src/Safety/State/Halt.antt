-- ===== src/Safety/State/Halt.antt =====
-- Clearing a halt of trading (backend/app/safety_state.py).
use ai_trading_platform_mobi.Prelude.{
  ℕ, ◌≤◌, ◌<◌, ◌≡◌, refl, sym, ◌∙◌, ◌≢◌, ◌↔◌, ◌⊎◌, inl, inr, Bool, true, false, not, ◌&&◌, Option,
  none, some, List, [], ◌∷◌, arith, ltb, leb, is_empty, all, ok, err, ◌>>=◌, raise_if, is_ok,
  Ensures, text_eq_iff, text_eq_refl, Ensures-then, All, eq_ℤ_path, eq_ℤ_refl,
}
use ai_trading_platform_mobi.Safety.Context.{Context, same_key, Reconciliation}
use ai_trading_platform_mobi.Safety.State.{
  SafetyState, SafetyError, Outcome, Disk, load, halted, engaged, reset_ready, reset,
  is_before_halt, Clearing, clear_one, clear_loop, cleared, clear_all,
}
use ai_trading_platform_mobi.Safety.State.Calls.{Call, run, Holds, effect, run-Holds}

-- A reconciliation that the loop of `clear_all` lets pass
abbrev pub is_accepted : SafetyState → Reconciliation × Context → Bool
is_accepted s p =
    p.0.has_token
    && same_key p.0.context p.1
    && not (is_before_halt s.trading_halted s.halted_at p.0.reconciled_at)

clear_loop-is_ok :
    (s : SafetyState) (rs : List (Reconciliation × Context)) (x : Clearing)
    → is_ok (clear_loop s rs x) ≡ all (is_accepted s) rs
unfolding clear_loop
clear_loop-is_ok s [] x = refl
clear_loop-is_ok s ((r, c) ∷ rs) x = ground (arith, clear_loop-is_ok s rs (clear_one s r c x))

is_ok_map : {A B : Type 0} (m : Outcome A) (k : A → B) → is_ok (m >>= λ x. ok (k x)) ≡ is_ok m
is_ok_map (ok a) k = refl
is_ok_map (err _) k = refl

cleared-is_ok :
    (s : SafetyState) (rs : List (Reconciliation × Context))
    → is_ok (cleared rs s) ≡ (not (is_empty rs) && all (is_accepted s) rs)
unfolding cleared
cleared-is_ok s [] = refl
cleared-is_ok s ((r, c) ∷ rs) =
    is_ok_map (clear_loop s ((r, c) ∷ rs) _) _ ∙ clear_loop-is_ok s ((r, c) ∷ rs) _

is_ok-clear_all :
    (rs : List (Reconciliation × Context)) (d : Disk) (s : SafetyState)
    → load d ≡ ok s
    → is_ok (clear_all rs d) ≡ (not (is_empty rs) && all (is_accepted s) rs)
unfolding clear_all
is_ok-clear_all rs d s h = ground (arith, cleared-is_ok s rs)

-- A reconciliation that carries the token, whose context agrees with the given one in every field of
-- the key, and which is later than a halt at a known time
pub record IsAcceptable (s : SafetyState) (p : Reconciliation × Context) : Type 0 where
  pub verified : p.0.has_token ≡ true
  pub account_same : p.0.context.account_id ≡ p.1.account_id
  pub route_same : p.0.context.broker_route ≡ p.1.broker_route
  pub route_generation_same : p.0.context.route_generation ≡ p.1.route_generation
  pub generation_same : p.0.context.generation ≡ p.1.generation
  pub fingerprint_same : p.0.context.snapshot_fingerprint ≡ p.1.snapshot_fingerprint
  pub after_halt :
      (s.trading_halted ≡ false)
      ⊎ (s.halted_at ≡ none)
      ⊎ ((t : ℕ) × (s.halted_at ≡ some t) × (t < p.0.reconciled_at))

same_key-fields :
    (c d : Context)
    → (same_key c d ≡ true) ↔ (
        (c.account_id ≡ d.account_id)
        × (c.broker_route ≡ d.broker_route)
        × (c.route_generation ≡ d.route_generation)
        × (c.generation ≡ d.generation)
        × (c.snapshot_fingerprint ≡ d.snapshot_fingerprint))
unfolding same_key
same_key-fields c d = (
  λ h. (
    (text_eq_iff c.account_id d.account_id).0 (ground arith),
    (text_eq_iff c.broker_route d.broker_route).0 (ground arith),
    (text_eq_iff c.route_generation d.route_generation).0 (ground arith),
    eq_ℤ_path c.generation d.generation (ground arith),
    (text_eq_iff c.snapshot_fingerprint d.snapshot_fingerprint).0 (ground arith),
  ),
  λ (e₁, e₂, e₃, e₄, e₅).
      rw
        (
          e₁,
          e₂,
          e₃,
          e₄,
          e₅,
          text_eq_refl d.account_id,
          text_eq_refl d.broker_route,
          text_eq_refl d.route_generation,
          eq_ℤ_refl d.generation,
          text_eq_refl d.snapshot_fingerprint,
        )
        refl,
)

after_halt_iff :
    (h : Bool) (o : Option ℕ) (at : ℕ)
    → (is_before_halt h o at ≡ false)
      ↔ ((h ≡ false) ⊎ (o ≡ none) ⊎ ((t : ℕ) × (o ≡ some t) × (t < at)))
after_halt_iff h none at = (λ _. inr (inl refl), λ _. refl)
after_halt_iff false (some t) at = (λ _. inl refl, λ _. refl)
after_halt_iff true (some t) at = (λ e. inr (inr (t, refl, ground arith)), closes)
  where
    closes :
        (true ≡ false) ⊎ (some t ≡ none) ⊎ ((u : ℕ) × (some t ≡ some u) × (u < at))
        → leb at t ≡ false
    closes (inl e) = absurd (ground (arith, e))
    closes (inr (inl e)) = absurd (ground (arith, e))
    closes (inr (inr (u, e, l))) = ground arith

is_accepted_iff :
    (s : SafetyState) (p : Reconciliation × Context) → (is_accepted s p ≡ true) ↔ IsAcceptable s p
is_accepted_iff s p = (opens, closes)
  where
    opens : is_accepted s p ≡ true → IsAcceptable s p
    opens h =
        let (e₁, e₂, e₃, e₄, e₅) = (same_key-fields p.0.context p.1).0 (ground arith) in
        record {
          verified = ground arith;
          account_same = e₁;
          route_same = e₂;
          route_generation_same = e₃;
          generation_same = e₄;
          fingerprint_same = e₅;
          after_halt =
              (after_halt_iff s.trading_halted s.halted_at p.0.reconciled_at).0 (ground arith);
        }

    closes : IsAcceptable s p → is_accepted s p ≡ true
    closes a =
        rw
          (
            a.verified,
            (same_key-fields p.0.context p.1).1 (
              a.account_same, a.route_same, a.route_generation_same, a.generation_same,
              a.fingerprint_same,
            ),
            (after_halt_iff s.trading_halted s.halted_at p.0.reconciled_at).1 a.after_halt,
          )
          refl

all_iff {ℓ κ} :
    {A : Type ℓ} (q : A → Bool) (Q : A → Type κ)
    → ((a : A) → (q a ≡ true) ↔ Q a)
    → (xs : List A) → (all q xs ≡ true) ↔ All Q xs
all_iff q Q step [] = (λ _. tt, λ _. refl)
all_iff q Q step (x ∷ xs) = (
  λ h. ((step x).0 (ground arith), (all_iff q Q step xs).0 (ground arith)),
  λ h. rw ((step x).1 h.0) ((all_iff q Q step xs).1 h.1),
)

-- On a store that holds a state, `clear_all` succeeds exactly when it is given a reconciliation, and
-- each of them carries the token, agrees with its context in the account, the route, both generations
-- and the fingerprint, and is later than the halt, where trading is halted at a known time.
pub clear_all_iff :
    (rs : List (Reconciliation × Context)) (d : Disk) (s : SafetyState)
    → load d ≡ ok s
    → (is_ok (clear_all rs d) ≡ true) ↔ ((rs ≢ []) × All (IsAcceptable s) rs)
clear_all_iff [] d s h =
    let refused = is_ok-clear_all [] d s h in
    (λ e. absurd (ground (arith, e, refused)), λ given. absurd (given.0 refl))
clear_all_iff (r ∷ rs) d s h =
    let outcome = is_ok-clear_all (r ∷ rs) d s h in
    (
      λ e. (
        λ empty. absurd (ground (arith, empty)),
        (all_iff (is_accepted s) (IsAcceptable s) (is_accepted_iff s) (r ∷ rs)).0 (sym outcome ∙ e),
      ),
      λ given.
          outcome
          ∙ (all_iff (is_accepted s) (IsAcceptable s) (is_accepted_iff s) (r ∷ rs)).1 given.1,
    )

-- Trading is halted since `at` or later.
abbrev pub IsHalted : ℕ → SafetyState → Type 0
IsHalted at s = (s.trading_halted ≡ true) × (t : ℕ) × (s.halted_at ≡ some t) × (at ≤ t)

abbrev pub is_after : ℕ → Reconciliation × Context → Bool
is_after at p = p.0.has_token && same_key p.0.context p.1 && ltb at p.0.reconciled_at

-- A call that does not lift a halt of the time `at`
unfoldable pub keeps_halt : ℕ → Call → Bool
keeps_halt at (Call.halting reason now) = leb at now
keeps_halt at (Call.engaging reason now) = true
keeps_halt at Call.resetting = true
keeps_halt at (Call.clearing rs) = not (all (is_after at) rs)

all-accepted :
    (at t : ℕ) (s : SafetyState) (rs : List (Reconciliation × Context))
    → s.trading_halted ≡ true
    → s.halted_at ≡ some t
    → at ≤ t
    → all (is_accepted s) rs ≡ true
    → all (is_after at) rs ≡ true
all-accepted at t s [] h e l k = refl
all-accepted at t s ((r, c) ∷ rs) h e l k = ground (arith, all-accepted at t s rs h e l)

nothing_ensured : {A : Type 0} (P : A → Type 0) (m : Outcome A) → is_ok m ≡ false → Ensures m P
nothing_ensured P (ok a) h = ground arith
nothing_ensured P (err _) h = tt

cleared-IsHalted :
    (at : ℕ) (rs : List (Reconciliation × Context)) (s : SafetyState)
    → all (is_after at) rs ≡ false
    → IsHalted at s
    → Ensures (cleared rs s) (IsHalted at)
cleared-IsHalted at rs s e (h, t, later, le) =
    nothing_ensured (IsHalted at) (cleared rs s)
      (ground (arith, cleared-is_ok s rs, all-accepted at t s rs h later le))

effect-IsHalted :
    (at : ℕ) (c : Call) (s : SafetyState)
    → keeps_halt at c ≡ true
    → IsHalted at s
    → Ensures (effect c s) (IsHalted at)
unfolding effect keeps_halt halted engaged reset
effect-IsHalted at (Call.halting reason now) s e h = (refl, now, refl, ground arith)
effect-IsHalted at (Call.engaging reason now) s e h = h
effect-IsHalted at Call.resetting s e h =
    Ensures-then (IsHalted at)
      (raise_if (s.risk_circuit_blocked && not (reset_ready s)) SafetyError.reset_not_ready) _
      (λ _. h)
effect-IsHalted at (Call.clearing rs) s e h = cleared-IsHalted at rs s (ground arith) h

-- A halt of the time `at` lasts through any history of calls in which later halts are not earlier and
-- no call of `clear_all` has only reconciliations that are verified, match and are later than `at`.
pub run-IsHalted :
    (at : ℕ) (cs : List Call) (d : Disk)
    → all (keeps_halt at) cs ≡ true
    → Holds (IsHalted at) d
    → Holds (IsHalted at) (run d cs)
run-IsHalted at cs d e h = run-Holds (IsHalted at) (keeps_halt at) (effect-IsHalted at) cs d e h
