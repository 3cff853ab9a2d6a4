-- ===== src/Safety/State/Calls.antt =====
-- Histories of calls of the safety store (backend/app/safety_state.py).
use ai_trading_platform_mobi.Prelude.{
  ℕ, ◌≡◌, refl, Bool, true, false, List, [], ◌∷◌, arith, is_empty, all, ok, err, ◌>>=◌, ◌>>◌,
  raise_if, Ensures, Text, strip,
}
use ai_trading_platform_mobi.Safety.Context.{Context, Reconciliation}
use ai_trading_platform_mobi.Safety.State.{
  SafetyState, SafetyError, Outcome, Disk, load_from, load, save, mutate, halted, halt, engaged,
  engage_risk_circuit, reset, reset_risk_circuit, cleared, clear_all,
}

pub data Call : Type 0 where
  halting : Text → ℕ → Call
  engaging : Text → ℕ → Call
  resetting : Call
  clearing : List (Reconciliation × Context) → Call

-- The disk after a call; one that raises leaves it.
abbrev pub after : Disk → Outcome (SafetyState × Disk) → Disk
after d (ok x) = x.1
after d (err _) = d

unfoldable pub execute : Disk → Call → Disk
execute d (Call.halting reason now) = after d (halt reason now d)
execute d (Call.engaging reason now) = after d (engage_risk_circuit reason now d)
execute d Call.resetting = after d (reset_risk_circuit d)
execute d (Call.clearing rs) = after d (clear_all rs d)

unfoldable pub run : Disk → List Call → Disk
run d [] = d
run d (c ∷ cs) = run (execute d c) cs

-- The disk holds a state with the property.
abbrev pub Holds : (SafetyState → Type 0) → Disk → Type 0
Holds P d = (s : SafetyState) × (load d ≡ ok s) × P s

-- A mutation keeps a property that its function keeps.
mutated :
    (P : SafetyState → Type 0) (f : SafetyState → Outcome SafetyState) (d : Disk) (s : SafetyState)
    → load d ≡ ok s
    → P s
    → Ensures (f s) P
    → Holds P (after d (mutate f d))
unfolding load_from
mutated P f d s h p k = rw h (saved (f s) k)
  where
    saved :
        (m : Outcome SafetyState) → Ensures m P → Holds P (after d (m >>= λ t. ok (t, save t d)))
    saved (ok t) k = (t, refl, k)
    saved (err _) k = (s, h, p)

guarded :
    (P : SafetyState → Type 0) (b : Bool) (e : SafetyError) (m : Outcome (SafetyState × Disk))
    (d : Disk)
    → Holds P d
    → Holds P (after d m)
    → Holds P (after d (raise_if b e >> m))
guarded P true e m d h k = h
guarded P false e m d h k = k

-- What a call does to the state, where it does not raise
unfoldable pub effect : Call → SafetyState → Outcome SafetyState
effect (Call.halting reason now) s = ok (halted reason now s)
effect (Call.engaging reason now) s = ok (engaged reason now s)
effect Call.resetting s = reset s
effect (Call.clearing rs) s = cleared rs s

pub execute-Holds :
    (P : SafetyState → Type 0) (c : Call) (d : Disk) (s : SafetyState)
    → load d ≡ ok s
    → P s
    → Ensures (effect c s) P
    → Holds P (execute d c)
unfolding execute effect halt engage_risk_circuit reset_risk_circuit clear_all
execute-Holds P (Call.halting reason now) d s h p k =
    guarded P (is_empty (strip reason)) SafetyError.reason_required _ d (s, h, p)
      (mutated P (λ s. ok (halted reason now s)) d s h p k)
execute-Holds P (Call.engaging reason now) d s h p k =
    guarded P (is_empty (strip reason)) SafetyError.reason_required _ d (s, h, p)
      (mutated P (λ s. ok (engaged reason now s)) d s h p k)
execute-Holds P Call.resetting d s h p k = mutated P reset d s h p k
execute-Holds P (Call.clearing rs) d s h p k =
    guarded P (is_empty rs) SafetyError.reconciliation_required _ d (s, h, p)
      (mutated P (cleared rs) d s h p k)

-- A property that every allowed call keeps is kept by a history of allowed calls.
pub run-Holds :
    (P : SafetyState → Type 0) (allowed : Call → Bool)
    → ((c : Call) (s : SafetyState) → allowed c ≡ true → P s → Ensures (effect c s) P)
    → (cs : List Call) (d : Disk) → all allowed cs ≡ true
    → Holds P d
    → Holds P (run d cs)
unfolding run
run-Holds P allowed keeps [] d e h = h
run-Holds P allowed keeps (c ∷ cs) d e h =
    run-Holds P allowed keeps cs (execute d c) (ground arith)
      (execute-Holds P c d h.0 h.1 h.2 (keeps c h.0 (ground arith) h.2))
