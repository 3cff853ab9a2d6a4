-- ===== src/Prelude/Raising.antt =====
-- A Python call that returns a value or raises.
use mathlib.Core.Path.{◌≡◌, refl, subst}
use mathlib.Core.Bool.{Bool, true, false}

pub data Result {ℓ κ} (E : Type ℓ) (A : Type κ) : Type (ℓ ⊔ κ) where
  ok : A → Result E A
  err : E → Result E A

module _ {ℓ} {E : Type ℓ} where
  infixl 5 ◌>>=◌ ◌>>◌
  abbrev pub ◌>>=◌ {κ ν} : {A : Type κ} {B : Type ν} → Result E A → (A → Result E B) → Result E B
  ok a >>= f = f a
  err e >>= f = err e

  abbrev pub ◌>>◌ {κ} : {B : Type κ} → Result E (Unit {0}) → Result E B → Result E B
  m >> k = m >>= λ _. k

  -- `if bad: raise e`
  abbrev pub raise_if : Bool → E → Result E (Unit {0})
  raise_if true e = err e
  raise_if false _ = ok tt

  abbrev pub is_ok {κ} : {A : Type κ} → Result E A → Bool
  is_ok (ok _) = true
  is_ok (err _) = false

  -- What a call that returns returns satisfies `P`.
  abbrev pub Ensures {κ ν} : {A : Type κ} → Result E A → (A → Type ν) → Type ν
  Ensures (ok a) P = P a
  Ensures (err _) P = Unit

  pub Ensures-mono {κ ν μ} :
      {A : Type κ} {P : A → Type ν} {Q : A → Type μ} (r : Result E A)
      → ((a : A) → P a → Q a)
      → Ensures r P
      → Ensures r Q
  Ensures-mono (ok a) f h = f a h
  Ensures-mono (err _) f h = tt

  -- The rule for a bind, and the one where nothing is known of its first part.
  pub Ensures-bind {κ ν μ π} :
      {A : Type κ} {B : Type ν} {P : A → Type μ} (Q : B → Type π) (m : Result E A)
      (f : A → Result E B)
      → Ensures m P
      → ((a : A) → P a → Ensures (f a) Q)
      → Ensures (m >>= f) Q
  Ensures-bind Q (ok a) f h k = k a h
  Ensures-bind Q (err _) f h k = tt

  pub Ensures-then {κ ν π} :
      {A : Type κ} {B : Type ν} (Q : B → Type π) (m : Result E A) (f : A → Result E B)
      → ((a : A) → Ensures (f a) Q)
      → Ensures (m >>= f) Q
  Ensures-then Q (ok a) f k = k a
  Ensures-then Q (err _) f k = tt

  -- A call that returned returned what it ensures.
  pub Ensures-ok {κ ν} :
      {A : Type κ} (P : A → Type ν) (r : Result E A) {a : A} → Ensures r P → r ≡ ok a → P a
  Ensures-ok P r h e = subst (λ s. Ensures s P) e h

  -- The rule for a check: what follows it may use that it passed.
  pub Ensures-guard {κ ν} :
      {A : Type κ} (Q : A → Type ν) (b : Bool) (e : E) (m : Result E A)
      → (b ≡ false → Ensures m Q)
      → Ensures (raise_if b e >> m) Q
  Ensures-guard Q true e m k = tt
  Ensures-guard Q false e m k = k refl

  -- What a call that raises raises satisfies `P`.
  abbrev pub Raises {κ ν} : {A : Type κ} → Result E A → (E → Type ν) → Type ν
  Raises (ok _) P = Unit
  Raises (err e) P = P e

  pub Raises-then {κ ν π} :
      {A : Type κ} {B : Type ν} (P : E → Type π) (m : Result E A) (f : A → Result E B)
      → Raises m P
      → ((a : A) → Raises (f a) P)
      → Raises (m >>= f) P
  Raises-then P (ok a) f h k = k a
  Raises-then P (err e) f h k = h

  pub Raises-raise_if {π} : (P : E → Type π) (b : Bool) (e : E) → P e → Raises (raise_if b e) P
  Raises-raise_if P true e h = h
  Raises-raise_if P false e h = tt

  -- The rule for a bind that keeps the equation of its first part.
  pub Ensures-got {κ ν π} :
      {A : Type κ} {B : Type ν} (Q : B → Type π) (m : Result E A) (f : A → Result E B)
      → ((a : A) → m ≡ ok a → Ensures (f a) Q)
      → Ensures (m >>= f) Q
  Ensures-got Q (ok a) f k = k a refl
  Ensures-got Q (err _) f k = tt

  pub Ensures-always {κ ν} :
      {A : Type κ} (P : A → Type ν) (m : Result E A) → ((a : A) → P a) → Ensures m P
  Ensures-always P (ok a) k = k a
  Ensures-always P (err _) k = tt
