-- ===== src/Prelude/Lists.antt =====
-- Lists measured by native numbers, under the library's names, and Boolean quantifiers.
use Prim.Native.Nat.{ℕ, zero, suc, ◌+◌}
use mathlib.Core.Path.{◌≡◌, refl}
use mathlib.Core.Logic.{inl, inr}
use mathlib.Core.Bool.{Bool, true, false, ◌&&◌, ◌||◌}
use mathlib.Core.List.{List, [], ◌∷◌, ◌++◌}
use mathlib.Core.Option.{Option, none, some}
use native.Mathlib.Omega.{arith}
use ai_trading_platform_mobi.Prelude.Tests.{if◌then◌else◌, Bool-cases}

module _ {ℓ} {A : Type ℓ} where
  abbrev pub length : List A → ℕ
  length [] = 0
  length (_ ∷ xs) = suc (length xs)

  abbrev pub is_empty : List A → Bool
  is_empty [] = true
  is_empty (_ ∷ _) = false

  abbrev pub any : (A → Bool) → List A → Bool
  any p [] = false
  any p (x ∷ xs) = p x || any p xs

  abbrev pub all : (A → Bool) → List A → Bool
  all p [] = true
  all p (x ∷ xs) = p x && all p xs

  abbrev pub last? : List A → Option A
  last? [] = none
  last? (x ∷ []) = some x
  last? (_ ∷ y ∷ xs) = last? (y ∷ xs)

  -- The elements that pass a test, in order.
  abbrev pub keep : (A → Bool) → List A → List A
  keep p [] = []
  keep p (x ∷ xs) = if p x then x ∷ keep p xs else keep p xs

  pub length-append : (xs ys : List A) → length (xs ++ ys) ≡ length xs + length ys
  length-append [] ys = omega arith
  length-append (_ ∷ xs) ys = omega (arith, length-append xs ys)

  pub last?-snoc : (xs : List A) (y : A) → last? (xs ++ y ∷ []) ≡ some y
  last?-snoc [] y = refl
  last?-snoc (_ ∷ []) y = refl
  last?-snoc (_ ∷ x ∷ xs) y = last?-snoc (x ∷ xs) y

  abbrev pub take : ℕ → List A → List A
  take zero xs = []
  take (suc n) [] = []
  take (suc n) (x ∷ xs) = x ∷ take n xs

  -- Every element has a property.
  abbrev pub All {κ} : (A → Type κ) → List A → Type κ
  All P [] = Unit
  All P (x ∷ xs) = P x × All P xs

  pub All-mono {κ ν} :
      {P : A → Type κ} {Q : A → Type ν} (xs : List A) → ((x : A) → P x → Q x) → All P xs → All Q xs
  All-mono [] f h = tt
  All-mono (x ∷ xs) f h = (f x h.0, All-mono xs f h.1)

  pub All-snoc {κ} :
      (P : A → Type κ) (xs : List A) {y : A} → All P xs → P y → All P (xs ++ (y ∷ []))
  All-snoc P [] h k = (k, tt)
  All-snoc P (x ∷ xs) h k = (h.0, All-snoc P xs h.1 k)

  pub All-keep {κ} : (P : A → Type κ) (p : A → Bool) (xs : List A) → All P xs → All P (keep p xs)
  All-keep P p [] h = tt
  All-keep P p (x ∷ xs) h = elim (Bool-cases (p x)) [
    | inl e ↦ rw e (h.0, All-keep P p xs h.1)
    | inr e ↦ rw e (All-keep P p xs h.1)
  ]

  -- The first element that passes a test.
  abbrev pub first? : (A → Bool) → List A → Option A
  first? p [] = none
  first? p (x ∷ xs) = if p x then some x else first? p xs

  pub first?-holds : (p : A → Bool) (xs : List A) {a : A} → first? p xs ≡ some a → p a ≡ true
  first?-holds p [] h = absurd (ground arith)
  first?-holds p (x ∷ xs) h = elim (Bool-cases (p x)) [
    | inl e ↦ ground (arith, e, rw e at h)
    | inr e ↦ first?-holds p xs (rw e at h)
  ]

  pub first?-absent : (p : A → Bool) (xs : List A) → first? p xs ≡ none → any p xs ≡ false
  first?-absent p [] h = refl
  first?-absent p (x ∷ xs) h = elim (Bool-cases (p x)) [
    | inl e ↦ absurd (ground (arith, rw e at h))
    | inr e ↦ rw e (first?-absent p xs (rw e at h))
  ]

  pub first?-snoc :
      (p : A → Bool) (xs : List A) (y : A)
      → first? p xs ≡ none
      → p y ≡ true
      → first? p (xs ++ (y ∷ [])) ≡ some y
  first?-snoc p [] y h k = rw k refl
  first?-snoc p (x ∷ xs) y h k = elim (Bool-cases (p x)) [
    | inl e ↦ absurd (ground (arith, rw e at h))
    | inr e ↦ rw e (first?-snoc p xs y (rw e at h) k)
  ]

  pub first?-any :
      (p q : A → Bool) (xs : List A) {a : A} → first? p xs ≡ some a → q a ≡ true → any q xs ≡ true
  first?-any p q [] h k = absurd (ground arith)
  first?-any p q (x ∷ xs) h k = elim (Bool-cases (p x)) [
    | inl e ↦ ground (arith, k, rw e at h)
    | inr e ↦ ground (arith, first?-any p q xs (rw e at h) k)
  ]
