-- ===== src/Orders/PositionManager/Drift.antt =====
-- `reconcile` of backend/app/position_manager.py finds no drift exactly where the quantities agree.
use mathlib.Core.Option.{some-injective}
use ai_trading_platform_mobi.Prelude.{
  ◌≡◌, refl, sym, ap, ◌∙◌, ◌↔◌, inl, inr, Bool, true, false, not, ◌&&◌, Option, none, some, List,
  [], ◌∷◌, ◌++◌, arith, if◌then◌else◌, Bool-cases, is_empty, ok, ℤ, pos, eq_ℤ, Text, text_eq,
  text_eq_iff, text_eq_refl, Dict, lookup, contains, HasUniqueKeys, Ensures-bind, Ensures-ok,
  eq_ℤ_path, eq_ℤ_refl,
}
use ai_trading_platform_mobi.Orders.PositionManager.{
  Position, PositionManager, is_open_at, BrokerPosition, read_broker, DriftItem, or_zero,
  signed_quantity, internal_drift, unknown_drift, reconcile_positions,
}
use ai_trading_platform_mobi.Orders.PositionManager.Reading.{broker_at, IsRead, read_broker-IsRead}

-- What the manager holds of a symbol
abbrev pub internal_at : Option Position → ℤ
internal_at none = pos 0
internal_at (some p) = if p.is_open then signed_quantity p else pos 0

-- A list that may begin with a drift is empty.
no_head :
    (t : Bool) (x : DriftItem) (xs : List DriftItem)
    → is_empty (if t then x ∷ xs else xs) ≡ true
    → (t ≡ false) × (is_empty xs ≡ true)
no_head true x xs h = absurd (ground arith)
no_head false x xs h = (refl, h)

agreed : (a b : Bool) → (a && not b) ≡ false → a ≡ true → b ≡ true
agreed a b h k = ground arith

no_cons :
    (t : Bool) (x : DriftItem) (xs : List DriftItem)
    → t ≡ false
    → is_empty xs ≡ true
    → is_empty (if t then x ∷ xs else xs) ≡ true
no_cons t x xs e h = rw e h

later {ℓ} :
    {V : Type ℓ} (k symbol : Text) (v w : V) (d : Dict V)
    → contains k d ≡ false
    → lookup symbol d ≡ some w
    → lookup symbol ((k, v) ∷ d) ≡ some w
later k symbol v w d new found = ground (arith, found, text_eq_iff symbol k, new)

internal_empty :
    (positions : Dict Position) (broker : Dict ℤ)
    → is_empty (internal_drift positions broker) ≡ true
    → (symbol : Text) (p : Position) → lookup symbol positions ≡ some p
    → p.is_open ≡ true
    → or_zero (lookup symbol broker) ≡ signed_quantity p
unfolding internal_drift
internal_empty [] broker none_left symbol p found opened = absurd (ground arith)
internal_empty ((k, r) ∷ positions) broker none_left symbol p found opened =
    let left =
      no_head (r.is_open && not (eq_ℤ (or_zero (lookup k broker)) (signed_quantity r))) _ _
        none_left in
    elim (Bool-cases (text_eq symbol k)) [
      | inl e ↦
          let same : r ≡ p = some-injective r p (rw e at found) in
          ap (λ j. or_zero (lookup j broker)) ((text_eq_iff symbol k).0 e)
          ∙ eq_ℤ_path (or_zero (lookup k broker)) (signed_quantity r)
              (agreed r.is_open _ left.0 (ap (λ x. x.is_open) same ∙ opened))
          ∙ ap signed_quantity same
      | inr e ↦ internal_empty positions broker left.1 symbol p (rw e at found) opened
    ]

empty_internal :
    (positions : Dict Position) (broker : Dict ℤ)
    → HasUniqueKeys positions
    → ((symbol : Text) (p : Position)
        → lookup symbol positions ≡ some p
        → p.is_open ≡ true
        → or_zero (lookup symbol broker) ≡ signed_quantity p)
    → is_empty (internal_drift positions broker) ≡ true
unfolding internal_drift
empty_internal [] broker unique agree = refl
empty_internal ((k, r) ∷ positions) broker unique agree =
    no_cons (r.is_open && not (eq_ℤ (or_zero (lookup k broker)) (signed_quantity r))) _ _
      (elim (Bool-cases r.is_open) [
        | inl o ↦
            rw
              (
                o,
                agree k r (ap (λ b. if b then some r else lookup k positions) (text_eq_refl k)) o,
                eq_ℤ_refl (signed_quantity r),
              )
              refl
        | inr o ↦ rw o refl
      ])
      (empty_internal positions broker unique.1
        (λ symbol p found. agree symbol p (later k symbol r p positions unique.0 found)))

unknown_empty :
    (positions : Dict Position) (broker : Dict ℤ)
    → is_empty (unknown_drift positions broker) ≡ true
    → (symbol : Text) (q : ℤ) → lookup symbol broker ≡ some q
    → is_open_at (lookup symbol positions) ≡ false
    → q ≡ pos 0
unfolding unknown_drift
unknown_empty positions [] none_left symbol q found closed = absurd (ground arith)
unknown_empty positions ((k, r) ∷ broker) none_left symbol q found closed =
    let left =
      no_head (not (is_open_at (lookup k positions)) && not (eq_ℤ r (pos 0))) _ _ none_left in
    elim (Bool-cases (text_eq symbol k)) [
      | inl e ↦
          let same : r ≡ q = some-injective r q (rw e at found) in
          let key = (text_eq_iff symbol k).0 e in
          sym same
          ∙ eq_ℤ_path r (pos 0) (
              agreed (not (is_open_at (lookup k positions))) _ left.0
                (ap (λ j. not (is_open_at (lookup j positions))) (sym key) ∙ ap not closed))
      | inr e ↦ unknown_empty positions broker left.1 symbol q (rw e at found) closed
    ]

empty_unknown :
    (positions : Dict Position) (broker : Dict ℤ)
    → HasUniqueKeys broker
    → ((symbol : Text) (q : ℤ)
        → lookup symbol broker ≡ some q
        → is_open_at (lookup symbol positions) ≡ false
        → q ≡ pos 0)
    → is_empty (unknown_drift positions broker) ≡ true
unfolding unknown_drift
empty_unknown positions [] unique agree = refl
empty_unknown positions ((k, r) ∷ broker) unique agree =
    no_cons (not (is_open_at (lookup k positions)) && not (eq_ℤ r (pos 0))) _ _
      (elim (Bool-cases (is_open_at (lookup k positions))) [
        | inl o ↦ rw o refl
        | inr o ↦
            rw (o, agree k r (ap (λ b. if b then some r else lookup k broker) (text_eq_refl k)) o)
              refl
      ])
      (empty_unknown positions broker unique.1
        (λ symbol q found. agree symbol q (later k symbol r q broker unique.0 found)))

is_empty-append {ℓ} :
    {A : Type ℓ} (xs ys : List A) → is_empty (xs ++ ys) ≡ (is_empty xs && is_empty ys)
is_empty-append [] ys = refl
is_empty-append (_ ∷ _) ys = refl

module _ (items : List BrokerPosition) (positions : Dict Position) (broker : Dict ℤ)
    (unique : HasUniqueKeys positions) (r : IsRead items [] broker) where
  -- Both drifts are empty where the quantities agree.
  agree_empty :
      ((symbol : Text) → broker_at symbol items ≡ internal_at (lookup symbol positions))
      → is_empty (internal_drift positions broker ++ unknown_drift positions broker) ≡ true
  agree_empty agree =
      rw
        (
          is_empty-append (internal_drift positions broker) (unknown_drift positions broker),
          empty_internal positions broker unique known,
          empty_unknown positions broker r.unique unknown,
        )
        refl
    where
      known :
          (symbol : Text) (p : Position)
          → lookup symbol positions ≡ some p
          → p.is_open ≡ true
          → or_zero (lookup symbol broker) ≡ signed_quantity p
      known symbol p found opened =
          r.quantity_is symbol
          ∙ agree symbol
          ∙ ap internal_at found
          ∙ ap (λ b. if b then signed_quantity p else pos 0) opened

      closed_is : (o : Option Position) → is_open_at o ≡ false → internal_at o ≡ pos 0
      closed_is none h = refl
      closed_is (some p) h = rw h refl

      unknown :
          (symbol : Text) (q : ℤ)
          → lookup symbol broker ≡ some q
          → is_open_at (lookup symbol positions) ≡ false
          → q ≡ pos 0
      unknown symbol q found closed =
          sym (ap or_zero found)
          ∙ r.quantity_is symbol
          ∙ agree symbol
          ∙ closed_is (lookup symbol positions) closed

  -- The quantities agree where both drifts are empty.
  empty_agree :
      is_empty (internal_drift positions broker ++ unknown_drift positions broker) ≡ true
      → (symbol : Text) → broker_at symbol items ≡ internal_at (lookup symbol positions)
  empty_agree none_left symbol = sym (r.quantity_is symbol) ∙ at (lookup symbol positions) refl
    where
      both :
          (is_empty (internal_drift positions broker) && is_empty (unknown_drift positions broker))
          ≡ true
      both =
          sym (is_empty-append (internal_drift positions broker) (unknown_drift positions broker))
          ∙ none_left

      unknown :
          is_open_at (lookup symbol positions) ≡ false
          → (o : Option ℤ) → lookup symbol broker ≡ o
          → or_zero o ≡ pos 0
      unknown closed none found = refl
      unknown closed (some q) found =
          unknown_empty positions broker (ground (arith, both)) symbol q found closed

      at :
          (o : Option Position)
          → lookup symbol positions ≡ o
          → or_zero (lookup symbol broker) ≡ internal_at o
      at none found = unknown (ap is_open_at found) (lookup symbol broker) refl
      at (some p) found = elim (Bool-cases p.is_open) [
        | inl opened ↦
            rw opened (internal_empty positions broker (ground (arith, both)) symbol p found opened)
        | inr closed ↦
            rw closed (unknown (ap is_open_at found ∙ closed) (lookup symbol broker) refl)
      ]

-- Where every symbol has one position, `reconcile` finds no drift exactly where the broker's list and
-- the open positions give every symbol the same signed quantity.
pub no_drift_iff :
    (items : List BrokerPosition) (s : PositionManager) (drift : List DriftItem)
    → HasUniqueKeys s.positions
    → reconcile_positions items s ≡ ok drift
    → (is_empty drift ≡ true)
      ↔ ((symbol : Text) → broker_at symbol items ≡ internal_at (lookup symbol s.positions))
unfolding reconcile_positions
no_drift_iff items s drift unique returned =
    Ensures-ok
      (λ d.
        (is_empty d ≡ true)
        ↔ ((symbol : Text) → broker_at symbol items ≡ internal_at (lookup symbol s.positions)))
      (reconcile_positions items s)
      (Ensures-bind _ (read_broker items []) _ (read_broker-IsRead items [] tt) (λ broker r. (
        empty_agree items s.positions broker unique r,
        agree_empty items s.positions broker unique r,
      )))
      returned
