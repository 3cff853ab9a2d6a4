-- ===== src/Risk/Gate/Conditions.antt =====
-- What it takes for the reconciliation store and the side of a request to pass the pre-trade gate of
-- backend/app/risk_gate.py.
use ai_trading_platform_mobi.Prelude.{
  ◌≡◌, refl, ap, ◌≢◌, ◌⊎◌, inl, inr, Bool, true, false, not, Option, none, some, [], ◌∷◌, arith,
  if◌then◌else◌, Bool-cases, Option-cases, is_empty, any, ℤ, pos, negsuc, Text, codes, text_eq,
  text_eq_iff, strip, upper,
}
use ai_trading_platform_mobi.Risk.Gate.{
  Request, StateStore, PreTradeRiskGate, is_one_of, side_sign, reconciled,
}

-- The gate has no reconciliation store, or the request has an account and a route that is not blank,
-- and the store, asked with the gate's age, does not raise and says that trading is not blocked.
pub data IsUnblocked (g : PreTradeRiskGate) (r : Request) : Type 0 where
  no_store : g.reconciliation_state_store ≡ none → IsUnblocked g r
  by_store :
      {store : StateStore} {account route : Text}
      → g.reconciliation_state_store ≡ some store
      → r.broker_account_id ≡ some account
      → r.broker_route ≡ some route
      → strip route ≢ []
      → store account route g.reconciliation_max_age ≡ some false
      → IsUnblocked g r

-- The side, without blanks and in capitals, is one of the three words for +1 or of those for -1.
pub data HasSign (side : Text) (sign : ℤ) : Type 0 where
  buys :
      (upper (strip side) ≡ codes "BUY")
        ⊎ (upper (strip side) ≡ codes "B")
        ⊎ (upper (strip side) ≡ codes "LONG")
      → sign ≡ pos 1
      → HasSign side sign
  sells :
      (upper (strip side) ≡ codes "SELL")
        ⊎ (upper (strip side) ≡ codes "S")
        ⊎ (upper (strip side) ≡ codes "SHORT")
      → sign ≡ negsuc 0
      → HasSign side sign

pub reconciled-IsUnblocked :
    (g : PreTradeRiskGate) (r : Request)
    → reconciled g.reconciliation_state_store g.reconciliation_max_age r ≡ true
    → IsUnblocked g r
unfolding reconciled
reconciled-IsUnblocked g r h = elim (Option-cases g.reconciliation_state_store) [
  | inl e ↦ IsUnblocked.no_store e
  | inr (store, e) ↦ elim (Option-cases r.broker_account_id) [
    | inl k ↦ absurd (ground (arith, rw (reconciled, e, k) at h))
    | inr (account, k) ↦ elim (Option-cases r.broker_route) [
      | inl l ↦ absurd (ground (arith, rw (reconciled, e, k, l) at h))
      | inr (route, l) ↦
          let (given, open_) =
            answered route (store account route g.reconciliation_max_age)
              (rw (reconciled, e, k, l) at h) in
          IsUnblocked.by_store e k l given open_
    ]
  ]
]
  where
    answered :
        (route : Text) (o : Option Bool)
        → (if is_empty (strip route)
            then false
            else (elim o [ none ↦ false | some blocked ↦ not blocked ]))
          ≡ true
        → (strip route ≢ []) × (o ≡ some false)
    answered route none m = absurd (ground arith)
    answered route (some true) m = absurd (ground arith)
    answered route (some false) m = (λ blank. absurd (ground (arith, ap is_empty blank, m)), refl)

pub IsUnblocked-reconciled :
    (g : PreTradeRiskGate) (r : Request)
    → IsUnblocked g r
    → reconciled g.reconciliation_state_store g.reconciliation_max_age r ≡ true
unfolding reconciled
IsUnblocked-reconciled g r (IsUnblocked.no_store e) = rw e refl
IsUnblocked-reconciled g r (IsUnblocked.by_store {route = route} e k l given answer) =
    rw (e, k, l, not_blank (strip route) given, answer) refl
  where
    not_blank : (t : Text) → t ≢ [] → is_empty t ≡ false
    not_blank [] n = absurd (n refl)
    not_blank (_ ∷ _) n = refl

three_words :
    (t a b c : Text) → any (text_eq t) (a ∷ b ∷ c ∷ []) ≡ true → (t ≡ a) ⊎ (t ≡ b) ⊎ (t ≡ c)
three_words t a b c h = ground (arith, text_eq_iff t a, text_eq_iff t b, text_eq_iff t c)

pub side_sign-HasSign : (side : Text) → side_sign side ≢ pos 0 → HasSign side (side_sign side)
unfolding side_sign is_one_of
side_sign-HasSign side known =
    elim (Bool-cases
      (any (text_eq (upper (strip side))) (codes "BUY" ∷ codes "B" ∷ codes "LONG" ∷ []))) [
        | inl e ↦ HasSign.buys (three_words (upper (strip side)) _ _ _ e) (ground (arith, e))
        | inr e ↦
            elim (Bool-cases (
              any (text_eq (upper (strip side))) (codes "SELL" ∷ codes "S" ∷ codes "SHORT" ∷ []))) [
                | inl k ↦
                    HasSign.sells (three_words (upper (strip side)) _ _ _ k) (ground (arith, e, k))
                | inr k ↦ absurd (known (ground (arith, e, k)))
              ]
      ]

pub HasSign-side_sign : (side : Text) (sign : ℤ) → HasSign side sign → side_sign side ≡ sign
unfolding side_sign is_one_of
HasSign-side_sign side sign (HasSign.buys (inl e) h) = rw (e, h) refl
HasSign-side_sign side sign (HasSign.buys (inr (inl e)) h) = rw (e, h) refl
HasSign-side_sign side sign (HasSign.buys (inr (inr e)) h) = rw (e, h) refl
HasSign-side_sign side sign (HasSign.sells (inl e) h) = rw (e, h) refl
HasSign-side_sign side sign (HasSign.sells (inr (inl e)) h) = rw (e, h) refl
HasSign-side_sign side sign (HasSign.sells (inr (inr e)) h) = rw (e, h) refl

pub sign_nonzero : (side : Text) (sign : ℤ) → HasSign side sign → sign ≢ pos 0
sign_nonzero side sign (HasSign.buys _ h) e = absurd (ground (arith, h, e))
sign_nonzero side sign (HasSign.sells _ h) e = absurd (ground (arith, h, e))
