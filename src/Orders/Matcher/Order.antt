-- ===== src/Orders/Matcher/Order.antt =====
-- `match` of backend/app/reconciliation_matcher.py reads its candidates as a set, and matches one of
-- them.

use mathlib.Core.List.{Memᴰ, Permᴰ}
use mathlib.Core.List.Permᴰ
use ai_trading_platform_mobi.Prelude.{
  ◌≡◌, refl, sym, ap, ◌∙◌, ◌⊎◌, inl, inr, Bool, true, not, ◌&&◌, Option, none, some, List, [], ◌∷◌,
  arith, if◌then◌else◌, is_some, Bool-cases, is_empty, any, keep, ℤ, Text, text_eq, text_eq_iff,
  subst, eq_ℤ_path,
}
use ai_trading_platform_mobi.Orders.Matcher.{
  InternalOrderCandidate, BrokerOrderSnapshot, MatchMethod, ReconciliationMatch, identity_matches,
  has_client, is_exact, is_broker_id, is_strict, Tier, tier, matched, match_strict, match_broker_id,
  match_client, scoped_to, match_rest, match_order,
}
use ai_trading_platform_mobi.Orders.Identities.{opt_int_eq}
use ai_trading_platform_mobi.Orders.Lifecycle.Positions.{opt_text_eq}

keep-Perm {ℓ} :
    {A : Type ℓ} (p : A → Bool) {xs ys : List A} → Permᴰ xs ys → Permᴰ (keep p xs) (keep p ys)
keep-Perm p Permᴰ.nil = Permᴰ.nil
keep-Perm p (Permᴰ.cons {a = a} {b = b} e d) = elim (Bool-cases (p a)) [
  | inl h ↦ rw (h, sym (ap p e) ∙ h) (Permᴰ.cons e (keep-Perm p d))
  | inr h ↦ rw (h, sym (ap p e) ∙ h) (keep-Perm p d)
]
keep-Perm p (Permᴰ.swap {a = a} {b = b} {l = l} e f) = elim (Bool-cases (p a)) [
  | inl h ↦ elim (Bool-cases (p b)) [
    | inl k ↦ rw (h, k, sym (ap p e) ∙ h, sym (ap p f) ∙ k) (Permᴰ.swap e f)
    | inr k ↦ rw (h, k, sym (ap p e) ∙ h, sym (ap p f) ∙ k) (Permᴰ.cons e (Permᴰ.refl (keep p l)))
  ]
  | inr h ↦ elim (Bool-cases (p b)) [
    | inl k ↦ rw (h, k, sym (ap p e) ∙ h, sym (ap p f) ∙ k) (Permᴰ.cons f (Permᴰ.refl (keep p l)))
    | inr k ↦ rw (h, k, sym (ap p e) ∙ h, sym (ap p f) ∙ k) (Permᴰ.refl (keep p l))
  ]
]
keep-Perm p (Permᴰ.trans c d) = Permᴰ.trans (keep-Perm p c) (keep-Perm p d)

is_empty-Perm {ℓ} : {A : Type ℓ} {xs ys : List A} → Permᴰ xs ys → is_empty xs ≡ is_empty ys
is_empty-Perm Permᴰ.nil = refl
is_empty-Perm (Permᴰ.cons e d) = refl
is_empty-Perm (Permᴰ.swap e f) = refl
is_empty-Perm (Permᴰ.trans c d) = is_empty-Perm c ∙ is_empty-Perm d

tier-cons :
    (c : InternalOrderCandidate) (xs : List InternalOrderCandidate)
    → tier (c ∷ xs) ≡ (if is_empty xs then Tier.one c else Tier.several)
tier-cons c [] = refl
tier-cons c (_ ∷ _) = refl

tier-Perm : {xs ys : List InternalOrderCandidate} → Permᴰ xs ys → tier xs ≡ tier ys
tier-Perm Permᴰ.nil = refl
tier-Perm (Permᴰ.cons {a = a} {b = b} {l₁ = xs} {l₂ = ys} e d) =
    rw (tier-cons a xs, tier-cons b ys, is_empty-Perm d, e) refl
tier-Perm (Permᴰ.swap e f) = refl
tier-Perm (Permᴰ.trans c d) = tier-Perm c ∙ tier-Perm d

tier_of :
    (p : InternalOrderCandidate → Bool) {xs ys : List InternalOrderCandidate}
    → Permᴰ xs ys
    → tier (keep p xs) ≡ tier (keep p ys)
tier_of p d = tier-Perm (keep-Perm p d)

match_rest-Perm :
    (b : BrokerOrderSnapshot) {xs ys : List InternalOrderCandidate}
    → Permᴰ xs ys
    → match_rest b xs ≡ match_rest b ys
unfolding match_rest
match_rest-Perm b d = rw (tier_of (is_broker_id b) d, tier_of (is_strict b) d) refl

-- The order of the candidates does not matter.
pub match_order-Perm :
    (b : BrokerOrderSnapshot) (xs ys : List InternalOrderCandidate)
    → Permᴰ xs ys
    → match_order b xs ≡ match_order b ys
unfolding match_order
match_order-Perm b xs ys d =
    let scoped = keep-Perm (identity_matches b) d in
    rw (is_empty-Perm scoped, tier_of (is_exact b) scoped, match_rest-Perm b scoped) refl

-- A test that holds of some element passes through the filters.
any-keep {ℓ} :
    {A : Type ℓ} (p q : A → Bool) (xs : List A)
    → any q (keep p xs) ≡ true
    → any (λ x. p x && q x) xs ≡ true
any-keep p q [] h = h
any-keep p q (x ∷ xs) h = elim (Bool-cases (p x)) [
  | inl e ↦ let later = any-keep p q xs in ground (arith, e, rw e at h, later)
  | inr e ↦ let later = any-keep p q xs (rw e at h) in ground arith
]

any-weaken {ℓ} :
    {A : Type ℓ} (p q : A → Bool) (xs : List A) → any (λ x. p x && q x) xs ≡ true → any q xs ≡ true
any-weaken p q [] h = h
any-weaken p q (x ∷ xs) h = let later = any-weaken p q xs in ground arith

-- The test that a match puts on its candidate
abbrev pub is_matched : ReconciliationMatch → InternalOrderCandidate → Bool
is_matched m c = text_eq c.client_order_id m.client_order_id

-- Some candidate of the list is the one of the match, and the match is of the broker's order.
abbrev pub IsMatchIn :
    BrokerOrderSnapshot → List InternalOrderCandidate → ReconciliationMatch → Type 0
IsMatchIn b xs m = (any (is_matched m) xs ≡ true) × (m.broker_order_id ≡ b.broker_order_id)

abbrev pub Matches {κ} : (ReconciliationMatch → Type κ) → Option ReconciliationMatch → Type κ
Matches P none = Unit
Matches P (some m) = P m

module _ (b : BrokerOrderSnapshot) (method : MatchMethod) (p : InternalOrderCandidate → Bool) where
  one_in :
      (xs : List InternalOrderCandidate) (c : InternalOrderCandidate)
      → tier (keep p xs) ≡ Tier.one c
      → IsMatchIn b xs (matched b method c)
  one_in xs c h =
      (any-weaken p _ xs (any-keep p (is_matched (matched b method c)) xs (at (keep p xs) h)), refl)
    where
      at :
          (ys : List InternalOrderCandidate)
          → tier ys ≡ Tier.one c
          → any (is_matched (matched b method c)) ys ≡ true
      at [] k = absurd (ground arith)
      at (y ∷ []) k = ground (arith, k, text_eq_iff y.client_order_id c.client_order_id)
      at (_ ∷ _ ∷ _) k = absurd (ground arith)

match_strict-IsMatchIn :
    (b : BrokerOrderSnapshot) (xs : List InternalOrderCandidate) (t : Tier)
    → tier (keep (is_strict b) xs) ≡ t
    → Matches (IsMatchIn b xs) (match_strict b t)
match_strict-IsMatchIn b xs Tier.nobody h = tt
match_strict-IsMatchIn b xs (Tier.one c) h =
    one_in b MatchMethod.strict_attributes (is_strict b) xs c h
match_strict-IsMatchIn b xs Tier.several h = tt

match_broker_id-IsMatchIn :
    (b : BrokerOrderSnapshot) (xs : List InternalOrderCandidate) (t : Tier)
    (next : Option ReconciliationMatch)
    → tier (keep (is_broker_id b) xs) ≡ t
    → Matches (IsMatchIn b xs) next
    → Matches (IsMatchIn b xs) (match_broker_id b t next)
match_broker_id-IsMatchIn b xs Tier.nobody next h k = k
match_broker_id-IsMatchIn b xs (Tier.one c) next h k =
    one_in b MatchMethod.broker_order_id (is_broker_id b) xs c h
match_broker_id-IsMatchIn b xs Tier.several next h k = tt

match_client-IsMatchIn :
    (b : BrokerOrderSnapshot) (xs : List InternalOrderCandidate) (t : Tier)
    (next : Option ReconciliationMatch)
    → tier (keep (is_exact b) xs) ≡ t
    → Matches (IsMatchIn b xs) next
    → Matches (IsMatchIn b xs) (match_client b t next)
match_client-IsMatchIn b xs Tier.nobody next h k = k
match_client-IsMatchIn b xs (Tier.one c) next h k =
    one_in b MatchMethod.client_order_id (is_exact b) xs c h
match_client-IsMatchIn b xs Tier.several next h k = tt

match_rest-IsMatchIn :
    (b : BrokerOrderSnapshot) (xs : List InternalOrderCandidate)
    → Matches (IsMatchIn b xs) (match_rest b xs)
unfolding match_rest
match_rest-IsMatchIn b xs =
    match_broker_id-IsMatchIn b xs (tier (keep (is_broker_id b) xs)) _ refl
      (match_strict-IsMatchIn b xs (tier (keep (is_strict b) xs)) refl)

scoped-IsMatchIn :
    (b : BrokerOrderSnapshot) (xs : List InternalOrderCandidate)
    → Matches (IsMatchIn b (scoped_to b xs)) (match_order b xs)
unfolding match_order
scoped-IsMatchIn b xs = elim (Bool-cases (is_empty (scoped_to b xs))) [
  | inl e ↦ rw e tt
  | inr e ↦ rw e (elim (Bool-cases (has_client b)) [
    | inl k ↦ rw k (
        match_client-IsMatchIn b (scoped_to b xs) (tier (keep (is_exact b) (scoped_to b xs))) _ refl
          (match_rest-IsMatchIn b (scoped_to b xs)))
    | inr k ↦ rw k (match_rest-IsMatchIn b (scoped_to b xs))
  ])
]

-- The candidate has the account and the route of the broker's order, where that gives them, and the
-- client order id of the match.
pub record IsOwn (b : BrokerOrderSnapshot) (m : ReconciliationMatch) (c : InternalOrderCandidate)
    : Type 0 where
  pub client_is : c.client_order_id ≡ m.client_order_id
  pub account_is : (b.broker_account_id ≡ none) ⊎ (c.broker_account_id ≡ b.broker_account_id)
  pub route_is : (b.broker_route ≡ none) ⊎ (c.broker_route ≡ b.broker_route)

same_account :
    (x y : Option ℤ) → not (is_some y && not (opt_int_eq x y)) ≡ true → (y ≡ none) ⊎ (x ≡ y)
same_account x none h = inl refl
same_account none (some b) h = absurd (ground arith)
same_account (some a) (some b) h = inr (ap some (eq_ℤ_path a b (ground arith)))

same_route :
    (x y : Option Text) → not (is_some y && not (opt_text_eq x y)) ≡ true → (y ≡ none) ⊎ (x ≡ y)
unfolding opt_text_eq
same_route x none h = inl refl
same_route none (some b) h = absurd (ground arith)
same_route (some a) (some b) h = inr (ap some ((text_eq_iff a b).0 (ground arith)))

-- A candidate that passes both tests is the match's own.
own :
    (b : BrokerOrderSnapshot) (m : ReconciliationMatch) (c : InternalOrderCandidate)
    → (identity_matches b c && is_matched m c) ≡ true
    → IsOwn b m c
unfolding identity_matches
own b m c h = record {
  client_is = (text_eq_iff c.client_order_id m.client_order_id).0 (ground arith);
  account_is = same_account c.broker_account_id b.broker_account_id (ground arith);
  route_is = same_route c.broker_route b.broker_route (ground arith);
}

any-Mem :
    (p : InternalOrderCandidate → Bool) (xs : List InternalOrderCandidate)
    → any p xs ≡ true
    → (c : InternalOrderCandidate) × Memᴰ c xs × (p c ≡ true)
any-Mem p [] h = absurd (ground arith)
any-Mem p (x ∷ xs) h = elim (Bool-cases (p x)) [
  | inl e ↦ (x, Memᴰ.head refl, e)
  | inr e ↦ let (c, at, holds) = any-Mem p xs (rw e at h) in (c, Memᴰ.tail at, holds)
]

-- A match names a candidate of the list whose account and route are those that the broker's order
-- gives, and has the broker's order id.
pub match_order-IsMatchIn :
    (b : BrokerOrderSnapshot) (xs : List InternalOrderCandidate) (m : ReconciliationMatch)
    → match_order b xs ≡ some m
    → ((c : InternalOrderCandidate) × Memᴰ c xs × IsOwn b m c)
      × (m.broker_order_id ≡ b.broker_order_id)
match_order-IsMatchIn b xs m h =
    let at : IsMatchIn b (scoped_to b xs) m =
      subst (Matches (IsMatchIn b (scoped_to b xs))) h (scoped-IsMatchIn b xs) in
    let (c, found, holds) =
      any-Mem (λ c. identity_matches b c && is_matched m c) xs
        (any-keep (identity_matches b) (is_matched m) xs at.0) in
    ((c, found, own b m c holds), at.1)
