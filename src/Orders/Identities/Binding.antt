-- ===== src/Orders/Identities/Binding.antt =====
-- `bind` of backend/app/order_identity_registry.py and the lookups after it.
use ai_trading_platform_mobi.Prelude.{
  ◌≡◌, refl, ap, ◌∙◌, inl, inr, Bool, true, false, not, ◌&&◌, ◌||◌, Option, none, some, List, [],
  ◌∷◌, arith, Option-cases, is_empty, any, ok, raise_if, Ensures, ℤ, Text, text_eq, text_eq_iff,
  text_eq_refl, Ensures-then, Ensures-ok, Ensures-guard, first?, first?-holds, first?-absent,
  first?-snoc, first?-any, eq_ℤ_path,
}
use ai_trading_platform_mobi.Orders.Lifecycle.Positions.{opt_text_eq}
use ai_trading_platform_mobi.Orders.Identities.{
  OrderIdentity, IdentityError, opt_int_eq, validate_scope, same_scope, is_client_row,
  is_broker_row, differs_for_client, differs_for_broker, conflicts, insert_or_ignore, bind, scoped,
  by_client, by_broker,
}

opt_int_eq_path : (a b : Option ℤ) → opt_int_eq a b ≡ true → a ≡ b
opt_int_eq_path none none h = refl
opt_int_eq_path none (some _) h = absurd (ground arith)
opt_int_eq_path (some _) none h = absurd (ground arith)
opt_int_eq_path (some a) (some b) h = ap some (eq_ℤ_path a b h)

opt_text_eq_path : (a b : Option Text) → opt_text_eq a b ≡ true → a ≡ b
unfolding opt_text_eq
opt_text_eq_path none none h = refl
opt_text_eq_path none (some _) h = absurd (ground arith)
opt_text_eq_path (some _) none h = absurd (ground arith)
opt_text_eq_path (some a) (some b) h = ap some ((text_eq_iff a b).0 h)

opt_int_eq_refl : (a : Option ℤ) → opt_int_eq a a ≡ true
opt_int_eq_refl none = refl
opt_int_eq_refl (some a) = ground arith

opt_text_eq_refl : (a : Option Text) → opt_text_eq a a ≡ true
unfolding opt_text_eq
opt_text_eq_refl none = refl
opt_text_eq_refl (some a) = text_eq_refl a

row_path :
    (r i : OrderIdentity)
    → text_eq r.client_order_id i.client_order_id ≡ true
    → text_eq r.broker i.broker ≡ true
    → text_eq r.broker_order_id i.broker_order_id ≡ true
    → same_scope r i ≡ true
    → r ≡ i
row_path r i client broker order scope =
    let p = (text_eq_iff r.client_order_id i.client_order_id).0 client in
    let q = (text_eq_iff r.broker i.broker).0 broker in
    let o = (text_eq_iff r.broker_order_id i.broker_order_id).0 order in
    let a = opt_int_eq_path r.broker_account_id i.broker_account_id (ground arith) in
    let t = opt_text_eq_path r.broker_route i.broker_route (ground arith) in cc

-- What `bind` that returns has checked
record Checked (i : OrderIdentity) (rows t : List OrderIdentity) : Type 0 where
  for_client : differs_for_client i (first? (is_client_row i.client_order_id) rows) ≡ false
  for_broker : differs_for_broker i (first? (is_broker_row i.broker i.broker_order_id) rows) ≡ false
  rows_now : t ≡ insert_or_ignore i rows

bind-Checked :
    (i : OrderIdentity) (rows : List OrderIdentity) → Ensures (bind i rows) (Checked i rows)
unfolding bind
bind-Checked i rows =
    Ensures-then (Checked i rows)
      (raise_if (is_empty i.client_order_id || is_empty i.broker || is_empty i.broker_order_id)
        IdentityError.ids_required)
      _
      (λ _. Ensures-then (Checked i rows) (validate_scope i) _ (λ _.
        Ensures-guard (Checked i rows)
          (differs_for_client i (first? (is_client_row i.client_order_id) rows))
          IdentityError.client_bound _
          (λ client.
            Ensures-guard (Checked i rows)
              (differs_for_broker i (first? (is_broker_row i.broker i.broker_order_id) rows))
              IdentityError.broker_order_bound _
              (λ broker. record { for_client = client; for_broker = broker; rows_now = refl }))))

client_row_is :
    (i r : OrderIdentity) (rows t : List OrderIdentity)
    → Checked i rows t
    → first? (is_client_row i.client_order_id) rows ≡ some r
    → r ≡ i
client_row_is i r rows t c found =
    let same = rw found at c.for_client in
    let holds = first?-holds (is_client_row i.client_order_id) rows found in
    row_path r i holds (ground arith) (ground arith) (ground arith)

broker_row_is :
    (i r : OrderIdentity) (rows t : List OrderIdentity)
    → Checked i rows t
    → first? (is_broker_row i.broker i.broker_order_id) rows ≡ some r
    → r ≡ i
broker_row_is i r rows t c found =
    let same = rw found at c.for_broker in
    let holds = first?-holds (is_broker_row i.broker i.broker_order_id) rows found in
    row_path r i (ground arith) (ground arith) (ground arith) (ground arith)

-- Another broker has an order of the same id.
abbrev pub is_taken : OrderIdentity → OrderIdentity → Bool
is_taken i row = text_eq row.broker_order_id i.broker_order_id && not (text_eq row.broker i.broker)

no_conflict :
    (i : OrderIdentity) (rows : List OrderIdentity)
    → any (is_client_row i.client_order_id) rows ≡ false
    → any (is_broker_row i.broker i.broker_order_id) rows ≡ false
    → any (is_taken i) rows ≡ false
    → any (conflicts i) rows ≡ false
no_conflict i [] h k l = refl
no_conflict i (r ∷ rows) h k l =
    let rest = no_conflict i rows (ground arith) (ground arith) (ground arith) in ground arith

client_row_self : (i : OrderIdentity) → is_client_row i.client_order_id i ≡ true
client_row_self i = text_eq_refl i.client_order_id

broker_row_self : (i : OrderIdentity) → is_broker_row i.broker i.broker_order_id i ≡ true
broker_row_self i =
    ground (arith, text_eq_iff i.broker i.broker, text_eq_iff i.broker_order_id i.broker_order_id)

-- The two rows that a registry finds for `i`
abbrev pub Finds : OrderIdentity → List OrderIdentity → Type 0
Finds i t =
    (first? (is_client_row i.client_order_id) t ≡ some i)
    × (first? (is_broker_row i.broker i.broker_order_id) t ≡ some i)

-- The client has no row before.
found_new :
    (i : OrderIdentity) (rows t : List OrderIdentity)
    → Checked i rows t
    → any (is_taken i) rows ≡ false
    → first? (is_client_row i.client_order_id) rows ≡ none
    → Finds i t
unfolding insert_or_ignore
found_new i rows t c free absent =
    let client = first?-absent (is_client_row i.client_order_id) rows absent in
    elim (Option-cases (first? (is_broker_row i.broker i.broker_order_id) rows)) [
      | inl none_broker ↦
          rw
            (
              c.rows_now,
              no_conflict i rows client
                  (first?-absent (is_broker_row i.broker i.broker_order_id) rows none_broker) free,
            )
            (
              first?-snoc (is_client_row i.client_order_id) rows i absent (client_row_self i),
              first?-snoc (is_broker_row i.broker i.broker_order_id) rows i none_broker
                  (broker_row_self i),
            )
      | inr (q, found) ↦ absurd (
          ground (
            arith,
            client,
            first?-any (is_broker_row i.broker i.broker_order_id) (is_client_row i.client_order_id)
                rows found
                (ap (is_client_row i.client_order_id) (broker_row_is i q rows t c found)
                  ∙ client_row_self i),
          ))
    ]

-- The client has its row already.
found_again :
    (i r : OrderIdentity) (rows t : List OrderIdentity)
    → Checked i rows t
    → first? (is_client_row i.client_order_id) rows ≡ some r
    → Finds i t
unfolding insert_or_ignore
found_again i r rows t c found =
    let same = client_row_is i r rows t c found in
    let conflicting : any (conflicts i) rows ≡ true =
      first?-any (is_client_row i.client_order_id) (conflicts i) rows found
        (ap (conflicts i) same ∙ ground (arith, client_row_self i)) in
    let broker : any (is_broker_row i.broker i.broker_order_id) rows ≡ true =
      first?-any (is_client_row i.client_order_id) (is_broker_row i.broker i.broker_order_id) rows
        found (ap (is_broker_row i.broker i.broker_order_id) same ∙ broker_row_self i) in
    rw (c.rows_now, conflicting)
      (
        found ∙ ap some same,
        elim (Option-cases (first? (is_broker_row i.broker i.broker_order_id) rows)) [
          | inl none_broker ↦ absurd (
              ground (
                arith,
                broker,
                first?-absent (is_broker_row i.broker i.broker_order_id) rows none_broker,
              ))
          | inr (q, at) ↦ at ∙ ap some (broker_row_is i q rows t c at)
        ],
      )

lookups_bound :
    (i : OrderIdentity) (rows t : List OrderIdentity)
    → Checked i rows t
    → any (is_taken i) rows ≡ false
    → Finds i t
lookups_bound i rows t c free =
    elim (Option-cases (first? (is_client_row i.client_order_id) rows)) [
      | inl absent ↦ found_new i rows t c free absent
      | inr (r, found) ↦ found_again i r rows t c found
    ]

scoped_self : (i : OrderIdentity) → scoped i.broker_account_id i.broker_route (some i) ≡ some i
scoped_self i =
    rw (opt_int_eq_refl i.broker_account_id, opt_text_eq_refl i.broker_route) (ground arith)

-- What `bind` has bound is found from both sides, with its account, where no other broker has an
-- order of the same id.
pub bind-lookups :
    (i : OrderIdentity) (rows t : List OrderIdentity)
    → bind i rows ≡ ok t
    → any (is_taken i) rows ≡ false
    → (by_client i.client_order_id i.broker_account_id i.broker_route t ≡ some i)
      × (by_broker i.broker i.broker_order_id i.broker_account_id i.broker_route t ≡ some i)
unfolding by_client by_broker
bind-lookups i rows t returned free =
    let found =
      lookups_bound i rows t
        (Ensures-ok (Checked i rows) (bind i rows) (bind-Checked i rows) returned) free in
    (
      ap (scoped i.broker_account_id i.broker_route) found.0 ∙ scoped_self i,
      ap (scoped i.broker_account_id i.broker_route) found.1 ∙ scoped_self i,
    )

any_taken :
    (i : OrderIdentity) (rows : List OrderIdentity)
    → any (is_taken i) rows ≡ true
    → any (conflicts i) rows ≡ true
any_taken i [] h = absurd (ground arith)
any_taken i (r ∷ rows) h = ground (arith, any_taken i rows)

-- Where another broker has an order of the same id, `bind` of a new client's order can return, and
-- then it has stored nothing: the client's order is not found.
pub bind-ignored :
    (i : OrderIdentity) (rows t : List OrderIdentity)
    → bind i rows ≡ ok t
    → first? (is_client_row i.client_order_id) rows ≡ none
    → any (is_taken i) rows ≡ true
    → (t ≡ rows) × (by_client i.client_order_id none none t ≡ none)
unfolding by_client insert_or_ignore
bind-ignored i rows t returned absent taken =
    let c = Ensures-ok (Checked i rows) (bind i rows) (bind-Checked i rows) returned in
    let same : t ≡ rows = c.rows_now ∙ rw (any_taken i rows taken) refl in
    (
      same,
      ap (λ x. scoped none none (first? (is_client_row i.client_order_id) x)) same ∙ rw absent refl,
    )
