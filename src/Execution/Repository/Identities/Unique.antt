-- ===== src/Execution/Repository/Identities/Unique.antt =====
-- A broker order belongs to one client order (backend/app/transactional_execution_repository.py).
use ai_trading_platform_mobi.Prelude.{
  ◌≡◌, refl, sym, ap, ◌∙◌, ◌≢◌, ◌↔◌, inl, inr, true, not, ◌||◌, none, some, [], ◌∷◌, arith,
  Bool-cases, Option-cases, is_empty, raise_if, Ensures, pos, leb_ℤ, eq_ℤ, Text, text_eq,
  text_eq_iff, text_eq_refl, Dict, lookup, insert, HasUniqueKeys, lookup-insert_self,
  lookup-insert_ne, Ensures-then, insert-cases,
}
use ai_trading_platform_mobi.Execution.Repository.{Order, OrderIdentity, Database, RepositoryError}
use ai_trading_platform_mobi.Execution.Repository.Scopes.{eq_ℤ_iff}
use ai_trading_platform_mobi.Execution.Repository.Identities.{
  identity_eq, find_client, broker_fits, insert_identity, bind_row, order_row, bind_identity,
}

pub identity_eq_iff : (a b : OrderIdentity) → (identity_eq a b ≡ true) ↔ (a ≡ b)
unfolding identity_eq
identity_eq_iff a b = (
  λ h. ground (
    arith,
    text_eq_iff a.broker b.broker,
    text_eq_iff a.broker_order_id b.broker_order_id,
    eq_ℤ_iff a.broker_account_id b.broker_account_id,
    text_eq_iff a.broker_route b.broker_route,
  ),
  λ h. rw h (
      ground (
        arith,
        text_eq_refl b.broker,
        text_eq_refl b.broker_order_id,
        (eq_ℤ_iff b.broker_account_id b.broker_account_id).1 refl,
        text_eq_refl b.broker_route,
      )),
)

-- No two client orders have the same broker identity.
abbrev pub IsInjective : Dict OrderIdentity → Type 0
IsInjective rows =
    (c d : Text) (i : OrderIdentity) → lookup c rows ≡ some i → lookup d rows ≡ some i → c ≡ d

-- A dictionary finds the identity if some client has it.
find_client_complete :
    (i : OrderIdentity) (c : Text) (rows : Dict OrderIdentity)
    → find_client i rows ≡ none
    → lookup c rows ≢ some i
unfolding find_client
find_client_complete i c [] h k = cc
find_client_complete i c ((d, j) ∷ rows) h k =
    ground (arith, identity_eq_iff i j, find_client_complete i c rows, text_eq_iff c d)

insert-IsInjective :
    (client : Text) (i : OrderIdentity) (rows : Dict OrderIdentity)
    → IsInjective rows
    → ((c : Text) → lookup c rows ≢ some i)
    → IsInjective (insert client i rows)
insert-IsInjective client i rows h fresh c d j p q = elim (insert-cases client i rows c p) [
  | inl (c_is, i_is) ↦ elim (insert-cases client i rows d q) [
    | inl (d_is, _) ↦ c_is ∙ sym d_is
    | inr (_, old) ↦ absurd (fresh d (old ∙ sym i_is))
  ]
  | inr (_, old) ↦ elim (insert-cases client i rows d q) [
    | inl (_, i_is) ↦ absurd (fresh c (old ∙ sym i_is))
    | inr (_, old') ↦ h c d j old old'
  ]
]

-- What a binding leaves.
pub record Binds (client : Text) (i : OrderIdentity) (db db' : Database) : Type 0 where
  pub bound : lookup client db'.identities ≡ some i
  pub unique : IsInjective db'.identities
  pub others_kept : (c : Text) → c ≢ client → lookup c db'.identities ≡ lookup c db.identities
  pub orders_kept : db'.orders ≡ db.orders
  pub positions_kept : db'.positions ≡ db.positions
  pub events_kept : db'.events ≡ db.events

find_client_sound :
    (i : OrderIdentity) (rows : Dict OrderIdentity) {c : Text}
    → HasUniqueKeys rows
    → find_client i rows ≡ some c
    → lookup c rows ≡ some i
unfolding find_client
find_client_sound i [] h k = cc
find_client_sound i ((d, j) ∷ rows) {c} h k =
    ground (arith, identity_eq_iff i j, find_client_sound i rows {c = c} h.1, text_eq_iff c d)

-- The client has no row yet: the identity is fresh, or another client has it.
fresh_or_bound :
    (client : Text) (i : OrderIdentity) (rows : Dict OrderIdentity)
    → HasUniqueKeys rows
    → lookup client rows ≡ none
    → broker_fits client (find_client i rows) ≡ true
    → find_client i rows ≡ none
fresh_or_bound client i rows u new fits = elim (Option-cases (find_client i rows)) [
  | inl free ↦ free
  | inr (c, taken) ↦ absurd (
      none_some (
        sym new
        ∙ ap (λ x. lookup x rows) (sym ((text_eq_iff c client).0 (rw taken at fits)))
        ∙ find_client_sound i rows u taken))
]
  where
    none_some : none ≡ some i → ⊥
    none_some e = cc

inserted-Binds :
    (client : Text) (i : OrderIdentity) (db : Database)
    → IsInjective db.identities
    → find_client i db.identities ≡ none
    → Binds client i db (record db { identities = insert client i db.identities })
inserted-Binds client i db h free = record {
  bound = lookup-insert_self client i db.identities;
  unique =
      insert-IsInjective client i db.identities h
        (λ c. find_client_complete i c db.identities free);
  others_kept = λ c. lookup-insert_ne client c i db.identities;
  orders_kept = refl;
  positions_kept = refl;
  events_kept = refl;
}

bind_row-Binds :
    (client : Text) (i : OrderIdentity) (o : Order) (db : Database)
    → HasUniqueKeys db.identities
    → IsInjective db.identities
    → Ensures (bind_row client i o db) (Binds client i db)
unfolding bind_row insert_identity
bind_row-Binds client i o db u h =
    Ensures-then _
      (raise_if
        (not (eq_ℤ o.broker_account_id i.broker_account_id)
          || not (text_eq o.broker_route i.broker_route))
        RepositoryError.identity_mismatch)
      _
      λ _. (elim (Option-cases (lookup client db.identities)) [
        | inr (j, old) ↦ elim (Bool-cases (identity_eq j i)) [
          | inr bad ↦ rw (old, bad) tt
          | inl same ↦
              rw (old, same)
                (Ensures-then _
                  (raise_if (not (broker_fits client (find_client i db.identities)))
                    RepositoryError.broker_already_bound)
                  _ λ _. kept j old ((identity_eq_iff j i).0 same))
        ]
        | inl new ↦ rw new (elim (Bool-cases (broker_fits client (find_client i db.identities))) [
          | inr bad ↦ rw bad tt
          | inl fits ↦
              rw fits
                (inserted-Binds client i db h (fresh_or_bound client i db.identities u new fits))
        ])
      ])
  where
    kept : (j : OrderIdentity) → lookup client db.identities ≡ some j → j ≡ i → Binds client i db db
    kept j old same = record {
      bound = old ∙ ap some same;
      unique = h;
      others_kept = λ c e. refl;
      orders_kept = refl;
      positions_kept = refl;
      events_kept = refl;
    }

-- A successful binding gives the client order the identity, keeps it the only one with that
-- identity, and changes no other client order's row and no order, position or event.
pub bind_identity-Binds :
    (client : Text) (i : OrderIdentity) (db : Database)
    → HasUniqueKeys db.identities
    → IsInjective db.identities
    → Ensures (bind_identity client i db) (Binds client i db)
unfolding bind_identity
bind_identity-Binds client i db u h =
    Ensures-then _
      (raise_if (is_empty client || is_empty i.broker || is_empty i.broker_order_id)
        RepositoryError.missing_identity)
      _
      λ _.
        Ensures-then _
          (raise_if (leb_ℤ i.broker_account_id (pos 0) || is_empty i.broker_route)
            RepositoryError.missing_identity)
          _ λ _. Ensures-then _ (order_row client db) _ λ o. bind_row-Binds client i o db u h
