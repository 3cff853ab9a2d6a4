-- ===== src/Execution/Intents/Kept.antt =====
-- An intent of backend/app/submission_intent_store.py in a table, as it was or later.
use ai_trading_platform_mobi.Prelude.{
  ℕ, ◌≡◌, refl, sym, ap, ◌∙◌, ◌⊎◌, inl, inr, true, false, Option, none, some, arith, is_some,
  Bool-cases, Option-cases, ok, Ensures, Text, text_eq, text_eq_iff, lookup, insert, lookup-insert,
  Ensures-then, subst, sort_keys, lookup-sort_keys,
}
use ai_trading_platform_mobi.Execution.Intents.{
  Intent, Request, Store, replay, new_intent, is_resolved, is_bound_to_other, bind_broker,
}
use ai_trading_platform_mobi.Execution.Intents.Files.{
  Disk, load_from, load, replace, replace_all, replacements, save, create_file, record_broker_file,
  resolve_file,
}

-- An intent after some calls: its request and its broker order stay, and nothing changes once it is
-- resolved. A resolved intent has a broker order.
abbrev pub Later : Intent → Intent → Type 0
Later i j =
    (j.request_fingerprint ≡ i.request_fingerprint)
    × (j.symbol ≡ i.symbol)
    × (j.side ≡ i.side)
    × (j.quantity ≡ i.quantity)
    × (j.route ≡ i.route)
    × (j.account_id ≡ i.account_id)
    × (is_some i.broker_order_id ≡ true → j.broker_order_id ≡ i.broker_order_id)
    × (is_resolved i ≡ true → j ≡ i)
    × (is_resolved j ≡ true → is_resolved i ≡ true ⊎ is_some j.broker_order_id ≡ true)

pub Later-refl : (i : Intent) → Later i i
Later-refl i = (refl, refl, refl, refl, refl, refl, λ _. refl, λ _. refl, λ e. inl e)

Later-trans : (i j k : Intent) → Later i j → Later j k → Later i k
Later-trans i j k g h = grind arith

abbrev pub Kept : Intent → Option Intent → Type 0
Kept i none = true ≡ false
Kept i (some j) = Later i j

-- The intent of an id in a table is there later.
abbrev pub Keeps : Text → Intent → Store → Type 0
Keeps id i t = Kept i (lookup id t)

pub update-Keeps :
    (id k : Text) (i row new : Intent) (t : Store)
    → Keeps id i t
    → lookup k t ≡ some row
    → Later row new
    → Keeps id i (insert k new t)
update-Keeps id k i row new t h found next = elim (Bool-cases (text_eq id k)) [
  | inl e ↦
      rw (lookup-insert k id new t, e)
        (Later-trans i row new
          (subst (Kept i) (ap (λ x. lookup x t) ((text_eq_iff id k).0 e) ∙ found) h) next)
  | inr e ↦ rw (lookup-insert k id new t, e) h
]

-- A row under an id that has none changes no other one.
pub new-Keeps :
    (id k : Text) (i new : Intent) (t : Store)
    → Keeps id i t
    → lookup k t ≡ none
    → Keeps id i (insert k new t)
new-Keeps id k i new t h absent = elim (Bool-cases (text_eq id k)) [
  | inl e ↦
      absurd
        (ground (arith, subst (Kept i) (ap (λ x. lookup x t) ((text_eq_iff id k).0 e) ∙ absent) h))
  | inr e ↦ rw (lookup-insert k id new t, e) h
]

bound_once :
    (o : Option Text) (b : Text) → is_bound_to_other o b ≡ false → is_some o ≡ true → some b ≡ o
bound_once none b h e = ground arith
bound_once (some a) b h e = ap some (sym ((text_eq_iff a b).0 (ground arith)))

-- A broker order that is bound to an intent that is not resolved, and was bound to no other
pub bind_broker-Later :
    (row : Intent) (b status : Text) (now : ℕ)
    → is_resolved row ≡ false
    → is_bound_to_other row.broker_order_id b ≡ false
    → Later row (bind_broker row b status now)
bind_broker-Later row b status now live same = (
  refl,
  refl,
  refl,
  refl,
  refl,
  refl,
  bound_once row.broker_order_id b same,
  λ e. absurd (ground (arith, e, live)),
  λ _. inr refl,
)

-- The intent that is resolved has a broker order.
pub resolved-Later :
    (row : Intent) (now : ℕ)
    → is_resolved row ≡ false
    → is_some row.broker_order_id ≡ true
    → Later row (record row { resolved_at = some now })
resolved-Later row now live bound = (
  refl,
  refl,
  refl,
  refl,
  refl,
  refl,
  λ _. refl,
  λ e. absurd (ground (arith, e, live)),
  λ _. inr bound,
)

-- The files hold the intent, as it was or later.
abbrev pub KeepsOn : Text → Intent → Disk → Type 0
KeepsOn id i disk = (t : Store) × (load disk ≡ ok t) × Keeps id i t

save-KeepsOn :
    (id : Text) (i : Intent) (t : Store) (disk : Disk) → Keeps id i t → KeepsOn id i (save t disk)
unfolding replace_all replacements replace load_from
save-KeepsOn id i t disk k = (sort_keys t, refl, subst (Kept i) (sym (lookup-sort_keys id t)) k)

pub create_file-KeepsOn :
    (id : Text) (i : Intent) (r : Request) (now : ℕ) (disk : Disk)
    → KeepsOn id i disk
    → Ensures (create_file r now disk) (λ x. KeepsOn id i x.1)
unfolding create_file
create_file-KeepsOn id i r now disk (t, h, k) = (elim (Option-cases (lookup r.client_order_id t)) [
  | inl absent ↦
      rw (h, Ensures, absent)
        (save-KeepsOn id i (insert r.client_order_id (new_intent r now) t) disk
          (new-Keeps id r.client_order_id i (new_intent r now) t k absent))
  | inr (row, found) ↦
      rw (h, Ensures, found)
        (Ensures-then (λ x. KeepsOn id i x.1) (replay row r.request_fingerprint) _ (λ _. (t, h, k)))
])

pub record_broker_file-KeepsOn :
    (id : Text) (i : Intent) (c b status : Text) (now : ℕ) (disk : Disk)
    → KeepsOn id i disk
    → Ensures (record_broker_file c b status now disk) (KeepsOn id i)
unfolding record_broker_file
record_broker_file-KeepsOn id i c b status now disk (t, h, k) = (elim (Option-cases (lookup c t)) [
  | inl absent ↦ rw (h, Ensures, absent) tt
  | inr (row, found) ↦ elim (Bool-cases (is_resolved row)) [
    | inl resolved ↦ rw (h, Ensures, found, resolved) tt
    | inr live ↦ elim (Bool-cases (is_bound_to_other row.broker_order_id b)) [
      | inl other ↦ rw (h, Ensures, found, live, other) tt
      | inr same ↦
          rw (h, Ensures, found, live, same)
            (save-KeepsOn id i (insert c (bind_broker row b status now) t) disk (
              update-Keeps id c i row (bind_broker row b status now) t k found
                (bind_broker-Later row b status now live same)))
    ]
  ]
])

pub resolve_file-KeepsOn :
    (id : Text) (i : Intent) (c : Text) (now : ℕ) (disk : Disk)
    → KeepsOn id i disk
    → Ensures (resolve_file c now disk) (KeepsOn id i)
unfolding resolve_file
resolve_file-KeepsOn id i c now disk (t, h, k) = (elim (Option-cases (lookup c t)) [
  | inl absent ↦ rw (h, Ensures, absent) tt
  | inr (row, found) ↦ elim (Bool-cases (is_some row.broker_order_id)) [
    | inr unbound ↦ rw (h, Ensures, found, unbound) tt
    | inl bound ↦ elim (Bool-cases (is_resolved row)) [
      | inl resolved ↦ rw (h, Ensures, found, bound, resolved) (t, h, k)
      | inr live ↦
          rw (h, Ensures, found, bound, live)
            (save-KeepsOn id i (insert c (record row { resolved_at = some now }) t) disk (
              update-Keeps id c i row (record row { resolved_at = some now }) t k found
                (resolved-Later row now live bound)))
    ]
  ]
])
