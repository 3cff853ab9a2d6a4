-- ===== src/Prelude/Dicts.antt =====
-- A Python dict keyed by texts, in insertion order.
use mathlib.Core.Path.{◌≡◌, refl, sym, ap, ◌∙◌}
use mathlib.Core.Logic.{◌≢◌, ◌⊎◌, inl, inr}
use mathlib.Core.Bool.{Bool, false}
use mathlib.Core.List.{List, [], ◌∷◌}
use mathlib.Core.Option.{Option, none, some}
use native.Mathlib.Omega.{arith}
use ai_trading_platform_mobi.Prelude.Tests.{if◌then◌else◌, is_some, Bool-cases}
use ai_trading_platform_mobi.Prelude.Lists.{All, All-mono}
use ai_trading_platform_mobi.Prelude.Texts.{Text, text_eq, text_eq_iff, text_leb, text_leb_refl}

abbrev pub Dict {ℓ} : Type ℓ → Type ℓ
Dict V = List (Text × V)

module _ {ℓ} {V : Type ℓ} where
  -- `d.get(k)`
  abbrev pub lookup : Text → Dict V → Option V
  lookup k [] = none
  lookup k ((j, v) ∷ d) = if text_eq k j then some v else lookup k d

  -- `k in d`
  abbrev pub values : Dict V → List V
  values [] = []
  values ((_, v) ∷ d) = v ∷ values d

  abbrev pub contains : Text → Dict V → Bool
  contains k d = is_some (lookup k d)

  -- `d[k] = v`
  abbrev pub insert : Text → V → Dict V → Dict V
  insert k v [] = (k, v) ∷ []
  insert k v (e ∷ d) = if text_eq k e.0 then (e.0, v) ∷ d else e ∷ insert k v d

  -- `d.pop(k, None)`
  abbrev pub erase : Text → Dict V → Dict V
  erase k [] = []
  erase k (e ∷ d) = if text_eq k e.0 then d else e ∷ erase k d

  -- Every key stands once.
  abbrev pub HasUniqueKeys : Dict V → Type 0
  HasUniqueKeys [] = Unit
  HasUniqueKeys ((k, _) ∷ d) = (contains k d ≡ false) × HasUniqueKeys d

  pub lookup-insert :
      (k j : Text) (v : V) (d : Dict V)
      → lookup j (insert k v d) ≡ (if text_eq j k then some v else lookup j d)
  lookup-insert k j v [] = refl
  lookup-insert k j v (e ∷ d) =
      ground (arith, lookup-insert k j v d, text_eq_iff k e.0, text_eq_iff j e.0, text_eq_iff j k)

  pub lookup-insert_self : (k : Text) (v : V) (d : Dict V) → lookup k (insert k v d) ≡ some v
  lookup-insert_self k v d = ground (arith, lookup-insert k k v d, text_eq_iff k k)

  pub lookup-insert_ne :
      (k j : Text) (v : V) (d : Dict V) → j ≢ k → lookup j (insert k v d) ≡ lookup j d
  lookup-insert_ne k j v d h = ground (arith, lookup-insert k j v d, text_eq_iff j k)

  pub lookup-erase_ne : (k j : Text) (d : Dict V) → j ≢ k → lookup j (erase k d) ≡ lookup j d
  lookup-erase_ne k j [] h = refl
  lookup-erase_ne k j (e ∷ d) h =
      ground (arith, lookup-erase_ne k j d h, text_eq_iff k e.0, text_eq_iff j e.0)

  pub lookup-erase_self : (k : Text) (d : Dict V) → HasUniqueKeys d → lookup k (erase k d) ≡ none
  lookup-erase_self k [] h = refl
  lookup-erase_self k (e ∷ d) h = ground (arith, lookup-erase_self k d h.1, text_eq_iff k e.0)

  pub insert-HasUniqueKeys :
      (k : Text) (v : V) (d : Dict V) → HasUniqueKeys d → HasUniqueKeys (insert k v d)
  insert-HasUniqueKeys k v [] h = (refl, tt)
  insert-HasUniqueKeys k v (e ∷ d) h = ground (
    arith,
    insert-HasUniqueKeys k v d h.1,
    lookup-insert k e.0 v d,
    text_eq_iff k e.0,
    text_eq_iff e.0 k,
  )

  pub erase-HasUniqueKeys : (k : Text) (d : Dict V) → HasUniqueKeys d → HasUniqueKeys (erase k d)
  erase-HasUniqueKeys k [] h = tt
  erase-HasUniqueKeys k (e ∷ d) h = ground (
    arith,
    erase-HasUniqueKeys k d h.1,
    lookup-erase_ne k e.0 d,
    text_eq_iff k e.0,
    text_eq_iff e.0 k,
  )

  -- An entry after a write is the one written, or was there before under another key.
  pub insert-cases :
      (k : Text) (v : V) (d : Dict V) (j : Text) {w : V}
      → lookup j (insert k v d) ≡ some w
      → ((j ≡ k) × (some v ≡ some w)) ⊎ ((text_eq j k ≡ false) × (lookup j d ≡ some w))
  insert-cases k v d j {w} h = elim (Bool-cases (text_eq j k)) [
    | inl e ↦ inl ((text_eq_iff j k).0 e, sym (rw e at (lookup-insert k j v d)) ∙ h)
    | inr e ↦ inr (e, sym (rw e at (lookup-insert k j v d)) ∙ h)
  ]

  -- Every value is found at a key.
  pub values-lookup :
      (d : Dict V) → HasUniqueKeys d → All (λ v. (k : Text) × (lookup k d ≡ some v)) (values d)
  values-lookup [] h = tt
  values-lookup ((k, v) ∷ d) h = (
    (k, ground (arith, text_eq_iff k k)),
    All-mono (values d) (λ w at. (at.0, ground (arith, at.1, text_eq_iff at.0 k, h.0)))
        (values-lookup d h.1),
  )

module _ {ℓ} {V : Type ℓ} where
  abbrev pub insert_key : Text × V → Dict V → Dict V
  insert_key e [] = e ∷ []
  insert_key e (f ∷ d) = if text_leb e.0 f.0 then e ∷ f ∷ d else f ∷ insert_key e d

  -- The keys in the order of texts
  abbrev pub sort_keys : Dict V → Dict V
  sort_keys [] = []
  sort_keys (e ∷ d) = insert_key e (sort_keys d)

  lookup-insert_key :
      (k : Text) (e : Text × V) (d : Dict V)
      → lookup k (insert_key e d) ≡ (if text_eq k e.0 then some e.1 else lookup k d)
  lookup-insert_key k e [] = refl
  lookup-insert_key k e (f ∷ d) = ground (
    arith,
    lookup-insert_key k e d,
    text_eq_iff k e.0,
    text_eq_iff k f.0,
    text_leb_refl f.0,
    ap (λ x. text_leb x f.0),
  )

  pub lookup-sort_keys : (k : Text) (d : Dict V) → lookup k (sort_keys d) ≡ lookup k d
  lookup-sort_keys k [] = refl
  lookup-sort_keys k (e ∷ d) =
      ground (arith, lookup-insert_key k e (sort_keys d), lookup-sort_keys k d)
