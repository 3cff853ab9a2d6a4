-- ===== src/Execution/Repository/Scopes.antt =====
-- Rows keyed by an account, a route and a name, in
-- backend/app/transactional_execution_repository.py.
use ai_trading_platform_mobi.Prelude.{
  ◌≡◌, ◌↔◌, true, none, some, List, [], ◌∷◌, arith, if◌then◌else◌, ℤ, pos, ◌+ℤ◌, eq_ℤ, eq_of_parts,
  int_laws, text_eq_iff, text_eq_refl,
}
use ai_trading_platform_mobi.Execution.Repository.{Scope, scope_eq, find_row, add_position}

pub eq_ℤ_iff : (a b : ℤ) → (eq_ℤ a b ≡ true) ↔ (a ≡ b)
eq_ℤ_iff a b = (λ h. eq_of_parts a b (ground arith), λ h. rw h (ground arith))

pub scope_eq_refl : (a : Scope) → scope_eq a a ≡ true
unfolding scope_eq
scope_eq_refl a = ground (arith, text_eq_refl a.route, text_eq_refl a.name)

pub scope_eq_iff : (a b : Scope) → (scope_eq a b ≡ true) ↔ (a ≡ b)
unfolding scope_eq
scope_eq_iff a b = (
  λ h.
      ground (
        arith,
        eq_ℤ_iff a.account b.account,
        text_eq_iff a.route b.route,
        text_eq_iff a.name b.name,
      ),
  λ h. rw h (scope_eq_refl b),
)

-- The quantity that a table has for a key; a missing row counts as 0.
unfoldable pub quantity_at : Scope → List (Scope × ℤ) → ℤ
quantity_at k rows = elim (find_row k rows) [ none ↦ pos 0 | some v ↦ v ]

zero-+ℤ : (d : ℤ) → pos 0 +ℤ d ≡ d
zero-+ℤ d = omega int_laws

-- An upsert adds to the quantity of its key and to no other.
pub quantity_at-add_position :
    (k j : Scope) (d : ℤ) (rows : List (Scope × ℤ))
    → quantity_at k (add_position j d rows)
      ≡ (if scope_eq k j then quantity_at k rows +ℤ d else quantity_at k rows)
unfolding quantity_at add_position find_row
quantity_at-add_position k j d [] = ground (arith, zero-+ℤ d)
quantity_at-add_position k j d (row ∷ rows) = ground (
  arith,
  quantity_at-add_position k j d rows,
  scope_eq_iff k j,
  scope_eq_iff k row.0,
  scope_eq_iff j row.0,
)

pub find_row-head :
    {V : Type 0} (k : Scope) (v : V) (rows : List (Scope × V)) → find_row k ((k, v) ∷ rows) ≡ some v
unfolding find_row
find_row-head k v rows = rw (scope_eq_refl k)
