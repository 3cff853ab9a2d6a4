-- ===== src/Risk/Store/Exposure.antt =====
-- The exposure that backend/app/risk_reservation_store.py lets be reserved.
use ai_trading_platform_mobi.Prelude.{
  ℕ, ◌+◌, ◌*◌, ◌/◌, ◌≡◌, refl, sym, inl, inr, true, false, some, [], ◌∷◌, ◌++◌, arith,
  if◌then◌else◌, Bool-cases, ℤ, pos, negsuc, ◌+ℤ◌, ◌≤ℤ◌, int_laws, Text, text_eq, subst,
}
use ai_trading_platform_mobi.Risk.Store.{
  Row, Table, to_column, find_id, in_scope, active_sum, update_row,
}

-- The amount is not negative and a multiple of 1e-8, as the column has it.
abbrev pub IsColumn : ℤ → Type 0
IsColumn x = (k : ℕ) × (x ≡ pos (k * 10))

-- Every amount of the table is one of the column.
abbrev pub AreColumns : Table → Type 0
AreColumns [] = Unit
AreColumns (r ∷ t) = IsColumn r.amount × AreColumns t

pub to_column-IsColumn : (x : ℤ) → pos 0 ≤ℤ x → IsColumn (to_column x)
unfolding to_column
to_column-IsColumn (pos n) h = ((n + 5) / 10, refl)
to_column-IsColumn (negsuc n) h = absurd (ground arith)

-- The column rounds up by half a unit at most.
pub to_column_up : (x : ℤ) → pos 0 ≤ℤ x → to_column x ≤ℤ x +ℤ pos 5
unfolding to_column
to_column_up (pos n) h = omega int_laws
to_column_up (negsuc n) h = absurd (ground arith)

-- What is at most an amount of the column is rounded to at most that.
pub to_column_below : (x y : ℤ) → pos 0 ≤ℤ x → IsColumn y → x ≤ℤ y → to_column x ≤ℤ y
unfolding to_column
to_column_below (pos n) y h (k, e) l = ground (arith, e)
to_column_below (negsuc n) y h (k, e) l = absurd (ground arith)

pub IsColumn_nonneg : (x : ℤ) → IsColumn x → pos 0 ≤ℤ x
IsColumn_nonneg x (k, e) = ground (arith, e)

-- What a row adds to the sum of a scope
abbrev pub share : Text → Text → Row → ℤ
share a r row = if in_scope a r row then row.amount else pos 0

pub active_sum-append :
    (a r : Text) (t : Table) (row : Row)
    → active_sum a r (t ++ (row ∷ [])) ≡ active_sum a r t +ℤ share a r row
unfolding active_sum
active_sum-append a r [] row = grind int_laws
active_sum-append a r (q ∷ t) row = grind (int_laws, active_sum-append a r t row)

pub AreColumns-append :
    (t : Table) (row : Row) → AreColumns t → IsColumn row.amount → AreColumns (t ++ (row ∷ []))
AreColumns-append [] row h p = (p, tt)
AreColumns-append (q ∷ t) row h p = (h.0, AreColumns-append t row h.1 p)

found_here :
    (k : Text) (q row : Row) (t : Table)
    → find_id k (q ∷ t) ≡ some row
    → text_eq k q.reservation_id ≡ true
    → q ≡ row
unfolding find_id
found_here k q row t h e = ground arith

found_later :
    (k : Text) (q row : Row) (t : Table)
    → find_id k (q ∷ t) ≡ some row
    → text_eq k q.reservation_id ≡ false
    → find_id k t ≡ some row
unfolding find_id
found_later k q row t h e = ground arith

active_sum-update :
    (a r k : Text) (f : Row → Row) (t : Table) (row : Row)
    → find_id k t ≡ some row
    → share a r (f row) ≤ℤ share a r row
    → active_sum a r (update_row k f t) ≤ℤ active_sum a r t
unfolding active_sum find_id update_row
active_sum-update a r k f [] row h l = ground arith
active_sum-update a r k f (q ∷ t) row h l = elim (Bool-cases (text_eq k q.reservation_id)) [
  | inl e ↦
      let le = subst (λ x. share a r (f x) ≤ℤ share a r x) (sym (found_here k q row t h e)) l in
      rw e (grind int_laws)
  | inr e ↦
      let le = active_sum-update a r k f t row (found_later k q row t h e) l in
      rw e (grind int_laws)
]

AreColumns-update :
    (k : Text) (f : Row → Row) (t : Table) (row : Row)
    → find_id k t ≡ some row
    → IsColumn (f row).amount
    → AreColumns t
    → AreColumns (update_row k f t)
unfolding find_id update_row
AreColumns-update k f [] row h p s = tt
AreColumns-update k f (q ∷ t) row h p s = elim (Bool-cases (text_eq k q.reservation_id)) [
  | inl e ↦ rw e (subst (λ x. IsColumn (f x).amount) (sym (found_here k q row t h e)) p, s.1)
  | inr e ↦ rw e (s.0, AreColumns-update k f t row (found_later k q row t h e) p s.1)
]

pub find_id-IsColumn :
    (k : Text) (t : Table) (row : Row) → find_id k t ≡ some row → AreColumns t → IsColumn row.amount
unfolding find_id
find_id-IsColumn k [] row h p = absurd (ground arith)
find_id-IsColumn k (q ∷ t) row h p = elim (Bool-cases (text_eq k q.reservation_id)) [
  | inl e ↦ subst (λ x. IsColumn x.amount) (found_here k q row t h e) p.0
  | inr e ↦ find_id-IsColumn k t row (found_later k q row t h e) p.1
]

-- The amounts are those of the column, and at most `m` is reserved for any account and route.
abbrev pub IsSafe : ℤ → Table → Type 0
IsSafe m t = AreColumns t × ((a r : Text) → active_sum a r t ≤ℤ m)

pub update-IsSafe :
    (m : ℤ) (k : Text) (f : Row → Row) (t : Table) (row : Row)
    → find_id k t ≡ some row
    → IsColumn (f row).amount
    → ((a r : Text) → share a r (f row) ≤ℤ share a r row)
    → IsSafe m t
    → IsSafe m (update_row k f t)
update-IsSafe m k f t row h p l s = (
  AreColumns-update k f t row h p s.0,
  λ a r. ground (arith, active_sum-update a r k f t row h (l a r), s.1 a r),
)
