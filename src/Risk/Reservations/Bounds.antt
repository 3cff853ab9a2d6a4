-- ===== src/Risk/Reservations/Bounds.antt =====
-- The exposure that the book of backend/app/risk_gate.py can hold.
use ai_trading_platform_mobi.Prelude.{
  ℕ, ◌+◌, ◌≤◌, ◌≡◌, refl, ◌⊎◌, true, false, none, [], ◌∷◌, arith, ℤ, pos, ◌+ℤ◌, ◌-ℤ◌, ◌≤ℤ◌, neg,
  abs, parts_apart, int_laws, +ℤ_assoc, Text, text_eq, text_eq_iff, text_eq_refl, lookup, contains,
  insert, erase, HasUniqueKeys, lookup-insert_self, insert-HasUniqueKeys, erase-HasUniqueKeys,
  text_eq_sym,
}
use ai_trading_platform_mobi.Risk.Reservations.{Book, total, total_except, reserve, update, release}

-- The reserved total with the position stays inside the limit, up to a slack in units of 1e-9.
abbrev pub IsWithin : ℤ → ℤ → ℕ → ℤ → Type 0
IsWithin position limit slack sum = pos (abs (position +ℤ sum)) ≤ℤ limit +ℤ pos slack

pub total-insert_new :
    (k : Text) (v : ℤ) (b : Book) → lookup k b ≡ none → total (insert k v b) ≡ total b +ℤ v
unfolding total
total-insert_new k v [] h = omega int_laws
total-insert_new k v (e ∷ b) h = grind (int_laws, total-insert_new k v b)

total_except_of_absent : (k : Text) (b : Book) → contains k b ≡ false → total_except k b ≡ total b
unfolding total total_except
total_except_of_absent k [] h = refl
total_except_of_absent k (e ∷ b) h =
    ground (arith, text_eq_iff k e.0, text_eq_iff e.0 k, total_except_of_absent k b)

-- Replacing one reservation changes the total as the source's sum over the others says.
total-insert :
    (k : Text) (v : ℤ) (b : Book) → HasUniqueKeys b → total (insert k v b) ≡ total_except k b +ℤ v
unfolding total total_except
total-insert k v [] h = omega int_laws
total-insert k v (e ∷ b) h = grind (
  int_laws,
  text_eq_iff k e.0,
  text_eq_sym e.0 k,
  total_except_of_absent k b,
  total-insert k v b h.1,
)

total-erase : (k : Text) (b : Book) → HasUniqueKeys b → total (erase k b) ≡ total_except k b
unfolding total total_except
total-erase k [] h = refl
total-erase k (e ∷ b) h = grind (
  int_laws,
  text_eq_iff k e.0,
  text_eq_sym e.0 k,
  total_except_of_absent k b,
  total-erase k b h.1,
)

-- A reservation that is made for a new order leaves the position with all reservations within
-- the limit, up to 1e-9.
pub reserve-IsWithin :
    (k : Text) (q position limit : ℤ) (b : Book)
    → lookup k b ≡ none
    → (reserve k q position limit b).0 ≡ true
    → IsWithin position limit 1 (total (reserve k q position limit b).1)
unfolding reserve
reserve-IsWithin k q position limit b new done =
    ground (arith, total-insert_new k q b new, +ℤ_assoc position (total b) q)

-- A reservation that is not made leaves the book as it is, and so does one that is already there.
pub reserve_unchanged :
    (k : Text) (q position limit : ℤ) (b : Book)
    → ((reserve k q position limit b).0 ≡ false) ⊎ (contains k b ≡ true)
    → (reserve k q position limit b).1 ≡ b
unfolding reserve
reserve_unchanged k q position limit b h = ground arith

drop_negligible :
    (position other q limit : ℤ)
    → pos (abs (position +ℤ other +ℤ q)) ≤ℤ limit +ℤ pos 1
    → abs q ≤ 1
    → pos (abs (position +ℤ other)) ≤ℤ limit +ℤ pos 2
drop_negligible position other q limit h k =
    omega (int_laws, parts_apart (position +ℤ other), parts_apart (position +ℤ other +ℤ q))

widen : (x limit : ℤ) → pos (abs x) ≤ℤ limit +ℤ pos 1 → pos (abs x) ≤ℤ limit +ℤ pos 2
widen x limit h = omega int_laws

-- An update that is made keeps the position with all reservations within the limit; a remainder
-- of 1e-9 or less is dropped, which costs 1e-9 more.
pub update-IsWithin :
    (k : Text) (q position limit : ℤ) (b : Book)
    → HasUniqueKeys b
    → (update k q position limit b).0 ≡ true
    → IsWithin position limit 2 (total (update k q position limit b).1)
unfolding update
update-IsWithin k q position limit b h done = ground (
  arith,
  total-insert k q b h,
  total-erase k b h,
  +ℤ_assoc position (total_except k b) q,
  drop_negligible position (total_except k b) q limit,
  widen (position +ℤ total_except k b +ℤ q) limit,
)

-ℤ_self : (q : ℤ) → q -ℤ q ≡ pos 0
-ℤ_self q = omega int_laws

-- Making the same reservation again succeeds and changes nothing.
pub reserve_again :
    (k : Text) (q position limit : ℤ) (b : Book)
    → (reserve k q position limit b).0 ≡ true
    → let b' = (reserve k q position limit b).1 in reserve k q position limit b' ≡ (true, b')
unfolding reserve
reserve_again k q position limit b done = ground (arith, -ℤ_self q, lookup-insert_self k q b)

-- Each operation keeps one entry for each client order.
pub update-HasUniqueKeys :
    (k : Text) (q position limit : ℤ) (b : Book)
    → HasUniqueKeys b
    → HasUniqueKeys (reserve k q position limit b).1
      × HasUniqueKeys (update k q position limit b).1
      × HasUniqueKeys (release k b)
unfolding reserve update
update-HasUniqueKeys k q position limit b h = (
  ground (arith, insert-HasUniqueKeys k q b h),
  ground (arith, insert-HasUniqueKeys k q b h, erase-HasUniqueKeys k b h),
  erase-HasUniqueKeys k b h,
)

-- The limit is held for the sum only: after a BUY of the whole limit, a SELL of the same size and
-- a second such BUY, all three accepted from no position, releasing the SELL leaves twice the
-- limit reserved.
pub release_exceeds :
    (x y z : Text) (n : ℕ)
    → text_eq y x ≡ false
    → text_eq z x ≡ false
    → text_eq z y ≡ false
    → (reserve x (pos n) (pos 0) (pos n) [] ≡ (true, (x, pos n) ∷ []))
      × (reserve y (neg (pos n)) (pos 0) (pos n) ((x, pos n) ∷ [])
          ≡ (true, (x, pos n) ∷ (y, neg (pos n)) ∷ []))
      × (reserve z (pos n) (pos 0) (pos n) ((x, pos n) ∷ (y, neg (pos n)) ∷ [])
          ≡ (true, (x, pos n) ∷ (y, neg (pos n)) ∷ (z, pos n) ∷ []))
      × (total (release y ((x, pos n) ∷ (y, neg (pos n)) ∷ (z, pos n) ∷ [])) ≡ pos (n + n))
unfolding reserve total neg ◌+ℤ◌
release_exceeds x y z n xy xz yz =
    (ground arith, ground arith, ground arith, ground (arith, text_eq_refl y))
