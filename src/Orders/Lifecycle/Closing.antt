-- ===== src/Orders/Lifecycle/Closing.antt =====
-- A fill on the other side of its position in backend/app/order_lifecycle.py: the signed quantity
-- after a close, in part or whole, or a flip.
use ai_trading_platform_mobi.Prelude.{
  ◌≡◌, refl, sym, ◌∙◌, inl, inr, true, false, some, arith, Bool-cases, ℤ, pos, ◌+ℤ◌, ◌-ℤ◌, neg,
  ltb_ℤ, int_laws, +ℤ_comm, Text, codes, text_eq, Dict, lookup, insert, erase, lookup-insert,
  insert-HasUniqueKeys, erase-HasUniqueKeys, text_eq_sym, Fraction,
}
use ai_trading_platform_mobi.Orders.Lifecycle.{OrderRecord, PositionRecord}
use ai_trading_platform_mobi.Orders.Lifecycle.Positions.{min_ℤ, close_position}
use ai_trading_platform_mobi.Orders.Lifecycle.Effect.{
  is_side, signed, position_at, IsOpen, AreOpen, Adds, replaced-Adds, insert-Adds, lookup-erase,
  erase-Adds, opposite_sides, position_entry,
}

-- The opposite side turns the sign.
signed_opposite :
    (a b : Text) (x y z : ℤ)
    → is_side a ≡ true
    → is_side b ≡ true
    → text_eq a b ≡ false
    → z ≡ x -ℤ y
    → signed a z ≡ signed a x +ℤ signed b y
unfolding signed
signed_opposite a b x y z h k e d = elim (Bool-cases (text_eq a (codes "BUY"))) [
  | inl t ↦ rw (opposite_sides a b h k e, t, d) (omega int_laws)
  | inr t ↦ rw (opposite_sides a b h k e, t, d) (omega int_laws)
]

-- The three outcomes of closing `y` of `x`
min_kept : (x y : ℤ) → ltb_ℤ (pos 0) (x -ℤ min_ℤ x y) ≡ true → x -ℤ min_ℤ x y ≡ x -ℤ y
unfolding min_ℤ
min_kept x y h = elim (Bool-cases (ltb_ℤ y x)) [
  | inl e ↦ rw e refl
  | inr e ↦ absurd (grind (int_laws, rw e at h))
]

min_left : (x y : ℤ) → ltb_ℤ (pos 0) (x -ℤ min_ℤ x y) ≡ false → y -ℤ min_ℤ x y ≡ y -ℤ x
unfolding min_ℤ
min_left x y h = elim (Bool-cases (ltb_ℤ y x)) [
  | inl e ↦ absurd (grind (int_laws, rw e at h))
  | inr e ↦ rw e refl
]

min_below : (x y : ℤ) → ltb_ℤ (pos 0) (x -ℤ min_ℤ x y) ≡ false → ltb_ℤ y x ≡ false
unfolding min_ℤ
min_below x y h = elim (Bool-cases (ltb_ℤ y x)) [
  | inl e ↦ absurd (grind (int_laws, rw e at h))
  | inr e ↦ e
]

min_equal :
    (x y : ℤ)
    → ltb_ℤ (pos 0) (x -ℤ min_ℤ x y) ≡ false
    → ltb_ℤ (pos 0) (y -ℤ min_ℤ x y) ≡ false
    → pos 0 ≡ x -ℤ y
min_equal x y h k =
    let below = min_below x y h in
    let above : ltb_ℤ (pos 0) (y -ℤ x) ≡ false = rw (min_left x y h) at k in grind int_laws

signed_zero : (side : Text) → signed side (pos 0) ≡ pos 0
unfolding signed neg
signed_zero side = elim (Bool-cases (text_eq side (codes "BUY"))) [
  | inl e ↦ rw e refl
  | inr e ↦ rw e refl
]

-- The position of a symbol is replaced by another one.
flip-Adds :
    (k : Text) (x : ℤ) (p : PositionRecord) (d : Dict PositionRecord)
    → AreOpen d
    → IsOpen (some p)
    → signed p.side p.quantity ≡ position_at k d +ℤ x
    → Adds k x d (insert k p (erase k d))
flip-Adds k x p d h o e =
    replaced-Adds k x (some p) d (insert k p (erase k d)) h
      (insert-HasUniqueKeys k p (erase k d) (erase-HasUniqueKeys k d h.0))
      (λ symbol. lookup-insert k symbol p (erase k d) ∙ elim (Bool-cases (text_eq symbol k)) [
        | inl t ↦ rw t refl
        | inr t ↦ rw (t, lookup-erase k symbol d h.0, t) refl
      ])
      o e

pub close-Adds :
    (o : OrderRecord) (p : PositionRecord) (quantity : ℤ) (price : Fraction)
    (d : Dict PositionRecord)
    → is_side o.side ≡ true
    → AreOpen d
    → lookup o.symbol d ≡ some p
    → text_eq p.side o.side ≡ false
    → Adds o.symbol (signed o.side quantity) d (close_position o p quantity price d)
unfolding close_position
close-Adds o p quantity price d side h found e =
    let opened = position_entry o.symbol p d h found in
    elim (Bool-cases (ltb_ℤ (pos 0) (p.quantity -ℤ min_ℤ p.quantity quantity))) [
      | inl kept ↦ rw kept (
          insert-Adds o.symbol (signed o.side quantity) _ d h (ground arith, opened.1)
            (rw found (
              signed_opposite p.side o.side p.quantity quantity
                (p.quantity -ℤ min_ℤ p.quantity quantity) opened.1 side e
                (min_kept p.quantity quantity kept))))
      | inr none_kept ↦
          rw none_kept (elim (Bool-cases (ltb_ℤ (pos 0) (quantity -ℤ min_ℤ p.quantity quantity))) [
            | inl left ↦ rw left (
                flip-Adds o.symbol (signed o.side quantity) _ d h (ground arith, side)
                  (rw found (
                    signed_opposite o.side p.side quantity p.quantity
                      (quantity -ℤ min_ℤ p.quantity quantity) side opened.1
                      (text_eq_sym o.side p.side ∙ e) (min_left p.quantity quantity none_kept)
                    ∙ +ℤ_comm (signed o.side quantity) (signed p.side p.quantity))))
            | inr none_left ↦ rw none_left (
                erase-Adds o.symbol (signed o.side quantity) d h (
                  rw found (
                    sym (signed_zero p.side)
                    ∙ signed_opposite p.side o.side p.quantity quantity (pos 0) opened.1 side e
                        (min_equal p.quantity quantity none_kept none_left))))
          ])
    ]
