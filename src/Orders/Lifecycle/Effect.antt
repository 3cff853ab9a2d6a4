-- ===== src/Orders/Lifecycle/Effect.antt =====
-- What `_apply_position_delta` of backend/app/order_lifecycle.py does to the signed quantity of every
-- symbol.
use ai_trading_platform_mobi.Prelude.{
  ◌≡◌, refl, sym, ap, ◌∙◌, inl, inr, Bool, true, false, not, ◌||◌, Option, none, some, arith,
  if◌then◌else◌, Bool-cases, ℤ, pos, ◌+ℤ◌, ◌<ℤ◌, neg, int_laws, Text, codes, text_eq, text_eq_iff,
  text_eq_refl, Dict, lookup, insert, erase, HasUniqueKeys, lookup-insert, lookup-erase_ne,
  lookup-erase_self, insert-HasUniqueKeys, erase-HasUniqueKeys, subst, Fraction,
}
use ai_trading_platform_mobi.Orders.Lifecycle.{OrderRecord, PositionRecord}
use ai_trading_platform_mobi.Orders.Lifecycle.Positions.{enlarged}

abbrev pub is_side : Text → Bool
is_side side = text_eq side (codes "BUY") || text_eq side (codes "SELL")

-- A quantity with the sign of its side
unfoldable pub signed : Text → ℤ → ℤ
signed side quantity = if text_eq side (codes "BUY") then quantity else neg quantity

abbrev pub signed_position : Option PositionRecord → ℤ
signed_position none = pos 0
signed_position (some p) = signed p.side p.quantity

-- The signed quantity of a symbol
abbrev pub position_at : Text → Dict PositionRecord → ℤ
position_at symbol d = signed_position (lookup symbol d)

abbrev pub IsOpen : Option PositionRecord → Type 0
IsOpen none = Unit
IsOpen (some p) = (pos 0 <ℤ p.quantity) × (is_side p.side ≡ true)

-- Every position has a positive quantity and a side.
abbrev pub AreOpen : Dict PositionRecord → Type 0
AreOpen d = HasUniqueKeys d × ((symbol : Text) → IsOpen (lookup symbol d))

-- The positions after `x` is added to the signed quantity of a symbol
abbrev pub Adds : Text → ℤ → Dict PositionRecord → Dict PositionRecord → Type 0
Adds k x d e =
    AreOpen e
    × ((symbol : Text)
        → position_at symbol e ≡ position_at symbol d +ℤ (if text_eq symbol k then x else pos 0))

-- One symbol is replaced.
pub replaced-Adds :
    (k : Text) (x : ℤ) (o : Option PositionRecord) (d e : Dict PositionRecord)
    → AreOpen d
    → HasUniqueKeys e
    → ((symbol : Text) → lookup symbol e ≡ (if text_eq symbol k then o else lookup symbol d))
    → IsOpen o
    → signed_position o ≡ position_at k d +ℤ x
    → Adds k x d e
replaced-Adds k x o d e h unique at open_now sum = (
  (
    unique,
    λ symbol. elim (Bool-cases (text_eq symbol k)) [
      | inl t ↦ rw (at symbol, t) open_now
      | inr t ↦ rw (at symbol, t) (h.1 symbol)
    ],
  ),
  λ symbol. elim (Bool-cases (text_eq symbol k)) [
    | inl t ↦
        rw (at symbol, t) (sum ∙ ap (λ j. position_at j d +ℤ x) (sym ((text_eq_iff symbol k).0 t)))
    | inr t ↦ rw (at symbol, t) (omega int_laws)
  ],
)

pub insert-Adds :
    (k : Text) (x : ℤ) (p : PositionRecord) (d : Dict PositionRecord)
    → AreOpen d
    → IsOpen (some p)
    → signed p.side p.quantity ≡ position_at k d +ℤ x
    → Adds k x d (insert k p d)
insert-Adds k x p d h o e =
    replaced-Adds k x (some p) d (insert k p d) h (insert-HasUniqueKeys k p d h.0)
      (λ symbol. lookup-insert k symbol p d) o e

pub lookup-erase :
    (k j : Text) (d : Dict PositionRecord)
    → HasUniqueKeys d
    → lookup j (erase k d) ≡ (if text_eq j k then none else lookup j d)
lookup-erase k j d h = elim (Bool-cases (text_eq j k)) [
  | inl e ↦ rw ((text_eq_iff j k).0 e, text_eq_refl k) (lookup-erase_self k d h)
  | inr e ↦ rw e (lookup-erase_ne k j d (ground (arith, text_eq_iff j k)))
]

pub erase-Adds :
    (k : Text) (x : ℤ) (d : Dict PositionRecord)
    → AreOpen d
    → pos 0 ≡ position_at k d +ℤ x
    → Adds k x d (erase k d)
erase-Adds k x d h e =
    replaced-Adds k x none d (erase k d) h (erase-HasUniqueKeys k d h.0)
      (λ symbol. lookup-erase k symbol d h.0) tt e

pub opposite_sides :
    (a b : Text)
    → is_side a ≡ true
    → is_side b ≡ true
    → text_eq a b ≡ false
    → text_eq b (codes "BUY") ≡ not (text_eq a (codes "BUY"))
opposite_sides a b h k e = ground (
  arith,
  text_eq_iff a (codes "BUY"),
  text_eq_iff b (codes "BUY"),
  text_eq_iff a (codes "SELL"),
  text_eq_iff b (codes "SELL"),
  text_eq_iff a b,
)

pub position_entry :
    (k : Text) (p : PositionRecord) (d : Dict PositionRecord)
    → AreOpen d
    → lookup k d ≡ some p
    → IsOpen (some p)
position_entry k p d h found = subst IsOpen found (h.1 k)

pub signed_sum : (side : Text) (a b : ℤ) → signed side (a +ℤ b) ≡ signed side a +ℤ signed side b
unfolding signed
signed_sum side a b = elim (Bool-cases (text_eq side (codes "BUY"))) [
  | inl e ↦ rw e refl
  | inr e ↦ rw e (omega int_laws)
]

pub same_side-Adds :
    (o : OrderRecord) (p : PositionRecord) (quantity : ℤ) (price : Fraction)
    (d : Dict PositionRecord)
    → pos 0 <ℤ quantity
    → AreOpen d
    → lookup o.symbol d ≡ some p
    → text_eq p.side o.side ≡ true
    → Adds o.symbol (signed o.side quantity) d (insert o.symbol (enlarged p quantity price) d)
unfolding enlarged
same_side-Adds o p quantity price d q h found e =
    let opened = position_entry o.symbol p d h found in
    insert-Adds o.symbol (signed o.side quantity) (enlarged p quantity price) d h
      (omega int_laws, opened.1)
      (rw found (
        signed_sum p.side p.quantity quantity
        ∙ ap (λ side. signed p.side p.quantity +ℤ signed side quantity)
            ((text_eq_iff p.side o.side).0 e)))
