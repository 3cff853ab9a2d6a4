-- ===== src/Risk/Reservations/Tests.antt =====
-- Runs of the reservation book.
use ai_trading_platform_mobi.Prelude.{
  ◌+◌, ◌≡◌, refl, ◌⊎◌, true, false, none, some, [], ◌∷◌, arith, ok, Ensures, pos, negsuc, ◌+ℤ◌,
  ◌-ℤ◌, ◌*ℤ◌, neg, Text, codes, upper, Dict, lookup,
}
use ai_trading_platform_mobi.Risk.Reservations.{Book, total, total_except, reserve, update, release}
use ai_trading_platform_mobi.Risk.Reservations.Bounds.{
  IsWithin, reserve-IsWithin, update-IsWithin, release_exceeds,
}
use ai_trading_platform_mobi.Risk.Reservations.Rebuild.{
  OrderStatus, OrderView, is_closed, order_sign, remaining, exposure, rebuild_from, rebuild,
  Reserves, rebuild-Reserves,
}

abbrev book : Book
book = (codes "a", pos 30) ∷ (codes "b", negsuc 9) ∷ []

reserve_runs :
    ((reserve (codes "c") (pos 80) (pos 0) (pos 100) book).0 ≡ true)
    × ((reserve (codes "c") (pos 90) (pos 0) (pos 100) book).0 ≡ false)
    × ((reserve (codes "a") (pos 31) (pos 0) (pos 100) book).0 ≡ true)
unfolding reserve total ◌+ℤ◌ ◌-ℤ◌
reserve_runs = (refl, refl, refl)

reserve-IsWithin_example :
    IsWithin (pos 5) (pos 100) 1 (total (reserve (codes "c") (pos 70) (pos 5) (pos 100) book).1)
unfolding reserve total ◌+ℤ◌
reserve-IsWithin_example = reserve-IsWithin (codes "c") (pos 70) (pos 5) (pos 100) book refl refl

update-IsWithin_example :
    IsWithin (pos 5) (pos 100) 2 (total (update (codes "a") (pos 1) (pos 5) (pos 100) book).1)
unfolding update total_except ◌+ℤ◌
update-IsWithin_example =
    update-IsWithin (codes "a") (pos 1) (pos 5) (pos 100) book (ground arith) refl

release_exceeds_example :
    (reserve (codes "x") (pos 9) (pos 0) (pos 9) [] ≡ (true, (codes "x", pos 9) ∷ []))
    × (reserve (codes "y") (neg (pos 9)) (pos 0) (pos 9) ((codes "x", pos 9) ∷ [])
        ≡ (true, (codes "x", pos 9) ∷ (codes "y", neg (pos 9)) ∷ []))
    × (reserve
          (codes "z")
          (pos 9)
          (pos 0)
          (pos 9)
          ((codes "x", pos 9) ∷ (codes "y", neg (pos 9)) ∷ [])
        ≡ (true, (codes "x", pos 9) ∷ (codes "y", neg (pos 9)) ∷ (codes "z", pos 9) ∷ []))
    × (total (
          release
            (codes "y")
            ((codes "x", pos 9) ∷ (codes "y", neg (pos 9)) ∷ (codes "z", pos 9) ∷ []))
        ≡ pos (9 + 9))
release_exceeds_example = release_exceeds (codes "x") (codes "y") (codes "z") 9 refl refl refl

abbrev orders : Dict OrderView
orders =
    (
      codes "o1",
      record {
        side = codes "buy";
        quantity = pos 90;
        status = OrderStatus.partially_filled;
        filled_quantity = pos 30;
      },
    )
    ∷ (
      codes "o2",
      record {
        side = codes "SELL";
        quantity = pos 50;
        status = OrderStatus.submitted;
        filled_quantity = pos 0;
      },
    )
    ∷ (
      codes "o3",
      record {
        side = codes "SELL";
        quantity = pos 50;
        status = OrderStatus.cancelled;
        filled_quantity = pos 0;
      },
    )
    ∷ []

rebuild_runs : rebuild orders ≡ ok ((codes "o1", pos 60) ∷ (codes "o2", negsuc 49) ∷ [])
unfolding rebuild rebuild_from exposure remaining order_sign is_closed upper ◌-ℤ◌ ◌*ℤ◌
rebuild_runs = refl

rebuild-Reserves_example : Ensures (rebuild orders) (λ b.
    (j : Text)
    → ((lookup j orders ≡ none) × (lookup j b ≡ none))
      ⊎ ((o : OrderView) × (lookup j orders ≡ some o) × Reserves o (lookup j b)))
rebuild-Reserves_example = rebuild-Reserves orders (ground arith)
