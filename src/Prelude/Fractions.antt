-- ===== src/Prelude/Fractions.antt =====
-- Exact fractions, where the source divides floats: the denominator is one more than a number.
use Prim.Native.Nat.{ℕ, suc, ◌-◌, ◌*◌}
use mathlib.Core.Bool.{Bool}
use ai_trading_platform_mobi.Prelude.Tests.{ltb}
use ai_trading_platform_mobi.Prelude.Int.{ℤ, pos, ◌+ℤ◌, ◌-ℤ◌, ◌*ℤ◌, abs, ltb_ℤ, eq_ℤ}

pub record Fraction : Type 0 where
  pub num : ℤ
  pub below : ℕ

abbrev pub den : Fraction → ℕ
den x = suc x.below

abbrev pub whole : ℤ → Fraction
whole n = record { num = n; below = 0 }

unfoldable pub frac_add : Fraction → Fraction → Fraction
frac_add x y = record {
  num = x.num *ℤ pos (den y) +ℤ y.num *ℤ pos (den x);
  below = den x * den y - 1;
}

unfoldable pub frac_sub : Fraction → Fraction → Fraction
frac_sub x y = record {
  num = x.num *ℤ pos (den y) -ℤ y.num *ℤ pos (den x);
  below = den x * den y - 1;
}

-- The product with an integer, and the quotient by a positive one.
unfoldable pub frac_scale : Fraction → ℤ → Fraction
frac_scale x n = record { num = x.num *ℤ n; below = x.below }

unfoldable pub frac_div : Fraction → ℤ → Fraction
frac_div x n = record { num = x.num; below = den x * abs n - 1 }

unfoldable pub is_positive : Fraction → Bool
is_positive x = ltb_ℤ (pos 0) x.num

unfoldable pub frac_eq : Fraction → Fraction → Bool
frac_eq x y = eq_ℤ (x.num *ℤ pos (den y)) (y.num *ℤ pos (den x))

-- `abs(x - y) > 1e-9`, in units of 1e-9
unfoldable pub frac_apart : Fraction → Fraction → Bool
frac_apart x y = let d = frac_sub x y in ltb (den d) (abs d.num)
