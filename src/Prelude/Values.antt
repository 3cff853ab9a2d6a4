-- ===== src/Prelude/Values.antt =====
-- A Python value where the source calls `float(x)`. A number is exact, counted in units of 1e-9,
-- the tolerance of the source: `1e-9` is 1.
use mathlib.Core.Option.{Option, none, some}
use ai_trading_platform_mobi.Prelude.Int.{ℤ}

pub data Value : Type 0 where
  -- A finite number.
  num : ℤ → Value
  -- `nan` or an infinity.
  non_finite : Value
  -- A value at which `float` raises.
  not_numeric : Value

-- `float(v)` with `math.isfinite`: what passes both.
abbrev pub finite : Value → Option ℤ
finite (num x) = some x
finite non_finite = none
finite not_numeric = none
