-- ===== src/Floats.antt =====
-- float64 as an interface: the type, what package strconv does with it, and Go's comparisons.
-- The language under verification has no floats; nothing but what is listed here is used of them.
use regula.Prelude.{String, Bool, Option}
use regula.Outcome.{Error}

pub record Floats : Type 1 where
  pub Float64 : Type 0
  -- The number of a small integer literal.
  pub zero_float : Float64
  -- `ParseFloat(s, 64)`.
  pub parse_float : String → Float64 × Option Error
  -- `FormatFloat(f, 'f', 6, 64)`.
  pub format_float : Float64 → String
  -- `<=` and `<`; both are false of a NaN. `a >= b` is `b <= a`.
  pub leb_float : Float64 → Float64 → Bool
  pub ltb_float : Float64 → Float64 → Bool
