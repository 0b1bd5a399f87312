-- ===== src/Prelude/Text.antt =====
-- Go strings are native texts (valid UTF-8). Their orders and the code points of a text.
use Prim.Native.Nat.{ℕ}
use Prim.Native.Char.{code}
use Prim.Native.String.{String, compare, slice, len}
use mathlib.Core.Bool.{Bool, true, false}
use mathlib.Core.List.{List, [], ◌∷◌}
use text.Mathlib.Text as T

infix 50 ◌==◌
-- `s == t`.
abbrev pub ◌==◌ : String → String → Bool
s == t = T.◌==◌ s t

-- `s <= t`: the order of the UTF-8 bytes is that of the code points.
abbrev pub leb_text : String → String → Bool
leb_text s t = T.is_le (compare s t)

-- `s < t`.
abbrev pub ltb_text : String → String → Bool
ltb_text s t = T.is_lt (compare s t)

-- The code points of a text.
abbrev pub codes : String → List ℕ
codes String.[] = []
codes (String.◌∷◌ c s) = code c ∷ codes s

-- `strings.TrimPrefix(s, prefix)`.
abbrev pub trim_prefix : String → String → String
trim_prefix s start = elim (T.starts_with s start) [
  | true ↦ slice s (len start) (len s)
  | false ↦ s
]
