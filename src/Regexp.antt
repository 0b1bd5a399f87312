-- ===== src/Regexp.antt =====
-- What the program uses of Go's package regexp: expressions of character classes, sequences,
-- choices and repetitions that are anchored at both ends, and MatchString. A text is matched by the
-- derivatives of the expression, character by character.
pub mod Language
use regula.Prelude.{
  ℕ, Bool, true, false, ◌&&◌, ◌||◌, String, List, [], ◌∷◌, leb, if◌then◌else◌, codes,
}

abbrev pub Spans : Type 0
Spans = List (ℕ × ℕ)

pub data Regex : Type 0 where
  never empty : Regex
  class : Spans → Regex
  alt seq : Regex → Regex → Regex
  star : Regex → Regex

-- `r+` and `r?`.
abbrev pub plus : Regex → Regex
plus r = seq r (star r)

abbrev pub opt : Regex → Regex
opt r = alt r empty

unfoldable pub in_class : Spans → ℕ → Bool
in_class [] c = false
in_class ((lo, hi) ∷ k) c = (leb lo c && leb c hi) || in_class k c

unfoldable pub nullable : Regex → Bool
nullable never = false
nullable empty = true
nullable (class k) = false
nullable (alt a b) = nullable a || nullable b
nullable (seq a b) = nullable a && nullable b
nullable (star a) = true

-- What is left to match after the character `c`.
unfoldable pub deriv : ℕ → Regex → Regex
unfolding in_class nullable
deriv c never = never
deriv c empty = never
deriv c (class k) = if in_class k c then empty else never
deriv c (alt a b) = alt (deriv c a) (deriv c b)
deriv c (seq a b) = alt (seq (deriv c a) b) (if nullable a then deriv c b else never)
deriv c (star a) = seq (deriv c a) (star a)

unfoldable pub match_codes : Regex → List ℕ → Bool
unfolding deriv nullable
match_codes r [] = nullable r
match_codes r (c ∷ s) = match_codes (deriv c r) s

-- `MatchString` of `^r$`.
unfoldable pub match_string : Regex → String → Bool
unfolding match_codes
match_string r s = match_codes r (codes s)
