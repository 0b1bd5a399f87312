-- ===== src/Paths.antt =====
-- What the program uses of Go's package path: Join, which joins the elements from the first that is
-- not empty on by "/" and cleans the result. A path is cleaned by its parts between slashes.
pub mod Parts
pub mod Joining
pub mod Endings
use Prim.Native.Char.{Char, code}
use Prim.Native.String
use mathlib.Core.List.{reverse}
use regula.Prelude.{String, Bool, true, false, ◌||◌, List, [], ◌∷◌, nat_eq, if◌then◌else◌, ◌==◌}

-- A character in front of the first part.
abbrev pub cons_head : Char → List String → List String
cons_head c [] = String.◌∷◌ c String.[] ∷ []
cons_head c (p ∷ ps) = String.◌∷◌ c p ∷ ps

-- `strings.Split(s, "/")`.
unfoldable pub split : String → List String
split String.[] = String.[] ∷ []
split (String.◌∷◌ c s) = if nat_eq (code c) b'/' then String.[] ∷ split s else cons_head c (split s)

-- `strings.Join(parts, "/")`.
unfoldable pub render : List String → String
render [] = ""
render (p ∷ []) = p
render (p ∷ (q ∷ ps)) = String.◌++◌ p (String.◌∷◌ "/" (render (q ∷ ps)))

unfoldable pub is_rooted : String → Bool
is_rooted String.[] = false
is_rooted (String.◌∷◌ c s) = nat_eq (code c) b'/'

-- A part ".." removes the last part; at the start it is dropped from a rooted path and kept
-- otherwise.
unfoldable pub back : Bool → List String → List String
back true [] = []
back false [] = ".." ∷ []
back rooted (q ∷ out) = if q == ".." then ".." ∷ q ∷ out else out

-- One part, where `out` are the parts before it, the last one first.
unfoldable pub clean_part : Bool → List String → String → List String
unfolding back
clean_part rooted out p =
    if p == "" || p == "." then out else if p == ".." then back rooted out else p ∷ out

unfoldable pub clean_parts : Bool → List String → List String → List String
unfolding clean_part
clean_parts rooted out [] = out
clean_parts rooted out (p ∷ ps) = clean_parts rooted (clean_part rooted out p) ps

unfoldable pub finish : Bool → List String → String
unfolding render
finish true ps = String.◌∷◌ "/" (render ps)
finish false [] = "."
finish false (p ∷ ps) = render (p ∷ ps)

-- path.Clean of a path that is not empty.
unfoldable pub clean : String → String
unfolding split is_rooted clean_parts finish
clean s = finish (is_rooted s) (reverse (clean_parts (is_rooted s) [] (split s)))

-- path.Join.
unfoldable pub path_join : List String → String
unfolding clean
path_join [] = ""
path_join (e ∷ es) = let rest = path_join es in if e == "" then rest else clean (render (e ∷ es))
