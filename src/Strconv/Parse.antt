-- ===== src/Strconv/Parse.antt =====
-- What ParseBool and ParseInt return: the range of int64 on every input.
use regula.Prelude.{ℕ, String, Bool, true, false, ◌≡◌, refl, List, [], ◌∷◌, codes, InInt64, arith}
use regula.Outcome.{bad_syntax, out_of_range, ok}
use regula.Strconv.{
  Scan, number, stopped, parse_uint, signed, parse_codes, parse_int, format_bool, parse_bool,
}

signed-InInt64 : (s : String) (neg : Bool) (r : Scan) → InInt64 (signed s neg r).0
unfolding signed
signed-InInt64 s neg (stopped bad_syntax) = omega arith
signed-InInt64 s true (stopped out_of_range) = omega arith
signed-InInt64 s false (stopped out_of_range) = omega arith
signed-InInt64 s true (number ℕ.zero) = ground arith
signed-InInt64 s true (number (ℕ.suc n)) = ground arith
signed-InInt64 s false (number n) = ground arith

-- Whatever the text, the number that ParseInt returns is an int64, on an error too.
pub parse_int-InInt64 : (s : String) → InInt64 (parse_int s).0
unfolding parse_int
parse_int-InInt64 s = go (codes s)
  where
    go : (cs : List ℕ) → InInt64 (parse_codes s cs).0
    go [] = signed-InInt64 s false (stopped bad_syntax)
    go (c ∷ cs) = ground (
      arith,
      signed-InInt64 s true (parse_uint cs),
      signed-InInt64 s false (parse_uint cs),
      signed-InInt64 s false (parse_uint (c ∷ cs)),
    )

-- A Boolean is read back from its print.
pub parse_bool-format_bool : (b : Bool) → parse_bool (format_bool b) ≡ ok b
unfolding parse_bool format_bool
parse_bool-format_bool true = refl
parse_bool-format_bool false = refl
