-- ===== src/Strconv.antt =====
-- What the program uses of Go's package strconv: FormatBool, ParseBool, FormatInt and ParseInt in
-- base 10 with 64 bits. A parser returns a value beside its error, as in Go.
pub mod Parse
pub mod RoundTrip
use Prim.Native.Char.{Char, code}
use regula.Prelude.{
  ℕ, zero, suc, ◌+◌, ◌-◌, ◌*◌, ◌/◌, ◌%◌, ◌^◌, String, Bool, true, false, ◌||◌, Option, none, some,
  List, [], ◌∷◌, ℤ, pos, negsuc, neg_ℕ, ltb, nat_eq, leb, if◌then◌else◌, ◌==◌, codes,
}
use regula.Outcome.{Error, num_error, NumReason, bad_syntax, out_of_range, Result, ok, err}

unfoldable pub format_bool : Bool → String
format_bool true = "true"
format_bool false = "false"

-- The two lists of ParseBool.
abbrev pub is_true_text : String → Bool
is_true_text s = s == "1" || s == "t" || s == "T" || s == "TRUE" || s == "true" || s == "True"

abbrev pub is_false_text : String → Bool
is_false_text s = s == "0" || s == "f" || s == "F" || s == "FALSE" || s == "false" || s == "False"

unfoldable pub parse_bool : String → Result Bool
parse_bool s =
    if is_true_text s
    then ok true
    else if is_false_text s
    then ok false
    else err (num_error "ParseBool" s bad_syntax)

-- The character of a digit.
abbrev pub digit : ℕ → Char
digit zero = "0"
digit (suc zero) = "1"
digit (suc (suc zero)) = "2"
digit (suc (suc (suc zero))) = "3"
digit (suc (suc (suc (suc zero)))) = "4"
digit (suc (suc (suc (suc (suc zero))))) = "5"
digit (suc (suc (suc (suc (suc (suc zero)))))) = "6"
digit (suc (suc (suc (suc (suc (suc (suc zero))))))) = "7"
digit (suc (suc (suc (suc (suc (suc (suc (suc zero)))))))) = "8"
digit _ = "9"

-- The digits of `n` before `out`, the last digit first; twenty rounds do for a uint64.
unfoldable pub emit : ℕ → ℕ → String → String
emit zero n out = out
emit (suc fuel) n out =
    let more = emit fuel (n / 10) (String.◌∷◌ (digit (n % 10)) out) in
    if leb 10 n then more else String.◌∷◌ (digit n) out

unfoldable pub format_uint : ℕ → String
unfolding emit
format_uint n = emit 20 n ""

unfoldable pub format_int : ℤ → String
unfolding format_uint
format_int (pos n) = format_uint n
format_int (negsuc n) = String.◌∷◌ "-" (format_uint (suc n))

-- The result of a scan of digits.
pub data Scan : Type 0 where
  number : ℕ → Scan
  stopped : NumReason → Scan

abbrev pub is_digit : ℕ → Bool
is_digit c = if leb b'0' c then leb c b'9' else false

-- The loop of ParseUint: a character that is no digit, and a number past 64 bits, stop it.
unfoldable pub scan : List ℕ → ℕ → Scan
scan [] n = number n
scan (c ∷ s) n =
    let rest = scan s (n * 10 + (c - b'0')) in
    if is_digit c
    then (if ltb (n * 10 + (c - b'0')) (2 ^ 64) then rest else stopped out_of_range)
    else stopped bad_syntax

unfoldable pub parse_uint : List ℕ → Scan
unfolding scan
parse_uint [] = stopped bad_syntax
parse_uint (c ∷ s) = scan (c ∷ s) 0

-- The value that ParseInt returns for a sign and a magnitude, with its error.
unfoldable pub signed : String → Bool → Scan → ℤ × Option Error
signed s neg (stopped bad_syntax) = (pos 0, some (num_error "ParseInt" s bad_syntax))
signed s true (stopped out_of_range) =
    (negsuc (2 ^ 63 - 1), some (num_error "ParseInt" s out_of_range))
signed s false (stopped out_of_range) =
    (pos (2 ^ 63 - 1), some (num_error "ParseInt" s out_of_range))
signed s true (number n) =
    if ltb (2 ^ 63) n
    then (negsuc (2 ^ 63 - 1), some (num_error "ParseInt" s out_of_range))
    else (neg_ℕ n, none)
signed s false (number n) =
    if leb (2 ^ 63) n
    then (pos (2 ^ 63 - 1), some (num_error "ParseInt" s out_of_range))
    else (pos n, none)

-- A leading sign is taken off.
unfoldable pub parse_codes : String → List ℕ → ℤ × Option Error
unfolding signed parse_uint
parse_codes s [] = signed s false (stopped bad_syntax)
parse_codes s (c ∷ cs) =
    if nat_eq c b'-'
    then signed s true (parse_uint cs)
    else if nat_eq c b'+'
    then signed s false (parse_uint cs)
    else signed s false (parse_uint (c ∷ cs))

-- ParseInt(s, 10, 64).
unfoldable pub parse_int : String → ℤ × Option Error
unfolding parse_codes
parse_int s = parse_codes s (codes s)

-- The value, where the caller returns on an error.
abbrev pub checked {ℓ} : {A : Type ℓ} → A × Option Error → Result A
checked (a, none) = ok a
checked (a, some e) = err e
