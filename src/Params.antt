-- ===== src/Params.antt =====
-- The two implementations of the interface rule.Params: the map of param.go, which holds values of
-- any dynamic type, and the map of api/server/param.go, which holds the texts of a query string.
--
-- A Go map is an association list; the order of its keys, which Go leaves open, is that of the
-- list.
pub mod Safety
pub mod Transport
use regula.Prelude.{ℤ, String, Bool, Option, none, some, List, keys, lookup}
use regula.Outcome.{Result, ok, err, panic, message, rule_error, RuleError, Error, ◌>>=◌}
use regula.Strconv.{format_bool, parse_bool, format_int, parse_int, checked}
use regula.Floats.{Floats}
use regula.Rule.Eval.{Params}

-- A value of type `interface{}`; `another` stands for the types that the program does not tell
-- apart.
pub data Dynamic (fl : Floats) : Type 0 where
  string : String → Dynamic fl
  int64 : ℤ → Dynamic fl
  float64 : fl.Float64 → Dynamic fl
  bool : Bool → Dynamic fl
  another : Dynamic fl

-- param.go.
module _ (fl : Floats) where
  -- The type assertions, on what is in the map.
  unfoldable pub as_string : Option (Dynamic fl) → Result String
  as_string none = err (rule_error RuleError.param_not_found)
  as_string (some (string s)) = ok s
  as_string (some _) = err (rule_error RuleError.param_type_mismatch)

  unfoldable pub as_bool : Option (Dynamic fl) → Result Bool
  as_bool none = err (rule_error RuleError.param_not_found)
  as_bool (some (bool b)) = ok b
  as_bool (some _) = err (rule_error RuleError.param_type_mismatch)

  unfoldable pub as_int64 : Option (Dynamic fl) → Result ℤ
  as_int64 none = err (rule_error RuleError.param_not_found)
  as_int64 (some (int64 i)) = ok i
  as_int64 (some _) = err (rule_error RuleError.param_type_mismatch)

  unfoldable pub as_float64 : Option (Dynamic fl) → Result fl.Float64
  as_float64 none = err (rule_error RuleError.param_not_found)
  as_float64 (some (float64 f)) = ok f
  as_float64 (some _) = err (rule_error RuleError.param_type_mismatch)

  -- EncodeValue; the text of the last error holds the value in Go's format `%t`.
  unfoldable pub encode : Option (Dynamic fl) → Result String
  encode none = err (rule_error RuleError.param_not_found)
  encode (some (string s)) = ok s
  encode (some (int64 i)) = ok (format_int i)
  encode (some (float64 f)) = ok (fl.format_float f)
  encode (some (bool b)) = ok (format_bool b)
  encode (some another) = err (message "type %t is not supported")

  -- The map of param.go as a rule.Params.
  unfoldable pub map_params : List (String × Dynamic fl) → Params fl
  unfolding as_string as_bool as_int64 as_float64 encode
  map_params m = record {
    get_string = λ k. as_string (lookup k m);
    get_bool = λ k. as_bool (lookup k m);
    get_int64 = λ k. as_int64 (lookup k m);
    get_float64 = λ k. as_float64 (lookup k m);
    keys = keys m;
    encode_value = λ k. encode (lookup k m);
  }

-- api/server/param.go.
unfoldable pub text_of : Option String → Result String
text_of none = err (rule_error RuleError.param_not_found)
text_of (some s) = ok s

-- Any error of a parser becomes ErrParamTypeMismatch.
abbrev pub or_mismatch {ℓ} : {A : Type ℓ} → Result A → Result A
or_mismatch (ok a) = ok a
or_mismatch (err e) = err (rule_error RuleError.param_type_mismatch)
or_mismatch panic = panic

module _ (fl : Floats) where
  unfoldable pub query_params : List (String × String) → Params fl
  unfolding text_of
  query_params q = record {
    get_string = λ k. text_of (lookup k q);
    get_bool = λ k. text_of (lookup k q) >>= λ v. or_mismatch (parse_bool v);
    get_int64 = λ k. text_of (lookup k q) >>= λ v. or_mismatch (checked (parse_int v));
    get_float64 = λ k. text_of (lookup k q) >>= λ v. or_mismatch (checked (fl.parse_float v));
    keys = keys q;
    encode_value = λ k. text_of (lookup k q);
  }
