-- ===== src/Tests/Samples.antt =====
-- Sample data for the tests: a stand-in for float64, rules and rulesets.
use regula.Prelude.{
  ℤ, String, Bool, false, Option, none, some, List, [], ◌∷◌, ◌==◌, if◌then◌else◌, leb_ℤ, ltb_ℤ,
}
use regula.Outcome.{Error}
use regula.Strconv.{parse_int, format_int}
use regula.Floats.{Floats}
use regula.Rule.Value.{Value, new_value}
use regula.Rule.Expr.{Expr, value, param, new_expr, expr_eq, expr_gt, cons, nil, Param}
use regula.Rule.Eval.{Params}
use regula.Rule.Walk.{Rule}
use regula.Ruleset.{Ruleset}
use regula.Params.{Dynamic, string, int64, map_params}

-- Whole numbers and a NaN in place of float64.
abbrev parse_whole : String → ℤ × Option Error → Option ℤ × Option Error
parse_whole s (i, e) = if s == "NaN" then (none, none) else (some i, e)

abbrev both : (ℤ → ℤ → Bool) → Option ℤ → Option ℤ → Bool
both test (some a) (some b) = test a b
both test _ _ = false

abbrev format_whole : Option ℤ → String
format_whole none = "NaN"
format_whole (some i) = format_int i

abbrev pub whole_floats : Floats
whole_floats = record {
  Float64 = Option ℤ;
  zero_float = some (ℤ.pos 0);
  parse_float = λ s. parse_whole s (parse_int s);
  format_float = format_whole;
  leb_float = both leb_ℤ;
  ltb_float = both ltb_ℤ;
}

abbrev pub text : String → Value
text = new_value "string"

abbrev pub city : Param
city = record { kind = "param"; type = "string"; name = "city" }

abbrev pub age : Param
age = record { kind = "param"; type = "int64"; name = "age" }

-- The city is "paris", and the age is above 17.
abbrev pub in_paris : Expr
in_paris = new_expr expr_eq (cons (param city) (cons (value (text "paris")) nil))

abbrev pub adult : Expr
adult = new_expr expr_gt (cons (param age) (cons (value (new_value "int64" "17")) nil))

abbrev pub paris_rule : Rule
paris_rule = record { expr = in_paris; result = text "europe" }

abbrev pub adult_rule : Rule
adult_rule = record { expr = adult; result = text "adult" }

abbrev pub sample : Ruleset
sample = record { rules = paris_rule ∷ adult_rule ∷ []; type = "string" }

abbrev pub given : List (String × Dynamic whole_floats)
given = ("city", string "rome") ∷ ("age", int64 (ℤ.pos 30)) ∷ []

abbrev pub given_params : Params whole_floats
given_params = map_params whole_floats given
