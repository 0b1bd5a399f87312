-- ===== src/Ruleset.antt =====
-- ruleset.go: rulesets, their validation and their evaluation.
pub mod Noting
pub mod Coherent
pub mod Matching
pub mod Locality
pub mod Json
use regula.Prelude.{
  String, Bool, true, false, Option, none, some, List, [], ◌∷◌, ◌++◌, if◌then◌else◌, ◌==◌, lookup,
  insert,
}
use regula.Outcome.{
  Error, Result, ok, err, panic, engine_error, EngineError, rule_error, RuleError, is_no_match,
  ◌>>=◌, ◌>>◌,
}
use regula.Floats.{Floats}
use regula.Rule.Value.{Value}
use regula.Rule.Expr.{Param}
use regula.Rule.Eval.{Params}
use regula.Rule.Walk.{Rule, rule_params, eval_rule}

pub record Ruleset : Type 0 where
  pub rules : List Rule
  pub type : String

-- The variable paramTypes of `validate`.
abbrev pub ParamTypes : Type 0
ParamTypes = List (String × String)

-- The body of the inner loop of `validate`, for what the map holds under the parameter's name.
unfoldable pub note_param : Option String → Param → ParamTypes → Result ParamTypes
note_param (some tp) p m =
    if p.type == tp then ok m else err (engine_error EngineError.incoherent_type)
note_param none p m = ok (insert p.name p.type m)

unfoldable pub note_params : List Param → ParamTypes → Result ParamTypes
unfolding note_param
note_params [] m = ok m
note_params (p ∷ ps) m = note_param (lookup p.name m) p m >>= note_params ps

-- The outer loop.
unfoldable pub validate_rules : String → List Rule → ParamTypes → Result ParamTypes
validate_rules type [] m = ok m
validate_rules type (r ∷ rs) m =
    let rest = note_params (rule_params r) m >>= validate_rules type rs in
    if r.result.type == type then rest else err (engine_error EngineError.incoherent_type)

unfoldable pub validate : Ruleset → Result (Unit {0})
validate rs = validate_rules rs.type rs.rules [] >>= λ _. ok tt

unfoldable pub new_ruleset : String → List Rule → Result Ruleset
new_ruleset typ rules = do
  let rs : Ruleset = record { rules = rules; type = typ }
  validate rs
  ok rs

unfoldable pub new_string_ruleset : List Rule → Result Ruleset
unfolding new_ruleset
new_string_ruleset = new_ruleset "string"

unfoldable pub new_bool_ruleset : List Rule → Result Ruleset
unfolding new_ruleset
new_bool_ruleset = new_ruleset "bool"

unfoldable pub new_int64_ruleset : List Rule → Result Ruleset
unfolding new_ruleset
new_int64_ruleset = new_ruleset "int64"

unfoldable pub new_float64_ruleset : List Rule → Result Ruleset
unfolding new_ruleset
new_float64_ruleset = new_ruleset "float64"

-- The variables bm and params of the method Params.
abbrev pub Seen : Type 0
Seen = List (String × Bool) × List Param

-- The body of the inner loop: a parameter whose name is new is appended.
unfoldable pub add_param : Param → Seen → Seen
add_param p (bm, params) = elim (lookup p.name bm) [
  | some true ↦ (bm, params)
  | _ ↦ (insert p.name true bm, params ++ p ∷ [])
]

unfoldable pub add_params : List Param → Seen → Seen
unfolding add_param
add_params [] s = s
add_params (p ∷ ps) s = add_params ps (add_param p s)

unfoldable pub add_rules : List Rule → Seen → Seen
unfolding add_params
add_rules [] s = s
add_rules (r ∷ rs) s = add_rules rs (add_params (rule_params r) s)

-- The method Params.
unfoldable pub ruleset_params : Ruleset → List Param
unfolding add_rules
ruleset_params rs = (add_rules rs.rules ([], [])).1

-- The loop of Eval: the outcome of a rule that is not ErrNoMatch ends it.
unfoldable pub first_outcome : Result Value → Result Value → Result Value
first_outcome (ok v) rest = ok v
first_outcome (err e) rest = if is_no_match e then rest else err e
first_outcome panic rest = panic

module _ (fl : Floats) (ps : Option (Params fl)) where
  unfoldable pub eval_rules : List Rule → Result Value
  unfolding first_outcome
  eval_rules [] = err (rule_error RuleError.no_match)
  eval_rules (r ∷ rs) = first_outcome (eval_rule fl ps r) (eval_rules rs)

  unfoldable pub eval_ruleset : Ruleset → Result Value
  unfolding eval_rules
  eval_ruleset rs = eval_rules rs.rules
