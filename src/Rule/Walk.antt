-- ===== src/Rule/Walk.antt =====
-- The traversal `walk` of rule/expr.go and the rules of rule/rule.go.
--
-- A rule's result is a value: a nil `*Value` is left out.
use regula.Prelude.{Bool, true, false, Option, List, [], ◌∷◌, ◌++◌, if◌then◌else◌, ◌==◌}
use regula.Outcome.{Result, ok, err, message, rule_error, RuleError, ◌>>=◌}
use regula.Strconv.{parse_bool}
use regula.Floats.{Floats}
use regula.Rule.Value.{Value}
use regula.Rule.Expr.{Param, Expr, Exprs, nil, cons, value, param, operator}
use regula.Rule.Eval.{Params, eval}

-- `fn` updates the variables that it captured, which are the state `S`, or fails.
module _ {ℓ} {S : Type ℓ} (fn : Expr → S → Result S) where
  unfoldable mutual
    pub walk : Expr → S → Result S
    walk (value v) s = fn (value v) s
    walk (param p) s = fn (param p) s
    walk (operator op kind es) s = fn (operator op kind es) s >>= walk_operands es

    pub walk_operands : Exprs → S → Result S
    walk_operands nil s = ok s
    walk_operands (cons e es) s = walk e s >>= walk_operands es

pub record Rule : Type 0 where
  pub expr : Expr
  pub result : Value

unfoldable pub new_rule : Expr → Value → Rule
new_rule expr result = record { expr = expr; result = result }

-- The function that Params passes to `walk`: it appends each parameter to a list.
unfoldable pub collect : Expr → List Param → Result (List Param)
collect (param p) list = ok (list ++ p ∷ [])
collect _ list = ok list

-- The list as it stands after the traversal, whose error is dropped.
abbrev pub or_nil : Result (List Param) → List Param
or_nil (ok list) = list
or_nil _ = []

unfoldable pub rule_params : Rule → List Param
unfolding walk collect
rule_params r = or_nil (walk collect r.expr [])

unfoldable pub check_match : Value → Bool → Result Value
check_match result true = ok result
check_match result false = err (rule_error RuleError.no_match)

-- What a rule returns for the outcome of its expression.
unfoldable pub finish_rule : Value → Value → Result Value
unfolding check_match
finish_rule result v =
    if v.type == "bool"
    then (parse_bool v.content >>= check_match result)
    else err (message "invalid rule returning non boolean value")

module _ (fl : Floats) (ps : Option (Params fl)) where
  unfoldable pub eval_rule : Rule → Result Value
  unfolding finish_rule
  eval_rule r = eval fl ps r.expr >>= finish_rule r.result
