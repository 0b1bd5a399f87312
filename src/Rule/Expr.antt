-- ===== src/Rule/Expr.antt =====
-- The syntax of the expressions of rule/expr.go.
--
-- An expression is a `*Value`, a `*Param` or one of the eleven structs that embed `operator`
-- (rule/json.go); a nil expression is left out.
use regula.Prelude.{String, List, [], ◌∷◌}
use regula.Rule.Value.{Value}

pub record Param : Type 0 where
  pub kind : String
  pub type : String
  pub name : String

-- The structs that embed `operator`: an expression's dynamic type.
pub data Operator : Type 0 where
  expr_not expr_or expr_and expr_eq expr_in expr_gt expr_gte expr_lt expr_lte : Operator
  expr_fnv expr_percentile : Operator

-- `operator op kind operands`: the field `kind` is data and does not choose the evaluation.
mutual
  pub data Expr : Type 0 where
    value : Value → Expr
    param : Param → Expr
    operator : Operator → String → Exprs → Expr

  pub data Exprs : Type 0 where
    nil : Exprs
    cons : Expr → Exprs → Exprs

-- A variadic `vN ...Expr`.
abbrev pub from_list : List Expr → Exprs
from_list [] = nil
from_list (e ∷ es) = cons e (from_list es)

-- The kind that a constructor function writes.
abbrev pub kind_of : Operator → String
kind_of expr_not = "not"
kind_of expr_or = "or"
kind_of expr_and = "and"
kind_of expr_eq = "eq"
kind_of expr_in = "in"
kind_of expr_gt = "gt"
kind_of expr_gte = "gte"
kind_of expr_lt = "lt"
kind_of expr_lte = "lte"
kind_of expr_fnv = "fnv"
kind_of expr_percentile = "percentile"

abbrev pub new_expr : Operator → Exprs → Expr
new_expr op es = operator op (kind_of op) es
