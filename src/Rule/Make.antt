-- ===== src/Rule/Make.antt =====
-- The functions of rule/expr.go and rule/rule.go that build expressions, under their names in
-- lower case: a first group by operator, then the parameters and the constant.
use regula.Prelude.{String, true, List}
use regula.Rule.Value.{bool_value}
use regula.Rule.Expr.{
  Expr, nil, cons, value, Param, new_expr, from_list, expr_not, expr_or, expr_and, expr_eq, expr_in,
  expr_gt, expr_gte, expr_lt, expr_lte, expr_fnv, expr_percentile,
}

unfoldable pub not : Expr → Expr
not e = new_expr expr_not (cons e nil)

unfoldable pub or : Expr → Expr → List Expr → Expr
or v1 v2 vN = new_expr expr_or (cons v1 (cons v2 (from_list vN)))

unfoldable pub and : Expr → Expr → List Expr → Expr
and v1 v2 vN = new_expr expr_and (cons v1 (cons v2 (from_list vN)))

unfoldable pub eq : Expr → Expr → List Expr → Expr
eq v1 v2 vN = new_expr expr_eq (cons v1 (cons v2 (from_list vN)))

-- The function In.
unfoldable pub one_of : Expr → Expr → List Expr → Expr
one_of v e1 eN = new_expr expr_in (cons v (cons e1 (from_list eN)))

unfoldable pub gt : Expr → Expr → List Expr → Expr
gt v1 v2 vN = new_expr expr_gt (cons v1 (cons v2 (from_list vN)))

unfoldable pub gte : Expr → Expr → List Expr → Expr
gte v1 v2 vN = new_expr expr_gte (cons v1 (cons v2 (from_list vN)))

unfoldable pub lt : Expr → Expr → List Expr → Expr
lt v1 v2 vN = new_expr expr_lt (cons v1 (cons v2 (from_list vN)))

unfoldable pub lte : Expr → Expr → List Expr → Expr
lte v1 v2 vN = new_expr expr_lte (cons v1 (cons v2 (from_list vN)))

unfoldable pub fnv : Expr → Expr
fnv v = new_expr expr_fnv (cons v nil)

unfoldable pub percentile : Expr → Expr → Expr
percentile v p = new_expr expr_percentile (cons v (cons p nil))

unfoldable pub string_param : String → Param
string_param name = record { kind = "param"; type = "string"; name = name }

unfoldable pub bool_param : String → Param
bool_param name = record { kind = "param"; type = "bool"; name = name }

unfoldable pub int64_param : String → Param
int64_param name = record { kind = "param"; type = "int64"; name = name }

unfoldable pub float64_param : String → Param
float64_param name = record { kind = "param"; type = "float64"; name = name }

-- The function True.
unfoldable pub always : Expr
unfolding bool_value
always = value (bool_value true)
