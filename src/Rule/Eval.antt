-- ===== src/Rule/Eval.antt =====
-- The evaluation of expressions: the methods Eval of rule/expr.go.
--
-- An operator is given the outcomes of its operands in order. It reads one only where the source
-- calls that operand's Eval; evaluation has no effect, so an outcome that is not read is a call
-- that is not made.
use regula.Prelude.{
  ℤ, pos, String, Bool, true, false, Option, none, some, List, [], ◌∷◌, if◌then◌else◌, ◌==◌, leb_ℤ,
  rem,
}
use regula.Outcome.{Result, ok, err, message, ◌>>=◌}
use regula.Strconv.{parse_int, checked}
use regula.Hash.{bytes, sum32}
use regula.Floats.{Floats}
use regula.Rule.Value.{
  Value, bool_value, string_value, int64_value, float64_value, equal, gt, gte, lt, lte, TypeCase,
  bool_case, string_case, int64_case, float64_case, unsupported, type_case,
}
use regula.Rule.Expr.{
  Param, Operator, Expr, Exprs, nil, cons, value, param, operator, expr_not, expr_or, expr_and,
  expr_eq, expr_in, expr_gt, expr_gte, expr_lt, expr_lte, expr_fnv, expr_percentile,
}

-- The interface Params: the getters that an evaluation is given.
pub record Params (fl : Floats) : Type 0 where
  pub get_string : String → Result String
  pub get_bool : String → Result Bool
  pub get_int64 : String → Result ℤ
  pub get_float64 : String → Result fl.Float64
  pub keys : List String
  pub encode_value : String → Result String

-- The outcomes of operands.
abbrev pub Outcomes : Type 0
Outcomes = List (Result Value)

unfoldable pub not_value : Value → Value
not_value v = if equal v (bool_value true) then bool_value false else bool_value true

unfoldable pub eval_not : Outcomes → Result Value
unfolding not_value
eval_not [] = err (message "invalid number of operands in Not func")
eval_not (r ∷ _) = do
  v ← r
  if v.type == "bool" then ok (not_value v) else err (message "invalid operand type for Not func")

-- The loop of Or and And: the first operand equal to `stop` is the result, and `last` comes where
-- there is none. The source treats its first operand, before the loop, in the same way.
unfoldable pub search_bool : Value → Value → String → Outcomes → Result Value
search_bool stop last text [] = ok last
search_bool stop last text (r ∷ rs) =
    let rest = search_bool stop last text rs in
    r >>= λ v.
    if v.type == "bool" then (if equal v stop then ok v else rest) else err (message text)

unfoldable pub eval_or : Outcomes → Result Value
unfolding search_bool
eval_or (a ∷ (b ∷ rs)) =
    search_bool (bool_value true) (bool_value false) "invalid operand type for Or func"
      (a ∷ (b ∷ rs))
eval_or _ = err (message "invalid number of operands in Or func")

unfoldable pub eval_and : Outcomes → Result Value
unfolding search_bool
eval_and (a ∷ (b ∷ rs)) =
    search_bool (bool_value false) (bool_value true) "invalid operand type for And func"
      (a ∷ (b ∷ rs))
eval_and _ = err (message "invalid number of operands in And func")

unfoldable pub all_equal : Value → Outcomes → Result Value
all_equal v [] = ok (bool_value true)
all_equal v (r ∷ rs) =
    let rest = all_equal v rs in r >>= λ w. if equal v w then rest else ok (bool_value false)

unfoldable pub eval_eq : Outcomes → Result Value
unfolding all_equal
eval_eq (a ∷ (b ∷ rs)) = do v ← a; all_equal v (b ∷ rs)
eval_eq _ = err (message "invalid number of operands in Eq func")

unfoldable pub any_equal : Value → Outcomes → Result Value
any_equal v [] = ok (bool_value false)
any_equal v (r ∷ rs) =
    let rest = any_equal v rs in r >>= λ w. if equal v w then ok (bool_value true) else rest

unfoldable pub eval_in : Outcomes → Result Value
unfolding any_equal
eval_in (a ∷ (b ∷ rs)) = do v ← a; any_equal v (b ∷ rs)
eval_in _ = err (message "invalid number of operands in In func")

-- The loop of GT, GTE, LT and LTE: the first operand is compared with each of the others.
unfoldable pub compare_all : (Value → Value → Result Bool) → Value → Outcomes → Result Value
compare_all test v [] = ok (bool_value true)
compare_all test v (r ∷ rs) =
    let rest = compare_all test v rs in
    r >>= λ w. test v w >>= λ res. if res then rest else ok (bool_value false)

unfoldable pub eval_compare : String → (Value → Value → Result Bool) → Outcomes → Result Value
unfolding compare_all
eval_compare text test (a ∷ (b ∷ rs)) = do v ← a; compare_all test v (b ∷ rs)
eval_compare text test _ = err (message text)

unfoldable pub eval_fnv : Outcomes → Result Value
eval_fnv (r ∷ []) = do v ← r; ok (int64_value (pos (sum32 (bytes v.content))))
eval_fnv _ = err (message "invalid number of operands in FNV func")

-- `exprToInt64` on the outcome of the expression; the value's type is not looked at.
unfoldable pub expr_to_int64 : Result Value → Result ℤ
expr_to_int64 r = do v ← r; checked (parse_int v.content)

unfoldable pub eval_percentile : Outcomes → Result Value
unfolding expr_to_int64
eval_percentile (a ∷ (b ∷ [])) = do
  v ← expr_to_int64 (eval_fnv (a ∷ []))
  p ← expr_to_int64 b
  ok (if leb_ℤ (rem v 100) p then bool_value true else bool_value false)
eval_percentile _ = err (message "invalid number of operands in Percentile func")

module _ (fl : Floats) where
  unfoldable pub eval_operator : Operator → Outcomes → Result Value
  eval_operator expr_not = eval_not
  eval_operator expr_or = eval_or
  eval_operator expr_and = eval_and
  eval_operator expr_eq = eval_eq
  eval_operator expr_in = eval_in
  eval_operator expr_gt = eval_compare "invalid number of operands in GT func" (gt fl)
  eval_operator expr_gte = eval_compare "invalid number of operands in GTE func" (gte fl)
  eval_operator expr_lt = eval_compare "invalid number of operands in LT func" (lt fl)
  eval_operator expr_lte = eval_compare "invalid number of operands in LTE func" (lte fl)
  eval_operator expr_fnv = eval_fnv
  eval_operator expr_percentile = eval_percentile

  -- The getter that a parameter's type chooses.
  unfoldable pub get_param : Params fl → TypeCase → String → Result Value
  get_param ps string_case n = do s ← ps.get_string n; ok (string_value s)
  get_param ps bool_case n = do b ← ps.get_bool n; ok (bool_value b)
  get_param ps int64_case n = do i ← ps.get_int64 n; ok (int64_value i)
  get_param ps float64_case n = do f ← ps.get_float64 n; ok (float64_value fl f)
  get_param ps unsupported n = err (message "unsupported param type")

  unfoldable pub eval_param : Option (Params fl) → Param → Result Value
  unfolding get_param
  eval_param none p = err (message "params is nil")
  eval_param (some ps) p = get_param ps (type_case p.type) p.name

  unfoldable mutual
    pub eval : Option (Params fl) → Expr → Result Value
    eval ps (value v) = ok v
    eval ps (param p) = eval_param ps p
    eval ps (operator op kind es) = eval_operator op (outcomes ps es)

    pub outcomes : Option (Params fl) → Exprs → Outcomes
    outcomes ps nil = []
    outcomes ps (cons e es) = eval ps e ∷ outcomes ps es
