-- ===== src/Rule/Safety/Typing.antt =====
-- The type of every value that an expression evaluates to, and that no evaluation panics.
use regula.Prelude.{
  true, false, Option, some, none, String, [], ◌∷◌, ◌≡◌, refl, sym, ◌≢◌, arith, eq_iff,
}
use regula.Outcome.{Result, ok, err, panic, Ensures->>=}
use regula.Strconv.{parse_int}
use regula.Floats.{Floats}
use regula.Rule.Value.{
  Value, TypeCase, bool_case, string_case, int64_case, float64_case, unsupported, type_case,
  bool_value, string_value, int64_value, float64_value, gt, gte, lt, lte,
}
use regula.Rule.Expr.{
  Param, Operator, Expr, Exprs, nil, cons, value, param, operator, expr_not, expr_or, expr_and,
  expr_eq, expr_in, expr_gt, expr_gte, expr_lt, expr_lte, expr_fnv, expr_percentile,
}
use regula.Rule.Eval.{
  Params, Outcomes, eval_not, eval_or, eval_and, eval_eq, eval_in, eval_fnv, expr_to_int64,
  eval_percentile, eval_operator, get_param, eval_param, eval, outcomes,
}
use regula.Rule.Safety.{
  IsSafe, HasType, AllSafe, bool_value-type, checked-IsSafe, search_bool-HasType, all_equal-HasType,
  any_equal-HasType, eval_compare-HasType, gt_as-IsSafe, gte_as-IsSafe, lt_as-IsSafe, lte_as-IsSafe,
}

-- The type of an operator's result.
abbrev pub result_type : Operator → String
result_type expr_fnv = "int64"
result_type _ = "bool"

-- The type of an expression's value.
abbrev pub expr_type : Expr → String
expr_type (value v) = v.type
expr_type (param p) = p.type
expr_type (operator op kind es) = result_type op

eval_not-HasType : (rs : Outcomes) → AllSafe rs → HasType "bool" (eval_not rs)
unfolding eval_not
eval_not-HasType [] h = tt
eval_not-HasType (ok v ∷ rs) h = ground (arith, bool_value-type true, bool_value-type false)
eval_not-HasType (err x ∷ rs) h = tt
eval_not-HasType (panic ∷ rs) h = h.0

eval_or-HasType : (rs : Outcomes) → AllSafe rs → HasType "bool" (eval_or rs)
unfolding eval_or
eval_or-HasType [] h = tt
eval_or-HasType (a ∷ []) h = tt
eval_or-HasType (a ∷ (b ∷ rs)) h =
    search_bool-HasType _ _ _ (a ∷ (b ∷ rs)) (bool_value-type false) h

eval_and-HasType : (rs : Outcomes) → AllSafe rs → HasType "bool" (eval_and rs)
unfolding eval_and
eval_and-HasType [] h = tt
eval_and-HasType (a ∷ []) h = tt
eval_and-HasType (a ∷ (b ∷ rs)) h =
    search_bool-HasType _ _ _ (a ∷ (b ∷ rs)) (bool_value-type true) h

eval_eq-HasType : (rs : Outcomes) → AllSafe rs → HasType "bool" (eval_eq rs)
unfolding eval_eq
eval_eq-HasType [] h = tt
eval_eq-HasType (a ∷ []) h = tt
eval_eq-HasType (ok v ∷ (b ∷ rs)) h = all_equal-HasType v (b ∷ rs) h.1
eval_eq-HasType (err x ∷ (b ∷ rs)) h = tt
eval_eq-HasType (panic ∷ (b ∷ rs)) h = h.0

eval_in-HasType : (rs : Outcomes) → AllSafe rs → HasType "bool" (eval_in rs)
unfolding eval_in
eval_in-HasType [] h = tt
eval_in-HasType (a ∷ []) h = tt
eval_in-HasType (ok v ∷ (b ∷ rs)) h = any_equal-HasType v (b ∷ rs) h.1
eval_in-HasType (err x ∷ (b ∷ rs)) h = tt
eval_in-HasType (panic ∷ (b ∷ rs)) h = h.0

eval_fnv-HasType : (rs : Outcomes) → AllSafe rs → HasType "int64" (eval_fnv rs)
unfolding eval_fnv int64_value
eval_fnv-HasType [] h = tt
eval_fnv-HasType (ok v ∷ []) h = refl
eval_fnv-HasType (err x ∷ []) h = tt
eval_fnv-HasType (panic ∷ []) h = h.0
eval_fnv-HasType (a ∷ (b ∷ rs)) h = tt

expr_to_int64-IsSafe : (r : Result Value) → IsSafe r → IsSafe (expr_to_int64 r)
unfolding expr_to_int64
expr_to_int64-IsSafe (ok v) h = checked-IsSafe (parse_int v.content)
expr_to_int64-IsSafe (err x) h = tt
expr_to_int64-IsSafe panic h = h

fnv-IsSafe : (r : Result Value) → IsSafe r → IsSafe (eval_fnv (r ∷ []))
unfolding eval_fnv
fnv-IsSafe (ok v) h = tt
fnv-IsSafe (err x) h = tt
fnv-IsSafe panic h = h

eval_percentile-HasType : (rs : Outcomes) → AllSafe rs → HasType "bool" (eval_percentile rs)
unfolding eval_percentile
eval_percentile-HasType [] h = tt
eval_percentile-HasType (a ∷ []) h = tt
eval_percentile-HasType (a ∷ (b ∷ [])) h =
    Ensures->>= (λ _. Unit) (λ v. v.type ≡ "bool") (expr_to_int64 (eval_fnv (a ∷ []))) _
      (expr_to_int64-IsSafe (eval_fnv (a ∷ [])) (fnv-IsSafe a h.0))
      λ v _.
        Ensures->>= (λ _. Unit) (λ v. v.type ≡ "bool") (expr_to_int64 b) _
          (expr_to_int64-IsSafe b h.1.0)
          λ p _. ground (arith, bool_value-type true, bool_value-type false)
eval_percentile-HasType (a ∷ (b ∷ (c ∷ rs))) h = tt

module _ (fl : Floats) where
  eval_operator-HasType :
      (op : Operator) (rs : Outcomes)
      → AllSafe rs
      → HasType (result_type op) (eval_operator fl op rs)
  unfolding eval_operator gt gte lt lte
  eval_operator-HasType expr_not rs h = eval_not-HasType rs h
  eval_operator-HasType expr_or rs h = eval_or-HasType rs h
  eval_operator-HasType expr_and rs h = eval_and-HasType rs h
  eval_operator-HasType expr_eq rs h = eval_eq-HasType rs h
  eval_operator-HasType expr_in rs h = eval_in-HasType rs h
  eval_operator-HasType expr_gt rs h =
      eval_compare-HasType (gt fl) (λ v w. gt_as-IsSafe v w fl (type_case v.type)) _ rs h
  eval_operator-HasType expr_gte rs h =
      eval_compare-HasType (gte fl) (λ v w. gte_as-IsSafe v w fl (type_case v.type)) _ rs h
  eval_operator-HasType expr_lt rs h =
      eval_compare-HasType (lt fl) (λ v w. lt_as-IsSafe v w fl (type_case v.type)) _ rs h
  eval_operator-HasType expr_lte rs h =
      eval_compare-HasType (lte fl) (λ v w. lte_as-IsSafe v w fl (type_case v.type)) _ rs h
  eval_operator-HasType expr_fnv rs h = eval_fnv-HasType rs h
  eval_operator-HasType expr_percentile rs h = eval_percentile-HasType rs h

  -- No getter panics.
  pub record AreSafe (ps : Params fl) : Type 0 where
    pub string_safe : (n : String) → IsSafe (ps.get_string n)
    pub bool_safe : (n : String) → IsSafe (ps.get_bool n)
    pub int64_safe : (n : String) → IsSafe (ps.get_int64 n)
    pub float64_safe : (n : String) → IsSafe (ps.get_float64 n)

  -- What a parameter of a case's type is.
  abbrev NamedBy : TypeCase → String → Type 0
  NamedBy bool_case t = t ≡ "bool"
  NamedBy string_case t = t ≡ "string"
  NamedBy int64_case t = t ≡ "int64"
  NamedBy float64_case t = t ≡ "float64"
  NamedBy unsupported t = Unit

  type_case-NamedBy : (t : String) → NamedBy (type_case t) t
  unfolding type_case
  type_case-NamedBy t =
      ground (arith, eq_iff t "bool", eq_iff t "string", eq_iff t "int64", eq_iff t "float64")

  module _ (ps : Params fl) (safe : AreSafe ps) where
    get_param-HasType :
        (t : TypeCase) (p : Param) → NamedBy t p.type → HasType p.type (get_param fl ps t p.name)
    unfolding get_param string_value bool_value int64_value float64_value
    get_param-HasType string_case p e =
        Ensures->>= (λ _. Unit) (λ v. v.type ≡ p.type) (ps.get_string p.name) _
          (safe.string_safe p.name) (λ x _. sym e)
    get_param-HasType bool_case p e =
        Ensures->>= (λ _. Unit) (λ v. v.type ≡ p.type) (ps.get_bool p.name) _
          (safe.bool_safe p.name) (λ x _. sym e)
    get_param-HasType int64_case p e =
        Ensures->>= (λ _. Unit) (λ v. v.type ≡ p.type) (ps.get_int64 p.name) _
          (safe.int64_safe p.name) (λ x _. sym e)
    get_param-HasType float64_case p e =
        Ensures->>= (λ _. Unit) (λ v. v.type ≡ p.type) (ps.get_float64 p.name) _
          (safe.float64_safe p.name) (λ x _. sym e)
    get_param-HasType unsupported p e = tt

  -- Parameters, if there are any, whose getters do not panic.
  abbrev pub GivenSafe : Option (Params fl) → Type 0
  GivenSafe none = Unit
  GivenSafe (some ps) = AreSafe ps

  eval_param-HasType :
      (ps : Option (Params fl)) (p : Param) → GivenSafe ps → HasType p.type (eval_param fl ps p)
  unfolding eval_param
  eval_param-HasType none p h = tt
  eval_param-HasType (some ps) p h =
      get_param-HasType ps h (type_case p.type) p (type_case-NamedBy p.type)

  -- Forgetting the value.
  HasType-IsSafe : (t : String) (r : Result Value) → HasType t r → IsSafe r
  HasType-IsSafe t (ok v) h = tt
  HasType-IsSafe t (err e) h = tt
  HasType-IsSafe t panic h = h

  mutual
    unfolding eval

    eval-HasType :
        (ps : Option (Params fl)) (e : Expr) → GivenSafe ps → HasType (expr_type e) (eval fl ps e)
    eval-HasType ps (value v) h = refl
    eval-HasType ps (param p) h = eval_param-HasType ps p h
    eval-HasType ps (operator op kind es) h =
        eval_operator-HasType op (outcomes fl ps es) (outcomes-AllSafe ps es h)

    outcomes-AllSafe :
        (ps : Option (Params fl)) (es : Exprs) → GivenSafe ps → AllSafe (outcomes fl ps es)
    outcomes-AllSafe ps nil h = tt
    outcomes-AllSafe ps (cons e es) h = (
      HasType-IsSafe (expr_type e) (eval fl ps e) (eval-HasType ps e h),
      outcomes-AllSafe ps es h,
    )

-- Whatever the operands, an evaluation with getters that do not panic does not panic, and a value
-- that it returns has the type that the expression shows: that of the constant, of the parameter,
-- int64 for FNV and bool for every other operator.
pub eval_typed :
    (fl : Floats) (ps : Option (Params fl)) (e : Expr)
    → GivenSafe fl ps
    → (eval fl ps e ≢ panic) × ((v : Value) → eval fl ps e ≡ ok v → v.type ≡ expr_type e)
eval_typed fl ps e h = go (eval fl ps e) (eval-HasType fl ps e h)
  where
    go :
        (r : Result Value)
        → HasType (expr_type e) r
        → (r ≢ panic) × ((v : Value) → r ≡ ok v → v.type ≡ expr_type e)
    go (ok w) t = (cc, λ v p. rw (← t) (cc))
    go (err x) t = (cc, λ v p. cc)
    go panic t = absurd t
