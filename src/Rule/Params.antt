-- ===== src/Rule/Params.antt =====
-- The parameters of an expression, and what an evaluation reads of the interface Params.
use regula.Prelude.{
  String, Option, some, subst, List, [], ◌∷◌, ◌++◌, ◌≡◌, refl, ap, ap₂, append-nil, append_assoc,
  All, All-append_left, All-append_right,
}
use regula.Outcome.{ok, ◌>>=◌}
use regula.Floats.{Floats}
use regula.Rule.Value.{
  TypeCase, bool_case, string_case, int64_case, float64_case, unsupported, type_case,
}
use regula.Rule.Expr.{Param, Expr, Exprs, nil, cons, value, param, operator}
use regula.Rule.Eval.{Params, get_param, eval_param, eval, outcomes, eval_operator}
use regula.Rule.Walk.{walk, walk_operands, collect, Rule, rule_params, eval_rule, finish_rule}

-- The parameters of an expression, from left to right.
unfoldable mutual
  pub expr_params : Expr → List Param
  expr_params (value v) = []
  expr_params (param p) = p ∷ []
  expr_params (operator op kind es) = operand_params es

  pub operand_params : Exprs → List Param
  operand_params nil = []
  operand_params (cons e es) = expr_params e ++ operand_params es

mutual
  unfolding walk collect expr_params

  walk-collect : (e : Expr) (l : List Param) → walk collect e l ≡ ok (l ++ expr_params e)
  walk-collect (value v) l = rw append-nil
  walk-collect (param p) l = refl
  walk-collect (operator op kind es) l = walk_operands-collect es l

  walk_operands-collect :
      (es : Exprs) (l : List Param) → walk_operands collect es l ≡ ok (l ++ operand_params es)
  walk_operands-collect nil l = rw append-nil
  walk_operands-collect (cons e es) l =
      rw (walk-collect e l, walk_operands-collect es (l ++ expr_params e), append_assoc)

-- The traversal of a rule collects each parameter occurrence of its expression once, from left to
-- right, at any depth.
pub rule_params-eq-expr_params : (r : Rule) → rule_params r ≡ expr_params r.expr
unfolding rule_params
rule_params-eq-expr_params r = rw (walk-collect r.expr [])

-- Two sets of parameters give one value, or one error, for each parameter of the list.
module _ (fl : Floats) (ps qs : Option (Params fl)) where
  abbrev pub SameAt : Param → Type 0
  SameAt p = eval_param fl ps p ≡ eval_param fl qs p

  mutual
    unfolding eval expr_params

    eval-same : (e : Expr) → All SameAt (expr_params e) → eval fl ps e ≡ eval fl qs e
    eval-same (value v) h = refl
    eval-same (param p) h = h.0
    eval-same (operator op kind es) h = ap (eval_operator fl op) (outcomes-same es h)

    outcomes-same :
        (es : Exprs) → All SameAt (operand_params es) → outcomes fl ps es ≡ outcomes fl qs es
    outcomes-same nil h = refl
    outcomes-same (cons e es) h =
        ap₂ ◌∷◌ (eval-same e (All-append_left SameAt (expr_params e) (operand_params es) h))
          (outcomes-same es (All-append_right SameAt (expr_params e) (operand_params es) h))

  -- A rule gives one outcome for two sets of parameters under which each parameter of the rule
  -- evaluates alike.
  pub eval_rule-same :
      (r : Rule) → All SameAt (rule_params r) → eval_rule fl ps r ≡ eval_rule fl qs r
  unfolding eval_rule
  eval_rule-same r h =
      ap (λ o. o >>= finish_rule r.result)
        (eval-same r.expr (subst (All SameAt) (rule_params-eq-expr_params r) h))

module _ (fl : Floats) (ps qs : Params fl) where
  -- Two implementations of Params answer alike under a name.
  pub record AgreeAt (name : String) : Type 0 where
    pub on_string : ps.get_string name ≡ qs.get_string name
    pub on_bool : ps.get_bool name ≡ qs.get_bool name
    pub on_int64 : ps.get_int64 name ≡ qs.get_int64 name
    pub on_float64 : ps.get_float64 name ≡ qs.get_float64 name

  get_param-agree :
      (t : TypeCase) (n : String) → AgreeAt n → get_param fl ps t n ≡ get_param fl qs t n
  unfolding get_param
  get_param-agree string_case n a = rw a.on_string
  get_param-agree bool_case n a = rw a.on_bool
  get_param-agree int64_case n a = rw a.on_int64
  get_param-agree float64_case n a = rw a.on_float64
  get_param-agree unsupported n a = refl

  pub AgreeAt-SameAt : (p : Param) → AgreeAt p.name → SameAt fl (some ps) (some qs) p
  unfolding eval_param
  AgreeAt-SameAt p a = get_param-agree (type_case p.type) p.name a
