-- ===== src/Rule/Safety.antt =====
-- What an evaluation returns: the types of the operators' results, and no panic.
pub mod Typing
use regula.Prelude.{
  ℤ, Bool, true, false, Option, some, none, String, List, [], ◌∷◌, ◌≡◌, ◌≢◌, refl, arith, All,
  if◌then◌else◌, ◌==◌, eq_iff, Bool-cases, inl, inr,
}
use regula.Outcome.{Error, Result, ok, err, panic, ◌>>=◌, Ensures, Ensures->>=, Ensures-if}
use regula.Strconv.{parse_bool, parse_int, checked}
use regula.Floats.{Floats}
use regula.Rule.Value.{
  Value, TypeCase, bool_case, string_case, int64_case, float64_case, unsupported, type_case,
  bool_value, string_value, int64_value, float64_value, decide_by, decide_or_false,
  parse_bool_values, parse_int64_values, parse_float64_values, gt_as, gte_as, lt_as, lte_as, gt,
  gte, lt, lte, unknown_type,
}
use regula.Rule.Expr.{
  Param, Operator, Expr, Exprs, nil, cons, value, param, operator, expr_not, expr_or, expr_and,
  expr_eq, expr_in, expr_gt, expr_gte, expr_lt, expr_lte, expr_fnv, expr_percentile,
}
use regula.Rule.Eval.{
  Params, Outcomes, not_value, eval_not, search_bool, eval_or, eval_and, all_equal, eval_eq,
  any_equal, eval_in, compare_all, eval_compare, eval_fnv, expr_to_int64, eval_percentile,
  eval_operator, get_param, eval_param, eval, outcomes,
}

-- No panic.
abbrev pub IsSafe {ℓ} : {A : Type ℓ} → Result A → Type 0
IsSafe = Ensures (λ _. Unit)

abbrev HasType : String → Result Value → Type 0
HasType t = Ensures (λ v. v.type ≡ t)

bool_value-type : (b : Bool) → (bool_value b).type ≡ "bool"
unfolding bool_value
bool_value-type b = refl

pub checked-IsSafe {ℓ} : {A : Type ℓ} (r : A × Option Error) → IsSafe (checked r)
checked-IsSafe (a, none) = tt
checked-IsSafe (a, some e) = tt

pub parse_bool-IsSafe : (s : String) → IsSafe (parse_bool s)
unfolding parse_bool
parse_bool-IsSafe s = ground arith

-- Parsing two texts one after the other.
pair-IsSafe {ℓ} :
    {A : Type ℓ} (r s : Result A)
    → IsSafe r
    → IsSafe s
    → IsSafe {A = A × A} (do x ← r; y ← s; ok (x, y))
pair-IsSafe (ok x) (ok y) h k = tt
pair-IsSafe (ok x) (err e) h k = tt
pair-IsSafe (ok x) panic h k = k
pair-IsSafe (err e) s h k = tt
pair-IsSafe panic s h k = h

decide_by-IsSafe {ℓ} :
    {A : Type ℓ} (f : A → A → Bool) (r : Result (A × A)) → IsSafe r → IsSafe (decide_by f r)
decide_by-IsSafe f (ok (a, b)) h = tt
decide_by-IsSafe f (err e) h = tt
decide_by-IsSafe f panic h = h

decide_or_false-IsSafe {ℓ} :
    {A : Type ℓ} (f : A → A → Bool) (r : Result (A × A)) → IsSafe r → IsSafe (decide_or_false f r)
decide_or_false-IsSafe f (ok (a, b)) h = tt
decide_or_false-IsSafe f (err e) h = tt
decide_or_false-IsSafe f panic h = h

module _ (v w : Value) where
  bools-IsSafe : IsSafe (parse_bool_values v w)
  unfolding parse_bool_values
  bools-IsSafe =
      pair-IsSafe (parse_bool v.content) (parse_bool w.content) (parse_bool-IsSafe v.content)
        (parse_bool-IsSafe w.content)

  ints-IsSafe : IsSafe (parse_int64_values v w)
  unfolding parse_int64_values
  ints-IsSafe =
      pair-IsSafe (checked (parse_int v.content)) (checked (parse_int w.content))
        (checked-IsSafe (parse_int v.content)) (checked-IsSafe (parse_int w.content))

  floats-IsSafe : (fl : Floats) → IsSafe (parse_float64_values fl v w)
  unfolding parse_float64_values
  floats-IsSafe fl =
      pair-IsSafe (checked (fl.parse_float v.content)) (checked (fl.parse_float w.content))
        (checked-IsSafe (fl.parse_float v.content)) (checked-IsSafe (fl.parse_float w.content))

  module _ (fl : Floats) where
    gt_as-IsSafe : (t : TypeCase) → IsSafe (gt_as fl t v w)
    unfolding gt_as
    gt_as-IsSafe bool_case = decide_by-IsSafe _ (parse_bool_values v w) bools-IsSafe
    gt_as-IsSafe string_case = tt
    gt_as-IsSafe int64_case = decide_by-IsSafe _ (parse_int64_values v w) ints-IsSafe
    gt_as-IsSafe float64_case = decide_by-IsSafe _ (parse_float64_values fl v w) (floats-IsSafe fl)
    gt_as-IsSafe unsupported = tt

    gte_as-IsSafe : (t : TypeCase) → IsSafe (gte_as fl t v w)
    unfolding gte_as
    gte_as-IsSafe bool_case = decide_by-IsSafe _ (parse_bool_values v w) bools-IsSafe
    gte_as-IsSafe string_case = tt
    gte_as-IsSafe int64_case = decide_by-IsSafe _ (parse_int64_values v w) ints-IsSafe
    gte_as-IsSafe float64_case = decide_by-IsSafe _ (parse_float64_values fl v w) (floats-IsSafe fl)
    gte_as-IsSafe unsupported = tt

    lt_as-IsSafe : (t : TypeCase) → IsSafe (lt_as fl t v w)
    unfolding lt_as
    lt_as-IsSafe bool_case = decide_by-IsSafe _ (parse_bool_values v w) bools-IsSafe
    lt_as-IsSafe string_case = tt
    lt_as-IsSafe int64_case = decide_by-IsSafe _ (parse_int64_values v w) ints-IsSafe
    lt_as-IsSafe float64_case = decide_by-IsSafe _ (parse_float64_values fl v w) (floats-IsSafe fl)
    lt_as-IsSafe unsupported = tt

    lte_as-IsSafe : (t : TypeCase) → IsSafe (lte_as fl t v w)
    unfolding lte_as
    lte_as-IsSafe bool_case = decide_by-IsSafe _ (parse_bool_values v w) bools-IsSafe
    lte_as-IsSafe string_case = tt
    lte_as-IsSafe int64_case = decide_or_false-IsSafe _ (parse_int64_values v w) ints-IsSafe
    lte_as-IsSafe float64_case = decide_by-IsSafe _ (parse_float64_values fl v w) (floats-IsSafe fl)
    lte_as-IsSafe unsupported = tt

-- The operators, on outcomes that hold no panic.
abbrev AllSafe : Outcomes → Type 0
AllSafe = All (λ r. IsSafe r)

search_bool-HasType :
    (stop last : Value) (text : String) (rs : Outcomes)
    → last.type ≡ "bool"
    → AllSafe rs
    → HasType "bool" (search_bool stop last text rs)
unfolding search_bool
search_bool-HasType stop last text [] e h = e
search_bool-HasType stop last text (ok v ∷ rs) e h =
    ground (arith, eq_iff v.type "bool", search_bool-HasType stop last text rs e h.1)
search_bool-HasType stop last text (err x ∷ rs) e h = tt
search_bool-HasType stop last text (panic ∷ rs) e h = h.0

all_equal-HasType : (v : Value) (rs : Outcomes) → AllSafe rs → HasType "bool" (all_equal v rs)
unfolding all_equal
all_equal-HasType v [] h = bool_value-type true
all_equal-HasType v (ok w ∷ rs) h =
    ground (arith, all_equal-HasType v rs h.1, bool_value-type false)
all_equal-HasType v (err x ∷ rs) h = tt
all_equal-HasType v (panic ∷ rs) h = h.0

any_equal-HasType : (v : Value) (rs : Outcomes) → AllSafe rs → HasType "bool" (any_equal v rs)
unfolding any_equal
any_equal-HasType v [] h = bool_value-type false
any_equal-HasType v (ok w ∷ rs) h = ground (arith, any_equal-HasType v rs h.1, bool_value-type true)
any_equal-HasType v (err x ∷ rs) h = tt
any_equal-HasType v (panic ∷ rs) h = h.0

module _ (test : Value → Value → Result Bool) (safe : (v w : Value) → IsSafe (test v w)) where
  next-HasType :
      (t : Result Bool) (rest : Result Value)
      → IsSafe t
      → HasType "bool" rest
      → HasType "bool" (t >>= λ res. if res then rest else ok (bool_value false))
  next-HasType (ok true) rest h k = k
  next-HasType (ok false) rest h k = bool_value-type false
  next-HasType (err x) rest h k = tt
  next-HasType panic rest h k = h

  compare_all-HasType :
      (v : Value) (rs : Outcomes) → AllSafe rs → HasType "bool" (compare_all test v rs)
  unfolding compare_all
  compare_all-HasType v [] h = bool_value-type true
  compare_all-HasType v (ok w ∷ rs) h =
      next-HasType (test v w) (compare_all test v rs) (safe v w) (compare_all-HasType v rs h.1)
  compare_all-HasType v (err x ∷ rs) h = tt
  compare_all-HasType v (panic ∷ rs) h = h.0

  eval_compare-HasType :
      (text : String) (rs : Outcomes) → AllSafe rs → HasType "bool" (eval_compare text test rs)
  unfolding eval_compare
  eval_compare-HasType text (ok v ∷ (b ∷ rs)) h = compare_all-HasType v (b ∷ rs) h.1
  eval_compare-HasType text (err x ∷ (b ∷ rs)) h = tt
  eval_compare-HasType text (panic ∷ (b ∷ rs)) h = h.0
  eval_compare-HasType text (a ∷ []) h = tt
  eval_compare-HasType text [] h = tt
