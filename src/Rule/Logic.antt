-- ===== src/Rule/Logic.antt =====
-- Not, Or and And of rule/expr.go on Boolean operands, and where they differ from ParseBool.
use regula.Prelude.{
  Bool, true, false, not, ◌&&◌, ◌||◌, List, [], ◌∷◌, ◌++◌, map, ◌≡◌, refl, Option, ◌==◌, String,
  ◌≤◌, length, arith,
}
use regula.Outcome.{ok}
use regula.Strconv.{parse_bool}
use regula.Floats.{Floats}
use regula.Rule.Value.{Value, bool_value, equal}
use regula.Rule.Expr.{value}
use regula.Rule.Make
use regula.Rule.Eval.{
  Params, Outcomes, search_bool, eval_or, eval_and, eval_not, eval, eval_operator,
}
use regula.Rule.Walk.{eval_rule, finish_rule}

abbrev pub bools : List Bool → Outcomes
bools bs = map (λ b. ok (bool_value b)) bs

-- The Boolean sum and product of a list.
abbrev pub any : List Bool → Bool
any [] = false
any (b ∷ bs) = b || any bs

abbrev pub all : List Bool → Bool
all [] = true
all (b ∷ bs) = b && all bs

equal-bool_value : (a b : Bool) → equal (bool_value a) (bool_value b) ≡ (a && b || not a && not b)
unfolding equal bool_value
equal-bool_value true true = refl
equal-bool_value true false = refl
equal-bool_value false true = refl
equal-bool_value false false = refl

search_bool-or :
    (text : String) (bs : List Bool) (rest : Outcomes)
    → search_bool
        (bool_value true)
        (bool_value false)
        text
        (bools bs ++ ok (bool_value true) ∷ rest)
      ≡ ok (bool_value true)
unfolding search_bool bool_value equal
search_bool-or text [] rest = refl
search_bool-or text (true ∷ bs) rest = refl
search_bool-or text (false ∷ bs) rest = search_bool-or text bs rest

search_bool-and :
    (text : String) (bs : List Bool) (rest : Outcomes)
    → search_bool
        (bool_value false)
        (bool_value true)
        text
        (bools bs ++ ok (bool_value false) ∷ rest)
      ≡ ok (bool_value false)
unfolding search_bool bool_value equal
search_bool-and text [] rest = refl
search_bool-and text (false ∷ bs) rest = refl
search_bool-and text (true ∷ bs) rest = search_bool-and text bs rest

search_bool-any :
    (text : String) (bs : List Bool)
    → search_bool (bool_value true) (bool_value false) text (bools bs) ≡ ok (bool_value (any bs))
unfolding search_bool bool_value equal
search_bool-any text [] = refl
search_bool-any text (true ∷ bs) = refl
search_bool-any text (false ∷ bs) = search_bool-any text bs

search_bool-all :
    (text : String) (bs : List Bool)
    → search_bool (bool_value false) (bool_value true) text (bools bs) ≡ ok (bool_value (all bs))
unfolding search_bool bool_value equal
search_bool-all text [] = refl
search_bool-all text (false ∷ bs) = refl
search_bool-all text (true ∷ bs) = search_bool-all text bs

eval_not-bool : (a : Bool) → eval_not (bools (a ∷ [])) ≡ ok (bool_value (not a))
unfolding eval_not bool_value equal
eval_not-bool true = refl
eval_not-bool false = refl

-- On two or more Boolean operands Or is the disjunction and And the conjunction of them all, and
-- Not of a Boolean is its negation.
pub logic_tables :
    (a b : Bool) (bs : List Bool)
    → (eval_or (bools (a ∷ b ∷ bs)) ≡ ok (bool_value (any (a ∷ b ∷ bs))))
      × (eval_and (bools (a ∷ b ∷ bs)) ≡ ok (bool_value (all (a ∷ b ∷ bs))))
      × (eval_not (bools (a ∷ [])) ≡ ok (bool_value (not a)))
unfolding eval_or eval_and
logic_tables a b bs =
    (search_bool-any _ (a ∷ b ∷ bs), search_bool-all _ (a ∷ b ∷ bs), eval_not-bool a)

-- Or and And need two operands at least. A Boolean operand that settles the result, behind any
-- number of Boolean ones or none, is the last one that is evaluated: what comes behind it, errors and
-- panics included, changes nothing.
pub short_circuit :
    (bs : List Bool) (rest : Outcomes)
    → 2 ≤ length (bools bs ++ ok (bool_value true) ∷ rest)
    → (eval_or (bools bs ++ ok (bool_value true) ∷ rest) ≡ ok (bool_value true))
      × (eval_and (bools bs ++ ok (bool_value false) ∷ rest) ≡ ok (bool_value false))
unfolding eval_or eval_and
short_circuit [] [] h = absurd (omega arith)
short_circuit [] (r ∷ rest) h = (search_bool-or _ [] (r ∷ rest), search_bool-and _ [] (r ∷ rest))
short_circuit (a ∷ []) rest h = (search_bool-or _ (a ∷ []) rest, search_bool-and _ (a ∷ []) rest)
short_circuit (a ∷ (b ∷ bs)) rest h =
    (search_bool-or _ (a ∷ b ∷ bs) rest, search_bool-and _ (a ∷ b ∷ bs) rest)

finish_rule-match :
    (result v : Value)
    → v.type ≡ "bool"
    → parse_bool v.content ≡ ok true
    → finish_rule result v ≡ ok result
unfolding finish_rule
finish_rule-match result v t p = let typed : (v.type == "bool") ≡ true = rw t in rw (typed, p)

eval_not-other :
    (v : Value)
    → v.type ≡ "bool"
    → equal v (bool_value true) ≡ false
    → eval_not (ok v ∷ []) ≡ ok (bool_value true)
unfolding eval_not
eval_not-other v t ne = let typed : (v.type == "bool") ≡ true = rw t in rw (typed, ne)

-- A value of type bool whose text ParseBool reads as true, but which is not the text "true", makes
-- a rule match, and its negation makes a rule match too.
pub not_of_other_true :
    (fl : Floats) (ps : Option (Params fl)) (v result : Value)
    → v.type ≡ "bool"
    → parse_bool v.content ≡ ok true
    → equal v (bool_value true) ≡ false
    → (eval_rule fl ps (record { expr = value v; result = result }) ≡ ok result)
      × (eval_rule fl ps (record { expr = Make.not (value v); result = result }) ≡ ok result)
unfolding eval_rule eval Make.not eval_operator
not_of_other_true fl ps v result t p ne = (
  finish_rule-match result v t p,
  rw (eval_not-other v t ne) (
      finish_rule-match result (bool_value true) (unfold bool_value in refl)
        (unfold parse_bool bool_value in refl)),
)
