-- ===== src/Tests/Rules.antt =====
-- The theorems about values, operators and rules at concrete inputs.
use regula.Prelude.{
  arith, pos, true, false, none, some, [], ◌∷◌, ◌++◌, ◌≡◌, ◌≢◌, ◌↔◌, refl, All, leb_ℤ,
}
use regula.Outcome.{ok, err, panic, num_error, bad_syntax}
use regula.Rule.Value.{Value, bool_value, new_value, gt, gte, lt, lte, parse_float64_values}
use regula.Params.Safety.{map_params-AreSafe}
use regula.Rule.Expr.{value}
use regula.Rule.Make
use regula.Rule.Eval.{eval, eval_or, eval_and, eval_in, eval_compare, eval_percentile}
use regula.Rule.Walk.{eval_rule}
use regula.Rule.Logic.{bools, short_circuit, not_of_other_true}
use regula.Rule.Compare.{Passes, IsFound, eval_compare_iff, eval_in_iff}
use regula.Rule.Percentile.{bucket, eval_percentile-bucket}
use regula.Rule.Safety.Typing.{expr_type, eval_typed}
use regula.Tests.Runs.{machine}
use regula.Tests.Samples.{whole_floats, text, in_paris, given, given_params}

abbrev seven : Value
seven = new_value "int64" "7"

abbrev nine : Value
nine = new_value "int64" "9"

abbrev odd : Value
odd = new_value "int64" "x"

abbrev nan : Value
nan = new_value "float64" "NaN"

-- LTE drops the error of an int64 that does not parse.
lte_drops :
    (gt whole_floats odd seven ≡ err (num_error "ParseInt" "x" bad_syntax))
    × (lte whole_floats odd seven ≡ ok false)
unfolding machine gt lte
lte_drops = (refl, refl)

-- A NaN is in every order with itself.
unordered :
    (gt whole_floats nan nan ≡ ok true)
    × (gte whole_floats nan nan ≡ ok true)
    × (lt whole_floats nan nan ≡ ok true)
    × (lte whole_floats nan nan ≡ ok true)
unfolding machine gt gte lt lte parse_float64_values
unordered = (refl, refl, refl, refl)

short_circuit_example :
    (eval_or (bools [] ++ ok (bool_value true) ∷ panic ∷ []) ≡ ok (bool_value true))
    × (eval_and (bools [] ++ ok (bool_value false) ∷ panic ∷ []) ≡ ok (bool_value false))
short_circuit_example = short_circuit [] (panic ∷ []) (omega arith)

abbrev one : Value
one = new_value "bool" "1"

not_of_other_true_example :
    (eval_rule whole_floats none (record { expr = value one; result = text "hit" })
      ≡ ok (text "hit"))
    × (eval_rule whole_floats none (record { expr = Make.not (value one); result = text "hit" })
        ≡ ok (text "hit"))
unfolding machine
not_of_other_true_example = not_of_other_true whole_floats none one (text "hit") refl refl refl

-- The second and third operands are not in descending order, and GT holds.
eval_compare_iff_example :
    (eval_compare "few" (gt whole_floats) (ok nine ∷ ok seven ∷ ok nine ∷ [])
      ≡ ok (bool_value true))
    ↔ ((v : Value) × (ok nine ≡ ok v) × All (Passes (gt whole_floats) v) (ok seven ∷ ok nine ∷ []))
eval_compare_iff_example =
    eval_compare_iff "few" (gt whole_floats) (ok nine) (ok seven) (ok nine ∷ [])

eval_in_iff_example :
    (eval_in (ok nine ∷ ok seven ∷ ok nine ∷ panic ∷ []) ≡ ok (bool_value true))
    ↔ ((v : Value) × (ok nine ≡ ok v) × IsFound v (ok seven ∷ ok nine ∷ panic ∷ []))
eval_in_iff_example = eval_in_iff (ok nine) (ok seven) (ok nine ∷ panic ∷ [])

eval_percentile-bucket_example :
    eval_percentile (ok (text "user-1") ∷ ok seven ∷ [])
    ≡ ok (bool_value (leb_ℤ (pos (bucket (text "user-1"))) (pos 7)))
unfolding machine
eval_percentile-bucket_example = eval_percentile-bucket (text "user-1") seven (pos 7) refl

eval_typed_example :
    (eval whole_floats (some given_params) in_paris ≢ panic)
    × ((v : Value)
        → eval whole_floats (some given_params) in_paris ≡ ok v
        → v.type ≡ expr_type in_paris)
eval_typed_example =
    eval_typed whole_floats (some given_params) in_paris (map_params-AreSafe whole_floats given)
