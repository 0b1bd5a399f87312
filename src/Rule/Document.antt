-- ===== src/Rule/Document.antt =====
-- A rule as a JSON document: the struct tags of Rule and its UnmarshalJSON in rule/rule.go.
pub mod Missing
use regula.Prelude.{String, Bool, true, false, Option, none, some, if◌then◌else◌, ◌==◌}
use regula.Outcome.{Error, message, Result, ok, err, panic, ◌>>=◌}
use regula.Json.{
  Json, null, boolean, number, text, array, object, Members, no_members, member, is_field,
  type_error,
}
use regula.Rule.Value.{Value}
use regula.Rule.Expr.{Expr}
use regula.Rule.Walk.{Rule}
use regula.Rule.Json.{value_json, expr_json, value_members, zero_value, unmarshal_expr}

unfoldable pub rule_json : Rule → Json
unfolding value_json expr_json
rule_json r =
    object (member "expr" (expr_json r.expr) (member "result" (value_json r.result) no_members))

-- The struct `tree`: the raw expression, and a pointer to the result.
pub record Tree : Type 0 where
  pub expr : Option Json
  pub result : Option Value

abbrev pub zero_tree : Tree
zero_tree = record { expr = none; result = none }

abbrev pub or_zero : Option Value → Value
or_zero none = zero_value
or_zero (some v) = v

-- json.Unmarshal into a pointer to a Value.
unfoldable pub store_value : Option Value → Json → Result (Option Value)
unfolding value_members
store_value old null = ok none
store_value old (object ms) = value_members (or_zero old) ms >>= λ v. ok (some v)
store_value old _ = err type_error

unfoldable pub tree_member : Tree → String → Json → Result Tree
unfolding is_field store_value
tree_member t key j =
    if is_field "Expr" key
    then ok (record t { expr = some j })
    else if is_field "Result" key
    then (store_value t.result j >>= λ v. ok (record t { result = v }))
    else ok t

unfoldable pub tree_members : Tree → Members → Result Tree
unfolding tree_member
tree_members t no_members = ok t
tree_members t (member key j ms) = tree_member t key j >>= λ u. tree_members u ms

unfoldable pub unmarshal_tree : Json → Result Tree
unfolding tree_members
unmarshal_tree (object ms) = tree_members zero_tree ms
unmarshal_tree null = ok zero_tree
unmarshal_tree _ = err type_error

module _ (get_str : Json → String → String) where
  -- The raw expression; no kind is found in a text that is empty.
  unfoldable pub unmarshal_raw : Option Json → Result Expr
  unfolding unmarshal_expr
  unmarshal_raw none = err (message "unknown expression kind ")
  unmarshal_raw (some j) = unmarshal_expr get_str j

  -- From the test of the result's type on; the read through a nil result panics.
  unfoldable pub finish_tree : Option Json → Option Value → Result Rule
  unfolding unmarshal_raw
  finish_tree raw none = panic
  finish_tree raw (some v) =
      if v.type == ""
      then err (message "invalid rule result type")
      else (unmarshal_raw raw >>= λ e. ok (record { expr = e; result = v }))

  unfoldable pub unmarshal_rule : Json → Result Rule
  unfolding unmarshal_tree finish_tree
  unmarshal_rule j = unmarshal_tree j >>= λ t. finish_tree t.expr t.result
