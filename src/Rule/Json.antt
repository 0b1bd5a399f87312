-- ===== src/Rule/Json.antt =====
-- rule/json.go, and UnmarshalJSON of rule/rule.go: expressions and rules as JSON documents.
pub mod RoundTrip
use regula.Prelude.{
  String, Bool, true, false, Option, none, some, List, [], ◌∷◌, if◌then◌else◌, ◌==◌,
}
use Prim.Native.String
use regula.Outcome.{Error, message, Result, ok, err, panic, ◌>>=◌}
use regula.Json.{
  Json, null, boolean, number, text, array, object, Items, no_items, item, Members, no_members,
  member, is_field, type_error, store_string,
}
use regula.Rule.Value.{Value}
use regula.Rule.Expr.{
  Param, Operator, Expr, Exprs, nil, cons, value, param, operator, expr_not, expr_or, expr_and,
  expr_eq, expr_in, expr_gt, expr_gte, expr_lt, expr_lte, expr_fnv, expr_percentile,
}
use regula.Rule.Walk.{Rule}

-- A Value and a Param are encoded by their struct tags.
unfoldable pub value_json : Value → Json
value_json v = object (
    member "kind" (text v.kind)
      (member "type" (text v.type) (member "data" (text v.content) no_members)))

unfoldable pub param_json : Param → Json
param_json p = object (
    member "kind" (text p.kind)
      (member "type" (text p.type) (member "name" (text p.name) no_members)))

-- MarshalJSON of `operator`. Where there are no operands, the slice is nil and is encoded as null.
unfoldable mutual
  unfolding value_json param_json

  pub expr_json : Expr → Json
  expr_json (value v) = value_json v
  expr_json (param p) = param_json p
  expr_json (operator op kind es) =
      object (member "kind" (text kind) (member "operands" (operands_json es) no_members))

  pub operands_json : Exprs → Json
  operands_json nil = null
  operands_json (cons e es) = array (item (expr_json e) (exprs_json es))

  pub exprs_json : Exprs → Items
  exprs_json nil = no_items
  exprs_json (cons e es) = item (expr_json e) (exprs_json es)

unfoldable pub value_member : Value → String → Json → Result Value
unfolding is_field store_string
value_member v key j =
    if is_field "kind" key
    then (store_string v.kind j >>= λ s. ok (record v { kind = s }))
    else if is_field "type" key
    then (store_string v.type j >>= λ s. ok (record v { type = s }))
    else if is_field "data" key
    then (store_string v.content j >>= λ s. ok (record v { content = s }))
    else ok v

-- json.Unmarshal into a Value that holds `v`.
unfoldable pub value_members : Value → Members → Result Value
unfolding value_member
value_members v no_members = ok v
value_members v (member key j ms) = value_member v key j >>= λ w. value_members w ms

abbrev pub zero_value : Value
zero_value = record { kind = ""; type = ""; content = "" }

unfoldable pub param_member : Param → String → Json → Result Param
unfolding is_field store_string
param_member p key j =
    if is_field "kind" key
    then (store_string p.kind j >>= λ s. ok (record p { kind = s }))
    else if is_field "type" key
    then (store_string p.type j >>= λ s. ok (record p { type = s }))
    else if is_field "name" key
    then (store_string p.name j >>= λ s. ok (record p { name = s }))
    else ok p

unfoldable pub param_members : Param → Members → Result Param
unfolding param_member
param_members p no_members = ok p
param_members p (member key j ms) = param_member p key j >>= λ q. param_members q ms

abbrev pub zero_param : Param
zero_param = record { kind = ""; type = ""; name = "" }

-- The cases of the switch of unmarshalExpr.
pub data KindCase : Type 0 where
  value_case param_case unknown_case : KindCase
  operator_case : Operator → KindCase

unfoldable pub kind_case : String → KindCase
kind_case kind =
    if kind == "value"
    then value_case
    else if kind == "param"
    then param_case
    else if kind == "eq"
    then operator_case expr_eq
    else if kind == "in"
    then operator_case expr_in
    else if kind == "not"
    then operator_case expr_not
    else if kind == "and"
    then operator_case expr_and
    else if kind == "or"
    then operator_case expr_or
    else if kind == "gt"
    then operator_case expr_gt
    else if kind == "gte"
    then operator_case expr_gte
    else if kind == "percentile"
    then operator_case expr_percentile
    else if kind == "fnv"
    then operator_case expr_fnv
    else if kind == "lt"
    then operator_case expr_lt
    else if kind == "lte"
    then operator_case expr_lte
    else unknown_case

-- The struct `node` of operator.UnmarshalJSON: the kind, and the operands so far.
pub record Node : Type 0 where
  pub kind : String
  pub operands : Exprs

abbrev pub zero_node : Node
zero_node = record { kind = ""; operands = nil }

-- `append`.
abbrev pub append_exprs : Exprs → Exprs → Exprs
append_exprs nil fs = fs
append_exprs (cons e es) fs = cons e (append_exprs es fs)

-- A member of `node`, of which `more` decodes as operands. They are appended to those of an
-- earlier member of that name.
unfoldable pub node_member : Node → String → Json → Result Exprs → Result Node
unfolding is_field store_string
node_member n key j more =
    if is_field "kind" key
    then (store_string n.kind j >>= λ s. ok (record n { kind = s }))
    else if is_field "operands" key
    then (more >>= λ es. ok (record n { operands = append_exprs n.operands es }))
    else ok n

-- What unmarshalExpr makes of an object, of which `node` decodes as an operator.
unfoldable pub build_expr : String → KindCase → Members → Result Node → Result Expr
unfolding value_members param_members
build_expr kind value_case ms node = value_members zero_value ms >>= λ v. ok (value v)
build_expr kind param_case ms node = param_members zero_param ms >>= λ p. ok (param p)
build_expr kind (operator_case op) ms node = node >>= λ n. ok (operator op n.kind n.operands)
build_expr kind unknown_case ms node = err (message (String.◌++◌ "unknown expression kind " kind))

-- json.Unmarshal of a null into the struct that the kind chooses leaves it as it is; of any other
-- document that is no object it fails.
unfoldable pub build_other : String → KindCase → Json → Result Expr
build_other kind value_case null = ok (value zero_value)
build_other kind param_case null = ok (param zero_param)
build_other kind (operator_case op) null = ok (operator op "" nil)
build_other kind unknown_case j = err (message (String.◌++◌ "unknown expression kind " kind))
build_other kind _ j = err type_error

-- `get_str j path` is `gjson.Get(string(j), path).Str`.
module _ (get_str : Json → String → String) where
  unfoldable mutual
    unfolding kind_case build_expr build_other node_member

    pub unmarshal_expr : Json → Result Expr
    unmarshal_expr (object ms) =
        build_expr (get_str (object ms) "kind") (kind_case (get_str (object ms) "kind")) ms
          (node_members zero_node ms)
    unmarshal_expr null = build_other (get_str null "kind") (kind_case (get_str null "kind")) null
    unmarshal_expr (boolean b) =
        build_other (get_str (boolean b) "kind") (kind_case (get_str (boolean b) "kind"))
          (boolean b)
    unmarshal_expr (number n) =
        build_other (get_str (number n) "kind") (kind_case (get_str (number n) "kind")) (number n)
    unmarshal_expr (text s) =
        build_other (get_str (text s) "kind") (kind_case (get_str (text s) "kind")) (text s)
    unmarshal_expr (array is) =
        build_other (get_str (array is) "kind") (kind_case (get_str (array is) "kind")) (array is)

    -- operator.UnmarshalJSON, from the members decoded so far.
    pub node_members : Node → Members → Result Node
    node_members n no_members = ok n
    node_members n (member key j ms) =
        node_member n key j (unmarshal_operands j) >>= λ m. node_members m ms

    -- operands.UnmarshalJSON: the expressions that it appends.
    pub unmarshal_operands : Json → Result Exprs
    unmarshal_operands (array is) = unmarshal_items is
    unmarshal_operands null = ok nil
    unmarshal_operands _ = err type_error

    pub unmarshal_items : Items → Result Exprs
    unmarshal_items no_items = ok nil
    unmarshal_items (item j is) =
        unmarshal_expr j >>= λ e. unmarshal_items is >>= λ es. ok (cons e es)
