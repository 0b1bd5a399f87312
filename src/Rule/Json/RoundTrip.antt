-- ===== src/Rule/Json/RoundTrip.antt =====
-- An expression that is encoded and decoded again.
use regula.Prelude.{String, ◌≡◌, refl, ap, ◌∙◌}
use regula.Outcome.{Result, ok, ◌>>=◌}
use regula.Json.{Json, text, object, Members, member, no_members}
use regula.Rule.Value.{Value}
use regula.Rule.Expr.{
  Param, Operator, Expr, Exprs, nil, cons, value, param, operator, expr_not, expr_or, expr_and,
  expr_eq, expr_in, expr_gt, expr_gte, expr_lt, expr_lte, expr_fnv, expr_percentile, kind_of,
}
use regula.Rule.Json.{
  value_json, param_json, expr_json, operands_json, exprs_json, value_members, param_members,
  zero_value, zero_param, zero_node, node_member, operator_case, kind_case, build_expr,
  unmarshal_expr, node_members, unmarshal_operands, unmarshal_items,
}

-- Each part has the kind that its constructor writes.
abbrev mutual
  pub IsKinded : Expr → Type 0
  IsKinded (value v) = v.kind ≡ "value"
  IsKinded (param p) = p.kind ≡ "param"
  IsKinded (operator op kind es) = (kind ≡ kind_of op) × AreKinded es

  pub AreKinded : Exprs → Type 0
  AreKinded nil = Unit
  AreKinded (cons e es) = IsKinded e × AreKinded es

-- gjson's documented search: the text under the key "kind" where that is the first one.
abbrev pub FindsKind : (Json → String → String) → Type 0
FindsKind get_str =
    (kind : String) (ms : Members) → get_str (object (member "kind" (text kind) ms)) "kind" ≡ kind

-- The members of a value's and of a parameter's document.
abbrev value_members_of : Value → Members
value_members_of v =
    member "kind" (text v.kind)
      (member "type" (text v.type) (member "data" (text v.content) no_members))

abbrev param_members_of : Param → Members
param_members_of p =
    member "kind" (text p.kind)
      (member "type" (text p.type) (member "name" (text p.name) no_members))

pub value-roundtrip : (v : Value) → value_members zero_value (value_members_of v) ≡ ok v
unfolding value_members
value-roundtrip v = refl

param-roundtrip : (p : Param) → param_members zero_param (param_members_of p) ≡ ok p
unfolding param_members
param-roundtrip p = refl

kind_case-kind_of : (op : Operator) → kind_case (kind_of op) ≡ operator_case op
unfolding kind_case
kind_case-kind_of expr_not = refl
kind_case-kind_of expr_or = refl
kind_case-kind_of expr_and = refl
kind_case-kind_of expr_eq = refl
kind_case-kind_of expr_in = refl
kind_case-kind_of expr_gt = refl
kind_case-kind_of expr_gte = refl
kind_case-kind_of expr_lt = refl
kind_case-kind_of expr_lte = refl
kind_case-kind_of expr_fnv = refl
kind_case-kind_of expr_percentile = refl

module _ (get_str : Json → String → String) (finds : FindsKind get_str) where
  -- What is decoded of a document with these members, by its kind.
  abbrev by_kind : Members → String → Result Expr
  by_kind ms kind = build_expr kind (kind_case kind) ms (node_members get_str zero_node ms)

  unmarshal-kinded :
      (kind : String) (ms : Members)
      → unmarshal_expr get_str (object (member "kind" (text kind) ms))
        ≡ by_kind (member "kind" (text kind) ms) kind
  unfolding unmarshal_expr
  unmarshal-kinded kind ms = ap (by_kind (member "kind" (text kind) ms)) (finds kind ms)

  value_json-roundtrip :
      (v : Value) → v.kind ≡ "value" → unmarshal_expr get_str (value_json v) ≡ ok (value v)
  unfolding value_json build_expr kind_case
  value_json-roundtrip v h =
      unmarshal-kinded v.kind _
      ∙ ap (by_kind (value_members_of v)) h
      ∙ ap (λ r. r >>= λ w. ok (value w)) (value-roundtrip v)

  param_json-roundtrip :
      (p : Param) → p.kind ≡ "param" → unmarshal_expr get_str (param_json p) ≡ ok (param p)
  unfolding param_json build_expr kind_case
  param_json-roundtrip p h =
      unmarshal-kinded p.kind _
      ∙ ap (by_kind (param_members_of p)) h
      ∙ ap (λ r. r >>= λ q. ok (param q)) (param-roundtrip p)

  node-roundtrip :
      (kind : String) (j : Json) (es : Exprs)
      → unmarshal_operands get_str j ≡ ok es
      → node_members get_str zero_node (member "kind" (text kind) (member "operands" j no_members))
        ≡ ok (record { kind = kind; operands = es })
  unfolding node_members node_member
  node-roundtrip kind j es h =
      ap (λ r. r >>= (λ es. ok (record { kind = kind; operands = es })) >>= λ m. ok m) h

  operator-roundtrip :
      (op : Operator) (kind : String) (j : Json) (es : Exprs)
      → kind ≡ kind_of op
      → unmarshal_operands get_str j ≡ ok es
      → unmarshal_expr get_str (object (member "kind" (text kind) (member "operands" j no_members)))
        ≡ ok (operator op kind es)
  unfolding build_expr
  operator-roundtrip op kind j es same h =
      let ms : Members = member "kind" (text kind) (member "operands" j no_members) in
      unmarshal-kinded kind (member "operands" j no_members)
      ∙ ap (λ c. build_expr kind c ms (node_members get_str zero_node ms))
          (ap kind_case same ∙ kind_case-kind_of op)
      ∙ ap (λ r. r >>= λ n. ok (operator op n.kind n.operands)) (node-roundtrip kind j es h)

  mutual
    unfolding expr_json unmarshal_operands unmarshal_items

    json-roundtrip : (e : Expr) → IsKinded e → unmarshal_expr get_str (expr_json e) ≡ ok e
    json-roundtrip (value v) h = value_json-roundtrip v h
    json-roundtrip (param p) h = param_json-roundtrip p h
    json-roundtrip (operator op kind es) (h, hs) =
        operator-roundtrip op kind (operands_json es) es h (operands-roundtrip es hs)

    operands-roundtrip :
        (es : Exprs) → AreKinded es → unmarshal_operands get_str (operands_json es) ≡ ok es
    operands-roundtrip nil h = refl
    operands-roundtrip (cons e es) (h, hs) = rw (json-roundtrip e h, items-roundtrip es hs) refl

    items-roundtrip : (es : Exprs) → AreKinded es → unmarshal_items get_str (exprs_json es) ≡ ok es
    items-roundtrip nil h = refl
    items-roundtrip (cons e es) (h, hs) = rw (json-roundtrip e h, items-roundtrip es hs) refl

  -- An expression whose parts have the kinds that the constructor functions write is decoded from
  -- its document as it was.
  pub expr_json-roundtrip : (e : Expr) → IsKinded e → unmarshal_expr get_str (expr_json e) ≡ ok e
  expr_json-roundtrip e h = json-roundtrip e h
