-- ===== src/Ruleset/Json.antt =====
-- A ruleset as a JSON document: the struct tags of Ruleset and its UnmarshalJSON in ruleset.go.
pub mod Decoding
use regula.Prelude.{
  String, Bool, true, false, ◌||◌, Option, none, some, List, [], ◌∷◌, if◌then◌else◌, ◌==◌,
}
use regula.Outcome.{Error, message, Result, ok, err, panic, ◌>>=◌}
use regula.Json.{
  Json, null, boolean, number, text, array, object, Items, no_items, item, Members, no_members,
  member, is_field, type_error, store_string,
}
use regula.Rule.Walk.{Rule}
use regula.Rule.Document.{rule_json, unmarshal_rule}
use regula.Ruleset.{Ruleset, validate}

unfoldable pub rule_items : List Rule → Items
unfolding rule_json
rule_items [] = no_items
rule_items (r ∷ rs) = item (rule_json r) (rule_items rs)

-- The constructors leave a nil slice where there are no rules, which is encoded as null.
unfoldable pub rules_json : List Rule → Json
unfolding rule_items
rules_json [] = null
rules_json (r ∷ rs) = array (rule_items (r ∷ rs))

unfoldable pub ruleset_json : Ruleset → Json
unfolding rules_json
ruleset_json rs =
    object (member "rules" (rules_json rs.rules) (member "type" (text rs.type) no_members))

-- The fields while they are decoded: a rule may be a nil pointer.
pub record Fields : Type 0 where
  pub rules : List (Option Rule)
  pub type : String

abbrev pub zero_fields : Fields
zero_fields = record { rules = []; type = "" }

unfoldable pub is_supported : String → Bool
is_supported type = type == "string" || type == "bool" || type == "int64" || type == "float64"

-- The rules before the first nil pointer, and whether there is one.
unfoldable pub before_nil : List (Option Rule) → List Rule × Bool
before_nil [] = ([], false)
before_nil (none ∷ rs) = ([], true)
before_nil (some r ∷ rs) = (r ∷ (before_nil rs).0, (before_nil rs).1)

-- `validate` of the decoded fields: it panics at the first nil rule that it reads.
unfoldable pub validate_rules_read : String → List Rule × Bool → Result Ruleset
unfolding validate
validate_rules_read type (rules, has_nil) =
    validate (record { rules = rules; type = type }) >>= λ _.
    if has_nil then panic else ok (record { rules = rules; type = type })

unfoldable pub check_fields : Fields → Result Ruleset
unfolding is_supported before_nil validate_rules_read
check_fields fs =
    if is_supported fs.type
    then validate_rules_read fs.type (before_nil fs.rules)
    else err (message "unsupported ruleset type")

module _ (get_str : Json → String → String) where
  unfoldable pub unmarshal_pointer : Json → Result (Option Rule)
  unfolding unmarshal_rule
  unmarshal_pointer null = ok none
  unmarshal_pointer j = unmarshal_rule get_str j >>= λ r. ok (some r)

  unfoldable pub unmarshal_pointers : Items → Result (List (Option Rule))
  unfolding unmarshal_pointer
  unmarshal_pointers no_items = ok []
  unmarshal_pointers (item j is) = do
    r ← unmarshal_pointer j
    rs ← unmarshal_pointers is
    ok (r ∷ rs)

  unfoldable pub unmarshal_rules : Json → Result (List (Option Rule))
  unfolding unmarshal_pointers
  unmarshal_rules null = ok []
  unmarshal_rules (array is) = unmarshal_pointers is
  unmarshal_rules _ = err type_error

  unfoldable pub fields_member : Fields → String → Json → Result Fields
  unfolding is_field store_string unmarshal_rules
  fields_member fs key j =
      if is_field "rules" key
      then (unmarshal_rules j >>= λ rs. ok (record fs { rules = rs }))
      else if is_field "type" key
      then (store_string fs.type j >>= λ s. ok (record fs { type = s }))
      else ok fs

  unfoldable pub fields_members : Fields → Members → Result Fields
  unfolding fields_member
  fields_members fs no_members = ok fs
  fields_members fs (member key j ms) = fields_member fs key j >>= λ gs. fields_members gs ms

  unfoldable pub unmarshal_fields : Json → Result Fields
  unfolding fields_members
  unmarshal_fields (object ms) = fields_members zero_fields ms
  unmarshal_fields null = ok zero_fields
  unmarshal_fields _ = err type_error

  unfoldable pub unmarshal_ruleset : Json → Result Ruleset
  unfolding unmarshal_fields check_fields
  unmarshal_ruleset j = unmarshal_fields j >>= check_fields
