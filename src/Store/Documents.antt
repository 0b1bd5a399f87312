-- ===== src/Store/Documents.antt =====
-- The documents that store/etcd/rulesets.go keeps: an entry and a signature, whose structs have no
-- tags, so that a member has the name of its field. The members of ParamTypes stand in the order of
-- the map's list, where Go sorts them.
pub mod Decoding
use regula.Prelude.{String, Option, none, some, List, [], ◌∷◌, insert, if◌then◌else◌}
use regula.Outcome.{Result, ok, err, ◌>>=◌}
use regula.Json.{
  Json, null, text, object, Members, no_members, member, is_field, type_error, store_string,
}
use regula.Ruleset.{Ruleset, ParamTypes}
use regula.Ruleset.Json.{ruleset_json, unmarshal_ruleset}
use regula.Store.{RulesetEntry, Signature}

abbrev pub zero_entry : RulesetEntry
zero_entry = record { path = ""; version = ""; rule_set = none }

abbrev pub pointer_json : Option Ruleset → Json
pointer_json none = null
pointer_json (some rs) = ruleset_json rs

unfoldable pub entry_json : RulesetEntry → Json
entry_json e = object (
    member "Path" (text e.path)
      (member "Version" (text e.version) (member "Ruleset" (pointer_json e.rule_set) no_members)))

unfoldable pub types_members : ParamTypes → Members
types_members [] = no_members
types_members ((name, type) ∷ rest) = member name (text type) (types_members rest)

unfoldable pub signature_json : Signature → Json
unfolding types_members
signature_json s = object (
    member "ReturnType" (text s.return_type)
      (member "ParamTypes" (object (types_members s.param_types)) no_members))

-- A map of strings, with what it holds.
unfoldable pub note_members : ParamTypes → Members → Result ParamTypes
unfolding store_string
note_members pt no_members = ok pt
note_members pt (member name j ms) =
    store_string "" j >>= λ type. note_members (insert name type pt) ms

unfoldable pub unmarshal_types : ParamTypes → Json → Result ParamTypes
unfolding note_members
unmarshal_types pt (object ms) = note_members pt ms
unmarshal_types pt null = ok []
unmarshal_types pt _ = err type_error

unfoldable pub signature_member : Signature → String → Json → Result Signature
unfolding is_field store_string unmarshal_types
signature_member s key j =
    if is_field "ReturnType" key
    then (store_string s.return_type j >>= λ t. ok (record s { return_type = t }))
    else if is_field "ParamTypes" key
    then (unmarshal_types s.param_types j >>= λ pt. ok (record s { param_types = pt }))
    else ok s

unfoldable pub signature_members : Signature → Members → Result Signature
unfolding signature_member
signature_members s no_members = ok s
signature_members s (member key j ms) = signature_member s key j >>= λ t. signature_members t ms

unfoldable pub unmarshal_signature : Json → Result Signature
unfolding signature_members
unmarshal_signature (object ms) =
    signature_members (record { return_type = ""; param_types = [] }) ms
unmarshal_signature null = ok (record { return_type = ""; param_types = [] })
unmarshal_signature _ = err type_error

module _ (get_str : Json → String → String) where
  unfoldable pub unmarshal_entry_ruleset : Json → Result (Option Ruleset)
  unfolding unmarshal_ruleset
  unmarshal_entry_ruleset null = ok none
  unmarshal_entry_ruleset j = unmarshal_ruleset get_str j >>= λ rs. ok (some rs)

  unfoldable pub entry_member : RulesetEntry → String → Json → Result RulesetEntry
  unfolding is_field store_string unmarshal_entry_ruleset
  entry_member e key j =
      if is_field "Path" key
      then (store_string e.path j >>= λ p. ok (record e { path = p }))
      else if is_field "Version" key
      then (store_string e.version j >>= λ v. ok (record e { version = v }))
      else if is_field "Ruleset" key
      then (unmarshal_entry_ruleset j >>= λ rs. ok (record e { rule_set = rs }))
      else ok e

  unfoldable pub entry_members : RulesetEntry → Members → Result RulesetEntry
  unfolding entry_member
  entry_members e no_members = ok e
  entry_members e (member key j ms) = entry_member e key j >>= λ f. entry_members f ms

  unfoldable pub unmarshal_entry : Json → Result RulesetEntry
  unfolding entry_members
  unmarshal_entry (object ms) = entry_members zero_entry ms
  unmarshal_entry null = ok zero_entry
  unmarshal_entry _ = err type_error
