-- ===== src/Api.antt =====
-- The documents that the server and its clients exchange: api/types.go, and the texts of the errors
-- of rule/rule.go, errors.go and store/service.go. The structs Ruleset, Rulesets and Event have the
-- fields of those of the store, which they are converted from, and stand here as these.
pub mod Unmarshal
pub mod RoundTrip
use Prim.Native.String
use regula.Prelude.{
  String, Bool, true, false, Option, none, some, List, [], ◌∷◌, ◌++◌, if◌then◌else◌, ◌==◌,
}
use regula.Outcome.{
  Error, RuleError, rule_error, EngineError, engine_error, StoreError, store_error,
  validation_error, deadline_exceeded, NumReason, num_error, message, wrapped, Result, ok, err,
  panic, ◌>>=◌,
}
use regula.Json.{
  Json, null, boolean, text, array, object, Items, no_items, item, Members, no_members, member,
  is_field, type_error,
}
use regula.Rule.Value.{Value}
use regula.Rule.Json.{value_json, value_members, zero_value}
use regula.Engine.{EvalResult}
use regula.Store.{RulesetEntry, RulesetEntries, RulesetEvent}
use regula.Store.Documents.{zero_entry, pointer_json, unmarshal_entry_ruleset}

-- The struct Events.
pub record Events : Type 0 where
  pub events : List RulesetEvent
  pub revision : String
  pub timeout : Bool

abbrev rule_text : RuleError → String
rule_text RuleError.ruleset_not_found = "ruleset not found"
rule_text RuleError.param_type_mismatch = "parameter type mismatches"
rule_text RuleError.param_not_found = "parameter not found"
rule_text RuleError.no_match = "rule doesn't match the given params"
rule_text RuleError.incoherent_type = "types in ruleset are incoherent"

abbrev engine_text : EngineError → String
engine_text EngineError.type_mismatch = "type returned by rule doesn't match"
engine_text EngineError.ruleset_not_found = "ruleset not found"
engine_text EngineError.incoherent_type = "types in ruleset are incoherent"

abbrev store_text : StoreError → String
store_text StoreError.not_found = "not found"
store_text StoreError.not_modified = "not modified"
store_text StoreError.invalid_continue_token = "invalid continue token"

abbrev reason_text : NumReason → String
reason_text NumReason.bad_syntax = "invalid syntax"
reason_text NumReason.out_of_range = "value out of range"

abbrev join : List String → String
join [] = ""
join (s ∷ ss) = String.◌++◌ s (join ss)

-- The method Error, where `quote` is strconv.Quote.
unfoldable pub error_text : (String → String) → Error → String
error_text quote (rule_error e) = rule_text e
error_text quote (engine_error e) = engine_text e
error_text quote (store_error e) = store_text e
error_text quote (validation_error field content reason) =
    join ("invalid " ∷ field ∷ " with value '" ∷ content ∷ "': " ∷ reason ∷ [])
error_text quote deadline_exceeded = "context deadline exceeded"
error_text quote (num_error fn input r) =
    join ("strconv." ∷ fn ∷ ": parsing " ∷ quote input ∷ ": " ∷ reason_text r ∷ [])
error_text quote (message s) = s
error_text quote (wrapped e context) = join (context ∷ ": " ∷ error_text quote e ∷ [])

unfoldable pub error_json : (String → String) → Error → Json
unfolding error_text
error_json quote e = object (member "error" (text (error_text quote e)) no_members)

unfoldable pub result_json : EvalResult → Json
unfolding value_json
result_json res =
    object (member "value" (value_json res.value) (member "version" (text res.version) no_members))

unfoldable pub api_ruleset_json : RulesetEntry → Json
api_ruleset_json re = object (
    member "path" (text re.path)
      (member "version" (text re.version) (member "ruleset" (pointer_json re.rule_set) no_members)))

unfoldable pub rulesets_items : List RulesetEntry → Items
unfolding api_ruleset_json
rulesets_items [] = no_items
rulesets_items (re ∷ res) = item (api_ruleset_json re) (rulesets_items res)

-- A text that is left out where it is empty.
abbrev pub unless_empty : String → String → Members → Members
unless_empty key s rest = if s == "" then rest else member key (text s) rest

unfoldable pub rulesets_json : RulesetEntries → Json
unfolding rulesets_items
rulesets_json rl = object (
    member "rulesets" (array (rulesets_items rl.entries))
      (member "revision" (text rl.revision) (unless_empty "continue" rl.continue no_members)))

unfoldable pub event_json : RulesetEvent → Json
event_json e = object (
    member "type" (text e.type) (
      member "path" (text e.path) (
        member "version" (text e.version) (member "ruleset" (pointer_json e.rule_set) no_members))))

unfoldable pub events_items : List RulesetEvent → Items
unfolding event_json
events_items [] = no_items
events_items (e ∷ es) = item (event_json e) (events_items es)

abbrev pub unless_none : List RulesetEvent → Members → Members
unless_none [] rest = rest
unless_none (e ∷ es) rest = member "events" (array (events_items (e ∷ es))) rest

abbrev pub if_true : Bool → Members → Members
if_true false rest = rest
if_true true rest = member "timeout" (boolean true) rest

unfoldable pub events_json : Events → Json
unfolding events_items
events_json ae =
    object
      (unless_none ae.events (unless_empty "revision" ae.revision (if_true ae.timeout no_members)))
