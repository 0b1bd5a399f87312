-- ===== src/Api/Unmarshal.antt =====
-- What a client decodes of the documents of api/types.go.
use regula.Prelude.{String, false, Option, none, some, List, [], ◌∷◌, if◌then◌else◌}
use regula.Outcome.{Result, ok, err, ◌>>=◌}
use regula.Json.{
  Json, null, array, object, Items, no_items, item, Members, no_members, member, is_field,
  type_error, store_string, store_bool,
}
use regula.Rule.Value.{Value}
use regula.Rule.Json.{value_members, zero_value}
use regula.Store.{RulesetEntry, RulesetEntries, RulesetEvent}
use regula.Store.Documents.{zero_entry, unmarshal_entry_ruleset}
use regula.Api.{Events}

-- The struct EvalResult, whose value may be a nil pointer.
pub record WireResult : Type 0 where
  pub value : Option Value
  pub version : String

abbrev pub zero_result : WireResult
zero_result = record { value = none; version = "" }

abbrev pub or_zero_value : Option Value → Value
or_zero_value none = zero_value
or_zero_value (some v) = v

unfoldable pub store_pointer : Option Value → Json → Result (Option Value)
unfolding value_members
store_pointer old null = ok none
store_pointer old (object ms) = value_members (or_zero_value old) ms >>= λ v. ok (some v)
store_pointer old _ = err type_error

unfoldable pub result_member : WireResult → String → Json → Result WireResult
unfolding is_field store_string store_pointer
result_member res key j =
    if is_field "value" key
    then (store_pointer res.value j >>= λ v. ok (record res { value = v }))
    else if is_field "version" key
    then (store_string res.version j >>= λ s. ok (record res { version = s }))
    else ok res

unfoldable pub result_members : WireResult → Members → Result WireResult
unfolding result_member
result_members res no_members = ok res
result_members res (member key j ms) = result_member res key j >>= λ r. result_members r ms

unfoldable pub unmarshal_result : Json → Result WireResult
unfolding result_members
unmarshal_result (object ms) = result_members zero_result ms
unmarshal_result null = ok zero_result
unmarshal_result _ = err type_error

abbrev pub zero_entries : RulesetEntries
zero_entries = record { entries = []; revision = ""; continue = "" }

abbrev pub zero_event : RulesetEvent
zero_event = record { type = ""; path = ""; version = ""; rule_set = none }

abbrev pub zero_events : Events
zero_events = record { events = []; revision = ""; timeout = false }

module _ (get_str : Json → String → String) where
  unfoldable pub api_ruleset_member : RulesetEntry → String → Json → Result RulesetEntry
  unfolding is_field store_string unmarshal_entry_ruleset
  api_ruleset_member re key j =
      if is_field "path" key
      then (store_string re.path j >>= λ s. ok (record re { path = s }))
      else if is_field "version" key
      then (store_string re.version j >>= λ s. ok (record re { version = s }))
      else if is_field "ruleset" key
      then (unmarshal_entry_ruleset get_str j >>= λ rs. ok (record re { rule_set = rs }))
      else ok re

  unfoldable pub api_ruleset_members : RulesetEntry → Members → Result RulesetEntry
  unfolding api_ruleset_member
  api_ruleset_members re no_members = ok re
  api_ruleset_members re (member key j ms) =
      api_ruleset_member re key j >>= λ se. api_ruleset_members se ms

  unfoldable pub unmarshal_api_ruleset : Json → Result RulesetEntry
  unfolding api_ruleset_members
  unmarshal_api_ruleset (object ms) = api_ruleset_members zero_entry ms
  unmarshal_api_ruleset null = ok zero_entry
  unmarshal_api_ruleset _ = err type_error

  unfoldable pub unmarshal_entries : Items → Result (List RulesetEntry)
  unfolding unmarshal_api_ruleset
  unmarshal_entries no_items = ok []
  unmarshal_entries (item j is) = do
    re ← unmarshal_api_ruleset j
    res ← unmarshal_entries is
    ok (re ∷ res)

  unfoldable pub store_entries : Json → Result (List RulesetEntry)
  unfolding unmarshal_entries
  store_entries null = ok []
  store_entries (array is) = unmarshal_entries is
  store_entries _ = err type_error

  unfoldable pub rulesets_member : RulesetEntries → String → Json → Result RulesetEntries
  unfolding is_field store_string store_entries
  rulesets_member rl key j =
      if is_field "rulesets" key
      then (store_entries j >>= λ res. ok (record rl { entries = res }))
      else if is_field "revision" key
      then (store_string rl.revision j >>= λ s. ok (record rl { revision = s }))
      else if is_field "continue" key
      then (store_string rl.continue j >>= λ s. ok (record rl { continue = s }))
      else ok rl

  unfoldable pub rulesets_members : RulesetEntries → Members → Result RulesetEntries
  unfolding rulesets_member
  rulesets_members rl no_members = ok rl
  rulesets_members rl (member key j ms) = rulesets_member rl key j >>= λ rm. rulesets_members rm ms

  unfoldable pub unmarshal_rulesets : Json → Result RulesetEntries
  unfolding rulesets_members
  unmarshal_rulesets (object ms) = rulesets_members zero_entries ms
  unmarshal_rulesets null = ok zero_entries
  unmarshal_rulesets _ = err type_error

  unfoldable pub event_member : RulesetEvent → String → Json → Result RulesetEvent
  unfolding is_field store_string unmarshal_entry_ruleset
  event_member e key j =
      if is_field "type" key
      then (store_string e.type j >>= λ s. ok (record e { type = s }))
      else if is_field "path" key
      then (store_string e.path j >>= λ s. ok (record e { path = s }))
      else if is_field "version" key
      then (store_string e.version j >>= λ s. ok (record e { version = s }))
      else if is_field "ruleset" key
      then (unmarshal_entry_ruleset get_str j >>= λ rs. ok (record e { rule_set = rs }))
      else ok e

  unfoldable pub event_members : RulesetEvent → Members → Result RulesetEvent
  unfolding event_member
  event_members e no_members = ok e
  event_members e (member key j ms) = event_member e key j >>= λ f. event_members f ms

  unfoldable pub unmarshal_event : Json → Result RulesetEvent
  unfolding event_members
  unmarshal_event (object ms) = event_members zero_event ms
  unmarshal_event null = ok zero_event
  unmarshal_event _ = err type_error

  unfoldable pub unmarshal_events_items : Items → Result (List RulesetEvent)
  unfolding unmarshal_event
  unmarshal_events_items no_items = ok []
  unmarshal_events_items (item j is) = do
    e ← unmarshal_event j
    es ← unmarshal_events_items is
    ok (e ∷ es)

  unfoldable pub store_events : Json → Result (List RulesetEvent)
  unfolding unmarshal_events_items
  store_events null = ok []
  store_events (array is) = unmarshal_events_items is
  store_events _ = err type_error

  unfoldable pub events_member : Events → String → Json → Result Events
  unfolding is_field store_string store_bool store_events
  events_member ae key j =
      if is_field "events" key
      then (store_events j >>= λ es. ok (record ae { events = es }))
      else if is_field "revision" key
      then (store_string ae.revision j >>= λ s. ok (record ae { revision = s }))
      else if is_field "timeout" key
      then (store_bool ae.timeout j >>= λ b. ok (record ae { timeout = b }))
      else ok ae

  unfoldable pub events_members : Events → Members → Result Events
  unfolding events_member
  events_members ae no_members = ok ae
  events_members ae (member key j ms) = events_member ae key j >>= λ be. events_members be ms

  unfoldable pub unmarshal_events : Json → Result Events
  unfolding events_members
  unmarshal_events (object ms) = events_members zero_events ms
  unmarshal_events null = ok zero_events
  unmarshal_events _ = err type_error
