-- ===== src/Api/RoundTrip.antt =====
-- A client decodes what the server encoded.
use regula.Prelude.{
  String, Bool, true, false, Option, none, some, List, [], ◌∷◌, ◌==◌, eq_iff, ◌≡◌, refl, ap, inl,
  inr, Bool-cases, All,
}
use regula.Outcome.{ok}
use regula.Json.{Json, object, no_members}
use regula.Rule.Json.RoundTrip.{FindsKind}
use regula.Ruleset.{Ruleset}
use regula.Engine.{EvalResult}
use regula.Store.{RulesetEntry, RulesetEntries, RulesetEvent}
use regula.Store.Documents.{pointer_json, unmarshal_entry_ruleset}
use regula.Store.Documents.Decoding.{IsPortable, pointer-roundtrip}
use regula.Api.{
  Events, result_json, api_ruleset_json, rulesets_items, unless_empty, rulesets_json, event_json,
  events_items, unless_none, if_true, events_json,
}
use regula.Api.Unmarshal.{
  store_pointer, unmarshal_result, unmarshal_api_ruleset, unmarshal_entries, store_entries,
  unmarshal_rulesets, unmarshal_event, unmarshal_events_items, store_events, events_members,
  unmarshal_events,
}

pub result_json-roundtrip :
    (res : EvalResult)
    → unmarshal_result (result_json res)
      ≡ ok (record { value = some res.value; version = res.version })
unfolding unmarshal_result result_json store_pointer
result_json-roundtrip res = refl

-- A nil ruleset, or one that its document gives back.
abbrev pub IsSendable : Option Ruleset → Type 0
IsSendable none = Unit
IsSendable (some rs) = IsPortable rs

module _ (get_str : Json → String → String) (finds : FindsKind get_str) where
  sent_ruleset :
      (o : Option Ruleset) → IsSendable o → unmarshal_entry_ruleset get_str (pointer_json o) ≡ ok o
  unfolding unmarshal_entry_ruleset
  sent_ruleset none h = refl
  sent_ruleset (some rs) h = pointer-roundtrip get_str finds rs h

  pub api_ruleset_json-roundtrip :
      (re : RulesetEntry)
      → IsSendable re.rule_set
      → unmarshal_api_ruleset get_str (api_ruleset_json re) ≡ ok re
  unfolding unmarshal_api_ruleset api_ruleset_json
  api_ruleset_json-roundtrip re h = rw (sent_ruleset re.rule_set h) refl

  entries-roundtrip :
      (res : List RulesetEntry)
      → All (λ re. IsSendable re.rule_set) res
      → unmarshal_entries get_str (rulesets_items res) ≡ ok res
  unfolding unmarshal_entries rulesets_items
  entries-roundtrip [] h = refl
  entries-roundtrip (re ∷ res) (h, hs) =
      rw (api_ruleset_json-roundtrip re h, entries-roundtrip res hs) refl

  pub rulesets_json-roundtrip :
      (rl : RulesetEntries)
      → All (λ re. IsSendable re.rule_set) rl.entries
      → unmarshal_rulesets get_str (rulesets_json rl) ≡ ok rl
  unfolding unmarshal_rulesets rulesets_json store_entries
  rulesets_json-roundtrip rl h = elim (Bool-cases (rl.continue == "")) [
    | inl e ↦ rw (e, entries-roundtrip rl.entries h, (eq_iff rl.continue "").0 e) refl
    | inr e ↦ rw (e, entries-roundtrip rl.entries h) refl
  ]

  event-roundtrip :
      (e : RulesetEvent) → IsSendable e.rule_set → unmarshal_event get_str (event_json e) ≡ ok e
  unfolding unmarshal_event event_json
  event-roundtrip e h = rw (sent_ruleset e.rule_set h) refl

  events-roundtrip :
      (es : List RulesetEvent)
      → All (λ e. IsSendable e.rule_set) es
      → unmarshal_events_items get_str (events_items es) ≡ ok es
  unfolding unmarshal_events_items events_items
  events-roundtrip [] h = refl
  events-roundtrip (e ∷ es) (h, hs) = rw (event-roundtrip e h, events-roundtrip es hs) refl

  -- The members that are left out where they are zero.
  timeout-roundtrip :
      (ae : Events) (timeout : Bool)
      → ae.timeout ≡ false
      → events_members get_str ae (if_true timeout no_members)
        ≡ ok (record ae { timeout = timeout })
  unfolding events_members
  timeout-roundtrip ae true h = refl
  timeout-roundtrip ae false h = ap (λ b. ok (record ae { timeout = b })) h

  revision-roundtrip :
      (es : List RulesetEvent) (revision : String) (timeout : Bool)
      → events_members get_str
          (record { events = es; revision = ""; timeout = false })
          (unless_empty "revision" revision (if_true timeout no_members))
        ≡ ok (record { events = es; revision = revision; timeout = timeout })
  unfolding events_members
  revision-roundtrip es revision timeout = elim (Bool-cases (revision == "")) [
    | inl e ↦
        rw (e, (eq_iff revision "").0 e)
          (timeout-roundtrip (record { events = es; revision = ""; timeout = false }) timeout refl)
    | inr e ↦ rw e (
        timeout-roundtrip (record { events = es; revision = revision; timeout = false }) timeout
          refl)
  ]

  -- A client decodes the events that the server encodes: the same events, revision and timeout, also
  -- where a member is left out since it is empty or false. Each event's ruleset is nil or one that its
  -- document gives back, and the member "kind" of an expression is found.
  pub events_json-roundtrip :
      (ae : Events)
      → All (λ e. IsSendable e.rule_set) ae.events
      → unmarshal_events get_str (events_json ae) ≡ ok ae
  unfolding unmarshal_events events_json
  events_json-roundtrip ae h = go ae.events h
    where
      go :
          (es : List RulesetEvent)
          → All (λ e. IsSendable e.rule_set) es
          → unmarshal_events get_str (
              object (
                unless_none es
                  (unless_empty "revision" ae.revision (if_true ae.timeout no_members))))
            ≡ ok (record { events = es; revision = ae.revision; timeout = ae.timeout })
      go [] k = revision-roundtrip [] ae.revision ae.timeout
      go (e ∷ es) k =
          rw (events_members, store_events, events-roundtrip (e ∷ es) k)
            (revision-roundtrip (e ∷ es) ae.revision ae.timeout)
