-- ===== src/Tests/Serving.antt =====
-- The theorems about Engine and RulesetBuffer at concrete buffers.
use regula.Prelude.{String, some, List, [], ◌++◌, ◌∷◌, ◌≡◌, ◌↔◌}
use regula.Outcome.{ok, err, engine_error, EngineError}
use regula.Ruleset.{eval_ruleset}
use regula.Engine.{get, with_version, configure, ask}
use regula.Engine.Typed.{IsExact, get-IsExact}
use regula.Buffer.{
  RulesetInfo, RulesetBuffer, new_ruleset_buffer, add, latest, find_info, evaluator,
}
use regula.Buffer.History.{replay, history, IsFirst, latest-replay, find_info-replay_iff}
use regula.Buffer.Serving.{served, get-added}
use regula.Tests.Rulesets.{sample-IsCoherent}
use regula.Tests.Samples.{whole_floats, sample, given_params}

abbrev entry : String → String → RulesetInfo
entry path version = record { path = path; version = version; r = some sample }

-- The second version of "a" comes twice.
abbrev log : List RulesetInfo
log = entry "a" "v1" ∷ entry "b" "v1" ∷ entry "a" "v2" ∷ entry "a" "v2" ∷ []

latest-replay_example :
    (history "a" log ≡ []
      → latest (replay new_ruleset_buffer log) "a"
        ≡ err (engine_error EngineError.ruleset_not_found))
    × ((before : List RulesetInfo) (ri : RulesetInfo)
        → history "a" log ≡ before ++ ri ∷ []
        → latest (replay new_ruleset_buffer log) "a" ≡ ok (ri.r, ri.version))
latest-replay_example = latest-replay log "a"

find_info-replay_iff_example :
    (find_info (replay new_ruleset_buffer log) "a" "v2" ≡ ok (entry "a" "v2"))
    ↔ IsFirst "v2" (history "a" log) (entry "a" "v2")
find_info-replay_iff_example = find_info-replay_iff log "a" "v2" (entry "a" "v2")

abbrev buffer : RulesetBuffer
buffer = replay new_ruleset_buffer log

get-IsExact_example :
    IsExact "bool"
      (ask whole_floats
        (evaluator whole_floats buffer)
        (configure (with_version "v1" ∷ []))
        "a"
        (some given_params))
      (get whole_floats
        (evaluator whole_floats buffer)
        "bool"
        "a"
        (some given_params)
        (with_version "v1" ∷ []))
get-IsExact_example =
    get-IsExact whole_floats (evaluator whole_floats buffer) "bool" "a" (some given_params)
      (with_version "v1" ∷ [])

get-added_example :
    get whole_floats
      (evaluator whole_floats (add buffer "a" "v3" (some sample)))
      "string"
      "a"
      (some given_params)
      []
    ≡ served "v3" (eval_ruleset whole_floats (some given_params) sample)
get-added_example =
    get-added whole_floats (some given_params) buffer "a" "v3" sample sample-IsCoherent
