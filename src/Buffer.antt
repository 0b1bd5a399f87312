-- ===== src/Buffer.antt =====
-- The RulesetBuffer of engine.go: for each path the versions that were added, the latest last.
-- Each method holds the buffer's lock from start to end, so it is one step on the state.
pub mod History
pub mod Serving
use regula.Prelude.{
  String, Bool, true, false, Option, none, some, List, [], ◌∷◌, ◌++◌, lookup, insert, last?,
  if◌then◌else◌, ◌==◌,
}
use regula.Outcome.{Result, ok, err, panic, engine_error, EngineError, ◌>>=◌}
use regula.Floats.{Floats}
use regula.Rule.Eval.{Params}
use regula.Ruleset.{Ruleset, eval_ruleset}
use regula.Engine.{EvalResult, Evaluator}

pub record RulesetInfo : Type 0 where
  pub path : String
  pub version : String
  pub r : Option Ruleset

pub record RulesetBuffer : Type 0 where
  pub rulesets : List (String × List RulesetInfo)

unfoldable pub new_ruleset_buffer : RulesetBuffer
new_ruleset_buffer = record { rulesets = [] }

-- `b.rulesets[path]`, which is empty for a path that is not there.
abbrev pub or_empty : Option (List RulesetInfo) → List RulesetInfo
or_empty none = []
or_empty (some l) = l

unfoldable pub add : RulesetBuffer → String → String → Option Ruleset → RulesetBuffer
add b path version r = record {
  rulesets =
      insert path
        (or_empty (lookup path b.rulesets) ++ record { path = path; version = version; r = r } ∷ [])
        b.rulesets;
}

abbrev pub or_not_found : Option RulesetInfo → Result RulesetInfo
or_not_found none = err (engine_error EngineError.ruleset_not_found)
or_not_found (some ri) = ok ri

-- `l[len(l)-1]`, where the list is there and is not empty.
unfoldable pub latest_info : RulesetBuffer → String → Result RulesetInfo
latest_info b path = or_not_found (last? (or_empty (lookup path b.rulesets)))

unfoldable pub latest : RulesetBuffer → String → Result (Option Ruleset × String)
unfolding latest_info
latest b path = do ri ← latest_info b path; ok (ri.r, ri.version)

-- The loop of getVersion.
unfoldable pub find_version : String → List RulesetInfo → Result RulesetInfo
find_version version [] = err (engine_error EngineError.ruleset_not_found)
find_version version (ri ∷ l) = if ri.version == version then ok ri else find_version version l

unfoldable pub find_info : RulesetBuffer → String → String → Result RulesetInfo
unfolding find_version
find_info b path version = find_version version (or_empty (lookup path b.rulesets))

unfoldable pub get_version : RulesetBuffer → String → String → Result (Option Ruleset)
unfolding find_info
get_version b path version = do ri ← find_info b path version; ok ri.r

module _ (fl : Floats) where
  -- The last lines of Eval and EvalVersion: a nil ruleset panics.
  unfoldable pub eval_info : Option (Params fl) → RulesetInfo → Result EvalResult
  eval_info ps ri = elim ri.r [
    | none ↦ panic
    | some rs ↦ (eval_ruleset fl ps rs >>= λ v. ok (record { value = v; version = ri.version }))
  ]

  unfoldable pub eval : RulesetBuffer → String → Option (Params fl) → Result EvalResult
  unfolding latest_info eval_info
  eval b path ps = latest_info b path >>= eval_info ps

  unfoldable pub eval_version :
      RulesetBuffer → String → String → Option (Params fl) → Result EvalResult
  unfolding find_info eval_info
  eval_version b path version ps = find_info b path version >>= eval_info ps

  -- The buffer as the Evaluator of an Engine.
  unfoldable pub evaluator : RulesetBuffer → Evaluator fl
  unfolding eval eval_version
  evaluator b = record { eval = eval b; eval_version = eval_version b }
