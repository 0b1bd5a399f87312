-- ===== src/Tests/Runs.antt =====
-- Runs of the model.
use regula.Prelude.{◌^◌, ◌-◌, ◌≡◌, refl, none, some, [], ◌∷◌, pos, negsuc}
use regula.Outcome.{ok}
use regula.Strconv.{format_int, parse_int, parse_bool}
use regula.Hash.{sum32, bytes}
use regula.Rule.Value.{
  type_case, bool_value, int64_value, string_value, equal, gt, parse_int64_values,
}
use regula.Rule.Eval.{eval, eval_operator, eval_eq, eval_compare, eval_param}
use regula.Rule.Walk.{eval_rule, rule_params}
use regula.Params.{map_params}
use regula.Prelude.{lookup, insert}
use regula.Ruleset.{eval_ruleset, ruleset_params}
use regula.Engine.{get_string, configure}
use regula.Buffer.{new_ruleset_buffer, add, evaluator}
use regula.Tests.Samples.{whole_floats, sample, given_params, text, city, age}

-- What a run computes with, for the tests' own lines.
unfoldable pub machine : Unit {0}
unfolding get_string evaluator add new_ruleset_buffer configure lookup insert eval_ruleset eval_rule
    eval eval_param eval_operator eval_eq eval_compare map_params type_case equal bool_value
    int64_value string_value gt parse_int64_values format_int parse_int parse_bool rule_params
    ruleset_params
machine = tt

numbers :
    (format_int (negsuc 41) ≡ "-42")
    × (parse_int "-9223372036854775808" ≡ (negsuc (2 ^ 63 - 1), none))
    × (format_int (pos 100) ≡ "100")
    × (parse_int "+7" ≡ (pos 7, none))
unfolding format_int parse_int
numbers = (refl, refl, refl, refl)

-- The published FNV-1 sums of "" and "a", and "é" as its two bytes.
sums :
    (sum32 (bytes "") ≡ 0x811c9dc5)
    × (sum32 (bytes "a") ≡ 0x050c5d7e)
    × (bytes "é" ≡ 0xC3 ∷ 0xA9 ∷ [])
unfolding sum32 bytes
sums = (refl, refl, refl)

second_rule : eval_ruleset whole_floats (some given_params) sample ≡ ok (text "adult")
unfolding machine
second_rule = refl

parameters : ruleset_params sample ≡ city ∷ age ∷ []
unfolding machine
parameters = refl

served_by_engine :
    get_string whole_floats
      (evaluator whole_floats (add new_ruleset_buffer "greeting" "v1" (some sample)))
      "greeting"
      (some given_params)
      []
    ≡ ok ("adult", record { value = text "adult"; version = "v1" })
unfolding machine
served_by_engine = refl
