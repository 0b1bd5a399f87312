-- ===== src/Tests/Rulesets.antt =====
-- The theorems about rulesets at the sample ruleset.
use regula.Prelude.{
  String, some, List, [], ◌∷◌, ◌≡◌, ◌≢◌, ◌↔◌, ◌⊎◌, refl, pos, ◌==◌, false, eq_iff, arith, All,
}
use regula.Outcome.{ok, err, engine_error, EngineError}
use regula.Rule.Value.{new_value}
use regula.Rule.Walk.{Rule}
use regula.Rule.Eval.{Params}
use regula.Ruleset.{new_ruleset, eval_ruleset}
use regula.Ruleset.Coherent.{IsCoherent, all_params, new_ruleset_decides}
use regula.Ruleset.Matching.{IsDecided, eval_ruleset_iff, eval_ruleset-type}
use regula.Ruleset.Locality.{eval_ruleset_local}
use regula.Params.{string, int64, map_params}
use regula.Params.Transport.{IsHeld}
use regula.Tests.Runs.{machine}
use regula.Tests.Samples.{whole_floats, sample, given, given_params, text, paris_rule, adult_rule}

pub sample-IsCoherent : IsCoherent sample
unfolding machine
sample-IsCoherent = record { results = (refl, (refl, tt)); params = (((λ e. cc), tt), (tt, tt)) }

eval_ruleset_iff_example :
    (eval_ruleset whole_floats (some given_params) sample ≡ ok (text "adult"))
    ↔ IsDecided whole_floats (some given_params) (paris_rule ∷ adult_rule ∷ []) (ok (text "adult"))
eval_ruleset_iff_example =
    eval_ruleset_iff whole_floats (some given_params) sample (ok (text "adult")) (cc)

eval_ruleset-type_example : (text "adult").type ≡ "string"
unfolding machine
eval_ruleset-type_example =
    eval_ruleset-type whole_floats (some given_params) sample (text "adult") sample-IsCoherent refl

abbrev mixed : List Rule
mixed = paris_rule ∷ record { expr = adult_rule.expr; result = new_value "bool" "true" } ∷ []

new_ruleset_decides_example :
    (IsCoherent (record { rules = mixed; type = "string" })
      × (new_ruleset "string" mixed ≡ ok (record { rules = mixed; type = "string" })))
    ⊎ ((¬ IsCoherent (record { rules = mixed; type = "string" }))
        × (new_ruleset "string" mixed ≡ err (engine_error EngineError.incoherent_type)))
new_ruleset_decides_example = new_ruleset_decides "string" mixed

-- A third parameter that no rule names.
abbrev more_params : Params whole_floats
more_params =
    map_params whole_floats
      (("other", string "x") ∷ ("city", string "rome") ∷ ("age", int64 (pos 30)) ∷ [])

eval_ruleset_local_example :
    eval_ruleset whole_floats (some given_params) sample
    ≡ eval_ruleset whole_floats (some more_params) sample
unfolding machine
eval_ruleset_local_example = eval_ruleset_local whole_floats given_params more_params sample (
  record { on_string = refl; on_bool = refl; on_int64 = refl; on_float64 = refl },
  (record { on_string = refl; on_bool = refl; on_int64 = refl; on_float64 = refl }, tt),
)

not_eval : (k : String) → (k == "eval") ≡ false → k ≢ "eval"
not_eval k h e = cc (h, (eq_iff k "eval").1 e)

abbrev pub sent : List (String × String)
sent = ("city", "rome") ∷ ("age", "30") ∷ []

pub sample-IsHeld : All (IsHeld whole_floats given) (all_params sample.rules)
unfolding machine
sample-IsHeld = (
  record { held = string "rome"; found = refl; carries = tt; named = not_eval "city" refl },
  (
    record {
      held = int64 (pos 30);
      found = refl;
      carries = omega arith;
      named = not_eval "age" refl;
    },
    tt,
  ),
)
