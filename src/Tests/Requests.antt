-- ===== src/Tests/Requests.antt =====
-- The theorems about signatures and about the server at concrete rulesets and requests.
use regula.Prelude.{some, true, false, ◌==◌, none, [], ◌∷◌, ◌≡◌, ◌⊎◌, inr, refl, lookup}
use regula.Outcome.{Result, ok, err, message}
use regula.Json.{Bytes, raw, document}
use regula.Ruleset.{Ruleset}
use regula.Buffer.{RulesetBuffer, new_ruleset_buffer, add, eval, eval_version, get_version}
use regula.Store.{RulesetService, new_signature, match_with}
use regula.Store.Matching.{IsCompatible, IsInvalid, match_with_decides}
use regula.Params.{query_params}
use regula.Server.{Request, status_ok, result_body, serve_http, has_key}
use regula.Server.Statuses.{IsHidden, IsEvalAnswer}
use regula.Server.Requests.{
  IsEval, evaluation, serve_http-frame, serve_http-IsHidden, serve_http-IsEvalAnswer,
}
use regula.Tests.Runs.{machine}
use regula.Tests.Samples.{whole_floats, sample, text, paris_rule}

-- A later version without the rule on the age.
abbrev shorter : Ruleset
shorter = record { rules = paris_rule ∷ []; type = "string" }

match_with_decides_example :
    (IsCompatible sample shorter
      × (match_with (new_signature sample) (new_signature shorter) ≡ ok tt))
    ⊎ ((¬ IsCompatible sample shorter)
        × IsInvalid (match_with (new_signature sample) (new_signature shorter)))
match_with_decides_example = match_with_decides sample shorter

-- A store in memory: every ruleset is put as version "v2", and nothing is listed or watched.
abbrev pub memory : RulesetService whole_floats RulesetBuffer
memory = record {
  list = λ st prefix limit token. err (message "no listing");
  watch = λ st prefix revision. err (message "no watch");
  put = λ st path rs. ok (
    add st path "v2" (some rs),
    (some (record { path = path; version = "v2"; rule_set = some rs }), none),
  );
  eval = λ st path ps. eval whole_floats st path ps;
  eval_version = λ st path version ps. eval_version whole_floats st path version ps;
}

-- The only body that is a ruleset.
abbrev pub decode_sample : Bytes → Result Ruleset
decode_sample (raw s) = elim (s == "sample") [ true ↦ ok sample | false ↦ err (message "bad body") ]
decode_sample (document j) = err (message "bad body")

abbrev pub store : RulesetBuffer
store = add new_ruleset_buffer "greeting" "v1" (some sample)

abbrev pub ask_greeting : Request
ask_greeting = record {
  method = "GET";
  path = "/rulesets/greeting";
  query = ("eval", "") ∷ ("city", "rome") ∷ ("age", "30") ∷ [];
  body = raw "";
}

pub ask_greeting-IsEval : IsEval ask_greeting
unfolding machine has_key
ask_greeting-IsEval = record { get = refl; no_watch = refl; no_list = refl; eval_key = refl }

serve_http-IsEvalAnswer_example :
    ((serve_http memory decode_sample store ask_greeting).0 ≡ store)
    × IsEvalAnswer
        (evaluation memory decode_sample store ask_greeting (lookup "version" ask_greeting.query))
        (serve_http memory decode_sample store ask_greeting).1
serve_http-IsEvalAnswer_example =
    serve_http-IsEvalAnswer memory decode_sample store ask_greeting ask_greeting-IsEval

abbrev put_nothing : Request
put_nothing = record { method = "PUT"; path = "/rulesets/greeting"; query = []; body = raw "x" }

serve_http-frame_example : (serve_http memory decode_sample store put_nothing).0 ≡ store
serve_http-frame_example =
    serve_http-frame memory decode_sample store put_nothing (inr (inr (message "bad body", refl)))

serve_http-IsHidden_example : IsHidden (serve_http memory decode_sample store put_nothing).1
serve_http-IsHidden_example = serve_http-IsHidden memory decode_sample store put_nothing

greeting_served :
    (serve_http memory decode_sample store ask_greeting).1
    ≡ ok (record {
      status = status_ok;
      body = result_body (record { value = text "adult"; version = "v1" });
    })
unfolding machine serve_http query_params eval
greeting_served = refl

abbrev put_sample : Request
put_sample = record { method = "PUT"; path = "/rulesets/greeting"; query = []; body = raw "sample" }

-- What was put is in the store.
put_served :
    get_version (serve_http memory decode_sample store put_sample).0 "greeting" "v2"
    ≡ ok (some sample)
unfolding machine serve_http get_version
put_served = refl
