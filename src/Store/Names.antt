-- ===== src/Store/Names.antt =====
-- The names that store/etcd/rulesets.go accepts for rulesets and parameters, and validateRuleset.
pub mod Format
pub mod Validation
use regula.Prelude.{ℕ, String, Bool, true, false, List, [], ◌∷◌, if◌then◌else◌, ◌==◌, not, codes}
use regula.Outcome.{Error, Result, ok, err, validation_error, ◌>>=◌, ◌>>◌}
use regula.Regexp.{Regex, Spans, class, seq, star, plus, opt, match_string}
use regula.Rule.Expr.{Param}
use regula.Rule.Walk.{Rule, rule_params}
use regula.Ruleset.{Ruleset}
use regula.Store.{Signature, new_signature}

-- `[a-z0-9-\/]` and `[a-z0-9-]`.
abbrev pub path_span : Spans
path_span = (b'a', b'z') ∷ (b'0', b'9') ∷ (b'-', b'-') ∷ (b'/', b'/') ∷ []

abbrev pub dash_span : Spans
dash_span = (b'a', b'z') ∷ (b'0', b'9') ∷ (b'-', b'-') ∷ []

-- `[a-z]+(?:[a-z0-9-\/]?[a-z0-9])*`.
abbrev pub rgx_ruleset : Regex
rgx_ruleset =
    seq (plus (class ((b'a', b'z') ∷ [])))
      (star (seq (opt (class path_span)) (class ((b'a', b'z') ∷ (b'0', b'9') ∷ []))))

-- `[a-z]+(?:[a-z0-9-]?[a-z0-9])*`.
abbrev pub rgx_param : Regex
rgx_param =
    seq (plus (class ((b'a', b'z') ∷ [])))
      (star (seq (opt (class dash_span)) (class ((b'a', b'z') ∷ (b'0', b'9') ∷ []))))

unfoldable pub validate_ruleset_name : String → Result (Unit {0})
unfolding match_string
validate_ruleset_name path =
    if match_string rgx_ruleset path
    then ok tt
    else err (validation_error "path" path "invalid format")

abbrev pub reserved_words : List String
reserved_words = "version" ∷ "list" ∷ "eval" ∷ "watch" ∷ "revision" ∷ []

-- The inner loop of validateParamNames.
unfoldable pub check_reserved : String → List String → Result (Unit {0})
check_reserved name [] = ok tt
check_reserved name (w ∷ ws) =
    if name == w
    then err (validation_error "param" name "forbidden value")
    else check_reserved name ws

-- The body of the outer loop.
unfoldable pub validate_param_name : String → Result (Unit {0})
unfolding match_string check_reserved
validate_param_name name =
    if match_string rgx_param name
    then check_reserved name reserved_words
    else err (validation_error "param" name "invalid format")

unfoldable pub validate_param_names : List Param → Result (Unit {0})
unfolding validate_param_name
validate_param_names [] = ok tt
validate_param_names (p ∷ ps) = validate_param_name p.name >>= λ _. validate_param_names ps

-- The loop of validateRuleset.
unfoldable pub validate_rules_params : List Rule → Result (Unit {0})
unfolding validate_param_names
validate_rules_params [] = ok tt
validate_rules_params (r ∷ rs) =
    validate_param_names (rule_params r) >>= λ _. validate_rules_params rs

unfoldable pub validate_ruleset : String → Ruleset → Result Signature
unfolding validate_ruleset_name validate_rules_params
validate_ruleset path rs = do
  validate_ruleset_name path
  validate_rules_params rs.rules
  ok (new_signature rs)
