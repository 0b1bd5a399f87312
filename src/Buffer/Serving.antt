-- ===== src/Buffer/Serving.antt =====
-- An Engine over a RulesetBuffer, with the constructors of rulesets: the program from the addition
-- of a ruleset to the result of a getter.
use regula.Prelude.{
  String, true, Option, some, [], ◌∷◌, ◌++◌, ◌≡◌, refl, ap, ◌∙◌, if◌then◌else◌, ◌==◌, eq_iff,
  eq_refl, last?, last?-append,
}
use regula.Outcome.{Result, ok, err, panic, ◌>>=◌}
use regula.Floats.{Floats}
use regula.Rule.Value.{Value}
use regula.Rule.Eval.{Params}
use regula.Ruleset.{Ruleset, eval_ruleset}
use regula.Ruleset.Coherent.{IsCoherent}
use regula.Ruleset.Matching.{eval_ruleset-type}
use regula.Engine.{EvalResult, get, check_type, pass_error, configure}
use regula.Buffer.{RulesetInfo, RulesetBuffer, add, or_not_found, latest_info, eval_info, evaluator}
use regula.Buffer.History.{versions, versions-add}

-- What Engine makes of the outcome of a ruleset's evaluation.
abbrev pub served : String → Result Value → Result EvalResult
served version (ok v) = ok (record { value = v; version = version })
served version (err e) = err (pass_error e)
served version panic = panic

latest_info-add :
    (b : RulesetBuffer) (a : RulesetInfo) → latest_info (add b a.path a.version a.r) a.path ≡ ok a
unfolding latest_info
latest_info-add b a =
    let here : versions (add b a.path a.version a.r) a.path ≡ versions b a.path ++ a ∷ [] =
      versions-add b a a.path
      ∙ ap (λ t. if t then versions b a.path ++ a ∷ [] else versions b a.path) (eq_refl a.path) in
    ap (λ l. or_not_found (last? l)) here ∙ ap or_not_found (last?-append (versions b a.path) a)

check_type-served :
    (typ version : String) (o : Result Value)
    → ((v : Value) → o ≡ ok v → v.type ≡ typ)
    → check_type typ (o >>= λ v. ok (record { value = v; version = version })) ≡ served version o
unfolding check_type
check_type-served typ version (ok v) h =
    let typed : (v.type == typ) ≡ true = (eq_iff v.type typ).1 (h v refl) in rw typed
check_type-served typ version (err e) h = refl
check_type-served typ version panic h = refl

-- Once a coherent ruleset is added under a path, the getter of its type returns, for that path and
-- with no version asked for, what the ruleset evaluates to under the parameters, with the version
-- that was added: no type mismatch and no other version, whatever the buffer held before.
pub get-added :
    (fl : Floats) (ps : Option (Params fl)) (b : RulesetBuffer) (path version : String)
    (rs : Ruleset)
    → IsCoherent rs
    → get fl (evaluator fl (add b path version (some rs))) rs.type path ps []
      ≡ served version (eval_ruleset fl ps rs)
unfolding get evaluator configure
get-added fl ps b path version rs c =
    let a : RulesetInfo = record { path = path; version = version; r = some rs } in
    ap (λ o. check_type rs.type (o >>= eval_info fl ps)) (latest_info-add b a)
    ∙ (unfold eval_info in
        check_type-served rs.type version (eval_ruleset fl ps rs)
          (λ v e. eval_ruleset-type fl ps rs v c e))
