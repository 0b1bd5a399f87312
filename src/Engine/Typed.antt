-- ===== src/Engine/Typed.antt =====
-- What the getters of Engine return and which errors reach their caller unchanged.
use regula.Prelude.{
  String, Option, List, ◌≡◌, ◌≢◌, ◌↔◌, refl, ap, subst, ◌∙◌, eq_iff, ◌==◌, Bool-cases, inl, inr,
}
use regula.Outcome.{
  Error, Result, ok, err, panic, wrapped, num_error, rule_error, RuleError, engine_error,
  EngineError,
}
use regula.Floats.{Floats}
use regula.Rule.Eval.{Params}
use regula.Engine.{EvalResult, Evaluator, EngineOption, configure, ask, get, check_type, pass_error}

-- The two errors that a caller of Engine tests for by identity.
abbrev pub not_found : Error
not_found = engine_error EngineError.ruleset_not_found

abbrev pub no_match : Error
no_match = rule_error RuleError.no_match

abbrev pub type_mismatch : Error
type_mismatch = engine_error EngineError.type_mismatch

-- An error is passed on as it is if it is one of the two, and is wrapped otherwise.
pass_error-not_found : (e : Error) → pass_error e ≡ not_found → e ≡ not_found
unfolding pass_error
pass_error-not_found (rule_error RuleError.no_match) h = h
pass_error-not_found (rule_error _) h = cc
pass_error-not_found (engine_error EngineError.ruleset_not_found) h = h
pass_error-not_found (engine_error _) h = cc
pass_error-not_found (num_error f i r) h = cc
pass_error-not_found _ h = cc

pass_error-no_match : (e : Error) → pass_error e ≡ no_match → e ≡ no_match
unfolding pass_error
pass_error-no_match (rule_error RuleError.no_match) h = h
pass_error-no_match (rule_error _) h = cc
pass_error-no_match (engine_error EngineError.ruleset_not_found) h = cc
pass_error-no_match (engine_error _) h = cc
pass_error-no_match (num_error f i r) h = cc
pass_error-no_match _ h = cc

pass_error-ne-type_mismatch : (e : Error) → pass_error e ≢ type_mismatch
unfolding pass_error
pass_error-ne-type_mismatch (rule_error RuleError.no_match) h = cc
pass_error-ne-type_mismatch (rule_error _) h = cc
pass_error-ne-type_mismatch (engine_error EngineError.ruleset_not_found) h = cc
pass_error-ne-type_mismatch (engine_error _) h = cc
pass_error-ne-type_mismatch (num_error f i r) h = cc
pass_error-ne-type_mismatch _ h = cc

-- An error that is wrapped was neither of the two.
pass_error-wrapped :
    (x e : Error)
    → pass_error x ≡ wrapped e "failed to evaluate ruleset"
    → (x ≡ e) × (x ≢ not_found) × (x ≢ no_match)
unfolding pass_error
pass_error-wrapped (rule_error RuleError.no_match) e h = cc
pass_error-wrapped (rule_error _) e h = (cc, λ k. cc, λ k. cc)
pass_error-wrapped (engine_error EngineError.ruleset_not_found) e h = cc
pass_error-wrapped (engine_error _) e h = (cc, λ k. cc, λ k. cc)
pass_error-wrapped (num_error f i r) e h = (cc, λ k. cc, λ k. cc)
pass_error-wrapped _ e h = (cc, λ k. cc, λ k. cc)

pass_error-other :
    (x : Error)
    → x ≢ not_found
    → x ≢ no_match
    → pass_error x ≡ wrapped x "failed to evaluate ruleset"
unfolding pass_error
pass_error-other (rule_error RuleError.no_match) n m = absurd (m refl)
pass_error-other (rule_error _) n m = refl
pass_error-other (engine_error EngineError.ruleset_not_found) n m = absurd (n refl)
pass_error-other (engine_error _) n m = refl
pass_error-other (num_error f i r) n m = refl
pass_error-other _ n m = refl

-- What is known of one call of the evaluator and what `get` makes of it.
pub record IsExact (typ : String) (asked got : Result EvalResult) : Type 0 where
  pub on_result : (res : EvalResult) → (got ≡ ok res) ↔ ((asked ≡ ok res) × (res.value.type ≡ typ))
  pub on_not_found : (got ≡ err not_found) ↔ (asked ≡ err not_found)
  pub on_no_match : (got ≡ err no_match) ↔ (asked ≡ err no_match)
  pub on_mismatch :
      (got ≡ err type_mismatch) ↔ ((res : EvalResult) × (asked ≡ ok res) × (res.value.type ≢ typ))
  pub on_other :
      (e : Error)
      → (got ≡ err (wrapped e "failed to evaluate ruleset"))
        ↔ ((asked ≡ err e) × (e ≢ not_found) × (e ≢ no_match))

module _ (typ : String) (res : EvalResult) where
  IsExact-same : res.value.type ≡ typ → IsExact typ (ok res) (ok res)
  IsExact-same t = record {
    on_result = λ r.
        (λ h. let same : res ≡ r = cc in (h, subst (λ x. x.value.type ≡ typ) same t), λ (h, _). h);
    on_not_found = (λ h. cc, λ h. cc);
    on_no_match = (λ h. cc, λ h. cc);
    on_mismatch = (
      λ h. cc,
      λ (r, h, ne). let same : res ≡ r = cc in absurd (ne (subst (λ x. x.value.type ≡ typ) same t)),
    );
    on_other = λ e. (λ h. cc, λ h. cc h.0);
  }

  IsExact-other : res.value.type ≢ typ → IsExact typ (ok res) (err type_mismatch)
  IsExact-other ne = record {
    on_result = λ r. (
      λ h. cc,
      λ (h, t). let same : r ≡ res = cc in absurd (ne (subst (λ x. x.value.type ≡ typ) same t)),
    );
    on_not_found = (λ h. cc, λ h. cc);
    on_no_match = (λ h. cc, λ h. cc);
    on_mismatch = (λ h. (res, refl, ne), λ _. refl);
    on_other = λ e. (λ h. cc, λ h. cc h.0);
  }

IsExact-err : (typ : String) (e : Error) → IsExact typ (err e) (err (pass_error e))
IsExact-err typ e = record {
  on_result = λ r. (λ h. cc, λ h. cc h.0);
  on_not_found = (
    λ h. ap err (pass_error-not_found e (cc)),
    λ h. let same : e ≡ not_found = cc in rw same (unfold pass_error in refl),
  );
  on_no_match = (
    λ h. ap err (pass_error-no_match e (cc)),
    λ h. let same : e ≡ no_match = cc in rw same (unfold pass_error in refl),
  );
  on_mismatch = (λ h. absurd (pass_error-ne-type_mismatch e (cc)), λ (r, h, ne). cc h);
  on_other = λ x. (
    λ h.
        let (same, n, m) = pass_error-wrapped e x (cc) in
        (ap err same, subst (λ k. k ≢ not_found) same n, subst (λ k. k ≢ no_match) same m),
    λ (h, n, m).
        let same : e ≡ x = cc in
        ap (λ k. err (pass_error k)) same ∙ ap err (pass_error-other x n m),
  );
}

IsExact-panic : (typ : String) → IsExact typ panic panic
IsExact-panic typ = record {
  on_result = λ r. (λ h. cc, λ h. cc h.0);
  on_not_found = (λ h. cc, λ h. cc);
  on_no_match = (λ h. cc, λ h. cc);
  on_mismatch = (λ h. cc, λ (r, h, ne). cc h);
  on_other = λ e. (λ h. cc, λ h. cc h.0);
}

check_type-IsExact : (typ : String) (r : Result EvalResult) → IsExact typ r (check_type typ r)
unfolding check_type
check_type-IsExact typ (ok res) = elim (Bool-cases (res.value.type == typ)) [
  | inl b ↦ rw b (IsExact-same typ res ((eq_iff res.value.type typ).0 b))
  | inr b ↦ rw b (IsExact-other typ res λ t. cc (b, (eq_iff res.value.type typ).1 t))
]
check_type-IsExact typ (err e) = IsExact-err typ e
check_type-IsExact typ panic = IsExact-panic typ

-- The method `get`, which each getter of Engine calls with its type, returns a result exactly when the
-- evaluator returned it and its value has the type that was asked for; ErrRulesetNotFound and
-- ErrNoMatch exactly when the evaluator returned them; ErrTypeMismatch exactly when the evaluator
-- returned a result of another type; and any other error exactly when the evaluator returned it,
-- wrapped in "failed to evaluate ruleset". What a getter makes of a text that does not parse is left
-- to the getter.
pub get-IsExact :
    (fl : Floats) (e : Evaluator fl) (typ path : String) (ps : Option (Params fl))
    (opts : List EngineOption)
    → IsExact typ (ask fl e (configure opts) path ps) (get fl e typ path ps opts)
unfolding get
get-IsExact fl e typ path ps opts = check_type-IsExact typ (ask fl e (configure opts) path ps)
