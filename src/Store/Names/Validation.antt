-- ===== src/Store/Names/Validation.antt =====
-- Which rulesets validateRuleset of store/etcd/rulesets.go accepts.
use regula.Prelude.{
  ℕ, true, String, List, [], ◌∷◌, ◌≡◌, ◌≢◌, refl, ◌↔◌, ◌⊎◌, inl, inr, All, All-append,
  All-append_left, All-append_right, Bool-cases, arith, codes, ◌==◌, eq_iff,
}
use regula.Outcome.{Result, ok, ◌>>=◌}
use regula.Regexp.{in_class, match_string}
use regula.Regexp.Language.{match_codes_iff}
use regula.Rule.Expr.{Param}
use regula.Rule.Walk.{Rule, rule_params}
use regula.Ruleset.{Ruleset}
use regula.Ruleset.Coherent.{all_params}
use regula.Store.{new_signature}
use regula.Store.Matching.{IsInvalid}
use regula.Store.Names.{
  path_span, dash_span, rgx_ruleset, rgx_param, validate_ruleset_name, reserved_words,
  check_reserved, validate_param_name, validate_param_names, validate_rules_params,
  validate_ruleset,
}
use regula.Store.Names.Format.{IsAlnum, IsName, name_iff}

-- "-" and "/" separate the parts of a path, and "-" those of a parameter's name.
abbrev pub IsPathSeparator : ℕ → Type 0
IsPathSeparator c = (c ≡ b'-') ⊎ (c ≡ b'/')

abbrev pub IsDash : ℕ → Type 0
IsDash c = c ≡ b'-'

abbrev pub IsPath : String → Type 0
IsPath path = IsName IsPathSeparator (codes path)

abbrev pub IsParamName : String → Type 0
IsParamName name = IsName IsDash (codes name) × All (λ w. name ≢ w) reserved_words

-- The path and the name of each parameter of each rule are well formed.
pub record IsAccepted (path : String) (rs : Ruleset) : Type 0 where
  pub path_name : IsPath path
  pub param_names : All (λ p. IsParamName p.name) (all_params rs.rules)

IsPathSeparator-class_iff :
    (c : ℕ) → (in_class path_span c ≡ true) ↔ (IsAlnum c ⊎ IsPathSeparator c)
unfolding in_class
IsPathSeparator-class_iff c = (λ h. ground arith, λ h. ground arith)

IsDash-class_iff : (c : ℕ) → (in_class dash_span c ≡ true) ↔ (IsAlnum c ⊎ IsDash c)
unfolding in_class
IsDash-class_iff c = (λ h. ground arith, λ h. ground arith)

both {ℓ κ μ} : {A : Type ℓ} {B : Type κ} {C : Type μ} → A ↔ B → B ↔ C → A ↔ C
both f g = (λ a. g.0 (f.0 a), λ c. f.1 (g.1 c))

pub IsPath-iff : (path : String) → (match_string rgx_ruleset path ≡ true) ↔ IsPath path
unfolding match_string
IsPath-iff path =
    both (match_codes_iff rgx_ruleset (codes path))
      (name_iff IsPathSeparator path_span IsPathSeparator-class_iff (codes path))

IsDash-iff : (name : String) → (match_string rgx_param name ≡ true) ↔ IsName IsDash (codes name)
unfolding match_string
IsDash-iff name =
    both (match_codes_iff rgx_param (codes name))
      (name_iff IsDash dash_span IsDash-class_iff (codes name))

-- A check succeeds exactly where `P` holds, and fails with a ValidationError.
abbrev Checks : Type 0 → Result (Unit {0}) → Type 0
Checks P r = (P × (r ≡ ok tt)) ⊎ ((¬ P) × IsInvalid r)

Checks->>= :
    {P Q : Type 0} (a b : Result (Unit {0}))
    → Checks P a
    → Checks Q b
    → Checks (P × Q) (a >>= λ _. b)
Checks->>= a b (inl (p, e)) (inl (q, e')) = inl ((p, q), rw e e')
Checks->>= a b (inl (p, e)) (inr (nq, invalid)) = inr ((λ (_, q). nq q), rw e invalid)
Checks->>= a b (inr (np, (f, c, r, e))) h = inr ((λ (p, _). np p), (f, c, r, rw e))

validate_ruleset_name-Checks : (path : String) → Checks (IsPath path) (validate_ruleset_name path)
unfolding validate_ruleset_name
validate_ruleset_name-Checks path = elim (Bool-cases (match_string rgx_ruleset path)) [
  | inl e ↦ inl ((IsPath-iff path).0 e, rw e)
  | inr e ↦ inr ((λ h. cc (e, (IsPath-iff path).1 h)), rw e (_, _, _, refl))
]

check_reserved-Checks :
    (name : String) (ws : List String) → Checks (All (λ w. name ≢ w) ws) (check_reserved name ws)
unfolding check_reserved
check_reserved-Checks name [] = inl (tt, refl)
check_reserved-Checks name (w ∷ ws) = elim (Bool-cases (name == w)) [
  | inl e ↦ inr ((λ (ne, _). ne ((eq_iff name w).0 e)), rw e (_, _, _, refl))
  | inr e ↦ rw e (elim (check_reserved-Checks name ws) [
    | inl (h, done) ↦ inl (((λ same. cc (e, (eq_iff name w).1 same)), h), done)
    | inr (nh, invalid) ↦ inr ((λ (_, h). nh h), invalid)
  ])
]

validate_param_name-Checks : (name : String) → Checks (IsParamName name) (validate_param_name name)
unfolding validate_param_name
validate_param_name-Checks name = elim (Bool-cases (match_string rgx_param name)) [
  | inl e ↦ rw e (elim (check_reserved-Checks name reserved_words) [
    | inl (h, done) ↦ inl (((IsDash-iff name).0 e, h), done)
    | inr (nh, invalid) ↦ inr ((λ (_, h). nh h), invalid)
  ])
  | inr e ↦ inr ((λ (h, _). cc (e, (IsDash-iff name).1 h)), rw e (_, _, _, refl))
]

validate_param_names-Checks :
    (ps : List Param) → Checks (All (λ p. IsParamName p.name) ps) (validate_param_names ps)
unfolding validate_param_names
validate_param_names-Checks [] = inl (tt, refl)
validate_param_names-Checks (p ∷ ps) =
    Checks->>= (validate_param_name p.name) (validate_param_names ps)
      (validate_param_name-Checks p.name) (validate_param_names-Checks ps)

Checks-iff : {P Q : Type 0} (r : Result (Unit {0})) → P ↔ Q → Checks P r → Checks Q r
Checks-iff r f (inl (p, e)) = inl (f.0 p, e)
Checks-iff r f (inr (np, invalid)) = inr ((λ q. np (f.1 q)), invalid)

validate_rules_params-Checks :
    (rs : List Rule)
    → Checks (All (λ p. IsParamName p.name) (all_params rs)) (validate_rules_params rs)
unfolding validate_rules_params
validate_rules_params-Checks [] = inl (tt, refl)
validate_rules_params-Checks (r ∷ rs) =
    let P : Param → Type 0 = λ p. IsParamName p.name in
    Checks-iff _
      (
        (λ (h, k). All-append P (rule_params r) (all_params rs) h k),
        (λ h. (
          All-append_left P (rule_params r) (all_params rs) h,
          All-append_right P (rule_params r) (all_params rs) h,
        )),
      )
      (Checks->>= (validate_param_names (rule_params r)) (validate_rules_params rs)
        (validate_param_names-Checks (rule_params r)) (validate_rules_params-Checks rs))

-- A ruleset is accepted under a path, with its signature, exactly when the path begins with a
-- lower-case letter, has letters, digits and the separators "-" and "/" with a letter or digit after each
-- separator, and each parameter of each rule has such a name with "-" only, which is not reserved;
-- otherwise the outcome is a ValidationError.
pub validate_ruleset_decides :
    (path : String) (rs : Ruleset)
    → (IsAccepted path rs × (validate_ruleset path rs ≡ ok (new_signature rs)))
      ⊎ ((¬ IsAccepted path rs) × IsInvalid (validate_ruleset path rs))
unfolding validate_ruleset
validate_ruleset_decides path rs =
    go (validate_ruleset_name path) (validate_rules_params rs.rules)
      (validate_ruleset_name-Checks path) (validate_rules_params-Checks rs.rules)
  where
    go :
        (a b : Result (Unit {0}))
        → Checks (IsPath path) a
        → Checks (All (λ p. IsParamName p.name) (all_params rs.rules)) b
        → (IsAccepted path rs
            × ((a >>= λ _. b >>= λ _. ok (new_signature rs)) ≡ ok (new_signature rs)))
          ⊎ ((¬ IsAccepted path rs) × IsInvalid (a >>= λ _. b >>= λ _. ok (new_signature rs)))
    go a b (inl (h, e)) (inl (k, e')) =
        inl (record { path_name = h; param_names = k }, rw (e, e') refl)
    go a b (inl (h, e)) (inr (nk, (f, c, r, e'))) =
        inr ((λ x. nk x.param_names), (f, c, r, rw (e, e') refl))
    go a b (inr (nh, (f, c, r, e))) _ = inr ((λ x. nh x.path_name), (f, c, r, rw e refl))
