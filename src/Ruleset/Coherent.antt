-- ===== src/Ruleset/Coherent.antt =====
-- What `validate` of ruleset.go accepts.
use regula.Prelude.{
  String, Option, none, some, List, [], ◌∷◌, ◌++◌, ◌==◌, lookup, ◌≡◌, refl, ◌↔◌, ◌⊎◌, inl, inr,
  arith, eq_iff, All, All-intro, Bool-cases,
}
use regula.Outcome.{Result, ok, err, panic, engine_error, EngineError, ◌>>=◌, >>=-eq-ok}
use regula.Rule.Expr.{Param}
use regula.Rule.Walk.{Rule, rule_params}
use regula.Ruleset.{
  Ruleset, ParamTypes, note_param, note_params, validate_rules, validate, new_ruleset,
}
use regula.Ruleset.Noting.{
  OneType, Fits, Fits-nil, note_params_sound, note_params_complete, note_params-append,
}

-- The occurrences of parameters in all the rules.
abbrev pub all_params : List Rule → List Param
all_params [] = []
all_params (r ∷ rs) = rule_params r ++ all_params rs

-- What the constructors of rulesets promise: each result has the ruleset's type, and each
-- parameter has one type in all the rules.
pub record IsCoherent (rs : Ruleset) : Type 0 where
  pub results : All (λ r. r.result.type ≡ rs.type) rs.rules
  pub params : OneType (all_params rs.rules)

-- The rules' results, and the parameters of all the rules at once.
validate_rules_sound :
    (type : String) (rs : List Rule) (m m' : ParamTypes)
    → validate_rules type rs m ≡ ok m'
    → All (λ r. r.result.type ≡ type) rs × (note_params (all_params rs) m ≡ ok m')
unfolding validate_rules
validate_rules_sound type [] m m' h = (tt, unfold note_params in h)
validate_rules_sound type (r ∷ rs) m m' h = elim (Bool-cases (r.result.type == type)) [
  | inl same ↦
      let (m₁, here, there) =
        >>=-eq-ok (note_params (rule_params r) m) (validate_rules type rs) (rw same at h) in
      let (results, params) = validate_rules_sound type rs m₁ m' there in
      (
        ((eq_iff _ _).0 same, results),
        rw (note_params-append (rule_params r) (all_params rs) m, here) params,
      )
  | inr other ↦ cc (rw other at h)
]

validate_rules_complete :
    (type : String) (rs : List Rule) (m m' : ParamTypes)
    → All (λ r. r.result.type ≡ type) rs
    → note_params (all_params rs) m ≡ ok m'
    → validate_rules type rs m ≡ ok m'
unfolding validate_rules
validate_rules_complete type [] m m' _ h = unfold note_params in h
validate_rules_complete type (r ∷ rs) m m' (same, results) h =
    let (m₁, here, there) =
      >>=-eq-ok (note_params (rule_params r) m) (note_params (all_params rs))
        (rw (note_params-append (rule_params r) (all_params rs) m) at h) in
    rw ((eq_iff _ _).1 same, here) (validate_rules_complete type rs m₁ m' results there)

-- `validate` returns no error exactly for the coherent rulesets.
pub validate_iff : (rs : Ruleset) → (validate rs ≡ ok tt) ↔ IsCoherent rs
unfolding validate
validate_iff rs = (
  (λ h.
      let (m, e, _) = >>=-eq-ok (validate_rules rs.type rs.rules []) (λ _. ok tt) h in
      let (results, noted) = validate_rules_sound rs.type rs.rules [] m e in
      record {
        results = results;
        params = (note_params_sound (all_params rs.rules) [] m noted).1;
      }),
  (λ c.
      let fits = All-intro (Fits []) Fits-nil (all_params rs.rules) in
      let (m, e) = note_params_complete (all_params rs.rules) [] (fits, c.params) in
      rw (validate_rules_complete rs.type rs.rules [] m c.results e)),
)

-- The only failure is ErrRulesetIncoherentType.
abbrev OrIncoherent {ℓ} : {A : Type ℓ} → Result A → Type 0
OrIncoherent (ok a) = Unit
OrIncoherent (err e) = e ≡ engine_error EngineError.incoherent_type
OrIncoherent panic = ⊥

OrIncoherent->>= {ℓ κ} :
    {A : Type ℓ} {B : Type κ} (m : Result A) (f : A → Result B)
    → OrIncoherent m
    → ((a : A) → OrIncoherent (f a))
    → OrIncoherent (m >>= f)
OrIncoherent->>= (ok a) f h k = k a
OrIncoherent->>= (err e) f h k = h
OrIncoherent->>= panic f h k = h

note_params-OrIncoherent : (ps : List Param) (m : ParamTypes) → OrIncoherent (note_params ps m)
unfolding note_params
note_params-OrIncoherent [] m = tt
note_params-OrIncoherent (p ∷ ps) m =
    OrIncoherent->>= (note_param (lookup p.name m) p m) (note_params ps) (first (lookup p.name m))
      (note_params-OrIncoherent ps)
  where
    first : (o : Option String) → OrIncoherent (note_param o p m)
    first none = tt
    first (some tp) = ground arith

validate_rules-OrIncoherent :
    (type : String) (rs : List Rule) (m : ParamTypes) → OrIncoherent (validate_rules type rs m)
unfolding validate_rules
validate_rules-OrIncoherent type [] m = tt
validate_rules-OrIncoherent type (r ∷ rs) m = ground (
  arith,
  OrIncoherent->>= (note_params (rule_params r) m) (validate_rules type rs)
      (note_params-OrIncoherent (rule_params r) m) (validate_rules-OrIncoherent type rs),
)

-- A constructor returns the ruleset, unchanged, where it is coherent, and otherwise
-- ErrRulesetIncoherentType and nothing else.
pub new_ruleset_decides :
    (typ : String) (rules : List Rule)
    → let rs : Ruleset = record { rules = rules; type = typ } in
      (IsCoherent rs × (new_ruleset typ rules ≡ ok rs))
      ⊎ ((¬ IsCoherent rs)
          × (new_ruleset typ rules ≡ err (engine_error EngineError.incoherent_type)))
unfolding new_ruleset validate
new_ruleset_decides typ rules =
    go (validate_rules typ rules []) refl (validate_rules-OrIncoherent typ rules [])
  where
    rs : Ruleset
    rs = record { rules = rules; type = typ }

    go :
        (r : Result ParamTypes)
        → validate_rules typ rules [] ≡ r
        → OrIncoherent r
        → (IsCoherent rs × (new_ruleset typ rules ≡ ok rs))
          ⊎ ((¬ IsCoherent rs)
              × (new_ruleset typ rules ≡ err (engine_error EngineError.incoherent_type)))
    go (ok m) e h = inl ((validate_iff rs).0 (rw e), rw e)
    go (err x) e h = inr ((λ c. cc (e, (validate_iff rs).1 c)), rw (e, h))
    go panic e h = absurd h
