-- ===== src/Ruleset/Matching.antt =====
-- Which rule decides the evaluation of a ruleset, and the type of what it returns.
use regula.Prelude.{
  Bool, true, false, Option, List, [], ◌∷◌, ◌++◌, ◌≡◌, ◌≢◌, refl, sym, ap, ◌∙◌, append-nil, subst,
  Bool-cases, ◌==◌, ◌↔◌, ◌⊎◌, inl, inr, arith, All, All-append_right,
}
use regula.Outcome.{Error, Result, ok, err, panic, rule_error, RuleError, >>=-eq-ok}
use regula.Strconv.{parse_bool}
use regula.Floats.{Floats}
use regula.Rule.Value.{Value}
use regula.Rule.Eval.{Params, eval}
use regula.Rule.Walk.{Rule, eval_rule, finish_rule, check_match}
use regula.Ruleset.{Ruleset, eval_rules, eval_ruleset}
use regula.Ruleset.Coherent.{IsCoherent}

abbrev pub no_match : Result Value
no_match = err (rule_error RuleError.no_match)

module _ (fl : Floats) (ps : Option (Params fl)) where
  -- The first rule whose outcome is not ErrNoMatch has the outcome `o`.
  pub record IsDecided (rs : List Rule) (o : Result Value) : Type 0 where
    pub before : List Rule
    pub rule : Rule
    pub after : List Rule
    pub split : rs ≡ before ++ rule ∷ after
    pub skipped : All (λ r. eval_rule fl ps r ≡ no_match) before
    pub outcome : eval_rule fl ps rule ≡ o

  eval_rules-skip :
      (r : Rule) (rs : List Rule)
      → eval_rule fl ps r ≡ no_match
      → eval_rules fl ps (r ∷ rs) ≡ eval_rules fl ps rs
  unfolding eval_rules
  eval_rules-skip r rs h = rw h

  eval_rules-stop :
      (r : Rule) (rs : List Rule) (o : Result Value)
      → eval_rule fl ps r ≡ o
      → o ≢ no_match
      → eval_rules fl ps (r ∷ rs) ≡ o
  unfolding eval_rules
  eval_rules-stop r rs (ok v) h ne = rw h
  eval_rules-stop r rs (err e) h ne = rw h (ground arith)
  eval_rules-stop r rs panic h ne = rw h

  no_match-cases : (o : Result Value) → (o ≡ no_match) ⊎ (o ≢ no_match)
  no_match-cases (ok v) = inr (cc)
  no_match-cases (err e) = go e
    where
      go : (x : Error) → (err x ≡ no_match) ⊎ (err x ≢ no_match)
      go (rule_error RuleError.no_match) = inl refl
      go _ = inr (cc)
  no_match-cases panic = inr (cc)

  IsDecided-cons :
      (r : Rule) {rs : List Rule} {o : Result Value}
      → eval_rule fl ps r ≡ no_match
      → IsDecided rs o
      → IsDecided (r ∷ rs) o
  IsDecided-cons r h d = record {
    before = r ∷ d.before;
    rule = d.rule;
    after = d.after;
    split = ap (λ l. r ∷ l) d.split;
    skipped = (h, d.skipped);
    outcome = d.outcome;
  }

  eval_rules-IsDecided :
      (rs : List Rule) (o : Result Value) → o ≢ no_match → eval_rules fl ps rs ≡ o → IsDecided rs o
  eval_rules-IsDecided [] o ne h = absurd (ne (unfold eval_rules in sym h))
  eval_rules-IsDecided (r ∷ rs) o ne h = elim (no_match-cases (eval_rule fl ps r)) [
    | inl skip ↦
        IsDecided-cons r skip (eval_rules-IsDecided rs o ne (rw (eval_rules-skip r rs skip) at h))
    | inr stop ↦ record {
      before = [];
      rule = r;
      after = rs;
      split = refl;
      skipped = tt;
      outcome = sym (eval_rules-stop r rs _ refl stop) ∙ h;
    }
  ]

  eval_rules-skip_before :
      (before rs : List Rule)
      → All (λ r. eval_rule fl ps r ≡ no_match) before
      → eval_rules fl ps (before ++ rs) ≡ eval_rules fl ps rs
  eval_rules-skip_before [] rs _ = refl
  eval_rules-skip_before (r ∷ before) rs (h, hs) =
      eval_rules-skip r (before ++ rs) h ∙ eval_rules-skip_before before rs hs

  -- Eval returns a value, or an error other than ErrNoMatch, exactly when that is the outcome of
  -- the first rule in order whose outcome is not ErrNoMatch.
  pub eval_ruleset_iff :
      (rs : Ruleset) (o : Result Value)
      → o ≢ no_match
      → (eval_ruleset fl ps rs ≡ o) ↔ IsDecided rs.rules o
  unfolding eval_ruleset
  eval_ruleset_iff rs o ne = (
    eval_rules-IsDecided rs.rules o ne,
    λ d.
        subst (λ l. eval_rules fl ps l ≡ o) (sym d.split)
          (eval_rules-skip_before d.before (d.rule ∷ d.after) d.skipped
            ∙ eval_rules-stop d.rule d.after o d.outcome ne),
  )

  eval_rules-no_match :
      (rs : List Rule) → eval_rules fl ps rs ≡ no_match → All (λ r. eval_rule fl ps r ≡ no_match) rs
  eval_rules-no_match [] h = tt
  eval_rules-no_match (r ∷ rs) h = elim (no_match-cases (eval_rule fl ps r)) [
    | inl skip ↦ (skip, eval_rules-no_match rs (rw (eval_rules-skip r rs skip) at h))
    | inr stop ↦ absurd (stop (sym (eval_rules-stop r rs _ refl stop) ∙ h))
  ]

  -- Eval returns ErrNoMatch exactly when every rule does.
  pub eval_ruleset-no_match_iff :
      (rs : Ruleset)
      → (eval_ruleset fl ps rs ≡ no_match) ↔ All (λ r. eval_rule fl ps r ≡ no_match) rs.rules
  unfolding eval_ruleset
  eval_ruleset-no_match_iff rs = (
    eval_rules-no_match rs.rules,
    λ h.
        ap (eval_rules fl ps) (sym (append-nil rs.rules))
        ∙ eval_rules-skip_before rs.rules [] h
        ∙ (unfold eval_rules in refl),
  )

  finish_rule-result : (result v w : Value) → finish_rule result v ≡ ok w → w ≡ result
  unfolding finish_rule
  finish_rule-result result v w h = elim (Bool-cases (v.type == "bool")) [
    | inl b ↦
        let (m, _, e) = >>=-eq-ok (parse_bool v.content) (check_match result) (rw b at h) in go m e
    | inr b ↦ cc (rw b at h)
  ]
    where
      go : (m : Bool) → check_match result m ≡ ok w → w ≡ result
      go true e = cc
      go false e = cc

  eval_rule-result : (r : Rule) (w : Value) → eval_rule fl ps r ≡ ok w → w ≡ r.result
  unfolding eval_rule
  eval_rule-result r w h =
      let (v, _, e) = >>=-eq-ok (eval fl ps r.expr) (finish_rule r.result) h in
      finish_rule-result r.result v w e

  -- Whatever the parameters, a coherent ruleset returns values of its own type only.
  pub eval_ruleset-type :
      (rs : Ruleset) (v : Value) → IsCoherent rs → eval_ruleset fl ps rs ≡ ok v → v.type ≡ rs.type
  eval_ruleset-type rs v c h =
      let d = (eval_ruleset_iff rs (ok v) (cc)).0 h in
      let typed =
        All-append_right (λ r. r.result.type ≡ rs.type) d.before (d.rule ∷ d.after)
          (subst (All (λ r. r.result.type ≡ rs.type)) d.split c.results) in
      ap (λ w. w.type) (eval_rule-result d.rule v d.outcome) ∙ typed.0
