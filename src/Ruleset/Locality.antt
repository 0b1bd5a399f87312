-- ===== src/Ruleset/Locality.antt =====
-- The method Params of ruleset.go, and that an evaluation reads nothing else of the parameters.
use regula.Prelude.{
  String, Bool, true, false, Option, none, some, List, [], ◌∷◌, ◌++◌, ◌≡◌, ◌≢◌, refl, sym, ap, ap₂,
  ◌∙◌, ◌↔◌, ◌⊎◌, inl, inr, arith, lookup, insert, lookup-insert, eq_iff, All, All-map, All-append,
  All-append_left, All-append_right, subst, Any, Any-append_left, Any-append_right,
  Any-append_cases,
}
use regula.Floats.{Floats}
use regula.Rule.Expr.{Param}
use regula.Rule.Eval.{Params}
use regula.Rule.Walk.{Rule, rule_params}
use regula.Rule.Params.{SameAt, eval_rule-same, AgreeAt, AgreeAt-SameAt}
use regula.Ruleset.{
  Ruleset, Seen, add_param, add_params, add_rules, ruleset_params, first_outcome, eval_rules,
  eval_ruleset,
}
use regula.Ruleset.Coherent.{all_params}

-- A parameter of the list has the name.
abbrev pub HasName : String → List Param → Type 0
HasName n = Any (λ p. p.name ≡ n)

-- No two parameters of the list have one name.
abbrev pub HasDistinctNames : List Param → Type 0
HasDistinctNames [] = Unit
HasDistinctNames (p ∷ ps) = All (λ q. q.name ≢ p.name) ps × HasDistinctNames ps

HasDistinctNames-append :
    (ps : List Param) (p : Param)
    → HasDistinctNames ps
    → ¬ HasName p.name ps
    → HasDistinctNames (ps ++ p ∷ [])
HasDistinctNames-append [] p _ _ = (tt, tt)
HasDistinctNames-append (q ∷ ps) p (h, hs) new = (
  All-append (λ r. r.name ≢ q.name) ps (p ∷ []) h ((λ e. new (inl (sym e))), tt),
  HasDistinctNames-append ps p hs (λ a. new (inr a)),
)

-- The set `bm` holds the names of the list.
record IsSeen (s : Seen) : Type 0 where
  names : (n : String) → (lookup n s.0 ≡ some true) ↔ HasName n s.1
  distinct : HasDistinctNames s.1

add_param_new :
    (p : Param) (s : Seen)
    → lookup p.name s.0 ≢ some true
    → add_param p s ≡ (insert p.name true s.0, s.1 ++ p ∷ [])
unfolding add_param
add_param_new p s h = ground arith

add_param_old : (p : Param) (s : Seen) → lookup p.name s.0 ≡ some true → add_param p s ≡ s
unfolding add_param
add_param_old p s h = rw (h, add_param)

known-cases : (o : Option Bool) → (o ≡ some true) ⊎ (o ≢ some true)
known-cases none = inr (cc)
known-cases (some true) = inl refl
known-cases (some false) = inr (cc)

HasName-append :
    (n : String) (l : List Param) (p : Param)
    → HasName n (l ++ p ∷ []) ↔ (HasName n l ⊎ (p.name ≡ n))
HasName-append n l p = (
  λ a. elim (Any-append_cases (λ q. q.name ≡ n) l (p ∷ []) a) [
    | inl b ↦ inl b
    | inr (inl e) ↦ inr e
    | inr (inr b) ↦ absurd b
  ],
  elim [
    | inl a ↦ Any-append_left (λ q. q.name ≡ n) l (p ∷ []) a
    | inr e ↦ Any-append_right (λ q. q.name ≡ n) l (p ∷ []) (inl e)
  ],
)

lookup-insert_mark :
    (n k : String) (bm : List (String × Bool))
    → (lookup n (insert k true bm) ≡ some true) ↔ ((lookup n bm ≡ some true) ⊎ (k ≡ n))
lookup-insert_mark n k bm = rw (lookup-insert k n true bm) (ground (arith, eq_iff k n))

-- One step keeps the invariant, and adds the parameter's name and no other.
add_param-IsSeen : (p : Param) (s : Seen) → IsSeen s → IsSeen (add_param p s)
add_param-IsSeen p s h = elim (known-cases (lookup p.name s.0)) [
  | inl old ↦ rw (add_param_old p s old) h
  | inr new ↦ rw (add_param_new p s new) (record {
    names = λ n.
        let (to, from) = lookup-insert_mark n p.name s.0 in
        let (split, join) = HasName-append n s.1 p in
        let (there, back) = h.names n in
        (
          λ e. join (elim (to e) [ inl a ↦ inl (there a) | inr b ↦ inr b ]),
          λ a. from (elim (split a) [ inl b ↦ inl (back b) | inr b ↦ inr b ]),
        );
    distinct = HasDistinctNames-append s.1 p h.distinct (λ a. new ((h.names p.name).1 a));
  })
]

add_param-HasName :
    (n : String) (p : Param) (s : Seen)
    → IsSeen s
    → HasName n (add_param p s).1 ↔ (HasName n s.1 ⊎ (p.name ≡ n))
add_param-HasName n p s h = elim (known-cases (lookup p.name s.0)) [
  | inl old ↦
      rw (add_param_old p s old) (inl, elim [ inl a ↦ a | inr e ↦ (h.names n).0 (rw e at old) ])
  | inr new ↦ rw (add_param_new p s new) (HasName-append n s.1 p)
]

add_params-IsSeen : (ps : List Param) (s : Seen) → IsSeen s → IsSeen (add_params ps s)
unfolding add_params
add_params-IsSeen [] s h = h
add_params-IsSeen (p ∷ ps) s h = add_params-IsSeen ps (add_param p s) (add_param-IsSeen p s h)

⊎-regroup {ℓ κ κ'} : {A : Type ℓ} {B : Type κ} {C : Type κ'} → ((A ⊎ B) ⊎ C) ↔ (A ⊎ (B ⊎ C))
⊎-regroup = (
  elim [ inl (inl a) ↦ inl a | inl (inr b) ↦ inr (inl b) | inr c ↦ inr (inr c) ],
  elim [ inl a ↦ inl (inl a) | inr (inl b) ↦ inl (inr b) | inr (inr c) ↦ inr c ],
)

add_params-HasName :
    (n : String) (ps : List Param) (s : Seen)
    → IsSeen s
    → HasName n (add_params ps s).1 ↔ (HasName n s.1 ⊎ HasName n ps)
unfolding add_params
add_params-HasName n [] s h = (inl, elim [ inl a ↦ a | inr b ↦ absurd b ])
add_params-HasName n (p ∷ ps) s h =
    let (to, from) = add_params-HasName n ps (add_param p s) (add_param-IsSeen p s h) in
    let (split, join) = add_param-HasName n p s h in
    (
      λ a. ⊎-regroup.0 (elim (to a) [ inl b ↦ inl (split b) | inr b ↦ inr b ]),
      λ a. from (elim (⊎-regroup.1 a) [ inl b ↦ inl (join b) | inr b ↦ inr b ]),
    )

add_params-append :
    (xs ys : List Param) (s : Seen) → add_params (xs ++ ys) s ≡ add_params ys (add_params xs s)
unfolding add_params
add_params-append [] ys s = refl
add_params-append (x ∷ xs) ys s = add_params-append xs ys (add_param x s)

-- All the rules at once.
add_rules-eq-add_params :
    (rs : List Rule) (s : Seen) → add_rules rs s ≡ add_params (all_params rs) s
unfolding add_rules add_params
add_rules-eq-add_params [] s = refl
add_rules-eq-add_params (r ∷ rs) s =
    add_rules-eq-add_params rs (add_params (rule_params r) s)
    ∙ sym (add_params-append (rule_params r) (all_params rs) s)

IsSeen-empty : IsSeen ([], [])
unfolding lookup
IsSeen-empty = record { names = λ n. ((λ e. cc), (λ a. absurd a)); distinct = tt }

ruleset_params-eq-add_params :
    (rs : Ruleset) → ruleset_params rs ≡ (add_params (all_params rs.rules) ([], [])).1
unfolding ruleset_params
ruleset_params-eq-add_params rs = ap (λ s. s.1) (add_rules-eq-add_params rs.rules ([], []))

-- The parameters of a ruleset: no name comes twice, and a name is there exactly if some rule has a
-- parameter of that name.
pub ruleset_params_names :
    (rs : Ruleset)
    → HasDistinctNames (ruleset_params rs)
      × ((n : String) → HasName n (ruleset_params rs) ↔ HasName n (all_params rs.rules))
ruleset_params_names rs = rw (ruleset_params-eq-add_params rs) (
  (add_params-IsSeen (all_params rs.rules) ([], []) IsSeen-empty).distinct,
  λ n.
      let (to, from) = add_params-HasName n (all_params rs.rules) ([], []) IsSeen-empty in
      (λ a. elim (to a) [ inl b ↦ absurd b | inr b ↦ b ], λ a. from (inr a)),
)

-- What holds of each name of one list holds of each parameter of the other.
All-names :
    (P : String → Type 0) (ps qs : List Param)
    → ((n : String) → HasName n qs → HasName n ps)
    → All (λ p. P p.name) ps
    → All (λ q. P q.name) qs
All-names P ps qs sub h = go qs sub
  where
    at_name : (n : String) (l : List Param) → HasName n l → All (λ p. P p.name) l → P n
    at_name n [] a k = absurd a
    at_name n (p ∷ l) (inl e) k = subst P e k.0
    at_name n (p ∷ l) (inr a) k = at_name n l a k.1

    go : (l : List Param) → ((n : String) → HasName n l → HasName n ps) → All (λ q. P q.name) l
    go [] f = tt
    go (q ∷ l) f = (at_name q.name ps (f q.name (inl refl)) h, go l (λ n a. f n (inr a)))

module _ (fl : Floats) (ps qs : Option (Params fl)) where
  eval_rules-same :
      (rs : List Rule)
      → All (SameAt fl ps qs) (all_params rs)
      → eval_rules fl ps rs ≡ eval_rules fl qs rs
  unfolding eval_rules
  eval_rules-same [] h = refl
  eval_rules-same (r ∷ rs) h =
      ap₂ first_outcome
        (eval_rule-same fl ps qs r
          (All-append_left (SameAt fl ps qs) (rule_params r) (all_params rs) h))
        (eval_rules-same rs (All-append_right (SameAt fl ps qs) (rule_params r) (all_params rs) h))

  -- One outcome where each parameter of each rule evaluates alike.
  pub eval_ruleset-same :
      (rs : Ruleset)
      → All (SameAt fl ps qs) (all_params rs.rules)
      → eval_ruleset fl ps rs ≡ eval_ruleset fl qs rs
  unfolding eval_ruleset
  eval_ruleset-same rs h = eval_rules-same rs.rules h

-- An evaluation depends on nothing but what the getters answer under the names that the method
-- Params lists: two implementations of rule.Params that agree there give one outcome.
pub eval_ruleset_local :
    (fl : Floats) (ps qs : Params fl) (rs : Ruleset)
    → All (λ p. AgreeAt fl ps qs p.name) (ruleset_params rs)
    → eval_ruleset fl (some ps) rs ≡ eval_ruleset fl (some qs) rs
eval_ruleset_local fl ps qs rs h = eval_ruleset-same fl (some ps) (some qs) rs (
    All-map (AgreeAt-SameAt fl ps qs) (all_params rs.rules) (
      All-names (AgreeAt fl ps qs) (ruleset_params rs) (all_params rs.rules)
        (λ n. ((ruleset_params_names rs).1 n).1) h))
