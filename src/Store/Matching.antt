-- ===== src/Store/Matching.antt =====
-- Which rulesets match the signature of an earlier version: matchWith and newSignature of
-- store/etcd/rulesets.go.
use regula.Prelude.{
  String, false, Option, none, some, List, [], ◌∷◌, ◌++◌, ◌==◌, lookup, insert, lookup-cons,
  lookup-insert, ◌≡◌, ◌≢◌, refl, sym, ap, ◌∙◌, ◌↔◌, ◌⊎◌, inl, inr, arith, eq_iff, append_assoc,
  append-nil, All-intro, All, All-map, All-map₂, Any, Bool-cases,
}
use regula.Outcome.{Result, ok, err, validation_error}
use regula.Rule.Expr.{Param}
use regula.Ruleset.{Ruleset, ParamTypes, ruleset_params}
use regula.Ruleset.Locality.{HasDistinctNames, ruleset_params_names}
use regula.Store.{note_types, new_signature, match_param, match_params, match_with}

-- Some parameter of the list has this name and this type.
abbrev pub HasParam : String → String → List Param → Type 0
HasParam n t = Any (λ q. (q.name ≡ n) × (q.type ≡ t))

-- The later ruleset returns the same type, and takes no parameter that the earlier one does not
-- take with the same type.
abbrev pub IsCompatible : Ruleset → Ruleset → Type 0
IsCompatible old new =
    (old.type ≡ new.type)
    × All (λ p. HasParam p.name p.type (ruleset_params old)) (ruleset_params new)

-- An error of the type ValidationError.
abbrev pub IsInvalid : {A : Type 0} → Result A → Type 0
IsInvalid r =
    (field : String) × (content : String) × (reason : String) × (r
      ≡ err (validation_error field content reason))

abbrev pub pairs : List Param → ParamTypes
pairs [] = []
pairs (p ∷ ps) = (p.name, p.type) ∷ pairs ps

insert-fresh : (n t : String) (m : ParamTypes) → lookup n m ≡ none → insert n t m ≡ m ++ (n, t) ∷ []
unfolding lookup insert
insert-fresh n t [] h = refl
insert-fresh n t ((k, u) ∷ m) h = ground (arith, insert-fresh n t m)

still_fresh :
    (p : Param) (m : ParamTypes) (q : Param)
    → q.name ≢ p.name
    → lookup q.name m ≡ none
    → lookup q.name (insert p.name p.type m) ≡ none
still_fresh p m q ne h = ground (arith, lookup-insert p.name q.name p.type m, eq_iff p.name q.name)

note_types-pairs :
    (ps : List Param) (m : ParamTypes)
    → HasDistinctNames ps
    → All (λ p. lookup p.name m ≡ none) ps
    → note_types ps m ≡ m ++ pairs ps
unfolding note_types
note_types-pairs [] m _ _ = sym (append-nil m)
note_types-pairs (p ∷ ps) m (ne, ds) (h, hs) =
    note_types-pairs ps (insert p.name p.type m) ds (All-map₂ (still_fresh p m) ps ne hs)
    ∙ ap (λ l. l ++ pairs ps) (insert-fresh p.name p.type m h)
    ∙ append_assoc m ((p.name, p.type) ∷ []) (pairs ps)

-- The map of a new signature holds the ruleset's parameters, in their order.
pub new_signature-pairs :
    (rs : Ruleset) → (new_signature rs).param_types ≡ pairs (ruleset_params rs)
unfolding new_signature lookup
new_signature-pairs rs =
    note_types-pairs (ruleset_params rs) [] (ruleset_params_names rs).0
      (All-intro (λ p. lookup p.name [] ≡ none) (λ p. refl) (ruleset_params rs))

HasParam-lookup : (n t : String) (ps : List Param) → lookup n (pairs ps) ≡ some t → HasParam n t ps
unfolding lookup
HasParam-lookup n t [] h = cc
HasParam-lookup n t (p ∷ ps) h = elim (Bool-cases (p.name == n)) [
  | inl same ↦
      let held : some p.type ≡ some t = rw (lookup-cons n p.name p.type (pairs ps), same) at h in
      inl ((eq_iff p.name n).0 same, cc)
  | inr other ↦
      inr (HasParam-lookup n t ps (rw (lookup-cons n p.name p.type (pairs ps), other) at h))
]

-- A name that the others do not have is not found among them.
HasParam-fresh :
    (n t : String) (k : String) (ps : List Param)
    → All (λ q. q.name ≢ k) ps
    → HasParam n t ps
    → k ≢ n
HasParam-fresh n t k (p ∷ ps) (ne, nes) (inl (same, _)) e = ne (same ∙ sym e)
HasParam-fresh n t k (p ∷ ps) (ne, nes) (inr a) e = HasParam-fresh n t k ps nes a e
HasParam-fresh n t k [] _ a e = absurd a

lookup-HasParam :
    (n t : String) (ps : List Param)
    → HasDistinctNames ps
    → HasParam n t ps
    → lookup n (pairs ps) ≡ some t
lookup-HasParam n t [] _ a = absurd a
lookup-HasParam n t (p ∷ ps) (ne, ds) (inl (same, typed)) =
    rw (lookup-cons n p.name p.type (pairs ps), (eq_iff p.name n).1 same) (ap some typed)
lookup-HasParam n t (p ∷ ps) (ne, ds) (inr a) = elim (Bool-cases (p.name == n)) [
  | inl same ↦ absurd (HasParam-fresh n t p.name ps ne a ((eq_iff p.name n).0 same))
  | inr other ↦ rw (lookup-cons n p.name p.type (pairs ps), other) (lookup-HasParam n t ps ds a)
]

-- The loop accepts exactly the lists whose pairs the map holds, and fails with a ValidationError.
match_param-decides :
    (o : Option String) (n t : String)
    → ((o ≡ some t) × (match_param o n t ≡ ok tt)) ⊎ ((o ≢ some t) × IsInvalid (match_param o n t))
unfolding match_param
match_param-decides none n t = inr ((cc), (_, _, _, refl))
match_param-decides (some stp) n t = elim (Bool-cases (t == stp)) [
  | inl same ↦ inl (ap some (sym ((eq_iff t stp).0 same)), rw same)
  | inr other ↦ inr ((λ e. cc (other, (eq_iff t stp).1 (cc))), rw other (_, _, _, refl))
]

match_params-decides :
    (own : ParamTypes) (ps : List Param)
    → (All (λ p. lookup p.name own ≡ some p.type) ps × (match_params own (pairs ps) ≡ ok tt))
      ⊎ ((¬ All (λ p. lookup p.name own ≡ some p.type) ps)
          × IsInvalid (match_params own (pairs ps)))
unfolding match_params
match_params-decides own [] = inl (tt, refl)
match_params-decides own (p ∷ ps) = elim (match_param-decides (lookup p.name own) p.name p.type) [
  | inl (held, e) ↦ elim (match_params-decides own ps) [
    | inl (rest, e') ↦ inl ((held, rest), rw e e')
    | inr (others, invalid) ↦ inr ((λ (_, rest). others rest), rw e invalid)
  ]
  | inr (differs, (f, c, r, e)) ↦ inr ((λ (held, _). differs held), (f, c, r, rw e))
]

compatible_iff :
    (old : Ruleset) (ps : List Param)
    → All (λ p. lookup p.name (new_signature old).param_types ≡ some p.type) ps
      ↔ All (λ p. HasParam p.name p.type (ruleset_params old)) ps
compatible_iff old ps = rw (new_signature-pairs old) (
  All-map (λ p. HasParam-lookup p.name p.type (ruleset_params old)) ps,
  All-map (λ p. lookup-HasParam p.name p.type (ruleset_params old) (ruleset_params_names old).0) ps,
)

match_params_of :
    (old new : Ruleset)
    → new.type ≡ old.type
    → match_with (new_signature old) (new_signature new)
      ≡ match_params (new_signature old).param_types (pairs (ruleset_params new))
unfolding match_with
match_params_of old new e = rw (
  new_signature-pairs new,
  (eq_iff (new_signature old).return_type (new_signature new).return_type).1
      (unfold new_signature in sym e),
)

match_with-mismatch :
    (old new : Ruleset)
    → (old.type == new.type) ≡ false
    → IsInvalid (match_with (new_signature old) (new_signature new))
unfolding match_with new_signature
match_with-mismatch old new other = rw other (_, _, _, refl)

-- A ruleset matches the signature of an earlier one exactly when it returns the same type and each
-- of its parameters is, by name and type, a parameter of the earlier one; otherwise the outcome is
-- a ValidationError.
pub match_with_decides :
    (old new : Ruleset)
    → (IsCompatible old new × (match_with (new_signature old) (new_signature new) ≡ ok tt))
      ⊎ ((¬ IsCompatible old new) × IsInvalid (match_with (new_signature old) (new_signature new)))
match_with_decides old new = elim (Bool-cases (old.type == new.type)) [
  | inl same ↦
      let e = (eq_iff old.type new.type).0 same in
      rw (match_params_of old new (sym e))
        (elim (match_params-decides (new_signature old).param_types (ruleset_params new)) [
          | inl (held, done) ↦ inl ((e, (compatible_iff old (ruleset_params new)).0 held), done)
          | inr (differs, invalid) ↦
              inr ((λ (_, h). differs ((compatible_iff old (ruleset_params new)).1 h)), invalid)
        ])
  | inr other ↦
      inr
        ((λ (e, _). cc (other, (eq_iff old.type new.type).1 e)), match_with-mismatch old new other)
]
