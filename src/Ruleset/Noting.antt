-- ===== src/Ruleset/Noting.antt =====
-- The types of parameters in `validate` of ruleset.go: the map that its inner loop builds.
use regula.Prelude.{
  String, none, some, List, [], ◌∷◌, ◌++◌, lookup, insert, lookup-insert, ◌≡◌, refl, subst, ◌↔◌,
  inl, inr, arith, eq_iff, All, All-map, All-map₂, Option-cases,
}
use regula.Outcome.{ok, ◌>>=◌, >>=-eq-ok, >>=-regroup}
use regula.Rule.Expr.{Param}
use regula.Ruleset.{ParamTypes, note_param, note_params}

-- No two parameters of the list have one name and two types.
abbrev pub OneType : List Param → Type 0
OneType [] = Unit
OneType (p ∷ ps) = All (λ q. p.name ≡ q.name → p.type ≡ q.type) ps × OneType ps

-- A parameter has the type that the map holds under its name, if it holds one.
abbrev pub Fits : ParamTypes → Param → Type 0
Fits m p = (t : String) → lookup p.name m ≡ some t → t ≡ p.type

pub Fits-nil : (p : Param) → Fits [] p
unfolding lookup
Fits-nil p t h = cc

module _ (p : Param) (m : ParamTypes) (fresh : lookup p.name m ≡ none) where
  Fits-insert :
      (q : Param) → Fits m q → (p.name ≡ q.name → p.type ≡ q.type) → Fits (insert p.name p.type m) q
  Fits-insert q f e t h =
      ground (arith, lookup-insert p.name q.name p.type m, eq_iff p.name q.name, f t)

  Fits-insert_old : (q : Param) → Fits (insert p.name p.type m) q → Fits m q
  Fits-insert_old q f t h =
      ground (arith, lookup-insert p.name q.name p.type m, eq_iff p.name q.name, f t)

  Fits-insert_name :
      (q : Param) → Fits (insert p.name p.type m) q → p.name ≡ q.name → p.type ≡ q.type
  Fits-insert_name q f e =
      f p.type (ground (arith, lookup-insert p.name q.name p.type m, eq_iff p.name q.name))

note_param_fresh :
    (p : Param) (m : ParamTypes)
    → lookup p.name m ≡ none
    → note_param (lookup p.name m) p m ≡ ok (insert p.name p.type m)
unfolding note_param
note_param_fresh p m h = rw h

note_param_same :
    (p : Param) (m : ParamTypes) (tp : String)
    → lookup p.name m ≡ some tp
    → tp ≡ p.type
    → note_param (lookup p.name m) p m ≡ ok m
unfolding note_param
note_param_same p m tp h e = rw h (ground (arith, eq_iff p.type tp))

note_param_found :
    (p : Param) (m m' : ParamTypes) (tp : String)
    → lookup p.name m ≡ some tp
    → note_param (lookup p.name m) p m ≡ ok m'
    → (tp ≡ p.type) × (m' ≡ m)
unfolding note_param
note_param_found p m m' tp h e =
    let e' = rw h at e in (ground (arith, eq_iff p.type tp), ground (arith, eq_iff p.type tp))

-- One type for each name, in the list and in the map.
abbrev pub IsConsistent : List Param → ParamTypes → Type 0
IsConsistent ps m = All (Fits m) ps × OneType ps

IsConsistent-fresh :
    (p : Param) (ps : List Param) (m : ParamTypes)
    → lookup p.name m ≡ none
    → IsConsistent ps (insert p.name p.type m) ↔ IsConsistent (p ∷ ps) m
IsConsistent-fresh p ps m h = (
  λ (fit, one). (
    (λ t e. cc, All-map (Fits-insert_old p m h) ps fit),
    (All-map (Fits-insert_name p m h) ps fit, one),
  ),
  λ (fit, one). (All-map₂ (Fits-insert p m h) ps fit.1 one.0, one.1),
)

IsConsistent-found :
    (p : Param) (ps : List Param) (m : ParamTypes)
    → lookup p.name m ≡ some p.type
    → IsConsistent ps m
    → IsConsistent (p ∷ ps) m
IsConsistent-found p ps m h (fit, one) = (
  (λ t e. cc, fit),
  (All-map (λ q f e. f p.type (subst (λ n. lookup n m ≡ some p.type) e h)) ps fit, one),
)

pub note_params_sound :
    (ps : List Param) (m m' : ParamTypes) → note_params ps m ≡ ok m' → IsConsistent ps m
unfolding note_params
note_params_sound [] m m' h = (tt, tt)
note_params_sound (p ∷ ps) m m' h =
    let (m₁, noted, rest) = >>=-eq-ok (note_param (lookup p.name m) p m) (note_params ps) h in
    let ih = note_params_sound ps m₁ m' rest in
    elim (Option-cases (lookup p.name m)) [
      | inl fresh ↦
          let e : m₁ ≡ insert p.name p.type m = cc (note_param_fresh p m fresh) in
          (IsConsistent-fresh p ps m fresh).0 (rw e at ih)
      | inr (tp, found) ↦
          let (same, e) = note_param_found p m m₁ tp found noted in
          IsConsistent-found p ps m (rw same at found) (rw e at ih)
    ]

pub note_params_complete :
    (ps : List Param) (m : ParamTypes)
    → IsConsistent ps m
    → (m' : ParamTypes) × (note_params ps m ≡ ok m')
unfolding note_params
note_params_complete [] m h = (m, refl)
note_params_complete (p ∷ ps) m h = elim (Option-cases (lookup p.name m)) [
  | inl fresh ↦
      let (m', e) =
        note_params_complete ps (insert p.name p.type m) ((IsConsistent-fresh p ps m fresh).1 h) in
      (m', rw (note_param_fresh p m fresh) e)
  | inr (tp, found) ↦
      let (m', e) = note_params_complete ps m (h.0.1, h.1.1) in
      (m', rw (note_param_same p m tp found (h.0.0 tp found)) e)
]

pub note_params-append :
    (xs ys : List Param) (m : ParamTypes)
    → note_params (xs ++ ys) m ≡ (note_params xs m >>= note_params ys)
unfolding note_params
note_params-append [] ys m = refl
note_params-append (x ∷ xs) ys m =
    >>=-regroup (note_param (lookup x.name m) x m) (note_params (xs ++ ys)) (note_params xs)
      (note_params ys) (note_params-append xs ys)
