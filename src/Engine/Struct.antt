-- ===== src/Engine/Struct.antt =====
-- LoadStruct of engine.go. The loader of confita, which finds the tagged fields of the struct and
-- stores what its backend answers, is a parameter; a struct is of any type.
use regula.Prelude.{String, Option, ◌≡◌, refl, ap, ◌∙◌, ◌↔◌}
use regula.Outcome.{Error, Result, ok, err, panic, engine_error, EngineError}
use regula.Floats.{Floats}
use regula.Rule.Eval.{Params}
use regula.Engine.{EvalResult, Evaluator}

-- What a backend answers for a key: its data, backend.ErrNotFound, or another error.
pub data Answer : Type 0 where
  found : String → Answer
  missing : Answer
  failed : Error → Answer
  crashed : Answer

unfoldable pub answer_of : Result EvalResult → Answer
answer_of (ok res) = found res.value.content
answer_of (err (engine_error EngineError.ruleset_not_found)) = missing
answer_of (err e) = failed e
answer_of panic = crashed

module _ {fl : Floats} (e : Evaluator fl) where
  unfoldable pub backend : Option (Params fl) → String → Answer
  unfolding answer_of
  backend ps path = answer_of (e.eval path ps)

  unfoldable pub load_struct :
      {T : Type 0} → ((String → Answer) → T → Result T) → T → Option (Params fl) → Result T
  unfolding backend
  load_struct load to ps = load (backend ps) to

abbrev pub IsAnswer : Result EvalResult → Answer → Type 0
IsAnswer out a =
    ((s : String) → (a ≡ found s) ↔ ((res : EvalResult) × (out ≡ ok res) × (res.value.content ≡ s)))
    × ((a ≡ missing) ↔ (out ≡ err (engine_error EngineError.ruleset_not_found)))

err_not_ok : {x : Error} (r : EvalResult) → err x ≡ ok r → ⊥
err_not_ok r h = cc

panic_not_ok : (r : EvalResult) → panic ≡ ok r → ⊥
panic_not_ok r h = cc

-- A field's data are the text of the value that its path evaluates to, of whatever type; only a
-- path without a ruleset is missing, so a ruleset without a matching rule is an error.
pub backend-IsAnswer :
    {fl : Floats} (e : Evaluator fl) (ps : Option (Params fl)) (path : String)
    → IsAnswer (e.eval path ps) (backend e ps path)
unfolding backend
backend-IsAnswer e ps path = go (e.eval path ps)
  where
    go : (out : Result EvalResult) → IsAnswer out (answer_of out)
    go (ok res) = (λ s. (λ h. (res, refl, text h), λ t. same t.0 t.1 t.2), (λ h. cc, λ h. cc))
      where
        text : {s : String} → found res.value.content ≡ found s → res.value.content ≡ s
        text h = cc

        same :
            {s : String} (x : EvalResult)
            → ok res ≡ ok x
            → x.value.content ≡ s
            → found res.value.content ≡ found s
        same x h e = let eq : res ≡ x = cc in ap (λ r. found r.value.content) eq ∙ ap found e
    go (err (engine_error EngineError.ruleset_not_found)) =
        (λ s. (λ h. cc, λ t. absurd (err_not_ok t.0 t.1)), (λ h. refl, λ h. refl))
    go (err x) = (λ s. (λ h. cc, λ t. absurd (err_not_ok t.0 t.1)), (λ h. cc, λ h. cc))
    go panic = (λ s. (λ h. cc, λ t. absurd (panic_not_ok t.0 t.1)), (λ h. cc, λ h. cc))
