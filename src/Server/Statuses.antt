-- ===== src/Server/Statuses.antt =====
-- The statuses that api/server answers with, and what a request changes.
use regula.Prelude.{
  String, Option, none, some, ◌≡◌, refl, ◌↔◌, ◌⊎◌, inl, inr, if◌then◌else◌, Bool-cases,
}
use regula.Outcome.{
  Error, Result, ok, err, panic, store_error, StoreError, engine_error, EngineError, rule_error,
  RuleError, deadline_exceeded,
}
use regula.Engine.{EvalResult}
use regula.Store.{RulesetEntry, RulesetEntries, RulesetEvents, is_validation_error}
use regula.Server.{
  Response, error_body, result_body, write_error, err_internal, Status, internal_server_error,
  status_ok, bad_request, status_not_found, answer_list, answer_eval, answer_watch, answer_put,
  eval_error,
}

-- A response with this status.
abbrev pub HasStatus : Status → Result Response → Type 0
HasStatus n (ok r) = r.status ≡ n
HasStatus n _ = ⊥

-- A response with the status 500 shows the text of the internal error and nothing else.
abbrev pub IsHidden : Result Response → Type 0
IsHidden (ok r) = r.status ≡ internal_server_error → r.body ≡ error_body err_internal
IsHidden _ = Unit

pub write_error-IsHidden : (e : Error) (code : Status) → IsHidden (ok (write_error e code))
unfolding write_error
write_error-IsHidden e internal_server_error h = refl
write_error-IsHidden e status_ok h = cc
write_error-IsHidden e bad_request h = cc
write_error-IsHidden e status_not_found h = cc

pub answer_list-IsHidden : (out : Result RulesetEntries) → IsHidden (answer_list out)
unfolding answer_list write_error
answer_list-IsHidden (ok entries) = λ h. cc
answer_list-IsHidden (err (store_error StoreError.not_found)) = λ h. cc
answer_list-IsHidden (err (store_error StoreError.invalid_continue_token)) = λ h. cc
answer_list-IsHidden (err e) = λ h. cc
answer_list-IsHidden panic = tt

eval_error-IsHidden : (path : String) (e : Error) → IsHidden (ok (eval_error path e))
unfolding eval_error write_error
eval_error-IsHidden path (engine_error EngineError.ruleset_not_found) h = cc
eval_error-IsHidden path (rule_error RuleError.param_not_found) h = cc
eval_error-IsHidden path (rule_error RuleError.param_type_mismatch) h = cc
eval_error-IsHidden path (rule_error RuleError.no_match) h = cc
eval_error-IsHidden path _ h = cc

pub answer_eval-IsHidden :
    (path : String) (out : Result EvalResult) → IsHidden (answer_eval path out)
unfolding answer_eval
answer_eval-IsHidden path (ok res) = λ h. cc
answer_eval-IsHidden path (err e) = eval_error-IsHidden path e
answer_eval-IsHidden path panic = tt

pub answer_watch-IsHidden : (out : Result RulesetEvents) → IsHidden (answer_watch out)
unfolding answer_watch write_error
answer_watch-IsHidden (ok es) = λ h. cc
answer_watch-IsHidden (err deadline_exceeded) = λ h. cc
answer_watch-IsHidden (err (store_error StoreError.not_found)) = λ h. cc
answer_watch-IsHidden (err _) = λ h. cc
answer_watch-IsHidden panic = tt

put_error-IsHidden :
    (e : Error)
    → IsHidden (
        ok (
          if is_validation_error e
          then write_error e bad_request
          else write_error e internal_server_error))
put_error-IsHidden e = elim (Bool-cases (is_validation_error e)) [
  | inl b ↦ rw b (write_error-IsHidden e bad_request)
  | inr b ↦ rw b (write_error-IsHidden e internal_server_error)
]

pub answer_put-IsHidden :
    (out : Option RulesetEntry × Option Error) → IsHidden (ok (answer_put out))
unfolding answer_put
answer_put-IsHidden (entry, none) = λ h. cc
answer_put-IsHidden (entry, some (store_error StoreError.not_modified)) = λ h. cc
answer_put-IsHidden (entry, some e) = put_error-IsHidden e

-- The answers to the tests of a result by `eval`.
pub record IsEvalAnswer (out : Result EvalResult) (resp : Result Response) : Type 0 where
  pub on_result :
      (res : EvalResult)
      → (resp ≡ ok (record { status = status_ok; body = result_body res })) ↔ (out ≡ ok res)
  pub on_missing :
      HasStatus status_not_found resp ↔ (out ≡ err (engine_error EngineError.ruleset_not_found))
  pub on_refused : HasStatus bad_request resp ↔ (
      (out ≡ err (rule_error RuleError.param_not_found))
      ⊎ (out ≡ err (rule_error RuleError.param_type_mismatch))
      ⊎ (out ≡ err (rule_error RuleError.no_match)))

eval_error-IsEvalAnswer :
    (path : String) (e : Error) → IsEvalAnswer (err e) (ok (eval_error path e))
unfolding eval_error write_error
eval_error-IsEvalAnswer path (engine_error EngineError.ruleset_not_found) = record {
  on_result = λ res. (λ h. cc, λ h. cc);
  on_missing = (λ h. refl, λ h. refl);
  on_refused = (λ h. cc, elim [ inl a ↦ cc | inr (inl a) ↦ cc | inr (inr a) ↦ cc ]);
}
eval_error-IsEvalAnswer path (rule_error RuleError.param_not_found) = record {
  on_result = λ res. (λ h. cc, λ h. cc);
  on_missing = (λ h. cc, λ h. cc);
  on_refused = (λ h. inl refl, λ h. refl);
}
eval_error-IsEvalAnswer path (rule_error RuleError.param_type_mismatch) = record {
  on_result = λ res. (λ h. cc, λ h. cc);
  on_missing = (λ h. cc, λ h. cc);
  on_refused = (λ h. inr (inl refl), λ h. refl);
}
eval_error-IsEvalAnswer path (rule_error RuleError.no_match) = record {
  on_result = λ res. (λ h. cc, λ h. cc);
  on_missing = (λ h. cc, λ h. cc);
  on_refused = (λ h. inr (inr refl), λ h. refl);
}
eval_error-IsEvalAnswer path _ = record {
  on_result = λ res. (λ h. cc, λ h. cc);
  on_missing = (λ h. cc, λ h. cc);
  on_refused = (λ h. cc, elim [ inl a ↦ cc | inr (inl a) ↦ cc | inr (inr a) ↦ cc ]);
}

pub answer_eval-IsEvalAnswer :
    (path : String) (out : Result EvalResult) → IsEvalAnswer out (answer_eval path out)
unfolding answer_eval
answer_eval-IsEvalAnswer path (ok out) = record {
  on_result = λ res. (λ h. cc, λ h. cc);
  on_missing = (λ h. cc, λ h. cc);
  on_refused = (λ h. cc, elim [ inl a ↦ cc | inr (inl a) ↦ cc | inr (inr a) ↦ cc ]);
}
answer_eval-IsEvalAnswer path (err e) = eval_error-IsEvalAnswer path e
answer_eval-IsEvalAnswer path panic = record {
  on_result = λ res. (λ h. cc, λ h. cc);
  on_missing = (absurd, λ h. cc);
  on_refused = (absurd, elim [ inl a ↦ cc | inr (inl a) ↦ cc | inr (inr a) ↦ cc ]);
}
