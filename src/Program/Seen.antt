-- ===== src/Program/Seen.antt =====
-- What a client sees of an evaluation that the server answers.
use regula.Prelude.{ℕ, String, Option, none, some, ◌≡◌, refl}
use regula.Outcome.{Error, Result, ok, err, panic, engine_error, EngineError, rule_error, RuleError}
use regula.Engine.{EvalResult}
use regula.Api.RoundTrip.{result_json-roundtrip}
use regula.Api.Unmarshal.{WireResult, zero_result, unmarshal_result}
use regula.Server.{answer_eval, eval_error, status_code, body_document}
use regula.Client.{ClientError, api_error, net_error}
use regula.Client.Sending.{at_end, decoded, no_reply, Reply, reply, do_request}
use regula.Client.Calls.{or_nothing}
use regula.Program.{reply_of}

-- The status that an evaluation's error is answered with.
abbrev pub eval_status : Error → ℕ
eval_status (engine_error EngineError.ruleset_not_found) = 404
eval_status (rule_error RuleError.param_not_found) = 400
eval_status (rule_error RuleError.param_type_mismatch) = 400
eval_status (rule_error RuleError.no_match) = 400
eval_status e = 500

-- What a client sees of an evaluation.
abbrev pub seen : Result EvalResult → Option WireResult × Option ClientError
seen (ok res) = (some (record { value = some res.value; version = res.version }), none)
seen (err e) = (none, some (api_error (eval_status e)))
seen panic = (none, some net_error)

module _ (quote : String → String) where
  reply_of-error :
      (path : String) (e : Error)
      → reply_of quote unmarshal_result (ok (eval_error path e)) ≡ ok (reply (eval_status e) at_end)
  unfolding eval_error status_code
  reply_of-error path (engine_error EngineError.ruleset_not_found) = refl
  reply_of-error path (rule_error RuleError.param_not_found) = refl
  reply_of-error path (rule_error RuleError.param_type_mismatch) = refl
  reply_of-error path (rule_error RuleError.no_match) = refl
  reply_of-error path _ = refl

  do_request-error :
      (e : Error)
      → or_nothing (do_request zero_result (reply (eval_status e) at_end))
        ≡ (none, some (api_error (eval_status e)))
  unfolding do_request or_nothing
  do_request-error (engine_error EngineError.ruleset_not_found) = refl
  do_request-error (rule_error RuleError.param_not_found) = refl
  do_request-error (rule_error RuleError.param_type_mismatch) = refl
  do_request-error (rule_error RuleError.no_match) = refl
  do_request-error _ = refl

  -- The reply to an evaluation, and what the client makes of it.
  pub answered :
      (path : String) (out : Result EvalResult)
      → (x : Reply WireResult) × (reply_of quote unmarshal_result (answer_eval path out) ≡ ok x)
        × (or_nothing (do_request zero_result x) ≡ seen out)
  unfolding answer_eval do_request or_nothing body_document status_code
  answered path (ok res) = (reply 200 (decoded _), rw (result_json-roundtrip res) refl, refl)
  answered path (err e) = (reply (eval_status e) at_end, reply_of-error path e, do_request-error e)
  answered path panic = (no_reply net_error, refl, refl)
