-- ===== src/Server.antt =====
-- api/server/api.go: the requests under /rulesets/, and writeError of api/server/handler.go.
--
-- A request's query maps each key to its first value. A body is decoded by `decode`, which stands
-- for encoding/json on a ruleset. A response is its status and what is encoded as JSON in its
-- body; timeouts are the service's answers, and logging is left out.
pub mod Statuses
pub mod Requests
pub mod Remote
pub mod Listed
pub mod Watched
pub mod Setup
pub mod Running
use regula.Prelude.{
  ℕ, ℤ, pos, String, Bool, true, false, ◌&&◌, ◌||◌, not, Option, none, some, List, [], ◌∷◌,
  if◌then◌else◌, ◌==◌, lookup, trim_prefix,
}
use Prim.Native.String
use regula.Outcome.{
  Error, Result, ok, err, panic, message, store_error, StoreError, engine_error, EngineError,
  rule_error, RuleError, deadline_exceeded, ◌>>=◌,
}
use regula.Json.{Json, null, Bytes}
use regula.Strconv.{parse_int, checked}
use regula.Floats.{Floats}
use regula.Rule.Eval.{Params}
use regula.Ruleset.{Ruleset}
use regula.Params.{query_params}
use regula.Engine.{EvalResult}
use regula.Api.{Events, error_json, result_json, rulesets_json, api_ruleset_json, events_json}
use regula.Store.{
  RulesetEntry, RulesetEntries, RulesetEvent, RulesetEvents, RulesetService, is_validation_error,
}

pub record Request : Type 0 where
  pub method : String
  pub path : String
  pub query : List (String × String)
  pub body : Bytes

pub data Body : Type 0 where
  no_body : Body
  error_body : Error → Body
  result_body : EvalResult → Body
  rulesets_body : RulesetEntries → Body
  ruleset_body : Option RulesetEntry → Body
  events_body : Events → Body

-- The statuses of net/http that the code names: StatusOK, StatusBadRequest, StatusNotFound and
-- StatusInternalServerError.
pub data Status : Type 0 where
  status_ok bad_request status_not_found internal_server_error : Status

pub record Response : Type 0 where
  pub status : Status
  pub body : Body

abbrev pub err_internal : Error
err_internal = message "internal_error"

-- The error of a response with the status 500 is hidden.
unfoldable pub write_error : Error → Status → Response
write_error e internal_server_error = record {
  status = internal_server_error;
  body = error_body err_internal;
}
write_error e code = record { status = code; body = error_body e }

unfoldable pub status_code : Status → ℕ
status_code status_ok = 200
status_code bad_request = 400
status_code status_not_found = 404
status_code internal_server_error = 500

-- What `encodeJSON` writes, where `quote` is strconv.Quote. Where only a header is written there is
-- no document, and a nil entry is encoded as null.
unfoldable pub body_document : (String → String) → Body → Option Json
unfolding error_json result_json rulesets_json api_ruleset_json events_json
body_document quote no_body = none
body_document quote (error_body e) = some (error_json quote e)
body_document quote (result_body res) = some (result_json res)
body_document quote (rulesets_body rl) = some (rulesets_json rl)
body_document quote (ruleset_body none) = some null
body_document quote (ruleset_body (some re)) = some (api_ruleset_json re)
body_document quote (events_body ae) = some (events_json ae)

unfoldable pub has_key : String → List (String × String) → Bool
has_key k q = elim (lookup k q) [ some _ ↦ true | none ↦ false ]

-- `Query().Get(k)`.
unfoldable pub value_of : String → List (String × String) → String
value_of k q = elim (lookup k q) [ some s ↦ s | none ↦ "" ]

-- What `list` answers for the outcome of the service.
unfoldable pub answer_list : Result RulesetEntries → Result Response
unfolding write_error
answer_list (ok entries) = ok (record { status = status_ok; body = rulesets_body entries })
answer_list (err (store_error StoreError.not_found)) =
    ok (write_error (store_error StoreError.not_found) status_not_found)
answer_list (err (store_error StoreError.invalid_continue_token)) =
    ok (write_error (store_error StoreError.invalid_continue_token) bad_request)
answer_list (err e) = ok (write_error e internal_server_error)
answer_list panic = panic

-- An absent limit is 0; a text that does not parse is an error.
unfoldable pub limit_of : String → Result ℤ
limit_of l = if l == "" then ok (pos 0) else checked (parse_int l)

-- The error of `eval`, in the order of its tests.
unfoldable pub eval_error : String → Error → Response
unfolding write_error
eval_error path (engine_error EngineError.ruleset_not_found) =
    write_error (message (String.◌++◌ "the path '" (String.◌++◌ path "' doesn't exist")))
      status_not_found
eval_error path (rule_error RuleError.param_not_found) =
    write_error (rule_error RuleError.param_not_found) bad_request
eval_error path (rule_error RuleError.param_type_mismatch) =
    write_error (rule_error RuleError.param_type_mismatch) bad_request
eval_error path (rule_error RuleError.no_match) =
    write_error (rule_error RuleError.no_match) bad_request
eval_error path e = write_error e internal_server_error

unfoldable pub answer_eval : String → Result EvalResult → Result Response
unfolding eval_error
answer_eval path (ok res) = ok (record { status = status_ok; body = result_body res })
answer_eval path (err e) = ok (eval_error path e)
answer_eval path panic = panic

unfoldable pub answer_watch : Result RulesetEvents → Result Response
unfolding write_error
answer_watch (ok es) = ok (record {
  status = status_ok;
  body = events_body (record { events = es.events; revision = es.revision; timeout = false });
})
answer_watch (err deadline_exceeded) = ok (record {
  status = status_ok;
  body = events_body (record { events = []; revision = ""; timeout = true });
})
answer_watch (err (store_error StoreError.not_found)) =
    ok (record { status = status_not_found; body = no_body })
answer_watch (err e) = ok (write_error e internal_server_error)
answer_watch panic = panic

-- What `put` answers for the service's entry and error.
unfoldable pub answer_put : Option RulesetEntry × Option Error → Response
unfolding write_error is_validation_error
answer_put (entry, none) = record { status = status_ok; body = ruleset_body entry }
answer_put (entry, some (store_error StoreError.not_modified)) = record {
  status = status_ok;
  body = ruleset_body entry;
}
answer_put (entry, some e) =
    if is_validation_error e then write_error e bad_request else write_error e internal_server_error

-- `path` of ServeHTTP.
unfoldable pub path_of : Request → String
path_of r = trim_prefix (trim_prefix r.path "/rulesets") "/"

unfoldable pub not_served : Response
not_served = record { status = status_not_found; body = no_body }

module _ {fl : Floats} {S : Type 0} (service : RulesetService fl S)
    (decode : Bytes → Result Ruleset) where
  -- `list` once its limit is read.
  unfoldable pub list_from : S → Request → String → Result ℤ → Result Response
  unfolding answer_list write_error value_of
  list_from st r prefix (ok limit) =
      answer_list (service.list st prefix limit (value_of "continue" r.query))
  list_from st r prefix (err _) = ok (write_error (message "invalid limit") bad_request)
  list_from st r prefix panic = panic

  unfoldable pub serve_list : S → Request → String → Result Response
  unfolding list_from limit_of
  serve_list st r prefix = list_from st r prefix (limit_of (value_of "limit" r.query))

  -- The service's evaluation that `eval` asks for.
  unfoldable pub asked_eval : S → Request → String → Result EvalResult
  asked_eval st r path = elim (lookup "version" r.query) [
    | some v ↦ service.eval_version st path v (some (query_params fl r.query))
    | none ↦ service.eval st path (some (query_params fl r.query))
  ]

  unfoldable pub serve_eval : S → Request → String → Result Response
  unfolding answer_eval asked_eval
  serve_eval st r path = answer_eval path (asked_eval st r path)

  unfoldable pub serve_watch : S → Request → String → Result Response
  unfolding answer_watch value_of
  serve_watch st r prefix = answer_watch (service.watch st prefix (value_of "revision" r.query))

  -- `put` once the service has answered.
  unfoldable pub put_answered :
      S → Result (S × (Option RulesetEntry × Option Error)) → S × Result Response
  unfolding answer_put
  put_answered st (ok (st', out)) = (st', ok (answer_put out))
  put_answered st (err e) = (st, ok (answer_put (none, some e)))
  put_answered st panic = (st, panic)

  -- `put` once its body is decoded.
  unfoldable pub put_decoded : S → String → Result Ruleset → S × Result Response
  unfolding put_answered write_error
  put_decoded st path (ok rs) = put_answered st (service.put st path rs)
  put_decoded st path (err e) = (st, ok (write_error e bad_request))
  put_decoded st path panic = (st, panic)

  unfoldable pub serve_put : S → Request → String → S × Result Response
  unfolding put_decoded
  serve_put st r path = put_decoded st path (decode r.body)

  -- ServeHTTP.
  unfoldable pub serve_http : S → Request → S × Result Response
  unfolding has_key serve_list serve_eval serve_watch serve_put path_of not_served
  serve_http st r =
      if has_key "watch" r.query && r.method == "GET"
      then (st, serve_watch st r (path_of r))
      else if r.method == "GET"
      then (if has_key "list" r.query
          then (st, serve_list st r (path_of r))
          else if has_key "eval" r.query
          then (st, serve_eval st r (path_of r))
          else (st, ok not_served))
      else if r.method == "PUT"
      then (if path_of r == "" then (st, ok not_served) else serve_put st r (path_of r))
      else (st, ok not_served)
