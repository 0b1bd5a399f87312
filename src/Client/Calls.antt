-- ===== src/Client/Calls.antt =====
-- The calls of the client's RulesetService in api/client/rulesets.go: the request of each, and what
-- it makes of the replies. `resolve` is ResolveReference of the base URL, on paths, and `exchange`
-- is what comes back for each try of a request. Decoding that panics is left out.
use regula.Prelude.{ℕ, ℤ, String, Option, none, some, List, [], ◌∷◌, if◌then◌else◌, ◌==◌}
use regula.Outcome.{Result, ok}
use regula.Json.{Bytes, raw, document}
use regula.Floats.{Floats}
use regula.Rule.Eval.{Params}
use regula.Ruleset.{Ruleset}
use regula.Ruleset.Json.{ruleset_json}
use regula.Params.Transport.{encode_params, eval_query}
use regula.Api.{Events}
use regula.Api.Unmarshal.{zero_events, WireResult, zero_result, zero_entries}
use regula.Store.{RulesetEntry, RulesetEntries}
use regula.Store.Documents.{zero_entry}
use regula.Server.{Request}
use regula.Client.{ClientError, another, Poll, answered, failed, WatchState, watch_step}
use regula.Client.Sending.{join_path, ListOptions, list_query, Reply, do_request, try_request}

-- The request that newRequest makes, with the query that is set on it. It fails for no path and no
-- ruleset.
unfoldable pub new_request :
    (String → String) → String → String → Bytes → List (String × String) → Request
new_request resolve method path body query = record {
  method = method;
  path = resolve path;
  query = query;
  body = body;
}

-- A call that returns nothing beside an error.
unfoldable pub or_nothing : WireResult × Option ClientError → Option WireResult × Option ClientError
or_nothing (resp, none) = (some resp, none)
or_nothing (resp, some e) = (none, some e)

module _ (resolve : String → String) where
  unfoldable pub list_request : String → Option ListOptions → Request
  unfolding new_request join_path list_query
  list_request prefix opt = new_request resolve "GET" (join_path prefix) (raw "") (list_query opt)

  unfoldable pub put_request : String → Ruleset → Request
  unfolding new_request join_path ruleset_json
  put_request path rs = new_request resolve "PUT" (join_path path) (document (ruleset_json rs)) []

  -- `if revision != "" { q.Add("revision", revision) }`.
  unfoldable pub watch_request : String → String → Request
  unfolding new_request join_path
  watch_request prefix revision =
      new_request resolve "GET" (join_path prefix) (raw "")
        (("watch", "") ∷ (if revision == "" then [] else ("revision", revision) ∷ []))

  unfoldable pub eval_request : String → String → List (String × String) → Request
  unfolding new_request join_path eval_query
  eval_request path version q =
      new_request resolve "GET" (join_path path) (raw "") (eval_query version q)

-- The outcome of the request of an iteration of Watch, which is tried once.
unfoldable pub poll_of : Events × Option ClientError → Poll
poll_of (events, none) = answered events
poll_of (events, some e) = failed e

module _ (resolve : String → String) where
  -- An iteration of Watch, with the round trip of its request.
  unfoldable pub watch_once : String → WatchState → (Request → Reply Events) → WatchState
  unfolding watch_step poll_of do_request watch_request
  watch_once prefix st exchange =
      watch_step st
        (poll_of (do_request zero_events (exchange (watch_request resolve prefix st.revision))))

  -- Watch, with the round trips of its requests in order.
  unfoldable pub watch_rounds : String → WatchState → List (Request → Reply Events) → WatchState
  unfolding watch_once
  watch_rounds prefix st [] = st
  watch_rounds prefix st (x ∷ xs) =
      let rest = watch_rounds prefix (watch_once prefix st x) xs in if st.running then rest else st

module _ (resolve : String → String) (retries : ℤ) where
  unfoldable pub list :
      (Request → ℕ → Reply RulesetEntries)
      → String
      → Option ListOptions
      → RulesetEntries × Option ClientError
  unfolding list_request try_request
  list exchange prefix opt =
      try_request zero_entries (exchange (list_request resolve prefix opt)) retries

  unfoldable pub put :
      (Request → ℕ → Reply RulesetEntry) → String → Ruleset → RulesetEntry × Option ClientError
  unfolding put_request try_request
  put exchange path rs = try_request zero_entry (exchange (put_request resolve path rs)) retries

  -- EvalVersion once the parameters are encoded.
  unfoldable pub eval_encoded :
      (Request → ℕ → Reply WireResult)
      → String
      → String
      → Result (List (String × String))
      → Option WireResult × Option ClientError
  unfolding eval_request try_request or_nothing
  eval_encoded exchange path version (ok q) =
      or_nothing (try_request zero_result (exchange (eval_request resolve path version q)) retries)
  eval_encoded exchange path version _ = (none, some another)

  module _ {fl : Floats} where
    unfoldable pub eval_version :
        (Request → ℕ → Reply WireResult)
        → String
        → String
        → Params fl
        → Option WireResult × Option ClientError
    unfolding eval_encoded encode_params
    eval_version exchange path version ps =
        eval_encoded exchange path version (encode_params ps ps.keys)

    unfoldable pub eval :
        (Request → ℕ → Reply WireResult)
        → String
        → Params fl
        → Option WireResult × Option ClientError
    unfolding eval_version
    eval exchange path ps = eval_version exchange path "" ps
