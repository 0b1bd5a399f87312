-- ===== src/Server/Remote.antt =====
-- A client's parameters, its query, and the server's answer to it: api/client/rulesets.go against
-- api/server/api.go and ruleset.go.
use regula.Json.{Bytes}
use regula.Prelude.{String, Option, none, some, List, keys, lookup, All, ◌≡◌, refl, sym, ap, ◌∙◌}
use regula.Outcome.{Result, ok, ◌>>=◌}
use regula.Floats.{Floats}
use regula.Rule.Value.{Value}
use regula.Rule.Eval.{Params}
use regula.Ruleset.{Ruleset, eval_ruleset}
use regula.Ruleset.Coherent.{all_params}
use regula.Params.{Dynamic, map_params, query_params}
use regula.Params.Transport.{encode_params, eval_query, IsHeld, remote_eval}
use regula.Engine.{EvalResult}
use regula.Store.{RulesetService}
use regula.Server.{Request, asked_eval, answer_eval, serve_http, path_of}
use regula.Server.Requests.{IsEval, serve_http-eval}

module _ (fl : Floats) where
  -- The outcome of a ruleset's evaluation, with the version that it has.
  abbrev pub versioned : String → Result Value → Result EvalResult
  versioned version o = o >>= λ v. ok (record { value = v; version = version })

  -- The service answers an evaluation of the path's latest version by this ruleset.
  abbrev pub IsLatest : {S : Type 0} → RulesetService fl S → S → String → String → Ruleset → Type 0
  IsLatest service st path version rs =
      (ps : Option (Params fl))
      → service.eval st path ps ≡ versioned version (eval_ruleset fl ps rs)

  -- The server answers the query that a client sends for its map of values by what the path's latest
  -- ruleset evaluates to over that map, and keeps its store: if the query names no version, the map
  -- can be encoded and holds under each parameter's name, which is not "eval", a value of that
  -- parameter's type, an int64 in range and a float that its six printed decimals give back.
  pub serve_http-remote :
      {S : Type 0} (service : RulesetService fl S) (decode : Bytes → Result Ruleset) (st : S)
      (m : List (String × Dynamic fl)) (q : List (String × String)) (version : String)
      (rs : Ruleset) (r : Request)
      → encode_params (map_params fl m) (keys m) ≡ ok q
      → All (IsHeld fl m) (all_params rs.rules)
      → IsEval r
      → r.query ≡ eval_query "" q
      → lookup "version" r.query ≡ none
      → IsLatest service st (path_of r) version rs
      → serve_http service decode st r ≡ (
        st,
        answer_eval (path_of r) (versioned version (eval_ruleset fl (some (map_params fl m)) rs)),
      )
  unfolding asked_eval
  serve_http-remote service decode st m q version rs r e h get sent latest serves =
      let asked : asked_eval service decode st r (path_of r)
          ≡ service.eval st (path_of r) (some (query_params fl r.query)) =
        rw (latest, asked_eval) refl in
      let same : eval_ruleset fl (some (query_params fl r.query)) rs
          ≡ eval_ruleset fl (some (map_params fl m)) rs =
        ap (λ k. eval_ruleset fl (some (query_params fl k)) rs) sent
        ∙ sym (remote_eval fl m q "" rs e h) in
      serve_http-eval service decode st r get
      ∙ ap (λ o. (st, answer_eval (path_of r) o)) (asked ∙ serves _ ∙ ap (versioned version) same)
