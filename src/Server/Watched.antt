-- ===== src/Server/Watched.antt =====
-- What the server makes of the request of a watch in api/client/rulesets.go.
use regula.Prelude.{
  String, Bool, true, false, some, none, [], ◌∷◌, ◌&&◌, ◌==◌, eq_iff, if◌then◌else◌, ◌≡◌, refl, sym,
  ap, ◌∙◌, inl, inr, Bool-cases,
}
use regula.Json.{Bytes}
use regula.Outcome.{Result}
use regula.Floats.{Floats}
use regula.Ruleset.{Ruleset}
use regula.Store.{RulesetService}
use regula.Server.{answer_watch, has_key, value_of, serve_watch, serve_http, path_of}
use regula.Client.Calls.{watch_request}

revision-read :
    (resolve : String → String) (prefix revision : String)
    → value_of "revision" (watch_request resolve prefix revision).query ≡ revision
unfolding watch_request value_of regula.Prelude.lookup
revision-read resolve prefix revision = elim (Bool-cases (revision == "")) [
  | inl e ↦ rw e (sym ((eq_iff revision "").0 e))
  | inr e ↦ rw e refl
]

-- The service is asked for the events from the client's revision.
pub serve_http-watch :
    {fl : Floats} {S : Type 0} (service : RulesetService fl S) (decode : Bytes → Result Ruleset)
    (st : S) (resolve : String → String) (prefix revision p : String)
    → path_of (watch_request resolve prefix revision) ≡ p
    → serve_http service decode st (watch_request resolve prefix revision)
      ≡ (st, answer_watch (service.watch st p revision))
unfolding serve_http serve_watch has_key watch_request regula.Prelude.lookup
serve_http-watch service decode st resolve prefix revision p at =
    ap
      (λ x. (
        st,
        answer_watch (
            service.watch st x (value_of "revision" (watch_request resolve prefix revision).query)),
      ))
      at
    ∙ ap (λ x. (st, answer_watch (service.watch st p x))) (revision-read resolve prefix revision)
