-- ===== src/Server/Requests.antt =====
-- ServeHTTP of api/server: what each request changes and answers.
use regula.Json.{Bytes}
use regula.Engine.{EvalResult}
use regula.Params.{query_params}
use regula.Prelude.{
  lookup, Option, none, some, arith, ℤ, String, Bool, true, false, ◌&&◌, ◌≡◌, ◌≢◌, refl, inl, inr,
  ◌⊎◌, eq_iff, if◌then◌else◌, ◌==◌, Bool-cases,
}
use regula.Outcome.{Error, Result, ok, err, panic, message}
use regula.Floats.{Floats}
use regula.Ruleset.{Ruleset}
use regula.Store.{RulesetEntry, RulesetService}
use regula.Server.{
  Request, Response, bad_request, has_key, asked_eval, answer_eval, list_from, put_decoded,
  put_answered, serve_list, serve_eval, serve_watch, serve_put, serve_http, path_of, not_served,
}
use regula.Server.Statuses.{
  IsHidden, IsEvalAnswer, write_error-IsHidden, answer_list-IsHidden, answer_eval-IsHidden,
  answer_watch-IsHidden, answer_put-IsHidden, answer_eval-IsEvalAnswer,
}

-- A GET of an evaluation, which is neither a watch nor a listing.
pub record IsEval (r : Request) : Type 0 where
  pub get : r.method ≡ "GET"
  pub no_watch : has_key "watch" r.query ≡ false
  pub no_list : has_key "list" r.query ≡ false
  pub eval_key : has_key "eval" r.query ≡ true

if-keeps {ℓ κ} :
    {A : Type ℓ} (P : A → Type κ) (b : Bool) {x y : A} → P x → P y → P (if b then x else y)
if-keeps P true p q = p
if-keeps P false p q = q

and_false : (b : Bool) → (b && false) ≡ false
and_false true = refl
and_false false = refl

module _ {fl : Floats} {S : Type 0} (service : RulesetService fl S)
    (decode : Bytes → Result Ruleset) where
  list_from-IsHidden :
      (st : S) (r : Request) (path : String) (l : Result ℤ)
      → IsHidden (list_from service decode st r path l)
  unfolding list_from
  list_from-IsHidden st r path (ok limit) = answer_list-IsHidden _
  list_from-IsHidden st r path (err e) = write_error-IsHidden (message "invalid limit") bad_request
  list_from-IsHidden st r path panic = tt

  put_answered-IsHidden :
      (st : S) (out : Result (S × (Option RulesetEntry × Option Error)))
      → IsHidden (put_answered service decode st out).1
  unfolding put_answered
  put_answered-IsHidden st (ok (st', out)) = answer_put-IsHidden out
  put_answered-IsHidden st (err e) = answer_put-IsHidden (none, some e)
  put_answered-IsHidden st panic = tt

  put_decoded-IsHidden :
      (st : S) (path : String) (d : Result Ruleset)
      → IsHidden (put_decoded service decode st path d).1
  unfolding put_decoded
  put_decoded-IsHidden st path (ok rs) = put_answered-IsHidden st (service.put st path rs)
  put_decoded-IsHidden st path (err e) = write_error-IsHidden e bad_request
  put_decoded-IsHidden st path panic = tt

  -- No request is answered with the status 500 and another text than that of the internal error.
  pub serve_http-IsHidden : (st : S) (r : Request) → IsHidden (serve_http service decode st r).1
  unfolding serve_http serve_list serve_eval serve_watch serve_put not_served
  serve_http-IsHidden st r =
      let P : S × Result Response → Type 0 = λ x. IsHidden x.1 in
      let missing : IsHidden (ok not_served) = λ h. cc in
      if-keeps P (has_key "watch" r.query && r.method == "GET") (answer_watch-IsHidden _) (
        if-keeps P (r.method == "GET")
          (if-keeps P (has_key "list" r.query) (list_from-IsHidden st r (path_of r) _)
            (if-keeps P (has_key "eval" r.query) (answer_eval-IsHidden _ _) missing))
          (if-keeps P (r.method == "PUT")
            (if-keeps P (path_of r == "") missing
              (put_decoded-IsHidden st (path_of r) (decode r.body)))
            missing))

  -- A request whose method is not PUT leaves the store as it was, and so do a PUT without a path and
  -- one whose body is no ruleset.
  pub serve_http-frame :
      (st : S) (r : Request)
      → (r.method ≢ "PUT") ⊎ (path_of r ≡ "") ⊎ ((e : Error) × (decode r.body ≡ err e))
      → (serve_http service decode st r).0 ≡ st
  unfolding serve_http serve_list serve_eval serve_watch serve_put put_decoded
  serve_http-frame st r h =
      let P : S × Result Response → Type 0 = λ x. x.0 ≡ st in
      if-keeps P (has_key "watch" r.query && r.method == "GET") refl (
        if-keeps P (r.method == "GET")
          (if-keeps P (has_key "list" r.query) refl (if-keeps P (has_key "eval" r.query) refl refl))
          (elim (Bool-cases (r.method == "PUT")) [
            | inl put ↦ rw put (elim (Bool-cases (path_of r == "")) [
              | inl empty ↦ rw empty refl
              | inr path ↦ rw path (elim h [
                | inl other ↦ absurd (other ((eq_iff r.method "PUT").0 put))
                | inr (inl empty) ↦ cc (path, (eq_iff (path_of r) "").1 empty)
                | inr (inr (e, bad)) ↦ rw bad refl
              ])
            ])
            | inr other ↦ rw other refl
          ]))

  -- A PUT of a ruleset is what the service makes of it.
  pub serve_http-put :
      (st : S) (r : Request) (path : String) (rs : Ruleset)
      → r.method ≡ "PUT"
      → path_of r ≡ path
      → path ≢ ""
      → decode r.body ≡ ok rs
      → serve_http service decode st r ≡ put_answered service decode st (service.put st path rs)
  unfolding serve_http serve_put put_decoded
  serve_http-put st r path rs method named ne body =
      let filled : (path == "") ≡ false = ground (arith, eq_iff path "", ne) in
      let put : (r.method == "PUT") ≡ true = (eq_iff r.method "PUT").1 method in
      let other : (r.method == "GET") ≡ false = rw method refl in
      rw (other, and_false, put, named, filled, body) refl

  pub serve_http-eval :
      (st : S) (r : Request)
      → IsEval r
      → serve_http service decode st r
        ≡ (st, answer_eval (path_of r) (asked_eval service decode st r (path_of r)))
  unfolding serve_http serve_eval
  serve_http-eval st r h =
      rw (h.no_watch, (eq_iff r.method "GET").1 h.get, h.no_list, h.eval_key) refl

  -- What the service says of a path over a query's parameters: for the version that the query
  -- names, if it names one, and else for the latest.
  abbrev pub evaluation : S → Request → Option String → Result EvalResult
  evaluation st r (some version) =
      service.eval_version st (path_of r) version (some (query_params fl r.query))
  evaluation st r none = service.eval st (path_of r) (some (query_params fl r.query))

  asked_eval-evaluation :
      (st : S) (r : Request)
      → asked_eval service decode st r (path_of r) ≡ evaluation st r (lookup "version" r.query)
  unfolding asked_eval
  asked_eval-evaluation st r = go (lookup "version" r.query) refl
    where
      go :
          (o : Option String)
          → lookup "version" r.query ≡ o
          → asked_eval service decode st r (path_of r) ≡ evaluation st r o
      go (some version) h = rw (h, asked_eval) refl
      go none h = rw (h, asked_eval) refl

  -- An evaluation leaves the store as it was. What it is answered depends on what the service
  -- returns over the query's parameters, for the version that the query names, and for the latest
  -- if it names none: it is answered with 200 and a result exactly when the service returns that
  -- result; with 404 exactly for ErrRulesetNotFound; and with 400 exactly for a parameter that is
  -- missing or of another type and for ErrNoMatch.
  pub serve_http-IsEvalAnswer :
      (st : S) (r : Request)
      → IsEval r
      → ((serve_http service decode st r).0 ≡ st)
        × IsEvalAnswer
            (evaluation st r (lookup "version" r.query))
            (serve_http service decode st r).1
  serve_http-IsEvalAnswer st r h =
      let same = asked_eval-evaluation st r in
      rw (serve_http-eval st r h, same)
        (refl, answer_eval-IsEvalAnswer (path_of r) (evaluation st r (lookup "version" r.query)))
