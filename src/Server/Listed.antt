-- ===== src/Server/Listed.antt =====
-- A client's List and the server's answer to it: api/client/rulesets.go against api/server/api.go.
use regula.Json.{Bytes}
use regula.Prelude.{
  InInt64, ℕ, suc, ℤ, pos, negsuc, String, true, false, Option, none, some, ◌∷◌, ◌++◌, lookup, ◌≡◌,
  refl, sym, ap, subst, ◌∙◌, ◌==◌, eq_iff, inl, inr, Bool-cases,
}
use regula.Outcome.{Result, ok}
use regula.Strconv.{parse_int, format_int}
use regula.Strconv.RoundTrip.{parse_int-format_int}
use regula.Floats.{Floats}
use regula.Ruleset.{Ruleset}
use regula.Store.{RulesetService}
use regula.Server.{
  Request, has_key, value_of, limit_of, answer_list, list_from, serve_list, serve_http, path_of,
}
use regula.Client.Sending.{ListOptions, limit_part, continue_part, list_query}

-- The options that the server reads where the client gives none.
abbrev pub given_options : Option ListOptions → ListOptions
given_options none = record { limit = pos 0; continue = "" }
given_options (some opt) = opt

value_of-limit :
    (token : String)
    → value_of "limit" (list_query (some (record { limit = pos 0; continue = token }))) ≡ ""
unfolding value_of list_query lookup
value_of-limit token = elim (Bool-cases (token == "")) [ inl e ↦ rw e refl | inr e ↦ rw e refl ]

limit_of-format_int : (limit : ℤ) → InInt64 limit → limit_of (format_int limit) ≡ ok limit
unfolding limit_of
limit_of-format_int limit h = elim (Bool-cases (format_int limit == "")) [
  | inl e ↦ absurd (
      blank (
        subst (λ s. parse_int s ≡ (limit, none)) ((eq_iff (format_int limit) "").0 e)
          (parse_int-format_int limit h)))
  | inr e ↦ rw (e, parse_int-format_int limit h) refl
]
  where
    blank : parse_int "" ≡ (limit, none) → ⊥
    blank e = unfold parse_int in cc

-- What the server reads of the query is what the client's options say.
limit_of-sent :
    (limit : ℤ) (token : String)
    → InInt64 limit
    → limit_of (value_of "limit" (list_query (some (record { limit = limit; continue = token }))))
      ≡ ok limit
unfolding list_query value_of lookup
limit_of-sent (pos ℕ.zero) token h = ap limit_of (value_of-limit token) ∙ (unfold limit_of in refl)
limit_of-sent (pos (ℕ.suc n)) token h = limit_of-format_int (pos (suc n)) h
limit_of-sent (negsuc n) token h = limit_of-format_int (negsuc n) h

continue_part-value :
    (token : String)
    → (elim (lookup "continue" (continue_part token)) [ some s ↦ s | none ↦ "" ]) ≡ token
unfolding continue_part lookup
continue_part-value token = elim (Bool-cases (token == "")) [
  | inl e ↦ rw e (sym ((eq_iff token "").0 e))
  | inr e ↦ rw e refl
]

continue-sent :
    (limit : ℤ) (token : String)
    → value_of "continue" (list_query (some (record { limit = limit; continue = token }))) ≡ token
unfolding list_query value_of lookup
continue-sent (pos ℕ.zero) token = continue_part-value token
continue-sent (pos (ℕ.suc n)) token = continue_part-value token
continue-sent (negsuc n) token = continue_part-value token

continue_part-no_watch : (token : String) → has_key "watch" (continue_part token) ≡ false
unfolding continue_part has_key lookup
continue_part-no_watch token = elim (Bool-cases (token == "")) [
  | inl e ↦ rw e refl
  | inr e ↦ rw e refl
]

no_watch : (opt : Option ListOptions) → has_key "watch" (list_query opt) ≡ false
unfolding list_query has_key lookup
no_watch none = refl
no_watch (some opt) = go opt.limit opt.continue
  where
    go :
        (limit : ℤ) (token : String)
        → has_key "watch" (("list", "") ∷ (limit_part limit ++ continue_part token)) ≡ false
    go (pos ℕ.zero) token = continue_part-no_watch token
    go (pos (ℕ.suc n)) token = continue_part-no_watch token
    go (negsuc n) token = continue_part-no_watch token

asks_list : (opt : Option ListOptions) → has_key "list" (list_query opt) ≡ true
unfolding list_query has_key lookup
asks_list opt = refl

limit-read :
    (opt : Option ListOptions)
    → InInt64 (given_options opt).limit
    → limit_of (value_of "limit" (list_query opt)) ≡ ok (given_options opt).limit
unfolding list_query value_of lookup limit_of
limit-read none h = refl
limit-read (some opt) h = limit_of-sent opt.limit opt.continue h

continue-read :
    (opt : Option ListOptions) → value_of "continue" (list_query opt) ≡ (given_options opt).continue
unfolding list_query value_of lookup
continue-read none = refl
continue-read (some opt) = continue-sent opt.limit opt.continue

-- The server answers a List of the client, which is a GET with the query of its options, by what the
-- service lists under the path with exactly these options, and keeps its store; without options they
-- are the limit 0 and no token. The limit is an int64.
pub serve_http-list_query :
    {fl : Floats} {S : Type 0} (service : RulesetService fl S) (decode : Bytes → Result Ruleset)
    (st : S) (r : Request) (opt : Option ListOptions)
    → r.method ≡ "GET"
    → r.query ≡ list_query opt
    → InInt64 (given_options opt).limit
    → serve_http service decode st r ≡ (
      st,
      answer_list
          (service.list st (path_of r) (given_options opt).limit (given_options opt).continue),
    )
unfolding serve_http serve_list list_from
serve_http-list_query service decode st r opt get sent h =
    rw
      (
        ap (has_key "watch") sent ∙ no_watch opt,
        (eq_iff r.method "GET").1 get,
        ap (has_key "list") sent ∙ asks_list opt,
        ap (λ q. limit_of (value_of "limit" q)) sent ∙ limit-read opt h,
        ap (value_of "continue") sent ∙ continue-read opt,
      )
      refl
