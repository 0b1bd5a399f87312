-- ===== src/Program/Listing.antt =====
-- List of api/client against the server over any RulesetService.
use regula.Prelude.{
  ℕ, ℤ, InInt64, String, Option, none, some, All, ◌⊎◌, ◌≡◌, refl, ap, ◌∙◌, inl, inr,
}
use regula.Outcome.{Result, ok, err, panic, store_error, StoreError}
use regula.Json.{Json, Bytes}
use regula.Floats.{Floats}
use regula.Rule.Json.RoundTrip.{FindsKind}
use regula.Ruleset.{Ruleset}
use regula.Store.{RulesetEntries, RulesetService}
use regula.Api.RoundTrip.{IsSendable, rulesets_json-roundtrip}
use regula.Api.Unmarshal.{zero_entries, unmarshal_rulesets}
use regula.Server.{
  Request, answer_list, serve_http, path_of, status_code, body_document, write_error,
}
use regula.Server.Listed.{given_options, serve_http-list_query}
use regula.Client.{ClientError, api_error, net_error}
use regula.Client.Sending.{ListOptions, at_end, decoded, no_reply, Reply, reply, do_request}
use regula.Client.Sending.Located.{IsRoot, IsServed, path_of-sent, path_of-everything}
use regula.Client.Calls.{list_request, list}
use regula.Program.{reply_of, Exchanges, Exchanges-answer}

-- What a client sees of a listing.
abbrev pub seen_list : Result RulesetEntries → RulesetEntries × Option ClientError
seen_list (ok es) = (es, none)
seen_list (err (store_error StoreError.not_found)) = (zero_entries, some (api_error 404))
seen_list (err (store_error StoreError.invalid_continue_token)) =
    (zero_entries, some (api_error 400))
seen_list (err e) = (zero_entries, some (api_error 500))
seen_list panic = (zero_entries, some net_error)

-- The rulesets of a listing are given back by their documents.
abbrev pub IsSentWhole : Result RulesetEntries → Type 0
IsSentWhole (ok es) = All (λ re. IsSendable re.rule_set) es.entries
IsSentWhole _ = Unit

module _ (quote : String → String) (get_str : Json → String → String)
    (finds : FindsKind get_str) where
  answered :
      (out : Result RulesetEntries)
      → IsSentWhole out
      → (x : Reply RulesetEntries) × (reply_of quote (unmarshal_rulesets get_str) (answer_list out)
          ≡ ok x)
        × (do_request zero_entries x ≡ seen_list out)
  unfolding answer_list do_request body_document status_code write_error
  answered (ok es) h =
      (reply 200 (decoded es), rw (rulesets_json-roundtrip get_str finds es h) refl, refl)
  answered (err (store_error StoreError.not_found)) h = (reply 404 at_end, refl, refl)
  answered (err (store_error StoreError.invalid_continue_token)) h = (reply 400 at_end, refl, refl)
  answered (err e) h = (reply 500 at_end, refl, refl)
  answered panic h = (no_reply net_error, refl, refl)

-- A client's List of everything, or of a prefix that is not empty and has no part that is empty,
-- "." or "..", answered by the server, returns the page
-- that the service lists under this prefix with the client's limit and token, whole: each path,
-- version and ruleset, the revision and the next token. It returns an error with the status 404 where
-- the service finds nothing, 400 for a token that it refuses, and else 500, whatever the number of
-- tries; and the error of the connection where the server panics. This holds if each try is answered
-- by the server in that state, the server's URL is its host, the limit is an int64, and each ruleset
-- of the page is nil or one that its document gives back.
pub list-agrees :
    {fl : Floats} {S : Type 0} (service : RulesetService fl S) (decode : Bytes → Result Ruleset)
    (st : S) (p : String) (opt : Option ListOptions) (resolve : String → String) (retries : ℤ)
    (quote : String → String) (get_str : Json → String → String)
    (exchange : Request → ℕ → Reply RulesetEntries)
    → FindsKind get_str
    → IsRoot resolve
    → (p ≡ "") ⊎ IsServed p
    → InInt64 (given_options opt).limit
    → IsSentWhole (service.list st p (given_options opt).limit (given_options opt).continue)
    → Exchanges quote
        (unmarshal_rulesets get_str)
        exchange
        (list_request resolve p opt)
        (serve_http service decode st (list_request resolve p opt)).1
    → list resolve retries exchange p opt
      ≡ seen_list (service.list st p (given_options opt).limit (given_options opt).continue)
unfolding list list_request
list-agrees service decode st p opt resolve retries quote get_str exchange finds root named limit
      whole sends =
    let r = list_request resolve p opt in
    let at : path_of r ≡ p = elim named [
      | inl e ↦ path_of-everything resolve p r root e refl
      | inr h ↦ path_of-sent resolve p r root h refl
    ] in
    let served = serve_http-list_query service decode st r opt refl refl limit in
    let answer : (serve_http service decode st r).1
        ≡ answer_list (service.list st p (given_options opt).limit (given_options opt).continue) =
      ap (λ x. x.1) served
      ∙ ap
          (λ path.
            answer_list
              (service.list st path (given_options opt).limit (given_options opt).continue))
          at in
    let (x, got, means) =
      answered quote get_str finds
        (service.list st p (given_options opt).limit (given_options opt).continue) whole in
    Exchanges-answer quote (unmarshal_rulesets get_str) zero_entries retries exchange r _ x sends
      (ap (reply_of quote (unmarshal_rulesets get_str)) answer ∙ got)
    ∙ means
