-- ===== src/Program/Evaluation.antt =====
-- Eval of api/client against the server over store/etcd: rulesets.go of api/client, api.go of
-- api/server and rulesets.go of store/etcd together.
use regula.Prelude.{
  ℕ, ℤ, String, false, Option, none, some, List, lookup, lookup-cons, keys, All, All-map, arith,
  ◌==◌, append-nil, ◌≡◌, ◌≢◌, refl, sym, ap, ◌∙◌,
}
use regula.Outcome.{ok, ◌>>=◌}
use regula.Floats.{Floats}
use regula.Ruleset.Coherent.{all_params}
use regula.Params.{Dynamic, map_params, query_params}
use regula.Params.Transport.{
  encode_params, eval_query, version_part, encode_params-absent, IsCarried, latest_eval,
}
use regula.Api.Unmarshal.{WireResult, zero_result, unmarshal_result}
use regula.Store.Names.{reserved_words}
use regula.Store.Names.Validation.{IsPath}
use regula.Store.Etcd.{KeyValues, Codec}
use regula.Store.Etcd.Listing.{Tokens}
use regula.Store.Etcd.Parts.{IsPath-not_empty, IsPath-IsOrdinary}
use regula.Store.Etcd.Shelf.{IsCodec, Shelf, Holds}
use regula.Store.Etcd.Reading.{Keeps, eval_shelf, eval_refines}
use regula.Store.Etcd.Service.{World, etcd_service, decode_ruleset}
use regula.Server.{Request, has_key, asked_eval, answer_eval, serve_http, path_of}
use regula.Server.Requests.{IsEval, serve_http-eval}
use regula.Client.Sending.{Reply}
use regula.Client.Sending.Located.{IsRoot, path_of-sent}
use regula.Client.Calls.{eval_request, or_nothing, eval, eval_encoded, eval_version}
use regula.Program.{reply_of, Exchanges, Exchanges-answer}
use regula.Program.Seen.{seen, answered}

-- For each parameter of the shelf's latest ruleset the map holds a value that it can be read from, or
-- nothing.
abbrev pub HoldsParams : (fl : Floats) → List (String × Dynamic fl) → Option Shelf → Type 0
HoldsParams fl m none = Unit
HoldsParams fl m (some s) = All (IsCarried fl m) (all_params s.current.rules)

-- No key of the map is a word that the server reads from a query.
abbrev pub IsUnreserved : String → Type 0
IsUnreserved k = All (λ w. k ≢ w) reserved_words

has_key-absent : (k : String) (q : List (String × String)) → lookup k q ≡ none → has_key k q ≡ false
unfolding has_key
has_key-absent k q h = rw (h, has_key) refl

module _ (fl : Floats) (cd : Codec) (ns : String) (tk : Tokens) (w : World) (laws : IsCodec cd)
    (kv : KeyValues) (p : String) (o : Option Shelf) (hp : IsPath p) (h : Holds cd ns kv p o)
    (m : List (String × Dynamic fl)) (q : List (String × String))
    (e : encode_params (map_params fl m) (keys m) ≡ ok q) (unreserved : All IsUnreserved (keys m))
    (resolve : String → String) (root : IsRoot resolve) where
  sent_keys :
      (word : String)
      → ("eval" == word) ≡ false
      → All (λ k. k ≢ word) (keys m)
      → lookup word (eval_query "" q) ≡ none
  unfolding eval_query version_part lookup
  sent_keys word ne ks = rw (append-nil q) (
      lookup-cons word "eval" "" q
      ∙ ground (arith, ne, encode_params-absent (map_params fl m) word (keys m) q ks e))

  sent-IsEval : IsEval (eval_request resolve p "" q)
  unfolding eval_request has_key eval_query lookup
  sent-IsEval = record {
    get = refl;
    no_watch =
        has_key-absent "watch" (eval_query "" q)
          (sent_keys "watch" refl (All-map (λ k u. u.1.1.1.0) (keys m) unreserved));
    no_list =
        has_key-absent "list" (eval_query "" q)
          (sent_keys "list" refl (All-map (λ k u. u.1.0) (keys m) unreserved));
    eval_key = refl;
  }

  sent_path : path_of (eval_request resolve p "" q) ≡ p
  unfolding eval_request
  sent_path =
      path_of-sent resolve p (eval_request resolve p "" q) root
        (IsPath-not_empty p hp, IsPath-IsOrdinary p hp) refl

  asked :
      (r : Request)
      → lookup "version" r.query ≡ none
      → asked_eval (etcd_service fl cd ns tk w) (decode_ruleset fl cd ns) kv r p
        ≡ regula.Store.Etcd.eval cd ns fl (ok kv) (ok kv) p (some (query_params fl r.query))
  unfolding asked_eval etcd_service
  asked r latest = rw (latest, asked_eval) refl

  same_shelf :
      HoldsParams fl m o
      → eval_shelf fl (some (query_params fl (eval_query "" q))) o
        ≡ eval_shelf fl (some (map_params fl m)) o
  same_shelf = go o
    where
      go :
          (o : Option Shelf)
          → HoldsParams fl m o
          → eval_shelf fl (some (query_params fl (eval_query "" q))) o
            ≡ eval_shelf fl (some (map_params fl m)) o
      go none held = refl
      go (some s) held =
          ap (λ r. r >>= λ v. ok (record { value = v; version = s.version }))
            (sym (latest_eval fl m q s.current e held))

  kept : Keeps cd ns kv kv p o
  kept = go o
    where
      go : (o : Option Shelf) → Keeps cd ns kv kv p o
      go none = tt
      go (some s) = refl

  pub serve_http-sent :
      HoldsParams fl m o
      → serve_http
          (etcd_service fl cd ns tk w)
          (decode_ruleset fl cd ns)
          kv
          (eval_request resolve p "" q)
        ≡ (kv, answer_eval p (eval_shelf fl (some (map_params fl m)) o))
  unfolding eval_request
  serve_http-sent held =
      serve_http-eval (etcd_service fl cd ns tk w) (decode_ruleset fl cd ns) kv
        (eval_request resolve p "" q) sent-IsEval
      ∙ rw sent_path (
          ap (λ r. (kv, answer_eval p r))
            (asked (eval_request resolve p "" q)
                (sent_keys "version" refl (All-map (λ k u. u.0) (keys m) unreserved))
              ∙ (eval_refines fl cd ns kv kv p o (some (query_params fl (eval_query "" q))) laws hp
                  h kept).0
              ∙ same_shelf held))

-- A client's Eval of a path that Put accepts, answered by the server over the store in etcd, returns
-- what the latest ruleset of the path evaluates to over the client's own map of values, with its
-- version. Where nothing was put under the path it returns an error with the status 404; where the
-- evaluation fails, one with the status 400 if it needs a parameter that the map lacks or no rule
-- matches, and else with 500, whatever the number of tries. This holds if the state has under the path
-- nothing, or a ruleset that its document gives back, with its signature, checksum and pointer; each
-- try is answered by the server in that state; the server's URL is its host; the map can be encoded
-- and none of its keys is a reserved word; no parameter's name is "eval"; and the map holds under each
-- parameter's name nothing, or a value of that parameter's type, an int64 in range and a float that
-- its six printed decimals give back.
pub eval-agrees :
    (fl : Floats) (cd : Codec) (ns : String) (tk : Tokens) (w : World) (kv : KeyValues) (p : String)
    (o : Option Shelf) (m : List (String × Dynamic fl)) (q : List (String × String))
    (resolve : String → String) (retries : ℤ) (quote : String → String)
    (exchange : Request → ℕ → Reply WireResult)
    → IsCodec cd
    → IsPath p
    → Holds cd ns kv p o
    → encode_params (map_params fl m) (keys m) ≡ ok q
    → All IsUnreserved (keys m)
    → HoldsParams fl m o
    → IsRoot resolve
    → Exchanges quote unmarshal_result exchange
        (eval_request resolve p "" q)
        (serve_http
          (etcd_service fl cd ns tk w)
          (decode_ruleset fl cd ns)
          kv
          (eval_request resolve p "" q)).1
    → eval resolve retries exchange p (map_params fl m)
      ≡ seen (eval_shelf fl (some (map_params fl m)) o)
unfolding eval eval_version eval_encoded map_params
eval-agrees fl cd ns tk w kv p o m q resolve retries quote exchange laws hp h e unreserved held root
      sends =
    let served =
      ap (λ x. x.1)
        (serve_http-sent fl cd ns tk w laws kv p o hp h m q e unreserved resolve root held) in
    let (x, got, means) = answered quote p (eval_shelf fl (some (map_params fl m)) o) in
    ap (eval_encoded resolve retries exchange p "") e
    ∙ ap or_nothing (
        Exchanges-answer quote unmarshal_result zero_result retries exchange
          (eval_request resolve p "" q) _ x sends
          (ap (reply_of quote unmarshal_result) served ∙ got))
    ∙ means
