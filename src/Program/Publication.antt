-- ===== src/Program/Publication.antt =====
-- Put of api/client against the server over store/etcd, and the evaluations that follow it.
use regula.Prelude.{
  ℕ, ℤ, String, Option, none, some, List, keys, All, All-map, inl, ◌≡◌, refl, sym, subst, ap, ◌∙◌,
}
use regula.Outcome.{ok}
use regula.Json.{document}
use regula.Floats.{Floats}
use regula.Ruleset.{Ruleset, eval_ruleset}
use regula.Ruleset.Coherent.{all_params}
use regula.Ruleset.Json.{ruleset_json}
use regula.Ruleset.Json.Decoding.{ruleset_json-roundtrip}
use regula.Params.{Dynamic, map_params}
use regula.Params.Transport.{encode_params, IsHeld}
use regula.Api.Unmarshal.{WireResult, unmarshal_result, unmarshal_api_ruleset}
use regula.Store.{RulesetEntry, new_signature, match_with}
use regula.Store.Documents.{zero_entry}
use regula.Store.Documents.Decoding.{IsPortable}
use regula.Store.Names.Validation.{IsAccepted}
use regula.Store.Etcd.{KeyValues, Codec, checksum}
use regula.Store.Etcd.Listing.{Tokens}
use regula.Store.Etcd.Parts.{IsPart, IsPath-not_empty, IsPath-IsOrdinary}
use regula.Store.Etcd.Shelf.{IsCodec, Shelf, entry_of, Holds}
use regula.Store.Etcd.Refinement.{shelve, Simulates, put_refines}
use regula.Store.Etcd.Service.{World, etcd_service, decode_ruleset}
use regula.Server.{Request, answer_put, put_answered, serve_http, path_of}
use regula.Server.Remote.{versioned}
use regula.Server.Requests.{serve_http-put}
use regula.Client.Sending.{Reply}
use regula.Client.Sending.Located.{IsRoot, path_of-sent}
use regula.Client.Calls.{eval_request, put_request, put, eval}
use regula.Program.{ok-inj, reply_of, Exchanges}
use regula.Program.Evaluation.{IsUnreserved, eval-agrees}
use regula.Program.Seen.{seen}
use regula.Program.Stored.{IsUpdate, updated, shelve-updated, reply_of-stored, try_request-first}

-- The request is served while the random version is this, and no call of etcd fails.
abbrev pub drawn : World → String → World
drawn w v = record w { ksuid = ok v; failure = none }

module _ (fl : Floats) (cd : Codec) (ns : String) (tk : Tokens) (w : World) (laws : IsCodec cd)
    (kv : KeyValues) (p : String) (o : Option Shelf) (rs : Ruleset) (v : String)
    (a : IsAccepted p rs) (hv : IsPart v) (portable : IsPortable rs) (h : Holds cd ns kv p o)
    (resolve : String → String) (root : IsRoot resolve) where
  pub done :
      Simulates cd ns kv p (shelve cd ns p o rs v) (regula.Store.Etcd.put cd ns kv p rs (ok v) none)
  done = put_refines cd ns kv p rs v o laws a hv portable h

  decoded_back : decode_ruleset fl cd ns (document (ruleset_json rs)) ≡ ok rs
  unfolding decode_ruleset
  decoded_back =
      ruleset_json-roundtrip cd.get_str rs laws.finds portable.coherent portable.supported
        portable.built

  sent_path : path_of (put_request resolve p rs) ≡ p
  unfolding put_request
  sent_path =
      path_of-sent resolve p (put_request resolve p rs) root
        (IsPath-not_empty p a.path_name, IsPath-IsOrdinary p a.path_name) refl

  pub serve_put-sent :
      serve_http
        (etcd_service fl cd ns tk (drawn w v))
        (decode_ruleset fl cd ns)
        kv
        (put_request resolve p rs)
      ≡ (done.state, ok (answer_put (shelve cd ns p o rs v).1))
  unfolding put_request put_answered etcd_service
  serve_put-sent =
      serve_http-put (etcd_service fl cd ns tk (drawn w v)) (decode_ruleset fl cd ns) kv
        (put_request resolve p rs) p rs refl sent_path (IsPath-not_empty p a.path_name) decoded_back
      ∙ ap (put_answered (etcd_service fl cd ns tk (drawn w v)) (decode_ruleset fl cd ns) kv)
          done.returned

  module _ (quote : String → String) (retries : ℤ) (exchange : Request → ℕ → Reply RulesetEntry)
      (update : IsUpdate cd ns o rs)
      (sends : reply_of quote
          (unmarshal_api_ruleset cd.get_str)
          (serve_http
            (etcd_service fl cd ns tk (drawn w v))
            (decode_ruleset fl cd ns)
            kv
            (put_request resolve p rs)).1
        ≡ ok (exchange (put_request resolve p rs) 0)) where
    abbrev stored : RulesetEntry
    stored = entry_of p (updated o rs v)

    seen_stored : put resolve retries exchange p rs ≡ (stored, none)
    unfolding put
    seen_stored =
        try_request-first zero_entry (exchange (put_request resolve p rs)) retries stored (
          ok-inj (
            sym sends
            ∙ ap (reply_of quote (unmarshal_api_ruleset cd.get_str)) answer
            ∙ reply_of-stored quote cd.get_str stored laws.finds portable))
      where
        answer :
            (serve_http
              (etcd_service fl cd ns tk (drawn w v))
              (decode_ruleset fl cd ns)
              kv
              (put_request resolve p rs)).1
            ≡ ok (answer_put (some (entry_of p (updated o rs v)), none))
        answer =
            ap (λ x. x.1) serve_put-sent
            ∙ ap (λ x. ok (answer_put x.1)) (shelve-updated cd ns p o rs v update)

  pub Holds-updated :
      IsUpdate cd ns o rs
      → Holds cd ns
          (serve_http
            (etcd_service fl cd ns tk (drawn w v))
            (decode_ruleset fl cd ns)
            kv
            (put_request resolve p rs)).0
          p
          (some (updated o rs v))
  Holds-updated update =
      subst (λ st. Holds cd ns st p (some (updated o rs v))) (sym (ap (λ x. x.0) serve_put-sent))
        (subst (λ x. Holds cd ns done.state p x.0) (shelve-updated cd ns p o rs v update)
          done.holds)

-- A client's Put of an accepted ruleset that is the first of its path, or that has another checksum
-- than the latest one and the first one's signature, returns its entry and no error; and Eval of that
-- path, by any client whose requests are answered in the state that is left, returns what this
-- ruleset evaluates to over the client's own map of values, with the new version, or the error of the
-- evaluation's status. This holds if no call of etcd fails, the new version is one ordinary part of a
-- path, the ruleset is one that its document gives back, the server's URL is its host, and the map is
-- as for an Eval: it can be encoded, none of its keys is a reserved word, and it holds a value that is
-- kept in the query for each parameter.
pub put-eval :
    (fl : Floats) (cd : Codec) (ns : String) (tk : Tokens) (w later : World) (kv : KeyValues)
    (p : String) (o : Option Shelf) (rs : Ruleset) (v : String) (m : List (String × Dynamic fl))
    (q : List (String × String)) (resolve : String → String) (retries : ℤ) (quote : String → String)
    (puts : Request → ℕ → Reply RulesetEntry) (evals : Request → ℕ → Reply WireResult)
    → IsCodec cd
    → IsAccepted p rs
    → IsPart v
    → IsPortable rs
    → Holds cd ns kv p o
    → IsUpdate cd ns o rs
    → encode_params (map_params fl m) (keys m) ≡ ok q
    → All IsUnreserved (keys m)
    → All (IsHeld fl m) (all_params rs.rules)
    → IsRoot resolve
    → reply_of quote
        (unmarshal_api_ruleset cd.get_str)
        (serve_http
          (etcd_service fl cd ns tk (drawn w v))
          (decode_ruleset fl cd ns)
          kv
          (put_request resolve p rs)).1
      ≡ ok (puts (put_request resolve p rs) 0)
    → Exchanges quote unmarshal_result evals
        (eval_request resolve p "" q)
        (serve_http
          (etcd_service fl cd ns tk later)
          (decode_ruleset fl cd ns)
          (serve_http
            (etcd_service fl cd ns tk (drawn w v))
            (decode_ruleset fl cd ns)
            kv
            (put_request resolve p rs)).0
          (eval_request resolve p "" q)).1
    → (put resolve retries puts p rs ≡ (record { path = p; version = v; rule_set = some rs }, none))
      × (eval resolve retries evals p (map_params fl m)
          ≡ seen (versioned fl v (eval_ruleset fl (some (map_params fl m)) rs)))
put-eval fl cd ns tk w later kv p o rs v m q resolve retries quote puts evals laws a hv portable h
      update e unreserved held root sends asks =
    (
      seen_stored fl cd ns tk w laws kv p o rs v a hv portable h resolve root quote retries puts
          update sends,
      eval-agrees fl cd ns tk later _ p (some (updated o rs v)) m q resolve retries quote evals laws
          a.path_name
          (Holds-updated fl cd ns tk w laws kv p o rs v a hv portable h resolve root update) e
          unreserved (All-map (λ x k. inl k) (all_params rs.rules) held) root asks,
    )
