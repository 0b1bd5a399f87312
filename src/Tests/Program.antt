-- ===== src/Tests/Program.antt =====
-- A client, the server and a store in etcd together, at a first ruleset and the parameters of one
-- evaluation.
use package.text.Mathlib.TextLemmas as L
use regula.Prelude.{
  pos, false, ◌==◌, eq_iff, String, none, some, [], keys, All, All-map, inl, inr, List, ◌∷◌, ◌≡◌,
  ◌≢◌, refl, ap, ◌∙◌,
}
use regula.Outcome.{ok, message, rule_error, RuleError}
use regula.Ruleset.{eval_ruleset}
use regula.Ruleset.Coherent.{all_params}
use regula.Params.{Dynamic, string, map_params}
use regula.Params.Transport.{encode_params, IsCarried}
use regula.Api.Unmarshal.{WireResult, unmarshal_result, unmarshal_api_ruleset}
use regula.Store.{RulesetEntry}
use regula.Store.Names.Validation.{IsAccepted}
use regula.Store.Etcd.Refinement.{Simulates}
use regula.Store.Etcd.Reading.{eval_shelf}
use regula.Store.Etcd.Service.{World}
use regula.Server.{bad_request, error_body, body_document, status_code, answer_eval}
use regula.Server.Remote.{versioned}
use regula.Client.Sending.{Reply, decoded, reply}
use regula.Client.Sending.Located.{IsRoot}
use regula.Client.Calls.{put, eval}
use regula.Program.{reply_of}
use regula.Program.Evaluation.{IsUnreserved, serve_http-sent, eval-agrees}
use regula.Program.Publication.{serve_put-sent, Holds-updated, put-eval}
use regula.Program.Stored.{reply_of-stored}
use regula.Program.Seen.{seen}
use regula.Tests.Runs.{machine}
use regula.Tests.Samples.{whole_floats, sample, given, text}
use regula.Tests.Rulesets.{sent, sample-IsHeld}
use regula.Tests.Documents.{
  first_text, first_text-FindsKind, plain, plain-IsCodec, sample-IsPortable, sample-IsAccepted,
}
use regula.Tests.Etcd.{v1-IsPart, empty-IsBare, first_put, visitors}
use regula.Tests.Paging.{marked}

-- A world in which nothing is listed or watched.
abbrev world : World
world = record {
  get_range = λ kv req. ok (record { kvs = []; count = 0; more = false; revision = pos 1 });
  messages = [];
  watch_end = message "context canceled";
  ksuid = ok "v1";
  failure = none;
}

-- A relative path at "http://host/".
abbrev pub at_root : String → String
at_root String.[] = "/"
at_root (String.◌∷◌ c s) = s

pub at_root-IsRoot : IsRoot at_root
at_root-IsRoot = (λ s h. ap at_root (L.cons-append "." "/" s), refl)

differs : (s t : String) → (s == t) ≡ false → s ≢ t
differs s t h e = cc (h, (eq_iff s t).1 e)

given-IsUnreserved : All IsUnreserved (keys given)
given-IsUnreserved = (
  (
    differs "city" "version" refl,
    (
      differs "city" "list" refl,
      (
        differs "city" "eval" refl,
        (differs "city" "watch" refl, (differs "city" "revision" refl, tt)),
      ),
    ),
  ),
  (
    (
      differs "age" "version" refl,
      (
        differs "age" "list" refl,
        (
          differs "age" "eval" refl,
          (differs "age" "watch" refl, (differs "age" "revision" refl, tt)),
        ),
      ),
    ),
    tt,
  ),
)

abbrev adult_reply : Reply WireResult
adult_reply = reply 200 (decoded (record { value = some (text "adult"); version = "v1" }))

-- The path that is put.
abbrev pub visited : String
visited = "europe/visitors"

answered_adult :
    reply_of
      (λ s. s)
      unmarshal_result
      (answer_eval visited
        (eval_shelf whole_floats (some (map_params whole_floats given)) (some visitors)))
    ≡ ok adult_reply
unfolding machine answer_eval body_document unmarshal_result status_code
answered_adult = refl

encoded_given : encode_params (map_params whole_floats given) (keys given) ≡ ok sent
unfolding machine encode_params
encoded_given = refl

sample-IsCarried : All (IsCarried whole_floats given) (all_params sample.rules)
sample-IsCarried = All-map (λ x h. inl h) (all_params sample.rules) sample-IsHeld

eval-agrees_example :
    eval at_root (pos 3) (λ r i. adult_reply) visited (map_params whole_floats given)
    ≡ seen (eval_shelf whole_floats (some (map_params whole_floats given)) (some visitors))
eval-agrees_example =
    eval-agrees whole_floats plain "regula" marked world (Simulates.state first_put) visited
      (some visitors) given sent at_root (pos 3) (λ s. s) (λ r i. adult_reply) plain-IsCodec
      (IsAccepted.path_name sample-IsAccepted) (Simulates.holds first_put) encoded_given
      given-IsUnreserved sample-IsCarried at_root-IsRoot
      (λ i.
        ap (λ x. reply_of (λ s. s) unmarshal_result x.1)
          (serve_http-sent whole_floats plain "regula" marked world plain-IsCodec
            (Simulates.state first_put) visited (some visitors)
            (IsAccepted.path_name sample-IsAccepted) (Simulates.holds first_put) given sent
            encoded_given given-IsUnreserved at_root at_root-IsRoot sample-IsCarried)
        ∙ answered_adult)

-- A map without the parameter of the second rule.
abbrev only_city : List (String × Dynamic whole_floats)
only_city = ("city", string "rome") ∷ []

only_city-IsCarried : All (IsCarried whole_floats only_city) (all_params sample.rules)
unfolding machine
only_city-IsCarried = (
  inl (record {
    held = string "rome";
    found = refl;
    carries = tt;
    named = differs "city" "eval" refl;
  }),
  (inr (refl, differs "age" "eval" refl), tt),
)

missing_refused :
    answer_eval visited
      (eval_shelf whole_floats (some (map_params whole_floats only_city)) (some visitors))
    ≡ ok (record { status = bad_request; body = error_body (rule_error RuleError.param_not_found) })
unfolding machine answer_eval
missing_refused = refl

abbrev pub stored : RulesetEntry
stored = record { path = visited; version = "v1"; rule_set = some sample }

put-eval_example :
    (put at_root (pos 3) (λ r i. reply 200 (decoded stored)) visited sample ≡ (stored, none))
    × (eval at_root (pos 3) (λ r i. adult_reply) visited (map_params whole_floats given)
        ≡ seen (
            versioned whole_floats "v1"
              (eval_ruleset whole_floats (some (map_params whole_floats given)) sample)))
put-eval_example =
    put-eval whole_floats plain "regula" marked world world [] visited none sample "v1" given sent
      at_root (pos 3) (λ s. s) (λ r i. reply 200 (decoded stored)) (λ r i. adult_reply)
      plain-IsCodec sample-IsAccepted v1-IsPart sample-IsPortable empty-IsBare tt encoded_given
      given-IsUnreserved sample-IsHeld at_root-IsRoot
      (ap (λ x. reply_of (λ s. s) (unmarshal_api_ruleset first_text) x.1)
          (serve_put-sent whole_floats plain "regula" marked world plain-IsCodec [] visited none
            sample "v1" sample-IsAccepted v1-IsPart sample-IsPortable empty-IsBare at_root
            at_root-IsRoot)
        ∙ reply_of-stored (λ s. s) first_text stored first_text-FindsKind sample-IsPortable)
      (λ i.
        ap (λ x. reply_of (λ s. s) unmarshal_result x.1)
          (serve_http-sent whole_floats plain "regula" marked world plain-IsCodec _ visited
            (some visitors) (IsAccepted.path_name sample-IsAccepted)
            (Holds-updated whole_floats plain "regula" marked world plain-IsCodec [] visited none
              sample "v1" sample-IsAccepted v1-IsPart sample-IsPortable empty-IsBare at_root
              at_root-IsRoot tt)
            given sent encoded_given given-IsUnreserved at_root at_root-IsRoot sample-IsCarried)
        ∙ answered_adult)
