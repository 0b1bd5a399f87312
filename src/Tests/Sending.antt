-- ===== src/Tests/Sending.antt =====
-- Requests of the client at fixed inputs, and what the server makes of a listing.
use regula.Prelude.{ℕ, suc, zero, ◌<◌, arith, pos, String, none, some, [], ◌∷◌, ◌≡◌, refl}
use regula.Outcome.{ok}
use regula.Json.{raw}
use regula.Buffer.{RulesetBuffer}
use regula.Paths.{split}
use regula.Store.{RulesetService}
use regula.Server.{Request}
use regula.Client.{is_retriable_error}
use regula.Client.Sending.{
  join_path, list_query, decoded, at_end, Reply, reply, do_request, try_request,
}
use regula.Client.Sending.Answered.{IsBusy, try_request-decoded}
use regula.Tests.Samples.{whole_floats}
use regula.Tests.Requests.{memory}

-- The paths of a listing of everything, and of one path.
joined :
    (join_path "" ≡ "./rulesets/") × (join_path "europe/visitors" ≡ "./rulesets/europe/visitors")
unfolding join_path regula.Paths.path_join
joined = (refl, refl)

-- A store that lists nothing, and shows what it was asked.
abbrev echoing : RulesetService whole_floats RulesetBuffer
echoing = record memory {
  list = λ st prefix limit token. ok (record { entries = []; revision = token; continue = prefix });
}

abbrev ask_page : Request
ask_page = record {
  method = "GET";
  path = "/rulesets/europe";
  query = ("list", "") ∷ ("limit", "20") ∷ ("continue", "next") ∷ [];
  body = raw "";
}

query_of_page : ask_page.query ≡ list_query (some (record { limit = pos 20; continue = "next" }))
unfolding list_query regula.Strconv.format_int
query_of_page = refl

-- A server that fails once, and then answers.
abbrev second_time : ℕ → Reply String
second_time zero = reply 500 at_end
second_time (suc i) = reply 200 (decoded "done")

fails_once : (i : ℕ) → i < 1 → IsBusy "" (second_time i)
unfolding is_retriable_error do_request
fails_once zero h = refl
fails_once (suc i) h = absurd (omega arith)

try_request-decoded_example : try_request "" second_time (pos 3) ≡ ("done", none)
try_request-decoded_example =
    try_request-decoded "" second_time 3 1 200 "done" (omega arith) refl (omega arith) (omega arith)
      fails_once
