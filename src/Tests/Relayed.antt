-- ===== src/Tests/Relayed.antt =====
-- A client's listing and its watch, answered by the server over services that are written out.
use regula.Prelude.{inr, arith, pos, false, String, Option, none, some, [], ◌∷◌, ◌≡◌, refl, ap, ◌∙◌}
use regula.Outcome.{Result, ok, err, message}
use regula.Json.{Bytes}
use regula.Api.{Events}
use regula.Api.RoundTrip.{rulesets_json-roundtrip, events_json-roundtrip}
use regula.Program.Listing.{IsSentWhole, list-agrees}
use regula.Server.{answer_list}
use regula.Server.Listed.{serve_http-list_query}
use regula.Client.Calls.{list_request, list}
use regula.Client.Sending.{ListOptions}
use regula.Store.{RulesetEntries, RulesetService}
use regula.Api.Unmarshal.{unmarshal_rulesets, unmarshal_events}
use regula.Ruleset.{Ruleset}
use regula.Store.Etcd.Parts.{IsPath-not_empty, IsPath-IsOrdinary}
use regula.Store.Names.Validation.{IsAccepted}
use regula.Server.{body_document, status_code, serve_http}
use regula.Client.Sending.{Reply, decoded, reply}
use regula.Program.{reply_of}
use regula.Tests.Samples.{whole_floats, sample}
use regula.Tests.Documents.{first_text, first_text-FindsKind, sample-IsPortable, sample-IsAccepted}
use regula.Tests.Program.{at_root, at_root-IsRoot, visited, stored}
use regula.Prelude.{Bool, true, false}
use regula.Outcome.{deadline_exceeded}
use regula.Client.{WatchState}
use regula.Client.Calls.{watch_request, watch_rounds}
use regula.Server.{answer_watch}
use regula.Server.Watched.{serve_http-watch}
use regula.Store.{RulesetEvents}
use regula.Server.{Request}
use regula.Client.Sending.Located.{IsServed, path_of-sent}
use regula.Program.Watching.{relay_all, trips, watch-agrees}

-- A page with a ruleset and a nil one, and the events of a watch.
abbrev listed : RulesetEntries
listed = record {
  entries = stored ∷ record { path = "empty"; version = "v1"; rule_set = none } ∷ [];
  revision = "7";
  continue = "";
}

abbrev listing : RulesetService whole_floats Unit
listing = record {
  list = λ st prefix limit token. ok listed;
  watch = λ st prefix revision. err (message "no watch");
  put = λ st path rs. err (message "no put");
  eval = λ st path ps. err (message "no evaluation");
  eval_version = λ st path version ps. err (message "no evaluation");
}

abbrev refuse : Bytes → Result Ruleset
refuse b = err (message "bad body")

abbrev some_page : Option ListOptions
some_page = some (record { limit = pos 20; continue = "" })

listed-IsSentWhole : IsSentWhole (ok listed)
listed-IsSentWhole = (sample-IsPortable, (tt, tt))

answered_listed :
    reply_of (λ s. s) (unmarshal_rulesets first_text) (answer_list (ok listed))
    ≡ ok (reply 200 (decoded listed))
unfolding body_document status_code answer_list
answered_listed =
    rw (rulesets_json-roundtrip first_text first_text-FindsKind listed listed-IsSentWhole) refl

listed_reply :
    reply_of
      (λ s. s)
      (unmarshal_rulesets first_text)
      (serve_http listing refuse tt (list_request at_root visited some_page)).1
    ≡ ok (reply 200 (decoded listed))
unfolding list_request
listed_reply =
    ap (λ x. reply_of (λ s. s) (unmarshal_rulesets first_text) x.1)
      (serve_http-list_query listing refuse tt (list_request at_root visited some_page) some_page
        refl refl (omega arith))
    ∙ answered_listed

list-agrees_example :
    list at_root (pos 3) (λ r i. reply 200 (decoded listed)) visited some_page ≡ (listed, none)
list-agrees_example =
    list-agrees listing refuse tt visited some_page at_root (pos 3) (λ s. s) first_text
      (λ r i. reply 200 (decoded listed)) first_text-FindsKind at_root-IsRoot
      (inr (
        IsPath-not_empty visited (IsAccepted.path_name sample-IsAccepted),
        IsPath-IsOrdinary visited (IsAccepted.path_name sample-IsAccepted),
      ))
      (omega arith) listed-IsSentWhole (λ i. listed_reply)

-- The states of a store: one with events, and one in which none come in time.
abbrev watched : Events
watched = record {
  events =
      record { type = "PUT"; path = visited; version = "v1"; rule_set = some sample }
      ∷ record { type = "DELETE"; path = "empty"; version = "v1"; rule_set = none }
      ∷ [];
  revision = "8";
  timeout = false;
}

abbrev timed_out : Events
timed_out = record { events = []; revision = ""; timeout = true }

abbrev answer : Bool → Result RulesetEvents
answer true = ok (record { events = watched.events; revision = "8" })
answer false = err deadline_exceeded

abbrev watching : RulesetService whole_floats Bool
watching = record {
  list = λ st prefix limit token. ok listed;
  watch = λ st prefix revision. answer st;
  put = λ st path rs. err (message "no put");
  eval = λ st path ps. err (message "no evaluation");
  eval_version = λ st path version ps. err (message "no evaluation");
}

abbrev trip : Bool → Request → Reply Events
trip true r = reply 200 (decoded watched)
trip false r = reply 200 (decoded timed_out)

answered_trip :
    (s : Bool) (r : Request)
    → reply_of (λ x. x) (unmarshal_events first_text) (answer_watch (answer s)) ≡ ok (trip s r)
unfolding body_document status_code answer_watch
answered_trip true r =
    rw (events_json-roundtrip first_text first_text-FindsKind watched (sample-IsPortable, (tt, tt)))
      refl
answered_trip false r = rw (events_json-roundtrip first_text first_text-FindsKind timed_out tt) refl

visited-IsServed : IsServed visited
visited-IsServed = (
  IsPath-not_empty visited (IsAccepted.path_name sample-IsAccepted),
  IsPath-IsOrdinary visited (IsAccepted.path_name sample-IsAccepted),
)

asked_trip :
    (s : Bool) (revision : String)
    → reply_of
        (λ x. x)
        (unmarshal_events first_text)
        (serve_http watching refuse s (watch_request at_root visited revision)).1
      ≡ ok (trip s (watch_request at_root visited revision))
unfolding watch_request
asked_trip s revision =
    ap (λ x. reply_of (λ x. x) (unmarshal_events first_text) x.1)
      (serve_http-watch watching refuse s at_root visited revision visited (
        path_of-sent at_root visited (watch_request at_root visited revision) at_root-IsRoot
          visited-IsServed refl))
    ∙ answered_trip s (watch_request at_root visited revision)

answer-whole : (s : Bool) (revision : String) → regula.Program.Watching.IsSentWhole (answer s)
answer-whole true revision = (sample-IsPortable, (tt, tt))
answer-whole false revision = tt

abbrev from_start : WatchState
from_start = record { revision = ""; sent = []; running = true }

watch-agrees_example :
    watch_rounds at_root visited from_start (trips trip (false ∷ true ∷ []))
    ≡ relay_all watching visited from_start (false ∷ true ∷ [])
watch-agrees_example =
    watch-agrees watching refuse visited at_root (λ s. s) first_text trip (false ∷ true ∷ [])
      from_start first_text-FindsKind at_root-IsRoot (inr visited-IsServed) answer-whole asked_trip
