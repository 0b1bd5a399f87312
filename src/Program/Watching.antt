-- ===== src/Program/Watching.antt =====
-- Watch of api/client against the server over any RulesetService.
use regula.Prelude.{
  String, true, false, List, [], ◌∷◌, ◌++◌, if◌then◌else◌, All, ◌⊎◌, ◌≡◌, refl, sym, ap, ◌∙◌, inl,
  inr,
}
use regula.Outcome.{Result, ok, err, panic, store_error, StoreError, deadline_exceeded}
use regula.Json.{Json, Bytes}
use regula.Floats.{Floats}
use regula.Rule.Json.RoundTrip.{FindsKind}
use regula.Ruleset.{Ruleset}
use regula.Store.{RulesetEvents, RulesetService}
use regula.Api.{Events}
use regula.Api.RoundTrip.{IsSendable, events_json-roundtrip}
use regula.Api.Unmarshal.{zero_events, unmarshal_events}
use regula.Server.{
  Request, answer_watch, serve_http, path_of, status_code, body_document, write_error,
}
use regula.Server.Watched.{serve_http-watch}
use regula.Client.{api_error, net_error, WatchState, watched, watch_failed, watch_step, send_error}
use regula.Client.Sending.{at_end, decoded, no_reply, Reply, reply, do_request}
use regula.Client.Sending.Located.{IsRoot, IsServed, path_of-sent, path_of-everything}
use regula.Client.Calls.{watch_request, poll_of, watch_once, watch_rounds}
use regula.Program.{ok-inj, reply_of}

-- What a watch does with the answer of the service itself: it passes events on and goes on from
-- their revision, it ends with an error where nothing is found, and asks again after anything else.
abbrev pub relay : WatchState → Result RulesetEvents → WatchState
relay st (ok es) = record st {
  sent =
      st.sent
      ++ watched (record { events = es.events; revision = es.revision; timeout = false }) ∷ [];
  revision = es.revision;
}
relay st (err (store_error StoreError.not_found)) = record st {
  sent = st.sent ++ watch_failed (api_error 404) ∷ [];
  running = false;
}
relay st _ = st

-- The rulesets of the events are given back by their documents.
abbrev pub IsSentWhole : Result RulesetEvents → Type 0
IsSentWhole (ok es) = All (λ e. IsSendable e.rule_set) es.events
IsSentWhole _ = Unit

module _ {fl : Floats} {S : Type 0} (service : RulesetService fl S) (p : String) where
  -- A watch of the service itself, which is asked in these states of the store, one after the other.
  abbrev pub relay_all : WatchState → List S → WatchState
  relay_all st [] = st
  relay_all st (s ∷ ss) =
      let rest = relay_all (relay st (service.watch s p st.revision)) ss in
      if st.running then rest else st

module _ (quote : String → String) (get_str : Json → String → String)
    (finds : FindsKind get_str) where
  answered :
      (st : WatchState) (out : Result RulesetEvents)
      → IsSentWhole out
      → (x : Reply Events) × (reply_of quote (unmarshal_events get_str) (answer_watch out) ≡ ok x)
        × (watch_step st (poll_of (do_request zero_events x)) ≡ relay st out)
  unfolding answer_watch do_request body_document status_code write_error poll_of watch_step
      send_error
  answered st (ok es) h =
      let e : Events = record { events = es.events; revision = es.revision; timeout = false } in
      (reply 200 (decoded e), rw (events_json-roundtrip get_str finds e h) refl, refl)
  answered st (err deadline_exceeded) h =
      let e : Events = record { events = []; revision = ""; timeout = true } in
      (reply 200 (decoded e), rw (events_json-roundtrip get_str finds e tt) refl, refl)
  answered st (err (store_error StoreError.not_found)) h = (reply 404 at_end, refl, refl)
  answered st (err e) h = (reply 500 at_end, refl, refl)
  answered st panic h = (no_reply net_error, refl, refl)

-- The round trips of a watch, in these states of the store.
abbrev pub trips :
    {S : Type 0} → (S → Request → Reply Events) → List S → List (Request → Reply Events)
trips exchange [] = []
trips exchange (s ∷ ss) = exchange s ∷ trips exchange ss

-- A client's Watch of everything, or of a prefix that is not empty and has no part that is empty,
-- "." or "..", answered by the server in any states of
-- the store, one after the other, does what a watch of the service itself does in these states: it
-- sends the same events in the same order, each asked for from the revision of those before, and
-- ends with the status 404 where the service finds nothing. A timeout, another error and a panic of
-- the server are asked again from the same revision. This holds if the server's URL is its host and
-- each ruleset of an event is nil or one that its document gives back.
pub watch-agrees :
    {fl : Floats} {S : Type 0} (service : RulesetService fl S) (decode : Bytes → Result Ruleset)
    (p : String) (resolve quote : String → String) (get_str : Json → String → String)
    (exchange : S → Request → Reply Events) (ss : List S) (st : WatchState)
    → FindsKind get_str
    → IsRoot resolve
    → (p ≡ "") ⊎ IsServed p
    → ((s : S) (revision : String) → IsSentWhole (service.watch s p revision))
    → ((s : S) (revision : String)
        → reply_of quote
            (unmarshal_events get_str)
            (serve_http service decode s (watch_request resolve p revision)).1
          ≡ ok (exchange s (watch_request resolve p revision)))
    → watch_rounds resolve p st (trips exchange ss) ≡ relay_all service p st ss
unfolding watch_rounds watch_once watch_request
watch-agrees {S = S} service decode p resolve quote get_str exchange ss st finds root named whole
      sends =
    go ss st
  where
    at : (revision : String) → path_of (watch_request resolve p revision) ≡ p
    at revision = elim named [
      | inl e ↦ path_of-everything resolve p (watch_request resolve p revision) root e refl
      | inr h ↦ path_of-sent resolve p (watch_request resolve p revision) root h refl
    ]

    once :
        (s : S) (st : WatchState)
        → watch_once resolve p st (exchange s) ≡ relay st (service.watch s p st.revision)
    once s st =
        let (x, got, means) =
          answered quote get_str finds st (service.watch s p st.revision) (whole s st.revision) in
        let r = watch_request resolve p st.revision in
        let same : exchange s r ≡ x = ok-inj (
          sym (sends s st.revision)
          ∙ ap (λ y. reply_of quote (unmarshal_events get_str) y.1)
              (serve_http-watch service decode s resolve p st.revision p (at st.revision))
          ∙ got) in
        ap (λ y. watch_step st (poll_of (do_request zero_events y))) same ∙ means

    go :
        (ss : List S) (st : WatchState)
        → watch_rounds resolve p st (trips exchange ss) ≡ relay_all service p st ss
    go [] st = refl
    go (s ∷ ss) st =
        ap (λ x. if st.running then watch_rounds resolve p x (trips exchange ss) else st)
          (once s st)
        ∙ ap (λ rest. if st.running then rest else st)
            (go ss (relay st (service.watch s p st.revision)))
