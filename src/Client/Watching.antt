-- ===== src/Client/Watching.antt =====
-- The buffer of an Evaluator that watches: api/client/evaluator.go over the watch of
-- api/client/rulesets.go.
use regula.Api.{Events}
use regula.Prelude.{
  String, Bool, true, false, List, [], ◌∷◌, ◌++◌, append_assoc, append-nil, ◌≡◌, refl, sym, ap, ◌∙◌,
  inl, inr, if◌then◌else◌, ◌==◌, nat_eq, Bool-cases, All,
}
use regula.Outcome.{ok, panic, ◌>>=◌}
use regula.Store.{RulesetEvent}
use regula.Buffer.{RulesetBuffer, RulesetInfo, add}
use regula.Buffer.History.{replay}
use regula.Client.{
  net_error, another, api_error, Poll, done, failed, answered, WatchResponse, watched, watch_failed,
  WatchState, send_error, watch_step, watch_run, watch, add_events, consume,
}

-- The additions that events of the type PUT ask for, in their order.
abbrev pub put_infos : List RulesetEvent → List RulesetInfo
put_infos [] = []
put_infos (e ∷ es) =
    if e.type == "PUT"
    then record { path = e.path; version = e.version; r = e.rule_set } ∷ put_infos es
    else put_infos es

-- The additions of all the answers that did not time out.
abbrev pub news : List Poll → List RulesetInfo
news [] = []
news (answered e ∷ ps) = if e.timeout then news ps else put_infos e.events ++ news ps
news (_ ∷ ps) = news ps

-- After this poll the watch goes on, and sends no error.
abbrev pub GoesOn : Poll → Type 0
GoesOn (answered e) = Unit
GoesOn (failed net_error) = Unit
GoesOn (failed another) = Unit
GoesOn (failed (api_error code)) = nat_eq code 404 ≡ false
GoesOn _ = ⊥

pub replay-append :
    (b : RulesetBuffer) (xs ys : List RulesetInfo) → replay b (xs ++ ys) ≡ replay (replay b xs) ys
unfolding replay
replay-append b [] ys = refl
replay-append b (a ∷ xs) ys = replay-append (add b a.path a.version a.r) xs ys

add_events-replay :
    (b : RulesetBuffer) (es : List RulesetEvent) → add_events b es ≡ replay b (put_infos es)
unfolding add_events replay
add_events-replay b [] = refl
add_events-replay b (e ∷ es) = elim (Bool-cases (e.type == "PUT")) [
  | inl put ↦ rw put (add_events-replay (add b e.path e.version e.rule_set) es)
  | inr other ↦ rw other (add_events-replay b es)
]

consume-append :
    (b : RulesetBuffer) (l k : List WatchResponse)
    → consume b (l ++ k) ≡ (consume b l >>= λ b'. consume b' k)
unfolding consume
consume-append b [] k = refl
consume-append b (watched e ∷ l) k = consume-append (add_events b e.events) l k
consume-append b (watch_failed e ∷ l) k = refl

-- The watch runs, and what it sent takes the first buffer to the second.
record IsAt (b b' : RulesetBuffer) (st : WatchState) : Type 0 where
  runs : st.running ≡ true
  reads : consume b st.sent ≡ ok b'

consume-answer :
    (b b' : RulesetBuffer) (st : WatchState) (e : Events)
    → IsAt b b' st
    → consume b (st.sent ++ watched e ∷ []) ≡ ok (replay b' (put_infos e.events))
unfolding consume
consume-answer b b' st e h =
    consume-append b st.sent (watched e ∷ []) ∙ rw h.reads (ap ok (add_events-replay b' e.events))

if-IsAt :
    (b b' : RulesetBuffer) (st : WatchState) (e : Events)
    → IsAt b b' st
    → (late : Bool)
    → IsAt b
        (replay b' (if late then [] else put_infos e.events ++ []))
        (if late then st else record st { sent = st.sent ++ watched e ∷ []; revision = e.revision })
unfolding replay
if-IsAt b b' st e h true = h
if-IsAt b b' st e h false =
    rw (append-nil (put_infos e.events))
      (record { runs = h.runs; reads = consume-answer b b' st e h })

watch_step-IsAt :
    (b b' : RulesetBuffer) (st : WatchState) (p : Poll)
    → IsAt b b' st
    → GoesOn p
    → IsAt b (replay b' (news (p ∷ []))) (watch_step st p)
unfolding watch_step replay
watch_step-IsAt b b' st (failed net_error) h g = h
watch_step-IsAt b b' st (failed another) h g = h
watch_step-IsAt b b' st (failed (api_error code)) h g = rw g h
watch_step-IsAt b b' st (answered e) h g = if-IsAt b b' st e h e.timeout
watch_step-IsAt b b' st _ h g = absurd g

news-cons : (p : Poll) (ps : List Poll) → news (p ∷ ps) ≡ news (p ∷ []) ++ news ps
news-cons (answered e) ps = elim (Bool-cases e.timeout) [
  | inl late ↦ rw late refl
  | inr fresh ↦ rw fresh (sym (append_assoc (put_infos e.events) [] (news ps)))
]
news-cons (failed e) ps = refl
news-cons done ps = refl

watch_run-cons :
    (st : WatchState) (p : Poll) (ps : List Poll)
    → st.running ≡ true
    → watch_run st (p ∷ ps) ≡ watch_run (watch_step st p) ps
unfolding watch_run
watch_run-cons st p ps h = rw h refl

watch_run-IsAt :
    (b b' : RulesetBuffer) (st : WatchState) (ps : List Poll)
    → IsAt b b' st
    → All GoesOn ps
    → IsAt b (replay b' (news ps)) (watch_run st ps)
watch_run-IsAt b b' st [] h _ = unfold watch_run replay in h
watch_run-IsAt b b' st (p ∷ ps) h (g, gs) =
    let next =
      watch_run-IsAt b (replay b' (news (p ∷ []))) (watch_step st p) ps
        (watch_step-IsAt b b' st p h g) gs in
    rw (watch_run-cons st p ps h.runs, news-cons p ps, replay-append b' (news (p ∷ [])) (news ps))
      next

-- While a watch goes on, the buffer that follows it is the first one with each ruleset of the
-- answers added, in the order of the events; only answers that timed out and events of another
-- type than PUT add nothing.
pub consume-watch :
    (b : RulesetBuffer) (revision : String) (ps : List Poll)
    → All GoesOn ps
    → consume b (watch revision ps).sent ≡ ok (replay b (news ps))
unfolding watch consume
consume-watch b revision ps h =
    (watch_run-IsAt b b (record { revision = revision; sent = []; running = true }) ps
      (record { runs = refl; reads = refl }) h).reads

watch_run-append :
    (b b' : RulesetBuffer) (st : WatchState) (ps qs : List Poll)
    → IsAt b b' st
    → All GoesOn ps
    → watch_run st (ps ++ qs) ≡ watch_run (watch_run st ps) qs
watch_run-append b b' st [] qs h _ = ap (λ s. watch_run s qs) (unfold watch_run in refl)
watch_run-append b b' st (p ∷ ps) qs h (g, gs) =
    watch_run-cons st p (ps ++ qs) h.runs
    ∙ watch_run-append b (replay b' (news (p ∷ []))) (watch_step st p) ps qs
        (watch_step-IsAt b b' st p h g) gs
    ∙ ap (λ s. watch_run s qs) (sym (watch_run-cons st p ps h.runs))

watch_run-stopped : (st : WatchState) (ps : List Poll) → st.running ≡ false → watch_run st ps ≡ st
unfolding watch_run
watch_run-stopped st [] h = refl
watch_run-stopped st (p ∷ ps) h = rw h refl

consume-gone :
    (b b' : RulesetBuffer) (st : WatchState) (rest : List Poll)
    → IsAt b b' st
    → consume b (watch_run st (failed (api_error 404) ∷ rest)).sent ≡ panic
unfolding watch_step send_error consume
consume-gone b b' st rest h =
    ap (λ s. consume b s.sent)
      (watch_run-cons st (failed (api_error 404)) rest h.runs
        ∙ watch_run-stopped (watch_step st (failed (api_error 404))) rest refl)
    ∙ consume-append b st.sent (watch_failed (api_error 404) ∷ [])
    ∙ rw h.reads refl

-- If the server answers a poll of a watch that went on so far with the status 404, the goroutine of
-- the Evaluator panics, whatever would come after.
pub consume-watch_gone :
    (b : RulesetBuffer) (revision : String) (ps rest : List Poll)
    → All GoesOn ps
    → consume b (watch revision (ps ++ failed (api_error 404) ∷ rest)).sent ≡ panic
unfolding watch consume
consume-watch_gone b revision ps rest h =
    let start : IsAt b b (record { revision = revision; sent = []; running = true }) = record {
      runs = refl;
      reads = refl;
    } in
    ap (λ s. consume b s.sent) (watch_run-append b b _ ps (failed (api_error 404) ∷ rest) start h)
    ∙ consume-gone b (replay b (news ps)) _ rest (watch_run-IsAt b b _ ps start h)
