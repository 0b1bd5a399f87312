-- ===== src/Client.antt =====
-- api/client: the retries of client.go, the watch of rulesets.go and the goroutine of evaluator.go
-- that follows it. The round trips are a parameter: the outcome of each attempt, or of each poll of
-- a watch, in order. Delays and logging are left out.
pub mod Retries
pub mod Watching
pub mod Listing
pub mod Sending
pub mod Calls
pub mod Following
pub mod Setup
use regula.Api.{Events}
use regula.Prelude.{
  ℕ, suc, zero, ◌-◌, ℤ, pos, negsuc, String, Bool, true, false, ◌||◌, Option, none, some, List, [],
  ◌∷◌, ◌++◌, if◌then◌else◌, ◌==◌, nat_eq,
}
use regula.Outcome.{Result, ok, err, panic, ◌>>=◌}
use regula.Store.{RulesetEvent, RulesetEntry, RulesetEntries}
use regula.Buffer.{RulesetBuffer, add}

-- The errors of `do` that the code tells apart: context.Canceled, context.DeadlineExceeded, which
-- is a net.Error, any other net.Error, an api.Error by its response's status, and the rest.
-- `request_error` is a failure of newRequest.
pub data ClientError : Type 0 where
  canceled deadline_exceeded net_error request_error another : ClientError
  api_error : ℕ → ClientError

unfoldable pub is_retriable_error : Option ClientError → Bool
is_retriable_error none = false
is_retriable_error (some deadline_exceeded) = true
is_retriable_error (some net_error) = true
is_retriable_error (some (api_error code)) = nat_eq code 500 || nat_eq code 408
is_retriable_error (some _) = false

-- How often `i >= times` is false after a failure.
unfoldable pub rounds : ℤ → ℕ
rounds (pos n) = n - 1
rounds (negsuc n) = 0

module _ {A : Type 0} (attempt : ℕ → A × Option ClientError) where
  -- The loop from attempt `i` on, with as many rounds left.
  unfoldable pub try_from : ℕ → ℕ → A × Option ClientError
  unfolding is_retriable_error
  try_from i zero = attempt i
  try_from i (suc left) =
      let more = try_from (suc i) left in
      if is_retriable_error (attempt i).1 then more else attempt i

  unfoldable pub try_n : ℤ → A × Option ClientError
  unfolding try_from rounds
  try_n times = try_from 0 (rounds times)

-- An iteration of the loop of Watch: its context is done, or the outcome of its request.
pub data Poll : Type 0 where
  done : Poll
  failed : ClientError → Poll
  answered : Events → Poll

pub data WatchResponse : Type 0 where
  watched : Events → WatchResponse
  watch_failed : ClientError → WatchResponse

-- The variable `revision`, what was sent on the channel, and whether the goroutine runs.
pub record WatchState : Type 0 where
  pub revision : String
  pub sent : List WatchResponse
  pub running : Bool

unfoldable pub send_error : WatchState → ClientError → WatchState
send_error st e = record st { sent = st.sent ++ watch_failed e ∷ []; running = false }

unfoldable pub watch_step : WatchState → Poll → WatchState
unfolding send_error
watch_step st done = record st { running = false }
watch_step st (failed canceled) = record st { running = false }
watch_step st (failed deadline_exceeded) = record st { running = false }
watch_step st (failed request_error) = send_error st request_error
watch_step st (failed (api_error code)) =
    if nat_eq code 404 then send_error st (api_error code) else st
watch_step st (failed _) = st
watch_step st (answered e) =
    if e.timeout then st else record st { sent = st.sent ++ watched e ∷ []; revision = e.revision }

unfoldable pub watch_run : WatchState → List Poll → WatchState
unfolding watch_step
watch_run st [] = st
watch_run st (p ∷ ps) = let rest = watch_run (watch_step st p) ps in if st.running then rest else st

unfoldable pub watch : String → List Poll → WatchState
unfolding watch_run
watch revision ps = watch_run (record { revision = revision; sent = []; running = true }) ps

-- The loop over the events in NewEvaluator.
unfoldable pub add_events : RulesetBuffer → List RulesetEvent → RulesetBuffer
unfolding add
add_events b [] = b
add_events b (e ∷ es) =
    add_events (if e.type == "PUT" then add b e.path e.version e.rule_set else b) es

-- The loop over the channel: after an error `wr.Events` is nil, and reading its events panics.
unfoldable pub consume : RulesetBuffer → List WatchResponse → Result RulesetBuffer
unfolding add_events
consume b [] = ok b
consume b (watched e ∷ l) = consume (add_events b e.events) l
consume b (watch_failed e ∷ l) = panic

-- The first listing of NewEvaluator; `list` answers a request by its continue token. A page is a
-- RulesetEntries: the struct Rulesets of api/types.go has the same fields.
unfoldable pub add_entries : RulesetBuffer → List RulesetEntry → RulesetBuffer
unfolding add
add_entries b [] = b
add_entries b (re ∷ l) = add_entries (add b re.path re.version re.rule_set) l

-- What is done with a page, where `more` are the pages that follow it.
unfoldable pub fill_page :
    RulesetBuffer
    → (RulesetBuffer → String → Option (Result (RulesetBuffer × String)))
    → Result RulesetEntries
    → Option (Result (RulesetBuffer × String))
unfolding add_entries
fill_page b more (ok ls) =
    if ls.continue == ""
    then some (ok (add_entries b ls.entries, ls.revision))
    else more (add_entries b ls.entries) ls.continue
fill_page b more (err e) = some (err e)
fill_page b more panic = some panic

-- The pages from a token on, with as many requests allowed; `none` where more are needed. The
-- result is the buffer and the revision of the last page.
unfoldable pub fill :
    (String → Result RulesetEntries)
    → ℕ
    → RulesetBuffer
    → String
    → Option (Result (RulesetBuffer × String))
unfolding fill_page
fill list zero b token = none
fill list (suc n) b token = fill_page b (fill list n) (list token)
