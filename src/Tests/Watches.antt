-- ===== src/Tests/Watches.antt =====
-- The theorems about the client at concrete attempts and polls.
use regula.Prelude.{
  ◌==◌, ◌≢◌, ℕ, suc, zero, pos, String, true, false, Option, none, some, List, [], ◌∷◌, ◌++◌, ◌≡◌,
  refl,
}
use regula.Outcome.{Result, ok, panic}
use regula.Buffer.{new_ruleset_buffer}
use regula.Buffer.History.{replay}
use regula.Client.{ClientError, net_error, api_error, try_n, Poll, answered, failed, consume, watch}
use regula.Store.{RulesetEntries}
use regula.Client.Listing.{page_infos, entry_infos}
use regula.Client.Following.{new_evaluator, new_evaluator-replay}
use regula.Client.Watching.{news, consume-watch_gone}
use regula.Tests.Samples.{sample}

-- Two failures, and then an answer.
abbrev attempts : ℕ → String × Option ClientError
attempts zero = ("", some net_error)
attempts (suc zero) = ("", some (api_error 500))
attempts (suc (suc n)) = ("answer", none)

third_try :
    (try_n attempts (pos 3) ≡ ("answer", none))
    × (try_n attempts (pos 2) ≡ ("", some (api_error 500)))
unfolding try_n
third_try = (refl, refl)

abbrev polls : List Poll
polls =
    failed net_error
    ∷ answered (record {
      events = record { type = "PUT"; path = "a"; version = "v1"; rule_set = some sample } ∷ [];
      revision = "7";
      timeout = false;
    })
    ∷ answered (record { events = []; revision = ""; timeout = true })
    ∷ []

consume-watch_gone_example :
    consume new_ruleset_buffer (watch "6" (polls ++ failed (api_error 404) ∷ [])).sent ≡ panic
consume-watch_gone_example = consume-watch_gone new_ruleset_buffer "6" polls [] (tt, (tt, (tt, tt)))

-- The next poll asks from the last revision that was answered.
next_revision : (watch "6" polls).revision ≡ "7"
unfolding watch
next_revision = refl

-- Two pages, the second one asked for by the token "next".
abbrev page : String → String → RulesetEntries
page path token = record {
  entries = record { path = path; version = "v1"; rule_set = some sample } ∷ [];
  revision = "9";
  continue = token;
}

abbrev pages : String → Result RulesetEntries
pages token = elim (token == "next") [ true ↦ ok (page "b" "") | false ↦ ok (page "a" "next") ]

next_not_empty : ◌≢◌ {A = String} "next" ""
next_not_empty e = cc

-- The watch starts from the revision of the last page.
abbrev polls_from : String → List Poll
polls_from revision = elim (revision == "9") [ true ↦ polls | false ↦ [] ]

new_evaluator-replay_example :
    new_evaluator pages 2 true polls_from
    ≡ some (
        ok (
          replay
            (replay new_ruleset_buffer
              (page_infos (page "a" "next" ∷ []) ++ entry_infos (page "b" "").entries))
            (news polls)))
new_evaluator-replay_example =
    new_evaluator-replay pages (page "a" "next" ∷ []) (page "b" "") polls_from
      (refl, next_not_empty, (refl, refl)) (tt, (tt, (tt, tt)))
