-- ===== src/Client/Following.antt =====
-- NewEvaluator of api/client/evaluator.go as a whole: the listing, and the watch from its revision.
-- `polls` are the polls of the watch, by the revision that it starts from.
use regula.Prelude.{
  ℕ, suc, String, Bool, true, false, Option, none, some, List, ◌++◌, length, All, ◌≡◌, ap, ◌∙◌,
}
use regula.Outcome.{Result, ok, ◌>>=◌}
use regula.Store.{RulesetEntries}
use regula.Buffer.{RulesetBuffer, new_ruleset_buffer}
use regula.Buffer.History.{replay}
use regula.Client.{Poll, watch, consume, fill}
use regula.Client.Listing.{page_infos, entry_infos, Follows, fill-pages}
use regula.Client.Watching.{news, GoesOn, consume-watch}

-- The goroutine, if there is one.
unfoldable pub follow : Bool → (String → List Poll) → RulesetBuffer × String → Result RulesetBuffer
unfolding watch consume
follow false polls (b, revision) = ok b
follow true polls (b, revision) = consume b (watch revision (polls revision)).sent

unfoldable pub after_fill :
    Bool
    → (String → List Poll)
    → Option (Result (RulesetBuffer × String))
    → Option (Result RulesetBuffer)
unfolding follow
after_fill watching polls none = none
after_fill watching polls (some out) = some (out >>= follow watching polls)

-- The buffer of the evaluator, where at most so many requests of the listing are made.
unfoldable pub new_evaluator :
    (String → Result RulesetEntries)
    → ℕ
    → Bool
    → (String → List Poll)
    → Option (Result RulesetBuffer)
unfolding after_fill fill
new_evaluator list n watching polls = after_fill watching polls (fill list n new_ruleset_buffer "")

-- Where the listing ends after so many pages and no poll of the watch ends it, the evaluator that
-- watches holds the entries of all the pages and then what the watch brought, added in this order;
-- one request for each page is enough.
pub new_evaluator-replay :
    (list : String → Result RulesetEntries) (ps : List RulesetEntries) (last : RulesetEntries)
    (polls : String → List Poll)
    → Follows list "" ps last
    → All GoesOn (polls last.revision)
    → new_evaluator list (suc (length ps)) true polls
      ≡ some (
          ok (
            replay
              (replay new_ruleset_buffer (page_infos ps ++ entry_infos last.entries))
              (news (polls last.revision))))
unfolding new_evaluator after_fill follow
new_evaluator-replay list ps last polls pages goes_on =
    ap (after_fill true polls) (fill-pages list new_ruleset_buffer "" ps last pages)
    ∙ ap some (
        consume-watch (replay new_ruleset_buffer (page_infos ps ++ entry_infos last.entries))
          last.revision (polls last.revision) goes_on)
