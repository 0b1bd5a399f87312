-- ===== src/Store/Etcd/Paging.antt =====
-- The pages of List of store/etcd/rulesets.go.
use regula.Store.{RulesetEntry, RulesetEntries}
use regula.Prelude.{
  ◌≤◌, ℤ, pos, String, some, List, last?, length, ◌≡◌, ◌≢◌, ap, ◌∙◌, ◌⊎◌, inl, inr, All, arith,
}
use regula.Outcome.{Result, ok, ◌>>=◌}
use regula.Store.Etcd.{Codec, wrap}
use regula.Store.Etcd.Listing.{
  RangeRequest, RangeResponse, Tokens, page_limit, continue_after, list_page, list,
}
use regula.Store.Etcd.Pages.{
  IsTokens, ObeysLimit, allowed, IsStoredEntry, page_limit-allowed, last?-All, read_entries-length,
  Ends, Asked, list-Asked, range_request-limit, request_after, range_request-after,
}

-- A page that is asked for with a limit from 1 to 100 has at most that many entries, and one that is
-- asked for with any other limit but 0 has at most 50: etcd returns no more values than it is asked
-- for.
pub list-IsBounded :
    (cd : Codec) (ns : String) (tk : Tokens) (get_range : RangeRequest → Result RangeResponse)
    (prefix token : String) (limit : ℤ) (page : RulesetEntries)
    → ObeysLimit get_range
    → limit ≢ pos 0
    → list cd ns tk get_range prefix limit token ≡ ok page
    → length page.entries ≤ allowed limit
list-IsBounded cd ns tk get_range prefix token limit page obeys ne h =
    let asked = list-Asked cd ns tk get_range prefix token limit page h in
    let (n, e, small) = page_limit-allowed limit ne in
    let held = obeys (Asked.request asked) (Asked.response asked) n (Asked.answered asked) (
      range_request-limit cd ns tk prefix token (page_limit limit) (Asked.request asked)
        (Asked.made asked)
      ∙ e) in
    let same : length page.entries ≡ length (RangeResponse.kvs (Asked.response asked)) =
      ap length (Ends.entries (Asked.ends asked))
      ∙ read_entries-length cd ns tk (RangeResponse.kvs (Asked.response asked)) (Asked.es asked)
          (Asked.read asked) in
    omega (arith, same, held, small)

-- A page with a continue token has a last entry, and a list with that token, whatever the state and
-- the limit by then, asks etcd for the keys from the entry's key with a character 0 on: the first
-- key after it, so that none is left out or listed twice. The entries are as Put writes them, and
-- base64 gives a text back.
pub list-resumes :
    (cd : Codec) (ns : String) (tk : Tokens) (get_range later : RangeRequest → Result RangeResponse)
    (prefix token : String) (limit next_limit : ℤ) (page : RulesetEntries)
    → IsTokens tk
    → All IsStoredEntry page.entries
    → page.continue ≢ ""
    → list cd ns tk get_range prefix limit token ≡ ok page
    → (e : RulesetEntry) × (last? page.entries ≡ some e)
      × (list cd ns tk later prefix next_limit page.continue ≡ (
          wrap
            (later (request_after cd ns tk prefix (page_limit next_limit) e))
            "failed to fetch all entries"
          >>= list_page cd ns tk prefix (page_limit next_limit)))
unfolding list
list-resumes cd ns tk get_range later prefix token limit next_limit page ht stored ne h =
    let ends = Asked.ends (list-Asked cd ns tk get_range prefix token limit page h) in
    go (Asked.es (list-Asked cd ns tk get_range prefix token limit page h)) (Ends.entries ends)
      (Ends.token ends)
  where
    go :
        (es : List RulesetEntry)
        → page.entries ≡ es
        → (page.continue ≡ "")
          ⊎ ((e : RulesetEntry) × (last? es ≡ some e) × (page.continue ≡ continue_after cd ns tk e))
        → (e : RulesetEntry) × (last? page.entries ≡ some e)
          × (list cd ns tk later prefix next_limit page.continue ≡ (
              wrap
                (later (request_after cd ns tk prefix (page_limit next_limit) e))
                "failed to fetch all entries"
              >>= list_page cd ns tk prefix (page_limit next_limit)))
    go es same (inl blank) = absurd (ne blank)
    go es same (inr (e, last, token_of)) =
        let at : last? page.entries ≡ some e = ap last? same ∙ last in
        (
          e,
          at,
          ap (list cd ns tk later prefix next_limit) token_of
              ∙ ap
                  (λ r. r >>= λ req.
                    wrap (later req) "failed to fetch all entries"
                    >>= list_page cd ns tk prefix (page_limit next_limit))
                  (range_request-after cd ns tk prefix (page_limit next_limit) e ht
                    (last?-All IsStoredEntry page.entries e stored at)),
        )
