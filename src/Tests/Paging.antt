-- ===== src/Tests/Paging.antt =====
-- The pages of the store at sample data.
use regula.Json.{document}
use regula.Store.{RulesetEntry, RulesetEntries}
use regula.Prelude.{
  ℕ, suc, arith, ◌≤◌, pos, String, true, Option, none, some, [], ◌∷◌, length, last?, ◌≡◌, refl, ap,
}
use regula.Outcome.{Result, ok, ◌>>=◌}
use regula.Paths.{path_join}
use regula.Store.Documents.{entry_json}
use regula.Store.Documents.Decoding.{entry_json-roundtrip}
use regula.Store.Names.Validation.{IsAccepted}
use regula.Store.Etcd.{wrap, read_entry}
use regula.Store.Etcd.Listing.{RangeRequest, RangeResponse, Tokens, list, list_page, page_limit}
use regula.Store.Etcd.Pages.{IsTokens, ObeysLimit, request_after}
use regula.Store.Etcd.Paging.{list-IsBounded, list-resumes}
use regula.Tests.Etcd.{v1-IsPart}
use regula.Tests.Samples.{sample}
use regula.Tests.Documents.{
  plain, first_text, first_text-FindsKind, sample-IsPortable, sample-IsAccepted,
}

abbrev drop_mark : String → Option String
drop_mark String.[] = none
drop_mark (String.◌∷◌ c s) = some s

-- A mark in front in place of base64.
abbrev pub marked : Tokens
marked = record { encode = String.◌∷◌ "="; decode = drop_mark; prefix_end = λ s. s }

marked-IsTokens : IsTokens marked
marked-IsTokens = record { decodes = λ s. refl; not_empty = λ s h e. cc }

abbrev visitors_entry : RulesetEntry
visitors_entry = record { path = "europe/visitors"; version = "v1"; rule_set = some sample }

-- One entry, and more to come.
abbrev one_of_many : RangeRequest → Result RangeResponse
one_of_many req = ok (record {
  kvs = document (entry_json visitors_entry) ∷ [];
  count = 2;
  more = true;
  revision = pos 7;
})

one_of_many-ObeysLimit : ObeysLimit one_of_many
one_of_many-ObeysLimit req resp n e limited = rw (ap length (kvs_of e)) (one n)
  where
    kvs_of :
        ok (record {
          kvs = document (entry_json visitors_entry) ∷ [];
          count = 2;
          more = true;
          revision = pos 7;
        })
          ≡ ok resp
        → resp.kvs ≡ document (entry_json visitors_entry) ∷ []
    kvs_of same = cc

    one : (n : ℕ) → 1 ≤ suc n
    one n = omega arith

abbrev first_page : RulesetEntries
first_page = record {
  entries = visitors_entry ∷ [];
  revision = "7";
  continue = String.◌∷◌ "=" (path_join ("europe/visitors" ∷ "v1\0" ∷ []));
}

read_visitors : read_entry plain "regula" (document (entry_json visitors_entry)) ≡ ok visitors_entry
unfolding read_entry
read_visitors =
    ap (λ r. wrap r "failed to unmarshal entry")
      (entry_json-roundtrip first_text first_text-FindsKind "europe/visitors" "v1" sample
        sample-IsPortable)

listed : list plain "regula" marked one_of_many "" (pos 1) "" ≡ ok first_page
unfolding list regula.Strconv.format_int
listed = rw read_visitors refl

list-IsBounded_example : length (first_page.entries) ≤ 1
list-IsBounded_example =
    list-IsBounded plain "regula" marked one_of_many "" "" (pos 1) first_page one_of_many-ObeysLimit
      (λ e. cc) listed

list-resumes_example :
    (e : RulesetEntry) × (last? first_page.entries ≡ some e)
    × (list plain "regula" marked one_of_many "" (pos 200) first_page.continue ≡ (
        wrap
          (one_of_many (request_after plain "regula" marked "" (page_limit (pos 200)) e))
          "failed to fetch all entries"
        >>= list_page plain "regula" marked "" (page_limit (pos 200))))
list-resumes_example =
    list-resumes plain "regula" marked one_of_many one_of_many "" "" (pos 1) (pos 200) first_page
      marked-IsTokens ((IsAccepted.path_name sample-IsAccepted, v1-IsPart), tt) (λ e. cc) listed
