-- ===== src/Client/Listing.antt =====
-- The buffer that NewEvaluator of api/client/evaluator.go fills from the pages of a listing.
use regula.Prelude.{
  ℕ, suc, zero, String, List, [], ◌∷◌, ◌++◌, length, some, ◌≡◌, ◌≢◌, refl, sym, ap, ◌∙◌, ◌==◌,
  eq_iff, Bool-cases, inl, inr, append_assoc,
}
use regula.Outcome.{Result, ok}
use regula.Store.{RulesetEntry, RulesetEntries}
use regula.Buffer.{RulesetBuffer, RulesetInfo, add}
use regula.Buffer.History.{replay}
use regula.Client.{add_entries, fill, fill_page}
use regula.Client.Watching.{replay-append}

abbrev pub entry_infos : List RulesetEntry → List RulesetInfo
entry_infos [] = []
entry_infos (re ∷ l) =
    record { path = re.path; version = re.version; r = re.rule_set } ∷ entry_infos l

-- The additions of all the pages.
abbrev pub page_infos : List RulesetEntries → List RulesetInfo
page_infos [] = []
page_infos (p ∷ ps) = entry_infos p.entries ++ page_infos ps

-- The listing answers by these pages, each asked for with the token of the page before it, and
-- `last` is the page that has no token.
abbrev pub Follows :
    (String → Result RulesetEntries) → String → List RulesetEntries → RulesetEntries → Type 0
Follows list token [] last = (list token ≡ ok last) × (last.continue ≡ "")
Follows list token (p ∷ ps) last =
    (list token ≡ ok p) × (p.continue ≢ "") × Follows list p.continue ps last

add_entries-replay :
    (b : RulesetBuffer) (l : List RulesetEntry) → add_entries b l ≡ replay b (entry_infos l)
unfolding add_entries replay
add_entries-replay b [] = refl
add_entries-replay b (re ∷ l) = add_entries-replay (add b re.path re.version re.rule_set) l

fill-last :
    (list : String → Result RulesetEntries) (n : ℕ) (b : RulesetBuffer) (token : String)
    (p : RulesetEntries)
    → list token ≡ ok p
    → p.continue ≡ ""
    → fill list (suc n) b token ≡ some (ok (replay b (entry_infos p.entries), p.revision))
unfolding fill
fill-last list n b token p e h =
    ap (fill_page b (fill list n)) e
    ∙ (rw ((eq_iff p.continue "").1 h)
        (ap (λ x. some (ok (x, p.revision))) (add_entries-replay b p.entries)))

fill-more :
    (list : String → Result RulesetEntries) (n : ℕ) (b : RulesetBuffer) (token : String)
    (p : RulesetEntries)
    → list token ≡ ok p
    → p.continue ≢ ""
    → fill list (suc n) b token ≡ fill list n (replay b (entry_infos p.entries)) p.continue
unfolding fill
fill-more list n b token p e h = elim (Bool-cases (p.continue == "")) [
  | inl same ↦ absurd (h ((eq_iff p.continue "").0 same))
  | inr other ↦
      ap (fill_page b (fill list n)) e
      ∙ (rw other (ap (λ x. fill list n x p.continue) (add_entries-replay b p.entries)))
]

-- One request for each page is enough: the buffer then holds the entries of all the pages, added in
-- the order of the listing, and the revision is that of the last page.
pub fill-pages :
    (list : String → Result RulesetEntries) (b : RulesetBuffer) (token : String)
    (ps : List RulesetEntries) (last : RulesetEntries)
    → Follows list token ps last
    → fill list (suc (length ps)) b token
      ≡ some (ok (replay b (page_infos ps ++ entry_infos last.entries), last.revision))
fill-pages list b token [] last (e, h) = fill-last list zero b token last e h
fill-pages list b token (p ∷ ps) last (e, more, next) =
    fill-more list (suc (length ps)) b token p e more
    ∙ fill-pages list (replay b (entry_infos p.entries)) p.continue ps last next
    ∙ ap (λ x. some (ok (x, last.revision))) (regroup b)
  where
    regroup :
        (b : RulesetBuffer)
        → replay (replay b (entry_infos p.entries)) (page_infos ps ++ entry_infos last.entries)
          ≡ replay b ((entry_infos p.entries ++ page_infos ps) ++ entry_infos last.entries)
    regroup b =
        sym (replay-append b (entry_infos p.entries) (page_infos ps ++ entry_infos last.entries))
        ∙ ap (replay b)
            (sym (append_assoc (entry_infos p.entries) (page_infos ps) (entry_infos last.entries)))
