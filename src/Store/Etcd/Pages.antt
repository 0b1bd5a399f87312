-- ===== src/Store/Etcd/Pages.antt =====
-- A page of List of store/etcd/rulesets.go and the answer that it is made of.
use regula.Json.{Bytes}
use regula.Store.{RulesetEntry, RulesetEntries}
use regula.Prelude.{
  leb, if◌then◌else◌, ℕ, suc, ◌≤◌, ℤ, pos, negsuc, ltb_ℤ, String, Bool, true, false, ◌&&◌, ◌||◌,
  not, Option, none, some, List, [], ◌∷◌, last?, length, nat_eq, if◌then◌else◌, ◌==◌, eq_iff, ◌≡◌,
  ◌≢◌, refl, sym, ap, subst, ◌∙◌, ◌⊎◌, inl, inr, Bool-cases, All, arith,
}
use regula.Outcome.{Result, ok, err, panic, store_error, StoreError, ◌>>=◌, >>=-eq-ok}
use regula.Strconv.{format_int}
use regula.Store.Names.Validation.{IsPath}
use regula.Store.Etcd.{Codec, wrap, rulesets_path, read_entry}
use regula.Store.Etcd.Parts.{IsPart}
use regula.Store.Etcd.Listing.{
  RangeRequest, RangeResponse, Tokens, page_limit, resume, range_request, read_entries,
  continue_after, with_token, finish_list, list_page, list,
}
use regula.Store.Etcd.Tokens.{next, last_path, resumed_key, last_path-not_empty}

-- base64 gives a text back, and makes no empty text of one that is not empty.
pub record IsTokens (tk : Tokens) : Type 0 where
  pub decodes : (s : String) → tk.decode (tk.encode s) ≡ some s
  pub not_empty : (s : String) → s ≢ "" → tk.encode s ≢ ""

-- etcd returns no more values than the limit, where there is one.
abbrev pub ObeysLimit : (RangeRequest → Result RangeResponse) → Type 0
ObeysLimit get_range =
    (req : RangeRequest) (resp : RangeResponse) (n : ℕ)
    → get_range req ≡ ok resp
    → req.limit ≡ pos (suc n)
    → length resp.kvs ≤ suc n

-- An entry as Put writes it.
abbrev pub IsStoredEntry : RulesetEntry → Type 0
IsStoredEntry e = IsPath e.path × IsPart e.version

-- How many entries a page may have for a limit: as many as it says from 1 to 100, and else 50.
abbrev pub allowed : ℤ → ℕ
allowed (pos n) = if leb n 100 then n else 50
allowed (negsuc n) = 50

pub page_limit-allowed :
    (limit : ℤ)
    → limit ≢ pos 0
    → (n : ℕ) × (page_limit limit ≡ pos (suc n)) × (suc n ≡ allowed limit)
unfolding page_limit
page_limit-allowed (negsuc k) h = rw negative (49, refl, refl)
  where
    negative : ltb_ℤ (negsuc k) (pos 0) ≡ true
    negative = ground arith
page_limit-allowed (pos ℕ.zero) h = absurd (h refl)
page_limit-allowed (pos (ℕ.suc k)) h = elim (Bool-cases (ltb_ℤ (pos 100) (pos (suc k)))) [
  | inl e ↦ rw (not_negative, e) (49, refl, ground arith)
  | inr e ↦ rw (not_negative, e) (k, refl, ground arith)
]
  where
    not_negative : ltb_ℤ (pos (suc k)) (pos 0) ≡ false
    not_negative = ground arith

pub last?-All {ℓ} :
    {A : Type ℓ} (P : A → Type 0) (xs : List A) (x : A) → All P xs → last? xs ≡ some x → P x
last?-All P [] x h e = cc
last?-All P (y ∷ []) x (h, _) e = subst P (cc) h
last?-All P (y ∷ (z ∷ xs)) x (_, h) e = last?-All P (z ∷ xs) x h e

module _ (cd : Codec) (ns : String) (tk : Tokens) where
  pub read_entries-length :
      (bs : List Bytes) (es : List RulesetEntry)
      → read_entries cd ns tk bs ≡ ok es
      → length es ≡ length bs
  unfolding read_entries
  read_entries-length [] es h = cc
  read_entries-length (b ∷ bs) es h =
      let (e, _, rest) =
        >>=-eq-ok (read_entry cd ns b) (λ e. read_entries cd ns tk bs >>= λ fs. ok (e ∷ fs)) h in
      let (fs, read, made) = >>=-eq-ok (read_entries cd ns tk bs) (λ fs. ok (e ∷ fs)) rest in
      let same : e ∷ fs ≡ es = cc in
      ap length (sym same) ∙ ap (λ n. suc n) (read_entries-length bs fs read)

  -- How a page ends.
  pub record Ends (page : RulesetEntries) (es : List RulesetEntry) : Type 0 where
    pub entries : page.entries ≡ es
    pub token :
        (page.continue ≡ "")
        ⊎ ((e : RulesetEntry) × (last? es ≡ some e) × (page.continue ≡ continue_after cd ns tk e))

  with_token-Ends :
      (resp : RangeResponse) (es : List RulesetEntry) (o : Option RulesetEntry)
      (page : RulesetEntries)
      → last? es ≡ o
      → with_token cd ns tk resp es o ≡ ok page
      → Ends page es
  unfolding with_token
  with_token-Ends resp es none page l h = cc
  with_token-Ends resp es (some e) page l h =
      let same : record {
        entries = es;
        revision = format_int resp.revision;
        continue = continue_after cd ns tk e;
      }
          ≡ page =
        cc in
      record {
        entries = ap (λ q. RulesetEntries.entries q) (sym same);
        token = inr (e, l, ap (λ q. RulesetEntries.continue q) (sym same));
      }

  finish_list-Ends :
      (limit : ℤ) (resp : RangeResponse) (es : List RulesetEntry) (page : RulesetEntries)
      → finish_list cd ns tk limit resp es ≡ ok page
      → Ends page es
  unfolding finish_list
  finish_list-Ends limit resp es page h = go (ltb_ℤ (pos (length es)) limit || not resp.more) h
    where
      go :
          (b : Bool)
          → (if b
              then ok (record { entries = es; revision = format_int resp.revision; continue = "" })
              else with_token cd ns tk resp es (last? es))
            ≡ ok page
          → Ends page es
      go true k =
          let same : record { entries = es; revision = format_int resp.revision; continue = "" }
              ≡ page =
            cc in
          record {
            entries = ap (λ q. RulesetEntries.entries q) (sym same);
            token = inl (ap (λ q. RulesetEntries.continue q) (sym same));
          }
      go false k = with_token-Ends resp es (last? es) page refl k

  -- What List returns is the page of what etcd answers.
  pub record Asked (get_range : RangeRequest → Result RangeResponse) (prefix token : String)
      (limit : ℤ) (page : RulesetEntries) : Type 0 where
    pub request : RangeRequest
    pub response : RangeResponse
    pub made : range_request cd ns tk prefix limit token ≡ ok request
    pub answered : get_range request ≡ ok response
    pub es : List RulesetEntry
    pub read : read_entries cd ns tk response.kvs ≡ ok es
    pub ends : Ends page es

  list_page-read :
      (prefix : String) (limit : ℤ) (resp : RangeResponse) (page : RulesetEntries)
      → list_page cd ns tk prefix limit resp ≡ ok page
      → (es : List RulesetEntry) × (read_entries cd ns tk resp.kvs ≡ ok es) × Ends page es
  unfolding list_page
  list_page-read prefix limit resp page h = go (nat_eq resp.count 0 && not (prefix == "")) h
    where
      go :
          (b : Bool)
          → (if b
              then err (store_error StoreError.not_found)
              else (read_entries cd ns tk resp.kvs >>= finish_list cd ns tk limit resp))
            ≡ ok page
          → (es : List RulesetEntry) × (read_entries cd ns tk resp.kvs ≡ ok es) × Ends page es
      go true k = cc
      go false k =
          let (es, read, rest) =
            >>=-eq-ok (read_entries cd ns tk resp.kvs) (finish_list cd ns tk limit resp) k in
          (es, read, finish_list-Ends limit resp es page rest)

  wrap-ok :
      {A : Type 0} (r : Result A) (context : String) (a : A) → wrap r context ≡ ok a → r ≡ ok a
  wrap-ok (ok b) context a h = h
  wrap-ok (err e) context a h = cc
  wrap-ok panic context a h = cc

  pub list-Asked :
      (get_range : RangeRequest → Result RangeResponse) (prefix token : String) (limit : ℤ)
      (page : RulesetEntries)
      → list cd ns tk get_range prefix limit token ≡ ok page
      → Asked get_range prefix token (page_limit limit) page
  unfolding list
  list-Asked get_range prefix token limit page h =
      let (req, made, rest) =
        >>=-eq-ok (range_request cd ns tk prefix (page_limit limit) token)
          (λ req.
            wrap (get_range req) "failed to fetch all entries"
            >>= list_page cd ns tk prefix (page_limit limit))
          h in
      let (resp, answered, done) =
        >>=-eq-ok (wrap (get_range req) "failed to fetch all entries")
          (list_page cd ns tk prefix (page_limit limit)) rest in
      let (es, read, ends) = list_page-read prefix (page_limit limit) resp page done in
      record {
        request = req;
        response = resp;
        made = made;
        answered = wrap-ok (get_range req) "failed to fetch all entries" resp answered;
        es = es;
        read = read;
        ends = ends;
      }

  pub range_request-limit :
      (prefix token : String) (limit : ℤ) (req : RangeRequest)
      → range_request cd ns tk prefix limit token ≡ ok req
      → req.limit ≡ limit
  unfolding range_request resume
  range_request-limit prefix token limit req h = go (token == "") (tk.decode token) h
    where
      go :
          (b : Bool) (o : Option String)
          → (if b
              then ok (record { key = rulesets_path ns prefix ""; range_end = none; limit = limit })
              else resume cd ns tk prefix limit o)
            ≡ ok req
          → req.limit ≡ limit
      go true o k = cc
      go false none k = cc
      go false (some last) k = cc

  -- The request for what comes after an entry.
  abbrev pub request_after : String → ℤ → RulesetEntry → RangeRequest
  request_after prefix limit e = record {
    key = next (rulesets_path ns e.path e.version);
    range_end = some (tk.prefix_end (rulesets_path ns prefix ""));
    limit = limit;
  }

  pub range_request-after :
      (prefix : String) (limit : ℤ) (e : RulesetEntry)
      → IsTokens tk
      → IsStoredEntry e
      → range_request cd ns tk prefix limit (continue_after cd ns tk e)
        ≡ ok (request_after prefix limit e)
  unfolding range_request resume continue_after
  range_request-after prefix limit e ht (hp, hv) =
      rw (not_blank, ht.decodes (last_path e.path e.version), resumed_key ns e.path e.version hp hv)
        refl
    where
      not_blank : (tk.encode (last_path e.path e.version) == "") ≡ false
      not_blank = elim (Bool-cases (tk.encode (last_path e.path e.version) == "")) [
        | inl b ↦ absurd (
            ht.not_empty (last_path e.path e.version) (last_path-not_empty e.path e.version hp hv)
              ((eq_iff _ _).0 b))
        | inr b ↦ b
      ]
