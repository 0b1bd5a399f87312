-- ===== src/Store/Etcd/Listing.antt =====
-- List and Watch of store/etcd/rulesets.go. A read of a range of keys and the messages of a watch
-- are answers of etcd, and base64 is a pair of functions.
use Prim.Native.String
use regula.Json.{Bytes}
use regula.Store.{RulesetEntry, RulesetEntries, RulesetEvent, RulesetEvents}
use regula.Prelude.{
  ℕ, ℤ, pos, negsuc, neg_ℕ, ◌+◌, ltb_ℤ, String, Bool, ◌&&◌, ◌||◌, not, Option, none, some, List, [],
  ◌∷◌, last?, length, nat_eq, if◌then◌else◌, ◌==◌,
}
use regula.Outcome.{Error, Result, ok, err, panic, wrapped, store_error, StoreError, ◌>>=◌}
use regula.Strconv.{parse_int, format_int}
use regula.Paths.{path_join}
use regula.Store.Etcd.{Codec, wrap, rulesets_path, read_entry}

-- A read of the keys from `key` on: those below `range_end`, or those that begin with `key`.
pub record RangeRequest : Type 0 where
  pub key : String
  pub range_end : Option String
  pub limit : ℤ

pub record RangeResponse : Type 0 where
  pub kvs : List Bytes
  pub count : ℕ
  pub more : Bool
  pub revision : ℤ

-- base64.URLEncoding and clientv3.GetPrefixRangeEnd.
pub record Tokens : Type 0 where
  pub encode : String → String
  pub decode : String → Option String
  pub prefix_end : String → String

unfoldable pub page_limit : ℤ → ℤ
page_limit limit = if ltb_ℤ limit (pos 0) || ltb_ℤ (pos 100) limit then pos 50 else limit

module _ (cd : Codec) (ns : String) (tk : Tokens) where
  -- The request that goes on after a token.
  unfoldable pub resume : String → ℤ → Option String → Result RangeRequest
  unfolding rulesets_path
  resume prefix limit none = err (store_error StoreError.invalid_continue_token)
  resume prefix limit (some last) = ok (record {
    key = rulesets_path ns last "";
    range_end = some (tk.prefix_end (rulesets_path ns prefix ""));
    limit = limit;
  })

  unfoldable pub range_request : String → ℤ → String → Result RangeRequest
  unfolding rulesets_path resume
  range_request prefix limit token =
      if token == ""
      then ok (record { key = rulesets_path ns prefix ""; range_end = none; limit = limit })
      else resume prefix limit (tk.decode token)

  unfoldable pub read_entries : List Bytes → Result (List RulesetEntry)
  unfolding read_entry
  read_entries [] = ok []
  read_entries (b ∷ bs) = do e ← read_entry cd ns b; es ← read_entries bs; ok (e ∷ es)

  -- The token of the next page, which starts after this entry.
  unfoldable pub continue_after : RulesetEntry → String
  continue_after e = tk.encode (path_join (e.path ∷ String.◌++◌ e.version "\0" ∷ []))

  -- `entries.Entries[len(entries.Entries)-1]`.
  unfoldable pub with_token :
      RangeResponse → List RulesetEntry → Option RulesetEntry → Result RulesetEntries
  unfolding continue_after
  with_token resp es none = panic
  with_token resp es (some e) =
      ok (record { entries = es; revision = format_int resp.revision; continue = continue_after e })

  unfoldable pub finish_list : ℤ → RangeResponse → List RulesetEntry → Result RulesetEntries
  unfolding with_token
  finish_list limit resp es =
      if ltb_ℤ (pos (length es)) limit || not resp.more
      then ok (record { entries = es; revision = format_int resp.revision; continue = "" })
      else with_token resp es (last? es)

  -- What List makes of the answer.
  unfoldable pub list_page : String → ℤ → RangeResponse → Result RulesetEntries
  unfolding read_entries finish_list
  list_page prefix limit resp =
      if nat_eq resp.count 0 && not (prefix == "")
      then err (store_error StoreError.not_found)
      else (read_entries resp.kvs >>= finish_list limit resp)

  unfoldable pub list :
      (RangeRequest → Result RangeResponse) → String → ℤ → String → Result RulesetEntries
  unfolding page_limit range_request list_page
  list get_range prefix limit token = do
    req ← range_request prefix (page_limit limit) token
    resp ← wrap (get_range req) "failed to fetch all entries"
    list_page prefix (page_limit limit) resp

-- An event of etcd: a value that was put, or another kind.
pub data WatchEvent : Type 0 where
  put_event : Bytes → WatchEvent
  other_event : WatchEvent

-- A message of the watch.
pub data WatchMessage : Type 0 where
  failed : Error → WatchMessage
  happened : List WatchEvent → ℤ → WatchMessage

-- `i + 1` of an int64, which wraps.
abbrev next_revision : ℤ → ℤ
next_revision (pos n) =
    if nat_eq n 9223372036854775807 then negsuc 9223372036854775807 else pos (n + 1)
next_revision (negsuc n) = neg_ℕ n

-- The revision from which a watch starts, if it asks for one. A revision that is too large is read as
-- the largest int64.
unfoldable pub watch_from : String → Option ℤ
watch_from revision =
    if ltb_ℤ (pos 0) (parse_int revision).0
    then some (next_revision (parse_int revision).0)
    else none

module _ (cd : Codec) (ns : String) where
  -- The prefix that is watched, and from where.
  unfoldable pub watch_request : String → String → String × Option ℤ
  unfolding rulesets_path watch_from
  watch_request prefix revision = (rulesets_path ns prefix "", watch_from revision)

  unfoldable pub read_event : WatchEvent → Result RulesetEvent
  unfolding read_entry
  read_event other_event = ok (record { type = ""; path = ""; version = ""; rule_set = none })
  read_event (put_event b) = read_entry cd ns b >>= λ e.
      ok (record { type = "PUT"; path = e.path; version = e.version; rule_set = e.rule_set })

  unfoldable pub read_events : List WatchEvent → Result (List RulesetEvent)
  unfolding read_event
  read_events [] = ok []
  read_events (w ∷ ws) = do e ← read_event w; es ← read_events ws; ok (e ∷ es)

  -- The loop of Watch over the messages, which ends with the error of the context.
  unfoldable pub watch : String → Error → List WatchMessage → Result RulesetEvents
  unfolding read_events
  watch prefix done [] = err done
  watch prefix done (failed e ∷ ms) =
      err (wrapped e (String.◌++◌ "failed to watch prefix: '" (String.◌++◌ prefix "'")))
  watch prefix done (happened [] revision ∷ ms) = watch prefix done ms
  watch prefix done (happened (w ∷ ws) revision ∷ ms) =
      read_events (w ∷ ws) >>= λ es. ok (record { events = es; revision = format_int revision })
