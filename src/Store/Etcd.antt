-- ===== src/Store/Etcd.antt =====
-- The RulesetService of store/etcd/rulesets.go over the keys and values that etcd holds.
--
-- A value is a text, or a document, which stands for its JSON text. A round trip to etcd is a
-- `Result` of the state in which it is served. The software transaction of Put takes effect at
-- once or not at all: one that is run again after a conflict is one that started later.
pub mod Parts
pub mod Keys
pub mod Shelf
pub mod Steps
pub mod Refinement
pub mod Reading
pub mod Ending
pub mod Invariant
pub mod Listing
pub mod Tokens
pub mod Pages
pub mod Paging
pub mod Service
use Prim.Native.String
use regula.Prelude.{
  String, Bool, true, false, Option, none, some, List, [], ◌∷◌, lookup, insert, if◌then◌else◌, ◌==◌,
}
use regula.Outcome.{
  Error, Result, ok, err, panic, wrapped, store_error, StoreError, engine_error, EngineError, ◌>>=◌,
  ◌>>◌,
}
use regula.Json.{Json, Bytes, raw, document}
use regula.Paths.{path_join}
use regula.Floats.{Floats}
use regula.Rule.Eval.{Params}
use regula.Ruleset.{Ruleset, eval_ruleset}
use regula.Ruleset.Json.{ruleset_json}
use regula.Engine.{EvalResult}
use regula.Store.{RulesetEntry, Signature, match_with, is_validation_error}
use regula.Store.Names.{validate_ruleset}
use regula.Store.Documents.{
  zero_entry, entry_json, signature_json, unmarshal_signature, unmarshal_entry,
}

abbrev pub KeyValues : Type 0
KeyValues = List (String × Bytes)

-- The functions of other packages: encoding/json on a whole text, the digest of crypto/md5 as a
-- text, and `gjson.Get(json, path).Str`.
pub record Codec : Type 0 where
  pub print : Json → String
  pub parse : String → Result Json
  pub md5 : String → String
  pub get_str : Json → String → String

unfoldable pub rulesets_path : String → String → String → String
rulesets_path ns p v = path_join (ns ∷ "rulesets" ∷ "entries" ∷ p ∷ v ∷ [])

unfoldable pub checksums_path : String → String → String
checksums_path ns p = path_join (ns ∷ "rulesets" ∷ "checksums" ∷ p ∷ [])

unfoldable pub signatures_path : String → String → String
signatures_path ns p = path_join (ns ∷ "rulesets" ∷ "signatures" ∷ p ∷ [])

unfoldable pub latest_ruleset_path : String → String → String
latest_ruleset_path ns p = path_join (ns ∷ "rulesets" ∷ "latest" ∷ p ∷ [])

-- `errors.Wrap`.
abbrev pub wrap {ℓ} : {A : Type ℓ} → Result A → String → Result A
wrap (ok a) context = ok a
wrap (err e) context = err (wrapped e context)
wrap panic context = panic

-- `Get` of the transaction, which is empty for a key that is not there.
abbrev pub stm_get : KeyValues → String → Bytes
stm_get kv key = elim (lookup key kv) [ some b ↦ b | none ↦ raw "" ]

-- The value of a key that must be there: `Kvs[0]`.
abbrev pub first_value : Option Bytes → Result Bytes
first_value none = panic
first_value (some b) = ok b

-- The value of a key: `resp.Count` is 0 where it is not there.
abbrev pub found_value : Option Bytes → Result Bytes
found_value none = err (store_error StoreError.not_found)
found_value (some b) = ok b

-- What Eval makes of the error of Latest.
unfoldable pub no_ruleset : Result RulesetEntry → Result RulesetEntry
no_ruleset (err (store_error StoreError.not_found)) =
    err (engine_error EngineError.ruleset_not_found)
no_ruleset r = r

module _ (cd : Codec) (ns : String) where
  abbrev pub bytes_text : Bytes → String
  bytes_text (raw s) = s
  bytes_text (document j) = cd.print j

  abbrev pub read_json : Bytes → Result Json
  read_json (raw s) = cd.parse s
  read_json (document j) = ok j

  -- The checksum of a ruleset: the encoder ends the document with a line feed.
  unfoldable pub checksum : Ruleset → String
  checksum rs = cd.md5 (String.◌++◌ (cd.print (ruleset_json rs)) "\n")

  unfoldable pub read_entry : Bytes → Result RulesetEntry
  read_entry b = wrap (read_json b >>= unmarshal_entry cd.get_str) "failed to unmarshal entry"

  -- Latest, whose two reads are served one after the other.
  unfoldable pub latest : Result KeyValues → Result KeyValues → String → Result RulesetEntry
  unfolding latest_ruleset_path read_entry
  latest first second path = if path == "" then err (store_error StoreError.not_found) else do
    kv ← wrap first (String.◌++◌ "failed to fetch latest version: " path)
    pointer ← found_value (lookup (latest_ruleset_path ns path) kv)
    later ← wrap second (String.◌++◌ "failed to fetch the entry: " path)
    value ← first_value (lookup (bytes_text pointer) later)
    read_entry value

  unfoldable pub one_by_version : Result KeyValues → String → String → Result RulesetEntry
  unfolding rulesets_path read_entry
  one_by_version trip path version =
      if path == "" then err (store_error StoreError.not_found) else do
        kv ← wrap trip (String.◌++◌ "failed to fetch the entry: " path)
        value ← found_value (lookup (rulesets_path ns path version) kv)
        read_entry value

  -- The test of a signature that is there.
  unfoldable pub check_signature : Bytes → Signature → Result (Unit {0})
  unfolding unmarshal_signature match_with
  check_signature held sig = if bytes_text held == "" then ok tt else do
    cur ← wrap (read_json held >>= unmarshal_signature) "failed to decode ruleset signature"
    match_with cur sig

  -- The first signature is kept.
  unfoldable pub write_signature : KeyValues → String → Signature → KeyValues
  unfolding signature_json signatures_path
  write_signature kv path sig =
      if bytes_text (stm_get kv (signatures_path ns path)) == ""
      then insert (signatures_path ns path) (document (signature_json sig)) kv
      else kv

  -- The writes of a new version.
  unfoldable pub write_version :
      KeyValues → String → Ruleset → Signature → String → KeyValues × RulesetEntry
  unfolding write_signature checksums_path rulesets_path latest_ruleset_path entry_json checksum
  write_version kv path rs sig version =
      let re : RulesetEntry = record { path = path; version = version; rule_set = some rs } in
      let signed = write_signature kv path sig in
      let summed = insert (checksums_path ns path) (raw (checksum rs)) signed in
      let stored = insert (rulesets_path ns path version) (document (entry_json re)) summed in
      (insert (latest_ruleset_path ns path) (raw (rulesets_path ns path version)) stored, re)

  -- The transaction for a ruleset that differs from the latest one.
  unfoldable pub put_new :
      KeyValues
      → String
      → Ruleset
      → Signature
      → Result String
      → Result (KeyValues × (RulesetEntry × Option Error))
  unfolding check_signature write_version signatures_path
  put_new kv path rs sig ksuid = do
    check_signature (stm_get kv (signatures_path ns path)) sig
    version ← wrap ksuid "failed to generate ruleset version"
    ok ((write_version kv path rs sig version).0, ((write_version kv path rs sig version).1, none))

  -- The transaction, with the entry that it sets and ErrNotModified, which writes nothing.
  unfoldable pub txn :
      KeyValues
      → String
      → Ruleset
      → Signature
      → Result String
      → Result (KeyValues × (RulesetEntry × Option Error))
  unfolding put_new read_entry checksums_path latest_ruleset_path checksum
  txn kv path rs sig ksuid =
      let fresh = put_new kv path rs sig ksuid in
      if bytes_text (stm_get kv (checksums_path ns path)) == checksum rs
      then (read_entry (stm_get kv (bytes_text (stm_get kv (latest_ruleset_path ns path))))
          >>= λ entry. ok (kv, (entry, some (store_error StoreError.not_modified))))
      else fresh

  -- What Put returns: the entry may be a nil pointer.
  abbrev pub Answer : Type 0
  Answer = KeyValues × (Option RulesetEntry × Option Error)

  unfoldable pub finish_put :
      KeyValues → Result (KeyValues × (RulesetEntry × Option Error)) → Result Answer
  unfolding is_validation_error
  finish_put kv (ok (kv', (entry, e))) = ok (kv', (some entry, e))
  finish_put kv (err e) =
      if is_validation_error e
      then ok (kv, (some zero_entry, some e))
      else ok (kv, (none, some (wrapped e "failed to put ruleset")))
  finish_put kv panic = panic

  -- The end of the transaction: etcd may fail instead.
  unfoldable pub commit :
      Option Error
      → Result (KeyValues × (RulesetEntry × Option Error))
      → Result (KeyValues × (RulesetEntry × Option Error))
  commit none out = out
  commit (some e) out = err e

  unfoldable pub put_valid :
      KeyValues → String → Ruleset → Result String → Option Error → Result Signature → Result Answer
  unfolding txn commit finish_put
  put_valid kv path rs ksuid failure (ok sig) =
      finish_put kv (commit failure (txn kv path rs sig ksuid))
  put_valid kv path rs ksuid failure (err e) = ok (kv, (none, some e))
  put_valid kv path rs ksuid failure panic = panic

  -- Put, for the outcome of ksuid.NewRandom and the failure of the transaction, if any.
  unfoldable pub put : KeyValues → String → Ruleset → Result String → Option Error → Result Answer
  unfolding validate_ruleset put_valid
  put kv path rs ksuid failure = put_valid kv path rs ksuid failure (validate_ruleset path rs)

  module _ (fl : Floats) where
    -- The last lines of Eval and EvalVersion: a nil ruleset panics.
    unfoldable pub eval_entry : Option (Params fl) → RulesetEntry → Result EvalResult
    unfolding eval_ruleset
    eval_entry ps re = elim re.rule_set [
      | none ↦ panic
      | some rs ↦ (eval_ruleset fl ps rs >>= λ v. ok (record { value = v; version = re.version }))
    ]

    unfoldable pub eval :
        Result KeyValues → Result KeyValues → String → Option (Params fl) → Result EvalResult
    unfolding latest no_ruleset eval_entry
    eval first second path ps = no_ruleset (latest first second path) >>= eval_entry ps

    unfoldable pub eval_version :
        Result KeyValues → String → String → Option (Params fl) → Result EvalResult
    unfolding one_by_version no_ruleset eval_entry
    eval_version trip path version ps =
        no_ruleset (one_by_version trip path version) >>= eval_entry ps
