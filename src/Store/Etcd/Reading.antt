-- ===== src/Store/Etcd/Reading.antt =====
-- What Latest, OneByVersion, Eval and EvalVersion of store/etcd/rulesets.go return for a shelf.
use regula.Store.{RulesetEntry}
use regula.Prelude.{
  String, false, Option, none, some, eq_iff, ◌==◌, ◌≡◌, refl, ap, ◌∙◌, inl, inr, Bool-cases,
}
use regula.Outcome.{Result, ok, err, store_error, StoreError, engine_error, EngineError, ◌>>=◌}
use regula.Floats.{Floats}
use regula.Rule.Eval.{Params}
use regula.Ruleset.{eval_ruleset}
use regula.Engine.{EvalResult}
use regula.Store.Names.Validation.{IsPath}
use regula.Store.Etcd.{
  KeyValues, Codec, latest, one_by_version, no_ruleset, eval_entry, eval, eval_version,
}
use regula.Store.Etcd.Parts.{IsPath-not_empty}
use regula.Store.Etcd.Keys.{entry_key, key_path}
use regula.Store.Etcd.Shelf.{IsCodec, Shelf, entry_of, held, Holds}
use regula.Store.Etcd.Steps.{read_entry-stored}

-- What the shelf's latest ruleset evaluates to, with its version.
abbrev pub eval_shelf : (fl : Floats) → Option (Params fl) → Option Shelf → Result EvalResult
eval_shelf fl ps none = err (engine_error EngineError.ruleset_not_found)
eval_shelf fl ps (some s) =
    eval_ruleset fl ps s.current >>= λ v. ok (record { value = v; version = s.version })

-- The shelf's latest entry.
abbrev found : String → Option Shelf → Result RulesetEntry
found p none = err (store_error StoreError.not_found)
found p (some s) = ok (entry_of p s)

-- The entry that was latest is still there in a later state.
abbrev pub Keeps : (cd : Codec) → String → KeyValues → KeyValues → String → Option Shelf → Type 0
Keeps cd ns kv later p none = Unit
Keeps cd ns kv later p (some s) =
    held cd ns later (entry_key p s.version) ≡ held cd ns kv (entry_key p s.version)

module _ (cd : Codec) (ns : String) (laws : IsCodec cd) (p : String) (hp : IsPath p) where
  not_empty : (p == "") ≡ false
  not_empty = elim (Bool-cases (p == "")) [
    | inl e ↦ absurd (IsPath-not_empty p hp ((eq_iff p "").0 e))
    | inr e ↦ e
  ]

  latest-Holds :
      (kv later : KeyValues) (o : Option Shelf)
      → Holds cd ns kv p o
      → Keeps cd ns kv later p o
      → latest cd ns (ok kv) (ok later) p ≡ found p o
  unfolding latest key_path
  latest-Holds kv later none h k = rw (not_empty, h.no_latest) refl
  latest-Holds kv later (some s) (h, portable) k =
      rw (not_empty, h.pointed, k ∙ h.stored) (read_entry-stored cd ns laws p s portable)

  one_by_version-stored :
      (kv : KeyValues) (s : Shelf)
      → Holds cd ns kv p (some s)
      → one_by_version cd ns (ok kv) p s.version ≡ ok (entry_of p s)
  unfolding one_by_version key_path
  one_by_version-stored kv s (h, portable) =
      rw (not_empty, h.stored) (read_entry-stored cd ns laws p s portable)

-- The latest version, asked for by name, evaluates to the same.
abbrev pub AnswersVersion :
    (fl : Floats) (cd : Codec)
    → String
    → KeyValues
    → String
    → Option (Params fl)
    → Option Shelf
    → Type 0
AnswersVersion fl cd ns kv p ps none = Unit
AnswersVersion fl cd ns kv p ps (some s) =
    eval_version cd ns fl (ok kv) p s.version ps ≡ eval_shelf fl ps (some s)

-- Where the state holds a shelf under a path, Eval returns what the shelf's latest ruleset evaluates
-- to, with its version, even if the second of its two reads is served in a later state that keeps
-- the entry; it returns ErrRulesetNotFound where nothing was put. EvalVersion of that version, in
-- the state of the first read, returns the same.
pub eval_refines :
    (fl : Floats) (cd : Codec) (ns : String) (kv later : KeyValues) (p : String) (o : Option Shelf)
    (ps : Option (Params fl))
    → IsCodec cd
    → IsPath p
    → Holds cd ns kv p o
    → Keeps cd ns kv later p o
    → (eval cd ns fl (ok kv) (ok later) p ps ≡ eval_shelf fl ps o)
      × AnswersVersion fl cd ns kv p ps o
unfolding eval eval_version no_ruleset eval_entry
eval_refines fl cd ns kv later p o ps laws hp h k = (go o h k, version o h)
  where
    go :
        (o : Option Shelf)
        → Holds cd ns kv p o
        → Keeps cd ns kv later p o
        → eval cd ns fl (ok kv) (ok later) p ps ≡ eval_shelf fl ps o
    go none h k =
        ap (λ r. no_ruleset r >>= eval_entry cd ns fl ps)
          (latest-Holds cd ns laws p hp kv later none h k)
    go (some s) h k =
        ap (λ r. no_ruleset r >>= eval_entry cd ns fl ps)
          (latest-Holds cd ns laws p hp kv later (some s) h k)

    version : (o : Option Shelf) → Holds cd ns kv p o → AnswersVersion fl cd ns kv p ps o
    version none h = tt
    version (some s) h =
        ap (λ r. no_ruleset r >>= eval_entry cd ns fl ps)
          (one_by_version-stored cd ns laws p hp kv s h)
