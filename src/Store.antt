-- ===== src/Store.antt =====
-- The interface of store/service.go, and the signature of a ruleset in store/etcd/rulesets.go, which
-- every version under a path must match. Go leaves open the order in which the loop of matchWith
-- meets the parameters; here it is that of the list.
pub mod Matching
pub mod Names
pub mod Documents
pub mod Etcd
use regula.Prelude.{
  ℤ, Bool, true, false, String, Option, none, some, List, [], ◌∷◌, if◌then◌else◌, ◌==◌, lookup,
  insert,
}
use Prim.Native.String
use regula.Outcome.{Error, Result, ok, err, validation_error, ◌>>=◌, ◌>>◌}
use regula.Floats.{Floats}
use regula.Rule.Expr.{Param}
use regula.Rule.Eval.{Params}
use regula.Engine.{EvalResult}
use regula.Ruleset.{Ruleset, ParamTypes, ruleset_params}

pub record RulesetEntry : Type 0 where
  pub path : String
  pub version : String
  pub rule_set : Option Ruleset

pub record RulesetEntries : Type 0 where
  pub entries : List RulesetEntry
  pub revision : String
  pub continue : String

pub record RulesetEvent : Type 0 where
  pub type : String
  pub path : String
  pub version : String
  pub rule_set : Option Ruleset

pub record RulesetEvents : Type 0 where
  pub events : List RulesetEvent
  pub revision : String

-- The interface RulesetService over a store in the state `S`. Put returns its entry beside
-- ErrNotModified, so the two come side by side. Latest and OneByVersion are called by nothing that
-- uses the interface.
pub record RulesetService (fl : Floats) (S : Type 0) : Type 0 where
  pub list : S → String → ℤ → String → Result RulesetEntries
  pub watch : S → String → String → Result RulesetEvents
  pub put : S → String → Ruleset → Result (S × (Option RulesetEntry × Option Error))
  pub eval : S → String → Option (Params fl) → Result EvalResult
  pub eval_version : S → String → String → Option (Params fl) → Result EvalResult

unfoldable pub is_validation_error : Error → Bool
is_validation_error (validation_error field content reason) = true
is_validation_error _ = false

pub record Signature : Type 0 where
  pub return_type : String
  pub param_types : ParamTypes

-- The loop of newSignature.
unfoldable pub note_types : List Param → ParamTypes → ParamTypes
note_types [] pt = pt
note_types (p ∷ ps) pt = note_types ps (insert p.name p.type pt)

unfoldable pub new_signature : Ruleset → Signature
unfolding note_types
new_signature rs = record { return_type = rs.type; param_types = note_types (ruleset_params rs) [] }

-- The body of the loop of matchWith, for what the signature holds under the name.
unfoldable pub match_param : Option String → String → String → Result (Unit {0})
match_param none name tp =
    err (validation_error "param" name "signature mismatch: unknown parameter")
match_param (some stp) name tp =
    if tp == stp
    then ok tt
    else err (
        validation_error "param type" tp
          (String.◌++◌ "signature mismatch: param must be of type " stp))

unfoldable pub match_params : ParamTypes → ParamTypes → Result (Unit {0})
unfolding match_param
match_params own [] = ok tt
match_params own ((name, tp) ∷ rest) =
    match_param (lookup name own) name tp >>= λ _. match_params own rest

unfoldable pub match_with : Signature → Signature → Result (Unit {0})
unfolding match_params
match_with s other =
    if s.return_type == other.return_type
    then match_params s.param_types other.param_types
    else err (
        validation_error "return type" other.return_type
          (String.◌++◌ "signature mismatch: return type must be of type " s.return_type))
